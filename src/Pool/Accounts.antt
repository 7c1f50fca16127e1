-- ===== src/Pool/Accounts.antt =====
-- Sequences of allocations in the pools of src/pool.c.
use goombaserver.Common.{
  ℕ, ◌+◌, ◌≤◌, ◌≡◌, refl, sym, false, not, ◌&&◌, ◌||◌, List, [], ◌∷◌, Bytes, length, ltb, ◌==◌,
  if◌then◌else◌, arith, subst, Bool-cases, inl, inr,
}
use goombaserver.Pool.{
  PoolNum, page_pool, same_pool, Pools, init_pool, update, ensure_pool, account, pool_alloc,
  pool_strdup, pool_clear, pool_free,
}

pub data Op : Type 0 where
  alloc : PoolNum → ℕ → Op
  strdup : PoolNum → Bytes → Op
  clear free : PoolNum → Op

unfoldable pub run_op : Op → Pools → Pools
run_op (alloc n bytes) p = pool_alloc n bytes p
run_op (strdup n str) p = pool_strdup n str p
run_op (clear n) p = pool_clear n p
run_op (free n) p = pool_free n p

unfoldable pub run_ops : List Op → Pools → Pools
run_ops [] p = p
run_ops (o ∷ os) p = run_ops os (run_op o p)

-- Until a pool is over the limit no page is given up; then one is, and only once.
pub record IsAccounted (p : Pools) : Type 0 where
  pub within : p.already_over ≡ false → (n : PoolNum) → p.size n ≤ p.max_data_space
  pub exits_once : p.exits ≡ (if p.already_over then 1 else 0)

init-IsAccounted : (default_max : ℕ) → IsAccounted (init_pool default_max)
unfolding init_pool
init-IsAccounted default_max = record { within = λ _ n. omega arith; exits_once = refl }

account_over :
    (n : PoolNum) (bytes : ℕ) (p : Pools)
    → (account n bytes p).already_over ≡ false
    → (p.already_over ≡ false) × (p.size n + bytes ≤ p.max_data_space)
unfolding account
account_over n bytes p e = ground arith

account_size :
    (n : PoolNum) (bytes : ℕ) (p : Pools)
    → ((account n bytes p).size ≡ update n (p.size n + bytes) p.size)
      × ((account n bytes p).max_data_space ≡ p.max_data_space)
unfolding account
account_size n bytes p =
    elim (Bool-cases (ltb p.max_data_space (p.size n + bytes) && not p.already_over)) [
      | inl e ↦ rw (e, account) (refl, refl)
      | inr e ↦ rw (e, account) (refl, refl)
    ]

update_le : (n k : PoolNum) (a b : ℕ) (f : PoolNum → ℕ) → a ≤ b → f k ≤ b → update n a f k ≤ b
update_le n k a b f ha hf = elim (Bool-cases (same_pool n k)) [ inl e ↦ rw e ha | inr e ↦ rw e hf ]

account-within :
    (n : PoolNum) (bytes : ℕ) (p : Pools)
    → IsAccounted p
    → (account n bytes p).already_over ≡ false
    → (k : PoolNum) → (account n bytes p).size k ≤ (account n bytes p).max_data_space
account-within n bytes p h e k =
    let (e0, le) = account_over n bytes p e in
    let (s, m) = account_size n bytes p in
    subst (λ f. f k ≤ (account n bytes p).max_data_space) (sym s)
      (subst (λ b. update n (p.size n + bytes) p.size k ≤ b) (sym m)
        (update_le n k _ _ p.size le (h.within e0 k)))

account-IsAccounted :
    (n : PoolNum) (bytes : ℕ) (p : Pools) → IsAccounted p → IsAccounted (account n bytes p)
account-IsAccounted n bytes p h = record {
  within = account-within n bytes p h;
  exits_once = let once = h.exits_once in unfold account in ground arith;
}

ensure-IsAccounted : (n : PoolNum) (p : Pools) → IsAccounted p → IsAccounted (ensure_pool n p)
unfolding ensure_pool
ensure-IsAccounted n p h = elim (Bool-cases (p.made n)) [
  | inl e ↦ rw (e, ensure_pool) h
  | inr e ↦ rw (e, ensure_pool) (record { within = h.within; exits_once = h.exits_once })
]

alloc-IsAccounted :
    (n : PoolNum) (bytes : ℕ) (p : Pools) → IsAccounted p → IsAccounted (pool_alloc n bytes p)
unfolding pool_alloc
alloc-IsAccounted n bytes p h =
    let h' = account-IsAccounted n bytes (ensure_pool n p) (ensure-IsAccounted n p h) in
    record { within = h'.within; exits_once = h'.exits_once }

strdup-alloc :
    (n : PoolNum) (str : Bytes) (p : Pools) → pool_strdup n str p ≡ pool_alloc n (length str + 1) p
unfolding pool_strdup pool_alloc
strdup-alloc n str p = refl

clear-IsAccounted : (n : PoolNum) (p : Pools) → IsAccounted p → IsAccounted (pool_clear n p)
unfolding pool_clear
clear-IsAccounted n p h = elim (Bool-cases (same_pool n page_pool || (p.size n == 0))) [
  | inl e ↦ rw (e, pool_clear) h
  | inr e ↦
      rw (e, pool_clear)
        (elim (Bool-cases (p.made n)) [
          | inl f ↦ rw f (record {
            within = λ o k. update_le n k 0 _ p.size (omega arith) (h.within o k);
            exits_once = h.exits_once;
          })
          | inr f ↦ rw f (record {
            within = λ o k. update_le n k 0 _ p.size (omega arith) (h.within o k);
            exits_once = h.exits_once;
          })
        ])
]

free-IsAccounted : (n : PoolNum) (p : Pools) → IsAccounted p → IsAccounted (pool_free n p)
unfolding pool_free
free-IsAccounted n p h = elim (Bool-cases (same_pool n page_pool || (p.size n == 0))) [
  | inl e ↦ rw (e, pool_free) h
  | inr e ↦
      rw (e, pool_free)
        (record {
          within = λ o k. update_le n k 0 _ p.size (omega arith) (h.within o k);
          exits_once = h.exits_once;
        })
]

op-IsAccounted : (o : Op) (p : Pools) → IsAccounted p → IsAccounted (run_op o p)
unfolding run_op
op-IsAccounted (alloc n bytes) p h = alloc-IsAccounted n bytes p h
op-IsAccounted (strdup n str) p h =
    subst IsAccounted (sym (strdup-alloc n str p)) (alloc-IsAccounted n _ p h)
op-IsAccounted (clear n) p h = clear-IsAccounted n p h
op-IsAccounted (free n) p h = free-IsAccounted n p h

ops-IsAccounted : (os : List Op) (p : Pools) → IsAccounted p → IsAccounted (run_ops os p)
unfolding run_ops
ops-IsAccounted [] p h = h
ops-IsAccounted (o ∷ os) p h = ops-IsAccounted os (run_op o p) (op-IsAccounted o p h)

-- After any sequence of operations from the start, the page was given up at most once; and as long as
-- it was not, no pool holds more than the limit.
pub run_ops-IsAccounted :
    (default_max : ℕ) (os : List Op) → IsAccounted (run_ops os (init_pool default_max))
run_ops-IsAccounted default_max os = ops-IsAccounted os _ (init-IsAccounted default_max)
