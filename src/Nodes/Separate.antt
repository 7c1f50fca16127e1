-- ===== src/Nodes/Separate.antt =====
-- No two nodes of a stack share an address, and unwinding to a mark gives the marked stack back.
use goombaserver.Common.{
  ℕ, ◌+◌, ◌<◌, ◌≡◌, ◌≢◌, refl, sym, subst, false, List, [], ◌∷◌, ◌++◌, All, Lacks, Distinct,
  append-nil, arith,
}
use goombaserver.Nodes.{
  Nodes, push, push_with, recycle, recycle_with, unwind, unwind_from, first, addresses, points_to,
}

-- The live nodes and those of the re-use stack are apart, and the allocator is past them.
pub record IsSeparate {A : Type 0} (r : Nodes A) : Type 0 where
  pub distinct : Distinct (addresses r.live ++ r.free)
  pub below : All (λ n. n < r.next) (addresses r.live ++ r.free)

All-middle :
    (P : ℕ → Type 0) (xs ys : List ℕ) (n : ℕ) → All P (xs ++ n ∷ ys) → P n × All P (xs ++ ys)
All-middle P [] ys n h = h
All-middle P (x ∷ xs) ys n (px, h) = let (pn, rest) = All-middle P xs ys n h in (pn, (px, rest))

All-insert :
    (P : ℕ → Type 0) (xs ys : List ℕ) (n : ℕ) → P n → All P (xs ++ ys) → All P (xs ++ n ∷ ys)
All-insert P [] ys n p h = (p, h)
All-insert P (x ∷ xs) ys n p (px, h) = (px, All-insert P xs ys n p h)

Distinct-middle : (xs ys : List ℕ) (n : ℕ) → Distinct (xs ++ n ∷ ys) → Distinct (n ∷ (xs ++ ys))
Distinct-middle [] ys n h = h
Distinct-middle (x ∷ xs) ys n (lx, d) =
    let (ln, d') = Distinct-middle xs ys n d in
    let (x≢n, lx') = All-middle (λ m. x ≢ m) xs ys n lx in (((λ e. x≢n (sym e)), ln), (lx', d'))

Distinct-insert : (xs ys : List ℕ) (n : ℕ) → Distinct (n ∷ (xs ++ ys)) → Distinct (xs ++ n ∷ ys)
Distinct-insert [] ys n h = h
Distinct-insert (x ∷ xs) ys n ((n≢x, ln), (lx, d)) =
    (All-insert (λ m. x ≢ m) xs ys n (λ e. n≢x (sym e)) lx, Distinct-insert xs ys n (ln, d))

-- A number above all others is not among them.
Lacks-below : (n : ℕ) (xs : List ℕ) → All (λ m. m < n) xs → Lacks n xs
Lacks-below n [] h = tt
Lacks-below n (x ∷ xs) (lt, h) = (omega arith, Lacks-below n xs h)

All-grow : (n : ℕ) (xs : List ℕ) → All (λ m. m < n) xs → All (λ m. m < n + 1) xs
All-grow n [] h = tt
All-grow n (x ∷ xs) (lt, h) = (omega arith, All-grow n xs h)

Lacks-left : (n : ℕ) (xs ys : List ℕ) → Lacks n (xs ++ ys) → Lacks n xs
Lacks-left n [] ys h = tt
Lacks-left n (x ∷ xs) ys (ne, h) = (ne, Lacks-left n xs ys h)

pub Distinct-append : (xs ys : List ℕ) → Distinct (xs ++ ys) → Distinct xs
Distinct-append [] ys h = tt
Distinct-append (x ∷ xs) ys (l, d) = (Lacks-left x xs ys l, Distinct-append xs ys d)

module _ {A : Type 0} where
  push_with-IsSeparate :
      (fs : List ℕ) (a : A) (r : Nodes A)
      → Distinct (addresses r.live ++ fs)
      → All (λ n. n < r.next) (addresses r.live ++ fs)
      → r.free ≡ fs
      → IsSeparate (push_with fs a r)
  unfolding push_with
  push_with-IsSeparate [] a r d b e =
      let b' = rw append-nil at b in
      record {
        distinct =
            rw e (rw append-nil (Lacks-below r.next (addresses r.live) b', rw append-nil at d));
        below = rw e (rw append-nil (omega arith, All-grow r.next (addresses r.live) b'));
      }
  push_with-IsSeparate (f ∷ fs) a r d b e = record {
    distinct = Distinct-middle (addresses r.live) fs f d;
    below = All-middle (λ n. n < r.next) (addresses r.live) fs f b;
  }

  -- Pushing keeps the nodes apart.
  pub push-IsSeparate : (a : A) (r : Nodes A) → IsSeparate r → IsSeparate (push a r)
  unfolding push
  push-IsSeparate a r h = push_with-IsSeparate r.free a r h.distinct h.below refl

  recycle_with-IsSeparate :
      (live : List (ℕ × A)) (r : Nodes A)
      → Distinct (addresses live ++ r.free)
      → All (λ n. n < r.next) (addresses live ++ r.free)
      → r.live ≡ live
      → IsSeparate (recycle_with live r)
  unfolding recycle_with
  recycle_with-IsSeparate [] r d b e = record { distinct = rw e d; below = rw e b }
  recycle_with-IsSeparate ((n, a) ∷ rest) r d b e = record {
    distinct = Distinct-insert (addresses rest) r.free n d;
    below = All-insert (λ m. m < r.next) (addresses rest) r.free n b.0 b.1;
  }

  -- Popping keeps the nodes apart.
  pub recycle-IsSeparate : (r : Nodes A) → IsSeparate r → IsSeparate (recycle r)
  unfolding recycle
  recycle-IsSeparate r h = recycle_with-IsSeparate r.live r h.distinct h.below refl

  Lacks-append :
      (n : ℕ) (xs : List (ℕ × A)) (ys : List (ℕ × A))
      → Lacks n (addresses (xs ++ ys))
      → Lacks n (addresses ys)
  Lacks-append n [] ys h = h
  Lacks-append n ((m, a) ∷ xs) ys h = Lacks-append n xs ys h.1

  points_to-first :
      (n : ℕ) (xs : List (ℕ × A)) → Lacks n (addresses xs) → points_to (first xs) n ≡ false
  points_to-first n [] h = refl
  points_to-first n ((m, a) ∷ xs) (ne, h) = ground arith

  unwind_from_live :
      (pop : Nodes A → Nodes A)
      → ((r : Nodes A) (x : ℕ × A) (rest : List (ℕ × A)) → r.live ≡ x ∷ rest → (pop r).live ≡ rest)
      → (above kept : List (ℕ × A)) (r : Nodes A) → Distinct (addresses (above ++ kept))
      → r.live ≡ above ++ kept
      → (unwind_from pop (first kept) (above ++ kept) r).live ≡ kept
  unfolding unwind_from
  unwind_from_live pop step [] [] r d e = e
  unwind_from_live pop step [] ((n, a) ∷ kept) r d e = ground arith
  unwind_from_live pop step ((m, b) ∷ above) kept r (lacks, d) e =
      rw (points_to-first m kept (Lacks-append m above kept lacks))
        (unwind_from_live pop step above kept (pop r) d (step r (m, b) (above ++ kept) e))

  -- Unwinding to the address of the node that was on top when the mark was taken leaves exactly
  -- the nodes of that time, whatever was pushed on them since.
  pub unwind_live :
      (pop : Nodes A → Nodes A)
      → ((r : Nodes A) (x : ℕ × A) (rest : List (ℕ × A)) → r.live ≡ x ∷ rest → (pop r).live ≡ rest)
      → (above kept : List (ℕ × A)) (r : Nodes A) → Distinct (addresses (above ++ kept))
      → r.live ≡ above ++ kept
      → (unwind pop (first kept) r).live ≡ kept
  unfolding unwind
  unwind_live pop step above kept r d e =
      subst (λ l. (unwind_from pop (first kept) l r).live ≡ kept) (sym e)
        (unwind_from_live pop step above kept r d e)
