-- ===== src/Input/Body.antt =====
-- The body of a function that `DefineFunc` of src/lex.c stores.
use goombaserver.Common.{
  ℕ, zero, suc, ◌+◌, ◌-◌, ◌<◌, ◌≤◌, ◌≡◌, refl, subst, ap, false, ◌||◌, Option, none, some, ◌>>=◌,
  [], ◌∷◌, Bytes, ◌==◌, if◌then◌else◌, arith,
}

module _ (pa : ℕ → ℕ) where
  -- The two loops, which look for a parenthesis and stop at a NUL, too; `start` is `cfstart`. The
  -- first runs on fuel. The second returns `none` where it goes on in front of `start`.
  unfoldable pub find_open : ℕ → ℕ → ℕ → Option ℕ
  find_open zero start i = none
  find_open (suc fuel) start i =
      let rest = find_open fuel start (suc i) in
      if (pa (start + i) == 0) || (pa (start + i) == 40) then some i else rest

  unfoldable pub find_close : ℕ → ℕ → Option ℕ
  find_close start zero = if (pa (start + 0) == 0) || (pa (start + 0) == 41) then some 0 else none
  find_close start (suc i) =
      let rest = find_close start i in
      if (pa (start + suc i) == 0) || (pa (start + suc i) == 41) then some (suc i) else rest

  -- `memcpy`.
  unfoldable pub copied_bytes : ℕ → ℕ → Bytes
  copied_bytes start zero = []
  copied_bytes start (suc n) = pa start ∷ copied_bytes (suc start) n

  -- The bytes that are copied, where `place` is `SeekPos + inpos`. `none` stands for a size of -1,
  -- too, where no parenthesis was found; `bufsize` stops at 0.
  unfoldable pub body_of : ℕ → ℕ → ℕ → Option Bytes
  body_of fuel start place = find_open fuel start 0 >>= λ i.
      find_close (start + i) ((place - start) - i) >>= λ j.
      if j == 0 then none else some (copied_bytes (suc (start + i)) (j - 1))

  find_open_lem :
      (fuel start i n m : ℕ)
      → m ≡ i + n
      → n < fuel
      → ((k : ℕ) → k < m → ((pa (start + k) == 0) || (pa (start + k) == 40)) ≡ false)
      → pa (start + m) ≡ 40
      → find_open fuel start i ≡ some m
  unfolding find_open
  find_open_lem zero start i n m e lt before at = absurd (omega (arith, lt))
  find_open_lem (suc fuel) start i zero m e lt before at =
      let first : m ≡ i = omega (arith, e) in
      subst (λ i. find_open (suc fuel) start i ≡ some m) first (rw at refl)
  find_open_lem (suc fuel) start i (suc n) m e lt before at =
      rw (before i (omega (arith, e)))
        (find_open_lem fuel start (suc i) n m (omega (arith, e)) (omega (arith, lt)) before at)

  find_close_lem :
      (start j n m : ℕ)
      → m ≡ j + n
      → ((k : ℕ) → j < k → k ≤ m → ((pa (start + k) == 0) || (pa (start + k) == 41)) ≡ false)
      → pa (start + j) ≡ 41
      → find_close start m ≡ some j
  unfolding find_close
  find_close_lem start j zero m e behind at =
      let last : j ≡ m = omega (arith, e) in
      subst (λ m. find_close start m ≡ some j) last (stop j at)
    where
      stop : (j : ℕ) → pa (start + j) ≡ 41 → find_close start j ≡ some j
      stop zero at = rw at refl
      stop (suc j) at = rw at refl
  find_close_lem start j (suc n) zero e behind at = absurd (omega (arith, e))
  find_close_lem start j (suc n) (suc m) e behind at =
      rw (behind (suc m) (omega (arith, e)) (omega arith)) (
        find_close_lem start j n m (omega (arith, e))
          (λ k over le. behind k over (omega (arith, le))) at)

  not_zero : (n : ℕ) → (suc n == 0) ≡ false
  not_zero n = ground arith

  -- `DefineFunc` stores what stands between the first `(` behind `start` and the last `)` in front of
  -- the next character, whatever bytes are between them: `i` and `i + 1 + n` are their places.
  pub body_of_lem :
      (fuel start i n m : ℕ)
      → i < fuel
      → ((k : ℕ) → k < i → ((pa (start + k) == 0) || (pa (start + k) == 40)) ≡ false)
      → pa (start + i) ≡ 40
      → pa (start + i + suc n) ≡ 41
      → n < m
      → ((k : ℕ)
          → suc n < k
          → k ≤ m
          → ((pa (start + i + k) == 0) || (pa (start + i + k) == 41)) ≡ false)
      → body_of fuel start (start + i + m) ≡ some (copied_bytes (suc (start + i)) n)
  unfolding body_of
  body_of_lem fuel start i n m lt before opens closes room behind =
      rw (find_open_lem fuel start 0 i i (omega arith) lt before opens) (
        rw left (
          rw (find_close_lem (start + i) (suc n) (m - suc n) m (omega (arith, room)) behind closes)
            size))
    where
      left : (start + i + m - start) - i ≡ m
      left = omega arith

      less : suc n - 1 ≡ n
      less = omega arith

      size :
          (if suc n == 0 then none else some (copied_bytes (suc (start + i)) (suc n - 1)))
          ≡ some (copied_bytes (suc (start + i)) n)
      size = rw (not_zero n) (ap (λ k. some (copied_bytes (suc (start + i)) k)) less)
