-- ===== src/Input/Lines.antt =====
-- The inner loop of `getnextchar` in src/lex.c, from a later byte of the same line.
use goombaserver.Common.{
  ℕ, zero, suc, ◌+◌, ◌<◌, ◌≤◌, ◌≡◌, refl, ap, sym, Bool, true, false, ◌||◌, Bool-cases, [], ◌∷◌,
  Bytes, drop, length, ltb, ltb→lt, lt→ltb, ◌==◌, arith, inl, inr, ◌⊎◌, subst,
}
use goombaserver.Input.{ends_line, fill, line_buf_size}

-- The last byte of a line ends it, and so does none of those before: a line that filled the buffer
-- without an end is not whole.
abbrev pub Terminated : Bytes → Type 0
Terminated [] = ⊥
Terminated (c ∷ []) = ends_line c ≡ true
Terminated (c ∷ d ∷ s) = Terminated (d ∷ s)

module _ (pa : ℕ → ℕ) (gsize : ℕ) where
  -- The tests that end the loop of `getnextchar` at the byte `i`.
  abbrev stops : ℕ → ℕ → Bool
  stops seek i = ends_line (pa (seek + i)) || (suc i == line_buf_size)

  fill_stop :
      (k seek i : ℕ)
      → seek + i < gsize
      → stops seek i ≡ true
      → fill pa gsize false (suc k) seek i ≡ (true, pa (seek + i) ∷ [])
  unfolding fill
  fill_stop k seek i lt stop = rw (lt→ltb (seek + i) gsize lt, stop) refl

  fill_more :
      (k seek i : ℕ) (line : Bytes)
      → seek + i < gsize
      → stops seek i ≡ false
      → fill pa gsize false k seek (suc i) ≡ (true, line)
      → fill pa gsize false (suc k) seek i ≡ (true, pa (seek + i) ∷ line)
  unfolding fill
  fill_more k seek i line lt stop more = rw (lt→ltb (seek + i) gsize lt, stop, more) refl

  -- What a loop that filled a line did at the first byte.
  abbrev Steps : ℕ → ℕ → ℕ → Bytes → Type 0
  Steps k seek i line =
      (seek + i < gsize)
      × (((line ≡ pa (seek + i) ∷ []) × (stops seek i ≡ true))
          ⊎ ((rest : Bytes) × (line ≡ pa (seek + i) ∷ rest)
              × (stops seek i ≡ false)
              × (fill pa gsize false k seek (suc i) ≡ (true, rest))))

  fill-Steps :
      (k seek i : ℕ) (line : Bytes)
      → fill pa gsize false (suc k) seek i ≡ (true, line)
      → Steps k seek i line
  unfolding fill
  fill-Steps k seek i line =
      let more = fill pa gsize false k seek (suc i) in
      elim (Bool-cases (ltb (seek + i) gsize)) [
        | inr e ↦ rw e (λ h. cc (ap (λ p. p.0) h))
        | inl e ↦ rw e (elim (Bool-cases (stops seek i)) [
          | inl s ↦ rw s (λ h. (ltb→lt (seek + i) gsize e, inl (sym (ap (λ p. p.1) h), refl)))
          | inr s ↦ rw s (λ h. (
            ltb→lt (seek + i) gsize e,
            inr (more.1, sym (ap (λ p. p.1) h), refl, ap (λ b. (b, more.1)) (ap (λ p. p.0) h)),
          ))
        ])
      ]

  fill_zero : (seek i : ℕ) (line : Bytes) → ¬ (fill pa gsize false zero seek i ≡ (true, line))
  unfolding fill
  fill_zero seek i line e = cc (ap (λ p. p.0) e)

  ends-stops : (seek i : ℕ) → ends_line (pa (seek + i)) ≡ true → stops seek i ≡ true
  ends-stops seek i e = rw e refl

  -- A byte that does not end a line does not stop a loop that has more room, either.
  goes_on :
      (seek seek' j j' : ℕ)
      → seek' + j' ≡ seek + j
      → suc j' < line_buf_size
      → stops seek j ≡ false
      → stops seek' j' ≡ false
  goes_on seek seek' j j' at lt = rw at (elim (Bool-cases (ends_line (pa (seek + j)))) [
    | inl e ↦ rw e (λ h. cc h)
    | inr e ↦ rw e (λ h. differs (suc j') lt)
  ])
    where
      differs : (n : ℕ) → n < line_buf_size → (n == line_buf_size) ≡ false
      differs n lt = ground (arith, lt)

  fill_empty : (k seek i : ℕ) → ¬ (fill pa gsize false k seek i ≡ (true, []))
  fill_empty zero seek i e = fill_zero seek i [] e
  fill_empty (suc k) seek i e = elim (fill-Steps k seek i [] e).1 [
    | inl (l, s) ↦ cc l
    | inr (rest, l, s, more) ↦ cc l
  ]

  fill_room : (k seek i : ℕ) (line : Bytes) → fill pa gsize false k seek i ≡ (true, line) → 0 < k
  fill_room zero seek i line e = absurd (fill_zero seek i line e)
  fill_room (suc k) seek i line e = omega arith

  Terminated-rest :
      (c k seek i : ℕ) (rest : Bytes)
      → fill pa gsize false k seek i ≡ (true, rest)
      → Terminated (c ∷ rest)
      → Terminated rest
  Terminated-rest c k seek i [] e h = absurd (fill_empty k seek i e)
  Terminated-rest c k seek i (d ∷ rest) e h = h

  -- A line is read with the same end from each place before that end.
  fill_again :
      (k k' seek seek' j j' : ℕ) (line : Bytes)
      → seek' + j' ≡ seek + j
      → j' ≤ j
      → k + j ≡ line_buf_size
      → k' + j' ≡ line_buf_size
      → fill pa gsize false k seek j ≡ (true, line)
      → Terminated line
      → fill pa gsize false k' seek' j' ≡ (true, line)
  fill_again zero k' seek seek' j j' line at le r r' e h = absurd (fill_zero seek j line e)
  fill_again (suc k) zero seek seek' j j' line at le r r' e h = absurd (omega (arith, le, r, r'))
  fill_again (suc k) (suc k') seek seek' j j' line at le r r' e h =
      let steps = fill-Steps k seek j line e in
      elim steps.1 [
        | inl (l, s) ↦ rw l (
            rw (sym at) (
              fill_stop k' seek' j' (omega (arith, at, steps.0)) (
                ends-stops seek' j'
                  (subst (λ n. ends_line (pa n) ≡ true) (sym at) (subst Terminated l h)))))
        | inr (rest, l, s, more) ↦ rw l (
            rw (sym at) (
              fill_more k' seek' j' rest (omega (arith, at, steps.0))
                (goes_on seek seek' j j' at
                  (omega (arith, le, r, fill_room k seek (suc j) rest more)) s)
                (fill_again k k' seek seek' (suc j) (suc j') rest (omega (arith, at))
                  (omega (arith, le)) (omega (arith, r)) (omega (arith, r')) more
                  (Terminated-rest (pa (seek + j)) k seek (suc j) rest more
                    (subst Terminated l h)))))
      ]

  -- What is left of a line from its byte `i`.
  pub fill_rest :
      (i k seek j : ℕ) (line : Bytes)
      → k + j ≡ line_buf_size
      → i < length line
      → fill pa gsize false k seek j ≡ (true, line)
      → Terminated line
      → fill pa gsize false line_buf_size (seek + j + i) 0 ≡ (true, drop i line)
  fill_rest zero k seek j line r lt e h =
      fill_again k line_buf_size seek (seek + j + 0) j 0 line (omega arith) (omega arith) r refl e h
  fill_rest (suc i) zero seek j line r lt e h = absurd (fill_zero seek j line e)
  fill_rest (suc i) (suc k) seek j line r lt e h =
      let steps = fill-Steps k seek j line e in
      elim steps.1 [
        | inl (l, s) ↦ absurd (omega (arith, subst (λ l. suc i < length l) l lt))
        | inr (rest, l, s, more) ↦ rw l (
            subst (λ n. fill pa gsize false line_buf_size n 0 ≡ (true, drop i rest)) (omega arith)
              (fill_rest i k seek (suc j) rest (omega (arith, r))
                (omega (arith, subst (λ l. suc i < length l) l lt)) more
                (Terminated-rest (pa (seek + j)) k seek (suc j) rest more (subst Terminated l h))))
      ]

  pub fill_in_text :
      (seek : ℕ) (line : Bytes)
      → fill pa gsize false line_buf_size seek 0 ≡ (true, line)
      → seek < gsize
  fill_in_text seek line e = omega (arith, (fill-Steps 4095 seek 0 line e).0)
