-- ===== src/Input/Ends.antt =====
-- The end of a text in `getnextchar` of src/lex.c.
use goombaserver.Common.{
  ℕ, zero, suc, ◌+◌, ◌<◌, ◌≤◌, ◌≡◌, refl, sym, subst, false, Bool-cases, none, some, ltb, ltb→lt,
  ◌==◌, arith, inl, inr, ◌⊎◌,
}
use goombaserver.Input.{
  Lexer, ends_line, fill, line_of, line_buf_size, start_line, store_line, next_line, next_char,
  char_at,
}

module _ (pa : ℕ → ℕ) (gsize seek : ℕ) where
  -- No byte from `seek` to the end of the text ends a line.
  abbrev pub HasNoEnd : Type 0
  HasNoEnd = (j : ℕ) → seek + j < gsize → ends_line (pa (seek + j)) ≡ false

  fill-HasNoEnd :
      (k i : ℕ)
      → HasNoEnd
      → gsize < seek + line_buf_size
      → k + i ≡ line_buf_size
      → (fill pa gsize false k seek i).0 ≡ false
  unfolding fill
  fill-HasNoEnd zero i no_end short room = refl
  fill-HasNoEnd (suc k) i no_end short room = elim (Bool-cases (ltb (seek + i) gsize)) [
    | inr e ↦ rw e refl
    | inl e ↦ rw e (
        rw (no_end i (ltb→lt (seek + i) gsize e)) (
          rw (differs (suc i) (omega (arith, short, ltb→lt (seek + i) gsize e)))
            (fill-HasNoEnd k (suc i) no_end short (omega (arith, room)))))
  ]
    where
      differs : (n : ℕ) → n < line_buf_size → (n == line_buf_size) ≡ false
      differs n lt = ground (arith, lt)

next_line-HasNoEnd :
    (s : Lexer)
    → s.eval_mode ≡ false
    → HasNoEnd s.pa s.gsize s.pa_pos
    → s.gsize < s.pa_pos + line_buf_size
    → ((next_line s).0 ≡ 0) × ((next_line s).1.pa_pos ≡ s.pa_pos)
unfolding next_line start_line store_line
next_line-HasNoEnd s eval no_end short = elim (Bool-cases (ltb s.gsize s.pa_pos)) [
  | inl e ↦ rw e (refl, refl)
  | inr e ↦ rw (e, lost) (refl, refl)
]
  where
    lost : (line_of s).0 ≡ false
    lost = rw eval (fill-HasNoEnd s.pa s.gsize s.pa_pos line_buf_size 0 no_end short refl)

-- The bytes behind the last line end of a text are never read: where the buffer is used up, the next
-- character is 0, which is the end of the text, and the position stays where it was. The text is no
-- text of an `eval`, and what is left of it does not fill the buffer.
pub next_char-HasNoEnd :
    (s : Lexer)
    → (s.inpos ≡ none) ⊎ ((i : ℕ) × (s.inpos ≡ some i) × (s.g_length ≤ i))
    → s.eval_mode ≡ false
    → HasNoEnd s.pa s.gsize s.pa_pos
    → s.gsize < s.pa_pos + line_buf_size
    → ((next_char s).0 ≡ 0) × ((next_char s).1.pa_pos ≡ s.pa_pos)
unfolding char_at
next_char-HasNoEnd s used eval no_end short = elim used [
  | inl e ↦ subst (λ o. ((char_at o s).0 ≡ 0) × ((char_at o s).1.pa_pos ≡ s.pa_pos)) (sym e) lost
  | inr (i, e, past) ↦
      subst (λ o. ((char_at o s).0 ≡ 0) × ((char_at o s).1.pa_pos ≡ s.pa_pos)) (sym e)
        (rw (not_before i s.g_length past) lost)
]
  where
    lost : ((next_line s).0 ≡ 0) × ((next_line s).1.pa_pos ≡ s.pa_pos)
    lost = next_line-HasNoEnd s eval no_end short

    not_before : (i n : ℕ) → n ≤ i → ltb i n ≡ false
    not_before i n le = ground (arith, le)
