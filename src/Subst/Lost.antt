-- ===== src/Subst/Lost.antt =====
-- `SubVar` of src/var.c, where a value fills the buffer.
use goombaserver.Common.{
  ℕ, suc, ◌+◌, ◌-◌, ◌≡◌, refl, ap, ◌∙◌, Bool, true, false, Option, none, some, [], ◌∷◌, ◌++◌, Bytes,
  length, length-append, ltb, ◌==◌, arith,
}
use goombaserver.Subst.{has_dollar, put_value, sub_from, sub_var}
use goombaserver.Subst.Pieces.{IsName, Ends, span_word, step_plain, step_value, put_room, room_left}

module _ {S : Type 0} (get : Bytes → Option Bytes → Bool → S → Option Bytes × S) where
  -- The buffer is full: a new one is made, and the position goes to the end of it.
  step_full :
      (fuel : ℕ) (st : S) (l : ℕ) (out : Bytes) (slash : Bool) (c : ℕ) (s : Bytes)
      → ltb (l - 1) (length out) ≡ true
      → sub_from get (suc fuel) st false l out slash (c ∷ s) ≡ some (out, st)
  unfolding sub_from
  step_full fuel st l out slash c s e = rw (sub_from, e) refl

  fuel_lem :
      (n rest : Bytes) (a c d : ℕ)
      → length (36 ∷ a ∷ n ++ c ∷ d ∷ rest) + 1 ≡ suc (suc (suc (length n + length rest + 2)))
  fuel_lem n rest a c d = omega (arith, length-append n (c ∷ d ∷ rest))

  sub_from_lost :
      (fuel : ℕ) (st : S) (l : ℕ) (a : ℕ) (n : Bytes) (c d : ℕ) (rest v : Bytes) (st' : S)
      → IsName (a ∷ n)
      → Ends (c ∷ d ∷ rest)
      → (c == 36) ≡ false
      → get (a ∷ n) none false st ≡ (some v, st')
      → length v + 1 ≡ l
      → sub_from get (suc (suc (suc fuel))) st false l [] false (36 ∷ a ∷ n ++ c ∷ d ∷ rest)
        ≡ some (v ++ c ∷ [], st')
  sub_from_lost fuel st l a n c d rest v st' w ends ne e full =
      let s = c ∷ d ∷ rest in
      let next : S → ℕ → Bytes → Option (Bytes × S) =
        λ st' l' out'. sub_from get (suc (suc fuel)) st' false l' out' false s in
      step_value get (suc (suc fuel)) st l [] (room_left get [] 0 l (omega (arith, full))) a
        (n ++ s) (a ∷ n) s (span_word true a n s w ends.0) ends.1
      ∙ ap (λ r. put_value get r l [] next) e
      ∙ put_room get (some v) st' l [] next (omega (arith, full))
      ∙ step_plain get (suc fuel) st' l v (room_left get v 0 l (omega (arith, full))) false c
          (d ∷ rest) ne
      ∙ step_full fuel st' l (v ++ c ∷ []) (c == 92) d rest
          (ground (arith, full, length-append v (c ∷ [])))

  -- Where a text is `$name`, followed by at least two bytes that do not continue the name, and the value
  -- is 1023 bytes longer than the text, all but the first of the bytes behind the name are lost.
  pub sub_var_lost :
      (st : S) (a : ℕ) (n : Bytes) (c d : ℕ) (rest v : Bytes) (st' : S)
      → IsName (a ∷ n)
      → Ends (c ∷ d ∷ rest)
      → (c == 36) ≡ false
      → get (a ∷ n) none false st ≡ (some v, st')
      → length v ≡ length (36 ∷ a ∷ n ++ c ∷ d ∷ rest) + 1023
      → sub_var get st (36 ∷ a ∷ n ++ c ∷ d ∷ rest) ≡ some (v ++ c ∷ [], st')
  unfolding sub_var has_dollar
  sub_var_lost st a n c d rest v st' w ends ne e full =
      let s = 36 ∷ a ∷ n ++ c ∷ d ∷ rest in
      ap (λ f. sub_from get f st false (length s + 1024) [] false s) (fuel_lem n rest a c d)
      ∙ sub_from_lost (length n + length rest + 2) st (length s + 1024) a n c d rest v st' w ends ne
          e (omega (arith, full))
