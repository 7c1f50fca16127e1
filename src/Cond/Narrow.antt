-- ===== src/Cond/Narrow.antt =====
-- `CheckCond` of src/cond.c, which gives a `long` back as an `int`.
use goombaserver.Common.{
  ℕ, zero, suc, ◌%◌, ◌^◌, ◌≡◌, refl, ap, ◌∙◌, not, none, some, Bytes, length, ltb, ◌==◌, arith,
  Bool-cases, Option-cases, inl, inr,
}
use goombaserver.Common.Int.{pos, to_int, truth}
use goombaserver.Machine.{Kind, lnumber, dnumber, string, variable, array, VarTree, Item}
use goombaserver.Cond.{check_cond, cond_value}

truth_pos : (w : ℕ) → truth (pos w) ≡ not (w == 0)
truth_pos zero = refl
truth_pos (suc w) = ground arith

truth_int : (n : ℕ) → truth (to_int (pos n)) ≡ not (n % 2 ^ 32 == 0)
unfolding to_int
truth_int n = elim (Bool-cases (ltb (n % 2 ^ 32) (2 ^ 31))) [
  | inl e ↦ rw (e, to_int) (truth_pos (n % 2 ^ 32))
  | inr e ↦ rw (e, to_int) (ground arith)
]

-- The number that a condition's value is taken for: the length of a text, and else the number.
abbrev pub amount : Kind → ℕ → Bytes → ℕ
amount string n text = length text
amount _ n text = n

module _ {D : Type 0} where
  -- The type that counts: the variable's, if the value is a variable's.
  abbrev pub type_of : (ℕ → VarTree D) → Item D → Kind
  type_of vars s = elim s.var [ none ↦ s.kind | some v ↦ (vars v).kind ]

  value-low_bits :
      (k : Kind) (s : Item D) (n : ℕ)
      → s.intval ≡ pos n
      → truth (cond_value k s) ≡ not (amount k n s.strval % 2 ^ 32 == 0)
  unfolding cond_value
  value-low_bits lnumber s n e = ap (λ z. truth (to_int z)) e ∙ truth_int n
  value-low_bits dnumber s n e = ap (λ z. truth (to_int z)) e ∙ truth_int n
  value-low_bits string s n e = truth_int (length s.strval)
  value-low_bits variable s n e = ap (λ z. truth (to_int z)) e ∙ truth_int n
  value-low_bits array s n e = ap (λ z. truth (to_int z)) e ∙ truth_int n

  -- The condition of a value with a number that is not negative holds exactly if the low 32 bits of
  -- the number, or for a text of its length, are not all 0; so a multiple of 2^32 counts as false.
  pub check_cond-low_bits :
      (vars : ℕ → VarTree D) (s : Item D) (n : ℕ)
      → s.intval ≡ pos n
      → truth (check_cond vars s) ≡ not (amount (type_of vars s) n s.strval % 2 ^ 32 == 0)
  unfolding check_cond
  check_cond-low_bits vars s n e = elim (Option-cases s.var) [
    | inl v ↦ rw (v, check_cond) (value-low_bits s.kind s n e)
    | inr (a, v) ↦ rw (v, check_cond) (value-low_bits (vars a).kind s n e)
  ]
