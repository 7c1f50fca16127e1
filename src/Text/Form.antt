-- ===== src/Text/Form.antt =====
-- `CheckResult` of src/post.c, which says whether any field of a submitted form has data.
use goombaserver.Common.{
  ℕ, zero, suc, ◌-◌, Bool, true, false, Option, none, some, [], ◌∷◌, Bytes, length, ltb,
  if◌then◌else◌,
}
use goombaserver.Text.{strchr}

-- What the loop finds in a field: no `=`, an answer, or the text behind the field's `&`.
pub data Field : Type 0 where
  no_field : Field
  answer : Bool → Field
  next_field : Bytes → Field

unfoldable pub tail : Bytes → Bytes
tail [] = []
tail (c ∷ rest) = rest

-- The value that starts at `s`, the `=`: it has data if more than the `=` stands before the `&` at
-- `t`, or before the end.
unfoldable pub check_value : Bytes → Option Bytes → Field
unfolding tail
check_value s none = answer (ltb 1 (length s))
check_value s (some t) = if ltb 1 (length s - length t) then answer true else next_field (tail t)

unfoldable pub check_field : Bytes → Field
unfolding check_value
check_field t = elim (strchr t 61) [ none ↦ no_field | some s ↦ check_value s (strchr s 38) ]

-- The loop, on fuel: every round starts at a shorter text.
unfoldable pub check_fields : ℕ → Bytes → Option Bool
check_fields zero t = none
check_fields (suc fuel) t = elim (check_field t) [
  | no_field ↦ some false
  | answer b ↦ some b
  | next_field t' ↦ check_fields fuel t'
]

-- A NULL result is no form, and needs no field here.
unfoldable pub check_result : Bytes → Option Bool
check_result res = if ltb (length res) 2 then some false else check_fields (length res) res
