-- ===== src/Text/Fields.antt =====
-- `CheckResult` of src/post.c on the text of a whole form.
use goombaserver.Common.{
  ℕ, zero, suc, ◌-◌, ◌<◌, ◌≡◌, refl, sym, ap, ◌∙◌, Bool, true, false, ◌||◌, none, some, List, [],
  ◌∷◌, ◌++◌, All, Lacks, Bytes, length, length-append, ltb, if◌then◌else◌, arith, tests, Bool-cases,
  inl, inr,
}
use goombaserver.Text.{strchr}
use goombaserver.Text.Form.{
  answer, next_field, tail, check_value, check_field, check_fields, check_result,
}

-- A form as the browser sends it: fields `name=value`, with `&` between them.
unfoldable pub encode_form : List (Bytes × Bytes) → Bytes
encode_form [] = []
encode_form ((name, value) ∷ []) = name ++ 61 ∷ value
encode_form ((name, value) ∷ (f ∷ fs)) = name ++ 61 ∷ (value ++ 38 ∷ encode_form (f ∷ fs))

abbrev is_filled : Bytes → Bool
is_filled [] = false
is_filled (c ∷ rest) = true

unfoldable pub any_filled : List (Bytes × Bytes) → Bool
any_filled [] = false
any_filled ((name, value) ∷ fs) = is_filled value || any_filled fs

-- A name has no `=` in it, and a value no `&`.
abbrev pub IsForm : List (Bytes × Bytes) → Type 0
IsForm = All (λ f. Lacks 61 f.0 × Lacks 38 f.1)

pub strchr_behind :
    (name rest : Bytes) (c : ℕ) → Lacks c name → strchr (name ++ c ∷ rest) c ≡ some (c ∷ rest)
unfolding strchr
strchr_behind [] rest c _ = ground arith
strchr_behind (b ∷ name) rest c (ne, all) = grind (arith, strchr_behind name rest c all)

strchr-Lacks : (s : Bytes) (c : ℕ) → Lacks c s → strchr s c ≡ none
unfolding strchr
strchr-Lacks [] c _ = refl
strchr-Lacks (b ∷ s) c (ne, all) = grind (arith, strchr-Lacks s c all)

filled_length : (value : Bytes) → ltb 1 (suc (length value)) ≡ is_filled value
filled_length [] = refl
filled_length (c ∷ value) = ground arith

last_field :
    (name value : Bytes)
    → Lacks 61 name
    → Lacks 38 value
    → check_field (name ++ 61 ∷ value) ≡ answer (is_filled value)
unfolding check_field check_value
last_field name value hn hv =
    rw
      (
        strchr_behind name value 61 hn,
        strchr-Lacks (61 ∷ value) 38 ((λ e. ground arith), hv),
        check_field,
        check_value,
      )
      (ap (λ b. answer b) (filled_length value))

value_length :
    (value rest : Bytes)
    → length (61 ∷ (value ++ 38 ∷ rest)) - length (38 ∷ rest) ≡ suc (length value)
value_length value rest = omega (arith, length-append value (38 ∷ rest))

value_step :
    (value rest : Bytes)
    → check_value (61 ∷ (value ++ 38 ∷ rest)) (some (38 ∷ rest))
      ≡ (if is_filled value then answer true else next_field rest)
unfolding check_value tail
value_step value rest =
    ap (λ n. if ltb 1 n then answer true else next_field rest) (value_length value rest)
    ∙ ap (λ b. if b then answer true else next_field rest) (filled_length value)

inner_field :
    (name value rest : Bytes)
    → Lacks 61 name
    → Lacks 38 value
    → check_field (name ++ 61 ∷ (value ++ 38 ∷ rest))
      ≡ (if is_filled value then answer true else next_field rest)
unfolding check_field
inner_field name value rest hn hv =
    rw
      (
        strchr_behind name (value ++ 38 ∷ rest) 61 hn,
        strchr_behind (61 ∷ value) rest 38 ((λ e. ground arith), hv),
        check_field,
      )
      (value_step value rest)

fields_lem :
    (fuel : ℕ) (f : Bytes × Bytes) (fs : List (Bytes × Bytes))
    → length fs < fuel
    → IsForm (f ∷ fs)
    → check_fields fuel (encode_form (f ∷ fs)) ≡ some (any_filled (f ∷ fs))
unfolding check_fields encode_form any_filled
fields_lem zero f fs lt _ = ground arith
fields_lem (suc fuel) (name, value) [] lt ((hn, hv), _) =
    rw (last_field name value hn hv, check_fields) (ground arith)
fields_lem (suc fuel) (name, value) (g ∷ fs) lt ((hn, hv), all) =
    rw (inner_field name value (encode_form (g ∷ fs)) hn hv, check_fields)
      (grind (arith, fields_lem fuel g fs (omega arith) all))

form_length :
    (f : Bytes × Bytes) (fs : List (Bytes × Bytes)) → length fs < length (encode_form (f ∷ fs))
unfolding encode_form
form_length (name, value) [] = omega (arith, length-append name (61 ∷ value))
form_length (name, value) (g ∷ fs) = omega (
  arith,
  length-append name (61 ∷ (value ++ 38 ∷ encode_form (g ∷ fs))),
  length-append value (38 ∷ encode_form (g ∷ fs)),
  form_length g fs,
)

-- A form whose text has fewer than two bytes is a single `=`.
short_form :
    (f : Bytes × Bytes) (fs : List (Bytes × Bytes))
    → length (encode_form (f ∷ fs)) < 2
    → any_filled (f ∷ fs) ≡ false
unfolding encode_form any_filled
short_form (name, []) [] lt = refl
short_form (name, c ∷ value) [] lt = absurd (omega (arith, length-append name (61 ∷ c ∷ value)))
short_form (name, value) (g ∷ fs) lt = absurd (
    omega (
      arith,
      length-append name (61 ∷ (value ++ 38 ∷ encode_form (g ∷ fs))),
      length-append value (38 ∷ encode_form (g ∷ fs)),
    ))

-- On the text of a form, fields `name=value` joined by `&` in which no name has a `=` and no value a
-- `&`, `CheckResult` terminates, with 1 exactly if some field's value is not empty.
pub check_result-encode_form :
    (fs : List (Bytes × Bytes)) → IsForm fs → check_result (encode_form fs) ≡ some (any_filled fs)
unfolding check_result
check_result-encode_form [] _ = unfold encode_form any_filled in refl
check_result-encode_form (f ∷ fs) h = elim (Bool-cases (ltb (length (encode_form (f ∷ fs))) 2)) [
  | inl e ↦ rw e (ap (λ b. some b) (sym (short_form f fs (omega tests))))
  | inr e ↦ rw e (fields_lem _ f fs (form_length f fs) h)
]
