-- ===== src/Vars/Values.antt =====
-- What `SetVar` of src/var.c does to the value of a node that exists: its switch on `inc`, and in it
-- the switches on the type of the value.
pub mod Fits
pub mod Agrees
use goombaserver.Common.{
  ℕ, ◌+◌, Bool, true, false, Option, none, some, List, [], ◌∷◌, ◌++◌, Bytes, length, ltb, leb,
  if◌then◌else◌,
}
use goombaserver.Common.Int.{ℤ, pos, negsuc, ◌+ℤ◌, ◌-ℤ◌, to_long, long_and, long_or}
use goombaserver.Floats.{Floats, Doubles}
use goombaserver.Numerals.{decimal, atol}
use goombaserver.Machine.{Kind, lnumber, dnumber, string, variable, array, VarTree, Item}

-- The values -1 to 4 of `inc`.
pub data Inc : Type 0 where
  get_argument absolute increment decrement and_eq or_eq : Inc

unfoldable pub inc_flag : Inc → ℤ
inc_flag get_argument = negsuc 0
inc_flag absolute = pos 0
inc_flag increment = pos 1
inc_flag decrement = pos 2
inc_flag and_eq = pos 3
inc_flag or_eq = pos 4

-- The size of `temp`.
abbrev pub temp_size : ℕ
temp_size = 64

module _ {D : Type 0} where
  -- `estrdup` of a text as the value.
  abbrev pub duplicate : Bytes → VarTree D → VarTree D
  duplicate s t = record t { strval = some s; allocated = length s + 1 }

  -- The value becomes the text: it is copied into the old buffer if it is short enough, and else into
  -- a new one.
  unfoldable pub store_text : Bytes → VarTree D → VarTree D
  store_text [] t = elim t.strval [
    | none ↦ record t { strval = some []; allocated = 1 }
    | some old ↦ record t { strval = some [] }
  ]
  store_text (c ∷ s) t = elim t.strval [
    | none ↦ duplicate (c ∷ s) t
    | some old ↦
        if leb t.allocated (length (c ∷ s))
        then duplicate (c ∷ s) t
        else record t { strval = some (c ∷ s) }
  ]

-- `replace p s` is what the source finds on the stack when it has pushed `p`, an empty text and `s`
-- and called the regular expressions: `s` with all that `p` matches taken away, or nothing.
module _ {D : Type 0} ⦃F : Floats D⦄ ⦃X : Doubles D⦄ (replace : Bytes → Bytes → Option Bytes) where
  unfoldable pub set_long : ℤ → VarTree D → VarTree D
  unfolding store_text
  set_long z t = store_text (decimal z) (record t { intval = z; douval = X.of_long z })

  -- The number is printed into `temp`; from here on `none` is a number that has no room there, or the
  -- use of a NULL pointer.
  unfoldable pub set_double : D → VarTree D → Option (VarTree D)
  unfolding store_text
  set_double d t =
      if leb temp_size (length (X.print d))
      then none
      else some (store_text (X.print d) (record t { douval = d; intval = X.to_long d }))

  -- The numbers of a text that became the value.
  abbrev pub with_numbers : Bytes → VarTree D → VarTree D
  with_numbers s t = record t { douval = F.atof s; intval = atol s }

  unfoldable pub concatenate : Bytes → VarTree D → Option (VarTree D)
  concatenate s t = elim t.strval [
    | none ↦ none
    | some old ↦ some (with_numbers (old ++ s) (duplicate (old ++ s) t))
  ]

  unfoldable pub store_replaced : Option Bytes → VarTree D → VarTree D
  unfolding store_text
  store_replaced none t = t
  store_replaced (some s) t = with_numbers s (store_text s t)

  -- In the last case the source stores `buf`, which is NULL, and measures it.
  unfoldable pub remove : Bytes → VarTree D → Option (VarTree D)
  unfolding store_replaced
  remove s t = elim t.strval [
    | none ↦ none
    | some old ↦
        if ltb 0 (length old)
        then if ltb 0 (length s) then some (store_replaced (replace s old) t) else none
        else none
  ]

  unfoldable pub set_absolute : Item D → VarTree D → VarTree D
  unfolding store_text
  set_absolute b t =
      let t' = store_text b.strval (record t { douval = b.douval; intval = b.intval }) in
      record t' { kind = b.kind; deleted = false }

  -- The switch on the type, for `+=`.
  unfoldable pub add_value : Kind → Item D → VarTree D → Option (VarTree D)
  unfolding set_long set_double concatenate
  add_value lnumber b t = some (set_long (to_long (t.intval +ℤ b.intval)) t)
  add_value dnumber b t = set_double (X.add t.douval b.douval) t
  add_value string b t = concatenate b.strval t
  add_value variable b t = some t
  add_value array b t = some t

  unfoldable pub sub_value : Kind → Item D → VarTree D → Option (VarTree D)
  unfolding set_long set_double remove
  sub_value lnumber b t = some (set_long (to_long (t.intval -ℤ b.intval)) t)
  sub_value dnumber b t = set_double (X.sub t.douval b.douval) t
  sub_value string b t = remove b.strval t
  sub_value variable b t = some t
  sub_value array b t = some t

  -- For `&=` and `|=`; `op` is the operator on `long`.
  unfoldable pub bit_value : (ℤ → ℤ → ℤ) → Kind → Item D → VarTree D → Option (VarTree D)
  unfolding set_long set_double
  bit_value op lnumber b t = some (set_long (op t.intval b.intval) t)
  bit_value op string b t = some (set_long (op t.intval b.intval) t)
  bit_value op dnumber b t = set_double (X.of_long (op (X.to_long t.douval) (X.to_long b.douval))) t
  bit_value op variable b t = some t
  bit_value op array b t = some t

  -- The switch on `inc`; a whole array that is assigned is not copied here.
  unfoldable pub change_value : Inc → Item D → VarTree D → Option (VarTree D)
  unfolding set_absolute add_value sub_value bit_value
  change_value get_argument b t = some t
  change_value absolute b t = some (set_absolute b t)
  change_value increment b t = add_value t.kind b t
  change_value decrement b t = sub_value t.kind b t
  change_value and_eq b t = bit_value long_and t.kind b t
  change_value or_eq b t = bit_value long_or t.kind b t

  abbrev pub set_flag : Inc → VarTree D → VarTree D
  set_flag inc t = record t { flag = inc_flag inc }

  -- `SetVar` of a simple variable that exists.
  unfoldable pub set_value : Inc → Item D → VarTree D → Option (VarTree D)
  unfolding change_value inc_flag
  set_value inc b t = elim (change_value inc b t) [ none ↦ none | some t' ↦ some (set_flag inc t') ]

  -- The same for the element of an array that has the index: here `&=` and `|=` have no case.
  unfoldable pub change_element : Inc → Item D → VarTree D → Option (VarTree D)
  unfolding set_absolute add_value sub_value
  change_element get_argument b t = some t
  change_element absolute b t = some (set_absolute b t)
  change_element increment b t = add_value t.kind b t
  change_element decrement b t = sub_value t.kind b t
  change_element and_eq b t = some t
  change_element or_eq b t = some t

  unfoldable pub set_element : Inc → Item D → VarTree D → Option (VarTree D)
  unfolding change_element inc_flag
  set_element inc b t = elim (change_element inc b t) [
    | none ↦ none
    | some t' ↦ some (set_flag inc t')
  ]
