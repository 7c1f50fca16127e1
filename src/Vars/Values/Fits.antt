-- ===== src/Vars/Values/Fits.antt =====
-- The buffer of a value in src/var.c is large enough.
use goombaserver.Common.{
  ℕ, ◌<◌, ◌≤◌, ◌≡◌, ◌↔◌, refl, Bool-cases, leb, leb→le, Option, none, some, Option-cases, [], ◌∷◌,
  Bytes, length, arith, inl, inr,
}
use goombaserver.Common.Int.{ℤ}
use goombaserver.Floats.{Floats, Doubles}
use goombaserver.Machine.{Kind, lnumber, dnumber, string, variable, array, VarTree, Item}
use goombaserver.Vars.Values.{
  temp_size, Inc, get_argument, absolute, increment, decrement, and_eq, or_eq, store_text, set_long,
  set_double, concatenate, store_replaced, remove, set_absolute, add_value, sub_value, bit_value,
  change_value, change_element, set_value, set_element,
}

-- A text and its final NUL have room.
abbrev pub Room : Option Bytes → ℕ → Type 0
Room none n = Unit
Room (some s) n = length s < n

module _ {D : Type 0} where
  abbrev pub Fits : VarTree D → Type 0
  Fits t = Room t.strval t.allocated

  pub store_text-Fits : (s : Bytes) (t : VarTree D) → Fits t → Fits (store_text s t)
  unfolding store_text
  store_text-Fits [] t fits = ground arith
  store_text-Fits (c ∷ s) t fits = ground arith

  -- What `none`, the use of a NULL pointer or of a full `temp`, leaves open.
  abbrev pub FitsAfter : Option (VarTree D) → Type 0
  FitsAfter none = Unit
  FitsAfter (some t) = Fits t

module _ {D : Type 0} ⦃F : Floats D⦄ ⦃X : Doubles D⦄ (replace : Bytes → Bytes → Option Bytes) where
  set_long-Fits : (z : ℤ) (t : VarTree D) → Fits t → Fits (set_long replace z t)
  unfolding set_long
  set_long-Fits z t fits = store_text-Fits _ _ fits

  set_double-FitsAfter : (d : D) (t : VarTree D) → Fits t → FitsAfter (set_double replace d t)
  unfolding set_double
  set_double-FitsAfter d t fits = elim (Bool-cases (leb temp_size (length (X.print d)))) [
    | inl e ↦ rw e tt
    | inr e ↦ rw e (store_text-Fits _ _ fits)
  ]

  set_double-none :
      (d : D) (t : VarTree D) → (set_double replace d t ≡ none) ↔ (temp_size ≤ length (X.print d))
  unfolding set_double
  set_double-none d t = elim (Bool-cases (leb temp_size (length (X.print d)))) [
    | inl e ↦ rw e ((λ _. leb→le temp_size (length (X.print d)) e), λ _. refl)
    | inr e ↦ rw e ((λ p. cc p), λ le. absurd (ground (arith, e, le)))
  ]

  concatenate-FitsAfter : (s : Bytes) (t : VarTree D) → FitsAfter (concatenate replace s t)
  unfolding concatenate
  concatenate-FitsAfter s t = elim (Option-cases t.strval) [
    | inl e ↦ rw (e, concatenate) tt
    | inr (old, e) ↦ rw (e, concatenate) (omega arith)
  ]

  store_replaced-Fits :
      (s : Option Bytes) (t : VarTree D) → Fits t → Fits (store_replaced replace s t)
  unfolding store_replaced
  store_replaced-Fits none t fits = fits
  store_replaced-Fits (some s) t fits = store_text-Fits s t fits

  remove-FitsAfter : (s : Bytes) (t : VarTree D) → Fits t → FitsAfter (remove replace s t)
  unfolding remove
  remove-FitsAfter s t fits = grind (arith, store_replaced-Fits)

  add_value-FitsAfter :
      (k : Kind) (b : Item D) (t : VarTree D) → Fits t → FitsAfter (add_value replace k b t)
  unfolding add_value
  add_value-FitsAfter lnumber b t fits = set_long-Fits _ t fits
  add_value-FitsAfter dnumber b t fits = set_double-FitsAfter _ t fits
  add_value-FitsAfter string b t fits = concatenate-FitsAfter b.strval t
  add_value-FitsAfter variable b t fits = fits
  add_value-FitsAfter array b t fits = fits

  sub_value-FitsAfter :
      (k : Kind) (b : Item D) (t : VarTree D) → Fits t → FitsAfter (sub_value replace k b t)
  unfolding sub_value
  sub_value-FitsAfter lnumber b t fits = set_long-Fits _ t fits
  sub_value-FitsAfter dnumber b t fits = set_double-FitsAfter _ t fits
  sub_value-FitsAfter string b t fits = remove-FitsAfter b.strval t fits
  sub_value-FitsAfter variable b t fits = fits
  sub_value-FitsAfter array b t fits = fits

  bit_value-FitsAfter :
      (op : ℤ → ℤ → ℤ) (k : Kind) (b : Item D) (t : VarTree D)
      → Fits t
      → FitsAfter (bit_value replace op k b t)
  unfolding bit_value
  bit_value-FitsAfter op lnumber b t fits = set_long-Fits _ t fits
  bit_value-FitsAfter op string b t fits = set_long-Fits _ t fits
  bit_value-FitsAfter op dnumber b t fits = set_double-FitsAfter _ t fits
  bit_value-FitsAfter op variable b t fits = fits
  bit_value-FitsAfter op array b t fits = fits

  change_value-FitsAfter :
      (inc : Inc) (b : Item D) (t : VarTree D) → Fits t → FitsAfter (change_value replace inc b t)
  unfolding change_value set_absolute
  change_value-FitsAfter get_argument b t fits = fits
  change_value-FitsAfter absolute b t fits = store_text-Fits b.strval _ fits
  change_value-FitsAfter increment b t fits = add_value-FitsAfter t.kind b t fits
  change_value-FitsAfter decrement b t fits = sub_value-FitsAfter t.kind b t fits
  change_value-FitsAfter and_eq b t fits = bit_value-FitsAfter _ t.kind b t fits
  change_value-FitsAfter or_eq b t fits = bit_value-FitsAfter _ t.kind b t fits

  change_element-FitsAfter :
      (inc : Inc) (b : Item D) (t : VarTree D) → Fits t → FitsAfter (change_element replace inc b t)
  unfolding change_element set_absolute
  change_element-FitsAfter get_argument b t fits = fits
  change_element-FitsAfter absolute b t fits = store_text-Fits b.strval _ fits
  change_element-FitsAfter increment b t fits = add_value-FitsAfter t.kind b t fits
  change_element-FitsAfter decrement b t fits = sub_value-FitsAfter t.kind b t fits
  change_element-FitsAfter and_eq b t fits = fits
  change_element-FitsAfter or_eq b t fits = fits

  -- Whatever `SetVar` does to a variable or to an element that exists, the text and its NUL fit into
  -- the buffer afterwards if they did before, unless it stops at a NULL pointer or prints a real number
  -- into `temp` that has no room there: which are those of 64 bytes or more.
  pub set_value-FitsAfter :
      (inc : Inc) (b : Item D) (d : D) (t : VarTree D)
      → Fits t
      → FitsAfter (set_value replace inc b t)
        × FitsAfter (set_element replace inc b t)
        × ((set_double replace d t ≡ none) ↔ (temp_size ≤ length (X.print d)))
  unfolding set_value set_element
  set_value-FitsAfter inc b d t fits = (
    ground (arith, change_value-FitsAfter inc b t fits),
    ground (arith, change_element-FitsAfter inc b t fits),
    set_double-none d t,
  )
