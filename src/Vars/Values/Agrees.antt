-- ===== src/Vars/Values/Agrees.antt =====
-- The number of a value in src/var.c is the one that its text reads as.
use goombaserver.Common.{
  ℕ, length, ◌≡◌, refl, sym, subst, Bool-cases, leb, Option, none, some, Option-cases, [], ◌∷◌,
  ◌++◌, Bytes, arith, inl, inr,
}
use goombaserver.Common.Int.{ℤ, to_long, of_long_bits}
use goombaserver.Floats.{Floats, Doubles}
use goombaserver.Numerals.{atol, decimal}
use goombaserver.Numerals.RoundTrip.{IsLong, atol-decimal}
use goombaserver.Machine.{Kind, lnumber, dnumber, string, variable, array, VarTree, Item}
use goombaserver.Vars.Values.{
  temp_size, Inc, get_argument, absolute, increment, decrement, and_eq, or_eq, store_text, set_long,
  set_double, concatenate, store_replaced, remove, set_absolute, add_value, sub_value, bit_value,
  change_value, set_value,
}

-- Values of this type have no double to agree with.
abbrev IsNoDouble : Kind → Type 0
IsNoDouble lnumber = Unit
IsNoDouble dnumber = ⊥
IsNoDouble string = Unit
IsNoDouble variable = Unit
IsNoDouble array = Unit

module _ {D : Type 0} ⦃X : Doubles D⦄ where
  -- The text of a whole number or of a text reads as the whole number `z`, and the whole number of a
  -- real number is what the double `d` converts to.
  abbrev pub ReadsAs : Kind → Option Bytes → ℤ → D → Type 0
  ReadsAs lnumber none z d = Unit
  ReadsAs lnumber (some s) z d = atol s ≡ z
  ReadsAs string none z d = Unit
  ReadsAs string (some s) z d = atol s ≡ z
  ReadsAs dnumber o z d = z ≡ X.to_long d
  ReadsAs variable o z d = Unit
  ReadsAs array o z d = Unit

  reads :
      (k : Kind) (s : Bytes) (z : ℤ) (d : D) → IsNoDouble k → atol s ≡ z → ReadsAs k (some s) z d
  reads lnumber s z d plain e = e
  reads string s z d plain e = e
  reads dnumber s z d plain e = absurd plain
  reads variable s z d plain e = tt
  reads array s z d plain e = tt

of_long_bits-IsLong : (w : ℕ) → IsLong (of_long_bits w)
unfolding of_long_bits
of_long_bits-IsLong w = ground arith

module _ {D : Type 0} ⦃X : Doubles D⦄ where
  abbrev pub Agrees : VarTree D → Type 0
  Agrees t = ReadsAs t.kind t.strval t.intval t.douval

  abbrev pub AgreesItem : Item D → Type 0
  AgreesItem b = ReadsAs b.kind (some b.strval) b.intval b.douval

  pub store_text_lem :
      (s : Bytes) (t : VarTree D)
      → ((store_text s t).strval ≡ some s)
        × ((store_text s t).kind ≡ t.kind)
        × ((store_text s t).intval ≡ t.intval)
        × ((store_text s t).douval ≡ t.douval)
  unfolding store_text
  store_text_lem [] t = ground arith
  store_text_lem (c ∷ s) t = ground arith

  store_text-ReadsAs :
      (k : Kind) (s : Bytes) (t : VarTree D)
      → ReadsAs k (some s) t.intval t.douval
      → ReadsAs k (store_text s t).strval (store_text s t).intval (store_text s t).douval
  store_text-ReadsAs k s t h = let (e, _, e', e'') = store_text_lem s t in rw (e, e', e'') h

  store_text-Agrees :
      (s : Bytes) (t : VarTree D)
      → ReadsAs t.kind (some s) t.intval t.douval
      → Agrees (store_text s t)
  store_text-Agrees s t h = let (e, k, e', e'') = store_text_lem s t in rw (e, k, e', e'') h

  -- What `none`, the use of a NULL pointer or of a full `temp`, leaves open.
  abbrev pub AgreesAfter : Option (VarTree D) → Type 0
  AgreesAfter none = Unit
  AgreesAfter (some t) = Agrees t

module _ {D : Type 0} ⦃F : Floats D⦄ ⦃X : Doubles D⦄ (replace : Bytes → Bytes → Option Bytes) where
  set_long-Agrees :
      (z : ℤ) (t : VarTree D) → IsLong z → IsNoDouble t.kind → Agrees (set_long replace z t)
  unfolding set_long
  set_long-Agrees z t long plain =
      store_text-Agrees (decimal z) _
        (reads t.kind (decimal z) z (X.of_long z) plain (atol-decimal z long))

  set_double-AgreesAfter :
      (d : D) (t : VarTree D) → t.kind ≡ dnumber → AgreesAfter (set_double replace d t)
  unfolding set_double
  set_double-AgreesAfter d t e = elim (Bool-cases (leb temp_size (length (X.print d)))) [
    | inl full ↦ rw full tt
    | inr room ↦ rw room (
        store_text-Agrees (X.print d) (record t { douval = d; intval = X.to_long d })
          (subst (λ k. ReadsAs k (some (X.print d)) (X.to_long d) d) (sym e) refl))
  ]

  concatenate-AgreesAfter :
      (s : Bytes) (t : VarTree D) → IsNoDouble t.kind → AgreesAfter (concatenate replace s t)
  unfolding concatenate
  concatenate-AgreesAfter s t plain = elim (Option-cases t.strval) [
    | inl e ↦ rw (e, concatenate) tt
    | inr (old, e) ↦ rw (e, concatenate) (reads t.kind (old ++ s) _ _ plain refl)
  ]

  store_replaced-Agrees :
      (s : Option Bytes) (t : VarTree D)
      → IsNoDouble t.kind
      → Agrees t
      → Agrees (store_replaced replace s t)
  unfolding store_replaced
  store_replaced-Agrees none t plain agrees = agrees
  store_replaced-Agrees (some s) t plain agrees =
      let (e, e', _, _) = store_text_lem s t in rw (e, e') (reads t.kind s _ _ plain refl)

  remove-AgreesAfter :
      (s : Bytes) (t : VarTree D) → IsNoDouble t.kind → Agrees t → AgreesAfter (remove replace s t)
  unfolding remove
  remove-AgreesAfter s t plain agrees = grind (arith, store_replaced-Agrees)

  add_value-AgreesAfter :
      (k : Kind) (b : Item D) (t : VarTree D)
      → t.kind ≡ k
      → Agrees t
      → AgreesAfter (add_value replace k b t)
  unfolding add_value to_long
  add_value-AgreesAfter lnumber b t e agrees =
      set_long-Agrees _ t (of_long_bits-IsLong _) (subst IsNoDouble (sym e) tt)
  add_value-AgreesAfter dnumber b t e agrees = set_double-AgreesAfter _ t e
  add_value-AgreesAfter string b t e agrees =
      concatenate-AgreesAfter b.strval t (subst IsNoDouble (sym e) tt)
  add_value-AgreesAfter variable b t e agrees = agrees
  add_value-AgreesAfter array b t e agrees = agrees

  sub_value-AgreesAfter :
      (k : Kind) (b : Item D) (t : VarTree D)
      → t.kind ≡ k
      → Agrees t
      → AgreesAfter (sub_value replace k b t)
  unfolding sub_value to_long
  sub_value-AgreesAfter lnumber b t e agrees =
      set_long-Agrees _ t (of_long_bits-IsLong _) (subst IsNoDouble (sym e) tt)
  sub_value-AgreesAfter dnumber b t e agrees = set_double-AgreesAfter _ t e
  sub_value-AgreesAfter string b t e agrees =
      remove-AgreesAfter b.strval t (subst IsNoDouble (sym e) tt) agrees
  sub_value-AgreesAfter variable b t e agrees = agrees
  sub_value-AgreesAfter array b t e agrees = agrees

  bit_value-AgreesAfter :
      (op : ℤ → ℤ → ℤ) (k : Kind) (b : Item D) (t : VarTree D)
      → t.kind ≡ k
      → ((x y : ℤ) → IsLong (op x y))
      → Agrees t
      → AgreesAfter (bit_value replace op k b t)
  unfolding bit_value
  bit_value-AgreesAfter op lnumber b t e long agrees =
      set_long-Agrees _ t (long _ _) (subst IsNoDouble (sym e) tt)
  bit_value-AgreesAfter op string b t e long agrees =
      set_long-Agrees _ t (long _ _) (subst IsNoDouble (sym e) tt)
  bit_value-AgreesAfter op dnumber b t e long agrees = set_double-AgreesAfter _ t e
  bit_value-AgreesAfter op variable b t e long agrees = agrees
  bit_value-AgreesAfter op array b t e long agrees = agrees

  change_value-AgreesAfter :
      (inc : Inc) (b : Item D) (t : VarTree D)
      → AgreesItem b
      → Agrees t
      → AgreesAfter (change_value replace inc b t)
  unfolding change_value set_absolute
  change_value-AgreesAfter get_argument b t item agrees = agrees
  change_value-AgreesAfter absolute b t item agrees = store_text-ReadsAs b.kind b.strval _ item
  change_value-AgreesAfter increment b t item agrees = add_value-AgreesAfter t.kind b t refl agrees
  change_value-AgreesAfter decrement b t item agrees = sub_value-AgreesAfter t.kind b t refl agrees
  change_value-AgreesAfter and_eq b t item agrees =
      bit_value-AgreesAfter _ t.kind b t refl (λ x y. of_long_bits-IsLong _) agrees
  change_value-AgreesAfter or_eq b t item agrees =
      bit_value-AgreesAfter _ t.kind b t refl (λ x y. of_long_bits-IsLong _) agrees

  -- A variable agrees with itself if, for an LNUMBER or a STRING, its text reads as its whole number, and
  -- if, for a DNUMBER, its whole number is what its double converts to; of the text of a DNUMBER nothing
  -- is said. If the variable does and the value on the expression stack does, then the variable does
  -- after `=`, `+=`, `-=`, `&=` or `|=`, over the wrap-around of `long` too, unless the operation stops
  -- at a NULL pointer or prints a real number into `temp` that has no room there.
  pub set_value-AgreesAfter :
      (inc : Inc) (b : Item D) (t : VarTree D)
      → AgreesItem b
      → Agrees t
      → AgreesAfter (set_value replace inc b t)
  unfolding set_value
  set_value-AgreesAfter inc b t item agrees =
      ground (arith, change_value-AgreesAfter inc b t item agrees)
