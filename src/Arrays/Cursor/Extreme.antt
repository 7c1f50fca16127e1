-- ===== src/Arrays/Cursor/Extreme.antt =====
-- `ArrayMax` and `ArrayMin` of src/var.c on an array of numbers.
use goombaserver.Common.{
  ℕ, zero, suc, ◌<◌, ◌≡◌, refl, ap, sym, subst, ◌∙◌, Bool, true, false, Bool-cases, Option, some,
  List, [], ◌∷◌, length, All, arith, if◌then◌else◌, inl, inr, ◌⊎◌,
}
use goombaserver.Common.Int.{ℤ, ltb_ℤ}
use goombaserver.Floats.{Floats}
use goombaserver.Machine.{Kind, lnumber, VarTree, Item}
use goombaserver.Arrays.{Run, returned, ◌>>=◌}
use goombaserver.Arrays.Chain.{Chain}
use goombaserver.Arrays.Cursor.{
  Pushed, is_larger, is_smaller, extreme, array_max, array_min, push_extreme, push_best, push_value,
}

-- `r` is one of the nodes.
abbrev pub OneOf : ℕ → List ℕ → Type 0
OneOf r [] = ⊥
OneOf r (n ∷ ns) = (r ≡ n) ⊎ OneOf r ns

-- What the order of the numbers, and the opposite order, have.
abbrev IsOrder : (ℤ → ℤ → Bool) → Type 0
IsOrder lt =
    ((a : ℤ) → lt a a ≡ false)
    × ((r a b : ℤ) → lt r a ≡ false → lt b a ≡ true → lt r b ≡ false)
    × ((r a b : ℤ) → lt r b ≡ false → lt b a ≡ false → lt r a ≡ false)

abbrev larger : ℤ → ℤ → Bool
larger a b = ltb_ℤ b a

less-IsOrder : IsOrder ltb_ℤ
less-IsOrder =
    (λ a. ground arith, λ r a b e e'. ground (arith, e, e'), λ r a b e e'. ground (arith, e, e'))

larger-IsOrder : IsOrder larger
larger-IsOrder =
    (λ a. ground arith, λ r a b e e'. ground (arith, e, e'), λ r a b e e'. ground (arith, e, e'))

skip_one : (best a r : ℕ) (ns : List ℕ) → OneOf r (best ∷ ns) → OneOf r (best ∷ a ∷ ns)
skip_one best a r ns (inl e) = inl e
skip_one best a r ns (inr o) = inr (inr o)

module _ {D : Type 0} where
  abbrev pub Numbers : (ℕ → VarTree D) → List ℕ → Type 0
  Numbers h = All (λ n. (h n).kind ≡ lnumber)

  -- On numbers, the loop takes a new node where `lt` says so.
  abbrev Takes : (ℤ → ℤ → Bool) → (Kind → VarTree D → VarTree D → Run Bool) → Type 0
  Takes lt better =
      (x best : VarTree D) → better lnumber x best ≡ returned (lt best.intval x.intval)

  -- Nothing among the nodes comes after `r`.
  abbrev Last : (ℤ → ℤ → Bool) → (ℕ → VarTree D) → ℕ → List ℕ → Type 0
  Last lt h r = All (λ n. lt (h r).intval (h n).intval ≡ false)

  abbrev Best :
      (ℤ → ℤ → Bool)
      → (Kind → VarTree D → VarTree D → Run Bool)
      → ℕ
      → (ℕ → VarTree D)
      → ℕ
      → Option ℕ
      → List ℕ
      → Type 0
  Best lt better fuel h best p ns =
      (r : ℕ) × (extreme better fuel h best p ≡ returned r)
      × OneOf r (best ∷ ns)
      × Last lt h r (best ∷ ns)

module _ {D : Type 0} (lt : ℤ → ℤ → Bool) (order : IsOrder lt)
    (better : Kind → VarTree D → VarTree D → Run Bool) (takes : Takes lt better) where
  extreme_step :
      (fuel : ℕ) (h : ℕ → VarTree D) (best a : ℕ)
      → (h a).kind ≡ lnumber
      → extreme better (suc fuel) h best (some a)
        ≡ extreme better fuel h (if lt (h best).intval (h a).intval then a else best) (h a).next
  unfolding extreme
  extreme_step fuel h best a k =
      ap
        (λ q.
          better q (h a) (h best) >>= λ b. extreme better fuel h (if b then a else best) (h a).next)
        k
      ∙ ap (λ q. q >>= λ b. extreme better fuel h (if b then a else best) (h a).next)
          (takes (h a) (h best))

  extreme-Best :
      (fuel : ℕ) (h : ℕ → VarTree D) (best : ℕ) (p : Option ℕ) (ns : List ℕ)
      → Chain h p ns
      → Numbers h ns
      → length ns < fuel
      → Best lt better fuel h best p ns
  unfolding extreme
  extreme-Best zero h best p ns c numbers enough = absurd (omega (arith, enough))
  extreme-Best (suc fuel) h best p [] e numbers enough =
      (best, rw e refl, inl refl, (order.0 (h best).intval, tt))
  extreme-Best (suc fuel) h best p (a ∷ ns) (e, c) (k, numbers) enough =
      elim (Bool-cases (lt (h best).intval (h a).intval)) [
        | inl l ↦
            let (r, run, one, (above, rest)) =
              extreme-Best fuel h a (h a).next ns c numbers (omega (arith, enough)) in
            (
              r,
              rw e (extreme_step fuel h best a k ∙ rw l run),
              inr one,
              (order.1 (h r).intval (h a).intval (h best).intval above l, (above, rest)),
            )
        | inr l ↦
            let (r, run, one, (above, rest)) =
              extreme-Best fuel h best (h a).next ns c numbers (omega (arith, enough)) in
            (
              r,
              rw e (extreme_step fuel h best a k ∙ rw l run),
              skip_one best a r ns one,
              (above, (order.2 (h r).intval (h a).intval (h best).intval above l, rest)),
            )
      ]

module _ {D : Type 0} ⦃F : Floats D⦄ where
  is_larger-Takes : Takes {D = D} ltb_ℤ is_larger
  unfolding is_larger
  is_larger-Takes x best = refl

  is_smaller-Takes : Takes {D = D} larger is_smaller
  unfolding is_smaller
  is_smaller-Takes x best = refl

  push_lem :
      (better : Kind → VarTree D → VarTree D → Run Bool) (fuel : ℕ) (s : Item D) (h : ℕ → VarTree D)
      (t : ℕ)
      → s.var ≡ some t
      → push_extreme better fuel s h
        ≡ (extreme better fuel h t (h t).next >>= λ best. returned (push_best (h best)))
  unfolding push_extreme
  push_lem better fuel s h t var = rw (push_extreme, var) refl

  best_pushed : (x : VarTree D) → x.kind ≡ lnumber → push_best x ≡ some (push_value x)
  best_pushed x k =
      subst (λ q. push_kind q ≡ some (record { text = x.strval; kind = q })) (sym k) refl
    where
      push_kind : Kind → Option Pushed
      push_kind q = push_best (record x { kind = q })

  one-Numbers :
      (h : ℕ → VarTree D) (r : ℕ) (ns : List ℕ) → OneOf r ns → Numbers h ns → (h r).kind ≡ lnumber
  one-Numbers h r [] o numbers = absurd o
  one-Numbers h r (n ∷ ns) (inl e) (k, numbers) = subst (λ m. (h m).kind ≡ lnumber) (sym e) k
  one-Numbers h r (n ∷ ns) (inr o) (k, numbers) = one-Numbers h r ns o numbers

  -- On an array `$a` whose elements all have the type LNUMBER, `max($a)` and `min($a)` push the value of an
  -- element, than which no element is larger, and than which none is smaller.
  pub array_max-Last :
      (fuel : ℕ) (s : Item D) (h : ℕ → VarTree D) (t : ℕ) (ns : List ℕ)
      → s.var ≡ some t
      → Chain h (some t) (t ∷ ns)
      → Numbers h (t ∷ ns)
      → length ns < fuel
      → ((r : ℕ) × (array_max fuel s h ≡ returned (some (push_value (h r))))
          × OneOf r (t ∷ ns)
          × All (λ n. ltb_ℤ (h r).intval (h n).intval ≡ false) (t ∷ ns))
        × ((r : ℕ) × (array_min fuel s h ≡ returned (some (push_value (h r))))
            × OneOf r (t ∷ ns)
            × All (λ n. ltb_ℤ (h n).intval (h r).intval ≡ false) (t ∷ ns))
  unfolding array_max array_min push_extreme
  array_max-Last fuel s h t ns var (_, c) (k, numbers) enough =
      let (r, run, one, last) =
        extreme-Best ltb_ℤ less-IsOrder is_larger is_larger-Takes fuel h t (h t).next ns c numbers
          enough in
      let (r', run', one', last') =
        extreme-Best larger larger-IsOrder is_smaller is_smaller-Takes fuel h t (h t).next ns c
          numbers enough in
      (
        (
          r,
          push_lem is_larger fuel s h t var
              ∙ ap (λ q. q >>= λ b. returned (push_best (h b))) run
              ∙ ap returned (best_pushed (h r) (one-Numbers h r (t ∷ ns) one (k, numbers))),
          one,
          last,
        ),
        (
          r',
          push_lem is_smaller fuel s h t var
              ∙ ap (λ q. q >>= λ b. returned (push_best (h b))) run'
              ∙ ap returned (best_pushed (h r') (one-Numbers h r' (t ∷ ns) one' (k, numbers))),
          one',
          last',
        ),
      )
