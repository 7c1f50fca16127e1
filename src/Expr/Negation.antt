-- ===== src/Expr/Negation.antt =====
-- `Not` of src/cond.c behind `Compare` and `Logic`.
use goombaserver.Common.{
  ◌≡◌, refl, sym, ap, ap₂, ◌∙◌, Bool, true, false, not, Option, none, some, List, ◌∷◌, arith, ◌>>=◌,
}
use goombaserver.Common.Int.{ℤ}
use goombaserver.Floats.{Floats}
use goombaserver.Machine.{Kind, lnumber, dnumber, string, variable, array, Item, Machine, pop}
use goombaserver.Cond.Program.{with_value}
use goombaserver.Expr.{
  Cop, cond_eq, cond_ne, cond_gt, cond_ge, cond_lt, cond_le, Lop, log_or, log_and, compare_longs,
  compare_strings, compare_doubles, push_number, compare_items, compare_handler, logic_op,
  logic_items, logic_handler, is_true, not_item, not_handler,
}
use goombaserver.Expr.Results.{push_bool, compare_two, logic_two, not_bool, atol_bool}

-- The comparison that holds where the given one does not.
abbrev pub negated : Cop → Cop
negated cond_eq = cond_ne
negated cond_ne = cond_eq
negated cond_gt = cond_le
negated cond_ge = cond_lt
negated cond_lt = cond_ge
negated cond_le = cond_gt

abbrev pub dual : Lop → Lop
dual log_or = log_and
dual log_and = log_or

not_longs : (cop : Cop) (a b : ℤ) → not (compare_longs cop a b) ≡ compare_longs (negated cop) a b
unfolding compare_longs
not_longs cond_eq a b = refl
not_longs cond_ne a b = ground arith
not_longs cond_gt a b = ground arith
not_longs cond_ge a b = ground arith
not_longs cond_lt a b = ground arith
not_longs cond_le a b = ground arith

-- Every comparison of longs and of texts has its opposite; of doubles only == and != do, since neither
-- < nor >= holds for a NaN.
abbrev pub HasOpposite : Kind → Cop → Type 0
HasOpposite lnumber cop = Unit
HasOpposite string cop = Unit
HasOpposite dnumber cond_eq = Unit
HasOpposite dnumber cond_ne = Unit
HasOpposite dnumber _ = ⊥
HasOpposite variable cop = ⊥
HasOpposite array cop = ⊥

not_logic : (lop : Lop) (a b : Bool) → not (logic_op lop a b) ≡ logic_op (dual lop) (not a) (not b)
unfolding logic_op
not_logic log_or true b = refl
not_logic log_or false b = refl
not_logic log_and true b = refl
not_logic log_and false b = refl

not-not : (b : Bool) → not (not b) ≡ b
not-not true = refl
not-not false = refl

-- A type that `Logic` and `Not` have a case for.
abbrev pub HasTruth : Kind → Type 0
HasTruth lnumber = Unit
HasTruth dnumber = Unit
HasTruth string = Unit
HasTruth variable = ⊥
HasTruth array = ⊥

module _ {D : Type 0} ⦃F : Floats D⦄ where
  not_doubles :
      (cop : Cop) (a b : D)
      → HasOpposite dnumber cop
      → not (compare_doubles cop a b) ≡ compare_doubles (negated cop) a b
  unfolding compare_doubles
  not_doubles cond_eq a b h = refl
  not_doubles cond_ne a b h = not-not _
  not_doubles cond_gt a b h = absurd h
  not_doubles cond_ge a b h = absurd h
  not_doubles cond_lt a b h = absurd h
  not_doubles cond_le a b h = absurd h

  not_of :
      (k : Kind) (cop : Cop) (a b : Item D)
      → a.kind ≡ k
      → HasOpposite k cop
      → not (compare_items cop a b) ≡ compare_items (negated cop) a b
  unfolding compare_items compare_strings
  not_of lnumber cop a b e h = rw e (not_longs cop _ _)
  not_of dnumber cop a b e h = rw e (not_doubles cop _ _ h)
  not_of string cop a b e h = rw e (not_longs cop _ _)
  not_of variable cop a b e h = absurd h
  not_of array cop a b e h = absurd h

  -- `!(a op b)` leaves the machine as `a op' b` does, with the opposite comparison: for longs and
  -- texts whatever the comparison is, for doubles with == and !=.
  pub not-compare :
      (cop : Cop) (m : Machine D) (a b : Item D) (rest : List (Item D))
      → m.expr ≡ b ∷ a ∷ rest
      → HasOpposite a.kind cop
      → not_handler (compare_handler cop m).1 ≡ some (compare_handler (negated cop) m).1
  not-compare cop m a b rest e h =
      ap not_handler (compare_two cop m a b rest e)
      ∙ (not_bool (compare_items cop a b) (record m { expr = rest })
          ∙ (ap (λ t. some (push_bool t (record m { expr = rest }))) (not_of a.kind cop a b refl h)
              ∙ ap (λ x. some x) (sym (compare_two (negated cop) m a b rest e))))

  -- The value of `!a`, of `!b`, and then the operator.
  abbrev pub not_each : Lop → Item D → Item D → Machine D → Option (Machine D)
  not_each lop a b m = do
    m' ← not_handler (with_value a m)
    m'' ← not_handler (with_value b m')
    some (logic_handler lop m'').1

  not_item_lem : (k : Kind) (a : Item D) → HasTruth k → not_item k a ≡ some (not (is_true k a))
  unfolding not_item
  not_item_lem lnumber a h = refl
  not_item_lem dnumber a h = refl
  not_item_lem string a h = refl
  not_item_lem variable a h = absurd h
  not_item_lem array a h = absurd h

  not_value :
      (k : Kind) (a : Item D) (m : Machine D)
      → a.kind ≡ k
      → HasTruth k
      → not_handler (with_value a m) ≡ some (push_bool (not (is_true k a)) m)
  unfolding not_handler pop
  not_value k a m e h =
      ap
        (λ o. elim o as (λ x. Option (Machine D)) [
          | none ↦ none
          | some ret ↦ some (push_bool ret m)
        ])
        (ap (λ j. not_item j a) e ∙ not_item_lem k a h)

  logic_value :
      (k : Kind) (lop : Lop) (a b : Item D)
      → HasTruth k
      → logic_items k lop a b ≡ logic_op lop (is_true k a) (is_true k b)
  unfolding logic_items
  logic_value lnumber lop a b h = refl
  logic_value dnumber lop a b h = refl
  logic_value string lop a b h = refl
  logic_value variable lop a b h = absurd h
  logic_value array lop a b h = absurd h

  logic_bools :
      (lop : Lop) (x y : Bool) (m : Machine D)
      → (logic_handler lop (push_bool y (push_bool x m))).1 ≡ push_bool (logic_op lop x y) m
  unfolding push_number is_true
  logic_bools lop x y m =
      logic_two lop _ _ _ m.expr refl
      ∙ ap (λ t. push_bool t m)
          (logic_value lnumber lop _ _ tt ∙ ap₂ (logic_op lop) (atol_bool x) (atol_bool y))

  -- De Morgan's law for two operands of one type: `!(a op b)` leaves the machine as `!a op' !b` does,
  -- with `||` for `&&` and `&&` for `||`.
  not-logic :
      (lop : Lop) (m : Machine D) (a b : Item D)
      → HasTruth a.kind
      → a.kind ≡ b.kind
      → not_handler (logic_handler lop (with_value b (with_value a m))).1
        ≡ not_each (dual lop) a b m
  not-logic lop m a b h e =
      let x = is_true a.kind a in
      let y = is_true a.kind b in
      let left =
        ap not_handler (
          logic_two lop (with_value b (with_value a m)) a b m.expr refl
          ∙ ap (λ t. push_bool t m) (logic_value a.kind lop a b h))
        ∙ (not_bool (logic_op lop x y) m ∙ ap (λ t. some (push_bool t m)) (not_logic lop x y)) in
      left
      ∙ sym (
          ap
            (λ o. o >>= (λ m'.
              not_handler (with_value b m') >>= (λ m''. some (logic_handler (dual lop) m'').1)))
            (not_value a.kind a m refl h)
          ∙ (ap (λ o. o >>= (λ m''. some (logic_handler (dual lop) m'').1))
                (not_value a.kind b (push_bool (not x) m) (sym e) h)
              ∙ ap (λ r. some r) (logic_bools (dual lop) (not x) (not y) m)))
