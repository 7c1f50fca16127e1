-- ===== src/Expr/Results.antt =====
-- What the operators of src/cond.c leave on an expression stack that holds their operands.
use goombaserver.Common.{◌≡◌, refl, ap, Bool, true, false, not, some, List, ◌∷◌}
use goombaserver.Common.Int.{of_bool, truth}
use goombaserver.Floats.{Floats}
use goombaserver.Numerals.{decimal, digits, digits_from, scan_digits, clamp_pos, atol}
use goombaserver.Machine.{lnumber, Item, Machine, pop}
use goombaserver.Expr.{
  Cop, Lop, push_number, compare_items, compare_handler, logic_items, logic_handler, is_true,
  not_item, not_handler,
}

pub atol_bool : (b : Bool) → truth (atol (decimal (of_bool b))) ≡ b
unfolding decimal digits digits_from atol scan_digits clamp_pos
atol_bool true = refl
atol_bool false = refl

module _ {D : Type 0} ⦃F : Floats D⦄ where
  -- A truth value as it is pushed.
  abbrev pub push_bool : Bool → Machine D → Machine D
  push_bool b m = push_number lnumber (decimal (of_bool b)) m

  pub compare_two :
      (cop : Cop) (m : Machine D) (a b : Item D) (rest : List (Item D))
      → m.expr ≡ b ∷ a ∷ rest
      → (compare_handler cop m).1 ≡ push_bool (compare_items cop a b) (record m { expr = rest })
  unfolding compare_handler pop
  compare_two cop m a b rest e = rw e refl

  pub logic_two :
      (lop : Lop) (m : Machine D) (a b : Item D) (rest : List (Item D))
      → m.expr ≡ b ∷ a ∷ rest
      → (logic_handler lop m).1 ≡ push_bool (logic_items a.kind lop a b) (record m { expr = rest })
  unfolding logic_handler pop
  logic_two lop m a b rest e = rw e refl

  -- `Not` of a truth value that was pushed.
  pub not_bool :
      (b : Bool) (m : Machine D) → not_handler (push_bool b m) ≡ some (push_bool (not b) m)
  unfolding not_handler not_item push_number pop is_true
  not_bool b m = ap (λ t. some (push_bool (not t) m)) (atol_bool b)
