-- ===== src/Expr.antt =====
-- The expression stack and the operators on it: the numbers that `Push` of src/stack.c takes, and
-- `Logic`, `Compare` and `Not` of src/cond.c.
pub mod Results
pub mod Negation
use goombaserver.Common.{
  ℕ, ◌+◌, Bool, true, false, not, ◌&&◌, ◌||◌, Option, none, some, List, [], ◌∷◌, Bytes, length, ltb,
  leb, ◌==◌, if◌then◌else◌,
}
use goombaserver.Common.Int.{ℤ, pos, negsuc, pos_part, neg_part, eqb_ℤ, ltb_ℤ, truth, of_bool}
use goombaserver.Floats.{Floats}
use goombaserver.Numerals.{decimal, atol}
use goombaserver.Machine.{
  Kind, lnumber, dnumber, string, variable, array, Item, Machine, error, pop,
}

-- The tokens COND_EQ, COND_NE, COND_GT, COND_GE, COND_LT and COND_LE.
pub data Cop : Type 0 where
  cond_eq cond_ne cond_gt cond_ge cond_lt cond_le : Cop

-- The tokens LOG_OR and LOG_AND.
pub data Lop : Type 0 where
  log_or log_and : Lop

abbrev pub leb_ℤ : ℤ → ℤ → Bool
leb_ℤ a b = leb (pos_part a + neg_part b) (pos_part b + neg_part a)

unfoldable pub compare_longs : Cop → ℤ → ℤ → Bool
compare_longs cond_eq a b = eqb_ℤ a b
compare_longs cond_ne a b = not (eqb_ℤ a b)
compare_longs cond_gt a b = ltb_ℤ b a
compare_longs cond_ge a b = leb_ℤ b a
compare_longs cond_lt a b = ltb_ℤ a b
compare_longs cond_le a b = leb_ℤ a b

-- `strcmp` of the C library; only the sign of its result is used.
unfoldable pub strcmp : Bytes → Bytes → ℤ
strcmp [] [] = pos 0
strcmp [] (d ∷ t) = negsuc 0
strcmp (c ∷ s) [] = pos 1
strcmp (c ∷ s) (d ∷ t) =
    let rest = strcmp s t in if c == d then rest else if ltb c d then negsuc 0 else pos 1

unfoldable pub compare_strings : Cop → Bytes → Bytes → Bool
unfolding compare_longs
compare_strings cop a b = compare_longs cop (strcmp a b) (pos 0)

unfoldable pub logic_op : Lop → Bool → Bool → Bool
logic_op log_or a b = a || b
logic_op log_and a b = a && b

module _ {D : Type 0} ⦃F : Floats D⦄ where
  unfoldable pub compare_doubles : Cop → D → D → Bool
  compare_doubles cond_eq a b = F.eqb a b
  compare_doubles cond_ne a b = not (F.eqb a b)
  compare_doubles cond_gt a b = F.ltb b a
  compare_doubles cond_ge a b = F.ltb b a || F.eqb a b
  compare_doubles cond_lt a b = F.ltb a b
  compare_doubles cond_le a b = F.ltb a b || F.eqb a b

  -- `Push` of a text as LNUMBER or DNUMBER; `flag` is not written.
  unfoldable pub push_number : Kind → Bytes → Machine D → Machine D
  push_number k value m = record m {
    expr =
        record {
          kind = k;
          strval = value;
          intval = atol value;
          douval = F.atof value;
          var = none;
          flag = false;
        }
        ∷ m.expr;
  }

  unfoldable pub compare_items : Cop → Item D → Item D → Bool
  unfolding compare_longs compare_doubles compare_strings
  compare_items cop a b = elim a.kind [
    | lnumber ↦ compare_longs cop a.intval b.intval
    | dnumber ↦ compare_doubles cop a.douval b.douval
    | string ↦ compare_strings cop a.strval b.strval
    | variable ↦ false
    | array ↦ false
  ]

  -- Both operands are popped, the right one first; the result is pushed and returned.
  unfoldable pub compare_handler : Cop → Machine D → ℤ × Machine D
  unfolding compare_items
  compare_handler cop m = elim (pop m) [
    | none ↦ (pos 0, error "Stack Error" m)
    | some (b, m') ↦ elim (pop m') [
      | none ↦ (pos 0, error "Stack Error" m')
      | some (a, m'') ↦
          let ret = of_bool (compare_items cop a b) in (ret, push_number lnumber (decimal ret) m'')
    ]
  ]

  abbrev pub is_zero : D → Bool
  is_zero d = F.eqb d F.zero

  -- What counts as true, by the type of the left operand for both.
  unfoldable pub is_true : Kind → Item D → Bool
  is_true lnumber s = truth s.intval
  is_true dnumber s = not (is_zero s.douval)
  is_true string s = ltb 0 (length s.strval)
  is_true variable s = false
  is_true array s = false

  -- The switch on the type `k` of the left operand.
  unfoldable pub logic_items : Kind → Lop → Item D → Item D → Bool
  unfolding logic_op is_true
  logic_items lnumber lop a b = logic_op lop (is_true lnumber a) (is_true lnumber b)
  logic_items dnumber lop a b = logic_op lop (is_true dnumber a) (is_true dnumber b)
  logic_items string lop a b = logic_op lop (is_true string a) (is_true string b)
  logic_items variable lop a b = false
  logic_items array lop a b = false

  unfoldable pub logic_handler : Lop → Machine D → ℤ × Machine D
  unfolding logic_items
  logic_handler lop m = elim (pop m) [
    | none ↦ (pos 0, error "Stack Error" m)
    | some (b, m') ↦ elim (pop m') [
      | none ↦ (pos 0, error "Stack Error" m')
      | some (a, m'') ↦
          let ret = of_bool (logic_items a.kind lop a b) in
          (ret, push_number lnumber (decimal ret) m'')
    ]
  ]

  -- The text of an uninitialised buffer, for a type that the source has no case for, is `none`.
  unfoldable pub not_item : Kind → Item D → Option Bool
  unfolding is_true
  not_item lnumber s = some (not (is_true lnumber s))
  not_item dnumber s = some (not (is_true dnumber s))
  not_item string s = some (not (is_true string s))
  not_item variable s = none
  not_item array s = none

  unfoldable pub not_handler : Machine D → Option (Machine D)
  unfolding not_item
  not_handler m = elim (pop m) [
    | none ↦ some (error "Stack Error" m)
    | some (s, m') ↦ elim (not_item s.kind s) [
      | none ↦ none
      | some ret ↦ some (push_number lnumber (decimal (of_bool ret)) m')
    ]
  ]
