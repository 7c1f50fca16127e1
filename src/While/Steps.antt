-- ===== src/While/Steps.antt =====
-- What the word `while` and the test of a loop's condition do, in a new loop and in a further round.
use goombaserver.Common.{
  ℕ, ◌-◌, ◌≡◌, ◌≢◌, refl, ap, true, false, Option, none, some, List, ◌∷◌, arith,
}
use goombaserver.Common.Int.{ℤ, truth}
use goombaserver.Nodes.{discard}
use goombaserver.Machine.{Item, CondStack, WhileStack, Lexer, end_while, Machine, pop}
use goombaserver.Cond.{get_current_state, cond_push, cond_change, brace_push, check_cond}
use goombaserver.Cond.Steps.{cond_node}
use goombaserver.Cond.Program.{is_active, with_value}
use goombaserver.While.{
  while_push, while_pop, while_word, while_handler, set_state, while_condition, loop_mark,
  new_while_iteration,
}

-- A result that is there and has the property.
abbrev pub Ensures : {A : Type 0} → (A → Type 0) → Option A → Type 0
Ensures P none = ⊥
Ensures P (some a) = P a

pub is_new : (l : Lexer) → l.iterwhile ≢ l.seek_pos → new_while_iteration l ≡ true
is_new l ne = ground arith

pub not_new : (l : Lexer) → l.iterwhile ≡ l.seek_pos → new_while_iteration l ≡ false
not_new l e = ground arith

module _ {D : Type 0} where
  -- The second machine is in a loop that stands in the first, with the condition's value `c`.
  pub record IsInside (b : Machine D) (c : ℤ) (m : Machine D) : Type 0 where
    pub cond_at : ℕ
    pub loop_at : ℕ
    pub brace_at : ℕ
    pub loop : WhileStack
    pub conds_inside : m.conds.live ≡ (cond_at, cond_node c loop_mark) ∷ b.conds.live
    pub whiles_inside : m.whiles.live ≡ (loop_at, loop) ∷ b.whiles.live
    pub braces_inside : m.braces.live ≡ (brace_at, end_while) ∷ b.braces.live
    pub matches_inside : m.matches.live ≡ b.matches.live
    pub vars_inside : m.vars ≡ b.vars
    pub errors_inside : m.errors ≡ b.errors

  -- The loop's entry is gone already, and its condition and brace are still there.
  pub record IsLeaving (b : Machine D) (c : ℤ) (m : Machine D) : Type 0 where
    pub cond_at : ℕ
    pub brace_at : ℕ
    pub conds_leaving : m.conds.live ≡ (cond_at, cond_node c loop_mark) ∷ b.conds.live
    pub whiles_leaving : m.whiles.live ≡ b.whiles.live
    pub braces_leaving : m.braces.live ≡ (brace_at, end_while) ∷ b.braces.live
    pub matches_leaving : m.matches.live ≡ b.matches.live
    pub vars_leaving : m.vars ≡ b.vars
    pub errors_leaving : m.errors ≡ b.errors

  -- The word `while` of a new loop.
  pub word_new :
      (b : Machine D)
      → is_active b ≡ true
      → b.lexer.iterwhile ≢ b.lexer.seek_pos
      → while_word b ≡ while_push b.lexer.seek_pos b.lexer.tokenmarker (b.lexer.linenumber - 1) b
  unfolding while_word
  word_new b h ne = ground arith

  pub word_again : (m : Machine D) → m.lexer.iterwhile ≡ m.lexer.seek_pos → while_word m ≡ m
  unfolding while_word
  word_again m e = ground arith

  -- The condition is tested in code that is executed, with a loop on the stack.
  pub handler_step :
      (v : Item D) (m : Machine D) {n : ℕ} {w : WhileStack} {rest : List (ℕ × WhileStack)}
      → is_active m ≡ true
      → m.whiles.live ≡ (n, w) ∷ rest
      → let c = check_cond m.vars v in
        while_handler (with_value v m)
        ≡ while_condition c
            (record m { whiles = record (m.whiles) { live = (n, record w { state = c }) ∷ rest } })
  unfolding while_handler set_state pop get_current_state
  handler_step v m h e =
      let c = check_cond m.vars v in
      rw h (
        ap
          (λ (l : List (ℕ × WhileStack)). elim (set_state c l m) [
            | none ↦ none
            | some m' ↦ while_condition c m'
          ])
          e)

  pub push_active : (q f l : ℕ) (b : Machine D) → is_active (while_push q f l b) ≡ is_active b
  unfolding while_push get_current_state
  push_active q f l b = refl

  module _ (c : ℤ) (m : Machine D) {n : ℕ} {w : WhileStack} {rest : List (ℕ × WhileStack)}
      (e : m.whiles.live ≡ (n, w) ∷ rest) where
    pub condition_new_true :
        new_while_iteration m.lexer ≡ true
        → truth c ≡ true
        → while_condition c m ≡ some (brace_push end_while (cond_push c loop_mark m))
    unfolding while_condition
    condition_new_true new t = rw new (rw t)

    pub condition_new_false :
        new_while_iteration m.lexer ≡ true
        → truth c ≡ false
        → while_condition c m
          ≡ some (record (brace_push end_while (cond_push c loop_mark m)) {
            whiles = discard m.whiles;
          })
    unfolding while_condition while_pop brace_push cond_push
    condition_new_false new f = ground arith

    pub condition_again_true :
        new_while_iteration m.lexer ≡ false
        → truth c ≡ true
        → while_condition c m ≡ some (cond_change c loop_mark m)
    unfolding while_condition
    condition_again_true old t = rw old (rw t)

  module _ (c : ℤ) (m : Machine D) {n k : ℕ} {w : WhileStack} {rest : List (ℕ × WhileStack)}
      {top : CondStack} {conds : List (ℕ × CondStack)} (e : m.whiles.live ≡ (n, w) ∷ rest)
      (d : m.conds.live ≡ (k, top) ∷ conds) where
    pub change_top :
        cond_change c loop_mark m
        ≡ record m { conds = record (m.conds) { live = (k, cond_node c loop_mark) ∷ conds } }
    unfolding cond_change
    change_top = ground arith

    pub condition_again_false :
        new_while_iteration m.lexer ≡ false
        → truth c ≡ false
        → while_condition c m
          ≡ some (record m {
            conds = record (m.conds) { live = (k, cond_node c loop_mark) ∷ conds };
            whiles = discard m.whiles;
          })
    unfolding while_condition while_pop cond_change
    condition_again_false old f = ground arith
