-- ===== src/Cond.antt =====
-- src/cond.c: the stacks of conditions, matches and open braces, their marks, and the handlers of
-- if, else, elseif and endif.
pub mod Program
pub mod Steps
pub mod Opened
pub mod Blocks
pub mod Chains
pub mod Structured
pub mod Apart
pub mod Frame
pub mod Marks
pub mod Narrow
use goombaserver.Common.{
  ℕ, ◌≡◌, Bool, true, false, not, Option, none, some, List, [], ◌∷◌, String, length, if◌then◌else◌,
}
use goombaserver.Common.Int.{ℤ, pos, negsuc, to_int, truth, of_bool, ltb_ℤ}
use goombaserver.Nodes.{Nodes, clear, push, recycle, unwind, first, head}
use goombaserver.Machine.{
  Kind, lnumber, dnumber, string, variable, array, VarTree, Item, CondStack, Token, end_if, Machine,
  error, pop,
}

module _ {D : Type 0} where
  unfoldable pub init_cond : Machine D → Machine D
  unfolding clear
  init_cond m = record m {
    conds = clear m.conds;
    matches = clear m.matches;
    braces = clear m.braces;
    cond_marks = clear m.cond_marks;
    match_marks = clear m.match_marks;
    brace_marks = clear m.brace_marks;
  }

  unfoldable pub match_push : ℤ → Machine D → Machine D
  match_push v m = record m { matches = push v m.matches }

  -- An empty stack is reported, and counts as a match.
  unfoldable pub match_pop : Machine D → ℤ × Machine D
  match_pop m = elim (head m.matches.live) [
    | none ↦ (pos 1, error "if/else/endif error" m)
    | some v ↦ (v, record m { matches = recycle m.matches })
  ]

  unfoldable pub brace_push : Token → Machine D → Machine D
  brace_push t m = record m { braces = push t m.braces }

  -- `none` is the 0 that stands for no token.
  unfoldable pub brace_pop : Machine D → Option Token × Machine D
  brace_pop m = elim (head m.braces.live) [
    | none ↦ (none, error "Misplaced }" m)
    | some t ↦ (some t, record m { braces = recycle m.braces })
  ]

  unfoldable pub brace_check : Machine D → Option Token
  brace_check m = head m.braces.live

  unfoldable pub cond_push : ℤ → ℤ → Machine D → Machine D
  cond_push state active m = record m {
    conds = push (record { state = state; active = active }) m.conds;
  }

  cond_change_with : ℤ → ℤ → List (ℕ × CondStack) → Machine D → Machine D
  cond_change_with state active [] m = m
  cond_change_with state active ((n, top) ∷ rest) m = record m {
    conds = record (m.conds) { live = (n, record { state = state; active = active }) ∷ rest };
  }

  unfoldable pub cond_change : ℤ → ℤ → Machine D → Machine D
  unfolding cond_change_with
  cond_change state active m = cond_change_with state active m.conds.live m

  -- The state and the machine; an empty stack gives 0.
  unfoldable pub cond_pop : Machine D → ℤ × Machine D
  cond_pop m = elim (head m.conds.live) [
    | none ↦ (pos 0, m)
    | some top ↦ (top.state, record m { conds = recycle m.conds })
  ]

  -- The state, and what `*active` is afterwards: with an empty stack it keeps its old value.
  unfoldable pub cond_peek : ℤ → Machine D → ℤ × ℤ
  cond_peek old m = elim (head m.conds.live) [
    | none ↦ (pos 0, old)
    | some top ↦ (top.state, top.active)
  ]

  -- The state and `*active`: outside every conditional, code is executed.
  unfoldable pub get_current_state : Machine D → ℤ × ℤ
  get_current_state m = elim (head m.conds.live) [
    | none ↦ (pos 1, negsuc 0)
    | some top ↦ (top.state, top.active)
  ]

  unfoldable pub get_current_active : Machine D → ℤ
  get_current_active m = elim (head m.conds.live) [ none ↦ pos 0 | some top ↦ top.active ]

  -- The nodes are dropped, not put on the re-use stack.
  unfoldable pub clear_cond_stack : Machine D → Machine D
  clear_cond_stack m = record m { conds = record (m.conds) { live = [] } }

  unfoldable pub push_cond_match_marks : Machine D → Machine D
  push_cond_match_marks m = record m {
    cond_marks = push (first m.conds.live) m.cond_marks;
    match_marks = push (first m.matches.live) m.match_marks;
    brace_marks = push (first m.braces.live) m.brace_marks;
  }

  -- The loop that pops conditions down to the mark, and the pop of the mark.
  unwind_conds : Machine D → Machine D
  unwind_conds m = elim (head m.cond_marks.live) [
    | none ↦ m
    | some mark ↦ record m {
      conds = unwind recycle mark m.conds;
      cond_marks = recycle m.cond_marks;
    }
  ]

  unwind_matches : Machine D → Machine D
  unwind_matches m = elim (head m.match_marks.live) [
    | none ↦ m
    | some mark ↦ record m {
      matches = unwind recycle mark m.matches;
      match_marks = recycle m.match_marks;
    }
  ]

  unfoldable pub pop_cond_match_marks : Machine D → Machine D
  unfolding unwind_conds unwind_matches
  pop_cond_match_marks m = unwind_matches (unwind_conds m)

  -- What `CheckCond` returns for a value of the given type; `int` keeps 32 bits of it.
  cond_value : Kind → Item D → ℤ
  cond_value string s = to_int (pos (length s.strval))
  cond_value _ s = to_int s.intval

  -- The type is that of the variable, if the value is a variable's.
  unfoldable pub check_cond : (ℕ → VarTree D) → Item D → ℤ
  unfolding cond_value
  check_cond vars s = elim s.var [
    | none ↦ cond_value s.kind s
    | some v ↦ cond_value (vars v).kind s
  ]

  unfoldable pub if_handler : Machine D → Machine D
  if_handler m =
      if truth (get_current_state m).0
      then elim (pop m) [
        | none ↦ error "Stack Error in if statement" m
        | some (s, m') ↦
            let c = check_cond m'.vars s in
            brace_push end_if (match_push c (cond_push c (pos 1) m'))
      ]
      else brace_push end_if (match_push (pos 0) (cond_push (pos 0) (pos 0) m))

  -- Under `if(0)` of an outer conditional, `active` is 0 and nothing happens.
  unfoldable pub else_handler : Machine D → Machine D
  else_handler m =
      let active = (get_current_state m).1 in
      if ltb_ℤ active (pos 0)
      then error "Misplaced else" m
      else if truth active
      then (let (state, m') = cond_pop m in
          let (matched, m'') = match_pop m' in
          match_push (of_bool (not (truth matched)))
            (cond_push (if truth matched then pos 0 else pos 1) (negsuc 0) m''))
      else m

  unfoldable pub elseif_unmatched : Machine D → Machine D
  elseif_unmatched m = elim (pop m) [
    | none ↦ error "Stack Error in elseif statement" m
    | some (s, m') ↦ let c = check_cond m'.vars s in match_push c (cond_push c (pos 1) m')
  ]

  unfoldable pub elseif_handler : Machine D → Machine D
  unfolding elseif_unmatched
  elseif_handler m =
      let active = (get_current_state m).1 in
      if ltb_ℤ active (pos 0)
      then error "Misplaced elseif" m
      else if truth active
      then (let (matched, m') = match_pop m in
          let (state, m'') = cond_pop m' in
          if truth matched
          then cond_push (pos 0) (pos 1) (match_push matched m'')
          else elseif_unmatched m'')
      else m

  unfoldable pub endif_handler : Machine D → Machine D
  endif_handler m = (brace_pop (match_pop (cond_pop m).1).1).1
