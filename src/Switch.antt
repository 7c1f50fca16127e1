-- ===== src/Switch.antt =====
-- src/switch.c: the stack of switches and the handlers of switch, case, default, break and
-- endswitch.
use goombaserver.Common.{ℕ, Bool, ◌&&◌, Option, none, some, List, [], ◌∷◌, bytes_eq, if◌then◌else◌}
use goombaserver.Common.Int.{ℤ, pos, negsuc, truth, of_bool, eqb_ℤ, ltb_ℤ}
use goombaserver.Floats.{Floats}
use goombaserver.Nodes.{clear, push, discard, unwind, first, head}
use goombaserver.Machine.{
  Kind, lnumber, dnumber, string, variable, array, Item, SwitchStack, end_switch, Machine, error,
  pop,
}
use goombaserver.Cond.{
  get_current_state, get_current_active, cond_push, cond_pop, brace_push, brace_pop,
}

-- The mark -2 of a case's condition, and the mark -3 of a switch in code that is not executed.
abbrev pub case_mark : ℤ
case_mark = negsuc 1

abbrev pub dead_mark : ℤ
dead_mark = negsuc 2

module _ {D : Type 0} where
  unfoldable pub init_switch : Machine D → Machine D
  unfolding clear
  init_switch m = record m { switches = clear m.switches; switch_marks = clear m.switch_marks }

  unfoldable pub switch_push : Item D → Machine D → Machine D
  switch_push s m = record m {
    switches =
        push
          (record {
            kind = s.kind;
            matched = pos 0;
            intval = s.intval;
            douval = s.douval;
            strval = s.strval;
          })
          m.switches;
  }

  -- `none` is NULL, for an empty stack.
  unfoldable pub switch_pop : Machine D → Option (SwitchStack D) × Machine D
  switch_pop m = (head m.switches.live, record m { switches = discard m.switches })

  -- No function of the program calls `PushSwitchMark` and `PopSwitchMark`.
  unfoldable pub push_switch_mark : Machine D → Machine D
  push_switch_mark m = record m { switch_marks = push (first m.switches.live) m.switch_marks }

  unfoldable pub pop_switch_mark : Machine D → Machine D
  pop_switch_mark m = elim (head m.switch_marks.live) [
    | none ↦ m
    | some mark ↦ record m {
      switches = unwind discard mark m.switches;
      switch_marks = discard m.switch_marks;
    }
  ]

  unfoldable pub switch_handler : Machine D → Machine D
  switch_handler m =
      if truth (get_current_state m).0
      then elim (pop m) [
        | none ↦ error "Stack error in switch" m
        | some (s, m') ↦ brace_push end_switch (cond_push (pos 1) (pos 1) (switch_push s m'))
      ]
      else brace_push end_switch (cond_push (pos 0) dead_mark m)

  unfoldable pub endswitch_handler : Machine D → Machine D
  endswitch_handler m =
      if eqb_ℤ (get_current_state m).1 dead_mark
      then (brace_pop (cond_pop m).1).1
      else (brace_pop (cond_pop (switch_pop m).1).1).1

  -- Whether a case's value is that of the switch, by the type of the case's value; `none` for a type
  -- that the source has no branch for.
  unfoldable pub same_value : ⦃F : Floats D⦄ → Item D → SwitchStack D → Kind → Option Bool
  same_value s top lnumber = some (eqb_ℤ s.intval top.intval)
  same_value ⦃F⦄ s top dnumber = some (F.eqb s.douval top.douval)
  same_value s top string = some (bytes_eq s.strval top.strval)
  same_value s top variable = none
  same_value s top array = none

  unfoldable pub case_on : ⦃F : Floats D⦄ → Item D → SwitchStack D → Machine D → Machine D
  case_on s top m = elim (same_value s top s.kind) [
    | none ↦ m
    | some ret ↦ cond_push (of_bool ret) case_mark m
  ]

  -- A case that is reached from the statements of one that matched falls through.
  unfoldable pub case_handler : ⦃F : Floats D⦄ → Machine D → Machine D
  unfolding case_on same_value
  case_handler m = elim (pop m) [
    | none ↦ error "Stack Error in case statement" m
    | some (s, m') ↦ elim (head m'.switches.live) [
      | none ↦ error "Case statement found outside of switch" m'
      | some top ↦
          if truth (get_current_state m').0 && eqb_ℤ (get_current_state m').1 case_mark
          then m'
          else case_on s top m'
    ]
  ]

  -- `none` is the read through a NULL top.
  unfoldable pub default_handler : Machine D → Option (Machine D)
  default_handler m = elim (head m.switches.live) [
    | none ↦ none
    | some top ↦ some (cond_push (if truth top.matched then pos 0 else pos 1) case_mark m)
  ]

  unfoldable pub set_matched : ℤ → List (ℕ × SwitchStack D) → Machine D → Option (Machine D)
  set_matched state [] m = none
  set_matched state ((n, top) ∷ rest) m = some (
      if truth top.matched then m else record m {
        switches = record (m.switches) { live = (n, record top { matched = state }) ∷ rest };
      })

  unfoldable pub break_handler : Machine D → Option (Machine D)
  unfolding set_matched
  break_handler m =
      if ltb_ℤ case_mark (get_current_active m)
      then some (error "Misplaced break" m)
      else (let (state, m') = cond_pop m in set_matched state m'.switches.live m')
