-- ===== src/Grammar.antt =====
-- The grammar rules of src/parse.raw for loops and switches: in which state a statement's handler is
-- called, and what is done where it is not.
pub mod Choice
pub mod Stages
pub mod Meaning
use goombaserver.Common.{Bool, true, false, ◌||◌, Option, some, if◌then◌else◌}
use goombaserver.Common.Int.{ℤ, truth, eqb_ℤ}
use goombaserver.Floats.{Floats}
use goombaserver.Machine.{Machine, end_while, end_switch}
use goombaserver.Cond.{get_current_state, get_current_active, brace_push}
use goombaserver.While.{while_handler, endwhile_handler, loop_mark}
use goombaserver.Switch.{
  switch_handler, endswitch_handler, case_handler, default_handler, break_handler, case_mark,
  dead_mark,
}

module _ {D : Type 0} where
  abbrev active_or : ℤ → Machine D → Bool
  active_or mark m = truth (get_current_state m).0 || eqb_ℤ (get_current_active m) mark

  unfoldable pub while_rule : Machine D → Option (Machine D)
  while_rule m = if active_or loop_mark m then while_handler m else some (brace_push end_while m)

  unfoldable pub endwhile_rule : ℤ → Machine D → Machine D
  endwhile_rule old m = if active_or loop_mark m then endwhile_handler old m else m

  -- The last argument is the parser's flag `inElseIf`.
  unfoldable pub switch_rule : Bool → Machine D → Machine D
  switch_rule in_elseif m =
      if active_or case_mark m || eqb_ℤ (get_current_active m) dead_mark || in_elseif
      then switch_handler m
      else brace_push end_switch m

  unfoldable pub case_rule : ⦃F : Floats D⦄ → Machine D → Machine D
  case_rule m = if active_or case_mark m then case_handler m else m

  unfoldable pub break_rule : Bool → Machine D → Option (Machine D)
  break_rule in_elseif m = if active_or case_mark m || in_elseif then break_handler m else some m

  unfoldable pub default_rule : Bool → Machine D → Option (Machine D)
  default_rule in_elseif m =
      if active_or case_mark m || in_elseif then default_handler m else some m

  unfoldable pub endswitch_rule : Bool → Machine D → Machine D
  endswitch_rule in_elseif m =
      if active_or case_mark m || eqb_ℤ (get_current_active m) dead_mark || in_elseif
      then endswitch_handler m
      else m
