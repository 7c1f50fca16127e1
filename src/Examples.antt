-- ===== src/Examples.antt =====
-- The theorems on src/cond.c, src/while.c, src/switch.c and src/parse.raw, each at a page that
-- exercises the code.
use goombaserver.Common.{◌≡◌, refl, false, none, List, [], ◌∷◌}
use goombaserver.Common.Int.{ℤ, pos, to_int, truth}
use goombaserver.Floats.{whole}
use goombaserver.Nodes.{first, push}
use goombaserver.Nodes.Live.{fresh}
use goombaserver.Machine.{Machine, pop}
use goombaserver.Cond.{
  get_current_state, check_cond, cond_push, push_cond_match_marks, pop_cond_match_marks, brace_push,
  match_push, if_handler,
}
use goombaserver.Cond.Program.{
  Block, done, echo, branch, otherwise, other_branch, Event, else_event, endif_event, if_event,
  run_events, output, block_events, meaning, with_value, on_event,
}
use goombaserver.Cond.Structured.{output-block}
use goombaserver.Cond.Apart.{IsApart, run_events-IsApart}
use goombaserver.Cond.Opened.{IsSame}
use goombaserver.Cond.Marks.{IsCallee, pop_marks-restore, pop_marks-braces}
use goombaserver.Switch.{same_value}
use goombaserver.While.Steps.{Ensures}
use goombaserver.While.{while_word, while_handler}
use goombaserver.While.Stale.{stale_word_faults}
use goombaserver.Grammar.Choice.{run_switch, cases_meaning}
use goombaserver.Grammar.Meaning.{Printed, run_switch_prints}
use goombaserver.Cond.Narrow.{check_cond-low_bits}
use goombaserver.Scenario.{start, number}

-- if(0) echo 1; else if (1) echo 2; else echo 3;
abbrev page : Block ℤ
page =
    branch (number (pos 0)) (echo 1 done)
      (other_branch (number (pos 1)) (echo 2 done) (otherwise (echo 3 done))) done

output-block_example :
    IsSame start (run_events (block_events page) start)
    × (output (block_events page) start ≡ 2 ∷ [])
unfolding meaning check_cond get_current_state to_int
output-block_example = output-block page start

start-IsApart : IsApart start
start-IsApart = record {
  conds_apart = record { distinct = tt; below = tt };
  matches_apart = record { distinct = tt; below = tt };
  braces_apart = record { distinct = tt; below = tt };
}

-- A page with an else too many and an endif too many.
abbrev misplaced : List (Event ℤ)
misplaced = if_event (number (pos 1)) ∷ else_event ∷ else_event ∷ endif_event ∷ endif_event ∷ []

run_events-IsApart_example : IsApart (run_events misplaced start)
run_events-IsApart_example = run_events-IsApart misplaced start start-IsApart

-- A call inside an if, whose callee leaves an if open.
abbrev caller : Machine ℤ
caller = run_events (if_event (number (pos 1)) ∷ []) start

abbrev left_open : List (Event ℤ)
left_open = if_event (number (pos 0)) ∷ []

abbrev callee : Machine ℤ
callee = run_events left_open (push_cond_match_marks caller)

callee-IsCallee : IsCallee caller callee
unfolding run_events on_event if_handler get_current_state pop check_cond to_int push
    push_cond_match_marks cond_push match_push brace_push
callee-IsCallee = record {
  conds_above = (2, record { state = pos 0; active = pos 1 }) ∷ [];
  matches_above = (2, pos 0) ∷ [];
  conds_kept = refl;
  matches_kept = refl;
  cond_mark_at = 1;
  match_mark_at = 1;
  cond_marks_kept = refl;
  match_marks_kept = refl;
}

marked-IsApart : (m : Machine ℤ) → IsApart m → IsApart (push_cond_match_marks m)
unfolding push_cond_match_marks
marked-IsApart m h = record {
  conds_apart = h.conds_apart;
  matches_apart = h.matches_apart;
  braces_apart = h.braces_apart;
}

callee-IsApart : IsApart callee
callee-IsApart =
    run_events-IsApart left_open _
      (marked-IsApart caller (run_events-IsApart _ start start-IsApart))

pop_marks-restore_example :
    let r = pop_cond_match_marks callee in
    (r.conds.live ≡ caller.conds.live)
    × (r.matches.live ≡ caller.matches.live)
    × (r.cond_marks.live ≡ caller.cond_marks.live)
    × (r.match_marks.live ≡ caller.match_marks.live)
    × (r.braces ≡ callee.braces)
pop_marks-restore_example = pop_marks-restore caller callee callee-IsApart callee-IsCallee

pop_marks-braces_example :
    ((pop_cond_match_marks callee).braces ≡ callee.braces)
    × ((pop_cond_match_marks callee).brace_marks ≡ callee.brace_marks)
    × ((pop_cond_match_marks (push_cond_match_marks caller)).brace_marks.live
        ≡ (fresh caller.brace_marks, first caller.braces.live) ∷ caller.brace_marks.live)
pop_marks-braces_example = pop_marks-braces caller callee

-- Text behind `endwhile` on its line.
abbrev behind : Block ℤ
behind = echo 9 done

run_switch_prints_example : Ensures (Printed start (20 ∷ [])) (
    run_switch
      (number (pos 2))
      ((number (pos 1), echo 10 done) ∷ (number (pos 2), echo 20 done) ∷ [])
      (echo 30 done)
      start)
unfolding meaning cases_meaning same_value get_current_state
run_switch_prints_example =
    run_switch_prints (number (pos 2))
      ((number (pos 1), echo 10 done) ∷ (number (pos 2), echo 20 done) ∷ []) (echo 30 done) start
      refl (refl, (refl, tt))

-- On the first line of a page, where the lexer keeps 0 for both positions.
abbrev first_line : Machine ℤ
first_line = record start { lexer = record (start.lexer) { seek_pos = 0 } }

stale_word_faults_example :
    while_handler (with_value (number (pos 1)) (while_word first_line)) ≡ none
unfolding get_current_state
stale_word_faults_example = stale_word_faults (number (pos 1)) first_line refl refl refl

-- if(8589934592)
check_cond-low_bits_example : truth (check_cond start.vars (number (pos 8589934592))) ≡ false
check_cond-low_bits_example =
    check_cond-low_bits start.vars (number (pos 8589934592)) 8589934592 refl
