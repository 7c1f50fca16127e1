-- ===== src/While.antt =====
-- src/while.c, the stack of loops and the handlers of while and endwhile, with the two functions of
-- src/lex.c that start a loop's next round and the lexer's action on the word `while`.
pub mod Steps
pub mod Rounds
pub mod Loop
pub mod Stale
use goombaserver.Common.{
  ℕ, ◌+◌, ◌-◌, Bool, not, Option, none, some, List, [], ◌∷◌, ◌==◌, if◌then◌else◌,
}
use goombaserver.Common.Int.{ℤ, pos, negsuc, truth, eqb_ℤ}
use goombaserver.Nodes.{clear, push, discard, unwind, first, head}
use goombaserver.Machine.{WhileStack, Lexer, end_while, Machine, error, pop}
use goombaserver.Cond.{
  get_current_state, cond_peek, cond_push, cond_change, cond_pop, brace_push, brace_pop, check_cond,
}

-- The mark -4 of a loop's condition.
abbrev pub loop_mark : ℤ
loop_mark = negsuc 3

-- `NewWhileIteration` of src/lex.c.
abbrev pub new_while_iteration : Lexer → Bool
new_while_iteration l = not (l.iterwhile == l.seek_pos)

module _ {D : Type 0} where
  unfoldable pub init_while : Machine D → Machine D
  unfolding clear
  init_while m = record m { whiles = clear m.whiles; while_marks = clear m.while_marks }

  unfoldable pub while_push : ℕ → ℕ → ℕ → Machine D → Machine D
  while_push seekpos offset lineno m = record m {
    whiles =
        push (record { seekpos = seekpos; offset = offset; state = pos 1; lineno = lineno })
          m.whiles;
  }

  -- `none` is the read through the NULL pointer on an empty stack.
  unfoldable pub while_pop : Machine D → Option (WhileStack × Machine D)
  while_pop m = elim (head m.whiles.live) [
    | none ↦ none
    | some w ↦ some (w, record m { whiles = discard m.whiles })
  ]

  unfoldable pub while_peek : Machine D → Option WhileStack
  while_peek m = head m.whiles.live

  -- No function of the program calls `PushWhileMark` and `PopWhileMark`.
  unfoldable pub push_while_mark : Machine D → Machine D
  push_while_mark m = record m { while_marks = push (first m.whiles.live) m.while_marks }

  unfoldable pub pop_while_mark : Machine D → Machine D
  pop_while_mark m = elim (head m.while_marks.live) [
    | none ↦ m
    | some mark ↦ record m {
      whiles = unwind discard mark m.whiles;
      while_marks = discard m.while_marks;
    }
  ]

  -- `WhileAgain` of src/lex.c: the next line is read from the loop's word `while` on. What is left of
  -- the current line is in the buffer, is not dropped, and is read before.
  unfoldable pub while_again : ℕ → ℕ → ℕ → Machine D → Machine D
  while_again seekpos offset lineno m = record m {
    lexer = record (m.lexer) {
      pa_pos = seekpos + offset;
      linenumber = lineno;
      tokenmarker = 0;
      state = 2;
      iterwhile = seekpos + offset;
    };
  }

  -- The lexer's action on the word `while`: a loop that it does not take for a further round of the
  -- last one is put on the stack.
  unfoldable pub while_word : Machine D → Machine D
  while_word m =
      let l = m.lexer in
      if l.iterwhile == l.seek_pos
      then m
      else if truth (get_current_state m).0
      then while_push l.seek_pos l.tokenmarker (l.linenumber - 1) m
      else m

  unfoldable pub set_state : ℤ → List (ℕ × WhileStack) → Machine D → Option (Machine D)
  set_state c [] m = none
  set_state c ((n, w) ∷ rest) m =
      some (record m { whiles = record (m.whiles) { live = (n, record w { state = c }) ∷ rest } })

  -- The second half of `While`, after the state was written.
  unfoldable pub while_condition : ℤ → Machine D → Option (Machine D)
  while_condition c m =
      let m' =
        if new_while_iteration m.lexer
        then brace_push end_while (cond_push c loop_mark m)
        else cond_change c loop_mark m in
      if truth c then some m' else elim (while_pop m') [ none ↦ none | some (w, m'') ↦ some m'' ]

  -- `none` is a write through the NULL top of the stack of loops.
  unfoldable pub while_handler : Machine D → Option (Machine D)
  unfolding set_state while_condition
  while_handler m =
      let state = (get_current_state m).0 in
      if truth state
      then elim (pop m) [
        | none ↦ some (error "Stack Error in while" m)
        | some (s, m') ↦
            let c = check_cond m'.vars s in
            elim (set_state c m'.whiles.live m') [ none ↦ none | some m'' ↦ while_condition c m'' ]
      ]
      else some (brace_push end_while (cond_push state loop_mark m))

  -- `old` is what stands in the uninitialised local `active`; `CondPeek` leaves it there if the
  -- stack of conditions is empty.
  unfoldable pub endwhile_handler : ℤ → Machine D → Machine D
  endwhile_handler old m =
      let (state, active) = cond_peek old m in
      if not (eqb_ℤ active loop_mark)
      then error "endwhile misplaced" m
      else (let leave = (brace_pop (cond_pop m).1).1 in
          if truth state
          then elim (while_peek m) [
            | none ↦ leave
            | some w ↦ while_again w.seekpos w.offset w.lineno m
          ]
          else leave)
