-- ===== src/While/Stale.antt =====
-- A loop whose word stands where the lexer's record of the last round points.
use goombaserver.Common.{◌≡◌, none, [], true, arith}
use goombaserver.Machine.{Item, Machine, pop}
use goombaserver.Cond.{get_current_state}
use goombaserver.Cond.Program.{is_active, with_value}
use goombaserver.While.{while_word, while_handler, set_state}

module _ {D : Type 0} where
  -- Where `iterwhile` equals the position of the line, as it does on the first line of a page, where
  -- both are 0, and on the line of a loop that ended, the word `while` in code that is executed
  -- starts no loop; with no other loop open, testing the condition writes through a NULL pointer.
  pub stale_word_faults :
      (v : Item D) (m : Machine D)
      → is_active m ≡ true
      → m.whiles.live ≡ []
      → m.lexer.iterwhile ≡ m.lexer.seek_pos
      → while_handler (with_value v (while_word m)) ≡ none
  unfolding while_word while_handler set_state pop get_current_state
  stale_word_faults v m h e p = ground arith
