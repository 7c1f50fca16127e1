-- ===== src/InputExamples.antt =====
-- The theorems on the reader of src/lex.c at a small file with a function.
use goombaserver.Common.{
  ℕ, zero, suc, ◌+◌, ◌<◌, ◌≡◌, refl, true, false, none, some, [], ◌∷◌, ◌++◌, Bytes, codes, arith,
  subst, ◌≤◌, ◌==◌, ◌||◌, inr,
}
use goombaserver.Input.{
  Lexer, FuncStack, byte_at, fill, find_func, same_name, file_pop, next_char, enter, start_func,
  push_caller, file_push, set_params, push_stack_frame, push_cond_match_marks, ends_line,
}
use goombaserver.Input.Resume.{file_pop-run_func}
use goombaserver.Input.Body.{body_of, copied_bytes, body_of_lem}
use goombaserver.Input.Ends.{next_char-HasNoEnd}

-- `f();x`, with the end of its line, and a last line without one.
abbrev page : Bytes
page = codes "f();x" ++ 10 ∷ codes "z"

abbrev echo_y : FuncStack
echo_y = record { name = codes "f"; buf = byte_at (codes "y;"); size = 2; params = codes "a" ∷ [] }

-- The call is read.
abbrev calling : Lexer
calling = record {
  pa = byte_at page;
  mapped = true;
  pa_pos = 6;
  gfd = some 3;
  gsize = 7;
  state = 2;
  lstate = 0;
  inbuf = codes "f();x" ++ 10 ∷ codes "old";
  inpos = some 4;
  inlength = 6;
  g_length = 6;
  seek_pos = 0;
  tokenmarker = 0;
  line_number = 1;
  top = [];
  functop = echo_y ∷ [];
  cur_func = none;
  eval_mode = false;
  calls = [];
}

abbrev in_function : Lexer
in_function =
    set_params echo_y.params (record (start_func echo_y (push_caller (codes "page") 7 calling)) {
      calls = push_stack_frame ∷ push_cond_match_marks ∷ [];
    })

abbrev at_end : Lexer
at_end = record in_function { pa_pos = 2; inpos = some 2; g_length = 2 }

file_pop-run_func_example :
    let r = (file_pop at_end).1 in
    (r.top ≡ [])
    × ((next_char r).0 ≡ (next_char calling).0)
    × ((next_char r).1.line_number ≡ 1)
    × ((next_char r).1.pa_pos ≡ 6)
    × ((rest : Bytes) × ((next_char r).1.inbuf ≡ codes "x" ++ 10 ∷ rest))
unfolding fill byte_at find_func same_name enter start_func push_caller file_push set_params
file_pop-run_func_example =
    file_pop-run_func (codes "page") 7 (codes "f") calling in_function at_end
      (codes "f();x" ++ 10 ∷ []) (codes "old") 4 (refl, omega arith, refl, refl, refl, refl)
      (omega arith) refl refl refl refl

-- The first line is used up.
abbrev at_last_line : Lexer
at_last_line = record calling { inpos = some 6 }

next_char-HasNoEnd_example :
    ((next_char at_last_line).0 ≡ 0) × ((next_char at_last_line).1.pa_pos ≡ 6)
unfolding byte_at
next_char-HasNoEnd_example =
    next_char-HasNoEnd at_last_line (inr (6, refl, omega arith)) refl last_byte (omega arith)
  where
    last_byte : (j : ℕ) → 6 + j < 7 → ends_line (byte_at page (6 + j)) ≡ false
    last_byte zero lt = refl
    last_byte (suc j) lt = absurd (omega (arith, lt))

-- ` $a (echo(1);) `, behind the name of the function.
abbrev definition : ℕ → ℕ
definition = byte_at (codes " $a (echo(1);) ")

body_of_lem_example : body_of definition 9 0 14 ≡ some (codes "echo(1);")
unfolding byte_at copied_bytes
body_of_lem_example =
    body_of_lem definition 9 0 4 8 10 (omega arith) before refl refl (omega arith) behind
  where
    before : (k : ℕ) → k < 4 → ((definition (0 + k) == 0) || (definition (0 + k) == 40)) ≡ false
    before zero lt = refl
    before (suc zero) lt = refl
    before (suc (suc zero)) lt = refl
    before (suc (suc (suc zero))) lt = refl
    before (suc (suc (suc (suc k)))) lt = absurd (omega (arith, lt))

    behind :
        (k : ℕ)
        → 9 < k
        → k ≤ 10
        → ((definition (0 + 4 + k) == 0) || (definition (0 + 4 + k) == 41)) ≡ false
    behind k over le =
        let last : 10 ≡ k = omega (arith, over, le) in
        subst (λ k. ((definition (4 + k) == 0) || (definition (4 + k) == 41)) ≡ false) last refl
