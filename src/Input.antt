-- ===== src/Input.antt =====
-- src/lex.c: the input line that `getnextchar` fills, `putback`, and the stack of files and functions
-- that an include or a call of a function reads from: `FilePush`, `FilePop`, `RunFunc`, `FindFunc`.

pub mod Lines
pub mod Body
pub mod Ends
pub mod Resume
use goombaserver.Common.{
  ℕ, zero, suc, ◌+◌, ◌-◌, Bool, true, false, not, ◌||◌, ◌&&◌, Option, none, some, List, [], ◌∷◌,
  ◌++◌, Bytes, drop, length, ltb, ◌==◌, if◌then◌else◌,
}
use goombaserver.Text.Chars.{tolower}

-- LINEBUFSIZE.
abbrev pub line_buf_size : ℕ
line_buf_size = 4096

-- An argument of a function, by its name; the list is from the first argument to the last, the
-- order in which `prev` leads from `funcarg_bot` to `funcarg_top`.
pub record FuncStack : Type 0 where
  pub name : Bytes
  pub buf : ℕ → ℕ
  pub size : ℕ
  pub params : List Bytes

-- A file descriptor; `none` is -1, which stands for a function.
pub record FileStack : Type 0 where
  pub pa : ℕ → ℕ
  pub mapped : Bool
  pub fd : Option ℕ
  pub size : ℕ
  pub pos : ℕ
  pub state : ℕ
  pub lstate : ℕ
  pub lineno : ℕ
  pub filename : Bytes

-- What the lexer calls outside of it.
pub data Outside : Type 0 where
  munmap : ℕ → Outside
  close : Option ℕ → Outside
  push_stack_frame : Outside
  pop_stack_frame : Outside
  push_cond_match_marks : Outside
  pop_cond_match_marks : Outside
  set_current_filename : Bytes → Outside
  set_current_file_size : ℕ → Outside
  set_var : Bytes → Outside

-- The static variables. The memory at `pa` is a function, so that a read behind the end of the
-- text has a value, too, and `mapped` says that `pa` is not NULL; `none` as `inpos` is -1.
pub record Lexer : Type 0 where
  pub pa : ℕ → ℕ
  pub mapped : Bool
  pub pa_pos : ℕ
  pub gfd : Option ℕ
  pub gsize : ℕ
  pub state : ℕ
  pub lstate : ℕ
  pub inbuf : Bytes
  pub inpos : Option ℕ
  pub inlength : ℕ
  pub g_length : ℕ
  pub seek_pos : ℕ
  pub tokenmarker : ℕ
  pub line_number : ℕ
  pub top : List FileStack
  pub functop : List FuncStack
  pub cur_func : Option FuncStack
  pub eval_mode : Bool
  pub calls : List Outside

abbrev pub ends_line : ℕ → Bool
ends_line ch = (ch == 10) || (ch == 13) || (ch == 0)

-- The inner loop of `getnextchar`, with the room that is left in `inbuf` as fuel: whether the line is
-- whole, and the bytes stored. A text that ends inside of the line ends the loop, in an `eval` with
-- the byte behind the text.
unfoldable pub fill : (ℕ → ℕ) → ℕ → Bool → ℕ → ℕ → ℕ → Bool × Bytes
fill pa gsize eval zero seek i = (false, [])
fill pa gsize eval (suc room) seek i =
    let ch = pa (seek + i) in
    let more = fill pa gsize eval room seek (suc i) in
    if not (ltb (seek + i) gsize)
    then if eval then (true, ch ∷ []) else (false, [])
    else if ends_line ch || (suc i == line_buf_size)
    then (true, ch ∷ [])
    else (more.0, ch ∷ more.1)

-- A byte of the buffer, which is static and so holds 0 where nothing was stored.
unfoldable pub byte_at : Bytes → ℕ → ℕ
byte_at [] n = 0
byte_at (c ∷ s) zero = c
byte_at (c ∷ s) (suc n) = byte_at s n

unfoldable pub set_byte : Bytes → ℕ → ℕ → Bytes
set_byte [] zero ch = ch ∷ []
set_byte [] (suc n) ch = 0 ∷ set_byte [] n ch
set_byte (c ∷ s) zero ch = ch ∷ s
set_byte (c ∷ s) (suc n) ch = c ∷ set_byte s n ch

abbrev pub line_of : Lexer → Bool × Bytes
line_of s = fill s.pa s.gsize s.eval_mode line_buf_size s.pa_pos 0

unfoldable pub start_line : Lexer → Lexer
start_line s = record s { g_length = 0; inlength = 0; seek_pos = s.pa_pos }

unfoldable pub store_line : Bytes → Lexer → Lexer
store_line line s = record s {
  line_number = suc s.line_number;
  inbuf = line ++ drop (length line) s.inbuf;
}

unfoldable pub take_line : ℕ → Lexer → Lexer
take_line n s = record s { g_length = n; inlength = n; pa_pos = s.seek_pos + n; inpos = some 1 }

-- `getnextchar` where the buffer is used up. A line that was filled has a byte, so the loop over
-- empty lines is left after its first round.
unfoldable pub next_line : Lexer → ℕ × Lexer
next_line s =
    let line = line_of s in
    let stored = store_line line.1 (start_line s) in
    if ltb s.gsize s.pa_pos
    then (0, start_line s)
    else if line.0
    then (byte_at stored.inbuf 0, take_line (length line.1) stored)
    else (0, stored)

unfoldable pub char_at : Option ℕ → Lexer → ℕ × Lexer
char_at none s = next_line s
char_at (some i) s =
    if ltb i s.g_length then (byte_at s.inbuf i, record s { inpos = some (suc i) }) else next_line s

-- `getnextchar`.
abbrev pub next_char : Lexer → ℕ × Lexer
next_char s = char_at s.inpos s

unfoldable pub putback : ℕ → Lexer → Lexer
putback ch s = elim s.inpos [
  | none ↦ s
  | some i ↦
      if ltb 0 i then record s { inpos = some (i - 1); inbuf = set_byte s.inbuf (i - 1) ch } else s
]

abbrev emit : Outside → Lexer → Lexer
emit c s = record s { calls = s.calls ++ c ∷ [] }

-- The place of the next character. Before the first line of a file `inpos` is -1, and no file is
-- pushed there.
abbrev pub place : Lexer → ℕ
place s = elim s.inpos [ none ↦ s.seek_pos - 1 | some i ↦ s.seek_pos + i ]

abbrev pub saved : Bytes → ℕ → Option ℕ → Lexer → FileStack
saved fn file_size fd s = record {
  pa = s.pa;
  mapped = s.mapped;
  fd = fd;
  size = file_size;
  pos = place s;
  state = s.state;
  lstate = s.lstate;
  lineno = s.line_number - 1;
  filename = fn;
}

unfoldable pub file_push : Bytes → ℕ → Option ℕ → Lexer → Lexer
file_push fn file_size fd s = record s { top = saved fn file_size fd s ∷ s.top }

abbrev pub is_none {ℓ} : {A : Type ℓ} → Option A → Bool
is_none none = true
is_none (some a) = false

-- `strcasecmp` of two C strings is 0.
unfoldable pub same_name : Bytes → Bytes → Bool
same_name [] [] = true
same_name [] (d ∷ t) = false
same_name (c ∷ s) [] = false
same_name (c ∷ s) (d ∷ t) = (tolower c == tolower d) && same_name s t

unfoldable pub find_func : Bytes → List FuncStack → Option FuncStack
find_func name [] = none
find_func name (f ∷ fs) =
    let rest = find_func name fs in if same_name f.name name then some f else rest

-- The map of a file is given back, and a text that is none of a function or an `eval`.
unfoldable pub unmap : Lexer → Lexer
unmap s =
    let closed = emit (close s.gfd) (record (emit (munmap s.gsize) s) { mapped = false }) in
    if s.mapped && is_none s.cur_func && not s.eval_mode then closed else s

abbrev pub size_or : ℕ → Option FuncStack → ℕ
size_or n none = n
size_or n (some f) = f.size

-- The part of `FilePop` under `if(!eval_mode)`, with `FindFunc`, which leaves `gsize` where it
-- finds no function.
unfoldable pub return_to : FileStack → Lexer → Lexer
return_to t s =
    let found = find_func t.filename s.functop in
    if s.eval_mode
    then emit pop_cond_match_marks (record s { eval_mode = false })
    else if is_none t.fd
    then record s { cur_func = found; gsize = size_or s.gsize found }
    else record (emit (set_current_file_size t.size) (emit (set_current_filename t.filename) s)) {
      cur_func = none;
    }

-- The fields that `FilePop` takes from the top of the stack.
unfoldable pub reload : FileStack → Lexer → Lexer
reload t s = record s {
  pa = t.pa;
  mapped = t.mapped;
  gfd = t.fd;
  gsize = t.size;
  state = t.state;
  lstate = t.lstate;
  line_number = t.lineno;
}

unfoldable pub leave_frame : Lexer → Lexer
leave_frame s = if is_none s.cur_func then s else emit pop_cond_match_marks (emit pop_stack_frame s)

-- `FilePop`; the result says whether there was a text to return to.
unfoldable pub pop_to : List FileStack → Lexer → Bool × Lexer
pop_to [] s = (false, unmap s)
pop_to (t ∷ ts) s =
    let closed = if is_none t.fd then s else unmap s in
    let s = return_to t (leave_frame (reload t closed)) in
    (true, record s { pa_pos = t.pos; top = ts; inpos = none; tokenmarker = 0 })

abbrev pub file_pop : Lexer → Bool × Lexer
file_pop s = pop_to s.top s

-- `ParserInit` for a function.
unfoldable pub start_func : FuncStack → Lexer → Lexer
start_func f s = record s {
  state = 2;
  pa = f.buf;
  mapped = true;
  pa_pos = 0;
  gsize = f.size;
  inpos = none;
  tokenmarker = 0;
  line_number = 0;
  cur_func = some f;
}

unfoldable pub set_params : List Bytes → Lexer → Lexer
set_params [] s = s
set_params (arg ∷ args) s = set_params args (emit (set_var arg) s)

unfoldable pub push_caller : Bytes → ℕ → Lexer → Lexer
push_caller fn file_size s = elim s.cur_func [
  | none ↦ file_push fn file_size s.gfd s
  | some g ↦ file_push g.name s.gsize none s
]

unfoldable pub enter : Bytes → ℕ → Option FuncStack → Lexer → Option Lexer
enter fn file_size none s = none
enter fn file_size (some f) s =
    let started = start_func f (push_caller fn file_size s) in
    some (set_params f.params (emit push_cond_match_marks (emit push_stack_frame started)))

-- `RunFunc` up to the call of the parser, for the current file `fn` of `file_size` bytes; `none` is
-- the error on a function that is not defined.
abbrev pub run_func : Bytes → ℕ → Bytes → Lexer → Option Lexer
run_func fn file_size name s = enter fn file_size (find_func name s.functop) s
