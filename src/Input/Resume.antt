-- ===== src/Input/Resume.antt =====
-- The return from a function to the text of the caller in src/lex.c.
use goombaserver.Common.{
  ℕ, zero, suc, ◌+◌, ◌-◌, ◌<◌, ◌≡◌, refl, ap, sym, ◌∙◌, true, false, Bool-cases, subst, Option,
  none, some, Option-cases, List, [], ◌∷◌, ◌++◌, Bytes, drop, length, ltb, lt→ltb, arith, inl, inr,
  ◌&&◌, not, if◌then◌else◌,
}
use goombaserver.Input.{
  Lexer, FileStack, FuncStack, fill, byte_at, line_of, line_buf_size, start_line, store_line,
  take_line, next_line, next_char, char_at, pop_to, size_or, file_push, push_caller, find_func,
  unmap, return_to, reload, leave_frame, file_pop, start_func, set_params, run_func, enter, saved,
  is_none, emit, set_var, push_stack_frame, push_cond_match_marks,
}
use goombaserver.Input.Lines.{Terminated, fill_rest, fill_in_text}

-- The buffer holds the line at `SeekPos`, and its byte `i` is the next character.
abbrev pub Reading : Lexer → Bytes → Bytes → ℕ → Type 0
Reading s line old i =
    (s.inpos ≡ some i)
    × (i < length line)
    × (s.g_length ≡ length line)
    × (s.inbuf ≡ line ++ old)
    × (fill s.pa s.gsize false line_buf_size s.seek_pos 0 ≡ (true, line))
    × Terminated line

-- The reader stands at the byte `i` of the line that `s` reads, with an empty buffer.
abbrev pub Resumed : Lexer → Lexer → ℕ → Type 0
Resumed r s i =
    (r.inpos ≡ none)
    × (r.pa ≡ s.pa)
    × (r.gsize ≡ s.gsize)
    × (r.eval_mode ≡ false)
    × (r.pa_pos ≡ s.seek_pos + i)

byte_at-append :
    (line old : Bytes) (i : ℕ) → i < length line → byte_at (line ++ old) i ≡ byte_at line i
unfolding byte_at
byte_at-append [] old i lt = absurd (omega (arith, lt))
byte_at-append (c ∷ line) old zero lt = refl
byte_at-append (c ∷ line) old (suc i) lt = byte_at-append line old i (omega (arith, lt))

byte_at-drop :
    (line old : Bytes) (i : ℕ) → i < length line → byte_at (drop i line ++ old) 0 ≡ byte_at line i
unfolding byte_at
byte_at-drop [] old i lt = absurd (omega (arith, lt))
byte_at-drop (c ∷ line) old zero lt = refl
byte_at-drop (c ∷ line) old (suc i) lt = byte_at-drop line old i (omega (arith, lt))

length-drop : (line : Bytes) (i : ℕ) → i < length line → i + length (drop i line) ≡ length line
length-drop [] i lt = absurd (omega (arith, lt))
length-drop (c ∷ line) zero lt = omega arith
length-drop (c ∷ line) (suc i) lt = omega (arith, length-drop line i (omega (arith, lt)))

next_char-Reading :
    (s : Lexer) (line old : Bytes) (i : ℕ) → Reading s line old i → (next_char s).0 ≡ byte_at line i
unfolding char_at
next_char-Reading s line old i (at, lt, len, buf, line_eq, end) =
    ap (λ o. (char_at o s).0) at
    ∙ rw len (rw (lt→ltb i (length line) lt) (rw buf (byte_at-append line old i lt)))

-- The state after the first character of a line that was filled.
abbrev pub filled : Bytes → Lexer → Lexer
filled line r = take_line (length line) (store_line line (start_line r))

next_line-filled :
    (r : Lexer) (line : Bytes)
    → r.pa_pos < r.gsize
    → line_of r ≡ (true, line)
    → next_line r ≡ (byte_at (line ++ drop (length line) r.inbuf) 0, filled line r)
unfolding next_line store_line start_line
next_line-filled r line lt e = rw e (rw (not_past r.gsize r.pa_pos lt) refl)
  where
    not_past : (m n : ℕ) → n < m → ltb m n ≡ false
    not_past m n lt = ground (arith, lt)

next_char-Resumed :
    (r s : Lexer) (line old : Bytes) (i : ℕ)
    → Reading s line old i
    → Resumed r s i
    → next_char r ≡ (byte_at line i, filled (drop i line) r)
unfolding char_at
next_char-Resumed r s line old i (at, lt, len, buf, line_eq, end)
      (none_at, pa_eq, size, eval, pos) =
    ap (λ o. char_at o r) none_at
    ∙ next_line-filled r (drop i line)
        (rw pos (rw size (fill_in_text s.pa s.gsize (s.seek_pos + i) (drop i line) rest))) same
    ∙ ap (λ c. (c, filled (drop i line) r))
        (byte_at-drop line (drop (length (drop i line)) r.inbuf) i lt)
  where
    rest : fill s.pa s.gsize false line_buf_size (s.seek_pos + i) 0 ≡ (true, drop i line)
    rest =
        subst (λ n. fill s.pa s.gsize false line_buf_size n 0 ≡ (true, drop i line)) (omega arith)
          (fill_rest s.pa s.gsize i line_buf_size s.seek_pos 0 line refl lt line_eq end)

    same : line_of r ≡ (true, drop i line)
    same = rw pa_eq (rw size (rw eval (rw pos rest)))

-- The length of the text that `FilePop` returns to.
abbrev pub kept_size : FileStack → List FuncStack → ℕ
kept_size f fs = if is_none f.fd then size_or f.size (find_func f.filename fs) else f.size

-- What the first part of `FilePop` leaves as it was.
abbrev pub Kept : Lexer → Lexer → Type 0
Kept r s = (r.eval_mode ≡ s.eval_mode) × (r.functop ≡ s.functop)

unmap-Kept : (s : Lexer) → Kept (unmap s) s
unfolding unmap
unmap-Kept s = elim (Bool-cases (s.mapped && is_none s.cur_func && not s.eval_mode)) [
  | inl e ↦ rw e (refl, refl)
  | inr e ↦ rw e (refl, refl)
]

leave_frame-Kept :
    (s : Lexer)
    → Kept (leave_frame s) s
      × ((leave_frame s).pa ≡ s.pa)
      × ((leave_frame s).gsize ≡ s.gsize)
      × ((leave_frame s).line_number ≡ s.line_number)
unfolding leave_frame
leave_frame-Kept s = elim (Bool-cases (is_none s.cur_func)) [
  | inl e ↦ rw e ((refl, refl), refl, refl, refl)
  | inr e ↦ rw e ((refl, refl), refl, refl, refl)
]

return_to_kept :
    (f : FileStack) (s : Lexer)
    → s.eval_mode ≡ false
    → s.gsize ≡ f.size
    → ((return_to f s).eval_mode ≡ false)
      × ((return_to f s).pa ≡ s.pa)
      × ((return_to f s).gsize ≡ kept_size f s.functop)
      × ((return_to f s).line_number ≡ s.line_number)
unfolding return_to
return_to_kept f s eval size = elim (Bool-cases s.eval_mode) [
  | inl e ↦ absurd (cc (e, eval))
  | inr e ↦ elim (Bool-cases (is_none f.fd)) [
    | inl h ↦ simp (e, h) (refl, refl, sized, refl)
    | inr h ↦ simp (e, h) (refl, refl, size, refl)
  ]
]
  where
    sized :
        size_or s.gsize (find_func f.filename s.functop)
        ≡ size_or f.size (find_func f.filename s.functop)
    sized = ap (λ n. size_or n (find_func f.filename s.functop)) size

pop_to_kept :
    (f : FileStack) (ts : List FileStack) (t : Lexer)
    → t.eval_mode ≡ false
    → let r = (pop_to (f ∷ ts) t).1 in
      (r.eval_mode ≡ false)
      × (r.pa ≡ f.pa)
      × (r.gsize ≡ kept_size f t.functop)
      × (r.line_number ≡ f.lineno)
unfolding pop_to reload
pop_to_kept f ts t eval =
    let closed = if is_none f.fd then t else unmap t in
    let left = leave_frame-Kept (reload f closed) in
    let back = return_to_kept f (leave_frame (reload f closed)) (left.0.0 ∙ kept.0 ∙ eval) left.2 in
    (back.0, back.1 ∙ left.1, back.2 ∙ ap (kept_size f) (left.0.1 ∙ kept.1), back.3 ∙ left.3)
  where
    kept : Kept (if is_none f.fd then t else unmap t) t
    kept = elim (Bool-cases (is_none f.fd)) [
      | inl e ↦ rw e (refl, refl)
      | inr e ↦ rw e (unmap-Kept t)
    ]

-- What `RunFunc` puts on the stack.
abbrev pub caller : Bytes → ℕ → Lexer → Option FuncStack → FileStack
caller fn file_size s none = saved fn file_size s.gfd s
caller fn file_size s (some g) = saved g.name s.gsize none s

push_caller-top :
    (fn : Bytes) (file_size : ℕ) (s : Lexer)
    → (push_caller fn file_size s).top ≡ caller fn file_size s s.cur_func ∷ s.top
unfolding push_caller file_push
push_caller-top fn file_size s = elim (Option-cases s.cur_func) [
  | inl e ↦ rw e refl
  | inr (g, e) ↦ rw e refl
]

set_params-top : (args : List Bytes) (s : Lexer) → (set_params args s).top ≡ s.top
unfolding set_params
set_params-top [] s = refl
set_params-top (arg ∷ args) s = set_params-top args (emit (set_var arg) s)

enter-top :
    (fn : Bytes) (file_size : ℕ) (o : Option FuncStack) (s u : Lexer)
    → enter fn file_size o s ≡ some u
    → u.top ≡ caller fn file_size s s.cur_func ∷ s.top
unfolding enter start_func
enter-top fn file_size none s u e = cc e
enter-top fn file_size (some f) s u e =
    let started = start_func f (push_caller fn file_size s) in
    ap (λ o. elim o as (λ o. List FileStack) [ none ↦ [] | some r ↦ r.top ]) (sym e)
    ∙ set_params-top f.params (emit push_cond_match_marks (emit push_stack_frame started))
    ∙ push_caller-top fn file_size s

caller_kept :
    (fn : Bytes) (file_size i : ℕ) (s : Lexer) (o : Option FuncStack)
    → s.inpos ≡ some i
    → let f = caller fn file_size s o in
      (f.pa ≡ s.pa) × (f.lineno ≡ s.line_number - 1) × (f.pos ≡ s.seek_pos + i)
caller_kept fn file_size i s none at = (refl, refl, rw at refl)
caller_kept fn file_size i s (some g) at = (refl, refl, rw at refl)

-- When a function that was called in a line returns, whatever it read and called, the next
-- character is the one that stood behind the call, with the rest of the line behind it and at the
-- same number: if the line ends in the text and did not fill the buffer, and if the function that
-- `FilePop` finds by the caller's name has the caller's length.
pub file_pop-run_func :
    (fn : Bytes) (file_size : ℕ) (name : Bytes) (s u t : Lexer) (line old : Bytes) (i : ℕ)
    → Reading s line old i
    → 0 < s.line_number
    → run_func fn file_size name s ≡ some u
    → t.top ≡ u.top
    → t.eval_mode ≡ false
    → kept_size (caller fn file_size s s.cur_func) t.functop ≡ s.gsize
    → let r = (file_pop t).1 in
      (r.top ≡ s.top)
      × ((next_char r).0 ≡ (next_char s).0)
      × ((next_char r).1.line_number ≡ s.line_number)
      × ((next_char r).1.pa_pos ≡ s.seek_pos + length line)
      × ((rest : Bytes) × ((next_char r).1.inbuf ≡ drop i line ++ rest))
unfolding store_line start_line take_line pop_to
file_pop-run_func fn file_size name s u t line old i reading started run same_top eval sized =
    let f = caller fn file_size s s.cur_func in
    let r = (pop_to (f ∷ s.top) t).1 in
    let kept = pop_to_kept f s.top t eval in
    let back = caller_kept fn file_size i s s.cur_func reading.0 in
    let next =
      next_char-Resumed r s line old i reading
        (refl, kept.1 ∙ back.0, kept.2 ∙ sized, kept.0, back.2) in
    let popped = same_top ∙ enter-top fn file_size (find_func name s.functop) s u run in
    subst
      (λ ts.
        let r = (pop_to ts t).1 in
        (r.top ≡ s.top)
        × ((next_char r).0 ≡ (next_char s).0)
        × ((next_char r).1.line_number ≡ s.line_number)
        × ((next_char r).1.pa_pos ≡ s.seek_pos + length line)
        × ((rest : Bytes) × ((next_char r).1.inbuf ≡ drop i line ++ rest)))
      (sym popped)
      (
        refl,
        ap (λ p. p.0) next ∙ sym (next_char-Reading s line old i reading),
        ap (λ p. p.1.line_number) next ∙ ap suc (kept.3 ∙ back.1) ∙ omega (arith, started),
        ap (λ p. p.1.pa_pos) next
            ∙ ap (λ n. n + length (drop i line)) back.2
            ∙ omega (arith, length-drop line i reading.1),
        (drop (length (drop i line)) r.inbuf, ap (λ p. p.1.inbuf) next),
      )
