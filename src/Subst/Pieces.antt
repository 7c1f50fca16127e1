-- ===== src/Subst/Pieces.antt =====
-- What `SubVar` of src/var.c makes of a text that is put together from plain text, escaped dollar
-- signs, variables and elements of arrays.
use goombaserver.Common.{
  ℕ, zero, suc, ◌+◌, ◌-◌, ◌<◌, ◌≡◌, refl, sym, ap, ◌∙◌, Bool, true, false, Bool-cases, ◌&&◌, Option,
  none, some, List, [], ◌∷◌, ◌++◌, Bytes, length, length-append, ltb, ◌==◌, All, append_assoc,
  append-nil, arith, inl, inr,
}
use goombaserver.Subst.{
  is_word, span_name, span_blanks, span_index, closed, open_bracket, read_index, has_dollar,
  put_value, sub_from, sub_var,
}

pub data Piece : Type 0 where
  plain : ℕ → Piece
  dollar : Piece
  value : Bytes → Piece
  element : Bytes → Bytes → Piece

-- The text in a page: `\$` for a dollar sign, `$name`, and `$name[index]`.
abbrev pub render : List Piece → Bytes
render [] = []
render (plain c ∷ ps) = c ∷ render ps
render (dollar ∷ ps) = 92 ∷ 36 ∷ render ps
render (value n ∷ ps) = 36 ∷ n ++ render ps
render (element n i ∷ ps) = 36 ∷ n ++ (91 ∷ i ++ 93 ∷ render ps)

abbrev pub starts_dollar : Bytes → Bool
starts_dollar [] = false
starts_dollar (c ∷ s) = c == 36

-- A name or an index: letters, digits and underscores, and at least one.
abbrev pub IsName : Bytes → Type 0
IsName [] = ⊥
IsName (c ∷ s) = All (λ d. is_word d ≡ true) (c ∷ s)

-- Behind a variable, neither its name nor an index goes on.
abbrev pub Ends : Bytes → Type 0
Ends r = (span_name false r ≡ ([], r)) × (read_index r ≡ none)

-- The pieces can be told apart in the text: plain text has no dollar sign, and no backslash in front
-- of one.
abbrev pub IsTemplate : List Piece → Type 0
IsTemplate [] = Unit
IsTemplate (plain c ∷ ps) =
    ((c == 36) ≡ false) × (((c == 92) && starts_dollar (render ps)) ≡ false) × IsTemplate ps
IsTemplate (dollar ∷ ps) = IsTemplate ps
IsTemplate (value n ∷ ps) = IsName n × Ends (render ps) × IsTemplate ps
IsTemplate (element n i ∷ ps) = IsName n × IsName i × IsTemplate ps

pub span_word :
    (first : Bool) (c : ℕ) (n rest : Bytes)
    → All (λ d. is_word d ≡ true) (c ∷ n)
    → span_name false rest ≡ ([], rest)
    → span_name first (c ∷ n ++ rest) ≡ (c ∷ n, rest)
unfolding span_name
span_word first c [] rest (w, _) e = rw (e, w) refl
span_word first c (d ∷ n) rest (w, ws) e = rw (w, span_word false d n rest ws e) refl

index_word :
    (n rest : Bytes) → All (λ d. is_word d ≡ true) n → span_index (n ++ 93 ∷ rest) ≡ (n, 93 ∷ rest)
unfolding span_index is_word
index_word [] rest _ = refl
index_word (c ∷ n) rest (w, ws) = rw (w, index_word n rest ws) refl

bracket_none : (i rest : Bytes) → span_name false (91 ∷ i ++ 93 ∷ rest) ≡ ([], 91 ∷ i ++ 93 ∷ rest)
unfolding span_name is_word
bracket_none i rest = refl

bracket_index :
    (i rest : Bytes)
    → All (λ d. is_word d ≡ true) i
    → read_index (91 ∷ i ++ 93 ∷ rest) ≡ some ([], i, rest)
unfolding read_index span_blanks open_bracket closed
bracket_index i rest ws = rw (index_word i rest ws) refl

no_dollar : (i : Bytes) → All (λ d. is_word d ≡ true) i → has_dollar i ≡ false
unfolding has_dollar is_word
no_dollar [] _ = refl
no_dollar (c ∷ i) (w, ws) = ground (arith, w, no_dollar i ws)

module _ {S : Type 0} (get : Bytes → Option Bytes → Bool → S → Option Bytes × S) where
  abbrev pub text_of : Option Bytes → Bytes
  text_of none = []
  text_of (some v) = v

  -- What the pieces stand for, with the state that the variables leave.
  abbrev pub replaced : S → List Piece → Bytes × S
  replaced st [] = ([], st)
  replaced st (plain c ∷ ps) = let (v, st') = replaced st ps in (c ∷ v, st')
  replaced st (dollar ∷ ps) = let (v, st') = replaced st ps in (92 ∷ 36 ∷ v, st')
  replaced st (value n ∷ ps) =
      let (r, st1) = get n none false st in let (v, st') = replaced st1 ps in (text_of r ++ v, st')
  replaced st (element n i ∷ ps) =
      let (r, st1) = get n (some i) false st in
      let (v, st') = replaced st1 ps in (text_of r ++ v, st')

  module _ (fuel : ℕ) (st : S) (l : ℕ) (out : Bytes) (room : ltb (l - 1) (length out) ≡ false) where
    pub step_plain :
        (slash : Bool) (c : ℕ) (s : Bytes)
        → (c == 36) ≡ false
        → sub_from get (suc fuel) st false l out slash (c ∷ s)
          ≡ sub_from get fuel st false l (out ++ c ∷ []) (c == 92) s
    unfolding sub_from
    step_plain slash c s e = rw (sub_from, room, e) refl

    step_dollar :
        (s : Bytes)
        → sub_from get (suc fuel) st false l out true (36 ∷ s)
          ≡ sub_from get fuel st false l (out ++ 36 ∷ []) false s
    unfolding sub_from
    step_dollar s = rw (sub_from, room) refl

    pub step_value :
        (d : ℕ) (ds name rest : Bytes)
        → span_name true (d ∷ ds) ≡ (name, rest)
        → read_index rest ≡ none
        → sub_from get (suc fuel) st false l out false (36 ∷ d ∷ ds)
          ≡ put_value get
              (get name none false st)
              l
              out
              (λ st' l' out'. sub_from get fuel st' false l' out' false rest)
    unfolding sub_from
    step_value d ds name rest e e' = rw (sub_from, room) (rw (e, e') (rw e refl))

    step_element :
        (d : ℕ) (ds name rest : Bytes) (i : ℕ) (is rest' : Bytes)
        → span_name true (d ∷ ds) ≡ (name, rest)
        → read_index rest ≡ some ([], i ∷ is, rest')
        → has_dollar (i ∷ is) ≡ false
        → sub_from get (suc fuel) st false l out false (36 ∷ d ∷ ds)
          ≡ put_value get
              (get (name ++ []) (some (i ∷ is)) false st)
              l
              out
              (λ st' l' out'. sub_from get fuel st' false l' out' false rest')
    unfolding sub_from
    step_element d ds name rest i is rest' e e' e'' =
        rw (sub_from, room) (rw (e, e', e'') (rw e refl))

  pub room_left : (out : Bytes) (m l : ℕ) → length out + m < l → ltb (l - 1) (length out) ≡ false
  room_left out m l lt = ground (arith, lt)

  slash_false : (b : Bool) → (b && true) ≡ false → b ≡ false
  slash_false true e = e
  slash_false false e = e

  -- Without a dollar sign there is plain text only.
  plain_only :
      (st : S) (ps : List Piece)
      → IsTemplate ps
      → has_dollar (render ps) ≡ false
      → (render ps, st) ≡ replaced st ps
  unfolding has_dollar
  plain_only st [] t e = refl
  plain_only st (plain c ∷ ps) (ne, e', t) e =
      ap (λ x. (c ∷ x.0, x.1)) (plain_only st ps t (ground (arith, ne, e)))
  plain_only st (dollar ∷ ps) t e = absurd (ground (arith, e))
  plain_only st (value n ∷ ps) t e = absurd (ground (arith, e))
  plain_only st (element n i ∷ ps) t e = absurd (ground (arith, e))

  -- Where the result fits, the buffer does not grow.
  pub put_room :
      (r : Option Bytes) (st : S) (l : ℕ) (out : Bytes) (next : S → ℕ → Bytes → Option (Bytes × S))
      → length out + length (text_of r) < l
      → put_value get (r, st) l out next ≡ next st l (out ++ text_of r)
  put_room none st l out next lt = ap (next st l) (sym (append-nil out))
  put_room (some v) st l out next lt = ap (λ k. next st k (out ++ v)) (ground (arith, lt))

  -- The text that is written, with what was written before.
  abbrev after : Bytes → Bytes × S → Option (Bytes × S)
  after out (v, st) = some (out ++ v, st)

  sub_from-render :
      (fuel : ℕ) (st : S) (l : ℕ) (out : Bytes) (slash : Bool) (ps : List Piece)
      → IsTemplate ps
      → (slash && starts_dollar (render ps)) ≡ false
      → length (render ps) < fuel
      → length out + length (replaced st ps).0 < l
      → sub_from get fuel st false l out slash (render ps) ≡ after out (replaced st ps)
  sub_from-render zero st l out slash ps t e lt fits = absurd (omega (arith, lt))
  sub_from-render (suc fuel) st l out slash [] t e lt fits =
      (unfold sub_from in ap (λ v. some (v, st)) (sym (append-nil out)))
  sub_from-render (suc fuel) st l out slash (plain c ∷ ps) (ne, e', t) e lt fits =
      step_plain fuel st l out (room_left out _ l fits) slash c (render ps) ne
      ∙ sub_from-render fuel st l (out ++ c ∷ []) (c == 92) ps t e' (omega (arith, lt))
          (omega (arith, fits, length-append out (c ∷ [])))
      ∙ ap (λ v. some (v, (replaced st ps).1)) (append_assoc out (c ∷ []) (replaced st ps).0)
  sub_from-render (suc zero) st l out slash (dollar ∷ ps) t e lt fits = absurd (omega (arith, lt))
  sub_from-render (suc (suc fuel)) st l out slash (dollar ∷ ps) t e lt fits =
      let out' = out ++ 92 ∷ [] in
      let more = length-append out (92 ∷ []) in
      let more' = length-append out' (36 ∷ []) in
      let v = (replaced st ps).0 in
      step_plain (suc fuel) st l out (room_left out _ l fits) slash 92 (36 ∷ render ps) refl
      ∙ step_dollar fuel st l out' (room_left out' (suc (length v)) l (omega (arith, fits, more)))
          (render ps)
      ∙ sub_from-render fuel st l (out' ++ 36 ∷ []) false ps t refl (omega (arith, lt))
          (omega (arith, fits, more, more'))
      ∙ ap (λ u. some (u, (replaced st ps).1))
          (append_assoc out' (36 ∷ []) v ∙ append_assoc out (92 ∷ []) (36 ∷ v))
  sub_from-render (suc fuel) st l out slash (value [] ∷ ps) (w, ends, t) e lt fits = absurd w
  sub_from-render (suc fuel) st l out slash (value (c ∷ n) ∷ ps) (w, ends, t) e lt fits =
      let (r, st1) = get (c ∷ n) none false st in
      let more = length-append (text_of r) (replaced st1 ps).0 in
      let more' = length-append out (text_of r) in
      rw (slash_false slash e) (
        step_value fuel st l out (room_left out _ l fits) c (n ++ render ps) (c ∷ n) (render ps)
          (span_word true c n (render ps) w ends.0) ends.1
        ∙ put_room r st1 l out
            (λ st' l' out'. sub_from get fuel st' false l' out' false (render ps))
            (omega (arith, fits, more))
        ∙ sub_from-render fuel st1 l (out ++ text_of r) false ps t refl
            (omega (arith, lt, length-append n (render ps))) (omega (arith, fits, more, more'))
        ∙ ap (λ u. some (u, (replaced st1 ps).1))
            (append_assoc out (text_of r) (replaced st1 ps).0))
  sub_from-render (suc fuel) st l out slash (element [] i ∷ ps) (w, w', t) e lt fits = absurd w
  sub_from-render (suc fuel) st l out slash (element (c ∷ n) [] ∷ ps) (w, w', t) e lt fits =
      absurd w'
  sub_from-render (suc fuel) st l out slash (element (c ∷ n) (i ∷ is) ∷ ps) (w, w', t) e lt fits =
      let (r, st1) = get (c ∷ n) (some (i ∷ is)) false st in
      let more = length-append (text_of r) (replaced st1 ps).0 in
      let more' = length-append out (text_of r) in
      let rest = 91 ∷ (i ∷ is) ++ 93 ∷ render ps in
      rw (slash_false slash e) (
        step_element fuel st l out (room_left out _ l fits) c (n ++ rest) (c ∷ n) rest i is
          (render ps) (span_word true c n rest w (bracket_none (i ∷ is) (render ps)))
          (bracket_index (i ∷ is) (render ps) w') (no_dollar (i ∷ is) w')
        ∙ ap
            (λ m.
              put_value get (get m (some (i ∷ is)) false st) l out
                (λ st' l' out'. sub_from get fuel st' false l' out' false (render ps)))
            (append-nil (c ∷ n))
        ∙ put_room r st1 l out
            (λ st' l' out'. sub_from get fuel st' false l' out' false (render ps))
            (omega (arith, fits, more))
        ∙ sub_from-render fuel st1 l (out ++ text_of r) false ps t refl
            (omega (arith, lt, length-append n rest, length-append (i ∷ is) (93 ∷ render ps)))
            (omega (arith, fits, more, more'))
        ∙ ap (λ u. some (u, (replaced st1 ps).1))
            (append_assoc out (text_of r) (replaced st1 ps).0))

  -- A text that is put together from plain text, `\$`, `$name` and `$name[index]` becomes the text with
  -- the values of the variables in their places, read from left to right, as long as the result is at
  -- most 1023 bytes longer than the text; a dollar sign behind a backslash stays, with the backslash.
  pub sub_var-render :
      (st : S) (ps : List Piece)
      → IsTemplate ps
      → length (replaced st ps).0 < length (render ps) + 1024
      → sub_var get st (render ps) ≡ some (replaced st ps)
  unfolding sub_var
  sub_var-render st ps t fits = elim (Bool-cases (has_dollar (render ps))) [
    | inl e ↦
        rw (sub_var, e)
          (sub_from-render (length (render ps) + 1) st (length (render ps) + 1024) [] false ps t
            refl (omega arith) (omega (arith, fits)))
    | inr e ↦ rw (sub_var, e) (ap some (plain_only st ps t e))
  ]
