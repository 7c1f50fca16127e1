-- ===== src/Subst.antt =====
-- `SubVar` of src/var.c: the names of variables in a text are replaced by their values.
pub mod Pieces
pub mod Lost
use goombaserver.Common.{
  ℕ, zero, suc, ◌+◌, ◌-◌, ◌*◌, Bool, true, false, ◌&&◌, ◌||◌, Option, none, some, ◌>>=◌, List, [],
  ◌∷◌, ◌++◌, Bytes, length, ltb, leb, ◌==◌, if◌then◌else◌,
}

-- A byte of a name: `isalnum(c) || c=='_'`.
unfoldable pub is_word : ℕ → Bool
is_word c =
    (leb 48 c && leb c 57) || ((leb 65 c && leb c 90) || ((leb 97 c && leb c 122) || (c == 95)))

-- The bytes of a name behind the `$`, of which the first may be a `$` too, and the rest.
unfoldable pub span_name : Bool → Bytes → Bytes × Bytes
span_name first [] = ([], [])
span_name first (c ∷ s) =
    let (w, r) = span_name false s in
    if is_word c || ((c == 36) && first) then (c ∷ w, r) else ([], c ∷ s)

-- The blanks in front of a bracket.
unfoldable pub span_blanks : Bytes → Bytes × Bytes
span_blanks [] = ([], [])
span_blanks (c ∷ s) =
    let (w, r) = span_blanks s in
    if (c == 32) || ((c == 9) || (c == 10)) then (c ∷ w, r) else ([], c ∷ s)

unfoldable pub span_index : Bytes → Bytes × Bytes
span_index [] = ([], [])
span_index (c ∷ s) =
    let (w, r) = span_index s in if is_word c || (c == 36) then (c ∷ w, r) else ([], c ∷ s)

-- The rest behind a closing bracket.
unfoldable pub closed : Bytes → Option Bytes
closed [] = none
closed (c ∷ r) = if c == 93 then some r else none

unfoldable pub open_bracket : Bytes → Option (Bytes × Bytes)
unfolding span_index closed
open_bracket [] = none
open_bracket (c ∷ s) =
    let (index, r) = span_index s in
    if c == 91 then closed r >>= (λ rest. some (index, rest)) else none

-- An index in brackets behind a name: the blanks in front, the index, and the rest.
unfoldable pub read_index : Bytes → Option (Bytes × Bytes × Bytes)
unfolding span_blanks open_bracket
read_index s =
    let (blanks, r) = span_blanks s in
    open_bracket r >>= (λ x. let (index, rest) = x in some (blanks, index, rest))

unfoldable pub has_dollar : Bytes → Bool
has_dollar [] = false
has_dollar (c ∷ s) = (c == 36) || has_dollar s

-- `get name index mode st` is the text of the variable that `GetVar` gives, which may move the array's
-- pointer, so that it gives a new state.
module _ {S : Type 0} (get : Bytes → Option Bytes → Bool → S → Option Bytes × S) where
  -- The buffer's length when a value is appended.
  abbrev pub grown : ℕ → Bytes → Bytes → ℕ
  grown l out v = if ltb (l - 1) (length out + length v) then 2 * l + length v else l

  -- What a variable is replaced by, and the loop goes on with `next`, which takes the state, the
  -- buffer's length and the text that was written.
  abbrev pub put_value :
      Option Bytes × S → ℕ → Bytes → (S → ℕ → Bytes → Option (Bytes × S)) → Option (Bytes × S)
  put_value (none, st) l out next = next st l out
  put_value (some v, st) l out next = next st (grown l out v) (out ++ v)

  -- An empty index asks for the next element.
  abbrev pub index_mode : Bytes → Bool → Option Bytes × Bool
  index_mode [] mode = (none, true)
  index_mode (c ∷ s) mode = (some (c ∷ s), mode)

  -- The loop: `mode` says that an empty index was met, `l` is the length of the buffer, `out` what was
  -- written to it, and `slash` whether the byte in front is a backslash. Where `out` has grown too
  -- large, the source makes a new buffer and goes on behind the end of the text.
  unfoldable pub sub_from : ℕ → S → Bool → ℕ → Bytes → Bool → Bytes → Option (Bytes × S)
  sub_from zero st mode l out slash s = none
  sub_from (suc fuel) st mode l out slash [] = some (out, st)
  sub_from (suc fuel) st mode l out slash (c ∷ s) = elim (ltb (l - 1) (length out)) [
    | true ↦ some (out, st)
    | false ↦ elim (c == 36) [
      | false ↦ sub_from fuel st mode l (out ++ c ∷ []) (c == 92) s
      | true ↦ elim slash [
        | true ↦ sub_from fuel st mode l (out ++ 36 ∷ []) false s
        | false ↦ elim s [
          | [] ↦ some (out ++ 36 ∷ [], st)
          | d ∷ ds ↦
              let (name, rest) = span_name true (d ∷ ds) in
              elim (read_index rest) [
                | none ↦
                    put_value (get name none mode st) l out
                      (λ st' l' out'. sub_from fuel st' mode l' out' false rest)
                | some (blanks, index, rest') ↦
                    (elim (has_dollar index) [
                      | false ↦ some (index, st)
                      | true ↦ sub_from fuel st false (length index + 1024) [] false index
                    ])
                    >>= (λ r.
                        let (index', st') = r in
                        let (ind, mode') = index_mode index' mode in
                        put_value (get (name ++ blanks) ind mode' st') l out
                          (λ st'' l' out'. sub_from fuel st'' mode' l' out' false rest'))
              ]
        ]
      ]
    ]
  ]

  -- Enough fuel is one more than the length of the text.
  unfoldable pub sub_var : S → Bytes → Option (Bytes × S)
  unfolding sub_from
  sub_var st s = elim (has_dollar s) [
    | false ↦ some (s, st)
    | true ↦ sub_from (length s + 1) st false (length s + 1024) [] false s
  ]
