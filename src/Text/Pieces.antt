-- ===== src/Text/Pieces.antt =====
-- The loops of `QuoteMeta`, `SubStr`, `StrToUpper` and `StrToLower` in src/string.c.
use goombaserver.Common.{
  ℕ, ◌-◌, Bool, true, ◌||◌, [], ◌∷◌, Bytes, length, take, drop, ltb, ◌==◌, if◌then◌else◌,
}
use goombaserver.Common.Int.{ℤ, pos, negsuc, ◌+ℤ◌, to_int}
use goombaserver.Text.Chars.{tolower, toupper}

-- A dot, a backslash, + * ? [ ^ and $.
unfoldable pub is_meta : ℕ → Bool
is_meta c =
    (c == 46)
    || ((c == 92)
        || ((c == 43) || ((c == 42) || ((c == 63) || ((c == 91) || ((c == 94) || (c == 36)))))))

unfoldable pub quote_meta : Bytes → Bytes
quote_meta [] = []
quote_meta (c ∷ s) = let rest = quote_meta s in if is_meta c then 92 ∷ c ∷ rest else c ∷ rest

-- The comparison `z > strlen(s)`, in which a negative number counts as a very large one.
abbrev over : ℤ → ℕ → Bool
over (pos k) l = ltb l k
over (negsuc k) l = true

-- From the byte `m` on, with a NUL written at `m+n` before; one before `m` cuts nothing off.
abbrev cut : ℤ → ℤ → Bytes → Bytes
cut (pos m) (pos e) s = if ltb e m then drop m s else take (e - m) (drop m s)
cut _ _ s = []

-- `SubStr` on the two numbers as `int`.
unfoldable pub sub_str : ℤ → ℤ → Bytes → Bytes
sub_str m n s =
    let end = to_int (m +ℤ n) in
    if over m (length s) then [] else elim m [
      | pos k ↦ if over end (length s) then drop k s else cut (pos k) end s
      | negsuc k ↦ []
    ]

unfoldable pub str_to_upper : Bytes → Bytes
str_to_upper [] = []
str_to_upper (c ∷ s) = toupper c ∷ str_to_upper s

unfoldable pub str_to_lower : Bytes → Bytes
str_to_lower [] = []
str_to_lower (c ∷ s) = tolower c ∷ str_to_lower s
