-- ===== src/Text.antt =====
-- Texts on their way from and to the browser: the loops over the bytes of a C string in
-- src/string.c, src/post.c and src/type.c.
pub mod Chars
pub mod RoundTrip
pub mod Form
pub mod Fields
pub mod Pieces
pub mod Slices
use goombaserver.Common.{
  ℕ, zero, suc, ◌+◌, ◌-◌, ◌*◌, ◌/◌, ◌%◌, ◌^◌, Bool, true, false, not, ◌&&◌, ◌||◌, Option, none,
  some, List, [], ◌∷◌, ◌++◌, Bytes, ltb, leb, ◌==◌, if◌then◌else◌,
}
use goombaserver.Common.Int.{ℤ, pos, ltb_ℤ, eqb_ℤ}
use Chars.{signed_char, tolower, hex_digit}

-- The test of `UrlEncode`, on a signed `char`: bytes from 128 on are negative.
unfoldable pub must_escape : ℕ → Bool
must_escape b =
    let c = signed_char b in
    (ltb_ℤ c (pos 48) && (not (eqb_ℤ c (pos 45)) && not (eqb_ℤ c (pos 46))))
    || ((ltb_ℤ c (pos 65) && ltb_ℤ (pos 57) c)
        || ((ltb_ℤ (pos 90) c && (ltb_ℤ c (pos 97) && not (eqb_ℤ c (pos 95))))
            || ltb_ℤ (pos 122) c))

-- The loop of `UrlEncode`; `%%%02x` writes a percent sign and two digits.
unfoldable pub url_encode : Bytes → Bytes
url_encode [] = []
url_encode (b ∷ rest) =
    let tail = url_encode rest in
    if must_escape b then 37 ∷ hex_digit (b / 16) ∷ hex_digit (b % 16) ∷ tail else b ∷ tail

unfoldable pub ishex : ℕ → Bool
ishex c = (leb 48 c && leb c 57) || ((leb 97 c && leb c 102) || (leb 65 c && leb c 70))

-- The value of a digit; `parse_url` asks for it only where `ishex` holds, so that nothing goes
-- below 0.
abbrev digit_value : ℕ → ℕ
digit_value c = let l = tolower c in if leb 48 l && leb l 57 then l - 48 else l - 97 + 10

unfoldable pub htoi : ℕ → ℕ → ℕ
htoi h l = digit_value h * 16 + digit_value l

-- What stands for the byte `c` with the bytes `rest` behind it: a percent sign with two hexadecimal
-- digits is one byte.
escaped : ℕ → Bytes → Option ℕ
escaped c (h ∷ l ∷ rest) = if c == 37 && (ishex h && ishex l) then some (htoi h l % 2 ^ 8) else none
escaped c _ = none

-- The loop of `parse_url`; the number counts the bytes that the pointer still skips.
unfoldable pub parse_from : ℕ → Bytes → Bytes
unfolding escaped
parse_from n [] = []
parse_from (suc n) (c ∷ rest) = parse_from n rest
parse_from zero (c ∷ rest) =
    if c == 43
    then 32 ∷ parse_from 0 rest
    else elim (escaped c rest) [ none ↦ c ∷ parse_from 0 rest | some v ↦ v ∷ parse_from 2 rest ]

unfoldable pub parse_url : Bytes → Bytes
parse_url s = parse_from 0 s

-- `strchr`: the text from the first such byte on.
unfoldable pub strchr : Bytes → ℕ → Option Bytes
strchr [] c = none
strchr (b ∷ rest) c = if b == c then some (b ∷ rest) else strchr rest c
