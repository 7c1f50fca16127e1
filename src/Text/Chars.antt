-- ===== src/Text/Chars.antt =====
-- Bytes as C's `char`, and the functions of the C library on them in the locale "C".
use goombaserver.Common.{ℕ, ◌+◌, ◌-◌, ◌&&◌, ltb, leb, if◌then◌else◌}
use goombaserver.Common.Int.{ℤ, pos, negsuc}

-- The value of a byte that is read as a `char`, which is signed.
abbrev pub signed_char : ℕ → ℤ
signed_char b = if ltb b 128 then pos b else negsuc (255 - b)

abbrev pub tolower : ℕ → ℕ
tolower c = if leb 65 c && leb c 90 then c + 32 else c

abbrev pub toupper : ℕ → ℕ
toupper c = if leb 97 c && leb c 122 then c - 32 else c

-- A digit as `%x` writes it.
abbrev pub hex_digit : ℕ → ℕ
hex_digit d = if ltb d 10 then 48 + d else 87 + d
