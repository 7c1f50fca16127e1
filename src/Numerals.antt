-- ===== src/Numerals.antt =====
-- Two functions of the C library that src/stack.c, src/cond.c and src/calc.c put between the numbers
-- and the texts of the expression stack: `sprintf` with `%ld` or `%d`, and `atol`.
pub mod RoundTrip
use goombaserver.Common.{
  ℕ, zero, suc, ◌+◌, ◌-◌, ◌*◌, ◌/◌, ◌%◌, ◌^◌, Bool, true, false, ◌&&◌, ◌||◌, List, [], ◌∷◌, ◌++◌,
  Bytes, ltb, leb, ◌==◌, if◌then◌else◌,
}
use goombaserver.Common.Int.{ℤ, pos, negsuc}

-- The digits of a number, on fuel: each step divides by ten, and `n` steps are enough.
unfoldable pub digits_from : ℕ → ℕ → Bytes → Bytes
digits_from zero n out = (48 + n % 10) ∷ out
digits_from (suc fuel) n out =
    let rest = digits_from fuel (n / 10) ((48 + n % 10) ∷ out) in
    if ltb n 10 then (48 + n % 10) ∷ out else rest

unfoldable pub digits : ℕ → Bytes
digits n = digits_from n n []

-- `sprintf("%ld")`.
unfoldable pub decimal : ℤ → Bytes
decimal (pos n) = digits n
decimal (negsuc n) = 45 ∷ digits (suc n)

abbrev pub is_digit : ℕ → Bool
is_digit c = leb 48 c && leb c 57

abbrev pub is_space : ℕ → Bool
is_space c = (c == 32) || (leb 9 c && leb c 13)

-- The value of the digits that a text starts with.
unfoldable pub scan_digits : ℕ → Bytes → ℕ
scan_digits n [] = n
scan_digits n (c ∷ s) =
    let rest = scan_digits (n * 10 + (c - 48)) s in if is_digit c then rest else n

-- A value that `long` does not hold is replaced by the nearest one that it does.
unfoldable pub clamp_pos : ℕ → ℤ
clamp_pos n = if ltb n (2 ^ 63) then pos n else pos (2 ^ 63 - 1)

unfoldable pub clamp_neg : ℕ → ℤ
clamp_neg zero = pos 0
clamp_neg (suc n) = if ltb n (2 ^ 63) then negsuc n else negsuc (2 ^ 63 - 1)

unfoldable pub signed : Bytes → ℤ
signed [] = pos 0
signed (c ∷ s) =
    if c == 45
    then clamp_neg (scan_digits 0 s)
    else if c == 43
    then clamp_pos (scan_digits 0 s)
    else clamp_pos (scan_digits 0 (c ∷ s))

unfoldable pub atol : Bytes → ℤ
unfolding signed
atol [] = pos 0
atol (c ∷ s) = let rest = atol s in if is_space c then rest else signed (c ∷ s)
