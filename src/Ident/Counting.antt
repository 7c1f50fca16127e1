-- ===== src/Ident/Counting.antt =====
-- `CheckType` of src/type.c, which scans a text with a state, and the count of its dots.
use goombaserver.Common.{
  ℕ, suc, ◌+◌, ◌≡◌, refl, Bool, true, ◌&&◌, ◌||◌, [], ◌∷◌, Bytes, ◌==◌, if◌then◌else◌, arith,
}
use goombaserver.Machine.{Kind, lnumber, dnumber, string}
use goombaserver.Numerals.{is_digit}
use goombaserver.Ident.{check_rest, check_type, starts_number}

pub dots : Bytes → ℕ
dots [] = 0
dots (c ∷ s) = if c == 46 then suc (dots s) else dots s

-- Digits and dots only.
pub numeric : Bytes → Bool
numeric [] = true
numeric (c ∷ s) = (is_digit c || (c == 46)) && numeric s

-- No dot makes a whole number, one dot a real number.
abbrev pub by_dots : ℕ → Kind
by_dots n = if n == 0 then lnumber else if n == 1 then dnumber else string

-- The type by counting, of a text behind its first byte, with the dots before it.
abbrev counted : ℕ → Bytes → Kind
counted n s = if numeric s then by_dots (n + dots s) else string

check_rest-dnumber : (s : Bytes) → check_rest dnumber s ≡ counted 1 s
unfolding check_rest numeric dots
check_rest-dnumber [] = refl
check_rest-dnumber (c ∷ s) = ground (arith, check_rest-dnumber s)

check_rest-lnumber : (s : Bytes) → check_rest lnumber s ≡ counted 0 s
unfolding check_rest numeric dots
check_rest-lnumber [] = refl
check_rest-lnumber (c ∷ s) = ground (arith, check_rest-lnumber s, check_rest-dnumber s)

-- The type of a whole text by counting.
abbrev pub counted_type : Bytes → Kind
counted_type [] = string
counted_type (c ∷ s) = if starts_number c && numeric s then by_dots (dots (c ∷ s)) else string

-- `CheckType` says LNUMBER exactly for a sign or a digit with digits behind it, DNUMBER exactly for a
-- text with a single dot besides, or in front of digits, and STRING for every other.
check_type-counted : (str : Bytes) → check_type str ≡ counted_type str
unfolding check_type dots
check_type-counted [] = refl
check_type-counted (c ∷ s) = ground (arith, check_rest-lnumber s, check_rest-dnumber s)
