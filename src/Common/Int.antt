-- ===== src/Common/Int.antt =====
-- Signed integers over the native numbers, under the library's names: the values of C's `int` and
-- `long`, with the wrap-around to a width written out.
use Prim.Native.Nat.{ℕ, zero, suc, ◌+◌, ◌-◌, ◌*◌, ◌/◌, ◌%◌, ◌^◌}
use mathlib.Core.Bool.{Bool, true, false, not, ◌&&◌, ◌||◌}
use goombaserver.Common.Tests.{ltb, leb, ◌==◌, if◌then◌else◌}

-- `negsuc n` is -(n + 1).
pub data ℤ : Type 0 where
  pos : ℕ → ℤ
  negsuc : ℕ → ℤ

abbrev pub pos_part : ℤ → ℕ
pos_part (pos n) = n
pos_part (negsuc n) = 0

abbrev pub neg_part : ℤ → ℕ
neg_part (pos n) = 0
neg_part (negsuc n) = suc n

-- a - b, as an integer.
abbrev pub sub_ℕ : ℕ → ℕ → ℤ
sub_ℕ a b = if leb b a then pos (a - b) else negsuc (b - a - 1)

infixl 65 ◌+ℤ◌ ◌-ℤ◌
abbrev pub ◌+ℤ◌ : ℤ → ℤ → ℤ
a +ℤ b = sub_ℕ (pos_part a + pos_part b) (neg_part a + neg_part b)

abbrev pub ◌-ℤ◌ : ℤ → ℤ → ℤ
a -ℤ b = sub_ℕ (pos_part a + neg_part b) (neg_part a + pos_part b)

infixl 70 ◌*ℤ◌
abbrev pub ◌*ℤ◌ : ℤ → ℤ → ℤ
a *ℤ b =
    sub_ℕ (pos_part a * pos_part b + neg_part a * neg_part b)
      (pos_part a * neg_part b + neg_part a * pos_part b)

-- C's `/` and `%`, which cut towards 0; the divisor is not 0.
abbrev pub quot : ℤ → ℤ → ℤ
quot a b = elim a [
  | pos n ↦ elim b [ pos m ↦ sub_ℕ (n / m) 0 | negsuc m ↦ sub_ℕ 0 (n / suc m) ]
  | negsuc n ↦ elim b [ pos m ↦ sub_ℕ 0 (suc n / m) | negsuc m ↦ sub_ℕ (suc n / suc m) 0 ]
]

abbrev pub rem : ℤ → ℤ → ℤ
rem a b = a -ℤ quot a b *ℤ b

abbrev pub eqb_ℤ : ℤ → ℤ → Bool
eqb_ℤ a b = pos_part a + neg_part b == pos_part b + neg_part a

abbrev pub ltb_ℤ : ℤ → ℤ → Bool
ltb_ℤ a b = ltb (pos_part a + neg_part b) (pos_part b + neg_part a)

-- The bit pattern of an integer in `int`, 32 bits wide.
abbrev pub int_bits : ℤ → ℕ
int_bits (pos n) = n % 2 ^ 32
int_bits (negsuc n) = 2 ^ 32 - 1 - n % 2 ^ 32

-- Conversion of a `long` to `int`: the low 32 bits, read as two's complement.
unfoldable pub to_int : ℤ → ℤ
to_int z = let w = int_bits z in if ltb w (2 ^ 31) then pos w else negsuc (2 ^ 32 - w - 1)

-- The bit pattern of an integer in `long`, 64 bits wide.
abbrev pub long_bits : ℤ → ℕ
long_bits (pos n) = n % 2 ^ 64
long_bits (negsuc n) = 2 ^ 64 - 1 - n % 2 ^ 64

-- A pattern of 64 bits, read as two's complement.
unfoldable pub of_long_bits : ℕ → ℤ
of_long_bits w = if ltb w (2 ^ 63) then pos w else negsuc (2 ^ 64 - w - 1)

-- The value of a result in `long`: the low 64 bits.
unfoldable pub to_long : ℤ → ℤ
to_long z = of_long_bits (long_bits z)

-- An operation on each of the `n` low bits of two patterns.
unfoldable pub bitwise : (Bool → Bool → Bool) → ℕ → ℕ → ℕ → ℕ
bitwise op zero a b = 0
bitwise op (suc n) a b =
    (if op (a % 2 == 1) (b % 2 == 1) then 1 else 0) + 2 * bitwise op n (a / 2) (b / 2)

-- C's `&`, `|` and `^` on `long`.
abbrev pub long_and : ℤ → ℤ → ℤ
long_and a b = of_long_bits (bitwise (λ x y. x && y) 64 (long_bits a) (long_bits b))

abbrev pub long_or : ℤ → ℤ → ℤ
long_or a b = of_long_bits (bitwise (λ x y. x || y) 64 (long_bits a) (long_bits b))

abbrev pub long_xor : ℤ → ℤ → ℤ
long_xor a b =
    of_long_bits (bitwise (λ x y. (x && not y) || (not x && y)) 64 (long_bits a) (long_bits b))

-- C's truth of an integer.
abbrev pub truth : ℤ → Bool
truth (pos zero) = false
truth (pos (suc n)) = true
truth (negsuc n) = true

-- The integer that C's `!` and comparisons give.
abbrev pub of_bool : Bool → ℤ
of_bool true = pos 1
of_bool false = pos 0
