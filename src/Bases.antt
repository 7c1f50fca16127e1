-- ===== src/Bases.antt =====
-- `BinDec`, `HexDec` and `OctDec` of src/calc.c: the value of a text in base 2, 16 or 8.
pub mod Horner
pub mod Values
use goombaserver.Common.{
  ℕ, ◌+◌, ◌-◌, ◌*◌, ◌^◌, ◌%◌, Bool, ◌||◌, Option, none, some, List, [], ◌∷◌, Bytes, ltb, leb, ◌==◌,
  if◌then◌else◌,
}
use goombaserver.Common.Int.{ℤ, pos, negsuc}
use goombaserver.Floats.{Floats}
use goombaserver.Numerals.{decimal}
use goombaserver.Machine.{lnumber, Machine, error, pop}
use goombaserver.Text.Chars.{toupper}
use goombaserver.Expr.{push_number}

-- The loops go from the last byte to the first; `num` and `val` or `mult` are the two variables.
-- Both enter sums and products only, so that the wrap-around to 64 bits is taken once, at the end.
unfoldable pub bin_loop : Bytes → ℕ × ℕ
bin_loop [] = (0, 1)
bin_loop (c ∷ s) = let (num, val) = bin_loop s in (if c == 49 then num + val else num, val * 2)

-- The value that a byte adds, if it is not passed over.
unfoldable pub hex_value : ℕ → Option ℕ
hex_value b =
    let c = toupper b in
    if ltb c 48 || ltb 70 c then none else if leb c 57 then some (c - 48) else some (c + 10 - 65)

unfoldable pub oct_value : ℕ → Option ℕ
oct_value c = if ltb c 48 || ltb 55 c then none else some (c - 48)

-- The loop of `HexDec` and of `OctDec`, which differ in the values and the base.
unfoldable pub base_loop : (ℕ → Option ℕ) → ℕ → Bytes → ℕ × ℕ
base_loop value base [] = (0, 1)
base_loop value base (c ∷ s) =
    let (num, mult) = base_loop value base s in
    elim (value c) [ none ↦ (num, mult) | some v ↦ (num + mult * v, mult * base) ]

-- The bits of `long` or `unsigned long`, as `%ld` reads them.
unfoldable pub as_long : ℕ → ℤ
as_long n = let w = n % 2 ^ 64 in if ltb w (2 ^ 63) then pos w else negsuc (2 ^ 64 - w - 1)

module _ {D : Type 0} ⦃F : Floats D⦄ where
  unfoldable pub bindec : Machine D → Machine D
  bindec m = elim (pop m) [
    | none ↦ error "Stack error in bindec" m
    | some (s, m') ↦ push_number lnumber (decimal (as_long (bin_loop s.strval).0)) m'
  ]

  unfoldable pub hexdec : Machine D → Machine D
  hexdec m = elim (pop m) [
    | none ↦ error "Stack error in hexdec" m
    | some (s, m') ↦ push_number lnumber (decimal (as_long (base_loop hex_value 16 s.strval).0)) m'
  ]

  unfoldable pub octdec : Machine D → Machine D
  octdec m = elim (pop m) [
    | none ↦ error "Stack error in octdec" m
    | some (s, m') ↦ push_number lnumber (decimal (as_long (base_loop oct_value 8 s.strval).0)) m'
  ]
