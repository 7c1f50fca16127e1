-- ===== src/Floats.antt =====
-- C's doubles, which the language has no type for: the operations of the C library and of the
-- processor that src/stack.c, src/switch.c, src/cond.c and src/string.c use on them, as an interface.
use goombaserver.Common.{Bool, Bytes, codes, ◌++◌}
use goombaserver.Common.Int.{ℤ, pos, eqb_ℤ, ltb_ℤ, to_long, ◌+ℤ◌, ◌-ℤ◌, ◌*ℤ◌, quot}
use goombaserver.Numerals.{atol, decimal}

-- `atof` is the library's reading of a text; `eqb` and `ltb` are `==` and `<`.
pub record Floats (D : Type 0) : Type 0 where
  pub zero : D
  pub atof : Bytes → D
  pub eqb : D → D → Bool
  pub ltb : D → D → Bool

-- What src/var.c and src/calc.c compute with doubles: `of_long` and `to_long` are the conversions,
-- and `print` is `sprintf` with `%.10f`.
pub record Doubles (D : Type 0) : Type 0 where
  pub of_long : ℤ → D
  pub to_long : D → ℤ
  pub add : D → D → D
  pub sub : D → D → D
  pub mul : D → D → D
  pub div : D → D → D
  pub print : D → Bytes

-- Whole numbers meet the interfaces.
instance abbrev pub whole : Floats ℤ
whole = record { zero = pos 0; atof = atol; eqb = eqb_ℤ; ltb = ltb_ℤ }

instance abbrev pub whole_doubles : Doubles ℤ
whole_doubles = record {
  of_long = λ z. z;
  to_long = λ d. to_long d;
  add = ◌+ℤ◌;
  sub = ◌-ℤ◌;
  mul = ◌*ℤ◌;
  div = quot;
  print = λ d. decimal d ++ codes ".0000000000";
}
