-- ===== src/Format.antt =====
-- `FormatCheck` and `StripSlashes` of src/echo.c: the format strings of echo and sprintf.
pub mod Directives
pub mod Sound
pub mod Unterminated
use goombaserver.Common.{
  ℕ, zero, suc, Bool, true, false, not, ◌&&◌, ◌||◌, Option, none, some, List, [], ◌∷◌, ◌++◌, Bytes,
  ◌==◌, leb, if◌then◌else◌,
}
use goombaserver.Common.Int.{ℤ, pos, negsuc}

-- The values of `done` and of the result: 0, 1, -1, LNUMBER, DNUMBER and STRING.
pub data Verdict : Type 0 where
  no_directive percent failed takes_long takes_double takes_string : Verdict

pub record Flags : Type 0 where
  pub dolong : Bool
  pub fieldpre : Bool
  pub pfflg : Bool
  pub nonj : Bool

-- What a byte does: it ends the directive, or it sets flags.
pub data Action : Type 0 where
  ends : Verdict → Action
  continues : Flags → Action

unfoldable pub member : ℕ → Bytes → Bool
member c [] = false
member c (d ∷ rest) = (c == d) || member c rest

-- The bytes of d i o u x X, of f e E g G, of the flags + # ' and the blank, and of 1 to 9 and the dot.
abbrev pub long_conversions : Bytes
long_conversions = 100 ∷ 105 ∷ 111 ∷ 117 ∷ 120 ∷ 88 ∷ []

abbrev pub double_conversions : Bytes
double_conversions = 102 ∷ 101 ∷ 69 ∷ 103 ∷ 71 ∷ []

abbrev pub string_conversions : Bytes
string_conversions = 99 ∷ 115 ∷ []

abbrev pub flag_bytes : Bytes
flag_bytes = 43 ∷ 32 ∷ 35 ∷ 39 ∷ []

abbrev pub field_bytes : Bytes
field_bytes = 49 ∷ 50 ∷ 51 ∷ 52 ∷ 53 ∷ 54 ∷ 55 ∷ 56 ∷ 57 ∷ 46 ∷ []

-- The switch on a byte that is not the terminating NUL, case after case.
unfoldable pub action : Flags → ℕ → Action
action f c =
    if member c long_conversions
    then ends takes_long
    else if member c double_conversions
    then ends (if f.dolong then failed else takes_double)
    else if member c string_conversions
    then ends (if f.nonj || f.dolong then failed else takes_string)
    else if c == 109 || c == 112
    then ends failed
    else if c == 37
    then ends (if f.dolong || (f.fieldpre || f.pfflg) then failed else percent)
    else if c == 45
    then continues (record f { pfflg = true })
    else if member c flag_bytes
    then continues (record f { pfflg = true; nonj = true })
    else if c == 48
    then continues (if not f.fieldpre then record f { pfflg = true; nonj = true } else f)
    else if c == 108
    then (if f.dolong then ends failed else continues (record f { dolong = true }))
    else if member c field_bytes
    then continues (record f { fieldpre = true })
    else ends failed

-- What the loop reads: the verdict, the bytes it passed, and where `t` is left; `none` is one past
-- the terminating NUL.
pub record Reading : Type 0 where
  pub verdict : Verdict
  pub passed : Bytes
  pub rest : Option Bytes

abbrev pub read_after : ℕ → Reading → Reading
read_after c r = record r { passed = c ∷ r.passed }

-- The loop behind the percent sign. At the NUL, `t` is moved over it all the same.
unfoldable pub read_directive : Flags → Bytes → Reading
read_directive f [] = record { verdict = failed; passed = []; rest = none }
read_directive f (c ∷ t) = elim (action f c) [
  | ends v ↦ record { verdict = v; passed = c ∷ []; rest = some t }
  | continues f' ↦ read_after c (read_directive f' t)
]

abbrev pub no_flags : Flags
no_flags = record { dolong = false; fieldpre = false; pfflg = false; nonj = false }

-- The result, with the bytes before the directive, the directive, and the new `*format`.
pub record Checked : Type 0 where
  pub type : Verdict
  pub beg : Bytes
  pub fmt : Bytes
  pub format : Option Bytes

-- `*format` is not moved if there is no directive.
unfoldable pub skip_to_percent : Bytes → Bytes × Option Bytes
skip_to_percent [] = ([], none)
skip_to_percent (c ∷ t) =
    let (beg, found) = skip_to_percent t in if c == 37 then ([], some t) else (c ∷ beg, found)

-- The rest of `FormatCheck`, with the bytes that were skipped and what stands behind the percent sign.
unfoldable pub check_found : Bytes → Bytes → Option Bytes → Checked
check_found s skipped none = record {
  type = no_directive;
  beg = skipped;
  fmt = [];
  format = some s;
}
check_found s skipped (some t) =
    let r = read_directive no_flags t in
    record { type = r.verdict; beg = skipped; fmt = 37 ∷ r.passed; format = r.rest }

unfoldable pub format_check : Bytes → Checked
unfolding check_found
format_check s = let (skipped, found) = skip_to_percent s in check_found s skipped found

-- `StripSlashes`: the count `l` reaches 0 with the text, or -1 behind a backslash that ends it; then
-- the NUL is what the backslash is replaced by.
unfoldable pub strip_slashes : Bytes → Bytes
strip_slashes [] = []
strip_slashes (c ∷ []) = if c == 92 then [] else c ∷ []
strip_slashes (c ∷ d ∷ rest) = elim (c == 92) [
  | true ↦ d ∷ strip_slashes rest
  | false ↦ c ∷ strip_slashes (d ∷ rest)
]
