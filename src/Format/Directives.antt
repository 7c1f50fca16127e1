-- ===== src/Format/Directives.antt =====
-- What a format string's directive is, with no flags that are carried along.
use goombaserver.Common.{
  ℕ, ◌≡◌, ◌≢◌, ◌⊎◌, codes, if◌then◌else◌, Bool, true, false, ◌||◌, [], ◌∷◌, ◌++◌, All, Lacks, Bytes,
  ◌==◌,
}
use goombaserver.Format.{
  Verdict, no_directive, percent, failed, takes_long, takes_double, takes_string, member,
  flag_bytes, field_bytes,
}

-- Between the percent sign and the conversion stand - 0 l, the flags and the field bytes.
abbrev pub is_modifier : ℕ → Bool
is_modifier c =
    (c == 45) || ((c == 48) || ((c == 108) || (member c flag_bytes || member c field_bytes)))

abbrev pub IsModifier : ℕ → Type 0
IsModifier c = is_modifier c ≡ true

-- What the C library's `printf` takes for a conversion: a whole number for d i o u x X and c, a real
-- number for f e E g G, a text for s, nothing for the percent sign; others are left out.
unfoldable pub printf_takes : ℕ → Verdict
printf_takes c =
    if member c (codes "diouxXc")
    then takes_long
    else if member c (codes "feEgG")
    then takes_double
    else if c == 115
    then takes_string
    else if c == 37
    then percent
    else failed

-- The conversion `conv` behind the modifiers `mods` takes an argument of the verdict's type, or is c,
-- for which a text is reported: a double or a text no `l`, a text no flag, and the percent sign nothing
-- at all.
unfoldable pub Converts : Verdict → Bytes → ℕ → Type 0
Converts no_directive mods conv = ⊥
Converts failed mods conv = ⊥
Converts percent mods conv = (printf_takes conv ≡ percent) × (mods ≡ [])
Converts takes_long mods conv = (printf_takes conv ≡ takes_long) × (conv ≢ 99)
Converts takes_double mods conv = (printf_takes conv ≡ takes_double) × Lacks 108 mods
Converts takes_string mods conv =
    ((printf_takes conv ≡ takes_string) ⊎ (conv ≡ 99))
    × (Lacks 108 mods × All (λ c. member c flag_bytes ≡ false) mods)

-- One whole directive, and nothing else.
abbrev pub IsDirective : Verdict → Bytes → Type 0
IsDirective v d =
    (mods : Bytes) × (conv : ℕ) × (d ≡ 37 ∷ (mods ++ conv ∷ []))
    × All IsModifier mods
    × Converts v mods conv
