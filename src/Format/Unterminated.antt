-- ===== src/Format/Unterminated.antt =====
-- A directive that the end of the format string cuts off, in `FormatCheck` of src/echo.c.
use goombaserver.Common.{
  ℕ, ◌≡◌, refl, Bool, true, false, ◌||◌, none, some, [], ◌∷◌, ◌++◌, All, Lacks, Bytes, ◌==◌, arith,
  Bool-cases, inl, inr,
}
use goombaserver.Format.{
  failed, Flags, continues, action, read_directive, no_flags, member, flag_bytes, field_bytes,
  skip_to_percent, format_check, check_found, long_conversions, double_conversions,
  string_conversions,
}

-- The modifiers but `l`.
abbrev pub is_plain : ℕ → Bool
is_plain c = (c == 45) || ((c == 48) || (member c flag_bytes || member c field_bytes))

plain_no_long : (c : ℕ) → is_plain c ≡ true → member c long_conversions ≡ false
unfolding member
plain_no_long c h = ground arith

plain_no_double : (c : ℕ) → is_plain c ≡ true → member c double_conversions ≡ false
unfolding member
plain_no_double c h = ground arith

plain_no_string : (c : ℕ) → is_plain c ≡ true → member c string_conversions ≡ false
unfolding member
plain_no_string c h = ground arith

plain_no_end :
    (c : ℕ)
    → is_plain c ≡ true
    → ((c == 109) || (c == 112) ≡ false) × ((c == 37) ≡ false) × ((c == 108) ≡ false)
unfolding member
plain_no_end c h = ground arith

plain_continues :
    (f : Flags) (c : ℕ) → is_plain c ≡ true → (f' : Flags) × (action f c ≡ continues f')
unfolding action
plain_continues f c h =
    let (no_end, no_percent, no_l) = plain_no_end c h in
    rw (plain_no_long c h, plain_no_double c h, plain_no_string c h, no_end, no_percent, no_l)
      (elim (Bool-cases (c == 45)) [
        | inl e ↦ rw e (_, refl)
        | inr e ↦ rw e (elim (Bool-cases (member c flag_bytes)) [
          | inl g ↦ rw g (_, refl)
          | inr g ↦ rw g (elim (Bool-cases (c == 48)) [
            | inl z ↦ rw z (_, refl)
            | inr z ↦ let f : member c field_bytes ≡ true = ground arith in rw (z, f) (_, refl)
          ])
        ])
      ])

read_plain :
    (f : Flags) (mods : Bytes)
    → All (λ c. is_plain c ≡ true) mods
    → ((read_directive f mods).verdict ≡ failed) × ((read_directive f mods).rest ≡ none)
unfolding read_directive
read_plain f [] _ = (refl, refl)
read_plain f (c ∷ mods) (h, all) =
    let (f', e) = plain_continues f c h in rw (e, read_directive) (read_plain f' mods all)

skip_plain : (beg t : Bytes) → Lacks 37 beg → skip_to_percent (beg ++ 37 ∷ t) ≡ (beg, some t)
unfolding skip_to_percent
skip_plain [] t _ = refl
skip_plain (c ∷ beg) t (ne, all) = grind (arith, skip_plain beg t all)

-- A percent sign with nothing but plain modifiers behind it up to the end of the format string is
-- reported, but leaves `*format` behind the terminating NUL, where the caller reads on.
pub unterminated_runs_past :
    (beg mods : Bytes)
    → Lacks 37 beg
    → All (λ c. is_plain c ≡ true) mods
    → let r = format_check (beg ++ 37 ∷ mods) in
      (r.type ≡ failed) × (r.beg ≡ beg) × (r.format ≡ none)
unfolding format_check check_found
unterminated_runs_past beg mods no_percent plain =
    let (v, r) = read_plain no_flags mods plain in rw (skip_plain beg mods no_percent) (v, refl, r)
