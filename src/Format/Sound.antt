-- ===== src/Format/Sound.antt =====
-- `FormatCheck` of src/echo.c finds directives and nothing else.
use goombaserver.Common.{
  ℕ, ◌≡◌, ◌≢◌, refl, sym, ap, subst, ◌∙◌, true, false, ◌||◌, Option, none, some, [], ◌∷◌, ◌++◌, All,
  Lacks, Bytes, ◌==◌, arith, Bool-cases, inl, inr, ◌⊎◌,
}
use goombaserver.Format.{
  Verdict, no_directive, percent, failed, takes_long, takes_double, takes_string, member,
  flag_bytes, Flags, Action, ends, continues, action, Reading, read_after, read_directive, no_flags,
  Checked, skip_to_percent, check_found, format_check,
}
use goombaserver.Format.Directives.{IsModifier, printf_takes, Converts, IsDirective}

l_no_flag : (c : ℕ) → c ≡ 108 → member c flag_bytes ≡ false
unfolding member
l_no_flag c e = ground arith

minus_no_flag : (c : ℕ) → c ≡ 45 → member c flag_bytes ≡ false
unfolding member
minus_no_flag c e = ground arith

continues-IsModifier : (f f' : Flags) (c : ℕ) → action f c ≡ continues f' → IsModifier c
unfolding action
continues-IsModifier f f' c e = ground arith

continues_long :
    (f f' : Flags) (c : ℕ)
    → action f c ≡ continues f'
    → f'.dolong ≡ false
    → (f.dolong ≡ false) × (108 ≢ c)
unfolding action
continues_long f f' c e h = (ground arith, λ p. ground (arith, l_no_flag c (sym p)))

continues_flag :
    (f f' : Flags) (c : ℕ)
    → action f c ≡ continues f'
    → f'.nonj ≡ false
    → (f.nonj ≡ false) × (member c flag_bytes ≡ false)
unfolding action
continues_flag f f' c e h = elim (Bool-cases (c == 45)) [
  | inl m ↦ ground (arith, minus_no_flag c (ground arith))
  | inr m ↦ ground arith
]

continues_some :
    (f f' : Flags) (c : ℕ)
    → action f c ≡ continues f'
    → (f'.dolong || (f'.fieldpre || f'.pfflg)) ≡ true
unfolding action
continues_some f f' c e = ground arith

-- What a directive's flags rule out, by what it takes.
abbrev Admits : Flags → Verdict → Type 0
Admits f no_directive = ⊥
Admits f failed = Unit
Admits f percent = (f.dolong || (f.fieldpre || f.pfflg)) ≡ false
Admits f takes_long = Unit
Admits f takes_double = f.dolong ≡ false
Admits f takes_string = (f.dolong ≡ false) × (f.nonj ≡ false)

abbrev Ends : Verdict → ℕ → Type 0
Ends no_directive conv = ⊥
Ends failed conv = Unit
Ends percent conv = printf_takes conv ≡ percent
Ends takes_long conv = (printf_takes conv ≡ takes_long) × (conv ≢ 99)
Ends takes_double conv = printf_takes conv ≡ takes_double
Ends takes_string conv = (printf_takes conv ≡ takes_string) ⊎ (conv ≡ 99)

ends_lem : (f : Flags) (c : ℕ) (v : Verdict) → action f c ≡ ends v → Admits f v × Ends v c
unfolding action printf_takes member
ends_lem f c no_directive e = ground arith
ends_lem f c percent e = ground arith
ends_lem f c failed e = (tt, tt)
ends_lem f c takes_long e = ground arith
ends_lem f c takes_double e = ground arith
ends_lem f c takes_string e = ground arith

-- What the reading from the flags `f` on found, unless it failed.
abbrev Reads : Flags → Verdict → Bytes → Type 0
Reads f v passed =
    (mods : Bytes) × (conv : ℕ) × (passed ≡ mods ++ conv ∷ [])
    × All IsModifier mods
    × Converts v mods conv
    × Admits f v

end-Reads :
    (f : Flags) (c : ℕ) (v : Verdict) → v ≢ failed → action f c ≡ ends v → Reads f v (c ∷ [])
unfolding Converts
end-Reads f c no_directive ne e = absurd (ends_lem f c _ e).0
end-Reads f c failed ne e = absurd (ne refl)
end-Reads f c percent ne e = let (a, b) = ends_lem f c _ e in ([], c, refl, tt, (b, refl), a)
end-Reads f c takes_long ne e = let (a, b) = ends_lem f c _ e in ([], c, refl, tt, b, a)
end-Reads f c takes_double ne e = let (a, b) = ends_lem f c _ e in ([], c, refl, tt, (b, tt), a)
end-Reads f c takes_string ne e =
    let (a, b) = ends_lem f c _ e in ([], c, refl, tt, (b, (tt, tt)), a)

continue-Reads :
    (f f' : Flags) (c : ℕ) (v : Verdict) (passed : Bytes)
    → action f c ≡ continues f'
    → Reads f' v passed
    → Reads f v (c ∷ passed)
unfolding Converts
continue-Reads f f' c no_directive passed e (mods, conv, p, all, bad, _) = absurd bad
continue-Reads f f' c failed passed e (mods, conv, p, all, bad, _) = absurd bad
continue-Reads f f' c percent passed e (mods, conv, p, all, _, a) =
    absurd (ground (arith, continues_some f f' c e))
continue-Reads f f' c takes_long passed e (mods, conv, p, all, m, a) =
    (c ∷ mods, conv, ap (λ l. c ∷ l) p, (continues-IsModifier f f' c e, all), m, tt)
continue-Reads f f' c takes_double passed e (mods, conv, p, all, (m, no_l), a) =
    let (d, l) = continues_long f f' c e a in
    (c ∷ mods, conv, ap (λ l. c ∷ l) p, (continues-IsModifier f f' c e, all), (m, (l, no_l)), d)
continue-Reads f f' c takes_string passed e (mods, conv, p, all, (m, (no_l, no_f)), (a, b)) =
    let (d, l) = continues_long f f' c e a in
    let (n, g) = continues_flag f f' c e b in
    (
      c ∷ mods,
      conv,
      ap (λ l. c ∷ l) p,
      (continues-IsModifier f f' c e, all),
      (m, ((l, no_l), (g, no_f))),
      (d, n),
    )

action_cases : (a : Action) → ((v : Verdict) × (a ≡ ends v)) ⊎ ((f : Flags) × (a ≡ continues f))
action_cases (ends v) = inl (v, refl)
action_cases (continues f) = inr (f, refl)

read_ends :
    (f : Flags) (c : ℕ) (t : Bytes) (v : Verdict)
    → action f c ≡ ends v
    → read_directive f (c ∷ t) ≡ record { verdict = v; passed = c ∷ []; rest = some t }
unfolding read_directive
read_ends f c t v e = rw (e, read_directive) refl

read_continues :
    (f f' : Flags) (c : ℕ) (t : Bytes)
    → action f c ≡ continues f'
    → read_directive f (c ∷ t) ≡ read_after c (read_directive f' t)
unfolding read_directive
read_continues f f' c t e = rw (e, read_directive) refl

abbrev ReadsIf : Flags → Reading → Type 0
ReadsIf f r = r.verdict ≢ failed → Reads f r.verdict r.passed

read-Reads : (f : Flags) (t : Bytes) → ReadsIf f (read_directive f t)
read-Reads f [] = λ ne. absurd (ne (unfold read_directive in refl))
read-Reads f (c ∷ t) = elim (action_cases (action f c)) [
  | inl (v, e) ↦ subst (ReadsIf f) (sym (read_ends f c t v e)) (λ ne. end-Reads f c v ne e)
  | inr (f', e) ↦
      subst (ReadsIf f) (sym (read_continues f f' c t e))
        (λ ne. continue-Reads f f' c _ _ e (read-Reads f' t ne))
]

-- The bytes that were read, and what is left.
abbrev Splits : Bytes → Reading → Type 0
Splits t r = r.verdict ≢ failed → (rest : Bytes) × (r.rest ≡ some rest) × (r.passed ++ rest ≡ t)

read-Splits : (f : Flags) (t : Bytes) → Splits t (read_directive f t)
read-Splits f [] = λ ne. absurd (ne (unfold read_directive in refl))
read-Splits f (c ∷ t) = elim (action_cases (action f c)) [
  | inl (v, e) ↦ subst (Splits (c ∷ t)) (sym (read_ends f c t v e)) (λ ne. (t, refl, refl))
  | inr (f', e) ↦
      subst (Splits (c ∷ t)) (sym (read_continues f f' c t e))
        (λ ne. let (rest, p, q) = read-Splits f' t ne in (rest, p, ap (λ l. c ∷ l) q))
]

-- No percent sign stands before the one that was found.
abbrev Skips : Bytes → Bytes → Option Bytes → Type 0
Skips s beg found = Lacks 37 beg × ((t : Bytes) → found ≡ some t → beg ++ 37 ∷ t ≡ s)

skip_lem : (s : Bytes) → let (beg, found) = skip_to_percent s in Skips s beg found
unfolding skip_to_percent
skip_lem [] = (tt, λ t e. ground arith)
skip_lem (c ∷ s) = elim (Bool-cases (c == 37)) [
  | inl e ↦ rw e (tt, λ t p. ground arith)
  | inr e ↦
      let (none_before, split) = skip_lem s in
      rw e ((λ p. ground arith, none_before), λ t p. ap (λ l. c ∷ l) (split t p))
]

abbrev IsChecked : Bytes → Checked → Type 0
IsChecked s r =
    r.type ≢ failed
    → r.type ≢ no_directive
    → IsDirective r.type r.fmt
      × Lacks 37 r.beg
      × ((rest : Bytes) × (r.format ≡ some rest) × (r.beg ++ (r.fmt ++ rest) ≡ s))

found-IsChecked :
    (s beg : Bytes) (found : Option Bytes)
    → Skips s beg found
    → IsChecked s (check_found s beg found)
unfolding check_found
found-IsChecked s beg none _ ok some_directive = absurd (some_directive refl)
found-IsChecked s beg (some t) (no_percent, split) ok _ =
    let (mods, conv, p, all, c, _) = read-Reads no_flags t ok in
    let (rest, e, q) = read-Splits no_flags t ok in
    (
      (mods, conv, ap (λ l. 37 ∷ l) p, all, c),
      no_percent,
      (rest, e, ap (λ l. beg ++ 37 ∷ l) q ∙ split t refl),
    )

-- Where `FormatCheck` reports a directive, no percent sign stands before it, it is one whole
-- directive, for which `printf` takes an argument of the reported type, but that %c, for which it takes
-- a number, is reported as one for a text; and what stands before it, the directive and what `*format` is moved to are together the format string.
pub format_check-IsDirective :
    (s : Bytes)
    → (format_check s).type ≢ failed
    → (format_check s).type ≢ no_directive
    → let r = format_check s in
      IsDirective r.type r.fmt
      × Lacks 37 r.beg
      × ((rest : Bytes) × (r.format ≡ some rest) × (r.beg ++ (r.fmt ++ rest) ≡ s))
unfolding format_check
format_check-IsDirective s =
    let (beg, found) = skip_to_percent s in found-IsChecked s beg found (skip_lem s)
