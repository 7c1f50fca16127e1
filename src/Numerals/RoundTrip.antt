-- ===== src/Numerals/RoundTrip.antt =====
-- A number that was written as a text is read back.
use goombaserver.Common.{
  ℕ, zero, suc, ◌+◌, ◌*◌, ◌/◌, ◌%◌, ◌^◌, ◌≤◌, ◌<◌, ◌≡◌, refl, ap, ◌∙◌, [], ◌∷◌, Bytes, ltb,
  Bool-cases, inl, inr, arith,
}
use goombaserver.Common.Int.{ℤ, pos, negsuc}
use goombaserver.Numerals.{
  digits_from, digits, decimal, scan_digits, clamp_pos, clamp_neg, signed, atol,
}

scan_digit :
    (n d : ℕ) (s : Bytes) → d < 10 → scan_digits n ((48 + d) ∷ s) ≡ scan_digits (n * 10 + d) s
unfolding scan_digits
scan_digit n d s lt = ground arith

-- The digits of `n` in front of `out` shift what was read by a power of ten, and add `n`.
scan_digits_from :
    (fuel n : ℕ) (out : Bytes)
    → n ≤ fuel
    → scan_digits 0 (digits_from fuel n out) ≡ scan_digits n out
unfolding digits_from
scan_digits_from zero n out le =
    scan_digit 0 (n % 10) out (omega arith) ∙ ap (λ k. scan_digits k out) (omega arith)
scan_digits_from (suc fuel) n out le = elim (Bool-cases (ltb n 10)) [
  | inl e ↦
      rw e (scan_digit 0 (n % 10) out (omega arith) ∙ ap (λ k. scan_digits k out) (ground arith))
  | inr e ↦ rw e (
      scan_digits_from fuel (n / 10) ((48 + n % 10) ∷ out) (ground arith)
      ∙ (scan_digit (n / 10) (n % 10) out (omega arith)
          ∙ ap (λ k. scan_digits k out) (omega arith)))
]

scan-digits : (n : ℕ) → scan_digits 0 (digits n) ≡ n
unfolding digits
scan-digits n = scan_digits_from n n [] (omega arith) ∙ (unfold scan_digits in refl)

-- The digits of a number are not empty, and start with a digit.
abbrev StartsWithDigit : Bytes → Type 0
StartsWithDigit t = (c : ℕ) × (s : Bytes) × (t ≡ c ∷ s) × (48 ≤ c) × (c ≤ 57)

digits_from-StartsWithDigit : (fuel n : ℕ) (out : Bytes) → StartsWithDigit (digits_from fuel n out)
unfolding digits_from
digits_from-StartsWithDigit zero n out = (_, _, refl, omega arith, omega arith)
digits_from-StartsWithDigit (suc fuel) n out = elim (Bool-cases (ltb n 10)) [
  | inl e ↦ rw e (_, _, refl, omega arith, omega arith)
  | inr e ↦ rw e (digits_from-StartsWithDigit fuel (n / 10) _)
]

signed_digit :
    (c : ℕ) (s : Bytes) → 48 ≤ c → c ≤ 57 → atol (c ∷ s) ≡ clamp_pos (scan_digits 0 (c ∷ s))
unfolding atol signed
signed_digit c s lo hi = ground arith

atol_digits : (t : Bytes) → StartsWithDigit t → atol t ≡ clamp_pos (scan_digits 0 t)
atol_digits t (c, s, e, lo, hi) = rw e (signed_digit c s lo hi)

-- A value that C's `long` holds.
abbrev pub IsLong : ℤ → Type 0
IsLong (pos n) = n < 2 ^ 63
IsLong (negsuc n) = n < 2 ^ 63

-- For every value that `long` holds, `atol` gives back the number that `%ld` wrote.
pub atol-decimal : (z : ℤ) → IsLong z → atol (decimal z) ≡ z
unfolding decimal digits clamp_pos
atol-decimal (pos n) lt =
    atol_digits (digits n) (digits_from-StartsWithDigit n n [])
    ∙ ap clamp_pos (scan-digits n)
    ∙ ground arith
atol-decimal (negsuc n) lt =
    unfold atol signed in ap clamp_neg (scan-digits (suc n)) ∙ (unfold clamp_neg in ground arith)
