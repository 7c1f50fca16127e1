-- ===== src/Bases/Horner.antt =====
-- The loops of src/calc.c from the last digit to the first, and the value of the digits from the first
-- to the last.
use goombaserver.Common.{
  ℕ, ◌+◌, ◌*◌, ◌<◌, ◌≡◌, refl, sym, ap, ◌∙◌, Option, none, some, List, [], ◌∷◌, map, ap₂, All,
  Bytes, ◌==◌, if◌then◌else◌, Bool-cases, Option-cases, inl, inr, arith,
}
use goombaserver.Text.Chars.{hex_digit}
use goombaserver.Bases.{bin_loop, hex_value, oct_value, base_loop}

-- The value of digits in base `base`, the first digit first.
unfoldable pub horner : ℕ → ℕ → List ℕ → ℕ
horner base acc [] = acc
horner base acc (d ∷ ds) = horner base (acc * base + d) ds

-- The digits in a text, with what is none left out.
pub digits_in : (ℕ → Option ℕ) → Bytes → List ℕ
digits_in value [] = []
digits_in value (c ∷ s) = elim (value c) [
  | none ↦ digits_in value s
  | some v ↦ v ∷ digits_in value s
]

loop-horner :
    (value : ℕ → Option ℕ) (base acc : ℕ) (s : Bytes)
    → let (num, mult) = base_loop value base s in
      horner base acc (digits_in value s) ≡ acc * mult + num
unfolding base_loop horner digits_in
loop-horner value base acc [] = omega arith
loop-horner value base acc (c ∷ s) = elim (Option-cases (value c)) [
  | inl e ↦ rw (e, digits_in, base_loop) (loop-horner value base acc s)
  | inr (v, e) ↦
      rw (e, digits_in, base_loop) (loop-horner value base (acc * base + v) s ∙ omega arith)
]

digits_in-map :
    (value : ℕ → Option ℕ) (digit : ℕ → ℕ) (base : ℕ)
    → ((d : ℕ) → d < base → value (digit d) ≡ some d)
    → (ds : List ℕ) → All (λ d. d < base) ds
    → digits_in value (map digit ds) ≡ ds
unfolding digits_in
digits_in-map value digit base h [] _ = refl
digits_in-map value digit base h (d ∷ ds) (lt, all) =
    rw (h d lt, digits_in) (ap (λ l. d ∷ l) (digits_in-map value digit base h ds all))

-- The loop on the text of digits gives their value.
pub base_loop-digits :
    (value : ℕ → Option ℕ) (digit : ℕ → ℕ) (base : ℕ)
    → ((d : ℕ) → d < base → value (digit d) ≡ some d)
    → (ds : List ℕ) → All (λ d. d < base) ds
    → (base_loop value base (map digit ds)).0 ≡ horner base 0 ds
base_loop-digits value digit base h ds all = sym (
    ap (λ l. horner base 0 l) (sym (digits_in-map value digit base h ds all))
    ∙ (loop-horner value base 0 (map digit ds) ∙ omega arith))

pub hex_value_lem : (d : ℕ) → d < 16 → hex_value (hex_digit d) ≡ some d
unfolding hex_value
hex_value_lem d lt = ground arith

pub oct_value_lem : (d : ℕ) → d < 8 → oct_value (48 + d) ≡ some d
unfolding oct_value
oct_value_lem d lt = ground arith

-- Every byte of a text in base 2 is a digit: `1` is one, and any other is zero.
bin_value : ℕ → Option ℕ
bin_value c = some (if c == 49 then 1 else 0)

bin_value_lem : (d : ℕ) → d < 2 → bin_value (48 + d) ≡ some d
unfolding bin_value
bin_value_lem d lt = ground arith

bin_loop_lem : (s : Bytes) → bin_loop s ≡ base_loop bin_value 2 s
unfolding bin_loop base_loop bin_value
bin_loop_lem [] = refl
bin_loop_lem (c ∷ s) = elim (Bool-cases (c == 49)) [
  | inl e ↦ rw (e, bin_loop_lem s) (ap₂ (λ a b. (a, b)) (omega arith) (omega arith))
  | inr e ↦ rw (e, bin_loop_lem s) (ap₂ (λ a b. (a, b)) (omega arith) (omega arith))
]

pub bin_loop-digits :
    (ds : List ℕ) → All (λ d. d < 2) ds → (bin_loop (map (λ d. 48 + d) ds)).0 ≡ horner 2 0 ds
bin_loop-digits ds all =
    ap (λ p. p.0) (bin_loop_lem (map (λ d. 48 + d) ds))
    ∙ base_loop-digits bin_value (λ d. 48 + d) 2 bin_value_lem ds all
