-- ===== src/Text/Slices.antt =====
-- What the loops on texts in src/string.c do.
use goombaserver.Common.{
  ℕ, zero, suc, ◌+◌, ◌-◌, ◌^◌, ◌≤◌, ◌<◌, ◌≡◌, refl, sym, ap, ◌∙◌, false, [], ◌∷◌, Bytes, length,
  take, drop, ltb, ◌==◌, Bool-cases, inl, inr, arith,
}
use goombaserver.Common.Int.{pos, ◌+ℤ◌, to_int}
use goombaserver.Format.{strip_slashes}
use goombaserver.Text.Pieces.{is_meta, quote_meta, sub_str}

plain_no_backslash : (c : ℕ) → is_meta c ≡ false → (c == 92) ≡ false
unfolding is_meta
plain_no_backslash c h = ground arith

strip_plain : (c : ℕ) (s : Bytes) → (c == 92) ≡ false → strip_slashes (c ∷ s) ≡ c ∷ strip_slashes s
unfolding strip_slashes
strip_plain c [] e = rw e refl
strip_plain c (d ∷ s) e = rw (e, strip_slashes) refl

-- `StripSlashes` takes away the backslashes that `QuoteMeta` writes, and nothing else.
pub strip_slashes-quote_meta : (s : Bytes) → strip_slashes (quote_meta s) ≡ s
unfolding quote_meta strip_slashes
strip_slashes-quote_meta [] = refl
strip_slashes-quote_meta (c ∷ s) = elim (Bool-cases (is_meta c)) [
  | inl e ↦ rw (e, quote_meta) (ap (λ l. c ∷ l) (strip_slashes-quote_meta s))
  | inr e ↦
      rw (e, quote_meta)
        (strip_plain c (quote_meta s) (plain_no_backslash c e)
          ∙ ap (λ l. c ∷ l) (strip_slashes-quote_meta s))
]

int_small : (k : ℕ) → k < 2 ^ 31 → to_int (pos k) ≡ pos k
unfolding to_int
int_small k lt = ground arith

take_all : (n : ℕ) (s : Bytes) → length s ≤ n → take n s ≡ s
take_all zero [] le = refl
take_all zero (c ∷ s) le = absurd (omega arith)
take_all (suc n) [] le = refl
take_all (suc n) (c ∷ s) le = ap (λ l. c ∷ l) (take_all n s (omega arith))

drop_all : (n : ℕ) (s : Bytes) → length s ≤ n → drop n s ≡ []
drop_all zero [] le = refl
drop_all zero (c ∷ s) le = absurd (omega arith)
drop_all (suc n) [] le = refl
drop_all (suc n) (c ∷ s) le = drop_all n s (omega arith)

length-drop : (n : ℕ) (s : Bytes) → length (drop n s) ≡ length s - n
length-drop zero s = omega arith
length-drop (suc n) [] = omega arith
length-drop (suc n) (c ∷ s) = omega (arith, length-drop n s)

take_nil : (n : ℕ) → take {A = ℕ} n [] ≡ []
take_nil zero = refl
take_nil (suc n) = refl

end_of : (m n : ℕ) → m + n < 2 ^ 31 → to_int (pos m +ℤ pos n) ≡ pos (m + n)
end_of m n lt =
    let e : pos m +ℤ pos n ≡ pos (m + n) = ground arith in ap to_int e ∙ int_small (m + n) lt

-- For two numbers that are not negative and whose sum `int` holds, `SubStr` gives the `n` bytes from
-- the byte `m` on, or as many of them as there are.
pub sub_str-take :
    (m n : ℕ) (s : Bytes) → m + n < 2 ^ 31 → sub_str (pos m) (pos n) s ≡ take n (drop m s)
unfolding sub_str
sub_str-take m n s lt = rw (end_of m n lt) (elim (Bool-cases (ltb (length s) m)) [
  | inl e ↦ rw e (sym (ap (take n) (drop_all m s (ground arith)) ∙ take_nil n))
  | inr e ↦ rw e (elim (Bool-cases (ltb (length s) (m + n))) [
    | inl f ↦ rw f (sym (take_all n (drop m s) (ground (arith, length-drop m s))))
    | inr f ↦
        let g : ltb (m + n) m ≡ false = ground arith in
        let k : m + n - m ≡ n = omega arith in rw (f, g, k) refl
  ])
])
