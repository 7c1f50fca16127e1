-- ===== src/Bases/Values.antt =====
-- The three functions of src/calc.c on the text of a number.
use goombaserver.Common.{
  ℕ, ◌+◌, ◌^◌, ◌<◌, ◌≡◌, refl, sym, ap, subst, ◌∙◌, List, ◌∷◌, map, All, arith,
}
use goombaserver.Common.Int.{pos}
use goombaserver.Floats.{Floats}
use goombaserver.Numerals.{decimal, atol}
use goombaserver.Numerals.RoundTrip.{atol-decimal}
use goombaserver.Text.Chars.{hex_digit}
use goombaserver.Machine.{lnumber, Item, Machine, pop}
use goombaserver.Expr.{push_number}
use goombaserver.Bases.{bin_loop, hex_value, oct_value, base_loop, as_long, bindec, hexdec, octdec}
use goombaserver.Bases.Horner.{
  horner, base_loop-digits, bin_loop-digits, hex_value_lem, oct_value_lem,
}

as_long_pos : (n : ℕ) → n < 2 ^ 63 → as_long n ≡ pos n
unfolding as_long
as_long_pos n lt = ground arith

pub data Base : Type 0 where
  binary octal hexadecimal : Base

abbrev pub radix : Base → ℕ
radix binary = 2
radix octal = 8
radix hexadecimal = 16

-- A digit as it is written.
abbrev pub digit : Base → ℕ → ℕ
digit binary d = 48 + d
digit octal d = 48 + d
digit hexadecimal d = hex_digit d

module _ {D : Type 0} ⦃F : Floats D⦄ where
  -- The top of the expression stack is the number `n`, and below it the stack is `rest`.
  abbrev pub Holds : Machine D → ℕ → List (Item D) → Type 0
  Holds m n rest =
      (top : Item D) × (m.expr ≡ top ∷ rest) × (top.kind ≡ lnumber) × (top.intval ≡ pos n)

  pushed-Holds :
      (m : Machine D) (n k : ℕ) (rest : List (Item D))
      → n ≡ k
      → k < 2 ^ 63
      → Holds (push_number lnumber (decimal (as_long n)) (record m { expr = rest })) k rest
  unfolding push_number
  pushed-Holds m n k rest e lt = (
    _,
    refl,
    refl,
    ap (λ j. atol (decimal (as_long j))) e
        ∙ (ap (λ z. atol (decimal z)) (as_long_pos k lt) ∙ atol-decimal (pos k) lt),
  )

  -- Which of the three functions.
  abbrev pub convert : Base → Machine D → Machine D
  convert binary = bindec
  convert octal = octdec
  convert hexadecimal = hexdec

  converted :
      (b : Base) (m : Machine D) (s : Item D) (rest : List (Item D)) (ds : List ℕ)
      → m.expr ≡ s ∷ rest
      → s.strval ≡ map (digit b) ds
      → All (λ d. d < radix b) ds
      → (n : ℕ) × (n ≡ horner (radix b) 0 ds)
        × (convert b m ≡ push_number lnumber (decimal (as_long n)) (record m { expr = rest }))
  unfolding bindec octdec hexdec pop
  converted binary m s rest ds e t all =
      (_, ap (λ l. (bin_loop l).0) t ∙ bin_loop-digits ds all, rw e refl)
  converted octal m s rest ds e t all = (
    _,
    ap (λ l. (base_loop oct_value 8 l).0) t
        ∙ base_loop-digits oct_value (λ d. 48 + d) 8 oct_value_lem ds all,
    rw e refl,
  )
  converted hexadecimal m s rest ds e t all = (
    _,
    ap (λ l. (base_loop hex_value 16 l).0) t
        ∙ base_loop-digits hex_value (λ d. hex_digit d) 16 hex_value_lem ds all,
    rw e refl,
  )

  -- `BinDec`, `OctDec` and `HexDec` replace the text of a number, its digits in base 2, 8 or 16, by the
  -- number itself, if `long` holds it.
  pub convert-horner :
      (b : Base) (m : Machine D) (s : Item D) (rest : List (Item D)) (ds : List ℕ)
      → m.expr ≡ s ∷ rest
      → s.strval ≡ map (digit b) ds
      → All (λ d. d < radix b) ds
      → horner (radix b) 0 ds < 2 ^ 63
      → Holds (convert b m) (horner (radix b) 0 ds) rest
  convert-horner b m s rest ds e t all lt =
      let (n, value, pushed) = converted b m s rest ds e t all in
      subst (λ x. Holds x (horner (radix b) 0 ds) rest) (sym pushed)
        (pushed-Holds m n (horner (radix b) 0 ds) rest value lt)
