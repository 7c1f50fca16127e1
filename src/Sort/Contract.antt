-- ===== src/Sort/Contract.antt =====
-- What the C library says of `qsort`: it permutes the elements of its array, and orders them where the comparison is
-- one of a total preorder.
use goombaserver.Common.{◌≡◌, refl, true, List, [], ◌∷◌, Bytes, length, arith, ◌⊎◌, inl, inr}
use goombaserver.Common.Int.{ℤ, pos}
use goombaserver.Expr.{strcmp, leb_ℤ}
use goombaserver.Sort.{comp_string}
use mathlib.Core.List.{Perm}

-- The first does not come behind the second.
abbrev pub Leq : (Bytes → Bytes → ℤ) → Bytes → Bytes → Type 0
Leq comp a b = leb_ℤ (comp a b) (pos 0) ≡ true

abbrev pub IsComparison : (Bytes → Bytes → ℤ) → Type 0
IsComparison comp =
    ((a b : Bytes) → Leq comp a b ⊎ Leq comp b a)
    × ((a b c : Bytes) → Leq comp a b → Leq comp b c → Leq comp a c)

abbrev pub IsSorted : (Bytes → Bytes → ℤ) → List Bytes → Type 0
IsSorted comp [] = Unit
IsSorted comp (a ∷ []) = Unit
IsSorted comp (a ∷ b ∷ ts) = Leq comp a b × IsSorted comp (b ∷ ts)

abbrev pub MeetsContract : ((Bytes → Bytes → ℤ) → List Bytes → List Bytes) → Type 0
MeetsContract qsort =
    (comp : Bytes → Bytes → ℤ) (ts : List Bytes)
    → Perm ts (qsort comp ts)
      × (length (qsort comp ts) ≡ length ts)
      × (IsComparison comp → IsSorted comp (qsort comp ts))

strcmp_total : (a b : Bytes) → Leq strcmp a b ⊎ Leq strcmp b a
unfolding strcmp
strcmp_total [] [] = inl refl
strcmp_total [] (d ∷ t) = inl refl
strcmp_total (c ∷ s) [] = inr refl
strcmp_total (c ∷ s) (d ∷ t) = ground (arith, strcmp_total s t)

strcmp_trans : (a b c : Bytes) → Leq strcmp a b → Leq strcmp b c → Leq strcmp a c
unfolding strcmp
strcmp_trans [] [] c e e' = e'
strcmp_trans [] (y ∷ t) [] e e' = refl
strcmp_trans [] (y ∷ t) (z ∷ u) e e' = refl
strcmp_trans (x ∷ s) [] c e e' = absurd (ground (arith, e))
strcmp_trans (x ∷ s) (y ∷ t) [] e e' = absurd (ground (arith, e'))
strcmp_trans (x ∷ s) (y ∷ t) (z ∷ u) e e' = grind (arith, strcmp_trans s t u)

pub comp_string-IsComparison : IsComparison comp_string
unfolding comp_string
comp_string-IsComparison = (strcmp_total, strcmp_trans)
