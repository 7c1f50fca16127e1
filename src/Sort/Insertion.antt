-- ===== src/Sort/Insertion.antt =====
-- An insertion sort meets what src/sort.c relies on in `qsort`.
use mathlib.Core.List.{Perm}
use mathlib.Core.List.Perm
use goombaserver.Common.{
  suc, ◌≡◌, refl, ap, ◌∙◌, subst, false, Bool-cases, List, [], ◌∷◌, Bytes, length, if◌then◌else◌,
  inl, inr, arith,
}
use goombaserver.Common.Int.{ℤ, pos}
use goombaserver.Expr.{leb_ℤ}
use goombaserver.Sort.Contract.{Leq, IsComparison, IsSorted, MeetsContract}

pub insert_sorted : (Bytes → Bytes → ℤ) → Bytes → List Bytes → List Bytes
insert_sorted comp x [] = x ∷ []
insert_sorted comp x (y ∷ ys) =
    let rest = insert_sorted comp x ys in if leb_ℤ (comp x y) (pos 0) then x ∷ y ∷ ys else y ∷ rest

pub insertion_sort : (Bytes → Bytes → ℤ) → List Bytes → List Bytes
insertion_sort comp [] = []
insertion_sort comp (x ∷ xs) = insert_sorted comp x (insertion_sort comp xs)

insert-Perm :
    (comp : Bytes → Bytes → ℤ) (x : Bytes) (ys : List Bytes)
    → Perm (x ∷ ys) (insert_sorted comp x ys)
unfolding insert_sorted
insert-Perm comp x [] = Perm.refl (x ∷ [])
insert-Perm comp x (y ∷ ys) = elim (Bool-cases (leb_ℤ (comp x y) (pos 0))) [
  | inl e ↦ rw e (Perm.refl (x ∷ y ∷ ys))
  | inr e ↦ rw e (Perm.trans (Perm.swap y x ys) (Perm.cons y (insert-Perm comp x ys)))
]

length-insert :
    (comp : Bytes → Bytes → ℤ) (x : Bytes) (ys : List Bytes)
    → length (insert_sorted comp x ys) ≡ suc (length ys)
unfolding insert_sorted
length-insert comp x [] = refl
length-insert comp x (y ∷ ys) = elim (Bool-cases (leb_ℤ (comp x y) (pos 0))) [
  | inl e ↦ rw e refl
  | inr e ↦ rw e (ap suc (length-insert comp x ys))
]

insert_right :
    (comp : Bytes → Bytes → ℤ) (x y : Bytes) (ys : List Bytes)
    → leb_ℤ (comp x y) (pos 0) ≡ false
    → insert_sorted comp x (y ∷ ys) ≡ y ∷ insert_sorted comp x ys
unfolding insert_sorted
insert_right comp x y ys e = rw e refl

other_way :
    (comp : Bytes → Bytes → ℤ) (x y : Bytes)
    → IsComparison comp
    → leb_ℤ (comp x y) (pos 0) ≡ false
    → Leq comp y x
other_way comp x y c e = ground (arith, c.0 x y, e)

insert-IsSorted :
    (comp : Bytes → Bytes → ℤ) (x : Bytes) (ys : List Bytes)
    → IsComparison comp
    → IsSorted comp ys
    → IsSorted comp (insert_sorted comp x ys)
unfolding insert_sorted
insert-IsSorted comp x [] c s = tt
insert-IsSorted comp x (y ∷ []) c s = elim (Bool-cases (leb_ℤ (comp x y) (pos 0))) [
  | inl e ↦ rw e (e, tt)
  | inr e ↦ rw e (other_way comp x y c e, tt)
]
insert-IsSorted comp x (y ∷ z ∷ ys) c (l, s) = elim (Bool-cases (leb_ℤ (comp x y) (pos 0))) [
  | inl e ↦ rw e (e, (l, s))
  | inr e ↦
      let ih = insert-IsSorted comp x (z ∷ ys) c s in
      elim (Bool-cases (leb_ℤ (comp x z) (pos 0))) [
        | inl e' ↦ rw (e, e') (other_way comp x y c e, (e', s))
        | inr e' ↦ rw (e, e') (l, subst (IsSorted comp) (insert_right comp x z ys e') ih)
      ]
]

insertion_sort-IsSorted :
    (comp : Bytes → Bytes → ℤ) (xs : List Bytes)
    → IsComparison comp
    → IsSorted comp (insertion_sort comp xs)
unfolding insertion_sort
insertion_sort-IsSorted comp [] c = tt
insertion_sort-IsSorted comp (x ∷ xs) c =
    insert-IsSorted comp x (insertion_sort comp xs) c (insertion_sort-IsSorted comp xs c)

insertion_sort_perm :
    (comp : Bytes → Bytes → ℤ) (xs : List Bytes) → Perm xs (insertion_sort comp xs)
unfolding insertion_sort
insertion_sort_perm comp [] = Perm.nil
insertion_sort_perm comp (x ∷ xs) =
    Perm.trans (Perm.cons x (insertion_sort_perm comp xs))
      (insert-Perm comp x (insertion_sort comp xs))

insertion_length :
    (comp : Bytes → Bytes → ℤ) (xs : List Bytes) → length (insertion_sort comp xs) ≡ length xs
unfolding insertion_sort
insertion_length comp [] = refl
insertion_length comp (x ∷ xs) =
    length-insert comp x (insertion_sort comp xs) ∙ ap suc (insertion_length comp xs)

pub insertion_sort-MeetsContract : MeetsContract insertion_sort
insertion_sort-MeetsContract comp xs =
    (insertion_sort_perm comp xs, insertion_length comp xs, λ c. insertion_sort-IsSorted comp xs c)
