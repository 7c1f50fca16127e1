-- ===== src/Ident.antt =====
-- src/type.c: what kind of value a text is, and what kind of variable a name of a form's field is.
pub mod Counting
pub mod Index
use goombaserver.Common.{
  ℕ, zero, suc, ◌+◌, Bool, true, false, ◌&&◌, ◌||◌, Option, none, some, List, [], ◌∷◌, Bytes,
  length, ltb, leb, ◌==◌, if◌then◌else◌,
}
use goombaserver.Machine.{Kind, lnumber, dnumber, string}
use goombaserver.Numerals.{is_digit}
use goombaserver.Text.{strchr}

-- The loop of `CheckType` behind the first byte, with the variable `type`.
unfoldable pub check_rest : Kind → Bytes → Kind
check_rest type [] = type
check_rest type (c ∷ s) =
    if is_digit c
    then check_rest type s
    else elim type [ lnumber ↦ (if c == 46 then check_rest dnumber s else string) | _ ↦ string ]

-- A text starts as a number with + - a digit or a dot.
abbrev pub starts_number : ℕ → Bool
starts_number c = (c == 43) || ((c == 45) || (is_digit c || (c == 46)))

unfoldable pub check_type : Bytes → Kind
unfolding check_rest
check_type [] = string
check_type (c ∷ s) =
    if starts_number c then check_rest (if c == 46 then dnumber else lnumber) s else string

-- The answers 0, 1 and 2 of `CheckIdentType`.
pub data IdentType : Type 0 where
  simple non_index index : IdentType

abbrev pub is_blank : ℕ → Bool
is_blank c = (c == 32) || ((c == 9) || (c == 10))

-- What stands behind the bracket: blanks are passed over.
unfoldable pub check_inside : Bytes → IdentType
check_inside [] = index
check_inside (c ∷ s) =
    let rest = check_inside s in if is_blank c then rest else if c == 93 then non_index else index

unfoldable pub check_ident_type : Bytes → IdentType
unfolding check_inside
check_ident_type str = elim (strchr str 91) [
  | none ↦ simple
  | some [] ↦ simple
  | some (c ∷ s) ↦ check_inside s
]

-- `strrchr`: what stands before the last such byte, `none` if there is none.
unfoldable pub before_last : Bytes → ℕ → Option Bytes
before_last [] c = none
before_last (b ∷ s) c = elim (before_last s c) [
  | some front ↦ some (b ∷ front)
  | none ↦ if b == c then some [] else none
]

-- The bytes that `strcpy` writes to `temp`, which holds 256 with the NUL; `none` is a write past its
-- end. Where the last `]` stands before the first `[`, the text from the `[` on is copied whole.
unfoldable pub copy_index : Bytes → Option Bytes
copy_index s = if ltb (length s) 256 then some s else none

unfoldable pub get_ident_index : Bytes → Option Bytes
unfolding copy_index
get_ident_index str = elim (strchr str 91) [
  | none ↦ some []
  | some [] ↦ some []
  | some (c ∷ s) ↦ elim (before_last str 93) [
    | none ↦ some []
    | some _ ↦ elim (before_last s 93) [ none ↦ copy_index s | some inside ↦ copy_index inside ]
  ]
]
