-- ===== src/ArrayExamples.antt =====
-- The theorems on values and arrays of src/var.c at concrete variables.
use goombaserver.Common.{
  ◌↔◌, ◌≤◌, length, ℕ, ◌+◌, ◌≡◌, refl, true, false, Option, none, some, List, [], ◌∷◌, ◌++◌, Bytes,
  codes, bytes_eq, All, arith, if◌then◌else◌, ◌==◌,
}
use goombaserver.Common.Int.{ℤ, pos, ltb_ℤ}
use goombaserver.Floats.{whole, whole_doubles}
use goombaserver.Numerals.{decimal, digits, atol, clamp_pos, scan_digits}
use goombaserver.Machine.{Link, VarTree, Item}
use goombaserver.Scenario.{no_var, number, text}
use goombaserver.Vars.Values.{
  set_double, temp_size, absolute, increment, decrement, set_value, set_element,
}
use goombaserver.Vars.Values.Fits.{FitsAfter, set_value-FitsAfter}
use goombaserver.Vars.Values.Agrees.{AgreesAfter, set_value-AgreesAfter}
use goombaserver.Arrays.{
  returned, running, Heap, append, set_index, set_simple, get_index, deletearray,
}
use goombaserver.Arrays.Chain.{Chain, IsArray}
use goombaserver.Arrays.Lists.{cells, entry}
use goombaserver.Arrays.Find.{value_at}
use goombaserver.Arrays.Append.{append-IsArray}
use goombaserver.Arrays.Assign.{get_index-set_index}
use goombaserver.Arrays.Whole.{range}
use goombaserver.Arrays.Duplicate.{set_simple_copies}
use goombaserver.Arrays.Unset.{set_index-deletearray}
use goombaserver.Arrays.Endless.{append_endless}
use goombaserver.Arrays.Cursor.{push_empty, push_value, array_max, array_min, reset, key, next}
use goombaserver.Arrays.Cursor.Extreme.{OneOf, array_max-Last}
use goombaserver.Arrays.Cursor.Traverse.{visit, pairs, index_of, visit-reset}

-- Regular expressions that take nothing away.
abbrev keep_text : Bytes → Bytes → Option Bytes
keep_text p s = some s

abbrev seven : VarTree ℤ
seven = record no_var {
  name = codes "a";
  iname = some (codes "0");
  strval = some (codes "7");
  intval = pos 7;
  douval = pos 7;
  allocated = 2;
  count = 2;
  next = some 11;
  prev = Link.start;
  lacc = Link.start;
  lastnode = some 11;
}

abbrev twelve : VarTree ℤ
twelve = record no_var {
  name = codes "a";
  iname = some (codes "x");
  strval = some (codes "12");
  intval = pos 12;
  douval = pos 12;
  allocated = 3;
  prev = Link.node 10;
}

-- A variable with one element, and one with two.
abbrev memory : ℕ → VarTree ℤ
memory n =
    if n == 9
    then record seven { count = 1; next = none; lastnode = some 9 }
    else if n == 10
    then seven
    else if n == 11
    then twelve
    else no_var

abbrev heap : Heap ℤ
heap = record { vars = memory; fresh = 20 }

-- The value of `$a`, as it is pushed for a whole array.
abbrev whole_a : Item ℤ
whole_a = record (number (pos 7)) { strval = codes "7"; var = some 10; flag = true }

heap-IsArray : IsArray heap 10 (11 ∷ [])
heap-IsArray = (
  (refl, (refl, refl)),
  (((λ e. ground (arith, e)), tt), (tt, tt)),
  (omega arith, (omega arith, tt)),
  refl,
  refl,
)

set_value-FitsAfter_example :
    FitsAfter (set_value keep_text increment (text (codes "89")) seven)
    × FitsAfter (set_element keep_text increment (text (codes "89")) seven)
    × ((set_double keep_text (pos 5) seven ≡ none)
        ↔ (temp_size ≤ length (decimal (pos 5) ++ codes ".0000000000")))
set_value-FitsAfter_example =
    set_value-FitsAfter keep_text increment (text (codes "89")) (pos 5) seven (omega arith)

set_value-AgreesAfter_example :
    AgreesAfter
      (set_value keep_text decrement (record (number (pos 9)) { strval = codes "9" }) seven)
unfolding atol clamp_pos scan_digits
set_value-AgreesAfter_example =
    set_value-AgreesAfter keep_text decrement (record (number (pos 9)) { strval = codes "9" }) seven
      refl refl

append-IsArray_example :
    (st' : Heap ℤ) × (append 5 (codes "a") 0 absolute (text (codes "z")) 10 heap ≡ returned st')
    × IsArray st' 10 (11 ∷ 20 ∷ [])
    × (cells st'.vars (10 ∷ 11 ∷ 20 ∷ [])
        ≡ cells memory (10 ∷ 11 ∷ []) ++ entry (digits 2) (text (codes "z")) ∷ [])
append-IsArray_example =
    append-IsArray 5 (codes "a") 0 absolute (text (codes "z")) 10 heap (11 ∷ []) heap-IsArray refl
      refl (omega arith)

get_index-set_index_example :
    (st' : Heap ℤ) × (ns' : List ℕ) × (set_index keep_text 9
        (codes "a")
        0
        (codes "x")
        absolute
        (text (codes "z"))
        10
        heap
      ≡ returned st')
    × IsArray st' 10 ns'
    × (value_at 9 (codes "x") 10 st' ≡ returned (some (entry (codes "x") (text (codes "z")))))
    × (value_at 9 (codes "y") 10 st' ≡ value_at 9 (codes "y") 10 heap)
get_index-set_index_example =
    get_index-set_index keep_text 9 (codes "a") 0 (codes "x") (codes "y") (text (codes "z")) 10 heap
      (11 ∷ []) heap-IsArray ((codes "0", refl), ((codes "x", refl), tt)) refl refl
      (λ e. ground (arith, e)) (omega arith)

set_simple_copies_example :
    (st' : Heap ℤ) × (set_simple keep_text 5 absolute whole_a 9 heap ≡ returned st')
    × Chain st'.vars (some 9) (9 ∷ range 20 1)
    × (cells st'.vars (9 ∷ range 20 1)
        ≡ record (entry [] whole_a) { key = some (codes "0") } ∷ cells memory (11 ∷ []))
    × (st'.vars 10 ≡ seven)
    × ((st'.vars 9).count ≡ 1 + 1)
set_simple_copies_example =
    set_simple_copies keep_text 5 9 10 11 10 [] whole_a heap (refl, (refl, refl))
      (
        ((λ e. ground (arith, e)), ((λ e. ground (arith, e)), tt)),
        (omega arith, (omega arith, tt)),
        (((codes "7", refl), (codes "0", refl)), (((codes "12", refl), (codes "x", refl)), tt)),
      )
      (omega arith) refl refl (omega arith) (omega arith) (λ e. ground (arith, e))

set_index-deletearray_example :
    ((st' : Heap ℤ) × (append 5 (codes "a") 0 absolute (text (codes "z")) 10 (deletearray 10 heap)
        ≡ returned st')
      × IsArray st' 10 []
      × (cells st'.vars (10 ∷ []) ≡ entry (digits 0) (text (codes "z")) ∷ []))
    × ((st' : Heap ℤ) × (set_index keep_text 5
            (codes "a")
            0
            (codes "y")
            absolute
            (text (codes "z"))
            10
            (deletearray 10 heap)
          ≡ returned st')
        × ((i : Bytes) → get_index 5 i 10 st' ≡ returned (none, st')))
unfolding bytes_eq
set_index-deletearray_example =
    set_index-deletearray keep_text 5 (codes "a") 0 (codes "y") (text (codes "z")) 10 heap
      (omega arith) refl refl (omega arith)

append_endless_example : append 1000 (codes "a") 0 absolute whole_a 10 heap ≡ running
append_endless_example =
    append_endless 1000 (codes "a") 0 absolute whole_a 10 heap (11 ∷ []) heap-IsArray refl
      (((codes "7", refl), (codes "0", refl)), (((codes "12", refl), (codes "x", refl)), tt)) refl
      refl

array_max-Last_example :
    ((r : ℕ) × (array_max 5 whole_a memory ≡ returned (some (push_value (memory r))))
      × OneOf r (10 ∷ 11 ∷ [])
      × All (λ n. ltb_ℤ (memory r).intval (memory n).intval ≡ false) (10 ∷ 11 ∷ []))
    × ((r : ℕ) × (array_min 5 whole_a memory ≡ returned (some (push_value (memory r))))
        × OneOf r (10 ∷ 11 ∷ [])
        × All (λ n. ltb_ℤ (memory n).intval (memory r).intval ≡ false) (10 ∷ 11 ∷ []))
array_max-Last_example =
    array_max-Last 5 whole_a memory 10 (11 ∷ []) refl (refl, (refl, refl)) (refl, (refl, tt))
      (omega arith)

visit-reset_example :
    let (first, st0) = reset 10 heap in
    (first ≡ push_value seven)
    × ((st' : Heap ℤ) × (visit 2 10 st0 ≡ (pairs memory (10 ∷ 11 ∷ []), st'))
        × (key 10 st' ≡ push_empty)
        × ((next 10 st').0 ≡ push_empty)
        × (key 10 (next 10 st').1 ≡ index_of 10 memory))
visit-reset_example = visit-reset 10 heap (11 ∷ []) (refl, (refl, refl))
