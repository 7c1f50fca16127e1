-- ===== src/VarExamples.antt =====
-- The theorems on src/var.c, src/sort.c and src/date.c at a concrete tree, call, text, array and date.
use goombaserver.Common.{
  ltb, ◌<◌, ◌≤◌, zero, suc, length, ◌++◌, Bytes, List, Option, Bool, true, ap, refl, bytes_eq,
  if◌then◌else◌, ◌==◌, ℕ, ◌+◌, ◌≡◌, none, some, [], ◌∷◌, codes, arith,
}
use goombaserver.Vars.{
  compare_names, Tree, null, node, Frames, find_node, get_node, set_node, push_stack_frame,
  pop_stack_frame,
}
use goombaserver.Vars.Lookup.{get_node-set_node}
use goombaserver.Vars.Calls.{done, variable, call, run_body, HasNoEval, pop_stack_frame-run_body}
use mathlib.Core.List.{Perm}
use goombaserver.Common.Int.{ℤ, pos}
use goombaserver.Floats.{whole, whole_doubles}
use goombaserver.Machine.{string}
use goombaserver.Scenario.{no_var, text}
use goombaserver.Arrays.{Heap, returned}
use goombaserver.Sort.{sort, comp_string}
use goombaserver.Sort.Contract.{IsSorted}
use goombaserver.Sort.Insertion.{insertion_sort, insertion_sort-MeetsContract}
use goombaserver.Sort.Sorted.{HaveTexts, HaveNumbers, SamePlace, sort-IsSorted}
use goombaserver.Numerals.{decimal, digits, digits_from}
use goombaserver.Date.{Tm, write_date, date_buffer}
use goombaserver.Date.Room.{all_seconds, write_date_fits}
use goombaserver.Subst.{
  is_word, span_name, read_index, span_blanks, open_bracket, closed, span_index, sub_var,
}
use goombaserver.Subst.Pieces.{
  plain, dollar, value, element, Piece, render, replaced, sub_var-render,
}
use goombaserver.Subst.Lost.{sub_var_lost}

abbrev colours : Tree ℕ
colours = node (node null (codes "blue") 1 null) (codes "green") 2 (node null (codes "red") 3 null)

-- A value above 8 is hidden here.
get_node-set_node_example :
    (get_node (ltb 8) (codes "black") (set_node (codes "black") 7 (λ n. n + 1) colours) ≡ some 7)
    × (get_node (ltb 8) (codes "blue") (set_node (codes "black") 7 (λ n. n + 1) colours)
        ≡ get_node (ltb 8) (codes "blue") colours)
unfolding find_node compare_names
get_node-set_node_example =
    get_node-set_node (ltb 8) (codes "black") (codes "blue") 7 (λ n. n + 1) colours
      (λ e. ground arith)

-- A function with no variable calls one that makes a variable and calls a third.
abbrev in_function : Frames
in_function = record { var_main = some 10; var_top = none; frames = none ∷ [] }

has_no_eval : HasNoEval (variable 20 (call done done))
unfolding HasNoEval
has_no_eval = (tt, tt)

pop_stack_frame-run_body_example :
    let f =
      pop_stack_frame (run_body (variable 20 (call done done)) (push_stack_frame in_function)) in
    (f.frames ≡ none ∷ []) × (f.var_top ≡ some 10)
pop_stack_frame-run_body_example =
    pop_stack_frame-run_body (variable 20 (call done done)) in_function has_no_eval

-- A variable `a`, and no other; each look-up is counted.
abbrev only_a : Bytes → Option Bytes → Bool → ℕ → Option Bytes × ℕ
only_a name index mode st = (if bytes_eq name (codes "a") then some (codes "one") else none, st + 1)

-- `$a, \$, $b[7]`.
abbrev template : List Piece
template =
    value (codes "a")
    ∷ plain 44
    ∷ plain 32
    ∷ dollar
    ∷ plain 44
    ∷ element (codes "b") (codes "7")
    ∷ []

sub_var-render_example : sub_var only_a 0 (render template) ≡ some (replaced only_a 0 template)
unfolding is_word span_name read_index span_blanks open_bracket closed span_index bytes_eq
sub_var-render_example =
    sub_var-render only_a 0 template
      (
        (refl, tt),
        (refl, refl),
        (refl, refl, (refl, refl, (refl, refl, ((refl, tt), (refl, tt), tt)))),
      )
      (omega arith)

abbrev repeat : ℕ → Bytes
repeat zero = []
repeat (suc n) = 120 ∷ repeat n

length-repeat : (n : ℕ) → length (repeat n) ≡ n
length-repeat zero = refl
length-repeat (suc n) = ap suc (length-repeat n)

abbrev long_value : Bytes → Option Bytes → Bool → ℕ → Option Bytes × ℕ
long_value name index mode st = (some (repeat 1028), st)

-- In `$a+bc`, `bc` is lost.
sub_var_lost_example :
    sub_var long_value 0 (36 ∷ 97 ∷ [] ++ 43 ∷ 98 ∷ 99 ∷ []) ≡ some (repeat 1028 ++ 43 ∷ [], 0)
unfolding is_word span_name read_index span_blanks open_bracket
sub_var_lost_example =
    sub_var_lost long_value 0 97 [] 43 98 (99 ∷ []) (repeat 1028) 0 (refl, tt) (refl, refl) refl
      refl (length-repeat 1028)

abbrev fruit : Heap ℤ
fruit = record {
  vars = λ n.
      if n == 5
      then record no_var { kind = string; strval = some (codes "pear"); next = some 6 }
      else record no_var { kind = string; strval = some (codes "fig") };
  fresh = 7;
}

sort-IsSorted_example :
    (st' : Heap ℤ) × (us : List Bytes) × (sort insertion_sort 5
        (record (text (codes "pear")) { var = some 5; flag = true })
        fruit
      ≡ returned st')
    × HaveTexts st'.vars (5 ∷ 6 ∷ []) us
    × HaveNumbers st'.vars (5 ∷ 6 ∷ []) us
    × Perm (codes "pear" ∷ codes "fig" ∷ []) us
    × IsSorted comp_string us
    × ((n : ℕ) → SamePlace (st'.vars n) (fruit.vars n))
sort-IsSorted_example =
    sort-IsSorted insertion_sort 5 (record (text (codes "pear")) { var = some 5; flag = true }) 5
      (6 ∷ []) (codes "pear" ∷ codes "fig" ∷ []) fruit insertion_sort-MeetsContract refl
      (refl, (refl, refl)) (((λ e. ground (arith, e)), tt), (tt, tt)) (refl, (refl, tt)) refl
      (omega arith) (omega arith)

abbrev new_year : Tm
new_year = record {
  tm_sec = pos 5;
  tm_min = pos 8;
  tm_hour = pos 22;
  tm_mday = pos 1;
  tm_mon = pos 0;
  tm_year = pos 122;
  tm_wday = pos 6;
  tm_yday = pos 0;
  tm_isdst = pos 0;
}

write_date_fits_example :
    (length (write_date (pos 1641000000) new_year (codes "d M Y, U"))
      < date_buffer (codes "d M Y, U"))
    × (date_buffer (all_seconds 10)
        ≤ length (write_date (pos 10000000000) new_year (all_seconds 10)))
unfolding decimal digits digits_from
write_date_fits_example =
    write_date_fits (pos 1641000000) (pos 10000000000) new_year (codes "d M Y, U") 10
      (
        (5, refl, omega arith),
        (8, refl, omega arith),
        (22, refl, omega arith),
        (1, refl, omega arith),
        (0, refl, omega arith),
        (122, refl, omega arith),
        (6, refl, omega arith),
        (0, refl, omega arith),
      )
      (omega arith) (omega arith) (omega arith)
