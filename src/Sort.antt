-- ===== src/Sort.antt =====
-- src/sort.c: the sort of an array. `qsort` is the C library's, and a parameter.
pub mod Contract
pub mod Insertion
pub mod Sorted
use goombaserver.Common.{
  ℕ, zero, suc, Bool, true, false, Option, none, some, List, [], ◌∷◌, Bytes, leb, if◌then◌else◌,
}
use goombaserver.Common.Int.{ℤ, pos, negsuc, eqb_ℤ, ltb_ℤ}
use goombaserver.Floats.{Floats, Doubles}
use goombaserver.Numerals.{atol}
use goombaserver.Machine.{Kind, lnumber, dnumber, string, variable, array, VarTree, Item}
use goombaserver.Expr.{strcmp}
use goombaserver.Arrays.{Run, returned, crashed, running, ◌>>=◌, Heap, modify}

unfoldable pub comp_string : Bytes → Bytes → ℤ
unfolding strcmp
comp_string a b = strcmp a b

-- `num`.
abbrev pub room : ℕ
room = 1024

-- The texts from the node `p` on, as the first loop collects them, with the texts that it has as
-- `count`. A NULL text ends in `strcmp` or `atol`. Where the block of pointers is full it is given to
-- `realloc`, though it stands in a memory pool: what happens then is open, and stands as a crash here.
unfoldable pub gather : {D : Type 0} → ℕ → ℕ → (ℕ → VarTree D) → Option ℕ → Run (List Bytes)
gather zero count h p = running
gather (suc fuel) count h none = returned []
gather (suc fuel) count h (some a) =
    let rest = gather fuel (suc count) h (h a).next in
    elim (h a).strval [
      | none ↦ crashed
      | some s ↦ if leb room (suc count) then crashed else rest >>= (λ ts. returned (s ∷ ts))
    ]

module _ (D : Type 0) ⦃F : Floats D⦄ where
  unfoldable pub comp_real : Bytes → Bytes → ℤ
  comp_real a b =
      if F.eqb (F.atof a) (F.atof b)
      then pos 0
      else if F.ltb (F.atof b) (F.atof a)
      then pos 1
      else negsuc 0

  -- The second text is read by `atof`.
  unfoldable pub comp_long : ⦃X : Doubles D⦄ → Bytes → Bytes → ℤ
  comp_long ⦃X = X⦄ a b =
      let f = atol a in
      let s = X.to_long (F.atof b) in
      if eqb_ℤ f s then pos 0 else if ltb_ℤ s f then pos 1 else negsuc 0

module _ {D : Type 0} ⦃F : Floats D⦄ where
  abbrev pub set_text : Bytes → VarTree D → VarTree D
  set_text s x = record x { strval = some s; intval = atol s; douval = F.atof s }

  -- The second loop. There are as many texts as nodes.
  unfoldable pub scatter : List Bytes → Option ℕ → Heap D → Heap D
  scatter [] p st = st
  scatter (s ∷ ts) none st = st
  scatter (s ∷ ts) (some a) st =
      let st' = modify a (set_text s) st in scatter ts (st'.vars a).next st'

module _ (D : Type 0) ⦃F : Floats D⦄ ⦃X : Doubles D⦄
    (qsort : (Bytes → Bytes → ℤ) → List Bytes → List Bytes) where
  -- The switch on the type of the first element.
  unfoldable pub sort_texts : Kind → List Bytes → List Bytes
  unfolding comp_string comp_real comp_long
  sort_texts string ts = qsort comp_string ts
  sort_texts lnumber ts = qsort (comp_long D) ts
  sort_texts dnumber ts = qsort (comp_real D) ts
  sort_texts variable ts = ts
  sort_texts array ts = ts

module _ {D : Type 0} ⦃F : Floats D⦄ ⦃X : Doubles D⦄
    (qsort : (Bytes → Bytes → ℤ) → List Bytes → List Bytes) where
  -- `Sort` of the popped `s`.
  unfoldable pub sort : ℕ → Item D → Heap D → Run (Heap D)
  unfolding gather sort_texts scatter
  sort fuel s st = elim s.var [
    | none ↦ returned st
    | some v ↦
        gather fuel 0 st.vars (some v)
        >>= (λ ts. returned (scatter (sort_texts D qsort (st.vars v).kind ts) (some v) st))
  ]
