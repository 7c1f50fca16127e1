-- ===== src/Arrays/Unset.antt =====
-- An array of src/var.c behind `UnSet`.
use goombaserver.Common.{
  ℕ, ◌<◌, ◌≡◌, refl, ap, ◌∙◌, true, false, Option, none, some, [], ◌∷◌, Bytes, arith, if◌then◌else◌,
}
use goombaserver.Floats.{Floats, Doubles}
use goombaserver.Numerals.{digits}
use goombaserver.Machine.{VarTree, Item}
use goombaserver.Vars.Values.{Inc, absolute}
use goombaserver.Arrays.{
  returned, ◌>>=◌, Heap, modify, deletearray, append, append_behind, revive, copy_whole, set_index,
  set_slot, get_index, found_element, find_index, has_index, is_hidden, link_element, element,
  link_back, walk_end,
}
use goombaserver.Arrays.Chain.{IsArray}
use goombaserver.Arrays.Lists.{cells, entry}
use goombaserver.Arrays.Append.{copy_plain}
use goombaserver.Arrays.Slots.{slot_of, find_slot-Chain}

module _ {D : Type 0} where
  unset_next : (t : ℕ) (st : Heap D) → ((deletearray t st).vars t).next ≡ none
  unfolding deletearray
  unset_next t st = ground arith

  unset_fresh : (t : ℕ) (st : Heap D) → t < st.fresh → t < (deletearray t st).fresh
  unfolding deletearray
  unset_fresh t st lt = lt

  unset_deleted : (t : ℕ) (st : Heap D) → ((deletearray t st).vars t).deleted ≡ true
  unfolding deletearray
  unset_deleted t st = ground arith

  unset_index :
      (t : ℕ) (index : Bytes) (st : Heap D)
      → has_index index ((deletearray t st).vars t) ≡ has_index index (st.vars t)
  unfolding deletearray
  unset_index t index st = ground arith

  hidden_deleted : (x : VarTree D) → x.deleted ≡ true → is_hidden x ≡ true
  hidden_deleted x e = ground (arith, e)

  -- A variable that is unset has no elements.
  get_deleted :
      (fuel : ℕ) (index : Bytes) (t : ℕ) (st : Heap D)
      → (st.vars t).deleted ≡ true
      → get_index fuel index t st ≡ returned (none, st)
  unfolding get_index
  get_deleted fuel index t st e =
      ap
        (λ d.
          if d
          then returned (none, st)
          else find_index fuel st.vars index (some t) >>= found_element t st)
        (hidden_deleted (st.vars t) e)

  append_deleted :
      (fuel : ℕ) (name : Bytes) (scope : ℕ) (inc : Inc) (b : Item D) (t : ℕ) (st : Heap D)
      → (st.vars t).deleted ≡ true
      → append fuel name scope inc b t st ≡ copy_whole fuel t b (modify t (revive scope inc b t) st)
  unfolding append
  append_deleted fuel name scope inc b t st e =
      ap
        (λ d.
          if d
          then copy_whole fuel t b (modify t (revive scope inc b t) st)
          else walk_end fuel st.vars 0 t (some t) >>= append_behind fuel name scope inc b t st)
        e

  revive-IsArray :
      (scope : ℕ) (inc : Inc) (b : Item D) (t : ℕ) (st : Heap D)
      → t < st.fresh
      → let st' = modify t (revive scope inc b t) st in
        IsArray st' t [] × (cells st'.vars (t ∷ []) ≡ entry (digits 0) b ∷ [])
  revive-IsArray scope inc b t st lt = (
    ((refl, ground arith), (tt, tt), (lt, tt), ground arith, ground arith),
    ap (λ c. c ∷ []) (ground arith),
  )

module _ {D : Type 0} ⦃F : Floats D⦄ ⦃X : Doubles D⦄ (replace : Bytes → Bytes → Option Bytes) where
  -- The variable stays unset when an element with another index is linked to it.
  set_index_deleted :
      (fuel : ℕ) (name : Bytes) (scope : ℕ) (index : Bytes) (b : Item D) (t : ℕ) (st : Heap D)
      → t < st.fresh
      → (st.vars t).next ≡ none
      → (st.vars t).deleted ≡ true
      → has_index index (st.vars t) ≡ false
      → b.flag ≡ false
      → 1 < fuel
      → (st' : Heap D) × (set_index replace fuel name scope index absolute b t st ≡ returned st')
        × ((st'.vars t).deleted ≡ true)
  unfolding set_index set_slot slot_of
  set_index_deleted fuel name scope index b t st lt next deleted miss plain enough =
      let write : VarTree D → VarTree D = λ old.
        record (element name scope absolute b index (st.vars t) (link_back st.fresh t) old) {
          count = 1;
        } in
      let st' = link_element t t write st in
      (
        st',
        ap (λ r. r >>= set_slot replace fuel name scope index absolute b t st)
              (find_slot-Chain fuel st.vars index t (some t) (t ∷ []) (refl, next) enough
                ∙ ap (λ m. returned (if m then (t, some t) else (t, none))) miss)
            ∙ copy_plain fuel st.fresh b st' plain,
        ground (arith, deleted),
      )

  -- A variable that was unset and gets `$a[] = value` is an array of this value alone, with index 0.
  -- But `$a[index] = value`, for an index other than that of the old first element, leaves it unset,
  -- so that no element is found in it, nor the new one.
  pub set_index-deletearray :
      (fuel : ℕ) (name : Bytes) (scope : ℕ) (index : Bytes) (b : Item D) (t : ℕ) (st : Heap D)
      → t < st.fresh
      → has_index index (st.vars t) ≡ false
      → b.flag ≡ false
      → 1 < fuel
      → ((st' : Heap D) × (append fuel name scope absolute b t (deletearray t st) ≡ returned st')
          × IsArray st' t []
          × (cells st'.vars (t ∷ []) ≡ entry (digits 0) b ∷ []))
        × ((st' : Heap D) × (set_index replace fuel name scope index absolute b t (deletearray t st)
              ≡ returned st')
            × ((i : Bytes) → get_index fuel i t st' ≡ returned (none, st')))
  set_index-deletearray fuel name scope index b t st lt miss plain enough =
      let st1 = deletearray t st in
      let deleted = unset_deleted t st in
      let st2 = modify t (revive scope absolute b t) st1 in
      let (array, cells') = revive-IsArray scope absolute b t st1 (unset_fresh t st lt) in
      let (st', run, deleted') =
        set_index_deleted fuel name scope index b t st1 (unset_fresh t st lt) (unset_next t st)
          deleted (unset_index t index st ∙ miss) plain enough in
      (
        (
          st2,
          append_deleted fuel name scope absolute b t st1 deleted ∙ copy_plain fuel t b st2 plain,
          array,
          cells',
        ),
        (st', run, λ i. get_deleted fuel i t st' deleted'),
      )
