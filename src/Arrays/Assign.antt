-- ===== src/Arrays/Assign.antt =====
-- `$a[index] = value` in src/var.c, as an assignment in a list.
use goombaserver.Common.{
  ℕ, suc, ◌+◌, ◌<◌, ◌≤◌, ◌≡◌, ◌≢◌, refl, sym, ap, ◌∙◌, subst, false, Option, none, some, Bool-cases,
  leb, Option-cases, List, [], ◌∷◌, ◌++◌, Bytes, length, length-append, All, arith, inl, inr,
}
use goombaserver.Floats.{Floats, Doubles}
use goombaserver.Machine.{VarTree, Item}
use goombaserver.Vars.Values.{
  absolute, set_element, change_element, set_absolute, store_text, set_flag, inc_flag,
}
use goombaserver.Arrays.{
  Run, returned, ◌>>=◌, Heap, update, modify, set_index, set_slot, is_hidden, link_element,
  link_back, element, write_result,
}
use goombaserver.Arrays.Chain.{last_of, IsArray, Chain-same}
use goombaserver.Arrays.Lists.{cell, cells, entry, assign, lookup}
use goombaserver.Arrays.Extend.{link_element-IsArray}
use goombaserver.Arrays.Append.{copy_plain}
use goombaserver.Arrays.Slots.{slot_of, find_slot-Chain, slot_none, slot_some}
use goombaserver.Arrays.Find.{
  Keyed, Keyed-assign, lookup_same, lookup_other, value_at, value_at-lookup,
}

module _ {D : Type 0} where
  -- A text that is stored changes nothing else.
  store_text_is :
      (s : Bytes) (x : VarTree D)
      → (n : ℕ) × (store_text s x ≡ record x { strval = some s; allocated = n })
  unfolding store_text
  store_text_is [] x = elim (Option-cases x.strval) [
    | inl e ↦ (1, rw (e, store_text) refl)
    | inr (old, e) ↦ (x.allocated, rw (e, store_text) refl)
  ]
  store_text_is (c ∷ s) x = elim (Option-cases x.strval) [
    | inl e ↦ (length (c ∷ s) + 1, rw (e, store_text) refl)
    | inr (old, e) ↦ elim (Bool-cases (leb x.allocated (length (c ∷ s)))) [
      | inl l ↦ (length (c ∷ s) + 1, rw (e, store_text) (rw l refl))
      | inr l ↦ (x.allocated, rw (e, store_text) (rw l refl))
    ]
  ]

  -- A change of one node that keeps what links the array.
  abbrev pub SameLinks : VarTree D → VarTree D → Type 0
  SameLinks v x = (v.next ≡ x.next) × (v.count ≡ x.count) × (v.lastnode ≡ x.lastnode)

  next_kept :
      (a : ℕ) (v : VarTree D) (h : ℕ → VarTree D) (ns : List ℕ)
      → v.next ≡ (h a).next
      → All (λ n. (update a v h n).next ≡ (h n).next) ns
  next_kept a v h [] e = tt
  next_kept a v h (n ∷ ns) e = (ground (arith, e), next_kept a v h ns e)

  pub modify-IsArray :
      (a : ℕ) (v : VarTree D) (st : Heap D) (t : ℕ) (ns : List ℕ)
      → SameLinks v (st.vars a)
      → IsArray st t ns
      → IsArray (modify a (λ x. v) st) t ns
  modify-IsArray a v st t ns (e, e', e'') (chain, d, below, count, last) = (
    Chain-same st.vars (update a v st.vars) (some t) (t ∷ ns) (next_kept a v st.vars (t ∷ ns) e)
        chain,
    d,
    below,
    ground (arith, e', count),
    ground (arith, e'', last),
  )

module _ {D : Type 0} ⦃F : Floats D⦄ ⦃X : Doubles D⦄ (replace : Bytes → Bytes → Option Bytes) where
  unfoldable pub changed : (b : Item D) (x : VarTree D) → VarTree D
  changed b x = set_flag replace absolute (set_absolute replace b x)

  changed_element :
      (b : Item D) (x : VarTree D) → set_element replace absolute b x ≡ some (changed b x)
  unfolding set_element change_element changed
  changed_element b x = refl

  pub changed_lem :
      (index : Bytes) (b : Item D) (x : VarTree D)
      → SameLinks (changed b x) x
        × (cell (changed b x) ≡ record (entry index b) { key = x.iname })
        × (is_hidden (changed b x) ≡ false)
  unfolding changed set_absolute inc_flag
  changed_lem index b x =
      let (n, e) = store_text_is b.strval (record x { douval = b.douval; intval = b.intval }) in
      rw e ((refl, refl, refl), refl, refl)

  -- A run of `SetVar` that is an assignment in the list of values.
  abbrev Assigned : Bytes → Item D → ℕ → Heap D → List ℕ → Run (Heap D) → Type 0
  Assigned index b t st ns run =
      (st' : Heap D) × (ns' : List ℕ) × (run ≡ returned st')
      × IsArray st' t ns'
      × (cells st'.vars (t ∷ ns') ≡ assign index b (cells st.vars (t ∷ ns)))
      × (length ns' ≤ suc (length ns))
      × (is_hidden (st.vars t) ≡ false → is_hidden (st'.vars t) ≡ false)

  assign_found :
      (fuel : ℕ) (name : Bytes) (scope : ℕ) (index : Bytes) (b : Item D) (t : ℕ) (st : Heap D)
      (ns : List ℕ) (l a : ℕ)
      → IsArray st t ns
      → slot_of st.vars index t (t ∷ ns) ≡ (l, some a)
      → Assigned index b t st ns
          (set_slot replace fuel name scope index absolute b t st (l, some a))
  unfolding set_slot
  assign_found fuel name scope index b t st ns l a array e =
      let x = st.vars a in
      let (links, ev, live) = changed_lem index b x in
      (
        modify a (λ y. changed b x) st,
        ns,
        ap (λ r. write_result replace a r st) (changed_element b x),
        modify-IsArray a (changed b x) st t ns links array,
        slot_some st.vars index b t l a (changed b x) (t ∷ ns) e array.1 ev,
        omega arith,
        λ h. ground (arith, live, h),
      )

  assign_new :
      (fuel : ℕ) (name : Bytes) (scope : ℕ) (index : Bytes) (b : Item D) (t : ℕ) (st : Heap D)
      (ns : List ℕ) (l : ℕ)
      → IsArray st t ns
      → b.flag ≡ false
      → slot_of st.vars index t (t ∷ ns) ≡ (l, none)
      → Assigned index b t st ns (set_slot replace fuel name scope index absolute b t st (l, none))
  unfolding set_slot
  assign_new fuel name scope index b t st ns l array plain e =
      let (el, ec) = slot_none st.vars index b t l (t ∷ ns) e in
      let write : VarTree D → VarTree D = λ old.
        record (element name scope absolute b index (st.vars t) (link_back st.fresh (last_of t ns))
          old) { count = 1 } in
      let st' = link_element t (last_of t ns) write st in
      let (array', cells') = link_element-IsArray t ns write st array refl in
      (
        st',
        ns ++ st.fresh ∷ [],
        ap (λ k. set_slot replace fuel name scope index absolute b t st (k, none)) el
            ∙ copy_plain fuel st.fresh b st' plain,
        array',
        cells' ∙ sym ec,
        omega (arith, length-append ns (st.fresh ∷ [])),
        λ h. ground (arith, h),
      )

  assign_slot :
      (fuel : ℕ) (name : Bytes) (scope : ℕ) (index : Bytes) (b : Item D) (t : ℕ) (st : Heap D)
      (ns : List ℕ) (r : ℕ × Option ℕ)
      → IsArray st t ns
      → b.flag ≡ false
      → slot_of st.vars index t (t ∷ ns) ≡ r
      → Assigned index b t st ns (set_slot replace fuel name scope index absolute b t st r)
  assign_slot fuel name scope index b t st ns (l, none) array plain e =
      assign_new fuel name scope index b t st ns l array plain e
  assign_slot fuel name scope index b t st ns (l, some a) array plain e =
      assign_found fuel name scope index b t st ns l a array e

  set_index_lem :
      (fuel : ℕ) (name : Bytes) (scope : ℕ) (index : Bytes) (b : Item D) (t : ℕ) (st : Heap D)
      (ns : List ℕ)
      → IsArray st t ns
      → b.flag ≡ false
      → suc (length ns) < fuel
      → Assigned index b t st ns (set_index replace fuel name scope index absolute b t st)
  unfolding set_index
  set_index_lem fuel name scope index b t st ns array plain lt =
      subst
        (λ q.
          Assigned index b t st ns (q >>= set_slot replace fuel name scope index absolute b t st))
        (sym (find_slot-Chain fuel st.vars index t (some t) (t ∷ ns) array.0 lt))
        (assign_slot fuel name scope index b t st ns (slot_of st.vars index t (t ∷ ns)) array plain
          refl)

  -- After `$a[index] = value`, for an array that `GetVar` shows and any index, the array is whole,
  -- `$a[index]` is the value, and `$a[other]` for another index is what it was; the assignment and the
  -- look-ups end, with fuel for two rounds more than there are elements.
  pub get_index-set_index :
      (fuel : ℕ) (name : Bytes) (scope : ℕ) (index other : Bytes) (b : Item D) (t : ℕ) (st : Heap D)
      (ns : List ℕ)
      → IsArray st t ns
      → Keyed (cells st.vars (t ∷ ns))
      → is_hidden (st.vars t) ≡ false
      → b.flag ≡ false
      → other ≢ index
      → suc (suc (length ns)) < fuel
      → (st' : Heap D) × (ns' : List ℕ) × (set_index replace fuel name scope index absolute b t st
          ≡ returned st')
        × IsArray st' t ns'
        × (value_at fuel index t st' ≡ returned (some (entry index b)))
        × (value_at fuel other t st' ≡ value_at fuel other t st)
  get_index-set_index fuel name scope index other b t st ns array keyed live plain ne lt =
      let before = cells st.vars (t ∷ ns) in
      let (st', ns', e, array', e', le, live') =
        set_index_lem fuel name scope index b t st ns array plain (omega (arith, lt)) in
      let keyed' = subst Keyed (sym e') (Keyed-assign index b before keyed) in
      let at : (i : Bytes) → value_at fuel i t st' ≡ returned (lookup i (assign index b before)) =
        λ i.
          value_at-lookup fuel i t st' ns' array' keyed' (live' live) (omega (arith, lt, le))
          ∙ ap (λ cs. returned (lookup i cs)) e' in
      (
        st',
        ns',
        e,
        array',
        at index ∙ ap returned (lookup_same index b before),
        at other
            ∙ ap returned (lookup_other index other b before ne)
            ∙ sym (value_at-lookup fuel other t st ns array keyed live (omega (arith, lt))),
      )
