-- ===== src/Arrays/Append.antt =====
-- `$a[] = value` in src/var.c.
use goombaserver.Common.{
  ℕ, suc, ◌<◌, ◌≡◌, refl, ap, ◌∙◌, false, some, Option-cases, List, [], ◌∷◌, ◌++◌, Bytes, length,
  arith, if◌then◌else◌, inl, inr,
}
use goombaserver.Numerals.{digits}
use goombaserver.Machine.{Item}
use goombaserver.Vars.Values.{Inc}
use goombaserver.Arrays.{
  returned, ◌>>=◌, Heap, copy_whole, link_back, element, link_element, append, append_behind,
  walk_end, modify, revive,
}
use goombaserver.Arrays.Chain.{last_of, Chain, IsArray, walk_end-Chain}
use goombaserver.Arrays.Lists.{cells, entry}
use goombaserver.Arrays.Extend.{link_element-IsArray}

module _ {D : Type 0} where
  -- A value that is not a whole array.
  pub copy_plain :
      (fuel d : ℕ) (b : Item D) (st : Heap D)
      → b.flag ≡ false
      → copy_whole fuel d b st ≡ returned st
  unfolding copy_whole
  copy_plain fuel d b st e = elim (Option-cases b.var) [
    | inl v ↦ rw (v, copy_whole) refl
    | inr (v, e') ↦ rw (e', copy_whole, e) refl
  ]

  pub append_live :
      (fuel : ℕ) (name : Bytes) (scope : ℕ) (inc : Inc) (b : Item D) (t : ℕ) (st : Heap D)
      → (st.vars t).deleted ≡ false
      → append fuel name scope inc b t st
        ≡ (walk_end fuel st.vars 0 t (some t) >>= append_behind fuel name scope inc b t st)
  unfolding append
  append_live fuel name scope inc b t st live =
      ap
        (λ d.
          if d
          then copy_whole fuel t b (modify t (revive scope inc b t) st)
          else walk_end fuel st.vars 0 t (some t) >>= append_behind fuel name scope inc b t st)
        live

  pub append_lem :
      (fuel : ℕ) (name : Bytes) (scope : ℕ) (inc : Inc) (b : Item D) (t : ℕ) (st : Heap D)
      (ns : List ℕ)
      → Chain st.vars (some t) (t ∷ ns)
      → (st.vars t).deleted ≡ false
      → suc (length ns) < fuel
      → append fuel name scope inc b t st
        ≡ append_behind fuel name scope inc b t st (suc (length ns), last_of t ns)
  append_lem fuel name scope inc b t st ns chain live lt =
      append_live fuel name scope inc b t st live
      ∙ ap (λ r. r >>= append_behind fuel name scope inc b t st)
          (walk_end-Chain fuel st.vars 0 t (some t) (t ∷ ns) chain lt
            ∙ ap (λ n. returned (n, last_of t ns)) (omega arith))

  -- A value that is appended to an array is a new last element, and its index is the number of the
  -- elements before; the elements before keep their values and their indices, and fuel for one round
  -- more than there are elements is enough.
  pub append-IsArray :
      (fuel : ℕ) (name : Bytes) (scope : ℕ) (inc : Inc) (b : Item D) (t : ℕ) (st : Heap D)
      (ns : List ℕ)
      → IsArray st t ns
      → (st.vars t).deleted ≡ false
      → b.flag ≡ false
      → suc (length ns) < fuel
      → (st' : Heap D) × (append fuel name scope inc b t st ≡ returned st')
        × IsArray st' t (ns ++ st.fresh ∷ [])
        × (cells st'.vars (t ∷ ns ++ st.fresh ∷ [])
            ≡ cells st.vars (t ∷ ns) ++ entry (digits (suc (length ns))) b ∷ [])
  unfolding append_behind
  append-IsArray fuel name scope inc b t st ns array live plain lt =
      let write =
        element name scope inc b (digits (suc (length ns))) (st.vars t)
          (link_back st.fresh (last_of t ns)) in
      let st' = link_element t (last_of t ns) write st in
      let (array', cells') = link_element-IsArray t ns write st array refl in
      (
        st',
        append_lem fuel name scope inc b t st ns array.0 live lt
            ∙ copy_plain fuel st.fresh b st' plain,
        array',
        cells',
      )
