-- ===== src/Arrays/Extend.antt =====
-- A new element at the end of an array of src/var.c.
use goombaserver.Common.{
  ℕ, ◌+◌, ◌<◌, ◌≡◌, ◌≢◌, refl, sym, ap, ap₂, ◌∙◌, none, some, List, [], ◌∷◌, ◌++◌, length-append,
  All, All-append, arith,
}
use goombaserver.Machine.{VarTree}
use goombaserver.Arrays.{Heap, link_element}
use goombaserver.Arrays.Chain.{
  last_of, IsArray, Linked-last, Chain-append, last-below, last-append, Lacks-fresh, below-more,
  Distinct-snoc,
}
use goombaserver.Arrays.Lists.{cell, cells, cells-append}

module _ {D : Type 0} (t last : ℕ) (write : VarTree D → VarTree D) (st : Heap D) where
  abbrev after : Heap D
  after = link_element t last write st

  next_other : (n : ℕ) → n < st.fresh → n ≢ last → (after.vars n).next ≡ (st.vars n).next
  next_other n lt ne = ground arith

  next_last : last < st.fresh → (after.vars last).next ≡ some st.fresh
  next_last lt = ground arith

  next_new :
      t < st.fresh
      → last < st.fresh
      → (write (st.vars st.fresh)).next ≡ none
      → (after.vars st.fresh).next ≡ none
  next_new lt lt' e = ground (arith, e)

  cell_old : (n : ℕ) → n < st.fresh → cell (after.vars n) ≡ cell (st.vars n)
  cell_old n lt = ground arith

  cell_new :
      t < st.fresh → last < st.fresh → cell (after.vars st.fresh) ≡ cell (write (st.vars st.fresh))
  cell_new lt lt' = ground arith

  head_count : t < st.fresh → (after.vars t).count ≡ (st.vars t).count + 1
  head_count lt = ground arith

  head_last : t < st.fresh → (after.vars t).lastnode ≡ some st.fresh
  head_last lt = ground arith

module _ {D : Type 0} where
  cells_old :
      (t last : ℕ) (write : VarTree D → VarTree D) (st : Heap D) (ns : List ℕ)
      → All (λ n. n < st.fresh) ns
      → cells (link_element t last write st).vars ns ≡ cells st.vars ns
  cells_old t last write st [] _ = refl
  cells_old t last write st (n ∷ ns) (lt, below) =
      ap₂ (λ c cs. c ∷ cs) (cell_old t last write st n lt) (cells_old t last write st ns below)

  -- A new element is one node more, and its value one entry more.
  pub link_element-IsArray :
      (t : ℕ) (ns : List ℕ) (write : VarTree D → VarTree D) (st : Heap D)
      → IsArray st t ns
      → (write (st.vars st.fresh)).next ≡ none
      → let st' = link_element t (last_of t ns) write st in
        IsArray st' t (ns ++ st.fresh ∷ [])
        × (cells st'.vars (t ∷ ns ++ st.fresh ∷ [])
            ≡ cells st.vars (t ∷ ns) ++ cell (write (st.vars st.fresh)) ∷ [])
  link_element-IsArray t ns write st (chain, d, (lt, below), count, last) e =
      let l = last_of t ns in
      let l_lt = last-below st.fresh t ns (lt, below) in
      let st' = link_element t l write st in
      let linked =
        Linked-last st.vars st'.vars (some st.fresh) st.fresh t ns d (lt, below)
          (λ n n_lt ne. next_other t l write st n n_lt ne) (next_last t l write st l_lt) in
      (
        (
          Chain-append st.vars st'.vars (some t) (some st.fresh) t ns (st.fresh ∷ []) chain linked
              (refl, next_new t l write st lt l_lt e),
          Distinct-snoc st.fresh (t ∷ ns) d (Lacks-fresh st.fresh (t ∷ ns) (lt, below)),
          All-append (λ n. n < st.fresh + 1) (t ∷ ns) (st.fresh ∷ [])
              (below-more st.fresh (st.fresh + 1) (t ∷ ns) (omega arith) (lt, below))
              (omega arith, tt),
          head_count t l write st lt ∙ omega (arith, count, length-append ns (st.fresh ∷ [])),
          head_last t l write st lt ∙ ap some (sym (last-append t ns st.fresh)),
        ),
        cells-append st'.vars (t ∷ ns) (st.fresh ∷ [])
            ∙ ap₂ (λ c c'. c ++ c' ∷ []) (cells_old t l write st (t ∷ ns) (lt, below))
                (cell_new t l write st lt l_lt),
      )
