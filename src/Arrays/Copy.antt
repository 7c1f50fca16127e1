-- ===== src/Arrays/Copy.antt =====
-- `copyarray` of src/var.c: one round of its loop.
use goombaserver.Common.{
  ℕ, ◌+◌, ◌<◌, ◌≡◌, ◌≢◌, refl, ap₂, none, some, List, [], ◌∷◌, Bytes, length, All, arith,
}
use goombaserver.Machine.{VarTree, Link}
use goombaserver.Arrays.{Heap, copied, link_copy}
use goombaserver.Arrays.Lists.{Cell, cell, cells}

module _ {D : Type 0} where
  -- A value that has a text and an index.
  abbrev pub HasValue : Cell D → Type 0
  HasValue c = ((s : Bytes) × (c.strval ≡ some s)) × ((i : Bytes) × (c.key ≡ some i))

  pub copied_lem :
      (d : ℕ) (x : VarTree D)
      → HasValue (cell x)
      → (v : VarTree D) × (copied d x ≡ some v) × (v.next ≡ none) × (cell v ≡ cell x)
  unfolding copied
  copied_lem d x ((s, e), (i, e')) = (
    record x {
      strval = some s;
      allocated = length s + 1;
      iname = some i;
      next = none;
      prev = Link.node d;
      left = none;
      right = none;
      lacc = Link.start;
      lastnode = none;
    },
    rw (e, e', copied) refl,
    refl,
    rw (e, e') refl,
  )

module _ {D : Type 0} (d : ℕ) (v : VarTree D) (st : Heap D) where
  abbrev after : Heap D
  after = link_copy d v st

  pub copy_next_d : (d < st.fresh) → (after.vars d).next ≡ some st.fresh
  copy_next_d lt = ground arith

  pub copy_new : d < st.fresh → after.vars st.fresh ≡ v
  copy_new lt = ground arith

  pub copy_other : (n : ℕ) → n < st.fresh → n ≢ d → after.vars n ≡ st.vars n
  copy_other n lt ne = ground arith

  pub copy_cell : (n : ℕ) → n < st.fresh → cell (after.vars n) ≡ cell (st.vars n)
  copy_cell n lt = ground arith

module _ {D : Type 0} where
  pub copy_cells :
      (d : ℕ) (v : VarTree D) (st : Heap D) (ns : List ℕ)
      → All (λ n. n < st.fresh) ns
      → cells (link_copy d v st).vars ns ≡ cells st.vars ns
  copy_cells d v st [] _ = refl
  copy_cells d v st (n ∷ ns) (lt, below) =
      ap₂ (λ c cs. c ∷ cs) (copy_cell d v st n lt) (copy_cells d v st ns below)
