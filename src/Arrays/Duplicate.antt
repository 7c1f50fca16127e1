-- ===== src/Arrays/Duplicate.antt =====
-- `$b = $a` in src/var.c for a whole array `$a`.
use goombaserver.Common.{
  ℕ, suc, ◌+◌, ◌<◌, ◌≡◌, ◌≢◌, refl, sym, ap, ap₂, ◌∙◌, subst, true, Option, some, List, [], ◌∷◌,
  Bytes, length, All, Lacks, arith,
}
use goombaserver.Floats.{Floats, Doubles}
use goombaserver.Machine.{VarTree, Item}
use goombaserver.Vars.Values.{absolute, set_value, change_value}
use goombaserver.Arrays.{
  returned, ◌>>=◌, Heap, update, modify, copy_whole, copyarray, set_simple, write_result,
}
use goombaserver.Arrays.Chain.{Chain}
use goombaserver.Arrays.Lists.{cell, cells, entry}
use goombaserver.Arrays.Copy.{HasValue}
use goombaserver.Arrays.Assign.{changed, changed_lem}
use goombaserver.Arrays.Whole.{range, Source, copyarray_lem}

module _ {D : Type 0} where
  update_here : (t : ℕ) (x : VarTree D) (st : Heap D) → update t x st.vars t ≡ x
  update_here t x st = ground arith

  update_there : (t n : ℕ) (x : VarTree D) (st : Heap D) → t ≢ n → update t x st.vars n ≡ st.vars n
  update_there t n x st ne = ground (arith, ne)

  other_kept :
      (t : ℕ) (x : VarTree D) (st : Heap D) (ns : List ℕ)
      → Lacks t ns
      → All (λ n. update t x st.vars n ≡ st.vars n) ns
  other_kept t x st [] _ = tt
  other_kept t x st (n ∷ ns) (ne, lacks) = (update_there t n x st ne, other_kept t x st ns lacks)

  chain_kept :
      (h h' : ℕ → VarTree D) (p : Option ℕ) (ns : List ℕ)
      → All (λ n. h' n ≡ h n) ns
      → Chain h p ns
      → Chain h' p ns
  chain_kept h h' p [] _ e = e
  chain_kept h h' p (n ∷ ns) (s, same) (e, c) =
      (e, subst (λ x. Chain h' x.next ns) (sym s) (chain_kept h h' (h n).next ns same c))

  cells_kept :
      (h h' : ℕ → VarTree D) (ns : List ℕ) → All (λ n. h' n ≡ h n) ns → cells h' ns ≡ cells h ns
  cells_kept h h' [] _ = refl
  cells_kept h h' (n ∷ ns) (s, same) = ap₂ (λ c cs. c ∷ cs) (ap cell s) (cells_kept h h' ns same)

module _ {D : Type 0} ⦃F : Floats D⦄ ⦃X : Doubles D⦄ (replace : Bytes → Bytes → Option Bytes) where
  changed_value :
      (b : Item D) (x : VarTree D) → set_value replace absolute b x ≡ some (changed replace b x)
  unfolding set_value change_value changed
  changed_value b x = refl

  set_simple_lem :
      (fuel t : ℕ) (b : Item D) (st : Heap D)
      → set_simple replace fuel absolute b t st
        ≡ copy_whole fuel t b (modify t (λ x. changed replace b (st.vars t)) st)
  unfolding set_simple
  set_simple_lem fuel t b st =
      ap (λ r. write_result replace t r st >>= copy_whole fuel t b) (changed_value b (st.vars t))

  copy_whole_lem :
      (fuel t v s : ℕ) (b : Item D) (st : Heap D)
      → b.var ≡ some v
      → b.flag ≡ true
      → (st.vars v).next ≡ some s
      → copy_whole fuel t b st ≡ copyarray fuel t (some s) st
  unfolding copy_whole
  copy_whole_lem fuel t v s b st var whole next = rw (copy_whole, var) (rw (whole, next) refl)

  -- `$b = $a` for an array `$a` of at least two elements with values, and another variable `$b`: the
  -- elements of `$b` are then those of `$a`, but for the index of the first, which `$b` keeps, and no
  -- other node that was there is changed. But the count of `$b` becomes its old count and the number of
  -- the copies, so that it is right only where `$b` had one element.
  pub set_simple_copies :
      (fuel t v s n : ℕ) (ms : List ℕ) (b : Item D) (st : Heap D)
      → Chain st.vars (some v) (v ∷ s ∷ ms)
      → Source t (v ∷ s ∷ ms) st
      → t < st.fresh
      → b.var ≡ some v
      → b.flag ≡ true
      → suc (length ms) < fuel
      → n < st.fresh
      → n ≢ t
      → let copies = range st.fresh (suc (length ms)) in
        (st' : Heap D) × (set_simple replace fuel absolute b t st ≡ returned st')
        × Chain st'.vars (some t) (t ∷ copies)
        × (cells st'.vars (t ∷ copies)
            ≡ record (entry [] b) { key = (st.vars t).iname } ∷ cells st.vars (s ∷ ms))
        × (st'.vars n ≡ st.vars n)
        × ((st'.vars t).count ≡ (st.vars t).count + suc (length ms))
  set_simple_copies fuel t v s n ms b st (ev, (next, rest))
        ((ne, lacks), (v_lt, below), (hv, values)) lt var whole enough n_lt n_ne =
      let x = changed replace b (st.vars t) in
      let st1 = modify t (λ y. x) st in
      let ((e_next, e_count, _), e_cell, _) = changed_lem replace [] b (st.vars t) in
      let same = other_kept t x st (s ∷ ms) lacks in
      let (st', run, chain', cells', spares', cell', count') =
        copyarray_lem fuel t s ms st1
          (chain_kept st.vars st1.vars (some s) (s ∷ ms) same (refl, rest))
          (
            lacks,
            below,
            subst (All HasValue) (sym (cells_kept st.vars st1.vars (s ∷ ms) same)) values,
          )
          lt enough in
      let here : st1.vars t ≡ x = update_here t x st in
      let there : st1.vars v ≡ st.vars v = update_there t v x st ne in
      (
        st',
        set_simple_lem fuel t b st
            ∙ copy_whole_lem fuel t v s b st1 var whole (ap (λ y. y.next) there ∙ next)
            ∙ run,
        (refl, chain'),
        ap₂ (λ c cs. c ∷ cs) (cell' ∙ ap cell here ∙ e_cell)
            (cells' ∙ cells_kept st.vars st1.vars (s ∷ ms) same),
        spares' n n_lt n_ne ∙ update_there t n x st (λ e. n_ne (sym e)),
        count' ∙ ap (λ y. y.count + suc (length ms)) here ∙ ap (λ n. n + suc (length ms)) e_count,
      )
