-- ===== src/Arrays/Endless.antt =====
-- `$a[] = $a` in src/var.c: the array is copied behind its own last element.
use goombaserver.Common.{
  ℕ, zero, suc, ◌+◌, ◌<◌, ◌≤◌, ◌≡◌, refl, sym, ap, ◌∙◌, subst, true, false, Option, none, some,
  List, [], ◌∷◌, ◌++◌, Bytes, length, All, All-append, Distinct, arith, inl, inr, ◌⊎◌,
}
use goombaserver.Numerals.{digits}
use goombaserver.Machine.{VarTree, Item}
use goombaserver.Vars.Values.{Inc}
use goombaserver.Arrays.{
  returned, running, ◌>>=◌, Heap, link_copy, copy_loop, append, append_behind, walk_end, copy_whole,
  copyarray, close_copy, link_back, link_element, element,
}
use goombaserver.Arrays.Chain.{
  last_of, Chain, IsArray, Chain-append, Linked-last, last-below, last-append, Lacks-fresh,
  below-more, Distinct-snoc,
}
use goombaserver.Arrays.Lists.{cell, cells, cells-append, entry}
use goombaserver.Arrays.Append.{append_lem, append_live}
use goombaserver.Arrays.Extend.{link_element-IsArray}
use goombaserver.Arrays.Copy.{HasValue, copied_lem, copy_cells, copy_next_d, copy_new, copy_other}

le_or_lt : (m n : ℕ) → (m ≤ n) ⊎ (n < m)
le_or_lt m n = ground arith

module _ {D : Type 0} where
  -- From `s` the nodes lead to the last one, which the next copy goes behind.
  abbrev LeadsTo : ℕ → List ℕ → Heap D → Type 0
  LeadsTo s ss st =
      Chain st.vars (some s) (s ∷ ss)
      × Distinct (s ∷ ss)
      × All (λ n. n < st.fresh) (s ∷ ss)
      × All HasValue (cells st.vars (s ∷ ss))

  -- A round of the loop puts a node at the end of those that are ahead of it.
  copy_step :
      (s : ℕ) (ss : List ℕ) (v : VarTree D) (st : Heap D)
      → LeadsTo s ss st
      → v.next ≡ none
      → HasValue (cell v)
      → LeadsTo s (ss ++ st.fresh ∷ []) (link_copy (last_of s ss) v st)
  copy_step s ss v st (chain, d, below, values) e hv =
      let l = last_of s ss in
      let l_lt = last-below st.fresh s ss below in
      let st' = link_copy l v st in
      let new = copy_new l v st l_lt in
      let linked =
        Linked-last st.vars st'.vars (some st.fresh) st.fresh s ss d below
          (λ n n_lt ne. ap (λ x. x.next) (copy_other l v st n n_lt ne)) (copy_next_d l v st l_lt) in
      (
        Chain-append st.vars st'.vars (some s) (some st.fresh) s ss (st.fresh ∷ []) chain linked
            (refl, ap (λ x. x.next) new ∙ e),
        Distinct-snoc st.fresh (s ∷ ss) d (Lacks-fresh st.fresh (s ∷ ss) below),
        All-append (λ n. n < st.fresh + 1) (s ∷ ss) (st.fresh ∷ [])
            (below-more st.fresh (st.fresh + 1) (s ∷ ss) (omega arith) below) (omega arith, tt),
        subst (All HasValue) (sym (cells-append st'.vars (s ∷ ss) (st.fresh ∷ []))) (
            All-append HasValue (cells st'.vars (s ∷ ss)) (cells st'.vars (st.fresh ∷ []))
              (subst (All HasValue) (sym (copy_cells l v st (s ∷ ss) below)) values)
              (subst (λ x. HasValue (cell x)) (sym new) hv, tt)),
      )

  -- What is ahead of the loop when it goes on.
  rest_leads :
      (s : ℕ) (ss : List ℕ) (a : ℕ) (st : Heap D)
      → LeadsTo s (ss ++ a ∷ []) st
      → (s' : ℕ) × (ss' : List ℕ) × ((st.vars s).next ≡ some s')
        × (last_of s' ss' ≡ a)
        × LeadsTo s' ss' st
  rest_leads s [] a st ((_, (e, chain)), (_, d), (_, below), (_, values)) =
      (a, [], e, refl, ((refl, chain), d, below, values))
  rest_leads s (x ∷ xs) a st ((_, (e, chain)), (_, d), (_, below), (_, values)) =
      (x, xs ++ a ∷ [], e, last-append x xs a, ((refl, chain), d, below, values))

  copy_loop_endless :
      (fuel count : ℕ) (new : Option ℕ) (s : ℕ) (ss : List ℕ) (st : Heap D)
      → LeadsTo s ss st
      → copy_loop fuel count new (last_of s ss) (some s) st ≡ running
  unfolding copy_loop
  copy_loop_endless zero count new s ss st h = refl
  copy_loop_endless (suc fuel) count new s ss st (chain, d, below, (hv, values)) =
      let (v, e, e', e'') = copied_lem (last_of s ss) (st.vars s) hv in
      let st' = link_copy (last_of s ss) v st in
      let (s', ss', next, last, h') =
        rest_leads s ss st.fresh st'
          (copy_step s ss v st (chain, d, below, (hv, values)) e' (subst HasValue (sym e'') hv)) in
      rw (copy_loop, e)
        (ap (λ p. copy_loop fuel (count + 1) (some st.fresh) st.fresh p st') next
          ∙ ap (λ d. copy_loop fuel (count + 1) (some st.fresh) d (some s') st') (sym last)
          ∙ copy_loop_endless fuel (count + 1) (some st.fresh) s' ss' st' h')

  walk_end_short :
      (fuel : ℕ) (h : ℕ → VarTree D) (count last : ℕ) (p : Option ℕ) (ns : List ℕ)
      → Chain h p ns
      → fuel ≤ length ns
      → walk_end fuel h count last p ≡ running
  unfolding walk_end
  walk_end_short zero h count last p ns c le = refl
  walk_end_short (suc fuel) h count last p [] c le = absurd (omega (arith, le))
  walk_end_short (suc fuel) h count last p (a ∷ ns) (e, c) le =
      rw e (walk_end_short fuel h (count + 1) a (h a).next ns c (omega (arith, le)))

  copy_whole_endless :
      (fuel t : ℕ) (ns : List ℕ) (a : ℕ) (b : Item D) (st : Heap D)
      → LeadsTo t (ns ++ a ∷ []) st
      → b.var ≡ some t
      → b.flag ≡ true
      → copy_whole fuel a b st ≡ running
  unfolding copy_whole copyarray
  copy_whole_endless fuel t ns a b st h var whole =
      let (s, ss, next, last, h') = rest_leads t ns a st h in
      rw (copy_whole, var)
        (rw (whole, next)
          (ap
              (λ d. copy_loop fuel (st.vars a).count none d (some s) st >>= λ r.
                returned (close_copy a r))
              (sym last)
            ∙ ap (λ r. r >>= λ x. returned (close_copy a x))
                (copy_loop_endless fuel (st.vars a).count none s ss st h')))

  append_behind_endless :
      (fuel : ℕ) (name : Bytes) (scope : ℕ) (inc : Inc) (b : Item D) (t : ℕ) (st : Heap D)
      (ns : List ℕ)
      → IsArray st t ns
      → All HasValue (cells st.vars (t ∷ ns))
      → b.var ≡ some t
      → b.flag ≡ true
      → append_behind fuel name scope inc b t st (suc (length ns), last_of t ns) ≡ running
  unfolding append_behind
  append_behind_endless fuel name scope inc b t st ns array values var whole =
      let index = digits (suc (length ns)) in
      let write = element name scope inc b index (st.vars t) (link_back st.fresh (last_of t ns)) in
      let (array', cells') = link_element-IsArray t ns write st array refl in
      copy_whole_endless fuel t ns st.fresh b (link_element t (last_of t ns) write st)
        (
          array'.0,
          array'.1,
          array'.2,
          subst (All HasValue) (sym cells') (
              All-append HasValue (cells st.vars (t ∷ ns)) (entry index b ∷ []) values
                (((b.strval, refl), (index, refl)), tt)),
        )
        var whole

  -- `$a[] = $a`, for any array that was not unset and whose elements have values, is never done: the
  -- copies are appended to the elements that are still to be copied, so that whatever number of rounds
  -- the loop has gone, it goes on.
  pub append_endless :
      (fuel : ℕ) (name : Bytes) (scope : ℕ) (inc : Inc) (b : Item D) (t : ℕ) (st : Heap D)
      (ns : List ℕ)
      → IsArray st t ns
      → (st.vars t).deleted ≡ false
      → All HasValue (cells st.vars (t ∷ ns))
      → b.var ≡ some t
      → b.flag ≡ true
      → append fuel name scope inc b t st ≡ running
  append_endless fuel name scope inc b t st ns array live values var whole =
      elim (le_or_lt fuel (suc (length ns))) [
        | inl le ↦
            append_live fuel name scope inc b t st live
            ∙ ap (λ r. r >>= append_behind fuel name scope inc b t st)
                (walk_end_short fuel st.vars 0 t (some t) (t ∷ ns) array.0 le)
        | inr lt ↦
            append_lem fuel name scope inc b t st ns array.0 live lt
            ∙ append_behind_endless fuel name scope inc b t st ns array values var whole
      ]
