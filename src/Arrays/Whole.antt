-- ===== src/Arrays/Whole.antt =====
-- `$b = $a` for a whole array in src/var.c: what `copyarray` makes.
use goombaserver.Common.{
  ℕ, zero, suc, ◌+◌, ◌<◌, ◌≡◌, ◌≢◌, refl, sym, ap, ap₂, ◌∙◌, subst, Option, none, some, List, [],
  ◌∷◌, length, All, Lacks, arith,
}
use goombaserver.Arrays.{returned, ◌>>=◌, Heap, link_copy, copy_loop, copyarray, close_copy}
use goombaserver.Arrays.Chain.{last_of, Chain, Chain-same, Lacks-fresh, below-more}
use goombaserver.Arrays.Lists.{cell, cells, cells-same}
use goombaserver.Arrays.Copy.{
  HasValue, copied_lem, copy_cells, copy_cell, copy_next_d, copy_new, copy_other,
}

-- The addresses that are given next.
abbrev pub range : ℕ → ℕ → List ℕ
range a zero = []
range a (suc n) = a ∷ range (a + 1) n

abbrev last_copy : Option ℕ → List ℕ → Option ℕ
last_copy new [] = new
last_copy new (a ∷ ns) = some (last_of a ns)

last_copy_lem : (a : ℕ) (ns : List ℕ) → last_copy (some a) ns ≡ some (last_of a ns)
last_copy_lem a [] = refl
last_copy_lem a (b ∷ ns) = refl

all {ℓ} : {P : ℕ → Type ℓ} (ns : List ℕ) → ((n : ℕ) → P n) → All P ns
all [] h = tt
all (n ∷ ns) h = (h n, all ns h)

module _ {D : Type 0} where
  -- `st'` differs from `st` at `d` and at new addresses only.
  abbrev pub Spares : ℕ → Heap D → Heap D → Type 0
  Spares d st st' = (n : ℕ) → n < st.fresh → n ≢ d → st'.vars n ≡ st.vars n

  -- With nothing to copy, `d` has to be the last already.
  abbrev Ready : ℕ → List ℕ → Heap D → Type 0
  Ready d [] st = (st.vars d).next ≡ none
  Ready d (m ∷ ms) st = Unit

  -- The nodes that are to be copied.
  abbrev pub Source : ℕ → List ℕ → Heap D → Type 0
  Source d ms st = Lacks d ms × All (λ n. n < st.fresh) ms × All HasValue (cells st.vars ms)

  next_spared :
      (d : ℕ) (st st' : Heap D) (ms : List ℕ)
      → Spares d st st'
      → Lacks d ms
      → All (λ n. n < st.fresh) ms
      → All (λ n. (st'.vars n).next ≡ (st.vars n).next) ms
  next_spared d st st' [] spares _ _ = tt
  next_spared d st st' (m ∷ ms) spares (ne, lacks) (lt, below) =
      (ap (λ x. x.next) (spares m lt (λ e. ne (sym e))), next_spared d st st' ms spares lacks below)

  Ready-next : (d : ℕ) (ms : List ℕ) (st : Heap D) → (st.vars d).next ≡ none → Ready d ms st
  Ready-next d [] st e = e
  Ready-next d (m ∷ ms) st e = tt

  abbrev Copies : ℕ → ℕ → Option ℕ → ℕ → Option ℕ → List ℕ → Heap D → Type 0
  Copies fuel count new d p ms st =
      let copies = range st.fresh (length ms) in
      (st' : Heap D) × (copy_loop fuel count new d p st
        ≡ returned (count + length ms, last_copy new copies, st'))
      × Chain st'.vars (st'.vars d).next copies
      × (cells st'.vars copies ≡ cells st.vars ms)
      × Spares d st st'
      × (cell (st'.vars d) ≡ cell (st.vars d))

  copy_loop-Copies :
      (fuel count : ℕ) (new : Option ℕ) (d : ℕ) (p : Option ℕ) (ms : List ℕ) (st : Heap D)
      → Chain st.vars p ms
      → Source d ms st
      → Ready d ms st
      → d < st.fresh
      → length ms < fuel
      → Copies fuel count new d p ms st
  unfolding copy_loop
  copy_loop-Copies zero count new d p ms st chain source ready lt enough =
      absurd (omega (arith, enough))
  copy_loop-Copies (suc fuel) count new d p [] st e source ready lt enough = (
    st,
    rw e (ap (λ n. returned (n, new, st)) (omega arith)),
    ready,
    refl,
    λ n n_lt ne. refl,
    refl,
  )
  copy_loop-Copies (suc fuel) count new d p (s ∷ ms) st (ep, chain)
        ((ne, lacks), (s_lt, below), (hv, values)) ready lt enough =
      let (v, e, e', e'') = copied_lem d (st.vars s) hv in
      let st1 = link_copy d v st in
      let spares1 : Spares d st st1 = λ n n_lt n_ne. copy_other d v st n n_lt n_ne in
      let chain1 : Chain st1.vars (st1.vars s).next ms =
        subst (λ x. Chain st1.vars x.next ms) (sym (spares1 s s_lt (λ q. ne (sym q))))
          (Chain-same st.vars st1.vars (st.vars s).next ms
            (next_spared d st st1 ms spares1 lacks below) chain) in
      let (st', run, chain', cells', spares', cell') =
        copy_loop-Copies fuel (count + 1) (some st.fresh) st.fresh (st1.vars s).next ms st1 chain1
          (
            Lacks-fresh st.fresh ms below,
            below-more st.fresh (st.fresh + 1) ms (omega arith) below,
            subst (All HasValue) (sym (copy_cells d v st ms below)) values,
          )
          (Ready-next st.fresh ms st1 (ap (λ x. x.next) (copy_new d v st lt) ∙ e')) (omega arith)
          (omega (arith, enough)) in
      let d_kept : st'.vars d ≡ st1.vars d =
        spares' d (omega (arith, lt)) (λ q. omega (arith, lt, q)) in
      let copies = range (st.fresh + 1) (length ms) in
      (
        st',
        rw (ep, copy_loop, e)
            (run ∙ ap₂ (λ n l. returned (n, l, st')) (omega arith) (last_copy_lem st.fresh copies)),
        (ap (λ x. x.next) d_kept ∙ copy_next_d d v st lt, chain'),
        ap₂ (λ c cs. c ∷ cs) (cell' ∙ ap cell (copy_new d v st lt) ∙ e'')
            (cells' ∙ copy_cells d v st ms below),
        (λ n n_lt n_ne.
            spares' n (omega (arith, n_lt)) (λ q. omega (arith, n_lt, q)) ∙ spares1 n n_lt n_ne),
        ap cell d_kept ∙ copy_cell d v st d lt,
      )

  closed_next :
      (d count last : ℕ) (st : Heap D) (n : ℕ)
      → ((close_copy d (count, some last, st)).vars n).next ≡ (st.vars n).next
  closed_next d count last st n = ground arith

  closed_cell :
      (d count last : ℕ) (st : Heap D) (n : ℕ)
      → cell ((close_copy d (count, some last, st)).vars n) ≡ cell (st.vars n)
  closed_cell d count last st n = ground arith

  closed_other :
      (d count last : ℕ) (st : Heap D) (n : ℕ)
      → n ≢ d
      → (close_copy d (count, some last, st)).vars n ≡ st.vars n
  closed_other d count last st n ne = ground arith

  -- `copyarray` of a chain that is not empty and does not lead over `d`, with fuel for one round more
  -- than it has nodes.
  pub copyarray_lem :
      (fuel d s : ℕ) (ms : List ℕ) (st : Heap D)
      → Chain st.vars (some s) (s ∷ ms)
      → Source d (s ∷ ms) st
      → d < st.fresh
      → suc (length ms) < fuel
      → let copies = range st.fresh (suc (length ms)) in
        (st' : Heap D) × (copyarray fuel d (some s) st ≡ returned st')
        × Chain st'.vars (st'.vars d).next copies
        × (cells st'.vars copies ≡ cells st.vars (s ∷ ms))
        × Spares d st st'
        × (cell (st'.vars d) ≡ cell (st.vars d))
        × ((st'.vars d).count ≡ (st.vars d).count + suc (length ms))
  unfolding copyarray
  copyarray_lem fuel d s ms st chain source lt enough =
      let (st1, run, chain1, cells1, spares1, cell1) =
        copy_loop-Copies fuel (st.vars d).count none d (some s) (s ∷ ms) st chain source tt lt
          enough in
      let copies = range st.fresh (suc (length ms)) in
      let count = (st.vars d).count + suc (length ms) in
      let last = last_of st.fresh (range (st.fresh + 1) (length ms)) in
      let st' = close_copy d (count, some last, st1) in
      (
        st',
        ap (λ r. r >>= λ x. returned (close_copy d x)) run,
        rw (closed_next d count last st1 d) (
            Chain-same st1.vars st'.vars (st1.vars d).next copies
              (all copies (closed_next d count last st1)) chain1),
        cells-same st1.vars st'.vars copies (all copies (closed_cell d count last st1)) ∙ cells1,
        (λ n n_lt ne. closed_other d count last st1 n ne ∙ spares1 n n_lt ne),
        closed_cell d count last st1 d ∙ cell1,
        ground arith,
      )
