-- ===== src/Arrays/Cursor/Traverse.antt =====
-- A script's walk over an array with `Reset`, `Key` and `Next` of src/var.c.
use goombaserver.Common.{
  ℕ, zero, suc, ◌≡◌, refl, ap, ap₂, ◌∙◌, some, List, [], ◌∷◌, length, All, arith,
}
use goombaserver.Machine.{string, Link, VarTree}
use goombaserver.Arrays.{Heap}
use goombaserver.Arrays.Chain.{Chain, Chain-same}
use goombaserver.Arrays.Cursor.{Pushed, push_empty, push_value, set_lacc, reset, key, next}

module _ {D : Type 0} where
  -- `n` rounds of a script's loop: `key($a)` and `next($a)`.
  abbrev pub visit : ℕ → ℕ → Heap D → List (Pushed × Pushed) × Heap D
  visit zero t st = ([], st)
  visit (suc n) t st =
      let (v, st') = next t st in let (rest, st'') = visit n t st' in ((key t st, v) ∷ rest, st'')

  abbrev pub index_of : ℕ → (ℕ → VarTree D) → Pushed
  index_of n h = record { text = (h n).iname; kind = string }

  -- The indices and the values of some nodes.
  abbrev pub pairs : (ℕ → VarTree D) → List ℕ → List (Pushed × Pushed)
  pairs h [] = []
  pairs h (n ∷ ns) = (index_of n h, push_value (h n)) ∷ pairs h ns

  -- The node that `Next` goes to, unless it has gone over the end.
  abbrev Ahead : ℕ → Link → (ℕ → VarTree D) → List ℕ → Type 0
  Ahead t Link.null h ms = ⊥
  Ahead t Link.start h ms = Chain h (some t) ms
  Ahead t (Link.node a) h ms = Chain h (h a).next ms

  lacc_here : (t : ℕ) (l : Link) (st : Heap D) → ((set_lacc t l st).vars t).lacc ≡ l
  lacc_here t l st = ground arith

  next_kept :
      (t : ℕ) (l : Link) (st : Heap D) (n : ℕ) → ((set_lacc t l st).vars n).next ≡ (st.vars n).next
  next_kept t l st n = ground arith

  value_kept :
      (t : ℕ) (l : Link) (st : Heap D) (n : ℕ)
      → push_value ((set_lacc t l st).vars n) ≡ push_value (st.vars n)
  value_kept t l st n = ground arith

  index_kept :
      (t : ℕ) (l : Link) (st : Heap D) (n : ℕ)
      → index_of n (set_lacc t l st).vars ≡ index_of n st.vars
  index_kept t l st n = ground arith

  pairs_kept :
      (t : ℕ) (l : Link) (st : Heap D) (ns : List ℕ)
      → pairs (set_lacc t l st).vars ns ≡ pairs st.vars ns
  pairs_kept t l st [] = refl
  pairs_kept t l st (n ∷ ns) =
      ap₂ (λ x xs. x ∷ xs) (ap₂ (λ x y. (x, y)) (index_kept t l st n) (value_kept t l st n))
        (pairs_kept t l st ns)

  nexts_kept :
      (t : ℕ) (l : Link) (st : Heap D) (ns : List ℕ)
      → All (λ n. ((set_lacc t l st).vars n).next ≡ (st.vars n).next) ns
  nexts_kept t l st [] = tt
  nexts_kept t l st (n ∷ ns) = (next_kept t l st n, nexts_kept t l st ns)

  -- One round, where there is a node ahead.
  round :
      (t : ℕ) (l : Link) (st : Heap D) (m : ℕ) (ms : List ℕ)
      → (st.vars t).lacc ≡ l
      → Ahead t l st.vars (m ∷ ms)
      → (key t st ≡ index_of m st.vars)
        × (next t st ≡ (push_value (st.vars m), set_lacc t (Link.node m) st))
        × Chain st.vars (st.vars m).next ms
  unfolding key next
  round t Link.null st m ms e h = absurd h
  round t Link.start st m ms e (h, c) =
      let same : t ≡ m = ground (arith, h) in
      (
        rw (key, e) (ap (λ n. index_of n st.vars) same),
        rw (next, e) (ap (λ n. (push_value (st.vars n), set_lacc t (Link.node n) st)) same),
        c,
      )
  round t (Link.node a) st m ms e (h, c) = (rw (key, e, h) refl, rw (next, e, h) refl, c)

  -- Where nothing is ahead, and `Next` has not gone over the end yet.
  over_end :
      (t : ℕ) (l : Link) (st : Heap D)
      → (st.vars t).lacc ≡ l
      → Ahead t l st.vars []
      → (key t st ≡ push_empty) × (next t st ≡ (push_empty, set_lacc t Link.null st))
  unfolding key next
  over_end t Link.null st e h = absurd h
  over_end t Link.start st e h = absurd (ground (arith, h))
  over_end t (Link.node a) st e h = (rw (key, e, h) refl, rw (next, e, h) refl)

  key_behind : (t : ℕ) (st : Heap D) → key t (set_lacc t Link.null st) ≡ index_of t st.vars
  unfolding key
  key_behind t st = rw (key, lacc_here t Link.null st) (index_kept t Link.null st t)

  -- The rest of the walk, and what comes behind it.
  abbrev Walk : ℕ → Heap D → List ℕ → Type 0
  Walk t st ms =
      (st' : Heap D) × (visit (length ms) t st ≡ (pairs st.vars ms, st'))
      × (key t st' ≡ push_empty)
      × ((next t st').0 ≡ push_empty)
      × (key t (next t st').1 ≡ index_of t st.vars)

  visit_lem :
      (t : ℕ) (l : Link) (st : Heap D) (ms : List ℕ)
      → (st.vars t).lacc ≡ l
      → Ahead t l st.vars ms
      → Walk t st ms
  visit_lem t l st [] e h =
      let (k, n) = over_end t l st e h in
      (st, refl, k, ap (λ x. x.0) n, ap (λ x. key t x.1) n ∙ key_behind t st)
  visit_lem t l st (m ∷ ms) e h =
      let (k, n, c) = round t l st m ms e h in
      let st1 = set_lacc t (Link.node m) st in
      let ahead : Chain st1.vars (st1.vars m).next ms =
        rw (next_kept t (Link.node m) st m)
          (Chain-same st.vars st1.vars (st.vars m).next ms (nexts_kept t (Link.node m) st ms) c) in
      let (st', v, k', n', k'') =
        visit_lem t (Link.node m) st1 ms (lacc_here t (Link.node m) st) ahead in
      (
        st',
        ap (λ x. let (rest, s) = visit (length ms) t x.1 in ((key t st, x.0) ∷ rest, s)) n
            ∙ ap (λ x. ((key t st, push_value (st.vars m)) ∷ x.0, x.1)) v
            ∙ ap₂ (λ i ps. ((i, push_value (st.vars m)) ∷ ps, st')) k
                (pairs_kept t (Link.node m) st ms),
        k',
        n',
        k'' ∙ index_kept t (Link.node m) st t,
      )

  -- From `reset($a)` on, a loop over `key($a)` and `next($a)` gives the index and the value of each
  -- element of the array, in order; then both give the empty text. But one more `key($a)`, after
  -- `next($a)` has gone over the end, gives the index of the first element again.
  pub visit-reset :
      (t : ℕ) (st : Heap D) (ns : List ℕ)
      → Chain st.vars (some t) (t ∷ ns)
      → let (first, st0) = reset t st in
        (first ≡ push_value (st.vars t))
        × ((st' : Heap D) × (visit (length (t ∷ ns)) t st0 ≡ (pairs st.vars (t ∷ ns), st'))
            × (key t st' ≡ push_empty)
            × ((next t st').0 ≡ push_empty)
            × (key t (next t st').1 ≡ index_of t st.vars))
  unfolding reset
  visit-reset t st ns c =
      let st0 = set_lacc t Link.start st in
      let (st', v, k, n, k') =
        visit_lem t Link.start st0 (t ∷ ns) (lacc_here t Link.start st)
          (Chain-same st.vars st0.vars (some t) (t ∷ ns) (nexts_kept t Link.start st (t ∷ ns)) c) in
      (
        refl,
        (
          st',
          v ∙ ap (λ ps. (ps, st')) (pairs_kept t Link.start st (t ∷ ns)),
          k,
          n,
          k' ∙ index_kept t Link.start st t,
        ),
      )
