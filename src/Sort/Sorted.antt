-- ===== src/Sort/Sorted.antt =====
-- What `Sort` of src/sort.c makes of an array of texts.
use mathlib.Core.List.{Perm}
use goombaserver.Common.{
  ℕ, zero, suc, ◌+◌, false, leb, ◌<◌, ◌≡◌, ◌≢◌, refl, sym, ap, ◌∙◌, subst, Option, some, List, [],
  ◌∷◌, Bytes, length, All, Lacks, Distinct, arith,
}
use goombaserver.Common.Int.{ℤ}
use goombaserver.Floats.{Floats, Doubles}
use goombaserver.Numerals.{atol}
use goombaserver.Machine.{string, VarTree, Item}
use goombaserver.Arrays.{returned, ◌>>=◌, Heap, modify}
use goombaserver.Arrays.Chain.{Chain, Chain-same}
use goombaserver.Sort.{room, comp_string, gather, set_text, scatter, sort_texts, sort}
use goombaserver.Sort.Contract.{MeetsContract, IsSorted, comp_string-IsComparison}

module _ {D : Type 0} where
  -- The nodes have the texts, in order.
  abbrev pub HaveTexts : (ℕ → VarTree D) → List ℕ → List Bytes → Type 0
  HaveTexts h [] [] = Unit
  HaveTexts h [] (t ∷ ts) = ⊥
  HaveTexts h (n ∷ ns) [] = ⊥
  HaveTexts h (n ∷ ns) (t ∷ ts) = ((h n).strval ≡ some t) × HaveTexts h ns ts

  -- The numbers of the nodes are those of the texts.
  abbrev pub HaveNumbers : (ℕ → VarTree D) → List ℕ → List Bytes → Type 0
  HaveNumbers h [] ts = Unit
  HaveNumbers h (n ∷ ns) [] = ⊥
  HaveNumbers h (n ∷ ns) (t ∷ ts) = ((h n).intval ≡ atol t) × HaveNumbers h ns ts

  -- What the sort leaves alone, the recorded length of the buffer with it.
  abbrev pub SamePlace : VarTree D → VarTree D → Type 0
  SamePlace v x =
      (v.iname ≡ x.iname) × (v.kind ≡ x.kind) × (v.next ≡ x.next) × (v.allocated ≡ x.allocated)

  texts_length :
      (h : ℕ → VarTree D) (ns : List ℕ) (ts : List Bytes)
      → HaveTexts h ns ts
      → length ts ≡ length ns
  texts_length h [] [] _ = refl
  texts_length h [] (t ∷ ts) texts = absurd texts
  texts_length h (n ∷ ns) [] texts = absurd texts
  texts_length h (n ∷ ns) (t ∷ ts) (_, texts) = ap suc (texts_length h ns ts texts)

  gather-Chain :
      (fuel count : ℕ) (h : ℕ → VarTree D) (p : Option ℕ) (ns : List ℕ) (ts : List Bytes)
      → Chain h p ns
      → HaveTexts h ns ts
      → length ns < fuel
      → count + length ns < room
      → gather fuel count h p ≡ returned ts
  unfolding gather
  gather-Chain zero count h p ns ts c texts lt small = absurd (omega (arith, lt))
  gather-Chain (suc fuel) count h p [] [] e texts lt small = rw e refl
  gather-Chain (suc fuel) count h p [] (t ∷ ts) e texts lt small = absurd texts
  gather-Chain (suc fuel) count h p (n ∷ ns) [] c texts lt small = absurd texts
  gather-Chain (suc fuel) count h p (n ∷ ns) (t ∷ ts) (e, c) (et, texts) lt small =
      rw (e, gather, et, has_room (suc count) (omega (arith, small)))
        (ap (λ r. r >>= λ us. returned (t ∷ us))
          (gather-Chain fuel (suc count) h (h n).next ns ts c texts (omega (arith, lt))
            (omega (arith, small))))
    where
      has_room : (n : ℕ) → n < room → leb room n ≡ false
      has_room n lt = ground (arith, lt)

module _ {D : Type 0} ⦃F : Floats D⦄ where
  text_same :
      (a : ℕ) (s : Bytes) (st : Heap D) (n : ℕ)
      → SamePlace ((modify a (set_text s) st).vars n) (st.vars n)
  text_same a s st n = (ground arith, ground arith, ground arith, ground arith)

  text_other :
      (a : ℕ) (s : Bytes) (st : Heap D) (n : ℕ)
      → a ≢ n
      → (modify a (set_text s) st).vars n ≡ st.vars n
  text_other a s st n ne = ground (arith, ne)

  text_here :
      (a : ℕ) (s : Bytes) (st : Heap D)
      → (((modify a (set_text s) st).vars a).strval ≡ some s)
        × (((modify a (set_text s) st).vars a).intval ≡ atol s)
  text_here a s st = (ground arith, ground arith)

  abbrev Scattered : List Bytes → List ℕ → Heap D → Heap D → Type 0
  Scattered ts ns st st' =
      HaveTexts st'.vars ns ts
      × HaveNumbers st'.vars ns ts
      × ((n : ℕ) → SamePlace (st'.vars n) (st.vars n))
      × ((n : ℕ) → Lacks n ns → st'.vars n ≡ st.vars n)

  nexts :
      (a : ℕ) (s : Bytes) (st : Heap D) (ns : List ℕ)
      → All (λ n. ((modify a (set_text s) st).vars n).next ≡ (st.vars n).next) ns
  nexts a s st [] = tt
  nexts a s st (n ∷ ns) = ((text_same a s st n).2, nexts a s st ns)

  scatter_lem :
      (ts : List Bytes) (p : Option ℕ) (ns : List ℕ) (st : Heap D)
      → Chain st.vars p ns
      → Distinct ns
      → length ts ≡ length ns
      → Scattered ts ns st (scatter ts p st)
  unfolding scatter
  scatter_lem [] p [] st e d l = (tt, tt, (λ n. (refl, refl, refl, refl)), λ n _. refl)
  scatter_lem [] p (n ∷ ns) st c d l = absurd (omega (arith, l))
  scatter_lem (s ∷ ts) p [] st c d l = absurd (omega (arith, l))
  scatter_lem (s ∷ ts) p (a ∷ ns) st (e, c) (lacks, d) l =
      let st1 = modify a (set_text s) st in
      let c1 : Chain st1.vars (st1.vars a).next ns =
        rw ((text_same a s st a).2)
          (Chain-same st.vars st1.vars (st.vars a).next ns (nexts a s st ns) c) in
      let (texts, numbers, same, others) =
        scatter_lem ts (st1.vars a).next ns st1 c1 d (omega (arith, l)) in
      subst (λ q. Scattered (s ∷ ts) (a ∷ ns) st (scatter (s ∷ ts) q st)) (sym e)
        (
          (ap (λ x. x.strval) (others a lacks) ∙ (text_here a s st).0, texts),
          (ap (λ x. x.intval) (others a lacks) ∙ (text_here a s st).1, numbers),
          (λ n.
              let (i, k, x, b) = same n in
              let (i', k', x', b') = text_same a s st n in (i ∙ i', k ∙ k', x ∙ x', b ∙ b')),
          λ n ls. others n ls.1 ∙ text_other a s st n (λ q. ls.0 (sym q)),
        )

module _ {D : Type 0} ⦃F : Floats D⦄ ⦃X : Doubles D⦄
    (qsort : (Bytes → Bytes → ℤ) → List Bytes → List Bytes) where
  -- `sort($a)` of an array of less than 1024 texts, with a `qsort` that does what the C library says: the elements then
  -- have the same texts in the order of `strcmp`, and the numbers of these texts. The nodes stay in
  -- their order with their indices and types, and with the lengths of their buffers, though the buffers
  -- have changed places.
  pub sort-IsSorted :
      (fuel : ℕ) (s : Item D) (t : ℕ) (ns : List ℕ) (ts : List Bytes) (st : Heap D)
      → MeetsContract qsort
      → s.var ≡ some t
      → Chain st.vars (some t) (t ∷ ns)
      → Distinct (t ∷ ns)
      → HaveTexts st.vars (t ∷ ns) ts
      → (st.vars t).kind ≡ string
      → suc (length ns) < fuel
      → suc (length ns) < room
      → (st' : Heap D) × (us : List Bytes) × (sort qsort fuel s st ≡ returned st')
        × HaveTexts st'.vars (t ∷ ns) us
        × HaveNumbers st'.vars (t ∷ ns) us
        × Perm ts us
        × IsSorted comp_string us
        × ((n : ℕ) → SamePlace (st'.vars n) (st.vars n))
  unfolding sort sort_texts
  sort-IsSorted fuel s t ns ts st meets var chain d texts k lt small =
      let (perm, len, sorted) = meets comp_string ts in
      let us = qsort comp_string ts in
      let (texts', numbers', same, _) =
        scatter_lem us (some t) (t ∷ ns) st chain d
          (len ∙ texts_length st.vars (t ∷ ns) ts texts) in
      (
        scatter us (some t) st,
        us,
        rw (sort, var)
            (ap
                (λ r. r >>= λ xs.
                  returned (scatter (sort_texts D qsort (st.vars t).kind xs) (some t) st))
                (gather-Chain fuel 0 st.vars (some t) (t ∷ ns) ts chain texts lt
                  (omega (arith, small)))
              ∙ ap (λ q. returned (scatter (sort_texts D qsort q ts) (some t) st)) k),
        texts',
        numbers',
        perm,
        sorted comp_string-IsComparison,
        same,
      )
