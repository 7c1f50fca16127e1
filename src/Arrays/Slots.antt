-- ===== src/Arrays/Slots.antt =====
-- The two searches for an index in src/var.c, that of `SetVar` and that of `GetVar`, on the nodes of
-- an array.
use goombaserver.Common.{
  ℕ, zero, suc, ◌<◌, ◌≡◌, ◌≢◌, refl, sym, ap, ap₂, ◌∙◌, subst, Bool-cases, Option, none, some, List,
  [], ◌∷◌, ◌++◌, Bytes, length, Lacks, Distinct, arith, inl, inr, if◌then◌else◌,
}
use goombaserver.Machine.{VarTree, Item}
use goombaserver.Arrays.{returned, update, has_index, find_slot}
use goombaserver.Arrays.Chain.{last_of, Chain}
use goombaserver.Arrays.Lists.{cells, cell, Cell, entry, assign}

module _ {D : Type 0} where
  -- What the search of `SetVar` gives for the nodes `ns` behind `last`.
  unfoldable pub slot_of : (ℕ → VarTree D) → Bytes → ℕ → List ℕ → ℕ × Option ℕ
  slot_of h index last [] = (last, none)
  slot_of h index last (a ∷ ns) =
      let rest = slot_of h index a ns in if has_index index (h a) then (last, some a) else rest

  pub find_slot-Chain :
      (fuel : ℕ) (h : ℕ → VarTree D) (index : Bytes) (last : ℕ) (p : Option ℕ) (ns : List ℕ)
      → Chain h p ns
      → length ns < fuel
      → find_slot fuel h index last p ≡ returned (slot_of h index last ns)
  unfolding find_slot slot_of
  find_slot-Chain zero h index last p ns c lt = absurd (omega (arith, lt))
  find_slot-Chain (suc fuel) h index last p [] e lt = rw e refl
  find_slot-Chain (suc fuel) h index last p (a ∷ ns) (e, c) lt =
      let ih = find_slot-Chain fuel h index a (h a).next ns c (omega (arith, lt)) in
      rw e (elim (Bool-cases (has_index index (h a))) [ inl i ↦ rw i refl | inr i ↦ rw i ih ])

  -- Where no node has the index, the assignment is a new entry at the end.
  pub slot_none :
      (h : ℕ → VarTree D) (index : Bytes) (b : Item D) (last l : ℕ) (ns : List ℕ)
      → slot_of h index last ns ≡ (l, none)
      → (l ≡ last_of last ns) × (assign index b (cells h ns) ≡ cells h ns ++ entry index b ∷ [])
  unfolding slot_of assign
  slot_none h index b last l [] e = (ground (arith, e), refl)
  slot_none h index b last l (a ∷ ns) e = elim (Bool-cases (has_index index (h a))) [
    | inl i ↦ absurd (ground (arith, e, i))
    | inr i ↦
        let (e', e'') = slot_none h index b a l ns (ground (arith, e, i)) in
        (e', rw i (ap (λ cs. cell (h a) ∷ cs) e''))
  ]

  update_here :
      (h : ℕ → VarTree D) (a : ℕ) (v : VarTree D) (n : ℕ) → n ≡ a → cell (update a v h n) ≡ cell v
  update_here h a v n e = ground (arith, e)

  update_other :
      (h : ℕ → VarTree D) (a : ℕ) (v : VarTree D) (n : ℕ)
      → n ≢ a
      → cell (update a v h n) ≡ cell (h n)
  update_other h a v n ne = ground (arith, ne)

  cells_other :
      (h : ℕ → VarTree D) (a : ℕ) (v : VarTree D) (ns : List ℕ)
      → Lacks a ns
      → cells (update a v h) ns ≡ cells h ns
  cells_other h a v [] _ = refl
  cells_other h a v (n ∷ ns) (ne, lacks) =
      ap₂ (λ c cs. c ∷ cs) (update_other h a v n (λ e. ne (sym e))) (cells_other h a v ns lacks)

  -- The node that is found is among the nodes.
  slot_of-Lacks :
      (h : ℕ → VarTree D) (index : Bytes) (m last l a : ℕ) (ns : List ℕ)
      → slot_of h index last ns ≡ (l, some a)
      → Lacks m ns
      → m ≢ a
  unfolding slot_of
  slot_of-Lacks h index m last l a [] e lacks = absurd (ground (arith, e))
  slot_of-Lacks h index m last l a (n ∷ ns) e (ne, lacks) =
      elim (Bool-cases (has_index index (h n))) [
        | inl i ↦ λ e'. ne (e' ∙ ground (arith, e, i))
        | inr i ↦ slot_of-Lacks h index m n l a ns (ground (arith, e, i)) lacks
      ]

  abbrev key_of : (ℕ → VarTree D) → Bytes → Item D → ℕ → Cell D
  key_of h index b m = record (entry index b) { key = (h m).iname }

  -- Where a node has it, the entry of that node is changed.
  pub slot_some :
      (h : ℕ → VarTree D) (index : Bytes) (b : Item D) (last l a : ℕ) (v : VarTree D) (ns : List ℕ)
      → slot_of h index last ns ≡ (l, some a)
      → Distinct ns
      → cell v ≡ record (entry index b) { key = (h a).iname }
      → cells (update a v h) ns ≡ assign index b (cells h ns)
  unfolding slot_of assign
  slot_some h index b last l a v [] e d ev = absurd (ground (arith, e))
  slot_some h index b last l a v (n ∷ ns) e (lacks, d) ev =
      elim (Bool-cases (has_index index (h n))) [
        | inl i ↦
            let same : n ≡ a = ground (arith, e, i) in
            rw i (
              ap₂ (λ c cs. c ∷ cs)
                (update_here h a v n same ∙ ev ∙ ap (λ m. key_of h index b m) (sym same))
                (cells_other h a v ns (subst (λ m. Lacks m ns) same lacks)))
        | inr i ↦
            let ih = slot_some h index b n l a v ns (ground (arith, e, i)) d ev in
            rw i (
              ap₂ (λ c cs. c ∷ cs)
                (update_other h a v n
                  (slot_of-Lacks h index n n l a ns (ground (arith, e, i)) lacks))
                ih)
      ]
