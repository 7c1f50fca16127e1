-- ===== src/Arrays/Find.antt =====
-- `$a[index]` in src/var.c, as a lookup in a list.
use goombaserver.Common.{
  ℕ, zero, suc, ◌<◌, ◌≡◌, ◌≢◌, refl, sym, ap, ap₂, ◌∙◌, true, false, Bool-cases, Option, none, some,
  Option-cases, List, [], ◌∷◌, Bytes, length, All, arith, inl, inr, if◌then◌else◌, bytes_eq,
}
use goombaserver.Machine.{VarTree, Item}
use goombaserver.Arrays.{
  Run, returned, ◌>>=◌, Heap, find_index, found_element, get_index, is_hidden,
}
use goombaserver.Arrays.Chain.{Chain, IsArray}
use goombaserver.Arrays.Lists.{Cell, cell, cells, entry, assign, lookup, matches}

bytes_eq_sound : (s t : Bytes) → bytes_eq s t ≡ true → s ≡ t
unfolding bytes_eq
bytes_eq_sound [] [] e = refl
bytes_eq_sound [] (d ∷ t) e = ground (arith, e)
bytes_eq_sound (c ∷ s) [] e = ground (arith, e)
bytes_eq_sound (c ∷ s) (d ∷ t) e =
    ap₂ (λ x l. x ∷ l) (ground (arith, e)) (bytes_eq_sound s t (ground (arith, e)))

bytes_eq_refl : (s : Bytes) → bytes_eq s s ≡ true
unfolding bytes_eq
bytes_eq_refl [] = refl
bytes_eq_refl (c ∷ s) = grind (arith, bytes_eq_refl s)

module _ {D : Type 0} where
  -- Every element has an index.
  abbrev pub Keyed : List (Cell D) → Type 0
  Keyed = All (λ c. (k : Bytes) × (c.key ≡ some k))

  matched : (index : Bytes) (c : Cell D) → matches index c ≡ true → c.key ≡ some index
  matched index c e = elim (Option-cases c.key) [
    | inl k ↦ absurd (ground (arith, e, k))
    | inr (k, e') ↦ e' ∙ ap some (bytes_eq_sound k index (ground (arith, e, e')))
  ]

  unmatched :
      (index other : Bytes) (c : Cell D)
      → matches index c ≡ true
      → other ≢ index
      → matches other c ≡ false
  unmatched index other c e ne = elim (Bool-cases (matches other c)) [
    | inl m ↦
        let same = sym (matched other c m) ∙ matched index c e in absurd (ne (ground (arith, same)))
    | inr m ↦ m
  ]

  pub lookup_same :
      (index : Bytes) (b : Item D) (cs : List (Cell D))
      → lookup index (assign index b cs) ≡ some (entry index b)
  unfolding lookup assign
  lookup_same index b [] = rw (bytes_eq_refl index) refl
  lookup_same index b (c ∷ cs) = elim (Bool-cases (matches index c)) [
    | inl m ↦ rw m (rw m (ap (λ k. some (record (entry index b) { key = k })) (matched index c m)))
    | inr m ↦ rw m (rw m (lookup_same index b cs))
  ]

  pub lookup_other :
      (index other : Bytes) (b : Item D) (cs : List (Cell D))
      → other ≢ index
      → lookup other (assign index b cs) ≡ lookup other cs
  unfolding lookup assign
  lookup_other index other b [] ne = elim (Bool-cases (bytes_eq index other)) [
    | inl m ↦ absurd (ne (sym (bytes_eq_sound index other m)))
    | inr m ↦ rw m refl
  ]
  lookup_other index other b (c ∷ cs) ne = elim (Bool-cases (matches index c)) [
    | inl m ↦ rw m (let f = unmatched index other c m ne in rw f refl)
    | inr m ↦
        rw m
          (ap (λ rest. if matches other c then some c else rest) (lookup_other index other b cs ne))
  ]

  pub Keyed-assign :
      (index : Bytes) (b : Item D) (cs : List (Cell D)) → Keyed cs → Keyed (assign index b cs)
  unfolding assign
  Keyed-assign index b [] _ = ((index, refl), tt)
  Keyed-assign index b (c ∷ cs) (k, keyed) = elim (Bool-cases (matches index c)) [
    | inl m ↦ rw m (k, keyed)
    | inr m ↦ rw m (k, Keyed-assign index b cs keyed)
  ]

  abbrev pub cell_at : (ℕ → VarTree D) → Option ℕ → Option (Cell D)
  cell_at h none = none
  cell_at h (some a) = some (cell (h a))

  key_matches :
      (index : Bytes) (c : Cell D) (k : Bytes) → c.key ≡ some k → matches index c ≡ bytes_eq k index
  key_matches index c k e = rw e refl

  find_index-cells :
      (fuel : ℕ) (h : ℕ → VarTree D) (index : Bytes) (p : Option ℕ) (ns : List ℕ)
      → Chain h p ns
      → Keyed (cells h ns)
      → length ns < fuel
      → (r : Option ℕ) × (find_index fuel h index p ≡ returned r)
        × (cell_at h r ≡ lookup index (cells h ns))
  unfolding find_index lookup
  find_index-cells zero h index p ns c keyed lt = absurd (omega (arith, lt))
  find_index-cells (suc fuel) h index p [] e keyed lt = (none, rw e refl, refl)
  find_index-cells (suc fuel) h index p (a ∷ ns) (e, c) ((k, ek), keyed) lt =
      let (r, e', e'') = find_index-cells fuel h index (h a).next ns c keyed (omega (arith, lt)) in
      elim (Bool-cases (bytes_eq k index)) [
        | inl m ↦ (
          some a,
          rw (e, find_index, ek, m) refl,
          rw (key_matches index (cell (h a)) k ek ∙ m) refl,
        )
        | inr m ↦
            (r, rw (e, find_index, ek, m) e', rw (key_matches index (cell (h a)) k ek ∙ m) e'')
      ]

  abbrev pub result_cell : Option ℕ × Heap D → Run (Option (Cell D))
  result_cell (a, st) = returned (cell_at st.vars a)

  -- What `$a[index]` gives: a value, or nothing.
  abbrev pub value_at : ℕ → Bytes → ℕ → Heap D → Run (Option (Cell D))
  value_at fuel index t st = get_index fuel index t st >>= result_cell

  found_cell :
      (t : ℕ) (st : Heap D) (r : Option ℕ)
      → (found_element t st r >>= result_cell) ≡ returned (cell_at st.vars r)
  found_cell t st none = refl
  found_cell t st (some a) = ground arith

  pub value_at-lookup :
      (fuel : ℕ) (index : Bytes) (t : ℕ) (st : Heap D) (ns : List ℕ)
      → IsArray st t ns
      → Keyed (cells st.vars (t ∷ ns))
      → is_hidden (st.vars t) ≡ false
      → suc (length ns) < fuel
      → value_at fuel index t st ≡ returned (lookup index (cells st.vars (t ∷ ns)))
  unfolding get_index
  value_at-lookup fuel index t st ns array keyed live lt =
      let (r, e, e') = find_index-cells fuel st.vars index (some t) (t ∷ ns) array.0 keyed lt in
      ap
        (λ d.
          (if d
            then returned (none, st)
            else find_index fuel st.vars index (some t) >>= found_element t st)
          >>= result_cell)
        live
      ∙ ap (λ q. q >>= found_element t st >>= result_cell) e
      ∙ found_cell t st r
      ∙ ap returned e'
