-- ===== src/Vars/Lookup.antt =====
-- What `SetVar` of src/var.c stores under a name, `GetVar` finds under it.
use goombaserver.Common.{
  ◌≡◌, ◌≢◌, refl, sym, ap, ap₂, Bool, if◌then◌else◌, ◌>>=◌, ◌∙◌, Option, none, some, [], ◌∷◌, Bytes,
  ◌⊎◌, inl, inr, arith,
}
use goombaserver.Vars.{
  Tree, null, node, Side, left, here, right, compare_names, find_node, get_node, set_node,
}

compare_here : (s t : Bytes) → compare_names s t ≡ here → s ≡ t
unfolding compare_names
compare_here [] [] e = refl
compare_here [] (d ∷ t) e = ground arith
compare_here (c ∷ s) [] e = ground arith
compare_here (c ∷ s) (d ∷ t) e = ap₂ (λ x l. x ∷ l) (ground arith) (compare_here s t (ground arith))

compare_same : (s : Bytes) → compare_names s s ≡ here
unfolding compare_names
compare_same [] = refl
compare_same (c ∷ s) = grind (arith, compare_same s)

Side-cases : (x : Side) → (x ≡ left) ⊎ ((x ≡ here) ⊎ (x ≡ right))
Side-cases left = inl refl
Side-cases here = inr (inl refl)
Side-cases right = inr (inr refl)

module _ {A : Type 0} where
  -- What stands under the name afterwards: the changed value, or the new one.
  abbrev pub changed : A → (A → A) → Option A → A
  changed new change none = new
  changed new change (some a) = change a

  find_set_same :
      (s : Bytes) (new : A) (change : A → A) (t : Tree A)
      → find_node s (set_node s new change t) ≡ some (changed new change (find_node s t))
  unfolding find_node set_node
  find_set_same s new change null = rw (compare_same s, find_node) refl
  find_set_same s new change (node l name a r) = elim (Side-cases (compare_names s name)) [
    | inl e ↦ rw (e, find_node, set_node) (rw e (find_set_same s new change l))
    | inr (inl e) ↦ rw (e, find_node, set_node) (rw e refl)
    | inr (inr e) ↦ rw (e, find_node, set_node) (rw e (find_set_same s new change r))
  ]

  find_set_other :
      (s s' : Bytes) (new : A) (change : A → A) (t : Tree A)
      → s' ≢ s
      → find_node s' (set_node s new change t) ≡ find_node s' t
  unfolding find_node set_node
  find_set_other s s' new change null ne = elim (Side-cases (compare_names s' s)) [
    | inl e ↦ rw (e, find_node) refl
    | inr (inl e) ↦ absurd (ne (compare_here s' s e))
    | inr (inr e) ↦ rw (e, find_node) refl
  ]
  find_set_other s s' new change (node l name a r) ne = elim (Side-cases (compare_names s name)) [
    | inl e ↦
        rw (e, set_node)
          (elim (Side-cases (compare_names s' name)) [
            | inl f ↦ rw (f, find_node) (find_set_other s s' new change l ne)
            | inr (inl f) ↦ rw (f, find_node) refl
            | inr (inr f) ↦ rw (f, find_node) refl
          ])
    | inr (inl e) ↦
        rw (e, set_node)
          (elim (Side-cases (compare_names s' name)) [
            | inl f ↦ rw (f, find_node) refl
            | inr (inl f) ↦ absurd (ne (compare_here s' name f ∙ sym (compare_here s name e)))
            | inr (inr f) ↦ rw (f, find_node) refl
          ])
    | inr (inr e) ↦
        rw (e, set_node)
          (elim (Side-cases (compare_names s' name)) [
            | inl f ↦ rw (f, find_node) refl
            | inr (inl f) ↦ rw (f, find_node) refl
            | inr (inr f) ↦ rw (f, find_node) (find_set_other s s' new change r ne)
          ])
  ]

  -- After `SetVar` of a name, in a tree of any shape, `GetVar` of the name gives the changed node, or
  -- the new one if there was none, where that is not hidden, and nothing where it is; a node that was
  -- hidden is found and changed by `SetVar` all the same. `GetVar` of any other name gives what it
  -- gave before. This is for code of the page itself and names without a leading dollar sign, and
  -- the environment is left out.
  pub get_node-set_node :
      (hidden : A → Bool) (s s' : Bytes) (new : A) (change : A → A) (t : Tree A)
      → s' ≢ s
      → let a = changed new change (find_node s t) in
        (get_node hidden s (set_node s new change t) ≡ (if hidden a then none else some a))
        × (get_node hidden s' (set_node s new change t) ≡ get_node hidden s' t)
  unfolding get_node
  get_node-set_node hidden s s' new change t ne = (
    ap (λ o. o >>= λ a. if hidden a then none else some a) (find_set_same s new change t),
    ap (λ o. o >>= λ a. if hidden a then none else some a) (find_set_other s s' new change t ne),
  )
