-- ===== src/Cond/Apart.antt =====
-- The nodes of the three stacks of src/cond.c stay apart, whatever tokens the handlers are given.
use goombaserver.Common.{◌≡◌, some, List, [], ◌∷◌, Option-cases, Bool-cases, inl, inr}
use goombaserver.Common.Int.{ℤ, pos, truth, ltb_ℤ}
use goombaserver.Nodes.{head}
use goombaserver.Nodes.Separate.{IsSeparate, push-IsSeparate, recycle-IsSeparate}
use goombaserver.Machine.{Item, Machine, Token, pop, pop_rest}
use goombaserver.Cond.{
  get_current_state, match_push, match_pop, cond_push, cond_pop, brace_push, brace_pop, if_handler,
  else_handler, elseif_handler, elseif_unmatched, endif_handler,
}
use goombaserver.Cond.Program.{
  Event, echo_event, if_event, else_event, elseif_event, endif_event, is_active, on_event,
  run_events,
}

module _ {D : Type 0} where
  pub record IsApart (m : Machine D) : Type 0 where
    pub conds_apart : IsSeparate m.conds
    pub matches_apart : IsSeparate m.matches
    pub braces_apart : IsSeparate m.braces

  cond_push-IsApart : (s a : ℤ) (m : Machine D) → IsApart m → IsApart (cond_push s a m)
  unfolding cond_push
  cond_push-IsApart s a m h = record {
    conds_apart = push-IsSeparate _ _ h.conds_apart;
    matches_apart = h.matches_apart;
    braces_apart = h.braces_apart;
  }

  match_push-IsApart : (v : ℤ) (m : Machine D) → IsApart m → IsApart (match_push v m)
  unfolding match_push
  match_push-IsApart v m h = record {
    conds_apart = h.conds_apart;
    matches_apart = push-IsSeparate _ _ h.matches_apart;
    braces_apart = h.braces_apart;
  }

  brace_push-IsApart : (t : Token) (m : Machine D) → IsApart m → IsApart (brace_push t m)
  unfolding brace_push
  brace_push-IsApart t m h = record {
    conds_apart = h.conds_apart;
    matches_apart = h.matches_apart;
    braces_apart = push-IsSeparate _ _ h.braces_apart;
  }

  cond_pop-IsApart : (m : Machine D) → IsApart m → IsApart (cond_pop m).1
  unfolding cond_pop
  cond_pop-IsApart m h = elim (Option-cases (head m.conds.live)) [
    | inl e ↦ rw (e, cond_pop) h
    | inr (top, e) ↦
        rw (e, cond_pop)
          (record {
            conds_apart = recycle-IsSeparate _ h.conds_apart;
            matches_apart = h.matches_apart;
            braces_apart = h.braces_apart;
          })
  ]

  match_pop-IsApart : (m : Machine D) → IsApart m → IsApart (match_pop m).1
  unfolding match_pop
  match_pop-IsApart m h = elim (Option-cases (head m.matches.live)) [
    | inl e ↦
        rw (e, match_pop)
          (record {
            conds_apart = h.conds_apart;
            matches_apart = h.matches_apart;
            braces_apart = h.braces_apart;
          })
    | inr (v, e) ↦
        rw (e, match_pop)
          (record {
            conds_apart = h.conds_apart;
            matches_apart = recycle-IsSeparate _ h.matches_apart;
            braces_apart = h.braces_apart;
          })
  ]

  brace_pop-IsApart : (m : Machine D) → IsApart m → IsApart (brace_pop m).1
  unfolding brace_pop
  brace_pop-IsApart m h = elim (Option-cases (head m.braces.live)) [
    | inl e ↦
        rw (e, brace_pop)
          (record {
            conds_apart = h.conds_apart;
            matches_apart = h.matches_apart;
            braces_apart = h.braces_apart;
          })
    | inr (v, e) ↦
        rw (e, brace_pop)
          (record {
            conds_apart = h.conds_apart;
            matches_apart = h.matches_apart;
            braces_apart = recycle-IsSeparate _ h.braces_apart;
          })
  ]

  expr-IsApart : (l : List (Item D)) (m : Machine D) → IsApart m → IsApart (record m { expr = l })
  expr-IsApart l m h = record {
    conds_apart = h.conds_apart;
    matches_apart = h.matches_apart;
    braces_apart = h.braces_apart;
  }

  errors-IsApart : (m : Machine D) (l : _) → IsApart m → IsApart (record m { errors = l })
  errors-IsApart m l h = record {
    conds_apart = h.conds_apart;
    matches_apart = h.matches_apart;
    braces_apart = h.braces_apart;
  }

  pop-IsApart :
      (m : Machine D) {s : Item D} {m' : Machine D} → pop m ≡ some (s, m') → IsApart m → IsApart m'
  pop-IsApart m e h = let (rest, same) = pop_rest m e in rw same (expr-IsApart rest m h)

  if-IsApart : (m : Machine D) → IsApart m → IsApart (if_handler m)
  unfolding if_handler
  if-IsApart m h = elim (Bool-cases (truth (get_current_state m).0)) [
    | inl t ↦ elim (Option-cases (pop m)) [
      | inl e ↦ rw t (rw e (errors-IsApart m _ h))
      | inr ((s, m'), e) ↦ rw t (
          rw e (
            brace_push-IsApart _ _
              (match_push-IsApart _ _ (cond_push-IsApart _ _ _ (pop-IsApart m e h)))))
    ]
    | inr f ↦ rw f (brace_push-IsApart _ _ (match_push-IsApart _ _ (cond_push-IsApart _ _ _ h)))
  ]

  else-IsApart : (m : Machine D) → IsApart m → IsApart (else_handler m)
  unfolding else_handler
  else-IsApart m h = elim (Bool-cases (ltb_ℤ (get_current_state m).1 (pos 0))) [
    | inl t ↦ rw t (errors-IsApart m _ h)
    | inr f ↦ rw f (elim (Bool-cases (truth (get_current_state m).1)) [
      | inl t ↦ rw t (
          match_push-IsApart _ _
            (cond_push-IsApart _ _ _ (match_pop-IsApart _ (cond_pop-IsApart m h))))
      | inr n ↦ rw n h
    ])
  ]

  unmatched-IsApart : (m : Machine D) → IsApart m → IsApart (elseif_unmatched m)
  unfolding elseif_unmatched
  unmatched-IsApart m h = elim (Option-cases (pop m)) [
    | inl e ↦ rw (e, elseif_unmatched) (errors-IsApart m _ h)
    | inr ((s, m'), e) ↦
        rw (e, elseif_unmatched)
          (match_push-IsApart _ _ (cond_push-IsApart _ _ _ (pop-IsApart m e h)))
  ]

  elseif_pops-IsApart : (m : Machine D) → IsApart m → IsApart (cond_pop (match_pop m).1).1
  elseif_pops-IsApart m h = cond_pop-IsApart _ (match_pop-IsApart m h)

  elseif-IsApart : (m : Machine D) → IsApart m → IsApart (elseif_handler m)
  unfolding elseif_handler
  elseif-IsApart m h = elim (Bool-cases (ltb_ℤ (get_current_state m).1 (pos 0))) [
    | inl t ↦ rw t (errors-IsApart m _ h)
    | inr f ↦ rw f (elim (Bool-cases (truth (get_current_state m).1)) [
      | inl t ↦ rw t (elim (Bool-cases (truth (match_pop m).0)) [
        | inl w ↦ rw w (cond_push-IsApart _ _ _ (match_push-IsApart _ _ (elseif_pops-IsApart m h)))
        | inr w ↦ rw w (unmatched-IsApart _ (elseif_pops-IsApart m h))
      ])
      | inr n ↦ rw n h
    ])
  ]

  endif-IsApart : (m : Machine D) → IsApart m → IsApart (endif_handler m)
  unfolding endif_handler
  endif-IsApart m h = brace_pop-IsApart _ (match_pop-IsApart _ (cond_pop-IsApart m h))

  event-IsApart : (e : Event D) (m : Machine D) → IsApart m → IsApart (on_event e m)
  unfolding on_event
  event-IsApart (echo_event n) m h = h
  event-IsApart (if_event s) m h = elim (Bool-cases (is_active m)) [
    | inl t ↦ rw t (if-IsApart _ (expr-IsApart _ m h))
    | inr f ↦ rw f (if-IsApart m h)
  ]
  event-IsApart else_event m h = else-IsApart m h
  event-IsApart (elseif_event s) m h = elseif-IsApart _ (expr-IsApart _ m h)
  event-IsApart endif_event m h = endif-IsApart m h

  -- However the tokens of conditionals follow one another, also wrongly nested, no two nodes of a
  -- stack and of its re-use stack come to share an address.
  pub run_events-IsApart :
      (es : List (Event D)) (m : Machine D) → IsApart m → IsApart (run_events es m)
  unfolding run_events
  run_events-IsApart [] m h = h
  run_events-IsApart (e ∷ es) m h = run_events-IsApart es (on_event e m) (event-IsApart e m h)
