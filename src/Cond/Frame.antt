-- ===== src/Cond/Frame.antt =====
-- The handlers of conditionals leave the loops, the switches and the reading position alone.
use goombaserver.Common.{◌≡◌, refl, ◌∙◌, some, List, [], ◌∷◌, arith}
use goombaserver.Machine.{Machine, Item, pop}
use goombaserver.Cond.{
  match_push, match_pop, cond_push, cond_pop, brace_push, brace_pop, if_handler, else_handler,
  elseif_handler, elseif_unmatched, endif_handler,
}
use goombaserver.Cond.Program.{
  Event, echo_event, if_event, else_event, elseif_event, endif_event, on_event, run_events,
  with_value,
}

module _ {D : Type 0} where
  abbrev pub Keeps : Machine D → Machine D → Type 0
  Keeps m m' = (m'.whiles ≡ m.whiles) × (m'.lexer ≡ m.lexer) × (m'.switches ≡ m.switches)

  pop-Keeps : (m : Machine D) {s : Item D} {m' : Machine D} → pop m ≡ some (s, m') → Keeps m m'
  unfolding pop
  pop-Keeps m e = ground arith

  cond_pop-Keeps : (m : Machine D) → Keeps m (cond_pop m).1
  unfolding cond_pop
  cond_pop-Keeps m = ground arith

  match_pop-Keeps : (m : Machine D) → Keeps m (match_pop m).1
  unfolding match_pop
  match_pop-Keeps m = ground arith

  brace_pop-Keeps : (m : Machine D) → Keeps m (brace_pop m).1
  unfolding brace_pop
  brace_pop-Keeps m = ground arith

  if-Keeps : (m : Machine D) → Keeps m (if_handler m)
  unfolding if_handler match_push cond_push brace_push pop
  if-Keeps m = ground arith

  else-Keeps : (m : Machine D) → Keeps m (else_handler m)
  unfolding else_handler match_push cond_push
  else-Keeps m = ground (arith, cond_pop-Keeps m, match_pop-Keeps (cond_pop m).1)

  unmatched-Keeps : (m : Machine D) → Keeps m (elseif_unmatched m)
  unfolding elseif_unmatched match_push cond_push pop
  unmatched-Keeps m = ground arith

  elseif-Keeps : (m : Machine D) → Keeps m (elseif_handler m)
  unfolding elseif_handler match_push cond_push
  elseif-Keeps m = ground (
    arith,
    match_pop-Keeps m,
    cond_pop-Keeps (match_pop m).1,
    unmatched-Keeps (cond_pop (match_pop m).1).1,
  )

  endif-Keeps : (m : Machine D) → Keeps m (endif_handler m)
  unfolding endif_handler
  endif-Keeps m =
      let (w, l, s) = cond_pop-Keeps m in
      let (w', l', s') = match_pop-Keeps (cond_pop m).1 in
      let (w'', l'', s'') = brace_pop-Keeps (match_pop (cond_pop m).1).1 in
      (w'' ∙ w' ∙ w, l'' ∙ l' ∙ l, s'' ∙ s' ∙ s)

  event-Keeps : (e : Event D) (m : Machine D) → Keeps m (on_event e m)
  unfolding on_event
  event-Keeps (echo_event n) m = (refl, refl, refl)
  event-Keeps (if_event s) m = ground (arith, if-Keeps m, if-Keeps (with_value s m))
  event-Keeps else_event m = else-Keeps m
  event-Keeps (elseif_event s) m = elseif-Keeps (with_value s m)
  event-Keeps endif_event m = endif-Keeps m

  pub run_events-Keeps : (es : List (Event D)) (m : Machine D) → Keeps m (run_events es m)
  unfolding run_events
  run_events-Keeps [] m = (refl, refl, refl)
  run_events-Keeps (e ∷ es) m =
      let (w, l, s) = event-Keeps e m in
      let (w', l', s') = run_events-Keeps es (on_event e m) in (w' ∙ w, l' ∙ l, s' ∙ s)
