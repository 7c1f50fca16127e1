-- ===== src/Cond/Opened.antt =====
-- What one token of a conditional does to a machine whose stacks are known up to that conditional.
use goombaserver.Common.{
  ℕ, ◌≡◌, refl, sym, ap, ◌∙◌, subst, true, false, not, List, [], ◌∷◌, ◌++◌, append_assoc,
  if◌then◌else◌,
}
use goombaserver.Common.Int.{ℤ, pos, negsuc, truth, of_bool}
use goombaserver.Nodes.{Nodes, push, recycle}
use goombaserver.Nodes.Live.{fresh, push_live, recycle_live}
use goombaserver.Machine.{Item, CondStack, end_if, Machine, pop}
use goombaserver.Cond.{
  get_current_state, check_cond, match_push, cond_push, brace_push, if_handler, else_handler,
  elseif_handler, elseif_unmatched,
}
use goombaserver.Cond.Steps.{
  cond_node, get_current_state_top, else_step, elseif_step_matched, elseif_step_unmatched,
  endif_step,
}
use goombaserver.Cond.Program.{
  Event, if_event, else_event, elseif_event, endif_event, is_active, with_value, on_event,
  run_events, output,
}

-- A push on a stack whose top was popped puts the new node on what was below.
push_over :
    {A : Type 0} (r : Nodes A) (x : ℕ × A) (rest : List (ℕ × A)) (a : A)
    → r.live ≡ x ∷ rest
    → (push a (recycle r)).live ≡ (fresh (recycle r), a) ∷ rest
push_over r x rest a e =
    push_live a (recycle r) ∙ ap (λ l. (fresh (recycle r), a) ∷ l) (recycle_live r x rest e)

module _ {D : Type 0} where
  -- The second machine has the stacks, the variables and the reported errors of the first.
  pub record IsSame (b m : Machine D) : Type 0 where
    pub conds_same : m.conds.live ≡ b.conds.live
    pub matches_same : m.matches.live ≡ b.matches.live
    pub braces_same : m.braces.live ≡ b.braces.live
    pub vars_same : m.vars ≡ b.vars
    pub errors_same : m.errors ≡ b.errors

  -- The second machine is inside one more conditional than the first.
  pub record IsOpened (b : Machine D) (top : CondStack) (v : ℤ) (m : Machine D) : Type 0 where
    pub cond_at : ℕ
    pub match_at : ℕ
    pub brace_at : ℕ
    pub conds_opened : m.conds.live ≡ (cond_at, top) ∷ b.conds.live
    pub matches_opened : m.matches.live ≡ (match_at, v) ∷ b.matches.live
    pub braces_opened : m.braces.live ≡ (brace_at, end_if) ∷ b.braces.live
    pub vars_opened : m.vars ≡ b.vars
    pub errors_opened : m.errors ≡ b.errors

  pub IsSame-IsOpened :
      {b : Machine D} {top : CondStack} {v : ℤ} {m m' : Machine D}
      → IsOpened b top v m
      → IsSame m m'
      → IsOpened b top v m'
  IsSame-IsOpened o s = record {
    cond_at = o.cond_at;
    match_at = o.match_at;
    brace_at = o.brace_at;
    conds_opened = s.conds_same ∙ o.conds_opened;
    matches_opened = s.matches_same ∙ o.matches_opened;
    braces_opened = s.braces_same ∙ o.braces_opened;
    vars_opened = s.vars_same ∙ o.vars_opened;
    errors_opened = s.errors_same ∙ o.errors_opened;
  }

  pub IsSame-trans : {a b c : Machine D} → IsSame a b → IsSame b c → IsSame a c
  IsSame-trans s t = record {
    conds_same = t.conds_same ∙ s.conds_same;
    matches_same = t.matches_same ∙ s.matches_same;
    braces_same = t.braces_same ∙ s.braces_same;
    vars_same = t.vars_same ∙ s.vars_same;
    errors_same = t.errors_same ∙ s.errors_same;
  }

  push-IsOpened :
      (state active v : ℤ) (m : Machine D)
      → IsOpened m
          (cond_node state active)
          v
          (brace_push end_if (match_push v (cond_push state active m)))
  unfolding match_push cond_push brace_push
  push-IsOpened state active v m = record {
    cond_at = fresh m.conds;
    match_at = fresh m.matches;
    brace_at = fresh m.braces;
    conds_opened = push_live _ _;
    matches_opened = push_live _ _;
    braces_opened = push_live _ _;
    vars_opened = refl;
    errors_opened = refl;
  }

  pub if-IsOpened :
      (s : Item D) (b : Machine D)
      → is_active b ≡ true
      → let c = check_cond b.vars s in IsOpened b (cond_node c (pos 1)) c (on_event (if_event s) b)
  unfolding on_event if_handler pop get_current_state
  if-IsOpened s b h = let c = check_cond b.vars s in rw h (rw h (push-IsOpened c (pos 1) c b))

  pub if-IsOpened_inactive :
      (s : Item D) (b : Machine D)
      → is_active b ≡ false
      → IsOpened b (cond_node (pos 0) (pos 0)) (pos 0) (on_event (if_event s) b)
  unfolding on_event if_handler pop get_current_state
  if-IsOpened_inactive s b h = rw h (rw h (push-IsOpened (pos 0) (pos 0) (pos 0) b))

  -- The top condition and match are replaced.
  replaced :
      (top : CondStack) (v : ℤ) (b m : Machine D) (state active w : ℤ)
      → IsOpened b top v m
      → IsOpened b (cond_node state active) w (
          match_push w (
            cond_push state active
              (record m { conds = recycle m.conds; matches = recycle m.matches })))
  unfolding match_push cond_push
  replaced top v b m state active w o = record {
    cond_at = fresh (recycle m.conds);
    match_at = fresh (recycle m.matches);
    brace_at = o.brace_at;
    conds_opened = push_over m.conds _ _ _ o.conds_opened;
    matches_opened = push_over m.matches _ _ _ o.matches_opened;
    braces_opened = o.braces_opened;
    vars_opened = o.vars_opened;
    errors_opened = o.errors_opened;
  }

  pub else-IsOpened :
      (st v : ℤ) (b m : Machine D)
      → IsOpened b (cond_node st (pos 1)) v m
      → IsOpened b
          (cond_node (if truth v then pos 0 else pos 1) (negsuc 0))
          (of_bool (not (truth v)))
          (on_event else_event m)
  unfolding on_event
  else-IsOpened st v b m o =
      rw (else_step m o.conds_opened o.matches_opened)
        (replaced _ v b m (if truth v then pos 0 else pos 1) (negsuc 0) (of_bool (not (truth v))) o)

  pub value-IsOpened :
      (s : Item D) (top : CondStack) (v : ℤ) (b m : Machine D)
      → IsOpened b top v m
      → IsOpened b top v (with_value s m)
  value-IsOpened s top v b m o = IsSame-IsOpened o (record {
    conds_same = refl;
    matches_same = refl;
    braces_same = refl;
    vars_same = refl;
    errors_same = refl;
  })

  pub elseif-IsOpened_matched :
      (s : Item D) (st v : ℤ) (b m : Machine D)
      → truth v ≡ true
      → IsOpened b (cond_node st (pos 1)) v m
      → IsOpened b (cond_node (pos 0) (pos 1)) v (on_event (elseif_event s) m)
  unfolding on_event
  elseif-IsOpened_matched s st v b m t o =
      let m' = with_value s m in
      rw (elseif_step_matched m' o.conds_opened o.matches_opened t) (
        unfold match_push cond_push in
        replaced _ v b m' (pos 0) (pos 1) v (value-IsOpened s _ v b m o))

  pub elseif-IsOpened_unmatched :
      (s : Item D) (st v : ℤ) (b m : Machine D)
      → truth v ≡ false
      → IsOpened b (cond_node st (pos 1)) v m
      → let c = check_cond b.vars s in
        IsOpened b (cond_node c (pos 1)) c (on_event (elseif_event s) m)
  unfolding on_event elseif_unmatched pop
  elseif-IsOpened_unmatched s st v b m f o =
      let m' = with_value s m in
      rw (elseif_step_unmatched m' o.conds_opened o.matches_opened f) (
        subst
          (λ vs. IsOpened b (cond_node (check_cond vs s) (pos 1)) (check_cond vs s) (
            match_push (check_cond m.vars s) (
              cond_push (check_cond m.vars s) (pos 1)
                (record m { conds = recycle m.conds; matches = recycle m.matches }))))
          o.vars_opened (replaced _ v b m (check_cond m.vars s) (pos 1) (check_cond m.vars s) o))

  -- Inside a conditional that is not executed, `else` and `elseif` do nothing.
  pub dead_else :
      (v : ℤ) (b m : Machine D)
      → IsOpened b (cond_node (pos 0) (pos 0)) v m
      → on_event else_event m ≡ m
  unfolding on_event else_handler
  dead_else v b m o = rw (get_current_state_top m o.conds_opened)

  pub dead_elseif :
      (s : Item D) (v : ℤ) (b m : Machine D)
      → IsOpened b (cond_node (pos 0) (pos 0)) v m
      → on_event (elseif_event s) m ≡ with_value s m
  unfolding on_event elseif_handler
  dead_elseif s v b m o = rw (get_current_state_top (with_value s m) o.conds_opened)

  pub opened_active :
      {b : Machine D} {state active v : ℤ} {m : Machine D}
      → IsOpened b (cond_node state active) v m
      → is_active m ≡ truth state
  opened_active {m = m} o = ap (λ p. truth p.0) (get_current_state_top m o.conds_opened)

  pub IsSame-active : {b m : Machine D} → IsSame b m → is_active m ≡ is_active b
  unfolding get_current_state
  IsSame-active s = rw s.conds_same

  pub run_events-append :
      (xs ys : List (Event D)) (m : Machine D)
      → run_events (xs ++ ys) m ≡ run_events ys (run_events xs m)
  unfolding run_events
  run_events-append [] ys m = refl
  run_events-append (x ∷ xs) ys m = run_events-append xs ys (on_event x m)

  pub output-append :
      (xs ys : List (Event D)) (m : Machine D)
      → output (xs ++ ys) m ≡ output xs m ++ output ys (run_events xs m)
  unfolding run_events output
  output-append [] ys m = refl
  output-append (x ∷ xs) ys m = rw (output-append xs ys (on_event x m)) (rw append_assoc)

  pub endif-IsSame :
      (top : CondStack) (v : ℤ) (b m : Machine D)
      → IsOpened b top v m
      → IsSame b (on_event endif_event m)
  unfolding on_event
  endif-IsSame top v b m o =
      subst (λ m'. IsSame b m') (sym (endif_step m o.conds_opened o.matches_opened o.braces_opened))
        (record {
          conds_same = recycle_live _ _ _ o.conds_opened;
          matches_same = recycle_live _ _ _ o.matches_opened;
          braces_same = recycle_live _ _ _ o.braces_opened;
          vars_same = o.vars_opened;
          errors_same = o.errors_opened;
        })
