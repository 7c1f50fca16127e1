-- ===== src/Grammar/Stages.antt =====
-- The stacks in a switch statement: at its start, in a case, behind a break and at its end.
use goombaserver.Common.{
  ℕ, ◌≡◌, refl, sym, ap, subst, ◌∙◌, true, false, some, ◌∷◌, if◌then◌else◌, Bool-cases, inl, inr,
  arith,
}
use goombaserver.Common.Int.{ℤ, pos, truth, of_bool}
use goombaserver.Floats.{Floats}
use goombaserver.Nodes.{recycle, discard}
use goombaserver.Nodes.Live.{fresh, push_live, recycle_live, discard_live}
use goombaserver.Machine.{Item, end_switch, Machine, pop}
use goombaserver.Cond.{
  get_current_state, get_current_active, cond_push, cond_pop, brace_push, brace_pop,
}
use goombaserver.Cond.Steps.{cond_node, get_current_state_top}
use goombaserver.Cond.Program.{Block, is_active, with_value, run_events, block_events}
use goombaserver.Cond.Opened.{IsSame}
use goombaserver.Cond.Structured.{output-block}
use goombaserver.Cond.Frame.{run_events-Keeps}
use goombaserver.While.Steps.{Ensures}
use goombaserver.Switch.{
  switch_push, switch_pop, switch_handler, endswitch_handler, same_value, case_on, case_handler,
  default_handler, set_matched, break_handler, case_mark,
}
use goombaserver.Grammar.{switch_rule, case_rule, break_rule, default_rule, endswitch_rule}
use goombaserver.Grammar.Choice.{entry, hits, is_value}

module _ {D : Type 0} where
  -- The second machine is in a switch over `v` that stands in the first, between two cases.
  pub record IsIn (b : Machine D) (v : Item D) (matched : ℤ) (m : Machine D) : Type 0 where
    pub cond_at : ℕ
    pub entry_at : ℕ
    pub brace_at : ℕ
    pub conds_in : m.conds.live ≡ (cond_at, cond_node (pos 1) (pos 1)) ∷ b.conds.live
    pub switches_in : m.switches.live ≡ (entry_at, entry v matched) ∷ b.switches.live
    pub braces_in : m.braces.live ≡ (brace_at, end_switch) ∷ b.braces.live
    pub matches_in : m.matches.live ≡ b.matches.live
    pub vars_in : m.vars ≡ b.vars
    pub errors_in : m.errors ≡ b.errors

  -- It is in a case, whose statements are executed if `state` is not 0.
  pub record IsCase (b : Machine D) (v : Item D) (matched state : ℤ) (m : Machine D) : Type 0 where
    pub case_at : ℕ
    pub cond_at : ℕ
    pub entry_at : ℕ
    pub brace_at : ℕ
    pub conds_case :
        m.conds.live
        ≡ (case_at, cond_node state case_mark) ∷ (cond_at, cond_node (pos 1) (pos 1)) ∷ b.conds.live
    pub switches_case : m.switches.live ≡ (entry_at, entry v matched) ∷ b.switches.live
    pub braces_case : m.braces.live ≡ (brace_at, end_switch) ∷ b.braces.live
    pub matches_case : m.matches.live ≡ b.matches.live
    pub vars_case : m.vars ≡ b.vars
    pub errors_case : m.errors ≡ b.errors

  pub case_active :
      {b : Machine D} {v : Item D} {w r : ℤ} {m : Machine D}
      → IsCase b v w r m
      → is_active m ≡ truth r
  case_active {m = m} i = ap (λ p. truth p.0) (get_current_state_top m i.conds_case)

  pub run_events-IsCase :
      (body : Block D) {b : Machine D} {v : Item D} {w r : ℤ} (m : Machine D)
      → IsCase b v w r m
      → IsCase b v w r (run_events (block_events body) m)
  run_events-IsCase body m i =
      let (same, _) = output-block body m in
      let (_, _, switches) = run_events-Keeps (block_events body) m in
      record {
        case_at = i.case_at;
        cond_at = i.cond_at;
        entry_at = i.entry_at;
        brace_at = i.brace_at;
        conds_case = same.conds_same ∙ i.conds_case;
        switches_case = ap (λ r. r.live) switches ∙ i.switches_case;
        braces_case = same.braces_same ∙ i.braces_case;
        matches_case = same.matches_same ∙ i.matches_case;
        vars_case = same.vars_same ∙ i.vars_case;
        errors_case = same.errors_same ∙ i.errors_case;
      }

  pub switch_opens :
      (v : Item D) (b : Machine D)
      → is_active b ≡ true
      → IsIn b v (pos 0) (switch_rule false (with_value v b))
  unfolding switch_rule switch_handler pop switch_push cond_push brace_push get_current_state
  switch_opens v b h = rw h (record {
    cond_at = fresh b.conds;
    entry_at = fresh b.switches;
    brace_at = fresh b.braces;
    conds_in = push_live _ _;
    switches_in = push_live _ _;
    braces_in = push_live _ _;
    matches_in = refl;
    vars_in = refl;
    errors_in = refl;
  })

  -- A condition on top of the switch's own.
  pushed :
      (state : ℤ) {b : Machine D} {v : Item D} {w : ℤ} (m : Machine D)
      → IsIn b v w m
      → IsCase b v w state (cond_push state case_mark m)
  unfolding cond_push
  pushed state m i = record {
    case_at = fresh m.conds;
    cond_at = i.cond_at;
    entry_at = i.entry_at;
    brace_at = i.brace_at;
    conds_case =
        push_live _ _ ∙ ap (λ l. (fresh m.conds, cond_node state case_mark) ∷ l) i.conds_in;
    switches_case = i.switches_in;
    braces_case = i.braces_in;
    matches_case = i.matches_in;
    vars_case = i.vars_in;
    errors_case = i.errors_in;
  }

  default_step :
      {b : Machine D} {v : Item D} {w : ℤ} (m : Machine D)
      → IsIn b v w m
      → default_rule false m ≡ some (cond_push (if truth w then pos 0 else pos 1) case_mark m)
  unfolding default_rule default_handler get_current_state
  default_step m i = ground arith

  pub default_opens :
      {b : Machine D} {v : Item D} {w : ℤ} (m : Machine D)
      → IsIn b v w m
      → Ensures (IsCase b v w (if truth w then pos 0 else pos 1)) (default_rule false m)
  default_opens {b} {v} {w} m i =
      subst (Ensures (IsCase b v w (if truth w then pos 0 else pos 1))) (sym (default_step m i))
        (pushed _ m i)

  break_step :
      {b : Machine D} {v : Item D} {w r : ℤ} (m : Machine D) (i : IsCase b v w r m)
      → break_rule false m
        ≡ some (
            if truth w then record m { conds = recycle m.conds } else record m {
              conds = recycle m.conds;
              switches = record (m.switches) { live = (i.entry_at, entry v r) ∷ b.switches.live };
            })
  unfolding break_rule break_handler cond_pop set_matched get_current_state get_current_active
  break_step m i = ground arith

  pub break_closes :
      {b : Machine D} {v : Item D} {w r : ℤ} (m : Machine D)
      → IsCase b v w r m
      → Ensures (IsIn b v (if truth w then w else r)) (break_rule false m)
  break_closes {b} {v} {w} {r} m i =
      subst (Ensures (IsIn b v (if truth w then w else r))) (sym (break_step m i))
        (elim (Bool-cases (truth w)) [
          | inl t ↦ rw t (record {
            cond_at = i.cond_at;
            entry_at = i.entry_at;
            brace_at = i.brace_at;
            conds_in = recycle_live _ _ _ i.conds_case;
            switches_in = i.switches_case;
            braces_in = i.braces_case;
            matches_in = i.matches_case;
            vars_in = i.vars_case;
            errors_in = i.errors_case;
          })
          | inr f ↦ rw f (record {
            cond_at = i.cond_at;
            entry_at = i.entry_at;
            brace_at = i.brace_at;
            conds_in = recycle_live _ _ _ i.conds_case;
            switches_in = refl;
            braces_in = i.braces_case;
            matches_in = i.matches_case;
            vars_in = i.vars_case;
            errors_in = i.errors_case;
          })
        ])

  endswitch_step :
      {b : Machine D} {v : Item D} {w : ℤ} (m : Machine D)
      → IsIn b v w m
      → endswitch_rule false m ≡ record m {
        switches = discard m.switches;
        conds = recycle m.conds;
        braces = recycle m.braces;
      }
  unfolding endswitch_rule endswitch_handler switch_pop cond_pop brace_pop get_current_state
  endswitch_step m i = ground arith

  pub switch_closes :
      {b : Machine D} {v : Item D} {w : ℤ} (m : Machine D)
      → IsIn b v w m
      → IsSame b (endswitch_rule false m)
        × ((endswitch_rule false m).switches.live ≡ b.switches.live)
  switch_closes {b} m i = (
    subst (IsSame b) (sym (endswitch_step m i)) (record {
      conds_same = recycle_live _ _ _ i.conds_in;
      matches_same = i.matches_in;
      braces_same = recycle_live _ _ _ i.braces_in;
      vars_same = i.vars_in;
      errors_same = i.errors_in;
    }),
    ap (λ x. x.switches.live) (endswitch_step m i) ∙ discard_live _ _ _ i.switches_in,
  )

module _ {D : Type 0} ⦃F : Floats D⦄ where
  same_value-hits :
      (v label : Item D) (w : ℤ)
      → is_value label.kind ≡ true
      → same_value label (entry v w) label.kind ≡ some (hits v label)
  unfolding same_value
  same_value-hits v label w h = ground arith

  case_step :
      (label : Item D) {b : Machine D} {v : Item D} {w : ℤ} (m : Machine D)
      → is_value label.kind ≡ true
      → IsIn b v w m
      → case_rule (with_value label m) ≡ cond_push (of_bool (hits v label)) case_mark m
  unfolding case_rule case_handler pop case_on get_current_state get_current_active
  case_step label {v = v} {w = w} m h i = ground (arith, same_value-hits v label w)

  pub case_rule-IsCase :
      (label : Item D) {b : Machine D} {v : Item D} {w : ℤ} (m : Machine D)
      → is_value label.kind ≡ true
      → IsIn b v w m
      → IsCase b v w (of_bool (hits v label)) (case_rule (with_value label m))
  case_rule-IsCase label {b} {v} {w} m h i =
      subst (IsCase b v w (of_bool (hits v label))) (sym (case_step label m h i)) (pushed _ m i)
