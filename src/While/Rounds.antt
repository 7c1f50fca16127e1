-- ===== src/While/Rounds.antt =====
-- The first test of a loop, the test of a further round, and endwhile.
use goombaserver.Common.{
  ℕ, ◌-◌, ◌≡◌, ◌≢◌, refl, sym, ap, subst, ◌∙◌, true, false, some, List, ◌∷◌, arith,
}
use goombaserver.Common.Int.{ℤ, truth}
use goombaserver.Nodes.{recycle}
use goombaserver.Nodes.Live.{fresh, push_live, discard_live}
use goombaserver.Machine.{Item, CondStack, WhileStack, Token, Machine}
use goombaserver.Cond.{cond_peek, cond_push, cond_pop, brace_push, brace_pop, check_cond}
use goombaserver.Cond.Steps.{cond_node, get_current_state_top}
use goombaserver.Cond.Program.{is_active, with_value}
use goombaserver.While.{
  while_push, while_peek, while_again, while_word, while_handler, endwhile_handler, loop_mark,
}
use goombaserver.While.Steps.{
  Ensures, IsInside, IsLeaving, word_new, word_again, handler_step, push_active, change_top,
  condition_new_true, condition_new_false, condition_again_true, condition_again_false, is_new,
  not_new,
}

module _ {D : Type 0} where
  -- The condition of a new loop holds.
  pub enter_true :
      (v : Item D) (b : Machine D)
      → is_active b ≡ true
      → b.lexer.iterwhile ≢ b.lexer.seek_pos
      → truth (check_cond b.vars v) ≡ true
      → Ensures (IsInside b (check_cond b.vars v)) (while_handler (with_value v (while_word b)))
  unfolding while_push brace_push cond_push
  enter_true v b h ne t =
      let c = check_cond b.vars v in
      let b1 = while_push b.lexer.seek_pos b.lexer.tokenmarker (b.lexer.linenumber - 1) b in
      let step = handler_step v b1 (push_active _ _ _ b ∙ h) (push_live _ b.whiles) in
      subst (Ensures (IsInside b c))
        (sym (
          ap (λ x. while_handler (with_value v x)) (word_new b h ne)
          ∙ step
          ∙ condition_new_true c _ refl (is_new b.lexer ne) t))
        (record {
          cond_at = fresh b.conds;
          loop_at = fresh b.whiles;
          brace_at = fresh b.braces;
          loop = _;
          conds_inside = push_live _ _;
          whiles_inside = refl;
          braces_inside = push_live _ _;
          matches_inside = refl;
          vars_inside = refl;
          errors_inside = refl;
        })

  pub enter_false :
      (v : Item D) (b : Machine D)
      → is_active b ≡ true
      → b.lexer.iterwhile ≢ b.lexer.seek_pos
      → truth (check_cond b.vars v) ≡ false
      → Ensures (IsLeaving b (check_cond b.vars v)) (while_handler (with_value v (while_word b)))
  unfolding while_push brace_push cond_push
  enter_false v b h ne f =
      let c = check_cond b.vars v in
      let b1 = while_push b.lexer.seek_pos b.lexer.tokenmarker (b.lexer.linenumber - 1) b in
      let step = handler_step v b1 (push_active _ _ _ b ∙ h) (push_live _ b.whiles) in
      subst (Ensures (IsLeaving b c))
        (sym (
          ap (λ x. while_handler (with_value v x)) (word_new b h ne)
          ∙ step
          ∙ condition_new_false c _ refl (is_new b.lexer ne) f))
        (record {
          cond_at = fresh b.conds;
          brace_at = fresh b.braces;
          conds_leaving = push_live _ _;
          whiles_leaving = discard_live _ _ _ refl;
          braces_leaving = push_live _ _;
          matches_leaving = refl;
          vars_leaving = refl;
          errors_leaving = refl;
        })

  pub inside_active : {b m : Machine D} {c : ℤ} → IsInside b c m → is_active m ≡ truth c
  inside_active {m = m} i = ap (λ p. truth p.0) (get_current_state_top m i.conds_inside)

  pub leaving_active : {b m : Machine D} {c : ℤ} → IsLeaving b c m → is_active m ≡ truth c
  leaving_active {m = m} i = ap (λ p. truth p.0) (get_current_state_top m i.conds_leaving)

  -- The test of a further round.
  pub again_true :
      (v : Item D) (b m : Machine D) (c' : ℤ)
      → IsInside b c' m
      → truth c' ≡ true
      → m.lexer.iterwhile ≡ m.lexer.seek_pos
      → let c = check_cond b.vars v in
        truth c ≡ true → Ensures (IsInside b c) (while_handler (with_value v (while_word m)))
  again_true v b m c' i h old t =
      let c = check_cond m.vars v in
      let e : check_cond m.vars v ≡ check_cond b.vars v = ap (λ f. check_cond f v) i.vars_inside in
      let step = handler_step v m (inside_active i ∙ h) i.whiles_inside in
      subst (λ x. Ensures (IsInside b x) (while_handler (with_value v (while_word m)))) e
        (subst (Ensures (IsInside b c))
          (sym (
            ap (λ x. while_handler (with_value v x)) (word_again m old)
            ∙ step
            ∙ condition_again_true c _ refl (not_new m.lexer old) (ap truth e ∙ t)
            ∙ ap some (change_top c _ refl i.conds_inside)))
          (record {
            cond_at = i.cond_at;
            loop_at = i.loop_at;
            brace_at = i.brace_at;
            loop = record (i.loop) { state = c };
            conds_inside = refl;
            whiles_inside = refl;
            braces_inside = i.braces_inside;
            matches_inside = i.matches_inside;
            vars_inside = i.vars_inside;
            errors_inside = i.errors_inside;
          }))

  pub again_false :
      (v : Item D) (b m : Machine D) (c' : ℤ)
      → IsInside b c' m
      → truth c' ≡ true
      → m.lexer.iterwhile ≡ m.lexer.seek_pos
      → let c = check_cond b.vars v in
        truth c ≡ false → Ensures (IsLeaving b c) (while_handler (with_value v (while_word m)))
  again_false v b m c' i h old f =
      let c = check_cond m.vars v in
      let e : check_cond m.vars v ≡ check_cond b.vars v = ap (λ g. check_cond g v) i.vars_inside in
      let step = handler_step v m (inside_active i ∙ h) i.whiles_inside in
      subst (λ x. Ensures (IsLeaving b x) (while_handler (with_value v (while_word m)))) e
        (subst (Ensures (IsLeaving b c))
          (sym (
            ap (λ x. while_handler (with_value v x)) (word_again m old)
            ∙ step
            ∙ condition_again_false c _ refl i.conds_inside (not_new m.lexer old) (ap truth e ∙ f)))
          (record {
            cond_at = i.cond_at;
            brace_at = i.brace_at;
            conds_leaving = refl;
            whiles_leaving = discard_live _ _ _ refl;
            braces_leaving = i.braces_inside;
            matches_leaving = i.matches_inside;
            vars_leaving = i.vars_inside;
            errors_leaving = i.errors_inside;
          }))

  -- `endwhile` after a round whose condition held: reading goes back to the word `while`.
  pub endwhile_again :
      (old : ℤ) (c : ℤ) (m : Machine D) {n k : ℕ} {w : WhileStack} {conds : List (ℕ × CondStack)}
      {rest : List (ℕ × WhileStack)}
      → m.conds.live ≡ (n, cond_node c loop_mark) ∷ conds
      → m.whiles.live ≡ (k, w) ∷ rest
      → truth c ≡ true
      → endwhile_handler old m ≡ while_again w.seekpos w.offset w.lineno m
  unfolding endwhile_handler cond_peek while_peek
  endwhile_again old c m e d t = ground arith

  -- `endwhile` after the last test: the condition and the brace are popped.
  pub endwhile_leave :
      (old : ℤ) (c : ℤ) (m : Machine D) {n k : ℕ} {t : Token} {conds : List (ℕ × CondStack)}
      {braces : List (ℕ × Token)}
      → m.conds.live ≡ (n, cond_node c loop_mark) ∷ conds
      → m.braces.live ≡ (k, t) ∷ braces
      → truth c ≡ false
      → endwhile_handler old m ≡ record m { conds = recycle m.conds; braces = recycle m.braces }
  unfolding endwhile_handler cond_peek cond_pop brace_pop
  endwhile_leave old c m e d f = ground arith
