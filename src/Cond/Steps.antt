-- ===== src/Cond/Steps.antt =====
-- What the operations of src/cond.c do when the tops of the stacks are known.
use goombaserver.Common.{ℕ, ◌≡◌, true, false, not, some, List, ◌∷◌, if◌then◌else◌, arith}
use goombaserver.Common.Int.{ℤ, pos, negsuc, truth, of_bool}
use goombaserver.Nodes.{recycle}
use goombaserver.Machine.{CondStack, Token, Machine}
use goombaserver.Cond.{
  get_current_state, match_push, match_pop, cond_push, cond_pop, brace_pop, else_handler,
  elseif_handler, endif_handler, elseif_unmatched,
}

abbrev pub cond_node : ℤ → ℤ → CondStack
cond_node state active = record { state = state; active = active }

module _ {D : Type 0} where
  module _ {n : ℕ} {top : CondStack} {rest : List (ℕ × CondStack)} (m : Machine D)
      (e : m.conds.live ≡ (n, top) ∷ rest) where
    pub get_current_state_top : get_current_state m ≡ (top.state, top.active)
    unfolding get_current_state
    get_current_state_top = ground arith

    pub cond_pop_top : cond_pop m ≡ (top.state, record m { conds = recycle m.conds })
    unfolding cond_pop
    cond_pop_top = ground arith

  module _ {n : ℕ} {v : ℤ} {rest : List (ℕ × ℤ)} (m : Machine D)
      (e : m.matches.live ≡ (n, v) ∷ rest) where
    pub match_pop_top : match_pop m ≡ (v, record m { matches = recycle m.matches })
    unfolding match_pop
    match_pop_top = ground arith

  module _ {n : ℕ} {t : Token} {rest : List (ℕ × Token)} (m : Machine D)
      (e : m.braces.live ≡ (n, t) ∷ rest) where
    pub brace_pop_top : brace_pop m ≡ (some t, record m { braces = recycle m.braces })
    unfolding brace_pop
    brace_pop_top = ground arith

  module _ {n k : ℕ} {st v : ℤ} {conds : List (ℕ × CondStack)} {matches : List (ℕ × ℤ)}
      (m : Machine D) (c : m.conds.live ≡ (n, cond_node st (pos 1)) ∷ conds)
      (w : m.matches.live ≡ (k, v) ∷ matches) where
    pub else_step :
        else_handler m
        ≡ match_push (of_bool (not (truth v))) (
            cond_push
              (if truth v then pos 0 else pos 1)
              (negsuc 0)
              (record m { conds = recycle m.conds; matches = recycle m.matches }))
    unfolding else_handler
    else_step = simp (
      get_current_state_top m c,
      cond_pop_top m c,
      match_pop_top (record m { conds = recycle m.conds }) w,
    )

    pub elseif_step_matched :
        truth v ≡ true
        → elseif_handler m
          ≡ cond_push
              (pos 0)
              (pos 1)
              (match_push v (record m { conds = recycle m.conds; matches = recycle m.matches }))
    unfolding elseif_handler
    elseif_step_matched t = simp (
      get_current_state_top m c,
      match_pop_top m w,
      cond_pop_top (record m { matches = recycle m.matches }) c,
      t,
    )

    pub elseif_step_unmatched :
        truth v ≡ false
        → elseif_handler m
          ≡ elseif_unmatched (record m { conds = recycle m.conds; matches = recycle m.matches })
    unfolding elseif_handler
    elseif_step_unmatched t = simp (
      get_current_state_top m c,
      match_pop_top m w,
      cond_pop_top (record m { matches = recycle m.matches }) c,
      t,
    )

  module _ {n k l : ℕ} {top : CondStack} {v : ℤ} {t : Token} {conds : List (ℕ × CondStack)}
      {matches : List (ℕ × ℤ)} {braces : List (ℕ × Token)} (m : Machine D)
      (c : m.conds.live ≡ (n, top) ∷ conds) (w : m.matches.live ≡ (k, v) ∷ matches)
      (b : m.braces.live ≡ (l, t) ∷ braces) where
    pub endif_step : endif_handler m ≡ record m {
      conds = recycle m.conds;
      matches = recycle m.matches;
      braces = recycle m.braces;
    }
    unfolding endif_handler
    endif_step = simp (
      cond_pop_top m c,
      match_pop_top (record m { conds = recycle m.conds }) w,
      brace_pop_top (record m { conds = recycle m.conds; matches = recycle m.matches }) b,
      endif_handler,
    )
