-- ===== src/Cond/Chains.antt =====
-- The chains of elseif and else behind an if, with what is shown of their blocks as a hypothesis.
use goombaserver.Common.{
  ◌≡◌, refl, sym, ap, subst, ◌∙◌, true, false, not, [], ◌∷◌, ◌++◌, if◌then◌else◌, Bool-cases, inl,
  inr, arith,
}
use goombaserver.Common.Int.{ℤ, pos, truth}
use goombaserver.Machine.{Item, Machine}
use goombaserver.Cond.{check_cond}
use goombaserver.Cond.Steps.{cond_node}
use goombaserver.Cond.Program.{
  Block, Chain, fi, otherwise, other_branch, endif_event, else_event, elseif_event, is_active,
  with_value, on_event, printed, run_events, output, block_events, chain_events, meaning,
  chain_meaning,
}
use goombaserver.Cond.Opened.{
  IsSame, IsOpened, IsSame-IsOpened, else-IsOpened, elseif-IsOpened_matched,
  elseif-IsOpened_unmatched, value-IsOpened, dead_else, dead_elseif, opened_active,
  run_events-append, endif-IsSame,
}
use goombaserver.Cond.Blocks.{
  merge_last, truth_else, flip, at_values, output_two, BlockRuns, ChainRuns, ChainDead,
}

module _ {D : Type 0} where
  pub fi_runs : ChainRuns {D = D} fi
  unfolding chain_events run_events output printed chain_meaning
  fi_runs b m st v o h = (endif-IsSame _ v b m o, ground arith)

  pub fi_dead : ChainDead {D = D} fi
  unfolding chain_events run_events output printed
  fi_dead b m v o = (endif-IsSame _ v b m o, refl)

  pub otherwise_runs : (blk : Block D) → BlockRuns blk → ChainRuns (otherwise blk)
  unfolding chain_events run_events output printed chain_meaning
  otherwise_runs blk ih b m st v o h =
      let o1 = else-IsOpened st v b m o in
      let m1 = on_event else_event m in
      let (s1, out1) = ih m1 in
      let m2 = run_events (block_events blk) m1 in
      let out1' =
        at_values blk m1 (not (truth v)) b.vars (opened_active o1 ∙ truth_else (truth v))
          o1.vars_opened out1 in
      (
        rw (run_events-append (block_events blk) _ m1)
            (endif-IsSame _ _ b m2 (IsSame-IsOpened o1 s1)),
        output_two (block_events blk) (endif_event ∷ []) m1 _ [] out1' refl
            ∙ flip (truth v) (meaning b.vars blk),
      )

  pub otherwise_dead : (blk : Block D) → BlockRuns blk → ChainDead (otherwise blk)
  unfolding chain_events run_events output printed
  otherwise_dead blk ih b m v o =
      let (s1, out1) = ih m in
      let m2 = run_events (block_events blk) m in
      let out1' = at_values blk m false b.vars (opened_active o) o.vars_opened out1 in
      (
        subst (λ x. IsSame b (run_events (block_events blk ++ endif_event ∷ []) x))
            (sym (dead_else v b m o))
            (rw (run_events-append (block_events blk) (endif_event ∷ []) m)
              (endif-IsSame _ v b m2 (IsSame-IsOpened o s1))),
        ap (output (block_events blk ++ endif_event ∷ [])) (dead_else v b m o)
            ∙ output_two (block_events blk) (endif_event ∷ []) m [] [] out1' refl,
      )

  pub other_branch_matched :
      (s : Item D) (blk : Block D) (c : Chain D)
      → BlockRuns blk
      → ChainRuns c
      → (b m : Machine D) (st v : ℤ) → truth v ≡ true
      → IsOpened b (cond_node st (pos 1)) v m
      → is_active b ≡ true
      → IsSame b (run_events (chain_events (other_branch s blk c)) m)
        × (output (chain_events (other_branch s blk c)) m ≡ [])
  unfolding chain_events run_events output printed
  other_branch_matched s blk c ihb ihc b m st v t o h =
      let o1 = elseif-IsOpened_matched s st v b m t o in
      let m1 = on_event (elseif_event s) m in
      let (s1, out1) = ihb m1 in
      let m2 = run_events (block_events blk) m1 in
      let (s2, out2) = ihc b m2 (pos 0) v (IsSame-IsOpened o1 s1) h in
      let out1' = at_values blk m1 false b.vars (opened_active o1) o1.vars_opened out1 in
      (
        rw (run_events-append (block_events blk) (chain_events c) m1) s2,
        output_two (block_events blk) (chain_events c) m1 [] [] out1'
            (out2 ∙ ap (λ a. if a then [] else chain_meaning b.vars c) t),
      )

  pub other_branch_unmatched :
      (s : Item D) (blk : Block D) (c : Chain D)
      → BlockRuns blk
      → ChainRuns c
      → (b m : Machine D) (st v : ℤ) → truth v ≡ false
      → IsOpened b (cond_node st (pos 1)) v m
      → is_active b ≡ true
      → IsSame b (run_events (chain_events (other_branch s blk c)) m)
        × (output (chain_events (other_branch s blk c)) m
            ≡ chain_meaning b.vars (other_branch s blk c))
  unfolding chain_events run_events output printed chain_meaning
  other_branch_unmatched s blk c ihb ihc b m st v f o h =
      let w = check_cond b.vars s in
      let o1 = elseif-IsOpened_unmatched s st v b m f o in
      let m1 = on_event (elseif_event s) m in
      let (s1, out1) = ihb m1 in
      let m2 = run_events (block_events blk) m1 in
      let (s2, out2) = ihc b m2 w w (IsSame-IsOpened o1 s1) h in
      let out1' = at_values blk m1 (truth w) b.vars (opened_active o1) o1.vars_opened out1 in
      (
        rw (run_events-append (block_events blk) (chain_events c) m1) s2,
        output_two (block_events blk) (chain_events c) m1 _ _ out1' out2
            ∙ merge_last (truth w) (meaning b.vars blk) (chain_meaning b.vars c),
      )

  pub other_branch_runs :
      (s : Item D) (blk : Block D) (c : Chain D)
      → BlockRuns blk
      → ChainRuns c
      → ChainRuns (other_branch s blk c)
  other_branch_runs s blk c ihb ihc b m st v o h = elim (Bool-cases (truth v)) [
    | inl t ↦
        let (same, out) = other_branch_matched s blk c ihb ihc b m st v t o h in (same, rw t out)
    | inr f ↦
        let (same, out) = other_branch_unmatched s blk c ihb ihc b m st v f o h in (same, rw f out)
  ]

  pub other_branch_dead :
      (s : Item D) (blk : Block D) (c : Chain D)
      → BlockRuns blk
      → ChainDead c
      → ChainDead (other_branch s blk c)
  unfolding chain_events run_events output printed
  other_branch_dead s blk c ihb ihc b m v o =
      let o1 = value-IsOpened s _ v b m o in
      let m1 = with_value s m in
      let (s1, out1) = ihb m1 in
      let m2 = run_events (block_events blk) m1 in
      let (s2, out2) = ihc b m2 v (IsSame-IsOpened o1 s1) in
      let out1' = at_values blk m1 false b.vars (opened_active o1) o1.vars_opened out1 in
      (
        subst (λ x. IsSame b (run_events (block_events blk ++ chain_events c) x))
            (sym (dead_elseif s v b m o))
            (rw (run_events-append (block_events blk) (chain_events c) m1) s2),
        ap (output (block_events blk ++ chain_events c)) (dead_elseif s v b m o)
            ∙ output_two (block_events blk) (chain_events c) m1 [] [] out1' out2,
      )
