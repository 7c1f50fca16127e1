-- ===== src/Cond/Blocks.antt =====
-- The blocks of a structured program, with what is shown of their parts as a hypothesis.
use goombaserver.Common.{
  ℕ, ◌≡◌, refl, ap₂, ◌∙◌, Bool, true, false, not, List, [], ◌++◌, append-nil, if◌then◌else◌, arith,
}
use goombaserver.Common.Int.{ℤ, pos, truth}
use goombaserver.Machine.{VarTree, Item, Machine}
use goombaserver.Cond.{check_cond}
use goombaserver.Cond.Steps.{cond_node}
use goombaserver.Cond.Program.{
  Block, done, echo, branch, Chain, Event, if_event, is_active, on_event, printed, run_events,
  output, block_events, chain_events, meaning, chain_meaning,
}
use goombaserver.Cond.Opened.{
  IsSame, IsOpened, IsSame-IsOpened, IsSame-trans, if-IsOpened, if-IsOpened_inactive, opened_active,
  IsSame-active, run_events-append, output-append,
}

-- One branch of a chain is printed, and then the rest.
pub merge :
    (t : Bool) (x y z : List ℕ)
    → (if t then x else []) ++ ((if t then [] else y) ++ z) ≡ (if t then x else y) ++ z
merge true x y z = refl
merge false x y z = refl

pub merge_last :
    (t : Bool) (x y : List ℕ)
    → (if t then x else []) ++ (if t then [] else y) ≡ (if t then x else y)
merge_last true x y = append-nil x
merge_last false x y = refl

pub truth_else : (t : Bool) → truth (if t then pos 0 else pos 1) ≡ not t
truth_else true = refl
truth_else false = refl

pub flip : (t : Bool) (x : List ℕ) → (if not t then x else []) ++ [] ≡ (if t then [] else x)
flip true x = refl
flip false x = append-nil x

module _ {D : Type 0} where
  abbrev pub Prints : Block D → Machine D → Type 0
  Prints blk m = output (block_events blk) m ≡ (if is_active m then meaning m.vars blk else [])

  pub at_values :
      (blk : Block D) (m : Machine D) (a : Bool) (vars : ℕ → VarTree D)
      → is_active m ≡ a
      → m.vars ≡ vars
      → Prints blk m
      → output (block_events blk) m ≡ (if a then meaning vars blk else [])
  at_values blk m a vars ha hv e = e ∙ ap₂ (λ t w. if t then meaning w blk else []) ha hv

  pub output_two :
      (xs ys : List (Event D)) (m : Machine D) (x y : List ℕ)
      → output xs m ≡ x
      → output ys (run_events xs m) ≡ y
      → output (xs ++ ys) m ≡ x ++ y
  output_two xs ys m x y p q = output-append xs ys m ∙ ap₂ (λ u v. u ++ v) p q

  abbrev pub BlockRuns : Block D → Type 0
  BlockRuns blk = (m : Machine D) → IsSame m (run_events (block_events blk) m) × Prints blk m

  -- A chain whose `if` stands on top of the machine `b`, in code that is executed.
  abbrev pub ChainRuns : Chain D → Type 0
  ChainRuns c =
      (b m : Machine D) (st v : ℤ)
      → IsOpened b (cond_node st (pos 1)) v m
      → is_active b ≡ true
      → IsSame b (run_events (chain_events c) m)
        × (output (chain_events c) m ≡ (if truth v then [] else chain_meaning b.vars c))

  -- A chain in code that is not executed.
  abbrev pub ChainDead : Chain D → Type 0
  ChainDead c =
      (b m : Machine D) (v : ℤ)
      → IsOpened b (cond_node (pos 0) (pos 0)) v m
      → IsSame b (run_events (chain_events c) m) × (output (chain_events c) m ≡ [])

  pub done_runs : BlockRuns done
  unfolding block_events run_events output meaning
  done_runs m = (
    record {
      conds_same = refl;
      matches_same = refl;
      braces_same = refl;
      vars_same = refl;
      errors_same = refl;
    },
    ground arith,
  )

  pub echo_runs : (n : ℕ) (blk : Block D) → BlockRuns blk → BlockRuns (echo n blk)
  unfolding block_events run_events output meaning on_event printed
  echo_runs n blk ih m = ((ih m).0, ground (arith, (ih m).1))

  pub branch_active :
      (s : Item D) (blk : Block D) (c : Chain D) (rest : Block D)
      → BlockRuns blk
      → ChainRuns c
      → BlockRuns rest
      → (m : Machine D) → is_active m ≡ true
      → IsSame m (run_events (block_events (branch s blk c rest)) m)
        × Prints (branch s blk c rest) m
  unfolding block_events run_events output meaning printed
  branch_active s blk c rest ihb ihc ihr m h =
      let v = check_cond m.vars s in
      let o = if-IsOpened s m h in
      let m1 = on_event (if_event s) m in
      let (s1, out1) = ihb m1 in
      let m2 = run_events (block_events blk) m1 in
      let (s2, out2) = ihc m m2 v v (IsSame-IsOpened o s1) h in
      let m3 = run_events (chain_events c) m2 in
      let (s3, out3) = ihr m3 in
      let out1' = at_values blk m1 (truth v) m.vars (opened_active o) o.vars_opened out1 in
      let out3' = at_values rest m3 true m.vars (IsSame-active s2 ∙ h) s2.vars_same out3 in
      (
        rw (run_events-append (block_events blk) (chain_events c ++ block_events rest) m1)
            (rw (run_events-append (chain_events c) (block_events rest) m2) (IsSame-trans s2 s3)),
        rw h (
            output_two (block_events blk) _ m1 _ _ out1'
              (output_two (chain_events c) (block_events rest) m2 _ _ out2 out3')
            ∙ merge (truth v) (meaning m.vars blk) (chain_meaning m.vars c) (meaning m.vars rest)),
      )

  pub branch_inactive :
      (s : Item D) (blk : Block D) (c : Chain D) (rest : Block D)
      → BlockRuns blk
      → ChainDead c
      → BlockRuns rest
      → (m : Machine D) → is_active m ≡ false
      → IsSame m (run_events (block_events (branch s blk c rest)) m)
        × Prints (branch s blk c rest) m
  unfolding block_events run_events output meaning printed
  branch_inactive s blk c rest ihb ihc ihr m h =
      let o = if-IsOpened_inactive s m h in
      let m1 = on_event (if_event s) m in
      let (s1, out1) = ihb m1 in
      let m2 = run_events (block_events blk) m1 in
      let (s2, out2) = ihc m m2 (pos 0) (IsSame-IsOpened o s1) in
      let m3 = run_events (chain_events c) m2 in
      let (s3, out3) = ihr m3 in
      let out1' = at_values blk m1 false m.vars (opened_active o) o.vars_opened out1 in
      let out3' = at_values rest m3 false m.vars (IsSame-active s2 ∙ h) s2.vars_same out3 in
      (
        rw (run_events-append (block_events blk) (chain_events c ++ block_events rest) m1)
            (rw (run_events-append (chain_events c) (block_events rest) m2) (IsSame-trans s2 s3)),
        rw h (
            output_two (block_events blk) _ m1 _ _ out1'
              (output_two (chain_events c) (block_events rest) m2 _ _ out2 out3')),
      )
