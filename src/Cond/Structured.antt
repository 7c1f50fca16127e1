-- ===== src/Cond/Structured.antt =====
-- The handlers of if, else, elseif and endif, driven by the tokens of a structured program, print
-- what the program means and leave the stacks as they were.
use goombaserver.Common.{◌≡◌, [], if◌then◌else◌, Bool-cases, inl, inr}
use goombaserver.Machine.{Item, Machine}
use goombaserver.Cond.Program.{
  Block, done, echo, branch, Chain, fi, otherwise, other_branch, is_active, run_events, output,
  block_events, meaning,
}
use goombaserver.Cond.Opened.{IsSame}
use goombaserver.Cond.Blocks.{
  BlockRuns, ChainRuns, ChainDead, done_runs, echo_runs, branch_active, branch_inactive,
}
use goombaserver.Cond.Chains.{
  fi_runs, fi_dead, otherwise_runs, otherwise_dead, other_branch_runs, other_branch_dead,
}

module _ {D : Type 0} where
  branch_runs :
      (s : Item D) (blk : Block D) (c : Chain D) (rest : Block D)
      → BlockRuns blk
      → ChainRuns c
      → ChainDead c
      → BlockRuns rest
      → BlockRuns (branch s blk c rest)
  branch_runs s blk c rest ihb ihc ihd ihr m = elim (Bool-cases (is_active m)) [
    | inl h ↦ branch_active s blk c rest ihb ihc ihr m h
    | inr h ↦ branch_inactive s blk c rest ihb ihd ihr m h
  ]

mutual
  block_runs : {D : Type 0} (blk : Block D) → BlockRuns blk
  block_runs done = done_runs
  block_runs (echo n blk) = echo_runs n blk (block_runs blk)
  block_runs (branch s blk c rest) =
      branch_runs s blk c rest (block_runs blk) (chain_runs c) (chain_dead c) (block_runs rest)

  chain_runs : {D : Type 0} (c : Chain D) → ChainRuns c
  chain_runs fi = fi_runs
  chain_runs (otherwise blk) = otherwise_runs blk (block_runs blk)
  chain_runs (other_branch s blk c) = other_branch_runs s blk c (block_runs blk) (chain_runs c)

  chain_dead : {D : Type 0} (c : Chain D) → ChainDead c
  chain_dead fi = fi_dead
  chain_dead (otherwise blk) = otherwise_dead blk (block_runs blk)
  chain_dead (other_branch s blk c) = other_branch_dead s blk c (block_runs blk) (chain_dead c)

-- From any machine, the tokens of a structured block print what the block means if code is executed
-- there, and nothing if it is not; the stacks of conditions, matches and braces, the variables and
-- the reported errors are afterwards what they were.
pub output-block :
    {D : Type 0} (blk : Block D) (m : Machine D)
    → IsSame m (run_events (block_events blk) m)
      × (output (block_events blk) m ≡ (if is_active m then meaning m.vars blk else []))
output-block blk m = block_runs blk m
