-- ===== src/Cond/Program.antt =====
-- Structured conditionals: the tokens that the grammar of src/parse.raw hands to the handlers, and
-- what a block means with no stack at all.
use goombaserver.Common.{ℕ, Bool, List, [], ◌∷◌, ◌++◌, if◌then◌else◌}
use goombaserver.Common.Int.{truth}
use goombaserver.Machine.{VarTree, Item, Machine}
use goombaserver.Cond.{
  get_current_state, check_cond, if_handler, else_handler, elseif_handler, endif_handler,
}

-- A condition is the value that its expression leaves on the expression stack.
mutual
  pub data Block (D : Type 0) : Type 0 where
    done : Block D
    echo : ℕ → Block D → Block D
    branch : Item D → Block D → Chain D → Block D → Block D

  pub data Chain (D : Type 0) : Type 0 where
    fi : Chain D
    otherwise : Block D → Chain D
    other_branch : Item D → Block D → Chain D → Chain D

pub data Event (D : Type 0) : Type 0 where
  echo_event : ℕ → Event D
  if_event : Item D → Event D
  else_event : Event D
  elseif_event : Item D → Event D
  endif_event : Event D

module _ {D : Type 0} where
  -- Whether code is executed now.
  abbrev pub is_active : Machine D → Bool
  is_active m = truth (get_current_state m).0

  abbrev pub with_value : Item D → Machine D → Machine D
  with_value s m = record m { expr = s ∷ m.expr }

  -- One grammar rule: the output is what echo statements printed. The condition of an `elseif` is
  -- evaluated in every case, since `inElseIf` is set; that of an `if` only where code is active.
  unfoldable pub on_event : Event D → Machine D → Machine D
  on_event (echo_event n) m = m
  on_event (if_event s) m = if_handler (if is_active m then with_value s m else m)
  on_event else_event m = else_handler m
  on_event (elseif_event s) m = elseif_handler (with_value s m)
  on_event endif_event m = endif_handler m

  unfoldable pub printed : Event D → Machine D → List ℕ
  printed (echo_event n) m = if is_active m then n ∷ [] else []
  printed (if_event s) m = []
  printed else_event m = []
  printed (elseif_event s) m = []
  printed endif_event m = []

  unfoldable pub run_events : List (Event D) → Machine D → Machine D
  run_events [] m = m
  run_events (e ∷ es) m = run_events es (on_event e m)

  unfoldable pub output : List (Event D) → Machine D → List ℕ
  output [] m = []
  output (e ∷ es) m = printed e m ++ output es (on_event e m)

unfoldable mutual
  pub block_events : {D : Type 0} → Block D → List (Event D)
  block_events done = []
  block_events (echo n b) = echo_event n ∷ block_events b
  block_events (branch s b c rest) =
      if_event s ∷ (block_events b ++ (chain_events c ++ block_events rest))

  pub chain_events : {D : Type 0} → Chain D → List (Event D)
  chain_events fi = endif_event ∷ []
  chain_events (otherwise b) = else_event ∷ (block_events b ++ (endif_event ∷ []))
  chain_events (other_branch s b c) = elseif_event s ∷ (block_events b ++ chain_events c)

-- What a block prints: the first branch of a chain whose condition holds, and no other.
unfoldable mutual
  pub meaning : {D : Type 0} → (ℕ → VarTree D) → Block D → List ℕ
  meaning vars done = []
  meaning vars (echo n b) = n ∷ meaning vars b
  meaning vars (branch s b c rest) =
      (if truth (check_cond vars s) then meaning vars b else chain_meaning vars c)
      ++ meaning vars rest

  pub chain_meaning : {D : Type 0} → (ℕ → VarTree D) → Chain D → List ℕ
  chain_meaning vars fi = []
  chain_meaning vars (otherwise b) = meaning vars b
  chain_meaning vars (other_branch s b c) =
      if truth (check_cond vars s) then meaning vars b else chain_meaning vars c
