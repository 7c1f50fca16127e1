-- ===== src/Grammar/Choice.antt =====
-- A whole switch statement, with a break behind every case: the tokens and what they mean.
use goombaserver.Common.{
  ℕ, Bool, true, false, ◌||◌, Option, none, some, List, [], ◌∷◌, ◌++◌, if◌then◌else◌,
}
use goombaserver.Common.Int.{ℤ, pos}
use goombaserver.Floats.{Floats}
use goombaserver.Machine.{
  Kind, lnumber, dnumber, string, variable, array, VarTree, Item, SwitchStack, Machine,
}
use goombaserver.Cond.Program.{Block, with_value, run_events, output, block_events, meaning}
use goombaserver.Switch.{same_value}
use goombaserver.Grammar.{switch_rule, case_rule, break_rule, default_rule, endswitch_rule}

abbrev pub prepend :
    {D : Type 0} → List ℕ → Option (List ℕ × Machine D) → Option (List ℕ × Machine D)
prepend out none = none
prepend out (some (rest, m)) = some (out ++ rest, m)

-- The type of a number or of a text, and of nothing else.
abbrev pub is_value : Kind → Bool
is_value lnumber = true
is_value dnumber = true
is_value string = true
is_value variable = false
is_value array = false

-- The entry on the stack of switches for the value `v`.
abbrev pub entry : {D : Type 0} → Item D → ℤ → SwitchStack D
entry v matched = record {
  kind = v.kind;
  matched = matched;
  intval = v.intval;
  douval = v.douval;
  strval = v.strval;
}

module _ {D : Type 0} ⦃F : Floats D⦄ where
  -- A body and the break behind it, and then what follows.
  abbrev pub body_then :
      Block D → (Machine D → Option (List ℕ × Machine D)) → Machine D → Option (List ℕ × Machine D)
  body_then body next m = elim (break_rule false (run_events (block_events body) m)) [
    | none ↦ none
    | some m' ↦ prepend (output (block_events body) m) (next m')
  ]

  -- The cases of a switch, each a value with the statements up to its break.
  unfoldable pub run_cases :
      List (Item D × Block D)
      → (Machine D → Option (List ℕ × Machine D))
      → Machine D
      → Option (List ℕ × Machine D)
  run_cases [] next m = next m
  run_cases ((label, body) ∷ cases) next m =
      body_then body (run_cases cases next) (case_rule (with_value label m))

  unfoldable pub run_default : Block D → Machine D → Option (List ℕ × Machine D)
  run_default body m = elim (default_rule false m) [
    | none ↦ none
    | some m' ↦ body_then body (λ x. some ([], endswitch_rule false x)) m'
  ]

  -- What a switch over the value `v` prints, and the machine behind it; `none` is a NULL pointer.
  unfoldable pub run_switch :
      Item D → List (Item D × Block D) → Block D → Machine D → Option (List ℕ × Machine D)
  unfolding run_default
  run_switch v cases default m =
      run_cases cases (run_default default) (switch_rule false (with_value v m))

  abbrev pub hits : Item D → Item D → Bool
  hits v label = elim (same_value label (entry v (pos 0)) label.kind) [ none ↦ false | some r ↦ r ]

  -- The bodies of the cases whose value is that of the switch, and if there is none the default.
  unfoldable pub cases_meaning :
      (ℕ → VarTree D) → Bool → Item D → List (Item D × Block D) → Block D → List ℕ
  cases_meaning vars matched v [] default = if matched then [] else meaning vars default
  cases_meaning vars matched v ((label, body) ∷ cases) default =
      (if hits v label then meaning vars body else [])
      ++ cases_meaning vars (matched || hits v label) v cases default
