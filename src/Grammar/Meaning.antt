-- ===== src/Grammar/Meaning.antt =====
-- A switch statement with a break behind every case prints what it means.
use goombaserver.Common.{
  ℕ, ◌≡◌, refl, ap₂, subst, ◌∙◌, Bool, true, false, ◌||◌, Option, none, some, List, [], ◌∷◌, ◌++◌,
  All, append-nil, if◌then◌else◌, arith,
}
use goombaserver.Common.Int.{ℤ, pos, truth, of_bool}
use goombaserver.Floats.{Floats}
use goombaserver.Machine.{Item, Machine}
use goombaserver.Cond.Program.{Block, is_active, with_value, run_events, block_events, meaning}
use goombaserver.Cond.Opened.{IsSame}
use goombaserver.Cond.Structured.{output-block}
use goombaserver.While.Steps.{Ensures}
use goombaserver.Grammar.{case_rule, break_rule, endswitch_rule}
use goombaserver.Grammar.Choice.{
  prepend, body_then, run_cases, run_default, run_switch, hits, is_value, cases_meaning,
}
use goombaserver.Grammar.Stages.{
  IsIn, IsCase, case_active, run_events-IsCase, switch_opens, default_opens, break_closes,
  switch_closes, case_rule-IsCase,
}

or_truth : (w : ℤ) (h : Bool) → truth (if truth w then w else of_bool h) ≡ (truth w || h)
or_truth w true = ground arith
or_truth w false = ground arith

default_truth :
    (t : Bool) (xs : List ℕ)
    → (if truth (if t then pos 0 else pos 1) then xs else []) ++ [] ≡ (if t then [] else xs)
default_truth true xs = refl
default_truth false xs = append-nil xs

truth-of_bool : (h : Bool) → truth (of_bool h) ≡ h
truth-of_bool true = refl
truth-of_bool false = refl

module _ {D : Type 0} where
  -- The result printed `xs`, and left everything behind it as it was.
  abbrev pub Printed : Machine D → List ℕ → List ℕ × Machine D → Type 0
  Printed b xs (out, m) = (out ≡ xs) × IsSame b m × (m.switches.live ≡ b.switches.live)

  prepended :
      (b : Machine D) (out xs ys : List ℕ) (o : Option (List ℕ × Machine D))
      → out ≡ xs
      → Ensures (Printed b ys) o
      → Ensures (Printed b (xs ++ ys)) (prepend out o)
  prepended b out xs ys none e h = h
  prepended b out xs ys (some (rest, m)) e (p, same, left) = (ap₂ (λ x y. x ++ y) e p, same, left)

module _ {D : Type 0} ⦃F : Floats D⦄ where
  behind_break :
      (b : Machine D) (P : Machine D → Type 0) (ys : List ℕ) (out xs : List ℕ)
      (next : Machine D → Option (List ℕ × Machine D)) (o : Option (Machine D))
      → out ≡ xs
      → Ensures P o
      → ((m : Machine D) → P m → Ensures (Printed b ys) (next m))
      → Ensures (Printed b (xs ++ ys)) (elim o [ none ↦ none | some m' ↦ prepend out (next m') ])
  behind_break b P ys out xs next none e h go = h
  behind_break b P ys out xs next (some m) e h go = prepended b out xs ys (next m) e (go m h)

  body_then-Printed :
      (body : Block D) (next : Machine D → Option (List ℕ × Machine D)) (b m : Machine D)
      (v : Item D) (w r : ℤ) (ys : List ℕ)
      → IsCase b v w r m
      → ((m' : Machine D)
          → IsIn b v (if truth w then w else r) m'
          → Ensures (Printed b ys) (next m'))
      → Ensures
          (Printed b ((if truth r then meaning b.vars body else []) ++ ys))
          (body_then body next m)
  body_then-Printed body next b m v w r ys i go =
      let (_, out) = output-block body m in
      behind_break b (IsIn b v (if truth w then w else r)) ys _ _ next
        (break_rule false (run_events (block_events body) m))
        (out ∙ ap₂ (λ t vars. if t then meaning vars body else []) (case_active i) i.vars_case)
        (break_closes _ (run_events-IsCase body m i)) go

  default-Printed :
      (default : Block D) (b m : Machine D) (v : Item D) (w : ℤ) (o : Option (Machine D))
      → Ensures (IsCase b v w (if truth w then pos 0 else pos 1)) o
      → Ensures (Printed b (if truth w then [] else meaning b.vars default)) (elim o [
        | none ↦ none
        | some m' ↦ body_then default (λ x. some ([], endswitch_rule false x)) m'
      ])
  default-Printed default b m v w none h = h
  default-Printed default b m v w (some m') h =
      subst
        (λ xs.
          Ensures (Printed b xs) (body_then default (λ x. some ([], endswitch_rule false x)) m'))
        (default_truth (truth w) (meaning b.vars default))
        (body_then-Printed default (λ x. some ([], endswitch_rule false x)) b m' v w _ [] h
          (λ x i. let (same, left) = switch_closes x i in (refl, same, left)))

  cases-Printed :
      (cases : List (Item D × Block D)) (default : Block D) (b m : Machine D) (v : Item D) (w : ℤ)
      → All (λ c. is_value c.0.kind ≡ true) cases
      → IsIn b v w m
      → Ensures
          (Printed b (cases_meaning b.vars (truth w) v cases default))
          (run_cases cases (run_default default) m)
  unfolding run_cases run_default cases_meaning
  cases-Printed [] default b m v w _ i = default-Printed default b m v w _ (default_opens m i)
  cases-Printed ((label, body) ∷ cases) default b m v w (value, values) i =
      let hit = hits v label in
      let w' = if truth w then w else of_bool hit in
      subst
        (λ t.
          Ensures
            (Printed b (
              (if t then meaning b.vars body else [])
              ++ cases_meaning b.vars (truth w || hit) v cases default))
            (body_then body (run_cases cases (run_default default))
              (case_rule (with_value label m))))
        (truth-of_bool hit)
        (body_then-Printed body _ b _ v w (of_bool hit) _ (case_rule-IsCase label m value i)
          (λ m' i'.
            subst
              (λ t.
                Ensures (Printed b (cases_meaning b.vars t v cases default))
                  (run_cases cases (run_default default) m'))
              (or_truth w hit) (cases-Printed cases default b m' v w' values i')))

  -- In code that is executed, a switch whose cases are numbers or texts and each end in a break
  -- terminates without reading a NULL pointer: it prints the bodies of the cases that equal its
  -- value, in order, and the default exactly if there is none; the stacks of conditions, matches,
  -- braces and switches, the variables and the reported errors are afterwards what they were.
  pub run_switch_prints :
      (v : Item D) (cases : List (Item D × Block D)) (default : Block D) (b : Machine D)
      → is_active b ≡ true
      → All (λ c. is_value c.0.kind ≡ true) cases
      → Ensures
          (Printed b (cases_meaning b.vars false v cases default))
          (run_switch v cases default b)
  unfolding run_switch
  run_switch_prints v cases default b h values =
      cases-Printed cases default b _ v (pos 0) values (switch_opens v b h)
