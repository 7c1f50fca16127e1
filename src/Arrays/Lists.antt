-- ===== src/Arrays/Lists.antt =====
-- What an array of src/var.c is to the scripts: a list of values with their indices. An assignment to
-- an index changes the first entry that has it, or puts a new one at the end.
use goombaserver.Common.{
  ℕ, ◌≡◌, ap, ap₂, refl, Bool, false, Option, none, some, List, [], ◌∷◌, ◌++◌, Bytes, bytes_eq, All,
  if◌then◌else◌,
}
use goombaserver.Common.Int.{ℤ}
use goombaserver.Machine.{Kind, VarTree, Item}

pub record Cell (D : Type 0) : Type 0 where
  pub key : Option Bytes
  pub kind : Kind
  pub strval : Option Bytes
  pub intval : ℤ
  pub douval : D

module _ {D : Type 0} where
  abbrev pub cell : VarTree D → Cell D
  cell x = record {
    key = x.iname;
    kind = x.kind;
    strval = x.strval;
    intval = x.intval;
    douval = x.douval;
  }

  -- A value of the expression stack under an index.
  abbrev pub entry : Bytes → Item D → Cell D
  entry index b = record {
    key = some index;
    kind = b.kind;
    strval = some b.strval;
    intval = b.intval;
    douval = b.douval;
  }

  abbrev pub matches : Bytes → Cell D → Bool
  matches index c = elim c.key [ none ↦ false | some i ↦ bytes_eq i index ]

  unfoldable pub lookup : Bytes → List (Cell D) → Option (Cell D)
  lookup index [] = none
  lookup index (c ∷ cs) = let rest = lookup index cs in if matches index c then some c else rest

  unfoldable pub assign : Bytes → Item D → List (Cell D) → List (Cell D)
  assign index b [] = entry index b ∷ []
  assign index b (c ∷ cs) =
      let rest = assign index b cs in
      if matches index c then record (entry index b) { key = c.key } ∷ cs else c ∷ rest

  -- The values of some nodes.
  abbrev pub cells : (ℕ → VarTree D) → List ℕ → List (Cell D)
  cells h [] = []
  cells h (n ∷ ns) = cell (h n) ∷ cells h ns

  pub cells-append :
      (h : ℕ → VarTree D) (ns ms : List ℕ) → cells h (ns ++ ms) ≡ cells h ns ++ cells h ms
  cells-append h [] ms = refl
  cells-append h (n ∷ ns) ms = ap (λ l. cell (h n) ∷ l) (cells-append h ns ms)

  pub cells-same :
      (h h' : ℕ → VarTree D) (ns : List ℕ)
      → All (λ n. cell (h' n) ≡ cell (h n)) ns
      → cells h' ns ≡ cells h ns
  cells-same h h' [] _ = refl
  cells-same h h' (n ∷ ns) (e, same) = ap₂ (λ c cs. c ∷ cs) e (cells-same h h' ns same)
