-- ===== src/Nodes.antt =====
-- The linked stacks of src/cond.c, src/while.c and src/switch.c: nodes with an identity, a top
-- pointer, and a re-use stack that popped nodes are put on.
pub mod Live
pub mod Separate
use goombaserver.Common.{
  ℕ, ◌+◌, ◌≡◌, Bool, true, false, Option, none, some, List, [], ◌∷◌, ◌==◌, if◌then◌else◌, map,
}

-- A node is its address and its content; the first live node is the one that `top` points to.
-- `next` is the address that the allocator gives to the next new node.
pub record Nodes (A : Type 0) : Type 0 where
  pub live : List (ℕ × A)
  pub free : List ℕ
  pub next : ℕ

-- Whether a pointer is the address `n`.
abbrev pub points_to : Option ℕ → ℕ → Bool
points_to none n = false
points_to (some m) n = m == n

module _ {A : Type 0} where
  -- The init functions clear the two pointers; what was allocated is not given back.
  unfoldable pub clear : Nodes A → Nodes A
  clear r = record r { live = []; free = [] }

  push_with : List ℕ → A → Nodes A → Nodes A
  push_with [] a r = record r { live = (r.next, a) ∷ r.live; next = r.next + 1 }
  push_with (f ∷ fs) a r = record r { live = (f, a) ∷ r.live; free = fs }

  -- A node of the re-use stack, or else a new one, becomes the top.
  unfoldable pub push : A → Nodes A → Nodes A
  unfolding push_with
  push a r = push_with r.free a r

  recycle_with : List (ℕ × A) → Nodes A → Nodes A
  recycle_with [] r = r
  recycle_with ((n, a) ∷ rest) r = record r { live = rest; free = n ∷ r.free }

  -- The top node is unlinked and put on the re-use stack.
  unfoldable pub recycle : Nodes A → Nodes A
  unfolding recycle_with
  recycle r = recycle_with r.live r

  discard_with : List (ℕ × A) → Nodes A → Nodes A
  discard_with [] r = r
  discard_with ((n, a) ∷ rest) r = record r { live = rest }

  -- The top node is unlinked and forgotten: src/while.c and src/switch.c have no re-use stack.
  unfoldable pub discard : Nodes A → Nodes A
  unfolding discard_with
  discard r = discard_with r.live r

  -- The top pointer, `none` for NULL.
  abbrev pub first : List (ℕ × A) → Option ℕ
  first [] = none
  first ((n, a) ∷ rest) = some n

  -- The content of the top node.
  abbrev pub head : List (ℕ × A) → Option A
  head [] = none
  head ((n, a) ∷ rest) = some a

  -- `while(top && mark->mark != top) pop();`, with the live nodes left to look at.
  unwind_from : (Nodes A → Nodes A) → Option ℕ → List (ℕ × A) → Nodes A → Nodes A
  unwind_from pop mark [] r = r
  unwind_from pop mark ((n, a) ∷ rest) r =
      let deeper = unwind_from pop mark rest (pop r) in if points_to mark n then r else deeper

  unfoldable pub unwind : (Nodes A → Nodes A) → Option ℕ → Nodes A → Nodes A
  unfolding unwind_from
  unwind pop mark r = unwind_from pop mark r.live r

  -- The contents of the live nodes, top first.
  abbrev pub contents_of : List (ℕ × A) → List A
  contents_of [] = []
  contents_of ((n, a) ∷ rest) = a ∷ contents_of rest

  abbrev pub addresses : List (ℕ × A) → List ℕ
  addresses [] = []
  addresses ((n, a) ∷ rest) = n ∷ addresses rest
