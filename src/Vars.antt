-- ===== src/Vars.antt =====
-- The binary tree of variables in src/var.c: how `GetVar` finds the node of a name, and how `SetVar`
-- finds it or makes it.
pub mod Lookup
pub mod Calls
pub mod Values
use goombaserver.Common.{
  ℕ, Bool, true, false, Option, none, some, List, [], ◌∷◌, Bytes, ltb, if◌then◌else◌, ◌>>=◌,
}

-- A frame's tree; `A` is what a node holds beside its name and its two subtrees.
pub data Tree (A : Type 0) : Type 0 where
  null : Tree A
  node : Tree A → Bytes → A → Tree A → Tree A

-- Where the loop goes from a node.
pub data Side : Type 0 where
  left here right : Side

-- The loop moves `i` over the bytes that the two names share, and goes on at the first that differs;
-- the NUL that ends the shorter name is the smallest byte. It stops where `strcmp` gives 0.
unfoldable pub compare_names : Bytes → Bytes → Side
compare_names [] [] = here
compare_names [] (d ∷ t) = left
compare_names (c ∷ s) [] = right
compare_names (c ∷ s) (d ∷ t) =
    let rest = compare_names s t in if ltb c d then left else if ltb d c then right else rest

module _ {A : Type 0} where
  -- A new node, which takes the place of the NULL that the loop came to.
  abbrev pub new_node : Bytes → A → Tree A
  new_node s a = node null s a null

  -- The search of `GetVar`, up to a node of the name.
  unfoldable pub find_node : Bytes → Tree A → Option A
  find_node s null = none
  find_node s (node l name a r) =
      let in_l = find_node s l in
      let in_r = find_node s r in
      elim (compare_names s name) [ left ↦ in_l | here ↦ some a | right ↦ in_r ]

  -- `GetVar` of a name, for code of the page itself: a node of the tree is given unless it is `hidden`,
  -- that is deleted or a variable of the browser in secure mode. A function goes on from a node that
  -- stands for a global or a static variable; where the tree has no node, the environment is asked.
  unfoldable pub get_node : (A → Bool) → Bytes → Tree A → Option A
  unfolding find_node
  get_node hidden s t = find_node s t >>= λ a. if hidden a then none else some a

  -- The loop of `SetVar`: a node that is found is changed, and otherwise a new one is put where the
  -- loop came to a NULL.
  unfoldable pub set_node : Bytes → A → (A → A) → Tree A → Tree A
  set_node s new change null = new_node s new
  set_node s new change (node l name a r) =
      let in_l = set_node s new change l in
      let in_r = set_node s new change r in
      elim (compare_names s name) [
        | left ↦ node in_l name a r
        | here ↦ node l name (change a) r
        | right ↦ node l name a in_r
      ]

-- The stack of frames: `var_top` and `var_main` point to the roots of the current tree and of the
-- page's tree, and each called function has a pointer to its own, which is NULL until it has a
-- variable.
pub record Frames : Type 0 where
  pub var_main : Option ℕ
  pub var_top : Option ℕ
  pub frames : List (Option ℕ)

unfoldable pub init_symbol_tree : Frames
init_symbol_tree = record { var_main = none; var_top = none; frames = [] }

unfoldable pub main_at_push : List (Option ℕ) → Frames → Option ℕ
main_at_push [] f = f.var_top
main_at_push (x ∷ xs) f = f.var_main

unfoldable pub push_stack_frame : Frames → Frames
unfolding main_at_push
push_stack_frame f = record {
  var_main = main_at_push f.frames f;
  var_top = none;
  frames = none ∷ f.frames;
}

-- The current tree when the frames `rest` are left.
unfoldable pub top_after_pop : List (Option ℕ) → Option ℕ → Option ℕ
top_after_pop [] main = main
top_after_pop (none ∷ rest) main = main
top_after_pop (some root ∷ rest) main = some root

unfoldable pub pop_from : List (Option ℕ) → Frames → Frames
pop_from [] f = f
pop_from (old ∷ rest) f = record f { frames = rest; var_top = top_after_pop rest f.var_main }

unfoldable pub pop_stack_frame : Frames → Frames
unfolding pop_from top_after_pop
pop_stack_frame f = pop_from f.frames f

unfoldable pub root_in_frame : ℕ → List (Option ℕ) → List (Option ℕ)
root_in_frame a [] = []
root_in_frame a (none ∷ rest) = some a ∷ rest
root_in_frame a (some root ∷ rest) = some root ∷ rest

-- What `SetVar` does to the pointers when it makes the first node `a` of a tree.
unfoldable pub make_root : ℕ → Frames → Frames
unfolding root_in_frame
make_root a f = elim f.var_top [
  | none ↦ record f { var_top = some a; frames = root_in_frame a f.frames }
  | some root ↦ f
]
