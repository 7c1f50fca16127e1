-- ===== src/Vars/Calls.antt =====
-- Calls of functions, in the frames of src/var.c.
use goombaserver.Common.{
  ℕ, ◌≡◌, refl, ap, ◌∙◌, Option, none, some, List, [], ◌∷◌, Option-cases, inl, inr,
}
use goombaserver.Vars.{
  Frames, push_stack_frame, main_at_push, pop_stack_frame, pop_from, top_after_pop, make_root,
  root_in_frame,
}

-- What a function does to the pointers: it makes variables, of which the first may become the root of
-- a tree, it calls functions, and it runs texts by `eval`. At the end of such a text `FilePop` finds
-- that a function is running, and pops a frame, though `Eval` pushed none.
pub data Body : Type 0 where
  done : Body
  variable : ℕ → Body → Body
  call : Body → Body → Body
  eval : Body → Body → Body

unfoldable pub run_body : Body → Frames → Frames
run_body done f = f
run_body (variable a b) f = run_body b (make_root a f)
run_body (call c b) f = run_body b (pop_stack_frame (run_body c (push_stack_frame f)))
run_body (eval c b) f = run_body b (pop_stack_frame (run_body c f))

-- No text is run by `eval`, in no function that is called either.
unfoldable pub HasNoEval : Body → Type 0
HasNoEval done = Unit
HasNoEval (variable a b) = HasNoEval b
HasNoEval (call c b) = HasNoEval c × HasNoEval b
HasNoEval (eval c b) = ⊥

-- A callee runs on a frame of its own above `below`, and the page's tree is `main`.
abbrev Over : Option ℕ → List (Option ℕ) → Frames → Type 0
Over main below f = (f.var_main ≡ main) × ((own : Option ℕ) × (f.frames ≡ own ∷ below))

push_stack_frame-Over : (f : Frames) → Over (main_at_push f.frames f) f.frames (push_stack_frame f)
unfolding push_stack_frame
push_stack_frame-Over f = (refl, (none, refl))

root_kept :
    (a : ℕ) (own : Option ℕ) (below : List (Option ℕ))
    → (own' : Option ℕ) × (root_in_frame a (own ∷ below) ≡ own' ∷ below)
unfolding root_in_frame
root_kept a none below = (_, refl)
root_kept a (some root) below = (_, refl)

make_root-Over :
    (main : Option ℕ) (below : List (Option ℕ)) (a : ℕ) (f : Frames)
    → Over main below f
    → Over main below (make_root a f)
unfolding make_root
make_root-Over main below a f (m, (own, e)) = elim (Option-cases f.var_top) [
  | inl t ↦
      rw (t, make_root)
        (let (own', k) = root_kept a own below in (m, (own', ap (root_in_frame a) e ∙ k)))
  | inr (root, t) ↦ rw (t, make_root) (m, (own, e))
]

-- What a return leaves.
abbrev Returned : Option ℕ → List (Option ℕ) → Frames → Type 0
Returned main below f =
    (f.var_main ≡ main) × (f.frames ≡ below) × (f.var_top ≡ top_after_pop below main)

pop_stack_frame-Returned :
    (main : Option ℕ) (below : List (Option ℕ)) (f : Frames)
    → Over main below f
    → Returned main below (pop_stack_frame f)
unfolding pop_stack_frame pop_from
pop_stack_frame-Returned main below f (m, (own, e)) =
    rw (e, pop_stack_frame) (m, refl, ap (top_after_pop below) m)

main_kept :
    (own : Option ℕ) (below : List (Option ℕ)) (f : Frames)
    → f.frames ≡ own ∷ below
    → main_at_push f.frames f ≡ f.var_main
unfolding main_at_push
main_kept own below f e = rw (e, main_at_push) refl

run_body-Over :
    (b : Body) (main : Option ℕ) (below : List (Option ℕ)) (f : Frames)
    → HasNoEval b
    → Over main below f
    → Over main below (run_body b f)
unfolding run_body HasNoEval
run_body-Over done main below f no_eval h = h
run_body-Over (variable a b) main below f no_eval h =
    run_body-Over b main below (make_root a f) no_eval (make_root-Over main below a f h)
run_body-Over (eval c b) main below f no_eval h = absurd no_eval
run_body-Over (call c b) main below f (in_callee, no_eval) (m, (own, e)) =
    let inner =
      run_body-Over c (main_at_push f.frames f) f.frames (push_stack_frame f) in_callee
        (push_stack_frame-Over f) in
    let (m', frames', _) = pop_stack_frame-Returned (main_at_push f.frames f) f.frames _ inner in
    run_body-Over b main below _ no_eval (m' ∙ (main_kept own below f e ∙ m), (own, frames' ∙ e))

-- The tree of the caller: the page's, or that of a function; but for a function that has no variable
-- yet it is the page's, too.
abbrev pub caller_tree : List (Option ℕ) → Frames → Option ℕ
caller_tree [] f = f.var_top
caller_tree (none ∷ rest) f = f.var_main
caller_tree (some root ∷ rest) f = some root

caller_lem :
    (frames : List (Option ℕ)) (f : Frames)
    → top_after_pop frames (main_at_push frames f) ≡ caller_tree frames f
unfolding top_after_pop main_at_push
caller_lem [] f = refl
caller_lem (none ∷ rest) f = refl
caller_lem (some root ∷ rest) f = refl

-- For a function that makes variables of its own and calls functions of the same kind, with no `eval`
-- and no `include` in any of them: behind its return the frames are the caller's again, and the
-- current tree is the page's if the page called, and the caller's if it has a variable; but it is the
-- page's, too, if a function called that has no variable yet, so that what that function sets from
-- then on are variables of the page.
pub pop_stack_frame-run_body :
    (b : Body) (f : Frames)
    → HasNoEval b
    → let f' = pop_stack_frame (run_body b (push_stack_frame f)) in
      (f'.frames ≡ f.frames) × (f'.var_top ≡ caller_tree f.frames f)
pop_stack_frame-run_body b f no_eval =
    let inner =
      run_body-Over b (main_at_push f.frames f) f.frames (push_stack_frame f) no_eval
        (push_stack_frame-Over f) in
    let (_, frames, top) = pop_stack_frame-Returned (main_at_push f.frames f) f.frames _ inner in
    (frames, top ∙ caller_lem f.frames f)

-- The frames without the first.
abbrev pub less_one : List (Option ℕ) → List (Option ℕ)
less_one [] = []
less_one (own ∷ rest) = rest
