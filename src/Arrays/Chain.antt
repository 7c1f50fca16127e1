-- ===== src/Arrays/Chain.antt =====
-- The nodes of an array of src/var.c, in order, and what a change of single nodes leaves of them.
use goombaserver.Common.{
  ℕ, zero, suc, ◌+◌, ◌<◌, ◌≤◌, ◌≡◌, ◌≢◌, refl, sym, ap, ◌∙◌, Option, none, some, List, [], ◌∷◌,
  ◌++◌, length, All, All-append, Lacks, Distinct, arith,
}
use goombaserver.Machine.{VarTree}
use goombaserver.Arrays.{returned, Heap, walk_end}

-- The last of some nodes, of which the first is given.
abbrev pub last_of : ℕ → List ℕ → ℕ
last_of a [] = a
last_of a (b ∷ ns) = last_of b ns

Lacks-last : (x y : ℕ) (ys : List ℕ) → Lacks x (y ∷ ys) → x ≢ last_of y ys
Lacks-last x y [] (ne, _) = ne
Lacks-last x y (z ∷ zs) (_, l) = Lacks-last x z zs l

pub last-below : (b x : ℕ) (xs : List ℕ) → All (λ n. n < b) (x ∷ xs) → last_of x xs < b
last-below b x [] (lt, _) = lt
last-below b x (y ∷ ys) (_, below) = last-below b y ys below

pub last-append : (x : ℕ) (xs : List ℕ) (a : ℕ) → last_of x (xs ++ a ∷ []) ≡ a
last-append x [] a = refl
last-append x (y ∷ ys) a = last-append y ys a

-- An address that was not given yet.
pub Lacks-fresh : (b : ℕ) (ns : List ℕ) → All (λ n. n < b) ns → Lacks b ns
Lacks-fresh b [] _ = tt
Lacks-fresh b (n ∷ ns) (lt, below) = (λ e. omega (arith, lt, e), Lacks-fresh b ns below)

pub below-more : (b b' : ℕ) (ns : List ℕ) → b ≤ b' → All (λ n. n < b) ns → All (λ n. n < b') ns
below-more b b' [] le _ = tt
below-more b b' (n ∷ ns) le (lt, below) = (omega (arith, lt, le), below-more b b' ns le below)

Lacks-snoc : (n b : ℕ) (ns : List ℕ) → Lacks n ns → n ≢ b → Lacks n (ns ++ b ∷ [])
Lacks-snoc n b ns l ne = All-append (λ m. n ≢ m) ns (b ∷ []) l (ne, tt)

pub Distinct-snoc : (b : ℕ) (ns : List ℕ) → Distinct ns → Lacks b ns → Distinct (ns ++ b ∷ [])
Distinct-snoc b [] d l = (tt, tt)
Distinct-snoc b (n ∷ ns) (l', d) (ne, l) =
    (Lacks-snoc n b ns l' (λ e. ne (sym e)), Distinct-snoc b ns d l)

module _ {D : Type 0} where
  -- From `p` the `next` pointers lead through the nodes `ns` to NULL.
  abbrev pub Chain : (ℕ → VarTree D) → Option ℕ → List ℕ → Type 0
  Chain h p [] = p ≡ none
  Chain h p (a ∷ ns) = (p ≡ some a) × Chain h (h a).next ns

  -- The head `t` and the nodes behind it: they are different, they were allocated, and the head knows
  -- their number and the last of them.
  abbrev pub IsArray : Heap D → ℕ → List ℕ → Type 0
  IsArray st t ns =
      Chain st.vars (some t) (t ∷ ns)
      × Distinct (t ∷ ns)
      × All (λ n. n < st.fresh) (t ∷ ns)
      × ((st.vars t).count ≡ suc (length ns))
      × ((st.vars t).lastnode ≡ some (last_of t ns))

  -- Enough fuel for the loop is one more than there are nodes.
  pub walk_end-Chain :
      (fuel : ℕ) (h : ℕ → VarTree D) (count last : ℕ) (p : Option ℕ) (ns : List ℕ)
      → Chain h p ns
      → length ns < fuel
      → walk_end fuel h count last p ≡ returned (count + length ns, last_of last ns)
  unfolding walk_end
  walk_end-Chain zero h count last p ns c lt = absurd (omega (arith, lt))
  walk_end-Chain (suc fuel) h count last p [] e lt = rw e (ground arith)
  walk_end-Chain (suc fuel) h count last p (a ∷ ns) (e, c) lt = rw e (
      walk_end-Chain fuel h (count + 1) a (h a).next ns c (omega (arith, lt))
      ∙ ap (λ n. returned (n, last_of a ns)) (omega arith))

  -- Nodes whose `next` stays are a chain still.
  pub Chain-same :
      (h h' : ℕ → VarTree D) (p : Option ℕ) (ns : List ℕ)
      → All (λ n. (h' n).next ≡ (h n).next) ns
      → Chain h p ns
      → Chain h' p ns
  Chain-same h h' p [] same c = c
  Chain-same h h' p (a ∷ ns) (s, same) (e, c) = (e, rw s (Chain-same h h' (h a).next ns same c))

  -- All but the last of the nodes keep their `next`, and the last one leads to `q`.
  abbrev pub Linked : (ℕ → VarTree D) → (ℕ → VarTree D) → Option ℕ → ℕ → List ℕ → Type 0
  Linked h h' q x [] = (h' x).next ≡ q
  Linked h h' q x (y ∷ ys) = ((h' x).next ≡ (h x).next) × Linked h h' q y ys

  -- What the last node is led to continues the chain.
  pub Chain-append :
      (h h' : ℕ → VarTree D) (p q : Option ℕ) (x : ℕ) (xs more : List ℕ)
      → Chain h p (x ∷ xs)
      → Linked h h' q x xs
      → Chain h' q more
      → Chain h' p (x ∷ xs ++ more)
  Chain-append h h' p q x [] more (e, c) l c' = (e, rw l c')
  Chain-append h h' p q x (y ∷ ys) more (e, c) (s, l) c' =
      (e, rw s (Chain-append h h' (h x).next q y ys more c l c'))

  -- Of the nodes below `b`, only the last is changed.
  pub Linked-last :
      (h h' : ℕ → VarTree D) (q : Option ℕ) (b x : ℕ) (xs : List ℕ)
      → Distinct (x ∷ xs)
      → All (λ n. n < b) (x ∷ xs)
      → ((n : ℕ) → n < b → n ≢ last_of x xs → (h' n).next ≡ (h n).next)
      → (h' (last_of x xs)).next ≡ q
      → Linked h h' q x xs
  Linked-last h h' q b x [] d below same e = e
  Linked-last h h' q b x (y ∷ ys) (l, d) (lt, below) same e =
      (same x lt (Lacks-last x y ys l), Linked-last h h' q b y ys d below same e)
