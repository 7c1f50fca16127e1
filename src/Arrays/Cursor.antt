-- ===== src/Arrays/Cursor.antt =====
-- The functions of src/var.c on arrays: `Reset`, `End`, `Key`, `Next` and `Prev`, which move the
-- head's `lacc`, and `Count`, `ArrayMax` and `ArrayMin`. `GetVar` has found the head `t`.
pub mod Traverse
pub mod Extreme
use goombaserver.Common.{
  ℕ, zero, suc, ◌+◌, Bool, true, false, Option, none, some, List, [], ◌∷◌, Bytes, length, ltb,
  codes, if◌then◌else◌,
}
use goombaserver.Common.Int.{ℤ, pos, ltb_ℤ}
use goombaserver.Floats.{Floats}
use goombaserver.Numerals.{digits}
use goombaserver.Machine.{Kind, lnumber, dnumber, string, variable, array, Link, VarTree, Item}
use goombaserver.Arrays.{Heap, Run, returned, crashed, running, ◌>>=◌, modify}

-- The arguments of a call of `Push`; `none` is a NULL text, for which it does nothing. What `Push` makes
-- of them, with `SubVar` on a text of the type STRING, is behind this.
pub record Pushed : Type 0 where
  pub text : Option Bytes
  pub kind : Kind

-- `Push("",STRING)`.
abbrev pub push_empty : Pushed
push_empty = record { text = some []; kind = string }

abbrev pub link_to : Option ℕ → Link
link_to none = Link.null
link_to (some a) = Link.node a

module _ {D : Type 0} where
  abbrev pub push_value : VarTree D → Pushed
  push_value x = record { text = x.strval; kind = x.kind }

  abbrev pub set_lacc : ℕ → Link → Heap D → Heap D
  set_lacc t l st = modify t (λ x. record x { lacc = l }) st

  unfoldable pub reset : ℕ → Heap D → Pushed × Heap D
  reset t st = (push_value (st.vars t), set_lacc t Link.start st)

  -- `lastnode` is used before it is tested.
  unfoldable pub end : ℕ → Heap D → Run (Pushed × Heap D)
  end t st = elim (st.vars t).lastnode [
    | none ↦ crashed
    | some l ↦ returned (push_value (st.vars l), set_lacc t (st.vars l).prev st)
  ]

  -- The node whose index `Key` gives: behind `lacc`, or the head where `lacc` is NULL or -1.
  abbrev pub key_node : ℕ → Link → (ℕ → VarTree D) → Option ℕ
  key_node t Link.null h = some t
  key_node t Link.start h = some t
  key_node t (Link.node a) h = (h a).next

  abbrev pub push_index : Option ℕ → (ℕ → VarTree D) → Pushed
  push_index none h = push_empty
  push_index (some a) h = record { text = (h a).iname; kind = string }

  unfoldable pub key : ℕ → Heap D → Pushed
  key t st = push_index (key_node t (st.vars t).lacc st.vars) st.vars

  abbrev pub next_link : ℕ → Link → (ℕ → VarTree D) → Link
  next_link t Link.null h = Link.null
  next_link t Link.start h = Link.node t
  next_link t (Link.node a) h = link_to (h a).next

  -- A value is pushed where the link is to a node.
  abbrev pub push_link : Link → (ℕ → VarTree D) → Pushed
  push_link Link.null h = push_empty
  push_link Link.start h = push_empty
  push_link (Link.node a) h = push_value (h a)

  unfoldable pub next : ℕ → Heap D → Pushed × Heap D
  next t st = let l = next_link t (st.vars t).lacc st.vars in (push_link l st.vars, set_lacc t l st)

  abbrev pub prev_link : ℕ → Link → (ℕ → VarTree D) → Link
  prev_link t Link.start h = Link.start
  prev_link t Link.null h = link_to (h t).lastnode
  prev_link t (Link.node a) h = (h a).prev

  unfoldable pub prev : ℕ → Heap D → Pushed × Heap D
  prev t st = let l = prev_link t (st.vars t).lacc st.vars in (push_link l st.vars, set_lacc t l st)

  -- `Count` of the popped `s`.
  unfoldable pub count_item : Item D → (ℕ → VarTree D) → Pushed
  count_item s h = record {
    text = some (elim s.var [ none ↦ codes "0" | some a ↦ digits (h a).count ]);
    kind = lnumber;
  }

-- `strlen(s) < strlen(t)`, with NULL texts where the program stops.
abbrev pub shorter : Option Bytes → Option Bytes → Run Bool
shorter none t = crashed
shorter (some s) none = crashed
shorter (some s) (some t) = returned (ltb (length s) (length t))

module _ {D : Type 0} where
  -- The loop of both, from the node `p` on, with the best node so far.
  unfoldable pub extreme :
      (Kind → VarTree D → VarTree D → Run Bool) → ℕ → (ℕ → VarTree D) → ℕ → Option ℕ → Run ℕ
  extreme better zero h best p = running
  extreme better (suc fuel) h best none = returned best
  extreme better (suc fuel) h best (some a) =
      better (h a).kind (h a) (h best)
      >>= (λ b. extreme better fuel h (if b then a else best) (h a).next)

  -- The switch on the type of the node that was found: a value of another type is not pushed.
  abbrev pub push_best : VarTree D → Option Pushed
  push_best x = elim x.kind [
    | lnumber ↦ some (record { text = x.strval; kind = lnumber })
    | dnumber ↦ some (record { text = x.strval; kind = dnumber })
    | string ↦ some (record { text = x.strval; kind = string })
    | variable ↦ none
    | array ↦ none
  ]

  -- The same for a value that is no variable: here, DNUMBER becomes LNUMBER.
  abbrev pub push_single : Item D → Option Pushed
  push_single s = elim s.kind [
    | lnumber ↦ some (record { text = some s.strval; kind = lnumber })
    | dnumber ↦ some (record { text = some s.strval; kind = lnumber })
    | string ↦ some (record { text = some s.strval; kind = string })
    | variable ↦ none
    | array ↦ none
  ]

  -- What is pushed.
  unfoldable pub push_extreme :
      (Kind → VarTree D → VarTree D → Run Bool) → ℕ → Item D → (ℕ → VarTree D) → Run (Option Pushed)
  unfolding extreme
  push_extreme better fuel s h = elim s.var [
    | none ↦ returned (push_single s)
    | some t ↦ extreme better fuel h t (h t).next >>= (λ best. returned (push_best (h best)))
  ]

module _ {D : Type 0} ⦃F : Floats D⦄ where
  -- Whether `ArrayMax` takes the element `x` of the type `k` for the one that it had.
  unfoldable pub is_larger : Kind → VarTree D → VarTree D → Run Bool
  is_larger lnumber x best = returned (ltb_ℤ best.intval x.intval)
  is_larger dnumber x best = returned (F.ltb best.douval x.douval)
  is_larger string x best = shorter best.strval x.strval
  is_larger variable x best = returned false
  is_larger array x best = returned false

  -- The same of `ArrayMin`.
  unfoldable pub is_smaller : Kind → VarTree D → VarTree D → Run Bool
  is_smaller lnumber x best = returned (ltb_ℤ x.intval best.intval)
  is_smaller dnumber x best = returned (F.ltb x.douval best.douval)
  is_smaller string x best = shorter x.strval best.strval
  is_smaller variable x best = returned false
  is_smaller array x best = returned false

  unfoldable pub array_max : ℕ → Item D → (ℕ → VarTree D) → Run (Option Pushed)
  unfolding push_extreme is_larger
  array_max fuel s h = push_extreme is_larger fuel s h

  unfoldable pub array_min : ℕ → Item D → (ℕ → VarTree D) → Run (Option Pushed)
  unfolding push_extreme is_smaller
  array_min fuel s h = push_extreme is_smaller fuel s h
