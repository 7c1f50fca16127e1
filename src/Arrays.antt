-- ===== src/Arrays.antt =====
-- Arrays in src/var.c: the variable's node is the first element, and `next` leads from each element to
-- the one behind it.
pub mod Cursor
pub mod Chain
pub mod Lists
pub mod Extend
pub mod Append
pub mod Slots
pub mod Find
pub mod Assign
pub mod Copy
pub mod Whole
pub mod Duplicate
pub mod Unset
pub mod Endless
use goombaserver.Common.{
  ℕ, zero, suc, ◌+◌, Bool, true, false, Option, none, some, List, [], ◌∷◌, Bytes, length, bytes_eq,
  ◌==◌, if◌then◌else◌, ◌||◌,
}
use goombaserver.Common.Int.{negsuc, eqb_ℤ}
use goombaserver.Floats.{Floats, Doubles}
use goombaserver.Numerals.{digits}
use goombaserver.Machine.{Kind, Link, VarTree, Item}
use goombaserver.Vars.Values.{Inc, absolute, inc_flag, set_value, set_element, duplicate}

-- How a call ends on fuel: with a result, at a NULL pointer, or it is still in a loop.
pub data Run {ℓ} (A : Type ℓ) : Type ℓ where
  returned : A → Run A
  crashed running : Run A

infixl 5 ◌>>=◌
abbrev pub ◌>>=◌ {ℓ κ} : {A : Type ℓ} {B : Type κ} → Run A → (A → Run B) → Run B
returned a >>= f = f a
crashed >>= f = crashed
running >>= f = running

-- The nodes by their addresses, and the address that `emalloc` gives next. What stands at an address
-- before it is written is whatever the memory holds.
pub record Heap (D : Type 0) : Type 0 where
  pub vars : ℕ → VarTree D
  pub fresh : ℕ

-- The `prev` of the new node `a` behind `last`.
abbrev pub link_back : ℕ → ℕ → Link
link_back a last = if a == last then Link.start else Link.node last

module _ {D : Type 0} where
  abbrev pub update : ℕ → VarTree D → (ℕ → VarTree D) → ℕ → VarTree D
  update a v h n = if n == a then v else h n

  -- Assignments to fields of the node `a`.
  abbrev pub modify : ℕ → (VarTree D → VarTree D) → Heap D → Heap D
  modify a f st = record st { vars = update a (f (st.vars a)) st.vars }

  -- A node from `emalloc`, with what the source writes into it.
  abbrev pub allocate : (VarTree D → VarTree D) → Heap D → Heap D
  allocate f st = modify st.fresh f (record st { fresh = st.fresh + 1 })

  -- The loop from the node in front, counting: it gives the number and the last node.
  unfoldable pub walk_end : ℕ → (ℕ → VarTree D) → ℕ → ℕ → Option ℕ → Run (ℕ × ℕ)
  walk_end zero h count last p = running
  walk_end (suc fuel) h count last none = returned (count, last)
  walk_end (suc fuel) h count last (some a) = walk_end fuel h (count + 1) a (h a).next

  -- The copy of an element that `copyarray` puts behind `d`; `none` for a NULL text or index.
  unfoldable pub copied : ℕ → VarTree D → Option (VarTree D)
  copied d s = elim s.strval [
    | none ↦ none
    | some text ↦ elim s.iname [
      | none ↦ none
      | some index ↦ some (record s {
        strval = some text;
        allocated = length text + 1;
        iname = some index;
        next = none;
        prev = Link.node d;
        left = none;
        right = none;
        lacc = Link.start;
        lastnode = none;
      })
    ]
  ]

  -- The new node `a` behind `d`.
  abbrev pub link_copy : ℕ → VarTree D → Heap D → Heap D
  link_copy d v st = modify d (λ x. record x { next = some st.fresh }) (allocate (λ old. v) st)

  -- The loop of `copyarray`, with the count, the last copy and the node that the next one goes behind.
  unfoldable pub copy_loop : ℕ → ℕ → Option ℕ → ℕ → Option ℕ → Heap D → Run (ℕ × Option ℕ × Heap D)
  unfolding copied
  copy_loop zero count new d s st = running
  copy_loop (suc fuel) count new d none st = returned (count, new, st)
  copy_loop (suc fuel) count new d (some s) st = elim (copied d (st.vars s)) [
    | none ↦ crashed
    | some v ↦
        let st' = link_copy d v st in
        copy_loop fuel (count + 1) (some st.fresh) st.fresh (st'.vars s).next st'
  ]

  abbrev pub close_copy : ℕ → ℕ × Option ℕ × Heap D → Heap D
  close_copy dvar (count, none, st) = modify dvar (λ x. record x { count = count }) st
  close_copy dvar (count, some new, st) =
      modify dvar (λ x. record x { count = count; lastnode = some new }) st

  -- The elements from `svar` on are copied behind `dvar`.
  unfoldable pub copyarray : ℕ → ℕ → Option ℕ → Heap D → Run (Heap D)
  unfolding copy_loop
  copyarray fuel dvar svar st =
      copy_loop fuel (st.vars dvar).count none dvar svar st >>= (λ r. returned (close_copy dvar r))

  -- `if(var && whole_array && var->next) copyarray(d,var->next);`
  unfoldable pub copy_whole : ℕ → ℕ → Item D → Heap D → Run (Heap D)
  unfolding copyarray
  copy_whole fuel d b st = elim b.var [
    | none ↦ returned st
    | some v ↦
        let copy : Run (Heap D) = elim (st.vars v).next [
          | none ↦ returned st
          | some s ↦ copyarray fuel d (some s) st
        ] in
        if b.flag then copy else returned st
  ]

  -- What `SetVar` writes into a new element behind `last` of the array with the head `t`.
  abbrev pub element : Bytes → ℕ → Inc → Item D → Bytes → VarTree D → Link → VarTree D → VarTree D
  element name scope inc b index t prev old = record old {
    left = t.left;
    right = t.right;
    next = none;
    intval = b.intval;
    douval = b.douval;
    strval = some b.strval;
    allocated = length b.strval + 1;
    name = name;
    kind = b.kind;
    flag = inc_flag inc;
    scope = scope;
    deleted = false;
    iname = some index;
    prev = prev;
  }

  -- The new element is linked in behind `last`, and the head learns of it.
  abbrev pub link_element : ℕ → ℕ → (VarTree D → VarTree D) → Heap D → Heap D
  link_element t last write st =
      let a = st.fresh in
      modify t (λ x. record x { count = x.count + 1; lastnode = some a })
        (modify last (λ x. record x { next = some a }) (allocate write st))

  -- A variable that was unset becomes an array of one element again.
  abbrev pub revive : ℕ → Inc → Item D → ℕ → VarTree D → VarTree D
  revive scope inc b t x = record x {
    strval = some b.strval;
    allocated = length b.strval + 1;
    intval = b.intval;
    douval = b.douval;
    next = none;
    kind = b.kind;
    flag = inc_flag inc;
    scope = scope;
    deleted = false;
    iname = some (digits 0);
    prev = Link.start;
    count = 1;
    lastnode = some t;
  }

  -- The new element goes behind `last`, which is the last of `count` elements.
  unfoldable pub append_behind : ℕ → Bytes → ℕ → Inc → Item D → ℕ → Heap D → ℕ × ℕ → Run (Heap D)
  unfolding copy_whole inc_flag
  append_behind fuel name scope inc b t st (count, last) =
      let write = element name scope inc b (digits count) (st.vars t) (link_back st.fresh last) in
      copy_whole fuel st.fresh b (link_element t last write st)

  -- `SetVar` with mode 1 of the variable with the head `t`.
  unfoldable pub append : ℕ → Bytes → ℕ → Inc → Item D → ℕ → Heap D → Run (Heap D)
  unfolding walk_end append_behind copy_whole inc_flag
  append fuel name scope inc b t st =
      if (st.vars t).deleted
      then copy_whole fuel t b (modify t (revive scope inc b t) st)
      else walk_end fuel st.vars 0 t (some t) >>= append_behind fuel name scope inc b t st

  abbrev pub has_index : Bytes → VarTree D → Bool
  has_index index x = elim x.iname [ none ↦ false | some i ↦ bytes_eq i index ]

  -- The loop of mode 2: the node in front, and the node that has the index.
  unfoldable pub find_slot : ℕ → (ℕ → VarTree D) → Bytes → ℕ → Option ℕ → Run (ℕ × Option ℕ)
  find_slot zero h index last p = running
  find_slot (suc fuel) h index last none = returned (last, none)
  find_slot (suc fuel) h index last (some a) =
      let rest = find_slot fuel h index a (h a).next in
      if has_index index (h a) then returned (last, some a) else rest

  -- The loop of `GetVar` over the elements; a NULL index is the end of the program.
  unfoldable pub find_index : ℕ → (ℕ → VarTree D) → Bytes → Option ℕ → Run (Option ℕ)
  find_index zero h index p = running
  find_index (suc fuel) h index none = returned none
  find_index (suc fuel) h index (some a) =
      let rest = find_index fuel h index (h a).next in
      elim (h a).iname [
        | none ↦ crashed
        | some i ↦ if bytes_eq i index then returned (some a) else rest
      ]

  -- An element that is found gets the count of the array.
  abbrev pub found_element : ℕ → Heap D → Option ℕ → Run (Option ℕ × Heap D)
  found_element t st none = returned (none, st)
  found_element t st (some a) =
      returned (some a, modify a (λ x. record x { count = (st.vars t).count }) st)

  -- A variable that `GetVar` does not show: a GET argument that was secured, or one that was unset.
  abbrev pub is_hidden : VarTree D → Bool
  is_hidden x = eqb_ℤ x.flag (negsuc 1) || x.deleted

  -- The part of `GetVar` behind the search for the head `t`, with an index.
  unfoldable pub get_index : ℕ → Bytes → ℕ → Heap D → Run (Option ℕ × Heap D)
  unfolding find_index
  get_index fuel index t st =
      if is_hidden (st.vars t)
      then returned (none, st)
      else find_index fuel st.vars index (some t) >>= found_element t st

  unfoldable pub deletearray : ℕ → Heap D → Heap D
  deletearray t st =
      modify t
        (λ x. record x {
          count = 1;
          prev = Link.start;
          next = none;
          lacc = Link.start;
          lastnode = some t;
          deleted = true;
          strval = none;
          allocated = elim x.strval [ none ↦ x.allocated | some s ↦ 0 ];
        })
        st

module _ {D : Type 0} ⦃F : Floats D⦄ ⦃X : Doubles D⦄ (replace : Bytes → Bytes → Option Bytes) where
  abbrev pub write_result : ℕ → Option (VarTree D) → Heap D → Run (Heap D)
  write_result a none st = crashed
  write_result a (some v) st = returned (modify a (λ x. v) st)

  -- What mode 2 does with the node that has the index, or behind the last node.
  unfoldable pub set_slot :
      ℕ → Bytes → ℕ → Bytes → Inc → Item D → ℕ → Heap D → ℕ × Option ℕ → Run (Heap D)
  unfolding set_element copy_whole inc_flag
  set_slot fuel name scope index inc b t st (last, some a) =
      write_result a (set_element replace inc b (st.vars a)) st
  set_slot fuel name scope index inc b t st (last, none) =
      let write : VarTree D → VarTree D = λ old.
        record (element name scope inc b index (st.vars t) (link_back st.fresh last) old) {
          count = 1;
        } in
      copy_whole fuel st.fresh b (link_element t last write st)

  -- `SetVar` with mode 2 of the variable with the head `t`.
  unfoldable pub set_index : ℕ → Bytes → ℕ → Bytes → Inc → Item D → ℕ → Heap D → Run (Heap D)
  unfolding find_slot set_slot
  set_index fuel name scope index inc b t st =
      find_slot fuel st.vars index t (some t) >>= set_slot fuel name scope index inc b t st

  -- `SetVar` with mode 0: a whole array is copied only for `=`.
  unfoldable pub set_simple : ℕ → Inc → Item D → ℕ → Heap D → Run (Heap D)
  unfolding set_value copy_whole inc_flag
  set_simple fuel inc b t st =
      write_result t (set_value replace inc b (st.vars t)) st
      >>= (λ st'. elim inc [ absolute ↦ copy_whole fuel t b st' | _ ↦ returned st' ])
