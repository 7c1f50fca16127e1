-- ===== src/Cond/Marks.antt =====
-- The marks of src/cond.c: a function's body or an eval that is left early gives the caller's
-- conditions and matches back.
use goombaserver.Common.{ℕ, ◌≡◌, refl, ap, subst, ◌∙◌, Option, List, [], ◌∷◌, ◌++◌, Distinct, arith}
use goombaserver.Common.Int.{ℤ}
use goombaserver.Nodes.{Nodes, recycle, unwind, first, addresses}
use goombaserver.Nodes.Live.{fresh, push_live, recycle_live}
use goombaserver.Nodes.Separate.{IsSeparate, unwind_live, Distinct-append}
use goombaserver.Machine.{CondStack, Machine}
use goombaserver.Cond.{push_cond_match_marks, pop_cond_match_marks, unwind_conds, unwind_matches}
use goombaserver.Cond.Apart.{IsApart}

Distinct-live : {A : Type 0} (r : Nodes A) → IsSeparate r → Distinct (addresses r.live)
Distinct-live r h = Distinct-append (addresses r.live) r.free h.distinct

module _ {D : Type 0} where
  -- `m'` stands for the caller's machine `m` after a callee ran on it: the marks that were pushed are
  -- on top, and what the callee pushed lies on the caller's conditions and matches.
  pub record IsCallee (m m' : Machine D) : Type 0 where
    pub conds_above : List (ℕ × CondStack)
    pub matches_above : List (ℕ × ℤ)
    pub conds_kept : m'.conds.live ≡ conds_above ++ m.conds.live
    pub matches_kept : m'.matches.live ≡ matches_above ++ m.matches.live
    pub cond_mark_at : ℕ
    pub match_mark_at : ℕ
    pub cond_marks_kept :
        m'.cond_marks.live ≡ (cond_mark_at, first m.conds.live) ∷ m.cond_marks.live
    pub match_marks_kept :
        m'.match_marks.live ≡ (match_mark_at, first m.matches.live) ∷ m.match_marks.live

  -- The marks that `PushCondMatchMarks` leaves make the machine a callee's.
  pub push_marks-IsCallee : (m : Machine D) → IsCallee m (push_cond_match_marks m)
  unfolding push_cond_match_marks
  push_marks-IsCallee m = record {
    conds_above = [];
    matches_above = [];
    conds_kept = refl;
    matches_kept = refl;
    cond_mark_at = fresh m.cond_marks;
    match_mark_at = fresh m.match_marks;
    cond_marks_kept = push_live _ _;
    match_marks_kept = push_live _ _;
  }

  unwind_conds_top :
      (m' : Machine D) {n : ℕ} {mark : Option ℕ} {rest : List (ℕ × Option ℕ)}
      → m'.cond_marks.live ≡ (n, mark) ∷ rest
      → unwind_conds m'
        ≡ record m' { conds = unwind recycle mark m'.conds; cond_marks = recycle m'.cond_marks }
  unfolding unwind_conds
  unwind_conds_top m' e = ground arith

  unwind_matches_top :
      (m' : Machine D) {n : ℕ} {mark : Option ℕ} {rest : List (ℕ × Option ℕ)}
      → m'.match_marks.live ≡ (n, mark) ∷ rest
      → unwind_matches m' ≡ record m' {
        matches = unwind recycle mark m'.matches;
        match_marks = recycle m'.match_marks;
      }
  unfolding unwind_matches
  unwind_matches_top m' e = ground arith

  -- Popping the marks gives the caller its conditions, its matches and its marks back, whatever the
  -- callee left open; the open braces are not touched.
  pub pop_marks-restore :
      (m m' : Machine D)
      → IsApart m'
      → IsCallee m m'
      → let r = pop_cond_match_marks m' in
        (r.conds.live ≡ m.conds.live)
        × (r.matches.live ≡ m.matches.live)
        × (r.cond_marks.live ≡ m.cond_marks.live)
        × (r.match_marks.live ≡ m.match_marks.live)
        × (r.braces ≡ m'.braces)
  unfolding pop_cond_match_marks
  pop_marks-restore m m' apart c =
      let steps = unwind_matches_top (unwind_conds m') (
        ap (λ x. x.match_marks.live) (unwind_conds_top m' c.cond_marks_kept)
        ∙ c.match_marks_kept) in
      rw steps (
        rw (unwind_conds_top m' c.cond_marks_kept) (
          unwind_live recycle recycle_live c.conds_above m.conds.live m'.conds
              (subst (λ l. Distinct (addresses l)) c.conds_kept
                (Distinct-live m'.conds apart.conds_apart))
              c.conds_kept,
          unwind_live recycle recycle_live c.matches_above m.matches.live m'.matches
              (subst (λ l. Distinct (addresses l)) c.matches_kept
                (Distinct-live m'.matches apart.matches_apart))
              c.matches_kept,
          recycle_live _ _ _ c.cond_marks_kept,
          recycle_live _ _ _ c.match_marks_kept,
          refl,
        ))

  unwind_conds-braces :
      (m : Machine D)
      → ((unwind_conds m).braces ≡ m.braces) × ((unwind_conds m).brace_marks ≡ m.brace_marks)
  unfolding unwind_conds
  unwind_conds-braces m = ground arith

  unwind_matches-braces :
      (m : Machine D)
      → ((unwind_matches m).braces ≡ m.braces) × ((unwind_matches m).brace_marks ≡ m.brace_marks)
  unfolding unwind_matches
  unwind_matches-braces m = ground arith

  -- `PushCondMatchMarks` marks the open braces too, but `PopCondMatchMarks` leaves that mark and the
  -- open braces as it finds them: a callee's open braces stay open, and each call leaves one mark.
  pub pop_marks-braces :
      (m m' : Machine D)
      → ((pop_cond_match_marks m').braces ≡ m'.braces)
        × ((pop_cond_match_marks m').brace_marks ≡ m'.brace_marks)
        × ((pop_cond_match_marks (push_cond_match_marks m)).brace_marks.live
            ≡ (fresh m.brace_marks, first m.braces.live) ∷ m.brace_marks.live)
  unfolding pop_cond_match_marks
  pop_marks-braces m m' =
      let (b, k) = unwind_conds-braces m' in
      let (b', k') = unwind_matches-braces (unwind_conds m') in
      let p = push_cond_match_marks m in
      let q = (unwind_matches-braces (unwind_conds p)).1 ∙ (unwind_conds-braces p).1 in
      (b' ∙ b, k' ∙ k, ap (λ r. r.live) q ∙ (unfold push_cond_match_marks in push_live _ _))
