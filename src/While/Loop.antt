-- ===== src/While/Loop.antt =====
-- A whole while loop, round after round: the word, the test, the body and endwhile.
use goombaserver.Common.{
  ℕ, zero, suc, ◌+◌, ◌≡◌, Option, none, some, List, [], ◌∷◌, ◌++◌, if◌then◌else◌,
}
use goombaserver.Common.Int.{ℤ}
use goombaserver.Machine.{Item, Machine}
use goombaserver.Cond.Program.{
  Block, is_active, with_value, run_events, output, block_events, meaning,
}
use goombaserver.Cond.Opened.{IsSame}
use goombaserver.While.{while_word, while_handler, endwhile_handler}

module _ {D : Type 0} where
  -- `getnextchar` fetches the next line once the buffer is used up: what it does to the two positions.
  abbrev pub fetch : Machine D → Machine D
  fetch m = record m {
    lexer = record (m.lexer) { seek_pos = m.lexer.pa_pos; linenumber = m.lexer.linenumber + 1 };
  }

  abbrev prepend : List ℕ → Option (List ℕ × Machine D) → Option (List ℕ × Machine D)
  prepend out none = none
  prepend out (some (rest, m)) = some (out ++ rest, m)

  -- The loop at the word `while`, with the values that its condition takes one after another, and
  -- with what stands behind `endwhile` on its line, `rest`: what it prints, and the machine behind
  -- `rest`. `none` is a NULL pointer, or too few values.
  pub run_loop : Block D → Block D → ℤ → List (Item D) → Machine D → Option (List ℕ × Machine D)
  run_loop body rest old [] m = none
  run_loop body rest old (v ∷ vs) m = elim (while_handler (with_value v (while_word m))) [
    | none ↦ none
    | some m1 ↦
        let m2 = endwhile_handler old (run_events (block_events body) m1) in
        let m3 = run_events (block_events rest) m2 in
        let out = output (block_events body) m1 ++ output (block_events rest) m2 in
        let again = prepend out (run_loop body rest old vs (fetch m3)) in
        if is_active m1 then again else some (out, m3)
  ]

abbrev pub times : ℕ → List ℕ → List ℕ
times zero xs = []
times (suc n) xs = xs ++ times n xs

module _ {D : Type 0} (body rest : Block D) (old : ℤ) where
  -- What a round prints.
  abbrev pub round : Machine D → List ℕ
  round b = meaning b.vars body ++ meaning b.vars rest

  -- The loop ran `k` rounds from `b`, and then what stands behind it, and left everything as it was.
  abbrev pub RanTimes : Machine D → ℕ → List ℕ × Machine D → Type 0
  RanTimes b k (out, m) =
      (out ≡ times k (round b) ++ meaning b.vars rest)
      × IsSame b m
      × (m.whiles.live ≡ b.whiles.live)
