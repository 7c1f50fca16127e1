-- ===== src/Nodes/Live.antt =====
-- What the operations on a linked stack do to the live nodes.
use goombaserver.Common.{ℕ, ◌≡◌, refl, List, [], ◌∷◌}
use goombaserver.Nodes.{Nodes, push, push_with, recycle, discard}

module _ {A : Type 0} where
  fresh_of : List ℕ → Nodes A → ℕ
  fresh_of [] r = r.next
  fresh_of (f ∷ fs) r = f

  -- The address that the next pushed node gets.
  pub fresh : Nodes A → ℕ
  unfolding fresh_of
  fresh r = fresh_of r.free r

  push_with_live :
      (fs : List ℕ) (a : A) (r : Nodes A) → (push_with fs a r).live ≡ (fresh_of fs r, a) ∷ r.live
  unfolding push_with fresh_of
  push_with_live [] a r = refl
  push_with_live (f ∷ fs) a r = refl

  pub push_live : (a : A) (r : Nodes A) → (push a r).live ≡ (fresh r, a) ∷ r.live
  unfolding push fresh
  push_live a r = push_with_live r.free a r

  pub recycle_live :
      (r : Nodes A) (x : ℕ × A) (rest : List (ℕ × A)) → r.live ≡ x ∷ rest → (recycle r).live ≡ rest
  unfolding recycle
  recycle_live r (n, a) rest e = rw e

  pub discard_live :
      (r : Nodes A) (x : ℕ × A) (rest : List (ℕ × A)) → r.live ≡ x ∷ rest → (discard r).live ≡ rest
  unfolding discard
  discard_live r (n, a) rest e = rw e
