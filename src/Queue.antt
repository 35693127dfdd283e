-- ===== src/Queue.antt =====
-- A queue of at most `cap` items, oldest first: what a ring buffer and a topic queue promise.
pub mod Newest
use tyche_engine.Common.{
  ℕ, zero, suc, Bool, true, false, Option, none, some, List, [], ◌∷◌, ◌++◌, length, ltb,
  if◌then◌else◌,
}

module _ {ℓ} {A : Type ℓ} where
  abbrev pub tail : List A → List A
  tail [] = []
  tail (x ∷ xs) = xs

  abbrev pub head? : List A → Option A
  head? [] = none
  head? (x ∷ xs) = some x

  -- The new item is refused if the queue is full.
  abbrev pub offer : ℕ → A → List A → Bool × List A
  offer cap x q = if ltb (length q) cap then (true, q ++ (x ∷ [])) else (false, q)

  -- The oldest item makes room for the new one if the queue is full.
  abbrev pub offer_overwrite : ℕ → A → List A → List A
  offer_overwrite cap x q = if ltb (length q) cap then q ++ (x ∷ []) else tail q ++ (x ∷ [])

  abbrev pub drop : ℕ → List A → List A
  drop zero xs = xs
  drop (suc n) [] = []
  drop (suc n) (x ∷ xs) = drop n xs
