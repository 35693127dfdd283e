-- ===== src/Ring/Contents.antt =====
-- The items of a ring buffer, oldest first, and how they change with a slot.
use tyche_engine.Common.{
  ℕ, zero, suc, ◌+◌, ◌-◌, ◌≤◌, ◌<◌, ◌≡◌, refl, ap, ◌∙◌, arith, List, [], ◌∷◌, ◌++◌, length,
}
use tyche_engine.Ring.{RingBuffer, slot_at}

module _ {ℓ} {A : Type ℓ} (blank : A) where
  -- the items at `n` positions from `p` on
  unfoldable pub items : RingBuffer A → ℕ → ℕ → List A
  items r p zero = []
  items r p (suc n) = (slot_at blank r p).item ∷ items r (p + 1) n

  unfoldable pub contents : RingBuffer A → List A
  unfolding items
  contents r = items r r.read_pos (r.write_pos - r.read_pos)

  pub length-items : (r : RingBuffer A) (p n : ℕ) → length (items r p n) ≡ n
  unfolding items
  length-items r p zero = refl
  length-items r p (suc n) = ap suc (length-items r (p + 1) n)

  -- Two buffers that agree on the slots of these positions hold the same items there.
  pub items-agree :
      (r t : RingBuffer A) (p n : ℕ)
      → ((q : ℕ) → p ≤ q → q < p + n → slot_at blank r q ≡ slot_at blank t q)
      → items r p n ≡ items t p n
  unfolding items
  items-agree r t p zero h = refl
  items-agree r t p (suc n) h = λ i.
      (h p (omega arith) (omega arith) i).item
      ∷ items-agree r t (p + 1) n (λ q a b. h q (omega arith) (omega arith)) i

  pub items-snoc :
      (r : RingBuffer A) (p n : ℕ)
      → items r p (suc n) ≡ items r p n ++ ((slot_at blank r (p + n)).item ∷ [])
  unfolding items
  items-snoc r p zero = ap (λ t. (slot_at blank r t).item ∷ []) (omega arith)
  items-snoc r p (suc n) =
      ap (λ t. (slot_at blank r p).item ∷ t)
        (items-snoc r (p + 1) n
          ∙ ap (λ t. items r (p + 1) n ++ ((slot_at blank r t).item ∷ [])) (omega arith))
