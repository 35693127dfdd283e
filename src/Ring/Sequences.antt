-- ===== src/Ring/Sequences.antt =====
-- The invariant of ring_buffer.h: which slot carries which sequence number.
use Prim.Native.Nat.{bit_and}
use native.Mathlib.Nat.{one-le-pow, mod-lt, pow-le-pow_right}
use tyche_engine.Common.{
  ℕ, ◌+◌, ◌-◌, ◌%◌, ◌^◌, ◌≤◌, ◌<◌, ◌≡◌, ◌∙◌, ap, arith, length, get_or, get_or-set_self,
  get_or-set_ne,
}
use tyche_engine.Common.Mask.{bit_and-mask}
use tyche_engine.Common.Modulus.{same_cell, other_cell}
use tyche_engine.Ring.{Slot, RingBuffer, slot_at, put_slot}

pub slots_pos : (k : ℕ) → 1 ≤ 2 ^ k
slots_pos k = one-le-pow k 2 (omega arith)

pub two_slots_le : (k : ℕ) → 1 ≤ k → 2 ≤ 2 ^ k
two_slots_le k h = pow-le-pow_right {n = 2} (omega arith) {i = 1} {j = k} h

module _ {ℓ} {A : Type ℓ} (blank : A) where
  -- With `2 ^ k` slots: the positions from `read_pos` to `write_pos` are filled, those from
  -- `write_pos` to one round after `read_pos` are vacant, and no position has passed `2 ^ 63`.
  pub record IsValid (k : ℕ) (r : RingBuffer A) : Type ℓ where
    pub two_slots : 1 ≤ k
    pub masked : r.mask ≡ 2 ^ k - 1
    pub cells : length r.slots ≡ 2 ^ k
    pub behind : r.read_pos ≤ r.write_pos
    pub ahead : r.write_pos ≤ r.read_pos + 2 ^ k
    pub room : r.write_pos + 2 ^ k < 2 ^ 63
    pub filled : (p : ℕ) → r.read_pos ≤ p → p < r.write_pos → (slot_at blank r p).sequence ≡ p + 1
    pub vacant :
        (p : ℕ) → r.write_pos ≤ p → p < r.read_pos + 2 ^ k → (slot_at blank r p).sequence ≡ p

  module _ (k : ℕ) (r : RingBuffer A) (masked : r.mask ≡ 2 ^ k - 1) where
    cell : (p : ℕ) → bit_and p r.mask ≡ p % 2 ^ k
    cell p = ap (λ t. bit_and p t) masked ∙ bit_and-mask k p

    pub slot_at-put_slot_self :
        length r.slots ≡ 2 ^ k
        → (p : ℕ) (s : Slot A)
        → get_or (put_slot blank r p s) (bit_and p r.mask) (record { sequence = 0; item = blank })
          ≡ s
    slot_at-put_slot_self cells p s =
        get_or-set_self r.slots (bit_and p r.mask) s _
          (omega (arith, cell p, mod-lt p (slots_pos k)))

    pub slot_at-put_slot_ne :
        (p q : ℕ) (s : Slot A)
        → p < q
        → q < p + 2 ^ k
        → get_or (put_slot blank r p s) (bit_and q r.mask) (record { sequence = 0; item = blank })
          ≡ slot_at blank r q
    slot_at-put_slot_ne p q s h l =
        get_or-set_ne r.slots (bit_and p r.mask) (bit_and q r.mask) s _
          (λ e. other_cell p q (2 ^ k) h l (omega (arith, cell p, cell q, e)))

    pub slot_at-put_slot_gt :
        (p q : ℕ) (s : Slot A)
        → q < p
        → p < q + 2 ^ k
        → get_or (put_slot blank r p s) (bit_and q r.mask) (record { sequence = 0; item = blank })
          ≡ slot_at blank r q
    slot_at-put_slot_gt p q s h l =
        get_or-set_ne r.slots (bit_and p r.mask) (bit_and q r.mask) s _
          (λ e. other_cell q p (2 ^ k) h l (omega (arith, cell p, cell q, e)))

    pub slot_at-round : (p : ℕ) → slot_at blank r (p + 2 ^ k) ≡ slot_at blank r p
    slot_at-round p =
        ap (λ t. get_or r.slots t (record { sequence = 0; item = blank }))
          (cell (p + 2 ^ k) ∙ same_cell p (2 ^ k) ∙ (omega (arith, cell p)))
