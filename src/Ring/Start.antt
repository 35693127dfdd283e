-- ===== src/Ring/Start.antt =====
-- The constructor of ring_buffer.h.
use native.Mathlib.Nat.{mod-eq_of_lt, one-le-pow, pow-le-pow_right}
use tyche_engine.Common.{
  ℕ, zero, suc, ◌+◌, ◌-◌, ◌^◌, ◌≤◌, ◌<◌, ◌≡◌, refl, sym, ap, subst, ◌∙◌, arith, [], length, get_or,
  ltb, if◌then◌else◌,
}
use tyche_engine.Common.Mask.{bit_and-mask}
use tyche_engine.Common.Words.{add_size, sub_size}
use tyche_engine.Ring.{RingBuffer, Slot, next_power_of_2, fresh_slots, new}
use tyche_engine.Ring.Sequences.{IsValid}
use tyche_engine.Ring.Contents
use tyche_engine.Ring.Contents.{contents}

module _ {ℓ} {A : Type ℓ} (blank : A) where
  length-fresh_slots : (i n : ℕ) → length (fresh_slots blank i n) ≡ n
  unfolding fresh_slots
  length-fresh_slots i zero = refl
  length-fresh_slots i (suc n) = ap suc (length-fresh_slots (suc i) n)

  get_or-fresh_slots :
      (i n p : ℕ) (s : Slot A) → p < n → (get_or (fresh_slots blank i n) p s).sequence ≡ i + p
  unfolding fresh_slots
  get_or-fresh_slots i zero p s h = absurd (omega arith)
  get_or-fresh_slots i (suc n) zero s h = omega arith
  get_or-fresh_slots i (suc n) (suc p) s h =
      get_or-fresh_slots (suc i) n p s (omega arith) ∙ (omega arith)

  abbrev made : ℕ → ℕ → RingBuffer A
  made k size = record {
    mask = 2 ^ k - 1;
    write_pos = 0;
    read_pos = 0;
    slots = fresh_slots blank 0 size;
  }

  made-IsValid : (k : ℕ) → 1 ≤ k → k ≤ 62 → IsValid blank k (made k (2 ^ k))
  made-IsValid k h l = record {
    two_slots = h;
    masked = refl;
    cells = length-fresh_slots 0 (2 ^ k);
    behind = omega arith;
    ahead = omega arith;
    room = omega (arith, pow-le-pow_right {n = 2} (omega arith) {i = k} {j = 62} l);
    filled = λ p a b. absurd (omega arith);
    vacant = λ p a b.
        ap
          (λ i.
            (get_or (fresh_slots blank 0 (2 ^ k)) i
              (record { sequence = 0; item = blank })).sequence)
          {y = p} (bit_and-mask k p ∙ mod-eq_of_lt (omega (arith, b)))
        ∙ get_or-fresh_slots 0 (2 ^ k) p _ (omega (arith))
        ∙ (omega arith);
  }

  small : (k : ℕ) → k ≤ 62 → 2 ^ k ≤ 2 ^ 62
  small k l = pow-le-pow_right {n = 2} (omega arith) {i = k} {j = 62} l

  -- If the rounded capacity is a power 2^k of two with k from 1 to 62, the constructor makes a
  -- valid buffer with 2^k slots and no contents.
  pub new-IsValid :
      (k requested : ℕ)
      → next_power_of_2 (if ltb requested 2 then 2 else requested) ≡ 2 ^ k
      → 1 ≤ k
      → k ≤ 62
      → IsValid blank k (new blank requested) × (contents blank (new blank requested) ≡ [])
  unfolding new contents Contents.items
  new-IsValid k requested p h l = (subst (IsValid blank k) (sym built) (made-IsValid k h l), refl)
    where
      mask_eq : sub_size (2 ^ k) 1 ≡ 2 ^ k - 1
      mask_eq = omega (arith, small k l, one-le-pow k 2 (omega arith))

      size_eq : add_size (2 ^ k - 1) 1 ≡ 2 ^ k
      size_eq = omega (arith, small k l, one-le-pow k 2 (omega arith))

      with_mask : ℕ → RingBuffer A
      with_mask mask = record {
        mask = mask;
        write_pos = 0;
        read_pos = 0;
        slots = fresh_slots blank 0 (add_size mask 1);
      }

      built : new blank requested ≡ made k (2 ^ k)
      built = ap with_mask (ap (λ n. sub_size n 1) p ∙ mask_eq) ∙ ap (made k) size_eq
