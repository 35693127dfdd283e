-- ===== src/Ring/Push.antt =====
-- `try_push`, `push_overwrite` and `push_blocking` of ring_buffer.h on a valid buffer.
use tyche_engine.Common.{
  ℕ, suc, ◌+◌, ◌-◌, ◌^◌, ◌≤◌, ◌<◌, ◌≡◌, ap, ap₂, ◌∙◌, arith, true, false, some, List, [], ◌∷◌, ◌++◌,
  dec_lt, length-set,
}
use tyche_engine.Common.Words.{add_size, gap, is_zero, is_neg, gap-eq, gap-lt}
use tyche_engine.Ring.{Slot, RingBuffer, CasWeak, slot_at, claim, push_loop}
use tyche_engine.Ring.Sequences.{
  IsValid, slots_pos, two_slots_le, slot_at-put_slot_self, slot_at-put_slot_ne, slot_at-put_slot_gt,
  slot_at-round,
}
use tyche_engine.Ring.Contents.{items, contents, items-agree, items-snoc}

-- Some compare-exchange of the list is not disturbed.
abbrev pub Settles : List CasWeak → Type 0
Settles [] = ⊥
Settles (true ∷ cs) = Unit
Settles (false ∷ cs) = Settles cs

module _ {ℓ} {A : Type ℓ} (blank : A) (k : ℕ) {r : RingBuffer A} (v : IsValid blank k r) where
  open v use {two_slots, masked, cells, behind, ahead, room, filled, vacant}

  at_write_vacant :
      r.write_pos < r.read_pos + 2 ^ k
      → is_zero (gap (slot_at blank r r.write_pos).sequence r.write_pos) ≡ true
  at_write_vacant h =
      gap-eq _ r.write_pos (omega (arith, vacant r.write_pos)) (vacant r.write_pos (omega arith) h)

  at_write_full :
      r.write_pos ≡ r.read_pos + 2 ^ k
      → (is_zero (gap (slot_at blank r r.write_pos).sequence r.write_pos) ≡ false)
        × (is_neg (gap (slot_at blank r r.write_pos).sequence r.write_pos) ≡ true)
  at_write_full h =
      gap-lt (slot_at blank r r.write_pos).sequence r.write_pos (omega arith)
        (omega (arith, seq, two_slots_le k two_slots))
    where
      seq : (slot_at blank r r.write_pos).sequence ≡ r.read_pos + 1
      seq =
          ap (λ t. (slot_at blank r t).sequence) h
          ∙ ap (λ (s : Slot A). s.sequence) (slot_at-round blank k r masked r.read_pos)
          ∙ filled r.read_pos (omega arith) (omega (arith, slots_pos k))

  -- With a vacant slot `try_push` claims it, however often a compare-exchange was disturbed before.
  pub push_loop_vacant :
      (cs : List CasWeak) (x : A)
      → Settles cs
      → r.write_pos < r.read_pos + 2 ^ k
      → push_loop blank cs x r r.write_pos ≡ some (true, claim blank r r.write_pos x)
  unfolding push_loop
  push_loop_vacant [] x s h = absurd s
  push_loop_vacant (true ∷ cs) x s h = ground (arith, at_write_vacant h)
  push_loop_vacant (false ∷ cs) x s h = ground (arith, at_write_vacant h, push_loop_vacant cs x s h)

  pub push_loop_full :
      (cs : List CasWeak) (x : A)
      → Settles cs
      → r.write_pos ≡ r.read_pos + 2 ^ k
      → push_loop blank cs x r r.write_pos ≡ some (false, r)
  unfolding push_loop
  push_loop_full [] x s h = absurd s
  push_loop_full (c ∷ cs) x s h = ground (arith, at_write_full h)

  module _ (x : A) (h : r.write_pos < r.read_pos + 2 ^ k) where
    claim_slot_self :
        slot_at blank (claim blank r r.write_pos x) r.write_pos
        ≡ record { sequence = add_size r.write_pos 1; item = x }
    unfolding claim
    claim_slot_self = slot_at-put_slot_self blank k r masked cells r.write_pos _

    claim_slot_before :
        (q : ℕ)
        → r.read_pos ≤ q
        → q < r.write_pos
        → slot_at blank (claim blank r r.write_pos x) q ≡ slot_at blank r q
    unfolding claim
    claim_slot_before q a b = slot_at-put_slot_gt blank k r masked r.write_pos q _ b (omega arith)

    claim_slot_after :
        (q : ℕ)
        → r.write_pos < q
        → q < r.read_pos + 2 ^ k
        → slot_at blank (claim blank r r.write_pos x) q ≡ slot_at blank r q
    unfolding claim
    claim_slot_after q a b = slot_at-put_slot_ne blank k r masked r.write_pos q _ a (omega arith)

    pub claim-IsValid :
        r.write_pos + 2 ^ k + 1 < 2 ^ 63 → IsValid blank k (claim blank r r.write_pos x)
    unfolding claim
    claim-IsValid more = record {
      two_slots = two_slots;
      masked = masked;
      cells = length-set r.slots _ _ ∙ cells;
      behind = omega arith;
      ahead = omega arith;
      room = omega arith;
      filled = λ p a b. filled_after p a b;
      vacant = λ p a b.
          ap (λ (s : Slot A). s.sequence) (claim_slot_after p (omega arith) b)
          ∙ vacant p (omega arith) b;
    }
      where
        filled_after :
            (p : ℕ)
            → r.read_pos ≤ p
            → p < add_size r.write_pos 1
            → (slot_at blank (claim blank r r.write_pos x) p).sequence ≡ p + 1
        filled_after p a b = elim (dec_lt p r.write_pos) [
          | yes old ↦ ap (λ (s : Slot A). s.sequence) (claim_slot_before p a old) ∙ filled p a old
          | no new ↦
              let e : p ≡ r.write_pos = omega arith in
              ap (λ t. (slot_at blank (claim blank r r.write_pos x) t).sequence) e
              ∙ ap (λ (s : Slot A). s.sequence) claim_slot_self
              ∙ omega arith
        ]

    -- A claimed slot is the newest item.
    pub contents-claim : contents blank (claim blank r r.write_pos x) ≡ contents blank r ++ (x ∷ [])
    unfolding contents claim
    contents-claim =
        ap (items blank after r.read_pos) {y = suc held} (omega arith)
        ∙ items-snoc blank after r.read_pos held
        ∙ ap₂ (λ xs y. xs ++ (y ∷ []))
            (items-agree blank after r r.read_pos held
              (λ q a b. claim_slot_before q a (omega arith)))
            (ap (λ t. (slot_at blank after t).item) {y = r.write_pos} (omega arith)
              ∙ ap (λ (s : Slot A). s.item) claim_slot_self)
      where
        after : RingBuffer A
        after = claim blank r r.write_pos x

        held : ℕ
        held = r.write_pos - r.read_pos
