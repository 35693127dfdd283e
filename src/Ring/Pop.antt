-- ===== src/Ring/Pop.antt =====
-- `pop` of ring_buffer.h, and the discarding step of `push_overwrite`, on a valid buffer.
use tyche_engine.Common.{
  ℕ, suc, ◌+◌, ◌-◌, ◌^◌, ◌≤◌, ◌<◌, ◌≡◌, sym, ap, ap₂, ◌∙◌, arith, some, none, ◌∷◌, dec_lt,
  length-set,
}
use tyche_engine.Common.Words.{add_size, gap-eq, gap-lt}
use tyche_engine.Ring.{Slot, RingBuffer, slot_at, put_slot, discard, pop}
use tyche_engine.Ring.Sequences.{
  IsValid, slots_pos, slot_at-put_slot_self, slot_at-put_slot_ne, slot_at-round,
}
use tyche_engine.Ring.Contents.{items, contents, items-agree}

-- What `push_overwrite` does to make room is a `pop` whose item is thrown away.
pub discard-pop {ℓ} :
    {A : Type ℓ} (blank : A) (r : RingBuffer A) → discard blank r ≡ (pop blank r).1
unfolding discard pop
discard-pop blank r = ground arith

module _ {ℓ} {A : Type ℓ} (blank : A) (k : ℕ) {r : RingBuffer A} (v : IsValid blank k r) where
  open v use {two_slots, masked, cells, behind, ahead, room, filled, vacant}

  -- The buffer after the slot at `read_pos` has been freed.
  abbrev pub freed : RingBuffer A
  freed = record r {
    slots = put_slot blank r r.read_pos (record {
      sequence = add_size (add_size r.read_pos r.mask) 1;
      item = (slot_at blank r r.read_pos).item;
    });
    read_pos = add_size r.read_pos 1;
  }

  pub pop-none : r.read_pos ≡ r.write_pos → pop blank r ≡ (none, r)
  unfolding pop
  pop-none e = ground (
    arith,
    gap-lt (slot_at blank r r.read_pos).sequence (add_size r.read_pos 1)
        (omega (arith, slots_pos k))
        (omega (arith, slots_pos k, vacant r.read_pos (omega arith) (omega (arith, slots_pos k)))),
  )

  pub pop-some :
      r.read_pos < r.write_pos → pop blank r ≡ (some (slot_at blank r r.read_pos).item, freed)
  unfolding pop
  pop-some h = ground (
    arith,
    gap-eq (slot_at blank r r.read_pos).sequence (add_size r.read_pos 1)
        (omega (arith, filled r.read_pos (omega arith) h))
        (omega (arith, filled r.read_pos (omega arith) h)),
  )

  freed_slot_self : slot_at blank freed r.read_pos ≡ record {
    sequence = add_size (add_size r.read_pos r.mask) 1;
    item = (slot_at blank r r.read_pos).item;
  }
  freed_slot_self = slot_at-put_slot_self blank k r masked cells r.read_pos _

  freed_slot_other :
      (q : ℕ) → r.read_pos < q → q < r.read_pos + 2 ^ k → slot_at blank freed q ≡ slot_at blank r q
  freed_slot_other q a b = slot_at-put_slot_ne blank k r masked r.read_pos q _ a b

  module _ (h : r.read_pos < r.write_pos) where
    pub freed-IsValid : IsValid blank k freed
    freed-IsValid = record {
      two_slots = two_slots;
      masked = masked;
      cells = length-set r.slots _ _ ∙ cells;
      behind = omega arith;
      ahead = omega arith;
      room = omega arith;
      filled = λ p a b.
          ap (λ (s : Slot A). s.sequence) (freed_slot_other p (omega arith) (omega arith))
          ∙ filled p (omega arith) b;
      vacant = λ p a b. vacant_after p a b;
    }
      where
        vacant_after :
            (p : ℕ)
            → r.write_pos ≤ p
            → p < add_size r.read_pos 1 + 2 ^ k
            → (slot_at blank freed p).sequence ≡ p
        vacant_after p a b = elim (dec_lt p (r.read_pos + 2 ^ k)) [
          | yes old ↦
              ap (λ (s : Slot A). s.sequence) (freed_slot_other p (omega arith) old)
              ∙ vacant p a old
          | no new ↦
              let e : p ≡ r.read_pos + 2 ^ k = omega arith in
              ap (λ t. (slot_at blank freed t).sequence) e
              ∙ ap (λ (s : Slot A). s.sequence)
                  (slot_at-round blank k freed masked r.read_pos ∙ freed_slot_self)
              ∙ omega (arith, slots_pos k)
        ]

    pub contents-freed : contents blank r ≡ (slot_at blank r r.read_pos).item ∷ contents blank freed
    unfolding contents items
    contents-freed =
        ap (items blank r r.read_pos) {y = suc rest} (omega arith)
        ∙ ap (λ t. (slot_at blank r r.read_pos).item ∷ t)
            (sym (
                items-agree blank freed r (r.read_pos + 1) rest
                  (λ q a b. freed_slot_other q (omega arith) (omega arith)))
              ∙ ap₂ (λ p n. items blank freed p n) (omega arith) (omega arith))
      where
        rest : ℕ
        rest = r.write_pos - (r.read_pos + 1)
