-- ===== src/SharedQueue/Replay.antt =====
-- shared_memory_queue.cpp from the second use of a slot on: `read` releases a slot with a sequence
-- number that is one too high.
use native.Mathlib.Nat.{mod-eq_of_lt, mod-lt}
use tyche_engine.Common.{
  ℕ, zero, suc, ◌+◌, ◌-◌, ◌*◌, ◌%◌, ◌^◌, ◌≤◌, ◌<◌, ◌≡◌, ◌≢◌, refl, sym, ap, ap₂, ◌∙◌, arith, true,
  none, some, List, [], ◌∷◌, length, length-set, get_or, get_or-set_self, get_or-set_ne, ℕ_discrete,
  Bytes,
}
use tyche_engine.Common.Modulus.{same_cell, other_cell}
use tyche_engine.Common.Words.{gap32-gt}
use tyche_engine.Ring.{CasWeak}
use tyche_engine.SharedQueue.{
  Config, Slot, Memory, no_slot, release, write, write_loop, read, add32, empty,
}
use tyche_engine.SharedQueue.Lap.{Lap, slot_of, message_of, write_fits}
use tyche_engine.SharedQueue.Reading.{found, read_ready}

module _ {c : Config} {m : Memory} {xs : List Bytes} {r : ℕ} (v : Lap c m xs r) where
  open v use {counted, short, cells, written, reached, within, behind, used, holds}

  full_at : length xs ≡ c.slot_count → 0 < c.slot_count → length xs % m.slot_count ≡ 0
  full_at e h =
      ap₂ (λ a b. a % b) e counted
      ∙ ap (λ q. q % c.slot_count) {y = 0 + c.slot_count} (omega arith)
      ∙ same_cell 0 c.slot_count
      ∙ mod-eq_of_lt {n = 0} {m = c.slot_count} h

  write_loop_stuck :
      (oks : List CasWeak) (bs : Bytes)
      → length xs ≡ c.slot_count
      → 0 < r
      → write_loop oks bs c m (length xs) ≡ none
  unfolding write_loop
  write_loop_stuck [] bs e h = refl
  write_loop_stuck (ok ∷ oks) bs e h =
      rw (found c m counted (omega arith) (length xs), write_loop)
        (ground (
          arith,
          written,
          gap32-gt (slot_of m (length xs % m.slot_count)).sequence (length xs),
          seq,
          ap (write_loop oks bs c m) written ∙ write_loop_stuck oks bs e h,
        ))
    where
      seq : (slot_of m (length xs % m.slot_count)).sequence ≡ c.slot_count + 1
      seq = ap (λ i. (slot_of m i).sequence) (full_at e (omega arith)) ∙ used 0 h ∙ omega arith

  -- Once a message has been written to every slot and at least one of them has been read, a
  -- further `write` of a message that fits never returns, whatever its compare-exchanges do: it
  -- goes on for as many rounds as one allows it.
  pub write_stuck :
      (oks : List CasWeak) (bs : Bytes)
      → length xs ≡ c.slot_count
      → 0 < r
      → 0 < length bs
      → length bs ≤ c.max_msg_size
      → write oks bs true c m ≡ none
  write_stuck oks bs e h a b = write_fits v oks bs a b ∙ write_loop_stuck oks bs e h

-- Every slot looks as if it had been written in the round that is read next.
record Echo (c : Config) (m : Memory) (xs : List Bytes) (r : ℕ) : Type 0 where
  counted : m.slot_count ≡ c.slot_count
  some_slots : 0 < c.slot_count
  cells : length m.slots ≡ c.slot_count
  reached : m.read_seq ≡ r
  ready : (p : ℕ) → r ≤ p → p < r + c.slot_count → (slot_of m (p % c.slot_count)).sequence ≡ p + 1
  holds : (i : ℕ) → i < c.slot_count → message_of c (slot_of m i) ≡ get_or xs i []

Lap-Echo :
    {c : Config} {m : Memory} {xs : List Bytes}
    → Lap c m xs c.slot_count
    → length xs ≡ c.slot_count
    → 0 < c.slot_count
    → Echo c m xs c.slot_count
Lap-Echo {c} {m} {xs} v e h = record {
  counted = v.counted;
  some_slots = h;
  cells = v.cells;
  reached = v.reached;
  ready = λ p a b.
      let i : p - c.slot_count < c.slot_count = omega arith in
      ap (λ q. (slot_of m q).sequence)
        (ap (λ q. q % c.slot_count) {y = p - c.slot_count + c.slot_count} (omega arith)
          ∙ same_cell (p - c.slot_count) c.slot_count
          ∙ mod-eq_of_lt i)
      ∙ v.used (p - c.slot_count) i
      ∙ omega arith;
  holds = λ i a. v.holds i (omega arith);
}

module _ {c : Config} {m : Memory} {xs : List Bytes} {r : ℕ} (v : Echo c m xs r)
    (room : r + c.slot_count + 1 < 2 ^ 32) where
  open v use {counted, some_slots, cells, reached, ready, holds}

  abbrev echoed : Memory
  echoed = release r (r % c.slot_count) (slot_of m (r % c.slot_count)) m

  at_read : m.read_seq % m.slot_count ≡ r % c.slot_count
  at_read = ap₂ (λ a b. a % b) reached counted

  echoed_self :
      slot_of echoed (r % c.slot_count)
      ≡ record (slot_of m (r % c.slot_count)) { sequence = add32 (add32 r m.slot_count) 1 }
  echoed_self =
      get_or-set_self m.slots (r % c.slot_count) _ no_slot
        (omega (arith, mod-lt r some_slots, cells))

  echoed_ne : (i : ℕ) → r % c.slot_count ≢ i → slot_of echoed i ≡ slot_of m i
  echoed_ne i n = get_or-set_ne m.slots (r % c.slot_count) i _ no_slot n

  read_again : read true c m ≡ (some (get_or xs (r % c.slot_count) []), echoed)
  read_again =
      read_ready c m counted some_slots
        (ap (λ i. (slot_of m i).sequence) at_read
          ∙ ready r (omega arith) (omega arith)
          ∙ omega arith)
        (omega arith)
      ∙ ap₂ (λ p i. (some (message_of c (slot_of m i)), release p i (slot_of m i) m)) reached
          at_read
      ∙ ap (λ t. (some t, echoed)) (holds (r % c.slot_count) (mod-lt r some_slots))

  echoed-Echo : Echo c echoed xs (suc r)
  echoed-Echo = record {
    counted = counted;
    some_slots = some_slots;
    cells = length-set m.slots (r % c.slot_count) _ ∙ cells;
    reached = omega arith;
    ready = λ p a b. elim (ℕ_discrete p (r + c.slot_count)) [
      | yes e ↦
          ap (λ q. (slot_of echoed (q % c.slot_count)).sequence) e
          ∙ ap (λ i. (slot_of echoed i).sequence) (same_cell r c.slot_count)
          ∙ ap (λ (t : Slot). t.sequence) echoed_self
          ∙ omega arith
      | no n ↦
          ap (λ (t : Slot). t.sequence)
            (echoed_ne (p % c.slot_count) (other_cell r p c.slot_count (omega arith) (omega arith)))
          ∙ ready p (omega arith) (omega arith)
    ];
    holds = λ i a. elim (ℕ_discrete (r % c.slot_count) i) [
      | yes e ↦
          ap (λ q. message_of c (slot_of echoed q)) (sym e)
          ∙ ap (message_of c) echoed_self
          ∙ holds (r % c.slot_count) (mod-lt r some_slots)
          ∙ ap (λ q. get_or xs q []) e
      | no n ↦ ap (message_of c) (echoed_ne i n) ∙ holds i a
    ];
  }

-- The memory after `k` reads.
unfoldable pub after : ℕ → Config → Memory → Memory
after zero c m = m
after (suc k) c m = after k c (read true c m).1

read-Echo :
    (k : ℕ) {c : Config} {m : Memory} {xs : List Bytes} {r : ℕ}
    → Echo c m xs r
    → r + k + c.slot_count + 1 < 2 ^ 32
    → (read true c (after k c m)).0 ≡ some (get_or xs ((r + k) % c.slot_count) [])
unfolding after
read-Echo zero {c} {m} {xs} {r} v l =
    ap (λ t. t.0) (read_again v (omega arith))
    ∙ ap (λ q. some (get_or xs (q % c.slot_count) [])) {y = r + zero} (omega arith)
read-Echo (suc k) {c} {m} {xs} {r} v l =
    ap (λ t. (read true c (after k c t.1)).0) (read_again v (omega arith))
    ∙ read-Echo k (echoed-Echo v (omega arith)) (omega arith)
    ∙ ap (λ q. some (get_or xs (q % c.slot_count) [])) {y = r + suc k} (omega arith)

-- Once a message has been written to every slot and all of them have been read, `empty` is true,
-- and yet each further `read` returns a message: the one after `k` further reads returns message
-- `k` modulo the number of slots again, as long as the positions stay below 2^32.
pub read_replays :
    {c : Config} {m : Memory} {xs : List Bytes} (k : ℕ)
    → Lap c m xs c.slot_count
    → length xs ≡ c.slot_count
    → 0 < c.slot_count
    → k + 2 * c.slot_count + 1 < 2 ^ 32
    → (empty true m ≡ true)
      × ((read true c (after k c m)).0 ≡ some (get_or xs (k % c.slot_count) []))
unfolding empty
read_replays {c} {m} {xs} k v e h l = (
  ground (arith, v.written, v.reached),
  read-Echo k (Lap-Echo v e h) (omega arith)
      ∙ ap (λ q. some (get_or xs q []))
          (ap (λ q. q % c.slot_count) {y = k + c.slot_count} (omega arith)
            ∙ same_cell k c.slot_count),
)
