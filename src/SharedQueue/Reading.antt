-- ===== src/SharedQueue/Reading.antt =====
-- `read` of shared_memory_queue.cpp by the sequence number that it finds.
use native.Mathlib.Nat.{mod-lt}
use tyche_engine.Common.{
  ℕ, ◌+◌, ◌%◌, ◌^◌, ◌<◌, ◌≡◌, refl, ◌∙◌, arith, true, false, none, some, if◌then◌else◌,
}
use tyche_engine.Common.Words.{gap32, is_zero, gap32-eq}
use tyche_engine.SharedQueue.{Config, Memory, slot_header, release, read, add32}
use tyche_engine.SharedQueue.Lap.{slot_of, message_of}

module _ (c : Config) (m : Memory) (counted : m.slot_count ≡ c.slot_count)
    (some_slots : 0 < c.slot_count) where
  pub index-lt : (p : ℕ) → p % m.slot_count < m.slot_count
  index-lt p = mod-lt p (omega arith)

  pub found : (p : ℕ) → slot_header c m (p % m.slot_count) ≡ some (slot_of m (p % m.slot_count))
  unfolding slot_header
  found p = ground (arith, index-lt p)

  -- The slot at the read position, by the test on its sequence number.
  read_step : read true c m ≡ (
      if is_zero (gap32 (slot_of m (m.read_seq % m.slot_count)).sequence (add32 m.read_seq 1))
      then (
        some (message_of c (slot_of m (m.read_seq % m.slot_count))),
        release m.read_seq (m.read_seq % m.slot_count) (slot_of m (m.read_seq % m.slot_count)) m,
      )
      else (none, m))
  unfolding read
  read_step = rw (found m.read_seq, read) refl

  pub read_ready :
      (slot_of m (m.read_seq % m.slot_count)).sequence ≡ m.read_seq + 1
      → m.read_seq + 1 < 2 ^ 32
      → read true c m ≡ (
        some (message_of c (slot_of m (m.read_seq % m.slot_count))),
        release m.read_seq (m.read_seq % m.slot_count) (slot_of m (m.read_seq % m.slot_count)) m,
      )
  read_ready e h =
      read_step
      ∙ ground
          (arith, e, gap32-eq (slot_of m (m.read_seq % m.slot_count)).sequence (add32 m.read_seq 1))

  pub read_not_ready :
      is_zero (gap32 (slot_of m (m.read_seq % m.slot_count)).sequence (add32 m.read_seq 1)) ≡ false
      → read true c m ≡ (none, m)
  read_not_ready h = read_step ∙ ground (arith, h)
