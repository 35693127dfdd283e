-- ===== src/SharedQueue.antt =====
-- src/tyche/cpp/engine/shared_memory_queue.h and .cpp: a queue of byte messages in shared memory, and
-- src/tyche/cpp/engine/shared_memory_bridge.cpp: the topic in front of a message. A call runs from its
-- first load to its return with no other process between; `CasWeak` is as in Ring.
pub mod Lap
pub mod Start
pub mod Reading
pub mod FirstLap
pub mod Replay
use tyche_engine.Common.{
  ℕ, zero, suc, ◌+◌, ◌-◌, ◌*◌, ◌/◌, ◌%◌, ◌^◌, Bool, true, false, not, ◌&&◌, ◌||◌, Option, none,
  some, List, [], ◌∷◌, ◌++◌, length, get_or, set, replicate, ltb, leb, ◌==◌, if◌then◌else◌, Bytes,
}
use tyche_engine.Common.Words.{is_zero, is_neg, gap32}
use tyche_engine.Common.Slices.{take, drop}
use tyche_engine.Ring.{CasWeak}

abbrev pub magic_number : ℕ
magic_number = 0x54594843

abbrev pub version_number : ℕ
version_number = 1

pub record Config : Type 0 where
  pub slot_count : ℕ
  pub max_msg_size : ℕ

-- A slot of the mapped memory: `SlotHeader` and the bytes behind it.
pub record Slot : Type 0 where
  pub sequence : ℕ
  pub size : ℕ
  pub bytes : Bytes

-- `Header`, and the slots.
pub record Memory : Type 0 where
  pub write_seq : ℕ
  pub read_seq : ℕ
  pub slot_count : ℕ
  pub max_msg_size : ℕ
  pub magic : ℕ
  pub version : ℕ
  pub slots : List Slot

abbrev pub add32 : ℕ → ℕ → ℕ
add32 a b = (a + b) % 2 ^ 32

abbrev pub no_slot : Slot
no_slot = record { sequence = 0; size = 0; bytes = [] }

unfoldable pub slot_stride : Config → ℕ
slot_stride c = (8 + c.max_msg_size + 7) / 8 * 8

unfoldable pub total_size : Config → ℕ
unfolding slot_stride
total_size c = 64 + c.slot_count * slot_stride c

-- `n` slots from index `i` on, of memory that was set to 0.
unfoldable pub first_slots : ℕ → ℕ → ℕ → List Slot
first_slots max_msg_size i zero = []
first_slots max_msg_size i (suc n) =
    record { sequence = i; size = 0; bytes = replicate max_msg_size 0 }
    ∷ first_slots max_msg_size (suc i) n

-- What an owner makes of the memory.
unfoldable pub initialize : Config → Memory
initialize c = record {
  write_seq = 0;
  read_seq = 0;
  slot_count = c.slot_count;
  max_msg_size = c.max_msg_size;
  magic = magic_number;
  version = version_number;
  slots = first_slots c.max_msg_size 0 c.slot_count;
}

-- `_valid` of a queue that opens the memory of another process.
unfoldable pub accepts : Config → Memory → Bool
accepts c m =
    m.magic == magic_number
    && m.version == version_number
    && m.slot_count == c.slot_count
    && m.max_msg_size == c.max_msg_size

-- A valid queue is opened with the configuration of its memory; the slots are reached by index, a
-- `nullptr` from `_config.slot_count` on.
unfoldable pub slot_header : Config → Memory → ℕ → Option Slot
slot_header c m index = if leb c.slot_count index then none else some (get_or m.slots index no_slot)

-- `memcpy` over the start of the slot's bytes.
abbrev pub overwrite : Bytes → Bytes → Bytes
overwrite bs old = bs ++ drop (length bs) old

abbrev pub store : ℕ → ℕ → Bytes → Slot → Memory → Memory
store pos idx bs s m = record m {
  write_seq = add32 pos 1;
  slots =
      set m.slots idx (record {
        sequence = add32 pos 1;
        size = length bs % 2 ^ 32;
        bytes = overwrite bs s.bytes;
      });
}

-- The `for (;;)` of `write`. `none`: it is still running when the list of compare-exchanges ends.
unfoldable pub write_loop : List CasWeak → Bytes → Config → Memory → ℕ → Option (Bool × Memory)
write_loop [] bs c m pos = none
write_loop (ok ∷ oks) bs c m pos =
    let idx = pos % m.slot_count in
    let again = write_loop oks bs c m m.write_seq in
    elim (slot_header c m idx) [
      | none ↦ some (false, m)
      | some s ↦
          let diff = gap32 s.sequence pos in
          if is_zero diff
          then (if ok && (m.write_seq == pos) then some (true, store pos idx bs s m) else again)
          else (if is_neg diff then some (false, m) else again)
    ]

-- `valid` is `_valid`.
unfoldable pub write : List CasWeak → Bytes → Bool → Config → Memory → Option (Bool × Memory)
write oks bs valid c m =
    if not valid || length bs == 0 || ltb c.max_msg_size (length bs)
    then some (false, m)
    else write_loop oks bs c m m.write_seq

abbrev pub min : ℕ → ℕ → ℕ
min a b = if ltb b a then b else a

abbrev pub release : ℕ → ℕ → Slot → Memory → Memory
release pos idx s m = record m {
  read_seq = add32 pos 1;
  slots = set m.slots idx (record s { sequence = add32 (add32 pos m.slot_count) 1 });
}

unfoldable pub read : Bool → Config → Memory → Option Bytes × Memory
read valid c m =
    let pos = m.read_seq in
    let idx = pos % m.slot_count in
    if valid
    then (elim (slot_header c m idx) [
      | none ↦ (none, m)
      | some s ↦
          if is_zero (gap32 s.sequence (add32 pos 1))
          then (some (take (min s.size c.max_msg_size) s.bytes), release pos idx s m)
          else (none, m)
    ])
    else (none, m)

unfoldable pub empty : Bool → Memory → Bool
empty valid m = if valid then m.write_seq == m.read_seq else true

unfoldable pub size : Bool → Memory → ℕ
size valid m =
    if valid then (if leb m.read_seq m.write_seq then m.write_seq - m.read_seq else 0) else 0

-- `_parse_topic`: the topic and the payload.
unfoldable pub parse_topic : Bytes → Bytes × Bytes
parse_topic [] = ([], [])
parse_topic (a ∷ []) = ([], a ∷ [])
parse_topic (a ∷ b ∷ rest) =
    let topic_len = a + b * 256 in
    if ltb (length (a ∷ b ∷ rest)) (2 + topic_len)
    then ([], a ∷ b ∷ rest)
    else (take topic_len rest, drop topic_len rest)
