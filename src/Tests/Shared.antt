-- ===== src/Tests/Shared.antt =====
-- The queue in shared memory with two slots of eight bytes.
use tyche_engine.Common.{ℕ, ◌≡◌, refl, arith, true, false, none, some, [], ◌∷◌, Bytes}
use tyche_engine.Engine.Bridge.{
  Call, inject, framed, on_module_message, on_bridge_message, on_message_lem,
}
use tyche_engine.Tests.Jobs.{engine}
use tyche_engine.SharedQueue.{Config, Memory, initialize, write, read, empty}
use tyche_engine.SharedQueue.Lap.{Lap}
use tyche_engine.SharedQueue.Start.{initialize-Lap}
use tyche_engine.SharedQueue.FirstLap.{write_first, read_first}
use tyche_engine.SharedQueue.Replay.{after, write_stuck, read_replays}

abbrev two_slots : Config
two_slots = record { slot_count = 2; max_msg_size = 8 }

abbrev at_start : Memory
at_start = initialize two_slots

at_start-Lap : Lap two_slots at_start [] 0
at_start-Lap = initialize-Lap two_slots (omega arith) (omega arith)

abbrev one_written :
    (m : Memory) × (write (false ∷ true ∷ []) (7 ∷ 8 ∷ []) true two_slots at_start ≡ some (true, m))
    × Lap two_slots m ((7 ∷ 8 ∷ []) ∷ []) 0
one_written =
    write_first at_start-Lap (false ∷ true ∷ []) (7 ∷ 8 ∷ []) tt (omega arith) (omega arith)
      (omega arith)

abbrev two_written :
    (m : Memory) × (write (true ∷ []) (9 ∷ []) true two_slots one_written.0 ≡ some (true, m))
    × Lap two_slots m ((7 ∷ 8 ∷ []) ∷ (9 ∷ []) ∷ []) 0
two_written =
    write_first one_written.2 (true ∷ []) (9 ∷ []) tt (omega arith) (omega arith) (omega arith)

abbrev one_read : Memory
one_read = (read true two_slots two_written.0).1

one_read-Lap : Lap two_slots one_read ((7 ∷ 8 ∷ []) ∷ (9 ∷ []) ∷ []) 1
one_read-Lap = (read_first two_written.2 (omega arith)).1

abbrev two_read : Memory
two_read = (read true two_slots one_read).1

two_read-Lap : Lap two_slots two_read ((7 ∷ 8 ∷ []) ∷ (9 ∷ []) ∷ []) 2
two_read-Lap = (read_first one_read-Lap (omega arith)).1

write_first_example :
    (m : Memory) × (write (false ∷ true ∷ []) (7 ∷ 8 ∷ []) true two_slots at_start ≡ some (true, m))
    × Lap two_slots m ((7 ∷ 8 ∷ []) ∷ []) 0
write_first_example =
    write_first at_start-Lap (false ∷ true ∷ []) (7 ∷ 8 ∷ []) tt (omega arith) (omega arith)
      (omega arith)

read_first_example :
    ((read true two_slots one_read).0 ≡ some (9 ∷ []))
    × Lap two_slots two_read ((7 ∷ 8 ∷ []) ∷ (9 ∷ []) ∷ []) 2
read_first_example = read_first one_read-Lap (omega arith)

write_stuck_example : write (true ∷ false ∷ true ∷ []) (5 ∷ []) true two_slots one_read ≡ none
write_stuck_example =
    write_stuck one_read-Lap (true ∷ false ∷ true ∷ []) (5 ∷ []) refl (omega arith) (omega arith)
      (omega arith)

read_replays_example :
    (empty true two_read ≡ true)
    × ((read true two_slots (after 5 two_slots two_read)).0 ≡ some (9 ∷ []))
read_replays_example = read_replays 5 two_read-Lap refl (omega arith) (omega arith)

abbrev call : Call
call = record { schedule = (true ∷ [], 0) ∷ []; now = 7; later = 8 }

on_message_lem_example :
    (on_module_message (λ n. call) [] (framed (7 ∷ 8 ∷ []) (1 ∷ [])) engine
      ≡ inject call (7 ∷ 8 ∷ []) (1 ∷ []) engine)
    × (on_bridge_message call (9 ∷ []) (framed (7 ∷ 8 ∷ []) (1 ∷ [])) engine
        ≡ inject call (7 ∷ 8 ∷ []) (1 ∷ []) engine)
    × ((z : ℕ) (zs : Bytes)
        → on_bridge_message call (z ∷ zs) (framed [] (1 ∷ [])) engine
          ≡ inject call (z ∷ zs) (framed [] (1 ∷ [])) engine)
on_message_lem_example =
    on_message_lem (λ n. call) (9 ∷ []) (7 ∷ 8 ∷ []) (1 ∷ []) engine (omega arith) (omega arith)
