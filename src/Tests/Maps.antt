-- ===== src/Tests/Maps.antt =====
-- The sharded map, the string table and the heartbeat manager at concrete inputs.
use tyche_engine.Common.{
  ℕ, ◌≡◌, refl, arith, none, some, [], ◌∷◌, ltb, ite, get_or-replicate, subst, sym, Bytes,
  bytes_discrete, codes,
}
use tyche_engine.Common.Assoc
use tyche_engine.Common.Words.{pos}
use tyche_engine.ShardedMap.{
  ShardedMap, no_bucket, with_buckets, or_else, find, last_access, get_or_create, erase, touch,
}
use tyche_engine.ShardedMap.Homed
use tyche_engine.ShardedMap.Homed.{IsHome}
use tyche_engine.ShardedMap.Finite.{erase_lem, touch_lem, get_or_create_lem}
use tyche_engine.Intern.{StringIntern, empty_intern, intern}
use tyche_engine.Intern.Stable
use tyche_engine.Intern.Stable.{Interned, intern_lem}
use tyche_engine.Heartbeat.{HeartbeatManager, register_module, is_registered}
use tyche_engine.TopicIndex.{TopicIndex}
use tyche_engine.Spin.{AdaptiveSpin}
use tyche_engine.Heartbeat.Expiry
use tyche_engine.Heartbeat.Expiry.{ticked, expires, survives, monitor, tick_all_lem}
use tyche_engine.Heartbeat.Silence.{ticks, silent_module}

abbrev empty_map : ShardedMap ℕ
empty_map = with_buckets 2 1

pub empty_map-IsValid : Homed.IsValid 1 empty_map
empty_map-IsValid = record {
  counted = refl;
  masked = refl;
  cells = refl;
  homes = λ i.
      subst (IsHome 1 i) (sym (get_or-replicate 2 i no_bucket))
        (record { entries_here = tt; times_here = tt; entries_once = tt });
}

-- The map with a queue for `ticks`, used at time 5.
abbrev pub one_topic : ShardedMap ℕ
one_topic = touch (codes "ticks") 5 (get_or_create (codes "ticks") 40 0 empty_map).after

pub one_topic-IsValid : Homed.IsValid 1 one_topic
one_topic-IsValid =
    (touch_lem (get_or_create_lem empty_map-IsValid (codes "ticks") 40 0).0 (codes "ticks") 5).0

get_or_create_lem_example :
    let m' = (get_or_create (codes "fills") 41 0 one_topic).after in
    Homed.IsValid 1 m'
    × ((get_or_create (codes "fills") 41 0 one_topic).queue
        ≡ or_else (find (codes "fills") one_topic) 41)
    × ((j : Bytes)
        → find j m'
          ≡ ite
              (bytes_discrete (codes "fills") j)
              (some (or_else (find (codes "fills") one_topic) 41))
              (find j one_topic))
    × ((j : Bytes) → last_access j m' ≡ last_access j one_topic)
get_or_create_lem_example = get_or_create_lem one_topic-IsValid (codes "fills") 41 0

erase_lem_example :
    Homed.IsValid 1 (erase (codes "ticks") one_topic)
    × ((j : Bytes)
        → find j (erase (codes "ticks") one_topic)
          ≡ ite (bytes_discrete (codes "ticks") j) none (find j one_topic))
    × ((j : Bytes)
        → last_access j (erase (codes "ticks") one_topic)
          ≡ ite (bytes_discrete (codes "ticks") j) 0 (last_access j one_topic))
erase_lem_example = erase_lem one_topic-IsValid (codes "ticks")

empty_intern-IsValid : Stable.IsValid empty_intern
unfolding Assoc.lookup
empty_intern-IsValid = record {
  started = omega arith;
  short = omega arith;
  named = λ s id h. ground arith;
}

abbrev one_name : StringIntern
one_name = (intern (codes "ticks") empty_intern).1

one_name-IsValid : Stable.IsValid one_name
one_name-IsValid =
    (intern_lem (codes "ticks") empty_intern empty_intern-IsValid (omega arith)).valid

-- One module is at its last tick, the other has been heard of.
abbrev two_modules : HeartbeatManager
two_modules = record {
  interval = 1;
  liveness = pos 3;
  monitors =
      (codes "md", record { liveness = pos 1; last_seen = 2; interval = 1 })
      ∷ (codes "td", record { liveness = pos 3; last_seen = 4; interval = 1 })
      ∷ [];
}

two_modules-IsValid : Expiry.IsValid two_modules
unfolding Assoc.lookup bytes_discrete
two_modules-IsValid = (refl, (refl, tt))

silent_module_example :
    is_registered (codes "risk") (ticks 5 (register_module 6 (codes "risk") two_modules)) ≡ ltb 5 6
unfolding Assoc.lookup bytes_discrete
silent_module_example =
    silent_module 3 6 (codes "risk") two_modules two_modules-IsValid (omega arith) (omega arith)
      refl refl 5

abbrev small_index : TopicIndex
small_index = record { queues = some (none ∷ some 7 ∷ []) }

abbrev spinner : AdaptiveSpin
spinner = record { idle_count = 3; spin_threshold = 1000; yield_threshold = 10000; sleep_us = 10 }
