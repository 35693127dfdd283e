-- ===== src/Engine/Admin.antt =====
-- src/tyche/cpp/engine/engine.cpp: `_admin_worker`, which answers queries. What the packer is told is a
-- list of tokens; the number in front of a map or an array is written by the code. `D` is double.
pub mod Complete
use tyche_engine.Common.{
  ℕ, zero, suc, ◌+◌, ◌%◌, ◌^◌, ◌≡◌, Bool, true, false, ◌&&◌, Option, none, some, List, [], ◌∷◌,
  ◌++◌, length, get_elem?, leb, ite, if◌then◌else◌, ◌==◌, Bytes, bytes_discrete, codes,
}
use Prim.Native.String.{String}
use tyche_engine.Common.Assoc
use tyche_engine.Common.Words.{ℤ, to_int32}
use tyche_engine.Types.{Interface, ModuleInfo}
use tyche_engine.TopicQueue
use tyche_engine.TopicQueue.{TopicQueue}
use tyche_engine.ShardedMap
use tyche_engine.Heartbeat
use tyche_engine.Wire.{Object, str, Msgpack}
use tyche_engine.Engine.{Engine, JobTrackingInfo}

pub data Token (D : Type 0) : Type 0 where
  map_head : ℕ → Token D
  array_head : ℕ → Token D
  packed_str : Bytes → Token D
  packed_int : ℤ → Token D
  packed_uint : ℕ → Token D
  packed_double : D → Token D
  packed_bool : Bool → Token D

-- What else the worker reads: the clock less the start time, the number of registrations, the records
-- of the dead letter store, and the numbers of seconds as doubles.
pub record Readings (D : Type 0) : Type 0 where
  pub uptime : D
  pub register_count : ℕ
  pub dead_letters : List Bytes
  pub seconds : ℕ → D

abbrev pub size32 : {A : Type 0} → List A → ℕ
size32 xs = length xs % 2 ^ 32

module _ {D : Type 0} where
  abbrev key : String → Token D
  key s = packed_str (codes s)

  abbrev pub each : {A : Type 0} → (A → List (Token D)) → List A → List (Token D)
  each f [] = []
  each f (x ∷ xs) = f x ++ each f xs

  -- `static_cast<int>(_modules.size())`
  abbrev module_count : Engine → Token D
  module_count e = packed_int (to_int32 (size32 e.modules))

  unfoldable pub pack_status : Readings D → Engine → List (Token D)
  pack_status r e =
      map_head 4
      ∷ key "status"
      ∷ key "running"
      ∷ key "uptime"
      ∷ packed_double r.uptime
      ∷ key "module_count"
      ∷ module_count e
      ∷ key "event_count"
      ∷ packed_uint e.event_count
      ∷ []

  abbrev pub pack_flag : Bytes × Bool → List (Token D)
  pack_flag (topic, free) = packed_str topic ∷ packed_bool free ∷ []

  abbrev pub pack_name : Interface → List (Token D)
  pack_name i = packed_str i.name ∷ []

  abbrev pub pack_availability : Option (List (Bytes × Bool)) → List (Token D)
  pack_availability none = map_head 0 ∷ []
  pack_availability (some flags) = map_head (size32 flags) ∷ each pack_flag flags

  abbrev pub pack_module : Engine → Bytes × ModuleInfo → List (Token D)
  pack_module e (mid, info) =
      map_head 4
      ∷ key "module_id"
      ∷ packed_str mid
      ∷ key "liveness"
      ∷ packed_int (Heartbeat.get_liveness mid e.heartbeat_manager)
      ∷ key "interfaces"
      ∷ array_head (size32 info.interfaces)
      ∷ (each pack_name info.interfaces
          ++ (key "availability"
              ∷ pack_availability (Assoc.lookup bytes_discrete mid e.module_availability)))

  unfoldable pub pack_modules : Engine → List (Token D)
  pack_modules e =
      map_head 1 ∷ key "modules" ∷ array_head (size32 e.modules) ∷ each (pack_module e) e.modules

  abbrev pub pack_queue : Bytes × TopicQueue → List (Token D)
  pack_queue (topic, q) =
      map_head 5
      ∷ key "name"
      ∷ packed_str topic
      ∷ key "size"
      ∷ packed_uint (TopicQueue.size q)
      ∷ key "capacity"
      ∷ packed_uint (TopicQueue.capacity q)
      ∷ key "processed"
      ∷ packed_uint q.processed
      ∷ key "dropped"
      ∷ packed_uint q.dropped
      ∷ []

  unfoldable pub pack_queues : List (Bytes × TopicQueue) → List (Token D)
  pack_queues queues =
      map_head 1 ∷ key "queues" ∷ array_head (size32 queues) ∷ each pack_queue queues

  abbrev pub pack_job : Readings D → Bytes × JobTrackingInfo → List (Token D)
  pack_job r (cid, info) =
      map_head 5
      ∷ key "correlation_id"
      ∷ packed_str cid
      ∷ key "topic"
      ∷ packed_str info.topic
      ∷ key "handler_id"
      ∷ packed_str info.handler_id
      ∷ key "wait_timeout"
      ∷ packed_double (r.seconds info.wait_timeout)
      ∷ key "run_timeout"
      ∷ packed_double (r.seconds info.run_timeout)
      ∷ []

  unfoldable pub pack_jobs : Readings D → Engine → List (Token D)
  pack_jobs r e =
      map_head 1
      ∷ key "jobs"
      ∷ array_head (size32 e.job_tracking)
      ∷ each (pack_job r) e.job_tracking

  abbrev pub pack_record : Bytes → List (Token D)
  pack_record r = packed_str r ∷ []

  unfoldable pub pack_dead_letters : List Bytes → List (Token D)
  pack_dead_letters records =
      map_head 1 ∷ key "dead_letters" ∷ array_head (size32 records) ∷ each pack_record records

  unfoldable pub pack_stats : Readings D → Engine → List (Token D)
  pack_stats r e =
      map_head 3
      ∷ key "event_count"
      ∷ packed_uint e.event_count
      ∷ key "register_count"
      ∷ packed_uint r.register_count
      ∷ key "module_count"
      ∷ module_count e
      ∷ []

-- The frame of the query, behind the identity and, if it is there, an empty one.
abbrev pub query_frame : List Bytes → Option (Bytes × Bytes)
query_frame (identity ∷ [] ∷ f ∷ more) = some (identity, f)
query_frame (identity ∷ f ∷ more) = some (identity, f)
query_frame other = none

-- The queues of a snapshot, behind their pointers.
abbrev pub queues_at : List TopicQueue → List (Bytes × ℕ) → List (Bytes × TopicQueue)
queues_at heap [] = []
queues_at heap ((topic, p) ∷ more) = elim (get_elem? heap p) [
  | none ↦ queues_at heap more
  | some q ↦ (topic, q) ∷ queues_at heap more
]

module _ {D : Type 0} where
  -- The answer to a query: the map that the `if` ladder packs.
  unfoldable pub answer : Bytes → Readings D → Engine → List (Token D)
  unfolding pack_status pack_modules pack_queues pack_jobs pack_dead_letters pack_stats
  answer query r e = ite (bytes_discrete query (codes "STATUS")) (pack_status r e) (
      ite (bytes_discrete query (codes "MODULES")) (pack_modules e) (
        ite (bytes_discrete query (codes "QUEUES"))
          (pack_queues (queues_at e.heap (ShardedMap.snapshot e.topic_queues)))
          (ite (bytes_discrete query (codes "JOBS")) (pack_jobs r e) (
            ite (bytes_discrete query (codes "DEAD_LETTERS")) (pack_dead_letters r.dead_letters) (
              ite (bytes_discrete query (codes "STATS")) (pack_stats r e)
                (map_head 1 ∷ key "error" ∷ packed_str (codes "Unknown query: " ++ query) ∷ []))))))

  abbrev pub query_of : Object D → Bytes
  query_of (str s) = s
  query_of other = []

module _ {D F : Type 0} (mp : Msgpack D F) where
  abbrev replied : Readings D → Engine → Bytes → Option (Object D) → Option (Bytes × List (Token D))
  replied r e identity none = none
  replied r e identity (some o) = some (identity, answer (query_of o) r e)

  -- A round with these frames: the identity that is answered, and the answer.
  unfoldable pub admin_round : List Bytes → Readings D → Engine → Option (Bytes × List (Token D))
  unfolding answer
  admin_round frames r e = elim (query_frame frames) [
    | none ↦ none
    | some (identity, f) ↦ replied r e identity (mp.decode f)
  ]
