-- ===== src/Engine.antt =====
-- src/tyche/cpp/engine/engine.h and engine.cpp: the state of the engine, and the module registry.
-- The workers share it under locks; each function here is what a worker does between taking a lock
-- and the end of its handler, run with no other worker between. Sockets, sleeps and log lines are
-- left out; what goes to the job socket is collected in `sent`, and what goes to the dead-letter
-- store in `dead_letters`.
pub mod Registry
pub mod Jobs
pub mod Timeouts
pub mod Events
pub mod Steps
pub mod Bridge
pub mod Admin
use tyche_engine.Common.{
  ℕ, ◌*◌, ◌≡◌, Bool, true, false, Option, none, some, List, [], ◌∷◌, ◌++◌, length, not,
  if◌then◌else◌, Bytes, bytes_discrete, ℕ_discrete, ite,
}
use tyche_engine.Common.Assoc
use tyche_engine.Common.Members.{contains, add_once, remove}
use tyche_engine.Types.{InterfacePattern, Interface, ModuleInfo, BackpressureStrategy}
use tyche_engine.Message.{Message}
use tyche_engine.Intern
use tyche_engine.Intern.{StringIntern, empty_intern}
use tyche_engine.Common.Words.{pos}
use tyche_engine.ShardedMap
use tyche_engine.ShardedMap.{ShardedMap}
use tyche_engine.TopicQueue
use tyche_engine.TopicQueue.{TopicQueue}
use tyche_engine.Heartbeat
use tyche_engine.Heartbeat.{HeartbeatManager}

pub record JobTrackingInfo : Type 0 where
  pub requester_id : Bytes
  pub handler_id : Bytes
  pub topic : Bytes
  pub dispatch_time : ℕ
  pub wait_start_time : ℕ
  pub wait_timeout : ℕ
  pub run_timeout : ℕ
  pub topic_frame : Bytes
  pub message_frame : Bytes

pub data Reason : Type 0 where
  run_timeout wait_timeout : Reason

pub record JobTimeoutEvent : Type 0 where
  pub correlation_id : Bytes
  pub reason : Reason

pub record RecoveryEvent : Type 0 where
  pub module_id : Bytes
  pub recovered_topics : List Bytes

-- `heap` holds the topic queues; a `shared_ptr` to one is its place there.
pub record Engine : Type 0 where
  pub queue_capacity : ℕ
  pub broadcast_ttl : ℕ
  pub topic_queue_ttl : ℕ
  pub event_count : ℕ
  pub interned : StringIntern
  pub modules : List (Bytes × ModuleInfo)
  pub topic_subscribers : List (ℕ × List Bytes)
  pub topic_producers : List (ℕ × List Bytes)
  pub job_handlers : List (ℕ × List Bytes)
  pub module_availability : List (Bytes × List (Bytes × Bool))
  pub unavailable_handlers : List (Bytes × List Bytes)
  pub topic_queues : ShardedMap ℕ
  pub heap : List TopicQueue
  pub egress_wakeup : Bool
  pub pending_jobs : List (Bytes × Bytes)
  pub job_tracking : List (Bytes × JobTrackingInfo)
  pub job_round_robin : List (ℕ × ℕ)
  pub job_timeout_events : List JobTimeoutEvent
  pub recovery_events : List RecoveryEvent
  pub heartbeat_manager : HeartbeatManager
  pub dead_letters : List (Message × Bytes × Bytes)
  pub sent : List (List Bytes)

-- The constructor; `second` is the unit of time, and the map has its default number of buckets.
unfoldable pub new : ℕ → ℕ → Engine
new second queue_capacity = record {
  queue_capacity = queue_capacity;
  broadcast_ttl = 60 * second;
  topic_queue_ttl = 60 * second;
  event_count = 0;
  interned = empty_intern;
  modules = [];
  topic_subscribers = [];
  topic_producers = [];
  job_handlers = [];
  module_availability = [];
  unavailable_handlers = [];
  topic_queues = ShardedMap.new ℕ 256;
  heap = [];
  egress_wakeup = false;
  pending_jobs = [];
  job_tracking = [];
  job_round_robin = [];
  job_timeout_events = [];
  recovery_events = [];
  heartbeat_manager = Heartbeat.new second (pos 3);
  dead_letters = [];
  sent = [];
}

abbrev pub or_nothing {ℓ} : {A : Type ℓ} → Option (List A) → List A
or_nothing none = []
or_nothing (some xs) = xs

-- `m[k]` of a map of vectors
abbrev pub names_at : ℕ → List (ℕ × List Bytes) → List Bytes
names_at k m = or_nothing (Assoc.lookup ℕ_discrete k m)

-- `_topic_queues.get_or_create(topic, capacity)`, with the queue that it allocates.
unfoldable pub get_queue : Bytes → Engine → ℕ × Engine
get_queue topic e =
    let created = ShardedMap.get_or_create topic (length e.heap) 0 e.topic_queues in
    (
      created.queue,
      record e {
        topic_queues = created.after;
        heap =
            (if created.made
              then e.heap ++ (TopicQueue.new e.queue_capacity BackpressureStrategy.drop_oldest ∷ [])
              else e.heap);
      },
    )

abbrev enlist : ℕ → Bytes → List (ℕ × List Bytes) → List (ℕ × List Bytes)
enlist topic_id mid m = Assoc.assign ℕ_discrete topic_id (add_once mid (names_at topic_id m)) m

abbrev start_round : ℕ → List (ℕ × ℕ) → List (ℕ × ℕ)
start_round topic_id rr = elim (Assoc.lookup ℕ_discrete topic_id rr) [
  | none ↦ Assoc.assign ℕ_discrete topic_id 0 rr
  | some i ↦ rr
]

-- The `if` ladder of `register_module` on the pattern.
abbrev enroll : InterfacePattern → ℕ → Bytes → Engine → Engine
enroll InterfacePattern.on id mid e = record e {
  topic_subscribers = enlist id mid e.topic_subscribers;
}
enroll InterfacePattern.send id mid e = record e {
  topic_producers = enlist id mid e.topic_producers;
}
enroll InterfacePattern.handle id mid e = record e {
  job_handlers = enlist id mid e.job_handlers;
  job_round_robin = start_round id e.job_round_robin;
}
enroll InterfacePattern.request id mid e = record e {
  topic_producers = enlist id mid e.topic_producers;
}

unfoldable pub register_interface : Bytes → Interface → Engine → Engine
register_interface mid iface e =
    let (topic_id, t) = Intern.intern iface.event_type e.interned in
    let (q, e') = get_queue iface.event_type (record e { interned = t }) in
    enroll iface.pattern topic_id mid e'

unfoldable pub register_interfaces : Bytes → List Interface → Engine → Engine
register_interfaces mid [] e = e
register_interfaces mid (i ∷ is) e = register_interfaces mid is (register_interface mid i e)

unfoldable pub register_module : ℕ → ModuleInfo → Engine → Engine
register_module now info e =
    let e₁ = record e { modules = Assoc.assign bytes_discrete info.module_id info e.modules } in
    let e₂ = register_interfaces info.module_id info.interfaces e₁ in
    record e₂ {
      heartbeat_manager = Heartbeat.register_module now info.module_id e₂.heartbeat_manager;
    }

-- The loop over a map of vectors in `unregister_module`.
unfoldable pub delist : Bytes → List (ℕ × List Bytes) → List (ℕ × List Bytes)
delist mid [] = []
delist mid ((id, xs) ∷ m) = (id, remove mid xs) ∷ delist mid m

-- The loop over `_job_tracking` in `unregister_module`.
unfoldable pub orphan_jobs : Bytes → List (Bytes × JobTrackingInfo) → List (Bytes × JobTrackingInfo)
orphan_jobs mid [] = []
orphan_jobs mid ((cid, info) ∷ m) =
    (
      cid,
      ite (bytes_discrete info.handler_id mid) (record info { handler_id = []; dispatch_time = 0 })
          info,
    )
    ∷ orphan_jobs mid m

unfoldable pub unregister_module : Bytes → Engine → Engine
unregister_module mid e = elim (Assoc.lookup bytes_discrete mid e.modules) [
  | none ↦ e
  | some info ↦ record e {
    topic_subscribers = delist mid e.topic_subscribers;
    topic_producers = delist mid e.topic_producers;
    job_handlers = delist mid e.job_handlers;
    unavailable_handlers = Assoc.erase bytes_discrete mid e.unavailable_handlers;
    module_availability = Assoc.erase bytes_discrete mid e.module_availability;
    modules = Assoc.erase bytes_discrete mid e.modules;
    job_tracking = orphan_jobs mid e.job_tracking;
    heartbeat_manager = Heartbeat.unregister mid e.heartbeat_manager;
  }
]

abbrev timed_out : Bytes → Option (List Bytes) → Bool
timed_out topic none = false
timed_out topic (some topics) = contains topic topics

abbrev switched_off : Bytes → Option (List (Bytes × Bool)) → Bool
switched_off topic none = false
switched_off topic (some flags) = elim (Assoc.lookup bytes_discrete topic flags) [
  | none ↦ false
  | some on ↦ not on
]

unfoldable pub is_handler_available : Bytes → Bytes → Engine → Bool
is_handler_available mid topic e =
    if timed_out topic (Assoc.lookup bytes_discrete mid e.unavailable_handlers)
    then false
    else if switched_off topic (Assoc.lookup bytes_discrete mid e.module_availability)
    then false
    else true
