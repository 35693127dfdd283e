-- ===== src/Engine/Events.antt =====
-- src/tyche/cpp/engine/engine.cpp: events on their way through the topic queues, heartbeats, and the
-- monitor with its garbage collection.
pub mod Usage
pub mod Collection
use tyche_engine.Common.{
  ℕ, zero, suc, ◌+◌, ◌≡◌, Bool, true, false, Option, none, some, List, [], ◌∷◌, ◌++◌, length,
  get_or, get_elem?, set, not, ltb, leb, ◌==◌, ◌&&◌, ◌||◌, if◌then◌else◌, Bytes, bytes_discrete,
  ℕ_discrete, codes, ite, map,
}
use tyche_engine.Common.Assoc
use tyche_engine.Common.Members.{contains}
use tyche_engine.Types.{MessageType}
use tyche_engine.Message.{
  Value, Payload, Message, Codec, find, text, whole, real, flag, table, other, field, end,
}
use tyche_engine.Frame
use tyche_engine.Frame.{Frame, QueueItem}
use tyche_engine.Intern
use tyche_engine.ShardedMap
use tyche_engine.TopicQueue
use tyche_engine.TopicQueue.{TopicQueue, Schedule}
use tyche_engine.Heartbeat
use tyche_engine.Engine.{Engine, RecoveryEvent, get_queue, or_nothing, unregister_module}

abbrev at_pointer : ℕ → Bool → TopicQueue → Engine → Engine
at_pointer p ok q e = record e { heap = set e.heap p q }

-- `q->put(item)` through a pointer; `none` as for `TopicQueue.put`.
unfoldable pub put_at : Schedule → ℕ → QueueItem → Engine → Option Engine
put_at css p item e = elim (get_elem? e.heap p) [
  | none ↦ none
  | some q ↦ elim (TopicQueue.put css item q) [
    | none ↦ none
    | some (ok, q') ↦ some (at_pointer p ok q' e)
  ]
]

abbrev pub wake : Option Engine → Bytes → ℕ → Option Engine
wake none topic now = none
wake (some e) topic now =
    some
      (record e { topic_queues = ShardedMap.touch topic now e.topic_queues; egress_wakeup = true })

-- `inject_event`; `inject_event_raw` has the same body, and takes the bytes by pointer and size.
unfoldable pub inject_event : Schedule → ℕ → ℕ → Bytes → Bytes → Engine → Option Engine
inject_event css now later topic message e =
    let (p, e') = get_queue topic e in
    let item : QueueItem = record {
      enqueue_time = now;
      frames = Frame.new topic ∷ Frame.new message ∷ [];
    } in
    wake (put_at css p item e') topic later

abbrev max_frames : ℕ
max_frames = 4

abbrev take {ℓ} : {A : Type ℓ} → ℕ → List A → List A
take zero xs = []
take (suc n) [] = []
take (suc n) (x ∷ xs) = x ∷ take n xs

unfoldable pub queue_for : Bytes → Engine → ℕ × Engine
queue_for topic e = elim (ShardedMap.get_raw topic e.topic_queues) [
  | some p ↦ (p, e)
  | none ↦ get_queue topic e
]

-- `_enqueue_from_xsub`: a message of at least two frames, of which the first four are kept.
unfoldable pub enqueue_from_xsub : Schedule → ℕ → ℕ → List Bytes → Engine → Option Engine
enqueue_from_xsub css now later [] e = some e
enqueue_from_xsub css now later (topic ∷ []) e = some e
enqueue_from_xsub css now later (topic ∷ message ∷ more) e =
    let (p, e') = queue_for topic e in
    let item : QueueItem = record {
      enqueue_time = now;
      frames = map Frame.new (take max_frames (topic ∷ message ∷ more));
    } in
    wake (put_at css p item e') topic later

-- The frame that is tried as the message: the second, else the first. No item is without frames.
abbrev pub message_frame : List Frame → Bytes
message_frame [] = []
message_frame (f ∷ []) = Frame.to_vector f
message_frame (f ∷ g ∷ fs) = Frame.to_vector g

module _ (codec : Codec) where
  abbrev pub bury : Bytes → Option Message → Engine → Engine
  bury topic none e = e
  bury topic (some m) e = record e {
    dead_letters = e.dead_letters ++ ((m, topic, codes "broadcast_ttl_expired") ∷ []);
  }

  -- What `_event_egress_worker` does with one item.
  unfoldable pub deliver : ℕ → ℕ → Bytes → QueueItem → Engine → Engine
  deliver now later topic item e =
      let buried = bury topic (codec.deserialize (message_frame item.frames)) e in
      let e' = if ltb (item.enqueue_time + e.broadcast_ttl) now then buried else e in
      record e' { topic_queues = ShardedMap.touch topic later e'.topic_queues }

  -- One turn of the inner `while` of `_event_egress_worker`: whether there was an item, and the state.
  unfoldable pub egress_step : ℕ → ℕ → Bytes → ℕ → Engine → Bool × Engine
  egress_step now later topic p e = elim (get_elem? e.heap p) [
    | none ↦ (false, e)
    | some q ↦
        let (item, q') = TopicQueue.get q in
        let e' = record e { heap = set e.heap p q' } in
        elim item [ none ↦ (false, e') | some x ↦ (true, deliver now later topic x e') ]
  ]

-- `any_cast<bool>` on each value of a payload; `none`: it throws.
unfoldable pub to_flags : Payload → Option (List (Bytes × Bool))
to_flags end = some []
to_flags (field k (flag b) rest) = elim (to_flags rest) [
  | none ↦ none
  | some flags ↦ some ((k, b) ∷ flags)
]
to_flags (field k (text s) rest) = none
to_flags (field k (whole n) rest) = none
to_flags (field k (real n) rest) = none
to_flags (field k (table p) rest) = none
to_flags (field k other rest) = none

abbrev pub flags_of : Option Value → Option (List (Bytes × Bool))
flags_of (some (table p)) = to_flags p
flags_of (some (text s)) = none
flags_of (some (whole n)) = none
flags_of (some (real n)) = none
flags_of (some (flag b)) = none
flags_of (some other) = none
flags_of none = none

abbrev pub set_availability : Bytes → Option (List (Bytes × Bool)) → Engine → Engine
set_availability mid none e = e
set_availability mid (some flags) e = record e {
  module_availability = Assoc.assign bytes_discrete mid flags e.module_availability;
}

abbrev pub recover : Bytes → List Bytes → Engine → Engine
recover mid [] e = e
recover mid (t ∷ ts) e = record e {
  unavailable_handlers = Assoc.erase bytes_discrete mid e.unavailable_handlers;
  recovery_events =
      e.recovery_events ++ (record { module_id = mid; recovered_topics = t ∷ ts } ∷ []);
}

-- What `_heartbeat_receive_worker` does with a heartbeat.
unfoldable pub on_heartbeat : ℕ → Message → Engine → Engine
on_heartbeat now msg e₀ =
    let e₁ = record e₀ {
      heartbeat_manager = Heartbeat.update now msg.sender e₀.heartbeat_manager;
    } in
    let e₂ = set_availability msg.sender (flags_of (find (codes "availability") msg.payload)) e₁ in
    recover msg.sender (or_nothing (Assoc.lookup bytes_discrete msg.sender e₂.unavailable_handlers))
      e₂

-- The names with which `_topic_subscribers` or `_topic_producers` keep a topic alive.
unfoldable pub active_of : Engine → List (ℕ × List Bytes) → List Bytes
active_of e [] = []
active_of e ((id, []) ∷ m) = active_of e m
active_of e ((id, mid ∷ mids) ∷ m) = Intern.resolve id e.interned ∷ active_of e m

unfoldable pub is_active : Bytes → Engine → Bool
is_active topic e =
    contains topic (active_of e e.topic_subscribers)
    || contains topic (active_of e e.topic_producers)

-- `last == 0.0` stands for a queue that was never used, which counts as used now.
unfoldable pub is_stale : ℕ → Bytes → Engine → Bool
is_stale now topic e =
    let last = ShardedMap.last_access topic e.topic_queues in
    ltb ((if last == 0 then now else last) + e.topic_queue_ttl) now

unfoldable pub collect : ℕ → List (Bytes × ℕ) → Engine → Engine
collect now [] e = e
collect now ((topic, p) ∷ queues) e =
    let swept = record e { topic_queues = ShardedMap.erase topic e.topic_queues } in
    collect now queues (if is_active topic e then e else if is_stale now topic e then swept else e)

unfoldable pub unregister_all : List Bytes → Engine → Engine
unregister_all [] e = e
unregister_all (mid ∷ mids) e = unregister_all mids (unregister_module mid e)

-- One round of `_monitor_worker`.
unfoldable pub monitor_round : ℕ → Engine → Engine
monitor_round now e₀ =
    let (expired, hm) = Heartbeat.tick_all e₀.heartbeat_manager in
    let e = unregister_all expired (record e₀ { heartbeat_manager = hm }) in
    collect now (ShardedMap.snapshot e.topic_queues) e
