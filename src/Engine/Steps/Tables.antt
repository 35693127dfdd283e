-- ===== src/Engine/Steps/Tables.antt =====
-- src/tyche/cpp/engine/engine.cpp: the job tables over a step of the workers other than the job router.
use tyche_engine.Common.{
  ℕ, ◌+◌, ltb, if◌then◌else◌, codes, ◌≡◌, refl, sym, ap, ◌∙◌, arith, Bool, true, false, Option,
  none, some, List, [], ◌∷◌, Bytes, bytes_discrete, get_elem?, inl, inr, Option-cases,
}
use tyche_engine.Common.Assoc
use tyche_engine.Types.{InterfacePattern, Interface, ModuleInfo}
use tyche_engine.Message.{Message, Codec, find}
use tyche_engine.Frame.{QueueItem}
use tyche_engine.Heartbeat
use tyche_engine.ShardedMap
use tyche_engine.TopicQueue
use tyche_engine.TopicQueue.{Schedule}
use tyche_engine.Engine.{
  Engine, JobTrackingInfo, enroll, get_queue, register_interface, register_interfaces,
  register_module, orphan_jobs, unregister_module, or_nothing,
}
use tyche_engine.Engine.Jobs.Pending.{present, Matched}
use tyche_engine.Engine.Events.{
  message_frame, put_at, wake, inject_event, queue_for, enqueue_from_xsub, deliver, egress_step,
  recover, bury, set_availability, flags_of, on_heartbeat, collect, is_active, is_stale,
  unregister_all, monitor_round,
}

-- The same job tables.
abbrev pub SameJobs : Engine → Engine → Type 0
SameJobs e e' = (e'.job_tracking ≡ e.job_tracking) × (e'.pending_jobs ≡ e.pending_jobs)

pub same-Matched : (e e' : Engine) → SameJobs e e' → Matched e → Matched e'
same-Matched e e' (t, p) m d =
    ap (λ l. present (Assoc.lookup bytes_discrete d l)) t
    ∙ m d
    ∙ ap (λ l. present (Assoc.lookup bytes_discrete d l)) (sym p)

abbrev pub Kept : Engine → Option Engine → Type 0
Kept e none = Unit
Kept e (some e') = SameJobs e e'

enroll-same :
    (pattern : InterfacePattern) (id : ℕ) (mid : Bytes) (e : Engine)
    → SameJobs e (enroll pattern id mid e)
enroll-same InterfacePattern.on id mid e = (refl, refl)
enroll-same InterfacePattern.send id mid e = (refl, refl)
enroll-same InterfacePattern.handle id mid e = (refl, refl)
enroll-same InterfacePattern.request id mid e = (refl, refl)

register_interface-same :
    (mid : Bytes) (i : Interface) (e : Engine) → SameJobs e (register_interface mid i e)
unfolding register_interface get_queue
register_interface-same mid i e = enroll-same i.pattern _ mid _

register_interfaces-same :
    (mid : Bytes) (is : List Interface) (e : Engine) → SameJobs e (register_interfaces mid is e)
unfolding register_interfaces
register_interfaces-same mid [] e = (refl, refl)
register_interfaces-same mid (i ∷ is) e =
    let (t, p) = register_interface-same mid i e in
    let (t', p') = register_interfaces-same mid is (register_interface mid i e) in (t' ∙ t, p' ∙ p)

pub register_module-same :
    (now : ℕ) (info : ModuleInfo) (e : Engine) → SameJobs e (register_module now info e)
unfolding register_module
register_module-same now info e =
    register_interfaces-same info.module_id info.interfaces
      (record e { modules = Assoc.assign bytes_discrete info.module_id info e.modules })

-- Taking a handler off its jobs leaves them tracked.
orphan_jobs-present :
    (mid d : Bytes) (jobs : List (Bytes × JobTrackingInfo))
    → present (Assoc.lookup bytes_discrete d (orphan_jobs mid jobs))
      ≡ present (Assoc.lookup bytes_discrete d jobs)
unfolding orphan_jobs Assoc.lookup
orphan_jobs-present mid d [] = refl
orphan_jobs-present mid d ((c, i) ∷ jobs) = ground (arith, orphan_jobs-present mid d jobs)

pub unregister_module-Matched :
    (mid : Bytes) (e : Engine) → Matched e → Matched (unregister_module mid e)
unfolding unregister_module
unregister_module-Matched mid e m d =
    elim (Option-cases (Assoc.lookup bytes_discrete mid e.modules)) [
      | inl p ↦ rw (p, unregister_module) (m d)
      | inr (info, p) ↦ rw (p, unregister_module) (orphan_jobs-present mid d e.job_tracking ∙ m d)
    ]

put_at-Kept :
    (css : Schedule) (p : ℕ) (item : QueueItem) (e : Engine) → Kept e (put_at css p item e)
unfolding put_at
put_at-Kept css p item e = elim (Option-cases (get_elem? e.heap p)) [
  | inl h ↦ rw (h, put_at) tt
  | inr (q, h) ↦ elim (Option-cases (TopicQueue.put css item q)) [
    | inl g ↦ rw (h, g, put_at) tt
    | inr ((ok, q'), g) ↦ rw (h, g, put_at) (refl, refl)
  ]
]

wake-Kept :
    (e : Engine) (o : Option Engine) (topic : Bytes) (now : ℕ)
    → Kept e o
    → Kept e (wake o topic now)
wake-Kept e none topic now k = tt
wake-Kept e (some e') topic now k = k

pub inject_event-Kept :
    (css : Schedule) (now later : ℕ) (topic message : Bytes) (e : Engine)
    → Kept e (inject_event css now later topic message e)
unfolding inject_event get_queue
inject_event-Kept css now later topic message e =
    wake-Kept e _ topic later (put_at-Kept css _ _ (get_queue topic e).1)

queue_for-same : (topic : Bytes) (e : Engine) → SameJobs e (queue_for topic e).1
unfolding queue_for get_queue
queue_for-same topic e = elim (Option-cases (ShardedMap.get_raw topic e.topic_queues)) [
  | inl h ↦ rw (h, queue_for) (refl, refl)
  | inr (q, h) ↦ rw (h, queue_for) (refl, refl)
]

Kept-after : (e e' : Engine) (o : Option Engine) → SameJobs e e' → Kept e' o → Kept e o
Kept-after e e' none s k = tt
Kept-after e e' (some e'') (t, p) (t', p') = (t' ∙ t, p' ∙ p)

pub enqueue_from_xsub-Kept :
    (css : Schedule) (now later : ℕ) (frames : List Bytes) (e : Engine)
    → Kept e (enqueue_from_xsub css now later frames e)
unfolding enqueue_from_xsub
enqueue_from_xsub-Kept css now later [] e = (refl, refl)
enqueue_from_xsub-Kept css now later (a ∷ []) e = (refl, refl)
enqueue_from_xsub-Kept css now later (a ∷ b ∷ more) e =
    wake-Kept e _ a later (
      Kept-after e (queue_for a e).1 _ (queue_for-same a e) (put_at-Kept css _ _ (queue_for a e).1))

bury-same :
    (codec : Codec) (topic : Bytes) (m : Option Message) (e : Engine)
    → SameJobs e (bury codec topic m e)
bury-same codec topic none e = (refl, refl)
bury-same codec topic (some m) e = (refl, refl)

if-same : (e e' : Engine) (b : Bool) → SameJobs e e' → SameJobs e (if b then e' else e)
if-same e e' true s = s
if-same e e' false s = (refl, refl)

unless-same : (e e' : Engine) (b : Bool) → SameJobs e e' → SameJobs e (if b then e else e')
unless-same e e' true s = (refl, refl)
unless-same e e' false s = s

deliver-same :
    (codec : Codec) (now later : ℕ) (topic : Bytes) (item : QueueItem) (e : Engine)
    → SameJobs e (deliver codec now later topic item e)
unfolding deliver
deliver-same codec now later topic item e =
    if-same e (bury codec topic (codec.deserialize (message_frame item.frames)) e)
      (ltb (item.enqueue_time + e.broadcast_ttl) now)
      (bury-same codec topic (codec.deserialize (message_frame item.frames)) e)

pub egress_step-same :
    (codec : Codec) (now later : ℕ) (topic : Bytes) (p : ℕ) (e : Engine)
    → SameJobs e (egress_step codec now later topic p e).1
unfolding egress_step
egress_step-same codec now later topic p e = elim (Option-cases (get_elem? e.heap p)) [
  | inl h ↦ rw (h, egress_step) (refl, refl)
  | inr (q, h) ↦ elim (Option-cases (TopicQueue.get q).0) [
    | inl g ↦ rw (h, g, egress_step) (refl, refl)
    | inr (x, g) ↦ rw (h, g, egress_step) (deliver-same codec now later topic x _)
  ]
]

set_availability-same :
    (mid : Bytes) (flags : Option (List (Bytes × Bool))) (e : Engine)
    → SameJobs e (set_availability mid flags e)
set_availability-same mid none e = (refl, refl)
set_availability-same mid (some flags) e = (refl, refl)

recover-same : (mid : Bytes) (topics : List Bytes) (e : Engine) → SameJobs e (recover mid topics e)
recover-same mid [] e = (refl, refl)
recover-same mid (t ∷ ts) e = (refl, refl)

pub on_heartbeat-same : (now : ℕ) (msg : Message) (e : Engine) → SameJobs e (on_heartbeat now msg e)
unfolding on_heartbeat
on_heartbeat-same now msg e =
    let e₁ = record e { heartbeat_manager = Heartbeat.update now msg.sender e.heartbeat_manager } in
    let e₂ = set_availability msg.sender (flags_of (find (codes "availability") msg.payload)) e₁ in
    let (t, p) =
      set_availability-same msg.sender (flags_of (find (codes "availability") msg.payload)) e₁ in
    let (t', p') =
      recover-same msg.sender
        (or_nothing (Assoc.lookup bytes_discrete msg.sender e₂.unavailable_handlers)) e₂ in
    (t' ∙ t, p' ∙ p)

collect-same :
    (now : ℕ) (queues : List (Bytes × ℕ)) (e : Engine) → SameJobs e (collect now queues e)
unfolding collect
collect-same now [] e = (refl, refl)
collect-same now ((topic, p) ∷ queues) e =
    let without = record e { topic_queues = ShardedMap.erase topic e.topic_queues } in
    let swept = if is_stale now topic e then without else e in
    let (t, k) = if-same e without (is_stale now topic e) (refl, refl) in
    let (t', k') = unless-same e swept (is_active topic e) (t, k) in
    let (t'', k'') = collect-same now queues (if is_active topic e then e else swept) in
    (t'' ∙ t', k'' ∙ k')

unregister_all-Matched :
    (mids : List Bytes) (e : Engine) → Matched e → Matched (unregister_all mids e)
unfolding unregister_all
unregister_all-Matched [] e m = m
unregister_all-Matched (mid ∷ mids) e m =
    unregister_all-Matched mids (unregister_module mid e) (unregister_module-Matched mid e m)

pub monitor_round-Matched : (now : ℕ) (e : Engine) → Matched e → Matched (monitor_round now e)
unfolding monitor_round
monitor_round-Matched now e m =
    let (expired, hm) = Heartbeat.tick_all e.heartbeat_manager in
    let e' = unregister_all expired (record e { heartbeat_manager = hm }) in
    same-Matched e' (collect now (ShardedMap.snapshot e'.topic_queues) e')
      (collect-same now (ShardedMap.snapshot e'.topic_queues) e')
      (unregister_all-Matched expired (record e { heartbeat_manager = hm }) m)
