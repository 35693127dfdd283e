-- ===== src/Engine/Timeouts.antt =====
-- src/tyche/cpp/engine/engine.cpp: timeouts and recoveries of jobs, and the rounds of the job router
-- and of the job timeout worker.
pub mod Rounds
pub mod Overrun
pub mod Due
pub mod Spared
pub mod GivenUp
use tyche_engine.Common.{
  ℕ, ◌+◌, ◌*◌, ◌%◌, ◌≡◌, Bool, true, false, Option, none, some, List, [], ◌∷◌, ◌++◌, length, get_or,
  not, ltb, leb, ◌==◌, ◌&&◌, if◌then◌else◌, Bytes, bytes_discrete, ℕ_discrete, codes, ite,
}
use tyche_engine.Common.Assoc
use tyche_engine.Common.Members.{contains, add_once}
use tyche_engine.Types.{MessageType}
use tyche_engine.Message.{
  Value, Payload, Message, Codec, no_message, find, text, whole, real, flag, table, other, field,
  end,
}
use tyche_engine.Intern
use tyche_engine.Engine.{
  or_nothing, Engine, JobTrackingInfo, Reason, run_timeout, wait_timeout, JobTimeoutEvent,
  RecoveryEvent, names_at, is_handler_available,
}
use tyche_engine.Engine.Jobs.{
  retry_job, settle, send, track, untrack, unpend, is_empty, handle_request, handle_response,
}

abbrev reason_str : Reason → Bytes
reason_str run_timeout = codes "run_timeout"
reason_str wait_timeout = codes "wait_timeout"

unfoldable pub timeout_error : Bytes → Bytes → Reason → Message
timeout_error cid topic reason = record no_message {
  msg_type = MessageType.response;
  sender = codes "engine";
  event = topic;
  payload =
      field (codes "error") (text (reason_str reason))
        (field (codes "correlation_id") (text cid) end);
  correlation_id = some cid;
}

abbrev letter : Bytes → Option Message → Engine → Engine
letter topic none e = e
letter topic (some m) e = record e {
  dead_letters = e.dead_letters ++ ((m, topic, codes "wait_timeout") ∷ []);
}

abbrev pub mark_unavailable : Bytes → Bytes → Engine → Engine
mark_unavailable mid topic e = record e {
  unavailable_handlers =
      Assoc.assign bytes_discrete mid
        (add_once topic (or_nothing (Assoc.lookup bytes_discrete mid e.unavailable_handlers)))
        e.unavailable_handlers;
}

-- The branch of `process_timeout` for a handler that ran too long.
unfoldable pub overrun : ℕ → Bytes → JobTrackingInfo → Engine → Engine
overrun now cid info e =
    settle cid (λ i. record i { handler_id = []; dispatch_time = 0 })
      (retry_job now cid info (mark_unavailable info.handler_id info.topic e))

module _ (codec : Codec) where
  abbrev letters : Reason → JobTrackingInfo → Engine → Engine
  letters wait_timeout info e = letter info.topic (codec.deserialize info.message_frame) e
  letters run_timeout info e = e

  -- The rest of `process_timeout`: the job is dropped, and its requester told.
  unfoldable pub give_up : Bytes → Reason → JobTrackingInfo → Engine → Engine
  give_up cid reason info e =
      send
        (info.requester_id
          ∷ []
          ∷ info.topic_frame
          ∷ codec.serialize (timeout_error cid info.topic reason)
          ∷ [])
        (unpend cid (letters reason info e))

  abbrev by_reason : Reason → Bool → ℕ → Bytes → JobTrackingInfo → Engine → Engine
  by_reason run_timeout false now cid info e = overrun now cid info e
  by_reason run_timeout true now cid info e = give_up cid run_timeout info e
  by_reason wait_timeout assigned now cid info e = give_up cid wait_timeout info e

  unfoldable pub process_timeout : ℕ → JobTimeoutEvent → Engine → Engine
  process_timeout now ev e = elim (Assoc.lookup bytes_discrete ev.correlation_id e.job_tracking) [
    | none ↦ e
    | some info ↦
        by_reason ev.reason (is_empty info.handler_id) now ev.correlation_id info
          (untrack ev.correlation_id e)
  ]

-- The jobs that a recovery event concerns: no handler yet, and a recovered topic.
unfoldable pub waiting_jobs :
    List Bytes → List (Bytes × JobTrackingInfo) → List (Bytes × JobTrackingInfo)
waiting_jobs topics [] = []
waiting_jobs topics ((c, i) ∷ jobs) =
    let rest = waiting_jobs topics jobs in
    if is_empty i.handler_id && contains i.topic topics then (c, i) ∷ rest else rest

unfoldable pub retry_waiting : ℕ → Bytes → JobTrackingInfo → Engine → Engine
retry_waiting now c i e = settle c (λ j. j) (retry_job now c i (untrack c e))

unfoldable pub retry_all : ℕ → List (Bytes × JobTrackingInfo) → Engine → Engine
retry_all now [] e = e
retry_all now ((c, i) ∷ jobs) e = retry_all now jobs (retry_waiting now c i e)

unfoldable pub process_recovery : ℕ → RecoveryEvent → Engine → Engine
process_recovery now ev e = retry_all now (waiting_jobs ev.recovered_topics e.job_tracking) e

-- The test of `_job_timeout_worker` on one job.
unfoldable pub due : ℕ → JobTrackingInfo → Option Reason
due now info =
    if is_empty info.handler_id
    then (if ltb (info.wait_start_time + info.wait_timeout) now then some wait_timeout else none)
    else (if ltb (info.dispatch_time + info.run_timeout) now then some run_timeout else none)

abbrev pub event_of : Bytes → Option Reason → List JobTimeoutEvent → List JobTimeoutEvent
event_of cid none evs = evs
event_of cid (some reason) evs = record { correlation_id = cid; reason = reason } ∷ evs

unfoldable pub due_events : ℕ → List (Bytes × JobTrackingInfo) → List JobTimeoutEvent
due_events now [] = []
due_events now ((cid, info) ∷ jobs) = event_of cid (due now info) (due_events now jobs)

-- One round of `_job_timeout_worker`.
unfoldable pub scan_timeouts : ℕ → Engine → Engine
scan_timeouts now e = record e {
  job_timeout_events = e.job_timeout_events ++ due_events now e.job_tracking;
}

module _ (codec : Codec) (second : ℕ) where
  abbrev by_type : MessageType → ℕ → Bytes → Bytes → Bytes → Message → Engine → Engine
  by_type MessageType.request now identity topic_frame message_frame msg e =
      handle_request codec second now identity topic_frame message_frame msg e
  by_type MessageType.response now identity topic_frame message_frame msg e =
      handle_response topic_frame message_frame msg e
  by_type other_type now identity topic_frame message_frame msg e = e

  abbrev on_message : ℕ → Bytes → Bytes → Bytes → Option Message → Engine → Engine
  on_message now identity topic_frame message_frame none e = e
  on_message now identity topic_frame message_frame (some msg) e =
      by_type msg.msg_type now identity topic_frame message_frame msg e

  -- A received multipart message: [identity, empty, topic, message, …].
  unfoldable pub receive : ℕ → List Bytes → Engine → Engine
  receive now (identity ∷ gap ∷ topic_frame ∷ message_frame ∷ more) e =
      on_message now identity topic_frame message_frame (codec.deserialize message_frame) e
  receive now frames e = e

  unfoldable pub process_timeouts : ℕ → List JobTimeoutEvent → Engine → Engine
  process_timeouts now [] e = e
  process_timeouts now (ev ∷ evs) e = process_timeouts now evs (process_timeout codec now ev e)

  unfoldable pub process_recoveries : ℕ → List RecoveryEvent → Engine → Engine
  process_recoveries now [] e = e
  process_recoveries now (ev ∷ evs) e = process_recoveries now evs (process_recovery now ev e)

  -- One round of the main loop of `_job_router_worker`: what was received (`[]` if nothing), then
  -- the timeouts, then the recoveries, each queue emptied first.
  unfoldable pub router_round : ℕ → List Bytes → Engine → Engine
  router_round now frames e =
      let e₁ = receive now frames e in
      let e₂ = process_timeouts now e₁.job_timeout_events (record e₁ { job_timeout_events = [] }) in
      process_recoveries now e₂.recovery_events (record e₂ { recovery_events = [] })
