-- ===== src/Engine/Jobs.antt =====
-- src/tyche/cpp/engine/engine.cpp: the handlers of `_job_router_worker`. A request is handed to one
-- available handler of its topic in turn, and a response goes back to the requester.
pub mod Pending
pub mod Dispatch
pub mod Reply
use tyche_engine.Common.{
  ℕ, ◌+◌, ◌*◌, ◌%◌, ◌≡◌, Bool, true, false, Option, none, some, List, [], ◌∷◌, ◌++◌, length, get_or,
  not, ltb, leb, ◌==◌, ◌&&◌, if◌then◌else◌, Bytes, bytes_discrete, ℕ_discrete, codes, ite,
}
use tyche_engine.Common.Assoc
use tyche_engine.Common.Members.{contains, add_once}
use tyche_engine.Types.{MessageType}
use tyche_engine.Message.{
  Value, Payload, Message, Codec, no_message, find, text, whole, real, flag, table, other, field,
  end,
}
use tyche_engine.Intern
use tyche_engine.Engine.{
  Engine, JobTrackingInfo, Reason, run_timeout, wait_timeout, JobTimeoutEvent, RecoveryEvent,
  names_at, is_handler_available,
}

unfoldable pub filter_available : Bytes → Engine → List Bytes → List Bytes
filter_available topic e [] = []
filter_available topic e (h ∷ hs) =
    let rest = filter_available topic e hs in
    if is_handler_available h topic e then h ∷ rest else rest

abbrev or_zero : Option ℕ → ℕ
or_zero none = 0
or_zero (some n) = n

-- `_job_round_robin[topic_id] % n`
unfoldable pub round_robin : ℕ → ℕ → Engine → ℕ
round_robin id n e = or_zero (Assoc.lookup ℕ_discrete id e.job_round_robin) % n

abbrev pub turn : ℕ → ℕ → Engine → Engine
turn id n e = record e {
  job_round_robin = Assoc.assign ℕ_discrete id (round_robin id n e + 1) e.job_round_robin;
}

abbrev pub send : List Bytes → Engine → Engine
send frames e = record e { sent = e.sent ++ (frames ∷ []) }

abbrev pub track : Bytes → JobTrackingInfo → Engine → Engine
track cid info e = record e { job_tracking = Assoc.assign bytes_discrete cid info e.job_tracking }

abbrev pub untrack : Bytes → Engine → Engine
untrack cid e = record e { job_tracking = Assoc.erase bytes_discrete cid e.job_tracking }

abbrev pub pend : Bytes → Bytes → Engine → Engine
pend cid identity e = record e {
  pending_jobs = Assoc.assign bytes_discrete cid identity e.pending_jobs;
}

abbrev pub unpend : Bytes → Engine → Engine
unpend cid e = record e { pending_jobs = Assoc.erase bytes_discrete cid e.pending_jobs }

abbrev pub is_empty {ℓ} : {A : Type ℓ} → List A → Bool
is_empty [] = true
is_empty (x ∷ xs) = false

-- `retry_job` from the check of the available handlers on: whether the job was handed over, the
-- job's information, which is updated in place, and the state.
unfoldable pub hand_over :
    ℕ → Bytes → JobTrackingInfo → ℕ → List Bytes → Engine → Bool × JobTrackingInfo × Engine
hand_over now cid info id [] e = (false, info, e)
hand_over now cid info id (a ∷ more) e =
    let hid = get_or (a ∷ more) (round_robin id (length (a ∷ more)) e) [] in
    let info' = record info { handler_id = hid; dispatch_time = now } in
    (
      true,
      info',
      track cid info' (
          send (hid ∷ [] ∷ info.topic_frame ∷ info.message_frame ∷ [])
            (turn id (length (a ∷ more)) e)),
    )

-- The handlers of a topic that may be given a job now.
abbrev pub available_for : Bytes → ℕ → Engine → List Bytes
available_for topic id e = filter_available topic e (names_at id e.job_handlers)

unfoldable pub retry_job : ℕ → Bytes → JobTrackingInfo → Engine → Bool × JobTrackingInfo × Engine
retry_job now cid info e =
    let (id, t) = Intern.intern info.topic e.interned in
    let e' = record e { interned = t } in
    hand_over now cid info id (available_for info.topic id e') e'

-- What follows a `retry_job`: a job that was not handed over is put back, `back` having updated it.
unfoldable pub settle :
    Bytes → (JobTrackingInfo → JobTrackingInfo) → Bool × JobTrackingInfo × Engine → Engine
settle cid back (done, info, e) = if done then e else track cid (back info) e

-- A timeout of a request: its own field, else a number of the payload, else the default.
abbrev in_payload : Option Value → ℕ → ℕ
in_payload (some (real t)) default = t
in_payload (some (whole t)) default = t
in_payload (some (text s)) default = default
in_payload (some (flag b)) default = default
in_payload (some (table p)) default = default
in_payload (some other) default = default
in_payload none default = default

abbrev timeout_of : Option ℕ → Bytes → Payload → ℕ → ℕ
timeout_of (some t) key payload default = t
timeout_of none key payload default = in_payload (find key payload) default

abbrev pub or_no_name : Option Bytes → Bytes
or_no_name none = []
or_no_name (some s) = s

unfoldable pub no_handler_error : Message → Message
no_handler_error msg = record no_message {
  msg_type = MessageType.response;
  sender = codes "engine";
  event = msg.event;
  payload =
      field (codes "error")
        (text (codes "No handler registered for job '" ++ (msg.event ++ codes "'"))) end;
  correlation_id = msg.correlation_id;
}

unfoldable pub handle_response : Bytes → Bytes → Message → Engine → Engine
handle_response topic_frame message_frame msg e =
    let cid = or_no_name msg.correlation_id in
    elim (Assoc.lookup bytes_discrete cid e.pending_jobs) [
      | none ↦ e
      | some req_id ↦
          send (req_id ∷ [] ∷ topic_frame ∷ message_frame ∷ []) (untrack cid (unpend cid e))
    ]

-- `second`: the unit of time, for the defaults of 30 s and 60 s.
module _ (codec : Codec) (second : ℕ) where
  unfoldable pub job_of : ℕ → Bytes → Bytes → Bytes → Message → Bytes → ℕ → JobTrackingInfo
  job_of now identity topic_frame message_frame msg handler_id dispatch_time = record {
    requester_id = identity;
    handler_id = handler_id;
    topic = msg.event;
    dispatch_time = dispatch_time;
    wait_start_time = now;
    wait_timeout = timeout_of msg.wait_timeout (codes "wait_timeout") msg.payload (30 * second);
    run_timeout = timeout_of msg.run_timeout (codes "run_timeout") msg.payload (60 * second);
    topic_frame = topic_frame;
    message_frame = message_frame;
  }

  -- `handle_request` from the check of the handlers on: the registered ones, then the available ones.
  unfoldable pub route :
      ℕ → Bytes → Bytes → Bytes → Message → ℕ → List Bytes → List Bytes → Engine → Engine
  route now identity topic_frame message_frame msg id [] [] e =
      send (identity ∷ [] ∷ topic_frame ∷ codec.serialize (no_handler_error msg) ∷ []) e
  route now identity topic_frame message_frame msg id (h ∷ hs) [] e =
      let cid = or_no_name msg.correlation_id in
      pend cid identity (track cid (job_of now identity topic_frame message_frame msg [] 0) e)
  route now identity topic_frame message_frame msg id hs (a ∷ more) e =
      let cid = or_no_name msg.correlation_id in
      let hid = get_or (a ∷ more) (round_robin id (length (a ∷ more)) e) [] in
      send (hid ∷ [] ∷ topic_frame ∷ message_frame ∷ []) (
        track cid (job_of now identity topic_frame message_frame msg hid now)
          (pend cid identity (turn id (length (a ∷ more)) e)))

  unfoldable pub handle_request : ℕ → Bytes → Bytes → Bytes → Message → Engine → Engine
  handle_request now identity topic_frame message_frame msg e₀ =
      let (id, t) = Intern.intern msg.event e₀.interned in
      let e = record e₀ { interned = t } in
      route now identity topic_frame message_frame msg id (names_at id e.job_handlers)
        (available_for msg.event id e) e
