-- ===== src/TycheModule/Requests.antt =====
-- src/tyche/cpp/module.cpp: the jobs that a module asks for and those that it does.
use tyche_engine.Common.{
  ℕ, true, false, ◌&&◌, Option, none, some, List, [], ◌∷◌, ◌++◌, length, get_or, set, if◌then◌else◌,
  Bytes, bytes_discrete, codes, ℕ_discrete,
}
use tyche_engine.Common.Assoc
use tyche_engine.Types.{MessageType}
use tyche_engine.Intern
use tyche_engine.Wire.{
  Fields, end, field, text, table, Msgpack, WireMessage, blank_message, serialize,
}
use tyche_engine.Wire.Unpack.{deserialize}
use tyche_engine.TycheModule.{
  TycheModule, PendingRequest, Outcome, result, exception, unknown_exception,
}

-- What `request_event` does: it returns a payload or throws.
pub data Reply (D F : Type 0) : Type 0 where
  returned : Fields D F → Reply D F
  timed_out : Reply D F

abbrev pub unanswered : {D F : Type 0} → PendingRequest D F
unanswered = record { result = end; ready = false }

module _ {D F : Type 0} where
  abbrev pub wake_all : List (Bytes × ℕ) → List (PendingRequest D F) → List (PendingRequest D F)
  wake_all [] rs = rs
  wake_all ((cid, i) ∷ more) rs =
      wake_all more (set rs i (record (get_or rs i unanswered) { ready = true }))

  abbrev pub outcome_payload : Outcome D F → Fields D F
  outcome_payload (result fs) = field (codes "result") (table fs) end
  outcome_payload (exception what) = field (codes "error") (text what) end
  outcome_payload unknown_exception =
      field (codes "error") (text (codes "Unknown handler error")) end

  abbrev pub no_handler : Bytes → Fields D F
  no_handler event =
      field (codes "error") (text (codes "No handler for job '" ++ event ++ codes "'")) end

  abbrev pub job_payload : Bytes → Fields D F → Option (Fields D F → Outcome D F) → Fields D F
  job_payload event payload none = no_handler event
  job_payload event payload (some handler) = outcome_payload (handler payload)

module _ {D F H : Type 0} where
  -- The payload of the response of `_handle_job_request`.
  unfoldable pub job_answer : Bytes → Fields D F → TycheModule D F H → Fields D F
  job_answer event payload m =
      job_payload event payload
        (Assoc.lookup ℕ_discrete (Intern.lookup event m.names) m.job_handlers)

  abbrev pub request_at : TycheModule D F H → ℕ → PendingRequest D F
  request_at m i = get_or m.requests i unanswered

  -- The first part of `_handle_job_response` is the test of the id; `payload` goes to the object.
  unfoldable pub handle_job_response :
      Fields D F → Option Bytes → TycheModule D F H → TycheModule D F H
  handle_job_response payload none m = m
  handle_job_response payload (some cid) m =
      elim (Assoc.lookup bytes_discrete cid m.pending_requests) [
        | none ↦ m
        | some i ↦ record m {
          requests = set m.requests i (record { result = payload; ready = true });
        }
      ]

  -- `request_event` from the end of the wait on: the response came or the time is over.
  unfoldable pub finish_request : ℕ → Bytes → TycheModule D F H → Reply D F × TycheModule D F H
  finish_request i cid m =
      let p = request_at m i in
      (
        (if p.ready then returned p.result else timed_out),
        record m { pending_requests = Assoc.erase bytes_discrete cid m.pending_requests },
      )

  -- `stop`, when its threads have ended.
  unfoldable pub stop : TycheModule D F H → TycheModule D F H
  stop m = record m {
    running = false;
    requests = wake_all m.pending_requests m.requests;
    pending_requests = [];
    pub_socket = false;
    job_socket = false;
    registered = false;
  }

module _ {D F : Type 0} (mp : Msgpack D F) where
  abbrev pub job_frames : Bytes → WireMessage D F → List Bytes
  job_frames event msg = [] ∷ event ∷ serialize mp msg ∷ []

module _ {D F H : Type 0} (mp : Msgpack D F) where
  abbrev pub request_message : Bytes → Fields D F → Bytes → TycheModule D F H → WireMessage D F
  request_message event payload cid m = record blank_message {
    msg_type = MessageType.request;
    sender = m.module_id;
    event = event;
    payload = payload;
    correlation_id = some cid;
  }

  abbrev pub send_job : Bytes → WireMessage D F → TycheModule D F H → TycheModule D F H
  send_job event msg m = record m { jobs_sent = m.jobs_sent ++ (job_frames mp event msg ∷ []) }

  -- `request_event` up to the wait, with the correlation id that it generates: the index of its
  -- pending request. `none`: it throws.
  unfoldable pub start_request :
      Bytes → Fields D F → Bytes → TycheModule D F H → Option (ℕ × TycheModule D F H)
  start_request event payload cid m =
      if m.job_socket && m.running
      then some (
        length m.requests,
        send_job event (request_message event payload cid m) (record m {
          requests = m.requests ++ (unanswered ∷ []);
          pending_requests = Assoc.assign bytes_discrete cid (length m.requests) m.pending_requests;
        }),
      )
      else none

  abbrev pub response_message :
      Bytes → Fields D F → Option Bytes → TycheModule D F H → WireMessage D F
  response_message event payload cid m = record blank_message {
    msg_type = MessageType.response;
    sender = m.module_id;
    event = event;
    payload = payload;
    correlation_id = cid;
  }

  unfoldable pub handle_job_request :
      Bytes → Fields D F → Option Bytes → TycheModule D F H → TycheModule D F H
  unfolding job_answer
  handle_job_request event payload cid m =
      send_job event (response_message event (job_answer event payload m) cid m) m

  abbrev by_type : MessageType → WireMessage D F → TycheModule D F H → TycheModule D F H
  by_type MessageType.request msg m = handle_job_request msg.event msg.payload msg.correlation_id m
  by_type MessageType.response msg m = handle_job_response msg.payload msg.correlation_id m
  by_type other msg m = m

  -- A round of `_job_receiver_loop` with the frames that came, none after a timeout.
  unfoldable pub receive_job : List Bytes → TycheModule D F H → TycheModule D F H
  receive_job (empty_frame ∷ topic ∷ bs ∷ more) m = elim (deserialize mp bs) [
    | none ↦ m
    | some msg ↦ by_type msg.msg_type msg m
  ]
  receive_job frames m = m
