-- ===== src/Tests/Jobs.antt =====
-- The engine with one topic, one handler and one job.
use tyche_engine.Common.{
  ℕ, ◌≡◌, ◌↔◌, refl, arith, true, false, none, some, List, [], ◌∷◌, map, Bytes, bytes_discrete,
  ℕ_discrete, codes,
}
use tyche_engine.Common.Assoc
use tyche_engine.Common.Members.{contains}
use tyche_engine.Common.Words.{pos}
use tyche_engine.Types.{MessageType}
use tyche_engine.Message.{Message, Codec, no_message}
use tyche_engine.Intern
use tyche_engine.Intern.{empty_intern}
use tyche_engine.ShardedMap.{find}
use tyche_engine.ShardedMap.Homed
use tyche_engine.Heartbeat
use tyche_engine.Engine.{
  Engine, JobTrackingInfo, run_timeout, wait_timeout, names_at, is_handler_available,
  unregister_module,
}
use tyche_engine.Engine.Jobs.{available_for, filter_available, or_no_name}
use tyche_engine.Engine.Jobs.Dispatch.{Forwarded, handle_request-forwards}
use tyche_engine.Engine.Jobs.Reply.{handle_response-again}
use tyche_engine.Engine.Jobs.Pending.{Matched}
use tyche_engine.Engine.Jobs
use tyche_engine.Engine.Timeouts.{
  due_events, process_timeout, process_timeouts, router_round, scan_timeouts,
}
use tyche_engine.Engine.Timeouts.Due.{reason_for, WaitedTooLong, RanTooLong, due_events_lem}
use tyche_engine.Engine.Timeouts.GivenUp.{GivenUp, expired-GivenUp}
use tyche_engine.Engine.Timeouts.Rounds.{router_round-Matched}
use tyche_engine.Engine.Timeouts.Overrun.{process_timeout-overrun}
use tyche_engine.Engine.Registry.{unregister_module_lem}
use tyche_engine.Engine.Events.{collect}
use tyche_engine.Engine.Events.Usage.{InUse, Idle}
use tyche_engine.Engine.Events.Collection.{collect_lem}
use tyche_engine.Engine.Steps.{done, step_then, route, scan, unregister}
use tyche_engine.Engine.Steps.Reach.{reachable-Matched}
use tyche_engine.Tests.Maps.{one_topic, one_topic-IsValid}

-- The topic `price` has number 1, and the module `calc` handles it.
abbrev pub engine : Engine
engine = record {
  queue_capacity = 4;
  broadcast_ttl = 10;
  topic_queue_ttl = 20;
  event_count = 0;
  interned = record {
    string_to_id = (codes "price", 1) ∷ [];
    id_to_string = [] ∷ codes "price" ∷ [];
    next_id = 2;
  };
  modules = (codes "calc", record { module_id = codes "calc"; interfaces = [] }) ∷ [];
  topic_subscribers = [];
  topic_producers = [];
  job_handlers = (1, codes "calc" ∷ []) ∷ [];
  module_availability = [];
  unavailable_handlers = [];
  topic_queues = one_topic;
  heap = [];
  egress_wakeup = false;
  pending_jobs = [];
  job_tracking = [];
  job_round_robin = (1, 0) ∷ [];
  job_timeout_events = [];
  recovery_events = [];
  heartbeat_manager = Heartbeat.new 1 (pos 3);
  dead_letters = [];
  sent = [];
}

abbrev request_price : Message
request_price = record no_message {
  msg_type = MessageType.request;
  sender = codes "gui";
  event = codes "price";
  correlation_id = some (codes "job");
}

-- A codec that knows one message.
abbrev codec : Codec
codec = record { serialize = λ m. m.event; deserialize = λ bs. some request_price }

abbrev frames : List Bytes
frames = codes "gui" ∷ [] ∷ codes "price" ∷ codes "frame" ∷ []

router_round-Matched_example : Matched (router_round codec 1000 7 frames engine)
unfolding Assoc.lookup
router_round-Matched_example = router_round-Matched codec 1000 7 frames engine (λ c. refl)

reachable-Matched_example : Matched (
    unregister_module
      (codes "calc")
      (scan_timeouts 90000 (router_round codec 1000 7 frames engine)))
reachable-Matched_example =
    reachable-Matched codec 1000 engine
      (unregister_module (codes "calc")
        (scan_timeouts 90000 (router_round codec 1000 7 frames engine)))
      refl refl
      (step_then _ _ _ (route 7 frames engine) (
        step_then _ _ _ (scan 90000 (router_round codec 1000 7 frames engine)) (
          step_then _ _ _
            (unregister (codes "calc")
              (scan_timeouts 90000 (router_round codec 1000 7 frames engine)))
            (done _))))

handle_request-forwards_example :
    let e' =
      Jobs.handle_request codec 1000 7
        (codes "gui")
        (codes "price")
        (codes "frame")
        request_price
        engine in
    (hid : Bytes) × (contains hid
        (names_at (Intern.intern (codes "price") engine.interned).0 engine.job_handlers)
      ≡ true)
    × (is_handler_available hid (codes "price") engine ≡ true)
    × Forwarded 7 (codes "gui") (codes "price") (codes "frame") request_price hid engine e'
unfolding Intern.intern filter_available is_handler_available Assoc.lookup ℕ_discrete bytes_discrete
handle_request-forwards_example =
    handle_request-forwards codec 1000 7 (codes "gui") (codes "price") (codes "frame") request_price
      engine (codes "calc") [] refl

abbrev job : JobTrackingInfo
job = record {
  requester_id = codes "gui";
  handler_id = codes "calc";
  topic = codes "price";
  dispatch_time = 7;
  wait_start_time = 7;
  wait_timeout = 30000;
  run_timeout = 60000;
  topic_frame = codes "price";
  message_frame = codes "frame";
}

abbrev busy : Engine
busy = record engine {
  pending_jobs = (codes "job", codes "gui") ∷ [];
  job_tracking = (codes "job", job) ∷ [];
}

process_timeout-overrun_example :
    is_handler_available (codes "calc") (codes "price") (
      process_timeout codec 90000
        (record { correlation_id = codes "job"; reason = run_timeout })
        busy)
    ≡ false
unfolding Assoc.lookup bytes_discrete
process_timeout-overrun_example =
    process_timeout-overrun codec 90000 (codes "job") job busy refl refl

unregister_module_lem_example :
    let e' = unregister_module (codes "calc") busy in
    (Assoc.lookup bytes_discrete (codes "calc") e'.modules ≡ none)
    × ((id : ℕ)
        → (contains (codes "calc") (names_at id e'.topic_subscribers) ≡ false)
          × (contains (codes "calc") (names_at id e'.topic_producers) ≡ false)
          × (contains (codes "calc") (names_at id e'.job_handlers) ≡ false))
    × ((c : Bytes) (j : JobTrackingInfo)
        → Assoc.lookup bytes_discrete c e'.job_tracking ≡ some j
        → ¬ (j.handler_id ≡ codes "calc"))
unfolding Assoc.lookup bytes_discrete
unregister_module_lem_example =
    unregister_module_lem (codes "calc") (record { module_id = codes "calc"; interfaces = [] }) busy
      refl (λ p. ground arith)

handle_response-again_example :
    Jobs.handle_response
      (codes "price")
      (codes "late")
      request_price
      (Jobs.handle_response (codes "price") (codes "frame") request_price busy)
    ≡ Jobs.handle_response (codes "price") (codes "frame") request_price busy
handle_response-again_example =
    handle_response-again (codes "price") (codes "frame") (codes "price") (codes "late")
      request_price request_price busy refl

due_events_lem_example :
    ((reason_for (codes "job") (due_events 90000 busy.job_tracking) ≡ some wait_timeout)
      ↔ WaitedTooLong 90000 (Assoc.lookup bytes_discrete (codes "job") busy.job_tracking))
    × ((reason_for (codes "job") (due_events 90000 busy.job_tracking) ≡ some run_timeout)
        ↔ RanTooLong 90000 (Assoc.lookup bytes_discrete (codes "job") busy.job_tracking))
unfolding Assoc.lookup
due_events_lem_example = due_events_lem 90000 (codes "job") busy.job_tracking (refl, tt)

abbrev waiting_job : JobTrackingInfo
waiting_job = record job { handler_id = []; dispatch_time = 0 }

-- Another job runs too long at the same time.
abbrev waiting : Engine
waiting = record engine {
  pending_jobs = (codes "other", codes "gui") ∷ (codes "job", codes "gui") ∷ [];
  job_tracking = (codes "other", job) ∷ (codes "job", waiting_job) ∷ [];
}

expired-GivenUp_example :
    GivenUp codec
      (codes "job")
      waiting_job
      (process_timeouts codec 1000 90001 (due_events 90000 waiting.job_tracking) waiting)
unfolding Assoc.lookup bytes_discrete
expired-GivenUp_example =
    expired-GivenUp codec 1000 90000 90001 (codes "job") waiting_job waiting refl refl (omega arith)

abbrev queues : List (Bytes × ℕ)
queues = (codes "ticks", 40) ∷ []

collect_lem_example :
    let e' = collect 50 queues engine in
    Homed.IsValid 1 e'.topic_queues
    × ((j : Bytes) → InUse 50 j engine → find j e'.topic_queues ≡ find j engine.topic_queues)
    × ((j : Bytes)
        → Idle 50 j engine
        → contains j (map (λ q. q.0) queues) ≡ true
        → find j e'.topic_queues ≡ none)
collect_lem_example = collect_lem 1 50 queues engine one_topic-IsValid
