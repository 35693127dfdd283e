-- ===== src/Tests/Clients.antt =====
-- Modules that register, publish, and ask one another for jobs.
use tyche_engine.Common.{
  ℕ, ◌≡◌, refl, sym, subst, arith, true, none, some, List, [], ◌∷◌, ◌++◌, Bytes, bytes_discrete,
  codes,
}
use tyche_engine.Common.Assoc
use tyche_engine.Common.Words.{pos}
use tyche_engine.Types.{InterfacePattern, DurabilityLevel}
use tyche_engine.Intern
use tyche_engine.Intern.{intern}
use tyche_engine.Intern.Stable.{IsValid}
use tyche_engine.Wire.{Fields, end, field, int}
use tyche_engine.Wire.Plain.{PlainFields}
use tyche_engine.TycheModule.{
  TycheModule, Outcome, result, new, after_prefix, register_handler, register_job_handler, dispatch,
  send_event, receive_event,
}
use tyche_engine.TycheModule.Requests.{
  returned, job_answer, start_request, finish_request, receive_job,
}
use tyche_engine.TycheModule.Handlers.{register_job_handler_lem}
use tyche_engine.TycheModule.Replies.{Tabled, response, stopping, after_signals, finish_request_lem}
use tyche_engine.TycheModule.Delivery.{receive_event_lem, request_event_lem}
use tyche_engine.Registration.{Ports}
use tyche_engine.Tests.Codec.{stack_code, decode-encode}

abbrev pub trader : TycheModule ℕ ℕ ℕ
trader = record (new (codes "trader") true) {
  module_id = codes "trader_1";
  running = true;
  pub_socket = true;
  job_socket = true;
}

abbrev echo : Fields ℕ ℕ → Outcome ℕ ℕ
echo payload = result payload

abbrev risk : TycheModule ℕ ℕ ℕ
risk =
    register_job_handler (codes "handle_check") echo DurabilityLevel.sync_flush
      (record trader { module_id = codes "risk_1" })

abbrev order : Fields ℕ ℕ
order = field (codes "volume") (int (pos 5)) end

trader-IsValid : IsValid trader.names
unfolding Assoc.lookup
trader-IsValid = record {
  started = omega arith;
  short = omega arith;
  named = λ s id e. ground arith;
}

trader-Tabled : Tabled trader
trader-Tabled = record { nodup = tt; below = tt }

finish_request_lem_example :
    (m : TycheModule ℕ ℕ ℕ) × (start_request stack_code (codes "check") order (codes "id") trader
      ≡ some (0, m))
    × ((finish_request 0 (codes "id") (
          after_signals
            (response end (some (codes "other"))
              ∷ response order (some (codes "id"))
              ∷ stopping
              ∷ [])
            m)).0
        ≡ returned order)
    × (Assoc.lookup bytes_discrete
          (codes "id")
          (finish_request 0 (codes "id") (
            after_signals
              (response end (some (codes "other"))
                ∷ response order (some (codes "id"))
                ∷ stopping
                ∷ [])
              m)).1.pending_requests
        ≡ none)
unfolding bytes_discrete
finish_request_lem_example =
    finish_request_lem stack_code trader trader-Tabled (codes "check") order (codes "id")
      (response end (some (codes "other")) ∷ response order (some (codes "id")) ∷ stopping ∷ [])
      refl refl

-- Another module, which has a handler for ticks.
abbrev watcher : TycheModule ℕ ℕ ℕ
watcher =
    register_handler (codes "on_tick") (some 7) InterfacePattern.on DurabilityLevel.async_flush
      (record trader { module_id = codes "watcher_1" })

receive_event_lem_example :
    (bs : Bytes) × ((send_event stack_code (codes "tick") order none trader).published
      ≡ (codes "tick" ∷ bs ∷ []) ∷ [])
    × (receive_event stack_code (codes "tick" ∷ bs ∷ []) watcher ≡ some (7, order))
unfolding bytes_discrete PlainFields dispatch register_handler Intern.lookup intern Assoc.lookup
    Assoc.assign after_prefix
receive_event_lem_example =
    receive_event_lem stack_code decode-encode trader watcher (codes "tick") order
      (omega arith, tt, tt) none refl refl

risk_answer-PlainFields : PlainFields stack_code (job_answer (codes "check") order risk)
unfolding after_prefix bytes_discrete PlainFields
risk_answer-PlainFields =
    subst (PlainFields stack_code)
      (sym (
        (register_job_handler_lem (codes "handle_check")
            (record trader { module_id = codes "risk_1" }) trader-IsValid (omega arith) echo
            DurabilityLevel.sync_flush).1
          (codes "check") order))
      ((omega arith, tt, tt), tt, tt)

request_event_lem_example :
    (m : TycheModule ℕ ℕ ℕ) × (request answer : List Bytes) × (start_request stack_code
        (codes "check")
        order
        (codes "id")
        trader
      ≡ some (0, m))
    × (m.jobs_sent ≡ request ∷ [])
    × ((receive_job stack_code request risk).jobs_sent ≡ risk.jobs_sent ++ (answer ∷ []))
    × ((finish_request 0 (codes "id") (receive_job stack_code answer m)).0
        ≡ returned (job_answer (codes "check") order risk))
unfolding PlainFields
request_event_lem_example =
    request_event_lem stack_code decode-encode trader risk (codes "check") order (codes "id")
      trader-Tabled (omega arith, tt, tt) risk_answer-PlainFields refl refl

abbrev ports : Ports
ports = record { event = pos 5555; event_sub = pos 5556; job = pos 5557; heartbeat_recv = pos 5558 }

abbrev numbered : Bytes → Bytes
numbered family = family ++ codes "_00002a"
