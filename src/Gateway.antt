-- ===== src/Gateway.antt =====
-- src/modules/ctp_gateway_cpp/src/ctp_gateway.h and ctp_gateway.cpp: the gateway that turns the market
-- data of an exchange into events. Quotes of futures are published at once, those of options go
-- through a ring buffer to a thread that publishes them. A call that may throw has a `Bool` that says
-- that it does not; the clock is an argument, in nanoseconds.
pub mod Buffer
pub mod Stream
pub mod Drained
pub mod Rounds
pub mod Mixed
pub mod Delivered
pub mod Instruments
pub mod Config
pub mod Loader
pub mod Lifecycle
pub mod Stopped
use tyche_engine.Common.{
  ℕ, zero, suc, ◌+◌, ◌-◌, ◌/◌, ◌%◌, ◌^◌, Bool, true, false, ◌&&◌, not, Option, none, some, List, [],
  ◌∷◌, ◌++◌, length, ltb, leb, if◌then◌else◌, ◌==◌, Bytes, codes,
}
use tyche_engine.Common.Members.{contains}
use tyche_engine.Common.Words.{ℤ, pos, to_int32}
use tyche_engine.Types.{InterfacePattern, DurabilityLevel}
use tyche_engine.Wire.{Any, Fields, end, field, text, int, int64, uint64, bool, Msgpack}
use tyche_engine.TycheModule
use tyche_engine.TycheModule.{
  TycheModule, Outcome, id_or_family, register_producer, register_job_handler, send_event,
}
use tyche_engine.Ring
use tyche_engine.Ring.{RingBuffer, CasWeak, try_push, push_overwrite, pop, empty, size, capacity}
use tyche_engine.Quote.{QuoteTick, blank_tick, find, tick_of, tick_to_payload}

-- `md_api` stands for the objects of the market data interface, `td_api` for those of the trading
-- interface; `dispatching`: the thread for the options has been started and not joined. The two
-- counters of errors are `int`s, kept modulo 2^32.
pub record CtpGateway (D F H : Type 0) : Type 0 where
  pub client : TycheModule D F H
  pub instruments : List Bytes
  pub option_instrument_set : List Bytes
  pub option_ring_buffer : RingBuffer (QuoteTick D)
  pub md_api : Bool
  pub td_api : Bool
  pub ctp_running : Bool
  pub cleanup_done : Bool
  pub started : Bool
  pub stopping : Bool
  pub ticks_received : ℕ
  pub ticks_sent : ℕ
  pub option_err_count : ℕ
  pub option_dropped_count : ℕ
  pub dispatching : Bool
  pub tick_stale : Bool
  pub last_tick_ns : ℕ
  pub reconnect_count : ℤ
  pub start_time : ℕ

abbrev count32 : ℕ → ℕ
count32 n = (n + 1) % 2 ^ 32

abbrev count64 : ℕ → ℕ
count64 n = (n + 1) % 2 ^ 64

-- The id of the payload, empty if there is none or if it is no string.
abbrev pub instrument_of : {D F : Type 0} → Option (Any D F) → Bytes
instrument_of (some (text s)) = s
instrument_of other = []

-- `set` is `option_instrument_set_`.
unfoldable pub is_option : {D F : Type 0} → Fields D F → List Bytes → Bool
is_option payload set =
    let id = instrument_of (find (codes "instrument_id") payload) in
    not (length id == 0) && contains id set

-- At most `n` items; the buffer is `QuoteTick batch[BATCH_SIZE]`.
unfoldable pub pop_batch :
    {D : Type 0} → D → ℕ → RingBuffer (QuoteTick D) → List (QuoteTick D) × RingBuffer (QuoteTick D)
pop_batch z zero r = ([], r)
pop_batch z (suc n) r =
    let (item, r') = pop (blank_tick z) r in
    elim item [ none ↦ ([], r') | some t ↦ let (ts, r'') = pop_batch z n r' in (t ∷ ts, r'') ]

module _ {D F H : Type 0} where
  -- `gateway_status` is the handler of the job with this name.
  unfoldable pub new : D → (Fields D F → Outcome D F) → Bytes → CtpGateway D F H
  new z gateway_status family_name = record {
    client =
        register_job_handler (codes "gateway_status") gateway_status DurabilityLevel.async_flush (
          register_producer (codes "send_compute_greeks") InterfacePattern.send
            DurabilityLevel.async_flush
            (register_producer (codes "send_quote") InterfacePattern.send
              DurabilityLevel.async_flush (TycheModule.new family_name true)));
    instruments = [];
    option_instrument_set = [];
    option_ring_buffer = Ring.new (blank_tick z) 65536;
    md_api = false;
    td_api = false;
    ctp_running = false;
    cleanup_done = false;
    started = false;
    stopping = false;
    ticks_received = 0;
    ticks_sent = 0;
    option_err_count = 0;
    option_dropped_count = 0;
    dispatching = false;
    tick_stale = false;
    last_tick_ns = 0;
    reconnect_count = pos 0;
    start_time = 0;
  }

  -- The difference is unsigned: it wraps when the last tick is later than the clock.
  unfoldable pub last_tick_age_ms : ℕ → CtpGateway D F H → ℕ
  last_tick_age_ms now g = (now + 2 ^ 64 - g.last_tick_ns) % 2 ^ 64 / 1000000

  unfoldable pub is_tick_stale : ℕ → CtpGateway D F H → Bool
  is_tick_stale now g = ltb 5000 (last_tick_age_ms now g)

  unfoldable pub get_status_payload : ℕ → CtpGateway D F H → Fields D F
  get_status_payload now g = field (codes "module_id") (text (id_or_family g.client)) (
      field (codes "ticks_received") (int64 (pos g.ticks_received)) (
        field (codes "ticks_sent") (int64 (pos g.ticks_sent)) (
          field (codes "option_dropped") (int (to_int32 g.option_dropped_count)) (
            field (codes "option_errors") (int (to_int32 g.option_err_count)) (
              field (codes "tick_stale") (bool (is_tick_stale now g)) (
                field (codes "last_tick_age_ms") (int64 (pos (last_tick_age_ms now g))) (
                  field (codes "reconnect_count") (int g.reconnect_count) (
                    field (codes "ctp_running") (bool g.ctp_running) (
                      field (codes "ring_buffer_size") (uint64 (size g.option_ring_buffer)) (
                        field (codes "ring_buffer_cap") (uint64 (capacity g.option_ring_buffer))
                          end))))))))))

  -- What the handler of the job `gateway_status` returns.
  unfoldable pub status_answer : ℕ → CtpGateway D F H → Fields D F
  status_answer now g =
      field (codes "status") (text (if g.ctp_running then codes "running" else codes "stopped")) (
        field (codes "instruments_count") (int (to_int32 (length g.instruments % 2 ^ 32))) (
          field (codes "option_ring_buffer_depth")
            (int (to_int32 (size g.option_ring_buffer % 2 ^ 32)))
            (field (codes "reconnect_count") (int g.reconnect_count) (
              field (codes "ticks_received") (uint64 g.ticks_received) (
                field (codes "ticks_sent") (uint64 g.ticks_sent) (
                  field (codes "option_dropped_count") (int (to_int32 g.option_dropped_count)) (
                    field (codes "option_err_count") (int (to_int32 g.option_err_count)) (
                      field (codes "tick_stale") (bool g.tick_stale) (
                        field (codes "uptime_secs")
                          (int64 (pos ((now - g.start_time) / 1000000000)))
                          (field (codes "last_tick_age_ms") (int64 (pos (last_tick_age_ms now g)))
                            end))))))))))

  abbrev overwritten :
      CtpGateway D F H → Option (RingBuffer (QuoteTick D)) → Option (CtpGateway D F H)
  overwritten g none = none
  overwritten g (some r) =
      some
        (record g { option_ring_buffer = r; option_dropped_count = count32 g.option_dropped_count })

  -- The lists say which compare-exchanges fail. `none`: a loop of the ring buffer did not end.
  unfoldable pub store_tick :
      D
      → List CasWeak
      → List (List CasWeak)
      → QuoteTick D
      → CtpGateway D F H
      → Option (CtpGateway D F H)
  store_tick z cs css tick g = elim (try_push (blank_tick z) cs tick g.option_ring_buffer) [
    | none ↦ none
    | some (true, r) ↦ some (record g { option_ring_buffer = r })
    | some (false, r) ↦ overwritten g (push_overwrite (blank_tick z) css tick r)
  ]

  abbrev received : Option (CtpGateway D F H) → Option (CtpGateway D F H)
  received none = none
  received (some g) = some (record g { ticks_received = count64 g.ticks_received })

  -- The check of `option_dispatch_loop` every 30 seconds: the time of the last check comes back. The
  -- clock is read once for the loop, `now`, and once for the age, `age_now`.
  unfoldable pub check_stale : ℕ → ℕ → ℕ → CtpGateway D F H → ℕ × CtpGateway D F H
  unfolding last_tick_age_ms
  check_stale now age_now last_check g =
      if leb (last_check + 30000000000) now
      then (
        now,
        (if ltb 30000 (last_tick_age_ms age_now g) then record g { tick_stale = true } else g),
      )
      else (last_check, g)

module _ {D F H : Type 0} (mp : Msgpack D F) where
  abbrev pub publish : Bytes → Fields D F → CtpGateway D F H → CtpGateway D F H
  publish event payload g = record g {
    client = send_event mp event payload none g.client;
    ticks_sent = count64 g.ticks_sent;
  }

  -- A call of `MdSpiImpl`. With `sent = false` the publishing throws, out of the call.
  unfoldable pub on_quote_received :
      D
      → ℕ
      → Bool
      → List CasWeak
      → List (List CasWeak)
      → Fields D F
      → CtpGateway D F H
      → Option (CtpGateway D F H)
  unfolding is_option store_tick
  on_quote_received z now sent cs css payload g =
      let g' = record g { last_tick_ns = now } in
      if is_option payload g.option_instrument_set
      then received (store_tick z cs css (tick_of payload z now) g')
      else (if sent then received (some (publish (codes "quote") payload g')) else some g')

  -- One item of a batch, in its `try` block.
  unfoldable pub send_tick : Bool → QuoteTick D → CtpGateway D F H → CtpGateway D F H
  send_tick true t g = publish (codes "send_compute_greeks") (tick_to_payload t) g
  send_tick false t g = record g { option_err_count = count32 g.option_err_count }

  -- `sents` says for each item whether it is published; those beyond it are.
  unfoldable pub send_ticks : List (QuoteTick D) → List Bool → CtpGateway D F H → CtpGateway D F H
  send_ticks [] sents g = g
  send_ticks (t ∷ ts) [] g = send_ticks ts [] (send_tick true t g)
  send_ticks (t ∷ ts) (sent ∷ sents) g = send_ticks ts sents (send_tick sent t g)

  -- The batch of a round.
  unfoldable pub dispatch_batch : D → List Bool → CtpGateway D F H → CtpGateway D F H
  dispatch_batch z sents g =
      let (ts, r) = pop_batch z 64 g.option_ring_buffer in
      send_ticks ts sents (record g { option_ring_buffer = r })

  -- A round of `option_dispatch_loop`, with the time of the last check.
  unfoldable pub dispatch_round :
      D → ℕ → ℕ → List Bool → ℕ × CtpGateway D F H → ℕ × CtpGateway D F H
  dispatch_round z now age_now sents (last_check, g) =
      let (last_check', g') = check_stale now age_now last_check g in
      (last_check', dispatch_batch z sents g')

  -- An item when CTP has stopped; errors are ignored.
  abbrev pub drain_tick : Bool → QuoteTick D → CtpGateway D F H → CtpGateway D F H
  drain_tick true t g = send_tick true t g
  drain_tick false t g = g

  -- The last loop of `option_dispatch_loop`, with a list as long as its rounds may be: whether the
  -- item of the round is published. `none`: it is still running when the list ends.
  unfoldable pub drain : D → List Bool → CtpGateway D F H → Option (CtpGateway D F H)
  unfolding send_tick
  drain z [] g = none
  drain z (sent ∷ sents) g =
      let r = pop (blank_tick z) g.option_ring_buffer in
      let g' = record g { option_ring_buffer = r.1 } in
      let rest : Option (CtpGateway D F H) = elim r.0 [
        | none ↦ some g'
        | some t ↦ drain z sents (drain_tick sent t g')
      ] in
      if empty g.option_ring_buffer then some g else rest
