-- ===== src/Tests/Gateways.antt =====
-- The gateway with a buffer of two ticks, and the parts of it that are used once.
use tyche_engine.Common.{
  ℕ, ◌^◌, ◌≡◌, refl, arith, Bool, true, false, not, ◌&&◌, Option, some, List, [], ◌∷◌, ◌++◌, length,
  if◌then◌else◌, ◌==◌, Bytes, bytes_discrete, codes,
}
use tyche_engine.Common.Words.{pos}
use tyche_engine.Wire.{Any, Fields, end, field, text, double, table, items, next, no_more}
use tyche_engine.TycheModule.{after_prefix}
use tyche_engine.TycheModule.Requests
use tyche_engine.Ring
use tyche_engine.Ring.{next_power_of_2}
use tyche_engine.Ring.Contents.{contents}
use tyche_engine.Ring.Start.{new-IsValid}
use tyche_engine.Quote.{QuoteTick, blank_tick, find}
use tyche_engine.Queue.Newest.{newest}
use tyche_engine.Gateway.{CtpGateway, drain}
use tyche_engine.Gateway.Buffer.{Exchanges, HasRoom, held}
use tyche_engine.Gateway.Stream.{
  Arrival, option_ticks, futures, messages, tick_messages, published_also, receive_all,
}
use tyche_engine.Gateway.Drained.{sent_of, greeks}
use tyche_engine.Gateway.Mixed.{Event, quoted, rounded, run, book_all, run_lem}
use tyche_engine.Gateway.Delivered.{stream_lem}
use tyche_engine.Gateway.Config.{GatewayConfig}
use tyche_engine.Gateway.Lifecycle.{Surroundings, start, stop}
use tyche_engine.Gateway.Stopped.{Released, Running, start_lem, stop_lem}
use tyche_engine.Gateway.Instruments.{
  Reply, replied, thrown, has_text, resolve_instruments, verdict, not_ready,
}
use tyche_engine.Gateway.Instruments.Catalogue.{Answer, lists, as_reply}
use tyche_engine.Gateway.Instruments.Unavailable.{resolve-unavailable}
use tyche_engine.Tests.Codec.{stack_code}
use tyche_engine.Tests.Clients.{trader}
use tyche_engine.Tests.Buffers.{two_items, two_items-IsValid}

abbrev tick_named : Bytes → QuoteTick ℕ
tick_named id = record (blank_tick 0) { instrument_id = id }

-- Options are those with the id "cu_o"; the buffer is full.
abbrev gateway : CtpGateway ℕ ℕ ℕ
gateway = record {
  client = record trader { registered = true };
  instruments = codes "cu" ∷ codes "cu_o" ∷ [];
  option_instrument_set = codes "cu_o" ∷ [];
  option_ring_buffer = two_items (tick_named (codes "a")) (tick_named (codes "b"));
  md_api = true;
  td_api = true;
  ctp_running = true;
  cleanup_done = false;
  started = true;
  stopping = false;
  ticks_received = 4;
  ticks_sent = 2;
  option_err_count = 0;
  option_dropped_count = 0;
  dispatching = true;
  tick_stale = false;
  last_tick_ns = 7;
  reconnect_count = pos 0;
  start_time = 0;
}

gateway-Running : Running stack_code 0 1 gateway
gateway-Running = record {
  thread = refl;
  unstopped = refl;
  unclean = refl;
  online = record { socket = refl; runs = refl };
  valid = two_items-IsValid (blank_tick 0) (tick_named (codes "a")) (tick_named (codes "b"));
}

-- The first of the two ticks cannot be published.
abbrev sents : List Bool
sents = false ∷ true ∷ true ∷ []

stop_lem_example :
    (g' : CtpGateway ℕ ℕ ℕ) × (stop stack_code 0 sents gateway ≡ some g')
    × Released g'
    × (held 0 1 g' ≡ [])
    × (g'.client
        ≡ Requests.stop (greeks stack_code (sent_of (held 0 1 gateway) sents) gateway.client))
    × (stop stack_code 0 sents g' ≡ some g')
unfolding contents
stop_lem_example = stop_lem stack_code 0 1 sents gateway gateway-Running (omega arith)

abbrev resting : CtpGateway ℕ ℕ ℕ
resting = record gateway { option_ring_buffer = Ring.new (blank_tick 0) 2 }

abbrev always : Exchanges
always = record {
  first = true ∷ [];
  second = true ∷ [];
  third = true ∷ [];
  more = [];
  settles = tt;
  settles₂ = tt;
  settles₃ = tt;
}

abbrev quote : Bytes → ℕ → Fields ℕ ℕ
quote id price =
    field (codes "instrument_id") (text id) (field (codes "last_price") (double price) end)

-- Three options and a future.
abbrev arrivals : List (Arrival ℕ ℕ)
arrivals =
    record { payload = quote (codes "cu_o") 5; now = 10; exchanges = always }
    ∷ record { payload = quote (codes "cu") 6; now = 11; exchanges = always }
    ∷ record { payload = quote (codes "cu_o") 7; now = 12; exchanges = always }
    ∷ record { payload = quote (codes "cu_o") 8; now = 13; exchanges = always }
    ∷ []

resting-HasRoom : HasRoom 0 1 (length arrivals) resting.option_ring_buffer
unfolding next_power_of_2 Ring.new
resting-HasRoom = record {
  valid = (new-IsValid (blank_tick 0) 1 2 refl (omega arith) (omega arith)).0;
  room = omega arith;
}

nothing_held : held 0 1 resting ≡ []
unfolding next_power_of_2
nothing_held = (new-IsValid (blank_tick 0) 1 2 refl (omega arith) (omega arith)).1

stream_lem_example :
    (g₁ g₂ : CtpGateway ℕ ℕ ℕ) × (receive_all stack_code 0 arrivals resting ≡ some g₁)
    × (drain stack_code 0 sents g₁ ≡ some g₂)
    × (held 0 1 g₂ ≡ [])
    × (g₂.client
        ≡ published_also stack_code
            (messages stack_code
                (codes "quote")
                (futures resting.option_instrument_set arrivals)
                resting.client
              ++ tick_messages stack_code
                  (sent_of
                    (newest (2 ^ 1) (option_ticks 0 resting.option_instrument_set arrivals))
                    sents)
                  resting.client)
            resting.client)
stream_lem_example =
    stream_lem stack_code 0 1 arrivals sents resting (record { socket = refl; runs = refl })
      resting-HasRoom nothing_held (omega arith)

abbrev idle : CtpGateway ℕ ℕ ℕ
idle = record gateway {
  md_api = false;
  td_api = false;
  ctp_running = false;
  started = false;
  dispatching = false;
}

abbrev config : GatewayConfig
config = record {
  engine_host = codes "127.0.0.1";
  engine_port = pos 5555;
  family_name = codes "ctp_gateway";
  md_front = codes "tcp://md";
  td_front = [];
  broker_id = codes "9999";
  user_id = codes "user";
  password = codes "secret";
  appid = [];
  authcode = [];
  dll_dir = codes "/opt/ctp";
  md_dll = [];
  td_dll = [];
  underlyings = (codes "SHFE", codes "cu" ∷ []) ∷ [];
  reconnect_interval_secs = pos 5;
  static_data_timeout_secs = pos 15;
}

-- One future, and no options.
abbrev listing : Fields ℕ ℕ → Reply ℕ ℕ
listing q = replied (
    field (codes "result")
      (table (
        field (codes "instruments")
          (items (next (table (field (codes "InstrumentID") (text (codes "cu2601")) end)) no_more))
          end))
      end)

abbrev surroundings : Surroundings ℕ ℕ ℕ
surroundings = record {
  module_started = λ m. m;
  answer = λ n q. listing q;
  td_loads = true;
  md_loads = true;
}

start_lem_example :
    let (failed, g') = start config surroundings idle in
    let up = (surroundings.module_started idle.client).registered in
    (failed ≡ (if up then not surroundings.md_loads else false))
    × (g'.md_api ≡ (if up then surroundings.md_loads else false))
    × (g'.td_api ≡ (
        if up
        then (if surroundings.md_loads
            then not (length config.td_front == 0) && surroundings.td_loads
            else false)
        else false))
    × (g'.ctp_running ≡ (if up then surroundings.md_loads else false))
    × (g'.dispatching ≡ (if up then surroundings.md_loads else false))
    × (start config surroundings g' ≡ (false, g'))
start_lem_example = start_lem config surroundings idle (record {
  unstarted = refl;
  uncleaned = refl;
  released = record { not_running = refl; no_md = refl; no_td = refl; no_thread = refl };
})

-- One instrument for each product that is asked for.
abbrev catalogue : Bytes → Bytes → Bytes → Answer
catalogue exchange product class = lists ((product ++ codes "2601") ∷ [])

abbrev looked_up : Option (Any ℕ ℕ) → Option (Any ℕ ℕ) → Option (Any ℕ ℕ) → Reply ℕ ℕ
looked_up (some (text e)) (some (text p)) (some (text c)) = as_reply (catalogue e p c)
looked_up e p c = thrown (codes "bad query")

abbrev static_data : Fields ℕ ℕ → Reply ℕ ℕ
static_data q =
    looked_up (find (codes "exchange_id") q) (find (codes "product_id") q)
      (find (codes "product_class") q)

-- Calls and puts of the second product are products of their own.
abbrev two_products : List (Bytes × List Bytes)
two_products =
    (codes "SHFE", codes "cu" ∷ []) ∷ (codes "GFEX", []) ∷ (codes "CZCE", codes "SR" ∷ []) ∷ []

-- Nobody handles the queries.
abbrev nobody : ℕ → Fields ℕ ℕ → Reply ℕ ℕ
nobody n q = replied (field (codes "error") (text (codes "No handler")) end)

nobody-silent : (n : ℕ) (q : Fields ℕ ℕ) → verdict (nobody n q) ≡ not_ready
unfolding verdict find bytes_discrete has_text after_prefix
nobody-silent n q = refl

resolve-unavailable_example :
    resolve_instruments nobody two_products
    ≡ record { instruments = []; option_instrument_set = []; asked = 13; sleeps = 12 }
resolve-unavailable_example = resolve-unavailable nobody nobody-silent two_products tt

-- A round between the quotes, in which one of the two ticks cannot be published.
abbrev events : List (Event ℕ ℕ)
events =
    quoted (record { payload = quote (codes "cu_o") 5; now = 10; exchanges = always })
    ∷ quoted (record { payload = quote (codes "cu_o") 6; now = 11; exchanges = always })
    ∷ rounded 12 13 (false ∷ [])
    ∷ quoted (record { payload = quote (codes "cu") 7; now = 14; exchanges = always })
    ∷ []

run_lem_example :
    let b =
      book_all stack_code 0 1 resting.option_instrument_set resting.client events
        (held 0 1 resting, []) in
    (s : ℕ × CtpGateway ℕ ℕ ℕ) × (run stack_code 0 events (9, resting) ≡ some s)
    × (held 0 1 s.1 ≡ b.0)
    × (s.1.client ≡ published_also stack_code b.1 resting.client)
run_lem_example =
    run_lem stack_code 0 1 events 9 resting (record { socket = refl; runs = refl }) resting-HasRoom
