-- ===== src/Tests/Quotes.antt =====
-- Quotes, the configuration, the libraries and the connections of the gateway, and the answers of the
-- admin worker.
use tyche_engine.Common.{
  ℕ, ◌+◌, ◌≡◌, ◌≢◌, refl, arith, true, false, not, none, some, List, [], ◌∷◌, ◌++◌, length, ltb,
  leb, ◌==◌, bytes_discrete, codes,
}
use tyche_engine.Common.Assoc
use tyche_engine.Common.Words.{ℤ, pos}
use tyche_engine.Quote.{QuoteTick, Depth, blank_tick, depth_to_tick, depth_to_payload, tick_of}
use tyche_engine.Quote.Limits.{tick_of-depth}
use tyche_engine.Quote.Validator.{
  Numbers, validate, strncmp_same, int_lt, other_day, is_price_within_limits,
  is_timestamp_regression, day_ms,
}
use tyche_engine.Quote.Accepted.{OfDay, Chain, InOrder, validate-InOrder}
use tyche_engine.TycheModule.{after_prefix}
use tyche_engine.Session
use tyche_engine.Session.{
  Account, MdSpi, TdSpi, MdCallback, TdCallback, set_ids, rsp_authenticate, new_md, new_td,
}
use tyche_engine.Session.Subscribed
use tyche_engine.Session.Subscribed.{last_subscription, buffers, on_all-subscribed}
use tyche_engine.Session.Authenticated
use tyche_engine.Session.Authenticated.{logins, login_causes, on_all-logins}
use tyche_engine.Gateway.Instruments.{has_text}
use tyche_engine.Gateway.Loader.{
  name_or, back, md_path, resolve_md_dll, validate_dll_path, join_path,
}
use tyche_engine.Gateway.Loader.Named.{IsFileIn, md_path-IsFileIn}
use tyche_engine.ShardedMap
use tyche_engine.Engine.{Engine}
use tyche_engine.Tests.Buffers.{full_queue}
use tyche_engine.Tests.Jobs.{engine}
use tyche_engine.Engine.Admin.{Readings, answer}
use tyche_engine.Engine.Admin.Complete.{skip, Short, answer_whole}

abbrev depth : Depth ℕ
depth = record {
  trading_day = codes "20240102";
  exchange_id = codes "SHFE";
  last_price = 70;
  pre_settlement_price = 69;
  open_price = 68;
  highest_price = 72;
  lowest_price = 67;
  volume = pos 5;
  turnover = 350;
  open_interest = 12;
  upper_limit_price = 77;
  lower_limit_price = 63;
  update_time = codes "09:30:00";
  update_millisec = pos 500;
  bid_price1 = 69;
  bid_volume1 = pos 2;
  ask_price1 = 71;
  ask_volume1 = pos 3;
  instrument_id = codes "cu2403C70000";
}

tick_of-depth_example :
    tick_of {F = ℕ} (depth_to_payload depth) 0 9
    ≡ depth_to_tick 0 9
        (record depth { upper_limit_price = 0; lower_limit_price = 0; pre_settlement_price = 0 })
tick_of-depth_example = tick_of-depth ℕ 0 9 depth

-- Prices are numbers; a time is read from its first three bytes.
abbrev numbers : Numbers ℕ
numbers = record {
  zero_price = 0;
  jump = 1;
  eq = λ a b. a == b;
  lt = ltb;
  le = leb;
  sub = λ a b. 0;
  neg = λ a. a;
  div = λ a b. 0;
  scan = λ s. some (pos 9, pos 30, pos (length s));
}

abbrev traded : ℤ → QuoteTick ℕ
traded volume = record (blank_tick 0) {
  trading_day = codes "20240102";
  last_price = 70;
  volume = volume;
}

of_day : (volume : ℤ) → OfDay numbers (codes "20240102") (traded volume)
of_day volume = record { time = (pos 9, pos 30, pos 9); dated = refl; priced = refl; timed = refl }

accepted : Chain numbers (codes "20240102") (traded (pos 5)) (traded (pos 5) ∷ traded (pos 8) ∷ [])
unfolding validate other_day strncmp_same is_price_within_limits is_timestamp_regression int_lt
    day_ms
accepted = (refl, of_day (pos 5), (refl, of_day (pos 8), tt))

validate-InOrder_example :
    InOrder numbers (codes "20240102") (traded (pos 5)) (traded (pos 5) ∷ traded (pos 8) ∷ [])
validate-InOrder_example =
    validate-InOrder numbers (codes "20240102") (traded (pos 5))
      (traded (pos 5) ∷ traded (pos 8) ∷ []) (of_day (pos 5)) accepted

abbrev account : Account
account = record {
  broker_id = codes "9999";
  user_id = codes "user";
  password = codes "secret";
  appid = codes "app";
  authcode = codes "code";
}

abbrev fresh_md : MdSpi
fresh_md = record { account = account; instruments = []; logged_in = false; req_id = 0; calls = [] }

abbrev md_events : List MdCallback
md_events =
    MdCallback.front_connected
    ∷ set_ids (codes "cu" ∷ [])
    ∷ MdCallback.rsp_user_login none
    ∷ MdCallback.front_disconnected
    ∷ MdCallback.rsp_user_login (some (pos 0))
    ∷ []

on_all-subscribed_example :
    (made : List Session.ApiCall) × ((Subscribed.on_all md_events fresh_md).calls ≡ [] ++ made)
    × ((Subscribed.on_all md_events fresh_md).logged_in ≡ true
        → (Subscribed.on_all md_events fresh_md).instruments ≢ []
        → last_subscription none made
          ≡ some (buffers (Subscribed.on_all md_events fresh_md).instruments))
on_all-subscribed_example = on_all-subscribed md_events fresh_md refl

abbrev fresh_td : TdSpi
fresh_td = record { account = account; logged_in = false; req_id = 0; calls = [] }

abbrev td_events : List TdCallback
td_events =
    TdCallback.front_connected
    ∷ rsp_authenticate (some (pos 63))
    ∷ TdCallback.front_disconnected
    ∷ TdCallback.front_connected
    ∷ rsp_authenticate none
    ∷ []

on_all-logins_example :
    logins (Authenticated.on_all td_events fresh_td).calls
    ≡ logins [] + login_causes (not (length (codes "app") == 0)) td_events
on_all-logins_example = on_all-logins td_events fresh_td

no_backslash : back (codes "/opt/ctp/") ≢ b'\\'
no_backslash e = cc e

md_found : md_path (codes "/opt/ctp/") (codes "md.so") ≡ some (codes "/opt/ctp/md.so")
unfolding md_path resolve_md_dll validate_dll_path join_path has_text after_prefix
md_found = refl

md_path-IsFileIn_example :
    IsFileIn (codes "/opt/ctp/md.so") (name_or (codes "libthostmduserapi_se.so") (codes "md.so"))
md_path-IsFileIn_example =
    md_path-IsFileIn (codes "/opt/ctp/") (codes "md.so") (codes "/opt/ctp/md.so") no_backslash
      md_found

abbrev readings : Readings ℕ
readings = record {
  uptime = 5;
  register_count = 1;
  dead_letters = codes "{}" ∷ [];
  seconds = λ n. n;
}

-- An engine with one module and one queue.
abbrev one_queue : Engine
one_queue = record engine {
  topic_queues = record {
    bucket_count = 1;
    bucket_mask = 0;
    buckets = record { entries = (codes "ticks", 0) ∷ []; last_access_times = [] } ∷ [];
  };
  heap = full_queue ∷ [];
}

engine-Short : Short readings one_queue
unfolding Assoc.lookup bytes_discrete ShardedMap.snapshot
engine-Short = record {
  modules = omega arith;
  each_module = (omega arith, tt, tt);
  queues = omega arith;
  jobs = omega arith;
  letters = omega arith;
}

answer_whole_example : skip 1 (answer (codes "QUEUES") readings one_queue) ≡ some []
answer_whole_example = answer_whole (codes "QUEUES") readings one_queue engine-Short
