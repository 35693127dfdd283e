-- ===== src/Session.antt =====
-- src/modules/ctp_gateway_cpp/src/md_spi.h, md_spi.cpp, td_spi.h and td_spi.cpp: the connections to the
-- market data and to the trading interface of CTP. What is asked of the interfaces is collected in a
-- list, oldest first; the interfaces themselves call the callbacks.
pub mod Subscribed
pub mod Authenticated
use tyche_engine.Common.{
  ℕ, ◌+◌, ◌%◌, ◌^◌, ◌≡◌, Bool, true, false, not, Option, none, some, List, [], ◌∷◌, ◌++◌, length,
  map, ltb, if◌then◌else◌, ◌==◌, Bytes,
}
use tyche_engine.Common.Words.{ℤ, is_zero}
use tyche_engine.Wire.{Fields}
use tyche_engine.Quote.{QuoteTick, Depth, safe_copy, depth_to_tick, depth_to_payload}

-- What is used of the configuration.
pub record Account : Type 0 where
  pub broker_id : Bytes
  pub user_id : Bytes
  pub password : Bytes
  pub appid : Bytes
  pub authcode : Bytes

-- A request, with the arrays of its structure and its id, an `int` modulo 2^32.
pub data ApiCall : Type 0 where
  req_user_login : Bytes → Bytes → Bytes → ℕ → ApiCall
  req_authenticate : Bytes → Bytes → Bytes → Bytes → ℕ → ApiCall
  subscribe_market_data : List Bytes → ApiCall

-- `pInfo && pInfo->ErrorID != 0`
abbrev pub is_error : Option ℤ → Bool
is_error none = false
is_error (some e) = not (is_zero e)

abbrev next_id : ℕ → ℕ
next_id n = (n + 1) % 2 ^ 32

abbrev pub login_call : Account → ℕ → ApiCall
login_call a id =
    req_user_login (safe_copy 11 a.broker_id) (safe_copy 16 a.user_id) (safe_copy 41 a.password) id

pub record MdSpi : Type 0 where
  pub account : Account
  pub instruments : List Bytes
  pub logged_in : Bool
  pub req_id : ℕ
  pub calls : List ApiCall

unfoldable pub new_md : Account → MdSpi
new_md account = record {
  account = account;
  instruments = [];
  logged_in = false;
  req_id = 0;
  calls = [];
}

-- The buffers are the ids with a NUL behind each.
unfoldable pub do_subscribe : MdSpi → MdSpi
do_subscribe s =
    let buffers = map (λ (id : Bytes). id ++ (0 ∷ [])) s.instruments in
    if length s.instruments == 0
    then s
    else record s { calls = s.calls ++ (subscribe_market_data buffers ∷ []) }

unfoldable pub set_instruments : List Bytes → MdSpi → MdSpi
unfolding do_subscribe
set_instruments ids s =
    let s' = record s { instruments = ids } in if s'.logged_in then do_subscribe s' else s'

unfoldable pub login_md : MdSpi → MdSpi
login_md s = record s {
  req_id = next_id s.req_id;
  calls = s.calls ++ (login_call s.account (next_id s.req_id) ∷ []);
}

unfoldable pub md_login_response : Option ℤ → MdSpi → MdSpi
unfolding do_subscribe
md_login_response error s =
    if is_error error then s else do_subscribe (record s { logged_in = true })

-- What is called on the market data connection.
pub data MdCallback : Type 0 where
  set_ids : List Bytes → MdCallback
  front_connected : MdCallback
  front_disconnected : MdCallback
  heart_beat_warning : MdCallback
  rsp_user_login : Option ℤ → MdCallback
  rsp_user_logout : MdCallback
  rsp_sub_market_data : MdCallback

unfoldable pub on_md : MdCallback → MdSpi → MdSpi
unfolding set_instruments login_md md_login_response
on_md (set_ids ids) s = set_instruments ids s
on_md front_connected s = login_md s
on_md front_disconnected s = record s { logged_in = false }
on_md heart_beat_warning s = s
on_md (rsp_user_login error) s = md_login_response error s
on_md rsp_user_logout s = record s { logged_in = false }
on_md rsp_sub_market_data s = s

-- `OnRtnDepthMarketData` with a record: the payload for the callback, and the time that it stores;
-- the clock is read once for the tick and once for the time.
unfoldable pub on_depth : {D F : Type 0} → D → ℕ → ℕ → Depth D → Fields D F × ℕ
on_depth z tick_now now d =
    let tick = depth_to_tick z tick_now d in
    (depth_to_payload d, (if ltb 0 tick.receive_ts_ns then tick.receive_ts_ns else now))

-- `td_api_` is not null.
pub record TdSpi : Type 0 where
  pub account : Account
  pub logged_in : Bool
  pub req_id : ℕ
  pub calls : List ApiCall

unfoldable pub new_td : Account → TdSpi
new_td account = record { account = account; logged_in = false; req_id = 0; calls = [] }

unfoldable pub login_td : TdSpi → TdSpi
login_td s = record s {
  req_id = next_id s.req_id;
  calls = s.calls ++ (login_call s.account (next_id s.req_id) ∷ []);
}

unfoldable pub authenticate_or_login : TdSpi → TdSpi
unfolding login_td
authenticate_or_login s =
    let a = s.account in
    if not (length a.appid == 0)
    then record s {
      req_id = next_id s.req_id;
      calls =
          s.calls
          ++ (req_authenticate (safe_copy 11 a.broker_id) (safe_copy 16 a.user_id)
                (safe_copy 33 a.appid) (safe_copy 17 a.authcode) (next_id s.req_id)
              ∷ []);
    }
    else login_td s

pub data TdCallback : Type 0 where
  front_connected : TdCallback
  front_disconnected : TdCallback
  rsp_authenticate : Option ℤ → TdCallback
  rsp_user_login : Option ℤ → TdCallback
  rsp_user_logout : TdCallback

unfoldable pub on_td : TdCallback → TdSpi → TdSpi
unfolding authenticate_or_login
on_td front_connected s = authenticate_or_login s
on_td front_disconnected s = record s { logged_in = false }
on_td (rsp_authenticate error) s = if is_error error then s else login_td s
on_td (rsp_user_login error) s = if is_error error then s else record s { logged_in = true }
on_td rsp_user_logout s = record s { logged_in = false }

-- The callbacks that come until the time is over; the waiting thread looks after each of them.
unfoldable pub wait_for_login : List TdCallback → TdSpi → Bool × TdSpi
wait_for_login [] s = (s.logged_in, s)
wait_for_login (e ∷ es) s =
    let rest = wait_for_login es (on_td e s) in if s.logged_in then (true, s) else rest
