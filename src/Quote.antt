-- ===== src/Quote.antt =====
-- src/modules/ctp_gateway_cpp/src/quote_tick.h and md_spi.cpp: a quote, as a structure with arrays of
-- fixed size and as the payload of an event. A char array is the list of all its bytes, a C string
-- the list of the bytes before its NUL. `D` is double, `F` float.
pub mod Limits
pub mod Validator
pub mod Accepted
use tyche_engine.Common.{
  ℕ, zero, suc, ◌-◌, Option, none, some, List, [], ◌∷◌, ◌++◌, replicate, ite, if◌then◌else◌, ◌==◌,
  Bytes, bytes_discrete, codes,
}
use tyche_engine.Common.Words.{ℤ, pos}
use tyche_engine.Wire.{Any, Fields, end, field, text, int, double}

pub record QuoteTick (D : Type 0) : Type 0 where
  pub instrument_id : Bytes
  pub last_price : D
  pub bid_price1 : D
  pub ask_price1 : D
  pub bid_volume1 : ℤ
  pub ask_volume1 : ℤ
  pub open_interest : D
  pub turnover : D
  pub upper_limit_price : D
  pub lower_limit_price : D
  pub open_price : D
  pub high_price : D
  pub low_price : D
  pub pre_settle_price : D
  pub update_time : Bytes
  pub exchange_id : Bytes
  pub trading_day : Bytes
  pub volume : ℤ
  pub update_millisec : ℤ
  pub receive_ts_ns : ℕ
  pub sequence : ℕ
  pub flags : ℕ

-- What is read of a `CThostFtdcDepthMarketDataField`, whose arrays of text have 81, 9, 9 and 9 bytes.
pub record Depth (D : Type 0) : Type 0 where
  pub trading_day : Bytes
  pub exchange_id : Bytes
  pub last_price : D
  pub pre_settlement_price : D
  pub open_price : D
  pub highest_price : D
  pub lowest_price : D
  pub volume : ℤ
  pub turnover : D
  pub open_interest : D
  pub upper_limit_price : D
  pub lower_limit_price : D
  pub update_time : Bytes
  pub update_millisec : ℤ
  pub bid_price1 : D
  pub bid_volume1 : ℤ
  pub ask_price1 : D
  pub ask_volume1 : ℤ
  pub instrument_id : Bytes

-- `std::string(src, strnlen(src, max_len))`
unfoldable pub safe_string : ℕ → Bytes → Bytes
safe_string zero src = []
safe_string (suc n) [] = []
safe_string (suc n) (c ∷ cs) = let rest = safe_string n cs in if c == 0 then [] else c ∷ rest

-- `std::strncpy` of `n` bytes: what stands before the NUL, and then NULs.
unfoldable pub strncpy : ℕ → Bytes → Bytes
strncpy zero src = []
strncpy (suc n) [] = 0 ∷ strncpy n []
strncpy (suc n) (c ∷ cs) =
    let rest = strncpy n cs in if c == 0 then replicate (suc n) 0 else c ∷ rest

-- The new bytes of an array of `size` bytes.
unfoldable pub safe_copy : ℕ → Bytes → Bytes
safe_copy zero src = []
safe_copy (suc n) src = strncpy n src ++ (0 ∷ [])

-- `QuoteTick tick{}`
abbrev pub blank_tick : {D : Type 0} → D → QuoteTick D
blank_tick z = record {
  instrument_id = replicate 32 0;
  last_price = z;
  bid_price1 = z;
  ask_price1 = z;
  bid_volume1 = pos 0;
  ask_volume1 = pos 0;
  open_interest = z;
  turnover = z;
  upper_limit_price = z;
  lower_limit_price = z;
  open_price = z;
  high_price = z;
  low_price = z;
  pre_settle_price = z;
  update_time = replicate 9 0;
  exchange_id = replicate 9 0;
  trading_day = replicate 9 0;
  volume = pos 0;
  update_millisec = pos 0;
  receive_ts_ns = 0;
  sequence = 0;
  flags = 0;
}

-- `now` is the value of the clock.
unfoldable pub depth_to_tick : {D : Type 0} → D → ℕ → Depth D → QuoteTick D
depth_to_tick z now d = record (blank_tick z) {
  instrument_id = safe_copy 32 d.instrument_id;
  exchange_id = safe_copy 9 d.exchange_id;
  update_time = safe_copy 9 d.update_time;
  trading_day = safe_copy 9 d.trading_day;
  last_price = d.last_price;
  volume = d.volume;
  bid_price1 = d.bid_price1;
  bid_volume1 = d.bid_volume1;
  ask_price1 = d.ask_price1;
  ask_volume1 = d.ask_volume1;
  upper_limit_price = d.upper_limit_price;
  lower_limit_price = d.lower_limit_price;
  open_price = d.open_price;
  high_price = d.highest_price;
  low_price = d.lowest_price;
  pre_settle_price = d.pre_settlement_price;
  open_interest = d.open_interest;
  turnover = d.turnover;
  update_millisec = d.update_millisec;
  receive_ts_ns = now;
}

-- `payload.find(key)`
unfoldable pub find : {D F : Type 0} → Bytes → Fields D F → Option (Any D F)
find key end = none
find key (field k v rest) = ite (bytes_discrete k key) (some v) (find key rest)

-- The fields from `open_price` on.
abbrev depth_rest : {D F : Type 0} → Depth D → Fields D F
depth_rest e = field (codes "open_price") (double e.open_price) (
    field (codes "high_price") (double e.highest_price) (
      field (codes "low_price") (double e.lowest_price) (
        field (codes "pre_settle_price") (double e.pre_settlement_price) (
          field (codes "open_interest") (double e.open_interest) (
            field (codes "turnover") (double e.turnover) (
              field (codes "update_time") (text (safe_string 9 e.update_time)) (
                field (codes "update_millisec") (int e.update_millisec)
                  (field (codes "trading_day") (text (safe_string 9 e.trading_day)) end))))))))

unfoldable pub depth_to_payload : {D F : Type 0} → Depth D → Fields D F
depth_to_payload d = field (codes "instrument_id") (text (safe_string 81 d.instrument_id)) (
    field (codes "exchange_id") (text (safe_string 9 d.exchange_id)) (
      field (codes "last_price") (double d.last_price) (
        field (codes "volume") (int d.volume) (
          field (codes "bid_price1") (double d.bid_price1) (
            field (codes "bid_volume1") (int d.bid_volume1) (
              field (codes "ask_price1") (double d.ask_price1) (
                field (codes "ask_volume1") (int d.ask_volume1) (
                  field (codes "upper_limit_price") (double d.upper_limit_price) (
                    field (codes "lower_limit_price") (double d.lower_limit_price)
                      (depth_rest d))))))))))

-- `std::string(array)`: an array that has a NUL.
abbrev pub to_string : Bytes → Bytes
to_string [] = []
to_string (c ∷ cs) = let rest = to_string cs in if c == 0 then [] else c ∷ rest

abbrev tick_rest : {D F : Type 0} → QuoteTick D → Fields D F
tick_rest t = field (codes "open_price") (double t.open_price) (
    field (codes "high_price") (double t.high_price) (
      field (codes "low_price") (double t.low_price) (
        field (codes "pre_settle") (double t.pre_settle_price) (
          field (codes "open_interest") (double t.open_interest) (
            field (codes "turnover") (double t.turnover) (
              field (codes "update_time") (text (to_string t.update_time)) (
                field (codes "update_millisec") (int t.update_millisec)
                  (field (codes "trading_day") (text (to_string t.trading_day)) end))))))))

unfoldable pub tick_to_payload : {D F : Type 0} → QuoteTick D → Fields D F
tick_to_payload t = field (codes "instrument_id") (text (safe_string 32 t.instrument_id)) (
    field (codes "exchange_id") (text (to_string t.exchange_id)) (
      field (codes "last_price") (double t.last_price) (
        field (codes "volume") (int t.volume) (
          field (codes "bid_price1") (double t.bid_price1) (
            field (codes "bid_volume1") (int t.bid_volume1) (
              field (codes "ask_price1") (double t.ask_price1) (
                field (codes "ask_volume1") (int t.ask_volume1) (
                  field (codes "upper_limit") (double t.upper_limit_price)
                    (field (codes "lower_limit") (double t.lower_limit_price) (tick_rest t))))))))))

-- What a payload says of a tick: `instrument_id` ... `trading_day`, in the order of the code. A step
-- is `none` if its `any_cast` throws, which ends the `try` block.
module _ {D F : Type 0} (p : Fields D F) where
  abbrev Step : Type 0
  Step = QuoteTick D → Option (QuoteTick D)

  abbrev set_text : Option (Any D F) → (Bytes → QuoteTick D → QuoteTick D) → Step
  set_text none f t = some t
  set_text (some (text s)) f t = some (f s t)
  set_text (some other) f t = none

  abbrev set_double : Option (Any D F) → (D → QuoteTick D → QuoteTick D) → Step
  set_double none f t = some t
  set_double (some (double d)) f t = some (f d t)
  set_double (some other) f t = none

  abbrev set_int : Option (Any D F) → (ℤ → QuoteTick D → QuoteTick D) → Step
  set_int none f t = some t
  set_int (some (int i)) f t = some (f i t)
  set_int (some other) f t = none

  -- `strncpy` into an array of `size` bytes that are 0.
  abbrev fit : ℕ → Bytes → Bytes
  fit size s = strncpy (size - 1) s ++ (0 ∷ [])

  abbrev pub fill_steps : List Step
  fill_steps =
      set_text (find (codes "instrument_id") p) (λ s t. record t { instrument_id = fit 32 s })
      ∷ set_text (find (codes "exchange_id") p) (λ s t. record t { exchange_id = fit 9 s })
      ∷ set_double (find (codes "last_price") p) (λ d t. record t { last_price = d })
      ∷ set_int (find (codes "volume") p) (λ i t. record t { volume = i })
      ∷ set_double (find (codes "bid_price1") p) (λ d t. record t { bid_price1 = d })
      ∷ set_int (find (codes "bid_volume1") p) (λ i t. record t { bid_volume1 = i })
      ∷ set_double (find (codes "ask_price1") p) (λ d t. record t { ask_price1 = d })
      ∷ set_int (find (codes "ask_volume1") p) (λ i t. record t { ask_volume1 = i })
      ∷ set_double (find (codes "upper_limit") p) (λ d t. record t { upper_limit_price = d })
      ∷ set_double (find (codes "lower_limit") p) (λ d t. record t { lower_limit_price = d })
      ∷ set_double (find (codes "open_price") p) (λ d t. record t { open_price = d })
      ∷ set_double (find (codes "high_price") p) (λ d t. record t { high_price = d })
      ∷ set_double (find (codes "low_price") p) (λ d t. record t { low_price = d })
      ∷ set_double (find (codes "pre_settle") p) (λ d t. record t { pre_settle_price = d })
      ∷ set_double (find (codes "open_interest") p) (λ d t. record t { open_interest = d })
      ∷ set_double (find (codes "turnover") p) (λ d t. record t { turnover = d })
      ∷ set_text (find (codes "update_time") p) (λ s t. record t { update_time = fit 9 s })
      ∷ set_int (find (codes "update_millisec") p) (λ i t. record t { update_millisec = i })
      ∷ set_text (find (codes "trading_day") p) (λ s t. record t { trading_day = fit 9 s })
      ∷ []

  unfoldable pub fill : List Step → QuoteTick D → QuoteTick D
  fill [] t = t
  fill (step ∷ steps) t = elim (step t) [ none ↦ t | some t' ↦ fill steps t' ]

  -- The tick that `on_quote_received` makes.
  unfoldable pub tick_of : D → ℕ → QuoteTick D
  unfolding fill
  tick_of z now = record (fill fill_steps (blank_tick z)) { receive_ts_ns = now }
