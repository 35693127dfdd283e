-- ===== src/Quote/Validator.antt =====
-- src/modules/ctp_gateway_cpp/src/quote_validator.h: the check of a quote against the one before.
-- The arithmetic and the comparisons of doubles, and `sscanf`, are the record `Numbers`.
use tyche_engine.Common.{
  ℕ, zero, suc, ◌+◌, ◌-◌, ◌*◌, ◌%◌, ◌^◌, Bool, true, false, ◌&&◌, ◌||◌, not, Option, none, some, [],
  ◌∷◌, ltb, get_or, if◌then◌else◌, ◌==◌, Bytes,
}
use tyche_engine.Common.Words.{ℤ, pos, negsuc}
use tyche_engine.Quote.{QuoteTick}

-- `jump` is MAX_PRICE_JUMP_RATIO; `scan` is `sscanf` with "%d:%d:%d", `none` unless it finds three
-- numbers.
pub record Numbers (D : Type 0) : Type 0 where
  pub zero_price : D
  pub jump : D
  pub eq : D → D → Bool
  pub lt : D → D → Bool
  pub le : D → D → Bool
  pub sub : D → D → D
  pub neg : D → D
  pub div : D → D → D
  pub scan : Bytes → Option (ℤ × ℤ × ℤ)

-- `strncmp(a, b, n) == 0`
unfoldable pub strncmp_same : ℕ → Bytes → Bytes → Bool
strncmp_same zero a b = true
strncmp_same (suc n) [] [] = true
strncmp_same (suc n) [] (c ∷ b) = c == 0
strncmp_same (suc n) (c ∷ a) [] = c == 0
strncmp_same (suc n) (c ∷ a) (e ∷ b) =
    let rest = strncmp_same n a b in if c == e then (if c == 0 then true else rest) else false

-- `a < b` of two `int`s
unfoldable pub int_lt : ℤ → ℤ → Bool
int_lt (pos a) (pos b) = ltb a b
int_lt (pos a) (negsuc b) = false
int_lt (negsuc a) (pos b) = true
int_lt (negsuc a) (negsuc b) = ltb b a

-- `static_cast<uint64_t>`
abbrev pub to_uint64 : ℤ → ℕ
to_uint64 (pos n) = n
to_uint64 (negsuc n) = 2 ^ 64 - 1 - n

-- Both days are there, and they differ.
unfoldable pub other_day : {D : Type 0} → QuoteTick D → QuoteTick D → Bool
other_day current prev =
    not (get_or current.trading_day 0 0 == 0)
    && not (get_or prev.trading_day 0 0 == 0)
    && not (strncmp_same 9 current.trading_day prev.trading_day)

-- The milliseconds of the day.
unfoldable pub day_ms : ℤ × ℤ × ℤ → ℤ → ℕ
day_ms (h, m, s) millisec =
    (to_uint64 h * 3600000 + to_uint64 m * 60000 + to_uint64 s * 1000 + to_uint64 millisec) % 2 ^ 64

module _ {D : Type 0} (n : Numbers D) where
  unfoldable pub is_price_within_limits : QuoteTick D → QuoteTick D → Bool
  is_price_within_limits current prev =
      let low = prev.lower_limit_price in
      let high = prev.upper_limit_price in
      let diff = n.sub current.last_price prev.last_price in
      let ratio =
        if n.le n.zero_price diff
        then n.div diff prev.last_price
        else n.div (n.neg diff) prev.last_price in
      if n.le prev.last_price n.zero_price
      then true
      else (if n.le low n.zero_price || n.le high n.zero_price
          then true
          else (if n.le prev.last_price low || n.le high prev.last_price
              then true
              else (if n.lt n.jump ratio
                  then n.le current.lower_limit_price current.last_price
                    && n.le current.last_price current.upper_limit_price
                  else true)))

  abbrev pub before : Option (ℤ × ℤ × ℤ) → ℤ → Option (ℤ × ℤ × ℤ) → ℤ → Bool
  before none cur_millisec p prev_millisec = false
  before (some c) cur_millisec none prev_millisec = false
  before (some c) cur_millisec (some p) prev_millisec =
      ltb (day_ms c cur_millisec) (day_ms p prev_millisec)

  unfoldable pub is_timestamp_regression : QuoteTick D → QuoteTick D → Bool
  is_timestamp_regression current prev =
      if other_day current prev
      then false
      else before (n.scan current.update_time) current.update_millisec (n.scan prev.update_time)
          prev.update_millisec

  -- `none`: no earlier tick.
  unfoldable pub validate : QuoteTick D → Option (QuoteTick D) → Bool
  validate current none = true
  validate current (some prev) =
      if n.eq prev.last_price n.zero_price
      then true
      else (if other_day current prev
          then true
          else (if not (is_price_within_limits current prev)
              then false
              else (if is_timestamp_regression current prev
                  then false
                  else not (int_lt current.volume prev.volume))))
