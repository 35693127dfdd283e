-- ===== src/Quote/Limits.antt =====
-- src/modules/ctp_gateway_cpp/src/ctp_gateway.cpp and md_spi.cpp: a quote that is turned into a
-- payload and then into a structure again.
use tyche_engine.Common.{
  ℕ, zero, suc, ◌≤◌, ◌≡◌, refl, ap, arith, [], ◌∷◌, ◌==◌, Bytes, bytes_discrete, replicate,
  Bool-cases, inl, inr,
}
use tyche_engine.Quote.{
  Depth, safe_string, strncpy, safe_copy, depth_to_tick, depth_to_payload, find, tick_of,
}

pub strncpy-safe_string :
    (n m : ℕ) (src : Bytes) → n ≤ m → strncpy n (safe_string m src) ≡ strncpy n src
unfolding strncpy safe_string
strncpy-safe_string zero m src h = refl
strncpy-safe_string (suc n) zero src h = absurd (omega arith)
strncpy-safe_string (suc n) (suc m) [] h = refl
strncpy-safe_string (suc n) (suc m) (c ∷ cs) h = elim (Bool-cases (c == 0)) [
  | inl e ↦ rw e (ap (λ t. 0 ∷ t) (strncpy-nil n))
  | inr e ↦ rw (e, strncpy, e) (ap (λ t. c ∷ t) (strncpy-safe_string n m cs (omega arith)))
]
  where
    strncpy-nil : (k : ℕ) → strncpy k [] ≡ replicate k 0
    strncpy-nil zero = refl
    strncpy-nil (suc k) = ap (λ t. 0 ∷ t) (strncpy-nil k)

module _ {D : Type 0} (F : Type 0) (z : D) (now : ℕ) (d : Depth D) where
  -- The tick that the gateway reads out of the payload of a quote is the one that is made of the
  -- quote directly, except that the two price limits and the settlement price are zero: the
  -- payload has them under other keys than those that the gateway reads.
  pub tick_of-depth :
      tick_of {F = F} (depth_to_payload d) z now
      ≡ depth_to_tick z now
          (record d { upper_limit_price = z; lower_limit_price = z; pre_settlement_price = z })
  unfolding tick_of depth_to_tick depth_to_payload find bytes_discrete safe_copy
  tick_of-depth =
      rw
        (
          ← strncpy-safe_string 31 81 d.instrument_id (omega arith),
          ← strncpy-safe_string 8 9 d.exchange_id (omega arith),
          ← strncpy-safe_string 8 9 d.update_time (omega arith),
          ← strncpy-safe_string 8 9 d.trading_day (omega arith),
        )
        refl
