-- ===== src/Spin.antt =====
-- src/tyche/cpp/engine/adaptive_spin.h: how a worker without work waits, by the number of its rounds
-- without work.
pub mod Idle
use tyche_engine.Common.{
  ℕ, zero, suc, ◌+◌, ◌^◌, Bool, true, false, Option, none, some, ltb, ◌==◌, if◌then◌else◌,
}

-- The thresholds are not negative.
pub record AdaptiveSpin : Type 0 where
  pub idle_count : ℕ
  pub spin_threshold : ℕ
  pub yield_threshold : ℕ
  pub sleep_us : ℕ

unfoldable pub new : ℕ → ℕ → ℕ → AdaptiveSpin
new spin_threshold yield_threshold sleep_us = record {
  idle_count = 0;
  spin_threshold = spin_threshold;
  yield_threshold = yield_threshold;
  sleep_us = sleep_us;
}

unfoldable pub reset : AdaptiveSpin → AdaptiveSpin
reset s = record s { idle_count = 0 }

pub data Waiting : Type 0 where
  cpu_pause yield : Waiting
  sleep_for : ℕ → Waiting

abbrev pub phase : AdaptiveSpin → ℕ → Waiting
phase s n =
    if ltb n s.spin_threshold
    then cpu_pause
    else if ltb n s.yield_threshold
    then yield
    else sleep_for s.sleep_us

-- How it waits, and the state after it; `none`: the int `idle_count` overflows, which is undefined.
unfoldable pub wait : AdaptiveSpin → Option (Waiting × AdaptiveSpin)
wait s =
    if s.idle_count + 1 == 2 ^ 31
    then none
    else some (phase s (s.idle_count + 1), record s { idle_count = s.idle_count + 1 })
