-- ===== src/Spin/Idle.antt =====
-- adaptive_spin.h: rounds without work, one after another.
use tyche_engine.Common.{
  ℕ, zero, suc, ◌+◌, ◌^◌, ◌<◌, ◌≡◌, ap, ◌∙◌, arith, Option, none, some, ltb, if◌then◌else◌,
}
use tyche_engine.Spin.{AdaptiveSpin, Waiting, wait, reset}

abbrev after :
    (AdaptiveSpin → Option AdaptiveSpin) → Option (Waiting × AdaptiveSpin) → Option AdaptiveSpin
after go none = none
after go (some (w, s)) = go s

-- The state after `n` rounds without work.
unfoldable pub idle : ℕ → AdaptiveSpin → Option AdaptiveSpin
idle zero s = some s
idle (suc n) s = after (idle n) (wait s)

abbrev at_count : AdaptiveSpin → ℕ → AdaptiveSpin
at_count s n = record s { idle_count = n }

idle-from :
    (n m : ℕ) (s : AdaptiveSpin)
    → m < 2 ^ 31
    → idle n (at_count s m) ≡ (if ltb (m + n) (2 ^ 31) then some (at_count s (m + n)) else none)
unfolding idle wait
idle-from zero m s h = ground arith
idle-from (suc n) m s h = ground (arith, idle-from n (m + 1) s)

-- From a reset on, a worker can wait through `n` rounds without work, and has then counted `n` of
-- them, exactly if `n` is below 2^31; the counter overflows in the round after.
pub idle_lem :
    (n : ℕ) (s : AdaptiveSpin)
    → idle n (reset s) ≡ (if ltb n (2 ^ 31) then some (record s { idle_count = n }) else none)
unfolding reset idle
idle_lem n s =
    idle-from n 0 s (omega arith)
    ∙ ap (λ m. if ltb m (2 ^ 31) then some (at_count s m) else none) {y = n} (omega arith)
