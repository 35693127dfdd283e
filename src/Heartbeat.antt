-- ===== src/Heartbeat.antt =====
-- src/tyche/cpp/engine/heartbeat_manager.h and .cpp: which modules are alive, by the ticks since
-- their last heartbeat. The clock is an argument.
pub mod Expiry
pub mod Silence
use tyche_engine.Common.{
  ℕ, zero, suc, ◌+◌, ◌-◌, ◌*◌, ◌%◌, ◌^◌, ◌≡◌, ltb, Bool, true, false, Option, none, some, List, [],
  ◌∷◌, length, if◌then◌else◌, Bytes, bytes_discrete, ite,
}
use tyche_engine.Common.Assoc
use tyche_engine.Common.Words.{ℤ, pos, negsuc, ◌-ℤ◌}

pub record HeartbeatMonitor : Type 0 where
  pub liveness : ℤ
  pub last_seen : ℕ
  pub interval : ℕ

-- An `int` of 32 bits that an operation has left its range wraps around, two's complement.
unfoldable pub to_int : ℤ → ℤ
to_int (pos n) =
    if ltb (n % 2 ^ 32) (2 ^ 31) then pos (n % 2 ^ 32) else negsuc (2 ^ 32 - 1 - n % 2 ^ 32)
to_int (negsuc n) =
    if ltb (n % 2 ^ 32) (2 ^ 31) then negsuc (n % 2 ^ 32) else pos (2 ^ 32 - 1 - n % 2 ^ 32)

unfoldable pub tick : HeartbeatMonitor → HeartbeatMonitor
tick h = record h { liveness = to_int (h.liveness -ℤ pos 1) }

abbrev pub update_monitor : ℕ → ℤ → HeartbeatMonitor → HeartbeatMonitor
update_monitor now reset_liveness h = record h { liveness = reset_liveness; last_seen = now }

abbrev pub not_positive : ℤ → Bool
not_positive (pos zero) = true
not_positive (pos (suc n)) = false
not_positive (negsuc n) = true

abbrev pub is_expired : HeartbeatMonitor → Bool
is_expired h = not_positive h.liveness

pub record HeartbeatManager : Type 0 where
  pub interval : ℕ
  pub liveness : ℤ
  pub monitors : List (Bytes × HeartbeatMonitor)

abbrev pub new : ℕ → ℤ → HeartbeatManager
new interval liveness = record { interval = interval; liveness = liveness; monitors = [] }

abbrev pub twice : ℤ → ℤ
twice (pos n) = to_int (pos (n * 2))
twice (negsuc n) = to_int (negsuc (n * 2 + 1))

-- `emplace` leaves a module that is there as it is.
unfoldable pub register_module : ℕ → Bytes → HeartbeatManager → HeartbeatManager
register_module now mid m = elim (Assoc.lookup bytes_discrete mid m.monitors) [
  | some h ↦ m
  | none ↦
      let h : HeartbeatMonitor = record {
        liveness = twice m.liveness;
        last_seen = now;
        interval = m.interval;
      } in
      record m { monitors = Assoc.assign bytes_discrete mid h m.monitors }
]

unfoldable pub update : ℕ → Bytes → HeartbeatManager → HeartbeatManager
update now mid m = elim (Assoc.lookup bytes_discrete mid m.monitors) [
  | none ↦ m
  | some h ↦ record m {
    monitors = Assoc.assign bytes_discrete mid (update_monitor now m.liveness h) m.monitors;
  }
]

unfoldable pub tick_entries : List (Bytes × HeartbeatMonitor) → List (Bytes × HeartbeatMonitor)
tick_entries [] = []
tick_entries ((mid, h) ∷ ms) = (mid, tick h) ∷ tick_entries ms

unfoldable pub expired_ids : List (Bytes × HeartbeatMonitor) → List Bytes
expired_ids [] = []
expired_ids ((mid, h) ∷ ms) = let rest = expired_ids ms in if is_expired h then mid ∷ rest else rest

unfoldable pub erase_all :
    List Bytes → List (Bytes × HeartbeatMonitor) → List (Bytes × HeartbeatMonitor)
erase_all [] ms = ms
erase_all (mid ∷ mids) ms = erase_all mids (Assoc.erase bytes_discrete mid ms)

unfoldable pub tick_all : HeartbeatManager → List Bytes × HeartbeatManager
tick_all m =
    let ticked = tick_entries m.monitors in
    let expired = expired_ids ticked in (expired, record m { monitors = erase_all expired ticked })

unfoldable pub unregister : Bytes → HeartbeatManager → HeartbeatManager
unregister mid m = record m { monitors = Assoc.erase bytes_discrete mid m.monitors }

abbrev pub is_some : {A : Type 0} → Option A → Bool
is_some none = false
is_some (some a) = true

unfoldable pub is_registered : Bytes → HeartbeatManager → Bool
is_registered mid m = is_some (Assoc.lookup bytes_discrete mid m.monitors)

unfoldable pub size : HeartbeatManager → ℕ
size m = length m.monitors

abbrev pub liveness_or : Option HeartbeatMonitor → ℤ
liveness_or none = negsuc 0
liveness_or (some h) = h.liveness

unfoldable pub get_liveness : Bytes → HeartbeatManager → ℤ
get_liveness mid m = liveness_or (Assoc.lookup bytes_discrete mid m.monitors)
