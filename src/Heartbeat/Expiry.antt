-- ===== src/Heartbeat/Expiry.antt =====
-- When a module expires: the ticks of heartbeat_manager.cpp against one module's liveness.
use tyche_engine.Common.{
  ◌≡◌, refl, sym, ap, ◌∙◌, arith, Bool, false, Option, none, some, List, [], ◌∷◌, Bytes,
  bytes_discrete, if◌then◌else◌,
}
use tyche_engine.Common.Assoc
use tyche_engine.Common.Members.{contains}
use tyche_engine.Common.Assoc.{NodupKeys}
use tyche_engine.Heartbeat.{
  HeartbeatMonitor, HeartbeatManager, tick, is_expired, tick_entries, expired_ids, erase_all,
  tick_all,
}

-- No module is monitored twice.
abbrev pub IsValid : HeartbeatManager → Type 0
IsValid m = NodupKeys bytes_discrete m.monitors

abbrev pub monitor : Bytes → HeartbeatManager → Option HeartbeatMonitor
monitor mid m = Assoc.lookup bytes_discrete mid m.monitors

-- What one tick makes of one module.
abbrev pub ticked : Option HeartbeatMonitor → Option HeartbeatMonitor
ticked none = none
ticked (some h) = some (tick h)

abbrev pub expires : Option HeartbeatMonitor → Bool
expires none = false
expires (some h) = is_expired h

lookup-tick_entries :
    (mid : Bytes) (ms : List (Bytes × HeartbeatMonitor))
    → Assoc.lookup bytes_discrete mid (tick_entries ms)
      ≡ ticked (Assoc.lookup bytes_discrete mid ms)
unfolding tick_entries Assoc.lookup
lookup-tick_entries mid [] = refl
lookup-tick_entries mid ((j, h) ∷ ms) = ground (arith, lookup-tick_entries mid ms)

tick_entries-NodupKeys :
    (ms : List (Bytes × HeartbeatMonitor))
    → NodupKeys bytes_discrete ms
    → NodupKeys bytes_discrete (tick_entries ms)
unfolding tick_entries
tick_entries-NodupKeys [] h = h
tick_entries-NodupKeys ((j, x) ∷ ms) h =
    (lookup-tick_entries j ms ∙ ap ticked h.0, tick_entries-NodupKeys ms h.1)

contains-expired_ids :
    (mid : Bytes) (ms : List (Bytes × HeartbeatMonitor))
    → NodupKeys bytes_discrete ms
    → contains mid (expired_ids ms) ≡ expires (Assoc.lookup bytes_discrete mid ms)
unfolding expired_ids Assoc.lookup
contains-expired_ids mid [] h = refl
contains-expired_ids mid ((j, x) ∷ ms) h = elim (bytes_discrete j mid) [
  | yes e ↦ ground (
    arith,
    contains-expired_ids mid ms h.1,
    ap (λ t. Assoc.lookup bytes_discrete t ms) (sym e) ∙ h.0,
  )
  | no n ↦ ground (arith, contains-expired_ids mid ms h.1)
]

lookup-erase_all :
    (mid : Bytes) (js : List Bytes) (ms : List (Bytes × HeartbeatMonitor))
    → Assoc.lookup bytes_discrete mid (erase_all js ms)
      ≡ (if contains mid js then none else Assoc.lookup bytes_discrete mid ms)
unfolding erase_all
lookup-erase_all mid [] ms = refl
lookup-erase_all mid (j ∷ js) ms =
    lookup-erase_all mid js (Assoc.erase bytes_discrete j ms)
    ∙ ground (arith, Assoc.lookup-erase bytes_discrete mid j ms)

erase_all-NodupKeys :
    (js : List Bytes) (ms : List (Bytes × HeartbeatMonitor))
    → NodupKeys bytes_discrete ms
    → NodupKeys bytes_discrete (erase_all js ms)
unfolding erase_all
erase_all-NodupKeys [] ms h = h
erase_all-NodupKeys (j ∷ js) ms h =
    erase_all-NodupKeys js (Assoc.erase bytes_discrete j ms)
      (Assoc.erase-NodupKeys bytes_discrete j ms h)

-- What is left of a module after a tick.
abbrev pub survives : Option HeartbeatMonitor → Option HeartbeatMonitor
survives o = if expires (ticked o) then none else ticked o

-- A tick on a manager that monitors no module twice reports exactly the modules whose liveness
-- reaches 0 by it, these are monitored no more, the others have one liveness less, and no module
-- is monitored twice.
pub tick_all_lem :
    (m : HeartbeatManager)
    → IsValid m
    → IsValid (tick_all m).1
      × ((mid : Bytes) → contains mid (tick_all m).0 ≡ expires (ticked (monitor mid m)))
      × ((mid : Bytes) → monitor mid (tick_all m).1 ≡ survives (monitor mid m))
unfolding tick_all
tick_all_lem m v = (
  erase_all-NodupKeys _ _ (tick_entries-NodupKeys m.monitors v),
  in_list,
  λ mid.
      lookup-erase_all mid (expired_ids (tick_entries m.monitors)) (tick_entries m.monitors)
      ∙ left_over mid,
)
  where
    in_list :
        (mid : Bytes)
        → contains mid (expired_ids (tick_entries m.monitors)) ≡ expires (ticked (monitor mid m))
    in_list mid =
        contains-expired_ids mid (tick_entries m.monitors) (tick_entries-NodupKeys m.monitors v)
        ∙ ap expires (lookup-tick_entries mid m.monitors)

    left_over :
        (mid : Bytes)
        → (if contains mid (expired_ids (tick_entries m.monitors))
            then none
            else Assoc.lookup bytes_discrete mid (tick_entries m.monitors))
          ≡ survives (monitor mid m)
    left_over mid = ground (arith, in_list mid, lookup-tick_entries mid m.monitors)
