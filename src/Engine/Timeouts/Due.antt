-- ===== src/Engine/Timeouts/Due.antt =====
-- src/tyche/cpp/engine/engine.cpp: which jobs a round of `_job_timeout_worker` reports.
use tyche_engine.Common.{
  ℕ, ◌+◌, ◌<◌, ◌≡◌, ◌≢◌, ◌↔◌, refl, sym, ap, ◌∙◌, arith, true, false, Option, none, some, List, [],
  ◌∷◌, ite, Bytes, bytes_discrete,
}
use tyche_engine.Common.Assoc
use tyche_engine.Common.Assoc.{NodupKeys}
use tyche_engine.Engine.{JobTrackingInfo, Reason, run_timeout, wait_timeout, JobTimeoutEvent}
use tyche_engine.Engine.Jobs.{is_empty}
use tyche_engine.Engine.Timeouts.{due, due_events, event_of}

-- The reason that the first event of a job gives.
abbrev pub reason_for : Bytes → List JobTimeoutEvent → Option Reason
reason_for c [] = none
reason_for c (ev ∷ evs) =
    ite (bytes_discrete ev.correlation_id c) (some ev.reason) (reason_for c evs)

abbrev late : ℕ → Option JobTrackingInfo → Option Reason
late now none = none
late now (some info) = due now info

reason_for-event_of :
    (c d : Bytes) (o : Option Reason) (evs : List JobTimeoutEvent)
    → (c ≡ d → reason_for d evs ≡ none)
    → reason_for d (event_of c o evs) ≡ ite (bytes_discrete c d) o (reason_for d evs)
reason_for-event_of c d none evs h = absent (bytes_discrete c d)
  where
    absent : (e : Dec (c ≡ d)) → reason_for d evs ≡ ite e none (reason_for d evs)
    absent (yes p) = h p
    absent (no n) = refl
reason_for-event_of c d (some r) evs h = refl

late-lookup :
    (now : ℕ) (c d : Bytes) (i : JobTrackingInfo) (o : Option JobTrackingInfo) (e : Dec (c ≡ d))
    → late now (ite e (some i) o) ≡ ite e (due now i) (late now o)
late-lookup now c d i o (yes p) = refl
late-lookup now c d i o (no n) = refl

reason_for-due_events :
    (now : ℕ) (c : Bytes) (jobs : List (Bytes × JobTrackingInfo))
    → NodupKeys bytes_discrete jobs
    → reason_for c (due_events now jobs) ≡ late now (Assoc.lookup bytes_discrete c jobs)
unfolding due_events Assoc.lookup
reason_for-due_events now c [] h = refl
reason_for-due_events now c ((d, i) ∷ jobs) h =
    reason_for-event_of d c (due now i) (due_events now jobs) (λ p.
      reason_for-due_events now c jobs h.1
      ∙ ap (λ k. late now (Assoc.lookup bytes_discrete k jobs)) (sym p)
      ∙ ap (late now) h.0)
    ∙ ap (ite (bytes_discrete d c) (due now i)) (reason_for-due_events now c jobs h.1)
    ∙ sym (late-lookup now d c i (Assoc.lookup bytes_discrete c jobs) (bytes_discrete d c))

-- The tracked job has no handler and has waited for longer than its wait timeout.
abbrev pub WaitedTooLong : ℕ → Option JobTrackingInfo → Type 0
WaitedTooLong now o =
    (i : JobTrackingInfo) × (o ≡ some i)
    × (i.handler_id ≡ [])
    × (i.wait_start_time + i.wait_timeout < now)

-- The tracked job has had a handler for longer than its run timeout.
abbrev pub RanTooLong : ℕ → Option JobTrackingInfo → Type 0
RanTooLong now o =
    (i : JobTrackingInfo) × (o ≡ some i)
    × (i.handler_id ≢ [])
    × (i.dispatch_time + i.run_timeout < now)

nil_of_empty : (h : Bytes) → is_empty h ≡ true → h ≡ []
nil_of_empty [] e = refl
nil_of_empty (x ∷ xs) e = cc

full_of_empty : (h : Bytes) → is_empty h ≡ false → h ≢ []
full_of_empty [] e p = cc
full_of_empty (x ∷ xs) e p = cc

empty_of_full : (h : Bytes) → h ≢ [] → is_empty h ≡ false
empty_of_full [] n = absurd (n refl)
empty_of_full (x ∷ xs) n = refl

module _ (now : ℕ) (i : JobTrackingInfo) where
  due-wait :
      due now i ≡ some wait_timeout
      → (is_empty i.handler_id ≡ true) × (i.wait_start_time + i.wait_timeout < now)
  unfolding due
  due-wait h = ground arith

  due-run :
      due now i ≡ some run_timeout
      → (is_empty i.handler_id ≡ false) × (i.dispatch_time + i.run_timeout < now)
  unfolding due
  due-run h = ground arith

  wait-due :
      is_empty i.handler_id ≡ true
      → i.wait_start_time + i.wait_timeout < now
      → due now i ≡ some wait_timeout
  unfolding due
  wait-due h l = ground arith

  run-due :
      is_empty i.handler_id ≡ false
      → i.dispatch_time + i.run_timeout < now
      → due now i ≡ some run_timeout
  unfolding due
  run-due h l = ground arith

late-wait :
    (now : ℕ) (o : Option JobTrackingInfo) → (late now o ≡ some wait_timeout) ↔ WaitedTooLong now o
late-wait now none = (λ h. cc, λ w. let (i, p, h, l) = w in cc)
late-wait now (some i) = (
  λ h. let (e, l) = due-wait now i h in (i, refl, nil_of_empty i.handler_id e, l),
  λ w.
      let (j, p, h, l) = w in
      let q : i ≡ j = cc in ap (due now) q ∙ wait-due now j (ap is_empty h) l,
)

late-run :
    (now : ℕ) (o : Option JobTrackingInfo) → (late now o ≡ some run_timeout) ↔ RanTooLong now o
late-run now none = (λ h. cc, λ w. let (i, p, h, l) = w in cc)
late-run now (some i) = (
  λ h. let (e, l) = due-run now i h in (i, refl, full_of_empty i.handler_id e, l),
  λ w.
      let (j, p, h, l) = w in
      let q : i ≡ j = cc in ap (due now) q ∙ run-due now j (empty_of_full j.handler_id h) l,
)

-- If no job is tracked twice: the first event that a round of the timeout worker reports of a job
-- is a wait timeout exactly if the job is tracked, has no handler, and has waited for longer than
-- its wait timeout; and it is a run timeout exactly if the job is tracked, has a handler, and was
-- handed over longer ago than its run timeout.
pub due_events_lem :
    (now : ℕ) (c : Bytes) (jobs : List (Bytes × JobTrackingInfo))
    → NodupKeys bytes_discrete jobs
    → ((reason_for c (due_events now jobs) ≡ some wait_timeout)
        ↔ WaitedTooLong now (Assoc.lookup bytes_discrete c jobs))
      × ((reason_for c (due_events now jobs) ≡ some run_timeout)
          ↔ RanTooLong now (Assoc.lookup bytes_discrete c jobs))
due_events_lem now c jobs h =
    let e = reason_for-due_events now c jobs h in
    let (w, w') = late-wait now (Assoc.lookup bytes_discrete c jobs) in
    let (r, r') = late-run now (Assoc.lookup bytes_discrete c jobs) in
    ((λ q. w (sym e ∙ q), λ q. e ∙ w' q), (λ q. r (sym e ∙ q), λ q. e ∙ r' q))
