-- ===== src/Engine/Timeouts/Rounds.antt =====
-- src/tyche/cpp/engine/engine.cpp: the two job tables over a round of the job router.
use tyche_engine.Common.{
  ℕ, ◌≡◌, refl, sym, ap, ◌∙◌, subst, arith, Bool, true, false, Option, none, some, List, [], ◌∷◌,
  ite, if_pos, if_neg, Bytes, bytes_discrete, if◌then◌else◌, Option-cases, inl, inr, ◌&&◌,
}
use tyche_engine.Common.Assoc
use tyche_engine.Common.Assoc.{AllKeys}
use tyche_engine.Common.Members.{contains}
use tyche_engine.Message.{Message, Codec}
use tyche_engine.Types.{MessageType}
use tyche_engine.Intern
use tyche_engine.Engine.{
  Engine, JobTrackingInfo, Reason, run_timeout, wait_timeout, JobTimeoutEvent, RecoveryEvent,
}
use tyche_engine.Engine.Jobs.{retry_job, settle, untrack, available_for, is_empty}
use tyche_engine.Engine.Jobs.Pending.{
  present, tracked, pending, Matched, tracked-untrack, pending-unpend, settle-tracked, back_again,
  handle_request-Matched, handle_response-Matched,
}
use tyche_engine.Engine.Timeouts.{
  mark_unavailable, overrun, give_up, letters, by_reason, process_timeout, waiting_jobs,
  retry_waiting, retry_all, process_recovery, by_type, on_message, receive, process_timeouts,
  process_recoveries, router_round,
}

-- Both ways to try a job again leave it tracked.
retry-tracked :
    (now : ℕ) (c d : Bytes) (back : JobTrackingInfo → JobTrackingInfo) (info : JobTrackingInfo)
    (e : Engine)
    → (tracked d (settle c back (retry_job now c info e))
        ≡ ite (bytes_discrete c d) true (tracked d e))
      × (pending d (settle c back (retry_job now c info e)) ≡ pending d e)
unfolding retry_job
retry-tracked now c d back info e =
    settle-tracked now c d back info (Intern.intern info.topic e.interned).0
      (available_for info.topic (Intern.intern info.topic e.interned).0
        (record e { interned = (Intern.intern info.topic e.interned).1 }))
      (record e { interned = (Intern.intern info.topic e.interned).1 })

-- Without the job `c`, the other jobs are still tracked exactly while they wait.
others_match :
    (c : Bytes) (e : Engine)
    → Matched e
    → (d : Bytes) → ¬ (c ≡ d)
    → tracked d (untrack c e) ≡ pending d (untrack c e)
others_match c e m d n =
    tracked-untrack c d e ∙ if_neg (bytes_discrete c d) n false (tracked d e) ∙ m d

overrun-Matched :
    (now : ℕ) (c : Bytes) (info : JobTrackingInfo) (e : Engine)
    → Matched e
    → tracked c e ≡ true
    → Matched (overrun now c info (untrack c e))
unfolding overrun
overrun-Matched now c info e m here =
    back_again c (untrack c e) (overrun now c info (untrack c e)) (others_match c e m)
      (sym (m c) ∙ here)
      (λ d.
        retry-tracked now c d _ info (mark_unavailable info.handler_id info.topic (untrack c e)))

letters-same :
    (codec : Codec) (reason : Reason) (info : JobTrackingInfo) (e : Engine)
    → ((letters codec reason info e).job_tracking ≡ e.job_tracking)
      × ((letters codec reason info e).pending_jobs ≡ e.pending_jobs)
letters-same codec run_timeout info e = (refl, refl)
letters-same codec wait_timeout info e = ground arith

give_up-Matched :
    (codec : Codec) (c : Bytes) (reason : Reason) (info : JobTrackingInfo) (e : Engine)
    → Matched e
    → Matched (give_up codec c reason info (untrack c e))
unfolding give_up
give_up-Matched codec c reason info e m d =
    let (t, p) = letters-same codec reason info (untrack c e) in
    ap (λ l. present (Assoc.lookup bytes_discrete d l)) t
    ∙ tracked-untrack c d e
    ∙ ap (ite (bytes_discrete c d) false) (m d)
    ∙ sym (pending-unpend c d e)
    ∙ ap (λ l. present (Assoc.lookup bytes_discrete d (Assoc.erase bytes_discrete c l))) (sym p)

by_reason-Matched :
    (codec : Codec) (reason : Reason) (waits : Bool) (now : ℕ) (c : Bytes) (info : JobTrackingInfo)
    (e : Engine)
    → Matched e
    → tracked c e ≡ true
    → Matched (by_reason codec reason waits now c info (untrack c e))
by_reason-Matched codec run_timeout false now c info e m here = overrun-Matched now c info e m here
by_reason-Matched codec run_timeout true now c info e m here =
    give_up-Matched codec c run_timeout info e m
by_reason-Matched codec wait_timeout waits now c info e m here =
    give_up-Matched codec c wait_timeout info e m

process_timeout-Matched :
    (codec : Codec) (now : ℕ) (ev : JobTimeoutEvent) (e : Engine)
    → Matched e
    → Matched (process_timeout codec now ev e)
unfolding process_timeout
process_timeout-Matched codec now ev e m =
    elim (Option-cases (Assoc.lookup bytes_discrete ev.correlation_id e.job_tracking)) [
      | inl p ↦ subst Matched (sym (gone p)) m
      | inr (info, p) ↦ subst Matched (sym (taken info p)) (
          by_reason-Matched codec ev.reason (is_empty info.handler_id) now ev.correlation_id info e
            m (ap present p))
    ]
  where
    gone :
        Assoc.lookup bytes_discrete ev.correlation_id e.job_tracking ≡ none
        → process_timeout codec now ev e ≡ e
    gone p = rw (p, process_timeout)

    taken :
        (info : JobTrackingInfo)
        → Assoc.lookup bytes_discrete ev.correlation_id e.job_tracking ≡ some info
        → process_timeout codec now ev e
          ≡ by_reason codec ev.reason
              (is_empty info.handler_id)
              now
              ev.correlation_id
              info
              (untrack ev.correlation_id e)
    taken info p = rw (p, process_timeout)

-- The jobs that a recovery takes up are tracked, also after others have been retried.
retry_waiting-Matched :
    (now : ℕ) (c : Bytes) (info : JobTrackingInfo) (e : Engine)
    → Matched e
    → tracked c e ≡ true
    → Matched (retry_waiting now c info e)
      × ((d : Bytes) → tracked d e ≡ true → tracked d (retry_waiting now c info e) ≡ true)
unfolding retry_waiting
retry_waiting-Matched now c info e m here = (
  back_again c (untrack c e) (retry_waiting now c info e) (others_match c e m) (sym (m c) ∙ here)
      (λ d. retry-tracked now c d _ info (untrack c e)),
  λ d h. (retry-tracked now c d _ info (untrack c e)).0 ∙ still d h (bytes_discrete c d),
)
  where
    still :
        (d : Bytes)
        → tracked d e ≡ true
        → (q : Dec (c ≡ d)) → ite q true (tracked d (untrack c e)) ≡ true
    still d h (yes p) = refl
    still d h (no n) = tracked-untrack c d e ∙ if_neg (bytes_discrete c d) n false (tracked d e) ∙ h

AllKeys-imp :
    {V : Type 0} (P R : Bytes → Type 0) (l : List (Bytes × V))
    → ((c : Bytes) → P c → R c)
    → AllKeys bytes_discrete P l
    → AllKeys bytes_discrete R l
AllKeys-imp P R [] f h = tt
AllKeys-imp P R ((c, v) ∷ l) f h = (f c h.0, AllKeys-imp P R l f h.1)

AllKeys-present :
    {V : Type 0} (l : List (Bytes × V))
    → AllKeys bytes_discrete (λ c. present (Assoc.lookup bytes_discrete c l) ≡ true) l
unfolding Assoc.lookup
AllKeys-present [] = tt
AllKeys-present ((c, v) ∷ l) = (
  ap present (if_pos (bytes_discrete c c) refl (some v) _),
  AllKeys-imp _ _ l (λ d h. further d h (bytes_discrete c d)) (AllKeys-present l),
)
  where
    further :
        (d : Bytes)
        → present (Assoc.lookup bytes_discrete d l) ≡ true
        → (q : Dec (c ≡ d)) → present (ite q (some v) (Assoc.lookup bytes_discrete d l)) ≡ true
    further d h (yes p) = refl
    further d h (no n) = h

waiting_jobs-AllKeys :
    (P : Bytes → Type 0) (topics : List Bytes) (jobs : List (Bytes × JobTrackingInfo))
    → AllKeys bytes_discrete P jobs
    → AllKeys bytes_discrete P (waiting_jobs topics jobs)
unfolding waiting_jobs
waiting_jobs-AllKeys P topics [] h = tt
waiting_jobs-AllKeys P topics ((c, i) ∷ jobs) h =
    kept (is_empty i.handler_id && contains i.topic topics) (waiting_jobs-AllKeys P topics jobs h.1)
  where
    kept :
        (b : Bool)
        → AllKeys bytes_discrete P (waiting_jobs topics jobs)
        → AllKeys bytes_discrete P
            (if b then (c, i) ∷ waiting_jobs topics jobs else waiting_jobs topics jobs)
    kept true k = (h.0, k)
    kept false k = k

retry_all-Matched :
    (now : ℕ) (jobs : List (Bytes × JobTrackingInfo)) (e : Engine)
    → Matched e
    → AllKeys bytes_discrete (λ c. tracked c e ≡ true) jobs
    → Matched (retry_all now jobs e)
unfolding retry_all
retry_all-Matched now [] e m h = m
retry_all-Matched now ((c, i) ∷ jobs) e m h =
    let (m', keep) = retry_waiting-Matched now c i e m h.0 in
    retry_all-Matched now jobs (retry_waiting now c i e) m'
      (AllKeys-imp _ _ jobs (λ d p. keep d p) h.1)

process_recovery-Matched :
    (now : ℕ) (ev : RecoveryEvent) (e : Engine) → Matched e → Matched (process_recovery now ev e)
unfolding process_recovery
process_recovery-Matched now ev e m =
    retry_all-Matched now (waiting_jobs ev.recovered_topics e.job_tracking) e m
      (waiting_jobs-AllKeys _ ev.recovered_topics e.job_tracking (AllKeys-present e.job_tracking))

process_recoveries-Matched :
    (now : ℕ) (codec : Codec) (second : ℕ) (evs : List RecoveryEvent) (e : Engine)
    → Matched e
    → Matched (process_recoveries codec second now evs e)
unfolding process_recoveries
process_recoveries-Matched now codec second [] e m = m
process_recoveries-Matched now codec second (ev ∷ evs) e m =
    process_recoveries-Matched now codec second evs (process_recovery now ev e)
      (process_recovery-Matched now ev e m)

process_timeouts-Matched :
    (now : ℕ) (codec : Codec) (second : ℕ) (evs : List JobTimeoutEvent) (e : Engine)
    → Matched e
    → Matched (process_timeouts codec second now evs e)
unfolding process_timeouts
process_timeouts-Matched now codec second [] e m = m
process_timeouts-Matched now codec second (ev ∷ evs) e m =
    process_timeouts-Matched now codec second evs (process_timeout codec now ev e)
      (process_timeout-Matched codec now ev e m)

by_type-Matched :
    (codec : Codec) (second : ℕ) (type : MessageType) (now : ℕ)
    (identity topic_frame message_frame : Bytes) (msg : Message) (e : Engine)
    → Matched e
    → Matched (by_type codec second type now identity topic_frame message_frame msg e)
by_type-Matched codec second MessageType.request now identity tf mf msg e m =
    handle_request-Matched codec second now identity tf mf msg e m
by_type-Matched codec second MessageType.response now identity tf mf msg e m =
    handle_response-Matched tf mf msg e m
by_type-Matched codec second MessageType.command now identity tf mf msg e m = m
by_type-Matched codec second MessageType.event now identity tf mf msg e m = m
by_type-Matched codec second MessageType.heartbeat now identity tf mf msg e m = m
by_type-Matched codec second MessageType.register now identity tf mf msg e m = m
by_type-Matched codec second MessageType.ack now identity tf mf msg e m = m

on_message-Matched :
    (codec : Codec) (second now : ℕ) (identity topic_frame message_frame : Bytes)
    (msg : Option Message) (e : Engine)
    → Matched e
    → Matched (on_message codec second now identity topic_frame message_frame msg e)
on_message-Matched codec second now identity tf mf none e m = m
on_message-Matched codec second now identity tf mf (some msg) e m =
    by_type-Matched codec second msg.msg_type now identity tf mf msg e m

receive-Matched :
    (codec : Codec) (second now : ℕ) (frames : List Bytes) (e : Engine)
    → Matched e
    → Matched (receive codec second now frames e)
unfolding receive
receive-Matched codec second now (a ∷ b ∷ c ∷ d ∷ more) e m =
    on_message-Matched codec second now a c d (codec.deserialize d) e m
receive-Matched codec second now [] e m = m
receive-Matched codec second now (a ∷ []) e m = m
receive-Matched codec second now (a ∷ b ∷ []) e m = m
receive-Matched codec second now (a ∷ b ∷ c ∷ []) e m = m

-- Whatever frames the job router receives and whatever timeout and recovery events wait for it,
-- one round of it leaves the job tables in step if they were: after it, a job is tracked exactly
-- if a requester is still waiting for its reply.
pub router_round-Matched :
    (codec : Codec) (second now : ℕ) (frames : List Bytes) (e : Engine)
    → Matched e
    → Matched (router_round codec second now frames e)
unfolding router_round
router_round-Matched codec second now frames e m =
    let e₁ = receive codec second now frames e in
    let e₂ =
      process_timeouts codec second now e₁.job_timeout_events
        (record e₁ { job_timeout_events = [] }) in
    process_recoveries-Matched now codec second e₂.recovery_events
      (record e₂ { recovery_events = [] })
      (process_timeouts-Matched now codec second e₁.job_timeout_events
        (record e₁ { job_timeout_events = [] }) (receive-Matched codec second now frames e m))
