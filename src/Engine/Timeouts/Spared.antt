-- ===== src/Engine/Timeouts/Spared.antt =====
-- src/tyche/cpp/engine/engine.cpp: what the timeout of one job leaves alone of another job.
use tyche_engine.Common.{
  ℕ, ◌≡◌, refl, sym, ap, subst, ◌∙◌, Bool, true, false, none, some, List, [], ◌∷◌, ◌++◌, get_or,
  length, if_neg, Bytes, bytes_discrete, Option-cases, inl, inr,
}
use tyche_engine.Common.Assoc
use tyche_engine.Message.{Message, Codec}
use tyche_engine.Intern
use tyche_engine.Engine.{
  Engine, JobTrackingInfo, Reason, run_timeout, wait_timeout, JobTimeoutEvent,
}
use tyche_engine.Engine.Jobs.{hand_over, settle, retry_job, untrack, is_empty, round_robin}
use tyche_engine.Engine.Timeouts.{give_up, overrun, mark_unavailable, by_reason, process_timeout}

-- What an event leaves alone of another job.
pub record Spared (c : Bytes) (e e' : Engine) : Type 0 where
  pub tracks :
      Assoc.lookup bytes_discrete c e'.job_tracking ≡ Assoc.lookup bytes_discrete c e.job_tracking
  pub pends :
      Assoc.lookup bytes_discrete c e'.pending_jobs ≡ Assoc.lookup bytes_discrete c e.pending_jobs
  pub sends : (more : List (List Bytes)) × (e'.sent ≡ e.sent ++ more)
  pub buries : (more : List (Message × Bytes × Bytes)) × (e'.dead_letters ≡ e.dead_letters ++ more)

pub nil_right {ℓ} : {A : Type ℓ} (xs : List A) → xs ≡ xs ++ []
nil_right [] = refl
nil_right (x ∷ xs) = ap (λ l. x ∷ l) (nil_right xs)

Spared-refl : (c : Bytes) (e : Engine) → Spared c e e
Spared-refl c e = record {
  tracks = refl;
  pends = refl;
  sends = ([], nil_right e.sent);
  buries = ([], nil_right e.dead_letters);
}

erased_other :
    {V : Type 0} (c d : Bytes) (l : List (Bytes × V))
    → ¬ (d ≡ c)
    → Assoc.lookup bytes_discrete c (Assoc.erase bytes_discrete d l)
      ≡ Assoc.lookup bytes_discrete c l
erased_other c d l n =
    Assoc.lookup-erase bytes_discrete c d l ∙ if_neg (bytes_discrete d c) n none _

tracked_again :
    (c d : Bytes) (info : JobTrackingInfo) (l : List (Bytes × JobTrackingInfo))
    → ¬ (d ≡ c)
    → Assoc.lookup bytes_discrete c
        (Assoc.assign bytes_discrete d info (Assoc.erase bytes_discrete d l))
      ≡ Assoc.lookup bytes_discrete c l
tracked_again c d info l n =
    Assoc.lookup-assign bytes_discrete c d info (Assoc.erase bytes_discrete d l)
    ∙ if_neg (bytes_discrete d c) n (some info) _
    ∙ erased_other c d l n

-- A job that is tried again, or put back.
settle-Spared :
    (now : ℕ) (c d : Bytes) (back : JobTrackingInfo → JobTrackingInfo) (info : JobTrackingInfo)
    (id : ℕ) (available : List Bytes) (e e' : Engine)
    → ¬ (d ≡ c)
    → e'.job_tracking ≡ Assoc.erase bytes_discrete d e.job_tracking
    → e'.pending_jobs ≡ e.pending_jobs
    → e'.sent ≡ e.sent
    → e'.dead_letters ≡ e.dead_letters
    → Spared c e (settle d back (hand_over now d info id available e'))
unfolding settle hand_over
settle-Spared now c d back info id [] e e' n t p s l = record {
  tracks =
      ap (λ k. Assoc.lookup bytes_discrete c (Assoc.assign bytes_discrete d (back info) k)) t
      ∙ tracked_again c d (back info) e.job_tracking n;
  pends = ap (Assoc.lookup bytes_discrete c) p;
  sends = ([], s ∙ nil_right e.sent);
  buries = ([], l ∙ nil_right e.dead_letters);
}
settle-Spared now c d back info id (a ∷ more) e e' n t p s l =
    let hid = get_or (a ∷ more) (round_robin id (length (a ∷ more)) e') [] in
    let info' = record info { handler_id = hid; dispatch_time = now } in
    record {
      tracks =
          ap (λ k. Assoc.lookup bytes_discrete c (Assoc.assign bytes_discrete d info' k)) t
          ∙ tracked_again c d info' e.job_tracking n;
      pends = ap (Assoc.lookup bytes_discrete c) p;
      sends = (
        (hid ∷ [] ∷ info.topic_frame ∷ info.message_frame ∷ []) ∷ [],
        ap (λ k. k ++ ((hid ∷ [] ∷ info.topic_frame ∷ info.message_frame ∷ []) ∷ [])) s,
      );
      buries = ([], l ∙ nil_right e.dead_letters);
    }

overrun-Spared :
    (now : ℕ) (c d : Bytes) (info : JobTrackingInfo) (e : Engine)
    → ¬ (d ≡ c)
    → Spared c e (overrun now d info (untrack d e))
unfolding overrun retry_job
overrun-Spared now c d info e n =
    settle-Spared now c d _ info _ _ e
      (record (mark_unavailable info.handler_id info.topic (untrack d e)) {
        interned = (Intern.intern info.topic e.interned).1;
      })
      n refl refl refl refl

module _ (codec : Codec) where
  give_up-Spared :
      (c d : Bytes) (reason : Reason) (info : JobTrackingInfo) (e : Engine)
      → ¬ (d ≡ c)
      → Spared c e (give_up codec d reason info (untrack d e))
  unfolding give_up
  give_up-Spared c d run_timeout info e n = record {
    tracks = erased_other c d e.job_tracking n;
    pends = erased_other c d e.pending_jobs n;
    sends = (_, refl);
    buries = ([], nil_right e.dead_letters);
  }
  give_up-Spared c d wait_timeout info e n =
      elim (Option-cases (codec.deserialize info.message_frame)) [
        | inl q ↦ rw q (record {
          tracks = erased_other c d e.job_tracking n;
          pends = erased_other c d e.pending_jobs n;
          sends = (_, refl);
          buries = ([], nil_right e.dead_letters);
        })
        | inr (m, q) ↦ rw q (record {
          tracks = erased_other c d e.job_tracking n;
          pends = erased_other c d e.pending_jobs n;
          sends = (_, refl);
          buries = (_, refl);
        })
      ]

  by_reason-Spared :
      (reason : Reason) (waits : Bool) (now : ℕ) (c d : Bytes) (info : JobTrackingInfo) (e : Engine)
      → ¬ (d ≡ c)
      → Spared c e (by_reason codec reason waits now d info (untrack d e))
  by_reason-Spared run_timeout false now c d info e n = overrun-Spared now c d info e n
  by_reason-Spared run_timeout true now c d info e n = give_up-Spared c d run_timeout info e n
  by_reason-Spared wait_timeout waits now c d info e n = give_up-Spared c d wait_timeout info e n

  pub process_timeout-gone :
      (now : ℕ) (ev : JobTimeoutEvent) (e : Engine)
      → Assoc.lookup bytes_discrete ev.correlation_id e.job_tracking ≡ none
      → process_timeout codec now ev e ≡ e
  unfolding process_timeout
  process_timeout-gone now ev e p = rw (p, process_timeout)

  -- The event of one job spares each other job.
  pub process_timeout-Spared :
      (now : ℕ) (c : Bytes) (ev : JobTimeoutEvent) (e : Engine)
      → ¬ (ev.correlation_id ≡ c)
      → Spared c e (process_timeout codec now ev e)
  unfolding process_timeout
  process_timeout-Spared now c ev e n =
      elim (Option-cases (Assoc.lookup bytes_discrete ev.correlation_id e.job_tracking)) [
        | inl p ↦ subst (Spared c e) (sym (process_timeout-gone now ev e p)) (Spared-refl c e)
        | inr (info, p) ↦
            rw (p, process_timeout)
              (by_reason-Spared ev.reason (is_empty info.handler_id) now c ev.correlation_id info e
                n)
      ]
