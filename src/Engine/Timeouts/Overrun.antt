-- ===== src/Engine/Timeouts/Overrun.antt =====
-- src/tyche/cpp/engine/engine.cpp: the handler of a job that ran too long.
use tyche_engine.Common.{
  ℕ, ◌≡◌, refl, ap, ◌∙◌, true, false, some, List, [], ◌∷◌, if_pos, Bytes, bytes_discrete,
  if◌then◌else◌, Bool-cases, inl, inr,
}
use tyche_engine.Common.Assoc
use tyche_engine.Common.Members.{contains, add_once, contains-append}
use tyche_engine.Message.{Codec}
use tyche_engine.Intern
use tyche_engine.Engine.{
  Engine, JobTrackingInfo, run_timeout, or_nothing, is_handler_available, timed_out, switched_off,
}
use tyche_engine.Engine.Jobs.{retry_job, hand_over, settle, available_for, is_empty, untrack}
use tyche_engine.Engine.Timeouts.{mark_unavailable, overrun, process_timeout}

-- A retry leaves the record of the handlers that ran too long alone.
settle-unavailable :
    (now : ℕ) (c : Bytes) (back : JobTrackingInfo → JobTrackingInfo) (info : JobTrackingInfo)
    (id : ℕ) (available : List Bytes) (e : Engine)
    → (settle c back (hand_over now c info id available e)).unavailable_handlers
      ≡ e.unavailable_handlers
unfolding settle hand_over
settle-unavailable now c back info id [] e = refl
settle-unavailable now c back info id (a ∷ more) e = refl

overrun-unavailable :
    (now : ℕ) (c : Bytes) (info : JobTrackingInfo) (e : Engine)
    → (overrun now c info e).unavailable_handlers
      ≡ (mark_unavailable info.handler_id info.topic e).unavailable_handlers
unfolding overrun retry_job
overrun-unavailable now c info e =
    settle-unavailable now c _ info (Intern.intern info.topic e.interned).0
      (available_for info.topic (Intern.intern info.topic e.interned).0
        (record (mark_unavailable info.handler_id info.topic e) {
          interned = (Intern.intern info.topic e.interned).1;
        }))
      (record (mark_unavailable info.handler_id info.topic e) {
        interned = (Intern.intern info.topic e.interned).1;
      })

contains-add_once : (x : Bytes) (xs : List Bytes) → contains x (add_once x xs) ≡ true
contains-add_once x xs = elim (Bool-cases (contains x xs)) [
  | inl h ↦ rw (h) h
  | inr h ↦ rw (h) (contains-append x x xs ∙ rw (h) (if_pos (bytes_discrete x x) refl true false))
]

-- When the run timeout of a tracked job that has a handler is processed, this handler is not
-- available for the topic of the job afterwards.
pub process_timeout-overrun :
    (codec : Codec) (now : ℕ) (c : Bytes) (info : JobTrackingInfo) (e : Engine)
    → Assoc.lookup bytes_discrete c e.job_tracking ≡ some info
    → is_empty info.handler_id ≡ false
    → is_handler_available info.handler_id info.topic
        (process_timeout codec now (record { correlation_id = c; reason = run_timeout }) e)
      ≡ false
unfolding process_timeout is_handler_available
process_timeout-overrun codec now c info e p h =
    rw (p, process_timeout)
      (rw (h) (
        ap
          (λ l.
            if timed_out info.topic (Assoc.lookup bytes_discrete info.handler_id l)
            then false
            else (if switched_off info.topic (
                  Assoc.lookup bytes_discrete info.handler_id
                    (overrun now c info (untrack c e)).module_availability)
                then false
                else true))
          (overrun-unavailable now c info (untrack c e))
        ∙ ap
            (λ o.
              if timed_out info.topic o
              then false
              else (if switched_off info.topic (
                    Assoc.lookup bytes_discrete info.handler_id
                      (overrun now c info (untrack c e)).module_availability)
                  then false
                  else true))
            (Assoc.lookup-assign bytes_discrete info.handler_id info.handler_id topics
                e.unavailable_handlers
              ∙ if_pos (bytes_discrete info.handler_id info.handler_id) refl (some topics) _)
        ∙ rw
            (contains-add_once info.topic
              (or_nothing (Assoc.lookup bytes_discrete info.handler_id e.unavailable_handlers)))
            refl))
  where
    topics : List Bytes
    topics =
        add_once info.topic
          (or_nothing (Assoc.lookup bytes_discrete info.handler_id e.unavailable_handlers))
