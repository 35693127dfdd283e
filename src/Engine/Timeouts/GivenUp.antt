-- ===== src/Engine/Timeouts/GivenUp.antt =====
-- src/tyche/cpp/engine/engine.cpp: what becomes of a job that has waited too long.
use mathlib.Core.List.{append_assoc}
use tyche_engine.Common.{
  ℕ, ◌+◌, ◌<◌, ◌≡◌, refl, sym, ap, subst, ◌∙◌, Option, none, some, List, [], ◌∷◌, ◌++◌, if_pos,
  if_neg, Bytes, bytes_discrete, codes, lt→ltb,
}
use tyche_engine.Common.Assoc
use tyche_engine.Types.{MessageType}
use tyche_engine.Message.{Message, Codec, find, text}
use tyche_engine.Engine.{Engine, JobTrackingInfo, Reason, wait_timeout, JobTimeoutEvent}
use tyche_engine.Engine.Jobs.{untrack}
use tyche_engine.Engine.Timeouts.{
  timeout_error, give_up, letter, process_timeout, process_timeouts, due, due_events, event_of,
}
use tyche_engine.Engine.Timeouts.Spared.{
  Spared, nil_right, process_timeout-gone, process_timeout-Spared,
}

-- The message that tells a requester that its job waited too long.
pub record TellsOfWait (c topic : Bytes) (m : Message) : Type 0 where
  pub answers : m.msg_type ≡ MessageType.response
  pub on : m.event ≡ topic
  pub about : m.correlation_id ≡ some c
  pub reason : find (codes "error") m.payload ≡ some (text (codes "wait_timeout"))
  pub job : find (codes "correlation_id") m.payload ≡ some (text c)

timeout_error-TellsOfWait :
    (c topic : Bytes) → TellsOfWait c topic (timeout_error c topic wait_timeout)
unfolding timeout_error find bytes_discrete
timeout_error-TellsOfWait c topic = record {
  answers = refl;
  on = refl;
  about = refl;
  reason = refl;
  job = refl;
}

-- The dead letters that a job leaves.
abbrev pub left_by : JobTrackingInfo → Option Message → List (Message × Bytes × Bytes)
left_by info none = []
left_by info (some m) = (m, info.topic, codes "wait_timeout") ∷ []

-- The list has these items, one after the other.
abbrev pub Has : {A : Type 0} → List A → List A → Type 0
Has {A} part l = (before : List A) × (after : List A) × (l ≡ before ++ (part ++ after))

Has-append : {A : Type 0} (part l l' more : List A) → Has part l → l' ≡ l ++ more → Has part l'
Has-append part l l' more (before, after, p) q = (
  before,
  after ++ more,
  q
      ∙ ap (λ k. k ++ more) p
      ∙ append_assoc before (part ++ after) more
      ∙ ap (λ k. before ++ k) (append_assoc part after more),
)

-- What a job that is given up leaves: it is neither tracked nor pending, its requester has been
-- told, and its request lies among the dead letters if it can be decoded.
pub record GivenUp (codec : Codec) (c : Bytes) (info : JobTrackingInfo) (e : Engine) : Type 0 where
  pub untracked : Assoc.lookup bytes_discrete c e.job_tracking ≡ none
  pub unpended : Assoc.lookup bytes_discrete c e.pending_jobs ≡ none
  pub told :
      (m : Message) × TellsOfWait c info.topic m
      × Has ((info.requester_id ∷ [] ∷ info.topic_frame ∷ codec.serialize m ∷ []) ∷ []) e.sent
  pub buried : Has (left_by info (codec.deserialize info.message_frame)) e.dead_letters

Spared-GivenUp :
    (codec : Codec) (c : Bytes) (info : JobTrackingInfo) (e e' : Engine)
    → Spared c e e'
    → GivenUp codec c info e
    → GivenUp codec c info e'
Spared-GivenUp codec c info e e' s g =
    let (m, t, h) = g.told in
    let message = info.requester_id ∷ [] ∷ info.topic_frame ∷ codec.serialize m ∷ [] in
    let letters = left_by info (codec.deserialize info.message_frame) in
    record {
      untracked = s.tracks ∙ g.untracked;
      unpended = s.pends ∙ g.unpended;
      told = (m, t, Has-append (message ∷ []) e.sent e'.sent s.sends.0 h s.sends.1);
      buried = Has-append letters e.dead_letters e'.dead_letters s.buries.0 g.buried s.buries.1;
    }

gone :
    {V : Type 0} (c : Bytes) (l : List (Bytes × V))
    → Assoc.lookup bytes_discrete c (Assoc.erase bytes_discrete c l) ≡ none
gone c l = Assoc.lookup-erase bytes_discrete c c l ∙ if_pos (bytes_discrete c c) refl none _

-- A dead letter is all that is new.
letter_lem :
    (info : JobTrackingInfo) (o : Option Message) (e : Engine)
    → ((letter info.topic o e).job_tracking ≡ e.job_tracking)
      × ((letter info.topic o e).pending_jobs ≡ e.pending_jobs)
      × ((letter info.topic o e).sent ≡ e.sent)
      × ((letter info.topic o e).dead_letters ≡ e.dead_letters ++ (left_by info o ++ []))
letter_lem info none e = (refl, refl, refl, nil_right e.dead_letters)
letter_lem info (some m) e = (refl, refl, refl, refl)

give_up-GivenUp :
    (codec : Codec) (c : Bytes) (info : JobTrackingInfo) (e : Engine)
    → GivenUp codec c info (give_up codec c wait_timeout info (untrack c e))
unfolding give_up
give_up-GivenUp codec c info e =
    let (t, p, s, l) = letter_lem info (codec.deserialize info.message_frame) (untrack c e) in
    let m = timeout_error c info.topic wait_timeout in
    let message = info.requester_id ∷ [] ∷ info.topic_frame ∷ codec.serialize m ∷ [] in
    record {
      untracked = ap (Assoc.lookup bytes_discrete c) t ∙ gone c e.job_tracking;
      unpended =
          ap (λ k. Assoc.lookup bytes_discrete c (Assoc.erase bytes_discrete c k)) p
          ∙ gone c e.pending_jobs;
      told = (
        m,
        timeout_error-TellsOfWait c info.topic,
        (e.sent, [], ap (λ k. k ++ (message ∷ [])) s),
      );
      buried = (e.dead_letters, [], l);
    }

process_timeout-waited :
    (codec : Codec) (now : ℕ) (c : Bytes) (info : JobTrackingInfo) (e : Engine)
    → Assoc.lookup bytes_discrete c e.job_tracking ≡ some info
    → process_timeout codec now (record { correlation_id = c; reason = wait_timeout }) e
      ≡ give_up codec c wait_timeout info (untrack c e)
unfolding process_timeout
process_timeout-waited codec now c info e p = rw (p, process_timeout)

module _ (codec : Codec) (second later : ℕ) (c : Bytes) (info : JobTrackingInfo) where
  -- Further events change nothing of it.
  process_timeouts-GivenUp :
      (evs : List JobTimeoutEvent) (e : Engine)
      → GivenUp codec c info e
      → GivenUp codec c info (process_timeouts codec second later evs e)
  unfolding process_timeouts
  process_timeouts-GivenUp [] e g = g
  process_timeouts-GivenUp (ev ∷ evs) e g =
      process_timeouts-GivenUp evs (process_timeout codec later ev e)
        (elim (bytes_discrete ev.correlation_id c) [
          | yes p ↦
              subst (GivenUp codec c info)
                (sym (
                  process_timeout-gone codec later ev e
                    (ap (λ d. Assoc.lookup bytes_discrete d e.job_tracking) p ∙ g.untracked)))
                g
          | no n ↦
              Spared-GivenUp codec c info e (process_timeout codec later ev e)
                (process_timeout-Spared codec later c ev e n) g
        ])

  -- The event of another job, if there is one, comes first.
  event_of_other :
      (d : Bytes) (o : Option Reason) (evs : List JobTimeoutEvent)
      → ¬ (d ≡ c)
      → ((e : Engine)
          → Assoc.lookup bytes_discrete c e.job_tracking ≡ some info
          → GivenUp codec c info (process_timeouts codec second later evs e))
      → (e : Engine) → Assoc.lookup bytes_discrete c e.job_tracking ≡ some info
      → GivenUp codec c info (process_timeouts codec second later (event_of d o evs) e)
  unfolding process_timeouts
  event_of_other d none evs n after e p = after e p
  event_of_other d (some r) evs n after e p =
      let ev : JobTimeoutEvent = record { correlation_id = d; reason = r } in
      after (process_timeout codec later ev e)
        ((process_timeout-Spared codec later c ev e n).tracks ∙ p)

  -- Its own event gives it up.
  own_event :
      (d : Bytes) (o : Option Reason) (evs : List JobTimeoutEvent) (e : Engine)
      → d ≡ c
      → o ≡ some wait_timeout
      → Assoc.lookup bytes_discrete c e.job_tracking ≡ some info
      → GivenUp codec c info (process_timeouts codec second later (event_of d o evs) e)
  unfolding process_timeouts
  own_event d o evs e q w p =
      subst (λ x. GivenUp codec c info (process_timeouts codec second later (event_of x o evs) e))
        (sym q)
        (subst
          (λ x. GivenUp codec c info (process_timeouts codec second later (event_of c x evs) e))
          (sym w)
          (process_timeouts-GivenUp evs
            (process_timeout codec later (record { correlation_id = c; reason = wait_timeout }) e)
            (subst (GivenUp codec c info) (sym (process_timeout-waited codec later c info e p))
              (give_up-GivenUp codec c info e))))

  module _ (now : ℕ) (waits : due now info ≡ some wait_timeout) where
    due_events-GivenUp :
        (jobs : List (Bytes × JobTrackingInfo)) (e : Engine)
        → Assoc.lookup bytes_discrete c jobs ≡ some info
        → Assoc.lookup bytes_discrete c e.job_tracking ≡ some info
        → GivenUp codec c info (process_timeouts codec second later (due_events now jobs) e)
    unfolding due_events Assoc.lookup process_timeouts
    due_events-GivenUp [] e h p = cc
    due_events-GivenUp ((d, i) ∷ jobs) e h p = elim (bytes_discrete d c) [
      | yes q ↦
          own_event d (due now i) (due_events now jobs) e q
            (subst (λ k. due now k ≡ some wait_timeout)
              (cc (
                sym (if_pos (bytes_discrete d c) q (some i) (Assoc.lookup bytes_discrete c jobs))
                ∙ h))
              waits)
            p
      | no n ↦
          event_of_other d (due now i) (due_events now jobs) n
            (λ e' p'.
              due_events-GivenUp jobs e' (sym (if_neg (bytes_discrete d c) n (some i) _) ∙ h) p')
            e p
    ]

waited-due :
    (now : ℕ) (info : JobTrackingInfo)
    → info.handler_id ≡ []
    → info.wait_start_time + info.wait_timeout < now
    → due now info ≡ some wait_timeout
unfolding due
waited-due now info h l = rw (h) (rw (lt→ltb _ _ l) refl)

-- If a tracked job without a handler has waited for longer than its wait timeout when the timeout
-- worker looks at the jobs, then once the events that this round of the worker reports have been
-- processed, at any time and with any other jobs among them, the job is neither tracked nor
-- pending; its requester has been sent a response with the topic of the job, its correlation id and
-- the error "wait_timeout"; and its request is among the dead letters if it can be decoded.
pub expired-GivenUp :
    (codec : Codec) (second now later : ℕ) (c : Bytes) (info : JobTrackingInfo) (e : Engine)
    → Assoc.lookup bytes_discrete c e.job_tracking ≡ some info
    → info.handler_id ≡ []
    → info.wait_start_time + info.wait_timeout < now
    → GivenUp codec c info (process_timeouts codec second later (due_events now e.job_tracking) e)
expired-GivenUp codec second now later c info e p h l =
    due_events-GivenUp codec second later c info now (waited-due now info h l) e.job_tracking e p p
