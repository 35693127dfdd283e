-- ===== src/Engine/Jobs/Pending.antt =====
-- src/tyche/cpp/engine/engine.cpp: the two job tables, `_job_tracking` and `_pending_jobs`, over a request,
-- a response and a retry.
use tyche_engine.Common.{
  get_or, length, ℕ, ◌≡◌, refl, sym, ap, ◌∙◌, arith, Bool, true, false, Option, none, some, List,
  [], ◌∷◌, ite, if_pos, if_neg, Bytes, bytes_discrete, if◌then◌else◌,
}
use tyche_engine.Common.Assoc
use tyche_engine.Message.{Message, Codec}
use tyche_engine.Intern
use tyche_engine.Engine.{Engine, JobTrackingInfo}
use tyche_engine.Engine.Jobs.{
  hand_over, track, untrack, pend, unpend, handle_request, handle_response, or_no_name, job_of,
  route, round_robin, settle,
}

abbrev pub present : {V : Type 0} → Option V → Bool
present none = false
present (some v) = true

abbrev pub tracked : Bytes → Engine → Bool
tracked cid e = present (Assoc.lookup bytes_discrete cid e.job_tracking)

abbrev pub pending : Bytes → Engine → Bool
pending cid e = present (Assoc.lookup bytes_discrete cid e.pending_jobs)

-- A job is tracked exactly if its requester is waiting.
abbrev pub Matched : Engine → Type 0
Matched e = (cid : Bytes) → tracked cid e ≡ pending cid e

pub tracked-track :
    (c d : Bytes) (info : JobTrackingInfo) (e : Engine)
    → tracked d (track c info e) ≡ ite (bytes_discrete c d) true (tracked d e)
tracked-track c d info e =
    ground (arith, Assoc.lookup-assign bytes_discrete d c info e.job_tracking)

pub tracked-untrack :
    (c d : Bytes) (e : Engine)
    → tracked d (untrack c e) ≡ ite (bytes_discrete c d) false (tracked d e)
tracked-untrack c d e = ground (arith, Assoc.lookup-erase bytes_discrete d c e.job_tracking)

pub pending-pend :
    (c d identity : Bytes) (e : Engine)
    → pending d (pend c identity e) ≡ ite (bytes_discrete c d) true (pending d e)
pending-pend c d identity e =
    ground (arith, Assoc.lookup-assign bytes_discrete d c identity e.pending_jobs)

pub pending-unpend :
    (c d : Bytes) (e : Engine)
    → pending d (unpend c e) ≡ ite (bytes_discrete c d) false (pending d e)
pending-unpend c d e = ground (arith, Assoc.lookup-erase bytes_discrete d c e.pending_jobs)

-- A job that is tracked and pending anew.
Matched-both :
    (c identity : Bytes) (info : JobTrackingInfo) (e : Engine)
    → Matched e
    → Matched (track c info (pend c identity e))
Matched-both c identity info e m d =
    tracked-track c d info (pend c identity e)
    ∙ ap (ite (bytes_discrete c d) true) (m d)
    ∙ sym (pending-pend c d identity e)

route-Matched :
    (codec : Codec) (second now : ℕ) (identity topic_frame message_frame : Bytes) (msg : Message)
    (id : ℕ) (handlers available : List Bytes) (e : Engine)
    → Matched e
    → Matched
        (route codec second now identity topic_frame message_frame msg id handlers available e)
unfolding route
route-Matched codec second now identity topic_frame message_frame msg id [] [] e m = m
route-Matched codec second now identity topic_frame message_frame msg id (h ∷ hs) [] e m =
    Matched-both (or_no_name msg.correlation_id) identity
      (job_of codec second now identity topic_frame message_frame msg [] 0) e m
route-Matched codec second now identity topic_frame message_frame msg id hs (a ∷ more) e m =
    Matched-both (or_no_name msg.correlation_id) identity
      (job_of codec second now identity topic_frame message_frame msg
        (get_or (a ∷ more) (round_robin id (length (a ∷ more)) e) []) now)
      e m

pub handle_request-Matched :
    (codec : Codec) (second now : ℕ) (identity topic_frame message_frame : Bytes) (msg : Message)
    (e : Engine)
    → Matched e
    → Matched (handle_request codec second now identity topic_frame message_frame msg e)
unfolding handle_request
handle_request-Matched codec second now identity topic_frame message_frame msg e m =
    route-Matched codec second now identity topic_frame message_frame msg _ _ _
      (record e { interned = (Intern.intern msg.event e.interned).1 }) m

pub handle_response-Matched :
    (topic_frame message_frame : Bytes) (msg : Message) (e : Engine)
    → Matched e
    → Matched (handle_response topic_frame message_frame msg e)
unfolding handle_response
handle_response-Matched topic_frame message_frame msg e m d = ground (
  arith,
  m d,
  m (or_no_name msg.correlation_id),
  Assoc.lookup-erase bytes_discrete d (or_no_name msg.correlation_id) e.job_tracking,
  Assoc.lookup-erase bytes_discrete d (or_no_name msg.correlation_id) e.pending_jobs,
)

-- `hand_over` tracks the job if some handler is there, and leaves the waiting requesters alone.
pub hand_over-tracked :
    (now : ℕ) (c d : Bytes) (info : JobTrackingInfo) (id : ℕ) (available : List Bytes) (e : Engine)
    → let (done, info', e') = hand_over now c info id available e in
      (tracked d e' ≡ (if done then ite (bytes_discrete c d) true (tracked d e) else tracked d e))
      × (pending d e' ≡ pending d e)
unfolding hand_over
hand_over-tracked now c d info id [] e = (refl, refl)
hand_over-tracked now c d info id (a ∷ more) e = (tracked-track c d _ e, refl)

-- In both cases of a retry the job is tracked.
pub settle-tracked :
    (now : ℕ) (c d : Bytes) (back : JobTrackingInfo → JobTrackingInfo) (info : JobTrackingInfo)
    (id : ℕ) (available : List Bytes) (e : Engine)
    → let e' = settle c back (hand_over now c info id available e) in
      (tracked d e' ≡ ite (bytes_discrete c d) true (tracked d e)) × (pending d e' ≡ pending d e)
unfolding settle hand_over
settle-tracked now c d back info id [] e = (tracked-track c d (back info) e, refl)
settle-tracked now c d back info id (a ∷ more) e = (tracked-track c d _ e, refl)

-- A job that is tracked again, of a requester that waits.
pub back_again :
    (c : Bytes) (e e' : Engine)
    → ((d : Bytes) → ¬ (c ≡ d) → tracked d e ≡ pending d e)
    → pending c e ≡ true
    → ((d : Bytes)
        → (tracked d e' ≡ ite (bytes_discrete c d) true (tracked d e))
          × (pending d e' ≡ pending d e))
    → Matched e'
back_again c e e' rest waits same d = elim (bytes_discrete c d) [
  | yes p ↦
      (same d).0
      ∙ if_pos (bytes_discrete c d) p true (tracked d e)
      ∙ sym ((same d).1 ∙ ap (λ i. pending i e) (sym p) ∙ waits)
  | no n ↦ (same d).0 ∙ if_neg (bytes_discrete c d) n true (tracked d e) ∙ rest d n ∙ sym (same d).1
]
