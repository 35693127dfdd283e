-- ===== src/Engine/Jobs/Dispatch.antt =====
-- src/tyche/cpp/engine/engine.cpp: which handler gets a request.
use native.Mathlib.Nat.{mod-lt}
use tyche_engine.Common.{
  ℕ, zero, suc, ◌<◌, ◌≡◌, refl, sym, ap, subst, ◌∙◌, arith, Bool, true, Option, none, some, List,
  [], ◌∷◌, ◌++◌, length, get_or, ite, if_pos, Bytes, bytes_discrete, ◌&&◌,
}
use tyche_engine.Common.Assoc
use tyche_engine.Common.Members.{contains}
use tyche_engine.Message.{Message, Payload, Codec}
use tyche_engine.Intern
use tyche_engine.Engine.{Engine, JobTrackingInfo, names_at, is_handler_available}
use tyche_engine.Engine.Jobs.{
  filter_available, available_for, round_robin, or_no_name, job_of, timeout_of, route,
  handle_request,
}

-- The available handlers are those of the list that are available.
contains-filter_available :
    (h topic : Bytes) (e : Engine) (hs : List Bytes)
    → contains h (filter_available topic e hs) ≡ (contains h hs && is_handler_available h topic e)
unfolding filter_available
contains-filter_available h topic e [] = refl
contains-filter_available h topic e (y ∷ hs) = elim (bytes_discrete y h) [
  | yes p ↦
      ground
        (arith, contains-filter_available h topic e hs, ap (λ z. is_handler_available z topic e) p)
  | no n ↦ ground (arith, contains-filter_available h topic e hs)
]

get_or-contains : (xs : List Bytes) (n : ℕ) → n < length xs → contains (get_or xs n []) xs ≡ true
get_or-contains [] n h = absurd (omega arith)
get_or-contains (x ∷ xs) zero h = if_pos (bytes_discrete x x) refl true _
get_or-contains (x ∷ xs) (suc n) h =
    later (get_or-contains xs n (omega arith)) (bytes_discrete x (get_or xs n []))
  where
    later :
        {y : Bytes} → contains y xs ≡ true → (d : Dec (x ≡ y)) → ite d true (contains y xs) ≡ true
    later k (yes p) = refl
    later k (no q) = k

round_robin-lt : (id n : ℕ) (e : Engine) → 0 < n → round_robin id n e < n
unfolding round_robin
round_robin-lt id n e h = mod-lt _ h

same_key :
    {V : Type 0} (c : Bytes) (v : V) (l : List (Bytes × V))
    → Assoc.lookup bytes_discrete c (Assoc.assign bytes_discrete c v l) ≡ some v
same_key c v l =
    Assoc.lookup-assign bytes_discrete c c v l ∙ if_pos (bytes_discrete c c) refl (some v) _

-- A timeout that the message gives is the job's.
abbrev pub Gives : Option ℕ → ℕ → Type 0
Gives none t' = Unit
Gives (some t) t' = t' ≡ t

Gives-timeout_of :
    (o : Option ℕ) (key : Bytes) (payload : Payload) (default : ℕ)
    → Gives o (timeout_of o key payload default)
Gives-timeout_of none key payload default = tt
Gives-timeout_of (some t) key payload default = refl

-- A job that was handed to `hid` at the time `now`.
pub record Records (now : ℕ) (identity topic_frame message_frame : Bytes) (msg : Message)
    (hid : Bytes) (info : JobTrackingInfo) : Type 0 where
  pub requester : info.requester_id ≡ identity
  pub handler : info.handler_id ≡ hid
  pub topic : info.topic ≡ msg.event
  pub dispatched : info.dispatch_time ≡ now
  pub waiting_since : info.wait_start_time ≡ now
  pub wait_time : Gives msg.wait_timeout info.wait_timeout
  pub run_time : Gives msg.run_timeout info.run_timeout
  pub first_frame : info.topic_frame ≡ topic_frame
  pub second_frame : info.message_frame ≡ message_frame

-- What is left of a request that is handed to `hid`.
abbrev pub Forwarded : ℕ → Bytes → Bytes → Bytes → Message → Bytes → Engine → Engine → Type 0
Forwarded now identity topic_frame message_frame msg hid e e' =
    (e'.sent ≡ e.sent ++ ((hid ∷ [] ∷ topic_frame ∷ message_frame ∷ []) ∷ []))
    × ((info : JobTrackingInfo) × (Assoc.lookup bytes_discrete (or_no_name msg.correlation_id)
            e'.job_tracking
          ≡ some info)
        × Records now identity topic_frame message_frame msg hid info)
    × (Assoc.lookup bytes_discrete (or_no_name msg.correlation_id) e'.pending_jobs ≡ some identity)

job_of-Records :
    (codec : Codec) (second now : ℕ) (identity topic_frame message_frame : Bytes) (msg : Message)
    (hid : Bytes)
    → Records now identity topic_frame message_frame msg hid
        (job_of codec second now identity topic_frame message_frame msg hid now)
unfolding job_of
job_of-Records codec second now identity tf mf msg hid = record {
  requester = refl;
  handler = refl;
  topic = refl;
  dispatched = refl;
  waiting_since = refl;
  wait_time = Gives-timeout_of msg.wait_timeout _ _ _;
  run_time = Gives-timeout_of msg.run_timeout _ _ _;
  first_frame = refl;
  second_frame = refl;
}

route-Forwarded :
    (codec : Codec) (second now : ℕ) (identity topic_frame message_frame : Bytes) (msg : Message)
    (id : ℕ) (hs : List Bytes) (a : Bytes) (more : List Bytes) (e : Engine)
    → Forwarded now identity topic_frame message_frame msg
        (get_or (a ∷ more) (round_robin id (length (a ∷ more)) e) [])
        e
        (route codec second now identity topic_frame message_frame msg id hs (a ∷ more) e)
unfolding route
route-Forwarded codec second now identity tf mf msg id hs a more e = (
  refl,
  (_, same_key _ _ e.job_tracking, job_of-Records codec second now identity tf mf msg _),
  same_key _ _ e.pending_jobs,
)

and-both : (b c : Bool) → (b && c) ≡ true → (b ≡ true) × (c ≡ true)
and-both b c h = ground arith

-- A request for which some handler is available is forwarded once, with its two frames, to a
-- handler that is registered for the topic and available; the job is tracked with its requester,
-- this handler, its topic and frames, the time of the call as the start of the wait and of the run,
-- and the timeouts that the message has itself; and its requester waits for the reply.
pub handle_request-forwards :
    (codec : Codec) (second now : ℕ) (identity topic_frame message_frame : Bytes) (msg : Message)
    (e : Engine) (a : Bytes) (more : List Bytes)
    → let (id, t) = Intern.intern msg.event e.interned in
      available_for msg.event id (record e { interned = t }) ≡ a ∷ more
      → let cid = or_no_name msg.correlation_id in
        let e' = handle_request codec second now identity topic_frame message_frame msg e in
        (hid : Bytes) × (contains hid
            (names_at (Intern.intern msg.event e.interned).0 e.job_handlers)
          ≡ true)
        × (is_handler_available hid msg.event e ≡ true)
        × Forwarded now identity topic_frame message_frame msg hid e e'
unfolding handle_request is_handler_available
handle_request-forwards codec second now identity tf mf msg e a more p =
    let (id, t) = Intern.intern msg.event e.interned in
    let e₁ = record e { interned = t } in
    let hid = get_or (a ∷ more) (round_robin id (length (a ∷ more)) e₁) [] in
    let here =
      get_or-contains (a ∷ more) (round_robin id (length (a ∷ more)) e₁)
        (round_robin-lt id (length (a ∷ more)) e₁ (omega arith)) in
    let (r, v) =
      and-both (contains hid (names_at id e.job_handlers)) (is_handler_available hid msg.event e) (
        sym (contains-filter_available hid msg.event e₁ (names_at id e.job_handlers))
        ∙ ap (contains hid) p
        ∙ here) in
    (
      hid,
      r,
      v,
      subst
          (λ l.
            Forwarded now identity tf mf msg hid e
              (route codec second now identity tf mf msg id (names_at id e.job_handlers) l e₁))
          (sym p)
          (route-Forwarded codec second now identity tf mf msg id (names_at id e.job_handlers) a
            more e₁),
    )
