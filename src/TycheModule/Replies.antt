-- ===== src/TycheModule/Replies.antt =====
-- src/tyche/cpp/module.cpp: a request of a module and the responses that come while it waits.
use tyche_engine.Common.{
  ℕ, ◌<◌, ◌≡◌, inl, inr, refl, sym, subst, ap, ◌∙◌, arith, true, Option, none, some, List, [], ◌∷◌,
  ◌++◌, length, length-append, length-set, get_or, get_or-set_self, get_or-set_ne, set, ite, if_pos,
  if_neg, if◌then◌else◌, Bytes, bytes_discrete, Option-cases,
}
use tyche_engine.Common.Assoc
use tyche_engine.Wire.{Fields, end, Msgpack}
use tyche_engine.TycheModule.{TycheModule, PendingRequest}
use tyche_engine.TycheModule.Requests.{
  Reply, returned, timed_out, unanswered, request_at, handle_job_response, finish_request, stop,
  wake_all, start_request, send_job, request_message,
}
use tyche_engine.TycheModule.Waiting.{
  Below, Only, Only-lookup, Only-assign, woken, wake_all-waiting,
}

-- What reaches a module while a request waits.
pub data Signal (D F : Type 0) : Type 0 where
  response : Fields D F → Option Bytes → Signal D F
  stopping : Signal D F

abbrev pub after_signals :
    {D F H : Type 0} → List (Signal D F) → TycheModule D F H → TycheModule D F H
after_signals [] m = m
after_signals (response payload cid ∷ more) m =
    after_signals more (handle_job_response payload cid m)
after_signals (stopping ∷ more) m = after_signals more (stop m)

abbrev or_end : {D F : Type 0} → Option (Fields D F) → Fields D F
or_end none = end
or_end (some p) = p

-- The last response with the id that comes before the module is stopped; a stop answers with what is
-- there.
abbrev pub reply_to :
    {D F : Type 0} → Bytes → List (Signal D F) → Option (Fields D F) → Option (Fields D F)
reply_to cid [] acc = acc
reply_to cid (response payload none ∷ more) acc = reply_to cid more acc
reply_to cid (response payload (some c) ∷ more) acc =
    reply_to cid more (ite (bytes_discrete c cid) (some payload) acc)
reply_to cid (stopping ∷ more) acc = some (or_end acc)

abbrev pub reply_of : {D F : Type 0} → Option (Fields D F) → Reply D F
reply_of none = timed_out
reply_of (some p) = returned p

abbrev request_of : {D F : Type 0} → Option (Fields D F) → PendingRequest D F
request_of none = unanswered
request_of (some p) = record { result = p; ready = true }

woken-request_of :
    {D F : Type 0} (acc : Option (Fields D F))
    → record (request_of acc) { ready = true } ≡ request_of (some (or_end acc))
woken-request_of none = refl
woken-request_of (some p) = refl

module _ {D F H : Type 0} where
  answer_eq :
      (payload : Fields D F) (c : Bytes) (m : TycheModule D F H) (j : ℕ)
      → Assoc.lookup bytes_discrete c m.pending_requests ≡ some j
      → handle_job_response payload (some c) m
        ≡ record m { requests = set m.requests j (record { result = payload; ready = true }) }
  unfolding handle_job_response
  answer_eq payload c m j e = rw (e, handle_job_response) refl

  answer_none :
      (payload : Fields D F) (c : Bytes) (m : TycheModule D F H)
      → Assoc.lookup bytes_discrete c m.pending_requests ≡ none
      → handle_job_response payload (some c) m ≡ m
  unfolding handle_job_response
  answer_none payload c m e = rw (e, handle_job_response) refl

  -- With nothing pending, signals change no request.
  still :
      (s : List (Signal D F)) (m : TycheModule D F H)
      → m.pending_requests ≡ []
      → (after_signals s m).requests ≡ m.requests
  unfolding handle_job_response stop Assoc.lookup
  still [] m e = refl
  still (response payload none ∷ more) m e = still more m e
  still (response payload (some c) ∷ more) m e =
      ap (λ t. (after_signals more t).requests)
        (answer_none payload c m (ap (Assoc.lookup bytes_discrete c) e))
      ∙ still more m e
  still (stopping ∷ more) m e = still more (stop m) refl ∙ ap (λ p. wake_all p m.requests) e

  record Waits (cid : Bytes) (i : ℕ) (acc : Option (Fields D F)) (m : TycheModule D F H)
      : Type 0 where
    only : Only cid i m.pending_requests
    there : Assoc.lookup bytes_discrete cid m.pending_requests ≡ some i
    inside : i < length m.requests
    holds : request_at m i ≡ request_of acc

  module _ (cid : Bytes) (i : ℕ) where
    Waits-answer :
        (payload : Fields D F) (c : Bytes) (acc : Option (Fields D F)) (m : TycheModule D F H)
        → Waits cid i acc m
        → Waits cid i
            (ite (bytes_discrete c cid) (some payload) acc)
            (handle_job_response payload (some c) m)
    Waits-answer payload c acc m w = elim (bytes_discrete c cid) [
      | yes p ↦
          subst (λ a. Waits cid i a (handle_job_response payload (some c) m))
            (sym (if_pos (bytes_discrete c cid) p _ _))
            (subst (Waits cid i (some payload))
              (sym (
                answer_eq payload c m i
                  (ap (λ k. Assoc.lookup bytes_discrete k m.pending_requests) p ∙ w.there)))
              (record {
                only = w.only;
                there = w.there;
                inside =
                    omega (arith, w.inside, length-set m.requests i (request_of (some payload)));
                holds = get_or-set_self m.requests i _ unanswered w.inside;
              }))
      | no n ↦
          subst (λ a. Waits cid i a (handle_job_response payload (some c) m))
            (sym (if_neg (bytes_discrete c cid) n _ _))
            (elim (Option-cases (Assoc.lookup bytes_discrete c m.pending_requests)) [
              | inl e ↦ subst (Waits cid i acc) (sym (answer_none payload c m e)) w
              | inr (j, e) ↦ subst (Waits cid i acc) (sym (answer_eq payload c m j e)) (record {
                only = w.only;
                there = w.there;
                inside =
                    omega (arith, w.inside, length-set m.requests j (request_of (some payload)));
                holds =
                    get_or-set_ne m.requests j i _ unanswered
                      (Only-lookup cid i c j m.pending_requests w.only n e)
                    ∙ w.holds;
              })
            ])
    ]

    Waits-signals :
        (s : List (Signal D F)) (acc : Option (Fields D F)) (m : TycheModule D F H)
        → Waits cid i acc m
        → request_at (after_signals s m) i ≡ request_of (reply_to cid s acc)
    unfolding handle_job_response stop
    Waits-signals [] acc m w = w.holds
    Waits-signals (response payload none ∷ more) acc m w = Waits-signals more acc m w
    Waits-signals (response payload (some c) ∷ more) acc m w =
        Waits-signals more _ _ (Waits-answer payload c acc m w)
    Waits-signals (stopping ∷ more) acc m w =
        ap (λ r. get_or r i unanswered) (still more (stop m) refl)
        ∙ wake_all-waiting cid i m.pending_requests m.requests w.only w.inside w.there
        ∙ ap (woken cid i) w.holds
        ∙ woken-request_of acc

-- The table of pending requests has each id once, and the requests are there.
pub record Tabled {D F H : Type 0} (m : TycheModule D F H) : Type 0 where
  pub nodup : Assoc.NodupKeys bytes_discrete m.pending_requests
  pub below : Below (length m.requests) m.pending_requests

module _ {D F H : Type 0} (mp : Msgpack D F) (m : TycheModule D F H) (v : Tabled m) where
  abbrev pub started : Bytes → Fields D F → Bytes → TycheModule D F H
  started event payload cid = send_job mp event (request_message mp event payload cid m) (record m {
    requests = m.requests ++ (unanswered ∷ []);
    pending_requests = Assoc.assign bytes_discrete cid (length m.requests) m.pending_requests;
  })

  started-Waits :
      (event : Bytes) (payload : Fields D F) (cid : Bytes)
      → Waits cid (length m.requests) none (started event payload cid)
  started-Waits event payload cid = record {
    only = Only-assign cid (length m.requests) m.pending_requests v.nodup v.below;
    there =
        Assoc.lookup-assign bytes_discrete cid cid (length m.requests) m.pending_requests
        ∙ if_pos (bytes_discrete cid cid) refl _ _;
    inside = omega (arith, length-append m.requests (unanswered {D = D} {F = F} ∷ []));
    holds = get_or-end m.requests;
  }
    where
      get_or-end :
          (rs : List (PendingRequest D F))
          → get_or (rs ++ (unanswered ∷ [])) (length rs) unanswered ≡ unanswered
      get_or-end [] = refl
      get_or-end (r ∷ rs) = get_or-end rs

  module _ (event : Bytes) (payload : Fields D F) (cid : Bytes) where
    pub start_request-started :
        m.job_socket ≡ true
        → m.running ≡ true
        → start_request mp event payload cid m ≡ some (length m.requests, started event payload cid)
    unfolding start_request
    start_request-started a b = rw (a, b) refl

    pub finish_request-started :
        (signals : List (Signal D F))
        → (finish_request
            (length m.requests)
            cid
            (after_signals signals (started event payload cid))).0
          ≡ reply_of (reply_to cid signals none)
    unfolding finish_request
    finish_request-started signals =
        ap (λ (r : PendingRequest D F). if r.ready then returned r.result else timed_out)
          (Waits-signals cid (length m.requests) signals none (started event payload cid)
            (started-Waits event payload cid))
        ∙ reply (reply_to cid signals none)
      where
        reply :
            (o : Option (Fields D F))
            → (if (request_of o).ready then returned (request_of o).result else timed_out)
              ≡ reply_of o
        reply none = refl
        reply (some p) = refl

  -- While a request waits on a connected module that runs, with a table of pending requests in
  -- order, whatever responses reach the module: it ends with the payload of the last response that
  -- has its correlation id, and with a timeout if there is none; if the module is stopped
  -- meanwhile, it ends with what was there, an empty payload if no response had come. Its
  -- correlation id is pending no more.
  pub finish_request_lem :
      (event : Bytes) (payload : Fields D F) (cid : Bytes) (signals : List (Signal D F))
      → m.job_socket ≡ true
      → m.running ≡ true
      → (m' : TycheModule D F H) × (start_request mp event payload cid m
          ≡ some (length m.requests, m'))
        × ((finish_request (length m.requests) cid (after_signals signals m')).0
            ≡ reply_of (reply_to cid signals none))
        × (Assoc.lookup bytes_discrete cid
              (finish_request (length m.requests) cid (after_signals signals m')).1.pending_requests
            ≡ none)
  unfolding finish_request
  finish_request_lem event payload cid signals a b = (
    started event payload cid,
    start_request-started event payload cid a b,
    finish_request-started event payload cid signals,
    Assoc.lookup-erase bytes_discrete cid cid _ ∙ if_pos (bytes_discrete cid cid) refl _ _,
  )
