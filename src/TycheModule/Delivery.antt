-- ===== src/TycheModule/Delivery.antt =====
-- src/tyche/cpp/module.cpp with message.cpp: what a module sends, and what reaches another module.
use tyche_engine.Common.{
  ◌≡◌, refl, sym, ap, subst, ◌∙◌, arith, true, Option, none, some, List, [], ◌∷◌, ◌++◌, length, ite,
  if_pos, Bytes, bytes_discrete,
}
use tyche_engine.Common.Words.{pos}
use tyche_engine.Wire.{Fields, Object, Msgpack, WireMessage, serialize}
use tyche_engine.Wire.Plain.{PlainFields, IsInt}
use tyche_engine.Wire.RoundTrip.{
  Returns, OnSome, DoubleReturns, FloatReturns, deserialize-serialize,
}
use tyche_engine.TycheModule.{TycheModule, send_event, receive_event, event_message, dispatch}
use tyche_engine.TycheModule.Requests.{
  returned, job_answer, job_frames, request_message, response_message, start_request,
  finish_request, receive_job, handle_job_request, handle_job_response,
}
use tyche_engine.TycheModule.Replies.{
  Tabled, response, reply_of, started, start_request-started, finish_request-started,
}

module _ {D F : Type 0} (mp : Msgpack D F) where
  -- A message without timestamp and timeouts, and with a durability that a program can name.
  pub returning :
      (m : WireMessage D F)
      → PlainFields mp m.payload
      → m.durability ≡ pos 1
      → m.timestamp ≡ none
      → m.wait_timeout ≡ none
      → m.run_timeout ≡ none
      → Returns mp m
  returning m p d t w r = record {
    plain = p;
    durable = subst IsInt (sym d) (omega arith);
    stamped = subst (OnSome mp (DoubleReturns mp)) (sym t) tt;
    waiting = subst (OnSome mp (FloatReturns mp)) (sym w) tt;
    running = subst (OnSome mp (FloatReturns mp)) (sym r) tt;
  }

module _ {D F H : Type 0} (mp : Msgpack D F)
    (back : (o : Object D) → mp.decode (mp.encode o) ≡ some o) where
  module _ (a b : TycheModule D F H) (event : Bytes) (payload : Fields D F)
      (plain : PlainFields mp payload) where
    -- If msgpack decodes what it encoded, and the payload of an event holds only values that come
    -- back (`PlainFields`): a connected module that runs publishes the event with its topic, and a
    -- module that receives it dispatches the same payload for this topic, unless it has the id of
    -- the sender.
    pub receive_event_lem :
        (recipient : Option Bytes)
        → a.pub_socket ≡ true
        → a.running ≡ true
        → (bs : Bytes) × ((send_event mp event payload recipient a).published
            ≡ a.published ++ ((event ∷ bs ∷ []) ∷ []))
          × (receive_event mp (event ∷ bs ∷ []) b
              ≡ ite (bytes_discrete a.module_id b.module_id) none (dispatch event payload b))
    unfolding send_event receive_event
    receive_event_lem recipient s r = (
      serialize mp (event_message mp event payload recipient a),
      rw (s, r) refl,
      rw
          (
            deserialize-serialize mp (event_message mp event payload recipient a) back
                (returning mp _ plain refl refl refl refl),
            receive_event,
          )
          refl,
    )

    request_received :
        (cid : Bytes)
        → receive_job mp (job_frames mp event (request_message mp event payload cid a)) b
          ≡ handle_job_request mp event payload (some cid) b
    unfolding receive_job
    request_received cid =
        rw
          (
            deserialize-serialize mp (request_message mp event payload cid a) back
                (returning mp _ plain refl refl refl refl),
            receive_job,
          )
          refl

    response_received :
        (cid : Bytes) (answer : Fields D F)
        → PlainFields mp answer
        → receive_job mp (job_frames mp event (response_message mp event answer (some cid) b)) a
          ≡ handle_job_response answer (some cid) a
    unfolding receive_job
    response_received cid answer p =
        rw
          (
            deserialize-serialize mp (response_message mp event answer (some cid) b) back
                (returning mp _ p refl refl refl refl),
            receive_job,
          )
          refl

  -- If msgpack decodes what it encoded, and the payloads of a request and of its answer hold only
  -- values that come back (`PlainFields`): a connected module sends one message for a request; a
  -- module that receives it sends one response; and when this response reaches the first module,
  -- its request ends with what the handler of the second made of the payload.
  pub request_event_lem :
      (a b : TycheModule D F H) (event : Bytes) (payload : Fields D F) (cid : Bytes)
      → Tabled a
      → PlainFields mp payload
      → PlainFields mp (job_answer event payload b)
      → a.job_socket ≡ true
      → a.running ≡ true
      → (a' : TycheModule D F H) × (request answer : List Bytes) × (start_request mp event payload
            cid a
          ≡ some (length a.requests, a'))
        × (a'.jobs_sent ≡ a.jobs_sent ++ (request ∷ []))
        × ((receive_job mp request b).jobs_sent ≡ b.jobs_sent ++ (answer ∷ []))
        × ((finish_request (length a.requests) cid (receive_job mp answer a')).0
            ≡ returned (job_answer event payload b))
  unfolding handle_job_request
  request_event_lem a b event payload cid v p q s r = (
    started mp a v event payload cid,
    job_frames mp event (request_message mp event payload cid a),
    job_frames mp event (response_message mp event (job_answer event payload b) (some cid) b),
    start_request-started mp a v event payload cid s r,
    refl,
    ap (λ (m : TycheModule D F H). m.jobs_sent) (request_received a b event payload p cid),
    ap (λ m. (finish_request (length a.requests) cid m).0)
          (response_received (started mp a v event payload cid) b event payload p cid
            (job_answer event payload b) q)
        ∙ finish_request-started mp a v event payload cid
            (response (job_answer event payload b) (some cid) ∷ [])
        ∙ ap reply_of
            (if_pos (bytes_discrete cid cid) refl (some (job_answer event payload b)) none),
  )
