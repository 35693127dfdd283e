-- ===== src/Engine/Jobs/Reply.antt =====
-- src/tyche/cpp/engine/engine.cpp: responses to a job that has had its response.
use tyche_engine.Common.{
  ◌≡◌, refl, sym, subst, ◌∙◌, none, if_pos, Bytes, bytes_discrete, Option-cases, inl, inr,
}
use tyche_engine.Common.Assoc
use tyche_engine.Message.{Message}
use tyche_engine.Engine.{Engine}
use tyche_engine.Engine.Jobs.{handle_response, or_no_name}

no_requester :
    (topic_frame message_frame : Bytes) (msg : Message) (e : Engine)
    → Assoc.lookup bytes_discrete (or_no_name msg.correlation_id) e.pending_jobs ≡ none
    → handle_response topic_frame message_frame msg e ≡ e
unfolding handle_response
no_requester topic_frame message_frame msg e p = rw (p, handle_response) refl

answered :
    (topic_frame message_frame : Bytes) (msg : Message) (e : Engine)
    → Assoc.lookup bytes_discrete
        (or_no_name msg.correlation_id)
        (handle_response topic_frame message_frame msg e).pending_jobs
      ≡ none
unfolding handle_response
answered topic_frame message_frame msg e =
    elim (Option-cases
      (Assoc.lookup bytes_discrete (or_no_name msg.correlation_id) e.pending_jobs)) [
        | inl p ↦ rw (p, handle_response) p
        | inr (req, p) ↦
            rw (p, handle_response)
              (Assoc.lookup-erase bytes_discrete (or_no_name msg.correlation_id)
                  (or_no_name msg.correlation_id) e.pending_jobs
                ∙ if_pos
                    (bytes_discrete (or_no_name msg.correlation_id) (or_no_name msg.correlation_id))
                    refl none _)
      ]

-- After a response was handled, another response with the same correlation id changes nothing and
-- sends nothing.
pub handle_response-again :
    (topic_frame message_frame topic_frame' message_frame' : Bytes) (msg msg' : Message)
    (e : Engine)
    → msg'.correlation_id ≡ msg.correlation_id
    → handle_response topic_frame' message_frame' msg'
        (handle_response topic_frame message_frame msg e)
      ≡ handle_response topic_frame message_frame msg e
handle_response-again tf mf tf' mf' msg msg' e p =
    no_requester tf' mf' msg' (handle_response tf mf msg e) (
      subst
        (λ c.
          Assoc.lookup bytes_discrete (or_no_name c) (handle_response tf mf msg e).pending_jobs
          ≡ none)
        (sym p) (answered tf mf msg e))
