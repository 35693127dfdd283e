-- ===== src/Engine/Steps/Reach.antt =====
-- src/tyche/cpp/engine/engine.cpp: the job tables after any steps of the workers.
use tyche_engine.Common.{ℕ, ◌≡◌, sym, ap, subst, ◌∙◌, Option, some, [], bytes_discrete}
use tyche_engine.Common.Assoc
use tyche_engine.Message.{Codec}
use tyche_engine.Engine.{Engine, register_module}
use tyche_engine.Engine.Jobs.Pending.{present, Matched}
use tyche_engine.Engine.Timeouts.{scan_timeouts}
use tyche_engine.Engine.Timeouts.Rounds.{router_round-Matched}
use tyche_engine.Engine.Events.{egress_step, on_heartbeat}
use tyche_engine.Engine.Steps.{
  Step, Steps, route, scan, beat, monitor, register, unregister, inject, ingress, egress, done,
  step_then,
}
use tyche_engine.Engine.Steps.Tables.{
  Kept, same-Matched, register_module-same, unregister_module-Matched, inject_event-Kept,
  enqueue_from_xsub-Kept, egress_step-same, on_heartbeat-same, monitor_round-Matched,
}

some-Matched : (e e' : Engine) (o : Option Engine) → Kept e o → o ≡ some e' → Matched e → Matched e'
some-Matched e e' o k p = same-Matched e e' (subst (Kept e) p k)

Step-Matched :
    (codec : Codec) (second : ℕ) (e e' : Engine) → Step codec second e e' → Matched e → Matched e'
unfolding scan_timeouts
Step-Matched codec second a b (route now frames e) m =
    router_round-Matched codec second now frames e m
Step-Matched codec second a b (scan now e) m = m
Step-Matched codec second a b (beat now msg e) m =
    same-Matched e (on_heartbeat now msg e) (on_heartbeat-same now msg e) m
Step-Matched codec second a b (monitor now e) m = monitor_round-Matched now e m
Step-Matched codec second a b (register now info e) m =
    same-Matched e (register_module now info e) (register_module-same now info e) m
Step-Matched codec second a b (unregister mid e) m = unregister_module-Matched mid e m
Step-Matched codec second a b (inject css now later topic message e e' p) m =
    some-Matched e e' _ (inject_event-Kept css now later topic message e) p m
Step-Matched codec second a b (ingress css now later frames e e' p) m =
    some-Matched e e' _ (enqueue_from_xsub-Kept css now later frames e) p m
Step-Matched codec second a b (egress now later topic p e) m =
    same-Matched e (egress_step codec now later topic p e).1
      (egress_step-same codec now later topic p e) m

Steps-Matched :
    (codec : Codec) (second : ℕ) (e e' : Engine) → Steps codec second e e' → Matched e → Matched e'
Steps-Matched codec second a b (done e) m = m
Steps-Matched codec second a b (step_then e e' e'' s r) m =
    Steps-Matched codec second e' e'' r (Step-Matched codec second e e' s m)

-- However the steps of the job router, of the timeout, heartbeat, monitor, ingress and egress
-- workers and of the clients follow one another, from an engine that has no job yet: a job is
-- tracked afterwards exactly if a requester is waiting for its reply.
pub reachable-Matched :
    (codec : Codec) (second : ℕ) (e e' : Engine)
    → e.job_tracking ≡ []
    → e.pending_jobs ≡ []
    → Steps codec second e e'
    → Matched e'
unfolding Assoc.lookup
reachable-Matched codec second e e' t p r = Steps-Matched codec second e e' r (λ d.
    ap (λ l. present (Assoc.lookup bytes_discrete d l)) t
    ∙ ap (λ l. present (Assoc.lookup bytes_discrete d l)) (sym p))
