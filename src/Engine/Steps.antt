-- ===== src/Engine/Steps.antt =====
-- The steps of the workers of src/tyche/cpp/engine/engine.cpp, and any number of them in any order.
pub mod Tables
pub mod Reach
use tyche_engine.Common.{
  ℕ, ◌≡◌, refl, sym, ap, subst, ◌∙◌, arith, Bool, true, false, Option, none, some, List, [], ◌∷◌,
  Bytes, bytes_discrete, get_elem?, inl, inr, Option-cases,
}
use tyche_engine.Common.Assoc
use tyche_engine.Types.{InterfacePattern, Interface, ModuleInfo}
use tyche_engine.Message.{Message, Codec}
use tyche_engine.Frame.{QueueItem}
use tyche_engine.Intern
use tyche_engine.Heartbeat
use tyche_engine.ShardedMap
use tyche_engine.TopicQueue
use tyche_engine.TopicQueue.{Schedule}
use tyche_engine.Engine.{
  Engine, JobTrackingInfo, enroll, get_queue, register_interface, register_interfaces,
  register_module, orphan_jobs, unregister_module, or_nothing,
}
use tyche_engine.Engine.Jobs.Pending.{present, tracked, pending, Matched}
use tyche_engine.Engine.Timeouts.{scan_timeouts, router_round}
use tyche_engine.Engine.Timeouts.Rounds.{router_round-Matched}
use tyche_engine.Engine.Events.{
  put_at, wake, inject_event, queue_for, enqueue_from_xsub, deliver, egress_step, recover, bury,
  set_availability, flags_of, on_heartbeat, collect, is_active, is_stale, unregister_all,
  monitor_round,
}

-- One step of one worker, or of a client of the engine.
pub data Step (codec : Codec) (second : ℕ) : Engine → Engine → Type 0 where
  route :
      (now : ℕ) (frames : List Bytes) (e : Engine)
      → Step codec second e (router_round codec second now frames e)
  scan : (now : ℕ) (e : Engine) → Step codec second e (scan_timeouts now e)
  beat : (now : ℕ) (msg : Message) (e : Engine) → Step codec second e (on_heartbeat now msg e)
  monitor : (now : ℕ) (e : Engine) → Step codec second e (monitor_round now e)
  register :
      (now : ℕ) (info : ModuleInfo) (e : Engine) → Step codec second e (register_module now info e)
  unregister : (mid : Bytes) (e : Engine) → Step codec second e (unregister_module mid e)
  inject :
      (css : Schedule) (now later : ℕ) (topic message : Bytes) (e e' : Engine)
      → inject_event css now later topic message e ≡ some e'
      → Step codec second e e'
  ingress :
      (css : Schedule) (now later : ℕ) (frames : List Bytes) (e e' : Engine)
      → enqueue_from_xsub css now later frames e ≡ some e'
      → Step codec second e e'
  egress :
      (now later : ℕ) (topic : Bytes) (p : ℕ) (e : Engine)
      → Step codec second e (egress_step codec now later topic p e).1

pub data Steps (codec : Codec) (second : ℕ) : Engine → Engine → Type 0 where
  done : (e : Engine) → Steps codec second e e
  step_then :
      (e e' e'' : Engine)
      → Step codec second e e'
      → Steps codec second e' e''
      → Steps codec second e e''
