-- ===== src/Engine/Bridge.antt =====
-- src/tyche/cpp/engine/shared_memory_bridge.cpp: what the worker does with a message of a queue in
-- shared memory. Each call of the engine has a `Call`: its time and how its queue behaves.
use tyche_engine.Common.{
  ℕ, suc, ◌+◌, ◌/◌, ◌%◌, ◌^◌, ◌<◌, ◌≡◌, ap, ap₂, ◌∙◌, arith, Option, none, some, List, [], ◌∷◌,
  ◌++◌, length, length-append, ltb, if◌then◌else◌, Bytes,
}
use tyche_engine.Common.Slices.{take, drop, take-append, drop-append}
use tyche_engine.SharedQueue.{parse_topic}
use tyche_engine.Engine.{Engine}
use tyche_engine.Engine.Events.{inject_event}
use tyche_engine.TopicQueue.{Schedule}

pub record Call : Type 0 where
  pub schedule : Schedule
  pub now : ℕ
  pub later : ℕ

abbrev pub inject : Call → Bytes → Bytes → Engine → Option Engine
inject c topic payload e = inject_event c.schedule c.now c.later topic payload e

-- `_forward_to_zmq`; the engine is set.
unfoldable pub forward : Call → Bytes → Bytes → Engine → Option Engine
forward c [] payload e = some e
forward c (t ∷ ts) payload e = inject c (t ∷ ts) payload e

-- The loop over the configured topics; `none`: a call does not return.
unfoldable pub forward_all : (ℕ → Call) → ℕ → List Bytes → Bytes → Engine → Option Engine
forward_all calls n [] payload e = some e
forward_all calls n (topic ∷ more) payload e = elim (forward (calls n) topic payload e) [
  | none ↦ none
  | some e' ↦ forward_all calls (suc n) more payload e'
]

-- A message of a module's queue; with no configured topics, one without a topic is only logged.
unfoldable pub on_module_message : (ℕ → Call) → List Bytes → Bytes → Engine → Option Engine
unfolding forward
on_module_message calls [] msg e = forward (calls 0) (parse_topic msg).0 (parse_topic msg).1 e
on_module_message calls (t ∷ ts) msg e = forward_all calls 0 (t ∷ ts) msg e

abbrev or_configured : Call → Bytes → Bytes → Bytes × Bytes → Engine → Option Engine
or_configured c zmq_topic msg ([], payload) e = forward c zmq_topic msg e
or_configured c zmq_topic msg (t ∷ ts, payload) e = forward c (t ∷ ts) payload e

-- A message of a raw queue, which has a configured topic.
unfoldable pub on_bridge_message : Call → Bytes → Bytes → Engine → Option Engine
on_bridge_message c zmq_topic msg e = or_configured c zmq_topic msg (parse_topic msg) e

-- A topic and a payload behind the length of the topic.
abbrev pub framed : Bytes → Bytes → Bytes
framed topic payload = length topic % 256 ∷ length topic / 256 ∷ (topic ++ payload)

parse_topic-framed : (topic payload : Bytes) → parse_topic (framed topic payload) ≡ (topic, payload)
unfolding parse_topic
parse_topic-framed topic payload =
    ap
      (λ n.
        if ltb (length (framed topic payload)) (2 + n)
        then ([], framed topic payload)
        else (take n (topic ++ payload), drop n (topic ++ payload)))
      {y = length topic} (omega arith)
    ∙ ground (arith, length-append topic payload)
    ∙ ap₂ (λ t p. (t, p)) (take-append topic payload) (drop-append topic payload)

-- A message in shared memory that consists of a topic of 1 to 65535 bytes, behind its length, and
-- a payload: the bridge injects the payload as an event of this topic into the engine, from a
-- module without configured topics as well as from a raw queue with a topic of its own. Where the
-- topic in the message is empty, the whole message of a raw queue becomes an event of the topic of
-- the queue, if that is not empty.
pub on_message_lem :
    (calls : ℕ → Call) (zmq_topic topic payload : Bytes) (e : Engine)
    → 0 < length topic
    → length topic < 2 ^ 16
    → (on_module_message calls [] (framed topic payload) e ≡ inject (calls 0) topic payload e)
      × (on_bridge_message (calls 0) zmq_topic (framed topic payload) e
          ≡ inject (calls 0) topic payload e)
      × ((z : ℕ) (zs : Bytes)
          → on_bridge_message (calls 0) (z ∷ zs) (framed [] payload) e
            ≡ inject (calls 0) (z ∷ zs) (framed [] payload) e)
unfolding on_module_message on_bridge_message forward
on_message_lem calls zmq_topic [] payload e h l = absurd (omega arith)
on_message_lem calls zmq_topic (t ∷ ts) payload e h l = (
  ap (λ (p : Bytes × Bytes). forward (calls 0) p.0 p.1 e) (parse_topic-framed (t ∷ ts) payload),
  ap (λ p. or_configured (calls 0) zmq_topic (framed (t ∷ ts) payload) p e)
      (parse_topic-framed (t ∷ ts) payload),
  λ z zs.
      ap (λ p. or_configured (calls 0) (z ∷ zs) (framed [] payload) p e)
        (parse_topic-framed [] payload),
)
