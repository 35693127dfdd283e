-- ===== src/Registration.antt =====
-- A module registers: src/tyche/cpp/module.cpp `_register_with_engine` and `_start_workers`, and
-- src/tyche/cpp/engine/engine.cpp `_registration_egress_worker`. Sockets and threads are left out: the
-- two functions get the bytes of the other side.
pub mod Client
pub mod Handshake
use tyche_engine.Common.{
  ℕ, suc, ◌≡◌, Bool, true, false, Option, none, some, List, [], ◌∷◌, ◌++◌, ite, if◌then◌else◌,
  Bytes, bytes_discrete, codes,
}
use tyche_engine.Common.Words.{ℤ, pos, negsuc}
use tyche_engine.Types.{
  MessageType, InterfacePattern, DurabilityLevel, Interface, interface_pattern_to_str,
  interface_pattern_from_str,
}
use tyche_engine.Wire.{
  Any, Fields, end, field, text, int, Object, Objects, Pairs, nil, positive, negative, str, map,
  array, done, also, no_pair, pair, Msgpack, WireMessage, blank_message, serialize,
}
use tyche_engine.Wire.Unpack.{int_of_positive, int_of_negative, deserialize}
use tyche_engine.TycheModule.{TycheModule, subscribe_to_interfaces}

abbrev pub durability_code : DurabilityLevel → ℕ
durability_code DurabilityLevel.best_effort = 0
durability_code DurabilityLevel.async_flush = 1
durability_code DurabilityLevel.sync_flush = 2

module _ {D : Type 0} where
  abbrev entry : Bytes → Object D → Pairs D → Pairs D
  entry key o ps = pair (str key) o ps

  abbrev pub interface_object : Interface → Object D
  interface_object i = map (
      entry (codes "name") (str i.name) (
        entry (codes "pattern") (str (interface_pattern_to_str i.pattern)) (
          entry (codes "event_type") (str i.event_type)
            (entry (codes "durability") (positive (durability_code i.durability)) no_pair))))

  abbrev pub interface_objects : List Interface → Objects D
  interface_objects [] = done
  interface_objects (i ∷ is) = also (interface_object i) (interface_objects is)

  -- What a module sends to register; it has no id yet.
  unfoldable pub registration_object : {F H : Type 0} → TycheModule D F H → Object D
  registration_object m = map (
      entry (codes "msg_type") (str (codes "reg")) (
        entry (codes "sender") (str m.family_name) (
          entry (codes "event") (str (codes "register")) (
            entry (codes "payload")
              (map (
                entry (codes "family_name") (str m.family_name) (
                  entry (codes "interfaces") (array (interface_objects m.interfaces))
                    (entry (codes "metadata") (map no_pair) no_pair))))
              (entry (codes "recipient") nil (
                entry (codes "durability") (positive (durability_code DurabilityLevel.async_flush))
                  (entry (codes "timestamp") nil (entry (codes "correlation_id") nil no_pair))))))))

-- `Interface iface;` with the four fields that the engine reads; `durability` is any number that was
-- sent.
pub record ParsedInterface : Type 0 where
  pub name : Bytes
  pub pattern : InterfacePattern
  pub event_type : Bytes
  pub durability : ℤ

abbrev pub blank_interface : ParsedInterface
blank_interface = record {
  name = [];
  pattern = InterfacePattern.on;
  event_type = [];
  durability = pos 1;
}

abbrev pub named_event : ParsedInterface → ParsedInterface
named_event p = elim p.event_type [ [] ↦ record p { event_type = p.name } | c ∷ cs ↦ p ]

module _ {D : Type 0} where
  abbrev set_name : Object D → ParsedInterface → ParsedInterface
  set_name (str s) p = record p { name = s }
  set_name other p = p

  abbrev set_pattern : Object D → ParsedInterface → ParsedInterface
  set_pattern (str s) p = record p { pattern = interface_pattern_from_str s }
  set_pattern other p = p

  abbrev set_event_type : Object D → ParsedInterface → ParsedInterface
  set_event_type (str s) p = record p { event_type = s }
  set_event_type other p = p

  abbrev set_durability : Object D → ParsedInterface → ParsedInterface
  set_durability (positive n) p = record p { durability = int_of_positive n }
  set_durability (negative n) p = record p { durability = int_of_negative n }
  set_durability other p = p

  abbrev set_entry : Bytes → Object D → ParsedInterface → ParsedInterface
  set_entry key o p = ite (bytes_discrete key (codes "name")) (set_name o p) (
      ite (bytes_discrete key (codes "pattern")) (set_pattern o p) (
        ite (bytes_discrete key (codes "event_type")) (set_event_type o p)
          (ite (bytes_discrete key (codes "durability")) (set_durability o p) p)))

  unfoldable pub parse_interface : Pairs D → ParsedInterface → ParsedInterface
  parse_interface no_pair p = p
  parse_interface (pair (str key) o ps) p = parse_interface ps (set_entry key o p)
  parse_interface (pair other o ps) p = parse_interface ps p

  -- The loop over the array skips what is no map.
  unfoldable pub parse_interfaces : Objects D → List ParsedInterface
  parse_interfaces done = []
  parse_interfaces (also (map ps) os) =
      named_event (parse_interface ps blank_interface) ∷ parse_interfaces os
  parse_interfaces (also other os) = parse_interfaces os

  abbrev of_interfaces : Bytes → Object D → List ParsedInterface
  of_interfaces key (array os) =
      ite (bytes_discrete key (codes "interfaces")) (parse_interfaces os) []
  of_interfaces key other = []

  unfoldable pub in_payload : Pairs D → List ParsedInterface
  in_payload no_pair = []
  in_payload (pair (str key) o ps) = of_interfaces key o ++ in_payload ps
  in_payload (pair other o ps) = in_payload ps

  abbrev of_payload : Bytes → Object D → List ParsedInterface
  of_payload key (map ps) = ite (bytes_discrete key (codes "payload")) (in_payload ps) []
  of_payload key other = []

  unfoldable pub in_message : Pairs D → List ParsedInterface
  in_message no_pair = []
  in_message (pair (str key) o ps) = of_payload key o ++ in_message ps
  in_message (pair other o ps) = in_message ps

  abbrev pub interfaces_of : Object D → List ParsedInterface
  interfaces_of (map ps) = in_message ps
  interfaces_of other = []

-- `payload.find(key)`
unfoldable pub find : {D F : Type 0} → Bytes → Fields D F → Option (Any D F)
find key end = none
find key (field k v rest) = ite (bytes_discrete k key) (some v) (find key rest)

-- The ports of the engine's endpoints.
pub record Ports : Type 0 where
  pub event : ℤ
  pub event_sub : ℤ
  pub job : ℤ
  pub heartbeat_recv : ℤ

-- The engine's answer to a registration: what it registers the module with.
pub record Registered : Type 0 where
  pub module_id : Bytes
  pub interfaces : List ParsedInterface
  pub ack : Bytes

module _ {D F : Type 0} (mp : Msgpack D F) where
  abbrev or_sender : Bytes → Bytes
  or_sender [] = codes "unknown"
  or_sender (c ∷ cs) = c ∷ cs

  -- `none`: `any_cast` throws.
  abbrev family_of : Bytes → Option (Any D F) → Option Bytes
  family_of sender none = some (or_sender sender)
  family_of sender (some (text s)) = some s
  family_of sender (some other) = none

  abbrev pub ack_message : Bytes → Ports → WireMessage D F
  ack_message module_id ports = record blank_message {
    msg_type = MessageType.ack;
    sender = codes "engine";
    event = codes "register_ack";
    payload = field (codes "status") (text (codes "ok")) (
        field (codes "module_id") (text module_id) (
          field (codes "event_pub_port") (int ports.event) (
            field (codes "event_sub_port") (int ports.event_sub) (
              field (codes "job_port") (int ports.job)
                (field (codes "heartbeat_recv_port") (int ports.heartbeat_recv) end)))));
  }

  abbrev answered : (Bytes → Bytes) → Ports → Object D → Option Bytes → Option Registered
  answered create ports o none = none
  answered create ports o (some family) = some (record {
    module_id = create family;
    interfaces = interfaces_of o;
    ack = serialize mp (ack_message (create family) ports);
  })

  abbrev on_register :
      MessageType → (Bytes → Bytes) → Ports → Object D → WireMessage D F → Option Registered
  on_register MessageType.register create ports o msg =
      answered create ports o (family_of msg.sender (find (codes "family_name") msg.payload))
  on_register other create ports o msg = none

  abbrev both :
      (Bytes → Bytes) → Ports → Option (Object D) → Option (WireMessage D F) → Option Registered
  both create ports (some o) (some msg) = on_register msg.msg_type create ports o msg
  both create ports (some o) none = none
  both create ports none m = none

  -- A round of the worker with the bytes of a request. `create` is `_create_module_id`, which is random;
  -- `none`: the request is dropped. The module is registered with `register_module` of Engine.
  unfoldable pub process_registration : (Bytes → Bytes) → Ports → Bytes → Option Registered
  process_registration create ports bs = both create ports (mp.decode bs) (deserialize mp bs)
