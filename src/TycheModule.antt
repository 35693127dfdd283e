-- ===== src/TycheModule.antt =====
-- src/tyche/cpp/module.h and module.cpp: a module, which is a client of the engine. `D` is double, `F`
-- float, `H` stands for the handlers of events. What a socket sends is collected in a list, oldest
-- first; a lock is held by one operation at a time.
pub mod Requests
pub mod Handlers
pub mod Waiting
pub mod Replies
pub mod Delivery
use tyche_engine.Common.{
  ℕ, ◌+◌, ◌≡◌, Bool, true, false, ◌&&◌, not, Option, none, some, List, [], ◌∷◌, ◌++◌, length, ite,
  leb, if◌then◌else◌, ◌==◌, Bytes, bytes_discrete, codes, ℕ_discrete,
}
use tyche_engine.Common.Assoc
use tyche_engine.Common.Words.{ℤ, pos}
use tyche_engine.Types.{
  MessageType, InterfacePattern, DurabilityLevel, BackpressureStrategy, Interface,
}
use tyche_engine.Intern
use tyche_engine.Intern.{StringIntern, intern, empty_intern, invalid_id}
use tyche_engine.Wire.{Fields, end, field, text, Msgpack, WireMessage, blank_message, serialize}
use tyche_engine.Wire.Unpack.{deserialize}

-- What a job handler does: it returns a payload, or throws a `std::exception` with a text, or
-- something else.
pub data Outcome (D F : Type 0) : Type 0 where
  result : Fields D F → Outcome D F
  exception : Bytes → Outcome D F
  unknown_exception : Outcome D F

pub record PendingRequest (D F : Type 0) : Type 0 where
  pub result : Fields D F
  pub ready : Bool

-- A handler of events may be an empty function, `none`. A pending request is shared by the table and
-- the call that waits for it: `requests` are these objects, `pending_requests` has their indices.
pub record TycheModule (D F H : Type 0) : Type 0 where
  pub family_name : Bytes
  pub module_id : Bytes
  pub heartbeat_endpoint : Bool
  pub engine_pub_port : ℤ
  pub engine_sub_port : ℤ
  pub engine_job_port : ℤ
  pub running : Bool
  pub registered : Bool
  pub names : StringIntern
  pub handlers : List (ℕ × (Option H × InterfacePattern))
  pub job_handlers : List (ℕ × (Fields D F → Outcome D F))
  pub interfaces : List Interface
  pub requests : List (PendingRequest D F)
  pub pending_requests : List (Bytes × ℕ)
  pub pub_socket : Bool
  pub job_socket : Bool
  pub subscriptions : List Bytes
  pub published : List (List Bytes)
  pub jobs_sent : List (List Bytes)

-- The accessor `module_id()`: before the engine has given an id, the name of the family.
unfoldable pub id_or_family : {D F H : Type 0} → TycheModule D F H → Bytes
id_or_family m = if length m.module_id == 0 then m.family_name else m.module_id

abbrev pub new : {D F H : Type 0} → Bytes → Bool → TycheModule D F H
new family_name heartbeat_endpoint = record {
  family_name = family_name;
  module_id = [];
  heartbeat_endpoint = heartbeat_endpoint;
  engine_pub_port = pos 0;
  engine_sub_port = pos 0;
  engine_job_port = pos 0;
  running = false;
  registered = false;
  names = empty_intern;
  handlers = [];
  job_handlers = [];
  interfaces = [];
  requests = [];
  pending_requests = [];
  pub_socket = false;
  job_socket = false;
  subscriptions = [];
  published = [];
  jobs_sent = [];
}

-- `name.rfind(prefix, 0) == 0`, and then the `substr` behind the prefix.
unfoldable pub after_prefix : Bytes → Bytes → Option Bytes
after_prefix [] s = some s
after_prefix (p ∷ ps) [] = none
after_prefix (p ∷ ps) (c ∷ cs) = let rest = after_prefix ps cs in if p == c then rest else none

abbrev pub or_whole : Option Bytes → Bytes → Bytes
or_whole none s = s
or_whole (some r) s = r

abbrev pub handler_event : Bytes → Bytes
handler_event name =
    or_whole (after_prefix (codes "on_") name) (or_whole (after_prefix (codes "handle_") name) name)

abbrev pub job_event : Bytes → Bytes
job_event name = or_whole (after_prefix (codes "handle_") name) name

abbrev pub producer_event : Bytes → Bytes
producer_event name =
    or_whole (after_prefix (codes "send_") name)
      (or_whole (after_prefix (codes "request_") name) name)

-- `lookup` of `_dispatch`
abbrev pub dispatch_event : Bytes → Bytes
dispatch_event topic = or_whole (after_prefix (codes "on_") topic) topic

-- `Interface iface;` with four fields assigned.
abbrev interface_of : Bytes → InterfacePattern → Bytes → DurabilityLevel → Interface
interface_of name pattern event_type durability = record {
  name = name;
  pattern = pattern;
  event_type = event_type;
  durability = durability;
  backpressure = BackpressureStrategy.drop_oldest;
  max_queue_depth = 10000;
}

abbrev topics : {A : Type 0} → List (ℕ × A) → StringIntern → List Bytes
topics [] t = []
topics ((id, h) ∷ more) t = Intern.resolve id t ∷ topics more t

module _ {D F H : Type 0} where
  unfoldable pub register_handler :
      Bytes → Option H → InterfacePattern → DurabilityLevel → TycheModule D F H → TycheModule D F H
  register_handler name handler pattern durability m =
      let bare = handler_event name in
      let (id, t) = intern bare m.names in
      record m {
        names = t;
        handlers = Assoc.assign ℕ_discrete id (handler, pattern) m.handlers;
        interfaces = m.interfaces ++ (interface_of name pattern bare durability ∷ []);
      }

  unfoldable pub register_job_handler :
      Bytes → (Fields D F → Outcome D F) → DurabilityLevel → TycheModule D F H → TycheModule D F H
  register_job_handler name handler durability m =
      let bare = job_event name in
      let (id, t) = intern bare m.names in
      record m {
        names = t;
        job_handlers = Assoc.assign ℕ_discrete id handler m.job_handlers;
        interfaces =
            m.interfaces ++ (interface_of name InterfacePattern.handle bare durability ∷ []);
      }

  unfoldable pub register_producer :
      Bytes → InterfacePattern → DurabilityLevel → TycheModule D F H → TycheModule D F H
  register_producer name pattern durability m = record m {
    interfaces = m.interfaces ++ (interface_of name pattern (producer_event name) durability ∷ []);
  }

  abbrev pub called : Fields D F → Option (Option H × InterfacePattern) → Option (H × Fields D F)
  called payload none = none
  called payload (some (none, pattern)) = none
  called payload (some (some h, pattern)) = some (h, payload)

  -- The handler that is called, and its argument; what it throws is swallowed.
  unfoldable pub dispatch : Bytes → Fields D F → TycheModule D F H → Option (H × Fields D F)
  dispatch topic payload m =
      let id = Intern.lookup (dispatch_event topic) m.names in
      if id == invalid_id then none else called payload (Assoc.lookup ℕ_discrete id m.handlers)

  unfoldable pub subscribe_to_interfaces : TycheModule D F H → TycheModule D F H
  subscribe_to_interfaces m = record m {
    subscriptions = m.subscriptions ++ topics m.handlers m.names;
  }

module _ {D F H : Type 0} (mp : Msgpack D F) where
  abbrev pub event_message : Bytes → Fields D F → Option Bytes → TycheModule D F H → WireMessage D F
  event_message event payload recipient m = record blank_message {
    msg_type = MessageType.event;
    sender = m.module_id;
    event = event;
    payload = payload;
    recipient = recipient;
  }

  abbrev publish : List Bytes → TycheModule D F H → TycheModule D F H
  publish frames m = record m { published = m.published ++ (frames ∷ []) }

  unfoldable pub send_event :
      Bytes → Fields D F → Option Bytes → TycheModule D F H → TycheModule D F H
  send_event event payload recipient m =
      if m.pub_socket && m.running
      then publish (event ∷ serialize mp (event_message event payload recipient m) ∷ []) m
      else m

  -- A `FlatQuoteTick` is its 72 bytes.
  unfoldable pub send_tick : Bytes → Bytes → TycheModule D F H → TycheModule D F H
  send_tick event tick m =
      if m.pub_socket && m.running then publish ((codes "__flat__:" ++ event) ∷ tick ∷ []) m else m

  -- `data` is not null.
  unfoldable pub send_event_flat : Bytes → Bytes → TycheModule D F H → TycheModule D F H
  send_event_flat event bs m =
      if m.pub_socket && m.running && not (length bs == 0)
      then publish ((codes "__flat__:" ++ event) ∷ bs ∷ []) m
      else m

  -- A round of `_event_receiver_loop` with the frames that came, none after a timeout.
  unfoldable pub receive_event : List Bytes → TycheModule D F H → Option (H × Fields D F)
  receive_event (topic ∷ bs ∷ more) m = elim (deserialize mp bs) [
    | none ↦ none
    | some msg ↦ ite (bytes_discrete msg.sender m.module_id) none (dispatch topic msg.payload m)
  ]
  receive_event frames m = none

  -- What `_heartbeat_loop` sends every second.
  unfoldable pub heartbeat : TycheModule D F H → Bytes
  heartbeat m = serialize mp (record blank_message {
    msg_type = MessageType.heartbeat;
    sender = m.module_id;
    event = codes "heartbeat";
    payload = field (codes "status") (text (codes "alive")) end;
  })
