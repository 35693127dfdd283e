-- ===== src/Types.antt =====
-- src/tyche/cpp/types.h: the enumerations, their strings, and the module description.
pub mod Names
use tyche_engine.Common.{
  ℕ, ◌≡◌, Bool, true, false, Option, none, some, List, Bytes, bytes_discrete, codes, ite,
}

pub data InterfacePattern : Type 0 where
  on send handle request : InterfacePattern

pub data BackpressureStrategy : Type 0 where
  drop_oldest drop_newest block_producer : BackpressureStrategy

pub data DurabilityLevel : Type 0 where
  best_effort async_flush sync_flush : DurabilityLevel

pub data MessageType : Type 0 where
  command event heartbeat register ack response request : MessageType

-- One step of the ladder of `if (s == …) return …`.
abbrev pub named {ℓ} : {A : Type ℓ} → Bytes → Bytes → A → A → A
named s name a otherwise = ite (bytes_discrete s name) a otherwise

unfoldable pub message_type_to_str : MessageType → Bytes
message_type_to_str MessageType.command = codes "cmd"
message_type_to_str MessageType.event = codes "evt"
message_type_to_str MessageType.heartbeat = codes "hbt"
message_type_to_str MessageType.register = codes "reg"
message_type_to_str MessageType.ack = codes "ack"
message_type_to_str MessageType.response = codes "resp"
message_type_to_str MessageType.request = codes "req"

unfoldable pub message_type_from_str : Bytes → MessageType
message_type_from_str s = named s (codes "cmd") MessageType.command (
    named s (codes "evt") MessageType.event (
      named s (codes "hbt") MessageType.heartbeat (
        named s (codes "reg") MessageType.register (
          named s (codes "ack") MessageType.ack (
            named s (codes "resp") MessageType.response
              (named s (codes "req") MessageType.request MessageType.event))))))

unfoldable pub interface_pattern_to_str : InterfacePattern → Bytes
interface_pattern_to_str InterfacePattern.on = codes "on"
interface_pattern_to_str InterfacePattern.send = codes "send"
interface_pattern_to_str InterfacePattern.handle = codes "handle"
interface_pattern_to_str InterfacePattern.request = codes "request"

unfoldable pub interface_pattern_from_str : Bytes → InterfacePattern
interface_pattern_from_str s = named s (codes "on") InterfacePattern.on (
    named s (codes "send") InterfacePattern.send (
      named s (codes "handle") InterfacePattern.handle
        (named s (codes "request") InterfacePattern.request InterfacePattern.on)))

pub record Interface : Type 0 where
  pub name : Bytes
  pub pattern : InterfacePattern
  pub event_type : Bytes
  pub durability : DurabilityLevel
  pub backpressure : BackpressureStrategy
  pub max_queue_depth : ℕ

-- The metadata of a module is kept and never read.
pub record ModuleInfo : Type 0 where
  pub module_id : Bytes
  pub interfaces : List Interface
