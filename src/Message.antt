-- ===== src/Message.antt =====
-- src/tyche/cpp/message.h: a message and the values of its payload. `serialize` and `deserialize` go
-- through msgpack: they are a parameter, `Codec`, of the code that uses them.
use tyche_engine.Common.{ℕ, Bool, Option, none, some, [], Bytes, bytes_discrete, ite}
use tyche_engine.Types.{MessageType, DurabilityLevel}

-- `std::any`: the alternatives that the engine looks for, and any other. An int and a double are
-- counted in the unit of time, since the engine reads them as timeouts only.
mutual
  pub data Value : Type 0 where
    text : Bytes → Value
    whole : ℕ → Value
    real : ℕ → Value
    flag : Bool → Value
    table : Payload → Value
    other : Value

  pub data Payload : Type 0 where
    end : Payload
    field : Bytes → Value → Payload → Payload

unfoldable pub find : Bytes → Payload → Option Value
find key end = none
find key (field k v rest) = ite (bytes_discrete k key) (some v) (find key rest)

pub record Message : Type 0 where
  pub msg_type : MessageType
  pub sender : Bytes
  pub event : Bytes
  pub payload : Payload
  pub recipient : Option Bytes
  pub durability : DurabilityLevel
  pub timestamp : Option ℕ
  pub correlation_id : Option Bytes
  pub wait_timeout : Option ℕ
  pub run_timeout : Option ℕ

abbrev pub no_message : Message
no_message = record {
  msg_type = MessageType.event;
  sender = [];
  event = [];
  payload = end;
  recipient = none;
  durability = DurabilityLevel.async_flush;
  timestamp = none;
  correlation_id = none;
  wait_timeout = none;
  run_timeout = none;
}

-- `none`: `deserialize` throws.
pub record Codec : Type 0 where
  pub serialize : Message → Bytes
  pub deserialize : Bytes → Option Message
