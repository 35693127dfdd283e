-- ===== src/Flat.antt =====
-- src/tyche/cpp/flat_message.h and flat_serializer.h: messages as a header and bytes. Numbers stand with
-- their lowest byte first; the bytes of doubles and floats are the record `FloatBits`.
pub mod Returned
use tyche_engine.Common.{
  ℕ, zero, suc, ◌+◌, ◌-◌, ◌*◌, ◌/◌, ◌%◌, ◌^◌, ◌≡◌, Bool, true, false, ◌&&◌, Option, none, some,
  List, [], ◌∷◌, ◌++◌, length, ltb, leb, if◌then◌else◌, Bytes,
}
use tyche_engine.Common.Slices.{take, drop}
use tyche_engine.Common.Words.{ℤ, pos, negsuc}
use tyche_engine.Types.{MessageType}
use tyche_engine.Wire.{
  Any, empty, double, text, int, int64, uint64, float, bool, chars, table, names, items, unknown,
  Fields, end, field, WireMessage,
}

pub record FloatBits (D F : Type 0) : Type 0 where
  pub zero_double : D
  pub double_bytes : D → Bytes
  pub float_bytes : F → Bytes

-- `FlatMessageHeader`, and what stands behind it.
pub record Flat (D : Type 0) : Type 0 where
  pub msg_type : ℕ
  pub durability : ℕ
  pub sender_len : ℕ
  pub event_len : ℕ
  pub payload_len : ℕ
  pub total_size : ℕ
  pub timestamp : D
  pub rest : Bytes

abbrev pub header_size : ℕ
header_size = 24

-- The number of an enumerator
abbrev pub type_code : MessageType → ℕ
type_code MessageType.command = 0
type_code MessageType.event = 1
type_code MessageType.heartbeat = 2
type_code MessageType.register = 3
type_code MessageType.ack = 4
type_code MessageType.response = 5
type_code MessageType.request = 6

-- The `w` bits of an integer, two's complement
abbrev pub low_bits : ℕ → ℤ → ℕ
low_bits w (pos n) = n % 2 ^ w
low_bits w (negsuc n) = 2 ^ w - 1 - n % 2 ^ w

-- `memcpy` of a number of `n` bytes
abbrev pub bytes_of : ℕ → ℕ → Bytes
bytes_of zero x = []
bytes_of (suc n) x = x % 256 ∷ bytes_of n (x / 256)

abbrev pub map_size : {D F : Type 0} → Fields D F → ℕ
map_size end = 0
map_size (field k v fs) = suc (map_size fs)

module _ {D F : Type 0} where
  -- The size of a value without its type marker.
  abbrev pub value_size : Any D F → ℕ
  value_size (text s) = 4 + length s
  value_size (double d) = 8
  value_size (int i) = 4
  value_size (int64 i) = 8
  value_size (uint64 n) = 8
  value_size (float f) = 4
  value_size (bool b) = 1
  value_size other = 0

  abbrev pub entries_size : Fields D F → ℕ
  entries_size end = 0
  entries_size (field k v fs) = 4 + length k + 1 + value_size v + entries_size fs

  abbrev pub payload_size : Fields D F → ℕ
  payload_size end = 0
  payload_size (field k v fs) = 4 + entries_size (field k v fs)

  abbrev pub total : WireMessage D F → ℕ
  total m = header_size + length m.sender + length m.event + payload_size m.payload

module _ {D F : Type 0} (b : FloatBits D F) where
  abbrev pub value_bytes : Any D F → Bytes
  value_bytes (text s) = 1 ∷ (bytes_of 4 (length s) ++ s)
  value_bytes (double d) = 2 ∷ b.double_bytes d
  value_bytes (int i) = 3 ∷ bytes_of 4 (low_bits 32 i)
  value_bytes (int64 i) = 4 ∷ bytes_of 8 (low_bits 64 i)
  value_bytes (uint64 n) = 5 ∷ bytes_of 8 n
  value_bytes (float f) = 6 ∷ b.float_bytes f
  value_bytes (bool true) = 7 ∷ 1 ∷ []
  value_bytes (bool false) = 7 ∷ 0 ∷ []
  value_bytes other = 0 ∷ []

  abbrev pub entries_bytes : Fields D F → Bytes
  entries_bytes end = []
  entries_bytes (field k v fs) = bytes_of 4 (length k) ++ (k ++ (value_bytes v ++ entries_bytes fs))

  abbrev pub payload_bytes : Fields D F → Bytes
  payload_bytes end = []
  payload_bytes (field k v fs) =
      bytes_of 4 (map_size (field k v fs)) ++ entries_bytes (field k v fs)

  abbrev pub or_zero : Option D → D
  or_zero none = b.zero_double
  or_zero (some d) = d

  -- The number of bytes, and what is written; `buffer` is not null.
  unfoldable pub serialize_flat : WireMessage D F → ℕ → ℕ × Option (Flat D)
  serialize_flat m capacity =
      if ltb capacity header_size
      then (0, none)
      else (if ltb capacity (total m) then (0, none) else (
        total m,
        some (record {
          msg_type = type_code m.msg_type;
          durability = low_bits 8 m.durability;
          sender_len = length m.sender % 2 ^ 16;
          event_len = length m.event % 2 ^ 16;
          payload_len =
              if ltb 65535 (payload_size m.payload) then 65535 else payload_size m.payload;
          total_size = total m % 2 ^ 32;
          timestamp = or_zero m.timestamp;
          rest = m.sender ++ (m.event ++ payload_bytes m.payload);
        }),
      ))

-- What `deserialize_flat` sets of a message: the codes of the enumerations, and the raw bytes that it
-- enters into the payload under `__flat__`.
pub record Unflat (D : Type 0) : Type 0 where
  pub msg_type : ℕ
  pub durability : ℕ
  pub timestamp : Option D
  pub sender : Bytes
  pub event : Bytes
  pub payload : Option Bytes

-- A text of the length that the header says, if there is that much, and what stands behind it.
abbrev pub read_text : ℕ → Bytes → Bytes × Bytes
read_text len p = if ltb 0 len && leb len (length p) then (take len p, drop len p) else ([], p)

abbrev pub read_payload : ℕ → Bytes → Option Bytes
read_payload len p =
    if ltb 0 (length p) && ltb 0 len
    then some (take (if ltb (length p) len then length p else len) p)
    else none

module _ {D : Type 0} where
  abbrev pub error_marker : Unflat D
  error_marker = record {
    msg_type = 0;
    durability = 1;
    timestamp = none;
    sender = [];
    event = [];
    payload = none;
  }

  -- `none`: there is no data, or less than a header.
  unfoldable pub deserialize_flat : Option (Flat D) → Unflat D
  deserialize_flat none = error_marker
  deserialize_flat (some f) =
      if ltb (header_size + length f.rest) f.total_size
      then error_marker
      else (let (sender, p) = read_text f.sender_len f.rest in
          let (event, q) = read_text f.event_len p in
          record {
            msg_type = f.msg_type;
            durability = f.durability;
            timestamp = some f.timestamp;
            sender = sender;
            event = event;
            payload = read_payload f.payload_len q;
          })
