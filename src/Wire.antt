-- ===== src/Wire.antt =====
-- src/tyche/cpp/message.cpp: messages as msgpack objects, and back. Floating-point numbers are
-- parameters: `D` is double, `F` float. msgpack is the record `Msgpack`.
pub mod Unpack
pub mod Plain
pub mod RoundTrip
use tyche_engine.Common.{
  ℕ, ◌+◌, ◌-◌, ◌%◌, ◌^◌, ◌≡◌, Bool, true, false, ◌&&◌, Option, none, some, List, [], ◌∷◌, length,
  ltb, ite, if◌then◌else◌, ◌==◌, Bytes, bytes_discrete, codes,
}
use tyche_engine.Common.Words.{ℤ, pos, negsuc, to_int32}
use tyche_engine.Types.{MessageType, message_type_to_str, message_type_from_str}

-- The alternatives of `std::any` that the code tells apart; `int` is 32 bits wide. `unknown` is any
-- other type, `empty` an empty `any`.
mutual
  pub data Any (D F : Type 0) : Type 0 where
    empty : Any D F
    double : D → Any D F
    text : Bytes → Any D F
    int : ℤ → Any D F
    int64 : ℤ → Any D F
    uint64 : ℕ → Any D F
    float : F → Any D F
    bool : Bool → Any D F
    chars : Bytes → Any D F
    table : Fields D F → Any D F
    names : List Bytes → Any D F
    items : Anys D F → Any D F
    unknown : Any D F

  pub data Anys (D F : Type 0) : Type 0 where
    no_more : Anys D F
    next : Any D F → Anys D F → Anys D F

  pub data Fields (D F : Type 0) : Type 0 where
    end : Fields D F
    field : Bytes → Any D F → Fields D F → Fields D F

-- A `msgpack::object`, by its type tag; `negative n` is the integer -(n + 1).
mutual
  pub data Object (D : Type 0) : Type 0 where
    nil : Object D
    boolean : Bool → Object D
    positive : ℕ → Object D
    negative : ℕ → Object D
    floating : D → Object D
    str : Bytes → Object D
    map : Pairs D → Object D
    array : Objects D → Object D
    extended : Object D

  pub data Objects (D : Type 0) : Type 0 where
    done : Objects D
    also : Object D → Objects D → Objects D

  pub data Pairs (D : Type 0) : Type 0 where
    no_pair : Pairs D
    pair : Object D → Object D → Pairs D → Pairs D

-- What is used of msgpack and of the conversions of numbers. The packer may pack a double with a whole
-- value as an integer: `pack_double` is the object that it makes.
pub record Msgpack (D F : Type 0) : Type 0 where
  pub pack_double : D → Object D
  pub encode : Object D → Bytes
  pub decode : Bytes → Option (Object D)
  pub to_double : F → D
  pub to_float : D → F
  pub double_of : ℕ → D
  pub float_of : ℕ → F

pub record WireMessage (D F : Type 0) : Type 0 where
  pub msg_type : MessageType
  pub sender : Bytes
  pub event : Bytes
  pub payload : Fields D F
  pub recipient : Option Bytes
  pub durability : ℤ
  pub timestamp : Option D
  pub correlation_id : Option Bytes
  pub wait_timeout : Option F
  pub run_timeout : Option F

-- `Message msg;`: `durability` is ASYNC_FLUSH.
abbrev pub blank_message : {D F : Type 0} → WireMessage D F
blank_message = record {
  msg_type = MessageType.event;
  sender = [];
  event = [];
  payload = end;
  recipient = none;
  durability = pos 1;
  timestamp = none;
  correlation_id = none;
  wait_timeout = none;
  run_timeout = none;
}

abbrev pub pack_integer : {D : Type 0} → ℤ → Object D
pack_integer (pos n) = positive n
pack_integer (negsuc n) = negative n

abbrev pub pack_names : {D : Type 0} → List Bytes → Objects D
pack_names [] = done
pack_names (s ∷ ss) = also (str s) (pack_names ss)

module _ {D F : Type 0} (mp : Msgpack D F) where
  unfoldable mutual
    pub pack_any : Any D F → Object D
    pack_any empty = nil
    pack_any (double d) = mp.pack_double d
    pack_any (text s) = str s
    pack_any (int i) = pack_integer i
    pack_any (int64 i) = pack_integer i
    pack_any (uint64 n) = positive n
    pack_any (float f) = mp.pack_double (mp.to_double f)
    pack_any (bool b) = boolean b
    pack_any (chars s) = str s
    pack_any (table fs) = map (pack_fields fs)
    pack_any (names ss) = array (pack_names ss)
    pack_any (items vs) = array (pack_anys vs)
    pack_any unknown = nil

    pub pack_anys : Anys D F → Objects D
    pack_anys no_more = done
    pack_anys (next v vs) = also (pack_any v) (pack_anys vs)

    pub pack_fields : Fields D F → Pairs D
    pack_fields end = no_pair
    pack_fields (field k v fs) = pair (str k) (pack_any v) (pack_fields fs)

module _ {D F : Type 0} (mp : Msgpack D F) where
  abbrev pub str_or_nil : Option Bytes → Object D
  str_or_nil none = nil
  str_or_nil (some s) = str s

  abbrev pub double_or_nil : Option D → Object D
  double_or_nil none = nil
  double_or_nil (some d) = mp.pack_double d

  abbrev pub float_or_nil : Option F → Object D
  float_or_nil none = nil
  float_or_nil (some f) = mp.pack_double (mp.to_double f)

  abbrev entry : Bytes → Object D → Pairs D → Pairs D
  entry key o ps = pair (str key) o ps

  -- The ten fields that each of the three serializers packs.
  unfoldable pub message_object : WireMessage D F → Object D
  message_object m = map (
      entry (codes "msg_type") (str (message_type_to_str m.msg_type)) (
        entry (codes "sender") (str m.sender) (
          entry (codes "event") (str m.event) (
            entry (codes "payload") (map (pack_fields mp m.payload)) (
              entry (codes "recipient") (str_or_nil m.recipient) (
                entry (codes "durability") (pack_integer m.durability) (
                  entry (codes "timestamp") (double_or_nil m.timestamp) (
                    entry (codes "correlation_id") (str_or_nil m.correlation_id) (
                      entry (codes "wait_timeout") (float_or_nil m.wait_timeout)
                        (entry (codes "run_timeout") (float_or_nil m.run_timeout) no_pair))))))))))

  unfoldable pub serialize : WireMessage D F → Bytes
  serialize m = mp.encode (message_object m)

  unfoldable pub serialize_tls : WireMessage D F → Bytes
  serialize_tls m = mp.encode (message_object m)

  -- The number of bytes, and the bytes that are copied to the buffer.
  unfoldable pub serialize_into : WireMessage D F → ℕ → ℕ × Bytes
  serialize_into m capacity =
      let bs = mp.encode (message_object m) in
      if capacity == 0
      then (0, [])
      else (if ltb capacity (length bs) then (0, []) else (length bs, bs))
