-- ===== src/Wire/Unpack.antt =====
-- src/tyche/cpp/message.cpp: `unpack_object` and `deserialize`.
use tyche_engine.Common.{
  ℕ, ◌-◌, ◌%◌, ◌^◌, Bool, true, false, ◌&&◌, Option, none, some, List, [], ◌∷◌, ite, if◌then◌else◌,
  Bytes, bytes_discrete, codes,
}
use tyche_engine.Common.Words.{ℤ, to_int32}
use tyche_engine.Types.{message_type_from_str}
use tyche_engine.Wire.{
  Any, empty, double, text, int, bool, table, names, items, Anys, no_more, next, Fields, end, field,
  Object, nil, boolean, positive, negative, floating, str, map, array, extended, Objects, done,
  also, Pairs, no_pair, pair, Msgpack, WireMessage, blank_message,
}

-- `map[key] = value`
abbrev pub put : {D F : Type 0} → Bytes → Any D F → Fields D F → Fields D F
put k v end = field k v end
put k v (field j w rest) = ite (bytes_discrete j k) (field j v rest) (field j w (put k v rest))

-- `static_cast<int>` of the 64-bit number of an object
abbrev pub int_of_positive : ℕ → ℤ
int_of_positive n = to_int32 (n % 2 ^ 32)

abbrev pub int_of_negative : ℕ → ℤ
int_of_negative n = to_int32 (2 ^ 32 - 1 - n % 2 ^ 32)

-- The bytes of a key. The code reads a key that is no string as one, which is undefined.
abbrev pub key_of : {D : Type 0} → Object D → Bytes
key_of (str s) = s
key_of other = []

abbrev pub is_str : {D : Type 0} → Object D → Bool
is_str (str s) = true
is_str other = false

abbrev pub each_str : {D : Type 0} → Objects D → Bool
each_str done = true
each_str (also o os) = is_str o && each_str os

-- `all_str`
abbrev pub all_str : {D : Type 0} → Objects D → Bool
all_str done = false
all_str (also o os) = is_str o && each_str os

abbrev pub strings : {D : Type 0} → Objects D → List Bytes
strings done = []
strings (also o os) = key_of o ∷ strings os

unfoldable mutual
  pub unpack_object : {D F : Type 0} → Object D → Any D F
  unpack_object nil = empty
  unpack_object (boolean b) = bool b
  unpack_object (positive n) = int (int_of_positive n)
  unpack_object (negative n) = int (int_of_negative n)
  unpack_object (floating d) = double d
  unpack_object (str s) = text s
  unpack_object (map ps) = table (unpack_pairs ps end)
  unpack_object (array os) =
      let vs = unpack_objects os in if all_str os then names (strings os) else items vs
  unpack_object extended = empty

  pub unpack_objects : {D F : Type 0} → Objects D → Anys D F
  unpack_objects done = no_more
  unpack_objects (also o os) = next (unpack_object o) (unpack_objects os)

  -- The loop over a map, which assigns to `map[key]`.
  pub unpack_pairs : {D F : Type 0} → Pairs D → Fields D F → Fields D F
  unpack_pairs no_pair acc = acc
  unpack_pairs (pair k o ps) acc = unpack_pairs ps (put (key_of k) (unpack_object o) acc)

module _ {D F : Type 0} (mp : Msgpack D F) where
  -- The loop over the payload skips a key that is no string.
  unfoldable pub unpack_payload : Pairs D → Fields D F → Fields D F
  unpack_payload no_pair acc = acc
  unpack_payload (pair (str k) o ps) acc = unpack_payload ps (put k (unpack_object o) acc)
  unpack_payload (pair other o ps) acc = unpack_payload ps acc

  abbrev pub set_msg_type : Object D → WireMessage D F → WireMessage D F
  set_msg_type (str s) m = record m { msg_type = message_type_from_str s }
  set_msg_type other m = m

  abbrev pub set_sender : Object D → WireMessage D F → WireMessage D F
  set_sender (str s) m = record m { sender = s }
  set_sender other m = m

  abbrev pub set_event : Object D → WireMessage D F → WireMessage D F
  set_event (str s) m = record m { event = s }
  set_event other m = m

  abbrev pub set_payload : Object D → WireMessage D F → WireMessage D F
  set_payload (map ps) m = record m { payload = unpack_payload ps m.payload }
  set_payload other m = m

  abbrev pub set_recipient : Object D → WireMessage D F → WireMessage D F
  set_recipient (str s) m = record m { recipient = some s }
  set_recipient other m = m

  abbrev pub set_durability : Object D → WireMessage D F → WireMessage D F
  set_durability (positive n) m = record m { durability = int_of_positive n }
  set_durability (negative n) m = record m { durability = int_of_negative n }
  set_durability other m = m

  abbrev pub set_timestamp : Object D → WireMessage D F → WireMessage D F
  set_timestamp (floating d) m = record m { timestamp = some d }
  set_timestamp (positive n) m = record m { timestamp = some (mp.double_of n) }
  set_timestamp other m = m

  abbrev pub set_correlation_id : Object D → WireMessage D F → WireMessage D F
  set_correlation_id (str s) m = record m { correlation_id = some s }
  set_correlation_id other m = m

  abbrev pub set_wait_timeout : Object D → WireMessage D F → WireMessage D F
  set_wait_timeout (floating d) m = record m { wait_timeout = some (mp.to_float d) }
  set_wait_timeout (positive n) m = record m { wait_timeout = some (mp.float_of n) }
  set_wait_timeout other m = m

  abbrev pub set_run_timeout : Object D → WireMessage D F → WireMessage D F
  set_run_timeout (floating d) m = record m { run_timeout = some (mp.to_float d) }
  set_run_timeout (positive n) m = record m { run_timeout = some (mp.float_of n) }
  set_run_timeout other m = m

  -- The `switch` on the key: its first letter and then the whole of it.
  unfoldable pub set_entry : Bytes → Object D → WireMessage D F → WireMessage D F
  set_entry key o m = ite (bytes_discrete key (codes "msg_type")) (set_msg_type o m) (
      ite (bytes_discrete key (codes "sender")) (set_sender o m) (
        ite (bytes_discrete key (codes "event")) (set_event o m) (
          ite (bytes_discrete key (codes "payload")) (set_payload o m) (
            ite (bytes_discrete key (codes "recipient")) (set_recipient o m) (
              ite (bytes_discrete key (codes "run_timeout")) (set_run_timeout o m) (
                ite (bytes_discrete key (codes "durability")) (set_durability o m) (
                  ite (bytes_discrete key (codes "correlation_id")) (set_correlation_id o m) (
                    ite (bytes_discrete key (codes "timestamp")) (set_timestamp o m) (
                      ite (bytes_discrete key (codes "wait_timeout")) (set_wait_timeout o m)
                        m)))))))))

  unfoldable pub set_entries : Pairs D → WireMessage D F → WireMessage D F
  set_entries no_pair m = m
  set_entries (pair (str key) o ps) m = set_entries ps (set_entry key o m)
  set_entries (pair other o ps) m = set_entries ps m

  abbrev pub message_of : Object D → WireMessage D F
  message_of (map ps) = set_entries ps blank_message
  message_of other = blank_message

  abbrev pub decoded : Option (Object D) → Option (WireMessage D F)
  decoded none = none
  decoded (some o) = some (message_of o)

  -- `none`: msgpack throws.
  unfoldable pub deserialize : Bytes → Option (WireMessage D F)
  deserialize bs = decoded (mp.decode bs)
