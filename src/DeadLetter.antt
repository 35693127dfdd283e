-- ===== src/DeadLetter.antt =====
-- src/tyche/cpp/engine/dead_letter_store.cpp: dead letters as lines of JSON in a file for each day. How
-- doubles and floats are printed is the record `Printer`. `unknown` is none of the integer types here.
pub mod Files
pub mod Printable
pub mod Records
pub mod Lines
use tyche_engine.Common.{
  ℕ, zero, suc, ◌+◌, ◌-◌, ◌*◌, ◌/◌, ◌%◌, ◌≡◌, Bool, true, false, not, ◌&&◌, ◌||◌, Option, none,
  some, List, [], ◌∷◌, ◌++◌, length, ltb, leb, ◌==◌, ite, if◌then◌else◌, Bytes, bytes_discrete,
  codes,
}
use tyche_engine.Common.Assoc
use tyche_engine.Common.Words.{ℤ, pos, negsuc}
use tyche_engine.Types.{message_type_to_str}
use tyche_engine.Wire.{
  Any, empty, double, text, int, int64, uint64, float, bool, chars, table, names, items, unknown,
  Anys, no_more, next, Fields, end, field, WireMessage,
}

-- A digit of `%04x`
abbrev pub hex : ℕ → ℕ
hex d = if ltb d 10 then 48 + d else 87 + d

-- One character of `escape_json_string`: `"`, `\`, newline, return, tab, backspace, form feed, the other
-- control characters, and the rest.
unfoldable pub escape_char : ℕ → Bytes
escape_char c =
    if c == 34
    then 92 ∷ 34 ∷ []
    else (if c == 92
        then 92 ∷ 92 ∷ []
        else (if c == 10
            then 92 ∷ 110 ∷ []
            else (if c == 13
                then 92 ∷ 114 ∷ []
                else (if c == 9
                    then 92 ∷ 116 ∷ []
                    else (if c == 8
                        then 92 ∷ 98 ∷ []
                        else (if c == 12
                            then 92 ∷ 102 ∷ []
                            else (if ltb c 32
                                then 92 ∷ 117 ∷ 48 ∷ 48 ∷ hex (c / 16) ∷ hex (c % 16) ∷ []
                                else c ∷ [])))))))

unfoldable pub escape_json_string : Bytes → Bytes
escape_json_string [] = []
escape_json_string (c ∷ s) = escape_char c ++ escape_json_string s

-- `"` and the escaped text and `"`
abbrev pub quoted : Bytes → Bytes
quoted s = 34 ∷ (escape_json_string s ++ (34 ∷ []))

-- `std::to_string`, with `fuel` not below the number.
abbrev pub digits : ℕ → ℕ → Bytes
digits zero n = (48 + n % 10) ∷ []
digits (suc fuel) n =
    let high = digits fuel (n / 10) in
    if ltb n 10 then (48 + n) ∷ [] else high ++ ((48 + n % 10) ∷ [])

abbrev pub to_string : ℤ → Bytes
to_string (pos n) = digits n n
to_string (negsuc n) = 45 ∷ digits (suc n) (suc n)

-- `show_double` prints with 17 digits, `show_float` with 9; a number without `.` or `e` gets `.0` in a
-- payload.
pub record Printer (D F : Type 0) : Type 0 where
  pub finite : D → Bool
  pub finite_float : F → Bool
  pub show_double : D → Bytes
  pub show_float : F → Bytes
  pub show_float_17 : F → Bytes

abbrev pub contains_byte : ℕ → Bytes → Bool
contains_byte c [] = false
contains_byte c (x ∷ xs) = x == c || contains_byte c xs

abbrev pub with_point : Bytes → Bytes
with_point s = if not (contains_byte 46 s) && not (contains_byte 101 s) then s ++ codes ".0" else s

abbrev pub or_null : {A : Type 0} → (A → Bytes) → Option A → Bytes
or_null f none = codes "null"
or_null f (some a) = f a

-- `"key": value`, the entries with `, ` between them.
abbrev pub entry : Bytes → Bytes → Bytes
entry key value = 34 ∷ (key ++ (codes "\": " ++ value))

abbrev pub entries : List (Bytes × Bytes) → Bytes
entries [] = []
entries ((key, value) ∷ []) = entry key value
entries ((key, value) ∷ e ∷ es) = entry key value ++ (codes ", " ++ entries (e ∷ es))

abbrev pub object : List (Bytes × Bytes) → Bytes
object es = 123 ∷ (entries es ++ (125 ∷ []))

module _ {D F : Type 0} (p : Printer D F) where
  unfoldable mutual
    pub any_to_json : Any D F → Bytes
    any_to_json empty = codes "null"
    any_to_json (double d) = if p.finite d then with_point (p.show_double d) else codes "null"
    any_to_json (text s) = quoted s
    any_to_json (int i) = to_string i
    any_to_json (int64 i) = to_string i
    any_to_json (uint64 n) = digits n n
    any_to_json (float f) = if p.finite_float f then with_point (p.show_float f) else codes "null"
    any_to_json (bool b) = if b then codes "true" else codes "false"
    any_to_json (chars s) = quoted s
    any_to_json (table fs) = 123 ∷ (fields_to_json fs ++ (125 ∷ []))
    any_to_json (names ss) = codes "null"
    any_to_json (items vs) = 91 ∷ (anys_to_json vs ++ (93 ∷ []))
    any_to_json unknown = codes "null"

    -- The entries, with `, ` in front of all but the first.
    pub anys_to_json : Anys D F → Bytes
    anys_to_json no_more = []
    anys_to_json (next v vs) = any_to_json v ++ more_anys vs

    pub more_anys : Anys D F → Bytes
    more_anys no_more = []
    more_anys (next v vs) = codes ", " ++ (any_to_json v ++ more_anys vs)

    pub fields_to_json : Fields D F → Bytes
    fields_to_json end = []
    fields_to_json (field k v fs) = quoted k ++ (codes ": " ++ (any_to_json v ++ more_fields fs))

    pub more_fields : Fields D F → Bytes
    more_fields end = []
    more_fields (field k v fs) =
        codes ", " ++ (quoted k ++ (codes ": " ++ (any_to_json v ++ more_fields fs)))

  -- `{}` too, of no entries.
  abbrev pub payload_to_json : Fields D F → Bytes
  payload_to_json fs = 123 ∷ (fields_to_json fs ++ (125 ∷ []))

  abbrev pub message_entries : WireMessage D F → List (Bytes × Bytes)
  message_entries m =
      ((codes "msg_type", 34 ∷ (message_type_to_str m.msg_type ++ (34 ∷ [])))
        ∷ (codes "sender", quoted m.sender)
        ∷ (codes "event", quoted m.event)
        ∷ (codes "payload", payload_to_json m.payload)
        ∷ (codes "recipient", or_null quoted m.recipient)
        ∷ (codes "durability", to_string m.durability)
        ∷ (codes "timestamp", or_null p.show_double m.timestamp)
        ∷ (codes "correlation_id", or_null quoted m.correlation_id)
        ∷ (codes "wait_timeout", or_null p.show_float_17 m.wait_timeout)
        ∷ (codes "run_timeout", or_null p.show_float_17 m.run_timeout)
        ∷ [])

  unfoldable pub message_to_json : WireMessage D F → Bytes
  message_to_json m = object (message_entries m)

  abbrev pub record_entries : D → Bytes → Bytes → WireMessage D F → List (Bytes × Bytes)
  record_entries now topic reason m =
      (codes "timestamp", p.show_double now)
      ∷ (codes "topic", quoted topic)
      ∷ (codes "reason", quoted reason)
      ∷ (codes "message", message_to_json m)
      ∷ []

  -- The line that `persist` writes, without its newline.
  unfoldable pub record_of : D → Bytes → Bytes → WireMessage D F → Bytes
  record_of now topic reason m = object (record_entries now topic reason m)
