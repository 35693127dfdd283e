-- ===== src/Flat/Returned.antt =====
-- flat_serializer.h: the sizes that are computed and written, and what is read back.
use tyche_engine.Common.{
  ℕ, zero, suc, ◌+◌, ◌/◌, ◌%◌, ◌^◌, ◌≤◌, ◌<◌, ◌≡◌, refl, sym, ap, ap₂, ◌∙◌, arith, Bool, true,
  false, Option, none, some, [], ◌∷◌, ◌++◌, length, length-append, ltb, if◌then◌else◌, Bytes,
}
use tyche_engine.Common.Slices.{take, take-append, drop-append}
use tyche_engine.Wire.{
  Any, empty, double, text, int, int64, uint64, float, bool, chars, table, names, items, unknown,
  Fields, end, field, WireMessage,
}
use tyche_engine.Flat.{
  FloatBits, Flat, header_size, type_code, low_bits, bytes_of, map_size, value_size, entries_size,
  payload_size, total, value_bytes, entries_bytes, payload_bytes, or_zero, serialize_flat, Unflat,
  read_text, read_payload, deserialize_flat, error_marker,
}

length-bytes_of : (n x : ℕ) → length (bytes_of n x) ≡ n
length-bytes_of zero x = refl
length-bytes_of (suc n) x = ap suc (length-bytes_of n (x / 256))

-- A double has 8 bytes, a float 4.
pub record Sized {D F : Type 0} (b : FloatBits D F) : Type 0 where
  pub doubles : (d : D) → length (b.double_bytes d) ≡ 8
  pub floats : (f : F) → length (b.float_bytes f) ≡ 4

module _ {D F : Type 0} (b : FloatBits D F) (v : Sized b) where
  length-value_bytes : (a : Any D F) → length (value_bytes b a) ≡ 1 + value_size a
  length-value_bytes empty = refl
  length-value_bytes (double d) = omega (arith, v.doubles d)
  length-value_bytes (text s) =
      omega (arith, length-append (bytes_of 4 (length s)) s, length-bytes_of 4 (length s))
  length-value_bytes (int i) = refl
  length-value_bytes (int64 i) = refl
  length-value_bytes (uint64 n) = refl
  length-value_bytes (float f) = omega (arith, v.floats f)
  length-value_bytes (bool true) = refl
  length-value_bytes (bool false) = refl
  length-value_bytes (chars s) = refl
  length-value_bytes (table fs) = refl
  length-value_bytes (names ss) = refl
  length-value_bytes (items vs) = refl
  length-value_bytes unknown = refl

  length-entries_bytes : (fs : Fields D F) → length (entries_bytes b fs) ≡ entries_size fs
  length-entries_bytes end = refl
  length-entries_bytes (field k a fs) = omega (
    arith,
    length-append (bytes_of 4 (length k)) (k ++ (value_bytes b a ++ entries_bytes b fs)),
    length-bytes_of 4 (length k),
    length-append k (value_bytes b a ++ entries_bytes b fs),
    length-append (value_bytes b a) (entries_bytes b fs),
    length-value_bytes a,
    length-entries_bytes fs,
  )

  length-payload_bytes : (fs : Fields D F) → length (payload_bytes b fs) ≡ payload_size fs
  length-payload_bytes end = refl
  length-payload_bytes (field k a fs) = omega (
    arith,
    length-append (bytes_of 4 (map_size (field k a fs))) (entries_bytes b (field k a fs)),
    length-bytes_of 4 (map_size (field k a fs)),
    length-entries_bytes (field k a fs),
  )

read_text-append :
    (s rest : Bytes) → length s < 2 ^ 16 → read_text (length s % 2 ^ 16) (s ++ rest) ≡ (s, rest)
read_text-append s rest h = ap (λ n. read_text n (s ++ rest)) {y = length s} (omega arith) ∙ whole s
  where
    whole : (t : Bytes) → read_text (length t) (t ++ rest) ≡ (t, rest)
    whole [] = refl
    whole (c ∷ t) =
        ground (arith, length-append t rest)
        ∙ ap₂ (λ x y. (x, y)) (take-append (c ∷ t) rest) (drop-append (c ∷ t) rest)

take-all : (s : Bytes) → take (length s) s ≡ s
take-all [] = refl
take-all (c ∷ s) = ap (λ t. c ∷ t) (take-all s)

-- The payload of a message, if it has one.
abbrev pub if_any : Bytes → Option Bytes
if_any [] = none
if_any (c ∷ s) = some (c ∷ s)

read_payload-all :
    (s : Bytes)
    → length s ≤ 65535
    → read_payload (if ltb 65535 (length s) then 65535 else length s) s ≡ if_any s
read_payload-all [] h = refl
read_payload-all (c ∷ s) h =
    ap (λ n. read_payload n (c ∷ s)) {y = length (c ∷ s)} (ground arith)
    ∙ ground arith
    ∙ ap some (take-all (c ∷ s))

module _ {D F : Type 0} (b : FloatBits D F) (v : Sized b) (m : WireMessage D F) where
  abbrev written : Flat D
  written = record {
    msg_type = type_code m.msg_type;
    durability = low_bits 8 m.durability;
    sender_len = length m.sender % 2 ^ 16;
    event_len = length m.event % 2 ^ 16;
    payload_len = if ltb 65535 (payload_size m.payload) then 65535 else payload_size m.payload;
    total_size = total m % 2 ^ 32;
    timestamp = or_zero b m.timestamp;
    rest = m.sender ++ (m.event ++ payload_bytes b m.payload);
  }

  size_of : header_size + length written.rest ≡ total m
  size_of = omega (
    arith,
    length-append m.sender (m.event ++ payload_bytes b m.payload),
    length-append m.event (payload_bytes b m.payload),
    length-payload_bytes b v m.payload,
  )

  serialize_flat-written :
      (capacity : ℕ)
      → total m ≤ capacity
      → serialize_flat b m capacity ≡ (header_size + length written.rest, some written)
  unfolding serialize_flat
  serialize_flat-written capacity h = fits ∙ ap (λ n. (n, some written)) (sym size_of)
    where
      fits : serialize_flat b m capacity ≡ (total m, some written)
      fits = ground arith

  -- What is read of the header, with a sender, an event and the raw payload.
  abbrev with_texts : Bytes → Bytes → Option Bytes → Unflat D
  with_texts sender event payload = record {
    msg_type = type_code m.msg_type;
    durability = low_bits 8 m.durability;
    timestamp = some (or_zero b m.timestamp);
    sender = sender;
    event = event;
    payload = payload;
  }

  abbrev after_event : Bytes → Bytes × Bytes → Unflat D
  after_event sender e = with_texts sender e.0 (read_payload written.payload_len e.1)

  abbrev after_sender : Bytes × Bytes → Unflat D
  after_sender s = after_event s.0 (read_text written.event_len s.1)

  read_written :
      length m.sender < 2 ^ 16
      → length m.event < 2 ^ 16
      → payload_size m.payload ≤ 65535
      → after_sender (read_text written.sender_len written.rest)
        ≡ with_texts m.sender m.event (if_any (payload_bytes b m.payload))
  read_written hs he hp =
      ap after_sender (read_text-append m.sender (m.event ++ payload_bytes b m.payload) hs)
      ∙ ap (after_event m.sender) (read_text-append m.event (payload_bytes b m.payload) he)
      ∙ ap (with_texts m.sender m.event) (
          ap (λ n. read_payload (if ltb 65535 n then 65535 else n) (payload_bytes b m.payload))
            (sym (length-payload_bytes b v m.payload))
          ∙ read_payload-all (payload_bytes b m.payload)
              (omega (arith, length-payload_bytes b v m.payload)))

  deserialize_flat-written :
      total m < 2 ^ 32
      → deserialize_flat (some written) ≡ after_sender (read_text written.sender_len written.rest)
  unfolding deserialize_flat
  deserialize_flat-written h =
      ap
        (λ (t : Bool).
          if t then error_marker else after_sender (read_text written.sender_len written.rest))
        {y = false} (ground (arith, size_of))

  -- If doubles have 8 bytes and floats 4, the sender and the event are shorter than 65536 bytes,
  -- the payload has at most 65535, and the whole fits the capacity: `serialize_flat` returns the
  -- number of bytes that it writes, which is at most the capacity, and `deserialize_flat` gives
  -- back the type, the durability, the sender, the event and the raw payload, and the timestamp or
  -- else zero.
  pub serialize_flat_lem :
      (capacity : ℕ)
      → length m.sender < 2 ^ 16
      → length m.event < 2 ^ 16
      → payload_size m.payload ≤ 65535
      → header_size + length m.sender + length m.event + payload_size m.payload ≤ capacity
      → (f : Flat D) × (serialize_flat b m capacity ≡ (header_size + length f.rest, some f))
        × (header_size + length f.rest ≤ capacity)
        × (deserialize_flat (some f) ≡ record {
          msg_type = type_code m.msg_type;
          durability = low_bits 8 m.durability;
          timestamp = some (or_zero b m.timestamp);
          sender = m.sender;
          event = m.event;
          payload = if_any (payload_bytes b m.payload);
        })
  serialize_flat_lem capacity hs he hp hc = (
    written,
    serialize_flat-written capacity hc,
    omega (arith, size_of),
    deserialize_flat-written (omega arith) ∙ read_written hs he hp,
  )
