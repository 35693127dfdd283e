-- ===== src/Tests/Layouts.antt =====
-- A flat message with a small payload.
use tyche_engine.Common.{ℕ, ◌+◌, ◌≤◌, ◌≡◌, refl, arith, true, some, length, codes}
use tyche_engine.Wire.{WireMessage, blank_message, field, end, bool, double}
use tyche_engine.Flat.{
  FloatBits, Flat, header_size, bytes_of, serialize_flat, deserialize_flat, payload_bytes,
}
use tyche_engine.Flat.Returned.{Sized, serialize_flat_lem}

-- Whole numbers in place of doubles and floats.
abbrev whole_bits : FloatBits ℕ ℕ
whole_bits = record { zero_double = 0; double_bytes = bytes_of 8; float_bytes = bytes_of 4 }

whole_bits-Sized : Sized whole_bits
whole_bits-Sized = record { doubles = λ d. refl; floats = λ f. refl }

abbrev quote : WireMessage ℕ ℕ
quote = record blank_message {
  sender = codes "md";
  event = codes "tick";
  payload = field (codes "last") (double 4001) (field (codes "up") (bool true) end);
}

serialize_flat_lem_example :
    (f : Flat ℕ) × (serialize_flat whole_bits quote 128 ≡ (header_size + length f.rest, some f))
    × (header_size + length f.rest ≤ 128)
    × (deserialize_flat (some f) ≡ record {
      msg_type = 1;
      durability = 1;
      timestamp = some 0;
      sender = codes "md";
      event = codes "tick";
      payload = some (payload_bytes whole_bits quote.payload);
    })
serialize_flat_lem_example =
    serialize_flat_lem whole_bits whole_bits-Sized quote 128 (omega arith) (omega arith)
      (omega arith) (omega arith)
