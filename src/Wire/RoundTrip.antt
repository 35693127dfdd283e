-- ===== src/Wire/RoundTrip.antt =====
-- message.cpp: a message that was serialized and deserialized.
use tyche_engine.Common.{
  ℕ, ◌≡◌, ◌⊎◌, inl, inr, refl, sym, ap, ◌∙◌, arith, Option, none, some, Bytes, bytes_discrete,
}
use tyche_engine.Common.Words.{ℤ, pos, negsuc, to_int32}
use tyche_engine.Types.{message_type_to_str, message_type_from_str}
use tyche_engine.Types.Names.{from_str-to_str}
use tyche_engine.Wire.{
  Fields, end, field, Object, positive, floating, Msgpack, WireMessage, blank_message, pack_integer,
  pack_fields, str_or_nil, double_or_nil, float_or_nil, message_object, serialize,
}
use tyche_engine.Wire.Unpack.{
  put, unpack_payload, set_recipient, set_durability, set_timestamp, set_correlation_id,
  set_wait_timeout, set_run_timeout, set_entry, set_entries, message_of, decoded, deserialize,
}
use tyche_engine.Wire.Plain.{
  IsInt, PlainFields, Apart, Apart-end, Apart-snoc, join, join-snoc, join-end, put-Absent,
  unpack_object-pack_any,
}

module _ {D F : Type 0} (mp : Msgpack D F) where
  -- The double is packed as itself, or as an unsigned integer that is converted back to it.
  abbrev pub DoubleReturns : D → Type 0
  DoubleReturns d =
      (mp.pack_double d ≡ floating d)
      ⊎ ((n : ℕ) × (mp.pack_double d ≡ positive n) × (mp.double_of n ≡ d))

  abbrev pub FloatReturns : F → Type 0
  FloatReturns f =
      ((mp.pack_double (mp.to_double f) ≡ floating (mp.to_double f))
        × (mp.to_float (mp.to_double f) ≡ f))
      ⊎ ((n : ℕ) × (mp.pack_double (mp.to_double f) ≡ positive n) × (mp.float_of n ≡ f))

  abbrev pub OnSome : {A : Type 0} → (A → Type 0) → Option A → Type 0
  OnSome P none = Unit
  OnSome P (some a) = P a

  -- A message whose numbers and payload come back.
  pub record Returns (m : WireMessage D F) : Type 0 where
    pub plain : PlainFields mp m.payload
    pub durable : IsInt m.durability
    pub stamped : OnSome DoubleReturns m.timestamp
    pub waiting : OnSome FloatReturns m.wait_timeout
    pub running : OnSome FloatReturns m.run_timeout

  unpack_payload-pack :
      (fs acc : Fields D F)
      → PlainFields mp fs
      → Apart acc fs
      → unpack_payload mp (pack_fields mp fs) acc ≡ join acc fs
  unfolding unpack_payload pack_fields PlainFields
  unpack_payload-pack end acc h a = sym (join-end acc)
  unpack_payload-pack (field k v fs) acc h a =
      ap (λ w. unpack_payload mp (pack_fields mp fs) (put k w acc))
        (unpack_object-pack_any mp v h.0)
      ∙ ap (unpack_payload mp (pack_fields mp fs)) (put-Absent k v acc a.0)
      ∙ unpack_payload-pack fs (join acc (field k v end)) h.2 (Apart-snoc acc k v fs a.1 h.1)
      ∙ join-snoc acc k v fs

  recipient_back :
      (o : Option Bytes) (m : WireMessage D F)
      → m.recipient ≡ none
      → set_recipient mp (str_or_nil mp o) m ≡ record m { recipient = o }
  recipient_back none m e = ap (λ r. record m { recipient = r }) e
  recipient_back (some s) m e = refl

  correlation_back :
      (o : Option Bytes) (m : WireMessage D F)
      → m.correlation_id ≡ none
      → set_correlation_id mp (str_or_nil mp o) m ≡ record m { correlation_id = o }
  correlation_back none m e = ap (λ r. record m { correlation_id = r }) e
  correlation_back (some s) m e = refl

  -- An `int` as a number of a msgpack object
  durability_back :
      (i : ℤ) (m : WireMessage D F)
      → IsInt i
      → set_durability mp (pack_integer i) m ≡ record m { durability = i }
  unfolding to_int32
  durability_back (pos n) m h = ap (λ i. record m { durability = i }) (ground arith)
  durability_back (negsuc n) m h = ap (λ i. record m { durability = i }) (ground arith)

  timestamp_back :
      (o : Option D) (m : WireMessage D F)
      → m.timestamp ≡ none
      → OnSome DoubleReturns o
      → set_timestamp mp (double_or_nil mp o) m ≡ record m { timestamp = o }
  timestamp_back none m e h = ap (λ r. record m { timestamp = r }) e
  timestamp_back (some d) m e (inl p) = ap (λ o. set_timestamp mp o m) p
  timestamp_back (some d) m e (inr (n, p, q)) =
      ap (λ o. set_timestamp mp o m) p ∙ ap (λ t. record m { timestamp = some t }) q

  wait_back :
      (o : Option F) (m : WireMessage D F)
      → m.wait_timeout ≡ none
      → OnSome FloatReturns o
      → set_wait_timeout mp (float_or_nil mp o) m ≡ record m { wait_timeout = o }
  wait_back none m e h = ap (λ r. record m { wait_timeout = r }) e
  wait_back (some f) m e (inl (p, q)) =
      ap (λ o. set_wait_timeout mp o m) p ∙ ap (λ t. record m { wait_timeout = some t }) q
  wait_back (some f) m e (inr (n, p, q)) =
      ap (λ o. set_wait_timeout mp o m) p ∙ ap (λ t. record m { wait_timeout = some t }) q

  run_back :
      (o : Option F) (m : WireMessage D F)
      → m.run_timeout ≡ none
      → OnSome FloatReturns o
      → set_run_timeout mp (float_or_nil mp o) m ≡ record m { run_timeout = o }
  run_back none m e h = ap (λ r. record m { run_timeout = r }) e
  run_back (some f) m e (inl (p, q)) =
      ap (λ o. set_run_timeout mp o m) p ∙ ap (λ t. record m { run_timeout = some t }) q
  run_back (some f) m e (inr (n, p, q)) =
      ap (λ o. set_run_timeout mp o m) p ∙ ap (λ t. record m { run_timeout = some t }) q

  module _ (m : WireMessage D F) where
    abbrev with_names : WireMessage D F
    with_names = record blank_message { msg_type = m.msg_type; sender = m.sender; event = m.event }

    abbrev with_payload : WireMessage D F
    with_payload = record with_names { payload = m.payload }

    abbrev with_recipient : WireMessage D F
    with_recipient = record with_payload { recipient = m.recipient }

    abbrev with_durability : WireMessage D F
    with_durability = record with_recipient { durability = m.durability }

    abbrev with_timestamp : WireMessage D F
    with_timestamp = record with_durability { timestamp = m.timestamp }

    abbrev with_correlation_id : WireMessage D F
    with_correlation_id = record with_timestamp { correlation_id = m.correlation_id }

    abbrev with_wait : WireMessage D F
    with_wait = record with_correlation_id { wait_timeout = m.wait_timeout }

    -- The assignments after the payload.
    abbrev from_recipient : WireMessage D F → WireMessage D F
    from_recipient x = set_run_timeout mp (float_or_nil mp m.run_timeout) (
        set_wait_timeout mp (float_or_nil mp m.wait_timeout) (
          set_correlation_id mp (str_or_nil mp m.correlation_id) (
            set_timestamp mp (double_or_nil mp m.timestamp) (
              set_durability mp (pack_integer m.durability)
                (set_recipient mp (str_or_nil mp m.recipient) x)))))

    message_of-object :
        message_of mp (message_object mp m)
        ≡ from_recipient (record blank_message {
          msg_type = message_type_from_str (message_type_to_str m.msg_type);
          sender = m.sender;
          event = m.event;
          payload = unpack_payload mp (pack_fields mp m.payload) end;
        })
    unfolding message_object set_entries set_entry bytes_discrete
    message_of-object = refl

    from_recipient-back : Returns m → from_recipient with_payload ≡ m
    from_recipient-back v =
        ap
          (λ x. set_run_timeout mp (float_or_nil mp m.run_timeout) (
            set_wait_timeout mp (float_or_nil mp m.wait_timeout) (
              set_correlation_id mp (str_or_nil mp m.correlation_id) (
                set_timestamp mp (double_or_nil mp m.timestamp)
                  (set_durability mp (pack_integer m.durability) x)))))
          (recipient_back m.recipient with_payload refl)
        ∙ ap
            (λ x. set_run_timeout mp (float_or_nil mp m.run_timeout) (
              set_wait_timeout mp (float_or_nil mp m.wait_timeout) (
                set_correlation_id mp (str_or_nil mp m.correlation_id)
                  (set_timestamp mp (double_or_nil mp m.timestamp) x))))
            (durability_back m.durability with_recipient v.durable)
        ∙ ap
            (λ x. set_run_timeout mp (float_or_nil mp m.run_timeout) (
              set_wait_timeout mp (float_or_nil mp m.wait_timeout)
                (set_correlation_id mp (str_or_nil mp m.correlation_id) x)))
            (timestamp_back m.timestamp with_durability refl v.stamped)
        ∙ ap
            (λ x.
              set_run_timeout mp (float_or_nil mp m.run_timeout)
                (set_wait_timeout mp (float_or_nil mp m.wait_timeout) x))
            (correlation_back m.correlation_id with_timestamp refl)
        ∙ ap (set_run_timeout mp (float_or_nil mp m.run_timeout))
            (wait_back m.wait_timeout with_correlation_id refl v.waiting)
        ∙ run_back m.run_timeout with_wait refl v.running

    -- If msgpack decodes what it encoded, a message is deserialized as it was serialized. Its
    -- payload may hold empty values, `int`s, strings, truth values, tables, lists of strings that
    -- are not empty, other lists that are not of strings only, and doubles that msgpack packs as
    -- doubles, with no key twice in a table; its durability fits an `int`; its timestamp and
    -- timeouts are packed as doubles or as unsigned integers that are converted back to them.
    pub deserialize-serialize :
        ((o : Object D) → mp.decode (mp.encode o) ≡ some o)
        → Returns m
        → deserialize mp (serialize mp m) ≡ some m
    unfolding deserialize serialize
    deserialize-serialize back v =
        ap (decoded mp) (back (message_object mp m))
        ∙ ap some (
            message_of-object
            ∙ ap
                (λ t. from_recipient (record blank_message {
                  msg_type = t;
                  sender = m.sender;
                  event = m.event;
                  payload = unpack_payload mp (pack_fields mp m.payload) end;
                }))
                (from_str-to_str.0 m.msg_type)
            ∙ ap (λ fs. from_recipient (record with_names { payload = fs }))
                (unpack_payload-pack m.payload end v.plain (Apart-end m.payload))
            ∙ from_recipient-back v)
