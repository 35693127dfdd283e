-- ===== src/DeadLetter/Records.antt =====
-- dead_letter_store.cpp: no control character stands in a record.
use tyche_engine.Common.{◌≡◌, refl, arith, true, Option, none, some, List, [], ◌∷◌, Bytes, codes}
use tyche_engine.Types.{MessageType, message_type_to_str}
use tyche_engine.Wire.{
  Any, empty, double, text, int, int64, uint64, float, bool, chars, table, names, items, unknown,
  Anys, no_more, next, Fields, end, field, WireMessage,
}
use tyche_engine.DeadLetter.{
  quoted, Printer, any_to_json, anys_to_json, more_anys, fields_to_json, more_fields,
  payload_to_json, or_null, entry, entries, object, message_entries, record_entries,
  message_to_json, record_of,
}
use tyche_engine.DeadLetter.Printable.{
  Printable, printable, by_test, append-Printable, if-Printable, quoted-Printable, digits-Printable,
  to_string-Printable, with_point-Printable, value-Printable,
}

-- Numbers are printed without control characters.
pub record PrintsNumbers {D F : Type 0} (p : Printer D F) : Type 0 where
  pub doubles : (d : D) → Printable (p.show_double d)
  pub floats : (f : F) → Printable (p.show_float f)
  pub floats_17 : (f : F) → Printable (p.show_float_17 f)

or_null-Printable :
    {A : Type 0} (f : A → Bytes)
    → ((a : A) → Printable (f a))
    → (o : Option A) → Printable (or_null f o)
or_null-Printable f h none = by_test (codes "null") refl
or_null-Printable f h (some a) = h a

msg_type-Printable : (t : MessageType) → Printable (message_type_to_str t)
unfolding message_type_to_str
msg_type-Printable MessageType.command = by_test (codes "cmd") refl
msg_type-Printable MessageType.event = by_test (codes "evt") refl
msg_type-Printable MessageType.heartbeat = by_test (codes "hbt") refl
msg_type-Printable MessageType.register = by_test (codes "reg") refl
msg_type-Printable MessageType.ack = by_test (codes "ack") refl
msg_type-Printable MessageType.response = by_test (codes "resp") refl
msg_type-Printable MessageType.request = by_test (codes "req") refl

-- The keys are literals.
abbrev AllPrintable : List (Bytes × Bytes) → Type 0
AllPrintable [] = Unit
AllPrintable ((key, value) ∷ es) = (printable key ≡ true) × (Printable value × AllPrintable es)

entry-Printable :
    (key value : Bytes) → printable key ≡ true → Printable value → Printable (entry key value)
entry-Printable key value k h = (
  omega arith,
  append-Printable key _ (by_test key k) (omega arith, (omega arith, (omega arith, h))),
)

entries-Printable : (es : List (Bytes × Bytes)) → AllPrintable es → Printable (entries es)
entries-Printable [] h = tt
entries-Printable ((key, value) ∷ []) h = entry-Printable key value h.0 h.1.0
entries-Printable ((key, value) ∷ e ∷ es) h =
    append-Printable (entry key value) _ (entry-Printable key value h.0 h.1.0)
      (omega arith, (omega arith, entries-Printable (e ∷ es) h.1.1))

object-Printable : (es : List (Bytes × Bytes)) → AllPrintable es → Printable (object es)
object-Printable es h =
    (omega arith, append-Printable (entries es) _ (entries-Printable es h) (omega arith, tt))

module _ {D F : Type 0} (p : Printer D F) (v : PrintsNumbers p) where
  mutual
    unfolding any_to_json

    any_to_json-Printable : (a : Any D F) → Printable (any_to_json p a)
    any_to_json-Printable empty = by_test (codes "null") refl
    any_to_json-Printable (double d) =
        if-Printable (p.finite d) _ _ (λ h. with_point-Printable _ (v.doubles d))
          (λ h. by_test (codes "null") refl)
    any_to_json-Printable (text s) = quoted-Printable s
    any_to_json-Printable (int i) = to_string-Printable i
    any_to_json-Printable (int64 i) = to_string-Printable i
    any_to_json-Printable (uint64 n) = digits-Printable n n
    any_to_json-Printable (float f) =
        if-Printable (p.finite_float f) _ _ (λ h. with_point-Printable _ (v.floats f))
          (λ h. by_test (codes "null") refl)
    any_to_json-Printable (bool b) =
        if-Printable b _ _ (λ h. by_test (codes "true") refl) (λ h. by_test (codes "false") refl)
    any_to_json-Printable (chars s) = quoted-Printable s
    any_to_json-Printable (table fs) = (
      omega arith,
      append-Printable (fields_to_json p fs) _ (fields-Printable fs) (omega arith, tt),
    )
    any_to_json-Printable (names ss) = by_test (codes "null") refl
    any_to_json-Printable (items vs) =
        (omega arith, append-Printable (anys_to_json p vs) _ (anys-Printable vs) (omega arith, tt))
    any_to_json-Printable unknown = by_test (codes "null") refl

    anys-Printable : (vs : Anys D F) → Printable (anys_to_json p vs)
    anys-Printable no_more = tt
    anys-Printable (next a vs) =
        append-Printable (any_to_json p a) _ (any_to_json-Printable a) (more_anys-Printable vs)

    more_anys-Printable : (vs : Anys D F) → Printable (more_anys p vs)
    more_anys-Printable no_more = tt
    more_anys-Printable (next a vs) = (
      omega arith,
      (
        omega arith,
        append-Printable (any_to_json p a) _ (any_to_json-Printable a) (more_anys-Printable vs),
      ),
    )

    fields-Printable : (fs : Fields D F) → Printable (fields_to_json p fs)
    fields-Printable end = tt
    fields-Printable (field k a fs) =
        value-Printable k (any_to_json p a) (more_fields p fs) (any_to_json-Printable a)
          (more_fields-Printable fs)

    more_fields-Printable : (fs : Fields D F) → Printable (more_fields p fs)
    more_fields-Printable end = tt
    more_fields-Printable (field k a fs) = (
      omega arith,
      (
        omega arith,
        value-Printable k (any_to_json p a) (more_fields p fs) (any_to_json-Printable a)
            (more_fields-Printable fs),
      ),
    )

  payload-Printable : (fs : Fields D F) → Printable (payload_to_json p fs)
  payload-Printable fs = (
    omega arith,
    append-Printable (fields_to_json p fs) _ (fields-Printable fs) (omega arith, tt),
  )

  message-Printable : (m : WireMessage D F) → Printable (message_to_json p m)
  unfolding message_to_json
  message-Printable m = object-Printable (message_entries p m) (
      (
        refl,
        (
          (
            omega arith,
            append-Printable (message_type_to_str m.msg_type) _ (msg_type-Printable m.msg_type)
                (omega arith, tt),
          ),
          (
            refl,
            (
              quoted-Printable m.sender,
              (
                refl,
                (
                  quoted-Printable m.event,
                  (
                    refl,
                    (
                      payload-Printable m.payload,
                      (
                        refl,
                        (
                          or_null-Printable quoted quoted-Printable m.recipient,
                          (
                            refl,
                            (
                              to_string-Printable m.durability,
                              (
                                refl,
                                (
                                  or_null-Printable p.show_double v.doubles m.timestamp,
                                  (
                                    refl,
                                    (
                                      or_null-Printable quoted quoted-Printable m.correlation_id,
                                      (
                                        refl,
                                        (
                                          or_null-Printable p.show_float_17 v.floats_17
                                              m.wait_timeout,
                                          (
                                            refl,
                                            (
                                              or_null-Printable p.show_float_17 v.floats_17
                                                  m.run_timeout,
                                              tt,
                                            ),
                                          ),
                                        ),
                                      ),
                                    ),
                                  ),
                                ),
                              ),
                            ),
                          ),
                        ),
                      ),
                    ),
                  ),
                ),
              ),
            ),
          ),
        ),
      ))

  pub record-Printable :
      (now : D) (topic reason : Bytes) (m : WireMessage D F)
      → Printable (record_of p now topic reason m)
  unfolding record_of
  record-Printable now topic reason m = object-Printable (record_entries p now topic reason m) (
      (
        refl,
        (
          v.doubles now,
          (
            refl,
            (
              quoted-Printable topic,
              (refl, (quoted-Printable reason, (refl, (message-Printable m, tt)))),
            ),
          ),
        ),
      ))
