-- ===== src/Wire/Plain.antt =====
-- The payload values of message.cpp that come back from a message as they were.
use tyche_engine.Common.{
  ◌^◌, ◌<◌, ◌≡◌, refl, sym, ap, ap₂, ◌∙◌, arith, true, false, List, [], ◌∷◌, if_neg, if◌then◌else◌,
  Bytes, bytes_discrete,
}
use tyche_engine.Common.Words.{ℤ, pos, negsuc, to_int32}
use tyche_engine.Wire.{
  Any, empty, double, text, int, int64, uint64, float, bool, chars, table, names, items, unknown,
  Anys, no_more, next, Fields, end, field, floating, Msgpack, pack_integer, pack_names, pack_any,
  pack_anys, pack_fields,
}
use tyche_engine.Wire.Unpack.{
  put, all_str, each_str, strings, unpack_object, unpack_objects, unpack_pairs,
}

-- A value of the 32-bit type int
abbrev pub IsInt : ℤ → Type 0
IsInt (pos n) = n < 2 ^ 31
IsInt (negsuc n) = n < 2 ^ 31

pub unpack-pack_integer :
    (D F : Type 0) (i : ℤ) → IsInt i → unpack_object {F = F} (pack_integer {D = D} i) ≡ int i
unfolding unpack_object to_int32
unpack-pack_integer D F (pos n) h = ap int (ground arith)
unpack-pack_integer D F (negsuc n) h = ap int (ground arith)

pub strings-pack_names : (D : Type 0) (ss : List Bytes) → strings (pack_names {D = D} ss) ≡ ss
strings-pack_names D [] = refl
strings-pack_names D (s ∷ ss) = ap (λ t. s ∷ t) (strings-pack_names D ss)

pub each_str-pack_names : (D : Type 0) (ss : List Bytes) → each_str (pack_names {D = D} ss) ≡ true
each_str-pack_names D [] = refl
each_str-pack_names D (s ∷ ss) = each_str-pack_names D ss

module _ {D F : Type 0} where
  abbrev pub Absent : Bytes → Fields D F → Type 0
  Absent k end = Unit
  Absent k (field j v fs) = ¬ (j ≡ k) × Absent k fs

  abbrev pub join : Fields D F → Fields D F → Fields D F
  join end fs = fs
  join (field k v rest) fs = field k v (join rest fs)

  -- No key of the second map is one of the first.
  abbrev pub Apart : Fields D F → Fields D F → Type 0
  Apart acc end = Unit
  Apart acc (field k v fs) = Absent k acc × Apart acc fs

  pub Apart-end : (fs : Fields D F) → Apart end fs
  Apart-end end = tt
  Apart-end (field k v fs) = (tt, Apart-end fs)

  pub put-Absent :
      (k : Bytes) (v : Any D F) (acc : Fields D F)
      → Absent k acc
      → put k v acc ≡ join acc (field k v end)
  put-Absent k v end a = refl
  put-Absent k v (field j w acc) a =
      if_neg (bytes_discrete j k) a.0 (field j v acc) (field j w (put k v acc))
      ∙ ap (field j w) (put-Absent k v acc a.1)

  pub join-snoc :
      (acc : Fields D F) (k : Bytes) (v : Any D F) (fs : Fields D F)
      → join (join acc (field k v end)) fs ≡ join acc (field k v fs)
  join-snoc end k v fs = refl
  join-snoc (field j w acc) k v fs = ap (field j w) (join-snoc acc k v fs)

  pub join-end : (acc : Fields D F) → join acc end ≡ acc
  join-end end = refl
  join-end (field k v acc) = ap (field k v) (join-end acc)

  Absent-snoc :
      (j k : Bytes) (v : Any D F) (acc : Fields D F)
      → Absent j acc
      → ¬ (k ≡ j)
      → Absent j (join acc (field k v end))
  Absent-snoc j k v end a n = (n, tt)
  Absent-snoc j k v (field i w acc) a n = (a.0, Absent-snoc j k v acc a.1 n)

  pub Apart-snoc :
      (acc : Fields D F) (k : Bytes) (v : Any D F) (fs : Fields D F)
      → Apart acc fs
      → Absent k fs
      → Apart (join acc (field k v end)) fs
  Apart-snoc acc k v end a b = tt
  Apart-snoc acc k v (field j w fs) a b =
      (Absent-snoc j k v acc a.0 (λ e. b.0 (sym e)), Apart-snoc acc k v fs a.1 b.1)

module _ {D F : Type 0} (mp : Msgpack D F) where
  -- Not among them: 64-bit integers, floats, C strings, an empty vector of strings, a vector of other
  -- values that holds strings only, a double that is packed as an integer, a map with a key twice.
  unfoldable mutual
    pub PlainAny : Any D F → Type 0
    PlainAny empty = Unit
    PlainAny (double d) = mp.pack_double d ≡ floating d
    PlainAny (text s) = Unit
    PlainAny (int i) = IsInt i
    PlainAny (int64 i) = ⊥
    PlainAny (uint64 n) = ⊥
    PlainAny (float f) = ⊥
    PlainAny (bool b) = Unit
    PlainAny (chars s) = ⊥
    PlainAny (table fs) = PlainFields fs
    PlainAny (names []) = ⊥
    PlainAny (names (s ∷ ss)) = Unit
    PlainAny (items vs) = PlainAnys vs × (all_str (pack_anys mp vs) ≡ false)
    PlainAny unknown = ⊥

    pub PlainAnys : Anys D F → Type 0
    PlainAnys no_more = Unit
    PlainAnys (next v vs) = PlainAny v × PlainAnys vs

    pub PlainFields : Fields D F → Type 0
    PlainFields end = Unit
    PlainFields (field k v fs) = PlainAny v × Absent k fs × PlainFields fs

  mutual
    unfolding PlainAny pack_any unpack_object

    unpack-pack : (v : Any D F) → PlainAny v → unpack_object (pack_any mp v) ≡ v
    unpack-pack empty h = refl
    unpack-pack (double d) h = ap unpack_object h
    unpack-pack (text s) h = refl
    unpack-pack (int i) h = unpack-pack_integer D F i h
    unpack-pack (int64 i) h = absurd h
    unpack-pack (uint64 n) h = absurd h
    unpack-pack (float f) h = absurd h
    unpack-pack (bool b) h = refl
    unpack-pack (chars s) h = absurd h
    unpack-pack (table fs) h = ap table (unpack_pairs-pack fs end h (Apart-end fs))
    unpack-pack (names []) h = absurd h
    unpack-pack (names (s ∷ ss)) h =
        ap
          (λ b.
            if b
            then names (s ∷ strings (pack_names {D = D} ss))
            else items (unpack_objects (pack_names {D = D} (s ∷ ss))))
          (each_str-pack_names D ss)
        ∙ ap (λ t. names (s ∷ t)) (strings-pack_names D ss)
    unpack-pack (items vs) h = rw (h.1) (ap items (unpack_objects-pack vs h.0))
    unpack-pack unknown h = absurd h

    unpack_objects-pack : (vs : Anys D F) → PlainAnys vs → unpack_objects (pack_anys mp vs) ≡ vs
    unpack_objects-pack no_more h = refl
    unpack_objects-pack (next v vs) h = ap₂ next (unpack-pack v h.0) (unpack_objects-pack vs h.1)

    unpack_pairs-pack :
        (fs acc : Fields D F)
        → PlainFields fs
        → Apart acc fs
        → unpack_pairs (pack_fields mp fs) acc ≡ join acc fs
    unpack_pairs-pack end acc h a = sym (join-end acc)
    unpack_pairs-pack (field k v fs) acc h a =
        ap (λ w. unpack_pairs (pack_fields mp fs) (put k w acc)) (unpack-pack v h.0)
        ∙ ap (unpack_pairs (pack_fields mp fs)) (put-Absent k v acc a.0)
        ∙ unpack_pairs-pack fs (join acc (field k v end)) h.2 (Apart-snoc acc k v fs a.1 h.1)
        ∙ join-snoc acc k v fs

  pub unpack_object-pack_any : (v : Any D F) → PlainAny v → unpack_object (pack_any mp v) ≡ v
  unpack_object-pack_any v h = unpack-pack v h
