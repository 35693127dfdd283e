-- ===== src/Intern/Stable.antt =====
-- The invariant of string_intern.h, and what `intern` does to the identifiers.
use tyche_engine.Common.{
  ℕ, zero, suc, ◌+◌, ◌-◌, ◌%◌, ◌^◌, ◌≤◌, ◌<◌, ◌≡◌, ◌≢◌, refl, sym, ap, subst, ◌∙◌, arith, none,
  some, List, [], ◌∷◌, ◌++◌, length, length-append, length-set, length-replicate, get_or,
  get_or-set_self, get_or-set_ne, get_or-replicate, set, replicate, if_pos, if_neg, Bytes,
  bytes_discrete, Option-cases, inl, inr,
}
use tyche_engine.Common.Assoc
use tyche_engine.Intern.{StringIntern, grow, store, intern, lookup, resolve, or_invalid}

-- Every identifier given so far is below `next_id` and names its string.
pub record IsValid (t : StringIntern) : Type 0 where
  pub started : 1 ≤ t.next_id
  pub short : length t.id_to_string ≤ t.next_id
  pub named :
      (s : Bytes) (id : ℕ)
      → Assoc.lookup bytes_discrete s t.string_to_id ≡ some id
      → (1 ≤ id) × (id < t.next_id) × (resolve id t ≡ s)

some_eq : {a b : ℕ} → some a ≡ some b → a ≡ b
some_eq h = ap or_invalid h

get_or-padded :
    (k : ℕ) (xs : List Bytes) (i : ℕ) → get_or (xs ++ replicate k []) i [] ≡ get_or xs i []
get_or-padded k [] i = get_or-replicate k i []
get_or-padded k (x ∷ xs) zero = refl
get_or-padded k (x ∷ xs) (suc i) = get_or-padded k xs i

length-grow : (n : ℕ) (xs : List Bytes) → length xs ≤ n → length (grow n xs) ≡ n
length-grow n xs h = omega (
  arith,
  length-append xs (replicate (n - length xs) []),
  length-replicate {A = Bytes} (n - length xs) [],
)

module _ (s : Bytes) (id : ℕ) (xs : List Bytes) (h : length xs ≤ id) where
  store-grow : store s id xs ≡ set (grow (id + 1) xs) id s
  store-grow = ground (arith, h)

  get_or-store_self : get_or (store s id xs) id [] ≡ s
  get_or-store_self =
      ap (λ l. get_or l id []) store-grow
      ∙ get_or-set_self (grow (id + 1) xs) id s []
          (omega (arith, length-grow (id + 1) xs (omega arith)))

  get_or-store_ne : (j : ℕ) → id ≢ j → get_or (store s id xs) j [] ≡ get_or xs j []
  get_or-store_ne j n =
      ap (λ l. get_or l j []) store-grow
      ∙ get_or-set_ne (grow (id + 1) xs) id j s [] n
      ∙ get_or-padded (id + 1 - length xs) xs j

  length-store : length (store s id xs) ≡ id + 1
  length-store =
      ap length store-grow
      ∙ length-set (grow (id + 1) xs) id s
      ∙ length-grow (id + 1) xs (omega arith)

-- What `intern` promises of its result and of the identifiers given before.
pub record Interned (s : Bytes) (t : StringIntern) (out : ℕ × StringIntern) : Type 0 where
  pub valid : IsValid out.1
  pub not_invalid : 1 ≤ out.0
  pub resolves : resolve out.0 out.1 ≡ s
  pub found : lookup s out.1 ≡ out.0
  pub kept :
      (j : Bytes) (id : ℕ)
      → Assoc.lookup bytes_discrete j t.string_to_id ≡ some id
      → (lookup j out.1 ≡ id) × (resolve id out.1 ≡ j)

module _ (s : Bytes) (t : StringIntern) (v : IsValid t) where
  old_string :
      (id : ℕ) → Assoc.lookup bytes_discrete s t.string_to_id ≡ some id → Interned s t (id, t)
  unfolding lookup
  old_string id e = record {
    valid = v;
    not_invalid = (v.named s id e).0;
    resolves = (v.named s id e).2;
    found = ap or_invalid e;
    kept = λ j i e'. (ap or_invalid e', (v.named j i e').2);
  }

  abbrev extended : StringIntern
  extended = record {
    string_to_id = Assoc.assign bytes_discrete s t.next_id t.string_to_id;
    id_to_string = store s t.next_id t.id_to_string;
    next_id = (t.next_id + 1) % 2 ^ 32;
  }

  module _ (new : Assoc.lookup bytes_discrete s t.string_to_id ≡ none)
      (room : t.next_id + 1 < 2 ^ 32) where
    kept_after :
        (j : Bytes) (id : ℕ)
        → Assoc.lookup bytes_discrete j t.string_to_id ≡ some id
        → (Assoc.lookup bytes_discrete j extended.string_to_id ≡ some id)
          × (resolve id extended ≡ j)
    unfolding resolve
    kept_after j id e = (
      Assoc.lookup-assign bytes_discrete j s t.next_id t.string_to_id
          ∙ if_neg (bytes_discrete s j) other (some t.next_id) _
          ∙ e,
      get_or-store_ne s t.next_id t.id_to_string v.short id
            (λ q. omega (arith, q, (v.named j id e).1))
          ∙ (v.named j id e).2,
    )
      where
        other : ¬ (s ≡ j)
        other p = cc (sym new ∙ ap (λ i. Assoc.lookup bytes_discrete i t.string_to_id) p ∙ e)

    self_after : Assoc.lookup bytes_discrete s extended.string_to_id ≡ some t.next_id
    self_after =
        Assoc.lookup-assign bytes_discrete s s t.next_id t.string_to_id
        ∙ if_pos (bytes_discrete s s) refl (some t.next_id) _

    named_after :
        (j : Bytes) (id : ℕ)
        → Assoc.lookup bytes_discrete j extended.string_to_id ≡ some id
        → (1 ≤ id) × (id < extended.next_id) × (resolve id extended ≡ j)
    unfolding resolve
    named_after j id e = elim (bytes_discrete s j) [
      | yes p ↦
          let same : t.next_id ≡ id = some_eq (
            sym (
              Assoc.lookup-assign bytes_discrete j s t.next_id t.string_to_id
              ∙ if_pos (bytes_discrete s j) p (some t.next_id) _)
            ∙ e) in
          (
            omega (arith, same, v.started),
            omega (arith, same),
            ap (λ i. get_or extended.id_to_string i []) (sym same)
                ∙ get_or-store_self s t.next_id t.id_to_string v.short
                ∙ p,
          )
      | no n ↦
          let before : Assoc.lookup bytes_discrete j t.string_to_id ≡ some id =
            sym (
              Assoc.lookup-assign bytes_discrete j s t.next_id t.string_to_id
              ∙ if_neg (bytes_discrete s j) n (some t.next_id) _)
            ∙ e in
          (
            (v.named j id before).0,
            omega (arith, (v.named j id before).1),
            (kept_after j id before).1,
          )
    ]

    new_string : Interned s t (t.next_id, extended)
    unfolding resolve lookup
    new_string = record {
      valid = record {
        started = omega arith;
        short = omega (arith, length-store s t.next_id t.id_to_string v.short);
        named = named_after;
      };
      not_invalid = v.started;
      resolves = get_or-store_self s t.next_id t.id_to_string v.short;
      found = ap or_invalid self_after;
      kept = λ j id e. (ap or_invalid (kept_after j id e).0, (kept_after j id e).1);
    }

-- Interning a string into a valid table with identifiers left gives an identifier that is not the
-- invalid one, that resolves to the string and that `lookup` then finds; the strings that were
-- there keep their identifiers, and the table stays valid.
pub intern_lem :
    (s : Bytes) (t : StringIntern) → IsValid t → t.next_id + 1 < 2 ^ 32 → Interned s t (intern s t)
unfolding intern
intern_lem s t v room = elim (Option-cases (Assoc.lookup bytes_discrete s t.string_to_id)) [
  | inl e ↦ subst (Interned s t) (sym (intern-new e)) (new_string s t v e room)
  | inr (id, e) ↦ subst (Interned s t) (sym (intern-old id e)) (old_string s t v id e)
]
  where
    intern-new :
        Assoc.lookup bytes_discrete s t.string_to_id ≡ none
        → intern s t ≡ (t.next_id, extended s t v)
    intern-new e = rw (e, intern)

    intern-old :
        (id : ℕ) → Assoc.lookup bytes_discrete s t.string_to_id ≡ some id → intern s t ≡ (id, t)
    intern-old id e = rw (e, intern)
