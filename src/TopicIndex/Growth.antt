-- ===== src/TopicIndex/Growth.antt =====
-- topic_queue_index.h as a map from numbers to queues, whether or not an entry makes the array grow.
use tyche_engine.Common.{
  ℕ, zero, suc, ◌+◌, ◌-◌, ◌*◌, ◌%◌, ◌≤◌, ◌≡◌, refl, sym, ap, ◌∙◌, arith, Option, none, some, List,
  [], ◌∷◌, ◌++◌, length, get_or, replicate, set, leb, ◌==◌, if◌then◌else◌, length-append,
  length-replicate, get_or-replicate, get_or-set_self, get_or-set_ne, ℕ_discrete, Bool-cases, inl,
  inr, leb→le, ==_iff,
}
use tyche_engine.Common.Words.{word}
use tyche_engine.TopicIndex.{TopicIndex, get, get_in, put, with_room, resized, at_least}

-- Reading past the end gives a null pointer anyway.
get_or-past : (qs : List (Option ℕ)) (i : ℕ) → length qs ≤ i → get_or qs i none ≡ none
get_or-past [] i h = refl
get_or-past (q ∷ qs) zero h = absurd (omega arith)
get_or-past (q ∷ qs) (suc i) h = get_or-past qs i (omega arith)

get_in-some : (qs : List (Option ℕ)) (i : ℕ) → get_in i (some qs) ≡ get_or qs i none
get_in-some qs i = ground (arith, get_or-past qs i)

get_or-padded :
    (k : ℕ) (qs : List (Option ℕ)) (i : ℕ)
    → get_or (qs ++ replicate k none) i none ≡ get_or qs i none
get_or-padded k [] i = get_or-replicate k i none
get_or-padded k (q ∷ qs) zero = refl
get_or-padded k (q ∷ qs) (suc i) = get_or-padded k qs i

-- Making room changes no entry, and there is room.
get_or-with_room :
    (n i : ℕ) (old : Option (List (Option ℕ))) → get_or (with_room n old) i none ≡ get_in i old
get_or-with_room n i none = get_or-replicate (at_least n 64) i none
get_or-with_room n i (some qs) = elim (Bool-cases (leb n (length qs))) [
  | inl h ↦ rw (h) (sym (get_in-some qs i))
  | inr h ↦
      rw (h) (
        get_or-padded (at_least n (length qs * 2 % word) - length qs) qs i ∙ sym (get_in-some qs i))
]

at_least-le : (n m : ℕ) → n ≤ at_least n m
at_least-le n m = ground arith

length-resized : (n : ℕ) (qs : List (Option ℕ)) → n ≤ length (resized n qs)
length-resized n qs = omega (
  arith,
  length-append qs (replicate (n - length qs) none),
  length-replicate {A = Option ℕ} (n - length qs) none,
)

length-with_room : (n : ℕ) (old : Option (List (Option ℕ))) → n ≤ length (with_room n old)
length-with_room n none =
    omega (arith, at_least-le n 64, length-replicate {A = Option ℕ} (at_least n 64) none)
length-with_room n (some qs) = elim (Bool-cases (leb n (length qs))) [
  | inl h ↦ rw (h) (leb→le n (length qs) h)
  | inr h ↦ rw (h) (
      omega (
        arith,
        at_least-le n (length qs * 2 % word),
        length-resized (at_least n (length qs * 2 % word)) qs,
      ))
]

-- After a queue was entered for a number, the index has this queue for it, and for each other
-- number what it had before, whether or not the array had to grow.
pub get-put :
    (id j : ℕ) (q : Option ℕ) (t : TopicIndex)
    → get j (put id q t) ≡ (if id == j then q else get j t)
unfolding get put
get-put id j q t = get_in-some (set room id q) j ∙ read (ℕ_discrete id j)
  where
    room : List (Option ℕ)
    room = with_room (id + 1) t.queues

    read : Dec (id ≡ j) → get_or (set room id q) j none ≡ (if id == j then q else get_in j t.queues)
    read (yes e) = rw ((==_iff id j).1 e) (
        ap (λ i. get_or (set room id q) i none) (sym e)
        ∙ get_or-set_self room id q none (omega (arith, length-with_room (id + 1) t.queues)))
    read (no n) =
        ground (arith, n, get_or-set_ne room id j q none n, get_or-with_room (id + 1) j t.queues)
