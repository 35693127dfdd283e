-- ===== src/TopicIndex.antt =====
-- src/tyche/cpp/engine/topic_queue_index.h: an array of queues by the number of their topic. A call is
-- one step under the lock of the index.
pub mod Growth
use tyche_engine.Common.{
  ℕ, zero, suc, ◌+◌, ◌-◌, ◌*◌, ◌%◌, ◌^◌, Bool, true, false, Option, none, some, List, [], ◌∷◌, ◌++◌,
  length, get_or, replicate, set, ltb, leb, if◌then◌else◌,
}
use tyche_engine.Common.Words.{word}

-- A pointer is the place of a queue, `none` a null pointer; `queues` is `none` before the first `set`.
pub record TopicIndex : Type 0 where
  pub queues : Option (List (Option ℕ))

abbrev pub empty_index : TopicIndex
empty_index = record { queues = none }

abbrev pub get_in : ℕ → Option (List (Option ℕ)) → Option ℕ
get_in id none = none
get_in id (some qs) = if leb (length qs) id then none else get_or qs id none

unfoldable pub get : ℕ → TopicIndex → Option ℕ
get id t = get_in id t.queues

-- `if (new_size < needed_size) new_size = needed_size;`
abbrev pub at_least : ℕ → ℕ → ℕ
at_least needed_size new_size = if ltb new_size needed_size then needed_size else new_size

-- A new vector of null pointers that starts with a copy of the old one.
abbrev pub resized : ℕ → List (Option ℕ) → List (Option ℕ)
resized new_size qs = qs ++ replicate (new_size - length qs) none

abbrev pub with_room : ℕ → Option (List (Option ℕ)) → List (Option ℕ)
with_room needed_size none = replicate (at_least needed_size 64) none
with_room needed_size (some qs) =
    if leb needed_size (length qs)
    then qs
    else resized (at_least needed_size (length qs * 2 % word)) qs

unfoldable pub put : ℕ → Option ℕ → TopicIndex → TopicIndex
put id q t = record t { queues = some (set (with_room (id + 1) t.queues) id q) }

-- The pairs of the entries that are no null pointers, the first of them at index `i`.
unfoldable pub pairs : ℕ → List (Option ℕ) → List (ℕ × ℕ)
pairs i [] = []
pairs i (none ∷ qs) = pairs (i + 1) qs
pairs i (some q ∷ qs) = (i % 2 ^ 32, q) ∷ pairs (i + 1) qs

abbrev pairs_of : Option (List (Option ℕ)) → List (ℕ × ℕ)
pairs_of none = []
pairs_of (some qs) = pairs 0 qs

unfoldable pub snapshot : TopicIndex → List (ℕ × ℕ)
snapshot t = pairs_of t.queues
