-- ===== src/TopicQueue/Strategy.antt =====
-- A topic queue against the bounded queue that its strategy makes of it.
use tyche_engine.Common.{
  ℕ, ◌+◌, ◌^◌, ◌<◌, ◌≡◌, refl, ap, sym, subst, map, ◌∙◌, arith, Bool, true, false, some, none,
  Option, List, [], ◌∷◌, ◌++◌, length, ltb, if◌then◌else◌, ◌==◌,
}
use tyche_engine.Common.Words.{add_size}
use tyche_engine.Types.{BackpressureStrategy, drop_oldest, drop_newest, block_producer}
use tyche_engine.Queue.{offer, offer_overwrite, tail, head?, drop}
use tyche_engine.Frame.{QueueItem, no_item}
use tyche_engine.Ring.{RingBuffer, CasWeak, try_push}
use tyche_engine.Ring.Sequences
use tyche_engine.Ring.Contents
use tyche_engine.Ring.Push.{Settles}
use tyche_engine.Ring.Refine.{try_push_refines, pop_refines}
use tyche_engine.Ring.Waiting.{push_overwrite_refines, push_blocking_refines}
use tyche_engine.TopicQueue.{TopicQueue, Schedule, put, put_by, cas_of, get}
use tyche_engine.Ring

abbrev pub IsValid : ℕ → TopicQueue → Type 0
IsValid k q = Sequences.IsValid no_item k q.buffer

abbrev pub contents : TopicQueue → List QueueItem
contents q = Contents.contents no_item q.buffer

-- What `put` answers, and the queue that it leaves; a blocked producer waits for `n` items to go.
abbrev pub accept :
    BackpressureStrategy → ℕ → ℕ → QueueItem → List QueueItem → Bool × List QueueItem
accept drop_oldest cap n x q = (true, offer_overwrite cap x q)
accept drop_newest cap n x q = offer cap x q
accept block_producer cap n x q = (true, (if ltb (length q) cap then q else drop n q) ++ (x ∷ []))

-- Only a refused item is counted.
abbrev pub refused : Bool → ℕ → ℕ
refused true n = n
refused false n = add_size n 1

-- The buffer that a `put` leaves, with the two counters.
abbrev Put : ℕ → TopicQueue → Option (Bool × TopicQueue) → Bool × List QueueItem → Type 0
Put k q out expected =
    (q' : TopicQueue) × (out ≡ some (expected.0, q'))
    × IsValid k q'
    × (contents q' ≡ expected.1)
    × (q'.dropped ≡ refused expected.0 q.dropped)
    × (q'.processed ≡ q.processed)

module _ (k : ℕ) (q : TopicQueue) (v : IsValid k q) (room : q.buffer.write_pos + 2 ^ k + 1 < 2 ^ 63)
    (cs ds : List CasWeak) (n m : ℕ) (css : Schedule) (x : QueueItem) (s : Settles cs)
    (t : Settles ds) (h : 0 < n) where
  Put-newest :
      (b : Bool) (r : RingBuffer QueueItem)
      → try_push no_item cs x q.buffer ≡ some (b, r)
      → Sequences.IsValid no_item k r
      → (l : List QueueItem) → Contents.contents no_item r ≡ l
      → Put k q (put_by drop_newest ((cs, n) ∷ (ds, m) ∷ css) x q) (b, l)
  Put-newest true r e w l c = (record q { buffer = r }, rw e, w, c, refl, refl)
  Put-newest false r e w l c =
      (record q { buffer = r; dropped = add_size q.dropped 1 }, rw e, w, c, refl, refl)

  put_by_refines :
      (b : BackpressureStrategy)
      → Put k q (put_by b ((cs, n) ∷ (ds, m) ∷ css) x q) (accept b (2 ^ k) n x (contents q))
  unfolding cas_of
  put_by_refines drop_oldest =
      let (r, e, w, c) = push_overwrite_refines no_item k v room cs ds (map cas_of css) x s t in
      (record q { buffer = r }, rw e, w, c, refl, refl)
  put_by_refines drop_newest =
      let (r, e, w, c) = try_push_refines no_item k v cs x s room in
      Put-newest (offer (2 ^ k) x (contents q)).0 r e w (offer (2 ^ k) x (contents q)).1 c
  put_by_refines block_producer =
      let (r, e, w, c) = push_blocking_refines no_item k v room cs ds n m css x s t h in
      (record q { buffer = r }, rw e, w, c, refl, refl)

-- On a valid topic queue whose positions are far enough from 2^63, with compare-exchanges that do
-- not fail for ever and a consumer that pops at least one item while a blocked producer yields,
-- `put` returns, and answer and contents are those of its strategy on a bounded queue. Only a
-- refused item is counted as dropped, and `put` never changes the number of processed items.
pub put_refines :
    (k : ℕ) (q : TopicQueue)
    → IsValid k q
    → q.buffer.write_pos + 2 ^ k + 1 < 2 ^ 63
    → (cs ds : List CasWeak) (n m : ℕ) (css : Schedule) (x : QueueItem) → Settles cs
    → Settles ds
    → 0 < n
    → (q' : TopicQueue) × (put ((cs, n) ∷ (ds, m) ∷ css) x q
        ≡ some ((accept q.strategy (2 ^ k) n x (contents q)).0, q'))
      × IsValid k q'
      × (contents q' ≡ (accept q.strategy (2 ^ k) n x (contents q)).1)
      × (q'.dropped ≡ refused (accept q.strategy (2 ^ k) n x (contents q)).0 q.dropped)
      × (q'.processed ≡ q.processed)
unfolding put
put_refines k q v room cs ds n m css x s t h =
    put_by_refines k q v room cs ds n m css x s t h q.strategy

item-get : (q : TopicQueue) → (get q).0 ≡ (Ring.pop no_item q.buffer).0
unfolding get
item-get q = ground arith

buffer-get : (q : TopicQueue) → (get q).1.buffer ≡ (Ring.pop no_item q.buffer).1
unfolding get
buffer-get q = ground arith

dropped-get : (q : TopicQueue) → (get q).1.dropped ≡ q.dropped
unfolding get
dropped-get q = ground arith

abbrev count_item : Option QueueItem → ℕ → ℕ
count_item none n = n
count_item (some x) n = add_size n 1

processed-get :
    (q : TopicQueue) → (get q).1.processed ≡ count_item (Ring.pop no_item q.buffer).0 q.processed
unfolding get
processed-get q = ground arith

counted :
    (xs : List QueueItem) (o : Option QueueItem) (n : ℕ)
    → o ≡ head? xs
    → count_item o n ≡ (if length xs == 0 then n else add_size n 1)
counted [] o n e = rw e
counted (x ∷ xs) o n e = ground (arith, e)

-- On a valid topic queue, `get` returns the oldest item, if there is one, takes it out of the
-- contents, and counts it as processed, modulo 2^64; the count of dropped items stays.
pub get_refines :
    (k : ℕ) (q : TopicQueue)
    → IsValid k q
    → ((get q).0 ≡ head? (contents q))
      × IsValid k (get q).1
      × (contents (get q).1 ≡ tail (contents q))
      × ((get q).1.dropped ≡ q.dropped)
      × ((get q).1.processed
          ≡ (if length (contents q) == 0 then q.processed else add_size q.processed 1))
get_refines k q v =
    let (e, w, c) = pop_refines no_item k v in
    (
      item-get q ∙ e,
      subst (Sequences.IsValid no_item k) (sym (buffer-get q)) w,
      ap (Contents.contents no_item) (buffer-get q) ∙ c,
      dropped-get q,
      processed-get q ∙ counted (contents q) (Ring.pop no_item q.buffer).0 q.processed e,
    )
