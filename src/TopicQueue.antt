-- ===== src/TopicQueue.antt =====
-- src/tyche/cpp/engine/topic_queue.cpp: a ring buffer with a backpressure strategy and counters.
pub mod Strategy
use tyche_engine.Common.{ℕ, ◌≡◌, Bool, true, false, Option, none, some, List, [], ◌∷◌, map}
use tyche_engine.Common.Words.{add_size}
use tyche_engine.Types.{BackpressureStrategy, drop_oldest, drop_newest, block_producer}
use tyche_engine.Frame.{QueueItem, no_item}
use tyche_engine.Ring
use tyche_engine.Ring.{RingBuffer, CasWeak, push_overwrite, try_push, push_blocking}

-- `processed` and `dropped` are uint64_t.
pub record TopicQueue : Type 0 where
  pub buffer : RingBuffer QueueItem
  pub strategy : BackpressureStrategy
  pub processed : ℕ
  pub dropped : ℕ

unfoldable pub new : ℕ → BackpressureStrategy → TopicQueue
new capacity strategy = record {
  buffer = Ring.new no_item capacity;
  strategy = strategy;
  processed = 0;
  dropped = 0;
}

-- For each call of `try_push` that a `put` makes: its compare-exchanges, and how often the consumer
-- pops if the producer then yields.
abbrev pub Schedule : Type 0
Schedule = List (List CasWeak × ℕ)

unfoldable pub cas_of : List CasWeak × ℕ → List CasWeak
cas_of (cs, n) = cs

abbrev first_cas : Schedule → List CasWeak
first_cas [] = []
first_cas ((cs, n) ∷ css) = cs

abbrev stored : TopicQueue → Option (RingBuffer QueueItem) → Option (Bool × TopicQueue)
stored q none = none
stored q (some b) = some (true, record q { buffer = b })

abbrev tried : TopicQueue → Option (Bool × RingBuffer QueueItem) → Option (Bool × TopicQueue)
tried q none = none
tried q (some (true, b)) = some (true, record q { buffer = b })
tried q (some (false, b)) = some (false, record q { buffer = b; dropped = add_size q.dropped 1 })

abbrev put_by :
    BackpressureStrategy → Schedule → QueueItem → TopicQueue → Option (Bool × TopicQueue)
put_by drop_oldest css item q = stored q (push_overwrite no_item (map cas_of css) item q.buffer)
put_by drop_newest css item q = tried q (try_push no_item (first_cas css) item q.buffer)
put_by block_producer css item q = stored q (push_blocking no_item css item q.buffer)

-- `none`: the call has not returned when its schedule ends.
unfoldable pub put : Schedule → QueueItem → TopicQueue → Option (Bool × TopicQueue)
unfolding cas_of
put css item q = put_by q.strategy css item q

unfoldable pub get : TopicQueue → Option QueueItem × TopicQueue
get q =
    let (item, b) = Ring.pop no_item q.buffer in
    elim item [
      | none ↦ (none, record q { buffer = b })
      | some x ↦ (some x, record q { buffer = b; processed = add_size q.processed 1 })
    ]

unfoldable pub size : TopicQueue → ℕ
size q = Ring.size q.buffer

unfoldable pub empty : TopicQueue → Bool
empty q = Ring.empty q.buffer

unfoldable pub capacity : TopicQueue → ℕ
capacity q = Ring.capacity q.buffer
