-- ===== src/Tests/Buffers.antt =====
-- Ring buffers, topic queues and frames of the engine at concrete inputs.
use tyche_engine.Common.{
  ℕ, zero, suc, ◌+◌, ◌^◌, ◌≤◌, ◌<◌, ◌≡◌, refl, arith, true, false, some, List, [], ◌∷◌, codes,
}
use tyche_engine.Queue.{offer_overwrite, head?, tail}
use tyche_engine.Ring.{RingBuffer, CasWeak, push_overwrite, pop, slot_at}
use tyche_engine.Ring.Sequences
use tyche_engine.Ring.Contents.{contents}
use tyche_engine.Ring.Refine.{pop_refines}
use tyche_engine.Ring.Waiting.{push_overwrite_refines}
use tyche_engine.Types.{BackpressureStrategy}
use tyche_engine.Frame
use tyche_engine.Frame.{Frame, QueueItem, no_item, to_vector, move_assign, same}
use tyche_engine.TopicQueue.{TopicQueue, put}
use tyche_engine.TopicQueue.Strategy
use tyche_engine.TopicQueue.Strategy.{accept, refused, put_refines, get_refines}

-- A full buffer of two slots that has been round once.
abbrev pub two_items {ℓ} : {A : Type ℓ} → A → A → RingBuffer A
two_items x y = record {
  mask = 1;
  write_pos = 4;
  read_pos = 2;
  slots = record { sequence = 3; item = x } ∷ record { sequence = 4; item = y } ∷ [];
}

pub two_items-IsValid {ℓ} : {A : Type ℓ} (blank x y : A) → Sequences.IsValid blank 1 (two_items x y)
two_items-IsValid blank x y = record {
  two_slots = omega arith;
  masked = refl;
  cells = refl;
  behind = omega arith;
  ahead = omega arith;
  room = omega arith;
  filled = here;
  vacant = λ p a b. absurd (omega arith);
}
  where
    here : (p : ℕ) → 2 ≤ p → p < 4 → (slot_at blank (two_items x y) p).sequence ≡ p + 1
    here zero a b = absurd (omega arith)
    here (suc zero) a b = absurd (omega arith)
    here (suc (suc zero)) a b = refl
    here (suc (suc (suc zero))) a b = refl
    here (suc (suc (suc (suc p)))) a b = absurd (omega arith)

abbrev spurious : List CasWeak
spurious = false ∷ true ∷ []

abbrev full_ring : RingBuffer ℕ
full_ring = two_items 7 8

pop_refines_example :
    ((pop 0 full_ring).0 ≡ head? (contents 0 full_ring))
    × Sequences.IsValid 0 1 (pop 0 full_ring).1
    × (contents 0 (pop 0 full_ring).1 ≡ tail (contents 0 full_ring))
pop_refines_example = pop_refines 0 1 (two_items-IsValid 0 7 8)

push_overwrite_refines_example :
    (r' : RingBuffer ℕ) × (push_overwrite 0 (spurious ∷ spurious ∷ []) 9 full_ring ≡ some r')
    × Sequences.IsValid 0 1 r'
    × (contents 0 r' ≡ offer_overwrite (2 ^ 1) 9 (contents 0 full_ring))
push_overwrite_refines_example =
    push_overwrite_refines 0 1 (two_items-IsValid 0 7 8) (omega arith) spurious spurious [] 9 tt tt

abbrev item : ℕ → QueueItem
item n = record { enqueue_time = n; frames = Frame.new (codes "tick") ∷ [] }

abbrev pub full_queue : TopicQueue
full_queue = record {
  buffer = two_items (item 1) (item 2);
  strategy = BackpressureStrategy.drop_newest;
  processed = 5;
  dropped = 3;
}

put_refines_example :
    (q' : TopicQueue) × (put ((spurious, 1) ∷ (spurious, 0) ∷ []) (item 3) full_queue
      ≡ some ((accept full_queue.strategy (2 ^ 1) 1 (item 3) (Strategy.contents full_queue)).0, q'))
    × Strategy.IsValid 1 q'
    × (Strategy.contents q'
        ≡ (accept full_queue.strategy (2 ^ 1) 1 (item 3) (Strategy.contents full_queue)).1)
    × (q'.dropped
        ≡ refused
            (accept full_queue.strategy (2 ^ 1) 1 (item 3) (Strategy.contents full_queue)).0
            3)
    × (q'.processed ≡ 5)
put_refines_example =
    put_refines 1 full_queue (two_items-IsValid no_item (item 1) (item 2)) (omega arith) spurious
      spurious 1 0 [] (item 3) tt tt (omega arith)

abbrev order_frame : Frame
order_frame = Frame.new (codes "order")
