-- ===== src/SharedQueue/Start.antt =====
-- shared_memory_queue.cpp: the memory that an owner sets up.
use tyche_engine.Common.{ℕ, zero, suc, ◌+◌, ◌^◌, ◌<◌, ◌≡◌, refl, ap, ◌∙◌, arith, [], length, get_or}
use tyche_engine.SharedQueue.{Config, no_slot, first_slots, initialize}
use tyche_engine.SharedQueue.Lap.{Lap}

length-first_slots : (s i n : ℕ) → length (first_slots s i n) ≡ n
unfolding first_slots
length-first_slots s i zero = refl
length-first_slots s i (suc n) = ap suc (length-first_slots s (suc i) n)

sequence-first_slots :
    (s i n p : ℕ) → p < n → (get_or (first_slots s i n) p no_slot).sequence ≡ i + p
unfolding first_slots
sequence-first_slots s i zero p h = absurd (omega arith)
sequence-first_slots s i (suc n) zero h = omega arith
sequence-first_slots s i (suc n) (suc p) h =
    sequence-first_slots s (suc i) n p (omega arith) ∙ omega arith

pub initialize-Lap :
    (c : Config) → c.slot_count < 2 ^ 30 → c.max_msg_size < 2 ^ 32 → Lap c (initialize c) [] 0
unfolding initialize
initialize-Lap c a b = record {
  counted = refl;
  short = a;
  sized = b;
  cells = length-first_slots c.max_msg_size 0 c.slot_count;
  written = refl;
  reached = refl;
  within = omega arith;
  behind = omega arith;
  used = λ p l. absurd (omega arith);
  ready = λ p l k. absurd (omega arith);
  vacant = λ p l k. sequence-first_slots c.max_msg_size 0 c.slot_count p k ∙ omega arith;
  holds = λ p l. absurd (omega arith);
}
