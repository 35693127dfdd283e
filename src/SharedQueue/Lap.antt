-- ===== src/SharedQueue/Lap.antt =====
-- shared_memory_queue.cpp while no slot has been used twice: the first `slot_count` messages.
use native.Mathlib.Nat.{mod-eq_of_lt}
use tyche_engine.Common.{
  ℕ, zero, suc, ◌+◌, ◌%◌, ◌^◌, ◌≤◌, ◌<◌, ◌≡◌, ◌≢◌, refl, sym, ap, ◌∙◌, arith, Bool, true, false,
  some, List, [], ◌∷◌, ◌++◌, length, length-append, length-set, get_or, get_or-set_self,
  get_or-set_ne, ℕ_discrete, ◌&&◌, ◌==◌, if◌then◌else◌, Bytes,
}
use tyche_engine.Common.Words.{gap32, is_zero, is_neg, gap32-eq}
use tyche_engine.Common.Slices.{take, drop, take-append}
use tyche_engine.Ring.{CasWeak}
use tyche_engine.Ring.Push.{Settles}
use tyche_engine.SharedQueue.{
  Config, Slot, Memory, no_slot, slot_header, overwrite, store, write_loop, write, min, add32,
}

abbrev pub slot_of : Memory → ℕ → Slot
slot_of m p = get_or m.slots p no_slot

-- The message that a slot holds.
abbrev pub message_of : Config → Slot → Bytes
message_of c s = take (min s.size c.max_msg_size) s.bytes

-- The messages `xs` have been written, and the first `r` of them read.
pub record Lap (c : Config) (m : Memory) (xs : List Bytes) (r : ℕ) : Type 0 where
  pub counted : m.slot_count ≡ c.slot_count
  pub short : c.slot_count < 2 ^ 30
  pub sized : c.max_msg_size < 2 ^ 32
  pub cells : length m.slots ≡ c.slot_count
  pub written : m.write_seq ≡ length xs
  pub reached : m.read_seq ≡ r
  pub within : length xs ≤ c.slot_count
  pub behind : r ≤ length xs
  pub used : (p : ℕ) → p < r → (slot_of m p).sequence ≡ p + c.slot_count + 1
  pub ready : (p : ℕ) → r ≤ p → p < length xs → (slot_of m p).sequence ≡ p + 1
  pub vacant : (p : ℕ) → length xs ≤ p → p < c.slot_count → (slot_of m p).sequence ≡ p
  pub holds : (p : ℕ) → p < length xs → message_of c (slot_of m p) ≡ get_or xs p []

module _ {c : Config} {m : Memory} {xs : List Bytes} {r : ℕ} (v : Lap c m xs r) where
  open v use {
    counted, short, sized, cells, written, reached, within, behind, used, ready, vacant, holds,
  }

  pub cell : (p : ℕ) → p < c.slot_count → p % m.slot_count ≡ p
  cell p h = mod-eq_of_lt (omega arith)

  pub header_at :
      (p : ℕ) → p < c.slot_count → slot_header c m (p % m.slot_count) ≡ some (slot_of m p)
  unfolding slot_header
  header_at p h = ap (slot_header c m) (cell p h) ∙ ground arith

  pub in_range : (pos : ℕ) → pos < c.slot_count → add32 pos 1 ≡ pos + 1
  in_range pos h = omega arith

  module _ (oks : List CasWeak) (ok : Bool) (bs : Bytes) (pos : ℕ) (h : pos < c.slot_count) where
    pub write_loop_step : write_loop (ok ∷ oks) bs c m pos ≡ (
        if is_zero (gap32 (slot_of m pos).sequence pos)
        then (if ok && (m.write_seq == pos)
            then some (true, store pos (pos % m.slot_count) bs (slot_of m pos) m)
            else write_loop oks bs c m m.write_seq)
        else (if is_neg (gap32 (slot_of m pos).sequence pos)
            then some (false, m)
            else write_loop oks bs c m m.write_seq))
    unfolding write_loop
    write_loop_step = rw (header_at pos h, write_loop) refl

  -- A write into a vacant slot.
  pub write_loop_vacant :
      (oks : List CasWeak) (bs : Bytes)
      → Settles oks
      → length xs < c.slot_count
      → write_loop oks bs c m (length xs)
        ≡ some (true, store (length xs) (length xs) bs (slot_of m (length xs)) m)
  unfolding write_loop
  write_loop_vacant [] bs s h = absurd s
  write_loop_vacant (true ∷ oks) bs s h =
      write_loop_step oks true bs (length xs) h
      ∙ ground (
        arith,
        written,
        cell (length xs) h,
        gap32-eq (slot_of m (length xs)).sequence (length xs),
        vacant (length xs),
      )
  write_loop_vacant (false ∷ oks) bs s h =
      write_loop_step oks false bs (length xs) h
      ∙ ground (
        arith,
        written,
        gap32-eq (slot_of m (length xs)).sequence (length xs),
        vacant (length xs),
        write_loop_vacant oks bs s h,
      )

  -- `write` of a message that fits goes on to the loop.
  pub write_fits :
      (oks : List CasWeak) (bs : Bytes)
      → 0 < length bs
      → length bs ≤ c.max_msg_size
      → write oks bs true c m ≡ write_loop oks bs c m (length xs)
  unfolding write
  write_fits oks bs a b = ground (arith, written)

  module _ (bs : Bytes) (h : length xs < c.slot_count) where
    abbrev pub stored : Memory
    stored = store (length xs) (length xs) bs (slot_of m (length xs)) m

    stored_self : slot_of stored (length xs) ≡ record {
      sequence = add32 (length xs) 1;
      size = length bs % 2 ^ 32;
      bytes = overwrite bs (slot_of m (length xs)).bytes;
    }
    stored_self = get_or-set_self m.slots (length xs) _ no_slot (omega arith)

    stored_ne : (p : ℕ) → length xs ≢ p → slot_of stored p ≡ slot_of m p
    stored_ne p n = get_or-set_ne m.slots (length xs) p _ no_slot n

    get_or-snoc_self : (ys : List Bytes) → get_or (ys ++ (bs ∷ [])) (length ys) [] ≡ bs
    get_or-snoc_self [] = refl
    get_or-snoc_self (y ∷ ys) = get_or-snoc_self ys

    get_or-snoc_lt :
        (ys : List Bytes) (p : ℕ) → p < length ys → get_or (ys ++ (bs ∷ [])) p [] ≡ get_or ys p []
    get_or-snoc_lt [] p l = absurd (omega arith)
    get_or-snoc_lt (y ∷ ys) zero l = refl
    get_or-snoc_lt (y ∷ ys) (suc p) l = get_or-snoc_lt ys p (omega arith)

    stored_message : length bs ≤ c.max_msg_size → message_of c (slot_of stored (length xs)) ≡ bs
    stored_message l =
        ap (message_of c) stored_self
        ∙ ap (λ n. take n (overwrite bs (slot_of m (length xs)).bytes)) {y = length bs}
            (ground arith)
        ∙ take-append bs (drop (length bs) (slot_of m (length xs)).bytes)

    pub stored-Lap : length bs ≤ c.max_msg_size → Lap c stored (xs ++ (bs ∷ [])) r
    stored-Lap l = record {
      counted = counted;
      short = short;
      sized = sized;
      cells = length-set m.slots (length xs) _ ∙ cells;
      written = in_range (length xs) h ∙ sym (length-append xs (bs ∷ []));
      reached = reached;
      within = omega (arith, length-append xs (bs ∷ []));
      behind = omega (arith, length-append xs (bs ∷ []));
      used = λ p a. ap (λ (t : Slot). t.sequence) (stored_ne p (λ e. omega arith)) ∙ used p a;
      ready = λ p a b. elim (ℕ_discrete (length xs) p) [
        | yes e ↦
            ap (λ q. (slot_of stored q).sequence) (sym e)
            ∙ ap (λ (t : Slot). t.sequence) stored_self
            ∙ in_range (length xs) h
            ∙ ap (λ q. q + 1) e
        | no n ↦
            ap (λ (t : Slot). t.sequence) (stored_ne p n)
            ∙ ready p a (omega (arith, length-append xs (bs ∷ [])))
      ];
      vacant = λ p a b.
          ap (λ (t : Slot). t.sequence)
            (stored_ne p (λ e. omega (arith, length-append xs (bs ∷ []))))
          ∙ vacant p (omega (arith, length-append xs (bs ∷ []))) b;
      holds = λ p a. elim (ℕ_discrete (length xs) p) [
        | yes e ↦
            ap (λ q. message_of c (slot_of stored q)) (sym e)
            ∙ stored_message l
            ∙ sym (get_or-snoc_self xs)
            ∙ ap (λ q. get_or (xs ++ (bs ∷ [])) q []) e
        | no n ↦
            let b : p < length xs = omega (arith, length-append xs (bs ∷ [])) in
            ap (message_of c) (stored_ne p n) ∙ holds p b ∙ sym (get_or-snoc_lt xs p b)
      ];
    }
