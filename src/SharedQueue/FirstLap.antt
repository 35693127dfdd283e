-- ===== src/SharedQueue/FirstLap.antt =====
-- shared_memory_queue.cpp against the list of the messages written, while no slot is used twice.
use tyche_engine.Common.{
  ℕ, zero, suc, ◌%◌, ◌≤◌, ◌<◌, ◌≡◌, ◌≢◌, refl, sym, ap, ap₂, subst, ltb, get_elem?,
  get_elem?-eq-get_or, dec_lt, ◌∙◌, arith, true, Option, none, some, List, [], ◌∷◌, ◌++◌, length,
  length-set, get_or, get_or-set_self, get_or-set_ne, ℕ_discrete, if◌then◌else◌, Bytes,
}
use tyche_engine.Common.Words.{gap32-lt}
use tyche_engine.Ring.{CasWeak}
use tyche_engine.Ring.Push.{Settles}
use tyche_engine.SharedQueue.{Config, Slot, Memory, no_slot, release, write, read, add32}
use tyche_engine.SharedQueue.Lap.{
  Lap, slot_of, message_of, cell, write_fits, write_loop_vacant, stored, stored-Lap,
}
use tyche_engine.SharedQueue.Reading.{read_ready, read_not_ready}

module _ {c : Config} {m : Memory} {xs : List Bytes} {r : ℕ} (v : Lap c m xs r) where
  open v use {
    counted, short, sized, cells, written, reached, within, behind, used, ready, vacant, holds,
  }

  -- While fewer messages than slots have been written since the owner set up the memory, and the
  -- compare-exchanges do not fail for ever: `write` of a message that is not empty and fits into a
  -- slot returns true, and the queue holds the message behind the earlier ones; what has been read
  -- stays read.
  pub write_first :
      (oks : List CasWeak) (bs : Bytes)
      → Settles oks
      → length xs < c.slot_count
      → 0 < length bs
      → length bs ≤ c.max_msg_size
      → (m' : Memory) × (write oks bs true c m ≡ some (true, m')) × Lap c m' (xs ++ (bs ∷ [])) r
  write_first oks bs s h a b =
      (stored v bs h, write_fits v oks bs a b ∙ write_loop_vacant v oks bs s h, stored-Lap v bs h b)

  module _ (h : r < length xs) where
    abbrev freed : Memory
    freed = release r r (slot_of m r) m

    at_read : m.read_seq % m.slot_count ≡ r
    at_read = ap (λ p. p % m.slot_count) reached ∙ cell v r (omega arith)

    freed_self :
        slot_of freed r ≡ record (slot_of m r) { sequence = add32 (add32 r m.slot_count) 1 }
    freed_self = get_or-set_self m.slots r _ no_slot (omega arith)

    freed_ne : (p : ℕ) → r ≢ p → slot_of freed p ≡ slot_of m p
    freed_ne p n = get_or-set_ne m.slots r p _ no_slot n

    freed-Lap : Lap c freed xs (suc r)
    freed-Lap = record {
      counted = counted;
      short = short;
      sized = sized;
      cells = length-set m.slots r _ ∙ cells;
      written = written;
      reached = omega arith;
      within = within;
      behind = omega arith;
      used = λ p a. elim (ℕ_discrete r p) [
        | yes e ↦
            ap (λ q. (slot_of freed q).sequence) (sym e)
            ∙ ap (λ (t : Slot). t.sequence) freed_self
            ∙ omega arith
        | no n ↦ ap (λ (t : Slot). t.sequence) (freed_ne p n) ∙ used p (omega arith)
      ];
      ready = λ p a b.
          ap (λ (t : Slot). t.sequence) (freed_ne p (λ e. omega arith)) ∙ ready p (omega arith) b;
      vacant =
          λ p a b. ap (λ (t : Slot). t.sequence) (freed_ne p (λ e. omega arith)) ∙ vacant p a b;
      holds = λ p a. elim (ℕ_discrete r p) [
        | yes e ↦
            ap (λ q. message_of c (slot_of freed q)) (sym e)
            ∙ ap (message_of c) freed_self
            ∙ holds r h
            ∙ ap (λ q. get_or xs q []) e
        | no n ↦ ap (message_of c) (freed_ne p n) ∙ holds p a
      ];
    }

    read_first_some : read true c m ≡ (some (get_or xs r []), freed)
    read_first_some =
        read_ready c m counted (omega arith)
          (ap (λ i. (slot_of m i).sequence) at_read ∙ ready r (omega arith) h ∙ omega arith)
          (omega arith)
        ∙ ap₂ (λ p i. (some (message_of c (slot_of m i)), release p i (slot_of m i) m)) reached
            at_read
        ∙ ap (λ t. (some t, freed)) (holds r h)

  read_first_none : r < c.slot_count → r ≡ length xs → read true c m ≡ (none, m)
  read_first_none h e = read_not_ready c m counted (omega arith) (
      (gap32-lt (slot_of m (m.read_seq % m.slot_count)).sequence (add32 m.read_seq 1) (omega arith)
        (omega (arith, seq))).0)
    where
      seq : (slot_of m (m.read_seq % m.slot_count)).sequence ≡ r
      seq =
          ap (λ i. (slot_of m i).sequence) (ap (λ p. p % m.slot_count) reached ∙ cell v r h)
          ∙ vacant r (omega arith) h

  -- While fewer messages have been read than there are slots: `read` returns the first of the
  -- written messages that has not been read, and counts it as read, or returns nothing if all of
  -- them have been.
  pub read_first :
      r < c.slot_count
      → ((read true c m).0 ≡ get_elem? xs r)
        × Lap c (read true c m).1 xs (if ltb r (length xs) then suc r else r)
  read_first h = elim (dec_lt r (length xs)) [
    | yes l ↦ (
      ap (λ t. t.0) (read_first_some l) ∙ sym (get_elem?-eq-get_or xs r [] l),
      subst (λ (t : Option Bytes × Memory). Lap c t.1 xs (if ltb r (length xs) then suc r else r))
          (sym (read_first_some l)) (subst (Lap c (freed l) xs) (ground arith) (freed-Lap l)),
    )
    | no n ↦ (
      ap (λ t. t.0) (read_first_none h (omega arith)) ∙ sym (past xs r (omega arith)),
      subst (λ (t : Option Bytes × Memory). Lap c t.1 xs (if ltb r (length xs) then suc r else r))
          (sym (read_first_none h (omega arith))) (subst (Lap c m xs) (ground arith) v),
    )
  ]
    where
      past : (ys : List Bytes) (p : ℕ) → length ys ≤ p → get_elem? ys p ≡ none
      past [] p h = refl
      past (y ∷ ys) zero h = absurd (omega arith)
      past (y ∷ ys) (suc p) h = past ys p (omega arith)
