-- ===== src/Ring.antt =====
-- src/tyche/cpp/engine/ring_buffer.h: the ring buffer with a sequence number in each slot.
-- A call runs from its first load to its return with no other thread between; `CasWeak` says of
-- each compare_exchange_weak whether it fails spuriously. A failed compare-exchange, and a slot that
-- another producer has claimed, take the loop round again.
pub mod Sequences
pub mod Contents
pub mod Push
pub mod Pop
pub mod Refine
pub mod Waiting
pub mod Start
use Prim.Native.Nat.{bit_and, bit_or}
use tyche_engine.Common.{
  ℕ, zero, suc, ◌+◌, ◌-◌, ◌/◌, ◌^◌, Bool, true, false, ◌&&◌, Option, none, some, List, [], ◌∷◌,
  length, get_or, set, ltb, leb, ◌==◌, if◌then◌else◌, map,
}
use tyche_engine.Common.Words.{add_size, sub_size, gap, is_zero, is_neg}

pub record Slot {ℓ} (A : Type ℓ) : Type ℓ where
  pub sequence : ℕ
  pub item : A

pub record RingBuffer {ℓ} (A : Type ℓ) : Type ℓ where
  pub mask : ℕ
  pub write_pos : ℕ
  pub read_pos : ℕ
  pub slots : List (Slot A)

-- `true`: the compare-exchange is not disturbed.
abbrev pub CasWeak : Type 0
CasWeak = Bool

abbrev shift_or : ℕ → ℕ → ℕ
shift_or k n = bit_or n (n / 2 ^ k)

unfoldable pub next_power_of_2 : ℕ → ℕ
next_power_of_2 n =
    if leb n 1
    then 1
    else add_size
        (shift_or 32 (shift_or 16 (shift_or 8 (shift_or 4 (shift_or 2 (shift_or 1 (n - 1))))))) 1

module _ {ℓ} {A : Type ℓ} (blank : A) where
  -- `n` slots from index `i` on, each with its index for its sequence.
  unfoldable pub fresh_slots : ℕ → ℕ → List (Slot A)
  fresh_slots i zero = []
  fresh_slots i (suc n) = record { sequence = i; item = blank } ∷ fresh_slots (suc i) n

  unfoldable pub new : ℕ → RingBuffer A
  unfolding fresh_slots
  new requested_capacity =
      let mask =
        sub_size (next_power_of_2 (if ltb requested_capacity 2 then 2 else requested_capacity)) 1 in
      record { mask = mask; write_pos = 0; read_pos = 0; slots = fresh_slots 0 (add_size mask 1) }

  -- `_slots[pos & _mask]`
  abbrev pub slot_at : RingBuffer A → ℕ → Slot A
  slot_at r p = get_or r.slots (bit_and p r.mask) (record { sequence = 0; item = blank })

  abbrev pub put_slot : RingBuffer A → ℕ → Slot A → List (Slot A)
  put_slot r p s = set r.slots (bit_and p r.mask) s

  -- The branch of a compare-exchange that succeeds: the slot is claimed, filled and released.
  unfoldable pub claim : RingBuffer A → ℕ → A → RingBuffer A
  claim r p x = record r {
    write_pos = add_size p 1;
    slots = put_slot r p (record { sequence = add_size p 1; item = x });
  }

  -- The `for (;;)` of `try_push`, entered with `pos = p`. `none`: it is still running when the list
  -- of compare-exchanges ends.
  unfoldable pub push_loop : List CasWeak → A → RingBuffer A → ℕ → Option (Bool × RingBuffer A)
  unfolding claim
  push_loop [] x r p = none
  push_loop (c ∷ cs) x r p =
      let again = push_loop cs x r r.write_pos in
      let diff = gap (slot_at r p).sequence p in
      if is_zero diff
      then (if c && (r.write_pos == p) then some (true, claim r p x) else again)
      else (if is_neg diff then some (false, r) else again)

  unfoldable pub try_push : List CasWeak → A → RingBuffer A → Option (Bool × RingBuffer A)
  try_push cs x r = push_loop cs x r r.write_pos

  -- The body of the `while` of `push_overwrite`.
  unfoldable pub discard : RingBuffer A → RingBuffer A
  discard r =
      let rpos = r.read_pos in
      let slot = slot_at r rpos in
      if is_zero (gap slot.sequence (add_size rpos 1))
      then record r {
        read_pos = add_size rpos 1;
        slots = put_slot r rpos (record slot { sequence = add_size (add_size rpos r.mask) 1 });
      }
      else r

  -- One list of compare-exchanges for each call of `try_push`.
  unfoldable pub push_overwrite : List (List CasWeak) → A → RingBuffer A → Option (RingBuffer A)
  push_overwrite [] x r = none
  push_overwrite (cs ∷ css) x r = elim (try_push cs x r) [
    | none ↦ none
    | some (true, r') ↦ some r'
    | some (false, r') ↦ push_overwrite css x (discard r')
  ]

  unfoldable pub pop : RingBuffer A → Option A × RingBuffer A
  pop r =
      let p = r.read_pos in
      let slot = slot_at r p in
      if is_zero (gap slot.sequence (add_size p 1))
      then (
        some slot.item,
        record r {
          slots = put_slot r p (record slot { sequence = add_size (add_size p r.mask) 1 });
          read_pos = add_size p 1;
        },
      )
      else (none, r)

  -- What the consumer does while a blocked producer yields.
  unfoldable pub pops : ℕ → RingBuffer A → RingBuffer A
  pops zero r = r
  pops (suc n) r = pops n (pop r).1

  -- Each `yield` lets the consumer make some number of calls of `pop`.
  unfoldable pub push_blocking : List (List CasWeak × ℕ) → A → RingBuffer A → Option (RingBuffer A)
  push_blocking [] x r = none
  push_blocking ((cs, n) ∷ css) x r = elim (try_push cs x r) [
    | none ↦ none
    | some (true, r') ↦ some r'
    | some (false, r') ↦ push_blocking css x (pops n r')
  ]

  -- `push` is an alias of `push_blocking`.
  unfoldable pub push : List (List CasWeak × ℕ) → A → RingBuffer A → Option (RingBuffer A)
  push = push_blocking

module _ {ℓ} {A : Type ℓ} where
  unfoldable pub size : RingBuffer A → ℕ
  size r = if leb r.read_pos r.write_pos then sub_size r.write_pos r.read_pos else 0

  unfoldable pub empty : RingBuffer A → Bool
  unfolding size
  empty r = size r == 0

  unfoldable pub capacity : RingBuffer A → ℕ
  capacity r = add_size r.mask 1

  unfoldable pub full : RingBuffer A → Bool
  unfolding size
  full r = leb (add_size r.mask 1) (size r)
