-- ===== src/Ring/Refine.antt =====
-- `try_push`, `pop` and the discarding step of ring_buffer.h against the bounded queue of the contents.
use tyche_engine.Common.{
  ℕ, ◌+◌, ◌-◌, ◌^◌, ◌<◌, ◌≡◌, refl, sym, subst, arith, true, false, some, Option, List, [], ◌∷◌,
  dec_lt, length,
}
use tyche_engine.Queue.{offer, tail, head?}
use tyche_engine.Ring.{RingBuffer, CasWeak, claim, try_push, discard, pop}
use tyche_engine.Ring.Sequences.{IsValid}
use tyche_engine.Ring.Contents.{contents, length-items}
use tyche_engine.Ring.Push.{
  Settles, push_loop_vacant, push_loop_full, claim-IsValid, contents-claim,
}
use tyche_engine.Ring.Pop.{discard-pop, pop-none, pop-some, freed-IsValid, contents-freed}

eq_nil {ℓ} : {A : Type ℓ} (xs : List A) → length xs ≡ 0 → xs ≡ []
eq_nil [] h = refl
eq_nil (x ∷ xs) h = absurd (omega arith)

pub write_pos-pop {ℓ} :
    {A : Type ℓ} (blank : A) (r : RingBuffer A) → (pop blank r).1.write_pos ≡ r.write_pos
unfolding pop
write_pos-pop blank r = ground arith

module _ {ℓ} {A : Type ℓ} (blank : A) (k : ℕ) where
  pub length-contents : (r : RingBuffer A) → length (contents blank r) ≡ r.write_pos - r.read_pos
  unfolding contents
  length-contents r = length-items blank r r.read_pos (r.write_pos - r.read_pos)

  -- A buffer that holds the queue `q`.
  pub record Holds (q : List A) (r : RingBuffer A) : Type ℓ where
    pub valid : IsValid blank k r
    pub same : contents blank r ≡ q

  module _ {r : RingBuffer A} (v : IsValid blank k r) where
    try_push_vacant :
        (cs : List CasWeak) (x : A)
        → Settles cs
        → r.write_pos < r.read_pos + 2 ^ k
        → try_push blank cs x r ≡ some (true, claim blank r r.write_pos x)
    unfolding try_push
    try_push_vacant cs x s h = push_loop_vacant blank k v cs x s h

    pub try_push_full :
        (cs : List CasWeak) (x : A)
        → Settles cs
        → r.write_pos ≡ r.read_pos + 2 ^ k
        → try_push blank cs x r ≡ some (false, r)
    unfolding try_push
    try_push_full cs x s h = push_loop_full blank k v cs x s h

    -- On a valid buffer whose positions are far enough from 2^63, with compare-exchanges that do
    -- not fail for ever, `try_push` returns, the buffer stays valid, and answer and contents are
    -- those of offering the item to a bounded queue, which refuses it when it is full.
    pub try_push_refines :
        (cs : List CasWeak) (x : A)
        → Settles cs
        → r.write_pos + 2 ^ k + 1 < 2 ^ 63
        → (r' : RingBuffer A) × (try_push blank cs x r
            ≡ some ((offer (2 ^ k) x (contents blank r)).0, r'))
          × IsValid blank k r'
          × (contents blank r' ≡ (offer (2 ^ k) x (contents blank r)).1)
    try_push_refines cs x s room = elim (dec_lt r.write_pos (r.read_pos + 2 ^ k)) [
      | yes h ↦ (
        claim blank r r.write_pos x,
        ground (arith, try_push_vacant cs x s h, length-contents r, v.behind),
        claim-IsValid blank k v x h room,
        ground (arith, contents-claim blank k v x h, length-contents r, v.behind),
      )
      | no h ↦ (
        r,
        ground (arith, try_push_full cs x s, length-contents r, v.behind, v.ahead),
        v,
        ground (arith, length-contents r, v.behind, v.ahead),
      )
    ]

    -- On a valid buffer, `pop` returns the oldest item, if there is one, takes it out of the
    -- contents, and leaves the buffer valid.
    pub pop_refines :
        ((pop blank r).0 ≡ head? (contents blank r))
        × IsValid blank k (pop blank r).1
        × (contents blank (pop blank r).1 ≡ tail (contents blank r))
    pop_refines = elim (dec_lt r.read_pos r.write_pos) [
      | yes h ↦ (
        ground (arith, pop-some blank k v h, contents-freed blank k v h),
        subst (λ (t : Option A × RingBuffer A). IsValid blank k t.1) (sym (pop-some blank k v h))
            (freed-IsValid blank k v h),
        ground (arith, pop-some blank k v h, contents-freed blank k v h),
      )
      | no h ↦ (
        ground (arith, pop-none blank k v, nothing_held h, v.behind),
        subst (λ (t : Option A × RingBuffer A). IsValid blank k t.1)
            (sym (pop-none blank k v (omega arith))) v,
        ground (arith, pop-none blank k v, nothing_held h, v.behind),
      )
    ]
      where
        nothing_held : ¬ (r.read_pos < r.write_pos) → contents blank r ≡ []
        nothing_held h = eq_nil (contents blank r) (omega (arith, length-contents r))

    pub discard_refines :
        IsValid blank k (discard blank r)
        × (contents blank (discard blank r) ≡ tail (contents blank r))
        × ((discard blank r).write_pos ≡ r.write_pos)
    discard_refines = rw (discard-pop blank r) (pop_refines.1, pop_refines.2, write_pos-pop blank r)
