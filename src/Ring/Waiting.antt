-- ===== src/Ring/Waiting.antt =====
-- The loops of ring_buffer.h round `try_push`: `push_overwrite`, `push_blocking`, and the counters.
use tyche_engine.Common.{
  ℕ, zero, suc, ◌+◌, ◌-◌, ◌^◌, ◌≤◌, ◌<◌, ◌≡◌, refl, ap, ap₂, ◌∙◌, arith, some, List, [], ◌∷◌, ◌++◌,
  dec_lt, length, ltb, leb, if◌then◌else◌, ◌==◌,
}
use tyche_engine.Queue.{offer_overwrite, tail, drop}
use tyche_engine.Ring.{
  RingBuffer, CasWeak, push_overwrite, push_blocking, pops, size, empty, full, capacity,
}
use tyche_engine.Ring.Sequences.{IsValid, slots_pos}
use tyche_engine.Ring.Contents.{contents}
use tyche_engine.Ring.Push.{Settles}
use tyche_engine.Ring.Refine.{
  length-contents, try_push_refines, try_push_full, pop_refines, discard_refines, write_pos-pop,
}

length-tail {ℓ} : {A : Type ℓ} (xs : List A) → length (tail xs) ≡ length xs - 1
length-tail [] = omega arith
length-tail (x ∷ xs) = omega arith

drop-tail {ℓ} : {A : Type ℓ} (n : ℕ) (xs : List A) → drop n (tail xs) ≡ drop (suc n) xs
drop-tail zero [] = refl
drop-tail (suc n) [] = refl
drop-tail n (x ∷ xs) = refl

length-drop {ℓ} : {A : Type ℓ} (n : ℕ) (xs : List A) → length (drop n xs) ≡ length xs - n
length-drop zero xs = omega arith
length-drop (suc n) [] = omega arith
length-drop (suc n) (x ∷ xs) = omega (arith, length-drop n xs)

module _ {ℓ} {A : Type ℓ} (blank : A) (k : ℕ) where
  -- On a valid buffer whose positions are far enough from 2^63, with compare-exchanges that do not
  -- fail for ever, `push_overwrite` returns, the buffer stays valid, and its contents are those of
  -- a bounded queue that drops the oldest item when it is full.
  pub push_overwrite_refines :
      {r : RingBuffer A}
      → IsValid blank k r
      → r.write_pos + 2 ^ k + 1 < 2 ^ 63
      → (cs ds : List CasWeak) (css : List (List CasWeak)) (x : A) → Settles cs
      → Settles ds
      → (r' : RingBuffer A) × (push_overwrite blank (cs ∷ ds ∷ css) x r ≡ some r')
        × IsValid blank k r'
        × (contents blank r' ≡ offer_overwrite (2 ^ k) x (contents blank r))
  unfolding push_overwrite
  push_overwrite_refines {r} v room cs ds css x s t =
      let (r₁, e₁, v₁, c₁) = try_push_refines blank k v cs x s room in
      let (w, c, p) = discard_refines blank k v in
      let (r₂, e₂, v₂, c₂) = try_push_refines blank k w ds x t (omega (arith, p)) in
      elim (dec_lt (length (contents blank r)) (2 ^ k)) [
        | yes h ↦ (r₁, ground (arith, e₁), v₁, ground (arith, c₁))
        | no h ↦ (
          r₂,
          ground (
            arith,
            try_push_full blank k v cs x s (at_bound h),
            e₂,
            c,
            length-tail (contents blank r),
            length-contents blank k r,
            v.ahead,
            slots_pos k,
          ),
          v₂,
          ground (
            arith,
            c₂,
            c,
            length-tail (contents blank r),
            length-contents blank k r,
            v.ahead,
            slots_pos k,
          ),
        )
      ]
    where
      at_bound : ¬ (length (contents blank r) < 2 ^ k) → r.write_pos ≡ r.read_pos + 2 ^ k
      at_bound h = omega (arith, length-contents blank k r, v.ahead)

  pub pops_refines :
      (n : ℕ) {r : RingBuffer A}
      → IsValid blank k r
      → IsValid blank k (pops blank n r)
        × (contents blank (pops blank n r) ≡ drop n (contents blank r))
        × ((pops blank n r).write_pos ≡ r.write_pos)
  unfolding pops
  pops_refines zero v = (v, refl, refl)
  pops_refines (suc n) {r} v =
      let (e, w, c) = pop_refines blank k v in
      let (w', c', p) = pops_refines n w in
      (w', c' ∙ ap (drop n) c ∙ drop-tail n (contents blank r), p ∙ write_pos-pop blank r)

  -- On a valid buffer whose positions are far enough from 2^63, with compare-exchanges that do not
  -- fail for ever and a consumer that pops at least one item while the producer yields,
  -- `push_blocking` returns, and puts the item behind those that are left.
  pub push_blocking_refines :
      {r : RingBuffer A}
      → IsValid blank k r
      → r.write_pos + 2 ^ k + 1 < 2 ^ 63
      → (cs ds : List CasWeak) (n m : ℕ) (css : List (List CasWeak × ℕ)) (x : A) → Settles cs
      → Settles ds
      → 0 < n
      → (r' : RingBuffer A) × (push_blocking blank ((cs, n) ∷ (ds, m) ∷ css) x r ≡ some r')
        × IsValid blank k r'
        × (contents blank r'
            ≡ (if ltb (length (contents blank r)) (2 ^ k)
                then contents blank r
                else drop n (contents blank r))
              ++ (x ∷ []))
  unfolding push_blocking
  push_blocking_refines {r} v room cs ds n m css x s t h =
      elim (dec_lt (length (contents blank r)) (2 ^ k)) [
        | yes free ↦
            let (r₁, e₁, v₁, c₁) = try_push_refines blank k v cs x s room in
            (r₁, ground (arith, e₁), v₁, ground (arith, c₁))
        | no taken ↦
            let (w, c, p) = pops_refines n v in
            let (r₂, e₂, v₂, c₂) = try_push_refines blank k w ds x t (omega (arith, p)) in
            (
              r₂,
              ground (
                arith,
                try_push_full blank k v cs x s (at_bound taken),
                e₂,
                c,
                length-drop n (contents blank r),
                length-contents blank k r,
                v.ahead,
                slots_pos k,
              ),
              v₂,
              ground (
                arith,
                c₂,
                c,
                length-drop n (contents blank r),
                length-contents blank k r,
                v.ahead,
                slots_pos k,
              ),
            )
      ]
    where
      at_bound : ¬ (length (contents blank r) < 2 ^ k) → r.write_pos ≡ r.read_pos + 2 ^ k
      at_bound h = omega (arith, length-contents blank k r, v.ahead)

  -- On a valid buffer, `size`, `empty`, `full` and `capacity` agree with the contents, and there
  -- are never more items than slots.
  pub size_refines :
      {r : RingBuffer A}
      → IsValid blank k r
      → (size r ≡ length (contents blank r))
        × (empty r ≡ (length (contents blank r) == 0))
        × (full r ≡ leb (2 ^ k) (length (contents blank r)))
        × (capacity r ≡ 2 ^ k)
        × (length (contents blank r) ≤ 2 ^ k)
  unfolding size empty full capacity
  size_refines {r} v = (
    held,
    ap (λ n. n == 0) held,
    ap₂ leb cap held,
    cap,
    omega (arith, length-contents blank k r, v.ahead),
  )
    where
      held : size r ≡ length (contents blank r)
      held = ground (arith, length-contents blank k r, v.ahead, v.behind, v.room)

      cap : capacity r ≡ 2 ^ k
      cap = omega (arith, v.masked, v.room, slots_pos k)
