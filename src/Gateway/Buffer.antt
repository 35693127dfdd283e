-- ===== src/Gateway/Buffer.antt =====
-- src/modules/ctp_gateway_cpp/src/ctp_gateway.cpp: the ticks of options in the ring buffer.
use tyche_engine.Common.{
  ℕ, zero, suc, ◌+◌, ◌%◌, ◌^◌, ◌≤◌, ◌<◌, ◌≡◌, refl, arith, Bool, true, false, Option, none, some,
  List, [], ◌∷◌, length, dec_lt, ltb, ◌⊎◌, if◌then◌else◌, lt→ltb,
}
use tyche_engine.Queue.{offer_overwrite, tail, head?, drop}
use tyche_engine.Common.Slices.{take}
use tyche_engine.Ring.{
  RingBuffer, CasWeak, claim, push_loop, try_push, discard, push_overwrite, pop,
}
use tyche_engine.Ring.Sequences.{IsValid}
use tyche_engine.Ring.Contents.{contents}
use tyche_engine.Ring.Push.{Settles}
use tyche_engine.Ring.Refine.{try_push_refines, try_push_full, pop_refines, length-contents}
use tyche_engine.Ring.Waiting.{push_overwrite_refines}
use tyche_engine.Quote.{QuoteTick, blank_tick}
use tyche_engine.Gateway.{CtpGateway, store_tick, pop_batch}

module _ {ℓ} {A : Type ℓ} (blank : A) where
  write_pos-push_loop :
      (cs : List CasWeak) (x : A) (r : RingBuffer A) (p : ℕ) (b : Bool) (r' : RingBuffer A)
      → push_loop blank cs x r p ≡ some (b, r')
      → (r'.write_pos ≤ r.write_pos + 1) × ((b ≡ true) ⊎ (r'.write_pos ≤ r.write_pos))
  unfolding push_loop claim
  write_pos-push_loop [] x r p b r' h = absurd (cc)
  write_pos-push_loop (c ∷ cs) x r p b r' h =
      ground (arith, write_pos-push_loop cs x r r.write_pos b r')

  write_pos-try_push :
      (cs : List CasWeak) (x : A) (r r' : RingBuffer A)
      → try_push blank cs x r ≡ some (true, r')
      → r'.write_pos ≤ r.write_pos + 1
  unfolding try_push
  write_pos-try_push cs x r r' h = (write_pos-push_loop cs x r r.write_pos true r' h).0

  write_pos-discard : (r : RingBuffer A) → (discard blank r).write_pos ≡ r.write_pos
  unfolding discard
  write_pos-discard r = ground arith

  pub write_pos-push_overwrite :
      (css : List (List CasWeak)) (x : A) (r r' : RingBuffer A)
      → push_overwrite blank css x r ≡ some r'
      → r'.write_pos ≤ r.write_pos + 1
  unfolding push_overwrite try_push
  write_pos-push_overwrite [] x r r' h = absurd (cc)
  write_pos-push_overwrite (cs ∷ css) x r r' h =
      by_result (λ t g. write_pos-push_overwrite css x (discard blank t) r' g)
        (push_loop blank cs x r r.write_pos) refl h
    where
      by_result :
          ((t : RingBuffer A)
            → push_overwrite blank css x (discard blank t) ≡ some r'
            → r'.write_pos ≤ (discard blank t).write_pos + 1)
          → (o : Option (Bool × RingBuffer A)) → push_loop blank cs x r r.write_pos ≡ o
          → elim o [
            | none ↦ none
            | some (true, t) ↦ some t
            | some (false, t) ↦ push_overwrite blank css x (discard blank t)
          ]
            ≡ some r'
          → r'.write_pos ≤ r.write_pos + 1
      by_result ih none e h' = absurd (cc)
      by_result ih (some (true, t)) e h' =
          ground (arith, write_pos-push_loop cs x r r.write_pos true t e)
      by_result ih (some (false, t)) e h' =
          ground
            (arith, write_pos-push_loop cs x r r.write_pos false t e, write_pos-discard t, ih t h')

-- The compare-exchanges of one call let one through where it is needed.
pub record Exchanges : Type 0 where
  pub first : List CasWeak
  pub second : List CasWeak
  pub third : List CasWeak
  pub more : List (List CasWeak)
  pub settles : Settles first
  pub settles₂ : Settles second
  pub settles₃ : Settles third

module _ {D : Type 0} (z : D) (k : ℕ) where
  -- A valid buffer with room for `n` further pushes.
  pub record HasRoom (n : ℕ) (r : RingBuffer (QuoteTick D)) : Type 0 where
    pub valid : IsValid (blank_tick z) k r
    pub room : r.write_pos + n + 2 ^ k < 2 ^ 63

module _ {D F H : Type 0} (z : D) (k : ℕ) where
  abbrev pub held : CtpGateway D F H → List (QuoteTick D)
  held g = contents (blank_tick z) g.option_ring_buffer

  -- `g` with a tick more in its buffer.
  pub record Stored (t : QuoteTick D) (g g' : CtpGateway D F H) : Type 0 where
    pub within : IsValid (blank_tick z) k g'.option_ring_buffer
    pub moved : g'.option_ring_buffer.write_pos ≤ g.option_ring_buffer.write_pos + 1
    pub holds : held g' ≡ offer_overwrite (2 ^ k) t (held g)
    pub else_same : g' ≡ record g {
      option_ring_buffer = g'.option_ring_buffer;
      option_dropped_count =
          if ltb (length (held g)) (2 ^ k)
          then g.option_dropped_count
          else (g.option_dropped_count + 1) % 2 ^ 32;
    }

  pub store_tick_lem :
      {n : ℕ} (x : Exchanges) (t : QuoteTick D) (g : CtpGateway D F H)
      → HasRoom z k (suc n) g.option_ring_buffer
      → (g' : CtpGateway D F H) × (store_tick z x.first (x.second ∷ x.third ∷ x.more) t g ≡ some g')
        × Stored t g g'
  unfolding store_tick
  store_tick_lem {n} x t g h = elim (dec_lt (length (held g)) (2 ^ k)) [
    | yes free ↦
        let (r₁, e, v, c) =
          try_push_refines blank k h.valid x.first t x.settles (omega (arith, h.room)) in
        let e' : try_push blank x.first t r ≡ some (true, r₁) = ground (arith, e) in
        (
          record g { option_ring_buffer = r₁ },
          rw (e', store_tick) refl,
          record {
            within = v;
            moved = write_pos-try_push blank x.first t r r₁ e';
            holds = ground (arith, c);
            else_same = rw (lt→ltb _ _ free) refl;
          },
        )
    | no full ↦
        let e' : try_push blank x.first t r ≡ some (false, r) =
          try_push_full blank k h.valid x.first t x.settles (at_bound full) in
        let (r₁, e, v, c) =
          push_overwrite_refines blank k h.valid (omega (arith, h.room)) x.second x.third x.more t
            x.settles₂ x.settles₃ in
        let more : ltb (length (held g)) (2 ^ k) ≡ false = ground arith in
        (
          record g {
            option_ring_buffer = r₁;
            option_dropped_count = (g.option_dropped_count + 1) % 2 ^ 32;
          },
          rw (e', store_tick, e) refl,
          record {
            within = v;
            moved = write_pos-push_overwrite blank (x.second ∷ x.third ∷ x.more) t r r₁ e;
            holds = c;
            else_same = rw more refl;
          },
        )
  ]
    where
      blank : QuoteTick D
      blank = blank_tick z

      r : RingBuffer (QuoteTick D)
      r = g.option_ring_buffer

      at_bound : ¬ (length (held g) < 2 ^ k) → r.write_pos ≡ r.read_pos + 2 ^ k
      at_bound f = omega (arith, length-contents blank k r, h.valid.ahead)

module _ {D : Type 0} (z : D) (k : ℕ) where
  abbrev blank : QuoteTick D
  blank = blank_tick z

  -- What `pop_batch` takes out, oldest first, and what it leaves.
  pub pop_batch_lem :
      (n : ℕ) {r : RingBuffer (QuoteTick D)}
      → IsValid blank k r
      → ((pop_batch z n r).0 ≡ take n (contents blank r))
        × IsValid blank k (pop_batch z n r).1
        × (contents blank (pop_batch z n r).1 ≡ drop n (contents blank r))
  unfolding pop_batch
  pop_batch_lem zero v = (refl, v, refl)
  pop_batch_lem (suc n) {r} v =
      let (e, w, c) = pop_refines blank k v in
      by_item (contents blank r) (pop blank r).0 e w c (pop_batch_lem n w)
    where
      by_item :
          (q : List (QuoteTick D)) (o : Option (QuoteTick D))
          → o ≡ head? q
          → IsValid blank k (pop blank r).1
          → contents blank (pop blank r).1 ≡ tail q
          → ((pop_batch z n (pop blank r).1).0 ≡ take n (contents blank (pop blank r).1))
            × IsValid blank k (pop_batch z n (pop blank r).1).1
            × (contents blank (pop_batch z n (pop blank r).1).1
                ≡ drop n (contents blank (pop blank r).1))
          → let res : List (QuoteTick D) × RingBuffer (QuoteTick D) = elim o [
            | none ↦ ([], (pop blank r).1)
            | some t ↦ (t ∷ (pop_batch z n (pop blank r).1).0, (pop_batch z n (pop blank r).1).1)
          ] in
            (res.0 ≡ take (suc n) q)
            × IsValid blank k res.1
            × (contents blank res.1 ≡ drop (suc n) q)
      by_item [] none e w c ih = (refl, w, c)
      by_item [] (some t) e w c ih = absurd (cc)
      by_item (x ∷ q) none e w c ih = absurd (cc)
      by_item (x ∷ q) (some t) e w c (a, b, d) = (ground (arith, a, c), b, ground (arith, c, d))
