-- ===== src/Gateway/Mixed.antt =====
-- src/modules/ctp_gateway_cpp/src/ctp_gateway.cpp: quotes that arrive while the thread for the options
-- does its rounds, in any order.
use mathlib.Core.List.{append-nil}
use tyche_engine.Common.{
  ℕ, zero, suc, ◌^◌, ◌≡◌, refl, sym, ap, ap₂, subst, ◌∙◌, arith, Bool, true, false, Option, none,
  some, List, [], ◌∷◌, ◌++◌, length, Bytes, codes,
}
use tyche_engine.Common.Slices.{take}
use tyche_engine.Queue.{drop}
use tyche_engine.Queue.Newest.{offer_all}
use tyche_engine.Wire.{Msgpack}
use tyche_engine.TycheModule.{TycheModule}
use tyche_engine.Ring.{RingBuffer, pop}
use tyche_engine.Ring.Refine.{write_pos-pop}
use tyche_engine.Quote.{QuoteTick, blank_tick}
use tyche_engine.Gateway.{
  CtpGateway, on_quote_received, send_tick, send_ticks, check_stale, pop_batch, dispatch_batch,
  dispatch_round,
}
use tyche_engine.Gateway.Buffer.{HasRoom, held}
use tyche_engine.Gateway.Stream.{
  Arrival, option_ticks, futures, messages, tick_messages, published_also, published_also-append,
  Online, Streamed, quote_lem,
}
use tyche_engine.Gateway.Drained.{sent_of}
use tyche_engine.Gateway.Rounds.{dispatch_round_lem}

-- A quote, or a round with its two readings of the clock, which publishes the items that `sents`
-- does not exclude.
pub data Event (D F : Type 0) : Type 0 where
  quoted : Arrival D F → Event D F
  rounded : ℕ → ℕ → List Bool → Event D F

module _ {D : Type 0} (z : D) where
  write_pos-pop_batch :
      (n : ℕ) (r : RingBuffer (QuoteTick D)) → (pop_batch z n r).1.write_pos ≡ r.write_pos
  unfolding pop_batch
  write_pos-pop_batch zero r = refl
  write_pos-pop_batch (suc n) r =
      by_item (pop (blank_tick z) r).0
        (write_pos-pop_batch n (pop (blank_tick z) r).1 ∙ write_pos-pop (blank_tick z) r)
        (write_pos-pop (blank_tick z) r)
    where
      by_item :
          (o : Option (QuoteTick D))
          → (pop_batch z n (pop (blank_tick z) r).1).1.write_pos ≡ r.write_pos
          → (pop (blank_tick z) r).1.write_pos ≡ r.write_pos
          → let res : List (QuoteTick D) × RingBuffer (QuoteTick D) = elim o [
            | none ↦ ([], (pop (blank_tick z) r).1)
            | some t ↦ (
              t ∷ (pop_batch z n (pop (blank_tick z) r).1).0,
              (pop_batch z n (pop (blank_tick z) r).1).1,
            )
          ] in
            res.1.write_pos ≡ r.write_pos
      by_item none e f = f
      by_item (some t) e f = e

module _ {D F H : Type 0} (mp : Msgpack D F) where
  -- A batch and a round keep the set of options, and the position of the next push.
  Kept : CtpGateway D F H → CtpGateway D F H → Type 0
  Kept g g' =
      (g'.option_instrument_set ≡ g.option_instrument_set)
      × (g'.option_ring_buffer.write_pos ≡ g.option_ring_buffer.write_pos)

  send_ticks-Kept :
      (ts : List (QuoteTick D)) (sents : List Bool) (g : CtpGateway D F H)
      → Kept g (send_ticks mp ts sents g)
  unfolding send_ticks send_tick Kept
  send_ticks-Kept [] sents g = (refl, refl)
  send_ticks-Kept (t ∷ ts) [] g = send_ticks-Kept ts [] (send_tick mp true t g)
  send_ticks-Kept (t ∷ ts) (true ∷ sents) g = send_ticks-Kept ts sents (send_tick mp true t g)
  send_ticks-Kept (t ∷ ts) (false ∷ sents) g = send_ticks-Kept ts sents (send_tick mp false t g)

  check_stale-Kept :
      (now age_now last : ℕ) (g : CtpGateway D F H) → Kept g (check_stale now age_now last g).1
  unfolding check_stale Kept
  check_stale-Kept now age_now last g = ground arith

  round-Kept :
      (z : D) (now age_now last : ℕ) (sents : List Bool) (g : CtpGateway D F H)
      → Kept g (dispatch_round mp z now age_now sents (last, g)).1
  unfolding dispatch_round dispatch_batch Kept
  round-Kept z now age_now last sents g =
      let g₁ = (check_stale now age_now last g).1 in
      let (ts, r) = pop_batch z 64 g₁.option_ring_buffer in
      let (a, b) = check_stale-Kept now age_now last g in
      let (c, d) = send_ticks-Kept ts sents (record g₁ { option_ring_buffer = r }) in
      (c ∙ a, d ∙ write_pos-pop_batch z 64 g₁.option_ring_buffer ∙ b)

  -- One event after the other, with the time of the last check.
  pub run : D → List (Event D F) → ℕ × CtpGateway D F H → Option (ℕ × CtpGateway D F H)
  run z [] s = some s
  run z (quoted a ∷ es) (last, g) =
      let x = a.exchanges in
      elim (on_quote_received mp z a.now true x.first (x.second ∷ x.third ∷ x.more) a.payload g) [
        | none ↦ none
        | some g' ↦ run z es (last, g')
      ]
  run z (rounded now age_now sents ∷ es) s = run z es (dispatch_round mp z now age_now sents s)

  module _ (z : D) (k : ℕ) (set : List Bytes) (m : TycheModule D F H) where
    -- The ticks that wait, oldest first, and what has been published.
    abbrev pub Books : Type 0
    Books = List (QuoteTick D) × List (List Bytes)

    abbrev pub book : Event D F → Books → Books
    book (quoted a) (q, out) = (
      offer_all (2 ^ k) (option_ticks z set (a ∷ [])) q,
      out ++ messages mp (codes "quote") (futures set (a ∷ [])) m,
    )
    book (rounded now age_now sents) (q, out) =
        (drop 64 q, out ++ tick_messages mp (sent_of (take 64 q) sents) m)

    abbrev pub book_all : List (Event D F) → Books → Books
    book_all [] b = b
    book_all (e ∷ es) b = book_all es (book e b)

    -- The gateway is what the books say, with room for `n` further ticks.
    record Matches (n : ℕ) (b : Books) (g : CtpGateway D F H) : Type 0 where
      holds : held z k g ≡ b.0
      told : g.client ≡ published_also mp b.1 m
      wanted : g.option_instrument_set ≡ set
      room : HasRoom z k n g.option_ring_buffer

    still :
        Online mp m
        → (fs : List (List Bytes)) {c : TycheModule D F H} → c ≡ published_also mp fs m
        → Online mp c
    still o fs e = subst (Online mp) (sym e) (record { socket = o.socket; runs = o.runs })

    quote-Matches :
        {n : ℕ} (a : Arrival D F) (b : Books) {g g' : CtpGateway D F H}
        → Matches (suc n) b g
        → Streamed mp z k (a ∷ []) g g'
        → Matches n (book (quoted a) b) g'
    quote-Matches a b {g} {g'} h s = record {
      holds =
          s.holds ∙ ap₂ (λ st q. offer_all (2 ^ k) (option_ticks z st (a ∷ [])) q) h.wanted h.holds;
      told =
          s.told
          ∙ ap₂ (λ st c. published_also mp (messages mp (codes "quote") (futures st (a ∷ [])) c) c)
              h.wanted h.told
          ∙ published_also-append mp m b.1 (messages mp (codes "quote") (futures set (a ∷ [])) m);
      wanted = s.same_set ∙ h.wanted;
      room = record { valid = s.valid; room = omega (arith, s.moved, h.room.room) };
    }

    round-Matches :
        {n : ℕ} (now age_now last : ℕ) (sents : List Bool) (b : Books) {g : CtpGateway D F H}
        → Online mp m
        → Matches (suc n) b g
        → Matches n
            (book (rounded now age_now sents) b)
            (dispatch_round mp z now age_now sents (last, g)).1
    unfolding Kept
    round-Matches now age_now last sents b {g} o h =
        let (c, v, e) =
          dispatch_round_lem mp z k now age_now last sents g (still o b.1 h.told) h.room.valid in
        let (w, p) = round-Kept z now age_now last sents g in
        record {
          holds = e ∙ ap (drop 64) h.holds;
          told =
              c
              ∙ ap₂ (λ q d. published_also mp (tick_messages mp (sent_of (take 64 q) sents) d) d)
                  h.holds h.told
              ∙ published_also-append mp m b.1 (tick_messages mp (sent_of (take 64 b.0) sents) m);
          wanted = w ∙ h.wanted;
          room = record { valid = v; room = omega (arith, p, h.room.room) };
        }

    run-Matches :
        (es : List (Event D F)) (last : ℕ) (b : Books) (g : CtpGateway D F H)
        → Online mp m
        → Matches (length es) b g
        → (s : ℕ × CtpGateway D F H) × (run z es (last, g) ≡ some s) × Matches 0 (book_all es b) s.1
    unfolding run
    run-Matches [] last b g o h = ((last, g), refl, h)
    run-Matches (quoted a ∷ es) last b g o h =
        let (g₁, p, s) = quote_lem mp z k a g (still o b.1 h.told) h.room in
        let (t, q, i) = run-Matches es last (book (quoted a) b) g₁ o (quote-Matches a b h s) in
        (t, rw (p, run) q, i)
    run-Matches (rounded now age_now sents ∷ es) last b g o h =
        let (last', g₁) = dispatch_round mp z now age_now sents (last, g) in
        run-Matches es last' (book (rounded now age_now sents) b) g₁ o
          (round-Matches now age_now last sents b o h)

  module _ (z : D) (k : ℕ) where
    -- While the client is connected and runs, the ring buffer of 2^k slots is valid with its
    -- positions far enough from 2^63, and compare-exchanges do not fail for ever: whatever quotes,
    -- whose own publishing does not throw, and rounds of the thread for the options follow one
    -- another, all of them end, and the ticks that wait and what has been published are those of
    -- the books. There, a quote of a future is published at once; the tick of an option is put
    -- behind those that wait, of which the oldest is dropped if 2^k are waiting; and a round takes
    -- the oldest 64 ticks and publishes them in order, less those whose publishing throws.
    pub run_lem :
        (es : List (Event D F)) (last : ℕ) (g : CtpGateway D F H)
        → Online mp g.client
        → HasRoom z k (length es) g.option_ring_buffer
        → let b = book_all z k g.option_instrument_set g.client es (held z k g, []) in
          (s : ℕ × CtpGateway D F H) × (run z es (last, g) ≡ some s)
          × (held z k s.1 ≡ b.0)
          × (s.1.client ≡ published_also mp b.1 g.client)
    run_lem es last g o h =
        let (s, p, i) =
          run-Matches z k g.option_instrument_set g.client es last (held z k g, []) g o
            (record {
              holds = refl;
              told =
                  ap (λ l. record g.client { published = l }) (sym (append-nil g.client.published));
              wanted = refl;
              room = h;
            }) in
        (s, p, i.holds, i.told)
