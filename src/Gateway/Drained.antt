-- ===== src/Gateway/Drained.antt =====
-- src/modules/ctp_gateway_cpp/src/ctp_gateway.cpp: the thread that publishes the ticks of options.
use mathlib.Core.List.{append-nil}
use tyche_engine.Common.{
  ℕ, suc, ◌+◌, ◌%◌, ◌^◌, ◌<◌, ◌≡◌, refl, sym, ap, ◌∙◌, arith, Bool, true, false, Option, none, some,
  List, [], ◌∷◌, length, if◌then◌else◌, ◌==◌, codes,
}
use tyche_engine.Queue.{tail, head?}
use tyche_engine.Wire.{Msgpack}
use tyche_engine.TycheModule.{TycheModule}
use tyche_engine.Ring.{pop}
use tyche_engine.Ring.Sequences.{IsValid}
use tyche_engine.Ring.Refine.{pop_refines}
use tyche_engine.Ring.Waiting.{size_refines}
use tyche_engine.Quote.{QuoteTick, blank_tick, tick_to_payload}
use tyche_engine.Gateway.{CtpGateway, send_tick, send_ticks, drain, drain_tick}
use tyche_engine.Gateway.Buffer.{held}
use tyche_engine.Gateway.Stream.{
  tick_messages, published_also, published_also-append, Online, send_event-Online,
}

-- The items whose publishing does not throw; those beyond the list are published.
abbrev pub sent_of : {A : Type 0} → List A → List Bool → List A
sent_of [] sents = []
sent_of (t ∷ ts) [] = t ∷ ts
sent_of (t ∷ ts) (true ∷ sents) = t ∷ sent_of ts sents
sent_of (t ∷ ts) (false ∷ sents) = sent_of ts sents

not_empty : (n : ℕ) → (suc n == 0) ≡ false
not_empty n = ground arith

module _ {D F H : Type 0} (mp : Msgpack D F) where
  abbrev pub greeks : List (QuoteTick D) → TycheModule D F H → TycheModule D F H
  greeks ts m = published_also mp (tick_messages mp ts m) m

  abbrev sent_tick : QuoteTick D → CtpGateway D F H → CtpGateway D F H
  sent_tick t g = record g {
    client = greeks (t ∷ []) g.client;
    ticks_sent = (g.ticks_sent + 1) % 2 ^ 64;
  }

  send_tick-Online :
      (t : QuoteTick D) (g : CtpGateway D F H)
      → Online mp g.client
      → send_tick mp true t g ≡ sent_tick t g
  unfolding send_tick
  send_tick-Online t g o =
      ap (λ c. record g { client = c; ticks_sent = (g.ticks_sent + 1) % 2 ^ 64 })
        (send_event-Online mp (codes "send_compute_greeks") (tick_to_payload t) o)

  greeks-greeks :
      (t : QuoteTick D) (us : List (QuoteTick D)) (m : TycheModule D F H)
      → greeks us (greeks (t ∷ []) m) ≡ greeks (t ∷ us) m
  greeks-greeks t us m =
      published_also-append mp m (tick_messages mp (t ∷ []) m) (tick_messages mp us m)

  greeks_nil : (m : TycheModule D F H) → m ≡ greeks [] m
  greeks_nil m = ap (λ l. record m { published = l }) (sym (append-nil m.published))

  still :
      (t : QuoteTick D) (g : CtpGateway D F H)
      → Online mp g.client
      → Online mp (sent_tick t g).client
  still t g o = record { socket = o.socket; runs = o.runs }

  -- What a batch changes: nothing of the ring buffer.
  pub send_ticks_lem :
      (ts : List (QuoteTick D)) (sents : List Bool) (g : CtpGateway D F H)
      → Online mp g.client
      → ((send_ticks mp ts sents g).client ≡ greeks (sent_of ts sents) g.client)
        × ((send_ticks mp ts sents g).option_ring_buffer ≡ g.option_ring_buffer)
  unfolding send_ticks send_tick
  send_ticks_lem [] sents g o = (greeks_nil g.client, refl)
  send_ticks_lem (t ∷ ts) [] g o =
      let (c, r) = send_ticks_lem ts [] (sent_tick t g) (still t g o) in
      rw (send_tick-Online t g o, send_ticks)
        (
          c
              ∙ ap (λ us. greeks us (greeks (t ∷ []) g.client)) (sent_all ts)
              ∙ greeks-greeks t ts g.client,
          r,
        )
    where
      sent_all : (us : List (QuoteTick D)) → sent_of us [] ≡ us
      sent_all [] = refl
      sent_all (u ∷ us) = refl
  send_ticks_lem (t ∷ ts) (true ∷ sents) g o =
      let (c, r) = send_ticks_lem ts sents (sent_tick t g) (still t g o) in
      rw (send_tick-Online t g o, send_ticks) (c ∙ greeks-greeks t (sent_of ts sents) g.client, r)
  send_ticks_lem (t ∷ ts) (false ∷ sents) g o = send_ticks_lem ts sents (send_tick mp false t g) o

  module _ (z : D) (k : ℕ) where
    -- `g'` is `g` after the last loop of the thread, which published `ts`.
    pub record Left (ts : List (QuoteTick D)) (g g' : CtpGateway D F H) : Type 0 where
      pub emptied : held z k g' ≡ []
      pub told : g'.client ≡ greeks ts g.client
      pub else_same : g' ≡ record g {
        client = g'.client;
        option_ring_buffer = g'.option_ring_buffer;
        ticks_sent = g'.ticks_sent;
      }

    abbrev pub Drains : List Bool → CtpGateway D F H → Type 0
    Drains sents g =
        (g' : CtpGateway D F H) × (drain mp z sents g ≡ some g')
        × Left (sent_of (held z k g) sents) g g'

    pub drain_lem :
        (sents : List Bool) (g : CtpGateway D F H)
        → length (held z k g) < length sents
        → Online mp g.client
        → IsValid (blank_tick z) k g.option_ring_buffer
        → Drains sents g
    unfolding drain
    drain_lem [] g l o v = absurd (omega arith)
    drain_lem (sent ∷ sents) g l o v =
        let (e, w, c) = pop_refines (blank_tick z) k v in
        rw (size_refines (blank_tick z) k v).1 (
          by_first (held z k g) sent (pop (blank_tick z) g.option_ring_buffer).0 refl e c l
            (λ d p q r. drain_lem sents d p q r) w)
      where
        popped : CtpGateway D F H
        popped = record g { option_ring_buffer = (pop (blank_tick z) g.option_ring_buffer).1 }

        by_first :
            (q : List (QuoteTick D)) (b : Bool) (item : Option (QuoteTick D))
            → q ≡ held z k g
            → item ≡ head? q
            → held z k popped ≡ tail q
            → length q < suc (length sents)
            → ((d : CtpGateway D F H)
                → length (held z k d) < length sents
                → Online mp d.client
                → IsValid (blank_tick z) k d.option_ring_buffer
                → Drains sents d)
            → IsValid (blank_tick z) k popped.option_ring_buffer
            → (g' : CtpGateway D F H) × ((if length q == 0 then some g else elim item [
              | none ↦ some popped
              | some t ↦ drain mp z sents (drain_tick mp b t popped)
            ])
                ≡ some g')
              × Left (sent_of q (b ∷ sents)) g g'
        by_first [] b item h e c m ih w =
            (g, refl, record { emptied = sym h; told = greeks_nil g.client; else_same = refl })
        by_first (t ∷ q) b none h e c m ih w = absurd (cc)
        by_first (t ∷ q) true (some u) h e c m ih w =
            let same : u ≡ t = cc in
            let (g', p, d) = ih (sent_tick u popped) (ground (arith, c)) (still u popped o) w in
            (
              g',
              rw (not_empty (length q), send_tick-Online u popped o) p,
              record {
                emptied = d.emptied;
                told =
                    d.told
                    ∙ ap (λ us. greeks (sent_of us sents) (greeks (u ∷ []) g.client)) c
                    ∙ greeks-greeks u (sent_of q sents) g.client
                    ∙ ap (λ x. greeks (x ∷ sent_of q sents) g.client) same;
                else_same = d.else_same;
              },
            )
        by_first (t ∷ q) false (some u) h e c m ih w =
            let (g', p, d) = ih popped (ground (arith, c)) o w in
            (
              g',
              rw (not_empty (length q)) p,
              record {
                emptied = d.emptied;
                told = d.told ∙ ap (λ us. greeks (sent_of us sents) g.client) c;
                else_same = d.else_same;
              },
            )
