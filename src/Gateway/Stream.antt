-- ===== src/Gateway/Stream.antt =====
-- src/modules/ctp_gateway_cpp/src/ctp_gateway.cpp: what becomes of the quotes that reach the gateway.
use mathlib.Core.List.{append_assoc, append-nil}
use tyche_engine.Common.{
  ℕ, suc, ◌+◌, ◌%◌, ◌^◌, ◌≤◌, ◌≡◌, refl, sym, ap, subst, ◌∙◌, arith, Bool, true, false, Option,
  none, some, List, [], ◌∷◌, ◌++◌, map, length, if◌then◌else◌, Bytes, codes, Bool-cases, inl, inr,
}
use tyche_engine.Queue.Newest.{offer_all}
use tyche_engine.Wire.{Fields, Msgpack, serialize}
use tyche_engine.TycheModule.{TycheModule, send_event, event_message}
use tyche_engine.Ring.Sequences.{IsValid}
use tyche_engine.Quote.{QuoteTick, blank_tick, tick_of, tick_to_payload}
use tyche_engine.Gateway.{CtpGateway, is_option, on_quote_received}
use tyche_engine.Gateway.Buffer.{Exchanges, HasRoom, held, store_tick_lem}

-- A quote that reaches the gateway.
pub record Arrival (D F : Type 0) : Type 0 where
  pub payload : Fields D F
  pub now : ℕ
  pub exchanges : Exchanges

module _ {D F : Type 0} where
  -- The ticks of the quotes of options, and the payloads of the others.
  abbrev pub option_ticks : D → List Bytes → List (Arrival D F) → List (QuoteTick D)
  option_ticks z set [] = []
  option_ticks z set (a ∷ qs) =
      let rest = option_ticks z set qs in
      if is_option a.payload set then tick_of a.payload z a.now ∷ rest else rest

  abbrev pub futures : List Bytes → List (Arrival D F) → List (Fields D F)
  futures set [] = []
  futures set (a ∷ qs) =
      let rest = futures set qs in if is_option a.payload set then rest else a.payload ∷ rest

module _ {D : Type 0} (k : ℕ) where
  held_on :
      (b : Bool) (t : QuoteTick D) (ts q q' : List (QuoteTick D))
      → q' ≡ offer_all (2 ^ k) (if b then t ∷ [] else []) q
      → offer_all (2 ^ k) ts q' ≡ offer_all (2 ^ k) (if b then t ∷ ts else ts) q
  held_on true t ts q q' e = ap (offer_all (2 ^ k) ts) e
  held_on false t ts q q' e = ap (offer_all (2 ^ k) ts) e

module _ {D F H : Type 0} (mp : Msgpack D F) where
  -- What `send_event` publishes for each payload.
  abbrev pub messages : Bytes → List (Fields D F) → TycheModule D F H → List (List Bytes)
  messages event payloads m =
      map (λ (p : Fields D F). event ∷ serialize mp (event_message mp event p none m) ∷ []) payloads

  abbrev pub tick_messages : List (QuoteTick D) → TycheModule D F H → List (List Bytes)
  tick_messages ts m = messages (codes "send_compute_greeks") (map tick_to_payload ts) m

  abbrev pub published_also : List (List Bytes) → TycheModule D F H → TycheModule D F H
  published_also fs m = record m { published = m.published ++ fs }

  -- The module is connected and runs.
  pub record Online (m : TycheModule D F H) : Type 0 where
    pub socket : m.pub_socket ≡ true
    pub runs : m.running ≡ true

  pub send_event-Online :
      {m : TycheModule D F H} (event : Bytes) (p : Fields D F)
      → Online m
      → send_event mp event p none m ≡ published_also (messages event (p ∷ []) m) m
  unfolding send_event
  send_event-Online event p o = rw (o.socket, o.runs) refl

  pub published_also-append :
      (m : TycheModule D F H) (fs gs : List (List Bytes))
      → published_also gs (published_also fs m) ≡ published_also (fs ++ gs) m
  published_also-append m fs gs =
      ap (λ l. record m { published = l }) (append_assoc m.published fs gs)

  pub receive_all : D → List (Arrival D F) → CtpGateway D F H → Option (CtpGateway D F H)
  receive_all z [] g = some g
  receive_all z (a ∷ qs) g =
      let x = a.exchanges in
      elim (on_quote_received mp z a.now true x.first (x.second ∷ x.third ∷ x.more) a.payload g) [
        | none ↦ none
        | some g' ↦ receive_all z qs g'
      ]

  module _ (z : D) (k : ℕ) where
    -- `g'` is `g` after these quotes.
    pub record Streamed (qs : List (Arrival D F)) (g g' : CtpGateway D F H) : Type 0 where
      pub valid : IsValid (blank_tick z) k g'.option_ring_buffer
      pub moved : g'.option_ring_buffer.write_pos ≤ g.option_ring_buffer.write_pos + length qs
      pub holds :
          held z k g' ≡ offer_all (2 ^ k) (option_ticks z g.option_instrument_set qs) (held z k g)
      pub told :
          g'.client
          ≡ published_also
              (messages (codes "quote") (futures g.option_instrument_set qs) g.client)
              g.client
      pub counted : g'.ticks_received % 2 ^ 64 ≡ (g.ticks_received + length qs) % 2 ^ 64
      pub same_set : g'.option_instrument_set ≡ g.option_instrument_set

    pub quote_lem :
        {n : ℕ} (a : Arrival D F) (g : CtpGateway D F H)
        → Online g.client
        → HasRoom z k (suc n) g.option_ring_buffer
        → let x = a.exchanges in
          (g' : CtpGateway D F H) × (on_quote_received mp z a.now true x.first
              (x.second ∷ x.third ∷ x.more)
              a.payload
              g
            ≡ some g')
          × Streamed (a ∷ []) g g'
    unfolding on_quote_received
    quote_lem a g o h =
        let x = a.exchanges in
        elim (Bool-cases (is_option a.payload g.option_instrument_set)) [
          | inl e ↦
              let (g₁, p, t) =
                store_tick_lem z k x (tick_of a.payload z a.now) (record g { last_tick_ns = a.now })
                  h in
              (
                record g₁ { ticks_received = (g₁.ticks_received + 1) % 2 ^ 64 },
                rw (e, p) refl,
                record {
                  valid = t.within;
                  moved = t.moved;
                  holds = rw e t.holds;
                  told = rw e (
                      ap (λ (c : CtpGateway D F H). c.client) t.else_same
                      ∙ ap (λ l. record g.client { published = l })
                          (sym (append-nil g.client.published)));
                  counted =
                      omega (arith, ap (λ (c : CtpGateway D F H). c.ticks_received) t.else_same);
                  same_set = ap (λ (c : CtpGateway D F H). c.option_instrument_set) t.else_same;
                },
              )
          | inr e ↦ (
            record g {
              last_tick_ns = a.now;
              client = send_event mp (codes "quote") a.payload none g.client;
              ticks_sent = (g.ticks_sent + 1) % 2 ^ 64;
              ticks_received = (g.ticks_received + 1) % 2 ^ 64;
            },
            rw e refl,
            record {
              valid = h.valid;
              moved = omega arith;
              holds = rw e refl;
              told = rw e (send_event-Online (codes "quote") a.payload o);
              counted = omega arith;
              same_set = refl;
            },
          )
        ]

    quotes : List (Fields D F) → TycheModule D F H → TycheModule D F H
    quotes ps m = published_also (messages (codes "quote") ps m) m

    told_on :
        (b : Bool) (p : Fields D F) (ps : List (Fields D F)) (m : TycheModule D F H)
        → quotes ps (quotes (if b then [] else p ∷ []) m) ≡ quotes (if b then ps else p ∷ ps) m
    unfolding quotes
    told_on true p ps m = published_also-append m [] (messages (codes "quote") ps m)
    told_on false p ps m =
        published_also-append m (messages (codes "quote") (p ∷ []) m)
          (messages (codes "quote") ps m)

    -- `g'` is `g` after the first quote, and `g''` is `g'` after the others.
    Streamed-trans :
        (a : Arrival D F) (qs : List (Arrival D F)) {g g' g'' : CtpGateway D F H}
        → Streamed (a ∷ []) g g'
        → Streamed qs g' g''
        → Streamed (a ∷ qs) g g''
    unfolding quotes
    Streamed-trans a qs {g} {g'} {g''} s t =
        let b = is_option a.payload g.option_instrument_set in
        record {
          valid = t.valid;
          moved = omega (arith, s.moved, t.moved);
          holds =
              t.holds
              ∙ ap (λ set. offer_all (2 ^ k) (option_ticks z set qs) (held z k g')) s.same_set
              ∙ held_on k b (tick_of a.payload z a.now) (option_ticks z g.option_instrument_set qs)
                  (held z k g) (held z k g') s.holds;
          told =
              t.told
              ∙ ap (λ set. quotes (futures set qs) g'.client) s.same_set
              ∙ ap (quotes (futures g.option_instrument_set qs)) s.told
              ∙ told_on b a.payload (futures g.option_instrument_set qs) g.client;
          counted = omega (arith, s.counted, t.counted);
          same_set = t.same_set ∙ s.same_set;
        }

    pub receive_all_lem :
        (qs : List (Arrival D F)) (g : CtpGateway D F H)
        → Online g.client
        → HasRoom z k (length qs) g.option_ring_buffer
        → (g' : CtpGateway D F H) × (receive_all z qs g ≡ some g') × Streamed qs g g'
    unfolding receive_all
    receive_all_lem [] g o h = (
      g,
      refl,
      record {
        valid = h.valid;
        moved = omega arith;
        holds = refl;
        told = ap (λ l. record g.client { published = l }) (sym (append-nil g.client.published));
        counted = omega arith;
        same_set = refl;
      },
    )
    receive_all_lem (a ∷ qs) g o h =
        let (g₁, p, s) = quote_lem a g o h in
        let online : Online g₁.client =
          subst Online (sym s.told) (record { socket = o.socket; runs = o.runs }) in
        let (g₂, q, t) =
          receive_all_lem qs g₁ online
            (record { valid = s.valid; room = omega (arith, s.moved, h.room) }) in
        (g₂, rw (p, receive_all) q, Streamed-trans a qs s t)
