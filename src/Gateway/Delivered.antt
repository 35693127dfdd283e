-- ===== src/Gateway/Delivered.antt =====
-- src/modules/ctp_gateway_cpp/src/ctp_gateway.cpp: all quotes that arrive, up to the end of the thread.
use tyche_engine.Common.{
  ℕ, ◌^◌, ◌<◌, ◌≡◌, sym, ap, subst, ◌∙◌, arith, Bool, some, List, [], ◌++◌, length, codes,
}
use tyche_engine.Queue.Newest.{newest, newest_short, offer_all, offer_all-newest}
use tyche_engine.Wire.{Msgpack}
use tyche_engine.Ring.Sequences.{slots_pos}
use tyche_engine.Ring.Waiting.{size_refines}
use tyche_engine.Quote.{blank_tick}
use tyche_engine.Gateway.{CtpGateway, drain}
use tyche_engine.Gateway.Buffer.{HasRoom, held}
use tyche_engine.Gateway.Drained.{sent_of, greeks, drain_lem}
use tyche_engine.Gateway.Stream.{
  Arrival, option_ticks, futures, messages, tick_messages, published_also, published_also-append,
  Online, receive_all, receive_all_lem,
}

module _ {D F H : Type 0} (mp : Msgpack D F) where
  module _ (z : D) (k : ℕ) where
    -- While the client is connected and runs, its publishing does not throw except where the last
    -- argument says so, the ring buffer of 2^k slots is valid and empty with its positions far
    -- enough from 2^63, and compare-exchanges do not fail for ever: whatever quotes arrive, and
    -- then the thread for the options ends, with no round of it in between. Every quote of a
    -- future is published at once, in order, with its own payload; of the ticks of options, the
    -- newest 2^k are published after that, oldest first, less those whose publishing throws; and
    -- nothing is left in the buffer.
    pub stream_lem :
        (qs : List (Arrival D F)) (sents : List Bool) (g : CtpGateway D F H)
        → Online mp g.client
        → HasRoom z k (length qs) g.option_ring_buffer
        → held z k g ≡ []
        → 2 ^ k < length sents
        → (g₁ g₂ : CtpGateway D F H) × (receive_all mp z qs g ≡ some g₁)
          × (drain mp z sents g₁ ≡ some g₂)
          × (held z k g₂ ≡ [])
          × (g₂.client
              ≡ published_also mp
                  (messages mp (codes "quote") (futures g.option_instrument_set qs) g.client
                    ++ tick_messages mp
                        (sent_of (newest (2 ^ k) (option_ticks z g.option_instrument_set qs)) sents)
                        g.client)
                  g.client)
    stream_lem qs sents g o h e l =
        let (g₁, p, s) = receive_all_lem mp z k qs g o h in
        let online : Online mp g₁.client =
          subst (Online mp) (sym s.told) (record { socket = o.socket; runs = o.runs }) in
        let left : held z k g₁ ≡ newest (2 ^ k) (option_ticks z g.option_instrument_set qs) =
          s.holds
          ∙ ap (offer_all (2 ^ k) (option_ticks z g.option_instrument_set qs))
              (e ∙ sym (newest_short (2 ^ k) [] (omega arith)))
          ∙ offer_all-newest (2 ^ k) (option_ticks z g.option_instrument_set qs) [] (slots_pos k) in
        let (g₂, q, d) =
          drain_lem mp z k sents g₁ (omega (arith, (size_refines (blank_tick z) k s.valid).4))
            online s.valid in
        (
          g₁,
          g₂,
          p,
          q,
          d.emptied,
          d.told
              ∙ ap (λ us. greeks mp (sent_of us sents) g₁.client) left
              ∙ ap
                  (greeks mp
                    (sent_of (newest (2 ^ k) (option_ticks z g.option_instrument_set qs)) sents))
                  s.told
              ∙ published_also-append mp g.client _ _,
        )
