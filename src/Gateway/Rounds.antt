-- ===== src/Gateway/Rounds.antt =====
-- src/modules/ctp_gateway_cpp/src/ctp_gateway.cpp: a round of the thread for the options.
use tyche_engine.Common.{
  ℕ, ◌+◌, ◌≡◌, refl, sym, ap, subst, ◌∙◌, Bool, true, List, ltb, leb, ◌⊎◌, inl, inr, Bool-cases,
}
use tyche_engine.Common.Slices.{take}
use tyche_engine.Queue.{drop}
use tyche_engine.Wire.{Msgpack}
use tyche_engine.Ring.Sequences.{IsValid}
use tyche_engine.Ring.Contents.{contents}
use tyche_engine.Quote.{blank_tick}
use tyche_engine.Gateway.{
  CtpGateway, check_stale, last_tick_age_ms, pop_batch, dispatch_batch, dispatch_round,
}
use tyche_engine.Gateway.Buffer.{held, pop_batch_lem}
use tyche_engine.Gateway.Drained.{sent_of, greeks, send_ticks_lem}
use tyche_engine.Gateway.Stream.{Online}

module _ {D F H : Type 0} (mp : Msgpack D F) where
  module _ (z : D) (k : ℕ) where
    abbrev pub Batched : List Bool → CtpGateway D F H → CtpGateway D F H → Type 0
    Batched sents g g' =
        (g'.client ≡ greeks mp (sent_of (take 64 (held z k g)) sents) g.client)
        × IsValid (blank_tick z) k g'.option_ring_buffer
        × (held z k g' ≡ drop 64 (held z k g))

    dispatch_batch_lem :
        (sents : List Bool) (g : CtpGateway D F H)
        → Online mp g.client
        → IsValid (blank_tick z) k g.option_ring_buffer
        → Batched sents g (dispatch_batch mp z sents g)
    unfolding dispatch_batch
    dispatch_batch_lem sents g o v =
        let (ts, r) = pop_batch z 64 g.option_ring_buffer in
        let (e, w, c) = pop_batch_lem z k 64 v in
        let (m, b) =
          send_ticks_lem mp ts sents (record g { option_ring_buffer = r })
            (record { socket = o.socket; runs = o.runs }) in
        (
          m ∙ ap (λ us. greeks mp (sent_of us sents) g.client) e,
          subst (IsValid (blank_tick z) k) (sym b) w,
          ap (contents (blank_tick z)) b ∙ c,
        )

    check_stale-cases :
        (now age_now last_check : ℕ) (g : CtpGateway D F H)
        → ((check_stale now age_now last_check g).1 ≡ g)
          ⊎ ((check_stale now age_now last_check g).1 ≡ record g { tick_stale = true })
    unfolding check_stale
    check_stale-cases now age_now last_check g =
        elim (Bool-cases (leb (last_check + 30000000000) now)) [
          | inl e ↦ elim (Bool-cases (ltb 30000 (last_tick_age_ms age_now g))) [
            | inl l ↦ inr (rw (e, l) refl)
            | inr l ↦ inl (rw (e, l) refl)
          ]
          | inr e ↦ inl (rw e refl)
        ]

    -- A round takes at most 64 ticks out of the buffer, the oldest, and publishes those whose
    -- publishing does not throw, in their order.
    pub dispatch_round_lem :
        (now age_now last_check : ℕ) (sents : List Bool) (g : CtpGateway D F H)
        → Online mp g.client
        → IsValid (blank_tick z) k g.option_ring_buffer
        → Batched sents g (dispatch_round mp z now age_now sents (last_check, g)).1
    unfolding dispatch_round
    dispatch_round_lem now age_now last_check sents g o v =
        elim (check_stale-cases now age_now last_check g) [
          | inl e ↦ rw e (dispatch_batch_lem sents g o v)
          | inr e ↦ rw e (dispatch_batch_lem sents (record g { tick_stale = true }) o v)
        ]
