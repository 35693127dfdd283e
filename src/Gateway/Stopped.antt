-- ===== src/Gateway/Stopped.antt =====
-- src/modules/ctp_gateway_cpp/src/ctp_gateway.cpp: what a gateway is after `start` and after `stop`.
use tyche_engine.Common.{
  ℕ, ◌<◌, ◌≡◌, ap, ◌∙◌, arith, Bool, true, false, not, ◌&&◌, Option, none, some, List, [], length,
  if◌then◌else◌, ◌==◌,
}
use tyche_engine.Wire.{Msgpack}
use tyche_engine.TycheModule.Requests
use tyche_engine.Ring.Sequences.{IsValid}
use tyche_engine.Quote.{blank_tick}
use tyche_engine.Gateway.{CtpGateway, drain}
use tyche_engine.Gateway.Buffer.{held}
use tyche_engine.Gateway.Stream.{Online}
use tyche_engine.Gateway.Drained.{sent_of, greeks, drain_lem}
use tyche_engine.Gateway.Config.{GatewayConfig}
use tyche_engine.Gateway.Lifecycle.{Surroundings, start, finish_stop, stop}

module _ {D F H : Type 0} where
  -- Nothing of CTP is left, and no thread.
  pub record Released (g : CtpGateway D F H) : Type 0 where
    pub not_running : g.ctp_running ≡ false
    pub no_md : g.md_api ≡ false
    pub no_td : g.td_api ≡ false
    pub no_thread : g.dispatching ≡ false

  -- A gateway that has not been started, nor stopped.
  pub record Fresh (g : CtpGateway D F H) : Type 0 where
    pub unstarted : g.started ≡ false
    pub uncleaned : g.cleanup_done ≡ false
    pub released : Released g

  -- `start` of a gateway that was neither started nor stopped throws exactly if the client could
  -- be registered and the market data interface cannot be set up; in that case, and if the client
  -- could not be registered, neither interface, nor the thread, is there afterwards; else the
  -- market data interface and the thread are, and the trading interface if it is configured and
  -- could be loaded. A second `start` changes nothing.
  pub start_lem :
      (cfg : GatewayConfig) (s : Surroundings D F H) (g : CtpGateway D F H)
      → Fresh g
      → let (thrown, g') = start cfg s g in
        let up = (s.module_started g.client).registered in
        (thrown ≡ (if up then not s.md_loads else false))
        × (g'.md_api ≡ (if up then s.md_loads else false))
        × (g'.td_api ≡ (
            if up
            then (if s.md_loads then not (length cfg.td_front == 0) && s.td_loads else false)
            else false))
        × (g'.ctp_running ≡ (if up then s.md_loads else false))
        × (g'.dispatching ≡ (if up then s.md_loads else false))
        × (start cfg s g' ≡ (false, g'))
  unfolding start
  start_lem cfg s g f =
      ground
        (arith, f.released.no_md, f.released.no_td, f.released.not_running, f.released.no_thread)

  finish_stop-uncleaned :
      (g : CtpGateway D F H)
      → g.cleanup_done ≡ false
      → finish_stop g ≡ record g {
        client = Requests.stop g.client;
        dispatching = false;
        cleanup_done = true;
        ctp_running = false;
        md_api = false;
        td_api = false;
      }
  unfolding finish_stop
  finish_stop-uncleaned g h = simp h

module _ {D F H : Type 0} (mp : Msgpack D F) (z : D) (k : ℕ) where
  -- The thread for the options runs, and the gateway has not been stopped.
  pub record Running (g : CtpGateway D F H) : Type 0 where
    pub thread : g.dispatching ≡ true
    pub unstopped : g.stopping ≡ false
    pub unclean : g.cleanup_done ≡ false
    pub online : Online mp g.client
    pub valid : IsValid (blank_tick z) k g.option_ring_buffer

  joined : Option (CtpGateway D F H) → Option (CtpGateway D F H)
  joined none = none
  joined (some g) = some (finish_stop g)

  stop-joined :
      (sents : List Bool) (g : CtpGateway D F H)
      → g.dispatching ≡ true
      → g.stopping ≡ false
      → stop mp z sents g
        ≡ joined (drain mp z sents (record g { stopping = true; ctp_running = false }))
  unfolding stop joined
  stop-joined sents g t u = simp (t, u)

  stop-again :
      (sents : List Bool) (g : CtpGateway D F H) → g.stopping ≡ true → stop mp z sents g ≡ some g
  unfolding stop
  stop-again sents g h = simp h

  -- A running gateway whose client is connected, with a valid ring buffer, is stopped, its thread
  -- having enough rounds to empty the buffer: `stop` returns; the ticks in the buffer are
  -- published, oldest first, less those whose publishing throws, and then the client is stopped;
  -- no interface of CTP, no thread and no tick is left; and a second `stop` changes nothing.
  pub stop_lem :
      (sents : List Bool) (g : CtpGateway D F H)
      → Running g
      → length (held z k g) < length sents
      → (g' : CtpGateway D F H) × (stop mp z sents g ≡ some g')
        × Released g'
        × (held z k g' ≡ [])
        × (g'.client ≡ Requests.stop (greeks mp (sent_of (held z k g) sents) g.client))
        × (stop mp z sents g' ≡ some g')
  unfolding joined
  stop_lem sents g r l =
      let (d, e, f) =
        drain_lem mp z k sents (record g { stopping = true; ctp_running = false }) l r.online
          r.valid in
      let finished =
        finish_stop-uncleaned d
          (ap (λ (c : CtpGateway D F H). c.cleanup_done) f.else_same ∙ r.unclean) in
      (
        finish_stop d,
        stop-joined sents g r.thread r.unstopped ∙ ap joined e,
        record {
          not_running = ap (λ (c : CtpGateway D F H). c.ctp_running) finished;
          no_md = ap (λ (c : CtpGateway D F H). c.md_api) finished;
          no_td = ap (λ (c : CtpGateway D F H). c.td_api) finished;
          no_thread = ap (λ (c : CtpGateway D F H). c.dispatching) finished;
        },
        ap (λ (c : CtpGateway D F H). held z k c) finished ∙ f.emptied,
        ap (λ (c : CtpGateway D F H). c.client) finished ∙ ap Requests.stop f.told,
        stop-again sents (finish_stop d) (
            ap (λ (c : CtpGateway D F H). c.stopping) finished
            ∙ ap (λ (c : CtpGateway D F H). c.stopping) f.else_same),
      )
