-- ===== src/Gateway/Lifecycle.antt =====
-- src/modules/ctp_gateway_cpp/src/ctp_gateway.cpp: how the gateway starts and stops. What other code
-- does on the way is an argument: the module after `TycheModule::start`, and whether the two
-- interfaces of CTP can be set up.
use tyche_engine.Common.{
  ℕ, Bool, true, false, not, Option, none, some, List, length, if◌then◌else◌, ◌==◌,
}
use tyche_engine.Wire.{Fields, Msgpack}
use tyche_engine.TycheModule.{TycheModule}
use tyche_engine.TycheModule.Requests
use tyche_engine.Gateway.{CtpGateway, drain}
use tyche_engine.Gateway.Config.{GatewayConfig}
use tyche_engine.Gateway.Instruments.{Reply, resolve_instruments}

pub record Surroundings (D F H : Type 0) : Type 0 where
  pub module_started : TycheModule D F H → TycheModule D F H
  pub answer : ℕ → Fields D F → Reply D F
  pub td_loads : Bool
  pub md_loads : Bool

-- `true`: the call throws.
abbrev pub Thrown : Type 0
Thrown = Bool

module _ {D F H : Type 0} where
  unfoldable pub cleanup_ctp : CtpGateway D F H → CtpGateway D F H
  cleanup_ctp g =
      if g.cleanup_done
      then g
      else record g { cleanup_done = true; ctp_running = false; md_api = false; td_api = false }

  -- An exception of the trading interface is caught.
  abbrev pub init_td : GatewayConfig → Bool → CtpGateway D F H → CtpGateway D F H
  init_td cfg loads g = if length cfg.td_front == 0 then g else record g { td_api = loads }

  unfoldable pub init_ctp :
      GatewayConfig → Surroundings D F H → CtpGateway D F H → Thrown × CtpGateway D F H
  unfolding cleanup_ctp
  init_ctp cfg s g =
      let g' = init_td cfg s.td_loads g in
      if s.md_loads
      then (false, record g' { md_api = true; ctp_running = true })
      else (true, cleanup_ctp g')

  abbrev pub resolved : GatewayConfig → Surroundings D F H → CtpGateway D F H → CtpGateway D F H
  resolved cfg s g =
      let st = resolve_instruments s.answer cfg.underlyings in
      record g { instruments = st.instruments; option_instrument_set = st.option_instrument_set }

  unfoldable pub start :
      GatewayConfig → Surroundings D F H → CtpGateway D F H → Thrown × CtpGateway D F H
  unfolding init_ctp
  start cfg s g =
      let g₁ = record g { started = true; client = s.module_started g.client } in
      let (thrown, g₂) = init_ctp cfg s (resolved cfg s g₁) in
      if g.started
      then (false, g)
      else (if not g₁.client.registered
          then (false, g₁)
          else (if thrown then (true, g₂) else (false, record g₂ { dispatching = true })))

  -- `stop` when the thread for the options has ended.
  unfoldable pub finish_stop : CtpGateway D F H → CtpGateway D F H
  unfolding cleanup_ctp
  finish_stop g =
      let g' = cleanup_ctp (record g { dispatching = false }) in
      record g' { client = Requests.stop g'.client }

module _ {D F H : Type 0} (mp : Msgpack D F) where
  -- The thread for the options is joined: it comes out of its loop and takes the rest out of the
  -- buffer. `none`: it has more rounds than `sents` has items.
  unfoldable pub stop : D → List Bool → CtpGateway D F H → Option (CtpGateway D F H)
  unfolding finish_stop
  stop z sents g =
      let g' = record g { stopping = true; ctp_running = false } in
      let joined : Option (CtpGateway D F H) =
        if g.dispatching then drain mp z sents g' else some g' in
      if g.stopping then some g else elim joined [ none ↦ none | some g'' ↦ some (finish_stop g'') ]
