-- ===== src/Gateway/Config/Usable.antt =====
-- src/modules/ctp_gateway_cpp/src/config.cpp: what a configuration that was loaded has.
use tyche_engine.Common.{
  ◌≡◌, not, subst, refl, ap, ◌∙◌, arith, Bool, true, false, Option, List, Bytes, codes,
}
use tyche_engine.Common.Words.{ℤ, pos}
use tyche_engine.Quote.Validator.{int_lt}
use tyche_engine.Gateway.Config.{
  Json, GatewayConfig, ConfigError, Loading, returned, threw, ◌>>=◌, refuse, library, or_fail,
  is_empty, read_engine, check_fields, read_gateway, listed, missing, cannot_open, parse_error,
  load_gateway, load_json, from_file,
}

pub record IsUsable (c : GatewayConfig) : Type 0 where
  pub port_above : int_lt c.engine_port (pos 1) ≡ false
  pub port_below : int_lt (pos 65535) c.engine_port ≡ false
  pub interval : int_lt c.reconnect_interval_secs (pos 0) ≡ false
  pub timeout : int_lt c.static_data_timeout_secs (pos 1) ≡ false
  pub front : is_empty c.md_front ≡ false
  pub broker : is_empty c.broker_id ≡ false
  pub user : is_empty c.user_id ≡ false
  pub secret : is_empty c.password ≡ false
  pub directory : is_empty c.dll_dir ≡ false
  pub products : is_empty c.underlyings ≡ false

returned-injective : {A : Type 0} {a b : A} → returned a ≡ returned b → a ≡ b
returned-injective h = cc

refuse-false : (b : Bool) (e : ConfigError) → refuse b e ≡ returned tt → b ≡ false
refuse-false true e h = cc
refuse-false false e h = refl

-- What a block that succeeds has done first.
bind_returned :
    {A B : Type 0} (m : Loading A) (f : A → Loading B) {b : B}
    → (m >>= f) ≡ returned b
    → (a : A) × (m ≡ returned a) × (f a ≡ returned b)
bind_returned (returned a) f h = (a, refl, h)
bind_returned (threw error) f h = cc

check_fields-IsUsable :
    (c : GatewayConfig) (us : List (Bytes × List Bytes))
    → int_lt c.engine_port (pos 1) ≡ false
    → int_lt (pos 65535) c.engine_port ≡ false
    → check_fields c ≡ returned tt
    → is_empty us ≡ false
    → IsUsable (record c { underlyings = us })
unfolding check_fields
check_fields-IsUsable c us a b h n = ground arith

module _ {J : Type 0} (json : Json J) where
  read_engine-port :
      (j : J) (host : Bytes) (port : ℤ)
      → read_engine json j ≡ returned (host, port)
      → (int_lt port (pos 1) ≡ false) × (int_lt (pos 65535) port ≡ false)
  unfolding read_engine int_lt
  read_engine-port j host port h = ground arith

  read_gateway-port :
      (host : Bytes) (port : ℤ) (gw : J) (c : GatewayConfig)
      → read_gateway json (host, port) gw ≡ returned c
      → c.engine_port ≡ port
  unfolding read_gateway
  read_gateway-port host port gw c h = ground arith

  load_gateway-IsUsable :
      (host : Bytes) (port : ℤ) (gw : J) (c : GatewayConfig)
      → int_lt port (pos 1) ≡ false
      → int_lt (pos 65535) port ≡ false
      → load_gateway json (host, port) gw ≡ returned c
      → IsUsable c
  unfolding load_gateway
  load_gateway-IsUsable host port gw c a b h =
      let (c', e, h₁) = bind_returned (read_gateway json (host, port) gw) _ h in
      let (u, f, h₂) = bind_returned (check_fields c') _ h₁ in
      let (us, g, h₃) = bind_returned (listed json gw) _ h₂ in
      let (v, l, h₄) =
        bind_returned (refuse (is_empty us) (missing (codes "gateway.underlyings"))) _ h₃ in
      let p : c'.engine_port ≡ port = read_gateway-port host port gw c' e in
      let same : record c' { underlyings = us } ≡ c = returned-injective h₄ in
      subst IsUsable same (
        check_fields-IsUsable c' us (ap (λ q. int_lt q (pos 1)) p ∙ a)
          (ap (int_lt (pos 65535)) p ∙ b) f (refuse-false (is_empty us) _ l))

  -- A configuration that is loaded has an engine port from 1 to 65535, an interval that is not
  -- negative, a positive timeout, no empty entry among the addresses and credentials that are
  -- needed, and at least one exchange.
  pub from_file-IsUsable :
      (file : Option Bytes) (c : GatewayConfig) → from_file json file ≡ returned c → IsUsable c
  unfolding from_file load_json
  from_file-IsUsable file c h =
      let (contents, e, h₁) = bind_returned (or_fail cannot_open file) _ h in
      let (j, f, h₂) = bind_returned (or_fail parse_error (json.parse contents)) _ h₁ in
      let (engine, g, h₃) = bind_returned (read_engine json j) _ h₂ in
      let (u, k, h₄) =
        bind_returned (refuse (not (json.contains j (codes "gateway"))) (missing (codes "gateway")))
          _ h₃ in
      let (gw, l, h₅) = bind_returned (library (json.member j (codes "gateway"))) _ h₄ in
      let (a, b) = read_engine-port j engine.0 engine.1 g in
      load_gateway-IsUsable engine.0 engine.1 gw c a b h₅
