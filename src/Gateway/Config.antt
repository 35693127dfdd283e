-- ===== src/Gateway/Config.antt =====
-- src/modules/ctp_gateway_cpp/src/config.h and config.cpp: the configuration of the gateway, read from a
-- JSON file. The JSON library is the record `Json`; a default is given back for a missing key.
pub mod Usable
use tyche_engine.Common.{
  ℕ, ◌+◌, ◌≡◌, Bool, true, false, ◌||◌, not, Option, none, some, List, [], ◌∷◌, length,
  if◌then◌else◌, ◌==◌, Bytes, bytes_discrete, codes,
}
use Prim.Native.String.{String}
use tyche_engine.Common.Assoc
use tyche_engine.Common.Words.{ℤ, pos}
use tyche_engine.Quote.{to_string}
use tyche_engine.Quote.Validator.{int_lt}

-- `none`: the library throws. `string_value` and `int_value` are `value` with a default, `items` are
-- the members of an object in their order, and `strings` is `get<std::vector<std::string>>`.
pub record Json (J : Type 0) : Type 0 where
  pub parse : Bytes → Option J
  pub contains : J → Bytes → Bool
  pub member : J → Bytes → Option J
  pub string_value : J → Bytes → Bytes → Option Bytes
  pub int_value : J → Bytes → ℤ → Option ℤ
  pub items : J → Option (List (Bytes × J))
  pub strings : J → Option (List Bytes)

pub record GatewayConfig : Type 0 where
  pub engine_host : Bytes
  pub engine_port : ℤ
  pub family_name : Bytes
  pub md_front : Bytes
  pub td_front : Bytes
  pub broker_id : Bytes
  pub user_id : Bytes
  pub password : Bytes
  pub appid : Bytes
  pub authcode : Bytes
  pub dll_dir : Bytes
  pub md_dll : Bytes
  pub td_dll : Bytes
  pub underlyings : List (Bytes × List Bytes)
  pub reconnect_interval_secs : ℤ
  pub static_data_timeout_secs : ℤ

pub data ConfigError : Type 0 where
  cannot_open parse_error json_error : ConfigError
  invalid_port invalid_reconnect_interval invalid_static_data_timeout : ConfigError
  missing : Bytes → ConfigError

-- What is thrown, or what comes back.
pub data Loading (A : Type 0) : Type 0 where
  threw : ConfigError → Loading A
  returned : A → Loading A

infixl 5 ◌>>=◌ ◌>>◌
abbrev pub ◌>>=◌ : {A B : Type 0} → Loading A → (A → Loading B) → Loading B
threw error >>= next = threw error
returned value >>= next = next value

abbrev pub ◌>>◌ : {B : Type 0} → Loading (Unit {0}) → Loading B → Loading B
first >> rest = first >>= λ u. rest

-- Throws the error if the test is true.
abbrev pub refuse : Bool → ConfigError → Loading (Unit {0})
refuse true e = threw e
refuse false e = returned tt

abbrev pub library : {A : Type 0} → Option A → Loading A
library none = threw json_error
library (some a) = returned a

abbrev pub or_fail : {A : Type 0} → ConfigError → Option A → Loading A
or_fail e none = threw e
or_fail e (some a) = returned a

abbrev pub is_empty : {A : Type 0} → List A → Bool
is_empty xs = length xs == 0

unfoldable pub check_fields : GatewayConfig → Loading (Unit {0})
check_fields c = do
  refuse (int_lt c.reconnect_interval_secs (pos 0)) invalid_reconnect_interval
  refuse (int_lt c.static_data_timeout_secs (pos 1)) invalid_static_data_timeout
  refuse (is_empty c.md_front) (missing (codes "gateway.md_front"))
  refuse (is_empty c.broker_id) (missing (codes "gateway.broker_id"))
  refuse (is_empty c.user_id) (missing (codes "gateway.user_id"))
  refuse (is_empty c.password) (missing (codes "gateway.password"))
  refuse (is_empty c.dll_dir) (missing (codes "gateway.dll_dir"))

module _ {J : Type 0} (json : Json J) where
  -- The host and the port of the engine.
  unfoldable pub read_engine : J → Loading (Bytes × ℤ)
  read_engine j =
      if json.contains j (codes "engine")
      then (do
        eng ← library (json.member j (codes "engine"))
        host ← library (json.string_value eng (codes "host") (codes "127.0.0.1"))
        port ← library (json.int_value eng (codes "port") (pos 5555))
        refuse (int_lt port (pos 1) || int_lt (pos 65535) port) invalid_port
        returned (host, port))
      else returned (codes "127.0.0.1", pos 5555)

  unfoldable pub read_underlyings :
      List (Bytes × J) → List (Bytes × List Bytes) → Loading (List (Bytes × List Bytes))
  read_underlyings [] us = returned us
  read_underlyings ((exchange, products) ∷ more) us = do
    names ← library (json.strings products)
    read_underlyings more (Assoc.assign bytes_discrete exchange names us)

  abbrev pub text_field : J → String → String → Loading Bytes
  text_field gw name default = library (json.string_value gw (codes name) (codes default))

  -- The fields of the section `gateway`, without `underlyings`.
  unfoldable pub read_gateway : Bytes × ℤ → J → Loading GatewayConfig
  read_gateway (host, port) gw = do
    family_name ← text_field gw "family_name" "ctp_gateway"
    md_front ← text_field gw "md_front" ""
    td_front ← text_field gw "td_front" ""
    broker_id ← text_field gw "broker_id" ""
    user_id ← text_field gw "user_id" ""
    password ← text_field gw "password" ""
    appid ← text_field gw "appid" ""
    authcode ← text_field gw "authcode" ""
    dll_dir ← text_field gw "dll_dir" ""
    md_dll ← text_field gw "md_dll" ""
    td_dll ← text_field gw "td_dll" ""
    reconnect ← library (json.int_value gw (codes "reconnect_interval_secs") (pos 5))
    timeout ← library (json.int_value gw (codes "static_data_timeout_secs") (pos 15))
    returned (record {
      engine_host = host;
      engine_port = port;
      family_name = family_name;
      md_front = md_front;
      td_front = td_front;
      broker_id = broker_id;
      user_id = user_id;
      password = password;
      appid = appid;
      authcode = authcode;
      dll_dir = dll_dir;
      md_dll = md_dll;
      td_dll = td_dll;
      underlyings = [];
      reconnect_interval_secs = reconnect;
      static_data_timeout_secs = timeout;
    })

  abbrev pub listed : J → Loading (List (Bytes × List Bytes))
  listed gw =
      if json.contains gw (codes "underlyings")
      then (do
        us ← library (json.member gw (codes "underlyings"))
        entries ← library (json.items us)
        read_underlyings entries [])
      else returned []

  -- What follows the section `gateway`.
  unfoldable pub load_gateway : Bytes × ℤ → J → Loading GatewayConfig
  load_gateway engine gw = do
    c ← read_gateway engine gw
    check_fields c
    us ← listed gw
    refuse (is_empty us) (missing (codes "gateway.underlyings"))
    returned (record c { underlyings = us })

  unfoldable pub load_json : J → Loading GatewayConfig
  load_json j = do
    engine ← read_engine j
    refuse (not (json.contains j (codes "gateway"))) (missing (codes "gateway"))
    gw ← library (json.member j (codes "gateway"))
    load_gateway engine gw

  -- `from_file`; `none`: the file cannot be opened.
  unfoldable pub from_file : Option Bytes → Loading GatewayConfig
  from_file file = do
    contents ← or_fail cannot_open file
    j ← or_fail parse_error (json.parse contents)
    load_json j
