-- ===== src/Registration/Client.antt =====
-- src/tyche/cpp/module.cpp: what a module makes of the answer to its registration.
use tyche_engine.Common.{suc, Bool, true, false, Option, none, some, if◌then◌else◌, Bytes, codes}
use tyche_engine.Common.Words.{ℤ, pos}
use tyche_engine.Types.{MessageType}
use tyche_engine.Wire.{Any, Fields, text, int, Msgpack}
use tyche_engine.Wire.Unpack.{deserialize}
use tyche_engine.TycheModule.{TycheModule, subscribe_to_interfaces}
use tyche_engine.Registration.{find}

module _ {D F : Type 0} where
  -- `std::any_cast`; `none`: it throws.
  abbrev as_text : Option (Any D F) → Option Bytes
  as_text (some (text s)) = some s
  as_text other = none

  abbrev as_int : Any D F → Option ℤ
  as_int (int i) = some i
  as_int other = none

module _ {D F H : Type 0} where
  abbrev accept_job_port : Option (Any D F) → TycheModule D F H → Bool × TycheModule D F H
  accept_job_port none m = (true, m)
  accept_job_port (some v) m = elim (as_int v) [
    | none ↦ (false, m)
    | some i ↦ (true, record m { engine_job_port = i })
  ]

  abbrev accept_ports :
      Option (Any D F)
      → Option (Any D F)
      → Option (Any D F)
      → TycheModule D F H
      → Bool × TycheModule D F H
  accept_ports (some v) (some w) job m = elim (as_int v) [
    | none ↦ (false, m)
    | some i ↦ elim (as_int w) [
      | none ↦ (false, record m { engine_pub_port = i })
      | some j ↦ accept_job_port job (record m { engine_pub_port = i; engine_sub_port = j })
    ]
  ]
  accept_ports (some v) none job m = (false, m)
  accept_ports none other job m = (false, m)

  abbrev accept_payload : Fields D F → TycheModule D F H → Bool × TycheModule D F H
  accept_payload payload m = elim (as_text (find (codes "module_id") payload)) [
    | none ↦ (false, m)
    | some id ↦
        accept_ports (find (codes "event_pub_port") payload) (find (codes "event_sub_port") payload)
          (find (codes "job_port") payload) (record m { module_id = id })
  ]

  abbrev accept : MessageType → Fields D F → TycheModule D F H → Bool × TycheModule D F H
  accept MessageType.ack payload m = accept_payload payload m
  accept other payload m = (false, m)

abbrev is_pos : ℤ → Bool
is_pos (pos (suc n)) = true
is_pos other = false

module _ {D F H : Type 0} (mp : Msgpack D F) where
  -- `_register_with_engine`, from whether the request could be sent and the reply, if one came in time.
  unfoldable pub register_with_engine :
      Bool → Option Bytes → TycheModule D F H → Bool × TycheModule D F H
  register_with_engine false reply m = (false, m)
  register_with_engine true none m = (false, m)
  register_with_engine true (some bs) m = elim (deserialize mp bs) [
    | none ↦ (false, m)
    | some msg ↦ accept msg.msg_type msg.payload m
  ]

  abbrev connected : Bool × TycheModule D F H → TycheModule D F H
  connected (false, m) = record m { running = false }
  connected (true, m) =
      let m₁ = subscribe_to_interfaces (record m { registered = true; pub_socket = true }) in
      if is_pos m.engine_job_port then record m₁ { job_socket = true } else m₁

  unfoldable pub start_workers : Bool → Option Bytes → TycheModule D F H → TycheModule D F H
  start_workers sent reply m =
      connected (register_with_engine sent reply (record m { running = true }))
