-- ===== src/Session/Authenticated.antt =====
-- src/modules/ctp_gateway_cpp/src/td_spi.cpp: what is asked of the trading interface.
use tyche_engine.Common.{
  ℕ, suc, ◌+◌, ◌≡◌, refl, ap, ◌∙◌, arith, Bool, not, List, [], ◌∷◌, ◌++◌, length, if◌then◌else◌,
  ◌==◌, Bool-cases, inl, inr,
}
use tyche_engine.Session.{
  Account, ApiCall, req_user_login, req_authenticate, subscribe_market_data, TdSpi, login_td,
  authenticate_or_login, is_error, TdCallback, rsp_authenticate, on_td,
}

abbrev pub on_all : List TdCallback → TdSpi → TdSpi
on_all [] s = s
on_all (e ∷ es) s = on_all es (on_td e s)

-- The logins among the calls, and what should cause them: an authentication without error and, if
-- there is no application id, a connection.
abbrev pub logins : List ApiCall → ℕ
logins [] = 0
logins (req_user_login a b c n ∷ cs) = suc (logins cs)
logins (other ∷ cs) = logins cs

abbrev causes : Bool → TdCallback → ℕ
causes with_appid (rsp_authenticate error) = if is_error error then 0 else 1
causes with_appid TdCallback.front_connected = if with_appid then 0 else 1
causes with_appid other = 0

abbrev pub login_causes : Bool → List TdCallback → ℕ
login_causes with_appid [] = 0
login_causes with_appid (e ∷ es) = causes with_appid e + login_causes with_appid es

logins-append : (cs ds : List ApiCall) → logins (cs ++ ds) ≡ logins cs + logins ds
logins-append [] ds = omega arith
logins-append (req_user_login a b c n ∷ cs) ds = omega (arith, logins-append cs ds)
logins-append (req_authenticate a b c d n ∷ cs) ds = logins-append cs ds
logins-append (subscribe_market_data ids ∷ cs) ds = logins-append cs ds

on_td-logins :
    (e : TdCallback) (s : TdSpi)
    → (logins (on_td e s).calls ≡ logins s.calls + causes (not (length s.account.appid == 0)) e)
      × ((on_td e s).account ≡ s.account)
unfolding on_td authenticate_or_login login_td
on_td-logins TdCallback.front_connected s = elim (Bool-cases (length s.account.appid == 0)) [
  | inl e ↦ rw e (logins-append s.calls _, refl)
  | inr e ↦ rw e (logins-append s.calls _, refl)
]
on_td-logins TdCallback.front_disconnected s = (omega arith, refl)
on_td-logins (rsp_authenticate error) s = elim (Bool-cases (is_error error)) [
  | inl e ↦ rw e (omega arith, refl)
  | inr e ↦ rw e (logins-append s.calls _, refl)
]
on_td-logins (TdCallback.rsp_user_login error) s = elim (Bool-cases (is_error error)) [
  | inl e ↦ rw e (omega arith, refl)
  | inr e ↦ rw e (omega arith, refl)
]
on_td-logins TdCallback.rsp_user_logout s = (omega arith, refl)

-- Whatever callbacks reach the trading connection, the number of logins that it sends is the
-- number of answers to authentications without an error plus, if no application id is configured,
-- the number of connections.
pub on_all-logins :
    (es : List TdCallback) (s : TdSpi)
    → logins (on_all es s).calls
      ≡ logins s.calls + login_causes (not (length s.account.appid == 0)) es
on_all-logins [] s = omega arith
on_all-logins (e ∷ es) s =
    let (l, a) = on_td-logins e s in
    on_all-logins es (on_td e s)
    ∙ ap (λ (c : Account). logins (on_td e s).calls + login_causes (not (length c.appid == 0)) es) a
    ∙ omega (arith, l)
