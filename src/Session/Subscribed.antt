-- ===== src/Session/Subscribed.antt =====
-- src/modules/ctp_gateway_cpp/src/md_spi.cpp: what is subscribed after any callbacks.
use mathlib.Core.List.{append-nil, append_assoc}
use tyche_engine.Common.{
  ℕ, ◌+◌, ◌%◌, ◌^◌, ◌≡◌, ◌≢◌, refl, sym, ap, subst, ◌∙◌, arith, true, false, Option, none, some,
  List, [], ◌∷◌, ◌++◌, length, map, ◌==◌, Bytes, Bool-cases, inl, inr, ◌⊎◌,
}
use tyche_engine.Session.{
  ApiCall, req_user_login, req_authenticate, subscribe_market_data, MdSpi, do_subscribe,
  set_instruments, login_md, md_login_response, is_error, login_call, MdCallback, set_ids,
  heart_beat_warning, rsp_sub_market_data, on_md,
}

-- The last subscription among the calls, or else `before`.
abbrev pub last_subscription : Option (List Bytes) → List ApiCall → Option (List Bytes)
last_subscription before [] = before
last_subscription before (subscribe_market_data ids ∷ cs) = last_subscription (some ids) cs
last_subscription before (other ∷ cs) = last_subscription before cs

abbrev pub on_all : List MdCallback → MdSpi → MdSpi
on_all [] s = s
on_all (e ∷ es) s = on_all es (on_md e s)

abbrev pub buffers : List Bytes → List Bytes
buffers ids = map (λ (id : Bytes). id ++ (0 ∷ [])) ids

last-subscribe :
    (o : Option (List Bytes)) (cs : List ApiCall) (ids : List Bytes)
    → last_subscription o (cs ++ (subscribe_market_data ids ∷ [])) ≡ some ids
last-subscribe o [] ids = refl
last-subscribe o (req_user_login a b c n ∷ cs) ids = last-subscribe o cs ids
last-subscribe o (req_authenticate a b c d n ∷ cs) ids = last-subscribe o cs ids
last-subscribe o (subscribe_market_data js ∷ cs) ids = last-subscribe (some js) cs ids

last-login :
    (o : Option (List Bytes)) (cs : List ApiCall) (a b c : Bytes) (n : ℕ)
    → last_subscription o (cs ++ (req_user_login a b c n ∷ [])) ≡ last_subscription o cs
last-login o [] a b c n = refl
last-login o (req_user_login e f g m ∷ cs) a b c n = last-login o cs a b c n
last-login o (req_authenticate e f g h m ∷ cs) a b c n = last-login o cs a b c n
last-login o (subscribe_market_data js ∷ cs) a b c n = last-login (some js) cs a b c n

-- What has been asked since the calls were `base`.
record Since (base : List ApiCall) (s : MdSpi) : Type 0 where
  made : List ApiCall
  whole : s.calls ≡ base ++ made
  current :
      s.logged_in ≡ true
      → s.instruments ≢ []
      → last_subscription none made ≡ some (buffers s.instruments)

eq_nil : (ids : List Bytes) → (length ids == 0) ≡ true → ids ≡ []
eq_nil [] h = refl
eq_nil (id ∷ ids) h = absurd (ground arith)

subscribed : MdSpi → MdSpi
subscribed s = record s { calls = s.calls ++ (subscribe_market_data (buffers s.instruments) ∷ []) }

do_subscribe-cases :
    (s : MdSpi) → ((s.instruments ≡ []) × (do_subscribe s ≡ s)) ⊎ (do_subscribe s ≡ subscribed s)
unfolding do_subscribe subscribed
do_subscribe-cases s = elim (Bool-cases (length s.instruments == 0)) [
  | inl e ↦ inl (eq_nil s.instruments e, simp e)
  | inr e ↦ inr (simp e)
]

do_subscribe-Since :
    (base made : List ApiCall) (s : MdSpi) → s.calls ≡ base ++ made → Since base (do_subscribe s)
unfolding subscribed
do_subscribe-Since base made s e = elim (do_subscribe-cases s) [
  | inl (none_wanted, same) ↦
      subst (Since base) (sym same)
        (record { made = made; whole = e; current = λ l n. absurd (n none_wanted) })
  | inr now ↦ subst (Since base) (sym now) (record {
    made = made ++ (subscribe_market_data (buffers s.instruments) ∷ []);
    whole =
        ap (λ cs. cs ++ (subscribe_market_data (buffers s.instruments) ∷ [])) e
        ∙ append_assoc base made _;
    current = λ l n. last-subscribe none made (buffers s.instruments);
  })
]

-- A state in which nobody is logged in.
offline-Since :
    (base made : List ApiCall) (s : MdSpi)
    → s.calls ≡ base ++ made
    → s.logged_in ≡ false
    → Since base s
offline-Since base made s e h = record { made = made; whole = e; current = λ l n. absurd (cc) }

on_md-Since :
    (base : List ApiCall) (e : MdCallback) (s : MdSpi) → Since base s → Since base (on_md e s)
unfolding on_md set_instruments login_md md_login_response
on_md-Since base (set_ids ids) s h = elim (Bool-cases s.logged_in) [
  | inl l ↦
      rw l
        (do_subscribe-Since base h.made (record s { instruments = ids; logged_in = true }) h.whole)
  | inr l ↦
      rw l
        (offline-Since base h.made (record s { instruments = ids; logged_in = false }) h.whole refl)
]
on_md-Since base MdCallback.front_connected s h = record {
  made = h.made ++ (login_call s.account ((s.req_id + 1) % 2 ^ 32) ∷ []);
  whole =
      ap (λ cs. cs ++ (login_call s.account ((s.req_id + 1) % 2 ^ 32) ∷ [])) h.whole
      ∙ append_assoc base h.made _;
  current = λ l n. last-login none h.made _ _ _ _ ∙ h.current l n;
}
on_md-Since base MdCallback.front_disconnected s h = offline-Since base h.made _ h.whole refl
on_md-Since base heart_beat_warning s h = h
on_md-Since base (MdCallback.rsp_user_login error) s h = elim (Bool-cases (is_error error)) [
  | inl bad ↦ rw bad h
  | inr good ↦ rw good (do_subscribe-Since base h.made (record s { logged_in = true }) h.whole)
]
on_md-Since base MdCallback.rsp_user_logout s h = offline-Since base h.made _ h.whole refl
on_md-Since base rsp_sub_market_data s h = h

on_all-Since :
    (base : List ApiCall) (es : List MdCallback) (s : MdSpi)
    → Since base s
    → Since base (on_all es s)
on_all-Since base [] s h = h
on_all-Since base (e ∷ es) s h = on_all-Since base es (on_md e s) (on_md-Since base e s h)

-- From a moment on at which the market data connection is not logged in, whatever callbacks
-- follow: if it is logged in at the end and its list of instruments is not empty, then the last
-- subscription that was sent since is that of this list.
pub on_all-subscribed :
    (es : List MdCallback) (s : MdSpi)
    → s.logged_in ≡ false
    → let s' = on_all es s in
      (made : List ApiCall) × (s'.calls ≡ s.calls ++ made)
      × (s'.logged_in ≡ true
          → s'.instruments ≢ []
          → last_subscription none made ≡ some (buffers s'.instruments))
on_all-subscribed es s h =
    let t = on_all-Since s.calls es s (offline-Since s.calls [] s (sym (append-nil s.calls)) h) in
    (t.made, t.whole, t.current)
