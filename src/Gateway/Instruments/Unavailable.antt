-- ===== src/Gateway/Instruments/Unavailable.antt =====
-- src/modules/ctp_gateway_cpp/src/ctp_gateway.cpp: `resolve_instruments` while nobody answers.
use tyche_engine.Common.{
  ℕ, zero, suc, ◌+◌, ◌≡◌, refl, ap, ◌∙◌, arith, true, false, not, List, [], ◌∷◌, if◌then◌else◌,
  ◌==◌, Bytes, codes,
}
use tyche_engine.Wire.{Fields}
use tyche_engine.Gateway.Instruments.{
  Reply, Listing, not_ready, verdict, query, query_product, query_products, query_exchanges,
  attempts, resolve_instruments,
}

-- Some product is configured.
abbrev pub HasProduct : List (Bytes × List Bytes) → Type 0
HasProduct [] = ⊥
HasProduct ((exchange, []) ∷ more) = HasProduct more
HasProduct ((exchange, product ∷ ps) ∷ more) = Unit

module _ {D F : Type 0} (answer : ℕ → Fields D F → Reply D F)
    (silent : (n : ℕ) (q : Fields D F) → verdict (answer n q) ≡ not_ready) where
  failed_product :
      (exchange product : Bytes) (st : Listing)
      → query_product answer exchange product st ≡ (true, record st { asked = st.asked + 1 })
  unfolding query_product
  failed_product exchange product st =
      rw (silent st.asked (query exchange product (codes "1"))) refl

  failed_products :
      (exchange product : Bytes) (ps : List Bytes) (st : Listing)
      → query_products answer exchange (product ∷ ps) st
        ≡ (true, record st { asked = st.asked + 1 })
  unfolding query_products
  failed_products exchange product ps st =
      rw (failed_product exchange product st, query_products)
        (λ i. (true, (failed_product exchange product st i).1))

  no_products :
      (exchange : Bytes) (st : Listing) → query_products answer exchange [] st ≡ (false, st)
  unfolding query_products
  no_products exchange st = refl

  failed_attempt :
      (us : List (Bytes × List Bytes)) (st : Listing)
      → HasProduct us
      → query_exchanges answer us st ≡ (true, record st { asked = st.asked + 1 })
  unfolding query_exchanges
  failed_attempt [] st h = absurd h
  failed_attempt ((exchange, []) ∷ more) st h =
      rw (no_products exchange st, query_exchanges)
        (ap (λ r. query_exchanges answer more r.1) (no_products exchange st)
          ∙ failed_attempt more st h)
  failed_attempt ((exchange, product ∷ ps) ∷ more) st h =
      rw (failed_products exchange product ps st, query_exchanges)
        (λ i. (true, (failed_products exchange product ps st i).1))

  abbrev after_attempt : ℕ → Listing → Listing
  after_attempt n st =
      let st' = record st { instruments = []; asked = st.asked + 1 } in
      if not (n == 0) then record st' { sleeps = st.sleeps + 1 } else st'

  module _ (us : List (Bytes × List Bytes)) (some_product : HasProduct us) where
    next_attempt :
        (n : ℕ) (st : Listing)
        → attempts answer (suc n) us st ≡ attempts answer n us (after_attempt n st)
    unfolding attempts
    next_attempt n st =
        rw (failed_attempt us (record st { instruments = [] }) some_product, attempts) refl

    no_attempts : (t : Listing) → attempts answer 0 us t ≡ t
    unfolding attempts
    no_attempts t = refl

    failed_attempts :
        (n : ℕ) (st : Listing)
        → attempts answer (suc n) us st
          ≡ record st { instruments = []; asked = st.asked + suc n; sleeps = st.sleeps + n }
    failed_attempts zero st = next_attempt 0 st ∙ no_attempts (after_attempt 0 st) ∙ ground arith
    failed_attempts (suc n) st =
        next_attempt (suc n) st ∙ failed_attempts n (after_attempt (suc n) st) ∙ ground arith

    -- If every query finds the static data missing, and at least one product is configured,
    -- `resolve_instruments` gives up after 13 attempts of one query each and 12 sleeps, with no
    -- instruments.
    pub resolve-unavailable :
        resolve_instruments answer us
        ≡ record { instruments = []; option_instrument_set = []; asked = 13; sleeps = 12 }
    unfolding resolve_instruments
    resolve-unavailable = failed_attempts 12 _
