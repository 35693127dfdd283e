-- ===== src/Gateway/Instruments/Ready.antt =====
-- src/modules/ctp_gateway_cpp/src/ctp_gateway.cpp: `resolve_instruments` against the list of what the
-- static data has, when it answers.
use mathlib.Core.List.{append-nil, append_assoc}
use tyche_engine.Common.{
  ℕ, ◌+◌, ◌<◌, ◌≡◌, ◌≢◌, refl, sym, ap, ◌∙◌, arith, false, List, [], ◌∷◌, ◌++◌, length, ◌==◌, Bytes,
  codes,
}
use tyche_engine.Common.Members.{add_once}
use tyche_engine.Wire.{Fields}
use tyche_engine.Gateway.Instruments.{
  Reply, Verdict, listed, not_ready, next_product, query_failed, Listing, verdict, query, add_all,
  option_reply, option_products, query_options, query_product, query_products, query_exchanges,
  after_futures, attempts, resolve_instruments,
}

add_all-append : (xs ys set : List Bytes) → add_all (xs ++ ys) set ≡ add_all ys (add_all xs set)
add_all-append [] ys set = refl
add_all-append (x ∷ xs) ys set = add_all-append xs ys (add_once x set)

-- `st'` is `st` with these ids, of which `options` are those of options.
record Grown (ids options : List Bytes) (st st' : Listing) : Type 0 where
  found : st'.instruments ≡ st.instruments ++ ids
  marked : st'.option_instrument_set ≡ add_all options st.option_instrument_set
  awake : st'.sleeps ≡ st.sleeps

Grown-trans :
    {is js os ps : List Bytes} {r s t : Listing}
    → Grown is os r s
    → Grown js ps s t
    → Grown (is ++ js) (os ++ ps) r t
Grown-trans {is} {js} {os} {ps} {r} {s} {t} g h = record {
  found = h.found ∙ ap (λ l. l ++ js) g.found ∙ append_assoc r.instruments is js;
  marked = h.marked ∙ ap (add_all ps) g.marked ∙ sym (add_all-append os ps r.option_instrument_set);
  awake = h.awake ∙ g.awake;
}

Grown-refl : (st : Listing) → Grown [] [] st st
Grown-refl st = record { found = sym (append-nil st.instruments); marked = refl; awake = refl }

module _ {D F : Type 0} (reply : Fields D F → Reply D F) where
  abbrev answer : ℕ → Fields D F → Reply D F
  answer n q = reply q

  abbrev pub futures_verdict : Bytes → Bytes → Verdict
  futures_verdict exchange product = verdict (reply (query exchange product (codes "1")))

  -- The ids of the options of one product, and of a product with its futures.
  abbrev pub options_of : Bytes → List Bytes → List Bytes
  options_of exchange [] = []
  options_of exchange (p ∷ ps) =
      option_reply (reply (query exchange p (codes "2"))) ++ options_of exchange ps

  abbrev pub product_options : Bytes → Bytes → Verdict → List Bytes
  product_options exchange product next_product = []
  product_options exchange product other = options_of exchange (option_products exchange product)

  abbrev pub product_ids : Bytes → Bytes → Verdict → List Bytes
  product_ids exchange product (listed ids) =
      ids ++ options_of exchange (option_products exchange product)
  product_ids exchange product v = product_options exchange product v

  abbrev pub products_ids : Bytes → List Bytes → List Bytes
  products_ids exchange [] = []
  products_ids exchange (p ∷ ps) =
      product_ids exchange p (futures_verdict exchange p) ++ products_ids exchange ps

  abbrev pub products_options : Bytes → List Bytes → List Bytes
  products_options exchange [] = []
  products_options exchange (p ∷ ps) =
      product_options exchange p (futures_verdict exchange p) ++ products_options exchange ps

  abbrev pub all_ids : List (Bytes × List Bytes) → List Bytes
  all_ids [] = []
  all_ids ((exchange, ps) ∷ more) = products_ids exchange ps ++ all_ids more

  abbrev pub all_options : List (Bytes × List Bytes) → List Bytes
  all_options [] = []
  all_options ((exchange, ps) ∷ more) = products_options exchange ps ++ all_options more

  -- No query for futures finds the static data missing.
  abbrev pub ProductsReady : Bytes → List Bytes → Type 0
  ProductsReady exchange [] = Unit
  ProductsReady exchange (p ∷ ps) =
      (futures_verdict exchange p ≢ not_ready) × ProductsReady exchange ps

  abbrev pub AllReady : List (Bytes × List Bytes) → Type 0
  AllReady [] = Unit
  AllReady ((exchange, ps) ∷ more) = ProductsReady exchange ps × AllReady more

  query_options-Grown :
      (exchange : Bytes) (ps : List Bytes) (st : Listing)
      → Grown
          (options_of exchange ps)
          (options_of exchange ps)
          st
          (query_options answer exchange ps st)
  unfolding query_options
  query_options-Grown exchange [] st = Grown-refl st
  query_options-Grown exchange (p ∷ ps) st =
      let ids = option_reply (reply (query exchange p (codes "2"))) in
      let st' = record st {
        asked = st.asked + 1;
        instruments = st.instruments ++ ids;
        option_instrument_set = add_all ids st.option_instrument_set;
      } in
      Grown-trans {s = st'} (record { found = refl; marked = refl; awake = refl })
        (query_options-Grown exchange ps st')

  after_futures-Grown :
      (exchange product : Bytes) (v : Verdict) (st : Listing)
      → v ≢ not_ready
      → ((after_futures answer exchange product v st).0 ≡ false)
        × Grown
            (product_ids exchange product v)
            (product_options exchange product v)
            st
            (after_futures answer exchange product v st).1
  after_futures-Grown exchange product (listed ids) st h =
      let options = option_products exchange product in
      (
        refl,
        Grown-trans {os = []} {s = record st { instruments = st.instruments ++ ids }}
            (record { found = refl; marked = refl; awake = refl })
            (query_options-Grown exchange options _),
      )
  after_futures-Grown exchange product not_ready st h = absurd (h refl)
  after_futures-Grown exchange product next_product st h = (refl, Grown-refl st)
  after_futures-Grown exchange product query_failed st h =
      (refl, query_options-Grown exchange (option_products exchange product) st)

  query_product-Grown :
      (exchange product : Bytes) (st : Listing)
      → futures_verdict exchange product ≢ not_ready
      → ((query_product answer exchange product st).0 ≡ false)
        × Grown
            (product_ids exchange product (futures_verdict exchange product))
            (product_options exchange product (futures_verdict exchange product))
            st
            (query_product answer exchange product st).1
  unfolding query_product
  query_product-Grown exchange product st h =
      let (e, g) =
        after_futures-Grown exchange product (futures_verdict exchange product)
          (record st { asked = st.asked + 1 }) h in
      (e, record { found = g.found; marked = g.marked; awake = g.awake })

  query_products-Grown :
      (exchange : Bytes) (ps : List Bytes) (st : Listing)
      → ProductsReady exchange ps
      → ((query_products answer exchange ps st).0 ≡ false)
        × Grown
            (products_ids exchange ps)
            (products_options exchange ps)
            st
            (query_products answer exchange ps st).1
  unfolding query_products
  query_products-Grown exchange [] st h = (refl, Grown-refl st)
  query_products-Grown exchange (p ∷ ps) st (r, h) =
      let (e, g) = query_product-Grown exchange p st r in
      let (f, k) = query_products-Grown exchange ps (query_product answer exchange p st).1 h in
      rw (e, query_products) (f, Grown-trans g k)

  query_exchanges-Grown :
      (us : List (Bytes × List Bytes)) (st : Listing)
      → AllReady us
      → ((query_exchanges answer us st).0 ≡ false)
        × Grown (all_ids us) (all_options us) st (query_exchanges answer us st).1
  unfolding query_exchanges
  query_exchanges-Grown [] st h = (refl, Grown-refl st)
  query_exchanges-Grown ((exchange, ps) ∷ more) st (r, h) =
      let (e, g) = query_products-Grown exchange ps st r in
      let (f, k) = query_exchanges-Grown more (query_products answer exchange ps st).1 h in
      rw (e, query_exchanges) (f, Grown-trans g k)

  -- One attempt is enough.
  pub resolve-ready :
      (us : List (Bytes × List Bytes))
      → AllReady us
      → 0 < length (all_ids us)
      → let st = resolve_instruments answer us in
        (st.instruments ≡ all_ids us)
        × (st.option_instrument_set ≡ add_all (all_options us) [])
        × (st.sleeps ≡ 0)
  unfolding resolve_instruments attempts
  resolve-ready us h l =
      let (e, g) =
        query_exchanges-Grown us
          (record { instruments = []; option_instrument_set = []; asked = 0; sleeps = 0 }) h in
      let some_found : (length
              (query_exchanges answer us (record {
                instruments = [];
                option_instrument_set = [];
                asked = 0;
                sleeps = 0;
              })).1.instruments
            == 0)
          ≡ false =
        rw g.found (ground arith) in
      rw (e, some_found) (g.found, g.marked, g.awake)
