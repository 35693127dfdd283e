-- ===== src/Gateway/Instruments.antt =====
-- src/modules/ctp_gateway_cpp/src/ctp_gateway.cpp: `resolve_instruments`, which asks the static data for
-- the futures and options of the configured products. What `request_event` does is the argument
-- `answer`, of the number of earlier requests and of the payload.
pub mod Ready
pub mod Catalogue
pub mod Found
pub mod Unavailable
use tyche_engine.Common.{
  ℕ, zero, suc, ◌+◌, ◌≡◌, Bool, true, false, ◌&&◌, ◌||◌, not, Option, none, some, List, [], ◌∷◌,
  ◌++◌, length, ite, if◌then◌else◌, ◌==◌, Bytes, bytes_discrete, codes,
}
use tyche_engine.Common.Members.{add_once}
use tyche_engine.Wire.{Any, Anys, Fields, end, field, text, table, items, no_more, next}
use tyche_engine.TycheModule.{after_prefix}
use tyche_engine.Quote.{find}

-- The payload that comes back, or the text of the exception.
pub data Reply (D F : Type 0) : Type 0 where
  replied : Fields D F → Reply D F
  thrown : Bytes → Reply D F

-- What a query for futures means for the loop.
pub data Verdict : Type 0 where
  listed : List Bytes → Verdict
  not_ready : Verdict
  next_product : Verdict
  query_failed : Verdict

pub record Listing : Type 0 where
  pub instruments : List Bytes
  pub option_instrument_set : List Bytes
  pub asked : ℕ
  pub sleeps : ℕ

abbrev is_some : {A : Type 0} → Option A → Bool
is_some none = false
is_some (some a) = true

-- `s.find(pattern) != npos`
unfoldable pub has_text : Bytes → Bytes → Bool
has_text pattern [] = is_some (after_prefix pattern [])
has_text pattern (c ∷ s) =
    let rest = has_text pattern s in is_some (after_prefix pattern (c ∷ s)) || rest

unfoldable pub option_products : Bytes → Bytes → List Bytes
option_products exchange product =
    ite (bytes_discrete exchange (codes "SHFE")) ((product ++ codes "_o") ∷ []) (
      ite (bytes_discrete exchange (codes "DCE")) ((product ++ codes "_o") ∷ []) (
        ite (bytes_discrete exchange (codes "INE")) ((product ++ codes "_o") ∷ []) (
          ite (bytes_discrete exchange (codes "GFEX")) ((product ++ codes "_o") ∷ []) (
            ite (bytes_discrete exchange (codes "CZCE"))
              ((product ++ codes "C") ∷ (product ++ codes "P") ∷ []) (product ∷ [])))))

-- `insert` of each id
abbrev pub add_all : List Bytes → List Bytes → List Bytes
add_all [] set = set
add_all (id ∷ ids) set = add_all ids (add_once id set)

abbrev also_id : Option Bytes → Option (List Bytes) → Option (List Bytes)
also_id (some s) (some ids) = some (s ∷ ids)
also_id (some s) none = none
also_id none ids = none

abbrev of_ids : Option (List Bytes) → Verdict
of_ids (some ids) = listed ids
of_ids none = query_failed

module _ {D F : Type 0} where
  unfoldable pub query : Bytes → Bytes → Bytes → Fields D F
  query exchange product class = field (codes "exchange_id") (text exchange) (
      field (codes "product_id") (text product) (
        field (codes "product_class") (text class)
          (field (codes "inst_life_phase") (text (codes "1")) end)))

  abbrev id_of : Option (Any D F) → Option Bytes
  id_of (some (text s)) = some s
  id_of other = none

  abbrev ids_of : Anys D F → Option (List Bytes)
  ids_of no_more = some []
  ids_of (next (table t) vs) = also_id (id_of (find (codes "InstrumentID") t)) (ids_of vs)
  ids_of (next other vs) = none

  abbrev instruments_in : Option (Any D F) → Option (List Bytes)
  instruments_in (some (items vs)) = ids_of vs
  instruments_in other = none

  abbrev result_in : Option (Any D F) → Option (List Bytes)
  result_in (some (table t)) = instruments_in (find (codes "instruments") t)
  result_in other = none

  -- `none`: it throws `std::out_of_range` or `std::bad_any_cast`.
  unfoldable pub extract_instrument_ids : Fields D F → Option (List Bytes)
  extract_instrument_ids response = result_in (find (codes "result") response)

  abbrev error_text : Any D F → Bytes
  error_text (text s) = s
  error_text other = codes "unknown error"

  -- The texts of the exceptions of `extract_instrument_ids` do not tell of a time-out.
  unfoldable pub verdict : Reply D F → Verdict
  verdict (replied r) = elim (find (codes "error") r) [
    | some e ↦ if has_text (codes "No handler") (error_text e) then not_ready else next_product
    | none ↦ of_ids (extract_instrument_ids r)
  ]
  verdict (thrown what) = if has_text (codes "timed out") what then not_ready else query_failed

  -- The ids of a query for options, none if it fails.
  unfoldable pub option_reply : Reply D F → List Bytes
  option_reply (replied r) = elim (extract_instrument_ids r) [ none ↦ [] | some ids ↦ ids ]
  option_reply (thrown what) = []

  module _ (answer : ℕ → Fields D F → Reply D F) where
    abbrev asked_once : Listing → Listing
    asked_once st = record st { asked = st.asked + 1 }

    unfoldable pub query_options : Bytes → List Bytes → Listing → Listing
    query_options exchange [] st = st
    query_options exchange (p ∷ ps) st =
        let ids = option_reply (answer st.asked (query exchange p (codes "2"))) in
        query_options exchange ps (record st {
          asked = st.asked + 1;
          instruments = st.instruments ++ ids;
          option_instrument_set = add_all ids st.option_instrument_set;
        })

    abbrev after_futures : Bytes → Bytes → Verdict → Listing → Bool × Listing
    after_futures exchange product (listed ids) st = (
      false,
      query_options exchange (option_products exchange product)
          (record st { instruments = st.instruments ++ ids }),
    )
    after_futures exchange product not_ready st = (true, st)
    after_futures exchange product next_product st = (false, st)
    after_futures exchange product query_failed st =
        (false, query_options exchange (option_products exchange product) st)

    -- The body of the loop over the products: whether `any_failed` has been set.
    unfoldable pub query_product : Bytes → Bytes → Listing → Bool × Listing
    query_product exchange product st =
        after_futures exchange product
          (verdict (answer st.asked (query exchange product (codes "1")))) (asked_once st)

    unfoldable pub query_products : Bytes → List Bytes → Listing → Bool × Listing
    query_products exchange [] st = (false, st)
    query_products exchange (p ∷ ps) st =
        let (failed, st') = query_product exchange p st in
        elim failed [ true ↦ (true, st') | false ↦ query_products exchange ps st' ]

    unfoldable pub query_exchanges : List (Bytes × List Bytes) → Listing → Bool × Listing
    query_exchanges [] st = (false, st)
    query_exchanges ((exchange, ps) ∷ more) st =
        let (failed, st') = query_products exchange ps st in
        elim failed [ true ↦ (true, st') | false ↦ query_exchanges more st' ]

    -- `n` attempts are left; a failed one sleeps, except the last.
    unfoldable pub attempts : ℕ → List (Bytes × List Bytes) → Listing → Listing
    attempts zero underlyings st = st
    attempts (suc n) underlyings st =
        let (failed, st') = query_exchanges underlyings (record st { instruments = [] }) in
        let again =
          attempts n underlyings
            (if failed && not (n == 0) then record st' { sleeps = st'.sleeps + 1 } else st') in
        if not failed && not (length st'.instruments == 0) then st' else again

    unfoldable pub resolve_instruments : List (Bytes × List Bytes) → Listing
    resolve_instruments underlyings =
        attempts 13 underlyings
          (record { instruments = []; option_instrument_set = []; asked = 0; sleeps = 0 })
