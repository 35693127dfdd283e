-- ===== src/Gateway/Instruments/Found.antt =====
-- src/modules/ctp_gateway_cpp/src/ctp_gateway.cpp: `resolve_instruments` against the catalogue that the
-- static data answers from.
use tyche_engine.Common.{List, [], ◌∷◌, ◌++◌, Bytes, codes}
use tyche_engine.Gateway.Instruments.Catalogue.{
  Answer, lists, refuses, throws, IsReady, listed_ids, option_suffixes,
}

-- A catalogue: what is answered of an exchange, a product and a class, "1" for futures and "2" for
-- options.
module _ (static : Bytes → Bytes → Bytes → Answer) where
  abbrev listed_options : Bytes → Bytes → List Bytes → List Bytes
  listed_options exchange product [] = []
  listed_options exchange product (suffix ∷ suffixes) =
      listed_ids (static exchange (product ++ suffix) (codes "2"))
      ++ listed_options exchange product suffixes

  -- The options of a product are not asked for if the query for its futures gets an error message.
  abbrev unless_refused : Answer → List Bytes → List Bytes
  unless_refused (refuses error) options = []
  unless_refused (lists ids) options = options
  unless_refused (throws what) options = options

  abbrev options_found : Bytes → Bytes → List Bytes
  options_found exchange product =
      unless_refused (static exchange product (codes "1"))
        (listed_options exchange product (option_suffixes exchange))

  abbrev found_in : Bytes → List Bytes → List Bytes
  found_in exchange [] = []
  found_in exchange (p ∷ ps) =
      (listed_ids (static exchange p (codes "1")) ++ options_found exchange p)
      ++ found_in exchange ps

  abbrev options_in : Bytes → List Bytes → List Bytes
  options_in exchange [] = []
  options_in exchange (p ∷ ps) = options_found exchange p ++ options_in exchange ps

  -- The ids of the futures and options of all products, and those of options.
  abbrev pub found : List (Bytes × List Bytes) → List Bytes
  found [] = []
  found ((exchange, ps) ∷ more) = found_in exchange ps ++ found more

  abbrev pub found_options : List (Bytes × List Bytes) → List Bytes
  found_options [] = []
  found_options ((exchange, ps) ∷ more) = options_in exchange ps ++ found_options more

  abbrev FuturesReady : Bytes → List Bytes → Type 0
  FuturesReady exchange [] = Unit
  FuturesReady exchange (p ∷ ps) =
      IsReady (static exchange p (codes "1")) × FuturesReady exchange ps

  abbrev pub IsUp : List (Bytes × List Bytes) → Type 0
  IsUp [] = Unit
  IsUp ((exchange, ps) ∷ more) = FuturesReady exchange ps × IsUp more
