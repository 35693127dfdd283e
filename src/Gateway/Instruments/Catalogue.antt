-- ===== src/Gateway/Instruments/Catalogue.antt =====
-- src/modules/ctp_gateway_cpp/src/ctp_gateway.cpp: what the static data answers to the queries of
-- `resolve_instruments`, and what the gateway should make of it.
use mathlib.Core.List.{append-nil}
use tyche_engine.Common.{
  ◌≡◌, refl, sym, ap, ◌∙◌, Bool, true, false, none, some, List, [], ◌∷◌, ◌++◌, map, ite, if_pos,
  if_neg, if◌then◌else◌, Bytes, bytes_discrete, codes,
}
use tyche_engine.Common.Members.{contains}
use tyche_engine.Wire.{Anys, end, field, text, table, items, no_more, next}
use tyche_engine.Quote.{find}
use tyche_engine.Gateway.Instruments.{
  Reply, replied, thrown, Verdict, listed, next_product, query_failed, has_text, ids_of, verdict,
  extract_instrument_ids, option_reply, option_products,
}

-- An answer of the static data: a list of ids, an error message, or an exception.
pub data Answer : Type 0 where
  lists : List Bytes → Answer
  refuses : Bytes → Answer
  throws : Bytes → Answer

abbrev entries : {D F : Type 0} → List Bytes → Anys D F
entries [] = no_more
entries (id ∷ ids) = next (table (field (codes "InstrumentID") (text id) end)) (entries ids)

abbrev pub as_reply : {D F : Type 0} → Answer → Reply D F
as_reply (lists ids) =
    replied
      (field (codes "result") (table (field (codes "instruments") (items (entries ids)) end)) end)
as_reply (refuses error) = replied (field (codes "error") (text error) end)
as_reply (throws what) = thrown what

-- The answer to a query for futures does not tell that the static data is missing.
abbrev pub IsReady : Answer → Type 0
IsReady (lists ids) = Unit
IsReady (refuses error) = has_text (codes "No handler") error ≡ false
IsReady (throws what) = has_text (codes "timed out") what ≡ false

abbrev pub listed_ids : Answer → List Bytes
listed_ids (lists ids) = ids
listed_ids (refuses error) = []
listed_ids (throws what) = []

-- What an exchange puts behind the name of a product for its options: four of them `_o`, one `C` for
-- calls and `P` for puts, all others nothing.
abbrev pub option_suffixes : Bytes → List Bytes
option_suffixes exchange =
    if contains exchange (codes "SHFE" ∷ codes "DCE" ∷ codes "INE" ∷ codes "GFEX" ∷ [])
    then codes "_o" ∷ []
    else if contains exchange (codes "CZCE" ∷ [])
    then codes "C" ∷ codes "P" ∷ []
    else [] ∷ []

abbrev pub meant : Answer → Verdict
meant (lists ids) = listed ids
meant (refuses error) = next_product
meant (throws what) = query_failed

-- One more exchange of a kind.
one_more :
    {A : Type 0} (e k : Bytes) (ks : List Bytes) (x y : A)
    → ite (bytes_discrete e k) x (if contains e ks then x else y)
      ≡ (if contains e (k ∷ ks) then x else y)
one_more e k ks x y = elim (bytes_discrete e k) [
  | yes p ↦
      if_pos (bytes_discrete e k) p x _
      ∙ sym
          (ap (λ b. if b then x else y) (if_pos (bytes_discrete k e) (sym p) true (contains e ks)))
  | no n ↦
      if_neg (bytes_discrete e k) n x _
      ∙ sym (
          ap (λ b. if b then x else y)
            (if_neg (bytes_discrete k e) (λ q. n (sym q)) true (contains e ks)))
]

by_kind :
    (product : Bytes) (b c : Bool)
    → (if b
        then (product ++ codes "_o") ∷ []
        else if c
        then (product ++ codes "C") ∷ (product ++ codes "P") ∷ []
        else product ∷ [])
      ≡ map
          (λ s. product ++ s)
          (if b then codes "_o" ∷ [] else if c then codes "C" ∷ codes "P" ∷ [] else [] ∷ [])
by_kind product true c = refl
by_kind product false true = refl
by_kind product false false = ap (λ p. p ∷ []) (sym (append-nil product))

-- The product ids of options, in the order of the queries.
pub option_products_lem :
    (e product : Bytes) → option_products e product ≡ map (λ s. product ++ s) (option_suffixes e)
unfolding option_products
option_products_lem e product =
    let four = (product ++ codes "_o") ∷ [] in
    let two = (product ++ codes "C") ∷ (product ++ codes "P") ∷ [] in
    let rest = if contains e (codes "CZCE" ∷ []) then two else product ∷ [] in
    let shfe = λ (r : List Bytes). ite (bytes_discrete e (codes "SHFE")) four r in
    let dce = λ (r : List Bytes). ite (bytes_discrete e (codes "DCE")) four r in
    let ine = λ (r : List Bytes). ite (bytes_discrete e (codes "INE")) four r in
    let gfex = λ (r : List Bytes). ite (bytes_discrete e (codes "GFEX")) four r in
    ap (λ r. shfe (dce (ine (gfex r)))) (one_more e (codes "CZCE") [] two (product ∷ []))
    ∙ ap (λ r. shfe (dce (ine r))) (one_more e (codes "GFEX") [] four rest)
    ∙ ap (λ r. shfe (dce r)) (one_more e (codes "INE") (codes "GFEX" ∷ []) four rest)
    ∙ ap shfe (one_more e (codes "DCE") (codes "INE" ∷ codes "GFEX" ∷ []) four rest)
    ∙ one_more e (codes "SHFE") (codes "DCE" ∷ codes "INE" ∷ codes "GFEX" ∷ []) four rest
    ∙ by_kind product _ _

module _ (D F : Type 0) where
  ids_of-entries : (ids : List Bytes) → ids_of {D = D} {F = F} (entries ids) ≡ some ids
  unfolding find bytes_discrete
  ids_of-entries [] = refl
  ids_of-entries (id ∷ ids) = rw (ids_of-entries ids) refl

  extract-as_reply :
      (ids : List Bytes)
      → extract_instrument_ids {D = D} {F = F} (
          field
            (codes "result")
            (table (field (codes "instruments") (items (entries ids)) end))
            end)
        ≡ some ids
  unfolding extract_instrument_ids find bytes_discrete
  extract-as_reply ids = ids_of-entries ids

  extract-error :
      (error : Bytes)
      → extract_instrument_ids {D = D} {F = F} (field (codes "error") (text error) end) ≡ none
  unfolding extract_instrument_ids find bytes_discrete
  extract-error error = refl

  pub option_reply-as_reply :
      (a : Answer) → option_reply {D = D} {F = F} (as_reply a) ≡ listed_ids a
  unfolding option_reply
  option_reply-as_reply (lists ids) = rw (extract-as_reply ids, option_reply) refl
  option_reply-as_reply (refuses error) = rw (extract-error error, option_reply) refl
  option_reply-as_reply (throws what) = refl

  pub verdict-as_reply : (a : Answer) → IsReady a → verdict {D = D} {F = F} (as_reply a) ≡ meant a
  unfolding verdict find bytes_discrete
  verdict-as_reply (lists ids) h = rw (extract-as_reply ids, verdict) refl
  verdict-as_reply (refuses error) h = rw h refl
  verdict-as_reply (throws what) h = rw h refl
