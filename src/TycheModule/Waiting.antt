-- ===== src/TycheModule/Waiting.antt =====
-- src/tyche/cpp/module.cpp: the table of pending requests, and who is woken by `stop`.
use tyche_engine.Common.{
  ℕ, ◌<◌, ◌≡◌, ◌≢◌, ◌⊎◌, inl, inr, refl, sym, subst, ap, ◌∙◌, arith, true, Option, none, some, List,
  [], ◌∷◌, length, length-set, get_or, get_or-set_self, get_or-set_ne, set, if_pos, if_neg, Bytes,
  bytes_discrete,
}
use tyche_engine.Common.Assoc
use tyche_engine.TycheModule.{PendingRequest}
use tyche_engine.TycheModule.Requests.{unanswered, wake_all}

-- The entries of the table with the index `i` are those with the key `cid`.
abbrev pub Only : Bytes → ℕ → List (Bytes × ℕ) → Type 0
Only cid i [] = Unit
Only cid i ((k, j) ∷ m) = (((k ≡ cid) × (j ≡ i)) ⊎ ((¬ (k ≡ cid)) × (j ≢ i))) × Only cid i m

-- Every index is below `n`.
abbrev pub Below : ℕ → List (Bytes × ℕ) → Type 0
Below n [] = Unit
Below n ((k, j) ∷ m) = (j < n) × Below n m

abbrev pub index_or : Option ℕ → ℕ
index_or none = 0
index_or (some i) = i

module _ (cid : Bytes) (i : ℕ) where
  pub Only-lookup :
      (k : Bytes) (j : ℕ) (m : List (Bytes × ℕ))
      → Only cid i m
      → ¬ (k ≡ cid)
      → Assoc.lookup bytes_discrete k m ≡ some j
      → j ≢ i
  unfolding Assoc.lookup
  Only-lookup k j [] v n e = λ r. cc e
  Only-lookup k j ((k', j') ∷ m) (here, v) n e = elim (bytes_discrete k' k) [
    | yes p ↦ elim here [
      | inl (q, r) ↦ absurd (n (sym p ∙ q))
      | inr (q, r) ↦ λ s. r (ap index_or (sym (if_pos (bytes_discrete k' k) p (some j') _) ∙ e) ∙ s)
    ]
    | no q ↦ Only-lookup k j m v n (sym (if_neg (bytes_discrete k' k) q (some j') _) ∙ e)
  ]

  pub Only-assign :
      (m : List (Bytes × ℕ))
      → Assoc.NodupKeys bytes_discrete m
      → Below i m
      → Only cid i (Assoc.assign bytes_discrete cid i m)
  unfolding Assoc.assign Assoc.lookup
  Only-assign [] d b = (inl (refl, refl), tt)
  Only-assign ((k, j) ∷ m) d b = elim (bytes_discrete k cid) [
    | yes p ↦
        subst (Only cid i) (sym (if_pos (bytes_discrete k cid) p _ _))
          (inl (p, refl), others m b.1 (ap (λ c. Assoc.lookup bytes_discrete c m) (sym p) ∙ d.0))
    | no q ↦
        subst (Only cid i) (sym (if_neg (bytes_discrete k cid) q _ _))
          (inr (q, λ e. omega (arith, b.0)), Only-assign m d.1 b.1)
  ]
    where
      others :
          (xs : List (Bytes × ℕ))
          → Below i xs
          → Assoc.lookup bytes_discrete cid xs ≡ none
          → Only cid i xs
      others [] c e = tt
      others ((k, j) ∷ xs) c e = elim (bytes_discrete k cid) [
        | yes p ↦ absurd (cc (sym (if_pos (bytes_discrete k cid) p (some j) _) ∙ e))
        | no q ↦ (
          inr (q, λ r. omega (arith, c.0)),
          others xs c.1 (sym (if_neg (bytes_discrete k cid) q (some j) _) ∙ e),
        )
      ]

  module _ {D F : Type 0} where
    abbrev pub woken : PendingRequest D F → PendingRequest D F
    woken r = record r { ready = true }

    abbrev pub at : List (PendingRequest D F) → PendingRequest D F
    at rs = get_or rs i unanswered

    wake_all-ready :
        (m : List (Bytes × ℕ)) (rs : List (PendingRequest D F))
        → Only cid i m
        → i < length rs
        → (at rs).ready ≡ true
        → at (wake_all m rs) ≡ at rs
    wake_all-ready [] rs v l e = refl
    wake_all-ready ((k, j) ∷ m) rs (inl (q, r), v) l e =
        wake_all-ready m _ v (omega (arith, length-set rs j (woken (get_or rs j unanswered))))
          (ap (λ (t : PendingRequest D F). t.ready) here)
        ∙ here
        ∙ ap (λ b. record (at rs) { ready = b }) (sym e)
      where
        here : at (set rs j (woken (get_or rs j unanswered))) ≡ woken (at rs)
        here =
            ap (λ x. at (set rs x (woken (get_or rs x unanswered)))) r
            ∙ get_or-set_self rs i _ unanswered l
    wake_all-ready ((k, j) ∷ m) rs (inr (q, r), v) l e =
        wake_all-ready m _ v (omega (arith, length-set rs j (woken (get_or rs j unanswered))))
          (ap (λ (t : PendingRequest D F). t.ready) here ∙ e)
        ∙ here
      where
        here : at (set rs j (woken (get_or rs j unanswered))) ≡ at rs
        here = get_or-set_ne rs j i _ unanswered r

    pub wake_all-waiting :
        (m : List (Bytes × ℕ)) (rs : List (PendingRequest D F))
        → Only cid i m
        → i < length rs
        → Assoc.lookup bytes_discrete cid m ≡ some i
        → at (wake_all m rs) ≡ woken (at rs)
    unfolding Assoc.lookup
    wake_all-waiting [] rs v l e = absurd (cc e)
    wake_all-waiting ((k, j) ∷ m) rs (inl (q, r), v) l e =
        wake_all-ready m _ v (omega (arith, length-set rs j (woken (get_or rs j unanswered))))
          (ap (λ (t : PendingRequest D F). t.ready) here)
        ∙ here
      where
        here : at (set rs j (woken (get_or rs j unanswered))) ≡ woken (at rs)
        here =
            ap (λ x. at (set rs x (woken (get_or rs x unanswered)))) r
            ∙ get_or-set_self rs i _ unanswered l
    wake_all-waiting ((k, j) ∷ m) rs (inr (q, r), v) l e =
        wake_all-waiting m _ v (omega (arith, length-set rs j (woken (get_or rs j unanswered))))
          (sym (if_neg (bytes_discrete k cid) q (some j) _) ∙ e)
        ∙ ap woken here
      where
        here : at (set rs j (woken (get_or rs j unanswered))) ≡ at rs
        here = get_or-set_ne rs j i _ unanswered r
