-- ===== src/Common/Assoc.antt =====
-- `std::unordered_map` as an association list: a key stands at most once (`NodupKeys`), a new key is
-- put at the end. The iteration order is the list's.
use mathlib.Core.Path.{◌≡◌, refl, sym, ◌∙◌, subst, ap}
use mathlib.Core.Logic.{ite, if_pos, if_neg}
use mathlib.Core.Option.{Option, none, some}
use mathlib.Core.List.{List, [], ◌∷◌, ◌++◌}
use native.Mathlib.Omega.{arith}

-- The first of two that is there.
abbrev pub or_then {ℓ} : {V : Type ℓ} → Option V → Option V → Option V
or_then none o = o
or_then (some v) o = some v

pub or_then-none {ℓ} : {V : Type ℓ} (o : Option V) → or_then o none ≡ o
or_then-none none = refl
or_then-none (some v) = refl

module _ {ℓ} {K V : Type ℓ} (eq? : Discrete K) where
  -- `find(k)`
  unfoldable pub lookup : K → List (K × V) → Option V
  lookup k [] = none
  lookup k ((j, v) ∷ m) = ite (eq? j k) (some v) (lookup k m)

  -- `m[k] = v`
  unfoldable pub assign : K → V → List (K × V) → List (K × V)
  assign k v [] = (k, v) ∷ []
  assign k v ((j, w) ∷ m) = ite (eq? j k) ((j, v) ∷ m) ((j, w) ∷ assign k v m)

  -- `m.erase(k)`
  unfoldable pub erase : K → List (K × V) → List (K × V)
  erase k [] = []
  erase k ((j, w) ∷ m) = ite (eq? j k) (erase k m) ((j, w) ∷ erase k m)

  pub lookup-assign :
      (j k : K) (v : V) (m : List (K × V))
      → lookup j (assign k v m) ≡ ite (eq? k j) (some v) (lookup j m)
  unfolding lookup assign
  lookup-assign j k v [] = refl
  lookup-assign j k v ((i, w) ∷ m) = ground (arith, lookup-assign j k v m)

  pub lookup-erase :
      (j k : K) (m : List (K × V)) → lookup j (erase k m) ≡ ite (eq? k j) none (lookup j m)
  unfolding lookup erase
  lookup-erase j k [] = ground arith
  lookup-erase j k ((i, w) ∷ m) = ground (arith, lookup-erase j k m)

  pub lookup-append :
      (k : K) (xs ys : List (K × V)) → lookup k (xs ++ ys) ≡ or_then (lookup k xs) (lookup k ys)
  unfolding lookup
  lookup-append k [] ys = refl
  lookup-append k ((j, w) ∷ xs) ys = ground (arith, lookup-append k xs ys)

  -- Every key satisfies `P`.
  abbrev pub AllKeys : (K → Type 0) → List (K × V) → Type 0
  AllKeys P [] = Unit
  AllKeys P ((j, w) ∷ m) = P j × AllKeys P m

  pub lookup-none :
      (P : K → Type 0) (k : K) (m : List (K × V)) → AllKeys P m → ¬ P k → lookup k m ≡ none
  unfolding lookup
  lookup-none P k [] h n = refl
  lookup-none P k ((j, w) ∷ m) h n = elim (eq? j k) [
    | yes e ↦ absurd (n (subst P e h.0))
    | no d ↦ rw (if_neg _ d) (lookup-none P k m h.1 n)
  ]

  pub AllKeys-append :
      (P : K → Type 0) (xs ys : List (K × V)) → AllKeys P xs → AllKeys P ys → AllKeys P (xs ++ ys)
  AllKeys-append P [] ys h g = g
  AllKeys-append P ((j, w) ∷ xs) ys h g = (h.0, AllKeys-append P xs ys h.1 g)

  pub erase-AllKeys :
      (P : K → Type 0) (k : K) (m : List (K × V)) → AllKeys P m → AllKeys P (erase k m)
  unfolding erase
  erase-AllKeys P k [] h = h
  erase-AllKeys P k ((j, w) ∷ m) h = elim (eq? j k) [
    | yes e ↦ rw (if_pos _ e) (erase-AllKeys P k m h.1)
    | no d ↦ rw (if_neg _ d) (h.0, erase-AllKeys P k m h.1)
  ]

  pub assign-AllKeys :
      (P : K → Type 0) (k : K) (v : V) (m : List (K × V))
      → P k
      → AllKeys P m
      → AllKeys P (assign k v m)
  unfolding assign
  assign-AllKeys P k v [] p h = (p, tt)
  assign-AllKeys P k v ((j, w) ∷ m) p h = elim (eq? j k) [
    | yes e ↦ rw (if_pos _ e) h
    | no d ↦ rw (if_neg _ d) (h.0, assign-AllKeys P k v m p h.1)
  ]

  -- No key stands twice.
  abbrev pub NodupKeys : List (K × V) → Type ℓ
  NodupKeys [] = Unit
  NodupKeys ((j, w) ∷ m) = (lookup j m ≡ none) × NodupKeys m

  pub erase-NodupKeys : (k : K) (m : List (K × V)) → NodupKeys m → NodupKeys (erase k m)
  unfolding erase
  erase-NodupKeys k [] h = h
  erase-NodupKeys k ((j, w) ∷ m) h = elim (eq? j k) [
    | yes e ↦ rw (if_pos _ e) (erase-NodupKeys k m h.1)
    | no d ↦ rw (if_neg _ d) (lookup-erase j k m ∙ absent (eq? k j), erase-NodupKeys k m h.1)
  ]
    where
      absent : (d : Dec (k ≡ j)) → ite d none (lookup j m) ≡ none
      absent (yes e) = rw (if_pos _ e)
      absent (no d) = rw (if_neg _ d) h.0

  pub assign-NodupKeys : (k : K) (v : V) (m : List (K × V)) → NodupKeys m → NodupKeys (assign k v m)
  unfolding assign lookup
  assign-NodupKeys k v [] h = (refl, h)
  assign-NodupKeys k v ((j, w) ∷ m) h = elim (eq? j k) [
    | yes e ↦ rw (if_pos _ e) h
    | no d ↦
        rw (if_neg _ d) (lookup-assign j k v m ∙ absent d (eq? k j), assign-NodupKeys k v m h.1)
  ]
    where
      absent : ¬ (j ≡ k) → (e : Dec (k ≡ j)) → ite e (some v) (lookup j m) ≡ none
      absent n (yes e) = absurd (n (sym e))
      absent n (no d) = rw (if_neg _ d) h.0

  -- A key more, which was not there.
  pub lookup-snoc :
      (j t : K) (x : V) (m : List (K × V))
      → lookup t m ≡ none
      → lookup j (m ++ ((t, x) ∷ [])) ≡ ite (eq? t j) (some x) (lookup j m)
  unfolding lookup
  lookup-snoc j t x m e = lookup-append j m ((t, x) ∷ []) ∙ joined (eq? t j)
    where
      joined :
          (d : Dec (t ≡ j))
          → or_then (lookup j m) (ite d (some x) none) ≡ ite d (some x) (lookup j m)
      joined (yes p) = ap (λ o. or_then o (some x)) (ap (λ i. lookup i m) (sym p) ∙ e)
      joined (no n) = or_then-none (lookup j m)

  pub snoc-NodupKeys :
      (t : K) (x : V) (m : List (K × V))
      → lookup t m ≡ none
      → NodupKeys m
      → NodupKeys (m ++ ((t, x) ∷ []))
  unfolding lookup
  snoc-NodupKeys t x [] e h = (refl, tt)
  snoc-NodupKeys t x ((j, w) ∷ m) e h = elim (eq? j t) [
    | yes p ↦ absurd (some_ne_none (rw (if_pos (eq? j t) p) at e))
    | no n ↦
        let e' : lookup t m ≡ none = rw (if_neg (eq? j t) n) at e in
        (lookup-snoc j t x m e' ∙ absent n (eq? t j), snoc-NodupKeys t x m e' h.1)
  ]
    where
      some_ne_none : some w ≡ none → ⊥
      some_ne_none q = cc

      absent : ¬ (j ≡ t) → (d : Dec (t ≡ j)) → ite d (some x) (lookup j m) ≡ none
      absent n (yes p) = absurd (n (sym p))
      absent n (no q) = h.0
