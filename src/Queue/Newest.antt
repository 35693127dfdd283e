-- ===== src/Queue/Newest.antt =====
-- A bounded queue that drops its oldest item, over many items.
use mathlib.Core.List.{append-nil, append_assoc}
use tyche_engine.Common.{
  ℕ, zero, suc, ◌-◌, ◌≤◌, ◌<◌, ◌≡◌, refl, sym, ap, ◌∙◌, arith, false, List, [], ◌∷◌, ◌++◌, length,
  length-append, dec_lt, ltb, lt→ltb,
}
use tyche_engine.Queue.{offer_overwrite, tail, drop}

module _ {ℓ} {A : Type ℓ} where
  -- The last `n` items.
  abbrev pub newest : ℕ → List A → List A
  newest n xs = drop (length xs - n) xs

  abbrev pub offer_all : ℕ → List A → List A → List A
  offer_all cap [] q = q
  offer_all cap (t ∷ ts) q = offer_all cap ts (offer_overwrite cap t q)

  drop-snoc :
      (n : ℕ) (xs : List A) (x : A)
      → n ≤ length xs
      → drop n (xs ++ (x ∷ [])) ≡ drop n xs ++ (x ∷ [])
  drop-snoc zero xs x h = refl
  drop-snoc (suc n) [] x h = absurd (omega arith)
  drop-snoc (suc n) (y ∷ xs) x h = drop-snoc n xs x (omega arith)

  tail-drop : (n : ℕ) (xs : List A) → tail (drop n xs) ≡ drop (suc n) xs
  tail-drop zero [] = refl
  tail-drop zero (x ∷ xs) = refl
  tail-drop (suc n) [] = refl
  tail-drop (suc n) (x ∷ xs) = tail-drop n xs

  length-drop : (n : ℕ) (xs : List A) → length (drop n xs) ≡ length xs - n
  length-drop zero xs = omega arith
  length-drop (suc n) [] = omega arith
  length-drop (suc n) (x ∷ xs) = omega (arith, length-drop n xs)

  pub newest_short : (n : ℕ) (xs : List A) → length xs ≤ n → newest n xs ≡ xs
  newest_short n xs h = ap (λ i. drop i xs) {y = 0} (omega arith)

  offer_overwrite-newest :
      (cap : ℕ) (x : A) (xs : List A)
      → 0 < cap
      → offer_overwrite cap x (newest cap xs) ≡ newest cap (xs ++ (x ∷ []))
  offer_overwrite-newest cap x xs h = elim (dec_lt (length xs) cap) [
    | yes short ↦
        rw (newest_short cap xs (omega arith), lt→ltb _ _ short)
          (sym (newest_short cap (xs ++ (x ∷ [])) (omega (arith, length-append xs (x ∷ [])))))
    | no long ↦
        let full : ltb (length (newest cap xs)) cap ≡ false =
          ground (arith, length-drop (length xs - cap) xs) in
        rw full (
          ap (λ t. t ++ (x ∷ [])) (tail-drop (length xs - cap) xs)
          ∙ sym (drop-snoc (suc (length xs - cap)) xs x (omega arith))
          ∙ ap (λ i. drop i (xs ++ (x ∷ []))) {x = suc (length xs - cap)}
              (omega (arith, length-append xs (x ∷ []))))
  ]

  -- The items that are left when items are offered one after another.
  pub offer_all-newest :
      (cap : ℕ) (ts xs : List A)
      → 0 < cap
      → offer_all cap ts (newest cap xs) ≡ newest cap (xs ++ ts)
  offer_all-newest cap [] xs h = ap (newest cap) (sym (append-nil xs))
  offer_all-newest cap (t ∷ ts) xs h =
      ap (offer_all cap ts) (offer_overwrite-newest cap t xs h)
      ∙ offer_all-newest cap ts (xs ++ (t ∷ [])) h
      ∙ ap (newest cap) (append_assoc xs (t ∷ []) ts)
