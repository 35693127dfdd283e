-- ===== src/DeadLetter/Printable.antt =====
-- dead_letter_store.cpp: no control character stands in what is written for a message.
use tyche_engine.Common.{
  ℕ, zero, suc, ◌/◌, ◌%◌, ◌≤◌, ◌≡◌, refl, arith, Bool, true, false, not, ◌&&◌, [], ◌∷◌, ◌++◌, ltb,
  leb, ◌==◌, if◌then◌else◌, Bytes, codes,
}
use tyche_engine.Common.Words.{ℤ, pos, negsuc}
use tyche_engine.DeadLetter.{
  contains_byte, hex, escape_char, escape_json_string, quoted, digits, to_string, with_point,
}

abbrev pub Printable : Bytes → Type 0
Printable [] = Unit
Printable (c ∷ s) = (32 ≤ c) × Printable s

abbrev pub printable : Bytes → Bool
printable [] = true
printable (c ∷ s) = leb 32 c && printable s

-- For literals
pub by_test : (s : Bytes) → printable s ≡ true → Printable s
by_test [] h = tt
by_test (c ∷ s) h = (ground arith, by_test s (ground arith))

pub append-Printable : (s t : Bytes) → Printable s → Printable t → Printable (s ++ t)
append-Printable [] t h k = k
append-Printable (c ∷ s) t h k = (h.0, append-Printable s t h.1 k)

pub if-Printable :
    (b : Bool) (s t : Bytes)
    → (b ≡ true → Printable s)
    → (b ≡ false → Printable t)
    → Printable (if b then s else t)
if-Printable true s t h k = h refl
if-Printable false s t h k = k refl

hex-lt : (d : ℕ) → 32 ≤ hex d
hex-lt d = ground arith

pub escape_char-Printable : (c : ℕ) → Printable (escape_char c)
unfolding escape_char
escape_char-Printable c =
    if-Printable (c == 34) _ _ (λ h. by_test (92 ∷ 34 ∷ []) refl)
      (λ h.
        if-Printable (c == 92) _ _ (λ h. by_test (92 ∷ 92 ∷ []) refl)
          (λ h.
            if-Printable (c == 10) _ _ (λ h. by_test (92 ∷ 110 ∷ []) refl)
              (λ h.
                if-Printable (c == 13) _ _ (λ h. by_test (92 ∷ 114 ∷ []) refl)
                  (λ h.
                    if-Printable (c == 9) _ _ (λ h. by_test (92 ∷ 116 ∷ []) refl)
                      (λ h.
                        if-Printable (c == 8) _ _ (λ h. by_test (92 ∷ 98 ∷ []) refl)
                          (λ h.
                            if-Printable (c == 12) _ _ (λ h. by_test (92 ∷ 102 ∷ []) refl)
                              (λ h.
                                if-Printable (ltb c 32) _ _
                                  (λ h. (
                                    omega arith,
                                    (
                                      omega arith,
                                      (
                                        omega arith,
                                        (omega arith, (hex-lt (c / 16), (hex-lt (c % 16), tt))),
                                      ),
                                    ),
                                  ))
                                  (λ h. (ground arith, tt)))))))))

pub escape_json_string-Printable : (s : Bytes) → Printable (escape_json_string s)
unfolding escape_json_string
escape_json_string-Printable [] = tt
escape_json_string-Printable (c ∷ s) =
    append-Printable (escape_char c) _ (escape_char-Printable c) (escape_json_string-Printable s)

pub quoted-Printable : (s : Bytes) → Printable (quoted s)
quoted-Printable s = (
  omega arith,
  append-Printable (escape_json_string s) _ (escape_json_string-Printable s) (omega arith, tt),
)

pub digits-Printable : (fuel n : ℕ) → Printable (digits fuel n)
digits-Printable zero n = (omega arith, tt)
digits-Printable (suc fuel) n =
    if-Printable (ltb n 10) _ _ (λ h. (omega arith, tt))
      (λ h.
        append-Printable (digits fuel (n / 10)) _ (digits-Printable fuel (n / 10))
          (omega arith, tt))

pub to_string-Printable : (i : ℤ) → Printable (to_string i)
to_string-Printable (pos n) = digits-Printable n n
to_string-Printable (negsuc n) = (omega arith, digits-Printable (suc n) (suc n))

pub with_point-Printable : (s : Bytes) → Printable s → Printable (with_point s)
with_point-Printable s h =
    if-Printable (not (contains_byte 46 s) && not (contains_byte 101 s)) (s ++ codes ".0") s
      (λ e. append-Printable s (codes ".0") h (by_test (codes ".0") refl)) (λ e. h)

-- A key, its value and what follows.
pub value-Printable :
    (k s t : Bytes) → Printable s → Printable t → Printable (quoted k ++ (codes ": " ++ (s ++ t)))
value-Printable k s t h l =
    append-Printable (quoted k) _ (quoted-Printable k)
      (omega arith, (omega arith, append-Printable s t h l))
