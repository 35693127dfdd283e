-- ===== src/DeadLetter/Lines.antt =====
-- dead_letter_store.cpp: what `replay` gives of the records that `persist` wrote.
use tyche_engine.Common.{
  dec_lt, ℕ, zero, suc, ◌-◌, ◌≤◌, ◌<◌, ◌≡◌, refl, sym, ap, ◌∙◌, arith, Bool, true, false, Option,
  none, some, List, [], ◌∷◌, ◌++◌, length, length-append, if_pos, if◌then◌else◌, Bytes,
  bytes_discrete, Bool-cases, inl, inr,
}
use tyche_engine.Common.Assoc
use tyche_engine.Common.Slices.{take}
use tyche_engine.Wire.{WireMessage}
use tyche_engine.DeadLetter.Files.{
  persist, append_record, or_none, lines_from, matches, keep, keep_all, too_old, replay,
  replay_files,
}
use tyche_engine.DeadLetter.Records.{PrintsNumbers, record-Printable}
use tyche_engine.DeadLetter.{Printer, record_of}
use tyche_engine.DeadLetter.Printable.{Printable}

append_assoc : (xs ys zs : List Bytes) → (xs ++ ys) ++ zs ≡ xs ++ (ys ++ zs)
append_assoc [] ys zs = refl
append_assoc (x ∷ xs) ys zs = ap (λ t. x ∷ t) (append_assoc xs ys zs)

bytes_assoc : (xs ys zs : Bytes) → (xs ++ ys) ++ zs ≡ xs ++ (ys ++ zs)
bytes_assoc [] ys zs = refl
bytes_assoc (x ∷ xs) ys zs = ap (λ t. x ∷ t) (bytes_assoc xs ys zs)

append-nil : {A : Type 0} (xs : List A) → xs ++ [] ≡ xs
append-nil [] = refl
append-nil (x ∷ xs) = ap (λ t. x ∷ t) (append-nil xs)

-- A line that is read back whole.
lines_from-line :
    (cur r rest : Bytes)
    → Printable r
    → lines_from cur (r ++ (10 ∷ rest)) ≡ (cur ++ r) ∷ lines_from [] rest
unfolding lines_from
lines_from-line cur [] rest h = ap (λ c. c ∷ lines_from [] rest) (sym (append-nil cur))
lines_from-line cur (c ∷ r) rest h =
    ground (arith, h.0)
    ∙ lines_from-line (cur ++ (c ∷ [])) r rest h.1
    ∙ ap (λ t. t ∷ lines_from [] rest) (bytes_assoc cur (c ∷ []) r)

-- The records that match, if none of them is empty.
abbrev pub matching : Option Bytes → List Bytes → List Bytes
matching topic [] = []
matching topic (r ∷ rs) = if matches topic r then r ∷ matching topic rs else matching topic rs

-- Records as they are written: not empty, and without newline.
abbrev pub Written : List Bytes → Type 0
Written [] = Unit
Written (r ∷ rs) = (0 < length r) × (Printable r × Written rs)

take-nil : {A : Type 0} (n : ℕ) → take {A = A} n [] ≡ []
take-nil zero = refl
take-nil (suc n) = refl

module _ (topic : Option Bytes) (max_count : ℕ) where
  keep-match :
      (acc : List Bytes) (r : Bytes)
      → 0 < length r
      → matches topic r ≡ true
      → length acc < max_count
      → keep topic max_count acc r ≡ acc ++ (r ∷ [])
  keep-match acc [] h m l = absurd (omega arith)
  keep-match acc (c ∷ r) h m l = ground (arith, m)

  keep-full :
      (acc : List Bytes) (r : Bytes) → max_count ≤ length acc → keep topic max_count acc r ≡ acc
  keep-full acc r l = ground arith

  keep-other :
      (acc : List Bytes) (r : Bytes) → matches topic r ≡ false → keep topic max_count acc r ≡ acc
  keep-other acc [] m = ground (arith, m)
  keep-other acc (c ∷ r) m = ground (arith, m)

  keep_all-matching :
      (acc rs : List Bytes)
      → Written rs
      → length acc ≤ max_count
      → keep_all topic max_count acc rs ≡ acc ++ take (max_count - length acc) (matching topic rs)
  unfolding keep_all
  keep_all-matching acc [] w l =
      sym (ap (λ t. acc ++ t) (take-nil (max_count - length acc)) ∙ append-nil acc)
  keep_all-matching acc (r ∷ rs) w l = elim (Bool-cases (matches topic r)) [
    | inl m ↦ elim (dec_lt (length acc) max_count) [
      | yes k ↦
          ap (λ t. keep_all topic max_count t rs) (keep-match acc r w.0 m k)
          ∙ keep_all-matching (acc ++ (r ∷ [])) rs w.1.1 (omega (arith, length-append acc (r ∷ [])))
          ∙ append_assoc acc (r ∷ []) _
          ∙ ap (λ n. acc ++ take n (r ∷ matching topic rs))
              {x = suc (max_count - length (acc ++ (r ∷ [])))}
              (omega (arith, length-append acc (r ∷ [])))
          ∙ ap
              (λ (b : Bool).
                acc
                ++ take (max_count - length acc)
                    (if b then r ∷ matching topic rs else matching topic rs))
              (sym m)
      | no k ↦
          ap (λ t. keep_all topic max_count t rs) (keep-full acc r (omega arith))
          ∙ keep_all-matching acc rs w.1.1 l
          ∙ ap (λ n. acc ++ take n (matching topic rs)) {y = 0} (omega arith)
          ∙ ap (λ n. acc ++ take n (matching topic (r ∷ rs))) {x = 0} (omega arith)
    ]
    | inr m ↦
        ap (λ t. keep_all topic max_count t rs) (keep-other acc r m)
        ∙ keep_all-matching acc rs w.1.1 l
        ∙ ap
            (λ (b : Bool).
              acc
              ++ take (max_count - length acc)
                  (if b then r ∷ matching topic rs else matching topic rs))
            (sym m)
  ]

-- The text of a file with these records.
abbrev joined : List Bytes → Bytes
joined [] = []
joined (r ∷ rs) = r ++ (10 ∷ joined rs)

lines_from-joined : (rs : List Bytes) → Written rs → lines_from [] (joined rs) ≡ rs
unfolding lines_from
lines_from-joined [] w = refl
lines_from-joined (r ∷ rs) w =
    lines_from-line [] r (joined rs) w.1.0 ∙ ap (λ t. r ∷ t) (lines_from-joined rs w.1.1)

-- Records that are written one after the other on the same day.
abbrev pub append_all : Bytes → List Bytes → List (Bytes × Bytes) → List (Bytes × Bytes)
append_all date [] files = files
append_all date (r ∷ rs) files = append_all date rs (append_record true date r files)

append_all-file :
    (date : Bytes) (rs : List Bytes) (old : Bytes)
    → append_all date rs ((date, old) ∷ []) ≡ (date, old ++ joined rs) ∷ []
unfolding append_record Assoc.lookup Assoc.assign
append_all-file date [] old = ap (λ t. (date, t) ∷ []) (sym (append-nil old))
append_all-file date (r ∷ rs) old =
    ap (append_all date rs) (
      if_pos (bytes_discrete date date) refl _ _
      ∙ ap (λ o. (date, or_none o ++ (r ++ (10 ∷ []))) ∷ [])
          (if_pos (bytes_discrete date date) refl (some old) none))
    ∙ append_all-file date rs (old ++ (r ++ (10 ∷ [])))
    ∙ ap (λ t. (date, t) ∷ [])
        (bytes_assoc old _ (joined rs) ∙ ap (λ t. old ++ t) (bytes_assoc r (10 ∷ []) (joined rs)))

either : (b : Bool) → ◌≡◌ {A = List Bytes} [] (if b then [] else [])
either true = refl
either false = refl

append_all-joined :
    (topic since : Option Bytes) (max_count : ℕ) (date : Bytes) (rs : List Bytes)
    → replay topic since max_count (append_all date rs [])
      ≡ (if too_old since date then [] else keep_all topic max_count [] (lines_from [] (joined rs)))
unfolding replay replay_files append_record Assoc.lookup Assoc.assign lines_from keep_all
append_all-joined topic since max_count date [] = either (too_old since date)
append_all-joined topic since max_count date (r ∷ rs) =
    ap (replay topic since max_count) (append_all-file date rs (r ++ (10 ∷ [])))
    ∙ ap (λ t. if too_old since date then [] else keep_all topic max_count [] (lines_from [] t))
        (bytes_assoc r (10 ∷ []) (joined rs))

-- A dead letter: the time, the topic, the reason and the message.
pub record Letter (D F : Type 0) : Type 0 where
  pub now : D
  pub topic : Bytes
  pub reason : Bytes
  pub message : WireMessage D F

module _ {D F : Type 0} (p : Printer D F) where
  abbrev pub records : List (Letter D F) → List Bytes
  records [] = []
  records (l ∷ ls) = record_of p l.now l.topic l.reason l.message ∷ records ls

  records-Written : PrintsNumbers p → (ls : List (Letter D F)) → Written (records ls)
  unfolding record_of
  records-Written v [] = tt
  records-Written v (l ∷ ls) =
      (omega arith, (record-Printable p v l.now l.topic l.reason l.message, records-Written v ls))

  -- Dead letters of one day, one after the other.
  abbrev pub persist_all : Bytes → List (Letter D F) → List (Bytes × Bytes) → List (Bytes × Bytes)
  persist_all date [] files = files
  persist_all date (l ∷ ls) files =
      persist_all date ls (persist p true date l.now l.message l.topic l.reason files)

  persist_all-append :
      (date : Bytes) (ls : List (Letter D F)) (files : List (Bytes × Bytes))
      → persist_all date ls files ≡ append_all date (records ls) files
  unfolding persist
  persist_all-append date [] files = refl
  persist_all-append date (l ∷ ls) files = persist_all-append date ls _

  -- If numbers are printed without control characters: of the dead letters that were persisted on
  -- one day, in a directory that was empty and a file that could be opened, `replay` gives the
  -- records, as they were written and in order, that the topic filter lets through, up to the
  -- maximal number, and none if the day is before the given date.
  pub replay_lem :
      (topic since : Option Bytes) (max_count : ℕ) (date : Bytes) (letters : List (Letter D F))
      → PrintsNumbers p
      → replay topic since max_count (persist_all date letters [])
        ≡ (if too_old since date then [] else take max_count (matching topic (records letters)))
  replay_lem topic since max_count date letters v =
      ap (replay topic since max_count) (persist_all-append date letters [])
      ∙ append_all-joined topic since max_count date (records letters)
      ∙ ap (λ ls. if too_old since date then [] else keep_all topic max_count [] ls)
          (lines_from-joined (records letters) (records-Written v letters))
      ∙ ap (λ ls. if too_old since date then [] else ls)
          (keep_all-matching topic max_count [] (records letters) (records-Written v letters)
            (omega arith))
      ∙ ap (λ n. if too_old since date then [] else take n (matching topic (records letters)))
          {x = max_count - length {A = Bytes} []} (omega arith)
