-- ===== src/DeadLetter/Files.antt =====
-- dead_letter_store.cpp: the files, `persist` and `replay`.
use tyche_engine.Common.{
  ℕ, Bool, true, false, not, ◌&&◌, ◌||◌, Option, none, some, List, [], ◌∷◌, ◌++◌, length, ltb, ◌==◌,
  if◌then◌else◌, Bytes, bytes_discrete, codes,
}
use tyche_engine.Common.Assoc
use tyche_engine.Wire.{WireMessage}
use tyche_engine.DeadLetter.{Printer, record_of}

abbrev pub or_none : Option Bytes → Bytes
or_none none = []
or_none (some bs) = bs

-- The files, each with the name of its day. `opened` is whether the file could be opened.
unfoldable pub append_record : Bool → Bytes → Bytes → List (Bytes × Bytes) → List (Bytes × Bytes)
append_record opened date line files =
    if opened
    then Assoc.assign bytes_discrete date
        (or_none (Assoc.lookup bytes_discrete date files) ++ (line ++ (10 ∷ []))) files
    else files

module _ {D F : Type 0} (p : Printer D F) where
  -- The clock's time and day are arguments.
  unfoldable pub persist :
      Bool
      → Bytes
      → D
      → WireMessage D F
      → Bytes
      → Bytes
      → List (Bytes × Bytes)
      → List (Bytes × Bytes)
  unfolding append_record
  persist opened date now m topic reason files =
      append_record opened date (record_of p now topic reason m) files

-- `std::getline`: the lines, the last one without a newline if it is not empty.
abbrev last_line : Bytes → List Bytes
last_line [] = []
last_line (c ∷ cs) = (c ∷ cs) ∷ []

unfoldable pub lines_from : Bytes → Bytes → List Bytes
lines_from cur [] = last_line cur
lines_from cur (c ∷ rest) =
    let ended = lines_from [] rest in
    let going = lines_from (cur ++ (c ∷ [])) rest in if c == 10 then cur ∷ ended else going

abbrev is_prefix : Bytes → Bytes → Bool
is_prefix [] s = true
is_prefix (n ∷ ns) [] = false
is_prefix (n ∷ ns) (c ∷ s) = n == c && is_prefix ns s

-- `s.find(needle) != npos`
abbrev has : Bytes → Bytes → Bool
has needle [] = is_prefix needle []
has needle (c ∷ s) = is_prefix needle (c ∷ s) || has needle s

unfoldable pub matches : Option Bytes → Bytes → Bool
matches none line = true
matches (some topic) line =
    has (codes "\"topic\": \"" ++ (topic ++ (34 ∷ []))) line
    || has (codes "\"topic\":\"" ++ (topic ++ (34 ∷ []))) line

abbrev is_empty : Bytes → Bool
is_empty [] = true
is_empty (c ∷ cs) = false

-- The body of the loop over the lines; once `max_count` is reached, it changes nothing more.
abbrev pub keep : Option Bytes → ℕ → List Bytes → Bytes → List Bytes
keep topic max_count results line =
    if ltb (length results) max_count && not (is_empty line) && matches topic line
    then results ++ (line ∷ [])
    else results

unfoldable pub keep_all : Option Bytes → ℕ → List Bytes → List Bytes → List Bytes
keep_all topic max_count results [] = results
keep_all topic max_count results (line ∷ more) =
    keep_all topic max_count (keep topic max_count results line) more

-- `a < b` of strings
unfoldable pub before : Bytes → Bytes → Bool
before a [] = false
before [] (d ∷ ds) = true
before (c ∷ cs) (d ∷ ds) = let rest = before cs ds in ltb c d || c == d && rest

abbrev insert : Bytes × Bytes → List (Bytes × Bytes) → List (Bytes × Bytes)
insert f [] = f ∷ []
insert f (g ∷ gs) = let rest = insert f gs in if before g.0 f.0 then g ∷ rest else f ∷ g ∷ gs

-- `std::sort` by name
abbrev sort : List (Bytes × Bytes) → List (Bytes × Bytes)
sort [] = []
sort (f ∷ fs) = insert f (sort fs)

abbrev pub too_old : Option Bytes → Bytes → Bool
too_old none date = false
too_old (some since) date = before date since

unfoldable pub replay_files :
    Option Bytes → Option Bytes → ℕ → List Bytes → List (Bytes × Bytes) → List Bytes
replay_files topic since max_count results [] = results
replay_files topic since max_count results ((date, contents) ∷ more) =
    let these =
      if too_old since date
      then results
      else keep_all topic max_count results (lines_from [] contents) in
    replay_files topic since max_count these more

-- Every file can be opened.
unfoldable pub replay : Option Bytes → Option Bytes → ℕ → List (Bytes × Bytes) → List Bytes
replay topic since max_count files = replay_files topic since max_count [] (sort files)
