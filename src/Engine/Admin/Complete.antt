-- ===== src/Engine/Admin/Complete.antt =====
-- src/tyche/cpp/engine/engine.cpp: the answers of `_admin_worker` are whole: the numbers in front of
-- maps and arrays are those of what follows.
use mathlib.Core.List.{append_assoc, append-nil}
use tyche_engine.Common.{
  ℕ, zero, suc, ◌^◌, ◌<◌, ◌≡◌, refl, sym, ap, ◌∙◌, arith, Bool, Option, none, some, List, [], ◌∷◌,
  ◌++◌, length, ite, if_pos, if_neg, Bytes, bytes_discrete, codes,
}
use tyche_engine.Common.Assoc
use tyche_engine.Types.{ModuleInfo}
use tyche_engine.ShardedMap
use tyche_engine.Engine.{Engine}
use tyche_engine.Engine.Admin.{
  Token, map_head, array_head, packed_str, Readings, pack_modules, queues_at, answer, each,
  pack_module, pack_queue, pack_job, pack_record, pack_name, pack_flag, pack_availability, size32,
}

abbrev plus : ℕ → ℕ → ℕ
plus zero n = n
plus (suc k) n = suc (plus k n)

abbrev twice : ℕ → ℕ → ℕ
twice zero n = n
twice (suc k) n = suc (suc (twice k n))

size32_lem : {A : Type 0} (xs : List A) → length xs < 2 ^ 32 → size32 xs ≡ length xs
size32_lem xs h = omega arith

abbrev pub availability_of : Engine → Bytes → Option (List (Bytes × Bool))
availability_of e mid = Assoc.lookup bytes_discrete mid e.module_availability

abbrev pub ShortFlags : Option (List (Bytes × Bool)) → Type 0
ShortFlags none = Unit
ShortFlags (some flags) = length flags < 2 ^ 32

-- The lists of a module have less than 2^32 items.
abbrev pub ShortModules : Engine → List (Bytes × ModuleInfo) → Type 0
ShortModules e [] = Unit
ShortModules e ((mid, info) ∷ more) =
    (length info.interfaces < 2 ^ 32) × ShortFlags (availability_of e mid) × ShortModules e more

module _ {D : Type 0} where
  -- What is left behind the next `n` objects, or `none` if they are cut off.
  pub skip : ℕ → List (Token D) → Option (List (Token D))
  skip zero ts = some ts
  skip (suc n) [] = none
  skip (suc n) (map_head k ∷ ts) = skip (twice k n) ts
  skip (suc n) (array_head k ∷ ts) = skip (plus k n) ts
  skip (suc n) (leaf ∷ ts) = skip n ts

  -- The tokens are exactly `m` objects.
  abbrev Reads : ℕ → List (Token D) → Type 0
  Reads m us = (n : ℕ) (rest : List (Token D)) → skip (plus m n) (us ++ rest) ≡ skip n rest

  skip-each :
      {A : Type 0} (f : A → List (Token D)) (xs : List A)
      → ((x : A) → Reads 1 (f x))
      → Reads (length xs) (each f xs)
  skip-each f [] h n rest = refl
  skip-each f (x ∷ xs) h n rest =
      ap (skip (suc (plus (length xs) n))) (append_assoc (f x) (each f xs) rest)
      ∙ h x (plus (length xs) n) (each f xs ++ rest)
      ∙ skip-each f xs h n rest

  skip-pairs :
      {A : Type 0} (f : A → List (Token D)) (xs : List A)
      → ((x : A) → Reads 2 (f x))
      → (n : ℕ) (rest : List (Token D))
      → skip (twice (length xs) n) (each f xs ++ rest) ≡ skip n rest
  skip-pairs f [] h n rest = refl
  skip-pairs f (x ∷ xs) h n rest =
      ap (skip (suc (suc (twice (length xs) n)))) (append_assoc (f x) (each f xs) rest)
      ∙ h x (twice (length xs) n) (each f xs ++ rest)
      ∙ skip-pairs f xs h n rest

  -- An answer with one list.
  list_whole :
      {A : Type 0} (f : A → List (Token D)) (xs : List A) (name : Bytes)
      → length xs < 2 ^ 32
      → ((x : A) → Reads 1 (f x))
      → skip 1 (map_head 1 ∷ packed_str name ∷ array_head (size32 xs) ∷ each f xs) ≡ some []
  unfolding skip
  list_whole f xs name h r =
      ap (λ k. skip (plus k 0) (each f xs)) (size32_lem xs h)
      ∙ ap (skip (plus (length xs) 0)) (sym (append-nil (each f xs)))
      ∙ skip-each f xs r 0 []

  pack_availability-Reads :
      (o : Option (List (Bytes × Bool))) → ShortFlags o → Reads 1 (pack_availability {D = D} o)
  unfolding skip
  pack_availability-Reads none h n rest = refl
  pack_availability-Reads (some flags) h n rest =
      ap (λ k. skip (twice k n) (each pack_flag flags ++ rest)) (size32_lem flags h)
      ∙ skip-pairs pack_flag flags (λ x m us. refl) n rest

  pack_module-Reads :
      (e : Engine) (mid : Bytes) (info : ModuleInfo)
      → length info.interfaces < 2 ^ 32
      → ShortFlags (availability_of e mid)
      → Reads 1 (pack_module e (mid, info))
  unfolding skip
  pack_module-Reads e mid info h g n rest =
      ap (λ k. skip (plus k (suc (suc n))) ((each pack_name info.interfaces ++ tail) ++ rest))
        (size32_lem info.interfaces h)
      ∙ ap (skip (plus (length info.interfaces) (suc (suc n))))
          (append_assoc (each pack_name info.interfaces) tail rest)
      ∙ skip-each pack_name info.interfaces (λ x m us. refl) (suc (suc n)) (tail ++ rest)
      ∙ pack_availability-Reads (availability_of e mid) g n rest
    where
      tail : List (Token D)
      tail = packed_str (codes "availability") ∷ pack_availability (availability_of e mid)

  modules-Reads :
      (e : Engine) (ms : List (Bytes × ModuleInfo))
      → ShortModules e ms
      → Reads (length ms) (each (pack_module e) ms)
  modules-Reads e [] h n rest = refl
  modules-Reads e ((mid, info) ∷ ms) (i, a, h) n rest =
      ap (skip (suc (plus (length ms) n)))
        (append_assoc (pack_module e (mid, info)) (each (pack_module e) ms) rest)
      ∙ pack_module-Reads e mid info i a (plus (length ms) n) (each (pack_module e) ms ++ rest)
      ∙ modules-Reads e ms h n rest

  modules_whole :
      (e : Engine)
      → length e.modules < 2 ^ 32
      → ShortModules e e.modules
      → skip 1 (pack_modules {D = D} e) ≡ some []
  unfolding skip pack_modules
  modules_whole e h s =
      ap (λ k. skip (plus k 0) (each (pack_module e) e.modules)) (size32_lem e.modules h)
      ∙ ap (skip (plus (length e.modules) 0)) (sym (append-nil (each (pack_module e) e.modules)))
      ∙ modules-Reads e e.modules s 0 []

  either_whole :
      {P : Type 0} (d : Dec P) (us vs : List (Token D))
      → skip 1 us ≡ some []
      → skip 1 vs ≡ some []
      → skip 1 (ite d us vs) ≡ some []
  either_whole (yes p) us vs h g = rw (if_pos _ p) h
  either_whole (no p) us vs h g = rw (if_neg _ p) g

  -- The lists that are counted have less than 2^32 items.
  pub record Short (r : Readings D) (e : Engine) : Type 0 where
    pub modules : length e.modules < 2 ^ 32
    pub each_module : ShortModules e e.modules
    pub queues : length (queues_at e.heap (ShardedMap.snapshot e.topic_queues)) < 2 ^ 32
    pub jobs : length e.job_tracking < 2 ^ 32
    pub letters : length r.dead_letters < 2 ^ 32

  -- If no list that is counted has 2^32 items or more, the answer to each query is exactly one
  -- object: the numbers written in front of its maps and arrays are those of the entries that
  -- follow.
  pub answer_whole :
      (query : Bytes) (r : Readings D) (e : Engine)
      → Short r e
      → skip 1 (answer query r e) ≡ some []
  unfolding answer skip
  answer_whole query r e s = either_whole (bytes_discrete query (codes "STATUS")) _ _ refl (
      either_whole (bytes_discrete query (codes "MODULES")) _ _
        (modules_whole e s.modules s.each_module)
        (either_whole (bytes_discrete query (codes "QUEUES")) _ _
          (list_whole pack_queue _ (codes "queues") s.queues (λ x n us. refl))
          (either_whole (bytes_discrete query (codes "JOBS")) _ _
            (list_whole (pack_job r) e.job_tracking (codes "jobs") s.jobs (λ x n us. refl))
            (either_whole (bytes_discrete query (codes "DEAD_LETTERS")) _ _
              (list_whole pack_record r.dead_letters (codes "dead_letters") s.letters
                (λ x n us. refl))
              (either_whole (bytes_discrete query (codes "STATS")) _ _ refl refl)))))
