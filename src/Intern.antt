-- ===== src/Intern.antt =====
-- src/tyche/cpp/string_intern.h: strings and their dense 32-bit identifiers.
-- `intern` looks the string up under the shared lock and again under the exclusive one; with no other
-- thread between, both find the same.
pub mod Stable
use tyche_engine.Common.{
  ℕ, zero, suc, ◌+◌, ◌-◌, ◌%◌, ◌^◌, ◌≡◌, Bool, true, false, Option, none, some, List, [], ◌∷◌, ◌++◌,
  length, get_or, set, replicate, leb, if◌then◌else◌, Bytes, bytes_discrete,
}
use tyche_engine.Common.Assoc

pub record StringIntern : Type 0 where
  pub string_to_id : List (Bytes × ℕ)
  pub id_to_string : List Bytes
  pub next_id : ℕ

abbrev pub invalid_id : ℕ
invalid_id = 0

abbrev pub empty_intern : StringIntern
empty_intern = record { string_to_id = []; id_to_string = []; next_id = 1 }

-- `resize(n)` of a vector that is not longer than `n`
abbrev pub grow : ℕ → List Bytes → List Bytes
grow n xs = xs ++ replicate (n - length xs) []

abbrev store : Bytes → ℕ → List Bytes → List Bytes
store s id xs = if leb (length xs) id then set (grow (id + 1) xs) id s else set xs id s

unfoldable pub intern : Bytes → StringIntern → ℕ × StringIntern
intern s t = elim (Assoc.lookup bytes_discrete s t.string_to_id) [
  | some id ↦ (id, t)
  | none ↦ (
    t.next_id,
    record {
      string_to_id = Assoc.assign bytes_discrete s t.next_id t.string_to_id;
      id_to_string = store s t.next_id t.id_to_string;
      next_id = (t.next_id + 1) % 2 ^ 32;
    },
  )
]

abbrev pub or_invalid : Option ℕ → ℕ
or_invalid none = invalid_id
or_invalid (some id) = id

unfoldable pub lookup : Bytes → StringIntern → ℕ
lookup s t = or_invalid (Assoc.lookup bytes_discrete s t.string_to_id)

unfoldable pub resolve : ℕ → StringIntern → Bytes
resolve id t = get_or t.id_to_string id []

unfoldable pub size : StringIntern → ℕ
size t = length t.string_to_id
