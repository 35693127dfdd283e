-- ===== src/Gateway/Loader.antt =====
-- src/modules/ctp_gateway_cpp/src/ctp_loader.cpp, outside Windows: the path of a library of CTP. The
-- loading itself is left out.
pub mod Named
use tyche_engine.Common.{
  ℕ, ◌+◌, ◌≡◌, Bool, true, false, ◌||◌, not, Option, none, some, List, [], ◌∷◌, ◌++◌, length, ltb,
  if◌then◌else◌, ◌==◌, Bytes, codes,
}
use tyche_engine.TycheModule.{after_prefix}
use tyche_engine.Gateway.Instruments.{has_text}

pub data PathError : Type 0 where
  not_absolute directory_traversal empty_name path_separators invalid_extension : PathError

-- `dir.back()` of a text that is not empty
abbrev pub back : Bytes → ℕ
back [] = 0
back (c ∷ []) = c
back (c ∷ d ∷ cs) = back (d ∷ cs)

abbrev pub is_separator : ℕ → Bool
is_separator c = c == b'/' || c == b'\\'

unfoldable pub join_path : Bytes → Bytes → Bytes
join_path dir filename =
    if length dir == 0
    then filename
    else (if is_separator (back dir) then dir ++ filename else dir ++ (b'/' ∷ filename))

abbrev pub name_or : Bytes → Bytes → Bytes
name_or default name = if length name == 0 then default else name

unfoldable pub resolve_md_dll : Bytes → Bytes → Bytes
unfolding join_path
resolve_md_dll dir name = join_path dir (name_or (codes "libthostmduserapi_se.so") name)

unfoldable pub resolve_td_dll : Bytes → Bytes → Bytes
unfolding join_path
resolve_td_dll dir name = join_path dir (name_or (codes "libthosttraderapi_se.so") name)

abbrev pub has_char : ℕ → Bytes → Bool
has_char c [] = false
has_char c (d ∷ s) = let rest = has_char c s in if d == c then true else rest

abbrev pub starts_absolute : Bytes → Bool
starts_absolute [] = false
starts_absolute (c ∷ s) = c == b'/'

-- Longer than ".so", and ends in it.
abbrev pub is_so : Bytes → Bool
is_so [] = false
is_so (c ∷ []) = false
is_so (c ∷ d ∷ []) = false
is_so (c ∷ d ∷ e ∷ []) = false
is_so (c ∷ d ∷ e ∷ f ∷ []) = if d == b'.' then (if e == b's' then f == b'o' else false) else false
is_so (c ∷ d ∷ e ∷ f ∷ g ∷ s) = is_so (d ∷ e ∷ f ∷ g ∷ s)

-- `none`: the path is accepted.
unfoldable pub validate_dll_path : Bytes → Bytes → Option PathError
validate_dll_path path expected_name =
    if not (starts_absolute path)
    then some not_absolute
    else (if has_text (codes "..") path
        then some directory_traversal
        else (if length expected_name == 0
            then some empty_name
            else (if has_char b'/' expected_name || has_char b'\\' expected_name
                then some path_separators
                else (if not (is_so path) then some invalid_extension else none))))

-- The path that `create_md_api` opens.
unfoldable pub md_path : Bytes → Bytes → Option Bytes
unfolding resolve_md_dll validate_dll_path
md_path dir name =
    let path = resolve_md_dll dir name in
    elim (validate_dll_path path (name_or (codes "libthostmduserapi_se.so") name)) [
      | none ↦ some path
      | some e ↦ none
    ]

unfoldable pub td_path : Bytes → Bytes → Option Bytes
unfolding resolve_td_dll validate_dll_path
td_path dir name =
    let path = resolve_td_dll dir name in
    elim (validate_dll_path path (name_or (codes "libthosttraderapi_se.so") name)) [
      | none ↦ some path
      | some e ↦ none
    ]
