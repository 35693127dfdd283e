-- ===== src/Gateway/Loader/Named.antt =====
-- src/modules/ctp_gateway_cpp/src/ctp_loader.cpp: which file a path that was accepted names.
use mathlib.Core.List.{append_assoc}
use tyche_engine.Common.{
  ℕ, suc, subst, ◌≡◌, ◌≢◌, refl, ap, ◌∙◌, arith, true, false, Option, none, some, [], ◌∷◌, ◌++◌,
  length, ◌==◌, Bytes, Bool-cases, inl, inr, codes,
}
use tyche_engine.Gateway.Instruments.{has_text}
use tyche_engine.Gateway.Loader.{
  PathError, back, join_path, name_or, has_char, starts_absolute, is_so, validate_dll_path, md_path,
}

-- The file of that name in some folder.
pub record IsFileIn (path file : Bytes) : Type 0 where
  pub folder : Bytes
  pub whole : path ≡ folder ++ (b'/' ∷ file)
  pub bare : has_char b'/' file ≡ false
  pub no_backslash : has_char b'\\' file ≡ false
  pub absolute : starts_absolute path ≡ true
  pub no_dots : has_text (codes "..") path ≡ false
  pub library : is_so path ≡ true

record Accepted (path name : Bytes) : Type 0 where
  absolute : starts_absolute path ≡ true
  no_dots : has_text (codes "..") path ≡ false
  no_slash : has_char b'/' name ≡ false
  no_backslash : has_char b'\\' name ≡ false
  library : is_so path ≡ true

validate-Accepted : (path name : Bytes) → validate_dll_path path name ≡ none → Accepted path name
unfolding validate_dll_path
validate-Accepted path name h = ground arith

back-snoc : (c : ℕ) (dir : Bytes) → (init : Bytes) × ((c ∷ dir) ≡ init ++ (back (c ∷ dir) ∷ []))
back-snoc c [] = ([], refl)
back-snoc c (d ∷ cs) = let (init, e) = back-snoc d cs in (c ∷ init, ap (λ t. c ∷ t) e)

absolute_slash : (name : Bytes) → starts_absolute name ≡ true → has_char b'/' name ≡ true
absolute_slash [] h = cc
absolute_slash (c ∷ s) h = ground arith

join_path-folder :
    (c : ℕ) (dir name : Bytes)
    → back (c ∷ dir) ≢ b'\\'
    → (folder : Bytes) × (join_path (c ∷ dir) name ≡ folder ++ (b'/' ∷ name))
unfolding join_path
join_path-folder c dir name n =
    let not_nil : (suc (length dir) == 0) ≡ false = ground arith in
    let not_back : (back (c ∷ dir) == b'\\') ≡ false = ground arith in
    elim (Bool-cases (back (c ∷ dir) == b'/')) [
      | inl e ↦
          let (init, s) = back-snoc c dir in
          let slash : back (c ∷ dir) ≡ b'/' = ground arith in
          (
            init,
            rw (not_nil, e)
                (ap (λ t. t ++ name) s
                  ∙ ap (λ l. (init ++ (l ∷ [])) ++ name) slash
                  ∙ append_assoc init (b'/' ∷ []) name),
          )
      | inr e ↦ (c ∷ dir, rw (not_nil, e, not_back) refl)
    ]

join-IsFileIn :
    (dir name : Bytes)
    → back dir ≢ b'\\'
    → Accepted (join_path dir name) name
    → IsFileIn (join_path dir name) name
unfolding join_path
join-IsFileIn [] name n a = absurd (cc (absolute_slash name a.absolute, a.no_slash))
join-IsFileIn (c ∷ dir) name n a =
    let (folder, e) = join_path-folder c dir name n in
    record {
      folder = folder;
      whole = e;
      bare = a.no_slash;
      no_backslash = a.no_backslash;
      absolute = a.absolute;
      no_dots = a.no_dots;
      library = a.library;
    }

-- If the path of the market data library is accepted, for a folder that does not end in a
-- backslash, then it is an absolute path without `..`, ends in `.so`, and names the file of the
-- configured or default name, which has no separator in it, in some folder.
pub md_path-IsFileIn :
    (dir name path : Bytes)
    → back dir ≢ b'\\'
    → md_path dir name ≡ some path
    → IsFileIn path (name_or (codes "libthostmduserapi_se.so") name)
unfolding md_path
md_path-IsFileIn dir name path n h = by_verdict (validate_dll_path whole file) refl h
  where
    file : Bytes
    file = name_or (codes "libthostmduserapi_se.so") name

    whole : Bytes
    whole = join_path dir file

    by_verdict :
        (v : Option PathError)
        → validate_dll_path whole file ≡ v
        → elim v [ none ↦ some whole | some e ↦ none ] ≡ some path
        → IsFileIn path file
    by_verdict none e g =
        subst (λ p. IsFileIn p file) (cc)
          (join-IsFileIn dir file n (validate-Accepted whole file e))
    by_verdict (some x) e g = absurd (cc)
