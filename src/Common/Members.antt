-- ===== src/Common/Members.antt =====
-- Vectors and sets of names.
use mathlib.Core.Path.{◌≡◌}
use mathlib.Core.Logic.{ite}
use mathlib.Core.Bool.{Bool, true, false}
use mathlib.Core.List.{List, [], ◌∷◌, ◌++◌}
use native.Mathlib.Omega.{arith}
use tyche_engine.Common.Tests.{if◌then◌else◌}
use tyche_engine.Common.Text.{Bytes, bytes_discrete}

-- `std::find(xs) != xs.end()`
abbrev pub contains : Bytes → List Bytes → Bool
contains x [] = false
contains x (y ∷ ys) = ite (bytes_discrete y x) true (contains x ys)

-- `push_back` of a name that is not there
abbrev pub add_once : Bytes → List Bytes → List Bytes
add_once x xs = if contains x xs then xs else xs ++ (x ∷ [])

-- `erase(std::remove(…, x), end())`
unfoldable pub remove : Bytes → List Bytes → List Bytes
remove x [] = []
remove x (y ∷ ys) = let rest = remove x ys in ite (bytes_discrete y x) rest (y ∷ rest)

pub contains-append :
    (x y : Bytes) (ys : List Bytes)
    → contains x (ys ++ (y ∷ []))
      ≡ (if contains x ys then true else ite (bytes_discrete y x) true false)
contains-append x y [] = ground arith
contains-append x y (z ∷ zs) = ground (arith, contains-append x y zs)

pub contains-remove :
    (x y : Bytes) (ys : List Bytes)
    → contains x (remove y ys) ≡ ite (bytes_discrete y x) false (contains x ys)
unfolding remove
contains-remove x y [] = ground arith
contains-remove x y (z ∷ zs) = ground (arith, contains-remove x y zs)
