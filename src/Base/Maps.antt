-- ===== src/Base/Maps.antt =====
-- A Go map with string keys, as an association list. A nil map is `none` where the program tells it apart.
use mathlib.Core.Path.{◌≡◌, refl}
use mathlib.Core.Option.{Option, none, some}
use mathlib.Core.List.{List, [], ◌∷◌}
use native.Mathlib.Omega.{arith}
use Prim.Native.String.{String}
use boilerplate_go_be.Base.Tests.{str_eq, str_eq_iff, if◌then◌else◌}

abbrev pub Dict : Type 0 → Type 0
Dict V = List (String × V)

module _ {V : Type 0} where
  unfoldable pub lookup : String → Dict V → Option V
  lookup k [] = none
  lookup k ((j, v) ∷ m) = if str_eq j k then some v else lookup k m

  -- `m[k] = v`
  unfoldable pub insert : String → V → Dict V → Dict V
  insert k v [] = (k, v) ∷ []
  insert k v ((j, w) ∷ m) = if str_eq j k then (k, v) ∷ m else (j, w) ∷ insert k v m

  -- `for k, v := range h { m[k] = v }`
  unfoldable pub insert_all : Dict V → Dict V → Dict V
  unfolding insert
  insert_all [] m = m
  insert_all ((k, v) ∷ h) m = insert_all h (insert k v m)

  pub lookup-insert :
      (k j : String) (v : V) (m : Dict V)
      → lookup j (insert k v m) ≡ (if str_eq k j then some v else lookup j m)
  unfolding lookup insert
  lookup-insert k j v [] = refl
  lookup-insert k j v ((i, w) ∷ m) =
      ground (arith, str_eq_iff k j, str_eq_iff i k, str_eq_iff i j, lookup-insert k j v m)
