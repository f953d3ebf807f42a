-- ===== src/Prelude/Dict.antt =====
-- A JavaScript object or Map keyed by texts, as an association list in insertion order.
use Prim.Native.String.{String}
use mathlib.Core.Path.{◌≡◌, refl}
use mathlib.Core.Option.{Option, none, some}
use mathlib.Core.List.{List, [], ◌∷◌}
use native.Mathlib.Omega.{arith}
use text.Mathlib.TextPositions.{eq_refl}
use Prim.Native.Nat.{◌+◌}
use eto_mcp.Prelude.Tests.{if◌then◌else◌, is_some}
use eto_mcp.Prelude.Lists.{length}
use eto_mcp.Prelude.Text.{str_eq, str_eq_iff}

abbrev pub Dict {ℓ} : Type ℓ → Type ℓ
Dict V = List (String × V)

module _ {ℓ} {V : Type ℓ} where
  -- `d[k]`, and `undefined` for a missing key.
  unfoldable pub lookup : String → Dict V → Option V
  lookup k [] = none
  lookup k ((j, v) ∷ d) = if str_eq j k then some v else lookup k d

  -- `d[k] = v`: an old key keeps its place.
  unfoldable pub insert : String → V → Dict V → Dict V
  insert k v [] = (k, v) ∷ []
  insert k v ((j, w) ∷ d) = if str_eq j k then (k, v) ∷ d else (j, w) ∷ insert k v d

  pub lookup-insert :
      (k j : String) (v : V) (d : Dict V)
      → lookup j (insert k v d) ≡ (if str_eq k j then some v else lookup j d)
  unfolding lookup insert
  lookup-insert k j v [] = refl
  lookup-insert k j v ((i, w) ∷ d) =
      ground (arith, str_eq_iff k j, str_eq_iff i k, str_eq_iff i j, lookup-insert k j v d)

  pub lookup-insert_self : (k : String) (v : V) (d : Dict V) → lookup k (insert k v d) ≡ some v
  lookup-insert_self k v d = simp (lookup-insert, eq_refl)

  -- A new key makes the object larger by one.
  pub length-insert :
      (k : String) (v : V) (d : Dict V)
      → length (insert k v d) ≡ length d + (if is_some (lookup k d) then 0 else 1)
  unfolding lookup insert
  length-insert k v [] = refl
  length-insert k v ((j, w) ∷ d) = ground (arith, length-insert k v d)

  -- `Map.delete`
  unfoldable pub remove : String → Dict V → Dict V
  remove k [] = []
  remove k ((j, v) ∷ d) = let rest = remove k d in if str_eq j k then rest else (j, v) ∷ rest

  pub lookup-remove :
      (k j : String) (d : Dict V)
      → lookup j (remove k d) ≡ (if str_eq k j then none else lookup j d)
  unfolding lookup remove
  lookup-remove k j [] = ground arith
  lookup-remove k j ((i, v) ∷ d) =
      ground (arith, str_eq_iff k j, str_eq_iff i k, str_eq_iff i j, lookup-remove k j d)
