-- ===== src/Prelude/Dict.antt =====
-- A Go map with string keys, as an association list with one entry for a key.
use mathlib.Core.Path.{◌≡◌, refl}
use mathlib.Core.List.{List, [], ◌∷◌}
use mathlib.Core.Option.{Option, none, some}
use mathlib.Core.Bool.{Bool, true, false}
use native.Mathlib.Omega.{arith}
use randfiletree.Prelude.Tests.{if◌then◌else◌}
use randfiletree.Prelude.Text.{Bytes, eqb}

module _ {V : Type 0} where
  unfoldable pub lookup : Bytes → List (Bytes × V) → Option V
  lookup k [] = none
  lookup k ((j, v) ∷ m) = if eqb j k then some v else lookup k m

  unfoldable pub insert : Bytes → V → List (Bytes × V) → List (Bytes × V)
  insert k v [] = (k, v) ∷ []
  insert k v ((j, w) ∷ m) = if eqb j k then (k, v) ∷ m else (j, w) ∷ insert k v m

  pub lookup-insert :
      (k j : Bytes) (v : V) (m : List (Bytes × V))
      → lookup j (insert k v m) ≡ (if eqb k j then some v else lookup j m)
  unfolding lookup insert
  lookup-insert k j v [] = refl
  lookup-insert k j v ((i, w) ∷ m) = ground (arith, lookup-insert k j v m)

  -- `delete(m, k)`.
  unfoldable pub remove : Bytes → List (Bytes × V) → List (Bytes × V)
  remove k [] = []
  remove k ((j, w) ∷ m) = let rest = remove k m in if eqb j k then rest else (j, w) ∷ rest

  pub lookup-remove :
      (k j : Bytes) (m : List (Bytes × V))
      → lookup j (remove k m) ≡ (if eqb k j then none else lookup j m)
  unfolding remove lookup
  lookup-remove k j [] = ground arith
  lookup-remove k j ((i, w) ∷ m) = ground (arith, lookup-remove k j m)

  unfoldable pub keys : List (Bytes × V) → List Bytes
  keys [] = []
  keys ((k, v) ∷ m) = k ∷ keys m

  unfoldable pub is_key : Bytes → List (Bytes × V) → Bool
  unfolding lookup
  is_key k m = elim (lookup k m) [ none ↦ false | some _ ↦ true ]

-- A set of strings.
unfoldable pub member : Bytes → List Bytes → Bool
member k [] = false
member k (j ∷ s) = if eqb j k then true else member k s

-- `set[k] = struct{}{}`.
unfoldable pub add_member : Bytes → List Bytes → List Bytes
add_member k [] = k ∷ []
add_member k (j ∷ s) = let rest = add_member k s in if eqb j k then j ∷ s else j ∷ rest

-- `delete(set, k)`.
unfoldable pub remove_member : Bytes → List Bytes → List Bytes
remove_member k [] = []
remove_member k (j ∷ s) = let rest = remove_member k s in if eqb j k then rest else j ∷ rest
