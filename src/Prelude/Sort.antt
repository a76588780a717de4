-- ===== src/Prelude/Sort.antt =====
-- Go's `sort.Slice` and `sort.Strings`, as insertion into a sorted list.
use mathlib.Core.Bool.{Bool, true, false}
use mathlib.Core.List.{List, [], ◌∷◌}
use randfiletree.Prelude.Tests.{ltb, ◌==◌, if◌then◌else◌}
use randfiletree.Prelude.Text.{Bytes}

module _ {A : Type 0} (less : A → A → Bool) where
  unfoldable pub insert_by : A → List A → List A
  insert_by a [] = a ∷ []
  insert_by a (x ∷ xs) = if less x a then x ∷ insert_by a xs else a ∷ x ∷ xs

  unfoldable pub sort_by : List A → List A
  unfolding insert_by
  sort_by [] = []
  sort_by (x ∷ xs) = insert_by x (sort_by xs)

-- `a < b` on strings: the order of the bytes.
unfoldable pub bytes_ltb : Bytes → Bytes → Bool
bytes_ltb a [] = false
bytes_ltb [] (y ∷ ys) = true
bytes_ltb (x ∷ xs) (y ∷ ys) =
    let rest = bytes_ltb xs ys in if ltb x y then true else if x == y then rest else false

unfoldable pub sort_strings : List Bytes → List Bytes
unfolding sort_by bytes_ltb
sort_strings = sort_by bytes_ltb
