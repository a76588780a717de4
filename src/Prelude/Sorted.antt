-- ===== src/Prelude/Sorted.antt =====
-- Insertion sort by a comparison that does not hold both ways.
use mathlib.Core.Path.{◌≡◌, refl, ap, ◌∙◌}
use mathlib.Core.Bool.{Bool, true, false}
use mathlib.Core.Logic.{inl, inr}
use mathlib.Core.List.{List, [], ◌∷◌}
use randfiletree.Prelude.Tests.{Bool-cases}
use randfiletree.Prelude.Lists.{All}
use randfiletree.Prelude.Sort.{insert_by, sort_by}

module _ {A : Type 0} (less : A → A → Bool) where
  -- No element comes after the next one.
  abbrev pub Ascending : List A → Type 0
  Ascending [] = Unit
  Ascending (x ∷ []) = Unit
  Ascending (x ∷ y ∷ ys) = (less y x ≡ false) × Ascending (y ∷ ys)

  module _ (asym : (a b : A) → less a b ≡ true → less b a ≡ false) where
    insert_by-Ascending : (a : A) (xs : List A) → Ascending xs → Ascending (insert_by less a xs)
    unfolding insert_by
    insert_by-Ascending a [] h = tt
    insert_by-Ascending a (x ∷ []) h = elim (Bool-cases (less x a)) [
      | inl e ↦ rw e (asym x a e, tt)
      | inr e ↦ rw e (e, tt)
    ]
    insert_by-Ascending a (x ∷ y ∷ ys) (l, h) = elim (Bool-cases (less x a)) [
      | inr e ↦ rw e (e, (l, h))
      | inl e ↦ elim (Bool-cases (less y a)) [
        | inr f ↦ rw (e, f) (asym x a e, (f, h))
        | inl f ↦ rw (e, f) (l, rw f at (insert_by-Ascending a (y ∷ ys) h))
      ]
    ]

    pub sort_by-Ascending : (xs : List A) → Ascending (sort_by less xs)
    unfolding sort_by
    sort_by-Ascending [] = tt
    sort_by-Ascending (x ∷ xs) = insert_by-Ascending x (sort_by less xs) (sort_by-Ascending xs)

  -- What is in order stays as it is.
  sort_by-kept : (xs : List A) → Ascending xs → sort_by less xs ≡ xs
  unfolding sort_by insert_by
  sort_by-kept [] h = refl
  sort_by-kept (x ∷ []) h = refl
  sort_by-kept (x ∷ y ∷ ys) (l, h) = ap (insert_by less x) (sort_by-kept (y ∷ ys) h) ∙ rw l refl

  pub sort_by-sort_by :
      ((a b : A) → less a b ≡ true → less b a ≡ false)
      → (xs : List A) → sort_by less (sort_by less xs) ≡ sort_by less xs
  sort_by-sort_by asym xs = sort_by-kept (sort_by less xs) (sort_by-Ascending asym xs)

  insert_by-All :
      (P : A → Type 0) (a : A) (xs : List A) → P a → All P xs → All P (insert_by less a xs)
  unfolding insert_by
  insert_by-All P a [] p h = (p, tt)
  insert_by-All P a (x ∷ xs) p (q, h) = elim (Bool-cases (less x a)) [
    | inl e ↦ rw e (q, insert_by-All P a xs p h)
    | inr e ↦ rw e (p, (q, h))
  ]

  pub sort_by-All : (P : A → Type 0) (xs : List A) → All P xs → All P (sort_by less xs)
  unfolding sort_by
  sort_by-All P [] h = tt
  sort_by-All P (x ∷ xs) (p, h) = insert_by-All P x (sort_by less xs) p (sort_by-All P xs h)
