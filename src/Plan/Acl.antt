-- ===== src/Plan/Acl.antt =====
-- metadata.go: normalized ACL entries are sorted and do not repeat.
use randfiletree.Prelude.{
  true, false, List, [], ◌∷◌, Bytes, Result, ok, eqb, eqb-same, eqb-differ, ltb, ◌≡◌, refl, sym,
  ◌≢◌, arith, inl, inr, Bool-cases, Result-cases, insert_by, sort_by, sort_strings, bytes_ltb,
}
use mathlib.Core.Path.{subst, ap₂}
use randfiletree.Plan.Types.{PlanError}
use randfiletree.Plan.Metadata.{drop_repeats, normalize_acl_entries, check_acl_entries}

-- Each text comes before the next one.
abbrev pub Increasing : List Bytes → Type 0
Increasing [] = Unit
Increasing (x ∷ []) = Unit
Increasing (x ∷ y ∷ ys) = (bytes_ltb x y ≡ true) × Increasing (y ∷ ys)

-- No text comes after the next one.
abbrev Ascending : List Bytes → Type 0
Ascending [] = Unit
Ascending (x ∷ []) = Unit
Ascending (x ∷ y ∷ ys) = (bytes_ltb y x ≡ false) × Ascending (y ∷ ys)

bytes_ltb-asym : (a b : Bytes) → bytes_ltb a b ≡ true → bytes_ltb b a ≡ false
unfolding bytes_ltb
bytes_ltb-asym a [] h = cc
bytes_ltb-asym [] (y ∷ ys) h = refl
bytes_ltb-asym (x ∷ xs) (y ∷ ys) h = ground (arith, bytes_ltb-asym xs ys)

bytes_ltb-total : (a b : Bytes) → bytes_ltb b a ≡ false → a ≢ b → bytes_ltb a b ≡ true
unfolding bytes_ltb
bytes_ltb-total [] [] h n = absurd (n refl)
bytes_ltb-total [] (y ∷ ys) h n = refl
bytes_ltb-total (x ∷ xs) [] h n = cc
bytes_ltb-total (x ∷ xs) (y ∷ ys) h n = elim (Bool-cases (ltb x y)) [
  | inl e ↦ rw e refl
  | inr e ↦
      let same : x ≡ y = ground arith in
      let rest = bytes_ltb-total xs ys (ground arith) (λ f. n (ap₂ ◌∷◌ same f)) in
      ground (arith, rest)
]

insert_by-Ascending :
    (a : Bytes) (xs : List Bytes) → Ascending xs → Ascending (insert_by bytes_ltb a xs)
unfolding insert_by
insert_by-Ascending a [] h = tt
insert_by-Ascending a (x ∷ []) h = elim (Bool-cases (bytes_ltb x a)) [
  | inl e ↦ rw e (bytes_ltb-asym x a e, tt)
  | inr e ↦ rw e (e, tt)
]
insert_by-Ascending a (x ∷ y ∷ ys) (k, h) =
    let rest = insert_by-Ascending a (y ∷ ys) h in
    elim (Bool-cases (bytes_ltb x a)) [
      | inr e ↦ rw e (e, (k, h))
      | inl e ↦ elim (Bool-cases (bytes_ltb y a)) [
        | inl f ↦ rw (e, f) (k, rw f at rest)
        | inr f ↦ rw (e, f) (bytes_ltb-asym x a e, rw f at rest)
      ]
    ]

sort_strings-Ascending : (xs : List Bytes) → Ascending (sort_strings xs)
unfolding sort_strings sort_by
sort_strings-Ascending [] = tt
sort_strings-Ascending (x ∷ xs) =
    insert_by-Ascending x (sort_strings xs) (sort_strings-Ascending xs)

drop_repeats-head :
    (x : Bytes) (xs : List Bytes) → (t : List Bytes) × (drop_repeats (x ∷ xs) ≡ x ∷ t)
unfolding drop_repeats
drop_repeats-head x [] = ([], refl)
drop_repeats-head x (y ∷ xs) = elim (Bool-cases (eqb x y)) [
  | inl e ↦
      let (t, k) = drop_repeats-head y xs in
      (t, rw e (subst (λ z. drop_repeats (y ∷ xs) ≡ z ∷ t) (sym (eqb-same x y e)) k))
  | inr e ↦ (drop_repeats (y ∷ xs), rw e refl)
]

drop_repeats-Increasing : (xs : List Bytes) → Ascending xs → Increasing (drop_repeats xs)
unfolding drop_repeats
drop_repeats-Increasing [] h = tt
drop_repeats-Increasing (x ∷ []) h = tt
drop_repeats-Increasing (x ∷ y ∷ xs) (k, h) =
    let rest = drop_repeats-Increasing (y ∷ xs) h in
    elim (Bool-cases (eqb x y)) [
      | inl e ↦ rw e rest
      | inr e ↦
          let (t, same) = drop_repeats-head y xs in
          rw (e, same) (bytes_ltb-total x y k (eqb-differ x y e), rw same at rest)
    ]

-- The entries of a normalized ACL are sorted by their bytes, and none occurs twice.
pub normalize_acl_entries-Increasing :
    (entries normalized : List Bytes)
    → normalize_acl_entries entries ≡ ok normalized
    → Increasing normalized
unfolding normalize_acl_entries
normalize_acl_entries-Increasing entries normalized h =
    elim (Result-cases (check_acl_entries 0 entries)) [
      | inl (ws, e) ↦
          subst Increasing (ok-same (rw (e, normalize_acl_entries) at h))
            (drop_repeats-Increasing (sort_strings ws) (sort_strings-Ascending ws))
      | inr (x, e) ↦ absurd (ground (arith, e))
    ]
  where
    ok-same : {a b : List Bytes} → ◌≡◌ {A = Result PlanError (List Bytes)} (ok a) (ok b) → a ≡ b
    ok-same h = cc
