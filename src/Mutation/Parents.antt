-- ===== src/Mutation/Parents.antt =====
-- mutate.go: what `ensureNoSymlinkParents` makes sure of.
use randfiletree.Prelude.{
  suc, ◌<◌, true, false, some, List, [], ◌∷◌, ◌++◌, Bytes, ok, eqb, eqb-same, eqb_refl, eqb_differ,
  is_empty, length, length-append, All, ◌≡◌, refl, sym, ap, ◌∙◌, arith, inl, inr, Bool-cases,
  Check-cases, Result-cases,
}
use mathlib.Core.List.{append_assoc}
use mathlib.Core.Path.{subst}
use randfiletree.GoPath.{render, dot, rel, split_path, rel_components}
use randfiletree.GoPath.Rooted.{Plain, split_path-join_components, clean-render, components-render}
use randfiletree.GoPath.Below.{All-append, join-name, dir_of-name, render-same}
use randfiletree.Mutation.System.{FileSystem, FileInfo, is_directory, is_symlink}
use randfiletree.Mutation.Apply.{check_parents, ensure_no_symlink_parents, ensure_path_within_base}

rel_components-append : (ds us : List Bytes) → rel_components ds (ds ++ us) ≡ some us
unfolding rel_components
rel_components-append [] us = refl
rel_components-append (d ∷ ds) us = rw (eqb_refl d) (rel_components-append ds us)

rel-render :
    (ds us : List Bytes)
    → All Plain ds
    → All Plain us
    → rel (render true ds) (render true (ds ++ us)) ≡ some (render false us)
unfolding rel
rel-render ds us h k =
    rw
      (
        rel,
        components-render ds h,
        components-render (ds ++ us) (All-append Plain ds us h k),
        rel_components-append ds us,
      )
      refl

split_path-parent :
    (w : Bytes) (ws : List Bytes) → All Plain (w ∷ ws) → split_path (render false (w ∷ ws)) ≡ w ∷ ws
unfolding render
split_path-parent w ws h = split_path-join_components w ws h

first_same : {v w : Bytes} {vs ws : List Bytes} → (v ∷ vs) ≡ (w ∷ ws) → v ≡ w
first_same e = cc

tests_differ : true ≡ false → ⊥
tests_differ e = cc

-- No parent below the base is the base.
parent-not_dot :
    (w : Bytes) (ws : List Bytes) → All Plain (w ∷ ws) → eqb (render false (w ∷ ws)) dot ≡ false
unfolding split_path
parent-not_dot w ws h = elim (Bool-cases (eqb (render false (w ∷ ws)) dot)) [
  | inr e ↦ e
  | inl e ↦ absurd (first (sym (split_path-parent w ws h) ∙ ap split_path (eqb-same _ dot e)) h)
]
  where
    first : (w ∷ ws) ≡ (dot ∷ []) → All Plain (w ∷ ws) → ⊥
    first e (p, k) =
        tests_differ (sym (eqb_refl dot) ∙ ap (λ v. eqb v dot) (sym (first_same e)) ∙ p.not_dot)

-- Of different lengths, two lists of components are different paths.
paths_differ :
    (us ws : List Bytes)
    → All Plain us
    → All Plain ws
    → length us < length ws
    → eqb (render true us) (render true ws) ≡ false
paths_differ us ws h k l =
    eqb_differ _ _ (λ e. absurd (omega (arith, l, ap length (render-same us ws h k e))))

eqb_sym : (a b : Bytes) → eqb a b ≡ false → eqb b a ≡ false
eqb_sym a b e = eqb_differ b a (λ s. tests_differ (sym (eqb_refl a) ∙ ap (eqb a) (sym s) ∙ e))

is_empty-cons : (xs : List Bytes) (v : Bytes) (ys : List Bytes) → is_empty (xs ++ (v ∷ ys)) ≡ false
is_empty-cons [] v ys = refl
is_empty-cons (x ∷ xs) v ys = refl

module _ {F : Type 0} (fs : FileSystem F) where
  -- By `lstat`, a directory, and so no symbolic link.
  abbrev IsRealDirectory : F → Bytes → Type 0
  IsRealDirectory f path =
      (info : FileInfo) × (fs.lstat path f ≡ ok info)
      × (is_directory info ≡ true)
      × (is_symlink info ≡ false)

  check_parents-step :
      (f : F) (ds us : List Bytes) (u : Bytes)
      → All Plain ds
      → Plain u
      → check_parents fs f (render true ds) (u ∷ us) ≡ ok tt
      → IsRealDirectory f (render true (ds ++ (u ∷ [])))
        × (check_parents fs f (render true (ds ++ (u ∷ []))) us ≡ ok tt)
  unfolding check_parents
  check_parents-step f ds us u h p c =
      elim (Result-cases (fs.lstat (render true (ds ++ (u ∷ []))) f)) [
        | inr (e, l) ↦
            absurd (ground (arith, rw (join-name ds u h p, p.some_text, p.not_dot, l) at c))
        | inl (info, l) ↦
            let c1 = rw (join-name ds u h p, p.some_text, p.not_dot, l) at c in
            elim (Bool-cases (is_symlink info)) [
              | inl s ↦ absurd (ground (arith, rw s at c1))
              | inr s ↦ elim (Bool-cases (is_directory info)) [
                | inl d ↦ (
                  (info, l, d, s),
                  subst (λ path. check_parents fs f path us ≡ ok tt) (join-name ds u h p)
                      (rw (s, d) at c1),
                )
                | inr d ↦ absurd (ground (arith, rw (s, d) at c1))
              ]
            ]
      ]

  check_parents-IsRealDirectory :
      (f : F) (ds xs ys : List Bytes) (v : Bytes)
      → All Plain ds
      → All Plain (xs ++ (v ∷ ys))
      → check_parents fs f (render true ds) (xs ++ (v ∷ ys)) ≡ ok tt
      → IsRealDirectory f (render true (ds ++ (xs ++ (v ∷ []))))
  check_parents-IsRealDirectory f ds [] ys v h (p, k) c = (check_parents-step f ds ys v h p c).0
  check_parents-IsRealDirectory f ds (x ∷ xs) ys v h (p, k) c =
      subst (λ ws. IsRealDirectory f (render true ws)) (append_assoc ds (x ∷ []) (xs ++ (v ∷ [])))
        (check_parents-IsRealDirectory f (ds ++ (x ∷ [])) xs ys v
          (All-append Plain ds (x ∷ []) h (p, tt)) k
          (check_parents-step f ds (xs ++ (v ∷ ys)) x h p c).1)

  ensure_no_symlink_parents-check_parents :
      (f : F) (ds us : List Bytes) (w : Bytes)
      → All Plain ds
      → All Plain us
      → Plain w
      → is_empty us ≡ false
      → ensure_no_symlink_parents fs (render true ds) (render true (ds ++ us ++ (w ∷ []))) f ≡ ok tt
      → check_parents fs f (render true ds) us ≡ ok tt
  unfolding ensure_no_symlink_parents
  ensure_no_symlink_parents-check_parents f ds [] w h k p n c = cc
  ensure_no_symlink_parents-check_parents f ds (u ∷ us) w h k p n c =
      let path = render true (ds ++ (u ∷ us) ++ (w ∷ [])) in
      let below = All-append Plain ds (u ∷ us) h k in
      let whole = All-append Plain (ds ++ (u ∷ us)) (w ∷ []) below (p, tt) in
      let cleaned = clean-render (ds ++ (u ∷ us) ++ (w ∷ [])) whole in
      let size : length (ds ++ (u ∷ us) ++ (w ∷ [])) ≡ suc (length (ds ++ (u ∷ us))) =
        omega (arith, length-append (ds ++ (u ∷ us)) (w ∷ [])) in
      let more : length ds < length (ds ++ (u ∷ us)) = omega (arith, length-append ds (u ∷ us)) in
      let not_base =
        eqb_sym (render true ds) path
          (paths_differ ds (ds ++ (u ∷ us) ++ (w ∷ [])) h whole (omega arith)) in
      let not_top =
        paths_differ (ds ++ (u ∷ us)) (ds ++ (u ∷ us) ++ (w ∷ [])) below whole (omega arith) in
      elim (Check-cases (ensure_path_within_base (render true ds) path)) [
        | inr (e, i) ↦
            absurd
              (ground (arith, rw (ensure_no_symlink_parents, clean-render ds h, cleaned, i) at c))
        | inl i ↦
            rw
              (
                ensure_no_symlink_parents,
                clean-render ds h,
                cleaned,
                i,
                clean-render ds h,
                cleaned,
                not_base,
                dir_of-name (ds ++ (u ∷ us)) w below p,
                not_top,
                rel-render ds (u ∷ us) h k,
                parent-not_dot u us k,
                split_path-parent u us k,
                clean-render ds h,
              )
              at c
      ]

  -- Where the check of a path below an absolute base passes, both of them clean, everything strictly
  -- between the base and the path is by `lstat` a directory, and no symbolic link.
  pub ensure_no_symlink_parents-IsRealDirectory :
      (f : F) (ds xs ys : List Bytes) (v w : Bytes)
      → All Plain ds
      → All Plain (xs ++ (v ∷ ys))
      → Plain w
      → ensure_no_symlink_parents fs
          (render true ds)
          (render true (ds ++ (xs ++ (v ∷ ys)) ++ (w ∷ [])))
          f
        ≡ ok tt
      → (info : FileInfo) × (fs.lstat (render true (ds ++ (xs ++ (v ∷ [])))) f ≡ ok info)
        × (is_directory info ≡ true)
        × (is_symlink info ≡ false)
  ensure_no_symlink_parents-IsRealDirectory f ds xs ys v w h k p c =
      check_parents-IsRealDirectory f ds xs ys v h k (
        ensure_no_symlink_parents-check_parents f ds (xs ++ (v ∷ ys)) w h k p
          (is_empty-cons xs v ys) c)
