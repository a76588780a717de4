-- ===== src/Plan/Placed.antt =====
-- plan.go: where the entries of a plan are, when names are single components of a path.
use randfiletree.Prelude.{
  true, List, [], ◌∷◌, ◌++◌, Bytes, ok, All, ◌≡◌, sym, ap, ◌∙◌, ◌⊎◌, inl, inr,
}
use randfiletree.Prelude.Int.{ℤ}
use mathlib.Core.Path.{subst}
use randfiletree.GoPath.{render, join, dir_of}
use randfiletree.GoPath.Rooted.{Plain}
use randfiletree.GoPath.Below.{All-append, join-name, dir_of-name}
use randfiletree.Plan.Types.{Random, IsLawful, Generator, NameGen}
use randfiletree.Plan.Config.{validate_run_configuration}
use randfiletree.Plan.Invariant.{Frame, Shape, shapes, Anchored, Linked, Ordered, DirIn}
use randfiletree.Plan.Tree.{plan_run}
use randfiletree.Plan.Run.{Configured, IsDrawn, plan_run_placed}

-- The first entry is at the base path, and each later one has an earlier directory as its parent.
abbrev pub Parented : Bytes → List Shape → Bytes → Type 0
Parented base before p = ((before ≡ []) × (p ≡ base)) ⊎ DirIn (dir_of p) before

-- Every entry finds its parent, and a hardlink its target, among the entries before it, so that the
-- plan can be applied in order.
abbrev pub InOrder : Bytes → List Shape → List Shape → Type 0
InOrder base before [] = Unit
InOrder base before (e ∷ es) =
    (Parented base before e.path × Linked before e) × InOrder base (before ++ (e ∷ [])) es

-- Every configured name generator returns components of a path: not empty, not "." or "..", with no
-- slash and no NUL.
abbrev pub GivesNames : {R : Type 0} → Generator R → Type 0
GivesNames {R} g = (gen : NameGen R) (r : R) (n : ℤ) → Configured g gen → Plain (gen r n).0

-- An absolute path in its clean form.
abbrev IsClean : Shape → Type 0
IsClean e = (ws : List Bytes) × All Plain ws × (e.path ≡ render true ws)

DirIn-IsClean :
    (d : Bytes) (es : List Shape)
    → DirIn d es
    → All IsClean es
    → (ws : List Bytes) × All Plain ws × (d ≡ render true ws)
DirIn-IsClean d [] h c = elim h [ ]
DirIn-IsClean d (e ∷ es) (inl (same, _)) ((ws, h, k), c) = (ws, h, sym same ∙ k)
DirIn-IsClean d (e ∷ es) (inr h) (_, c) = DirIn-IsClean d es h c

module _ (base : Frame) (bs : List Bytes) (plain : All Plain bs)
    (at_base : base.base_path ≡ render true bs)
    (names : (name : Bytes) → base.is_name name → Plain name) where
  placed :
      (before : List Shape) (e : Shape)
      → All IsClean before
      → Anchored base before e.path
      → IsClean e × Parented base.base_path before e.path
  placed before e c (inl (first, same)) = ((bs, plain, same ∙ at_base), inl (first, same))
  placed before e c (inr (d, name, drawn, found, same)) =
      let (ws, h, k) = DirIn-IsClean d before found c in
      let p = names name drawn in
      let path : e.path ≡ render true (ws ++ (name ∷ [])) =
        same ∙ ap (λ x. join x name) k ∙ join-name ws name h p in
      (
        (ws ++ (name ∷ []), All-append Plain ws (name ∷ []) h (p, tt), path),
        inr (
            subst (λ x. DirIn x before) (k ∙ sym (ap dir_of path ∙ dir_of-name ws name h p)) found),
      )

  Ordered-InOrder :
      (before es : List Shape)
      → All IsClean before
      → Ordered base before es
      → InOrder base.base_path before es
  Ordered-InOrder before [] c h = tt
  Ordered-InOrder before (e ∷ es) c ((anchored, linked), h) =
      let (clean, parented) = placed before e c anchored in
      (
        (parented, linked),
        Ordered-InOrder (before ++ (e ∷ [])) es (All-append IsClean before (e ∷ []) c (clean, tt))
            h,
      )

-- For an accepted configuration with an absolute clean base path, name generators that return
-- components of a path, and a random source that keeps its bounds: the first entry of a plan is at
-- the base path, the parent path of each later one is that of an earlier directory entry, and the
-- target of a hardlink is the path of an earlier file or hardlink. This holds also when planning
-- ends with an error.
pub plan_run-InOrder :
    {R : Type 0} (random : Random R) (g : Generator R) (bs : List Bytes)
    → IsLawful random
    → validate_run_configuration g ≡ ok tt
    → GivesNames g
    → All Plain bs
    → g.base_path ≡ render true bs
    → (r : R) → InOrder g.base_path [] (shapes (plan_run random g r).1.entries)
plan_run-InOrder random g bs law accepted names plain at_base r =
    Ordered-InOrder
      (record { base_path = g.base_path; limit = g.plan_entry_limit; is_name = IsDrawn g }) bs plain
      at_base (λ name (gen, s, n, configured, same). subst Plain same (names gen s n configured)) []
      _ tt (plan_run_placed random law g accepted r)
