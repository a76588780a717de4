-- ===== src/Diff/Hooks.antt =====
-- diff/diff.go: the comparison of extended attributes and ACLs.
use randfiletree.Prelude.{
  Bool, true, false, Option, none, some, List, [], ◌∷◌, Bytes, ok, ◌&&◌, not, length, ◌≡◌, refl,
  sym, inl, inr, arith, Bool-cases, Check-cases,
}
use randfiletree.Diff.{
  Node, Options, MetadataComparator, DiffError, xattr_mismatch, acl_mismatch, Cmp, report,
  run_comparator, run_hook, run_hooks_on, run_hooks, run_metadata_hooks,
}
use randfiletree.Diff.Spec.{IsExact, ExactOn, Accepts, HooksAgree, Pairwise}
use randfiletree.Diff.Chain.{seq-ok, seq-both}

report-nil : (text : Bytes) (f : Bytes → DiffError) → report text f ≡ ok tt → text ≡ []
report-nil [] f h = refl
report-nil (c ∷ text) f h = cc

run_comparator-Accepts :
    (c : Option MetadataComparator) (failure : Bytes → Bytes → DiffError) (a b : Node)
    → run_comparator c failure a b ≡ ok tt
    → Accepts c a b
unfolding run_comparator
run_comparator-Accepts none failure a b h = tt
run_comparator-Accepts (some c) failure a b h = elim (Check-cases (c a.path a b)) [
  | inl e ↦ e
  | inr (x, e) ↦ absurd (ground arith)
]

Accepts-run_comparator :
    (c : Option MetadataComparator) (failure : Bytes → Bytes → DiffError) (a b : Node)
    → Accepts c a b
    → run_comparator c failure a b ≡ ok tt
unfolding run_comparator
Accepts-run_comparator none failure a b h = refl
Accepts-run_comparator (some c) failure a b h = rw h refl

run_hook_sound :
    (wanted : Bool) (text : Bytes) (c : Option MetadataComparator)
    (failure : Bytes → Bytes → DiffError) (a b : Node)
    → run_hook wanted text c failure a b ≡ ok tt
    → wanted ≡ true
    → (text ≡ []) × Accepts c a b
unfolding run_hook
run_hook_sound false text c failure a b h e = cc
run_hook_sound true text c failure a b h e =
    let (d, k) = seq-ok _ _ h in (report-nil text _ d, run_comparator-Accepts c failure a b k)

run_hook_complete :
    (wanted : Bool) (text : Bytes) (c : Option MetadataComparator)
    (failure : Bytes → Bytes → DiffError) (a b : Node)
    → (wanted ≡ true → (text ≡ []) × Accepts c a b)
    → run_hook wanted text c failure a b ≡ ok tt
unfolding run_hook
run_hook_complete false text c failure a b h = refl
run_hook_complete true text c failure a b h =
    let (d, k) = h refl in seq-both _ _ (rw d refl) (Accepts-run_comparator c failure a b k)

module _ {A : Type 0} (diff : A → A → Bytes) (exact : ExactOn diff) where
  pub report-equal : (x y : A) (f : Bytes → DiffError) → report (diff x y) f ≡ ok tt → x ≡ y
  report-equal x y f h = exact.0 x y (report-nil _ f h)

  diff-same : {x y : A} → x ≡ y → diff x y ≡ []
  diff-same {x = x} h = rw (sym h, exact.1 x) refl

  pub report-same : (x y : A) (f : Bytes → DiffError) → x ≡ y → report (diff x y) f ≡ ok tt
  report-same x y f h = rw (diff-same h) refl

module _ (cmp : Cmp) (exact : IsExact cmp) where
  hooks_on_sound : (o : Options) (a b : Node) → run_hooks_on cmp o a b ≡ ok tt → HooksAgree o a b
  unfolding run_hooks_on
  hooks_on_sound o a b h =
      let (x, l) = seq-ok _ _ h in
      (
        λ e. let (d, c) = run_hook_sound _ _ _ xattr_mismatch a b x e in (exact.xattrs.0 _ _ d, c),
        λ e. let (d, c) = run_hook_sound _ _ _ acl_mismatch a b l e in (exact.acls.0 _ _ d, c),
      )

  hooks_on_complete : (o : Options) (a b : Node) → HooksAgree o a b → run_hooks_on cmp o a b ≡ ok tt
  unfolding run_hooks_on
  hooks_on_complete o a b (x, l) =
      seq-both _ _
        (run_hook_complete _ _ _ _ a b
          λ e. (diff-same cmp.diff_xattrs exact.xattrs (x e).0, (x e).1))
        (run_hook_complete _ _ _ _ a b λ e. (diff-same cmp.diff_acls exact.acls (l e).0, (l e).1))

  hooks_sound :
      (o : Options) (nodes_a nodes_b : List Node)
      → run_hooks cmp o nodes_a nodes_b ≡ ok tt
      → Pairwise (HooksAgree o) nodes_a nodes_b
  unfolding run_hooks
  hooks_sound o [] bs h = tt
  hooks_sound o (a ∷ nodes) [] h = tt
  hooks_sound o (a ∷ nodes) (b ∷ bs) h =
      let (x, y) = seq-ok _ _ h in (hooks_on_sound o a b x, hooks_sound o nodes bs y)

  hooks_complete :
      (o : Options) (nodes_a nodes_b : List Node)
      → length nodes_a ≡ length nodes_b
      → Pairwise (HooksAgree o) nodes_a nodes_b
      → run_hooks cmp o nodes_a nodes_b ≡ ok tt
  unfolding run_hooks
  hooks_complete o [] bs e h = refl
  hooks_complete o (a ∷ nodes) [] e h = absurd (omega arith)
  hooks_complete o (a ∷ nodes) (b ∷ bs) e (x, y) =
      seq-both _ _ (hooks_on_complete o a b x) (hooks_complete o nodes bs (omega arith) y)

  -- Nothing is asked of the hooks.
  hooks-idle :
      (o : Options) (nodes_a nodes_b : List Node)
      → o.compare_xattrs ≡ false
      → o.compare_acls ≡ false
      → Pairwise (HooksAgree o) nodes_a nodes_b
  hooks-idle o [] bs e f = tt
  hooks-idle o (a ∷ nodes) [] e f = tt
  hooks-idle o (a ∷ nodes) (b ∷ bs) e f = ((λ x. cc, λ x. cc), hooks-idle o nodes bs e f)

  pub metadata_hooks_sound :
      (o : Options) (nodes_a nodes_b : List Node)
      → run_metadata_hooks cmp nodes_a nodes_b o ≡ ok tt
      → Pairwise (HooksAgree o) nodes_a nodes_b
  unfolding run_metadata_hooks
  metadata_hooks_sound o a b h = elim (Bool-cases (not o.compare_xattrs && not o.compare_acls)) [
    | inl e ↦ hooks-idle o a b (ground arith) (ground arith)
    | inr e ↦ hooks_sound o a b (rw e at h)
  ]

  pub metadata_hooks_complete :
      (o : Options) (nodes_a nodes_b : List Node)
      → length nodes_a ≡ length nodes_b
      → Pairwise (HooksAgree o) nodes_a nodes_b
      → run_metadata_hooks cmp nodes_a nodes_b o ≡ ok tt
  unfolding run_metadata_hooks
  metadata_hooks_complete o a b e h =
      elim (Bool-cases (not o.compare_xattrs && not o.compare_acls)) [
        | inl k ↦ rw k refl
        | inr k ↦ rw k (hooks_complete o a b e h)
      ]
