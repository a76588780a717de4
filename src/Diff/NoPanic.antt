-- ===== src/Diff/NoPanic.antt =====
-- diff/diff.go: the comparison never reads past the end of the right tree.
use randfiletree.Prelude.{
  Bool, true, false, Option, none, some, List, [], ◌∷◌, Bytes, ok, err, Check, ◌>>◌, ◌&&◌, not,
  length, ◌≡◌, refl, ◌≢◌, inl, inr, arith, Bool-cases, Check-cases,
}
use randfiletree.Diff.{
  Node, CollectedPaths, Options, MetadataComparator, Side, left_tree, right_tree, DiffError,
  index_panic, topology_mismatch, mismatch, xattr_mismatch, acl_mismatch, Cmp, ensure_nodes,
  ensure_metadata, ensure_all, project_nodes, report, run_comparator, run_hook, run_hooks_on,
  run_hooks, run_metadata_hooks, compare_topology, compare_collected,
}
use randfiletree.Diff.Spec.{IsExact}
use randfiletree.Diff.Hooks.{report-equal}
use randfiletree.Diff.Agree.{project_nodes-length}

err-same : {e f : DiffError} → ◌≡◌ {A = Check DiffError} (err e) (err f) → e ≡ f
err-same h = cc

abbrev NoPanic : Check DiffError → Type 0
NoPanic r = r ≢ err index_panic

seq-NoPanic : (m k : Check DiffError) → NoPanic m → (m ≡ ok tt → NoPanic k) → NoPanic (m >> k)
seq-NoPanic (ok tt) k h g = g refl
seq-NoPanic (err e) k h g = h

report-NoPanic :
    (text : Bytes) (f : Bytes → DiffError)
    → ((t : Bytes) → f t ≢ index_panic)
    → NoPanic (report text f)
report-NoPanic [] f h = cc
report-NoPanic (c ∷ text) f h = λ e. h (c ∷ text) (err-same e)

run_comparator-NoPanic :
    (c : Option MetadataComparator) (failure : Bytes → Bytes → DiffError) (a b : Node)
    → ((p t : Bytes) → failure p t ≢ index_panic)
    → NoPanic (run_comparator c failure a b)
unfolding run_comparator
run_comparator-NoPanic none failure a b h = cc
run_comparator-NoPanic (some c) failure a b h = elim (Check-cases (c a.path a b)) [
  | inl e ↦ rw e (cc)
  | inr (x, e) ↦ rw e (λ k. h a.path x (err-same k))
]

run_hook-NoPanic :
    (wanted : Bool) (text : Bytes) (c : Option MetadataComparator)
    (failure : Bytes → Bytes → DiffError) (a b : Node)
    → ((p t : Bytes) → failure p t ≢ index_panic)
    → NoPanic (run_hook wanted text c failure a b)
unfolding run_hook
run_hook-NoPanic false text c failure a b h = cc
run_hook-NoPanic true text c failure a b h =
    seq-NoPanic _ _ (report-NoPanic text _ (h a.path)) λ _. run_comparator-NoPanic c failure a b h

ensure_nodes-NoPanic :
    (has : Node → Bool) (failure : Side → Bytes → DiffError) (side : Side) (nodes : List Node)
    → ((p : Bytes) → failure side p ≢ index_panic)
    → NoPanic (ensure_nodes has failure side nodes)
unfolding ensure_nodes
ensure_nodes-NoPanic has failure side [] h = cc
ensure_nodes-NoPanic has failure side (n ∷ nodes) h = elim (Bool-cases (has n)) [
  | inl e ↦ rw e (ensure_nodes-NoPanic has failure side nodes h)
  | inr e ↦ rw e (λ k. h n.path (err-same k))
]

ensure_metadata-NoPanic :
    (wanted : Bool) (has : Node → Bool) (failure : Side → Bytes → DiffError) (a b : List Node)
    → ((side : Side) (p : Bytes) → failure side p ≢ index_panic)
    → NoPanic (ensure_metadata wanted has failure a b)
unfolding ensure_metadata
ensure_metadata-NoPanic false has failure a b h = cc
ensure_metadata-NoPanic true has failure a b h =
    seq-NoPanic _ _ (ensure_nodes-NoPanic has failure left_tree a (h left_tree))
      λ _. ensure_nodes-NoPanic has failure right_tree b (h right_tree)

ensure_all-NoPanic : (a b : List Node) (o : Options) → NoPanic (ensure_all a b o)
unfolding ensure_all
ensure_all-NoPanic a b o = seq-NoPanic _ _ (ensure_metadata-NoPanic _ _ _ a b λ s p e. cc) λ _.
    seq-NoPanic _ _ (ensure_metadata-NoPanic _ _ _ a b λ s p e. cc) λ _.
      seq-NoPanic _ _ (ensure_metadata-NoPanic _ _ _ a b λ s p e. cc) λ _.
        seq-NoPanic _ _ (ensure_metadata-NoPanic _ _ _ a b λ s p e. cc) λ _.
          seq-NoPanic _ _ (ensure_metadata-NoPanic _ _ _ a b λ s p e. cc)
            λ _. ensure_metadata-NoPanic _ _ _ a b λ s p e. cc

module _ (cmp : Cmp) (exact : IsExact cmp) where
  run_hooks-NoPanic :
      (o : Options) (nodes_a nodes_b : List Node)
      → length nodes_a ≡ length nodes_b
      → NoPanic (run_hooks cmp o nodes_a nodes_b)
  unfolding run_hooks run_hooks_on
  run_hooks-NoPanic o [] bs h = cc
  run_hooks-NoPanic o (a ∷ nodes) [] h = absurd (omega arith)
  run_hooks-NoPanic o (a ∷ nodes) (b ∷ bs) h =
      seq-NoPanic _ _
        (seq-NoPanic _ _ (run_hook-NoPanic _ _ _ xattr_mismatch a b λ p t e. cc)
          λ _. run_hook-NoPanic _ _ _ acl_mismatch a b λ p t e. cc)
        λ _. run_hooks-NoPanic o nodes bs (omega arith)

  topology-NoPanic : (a b : CollectedPaths) (o : Options) → NoPanic (compare_topology cmp a b o)
  unfolding compare_topology
  topology-NoPanic a b o = elim (Bool-cases o.compare_hardlink_topology) [
    | inl e ↦ rw e (report-NoPanic _ topology_mismatch λ t e. cc)
    | inr e ↦ rw e (cc)
  ]

  metadata_hooks-NoPanic :
      (a b : List Node) (o : Options) → length a ≡ length b → NoPanic (run_metadata_hooks cmp a b o)
  unfolding run_metadata_hooks
  metadata_hooks-NoPanic a b o h = elim (Bool-cases (not o.compare_xattrs && not o.compare_acls)) [
    | inl e ↦ rw e (cc)
    | inr e ↦ rw e (run_hooks-NoPanic o a b h)
  ]

  -- With a `cmp.Diff` that is empty exactly for equal values: no comparison of two trees reads a right node that is not there, whatever the trees, the
  -- options and the comparators are.
  pub compare_collected-NoPanic :
      (o : Options) (a b : CollectedPaths) → compare_collected cmp o a b ≢ err index_panic
  unfolding compare_collected
  compare_collected-NoPanic o a b = seq-NoPanic _ _ (ensure_all-NoPanic a.nodes b.nodes o) λ _.
      seq-NoPanic _ _ (report-NoPanic _ mismatch λ t e. cc) λ h.
        seq-NoPanic _ _ (topology-NoPanic a b o) λ _. metadata_hooks-NoPanic a.nodes b.nodes o (
          project_nodes-length o a.nodes b.nodes (
            report-equal cmp.diff_nodes exact.nodes (project_nodes a.nodes o)
              (project_nodes b.nodes o) mismatch h))
