-- ===== src/Diff/Agree.antt =====
-- diff/diff.go: the comparison succeeds exactly when the trees agree in all that the options ask
-- for.
use randfiletree.Prelude.{
  Result, Result-cases, Bytes, suc, true, List, [], ◌∷◌, ok, map, length, ◌≡◌, refl, ap, inl, inr,
  ◌⊎◌, ◌==◌, arith, Bool-cases,
}
use randfiletree.Diff.{
  timestamp_precision_seconds, timestamp_precision_nanoseconds, validate_options,
  paths_with_options, Node, CollectedPaths, Options, topology_mismatch, Cmp, project_nodes,
  project_node, compare_topology, compare_collected,
}
use randfiletree.Diff.Spec.{IsExact, Agree}
use randfiletree.Diff.Project.{project_nodes-SameNodes, SameNodes-project_nodes}
use randfiletree.Diff.Chain.{seq-ok, seq-both}
use randfiletree.Diff.Present.{ensure_all_sound, ensure_all_complete}
use randfiletree.Diff.Hooks.{
  report-equal, report-same, metadata_hooks_sound, metadata_hooks_complete,
}

length-map : {A B : Type 0} (f : A → B) (xs : List A) → length (map f xs) ≡ length xs
length-map f [] = refl
length-map f (x ∷ xs) = ap suc (length-map f xs)

-- Trees with equal projections have equally many nodes.
pub project_nodes-length :
    (o : Options) (xs ys : List Node)
    → project_nodes xs o ≡ project_nodes ys o
    → length xs ≡ length ys
unfolding project_nodes
project_nodes-length o xs ys h =
    let e = ap length h in
    omega (arith, e, length-map (project_node o) xs, length-map (project_node o) ys)

precision_sound :
    (o : Options)
    → validate_options o ≡ ok tt
    → (o.timestamp_precision ≡ timestamp_precision_seconds)
      ⊎ (o.timestamp_precision ≡ timestamp_precision_nanoseconds)
unfolding validate_options
precision_sound o h = elim (Bool-cases (o.timestamp_precision == timestamp_precision_seconds)) [
  | inl e ↦ inl (ground arith)
  | inr e ↦ inr (ground arith)
]

module _ (cmp : Cmp) (exact : IsExact cmp) where
  topology_sound :
      (o : Options) (a b : CollectedPaths)
      → compare_topology cmp a b o ≡ ok tt
      → o.compare_hardlink_topology ≡ true
      → a.hardlink_groups ≡ b.hardlink_groups
  unfolding compare_topology
  topology_sound o a b h e =
      report-equal cmp.diff_groups exact.groups _ _ topology_mismatch (rw e at h)

  topology_complete :
      (o : Options) (a b : CollectedPaths)
      → (o.compare_hardlink_topology ≡ true → a.hardlink_groups ≡ b.hardlink_groups)
      → compare_topology cmp a b o ≡ ok tt
  unfolding compare_topology
  topology_complete o a b h = elim (Bool-cases o.compare_hardlink_topology) [
    | inl e ↦ rw e (report-same cmp.diff_groups exact.groups _ _ topology_mismatch (h e))
    | inr e ↦ rw e refl
  ]

  -- With a `cmp.Diff` that is empty exactly for equal values: where the comparison of two trees
  -- succeeds, they agree: their nodes have the metadata that
  -- the options ask for and are as many, equal one by one in each field that the options ask for, the
  -- hardlink groups are equal, if asked for, and so are the extended attributes and ACLs, if asked
  -- for, which the comparators accept too.
  pub compare_collected-Agree :
      (o : Options) (a b : CollectedPaths) → compare_collected cmp o a b ≡ ok tt → Agree o a b
  unfolding compare_collected
  compare_collected-Agree o a b h =
      let (h1, k1) = seq-ok _ _ h in
      let (h2, k2) = seq-ok _ _ k1 in
      let (h3, h4) = seq-ok _ _ k2 in
      let (l, r) = ensure_all_sound o a.nodes b.nodes h1 in
      record {
        complete_left = l;
        complete_right = r;
        same =
            project_nodes-SameNodes o a.nodes b.nodes
              (report-equal cmp.diff_nodes exact.nodes _ _ _ h2);
        topology = topology_sound o a b h3;
        hooks = metadata_hooks_sound cmp exact o a.nodes b.nodes h4;
      }

  -- With a `cmp.Diff` that is empty exactly for equal values: trees that agree in all that the options ask for compare without an error.
  pub Agree-compare_collected :
      (o : Options) (a b : CollectedPaths) → Agree o a b → compare_collected cmp o a b ≡ ok tt
  unfolding compare_collected
  Agree-compare_collected o a b g =
      let projected = SameNodes-project_nodes o a.nodes b.nodes g.same in
      seq-both _ _ (ensure_all_complete o a.nodes b.nodes g.complete_left g.complete_right) (
        seq-both _ _ (report-same cmp.diff_nodes exact.nodes _ _ _ projected) (
          seq-both _ _ (topology_complete o a b g.topology) (
            metadata_hooks_complete cmp exact o a.nodes b.nodes
              (project_nodes-length o a.nodes b.nodes projected) g.hooks)))

  -- With a `cmp.Diff` that is empty exactly for equal values: where comparing two paths succeeds,
  -- the precision of the options is that of seconds or of nanoseconds, both trees were collected, and they agree.
  pub paths_with_options-Agree :
      (collect : Bytes → Options → Result Bytes CollectedPaths) (p q : Bytes) (o : Options)
      → paths_with_options cmp collect p q o ≡ ok tt
      → ((o.timestamp_precision ≡ timestamp_precision_seconds)
          ⊎ (o.timestamp_precision ≡ timestamp_precision_nanoseconds))
        × ((a : CollectedPaths) × ((b : CollectedPaths) × ((collect p o ≡ ok a)
                × ((collect q o ≡ ok b) × Agree o a b))))
  unfolding paths_with_options
  paths_with_options-Agree collect p q o h =
      let (v, k) = seq-ok (validate_options o) _ h in
      elim (Result-cases (collect p o)) [
        | inr (x, e) ↦ absurd (ground (arith, e, k))
        | inl (a, e) ↦ elim (Result-cases (collect q o)) [
          | inr (x, f) ↦ absurd (ground (arith, e, f, k))
          | inl (b, f) ↦ (
            precision_sound o v,
            (a, (b, (e, (f, compare_collected-Agree o a b (rw (e, f) at k))))),
          )
        ]
      ]
