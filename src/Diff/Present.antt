-- ===== src/Diff/Present.antt =====
-- diff/diff.go: the checks that the metadata to compare is there.
use randfiletree.Prelude.{Bool, true, false, List, [], ◌∷◌, Bytes, ok, ◌≡◌, refl, All, arith}
use randfiletree.Diff.{
  Node, Options, Side, left_tree, right_tree, DiffError, ensure_nodes, ensure_metadata, ensure_all,
  has_ownership, has_access_time, has_sparseness, has_dev_id, has_xattrs, has_acl,
  inode_type_regular,
}
use randfiletree.Diff.Spec.{IsComplete}
use randfiletree.Diff.Chain.{seq-ok, seq-both}

module _ (has : Node → Bool) (failure : Side → Bytes → DiffError) where
  ensure_nodes-All :
      (side : Side) (nodes : List Node)
      → ensure_nodes has failure side nodes ≡ ok tt
      → All (λ n. has n ≡ true) nodes
  unfolding ensure_nodes
  ensure_nodes-All side [] h = tt
  ensure_nodes-All side (n ∷ nodes) h = (ground arith, ensure_nodes-All side nodes (ground arith))

  All-ensure_nodes :
      (side : Side) (nodes : List Node)
      → All (λ n. has n ≡ true) nodes
      → ensure_nodes has failure side nodes ≡ ok tt
  unfolding ensure_nodes
  All-ensure_nodes side [] h = refl
  All-ensure_nodes side (n ∷ nodes) (h, k) = rw h (All-ensure_nodes side nodes k)

  ensure_metadata-All :
      (wanted : Bool) (a b : List Node)
      → ensure_metadata wanted has failure a b ≡ ok tt
      → wanted ≡ true
      → All (λ n. has n ≡ true) a × All (λ n. has n ≡ true) b
  unfolding ensure_metadata
  ensure_metadata-All false a b h e = cc
  ensure_metadata-All true a b h e =
      let (l, r) = seq-ok _ _ h in (ensure_nodes-All left_tree a l, ensure_nodes-All right_tree b r)

  All-ensure_metadata :
      (wanted : Bool) (a b : List Node)
      → (wanted ≡ true → All (λ n. has n ≡ true) a × All (λ n. has n ≡ true) b)
      → ensure_metadata wanted has failure a b ≡ ok tt
  unfolding ensure_metadata
  All-ensure_metadata false a b h = refl
  All-ensure_metadata true a b h =
      seq-both _ _ (All-ensure_nodes left_tree a (h refl).0)
        (All-ensure_nodes right_tree b (h refl).1)

blocks_there :
    (n : Node)
    → has_sparseness n ≡ true
    → n.inode_type ≡ inode_type_regular
    → n.has_allocated_blocks ≡ true
blocks_there n h r = ground arith

sparseness_there :
    (n : Node)
    → (n.inode_type ≡ inode_type_regular → n.has_allocated_blocks ≡ true)
    → has_sparseness n ≡ true
sparseness_there n h = ground arith

gather :
    (o : Options) (nodes : List Node)
    → (o.compare_ownership ≡ true → All (λ n. has_ownership n ≡ true) nodes)
    → (o.compare_access_time ≡ true → All (λ n. has_access_time n ≡ true) nodes)
    → (o.compare_sparseness ≡ true → All (λ n. has_sparseness n ≡ true) nodes)
    → (o.compare_device_ids ≡ true → All (λ n. has_dev_id n ≡ true) nodes)
    → (o.compare_xattrs ≡ true → All (λ n. has_xattrs n ≡ true) nodes)
    → (o.compare_acls ≡ true → All (λ n. has_acl n ≡ true) nodes)
    → All (IsComplete o) nodes
gather o [] f g h k l m = tt
gather o (n ∷ nodes) f g h k l m = (
  record {
    ownership = λ e. (f e).0;
    access_time = λ e. (g e).0;
    sparseness = λ e r. blocks_there n (h e).0 r;
    dev_id = λ e. (k e).0;
    xattrs = λ e. (l e).0;
    acl = λ e. (m e).0;
  },
  gather o nodes (λ e. (f e).1) (λ e. (g e).1) (λ e. (h e).1) (λ e. (k e).1) (λ e. (l e).1)
      λ e. (m e).1,
)

weaken-All : {P Q : Node → Type 0} (xs : List Node) → ((n : Node) → P n → Q n) → All P xs → All Q xs
weaken-All [] f h = tt
weaken-All (x ∷ xs) f (p, h) = (f x p, weaken-All xs f h)

pub ensure_all_sound :
    (o : Options) (a b : List Node)
    → ensure_all a b o ≡ ok tt
    → All (IsComplete o) a × All (IsComplete o) b
unfolding ensure_all
ensure_all_sound o a b h =
    let (h1, k1) = seq-ok _ _ h in
    let (h2, k2) = seq-ok _ _ k1 in
    let (h3, k3) = seq-ok _ _ k2 in
    let (h4, k4) = seq-ok _ _ k3 in
    let (h5, h6) = seq-ok _ _ k4 in
    let f1 = ensure_metadata-All _ _ _ a b h1 in
    let f2 = ensure_metadata-All _ _ _ a b h2 in
    let f3 = ensure_metadata-All _ _ _ a b h3 in
    let f4 = ensure_metadata-All _ _ _ a b h4 in
    let f5 = ensure_metadata-All _ _ _ a b h5 in
    let f6 = ensure_metadata-All _ _ _ a b h6 in
    (
      gather o a (λ e. (f1 e).0) (λ e. (f2 e).0) (λ e. (f3 e).0) (λ e. (f4 e).0) (λ e. (f5 e).0)
          (λ e. (f6 e).0),
      gather o b (λ e. (f1 e).1) (λ e. (f2 e).1) (λ e. (f3 e).1) (λ e. (f4 e).1) (λ e. (f5 e).1)
          (λ e. (f6 e).1),
    )

pub ensure_all_complete :
    (o : Options) (a b : List Node)
    → All (IsComplete o) a
    → All (IsComplete o) b
    → ensure_all a b o ≡ ok tt
unfolding ensure_all
ensure_all_complete o a b ca cb =
    seq-both _ _
      (All-ensure_metadata _ _ _ a b
        λ e. (weaken-All a (λ n c. c.ownership e) ca, weaken-All b (λ n c. c.ownership e) cb))
      (seq-both _ _
        (All-ensure_metadata _ _ _ a b
          λ e. (weaken-All a (λ n c. c.access_time e) ca, weaken-All b (λ n c. c.access_time e) cb))
        (seq-both _ _
          (All-ensure_metadata _ _ _ a b λ e. (
            weaken-All a (λ n c. sparseness_there n (c.sparseness e)) ca,
            weaken-All b (λ n c. sparseness_there n (c.sparseness e)) cb,
          ))
          (seq-both _ _
            (All-ensure_metadata _ _ _ a b
              λ e. (weaken-All a (λ n c. c.dev_id e) ca, weaken-All b (λ n c. c.dev_id e) cb))
            (seq-both _ _
              (All-ensure_metadata _ _ _ a b
                λ e. (weaken-All a (λ n c. c.xattrs e) ca, weaken-All b (λ n c. c.xattrs e) cb))
              (All-ensure_metadata _ _ _ a b
                λ e. (weaken-All a (λ n c. c.acl e) ca, weaken-All b (λ n c. c.acl e) cb))))))
