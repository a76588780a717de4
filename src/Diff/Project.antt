-- ===== src/Diff/Project.antt =====
-- diff/diff.go: two projections are equal exactly when the nodes are equal in all that the options ask
-- for.
use randfiletree.Prelude.{
  ℕ, Bool, true, false, List, [], ◌∷◌, Bytes, map, ◌==◌, ◌&&◌, ◌≡◌, ◌≢◌, refl, sym, ap, ◌∙◌, not,
  if◌then◌else◌, inl, inr, arith, Bool-cases,
}
use randfiletree.Prelude.Int.{ℤ, pos}
use randfiletree.Diff.{
  Node, Options, ProjectedNode, project_nodes, project_node, is_nanoseconds, is_device,
  timestamp_precision_nanoseconds, inode_type_regular, inode_type_char_device,
}
use randfiletree.Diff.Spec.{SameNode, SameNodes, IsDevice}

nanoseconds-true :
    (o : Options)
    → o.timestamp_precision ≡ timestamp_precision_nanoseconds
    → is_nanoseconds o ≡ true
unfolding is_nanoseconds
nanoseconds-true o h = ground arith

nanoseconds-false :
    (o : Options)
    → o.timestamp_precision ≢ timestamp_precision_nanoseconds
    → is_nanoseconds o ≡ false
unfolding is_nanoseconds
nanoseconds-false o h = ground arith

nanoseconds_asked :
    (o : Options)
    → is_nanoseconds o ≡ true
    → o.timestamp_precision ≡ timestamp_precision_nanoseconds
unfolding is_nanoseconds
nanoseconds_asked o h = ground arith

nanoseconds_not_asked :
    (o : Options)
    → is_nanoseconds o ≡ false
    → o.timestamp_precision ≢ timestamp_precision_nanoseconds
unfolding is_nanoseconds
nanoseconds_not_asked o h = λ e. absurd (ground arith)

device-true : (n : Node) → IsDevice n → is_device n ≡ true
device-true n (inl e) = ground arith
device-true n (inr e) = ground arith

is_device-IsDevice : (n : Node) → is_device n ≡ true → IsDevice n
is_device-IsDevice n h = elim (Bool-cases (n.inode_type == inode_type_char_device)) [
  | inl e ↦ inl (ground arith)
  | inr e ↦ inr (ground arith)
]

same_device : (a b : Node) → a.inode_type ≡ b.inode_type → is_device a ≡ is_device b
same_device a b e = rw e refl

project_node-SameNode :
    (o : Options) (a b : Node) → project_node o a ≡ project_node o b → SameNode o a b
unfolding project_node
project_node-SameNode o a b e =
    let type_same = ap (λ (n : ProjectedNode). n.inode_type) e in
    let other : IsDevice a → is_device b ≡ true =
      λ d. rw (sym (same_device a b type_same)) (device-true a d) in
    record {
      path = ap (λ (n : ProjectedNode). n.path) e;
      link_target = ap (λ (n : ProjectedNode). n.link_target) e;
      size = ap (λ (n : ProjectedNode). n.size) e;
      mode = ap (λ (n : ProjectedNode). n.mode) e;
      inode_type = type_same;
      mod_time = λ p. rw (nanoseconds-false o p) at (ap (λ (n : ProjectedNode). n.mod_time) e);
      mod_time_nsec = λ p. rw (nanoseconds-true o p) at (ap (λ (n : ProjectedNode). n.mod_time) e);
      atime = λ c p. rw (nanoseconds-false o p, c) at (ap (λ (n : ProjectedNode). n.atime) e);
      atime_nsec = λ c p. rw (nanoseconds-true o p, c) at (ap (λ (n : ProjectedNode). n.atime) e);
      hash = λ c. rw c at (ap (λ (n : ProjectedNode). n.hash) e);
      uid = λ c. rw c at (ap (λ (n : ProjectedNode). n.uid) e);
      gid = λ c. rw c at (ap (λ (n : ProjectedNode). n.gid) e);
      device_major =
          λ d. rw (device-true a d, other d) at (ap (λ (n : ProjectedNode). n.device_major) e);
      device_minor =
          λ d. rw (device-true a d, other d) at (ap (λ (n : ProjectedNode). n.device_minor) e);
      dev_id = λ c. rw c at (ap (λ (n : ProjectedNode). n.dev_id) e);
      sparse_parity =
          λ c r. ground (arith, c, r, type_same, ap (λ (n : ProjectedNode). n.sparse_parity) e);
    }

-- A projection from its fields.
fields_same :
    (n : ProjectedNode) (path : Bytes) (link_target : Bytes) (size : ℤ) (mode : ℕ) (inode_type : ℕ)
    (mod_time : ℤ) (atime : ℤ) (hash : Bytes) (uid : ℕ) (gid : ℕ) (device_major : ℕ)
    (device_minor : ℕ) (dev_id : ℕ) (sparse_parity : Bool)
    → path ≡ n.path
    → link_target ≡ n.link_target
    → size ≡ n.size
    → mode ≡ n.mode
    → inode_type ≡ n.inode_type
    → mod_time ≡ n.mod_time
    → atime ≡ n.atime
    → hash ≡ n.hash
    → uid ≡ n.uid
    → gid ≡ n.gid
    → device_major ≡ n.device_major
    → device_minor ≡ n.device_minor
    → dev_id ≡ n.dev_id
    → sparse_parity ≡ n.sparse_parity
    → ◌≡◌ {A = ProjectedNode}
        (record {
          path = path;
          link_target = link_target;
          size = size;
          mode = mode;
          inode_type = inode_type;
          mod_time = mod_time;
          atime = atime;
          hash = hash;
          uid = uid;
          gid = gid;
          device_major = device_major;
          device_minor = device_minor;
          dev_id = dev_id;
          sparse_parity = sparse_parity;
        })
        n
fields_same n path link_target size mode inode_type mod_time atime hash uid gid device_major
      device_minor dev_id sparse_parity h0 h1 h2 h3 h4 h5 h6 h7 h8 h9 h10 h11 h12 h13 =
    rw (h0, h1, h2, h3, h4, h5, h6, h7, h8, h9, h10, h11, h12, h13) refl

-- A field that is compared if it is asked for.
asked_same :
    {A : Type 0} (c : Bool) (x y z : A)
    → (c ≡ true → x ≡ y)
    → (if c then x else z) ≡ (if c then y else z)
asked_same true x y z h = h refl
asked_same false x y z h = refl

-- A time in the precision that is asked for.
time_same :
    (o : Options) (n m s t : ℤ)
    → (o.timestamp_precision ≡ timestamp_precision_nanoseconds → n ≡ m)
    → (o.timestamp_precision ≢ timestamp_precision_nanoseconds → s ≡ t)
    → (if is_nanoseconds o then n else s) ≡ (if is_nanoseconds o then m else t)
time_same o n m s t h k = elim (Bool-cases (is_nanoseconds o)) [
  | inl e ↦ rw e (h (nanoseconds_asked o e))
  | inr e ↦ rw e (k (nanoseconds_not_asked o e))
]

access_same :
    (c : Bool) (x y : ℤ)
    → (c ≡ true → x ≡ y)
    → (if not c then pos 0 else x) ≡ (if not c then pos 0 else y)
access_same true x y h = h refl
access_same false x y h = refl

device_same :
    (a b : Node) (x y : ℕ)
    → a.inode_type ≡ b.inode_type
    → (IsDevice a → x ≡ y)
    → (if is_device a then x else 0) ≡ (if is_device b then y else 0)
device_same a b x y e h = elim (Bool-cases (is_device a)) [
  | inl d ↦ rw (sym (same_device a b e), d) (h (is_device-IsDevice a d))
  | inr d ↦ rw (sym (same_device a b e), d) refl
]

parity_same :
    (o : Options) (a b : Node)
    → SameNode o a b
    → (if o.compare_sparseness && a.inode_type == inode_type_regular
        then a.sparse_parity
        else false)
      ≡ (if o.compare_sparseness && b.inode_type == inode_type_regular
          then b.sparse_parity
          else false)
parity_same o a b h = ground (arith, h.inode_type, h.sparse_parity)

SameNode-project_node :
    (o : Options) (a b : Node) → SameNode o a b → project_node o a ≡ project_node o b
unfolding project_node
SameNode-project_node o a b h =
    fields_same (project_node o b) _ _ _ _ _ _ _ _ _ _ _ _ _ _ h.path h.link_target h.size h.mode
      h.inode_type
      (time_same o a.mod_time_nsec b.mod_time_nsec a.mod_time b.mod_time h.mod_time_nsec h.mod_time)
      (access_same o.compare_access_time _ _
        (λ c. time_same o a.atime_nsec b.atime_nsec a.atime b.atime (h.atime_nsec c) (h.atime c)))
      (asked_same o.compare_content_hash a.hash b.hash [] h.hash)
      (asked_same o.compare_ownership a.uid b.uid 0 h.uid)
      (asked_same o.compare_ownership a.gid b.gid 0 h.gid)
      (device_same a b a.device_major b.device_major h.inode_type h.device_major)
      (device_same a b a.device_minor b.device_minor h.inode_type h.device_minor)
      (asked_same o.compare_device_ids a.dev_id b.dev_id 0 h.dev_id) (parity_same o a b h)

-- Equal projections mean that the nodes are equal in all that the options ask for.
pub project_nodes-SameNodes :
    (o : Options) (xs ys : List Node) → project_nodes xs o ≡ project_nodes ys o → SameNodes o xs ys
unfolding project_nodes
project_nodes-SameNodes o [] [] h = tt
project_nodes-SameNodes o [] (y ∷ ys) h = cc
project_nodes-SameNodes o (x ∷ xs) [] h = cc
project_nodes-SameNodes o (x ∷ xs) (y ∷ ys) h =
    (project_node-SameNode o x y (first h), project_nodes-SameNodes o xs ys (others h))
  where
    first : {a b : ProjectedNode} {xs ys : List ProjectedNode} → a ∷ xs ≡ b ∷ ys → a ≡ b
    first e = cc

    others : {a b : ProjectedNode} {xs ys : List ProjectedNode} → a ∷ xs ≡ b ∷ ys → xs ≡ ys
    others e = cc

-- And the other way round.
pub SameNodes-project_nodes :
    (o : Options) (xs ys : List Node) → SameNodes o xs ys → project_nodes xs o ≡ project_nodes ys o
unfolding project_nodes
SameNodes-project_nodes o [] [] h = refl
SameNodes-project_nodes o [] (y ∷ ys) h = absurd h
SameNodes-project_nodes o (x ∷ xs) [] h = absurd h
SameNodes-project_nodes o (x ∷ xs) (y ∷ ys) (p, h) =
    ap (λ n. n ∷ map (project_node o) xs) (SameNode-project_node o x y p)
    ∙ ap (λ ns. project_node o y ∷ ns) (SameNodes-project_nodes o xs ys h)
