-- ===== src/Diff.antt =====
-- diff/diff.go, diff/node.go, diff/options.go: how two collected file trees are compared.
use randfiletree.Prelude.{
  ℕ, Bool, true, false, Option, none, some, List, [], ◌∷◌, Bytes, Result, ok, err, Check, ◌>>=◌,
  ◌>>◌, wrap, reject, ◌==◌, ◌||◌, ◌&&◌, not, is_empty, if◌then◌else◌, map,
}
use randfiletree.Prelude.Int.{ℤ, pos}
pub mod Spec
pub mod Chain
pub mod Present
pub mod Hooks
pub mod Project
pub mod Agree
pub mod NoPanic

abbrev pub inode_type_regular : ℕ
inode_type_regular = 1

abbrev pub inode_type_char_device : ℕ
inode_type_char_device = 6

abbrev pub inode_type_block_device : ℕ
inode_type_block_device = 7

pub record Node : Type 0 where
  pub path : Bytes
  pub link_target : Bytes
  pub size : ℤ
  pub mode : ℕ
  pub mod_time : ℤ
  pub atime : ℤ
  pub mod_time_nsec : ℤ
  pub atime_nsec : ℤ
  pub hash : Bytes
  pub uid : ℕ
  pub gid : ℕ
  pub has_ownership : Bool
  pub has_access_time : Bool
  pub inode_type : ℕ
  pub dev_id : ℕ
  pub has_dev_id : Bool
  pub allocated_blocks : ℤ
  pub has_allocated_blocks : Bool
  pub sparse_parity : Bool
  pub device_major : ℕ
  pub device_minor : ℕ
  pub has_device_numbers : Bool
  pub xattrs : List (Bytes × Bytes)
  pub has_xattrs : Bool
  pub acl_entries : List Bytes
  pub has_acl : Bool

pub record CollectedPaths : Type 0 where
  pub nodes : List Node
  pub hardlink_groups : List (List Bytes)

abbrev pub timestamp_precision_seconds : ℕ
timestamp_precision_seconds = 0

abbrev pub timestamp_precision_nanoseconds : ℕ
timestamp_precision_nanoseconds = 1

-- The error of a comparator that the caller supplies is its text.
abbrev pub MetadataComparator : Type 0
MetadataComparator = Bytes → Node → Node → Check Bytes

pub record Options : Type 0 where
  pub compare_content_hash : Bool
  pub timestamp_precision : ℕ
  pub compare_ownership : Bool
  pub compare_access_time : Bool
  pub compare_hardlink_topology : Bool
  pub compare_device_ids : Bool
  pub compare_sparseness : Bool
  pub compare_xattrs : Bool
  pub xattr_comparator : Option MetadataComparator
  pub compare_acls : Bool
  pub acl_comparator : Option MetadataComparator

abbrev pub default_options : Options
default_options = record {
  compare_content_hash = true;
  timestamp_precision = timestamp_precision_seconds;
  compare_ownership = false;
  compare_access_time = false;
  compare_hardlink_topology = true;
  compare_device_ids = false;
  compare_sparseness = false;
  compare_xattrs = false;
  xattr_comparator = none;
  compare_acls = false;
  acl_comparator = none;
}

abbrev pub strict_linux_options : Options
strict_linux_options = record default_options {
  timestamp_precision = timestamp_precision_nanoseconds;
  compare_ownership = true;
  compare_access_time = true;
}

pub data Side : Type 0 where
  left_tree right_tree : Side

-- `index_panic` is the panic of `nodesB[i]` out of range.
pub data DiffError : Type 0 where
  invalid_precision : ℕ → DiffError
  collect_failed : Bytes → DiffError
  no_ownership no_access_time no_sparseness no_device_id no_xattrs no_acl : Side → Bytes → DiffError
  mismatch : Bytes → DiffError
  topology_mismatch : Bytes → DiffError
  xattr_mismatch : Bytes → Bytes → DiffError
  acl_mismatch : Bytes → Bytes → DiffError
  index_panic : DiffError

unfoldable pub validate_options : Options → Check DiffError
validate_options o =
    reject
      (not (o.timestamp_precision == timestamp_precision_seconds)
        && not (o.timestamp_precision == timestamp_precision_nanoseconds))
      (invalid_precision o.timestamp_precision)

-- The loop of an `ensure…Metadata` function over the nodes of one side.
unfoldable pub ensure_nodes :
    (Node → Bool) → (Side → Bytes → DiffError) → Side → List Node → Check DiffError
ensure_nodes has failure side [] = ok tt
ensure_nodes has failure side (node ∷ nodes) = do
  reject (not (has node)) (failure side node.path)
  ensure_nodes has failure side nodes

-- An `ensure…Metadata` function.
unfoldable pub ensure_metadata :
    Bool → (Node → Bool) → (Side → Bytes → DiffError) → List Node → List Node → Check DiffError
ensure_metadata wanted has failure nodes_a nodes_b =
    if not wanted
    then ok tt
    else (ensure_nodes has failure left_tree nodes_a >> ensure_nodes has failure right_tree nodes_b)

abbrev pub has_ownership : Node → Bool
has_ownership node = node.has_ownership

abbrev pub has_access_time : Node → Bool
has_access_time node = node.has_access_time

-- Only a regular file needs its allocated blocks.
abbrev pub has_sparseness : Node → Bool
has_sparseness node = not (node.inode_type == inode_type_regular) || node.has_allocated_blocks

abbrev pub has_dev_id : Node → Bool
has_dev_id node = node.has_dev_id

abbrev pub has_xattrs : Node → Bool
has_xattrs node = node.has_xattrs

abbrev pub has_acl : Node → Bool
has_acl node = node.has_acl

unfoldable pub ensure_all : List Node → List Node → Options → Check DiffError
ensure_all a b o = do
  ensure_metadata o.compare_ownership has_ownership no_ownership a b
  ensure_metadata o.compare_access_time has_access_time no_access_time a b
  ensure_metadata o.compare_sparseness has_sparseness no_sparseness a b
  ensure_metadata o.compare_device_ids has_dev_id no_device_id a b
  ensure_metadata o.compare_xattrs has_xattrs no_xattrs a b
  ensure_metadata o.compare_acls has_acl no_acl a b

pub record ProjectedNode : Type 0 where
  pub path : Bytes
  pub link_target : Bytes
  pub size : ℤ
  pub mode : ℕ
  pub inode_type : ℕ
  pub mod_time : ℤ
  pub atime : ℤ
  pub hash : Bytes
  pub uid : ℕ
  pub gid : ℕ
  pub device_major : ℕ
  pub device_minor : ℕ
  pub dev_id : ℕ
  pub sparse_parity : Bool

unfoldable pub is_nanoseconds : Options → Bool
is_nanoseconds o = o.timestamp_precision == timestamp_precision_nanoseconds

abbrev pub is_device : Node → Bool
is_device node =
    node.inode_type == inode_type_char_device || node.inode_type == inode_type_block_device

-- The body of the loop of `projectNodes`: a field that is not compared is zero.
unfoldable pub project_node : Options → Node → ProjectedNode
project_node o node = record {
  path = node.path;
  link_target = node.link_target;
  size = node.size;
  mode = node.mode;
  inode_type = node.inode_type;
  mod_time = if is_nanoseconds o then node.mod_time_nsec else node.mod_time;
  atime =
      if not o.compare_access_time
      then pos 0
      else if is_nanoseconds o
      then node.atime_nsec
      else node.atime;
  hash = if o.compare_content_hash then node.hash else [];
  uid = if o.compare_ownership then node.uid else 0;
  gid = if o.compare_ownership then node.gid else 0;
  device_major = if is_device node then node.device_major else 0;
  device_minor = if is_device node then node.device_minor else 0;
  dev_id = if o.compare_device_ids then node.dev_id else 0;
  sparse_parity =
      if o.compare_sparseness && node.inode_type == inode_type_regular
      then node.sparse_parity
      else false;
}

unfoldable pub project_nodes : List Node → Options → List ProjectedNode
project_nodes nodes o = map (project_node o) nodes

-- `cmp.Diff` at the four types it is called at: the text of the difference of two values.
pub record Cmp : Type 0 where
  pub diff_nodes : List ProjectedNode → List ProjectedNode → Bytes
  pub diff_groups : List (List Bytes) → List (List Bytes) → Bytes
  pub diff_xattrs : List (Bytes × Bytes) → List (Bytes × Bytes) → Bytes
  pub diff_acls : List Bytes → List Bytes → Bytes

-- `if diff := cmp.Diff(a, b); diff != "" { return ... }`.
abbrev pub report : Bytes → (Bytes → DiffError) → Check DiffError
report [] f = ok tt
report (c ∷ text) f = err (f (c ∷ text))

unfoldable pub run_comparator :
    Option MetadataComparator → (Bytes → Bytes → DiffError) → Node → Node → Check DiffError
run_comparator none failure a b = ok tt
run_comparator (some comparator) failure a b = wrap (failure a.path) (comparator a.path a b)

-- One hook of `runMetadataHooks` on two nodes; `text` is the difference of the values.
unfoldable pub run_hook :
    Bool
    → Bytes
    → Option MetadataComparator
    → (Bytes → Bytes → DiffError)
    → Node
    → Node
    → Check DiffError
run_hook wanted text comparator failure a b =
    if not wanted
    then ok tt
    else (report text (failure a.path) >> run_comparator comparator failure a b)

module _ (cmp : Cmp) where
  -- The body of the loop of `runMetadataHooks`.
  unfoldable pub run_hooks_on : Options → Node → Node → Check DiffError
  run_hooks_on o a b = do
    run_hook o.compare_xattrs (cmp.diff_xattrs a.xattrs b.xattrs) o.xattr_comparator xattr_mismatch
        a b
    run_hook o.compare_acls (cmp.diff_acls a.acl_entries b.acl_entries) o.acl_comparator
        acl_mismatch a b

  -- The loop over the left nodes, with the right node of the same index.
  unfoldable pub run_hooks : Options → List Node → List Node → Check DiffError
  run_hooks o [] nodes_b = ok tt
  run_hooks o (a ∷ nodes_a) [] = err index_panic
  run_hooks o (a ∷ nodes_a) (b ∷ nodes_b) = do run_hooks_on o a b; run_hooks o nodes_a nodes_b

  unfoldable pub run_metadata_hooks : List Node → List Node → Options → Check DiffError
  run_metadata_hooks a b o =
      if not o.compare_xattrs && not o.compare_acls then ok tt else run_hooks o a b

  unfoldable pub compare_topology : CollectedPaths → CollectedPaths → Options → Check DiffError
  compare_topology a b o =
      if not o.compare_hardlink_topology
      then ok tt
      else report (cmp.diff_groups a.hardlink_groups b.hardlink_groups) topology_mismatch

  -- What `PathsWithOptions` does with the two collected trees.
  unfoldable pub compare_collected : Options → CollectedPaths → CollectedPaths → Check DiffError
  compare_collected o a b = do
    ensure_all a.nodes b.nodes o
    report (cmp.diff_nodes (project_nodes a.nodes o) (project_nodes b.nodes o)) mismatch
    compare_topology a b o
    run_metadata_hooks a.nodes b.nodes o

  -- `collect` reads a tree from the file system.
  unfoldable pub paths_with_options :
      (Bytes → Options → Result Bytes CollectedPaths) → Bytes → Bytes → Options → Check DiffError
  paths_with_options collect a b o = do
    validate_options o
    paths_a ← wrap collect_failed (collect a o)
    paths_b ← wrap collect_failed (collect b o)
    compare_collected o paths_a paths_b
