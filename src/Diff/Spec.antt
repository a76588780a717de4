-- ===== src/Diff/Spec.antt =====
-- diff/diff.go, diff/options.go: what it means that two trees agree in all that the options ask for.
use randfiletree.Prelude.{true, Option, none, some, List, [], ◌∷◌, Bytes, ok, ◌≡◌, ◌≢◌, ◌⊎◌, All}
use randfiletree.Diff.{
  Node, CollectedPaths, Options, MetadataComparator, Cmp, timestamp_precision_nanoseconds,
  inode_type_regular, inode_type_char_device, inode_type_block_device,
}

-- `cmp.Diff` returns the empty text exactly for equal values.
abbrev pub ExactOn : {A : Type 0} → (A → A → Bytes) → Type 0
ExactOn {A} diff = ((x y : A) → diff x y ≡ [] → x ≡ y) × ((x : A) → diff x x ≡ [])

pub record IsExact (cmp : Cmp) : Type 0 where
  pub nodes : ExactOn cmp.diff_nodes
  pub groups : ExactOn cmp.diff_groups
  pub xattrs : ExactOn cmp.diff_xattrs
  pub acls : ExactOn cmp.diff_acls

-- The node has every metadata that the options ask for; only a regular file needs its blocks.
pub record IsComplete (o : Options) (n : Node) : Type 0 where
  pub ownership : o.compare_ownership ≡ true → n.has_ownership ≡ true
  pub access_time : o.compare_access_time ≡ true → n.has_access_time ≡ true
  pub sparseness :
      o.compare_sparseness ≡ true
      → n.inode_type ≡ inode_type_regular
      → n.has_allocated_blocks ≡ true
  pub dev_id : o.compare_device_ids ≡ true → n.has_dev_id ≡ true
  pub xattrs : o.compare_xattrs ≡ true → n.has_xattrs ≡ true
  pub acl : o.compare_acls ≡ true → n.has_acl ≡ true

-- The comparator of the caller, if there is one, finds no difference.
abbrev pub Accepts : Option MetadataComparator → Node → Node → Type 0
Accepts none a b = Unit
Accepts (some comparator) a b = comparator a.path a b ≡ ok tt

abbrev pub HooksAgree : Options → Node → Node → Type 0
HooksAgree o a b =
    (o.compare_xattrs ≡ true → (a.xattrs ≡ b.xattrs) × Accepts o.xattr_comparator a b)
    × (o.compare_acls ≡ true → (a.acl_entries ≡ b.acl_entries) × Accepts o.acl_comparator a b)

-- The relation holds between nodes of the same index.
abbrev pub Pairwise : (Node → Node → Type 0) → List Node → List Node → Type 0
Pairwise P [] bs = Unit
Pairwise P (a ∷ nodes) [] = Unit
Pairwise P (a ∷ nodes) (b ∷ bs) = P a b × Pairwise P nodes bs

-- What of a device node is compared.
abbrev pub IsDevice : Node → Type 0
IsDevice n = (n.inode_type ≡ inode_type_char_device) ⊎ (n.inode_type ≡ inode_type_block_device)

-- Two nodes are equal in all that the options ask for: times in the precision of the options, the
-- device numbers of devices only, and the sparseness of regular files only.
pub record SameNode (o : Options) (a b : Node) : Type 0 where
  pub path : a.path ≡ b.path
  pub link_target : a.link_target ≡ b.link_target
  pub size : a.size ≡ b.size
  pub mode : a.mode ≡ b.mode
  pub inode_type : a.inode_type ≡ b.inode_type
  pub mod_time : o.timestamp_precision ≢ timestamp_precision_nanoseconds → a.mod_time ≡ b.mod_time
  pub mod_time_nsec :
      o.timestamp_precision ≡ timestamp_precision_nanoseconds → a.mod_time_nsec ≡ b.mod_time_nsec
  pub atime :
      o.compare_access_time ≡ true
      → o.timestamp_precision ≢ timestamp_precision_nanoseconds
      → a.atime ≡ b.atime
  pub atime_nsec :
      o.compare_access_time ≡ true
      → o.timestamp_precision ≡ timestamp_precision_nanoseconds
      → a.atime_nsec ≡ b.atime_nsec
  pub hash : o.compare_content_hash ≡ true → a.hash ≡ b.hash
  pub uid : o.compare_ownership ≡ true → a.uid ≡ b.uid
  pub gid : o.compare_ownership ≡ true → a.gid ≡ b.gid
  pub device_major : IsDevice a → a.device_major ≡ b.device_major
  pub device_minor : IsDevice a → a.device_minor ≡ b.device_minor
  pub dev_id : o.compare_device_ids ≡ true → a.dev_id ≡ b.dev_id
  pub sparse_parity :
      o.compare_sparseness ≡ true
      → a.inode_type ≡ inode_type_regular
      → a.sparse_parity ≡ b.sparse_parity

-- Equally many nodes, those of the same index equal in all that the options ask for.
abbrev pub SameNodes : Options → List Node → List Node → Type 0
SameNodes o [] [] = Unit
SameNodes o [] (b ∷ bs) = ⊥
SameNodes o (a ∷ nodes) [] = ⊥
SameNodes o (a ∷ nodes) (b ∷ bs) = SameNode o a b × SameNodes o nodes bs

pub record Agree (o : Options) (a b : CollectedPaths) : Type 0 where
  pub complete_left : All (IsComplete o) a.nodes
  pub complete_right : All (IsComplete o) b.nodes
  pub same : SameNodes o a.nodes b.nodes
  pub topology : o.compare_hardlink_topology ≡ true → a.hardlink_groups ≡ b.hardlink_groups
  pub hooks : Pairwise (HooksAgree o) a.nodes b.nodes
