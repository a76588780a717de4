-- ===== src/Mutation.antt =====
-- mutate.go: the virtual file system in which mutation operations are planned, and its indexes.
use randfiletree.Prelude.{
  ℕ, ◌+◌, ◌-◌, ◌%◌, ◌^◌, Bool, true, false, Option, none, some, List, [], ◌∷◌, ◌++◌, Bytes, codes,
  eqb, ltb, if◌then◌else◌, not, is_empty, sort_strings, has_prefix,
}
use randfiletree.Prelude.Dict.{lookup}
use randfiletree.Prelude.Int.{ℤ, pos, negsuc}
use randfiletree.GoPath.{slash, root, dot, dir_of}
pub mod Virtual
pub mod Draft
pub mod System
pub mod Scan
pub mod Generate
pub mod Apply
pub mod Execute
pub mod Parents
pub mod Loop
pub mod Resume
pub mod Tree
pub mod Places
pub mod Moved
pub mod Refine
pub mod Graft
pub mod Effects
pub mod Normal
pub mod Shape

pub data NodeType : Type 0 where
  file dir symlink : NodeType

-- `xattrs = none` is the nil map.
pub record MutationNode : Type 0 where
  pub type_id : NodeType
  pub size : ℤ
  pub xattrs : Option (List Bytes)

abbrev pub Nodes : Type 0
Nodes = List (Bytes × MutationNode)

unfoldable pub is_file : MutationNode → Bool
is_file n = elim (n.type_id) [ file ↦ true | dir ↦ false | symlink ↦ false ]

unfoldable pub is_dir : MutationNode → Bool
is_dir n = elim (n.type_id) [ file ↦ false | dir ↦ true | symlink ↦ false ]

unfoldable pub xattr_names : MutationNode → List Bytes
xattr_names n = elim (n.xattrs) [ none ↦ [] | some names ↦ names ]

unfoldable pub has_xattrs : MutationNode → Bool
unfolding xattr_names
has_xattrs n = not (is_empty (xattr_names n))

-- The paths of the nodes that pass a test.
unfoldable pub paths_where : (MutationNode → Bool) → Nodes → List Bytes
paths_where test [] = []
paths_where test ((path, node) ∷ nodes) =
    let rest = paths_where test nodes in if test node then path ∷ rest else rest

-- The sorted indexes that are kept until the nodes change.
pub record Indexes : Type 0 where
  pub all : List Bytes
  pub files : List Bytes
  pub dirs : List Bytes
  pub with_xattrs : List Bytes

-- `indexes = none` is `indexesValid == false`.
pub record MutationState : Type 0 where
  pub nodes : Nodes
  pub name_seq : ℕ
  pub indexes : Option Indexes

abbrev pub any_node : MutationNode → Bool
any_node n = true

unfoldable pub index_nodes : Nodes → Indexes
unfolding paths_where
index_nodes nodes = record {
  all = sort_strings (paths_where any_node nodes);
  files = sort_strings (paths_where is_file nodes);
  dirs = sort_strings (paths_where is_dir nodes);
  with_xattrs = sort_strings (paths_where has_xattrs nodes);
}

unfoldable pub invalidate_path_indexes : MutationState → MutationState
invalidate_path_indexes s = record s { indexes = none }

unfoldable pub rebuild_path_indexes : MutationState → Indexes × MutationState
rebuild_path_indexes s = elim (s.indexes) [
  | some ix ↦ (ix, s)
  | none ↦ (index_nodes s.nodes, record s { indexes = some (index_nodes s.nodes) })
]

unfoldable pub has_parent_directory : Bytes → Nodes → Bool
has_parent_directory path nodes =
    let parent = if eqb (dir_of path) dot then root else dir_of path in
    elim (lookup parent nodes) [ none ↦ false | some n ↦ is_dir n ]

unfoldable pub is_child_mutation_path : Bytes → Bytes → Bool
is_child_mutation_path path parent =
    if eqb parent root then not (eqb path root) else has_prefix path (parent ++ (slash ∷ []))

-- The 64-bit pattern of an `int64`, and back.
unfoldable pub to_word : ℤ → ℕ
to_word (pos n) = n % 2 ^ 64
to_word (negsuc n) = 2 ^ 64 - 1 - n % 2 ^ 64

unfoldable pub from_word : ℕ → ℤ
from_word w = if ltb w (2 ^ 63) then pos w else negsuc (2 ^ 64 - 1 - w)

-- `a + b` on `int64`.
unfoldable pub add_int64 : ℤ → ℤ → ℤ
unfolding to_word from_word
add_int64 a b = from_word ((to_word a + to_word b) % 2 ^ 64)
