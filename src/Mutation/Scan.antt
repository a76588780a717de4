-- ===== src/Mutation/Scan.antt =====
-- mutate.go and xattr_linux.go: the baseline scan, `scanMutationState`. The results of `os.Stat`, of
-- `filepath.Walk` and of `llistxattr` are parameters.
use randfiletree.Prelude.{
  ℕ, List, [], ◌∷◌, none, some, Bytes, Result, ok, err, ◌>>=◌, ◌>>◌, wrap, reject, eqb, ◌==◌,
  if◌then◌else◌, is_empty, not, sort_strings,
}
use randfiletree.Prelude.Dict.{insert}
use randfiletree.Prelude.Int.{ℤ, pos}
use randfiletree.GoPath.{rel, root, dot, slash}
use randfiletree.Mutation.{NodeType, file, dir, symlink, MutationNode, Nodes, MutationState}
use randfiletree.Mutation.System.{
  Errno, not_exist, permission, not_supported, invalid, other, FileInfo, regular, directory, link,
  special, is_directory,
}

-- What `filepath.Walk` passes to its function: a path with its info, or with an error.
pub record WalkStep : Type 0 where
  pub path : Bytes
  pub info : Result Errno FileInfo

-- What the scan reads. `llistxattr path 0` is the size probe.
pub record Baseline : Type 0 where
  pub stat : Bytes → Result Errno FileInfo
  pub walk : Bytes → List WalkStep
  pub llistxattr : Bytes → ℕ → Result Errno (ℕ × Bytes)

pub data ScanError : Type 0 where
  inspect_failed : Bytes → Errno → ScanError
  not_directory : Bytes → ScanError
  access_failed : Bytes → Errno → ScanError
  no_relative_path : Bytes → ScanError
  xattr_unsupported : Bytes → ScanError
  xattr_list_failed : Bytes → Errno → ScanError

unfoldable pub canonical_mutation_path : Bytes → Bytes → Result ScanError Bytes
canonical_mutation_path base path = elim (rel base path) [
  | none ↦ err (no_relative_path path)
  | some rel_path ↦ ok (if eqb rel_path dot then root else slash ∷ rel_path)
]

-- `strings.Split(text, "\x00")`, without the empty parts.
unfoldable pub cons_part : ℕ → List Bytes → List Bytes
cons_part c [] = (c ∷ []) ∷ []
cons_part c (w ∷ ws) = (c ∷ w) ∷ ws

unfoldable pub split_nul : Bytes → List Bytes
unfolding cons_part
split_nul [] = [] ∷ []
split_nul (c ∷ s) = let rest = split_nul s in if c == 0 then [] ∷ rest else cons_part c rest

unfoldable pub non_empty : List Bytes → List Bytes
non_empty [] = []
non_empty (w ∷ ws) = let rest = non_empty ws in if is_empty w then rest else w ∷ rest

unfoldable pub list_failed : Bytes → Errno → ScanError
list_failed path e = elim e [
  | not_exist ↦ xattr_list_failed path not_exist
  | permission ↦ xattr_list_failed path permission
  | not_supported ↦ xattr_unsupported path
  | invalid ↦ xattr_list_failed path invalid
  | other n ↦ xattr_list_failed path (other n)
]

abbrev pub root_node : MutationNode
root_node = record { type_id = dir; size = pos 0; xattrs = none }

module _ (baseline : Baseline) where
  unfoldable pub list_path_xattr_names : Bytes → Result ScanError (List Bytes)
  unfolding list_failed split_nul non_empty
  list_path_xattr_names path = do
    probe ← wrap (list_failed path) (baseline.llistxattr path 0)
    if (probe.0) == 0 then ok [] else do
      answer ← wrap (xattr_list_failed path) (baseline.llistxattr path probe.0)
      ok (if answer.0 == 0 then [] else sort_strings (non_empty (split_nul answer.1)))

  unfoldable pub scan_path_xattr_set : Bytes → Result ScanError (List Bytes)
  scan_path_xattr_set path = elim (list_path_xattr_names path) [
    | ok names ↦ ok names
    | err e ↦ elim e [
      | inspect_failed p n ↦ err (inspect_failed p n)
      | not_directory p ↦ err (not_directory p)
      | access_failed p n ↦ err (access_failed p n)
      | no_relative_path p ↦ err (no_relative_path p)
      | xattr_unsupported p ↦ ok []
      | xattr_list_failed p n ↦ err (xattr_list_failed p n)
    ]
  ]

  -- The node of a file that is neither special nor unknown.
  unfoldable pub scan_node : Bytes → Bytes → NodeType → ℤ → Nodes → Result ScanError Nodes
  scan_node path node_path type_id size nodes = do
    names ← scan_path_xattr_set path
    ok (insert node_path (record { type_id = type_id; size = size; xattrs = some names }) nodes)

  unfoldable pub scan_info : Bytes → Bytes → FileInfo → Nodes → Result ScanError Nodes
  scan_info path node_path info nodes = elim (info.kind) [
    | link ↦ scan_node path node_path symlink (pos 0) nodes
    | directory ↦ scan_node path node_path dir (pos 0) nodes
    | regular ↦ scan_node path node_path file info.size nodes
    | special ↦ ok nodes
  ]

  -- The function that is passed to `filepath.Walk`.
  unfoldable pub scan_visit : Bytes → WalkStep → Nodes → Result ScanError Nodes
  scan_visit base v nodes = do
    info ← wrap (access_failed v.path) v.info
    node_path ← canonical_mutation_path base v.path
    if eqb node_path root then ok nodes else scan_info v.path node_path info nodes

  unfoldable pub scan_visits : Bytes → List WalkStep → Nodes → Result ScanError Nodes
  scan_visits base [] nodes = ok nodes
  scan_visits base (v ∷ vs) nodes = do next ← scan_visit base v nodes; scan_visits base vs next

  unfoldable pub scan_mutation_state : Bytes → Result ScanError MutationState
  scan_mutation_state base = do
    info ← wrap (inspect_failed base) (baseline.stat base)
    reject (not (is_directory info)) (not_directory base)
    nodes ← scan_visits base (baseline.walk base) ((root, root_node) ∷ [])
    ok (record { nodes = nodes; name_seq = 1; indexes = none })
