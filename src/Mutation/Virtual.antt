-- ===== src/Mutation/Virtual.antt =====
-- mutate.go: the effect of an operation on the virtual nodes, `applyVirtualOperation`.
use randfiletree.Prelude.{
  ℕ, none, some, [], ◌∷◌, ◌++◌, Bytes, Result, ok, err, Check, eqb, ◌==◌, ◌||◌, ◌&&◌, if◌then◌else◌,
  not, length, trim_prefix,
}
use randfiletree.Prelude.Dict.{lookup, insert, remove, is_key, member, add_member, remove_member}
use randfiletree.Prelude.Int.{ℤ, pos, ltb_ℤ}
use randfiletree.GoPath.{clean}
use randfiletree.Plan.Metadata.{validate_xattr_name, XattrNameError}
use randfiletree.Operation.{
  Operation, create_file, create_dir, create_symlink, create_hardlink, delete, rename, chmod, chown,
  truncate, append, overwrite_range, set_xattr, remove_xattr,
}
use randfiletree.Mutation.{
  NodeType, file, dir, symlink, MutationNode, Nodes, MutationState, is_file, is_dir, xattr_names,
  invalidate_path_indexes, has_parent_directory, is_child_mutation_path, add_int64,
}

-- The number is the kind of the operation that the message names.
pub data VirtualError : Type 0 where
  already_exists : ℕ → Bytes → VirtualError
  parent_missing : ℕ → Bytes → VirtualError
  does_not_exist : ℕ → Bytes → VirtualError
  not_regular : ℕ → Bytes → VirtualError
  inside_source : Bytes → Bytes → VirtualError
  bad_name : ℕ → Bytes → XattrNameError → VirtualError
  xattr_missing : Bytes → Bytes → VirtualError
  unsupported : ℕ → VirtualError

abbrev pub Change : Type 0
Change = Result VirtualError Nodes

-- The checks on a new path, and the node that it gets.
unfoldable pub add_node : ℕ → Bytes → MutationNode → Nodes → Change
add_node kind path node nodes =
    if is_key path nodes
    then err (already_exists kind path)
    else if not (has_parent_directory path nodes)
    then err (parent_missing kind path)
    else ok (insert path node nodes)

unfoldable pub link_node : Operation → Nodes → Change
link_node op nodes = elim (lookup op.source_path nodes) [
  | none ↦ err (does_not_exist op.kind op.source_path)
  | some source ↦
      if not (is_file source)
      then err (not_regular op.kind op.source_path)
      else add_node op.kind op.path
          (record { type_id = file; size = source.size; xattrs = some (xattr_names source) }) nodes
]

-- The nodes without a directory and all below it.
unfoldable pub remove_subtree : Bytes → Nodes → Nodes
remove_subtree path [] = []
remove_subtree path ((p, n) ∷ nodes) =
    let rest = remove_subtree path nodes in
    if eqb p path || is_child_mutation_path p path then rest else (p, n) ∷ rest

unfoldable pub delete_node : Operation → Nodes → Change
delete_node op nodes = elim (lookup op.path nodes) [
  | none ↦ err (does_not_exist op.kind op.path)
  | some node ↦ ok (if is_dir node then remove_subtree op.path nodes else remove op.path nodes)
]

-- The map `updates`: the nodes of a subtree at their new paths.
unfoldable pub moved : Bytes → Bytes → Nodes → Nodes
moved source destination [] = []
moved source destination ((p, n) ∷ nodes) =
    let rest = moved source destination nodes in
    if not (eqb p source) && not (is_child_mutation_path p source)
    then rest
    else insert (clean (destination ++ trim_prefix p source)) n rest

-- `for path, node := range updates`: the order of a map's iteration is not specified.
unfoldable pub insert_all : Nodes → Nodes → Nodes
insert_all [] nodes = nodes
insert_all ((p, n) ∷ updates) nodes = insert p n (insert_all updates nodes)

unfoldable pub rename_node : Operation → Nodes → Change
rename_node op nodes = elim (lookup op.path nodes) [
  | none ↦ err (does_not_exist op.kind op.path)
  | some node ↦
      if is_key op.destination nodes
      then err (already_exists op.kind op.destination)
      else if not (has_parent_directory op.destination nodes)
      then err (parent_missing op.kind op.destination)
      else if is_dir node && is_child_mutation_path op.destination op.path
      then err (inside_source op.destination op.path)
      else if not (is_dir node)
      then ok (insert op.destination node (remove op.path nodes))
      else ok (insert_all (moved op.path op.destination nodes) (remove_subtree op.path nodes))
]

unfoldable pub require_node : Operation → Nodes → Change
require_node op nodes =
    if is_key op.path nodes then ok nodes else err (does_not_exist op.kind op.path)

-- A regular file gets the size that is computed of it.
unfoldable pub resize_node : (MutationNode → ℤ) → Operation → Nodes → Change
resize_node new_size op nodes = elim (lookup op.path nodes) [
  | none ↦ err (does_not_exist op.kind op.path)
  | some node ↦
      if not (is_file node)
      then err (not_regular op.kind op.path)
      else ok (insert op.path (record node { size = new_size node }) nodes)
]

-- `if end > node.size { node.size = end }`.
unfoldable pub size_after_overwrite : Operation → MutationNode → ℤ
size_after_overwrite op node =
    let end = add_int64 op.offset (pos (length op.content)) in
    if ltb_ℤ node.size end then end else node.size

unfoldable pub change_xattr : Operation → Nodes → Change
change_xattr op nodes = elim (lookup op.path nodes) [
  | none ↦ err (does_not_exist op.kind op.path)
  | some node ↦ elim (validate_xattr_name op.xattr_name) [
    | err e ↦ err (bad_name op.kind op.xattr_name e)
    | ok _ ↦
        if op.kind == set_xattr
        then ok (
            insert op.path
              (record node { xattrs = some (add_member op.xattr_name (xattr_names node)) }) nodes)
        else if not (member op.xattr_name (xattr_names node))
        then err (xattr_missing op.xattr_name op.path)
        else ok (
            insert op.path
              (record node { xattrs = some (remove_member op.xattr_name (xattr_names node)) })
              nodes)
  ]
]

abbrev pub new_node : NodeType → ℤ → MutationNode
new_node type_id size = record { type_id = type_id; size = size; xattrs = some [] }

unfoldable pub change_nodes : Operation → Nodes → Change
change_nodes op nodes =
    if op.kind == create_file
    then add_node op.kind op.path (new_node file (pos (length op.content))) nodes
    else if op.kind == create_dir
    then add_node op.kind op.path (new_node dir (pos 0)) nodes
    else if op.kind == create_symlink
    then add_node op.kind op.path (new_node symlink (pos 0)) nodes
    else if op.kind == create_hardlink
    then link_node op nodes
    else if op.kind == delete
    then delete_node op nodes
    else if op.kind == rename
    then rename_node op nodes
    else if op.kind == chmod
    then require_node op nodes
    else if op.kind == chown
    then require_node op nodes
    else if op.kind == truncate
    then resize_node (λ _. op.size) op nodes
    else if op.kind == append
    then resize_node (λ n. add_int64 n.size (pos (length op.content))) op nodes
    else if op.kind == overwrite_range
    then resize_node (size_after_overwrite op) op nodes
    else if op.kind == set_xattr
    then change_xattr op nodes
    else if op.kind == remove_xattr
    then change_xattr op nodes
    else err (unsupported op.kind)

-- The indexes go, also where an error is returned.
unfoldable pub apply_virtual_operation :
    Operation → MutationState → Check VirtualError × MutationState
apply_virtual_operation op s =
    let dropped = invalidate_path_indexes s in
    elim (change_nodes op s.nodes) [
      | err e ↦ (err e, dropped)
      | ok nodes ↦ (ok tt, record dropped { nodes = nodes })
    ]
