-- ===== src/Mutation/Tree.antt =====
-- mutate.go: the virtual file system as a tree, a function from component lists to nodes, and what
-- each operation does to it.
use randfiletree.Prelude.{
  ℕ, Bool, true, false, Option, none, some, List, [], ◌∷◌, ◌++◌, Bytes, Result, ok, err, eqb, ◌==◌,
  ◌&&◌, if◌then◌else◌, not, length,
}
use randfiletree.Prelude.Dict.{member, add_member, remove_member}
use randfiletree.Prelude.Int.{ℤ, pos}
use randfiletree.GoPath.{components}
use randfiletree.GoPath.Below.{strip, is_some}
use randfiletree.Plan.Metadata.{validate_xattr_name}
use randfiletree.Operation.{
  Operation, create_file, create_dir, create_symlink, create_hardlink, delete, rename, chmod, chown,
  truncate, append, overwrite_range, set_xattr, remove_xattr,
}
use randfiletree.Mutation.{
  file, dir, symlink, MutationNode, is_file, is_dir, xattr_names, add_int64,
}
use randfiletree.Mutation.Virtual.{
  VirtualError, already_exists, parent_missing, does_not_exist, not_regular, inside_source,
  bad_name, xattr_missing, unsupported, new_node, size_after_overwrite,
}

abbrev pub Tree : Type 0
Tree = List Bytes → Option MutationNode

abbrev pub Effect : Type 0
Effect = Result VirtualError Tree

abbrev pub same_path : List Bytes → List Bytes → Bool
same_path [] [] = true
same_path [] (w ∷ ws) = false
same_path (u ∷ us) [] = false
same_path (u ∷ us) (w ∷ ws) = eqb u w && same_path us ws

-- The path without its last component.
abbrev pub parent_of : List Bytes → List Bytes
parent_of [] = []
parent_of (w ∷ []) = []
parent_of (w ∷ v ∷ ws) = w ∷ parent_of (v ∷ ws)

abbrev pub dir_at : Tree → List Bytes → Bool
dir_at t ps = elim (t ps) [ none ↦ false | some n ↦ is_dir n ]

abbrev pub update : List Bytes → MutationNode → Tree → Tree
update ps node t us = if same_path ps us then some node else t us

-- A path and all below it are gone.
abbrev pub cut : List Bytes → Tree → Tree
cut ps t us = if is_some (strip ps us) then none else t us

-- A path and all below it stand at another path.
abbrev pub graft : List Bytes → List Bytes → Tree → Tree
graft source destination t us = elim (strip destination us) [
  | some vs ↦ t (source ++ vs)
  | none ↦ cut source t us
]

abbrev pub add_effect : ℕ → Bytes → MutationNode → Tree → Effect
add_effect kind path node t =
    if is_some (t (components path))
    then err (already_exists kind path)
    else if not (dir_at t (parent_of (components path)))
    then err (parent_missing kind path)
    else ok (update (components path) node t)

abbrev pub link_effect : Operation → Tree → Effect
link_effect op t = elim (t (components op.source_path)) [
  | none ↦ err (does_not_exist op.kind op.source_path)
  | some source ↦
      if not (is_file source)
      then err (not_regular op.kind op.source_path)
      else add_effect op.kind op.path
          (record { type_id = file; size = source.size; xattrs = some (xattr_names source) }) t
]

abbrev pub delete_effect : Operation → Tree → Effect
delete_effect op t =
    if is_some (t (components op.path))
    then ok (cut (components op.path) t)
    else err (does_not_exist op.kind op.path)

abbrev pub rename_effect : Operation → Tree → Effect
rename_effect op t =
    if not (is_some (t (components op.path)))
    then err (does_not_exist op.kind op.path)
    else if is_some (t (components op.destination))
    then err (already_exists op.kind op.destination)
    else if not (dir_at t (parent_of (components op.destination)))
    then err (parent_missing op.kind op.destination)
    else if dir_at t (components op.path)
        && is_some (strip (components op.path) (components op.destination))
    then err (inside_source op.destination op.path)
    else ok (graft (components op.path) (components op.destination) t)

abbrev pub require_effect : Operation → Tree → Effect
require_effect op t =
    if is_some (t (components op.path)) then ok t else err (does_not_exist op.kind op.path)

abbrev pub resize_effect : (MutationNode → ℤ) → Operation → Tree → Effect
resize_effect new_size op t = elim (t (components op.path)) [
  | none ↦ err (does_not_exist op.kind op.path)
  | some node ↦
      if not (is_file node)
      then err (not_regular op.kind op.path)
      else ok (update (components op.path) (record node { size = new_size node }) t)
]

abbrev pub with_names : List Bytes → MutationNode → MutationNode
with_names names node = record node { xattrs = some names }

abbrev pub xattr_effect : Operation → Tree → Effect
xattr_effect op t = elim (t (components op.path)) [
  | none ↦ err (does_not_exist op.kind op.path)
  | some node ↦ elim (validate_xattr_name op.xattr_name) [
    | err e ↦ err (bad_name op.kind op.xattr_name e)
    | ok _ ↦
        if op.kind == set_xattr
        then ok (
            update (components op.path)
              (with_names (add_member op.xattr_name (xattr_names node)) node) t)
        else if not (member op.xattr_name (xattr_names node))
        then err (xattr_missing op.xattr_name op.path)
        else ok (
            update (components op.path)
              (with_names (remove_member op.xattr_name (xattr_names node)) node) t)
  ]
]

unfoldable pub effect : Operation → Tree → Effect
effect op t =
    if op.kind == create_file
    then add_effect op.kind op.path (new_node file (pos (length op.content))) t
    else if op.kind == create_dir
    then add_effect op.kind op.path (new_node dir (pos 0)) t
    else if op.kind == create_symlink
    then add_effect op.kind op.path (new_node symlink (pos 0)) t
    else if op.kind == create_hardlink
    then link_effect op t
    else if op.kind == delete
    then delete_effect op t
    else if op.kind == rename
    then rename_effect op t
    else if op.kind == chmod
    then require_effect op t
    else if op.kind == chown
    then require_effect op t
    else if op.kind == truncate
    then resize_effect (λ _. op.size) op t
    else if op.kind == append
    then resize_effect (λ n. add_int64 n.size (pos (length op.content))) op t
    else if op.kind == overwrite_range
    then resize_effect (size_after_overwrite op) op t
    else if op.kind == set_xattr
    then xattr_effect op t
    else if op.kind == remove_xattr
    then xattr_effect op t
    else err (unsupported op.kind)
