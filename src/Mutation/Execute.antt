-- ===== src/Mutation/Execute.antt =====
-- mutate.go: `applyOperation` by the kind of the operation, and the loop `ApplyOperations`.
use randfiletree.Prelude.{ℕ, ◌++◌, Bytes, codes, ok, err, ◌==◌, ◌&&◌, if◌then◌else◌, not}
use randfiletree.Prelude.Digits.{decimal}
use randfiletree.Prelude.Int.{ltb_ℤ}
use randfiletree.Action.{Action, ◌>>=◌, ◌>>◌, fail, fail_if}
use randfiletree.Plan.Metadata.{validate_xattr_name}
use randfiletree.Operation.{
  Operation, create_file, create_dir, create_symlink, create_hardlink, delete, rename, chmod, chown,
  truncate, append, overwrite_range, set_xattr, remove_xattr,
}
use randfiletree.Mutation.{is_child_mutation_path}
use randfiletree.Mutation.System.{
  Errno, not_exist, permission, not_supported, invalid, other, FileSystem, is_directory, is_regular,
}
use randfiletree.Mutation.Apply.{
  ApplyError, not_regular, inside_source, offset_exceeds, bad_name, xattr_permission_denied,
  xattr_unsupported, unsupported, system, context, wrap_errors, ensure_regular_file, look, call,
  lstat_path, require_vacant, resolve_path, append_to_operation_file, overwrite_operation_file,
}

-- `OperationKind.String()`.
unfoldable pub operation_kind_name : ℕ → Bytes
operation_kind_name kind =
    if kind == create_file
    then codes "create-file"
    else if kind == create_dir
    then codes "create-dir"
    else if kind == create_symlink
    then codes "create-symlink"
    else if kind == create_hardlink
    then codes "create-hardlink"
    else if kind == delete
    then codes "delete"
    else if kind == rename
    then codes "rename"
    else if kind == chmod
    then codes "chmod"
    else if kind == chown
    then codes "chown"
    else if kind == truncate
    then codes "truncate"
    else if kind == append
    then codes "append"
    else if kind == overwrite_range
    then codes "overwrite-range"
    else if kind == set_xattr
    then codes "set-xattr"
    else if kind == remove_xattr
    then codes "remove-xattr"
    else codes "unknown(" ++ decimal kind ++ codes ")"

-- The errors of the system calls on extended attributes.
unfoldable pub xattr_error : Bytes → Bytes → Errno → ApplyError
xattr_error what path e = elim e [
  | permission ↦ xattr_permission_denied path permission
  | not_supported ↦ xattr_unsupported path not_supported
  | invalid ↦ xattr_unsupported path invalid
  | not_exist ↦ system what path not_exist
  | other n ↦ system what path (other n)
]

module _ {F : Type 0} (fs : FileSystem F) where
  unfoldable pub set_path_xattr : Bytes → Bytes → Bytes → Action F ApplyError (Unit {0})
  set_path_xattr path name value = elim (validate_xattr_name name) [
    | err e ↦ fail (bad_name e)
    | ok n ↦ wrap_errors (xattr_error (codes "set xattr") path) (fs.lsetxattr path n value)
  ]

  unfoldable pub remove_path_xattr : Bytes → Bytes → Action F ApplyError (Unit {0})
  remove_path_xattr path name = elim (validate_xattr_name name) [
    | err e ↦ fail (bad_name e)
    | ok n ↦ wrap_errors (xattr_error (codes "remove xattr") path) (fs.lremovexattr path n)
  ]

  unfoldable pub apply_create :
      Bytes → Action F Errno (Unit {0}) → Operation → Bytes → Action F ApplyError (Unit {0})
  apply_create what make op path = do require_vacant fs what op.path path; call fs what op.path make

  unfoldable pub apply_hardlink : Bytes → Operation → Bytes → Action F ApplyError (Unit {0})
  apply_hardlink base op path = do
    source ← resolve_path fs (codes "hardlink source path") base op.source_path
    require_vacant fs (codes "create-hardlink") op.path path
    info ← lstat_path fs (codes "inspect hardlink source") source
    fail_if (not (is_regular info)) (not_regular op.source_path)
    call fs (codes "create hardlink") op.path (fs.make_link source path)

  unfoldable pub apply_delete : Operation → Bytes → Action F ApplyError (Unit {0})
  apply_delete op path = do
    info ← lstat_path fs (codes "inspect delete path") path
    if is_directory info
        then call fs (codes "remove directory") op.path (fs.remove_all path)
        else call fs (codes "remove path") op.path (fs.remove path)

  unfoldable pub apply_rename : Bytes → Operation → Bytes → Action F ApplyError (Unit {0})
  apply_rename base op path = do
    destination ← resolve_path fs (codes "rename destination path") base op.destination
    info ← lstat_path fs (codes "inspect rename source") path
    fail_if (is_directory info && is_child_mutation_path op.destination op.path)
        (inside_source op.destination op.path)
    require_vacant fs (codes "rename destination") op.destination destination
    call fs (codes "rename") op.path (fs.move path destination)

  unfoldable pub apply_chmod : Operation → Bytes → Action F ApplyError (Unit {0})
  apply_chmod op path = do
    info ← lstat_path fs (codes "inspect chmod path") path
    call fs (codes "chmod") op.path (fs.change_mode path op.mode)

  unfoldable pub apply_chown : Operation → Bytes → Action F ApplyError (Unit {0})
  apply_chown op path = do
    info ← lstat_path fs (codes "inspect chown path") path
    call fs (codes "chown") op.path (fs.change_owner path op.uid op.gid)

  unfoldable pub apply_truncate : Operation → Bytes → Action F ApplyError (Unit {0})
  apply_truncate op path = do
    info ← wrap_errors (context (codes "truncate") op.path) (look fs (ensure_regular_file fs path))
    call fs (codes "truncate") op.path (fs.resize path op.size)

  unfoldable pub apply_append : Operation → Bytes → Action F ApplyError (Unit {0})
  apply_append op path = do
    info ← wrap_errors (context (codes "append") op.path) (look fs (ensure_regular_file fs path))
    append_to_operation_file fs path op.path op.content

  unfoldable pub apply_overwrite : Operation → Bytes → Action F ApplyError (Unit {0})
  apply_overwrite op path = do
    info ←
        wrap_errors (context (codes "overwrite-range") op.path)
          (look fs (ensure_regular_file fs path))
    fail_if (ltb_ℤ info.size op.offset) (offset_exceeds op.offset info.size)
    overwrite_operation_file fs path op.path op.offset op.content

  unfoldable pub apply_set_xattr : Operation → Bytes → Action F ApplyError (Unit {0})
  apply_set_xattr op path = do
    info ← lstat_path fs (codes "inspect set-xattr path") path
    wrap_errors (context (codes "set-xattr") op.path)
        (set_path_xattr path op.xattr_name op.xattr_value)

  unfoldable pub apply_remove_xattr : Operation → Bytes → Action F ApplyError (Unit {0})
  apply_remove_xattr op path = do
    info ← lstat_path fs (codes "inspect remove-xattr path") path
    wrap_errors (context (codes "remove-xattr") op.path) (remove_path_xattr path op.xattr_name)

  unfoldable pub apply_kind : Bytes → Operation → Bytes → Action F ApplyError (Unit {0})
  apply_kind base op path =
      if op.kind == create_file
      then apply_create (codes "create-file") (fs.write_file path op.content op.mode) op path
      else if op.kind == create_dir
      then apply_create (codes "create-dir") (fs.mkdir path op.mode) op path
      else if op.kind == create_symlink
      then apply_create (codes "create-symlink") (fs.make_symlink op.link_target path) op path
      else if op.kind == create_hardlink
      then apply_hardlink base op path
      else if op.kind == delete
      then apply_delete op path
      else if op.kind == rename
      then apply_rename base op path
      else if op.kind == chmod
      then apply_chmod op path
      else if op.kind == chown
      then apply_chown op path
      else if op.kind == truncate
      then apply_truncate op path
      else if op.kind == append
      then apply_append op path
      else if op.kind == overwrite_range
      then apply_overwrite op path
      else if op.kind == set_xattr
      then apply_set_xattr op path
      else if op.kind == remove_xattr
      then apply_remove_xattr op path
      else fail (unsupported op.kind)

  unfoldable pub apply_operation : Bytes → Operation → Action F ApplyError (Unit {0})
  apply_operation base op = do
    path ← resolve_path fs (codes "operation path") base op.path
    apply_kind base op path
