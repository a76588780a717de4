-- ===== src/Mutation/Apply.antt =====
-- mutate.go: one operation on a file system, `applyOperation`, and the paths that it may use.
use randfiletree.Prelude.{
  ℕ, Bool, true, false, none, some, List, [], ◌∷◌, ◌++◌, Bytes, codes, Result, ok, err, Check,
  reject, eqb, ◌==◌, ◌||◌, if◌then◌else◌, is_empty, not, length, has_prefix, trim_prefix,
}
use randfiletree.Prelude.Int.{ℤ}
use randfiletree.Action.{Action, ◌>>=◌, ◌>>◌, pure, fail_if, lift}
use randfiletree.GoPath.{clean, join, rel, root, dot, dot_dot, slash, dir_of, split_path}
use randfiletree.Plan.Metadata.{XattrNameError}
use randfiletree.Mutation.System.{
  Errno, not_exist, permission, not_supported, invalid, other, FileInfo, FileSystem, is_directory,
  is_symlink, is_regular,
}

-- `context` is a message in front of another; `system` is a failed system call.
pub data ApplyError : Type 0 where
  escapes_base : Bytes → ApplyError
  no_relative_path : Bytes → ApplyError
  symlink_parent : Bytes → ApplyError
  not_directory : Bytes → ApplyError
  not_regular : Bytes → ApplyError
  already_exists : Bytes → ApplyError
  inside_source : Bytes → Bytes → ApplyError
  offset_exceeds : ℤ → ℤ → ApplyError
  short_write : ℕ → ℕ → ApplyError
  bad_name : XattrNameError → ApplyError
  xattr_permission_denied : Bytes → Errno → ApplyError
  xattr_unsupported : Bytes → Errno → ApplyError
  unsupported : ℕ → ApplyError
  system : Bytes → Bytes → Errno → ApplyError
  context : Bytes → Bytes → ApplyError → ApplyError

-- An error with its context.
unfoldable pub wrap_errors : {S E E' A : Type 0} → (E → E') → Action S E A → Action S E' A
wrap_errors f m s =
    let (result, s') = m s in elim result [ ok a ↦ (ok a, s') | err e ↦ (err (f e), s') ]

unfoldable pub ensure_path_within_base : Bytes → Bytes → Check ApplyError
ensure_path_within_base base path = elim (rel base path) [
  | none ↦ err (escapes_base path)
  | some r ↦ reject (eqb r dot_dot || has_prefix r (dot_dot ++ (slash ∷ []))) (escapes_base path)
]

unfoldable pub operation_path_to_fs : Bytes → Bytes → Result ApplyError Bytes
operation_path_to_fs base op_path =
    let rel_path = trim_prefix op_path root in
    let full_path = join (clean base) rel_path in
    if eqb op_path root
    then ok (clean base)
    else if is_empty rel_path
    then err (escapes_base [])
    else elim (ensure_path_within_base (clean base) full_path) [
      | err e ↦ err e
      | ok _ ↦ ok full_path
    ]

module _ {F : Type 0} (fs : FileSystem F) where
  -- The loop of `ensureNoSymlinkParents` over the components that are left.
  unfoldable pub check_parents : F → Bytes → List Bytes → Check ApplyError
  check_parents f current [] = ok tt
  check_parents f current (w ∷ ws) =
      let skipped = check_parents f current ws in
      let next = join current w in
      let rest = check_parents f next ws in
      if is_empty w || eqb w dot then skipped else elim (fs.lstat next f) [
        | err e ↦ err (system (codes "inspect parent component") next e)
        | ok info ↦
            if is_symlink info
            then err (symlink_parent next)
            else if not (is_directory info)
            then err (not_directory next)
            else rest
      ]

  unfoldable pub ensure_no_symlink_parents : Bytes → Bytes → F → Check ApplyError
  ensure_no_symlink_parents base path f = elim (ensure_path_within_base (clean base) (clean path)) [
    | err e ↦ err e
    | ok _ ↦
        if eqb (clean path) (clean base)
        then ok tt
        else if eqb (dir_of (clean path)) (clean path)
        then ok tt
        else elim (rel (clean base) (dir_of (clean path))) [
          | none ↦ err (no_relative_path (clean path))
          | some parent ↦
              if eqb parent dot then ok tt else check_parents f (clean base) (split_path parent)
        ]
  ]

  unfoldable pub ensure_parent_directory : Bytes → F → Check ApplyError
  ensure_parent_directory path f = elim (fs.stat (dir_of path) f) [
    | err e ↦ err (system (codes "inspect parent") (dir_of path) e)
    | ok info ↦ reject (not (is_directory info)) (not_directory (dir_of path))
  ]

  unfoldable pub ensure_regular_file : Bytes → F → Result ApplyError FileInfo
  ensure_regular_file path f = elim (fs.lstat path f) [
    | err e ↦ err (system (codes "inspect path") path e)
    | ok info ↦ if not (is_regular info) then err (not_regular path) else ok info
  ]

  unfoldable pub path_exists : Bytes → F → Result Errno Bool
  path_exists path f = elim (fs.lstat path f) [
    | ok _ ↦ ok true
    | err e ↦ elim e [
      | not_exist ↦ ok false
      | permission ↦ err permission
      | not_supported ↦ err not_supported
      | invalid ↦ err invalid
      | other n ↦ err (other n)
    ]
  ]

  unfoldable pub look : {A : Type 0} → (F → Result ApplyError A) → Action F ApplyError A
  look read f = (read f, f)

  unfoldable pub call : {A : Type 0} → Bytes → Bytes → Action F Errno A → Action F ApplyError A
  call what path = wrap_errors (system what path)

  unfoldable pub lstat_path : Bytes → Bytes → Action F ApplyError FileInfo
  lstat_path what path f = elim (fs.lstat path f) [
    | ok info ↦ (ok info, f)
    | err e ↦ (err (system what path e), f)
  ]

  -- The parent check and the existence check of the kinds that make a new path.
  unfoldable pub require_vacant : Bytes → Bytes → Bytes → Action F ApplyError (Unit {0})
  require_vacant what op_path path = do
    wrap_errors (context what op_path) (look (ensure_parent_directory path))
    exists ← wrap_errors (system what op_path) (λ f. (path_exists path f, f))
    fail_if exists (already_exists op_path)

  -- A path of an operation in the file system, without symbolic links above it.
  unfoldable pub resolve_path : Bytes → Bytes → Bytes → Action F ApplyError Bytes
  resolve_path what base op_path = do
    path ← lift (elim (operation_path_to_fs base op_path) [
      | err e ↦ err (context what op_path e)
      | ok p ↦ ok p
    ])
    wrap_errors (context what op_path) (look (ensure_no_symlink_parents base path))
    pure path

  -- `defer`: the descriptor is closed in any case, and the first error stays.
  unfoldable pub finish :
      Bytes → ℕ → Action F ApplyError (Unit {0}) → Action F ApplyError (Unit {0})
  finish op_path fd body f =
      let (result, f1) = body f in
      let (closed, f2) = fs.close fd f1 in
      elim result [
        | err e ↦ (err e, f2)
        | ok _ ↦ elim closed [
          | err e ↦ (err (system (codes "finalize") op_path e), f2)
          | ok _ ↦ (ok tt, f2)
        ]
      ]

  unfoldable pub append_to_operation_file : Bytes → Bytes → Bytes → Action F ApplyError (Unit {0})
  append_to_operation_file path op_path content = do
    fd ← call (codes "open append target") op_path (fs.open_file path true)
    finish op_path fd (do
      written ← call (codes "append") op_path (fs.write fd content)
      fail_if (not (written == length content)) (short_write written (length content)))

  unfoldable pub overwrite_operation_file :
      Bytes → Bytes → ℤ → Bytes → Action F ApplyError (Unit {0})
  overwrite_operation_file path op_path offset content = do
    fd ← call (codes "open overwrite target") op_path (fs.open_file path false)
    finish op_path fd (do
      written ← call (codes "overwrite") op_path (fs.write_at fd content offset)
      fail_if (not (written == length content)) (short_write written (length content)))
