-- ===== src/Operation.antt =====
-- operations.go: mutation operations, and how `ExportOperationSpec` normalizes and rejects them.
use randfiletree.Prelude.{
  ℕ, suc, Bool, true, false, List, [], ◌∷◌, Bytes, codes, Result, ok, err, Check, ◌>>=◌, ◌>>◌, wrap,
  reject, leb, ltb, eqb, ◌==◌, ◌||◌, ◌&&◌, not, is_empty, if◌then◌else◌,
}
use randfiletree.Prelude.Int.{ℤ, pos, ltb_ℤ, leb_ℤ}
use randfiletree.GoPath.{clean, is_rooted, root}
use randfiletree.Plan.Metadata.{trim_space, contains_byte, validate_xattr_name, XattrNameError}
pub mod Paths
pub mod Cases
pub mod Normal
pub mod Kinds
pub mod Replay

abbrev pub max_posix_file_mode : ℕ
max_posix_file_mode = 4095

abbrev pub create_file : ℕ
create_file = 1

abbrev pub create_dir : ℕ
create_dir = 2

abbrev pub create_symlink : ℕ
create_symlink = 3

abbrev pub create_hardlink : ℕ
create_hardlink = 4

abbrev pub delete : ℕ
delete = 5

abbrev pub rename : ℕ
rename = 6

abbrev pub chmod : ℕ
chmod = 7

abbrev pub chown : ℕ
chown = 8

abbrev pub truncate : ℕ
truncate = 9

abbrev pub append : ℕ
append = 10

abbrev pub overwrite_range : ℕ
overwrite_range = 11

abbrev pub set_xattr : ℕ
set_xattr = 12

abbrev pub remove_xattr : ℕ
remove_xattr = 13

-- The kinds are the numbers of the constants.
unfoldable pub is_operation_kind : ℕ → Bool
is_operation_kind kind =
    kind == create_file
    || kind == create_dir
    || kind == create_symlink
    || kind == create_hardlink
    || kind == delete
    || kind == rename
    || kind == chmod
    || kind == chown
    || kind == truncate
    || kind == append
    || kind == overwrite_range
    || kind == set_xattr
    || kind == remove_xattr

-- `Operation`: a nil byte slice is an empty one.
pub record Operation : Type 0 where
  pub kind : ℕ
  pub path : Bytes
  pub destination : Bytes
  pub source_path : Bytes
  pub link_target : Bytes
  pub mode : ℕ
  pub uid : ℤ
  pub gid : ℤ
  pub size : ℤ
  pub offset : ℤ
  pub content : Bytes
  pub xattr_name : Bytes
  pub xattr_value : Bytes

pub data PathError : Type 0 where
  path_empty path_contains_nul path_not_rooted path_is_root : PathError

-- The bytes are the context that the message starts with.
pub data OperationError : Type 0 where
  invalid_kind : ℕ → OperationError
  bad_path : Bytes → PathError → OperationError
  bad_mode : Bytes → ℕ → OperationError
  link_target_empty link_target_contains_nul : OperationError
  same_source_and_target same_source_and_destination : OperationError
  uid_negative : ℤ → OperationError
  gid_negative : ℤ → OperationError
  size_negative : ℤ → OperationError
  offset_negative : ℤ → OperationError
  append_data_empty overwrite_data_empty : OperationError
  bad_xattr_name : Bytes → XattrNameError → OperationError

unfoldable pub normalize_operation_path : Bytes → Bool → Result PathError Bytes
normalize_operation_path raw allow_root =
    if is_empty (trim_space raw)
    then err path_empty
    else if contains_byte 0 raw
    then err path_contains_nul
    else if not (is_rooted (clean raw))
    then err path_not_rooted
    else if not allow_root && eqb (clean raw) root
    then err path_is_root
    else ok (clean raw)

unfoldable pub normalize_path_as : Bytes → Bytes → Bool → Result OperationError Bytes
normalize_path_as context raw allow_root =
    wrap (bad_path context) (normalize_operation_path raw allow_root)

unfoldable pub validate_mode : Bytes → ℕ → Check OperationError
validate_mode context mode = reject (ltb max_posix_file_mode mode) (bad_mode context mode)

-- The cases of `normalizeOperation`.
unfoldable pub normalize_with_mode :
    Bytes → Bytes → Bool → Operation → Result OperationError Operation
normalize_with_mode path_context mode_context allow_root op = do
  path ← normalize_path_as path_context op.path allow_root
  validate_mode mode_context op.mode
  ok (record op { path = path })

unfoldable pub normalize_symlink : Operation → Result OperationError Operation
normalize_symlink op = do
  path ← normalize_path_as (codes "create-symlink path") op.path false
  reject (is_empty op.link_target) link_target_empty
  reject (contains_byte 0 op.link_target) link_target_contains_nul
  ok (record op { path = path })

unfoldable pub normalize_hardlink : Operation → Result OperationError Operation
normalize_hardlink op = do
  path ← normalize_path_as (codes "create-hardlink path") op.path false
  source ← normalize_path_as (codes "create-hardlink source path") op.source_path false
  reject (eqb path source) same_source_and_target
  ok (record op { path = path; source_path = source })

unfoldable pub normalize_delete : Operation → Result OperationError Operation
normalize_delete op = do
  path ← normalize_path_as (codes "delete path") op.path false
  ok (record op { path = path })

unfoldable pub normalize_rename : Operation → Result OperationError Operation
normalize_rename op = do
  source ← normalize_path_as (codes "rename source path") op.path false
  destination ← normalize_path_as (codes "rename destination path") op.destination false
  reject (eqb source destination) same_source_and_destination
  ok (record op { path = source; destination = destination })

unfoldable pub normalize_chown : Operation → Result OperationError Operation
normalize_chown op = do
  path ← normalize_path_as (codes "chown path") op.path true
  reject (ltb_ℤ op.uid (pos 0)) (uid_negative op.uid)
  reject (ltb_ℤ op.gid (pos 0)) (gid_negative op.gid)
  ok (record op { path = path })

unfoldable pub normalize_truncate : Operation → Result OperationError Operation
normalize_truncate op = do
  path ← normalize_path_as (codes "truncate path") op.path false
  reject (ltb_ℤ op.size (pos 0)) (size_negative op.size)
  ok (record op { path = path })

unfoldable pub normalize_append : Operation → Result OperationError Operation
normalize_append op = do
  path ← normalize_path_as (codes "append path") op.path false
  reject (is_empty op.content) append_data_empty
  ok (record op { path = path })

unfoldable pub normalize_overwrite : Operation → Result OperationError Operation
normalize_overwrite op = do
  path ← normalize_path_as (codes "overwrite-range path") op.path false
  reject (ltb_ℤ op.offset (pos 0)) (offset_negative op.offset)
  reject (is_empty op.content) overwrite_data_empty
  ok (record op { path = path })

unfoldable pub normalize_xattr : Bytes → Bytes → Operation → Result OperationError Operation
normalize_xattr path_context name_context op = do
  path ← normalize_path_as path_context op.path true
  name ← wrap (bad_xattr_name name_context) (validate_xattr_name op.xattr_name)
  ok (record op { path = path; xattr_name = name })

unfoldable pub normalize_operation : Operation → Result OperationError Operation
normalize_operation op =
    if not (is_operation_kind op.kind)
    then err (invalid_kind op.kind)
    else if op.kind == create_file
    then normalize_with_mode (codes "create-file path") (codes "create-file mode") false op
    else if op.kind == create_dir
    then normalize_with_mode (codes "create-dir path") (codes "create-dir mode") false op
    else if op.kind == create_symlink
    then normalize_symlink op
    else if op.kind == create_hardlink
    then normalize_hardlink op
    else if op.kind == delete
    then normalize_delete op
    else if op.kind == rename
    then normalize_rename op
    else if op.kind == chmod
    then normalize_with_mode (codes "chmod path") (codes "chmod mode") true op
    else if op.kind == chown
    then normalize_chown op
    else if op.kind == truncate
    then normalize_truncate op
    else if op.kind == append
    then normalize_append op
    else if op.kind == overwrite_range
    then normalize_overwrite op
    else if op.kind == set_xattr
    then normalize_xattr (codes "set-xattr path") (codes "set-xattr name") op
    else normalize_xattr (codes "remove-xattr path") (codes "remove-xattr name") op

pub data ExportError : Type 0 where
  invalid_operation : ℕ → OperationError → ExportError
  serialize_failed : Bytes → ExportError

-- The loop of `ExportOperationSpec`, from index `i` on.
unfoldable pub normalize_operations : ℕ → List Operation → Result ExportError (List Operation)
normalize_operations i [] = ok []
normalize_operations i (op ∷ ops) = do
  next ← wrap (invalid_operation i) (normalize_operation op)
  rest ← normalize_operations (suc i) ops
  ok (next ∷ rest)

abbrev pub operation_spec_version : ℤ
operation_spec_version = pos 1

pub record OperationSpec : Type 0 where
  pub version : ℤ
  pub operations : List Operation

-- `marshal` is the JSON library's.
unfoldable pub export_operation_spec :
    (OperationSpec → Result Bytes Bytes) → List Operation → Result ExportError Bytes
export_operation_spec marshal ops = do
  normalized ← normalize_operations 0 ops
  wrap serialize_failed
      (marshal (record { version = operation_spec_version; operations = normalized }))

pub data OptionsError : Type 0 where
  count_not_positive : ℤ → OptionsError
  data_size_not_positive : ℤ → OptionsError
  no_allowed_kinds : OptionsError
  bad_allowed_kind : ℕ → ℕ → OptionsError
  duplicate_kind : ℕ → OptionsError

pub record OperationGenerationOptions : Type 0 where
  pub seed : ℤ
  pub count : ℤ
  pub max_data_size : ℤ
  pub allowed_kinds : List ℕ

unfoldable pub is_seen : ℕ → List ℕ → Bool
is_seen kind [] = false
is_seen kind (k ∷ ks) = k == kind || is_seen kind ks

-- The loop of `validate`, from index `i` on.
unfoldable pub validate_kinds : ℕ → List ℕ → List ℕ → Check OptionsError
validate_kinds i seen [] = ok tt
validate_kinds i seen (kind ∷ kinds) = do
  reject (not (is_operation_kind kind)) (bad_allowed_kind i kind)
  reject (is_seen kind seen) (duplicate_kind kind)
  validate_kinds (suc i) (kind ∷ seen) kinds

unfoldable pub validate_generation_options : OperationGenerationOptions → Check OptionsError
validate_generation_options o = do
  reject (leb_ℤ o.count (pos 0)) (count_not_positive o.count)
  reject (leb_ℤ o.max_data_size (pos 0)) (data_size_not_positive o.max_data_size)
  reject (is_empty o.allowed_kinds) no_allowed_kinds
  validate_kinds 0 [] o.allowed_kinds
