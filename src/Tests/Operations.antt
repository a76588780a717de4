-- ===== src/Tests/Operations.antt =====
-- operations.go on concrete operations.
use randfiletree.Prelude.{
  Result, err, true, false, [], ◌∷◌, Bytes, codes, ok, ◌≡◌, refl, dec_bytes, ◌<◌, ◌≢◌, Distinct,
  All,
}
use randfiletree.Prelude.Int.{pos}
use randfiletree.GoPath.{clean}
use randfiletree.Plan.Metadata.{trim_space, trim_left, is_space, contains_byte}
use randfiletree.Operation.{
  Operation, OperationSpec, OperationGenerationOptions, rename, is_operation_kind, is_seen,
  normalize_operation, normalize_operations, export_operation_spec, normalize_operation_path,
  normalize_path_as, normalize_rename, validate_kinds, validate_generation_options,
}
use randfiletree.Operation.Paths.{normalize_operation_path-fixed}
use randfiletree.Operation.Normal.{normalize_operation-fixed, export_operation_spec-fixed}
use randfiletree.Operation.Kinds.{validate_generation_options_sound}

abbrev pub renaming : Bytes → Bytes → Operation
renaming path destination = record {
  kind = rename;
  path = path;
  destination = destination;
  source_path = [];
  link_target = [];
  mode = 0;
  uid = pos 0;
  gid = pos 0;
  size = pos 0;
  offset = pos 0;
  content = [];
  xattr_name = [];
  xattr_value = [];
}

path_normalized : normalize_operation_path (codes "/a//b/../c") false ≡ ok (codes "/a/c")
unfolding normalize_operation_path clean trim_space trim_left is_space contains_byte dec_bytes
path_normalized = refl

pub renaming_normalized :
    normalize_operation (renaming (codes "/a/./b") (codes "/c/"))
    ≡ ok (renaming (codes "/a/b") (codes "/c"))
unfolding normalize_operation normalize_rename normalize_path_as is_operation_kind
    normalize_operation_path clean trim_space trim_left is_space contains_byte dec_bytes
renaming_normalized = refl

path_fixed_example : normalize_operation_path (codes "/a/c") false ≡ ok (codes "/a/c")
path_fixed_example =
    normalize_operation_path-fixed (codes "/a//b/../c") false (codes "/a/c") path_normalized

normalize_fixed_example :
    normalize_operation (renaming (codes "/a/b") (codes "/c"))
    ≡ ok (renaming (codes "/a/b") (codes "/c"))
normalize_fixed_example =
    normalize_operation-fixed (renaming (codes "/a/./b") (codes "/c/"))
      (renaming (codes "/a/b") (codes "/c")) renaming_normalized

abbrev two_kinds : OperationGenerationOptions
two_kinds = record {
  seed = pos 1;
  count = pos 4;
  max_data_size = pos 16;
  allowed_kinds = 6 ∷ 5 ∷ [];
}

two_kinds_accepted : validate_generation_options two_kinds ≡ ok tt
unfolding validate_generation_options validate_kinds is_operation_kind is_seen
two_kinds_accepted = refl

options_example :
    (0 < 4)
    × (0 < 16)
    × (two_kinds.allowed_kinds ≢ [])
    × Distinct two_kinds.allowed_kinds
    × All (λ k. is_operation_kind k ≡ true) two_kinds.allowed_kinds
options_example = validate_generation_options_sound two_kinds two_kinds_accepted

pub stream_normalized :
    normalize_operations 0 (renaming (codes "/a/./b") (codes "/c/") ∷ [])
    ≡ ok (renaming (codes "/a/b") (codes "/c") ∷ [])
unfolding normalize_operations
stream_normalized = rw renaming_normalized refl

-- An encoder that keeps the first path only.
abbrev first_path : OperationSpec → Result Bytes Bytes
first_path spec = elim (spec.operations) [ [] ↦ err (codes "empty") | op ∷ ops ↦ ok op.path ]

export_example :
    export_operation_spec first_path (renaming (codes "/a/b") (codes "/c") ∷ [])
    ≡ export_operation_spec first_path (renaming (codes "/a/./b") (codes "/c/") ∷ [])
export_example =
    export_operation_spec-fixed first_path (renaming (codes "/a/./b") (codes "/c/") ∷ [])
      (renaming (codes "/a/b") (codes "/c") ∷ []) stream_normalized
