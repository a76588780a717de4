-- ===== src/Plan/Types.antt =====
-- plan.go, metadata.go, content_patterns.go: what a plan is made of, the configuration of the
-- generator, and the random source.
use randfiletree.Prelude.{ℕ, ◌<◌, Bool, Option, none, List, [], Bytes, Result}
use randfiletree.Prelude.Int.{ℤ, pos}

-- `rand.Rand`: each draw also gives the source behind it.
pub record Random (R : Type 0) : Type 0 where
  pub intn : R → ℕ → ℕ × R
  pub int63n : R → ℕ → ℕ × R
  pub int63 : R → ℕ × R
  pub read : R → ℕ → Bytes × R

-- `Intn(n)` and `Int63n(n)` lie in [0, n).
pub record IsLawful {R : Type 0} (random : Random R) : Type 0 where
  pub intn_lt : (r : R) (n : ℕ) → 0 < n → (random.intn r n).0 < n
  pub int63n_lt : (r : R) (n : ℕ) → 0 < n → (random.int63n r n).0 < n

pub data PlannedEntryType : Type 0 where
  dir file symlink hardlink special : PlannedEntryType

-- `time.Time`, as nanoseconds: the plan only passes it on.
abbrev pub Time : Type 0
Time = ℤ

pub record MetadataConfig : Type 0 where
  pub ownership : Option (ℤ × ℤ)
  pub timestamps : Option (Time × Time)
  pub xattrs : Option (List (Bytes × Bytes))
  pub acl_entries : Option (List Bytes)

pub record PlannedContentRange : Type 0 where
  pub offset : ℕ
  pub length : ℕ
  pub seed : ℕ

-- `expected_written_bytes` is an int64, given by its 64-bit pattern; the other sizes are checked
-- to be non-negative.
pub record PlannedFileContent : Type 0 where
  pub pattern : ℕ
  pub logical_size : ℕ
  pub expected_written_bytes : ℕ
  pub expected_sparse : Bool
  pub seed : ℕ
  pub repeated_block : Bytes
  pub sparse_extents : List PlannedContentRange
  pub overwrite_extents : List PlannedContentRange

pub record PlannedEntry : Type 0 where
  pub type_id : PlannedEntryType
  pub path : Bytes
  pub mode : ℕ
  pub content_data : Bytes
  pub content_pattern : Option PlannedFileContent
  pub link_target : Bytes
  pub special_file_type : ℕ
  pub special_device_major : ℤ
  pub special_device_minor : ℤ
  pub metadata : MetadataConfig

abbrev pub no_metadata : MetadataConfig
no_metadata = record { ownership = none; timestamps = none; xattrs = none; acl_entries = none }

-- A `plannedEntry{}` literal: the fields that are not named are zero.
abbrev pub new_entry : PlannedEntryType → Bytes → PlannedEntry
new_entry type_id path = record {
  type_id = type_id;
  path = path;
  mode = 0;
  content_data = [];
  content_pattern = none;
  link_target = [];
  special_file_type = 0;
  special_device_major = pos 0;
  special_device_minor = pos 0;
  metadata = no_metadata;
}

pub record PlannedHardlinkGroup : Type 0 where
  pub origin : Bytes
  pub paths : List Bytes

-- What makes planning stop. `generator_failed` is the error of a generator that the caller
-- supplied; `nil_call` and `index_panic` are panics, and `out_of_fuel` belongs to the model only.
pub data PlanError : Type 0 where
  limit_exceeded : ℤ → PlanError
  collision_exhausted : Bytes → Bytes → PlanError
  invalid_symlink_strategy : ℕ → PlanError
  unsupported_symlink_strategy : ℕ → PlanError
  cycle_too_short : ℕ → PlanError
  rel_failed : Bytes → PlanError
  invalid_special_type : ℕ → PlanError
  device_numbers_required : PlanError
  device_major_negative : ℤ → PlanError
  device_minor_negative : ℤ → PlanError
  generator_failed : Bytes → PlanError
  invalid_content_pattern : ℕ → PlanError
  logical_size_negative : ℤ → PlanError
  segment_exceeds_size : ℕ → ℕ → PlanError
  repeated_block_empty : PlanError
  acl_entry_empty : ℕ → PlanError
  acl_entry_contains_nul : ℕ → PlanError
  acl_entry_contains_comma : ℕ → PlanError
  nil_call : PlanError
  index_panic : PlanError
  out_of_fuel : PlanError

-- The generators: functions of the random source. `DataGen` and `AclGen` may fail.
abbrev pub Gen : Type 0 → Type 0 → Type 0
Gen R A = R → A × R

abbrev pub FailingGen : Type 0 → Type 0 → Type 0
FailingGen R A = R → Result Bytes A × R

abbrev pub NameGen : Type 0 → Type 0
NameGen R = R → ℤ → Bytes × R

pub record XattrValueGen (R : Type 0) : Type 0 where
  pub name : Bytes
  pub value_gen : Option (FailingGen R Bytes)

-- `Generator`: a field that is `none` is nil. The coverage fields are left out.
pub record Generator (R : Type 0) : Type 0 where
  pub base_path : Bytes
  pub dir_name_gen : Option (NameGen R)
  pub dir_name_len_gen : Option (Gen R ℤ)
  pub dir_mode_gen : Option (Gen R ℕ)
  pub n_files_in_dir_gen : Option (Gen R ℤ)
  pub n_dirs_in_dir_gen : Option (Gen R ℤ)
  pub file_name_gen : Option (NameGen R)
  pub file_name_len_gen : Option (Gen R ℤ)
  pub file_mode_gen : Option (Gen R ℕ)
  pub data_gen : Option (FailingGen R Bytes)
  pub path_depth_gen : Option (Gen R ℤ)
  pub content_pattern_gen : Option (Gen R ℕ)
  pub content_logical_size_gen : Option (Gen R ℤ)
  pub ownership_uid_gen : Option (Gen R ℤ)
  pub ownership_gid_gen : Option (Gen R ℤ)
  pub atime_gen : Option (Gen R Time)
  pub mtime_gen : Option (Gen R Time)
  pub xattr_value_gens : List (XattrValueGen R)
  pub xattr_allow_trusted_namespace : Bool
  pub xattr_allow_security_namespace : Bool
  pub acl_entries_gen : Option (FailingGen R (List Bytes))
  pub symlink_prob_gen : Option (Gen R Bool)
  pub symlink_rel_prob_gen : Option (Gen R Bool)
  pub hardlink_prob_gen : Option (Gen R Bool)
  pub special_file_prob_gen : Option (Gen R Bool)
  pub symlink_strategy_gen : Option (Gen R ℕ)
  pub special_file_type_gen : Option (Gen R ℕ)
  pub special_device_major_gen : Option (Gen R ℤ)
  pub special_device_minor_gen : Option (Gen R ℤ)
  pub byte_file_name_gen : Option (NameGen R)
  pub byte_dir_name_gen : Option (NameGen R)
  pub rnd_src : Option R
  pub run_mode : ℕ
  pub plan_entry_limit : ℤ
