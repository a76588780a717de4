-- ===== src/Plan/Config.antt =====
-- generator.go and runmode.go: which configurations `Run` accepts.
use randfiletree.Prelude.{
  ℕ, Bool, true, false, Option, none, some, List, [], ◌∷◌, ◌++◌, ok, err, Check, ◌==◌, ◌&&◌, ◌||◌,
  not, if◌then◌else◌, is_empty,
}
use randfiletree.Prelude.Int.{pos, leb_ℤ}
use randfiletree.Plan.Types.{Generator}
use randfiletree.Plan.Metadata.{validate_xattr_configuration, XattrConfigError}

abbrev pub run_mode_append : ℕ
run_mode_append = 0

abbrev pub run_mode_strict : ℕ
run_mode_strict = 1

abbrev pub run_mode_replace : ℕ
run_mode_replace = 2

unfoldable pub is_run_mode : ℕ → Bool
is_run_mode m = m == run_mode_append || m == run_mode_strict || m == run_mode_replace

-- `x == nil`.
abbrev pub is_nil {ℓ} : {A : Type ℓ} → Option A → Bool
is_nil none = true
is_nil (some _) = false

-- What `validateRunConfiguration` reports.
pub data Missing : Type 0 where
  random_source dir_name_generator dir_name_length_generator dir_mode_generator : Missing
  files_per_directory_generator directories_per_directory_generator : Missing
  file_name_generator file_name_length_generator file_mode_generator data_generator : Missing
  content_pattern_incomplete path_depth_generator ownership_incomplete : Missing
  timestamps_incomplete symlink_generator symlink_target_generator special_incomplete : Missing
  device_incomplete : Missing
  bad_xattrs : XattrConfigError → Missing
  bad_run_mode : ℕ → Missing
  bad_entry_limit : Missing

abbrev pub note_if : Bool → Missing → List Missing
note_if true m = m ∷ []
note_if false m = []

abbrev pub differ : Bool → Bool → Bool
differ true b = not b
differ false b = b

module _ {R : Type 0} where
  unfoldable pub has_no_configuration : Generator R → Bool
  has_no_configuration g =
      is_nil g.dir_name_gen
      && is_nil g.dir_name_len_gen
      && is_nil g.dir_mode_gen
      && is_nil g.n_files_in_dir_gen
      && is_nil g.n_dirs_in_dir_gen
      && is_nil g.file_name_gen
      && is_nil g.file_name_len_gen
      && is_nil g.file_mode_gen
      && is_nil g.data_gen
      && is_nil g.path_depth_gen
      && is_nil g.content_pattern_gen
      && is_nil g.content_logical_size_gen
      && is_nil g.ownership_uid_gen
      && is_nil g.ownership_gid_gen
      && is_nil g.atime_gen
      && is_nil g.mtime_gen
      && is_nil g.symlink_prob_gen
      && is_nil g.symlink_rel_prob_gen
      && is_nil g.hardlink_prob_gen
      && is_nil g.special_file_prob_gen
      && is_nil g.symlink_strategy_gen
      && is_nil g.special_file_type_gen
      && is_nil g.special_device_major_gen
      && is_nil g.special_device_minor_gen
      && is_nil g.byte_file_name_gen
      && is_nil g.byte_dir_name_gen
      && is_empty g.xattr_value_gens
      && is_nil g.acl_entries_gen

  unfoldable pub xattr_problems : Generator R → List Missing
  xattr_problems g = elim (validate_xattr_configuration g) [ ok _ ↦ [] | err e ↦ bad_xattrs e ∷ [] ]

  unfoldable pub missing_names : Generator R → List Missing
  missing_names g =
      note_if (is_nil g.rnd_src) random_source
      ++ (note_if (is_nil g.dir_name_gen && is_nil g.byte_dir_name_gen) dir_name_generator
          ++ (note_if (is_nil g.dir_name_len_gen) dir_name_length_generator
              ++ (note_if (is_nil g.dir_mode_gen) dir_mode_generator
                  ++ (note_if (is_nil g.n_files_in_dir_gen) files_per_directory_generator
                      ++ (note_if (is_nil g.n_dirs_in_dir_gen) directories_per_directory_generator
                          ++ (note_if (is_nil g.file_name_gen && is_nil g.byte_file_name_gen)
                                file_name_generator
                              ++ (note_if (is_nil g.file_name_len_gen) file_name_length_generator
                                  ++ note_if (is_nil g.file_mode_gen) file_mode_generator)))))))

  unfoldable pub missing_content : Generator R → List Missing
  missing_content g =
      note_if (is_nil g.data_gen && is_nil g.content_pattern_gen) data_generator
      ++ (note_if (differ (is_nil g.content_pattern_gen) (is_nil g.content_logical_size_gen))
            content_pattern_incomplete
          ++ (note_if (is_nil g.path_depth_gen) path_depth_generator
              ++ (note_if (differ (is_nil g.ownership_uid_gen) (is_nil g.ownership_gid_gen))
                    ownership_incomplete
                  ++ note_if (differ (is_nil g.atime_gen) (is_nil g.mtime_gen))
                      timestamps_incomplete)))

  unfoldable pub missing_links : Generator R → List Missing
  missing_links g =
      note_if (is_nil g.symlink_prob_gen) symlink_generator
      ++ (note_if (is_nil g.symlink_rel_prob_gen && is_nil g.symlink_strategy_gen)
            symlink_target_generator
          ++ (note_if (differ (is_nil g.special_file_prob_gen) (is_nil g.special_file_type_gen))
                special_incomplete
              ++ (note_if
                    (differ (is_nil g.special_device_major_gen) (is_nil g.special_device_minor_gen))
                    device_incomplete
                  ++ (xattr_problems g
                      ++ (note_if (not (is_run_mode g.run_mode)) (bad_run_mode g.run_mode)
                          ++ note_if (leb_ℤ g.plan_entry_limit (pos 0)) bad_entry_limit)))))

  unfoldable pub validate_run_configuration : Generator R → Check (List Missing)
  validate_run_configuration g =
      let missing = missing_names g ++ (missing_content g ++ missing_links g) in
      if is_empty missing then ok tt else err missing
