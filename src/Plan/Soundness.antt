-- ===== src/Plan/Soundness.antt =====
-- plan.go: planning symlinks, hardlinks, special files and files keeps the invariant.
use randfiletree.Prelude.{
  ℕ, false, Option, none, some, List, [], Bytes, ◌&&◌, ◌≡◌, ◌≢◌, inr, In, All,
}
use randfiletree.Action.{Ensures, bind_rule, seq_rule, pure_rule, fail_rule}
use randfiletree.GoPath.{base_of}
use randfiletree.Plan.Types.{
  Random, IsLawful, Generator, PlannedEntry, symlink, hardlink, new_entry,
}
use randfiletree.Plan.State.{Book, PlanState, Planner, register_symlink_path}
use randfiletree.Plan.Config.{is_nil, differ}
use randfiletree.Plan.Invariant.{Frame, Known, a_dir, Holds, Fits, shape, shapes}
use randfiletree.Plan.Rules.{Safe, At, Fresh, modify_rule}
use randfiletree.Plan.Steps.{Supplies, unique_path_rule, refile-At, append_held_rule, All-In}
use randfiletree.Plan.Entries.{
  plan_file_path, append_symlink, plan_symlink, or_rel_error, plan_symlink_to, plan_relative,
  plan_self_referential,
}

-- What `validate_run_configuration` makes sure of, as far as planning needs it.
pub record IsConfigured {R : Type 0} (g : Generator R) : Type 0 where
  pub dir_name : (is_nil g.dir_name_gen && is_nil g.byte_dir_name_gen) ≡ false
  pub dir_name_len : is_nil g.dir_name_len_gen ≡ false
  pub dir_mode : is_nil g.dir_mode_gen ≡ false
  pub n_files : is_nil g.n_files_in_dir_gen ≡ false
  pub n_dirs : is_nil g.n_dirs_in_dir_gen ≡ false
  pub file_name : (is_nil g.file_name_gen && is_nil g.byte_file_name_gen) ≡ false
  pub file_name_len : is_nil g.file_name_len_gen ≡ false
  pub file_mode : is_nil g.file_mode_gen ≡ false
  pub content : (is_nil g.data_gen && is_nil g.content_pattern_gen) ≡ false
  pub content_pair :
      differ (is_nil g.content_pattern_gen) (is_nil g.content_logical_size_gen) ≡ false
  pub path_depth : is_nil g.path_depth_gen ≡ false
  pub symlink_prob : is_nil g.symlink_prob_gen ≡ false
  pub xattrs : All (λ cfg. is_nil cfg.value_gen ≡ false) g.xattr_value_gens

-- The names that planning draws are names of the frame.
pub record Offers {R : Type 0} (g : Generator R) (base : Frame) : Type 0 where
  pub file_names : Supplies base g.file_name_gen
  pub byte_file_names : Supplies base g.byte_file_name_gen
  pub dir_names : Supplies base g.dir_name_gen
  pub byte_dir_names : Supplies base g.byte_dir_name_gen

module _ {R : Type 0} (random : Random R) (law : IsLawful random) (g : Generator R)
    (c : IsConfigured g) (base : Frame) (offers : Offers g base) (fuel : ℕ) (known : List Known)
    (d : Bytes) (here : In (a_dir d) known) where
  -- Code that plans in the directory `d` and releases what it reserves.
  abbrev pub Keeps : {A : Type 0} → List Bytes → Planner R A → Type 0
  Keeps held m =
      (s : PlanState R)
      → At base fuel known held s.book
      → Ensures (λ _ s'. At base fuel known held s'.book) (Safe base) (m s)

  pub file_path_rule :
      (held : List Bytes) (entry_kind : Bytes) (s : PlanState R)
      → At base fuel known held s.book
      → Ensures
          (λ p s'. Fresh base fuel known held d p s'.book)
          (Safe base)
          (plan_file_path random g d entry_kind s)
  unfolding plan_file_path
  file_path_rule held entry_kind s a =
      unique_path_rule base fuel known held d _ _ _ entry_kind s c.file_name_len c.file_name
        offers.file_names offers.byte_file_names a

  -- An entry that is no hardlink fits in the directory.
  pub Fits-here :
      (held : List Bytes) (e : PlannedEntry) (b : Book)
      → Fresh base fuel known held d e.path b
      → e.type_id ≢ hardlink
      → Fits base (shapes b.entries) (shape e)
  Fits-here held e b (a, (name, named, eq)) n = (
    inr (
      d,
      name,
      named,
      All-In (λ k. Holds k (shapes b.entries)) known (a_dir d) a.planned here,
      eq,
    ),
    λ h. absurd (n h),
  )

  pub append_symlink_rule :
      (held : List Bytes) (path target : Bytes) (s : PlanState R)
      → Fresh base fuel known held d path s.book
      → Ensures
          (λ _ s'. At base fuel known held s'.book)
          (Safe base)
          (append_symlink random g path target s)
  unfolding append_symlink
  append_symlink_rule held path target s f =
      seq_rule _ _ _
        (append_held_rule base fuel known held
          (record (new_entry symlink path) { link_target = target }) s f.0
          (Fits-here held (record (new_entry symlink path) { link_target = target }) s.book f
            (λ e. cc)))
        λ s1 (a1, _).
          modify_rule base (At base fuel known held) (register_symlink_path path) s1
            (refile-At base fuel known held _ _ _ _ _ a1 a1.inv.files)

  pub plan_symlink-Keeps :
      (held : List Bytes) (target : Bytes) → Keeps held (plan_symlink random g d target)
  unfolding plan_symlink
  plan_symlink-Keeps held target s a =
      bind_rule _ _ _ (file_path_rule held _ s a)
        λ path s1 f1. append_symlink_rule held path target s1 f1

  pub or_rel_error-Keeps :
      (held : List Bytes) (target : Bytes) (o : Option Bytes)
      → Keeps held (or_rel_error random g target o)
  unfolding or_rel_error
  or_rel_error-Keeps held target none s a = fail_rule _ s (tt, a.inv)
  or_rel_error-Keeps held target (some t) s a = pure_rule _ s a

  pub plan_symlink_to-Keeps : (o : Option Bytes) → Keeps [] (plan_symlink_to random g d o)
  unfolding plan_symlink_to
  plan_symlink_to-Keeps none s a = pure_rule _ s a
  plan_symlink_to-Keeps (some t) s a =
      seq_rule _ _ _ (plan_symlink-Keeps [] t s a) λ s1 a1. pure_rule _ s1 a1

  pub plan_relative-Keeps : (o : Option Bytes) → Keeps [] (plan_relative random g d o)
  unfolding plan_relative
  plan_relative-Keeps none s a = pure_rule _ s a
  plan_relative-Keeps (some t) s a =
      bind_rule _ _ _ (or_rel_error-Keeps [] t _ s a)
        λ t' s1 a1. seq_rule _ _ _ (plan_symlink-Keeps [] t' s1 a1) λ s2 a2. pure_rule _ s2 a2

  pub plan_self_referential-Keeps : Keeps [] (plan_self_referential random g d)
  unfolding plan_self_referential
  plan_self_referential-Keeps s a = bind_rule _ _ _ (file_path_rule [] _ s a) λ path s1 f1.
      seq_rule _ _ _ (append_symlink_rule [] path (base_of path) s1 f1) λ s2 a2. pure_rule _ s2 a2
