-- ===== src/Tests/Plans.antt =====
-- plan.go on a small configuration.
use randfiletree.Prelude.{
  ℕ, suc, ◌+◌, ◌%◌, ◌≤◌, false, some, none, [], ◌∷◌, codes, ok, length, ltb, ◌==◌, if◌then◌else◌,
  ◌≡◌, refl, inl, inr, eqb_differ, Option, ◌<◌, Distinct, arith,
}
use randfiletree.Prelude.Int.{ℤ, pos}
use mathlib.Core.Path.{subst}
use randfiletree.Plan.Types.{Random, IsLawful, Generator, NameGen}
use randfiletree.Plan.Config.{
  validate_run_configuration, missing_names, missing_content, missing_links, xattr_problems,
  is_run_mode, run_mode_append,
}
use randfiletree.Plan.Metadata.{validate_xattr_configuration, validate_xattr_gens}
use randfiletree.Plan.Invariant.{paths, shapes}
use randfiletree.Plan.Placed.{InOrder, GivesNames, plan_run-InOrder}
use randfiletree.GoPath.{render, dot, dot_dot}
use randfiletree.GoPath.Rooted.{Plain}
use randfiletree.Plan.Tree.{plan_run}
use randfiletree.Plan.Content.{plan_file_content_pattern, content_pattern_sparse_holes}
use randfiletree.Plan.Extents.{IsPlanned, plan_file_content_pattern-IsPlanned}
use randfiletree.Plan.Run.{HasReported, plan_run-HasReported, plan_run-Distinct, plan_run-bounded}

-- A random source that counts.
abbrev counter : Random ℕ
counter = record {
  intn = λ r n. (if ltb r n then r else 0, suc r);
  int63n = λ r n. (if ltb r n then r else 0, suc r);
  int63 = λ r. (r, suc r);
  read = λ r n. ([], suc r);
}

counter-IsLawful : IsLawful counter
counter-IsLawful = record { intn_lt = λ r n h. ground arith; int63n_lt = λ r n h. ground arith }

-- Two directories deep, with symlinks at every third draw and hardlinks at every other.
abbrev small_tree : Generator ℕ
small_tree = record {
  base_path = codes "/t";
  dir_name_gen = some (λ r n. ((100 + r) ∷ [], suc r));
  dir_name_len_gen = some (λ r. (pos 1, r));
  dir_mode_gen = some (λ r. (493, r));
  n_files_in_dir_gen = some (λ r. (pos 3, r));
  n_dirs_in_dir_gen = some (λ r. (pos 1, r));
  file_name_gen = some (λ r n. ((200 + r) ∷ [], suc r));
  file_name_len_gen = some (λ r. (pos 1, r));
  file_mode_gen = some (λ r. (420, r));
  data_gen = some (λ r. (ok (r ∷ []), suc r));
  path_depth_gen = some (λ r. (pos 1, r));
  content_pattern_gen = none;
  content_logical_size_gen = none;
  ownership_uid_gen = none;
  ownership_gid_gen = none;
  atime_gen = none;
  mtime_gen = none;
  xattr_value_gens = [];
  xattr_allow_trusted_namespace = false;
  xattr_allow_security_namespace = false;
  acl_entries_gen = none;
  symlink_prob_gen = some (λ r. ((r % 3) == 2, suc r));
  symlink_rel_prob_gen = some (λ r. (false, suc r));
  hardlink_prob_gen = some (λ r. ((r % 2) == 0, suc r));
  special_file_prob_gen = none;
  symlink_strategy_gen = none;
  special_file_type_gen = none;
  special_device_major_gen = none;
  special_device_minor_gen = none;
  byte_file_name_gen = none;
  byte_dir_name_gen = none;
  rnd_src = some 0;
  run_mode = run_mode_append;
  plan_entry_limit = pos 6;
}

small_tree_accepted : validate_run_configuration small_tree ≡ ok tt
unfolding validate_run_configuration missing_names missing_content missing_links xattr_problems
    validate_xattr_configuration validate_xattr_gens is_run_mode
small_tree_accepted = refl

reports_example : HasReported (plan_run counter small_tree 1).0
reports_example = plan_run-HasReported counter counter-IsLawful small_tree small_tree_accepted 1

-- A byte behind the slash is a name.
one_byte-Plain : (c : ℕ) → 47 < c → Plain (c ∷ [])
one_byte-Plain c h = record {
  some_text = refl;
  not_dot = eqb_differ (c ∷ []) dot (λ e. absurd (omega (arith, h, heads_same e)));
  not_dot_dot = eqb_differ (c ∷ []) dot_dot (λ e. longer e);
  allowed = ((ground arith, ground arith), tt);
}
  where
    heads_same : c ∷ [] ≡ dot → c ≡ 46
    heads_same e = cc

    longer : c ∷ [] ≡ dot_dot → ⊥
    longer e = cc

drawn_by :
    (g gen : NameGen ℕ) (r : ℕ) (n : ℤ)
    → ◌≡◌ {A = Option (NameGen ℕ)} (some g) (some gen)
    → Plain (g r n).0
    → Plain (gen r n).0
drawn_by g gen r n e p = subst (λ h. Plain (h r n).0) (generators_same e) p
  where
    generators_same :
        {g gen : NameGen ℕ} → ◌≡◌ {A = Option (NameGen ℕ)} (some g) (some gen) → g ≡ gen
    generators_same e = cc

small_tree-GivesNames : GivesNames small_tree
small_tree-GivesNames gen r n (inl e) =
    drawn_by (λ r n. ((200 + r) ∷ [], suc r)) gen r n e (one_byte-Plain (200 + r) (omega arith))
small_tree-GivesNames gen r n (inr (inl e)) = cc
small_tree-GivesNames gen r n (inr (inr (inl e))) =
    drawn_by (λ r n. ((100 + r) ∷ [], suc r)) gen r n e (one_byte-Plain (100 + r) (omega arith))
small_tree-GivesNames gen r n (inr (inr (inr e))) = cc

ordered_example : InOrder (codes "/t") [] (shapes (plan_run counter small_tree 1).1.entries)
ordered_example =
    plan_run-InOrder counter small_tree (codes "t" ∷ []) counter-IsLawful small_tree_accepted
      small_tree-GivesNames (one_byte-Plain 116 (omega arith), tt) (unfold render in refl) 1

distinct_example : Distinct (paths (shapes (plan_run counter small_tree 1).1.entries))
distinct_example = plan_run-Distinct counter counter-IsLawful small_tree small_tree_accepted 1

bounded_example : length (plan_run counter small_tree 1).1.entries ≤ 6
bounded_example = plan_run-bounded counter counter-IsLawful small_tree small_tree_accepted 1

-- With sparse files of five bytes.
abbrev sparse_tree : Generator ℕ
sparse_tree = record small_tree {
  content_pattern_gen = some (λ r. (content_pattern_sparse_holes, r));
  content_logical_size_gen = some (λ r. (pos 5, r));
}

content_example : IsPlanned (plan_file_content_pattern counter sparse_tree 9).0
content_example = plan_file_content_pattern-IsPlanned counter counter-IsLawful sparse_tree 9
