-- ===== src/Plan/Accepted.antt =====
-- generator.go: what a configuration that `validateRunConfiguration` accepts has.
use randfiletree.Prelude.{
  ℕ, suc, Bool, true, false, List, [], ◌∷◌, ◌++◌, Bytes, ok, ◌≡◌, refl, All, arith, ◌&&◌, not,
  is_empty,
}
use randfiletree.Prelude.Int.{pos, leb_ℤ}
use randfiletree.Plan.Types.{Generator, XattrValueGen}
use randfiletree.Plan.Metadata.{validate_xattr_gens, validate_xattr_configuration}
use randfiletree.Plan.Config.{
  is_nil, differ, Missing, note_if, is_run_mode, missing_names, missing_content, missing_links,
  xattr_problems, validate_run_configuration, symlink_target_generator, special_incomplete,
  device_incomplete, bad_run_mode, bad_entry_limit,
}
use randfiletree.Plan.Soundness.{IsConfigured}

note_if-nil :
    (b : Bool) (m : Missing) (rest : List Missing)
    → note_if b m ++ rest ≡ []
    → (b ≡ false) × (rest ≡ [])
note_if-nil true m rest h = cc
note_if-nil false m rest h = (refl, h)

note_if-last : (b : Bool) (m : Missing) → note_if b m ≡ [] → b ≡ false
note_if-last true m h = cc
note_if-last false m h = refl

append-nil_parts : (xs ys : List Missing) → xs ++ ys ≡ [] → (xs ≡ []) × (ys ≡ [])
append-nil_parts [] ys h = (refl, h)
append-nil_parts (x ∷ xs) ys h = cc

is_empty-nil : (xs : List Missing) → is_empty xs ≡ true → xs ≡ []
is_empty-nil [] h = refl
is_empty-nil (x ∷ xs) h = cc

module _ {R : Type 0} where
  xattr_gens-values :
      (trusted security : Bool) (i : ℕ) (seen : List Bytes) (cfgs : List (XattrValueGen R))
      → validate_xattr_gens trusted security i seen cfgs ≡ ok tt
      → All (λ cfg. is_nil cfg.value_gen ≡ false) cfgs
  unfolding validate_xattr_gens
  xattr_gens-values trusted security i seen [] h = tt
  xattr_gens-values trusted security i seen (cfg ∷ cfgs) h = (
    ground arith,
    xattr_gens-values trusted security (suc i) (cfg.name ∷ seen) cfgs (ground arith),
  )

  xattr_problems-nil :
      (g : Generator R)
      → xattr_problems g ≡ []
      → All (λ cfg. is_nil cfg.value_gen ≡ false) g.xattr_value_gens
  unfolding xattr_problems validate_xattr_configuration
  xattr_problems-nil g h =
      xattr_gens-values g.xattr_allow_trusted_namespace g.xattr_allow_security_namespace 0 []
        g.xattr_value_gens (ground arith)

  missing-nil :
      (g : Generator R)
      → validate_run_configuration g ≡ ok tt
      → missing_names g ++ (missing_content g ++ missing_links g) ≡ []
  unfolding validate_run_configuration
  missing-nil g h = is_empty-nil _ (ground arith)

  -- A configuration that is accepted has each generator that planning calls, and a value
  -- generator for each extended attribute.
  pub accepted-IsConfigured :
      (g : Generator R) → validate_run_configuration g ≡ ok tt → IsConfigured g
  unfolding missing_names missing_content missing_links
  accepted-IsConfigured g h =
      let (names, rest) = append-nil_parts (missing_names g) _ (missing-nil g h) in
      let (content, links) = append-nil_parts (missing_content g) _ rest in
      let (_, n1) = note_if-nil _ _ _ names in
      let (dir_name, n2) = note_if-nil _ _ _ n1 in
      let (dir_name_len, n3) = note_if-nil _ _ _ n2 in
      let (dir_mode, n4) = note_if-nil _ _ _ n3 in
      let (n_files, n5) = note_if-nil _ _ _ n4 in
      let (n_dirs, n6) = note_if-nil _ _ _ n5 in
      let (file_name, n7) = note_if-nil _ _ _ n6 in
      let (file_name_len, n8) = note_if-nil _ _ _ n7 in
      let (no_data, c1) = note_if-nil _ _ _ content in
      let (content_pair, c2) = note_if-nil _ _ _ c1 in
      let (path_depth, _) = note_if-nil _ _ _ c2 in
      let (symlink_prob, l1) = note_if-nil _ _ _ links in
      let (_, l2) =
        note_if-nil (is_nil g.symlink_rel_prob_gen && is_nil g.symlink_strategy_gen)
          symlink_target_generator _ l1 in
      let (_, l3) =
        note_if-nil (differ (is_nil g.special_file_prob_gen) (is_nil g.special_file_type_gen))
          special_incomplete _ l2 in
      let (_, l4) =
        note_if-nil (differ (is_nil g.special_device_major_gen) (is_nil g.special_device_minor_gen))
          device_incomplete _ l3 in
      let (xattrs, _) =
        append-nil_parts (xattr_problems g)
          (note_if (not (is_run_mode g.run_mode)) (bad_run_mode g.run_mode)
            ++ note_if (leb_ℤ g.plan_entry_limit (pos 0)) bad_entry_limit)
          l4 in
      record {
        dir_name = dir_name;
        dir_name_len = dir_name_len;
        dir_mode = dir_mode;
        n_files = n_files;
        n_dirs = n_dirs;
        file_name = file_name;
        file_name_len = file_name_len;
        file_mode = note_if-last _ _ n8;
        content = no_data;
        content_pair = content_pair;
        path_depth = path_depth;
        symlink_prob = symlink_prob;
        xattrs = xattr_problems-nil g xattrs;
      }
