-- ===== src/Plan/Nodes.antt =====
-- plan.go: planning special files and files, and one round of the loop over the files of a
-- directory, keep the invariant.
use randfiletree.Prelude.{
  ℕ, Bool, true, false, Option, none, some, List, [], Bytes, ◌&&◌, ◌||◌, ◌≡◌, refl, sym, In, not,
}
use mathlib.Core.Path.{subst}
use randfiletree.Prelude.Int.{ℤ, pos, ltb_ℤ}
use randfiletree.Action.{Ensures, bind_rule, seq_rule, pure_rule, fail_rule, guard_rule, if_rule}
use randfiletree.Plan.Types.{
  Random, IsLawful, Generator, PlannedEntry, PlannedEntryType, special, file, new_entry, Gen,
  FailingGen,
}
use randfiletree.Plan.State.{Book, PlanState, set_last_path}
use randfiletree.Plan.Config.{is_nil, differ}
use randfiletree.Plan.Invariant.{Frame, Known, a_dir, Inv, FileIn, IsFileLike, shapes}
use randfiletree.Plan.Rules.{
  Safe, At, Fresh, draw_rule, call_rule, call_failing_rule, modify_rule, on_random_rule,
}
use randfiletree.Plan.Steps.{refile-At, append_held_rule, FileIn-snoc}
use randfiletree.Plan.Soundness.{
  IsConfigured, Offers, file_path_rule, Fits-here, plan_symlink-Keeps, or_rel_error-Keeps,
}
use randfiletree.Plan.Files.{Kept, should_plan-Kept, try_plan_symlink-Kept, try_plan_hardlink-Kept}
use randfiletree.Plan.Draws.{content-OnlyReports, metadata-OnlyReports}
use randfiletree.Plan.Entries.{
  next_special_file_type, device_numbers, plan_special_file, try_plan_special_file, generate_data,
  fill_content, plan_companion, plan_file, plan_node, is_special_device_type, is_special_file_type,
}

module _ {R : Type 0} (random : Random R) (g : Generator R) (base : Frame) (P : Book → Type 0)
    (safe : (b : Book) → P b → Inv base b) where
  next_special_file_type_rule :
      (o : Option (Gen R ℕ)) (s : PlanState R)
      → P s.book
      → Ensures (λ _ s'. P s'.book) (Safe base) (next_special_file_type random g o s)
  unfolding next_special_file_type
  next_special_file_type_rule none s p = pure_rule _ s p
  next_special_file_type_rule (some t) s p = draw_rule base P t s p

  device_numbers_rule :
      (t : ℕ) (f h : Option (Gen R ℤ)) (s : PlanState R)
      → P s.book
      → Ensures (λ _ s'. P s'.book) (Safe base) (device_numbers random g t f h s)
  unfolding device_numbers
  device_numbers_rule t (some f) (some h) s p =
      if_rule (is_special_device_type t) _ _ s
        (λ _. bind_rule _ _ _ (draw_rule base P f s p) λ major s1 p1.
          bind_rule _ _ _ (draw_rule base P h s1 p1) λ minor s2 p2.
            guard_rule (ltb_ℤ major (pos 0)) _ _ s2 (tt, safe _ p2)
              λ _. guard_rule (ltb_ℤ minor (pos 0)) _ _ s2 (tt, safe _ p2) λ _. pure_rule _ s2 p2)
        λ _. pure_rule _ s p
  device_numbers_rule t (some f) none s p =
      if_rule (is_special_device_type t) _ _ s (λ _. fail_rule _ s (tt, safe _ p))
        λ _. pure_rule _ s p
  device_numbers_rule t none h s p =
      if_rule (is_special_device_type t) _ _ s (λ _. fail_rule _ s (tt, safe _ p))
        λ _. pure_rule _ s p

  generate_data_rule :
      (o : Option (FailingGen R Bytes)) (s : PlanState R)
      → is_nil o ≡ false
      → P s.book
      → Ensures (λ _ s'. P s'.book) (Safe base) (generate_data random g o s)
  unfolding generate_data
  generate_data_rule none s h p = cc
  generate_data_rule (some f) s h p = call_failing_rule base P f s (safe _ p) p

-- A configuration with no pattern has a data generator, and one with a pattern has the sizes too.
data_needed :
    (no_data no_pattern no_size : Bool)
    → (no_data && no_pattern) ≡ false
    → differ no_pattern no_size ≡ false
    → (no_pattern || no_size) ≡ true
    → no_data ≡ false
data_needed false no_pattern no_size h k l = refl
data_needed true true no_size h k l = cc
data_needed true false true h k l = cc
data_needed true false false h k l = cc

pattern_needed :
    (no_pattern no_size : Bool)
    → (no_pattern || no_size) ≡ false
    → (no_pattern ≡ false) × (no_size ≡ false)
pattern_needed true no_size h = cc
pattern_needed false true h = cc
pattern_needed false false h = (refl, refl)

filelike : {t : PlannedEntryType} → t ≡ file → IsFileLike t
filelike e = subst IsFileLike (sym e) tt

module _ {R : Type 0} (random : Random R) (law : IsLawful random) (g : Generator R)
    (c : IsConfigured g) (base : Frame) (offers : Offers g base) (fuel : ℕ) (known : List Known)
    (d : Bytes) (here : In (a_dir d) known) where
  -- The path is reserved in the directory.
  abbrev Reserving : Bytes → Book → Type 0
  Reserving = Fresh base fuel known [] d

  plan_special_file-Kept :
      Kept random law g c base offers fuel known d here (plan_special_file random g d)
  unfolding plan_special_file
  plan_special_file-Kept s a =
      bind_rule _ _ _
        (next_special_file_type_rule random g base (At base fuel known []) (λ b a. a.inv)
          g.special_file_type_gen s a)
        λ t s1 a1.
          guard_rule (not (is_special_file_type t)) _ _ s1 (tt, a1.inv)
            λ _.
              bind_rule _ _ _
                (file_path_rule random law g c base offers fuel known d here [] _ s1 a1)
                λ path s2 f2.
                  bind_rule _ _ _
                    (call_rule base (Reserving path) g.file_mode_gen s2 c.file_mode f2)
                    λ mode s3 f3.
                      bind_rule _ _ _
                        (device_numbers_rule random g base (Reserving path) (λ b f. f.0.inv) t _ _
                          s3 f3)
                        λ numbers s4 f4.
                          let e = record (new_entry special path) {
                            mode = mode;
                            special_file_type = t;
                            special_device_major = numbers.0;
                            special_device_minor = numbers.1;
                          } in
                          seq_rule _ _ _
                            (append_held_rule base fuel known [] e s4 f4.0 (
                              Fits-here random law g c base offers fuel known d here [] e s4.book f4
                                (λ x. cc)))
                            λ s5 (a5, _).
                              seq_rule _ _ _
                                (modify_rule base (At base fuel known []) (set_last_path path) s5
                                  (refile-At base fuel known [] _ _ _ _ _ a5 a5.inv.files))
                                λ s6 a6. pure_rule _ s6 a6

  try_plan_special_file-Kept :
      Kept random law g c base offers fuel known d here (try_plan_special_file random g d)
  unfolding try_plan_special_file
  try_plan_special_file-Kept s a =
      bind_rule _ _ _
        (should_plan-Kept random law g c base offers fuel known d here g.special_file_prob_gen s a)
        λ wanted s1 a1.
          if_rule (not wanted) _ _ s1 (λ _. pure_rule _ s1 a1) λ _. plan_special_file-Kept s1 a1

  -- The entry is that of the file at the path, which is still reserved.
  abbrev Filled : Bytes → PlannedEntry → Book → Type 0
  Filled path e b = Reserving e.path b × (e.type_id ≡ file) × (e.path ≡ path)

  fill_content_rule :
      (e : PlannedEntry) (path : Bytes) (s : PlanState R)
      → Filled path e s.book
      → Ensures (λ e' s'. Filled path e' s'.book) (Safe base) (fill_content random g e s)
  unfolding fill_content
  fill_content_rule e path s f =
      if_rule (is_nil g.content_pattern_gen || is_nil g.content_logical_size_gen) _ _ s
        (λ h.
          bind_rule _ _ _
            (generate_data_rule random g base (Filled path e) (λ b f. f.0.0.inv) g.data_gen s
              (data_needed _ _ _ c.content c.content_pair h) f)
            λ bytes s1 f1. pure_rule _ s1 f1)
        λ h.
          bind_rule _ _ _
            (on_random_rule base (Filled path e) _ s
              (let (x, y) = pattern_needed _ _ h in content-OnlyReports random g x y) f.0.0.inv f)
            λ content s1 f1. pure_rule _ s1 f1

  plan_companion-Kept :
      (path : Bytes)
      → Kept random law g c base offers fuel known d here (plan_companion random g d path)
  unfolding plan_companion
  plan_companion-Kept path s a =
      if_rule (not (is_nil g.symlink_strategy_gen)) _ _ s (λ _. pure_rule _ s a)
        λ _.
          bind_rule _ _ _
            (should_plan-Kept random law g c base offers fuel known d here g.symlink_rel_prob_gen s
              a)
            λ wanted s1 a1.
              if_rule (not wanted) _ _ s1 (λ _. pure_rule _ s1 a1)
                λ _.
                  bind_rule _ _ _
                    (or_rel_error-Keeps random law g c base offers fuel known d here [] path _ s1
                      a1)
                    λ target s2 a2.
                      plan_symlink-Keeps random law g c base offers fuel known d here [] target s2
                        a2

  plan_file-Kept : Kept random law g c base offers fuel known d here (plan_file random g d)
  unfolding plan_file
  plan_file-Kept s a =
      bind_rule _ _ _ (file_path_rule random law g c base offers fuel known d here [] _ s a)
        λ path s1 f1.
          bind_rule _ _ _ (call_rule base (Reserving path) g.file_mode_gen s1 c.file_mode f1)
            λ mode s2 f2.
              bind_rule _ _ _
                (fill_content_rule (record (new_entry file path) { mode = mode }) path s2
                  (f2, refl, refl))
                λ e s3 f3.
                  bind_rule _ _ _
                    (on_random_rule base (Filled path e) _ s3 (metadata-OnlyReports g c.xattrs)
                      f3.0.0.inv f3)
                    λ metadata s4 (f4, is_file, at_path).
                      seq_rule _ _ _
                        (append_held_rule base fuel known [] (record e { metadata = metadata }) s4
                          f4.0
                          (Fits-here random law g c base offers fuel known d here []
                            (record e { metadata = metadata }) s4.book f4 (λ x. cc)))
                        λ s5 (a5, (found, _)).
                          seq_rule _ _ _
                            (modify_rule base (At base fuel known []) _ s5 (
                              refile-At base fuel known [] _ _ _ _ _ a5 (
                                FileIn-snoc s5.book.file_paths path _ a5.inv.files (
                                  subst (λ p. FileIn p (shapes s5.book.entries)) at_path
                                    (found (filelike is_file))))))
                            λ s6 a6. plan_companion-Kept path s6 a6

  pub plan_node-Kept : Kept random law g c base offers fuel known d here (plan_node random g d)
  unfolding plan_node
  plan_node-Kept s a =
      bind_rule _ _ _ (try_plan_symlink-Kept random law g c base offers fuel known d here s a)
        λ l s1 a1.
          if_rule l _ _ s1 (λ _. pure_rule _ s1 a1)
            λ _.
              bind_rule _ _ _
                (try_plan_hardlink-Kept random law g c base offers fuel known d here s1 a1)
                λ k s2 a2.
                  if_rule k _ _ s2 (λ _. pure_rule _ s2 a2)
                    λ _.
                      bind_rule _ _ _ (try_plan_special_file-Kept s2 a2) λ j s3 a3.
                        if_rule j _ _ s3 (λ _. pure_rule _ s3 a3) λ _. plan_file-Kept s3 a3
