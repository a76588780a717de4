-- ===== src/Plan/Draws.antt =====
-- content_patterns.go and metadata.go: drawing content and metadata ends in a value or in an error
-- that the source returns.
use randfiletree.Prelude.{
  ℕ, zero, suc, false, Option, none, some, List, [], ◌∷◌, Bytes, err, ◌≡◌, All, arith, inl, inr,
  ◌==◌, not, is_empty, Result-cases, ltb, ◌-◌,
}
use randfiletree.Prelude.Int.{ℤ, pos, ltb_ℤ, pos_part}
use randfiletree.Action.{
  ◌>>=◌, pure, lift, returns, raises, bind_rule, pure_rule, fail_rule, guard_rule, if_rule,
}
use randfiletree.Plan.Types.{Random, Generator, PlanError, Gen, FailingGen, XattrValueGen}
use randfiletree.Plan.Config.{is_nil}
use randfiletree.Plan.Invariant.{IsReported}
use randfiletree.Plan.Rules.{OnlyReports}
use randfiletree.Plan.Content.{
  Drawing, ask, ask_opt, ask_failing, randomized_segment_length, randomized_offset,
  resolve_repeated_block, plan_dense, plan_sparse, plan_repeated, draw_updates, plan_overwrite,
  plan_pattern, plan_file_content_pattern, is_content_pattern, content_pattern_dense_random,
  content_pattern_sparse_holes, content_pattern_repeated_blocks, generate_block,
}
use randfiletree.Plan.Metadata.{
  draw_pair, draw_xattrs, draw_xattr_set, draw_acl, resolve_metadata, normalize_acl_entries,
  check_acl_entries, draw_value,
}

abbrev Fine : {R A : Type 0} → A → R → Type 0
Fine _ _ = Unit

abbrev Reported : {R : Type 0} → PlanError → R → Type 0
Reported e _ = IsReported e

module _ {R A : Type 0} where
  ask-OnlyReports : (g : Gen R A) → OnlyReports (ask g)
  unfolding ask
  ask-OnlyReports g r = returns tt

  ask_opt-OnlyReports : (o : Option (Gen R A)) → is_nil o ≡ false → OnlyReports (ask_opt o)
  unfolding ask_opt
  ask_opt-OnlyReports none h r = cc
  ask_opt-OnlyReports (some g) h r = ask-OnlyReports g r

  ask_failing-OnlyReports : (g : FailingGen R A) → OnlyReports (ask_failing g)
  unfolding ask_failing
  ask_failing-OnlyReports g r = elim (Result-cases (g r).0) [
    | inl (x, e) ↦ rw (e, ask_failing) (returns tt)
    | inr (x, e) ↦ rw (e, ask_failing) (raises tt)
  ]

  pure-OnlyReports : (a : A) → OnlyReports {R = R} (pure a)
  pure-OnlyReports a r = pure_rule _ r tt

-- Code whose parts only report.
bind-OnlyReports :
    {R A B : Type 0} (m : Drawing R A) (f : A → Drawing R B)
    → OnlyReports m
    → ((a : A) → OnlyReports (f a))
    → OnlyReports (m >>= f)
bind-OnlyReports m f h k r = bind_rule _ _ r (h r) λ a r' _. k a r'

module _ {R : Type 0} (random : Random R) where
  segment-OnlyReports : (n : ℕ) → OnlyReports (randomized_segment_length random n)
  unfolding randomized_segment_length
  segment-OnlyReports n r =
      if_rule (n == 0) _ _ r (λ _. pure-OnlyReports 0 r)
        λ _. bind_rule _ _ r (ask-OnlyReports _ r) λ k r1 _. pure-OnlyReports _ r1

  offset-OnlyReports : (n k : ℕ) → OnlyReports (randomized_offset random n k)
  unfolding randomized_offset
  offset-OnlyReports n k r =
      if_rule (ltb n k) _ _ r (λ _. fail_rule _ r tt)
        λ _. if_rule (n - k == 0) _ _ r (λ _. pure-OnlyReports 0 r) λ _. ask-OnlyReports _ r

  generate_block-OnlyReports :
      (o : Option (FailingGen R Bytes)) (n : ℕ) → OnlyReports (generate_block random o n)
  unfolding generate_block
  generate_block-OnlyReports none n = ask-OnlyReports _
  generate_block-OnlyReports (some g) n = ask_failing-OnlyReports g

  block-OnlyReports :
      (o : Option (FailingGen R Bytes)) (n : ℕ) → OnlyReports (resolve_repeated_block random o n)
  unfolding resolve_repeated_block
  block-OnlyReports o n r =
      bind_rule _ _ r (generate_block-OnlyReports o n r)
        λ block r1 _. guard_rule (is_empty block) _ _ r1 tt λ _. pure-OnlyReports _ r1

  dense-OnlyReports : (n : ℕ) → OnlyReports (plan_dense random n)
  unfolding plan_dense
  dense-OnlyReports n r = bind_rule _ _ r (ask-OnlyReports _ r) λ seed r1 _. pure-OnlyReports _ r1

  sparse-OnlyReports : (n : ℕ) → OnlyReports (plan_sparse random n)
  unfolding plan_sparse
  sparse-OnlyReports n r =
      if_rule (n == 0) _ _ r (λ _. pure-OnlyReports _ r)
        λ _. bind_rule _ _ r (segment-OnlyReports n r) λ k r1 _.
          bind_rule _ _ r1 (offset-OnlyReports n _ r1)
            λ o r2 _. bind_rule _ _ r2 (ask-OnlyReports _ r2) λ seed r3 _. pure-OnlyReports _ r3

  repeated-OnlyReports :
      (o : Option (FailingGen R Bytes)) (n : ℕ) → OnlyReports (plan_repeated random o n)
  unfolding plan_repeated
  repeated-OnlyReports o n r =
      bind_rule _ _ r (block-OnlyReports o n r) λ b r1 _. pure-OnlyReports _ r1

  updates-OnlyReports : (k n : ℕ) → OnlyReports (draw_updates random k n)
  unfolding draw_updates
  updates-OnlyReports zero n r = pure-OnlyReports _ r
  updates-OnlyReports (suc k) n r = bind_rule _ _ r (segment-OnlyReports n r) λ len r1 _.
      bind_rule _ _ r1 (offset-OnlyReports n len r1) λ o r2 _.
        bind_rule _ _ r2 (ask-OnlyReports _ r2) λ seed r3 _.
          bind_rule _ _ r3 (updates-OnlyReports k n r3) λ rest r4 _. pure-OnlyReports _ r4

  overwrite-OnlyReports : (n : ℕ) → OnlyReports (plan_overwrite random n)
  unfolding plan_overwrite
  overwrite-OnlyReports n r = bind_rule _ _ r (ask-OnlyReports _ r) λ seed r1 _.
      if_rule (n == 0) _ _ r1 (λ _. pure-OnlyReports _ r1)
        λ _. bind_rule _ _ r1 (updates-OnlyReports 2 n r1) λ us r2 _. pure-OnlyReports _ r2

  pattern-OnlyReports :
      (o : Option (FailingGen R Bytes)) (p n : ℕ) → OnlyReports (plan_pattern random o p n)
  unfolding plan_pattern
  pattern-OnlyReports o p n r =
      if_rule (p == content_pattern_dense_random) _ _ r (λ _. dense-OnlyReports n r)
        λ _.
          if_rule (p == content_pattern_sparse_holes) _ _ r (λ _. sparse-OnlyReports n r)
            λ _.
              if_rule (p == content_pattern_repeated_blocks) _ _ r (λ _. repeated-OnlyReports o n r)
                λ _. overwrite-OnlyReports n r

  pub content-OnlyReports :
      (g : Generator R)
      → is_nil g.content_pattern_gen ≡ false
      → is_nil g.content_logical_size_gen ≡ false
      → OnlyReports (plan_file_content_pattern random g)
  unfolding plan_file_content_pattern
  content-OnlyReports g h k r =
      bind_rule _ _ r (ask_opt-OnlyReports g.content_pattern_gen h r) λ p r1 _.
        guard_rule (not (is_content_pattern p)) _ _ r1 tt λ _.
          bind_rule _ _ r1 (ask_opt-OnlyReports g.content_logical_size_gen k r1) λ size r2 _.
            guard_rule (ltb_ℤ size (pos 0)) _ _ r2 tt
              λ _. pattern-OnlyReports g.data_gen p (pos_part size) r2

check_acl-IsReported :
    (i : ℕ) (ws : List Bytes) (e : PlanError) → check_acl_entries i ws ≡ err e → IsReported e
unfolding check_acl_entries
check_acl-IsReported i [] e h = cc
check_acl-IsReported i (w ∷ ws) e h = ground (arith, check_acl-IsReported (suc i) ws e)

normalize_acl-OnlyReports :
    {R : Type 0} (ws : List Bytes) → OnlyReports {R = R} (lift (normalize_acl_entries ws))
unfolding lift normalize_acl_entries
normalize_acl-OnlyReports ws r = elim (Result-cases (check_acl_entries 0 ws)) [
  | inl (x, e) ↦ rw (e, normalize_acl_entries) (returns tt)
  | inr (x, e) ↦ rw (e, normalize_acl_entries) (raises (check_acl-IsReported 0 ws x e))
]

module _ {R : Type 0} where
  pair-OnlyReports : (f g : Option (Gen R ℤ)) → OnlyReports (draw_pair f g)
  unfolding draw_pair
  pair-OnlyReports (some f) (some g) r =
      bind_rule _ _ r (ask-OnlyReports f r)
        λ a r1 _. bind_rule _ _ r1 (ask-OnlyReports g r1) λ b r2 _. pure-OnlyReports _ r2
  pair-OnlyReports (some f) none r = pure-OnlyReports _ r
  pair-OnlyReports none g r = pure-OnlyReports _ r

  value-OnlyReports :
      (o : Option (FailingGen R Bytes)) → is_nil o ≡ false → OnlyReports (draw_value o)
  unfolding draw_value
  value-OnlyReports none h r = cc
  value-OnlyReports (some g) h r = ask_failing-OnlyReports g r

  xattrs-OnlyReports :
      (cfgs : List (XattrValueGen R)) (xattrs : List (Bytes × Bytes))
      → All (λ cfg. is_nil cfg.value_gen ≡ false) cfgs
      → OnlyReports (draw_xattrs cfgs xattrs)
  unfolding draw_xattrs
  xattrs-OnlyReports [] xattrs h r = pure-OnlyReports _ r
  xattrs-OnlyReports (cfg ∷ cfgs) xattrs (k, h) r =
      bind_rule _ _ r (value-OnlyReports cfg.value_gen k r) λ v r1 _. xattrs-OnlyReports cfgs _ h r1

  xattr_set-OnlyReports :
      (cfgs : List (XattrValueGen R))
      → All (λ cfg. is_nil cfg.value_gen ≡ false) cfgs
      → OnlyReports (draw_xattr_set cfgs)
  unfolding draw_xattr_set
  xattr_set-OnlyReports [] h r = pure-OnlyReports _ r
  xattr_set-OnlyReports (cfg ∷ cfgs) h r =
      bind_rule _ _ r (xattrs-OnlyReports (cfg ∷ cfgs) [] h r) λ x r1 _. pure-OnlyReports _ r1

  acl-OnlyReports : (o : Option (FailingGen R (List Bytes))) → OnlyReports (draw_acl o)
  unfolding draw_acl
  acl-OnlyReports none r = pure-OnlyReports _ r
  acl-OnlyReports (some g) r =
      bind_rule _ _ r (ask_failing-OnlyReports g r) λ ws r1 _.
        bind_rule _ _ r1 (normalize_acl-OnlyReports ws r1) λ x r2 _. pure-OnlyReports _ r2

  pub metadata-OnlyReports :
      (g : Generator R)
      → All (λ cfg. is_nil cfg.value_gen ≡ false) g.xattr_value_gens
      → OnlyReports (resolve_metadata g)
  unfolding resolve_metadata
  metadata-OnlyReports g h r = bind_rule _ _ r (pair-OnlyReports _ _ r) λ o r1 _.
      bind_rule _ _ r1 (pair-OnlyReports _ _ r1) λ t r2 _.
        bind_rule _ _ r2 (xattr_set-OnlyReports _ h r2)
          λ x r3 _. bind_rule _ _ r3 (acl-OnlyReports _ r3) λ a r4 _. pure-OnlyReports _ r4
