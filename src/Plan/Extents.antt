-- ===== src/Plan/Extents.antt =====
-- content_patterns.go: the ranges that a content pattern writes lie within the file.
use randfiletree.Prelude.{
  ℕ, zero, suc, ◌+◌, ◌-◌, ◌≤◌, ◌<◌, true, Option, none, some, List, [], ◌∷◌, ◌⊎◌, Bytes, Result, ok,
  err, length, ltb, leb, ◌==◌, ◌&&◌, not, is_empty, if◌then◌else◌, ◌≡◌, All, arith, inl, inr,
  Result-cases,
}
use randfiletree.Prelude.Int.{pos, ltb_ℤ, pos_part}
use randfiletree.Action.{
  Ensures, returns, raises, bind_rule, pure_rule, fail_rule, guard_rule, if_rule,
}
use randfiletree.Plan.Types.{
  Random, IsLawful, Generator, PlanError, segment_exceeds_size, PlannedContentRange,
  PlannedFileContent, Gen, FailingGen,
}
use randfiletree.Plan.Content.{
  ask, ask_opt, ask_failing, randomized_segment_length, randomized_offset, generate_block,
  resolve_repeated_block, plan_dense, plan_sparse, plan_repeated, draw_updates, plan_overwrite,
  plan_pattern, plan_file_content_pattern, is_content_pattern, range_before,
  content_pattern_dense_random, content_pattern_sparse_holes, content_pattern_repeated_blocks,
  default_content_write_chunk_size, default_pattern_segment_max_length,
}
use randfiletree.Plan.Lengths.{sort_by-All, cut_block, shortened}

-- A range that is not empty and ends within the size.
abbrev pub InFile : ℕ → PlannedContentRange → Type 0
InFile size range = (0 < range.length) × (range.offset + range.length ≤ size)

-- The byte at `i` is not in the range.
abbrev pub Outside : ℕ → PlannedContentRange → Type 0
Outside i range = (i < range.offset) ⊎ (range.offset + range.length ≤ i)

-- Some byte of the file is in none of the ranges.
abbrev pub HasHole : ℕ → List PlannedContentRange → Type 0
HasHole size ranges = (i : ℕ) × (i < size) × All (Outside i) ranges

-- A range shorter than the file leaves its first byte or the byte behind the range.
one_range-HasHole :
    (size offset len seed : ℕ)
    → offset + len ≤ size
    → len < size
    → HasHole size (record { offset = offset; length = len; seed = seed } ∷ [])
one_range-HasHole size zero len seed h l = (len, l, (inr (omega arith), tt))
one_range-HasHole size (suc offset) len seed h l = (0, omega arith, (inl (omega arith), tt))

pub record IsWithin (c : PlannedFileContent) : Type 0 where
  pub sparse : All (InFile c.logical_size) c.sparse_extents
  pub overwrite : All (InFile c.logical_size) c.overwrite_extents
  pub hole :
      c.pattern ≡ content_pattern_sparse_holes
      → 1 < c.logical_size
      → (c.expected_sparse ≡ true) × HasHole c.logical_size c.sparse_extents
  pub block :
      c.pattern ≡ content_pattern_repeated_blocks
      → (0 < length c.repeated_block) × (length c.repeated_block ≤ default_content_write_chunk_size)

-- A segment that was drawn is never longer than the file.
abbrev pub IsFitting : PlanError → Type 0
IsFitting (segment_exceeds_size _ _) = ⊥
IsFitting _ = Unit

abbrev Fitting : {R : Type 0} → PlanError → R → Type 0
Fitting e r = IsFitting e

-- The content is within the file, or the error is another one.
abbrev pub IsPlanned : Result PlanError PlannedFileContent → Type 0
IsPlanned (ok c) = IsWithin c
IsPlanned (err e) = IsFitting e

module _ {R : Type 0} where
  ask_rule :
      {A : Type 0} {Q : A → R → Type 0} (g : Gen R A) (r : R)
      → Q (g r).0 (g r).1
      → Ensures Q Fitting (ask g r)
  unfolding ask
  ask_rule g r q = returns q

  ask_opt_rule :
      {A : Type 0} (o : Option (Gen R A)) (r : R) → Ensures (λ _ _. Unit {0}) Fitting (ask_opt o r)
  unfolding ask_opt
  ask_opt_rule none r = fail_rule _ r tt
  ask_opt_rule (some g) r = ask_rule g r tt

  ask_failing_rule :
      {A : Type 0} (g : FailingGen R A) (r : R)
      → Ensures (λ _ _. Unit {0}) Fitting (ask_failing g r)
  unfolding ask_failing
  ask_failing_rule g r = elim (Result-cases (g r).0) [
    | inl (x, e) ↦ rw (e, ask_failing) (returns tt)
    | inr (x, e) ↦ rw (e, ask_failing) (raises tt)
  ]

planned :
    {R : Type 0} {x : Result PlanError PlannedFileContent × R}
    → Ensures (λ c _. IsWithin c) Fitting x
    → IsPlanned x.0
planned (returns w) = w
planned (raises f) = f

module _ {R : Type 0} (random : Random R) (law : IsLawful random) where
  segment_rule :
      (n : ℕ) (r : R)
      → 0 < n
      → Ensures (λ k _. (0 < k) × (k ≤ n)) Fitting (randomized_segment_length random n r)
  unfolding randomized_segment_length
  segment_rule n r h =
      if_rule (n == 0) _ _ r (λ e. absurd (ground arith))
        λ _.
          bind_rule {Q = λ k _. suc k ≤ n} _ _ r
            (ask_rule {Q = λ k _. suc k ≤ n} (λ r. random.intn r (longest n)) r
              (bound (random.intn r (longest n)).0 (law.intn_lt r (longest n) (ground arith))))
            λ k r1 l. pure_rule _ r1 (omega arith, omega arith)
    where
      longest : ℕ → ℕ
      longest n =
          if ltb default_pattern_segment_max_length n then default_pattern_segment_max_length else n

      bound : (k : ℕ) → k < longest n → suc k ≤ n
      bound k l = ground arith

  offset_rule :
      (n k : ℕ) (r : R)
      → k ≤ n
      → Ensures (λ o _. o + k ≤ n) Fitting (randomized_offset random n k r)
  unfolding randomized_offset
  offset_rule n k r h =
      if_rule (ltb n k) _ _ r (λ e. absurd (ground arith))
        λ _.
          if_rule (n - k == 0) _ _ r (λ _. pure_rule _ r (omega arith))
            λ _.
              ask_rule {Q = λ o _. o + k ≤ n} (λ r. random.int63n r (n - k + 1)) r
                (let l = law.int63n_lt r (n - k + 1) (omega arith) in omega (arith, l))

  generate_block_rule :
      (o : Option (FailingGen R Bytes)) (n : ℕ) (r : R)
      → Ensures (λ _ _. Unit {0}) Fitting (generate_block random o n r)
  unfolding generate_block
  generate_block_rule none n r = ask_rule _ r tt
  generate_block_rule (some g) n r = ask_failing_rule g r

  block_rule :
      (o : Option (FailingGen R Bytes)) (n : ℕ) (r : R)
      → Ensures
          (λ b _. (0 < length b) × (length b ≤ default_content_write_chunk_size))
          Fitting
          (resolve_repeated_block random o n r)
  unfolding resolve_repeated_block
  block_rule o n r =
      bind_rule _ _ r (generate_block_rule o n r)
        λ b r1 _. guard_rule (is_empty b) _ _ r1 tt λ e. pure_rule _ r1 (cut_block b e)

  plan_dense_rule : (n : ℕ) (r : R) → Ensures (λ c _. IsWithin c) Fitting (plan_dense random n r)
  unfolding plan_dense
  plan_dense_rule n r =
      bind_rule {Q = λ _ _. Unit {0}} _ _ r (ask_rule random.int63 r tt) λ seed r1 _.
        pure_rule _ r1 (record {
          sparse = tt;
          overwrite = tt;
          hole = λ e. cc;
          block = λ e. absurd (omega arith);
        })

  plan_repeated_rule :
      (o : Option (FailingGen R Bytes)) (n : ℕ) (r : R)
      → Ensures (λ c _. IsWithin c) Fitting (plan_repeated random o n r)
  unfolding plan_repeated
  plan_repeated_rule o n r = bind_rule _ _ r (block_rule o n r) λ b r1 h.
      pure_rule _ r1
        (record { sparse = tt; overwrite = tt; hole = λ e. absurd (omega arith); block = λ e. h })

  plan_sparse_rule : (n : ℕ) (r : R) → Ensures (λ c _. IsWithin c) Fitting (plan_sparse random n r)
  unfolding plan_sparse
  plan_sparse_rule n r =
      if_rule (n == 0) _ _ r
        (λ _. pure_rule _ r (record {
          sparse = tt;
          overwrite = tt;
          hole = λ _ l. absurd (omega arith);
          block = λ e. absurd (omega arith);
        }))
        λ z. bind_rule _ _ r (segment_rule n r (ground arith)) λ k r1 (h, l).
          let len = if ltb 1 n && leb n k then n - 1 else k in
          let (some_text, fits, hole) = shortened n k h l in
          bind_rule _ _ r1 (offset_rule n len r1 fits) λ o r2 within.
            bind_rule {Q = λ _ _. Unit {0}} _ _ r2 (ask_rule random.int63 r2 tt) λ seed r3 _.
              pure_rule _ r3 (record {
                sparse = ((some_text, within), tt);
                overwrite = tt;
                hole =
                    λ _ m. (hole m, one_range-HasHole n o len seed within (ground (arith, hole m)));
                block = λ e. absurd (omega arith);
              })

  updates_rule :
      (k n : ℕ) (r : R)
      → 0 < n
      → Ensures (λ us _. All (InFile n) us) Fitting (draw_updates random k n r)
  unfolding draw_updates
  updates_rule zero n r h = pure_rule _ r tt
  updates_rule (suc k) n r h = bind_rule _ _ r (segment_rule n r h) λ len r1 (p, l).
      bind_rule _ _ r1 (offset_rule n len r1 l) λ o r2 within.
        bind_rule {Q = λ _ _. Unit {0}} _ _ r2 (ask_rule random.int63 r2 tt) λ seed r3 _.
          bind_rule _ _ r3 (updates_rule k n r3 h) λ rest r4 t. pure_rule _ r4 ((p, within), t)

  plan_overwrite_rule :
      (n : ℕ) (r : R) → Ensures (λ c _. IsWithin c) Fitting (plan_overwrite random n r)
  unfolding plan_overwrite
  plan_overwrite_rule n r =
      bind_rule {Q = λ _ _. Unit {0}} _ _ r (ask_rule random.int63 r tt) λ seed r1 _.
        if_rule (n == 0) _ _ r1
          (λ _. pure_rule _ r1 (record {
            sparse = tt;
            overwrite = tt;
            hole = λ e. absurd (omega arith);
            block = λ e. absurd (omega arith);
          }))
          λ z. bind_rule _ _ r1 (updates_rule 2 n r1 (ground arith)) λ us r2 h.
            pure_rule _ r2 (record {
              sparse = tt;
              overwrite = sort_by-All (InFile n) (range_before random) us h;
              hole = λ e. absurd (omega arith);
              block = λ e. absurd (omega arith);
            })

  plan_pattern_rule :
      (o : Option (FailingGen R Bytes)) (p n : ℕ) (r : R)
      → Ensures (λ c _. IsWithin c) Fitting (plan_pattern random o p n r)
  unfolding plan_pattern
  plan_pattern_rule o p n r =
      if_rule (p == content_pattern_dense_random) _ _ r (λ _. plan_dense_rule n r)
        λ _.
          if_rule (p == content_pattern_sparse_holes) _ _ r (λ _. plan_sparse_rule n r)
            λ _.
              if_rule (p == content_pattern_repeated_blocks) _ _ r (λ _. plan_repeated_rule o n r)
                λ _. plan_overwrite_rule n r

  content_rule :
      (g : Generator R) (r : R)
      → Ensures (λ c _. IsWithin c) Fitting (plan_file_content_pattern random g r)
  unfolding plan_file_content_pattern
  content_rule g r = bind_rule _ _ r (ask_opt_rule g.content_pattern_gen r) λ p r1 _.
      guard_rule (not (is_content_pattern p)) _ _ r1 tt λ _.
        bind_rule _ _ r1 (ask_opt_rule g.content_logical_size_gen r1) λ size r2 _.
          guard_rule (ltb_ℤ size (pos 0)) _ _ r2 tt
            λ _. plan_pattern_rule g.data_gen p (pos_part size) r2

  -- With a random source that keeps its bounds: where the content of a file is planned, every range that it writes is non-empty and ends
  -- within the logical size, a sparse file of more than one byte has a byte in no range, and is expected to be
  -- sparse, and a
  -- repeated block is not empty and at most one write chunk long. No segment is ever drawn that
  -- exceeds the file.
  pub plan_file_content_pattern-IsPlanned :
      (g : Generator R) (r : R) → IsPlanned (plan_file_content_pattern random g r).0
  plan_file_content_pattern-IsPlanned g r = planned (content_rule g r)
