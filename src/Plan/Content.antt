-- ===== src/Plan/Content.antt =====
-- content_patterns.go: what content a planned file gets.
use randfiletree.Prelude.{
  ℕ, zero, suc, ◌+◌, ◌-◌, ◌%◌, ◌^◌, Bool, false, Option, none, some, List, [], ◌∷◌, Bytes, ok, err,
  length, take, ltb, leb, ◌==◌, ◌&&◌, ◌||◌, not, if◌then◌else◌, is_empty, sort_by,
}
use randfiletree.Prelude.Int.{pos, pos_part, ltb_ℤ}
use randfiletree.Action.{Action, ◌>>=◌, ◌>>◌, pure, fail, fail_if}
use randfiletree.Plan.Types.{
  Random, PlannedFileContent, PlannedContentRange, PlanError, nil_call, generator_failed,
  invalid_content_pattern, logical_size_negative, segment_exceeds_size, repeated_block_empty, Gen,
  FailingGen, Generator,
}

abbrev pub content_pattern_dense_random : ℕ
content_pattern_dense_random = 1

abbrev pub content_pattern_sparse_holes : ℕ
content_pattern_sparse_holes = 2

abbrev pub content_pattern_repeated_blocks : ℕ
content_pattern_repeated_blocks = 3

abbrev pub content_pattern_partial_range_overwrite : ℕ
content_pattern_partial_range_overwrite = 4

abbrev pub default_content_write_chunk_size : ℕ
default_content_write_chunk_size = 65536

abbrev pub default_partial_overwrite_count : ℕ
default_partial_overwrite_count = 2

abbrev pub default_pattern_segment_max_length : ℕ
default_pattern_segment_max_length = 1048576

unfoldable pub is_content_pattern : ℕ → Bool
is_content_pattern p =
    p == content_pattern_dense_random
    || p == content_pattern_sparse_holes
    || p == content_pattern_repeated_blocks
    || p == content_pattern_partial_range_overwrite

-- Code on the random source alone.
abbrev pub Drawing : Type 0 → Type 0 → Type 0
Drawing R A = Action R PlanError A

module _ {R : Type 0} where
  unfoldable pub ask : {A : Type 0} → Gen R A → Drawing R A
  ask g r = let (a, r') = g r in (ok a, r')

  unfoldable pub ask_opt : {A : Type 0} → Option (Gen R A) → Drawing R A
  ask_opt none = fail nil_call
  ask_opt (some g) = ask g

  unfoldable pub ask_failing : {A : Type 0} → FailingGen R A → Drawing R A
  ask_failing g r =
      let (a, r') = g r in elim a [ ok x ↦ (ok x, r') | err e ↦ (err (generator_failed e), r') ]

module _ {R : Type 0} (random : Random R) where
  -- A logical size is positive where this is called.
  unfoldable pub randomized_segment_length : ℕ → Drawing R ℕ
  randomized_segment_length logical_size = if logical_size == 0 then pure 0 else do
    let max_length =
        if ltb default_pattern_segment_max_length logical_size
        then default_pattern_segment_max_length
        else logical_size
    n ← ask (λ r. random.intn r max_length)
    pure (n + 1)

  unfoldable pub randomized_offset : ℕ → ℕ → Drawing R ℕ
  randomized_offset logical_size len =
      if ltb logical_size len
      then fail (segment_exceeds_size len logical_size)
      else if logical_size - len == 0
      then pure 0
      else ask (λ r. random.int63n r (logical_size - len + 1))

  unfoldable pub generate_block : Option (FailingGen R Bytes) → ℕ → Drawing R Bytes
  generate_block (some g) logical_size = ask_failing g
  generate_block none logical_size = ask (λ r. random.read r (
      if not (logical_size == 0) && ltb logical_size default_content_write_chunk_size
      then logical_size
      else default_content_write_chunk_size))

  unfoldable pub resolve_repeated_block : Option (FailingGen R Bytes) → ℕ → Drawing R Bytes
  resolve_repeated_block data_gen logical_size = do
    block ← generate_block data_gen logical_size
    fail_if (is_empty block) repeated_block_empty
    pure (
        if ltb default_content_write_chunk_size (length block)
        then take default_content_write_chunk_size block
        else block)

  abbrev blank : ℕ → ℕ → PlannedFileContent
  blank pattern size = record {
    pattern = pattern;
    logical_size = size;
    expected_written_bytes = 0;
    expected_sparse = false;
    seed = 0;
    repeated_block = [];
    sparse_extents = [];
    overwrite_extents = [];
  }

  unfoldable pub plan_dense : ℕ → Drawing R PlannedFileContent
  plan_dense size = do
    seed ← ask random.int63
    pure (record (blank content_pattern_dense_random size) {
      seed = seed;
      expected_written_bytes = size;
    })

  unfoldable pub plan_sparse : ℕ → Drawing R PlannedFileContent
  plan_sparse size = if size == 0 then pure (blank content_pattern_sparse_holes 0) else do
    drawn ← randomized_segment_length size
    let len = if ltb 1 size && leb size drawn then size - 1 else drawn
    offset ← randomized_offset size len
    seed ← ask random.int63
    pure (record (blank content_pattern_sparse_holes size) {
      sparse_extents = record { offset = offset; length = len; seed = seed } ∷ [];
      expected_written_bytes = len;
      expected_sparse = ltb len size;
    })

  unfoldable pub plan_repeated : Option (FailingGen R Bytes) → ℕ → Drawing R PlannedFileContent
  plan_repeated data_gen size = do
    block ← resolve_repeated_block data_gen size
    pure (record (blank content_pattern_repeated_blocks size) {
      repeated_block = block;
      expected_written_bytes = size;
    })

  -- The overwrite ranges of the loop, in the order drawn.
  unfoldable pub draw_updates : ℕ → ℕ → Drawing R (List PlannedContentRange)
  draw_updates zero size = pure []
  draw_updates (suc n) size = do
    len ← randomized_segment_length size
    offset ← randomized_offset size len
    seed ← ask random.int63
    rest ← draw_updates n size
    pure (record { offset = offset; length = len; seed = seed } ∷ rest)

  unfoldable pub range_before : PlannedContentRange → PlannedContentRange → Bool
  range_before a b = if a.offset == b.offset then ltb a.length b.length else ltb a.offset b.offset

  -- int64 sums, as 64-bit patterns.
  unfoldable pub add_lengths : ℕ → List PlannedContentRange → ℕ
  add_lengths n [] = n
  add_lengths n (u ∷ us) = add_lengths ((n + u.length) % 2 ^ 64) us

  unfoldable pub plan_overwrite : ℕ → Drawing R PlannedFileContent
  unfolding add_lengths range_before sort_by
  plan_overwrite size = do
    seed ← ask random.int63
    let dense = record (blank content_pattern_partial_range_overwrite size) {
      seed = seed;
      expected_written_bytes = size;
    }
    if size == 0 then pure dense else do
      updates ← draw_updates default_partial_overwrite_count size
      pure (record dense {
        expected_written_bytes = add_lengths size updates;
        overwrite_extents = sort_by range_before updates;
      })

  unfoldable pub plan_pattern : Option (FailingGen R Bytes) → ℕ → ℕ → Drawing R PlannedFileContent
  plan_pattern data_gen pattern size =
      if pattern == content_pattern_dense_random
      then plan_dense size
      else if pattern == content_pattern_sparse_holes
      then plan_sparse size
      else if pattern == content_pattern_repeated_blocks
      then plan_repeated data_gen size
      else plan_overwrite size

  unfoldable pub plan_file_content_pattern : Generator R → Drawing R PlannedFileContent
  plan_file_content_pattern g = do
    pattern ← ask_opt g.content_pattern_gen
    fail_if (not (is_content_pattern pattern)) (invalid_content_pattern pattern)
    size ← ask_opt g.content_logical_size_gen
    fail_if (ltb_ℤ size (pos 0)) (logical_size_negative size)
    plan_pattern g.data_gen pattern (pos_part size)
