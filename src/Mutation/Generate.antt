-- ===== src/Mutation/Generate.antt =====
-- mutate.go: the operation stream that is generated from a baseline, `GenerateOperations`.
use randfiletree.Prelude.{
  ℕ, zero, suc, List, [], ◌∷◌, Bytes, Result, ok, err, ◌>>=◌, ◌>>◌, wrap, reject, is_empty,
}
use randfiletree.Prelude.Int.{ℤ, pos_part}
use randfiletree.Plan.Types.{Random}
use randfiletree.Plan.Metadata.{trim_space}
use randfiletree.Operation.{
  Operation, OperationError, OptionsError, OperationGenerationOptions, normalize_operation,
  validate_generation_options,
}
use randfiletree.Mutation.Virtual.{VirtualError, apply_virtual_operation}
use randfiletree.Mutation.Draft.{DraftError, Session, User, plan_next_operation}
use randfiletree.Mutation.Scan.{Baseline, ScanError, scan_mutation_state}

pub data GenerateError : Type 0 where
  base_path_empty : GenerateError
  bad_options : OptionsError → GenerateError
  scan_failed : ScanError → GenerateError
  plan_failed : ℕ → DraftError → GenerateError
  normalize_failed : ℕ → OperationError → GenerateError
  apply_failed : ℕ → VirtualError → GenerateError

module _ {R : Type 0} (random : Random R) (user : User) (opts : OperationGenerationOptions) where
  -- The loop of `GenerateOperations` from index `i` on, with the rounds that are left.
  unfoldable pub generate_from : ℕ → ℕ → Session R → Result GenerateError (List Operation)
  generate_from i zero s = ok []
  generate_from i (suc left) s =
      let (drafted, s1) = plan_next_operation random user opts.max_data_size opts.allowed_kinds s in
      elim drafted [
        | err e ↦ err (plan_failed i e)
        | ok op ↦ elim (normalize_operation op) [
          | err e ↦ err (normalize_failed i e)
          | ok normalized ↦
              let (applied, state) = apply_virtual_operation normalized s1.state in
              let rest = generate_from (suc i) left (record { rnd = s1.rnd; state = state }) in
              elim applied [
                | err e ↦ err (apply_failed i e)
                | ok _ ↦ elim rest [ err e ↦ err e | ok ops ↦ ok (normalized ∷ ops) ]
              ]
        ]
      ]

  -- `new_source` is `rand.New(rand.NewSource(seed))`.
  unfoldable pub generate_operations :
      Baseline → (ℤ → R) → Bytes → Result GenerateError (List Operation)
  generate_operations baseline new_source base = do
    reject (is_empty (trim_space base)) base_path_empty
    wrap bad_options (validate_generation_options opts)
    state ← wrap scan_failed (scan_mutation_state baseline base)
    generate_from 0 (pos_part opts.count) (record { rnd = new_source opts.seed; state = state })
