-- ===== src/Mutation/Loop.antt =====
-- mutate.go: the loop that applies an operation stream, `ApplyOperationsWithOptions`.
use randfiletree.Prelude.{
  ℕ, zero, suc, Bool, Option, List, [], ◌∷◌, Bytes, ok, err, Check, ◌>>◌, wrap, reject,
  if◌then◌else◌, is_empty, not, length,
}
use randfiletree.Prelude.Int.{ℤ, pos, pos_part, ltb_ℤ, eqb_ℤ}
use randfiletree.Plan.Metadata.{trim_space}
use randfiletree.Operation.{Operation, OperationError, normalize_operation}
use randfiletree.Fault.{
  FaultRule, FaultInjector, FaultError, fault_scope_mutation, validate_rules, new_fault_injector,
  exec_before,
}
use randfiletree.Mutation.System.{Errno, FileSystem, is_directory, is_symlink}
use randfiletree.Mutation.Apply.{ApplyError}
use randfiletree.Mutation.Execute.{operation_kind_name, apply_operation}

-- What stopped the operation.
pub data StepError : Type 0 where
  invalid : OperationError → StepError
  fault : FaultError → StepError
  failed : ApplyError → StepError

-- `operation_failed` is `OperationApplyError`: the index, the operation and the cause. Its replay
-- spec is computed from the operations on demand.
pub data RunError : Type 0 where
  base_path_empty : RunError
  start_index_negative : RunError
  start_index_out_of_range : RunError
  bad_fault_profile : FaultError → RunError
  inspect_base_failed : Bytes → Errno → RunError
  base_path_symlink : Bytes → RunError
  base_not_directory : Bytes → RunError
  operation_failed : ℕ → Operation → StepError → RunError

pub record OperationApplyOptions : Type 0 where
  pub start_index : ℤ
  pub fault_profile : List FaultRule

-- The elements from an index on.
unfoldable pub drop {ℓ} : {A : Type ℓ} → ℕ → List A → List A
drop zero xs = xs
drop (suc n) [] = []
drop (suc n) (x ∷ xs) = drop n xs

module _ {F : Type 0} (path_match : Bytes → Bytes → Option Bool) (fs : FileSystem F)
    (base : Bytes) where
  unfoldable pub validate_apply_options : OperationApplyOptions → ℕ → Check RunError
  validate_apply_options o count = do
    reject (ltb_ℤ o.start_index (pos 0)) start_index_negative
    reject (ltb_ℤ (pos count) o.start_index) start_index_out_of_range
    wrap bad_fault_profile (validate_rules path_match 0 o.fault_profile)

  unfoldable pub check_base : F → Check RunError
  check_base f = elim (fs.lstat base f) [
    | err e ↦ err (inspect_base_failed base e)
    | ok info ↦
        if is_symlink info
        then err (base_path_symlink base)
        else if not (is_directory info)
        then err (base_not_directory base)
        else ok tt
  ]

  -- One round of the loop, at index `i`.
  unfoldable pub apply_step :
      ℕ → Operation → Option FaultInjector → F → Check RunError × Option FaultInjector × F
  apply_step i op injector f = elim (normalize_operation op) [
    | err e ↦ (err (operation_failed i op (invalid e)), injector, f)
    | ok normalized ↦
        let (asked, injector') =
          exec_before path_match injector fault_scope_mutation i
            (operation_kind_name normalized.kind) normalized.path in
        let (applied, f') = apply_operation fs base normalized f in
        elim asked [
          | err e ↦ (err (operation_failed i normalized (fault e)), injector', f)
          | ok _ ↦ elim applied [
            | err e ↦ (err (operation_failed i normalized (failed e)), injector', f')
            | ok _ ↦ (ok tt, injector', f')
          ]
        ]
  ]

  -- The loop from index `i` on, over the operations that are left.
  unfoldable pub apply_from :
      ℕ → List Operation → Option FaultInjector → F → Check RunError × Option FaultInjector × F
  apply_from i [] injector f = (ok tt, injector, f)
  apply_from i (op ∷ ops) injector f =
      let (result, injector', f') = apply_step i op injector f in
      let rest = apply_from (suc i) ops injector' f' in
      elim result [ err e ↦ (err e, injector', f') | ok _ ↦ rest ]

  unfoldable pub apply_operations_with_options :
      List Operation → OperationApplyOptions → F → Check RunError × F
  unfolding drop
  apply_operations_with_options ops o f =
      let start = pos_part o.start_index in
      let checked = do
        reject (is_empty (trim_space base)) base_path_empty
        validate_apply_options o (length ops)
      in elim checked [
        | err e ↦ (err e, f)
        | ok _ ↦
            if eqb_ℤ o.start_index (pos (length ops)) then (ok tt, f) else elim (check_base f) [
              | err e ↦ (err e, f)
              | ok _ ↦ elim (new_fault_injector path_match o.fault_profile) [
                | err e ↦ (err (bad_fault_profile e), f)
                | ok injector ↦
                    let (result, injector', f') = apply_from start (drop start ops) injector f in
                    (result, f')
              ]
            ]
      ]

  unfoldable pub apply_operations : List Operation → F → Check RunError × F
  apply_operations ops =
      apply_operations_with_options ops (record { start_index = pos 0; fault_profile = [] })
