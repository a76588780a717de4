-- ===== src/Operation/Normal.antt =====
-- operations.go: normalizing an operation again changes nothing.
use randfiletree.Prelude.{
  ℕ, suc, true, false, List, [], ◌∷◌, Bytes, codes, Result, ok, Result-cases, inl, inr, ◌≡◌, refl,
  arith,
}
use mathlib.Core.Path.{subst}
use randfiletree.Operation.{
  Operation, OperationSpec, ExportError, normalize_operation, normalize_operations,
  export_operation_spec,
}
use randfiletree.Operation.Cases.{
  normalize_delete-Fixed, normalize_with_mode-Fixed, normalize_symlink-Fixed,
  normalize_hardlink-Fixed, normalize_rename-Fixed, normalize_chown-Fixed, normalize_truncate-Fixed,
  normalize_append-Fixed, normalize_overwrite-Fixed, normalize_xattr-Fixed,
}

pub operations-same :
    {a b : List Operation} → ◌≡◌ {A = Result ExportError (List Operation)} (ok a) (ok b) → a ≡ b
operations-same h = cc

-- An operation that normalization returns is its own normal form.
pub normalize_operation-fixed :
    (op next : Operation) → normalize_operation op ≡ ok next → normalize_operation next ≡ ok next
unfolding normalize_operation
normalize_operation-fixed op next h = ground (
  arith,
  normalize_with_mode-Fixed (codes "create-file path") (codes "create-file mode") false op next,
  normalize_with_mode-Fixed (codes "create-dir path") (codes "create-dir mode") false op next,
  normalize_with_mode-Fixed (codes "chmod path") (codes "chmod mode") true op next,
  normalize_symlink-Fixed op next,
  normalize_hardlink-Fixed op next,
  normalize_delete-Fixed op next,
  normalize_rename-Fixed op next,
  normalize_chown-Fixed op next,
  normalize_truncate-Fixed op next,
  normalize_append-Fixed op next,
  normalize_overwrite-Fixed op next,
  normalize_xattr-Fixed (codes "set-xattr path") (codes "set-xattr name") op next,
  normalize_xattr-Fixed (codes "remove-xattr path") (codes "remove-xattr name") op next,
)

normalize_operations-fixed :
    (i : ℕ) (ops normalized : List Operation)
    → normalize_operations i ops ≡ ok normalized
    → normalize_operations i normalized ≡ ok normalized
unfolding normalize_operations
normalize_operations-fixed i [] normalized h =
    subst (λ n. normalize_operations i n ≡ ok n) (operations-same h) refl
normalize_operations-fixed i (op ∷ ops) normalized h =
    elim (Result-cases (normalize_operation op)) [
      | inr (x, e) ↦ absurd (ground (arith, e))
      | inl (next, e) ↦ elim (Result-cases (normalize_operations (suc i) ops)) [
        | inr (x, f) ↦ absurd (ground (arith, e, f))
        | inl (rest, f) ↦
            subst (λ n. normalize_operations i n ≡ ok n) {x = next ∷ rest}
              (operations-same (rw (e, f) at h))
              (rw
                (normalize_operation-fixed op next e, normalize_operations-fixed (suc i) ops rest f)
                refl)
      ]
    ]

-- What is exported of an operation stream is what is exported of its normal form, whatever the
-- JSON encoder does.
pub export_operation_spec-fixed :
    (marshal : OperationSpec → Result Bytes Bytes) (ops normalized : List Operation)
    → normalize_operations 0 ops ≡ ok normalized
    → export_operation_spec marshal normalized ≡ export_operation_spec marshal ops
unfolding export_operation_spec
export_operation_spec-fixed marshal ops normalized h =
    rw (h, normalize_operations-fixed 0 ops normalized h) refl
