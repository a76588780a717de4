-- ===== src/Operation/Replay.antt =====
-- mutate.go: `ParseOperationSpec`, and that it reads back what `ExportOperationSpec` wrote.
use randfiletree.Prelude.{
  ℕ, suc, List, [], ◌∷◌, Bytes, Result, ok, err, ◌>>=◌, ◌>>◌, wrap, reject, not, is_empty, ◌≡◌,
  refl, Result-cases, inl, inr, arith, false, true, All,
}
use mathlib.Core.Path.{subst}
use randfiletree.Prelude.Utf8.{is_utf8}
use randfiletree.Prelude.Int.{ℤ, eqb_ℤ}
use randfiletree.Plan.Metadata.{trim_space}
use randfiletree.Operation.{
  Operation, OperationError, ExportError, normalize_operation, normalize_operations,
  export_operation_spec, operation_spec_version, OperationSpec, serialize_failed,
}
use randfiletree.Operation.Normal.{normalize_operation-fixed, operations-same}

pub data ParseError : Type 0 where
  spec_empty : ParseError
  parse_failed : Bytes → ParseError
  version_mismatch : ℤ → ParseError
  invalid_operation : ℕ → OperationError → ParseError

-- The loop of `ParseOperationSpec`, from index `i` on.
unfoldable pub parse_operations : ℕ → List Operation → Result ParseError (List Operation)
parse_operations i [] = ok []
parse_operations i (op ∷ ops) = do
  next ← wrap (invalid_operation i) (normalize_operation op)
  rest ← parse_operations (suc i) ops
  ok (next ∷ rest)

-- `unmarshal` is the JSON library's.
unfoldable pub parse_operation_spec :
    (Bytes → Result Bytes OperationSpec) → Bytes → Result ParseError (List Operation)
parse_operation_spec unmarshal spec = do
  reject (is_empty (trim_space spec)) spec_empty
  parsed ← wrap parse_failed (unmarshal spec)
  reject (not (eqb_ℤ parsed.version operation_spec_version)) (version_mismatch parsed.version)
  parse_operations 0 parsed.operations

parse_operations-normalized :
    (i j : ℕ) (ops normalized : List Operation)
    → normalize_operations i ops ≡ ok normalized
    → parse_operations j normalized ≡ ok normalized
unfolding parse_operations normalize_operations
parse_operations-normalized i j [] normalized h =
    subst (λ n. parse_operations j n ≡ ok n) (operations-same h) refl
parse_operations-normalized i j (op ∷ ops) normalized h =
    elim (Result-cases (normalize_operation op)) [
      | inr (x, e) ↦ absurd (ground (arith, e))
      | inl (next, e) ↦ elim (Result-cases (normalize_operations (suc i) ops)) [
        | inr (x, f) ↦ absurd (ground (arith, e, f))
        | inl (rest, f) ↦
            subst (λ n. parse_operations j n ≡ ok n) {x = next ∷ rest}
              (operations-same (rw (e, f) at h))
              (rw
                (
                  normalize_operation-fixed op next e,
                  parse_operations-normalized (suc i) (suc j) ops rest f,
                )
                refl)
      ]
    ]

-- The texts of an operation are valid UTF-8; contents and attribute values are no texts in JSON.
pub record IsText (op : Operation) : Type 0 where
  pub path : is_utf8 op.path ≡ true
  pub destination : is_utf8 op.destination ≡ true
  pub source_path : is_utf8 op.source_path ≡ true
  pub link_target : is_utf8 op.link_target ≡ true
  pub xattr_name : is_utf8 op.xattr_name ≡ true

-- What the JSON library guarantees: it decodes what it encoded where all texts are valid UTF-8 (it
-- replaces other bytes), and it writes no blank text.
pub record IsCodec (marshal : OperationSpec → Result Bytes Bytes)
    (unmarshal : Bytes → Result Bytes OperationSpec) : Type 0 where
  pub decodes :
      (spec : OperationSpec) (text : Bytes)
      → All IsText spec.operations
      → marshal spec ≡ ok text
      → unmarshal text ≡ ok spec
  pub not_blank :
      (spec : OperationSpec) (text : Bytes)
      → marshal spec ≡ ok text
      → is_empty (trim_space text) ≡ false

-- With a JSON library that decodes what it encoded of valid UTF-8 and writes no blank text, an
-- operation stream whose normal form has only texts in valid UTF-8 is, when it is exported, parsed
-- as that normal form.
pub parse_operation_spec-export_operation_spec :
    (marshal : OperationSpec → Result Bytes Bytes) (unmarshal : Bytes → Result Bytes OperationSpec)
    (ops normalized : List Operation) (text : Bytes)
    → IsCodec marshal unmarshal
    → normalize_operations 0 ops ≡ ok normalized
    → All IsText normalized
    → export_operation_spec marshal ops ≡ ok text
    → parse_operation_spec unmarshal text ≡ ok normalized
unfolding export_operation_spec parse_operation_spec
parse_operation_spec-export_operation_spec marshal unmarshal ops normalized text c e valid h =
    let spec : OperationSpec = record {
      version = operation_spec_version;
      operations = normalized;
    } in
    let encoded : marshal spec ≡ ok text = wrap-serialized (marshal spec) (rw e at h) in
    rw (c.not_blank spec text encoded, c.decodes spec text valid encoded)
      (parse_operations-normalized 0 0 ops normalized e)
  where
    wrap-serialized :
        (r : Result Bytes Bytes)
        → ◌≡◌ {A = Result ExportError Bytes} (wrap serialize_failed r) (ok text)
        → r ≡ ok text
    wrap-serialized (ok t) k = cc
    wrap-serialized (err x) k = cc
