-- ===== src/Operation/Cases.antt =====
-- operations.go: each case of `normalizeOperation` returns an operation that it returns again.
use randfiletree.Prelude.{
  Bool, Bytes, Result, ok, err, wrap, bind-ok, reject-ok, is_empty, ◌≡◌, refl, arith,
}
use mathlib.Core.Path.{subst}
use randfiletree.Plan.Metadata.{contains_byte, validate_xattr_name}
use randfiletree.Prelude.Int.{pos, ltb_ℤ}
use randfiletree.Operation.{
  Operation, OperationError, bad_path, bad_xattr_name, normalize_path_as, validate_mode,
  normalize_with_mode, normalize_symlink, normalize_hardlink, normalize_delete, normalize_rename,
  normalize_chown, normalize_truncate, normalize_append, normalize_overwrite, normalize_xattr,
}
use randfiletree.Operation.Paths.{normalize_operation_path-fixed}

-- What the case returns it returns again, and the kind stays.
abbrev pub Fixed : (Operation → Result OperationError Operation) → Type 0
Fixed normalize =
    (op next : Operation)
    → normalize op ≡ ok next
    → (normalize next ≡ ok next) × (next.kind ≡ op.kind)

pub ok-same : {A : Type 0} {a b : A} → ◌≡◌ {A = Result OperationError A} (ok a) (ok b) → a ≡ b
ok-same h = cc

pub wrap-ok :
    {E A : Type 0} (f : E → OperationError) (r : Result E A) (a : A) → wrap f r ≡ ok a → r ≡ ok a
wrap-ok f (ok x) a h = ground arith
wrap-ok f (err e) a h = cc

pub path_as-fixed :
    (context raw : Bytes) (allow_root : Bool) (path : Bytes)
    → normalize_path_as context raw allow_root ≡ ok path
    → normalize_path_as context path allow_root ≡ ok path
unfolding normalize_path_as
path_as-fixed context raw allow_root path h =
    rw (normalize_operation_path-fixed raw allow_root path (wrap-ok (bad_path context) _ path h))
      refl

pub normalize_delete-Fixed : Fixed normalize_delete
unfolding normalize_delete
normalize_delete-Fixed op next h =
    let (p, e, k) = bind-ok _ _ next h in
    subst (λ n. (normalize_delete n ≡ ok n) × (n.kind ≡ op.kind)) (ok-same k)
      (rw (path_as-fixed _ _ _ p e) refl, refl)

pub normalize_with_mode-Fixed :
    (path_context mode_context : Bytes) (allow_root : Bool)
    → Fixed (normalize_with_mode path_context mode_context allow_root)
unfolding normalize_with_mode validate_mode
normalize_with_mode-Fixed a b allow_root op next h =
    let (p, e, k) = bind-ok _ _ next h in
    let (t, l) = reject-ok _ _ _ next k in
    subst (λ n. (normalize_with_mode a b allow_root n ≡ ok n) × (n.kind ≡ op.kind)) (ok-same l)
      (rw (path_as-fixed _ _ _ p e, t) refl, refl)

pub normalize_symlink-Fixed : Fixed normalize_symlink
unfolding normalize_symlink
normalize_symlink-Fixed op next h =
    let (p, e, k) = bind-ok _ _ next h in
    let (t, l) = reject-ok (is_empty op.link_target) _ _ next k in
    let (u, m) = reject-ok (contains_byte 0 op.link_target) _ _ next l in
    subst (λ n. (normalize_symlink n ≡ ok n) × (n.kind ≡ op.kind)) {x = record op { path = p }}
      (ok-same m) (rw (path_as-fixed _ _ _ p e, t, u) refl, refl)

pub normalize_hardlink-Fixed : Fixed normalize_hardlink
unfolding normalize_hardlink
normalize_hardlink-Fixed op next h =
    let (p, e, k) = bind-ok _ _ next h in
    let (q, f, l) = bind-ok _ _ next k in
    let (t, m) = reject-ok _ _ _ next l in
    subst (λ n. (normalize_hardlink n ≡ ok n) × (n.kind ≡ op.kind)) (ok-same m)
      (rw (path_as-fixed _ _ _ p e, path_as-fixed _ _ _ q f, t) refl, refl)

pub normalize_rename-Fixed : Fixed normalize_rename
unfolding normalize_rename
normalize_rename-Fixed op next h =
    let (p, e, k) = bind-ok _ _ next h in
    let (q, f, l) = bind-ok _ _ next k in
    let (t, m) = reject-ok _ _ _ next l in
    subst (λ n. (normalize_rename n ≡ ok n) × (n.kind ≡ op.kind)) (ok-same m)
      (rw (path_as-fixed _ _ _ p e, path_as-fixed _ _ _ q f, t) refl, refl)

pub normalize_chown-Fixed : Fixed normalize_chown
unfolding normalize_chown
normalize_chown-Fixed op next h =
    let (p, e, k) = bind-ok _ _ next h in
    let (t, l) = reject-ok (ltb_ℤ op.uid (pos 0)) _ _ next k in
    let (u, m) = reject-ok (ltb_ℤ op.gid (pos 0)) _ _ next l in
    subst (λ n. (normalize_chown n ≡ ok n) × (n.kind ≡ op.kind)) {x = record op { path = p }}
      (ok-same m) (rw (path_as-fixed _ _ _ p e, t, u) refl, refl)

pub normalize_truncate-Fixed : Fixed normalize_truncate
unfolding normalize_truncate
normalize_truncate-Fixed op next h =
    let (p, e, k) = bind-ok _ _ next h in
    let (t, m) = reject-ok _ _ _ next k in
    subst (λ n. (normalize_truncate n ≡ ok n) × (n.kind ≡ op.kind)) (ok-same m)
      (rw (path_as-fixed _ _ _ p e, t) refl, refl)

pub normalize_append-Fixed : Fixed normalize_append
unfolding normalize_append
normalize_append-Fixed op next h =
    let (p, e, k) = bind-ok _ _ next h in
    let (t, m) = reject-ok _ _ _ next k in
    subst (λ n. (normalize_append n ≡ ok n) × (n.kind ≡ op.kind)) (ok-same m)
      (rw (path_as-fixed _ _ _ p e, t) refl, refl)

pub normalize_overwrite-Fixed : Fixed normalize_overwrite
unfolding normalize_overwrite
normalize_overwrite-Fixed op next h =
    let (p, e, k) = bind-ok _ _ next h in
    let (t, l) = reject-ok (ltb_ℤ op.offset (pos 0)) _ _ next k in
    let (u, m) = reject-ok (is_empty op.content) _ _ next l in
    subst (λ n. (normalize_overwrite n ≡ ok n) × (n.kind ≡ op.kind)) {x = record op { path = p }}
      (ok-same m) (rw (path_as-fixed _ _ _ p e, t, u) refl, refl)

-- A valid name is kept as it is.
validate_xattr_name-same :
    (name name' : Bytes)
    → validate_xattr_name name ≡ ok name'
    → validate_xattr_name name' ≡ ok name'
unfolding validate_xattr_name
validate_xattr_name-same name name' h = let e : name ≡ name' = ground arith in rw e at h

pub normalize_xattr-Fixed :
    (path_context name_context : Bytes) → Fixed (normalize_xattr path_context name_context)
unfolding normalize_xattr
normalize_xattr-Fixed a b op next h =
    let (p, e, k) = bind-ok _ _ next h in
    let (name, f, m) = bind-ok _ _ next k in
    subst (λ n. (normalize_xattr a b n ≡ ok n) × (n.kind ≡ op.kind)) (ok-same m)
      (
        rw
            (
              path_as-fixed _ _ _ p e,
              validate_xattr_name-same _ name (wrap-ok (bad_xattr_name b) _ name f),
            )
            refl,
        refl,
      )
