-- ===== src/Mutation/Normal.antt =====
-- mutate.go and operations.go: the paths of a normalized operation are in their normal form.
use randfiletree.Prelude.{
  bind-ok, reject-ok, Result, wrap, eqb-differ, Bool, true, false, Bytes, [], ◌∷◌, ok, eqb, ◌==◌,
  not, is_empty, ◌≡◌, refl, sym, ap, ◌∙◌, arith, if◌then◌else◌, List, All,
}
use mathlib.Core.Path.{subst}
use randfiletree.GoPath.{clean, components, render, is_rooted, root}
use randfiletree.GoPath.Rooted.{
  Plain, clean-rooted, clean-is_rooted, components-Plain, components-render,
}
use randfiletree.Operation.{
  Operation, OperationError, validate_mode, is_operation_kind, create_file, create_dir,
  create_symlink, create_hardlink, delete, rename, chmod, chown, truncate, append, overwrite_range,
  set_xattr, normalize_operation, normalize_operation_path, normalize_path_as, normalize_with_mode,
  normalize_symlink, normalize_hardlink, normalize_delete, normalize_rename, normalize_chown,
  normalize_truncate, normalize_append, normalize_overwrite, normalize_xattr, bad_path,
  bad_xattr_name,
}
use randfiletree.Operation.Cases.{ok-same, wrap-ok}
use randfiletree.Prelude.Int.{pos, ltb_ℤ}
use randfiletree.Plan.Metadata.{contains_byte, validate_xattr_name}
use randfiletree.Operation.Paths.{contains_byte-NotNul}
use randfiletree.Operation.Normal.{normalize_operation-fixed}
use randfiletree.Mutation.Places.{IsPlace}
use randfiletree.Mutation.Effects.{IsPlaced}

clean-IsPlace :
    (raw : Bytes) (allow_root : Bool) (path : Bytes)
    → normalize_operation_path raw allow_root ≡ ok path
    → IsPlace path
unfolding normalize_operation_path
clean-IsPlace raw allow_root path h =
    let is_path : path ≡ clean raw = ground arith in
    let not_nul = contains_byte-NotNul raw (ground arith) in
    let rooted : is_rooted (clean raw) ≡ true = ground arith in
    let from_root = clean-is_rooted raw not_nul rooted in
    let plain = components-Plain raw from_root not_nul in
    let same : components path ≡ components raw =
      ap components (is_path ∙ clean-rooted raw from_root)
      ∙ components-render (components raw) plain in
    record {
      plain = subst (All Plain) (sym same) plain;
      rendered = is_path ∙ clean-rooted raw from_root ∙ ap (render true) (sym same);
    }

below-root :
    (raw path : Bytes)
    → normalize_operation_path raw false ≡ ok path
    → is_empty (components path) ≡ false
unfolding normalize_operation_path render
below-root raw path h =
    let differs : eqb path root ≡ false = ground arith in
    go (components path) (clean-IsPlace raw false path h).rendered differs
  where
    go : (ws : List Bytes) → path ≡ render true ws → eqb path root ≡ false → is_empty ws ≡ false
    go (w ∷ ws) e k = refl
    go [] e k = absurd (eqb-differ path root k e)

-- What a case of the normalization returns has a path in its normal form.
abbrev PathPlaced : (Operation → Result OperationError Operation) → Type 0
PathPlaced normalize = (op next : Operation) → normalize op ≡ ok next → IsPlace next.path

placed :
    (context raw : Bytes) (allow_root : Bool) (path p : Bytes)
    → normalize_path_as context raw allow_root ≡ ok p
    → p ≡ path
    → IsPlace path
unfolding normalize_path_as
placed context raw allow_root path p h e =
    subst IsPlace e (clean-IsPlace raw allow_root p (wrap-ok (bad_path context) _ p h))

normalize_delete-PathPlaced : PathPlaced normalize_delete
unfolding normalize_delete
normalize_delete-PathPlaced op next h =
    let (p, e, k) = bind-ok _ _ next h in
    placed _ op.path false next.path p e (ap (λ o. o.path) (ok-same k))

normalize_with_mode-PathPlaced :
    (a b : Bytes) (allow_root : Bool) → PathPlaced (normalize_with_mode a b allow_root)
unfolding normalize_with_mode validate_mode
normalize_with_mode-PathPlaced a b allow_root op next h =
    let (p, e, k) = bind-ok _ _ next h in
    let (t, l) = reject-ok _ _ _ next k in
    placed _ op.path allow_root next.path p e (ap (λ o. o.path) (ok-same l))

normalize_symlink-PathPlaced : PathPlaced normalize_symlink
unfolding normalize_symlink
normalize_symlink-PathPlaced op next h =
    let (p, e, k) = bind-ok _ _ next h in
    let (t, l) = reject-ok (is_empty op.link_target) _ _ next k in
    let (u, m) = reject-ok (contains_byte 0 op.link_target) _ _ next l in
    placed _ op.path false next.path p e (ap (λ o. o.path) (ok-same m))

normalize_chown-PathPlaced : PathPlaced normalize_chown
unfolding normalize_chown
normalize_chown-PathPlaced op next h =
    let (p, e, k) = bind-ok _ _ next h in
    let (t, l) = reject-ok (ltb_ℤ op.uid (pos 0)) _ _ next k in
    let (u, m) = reject-ok (ltb_ℤ op.gid (pos 0)) _ _ next l in
    placed _ op.path true next.path p e (ap (λ o. o.path) (ok-same m))

normalize_truncate-PathPlaced : PathPlaced normalize_truncate
unfolding normalize_truncate
normalize_truncate-PathPlaced op next h =
    let (p, e, k) = bind-ok _ _ next h in
    let (t, m) = reject-ok _ _ _ next k in
    placed _ op.path false next.path p e (ap (λ o. o.path) (ok-same m))

normalize_append-PathPlaced : PathPlaced normalize_append
unfolding normalize_append
normalize_append-PathPlaced op next h =
    let (p, e, k) = bind-ok _ _ next h in
    let (t, m) = reject-ok _ _ _ next k in
    placed _ op.path false next.path p e (ap (λ o. o.path) (ok-same m))

normalize_overwrite-PathPlaced : PathPlaced normalize_overwrite
unfolding normalize_overwrite
normalize_overwrite-PathPlaced op next h =
    let (p, e, k) = bind-ok _ _ next h in
    let (t, l) = reject-ok (ltb_ℤ op.offset (pos 0)) _ _ next k in
    let (u, m) = reject-ok (is_empty op.content) _ _ next l in
    placed _ op.path false next.path p e (ap (λ o. o.path) (ok-same m))

normalize_xattr-PathPlaced : (a b : Bytes) → PathPlaced (normalize_xattr a b)
unfolding normalize_xattr
normalize_xattr-PathPlaced a b op next h =
    let (p, e, k) = bind-ok _ _ next h in
    let (n, f, m) =
      bind-ok (wrap (bad_xattr_name b) (validate_xattr_name op.xattr_name))
        (λ name. ok (record op { path = p; xattr_name = name })) next k in
    placed _ op.path true next.path p e
      (ap (λ o. o.path) {x = record op { path = p; xattr_name = n }} (ok-same m))

normalize_hardlink-placed :
    (op next : Operation)
    → normalize_hardlink op ≡ ok next
    → IsPlace next.path × IsPlace next.source_path
unfolding normalize_hardlink
normalize_hardlink-placed op next h =
    let (p, e, k) = bind-ok _ _ next h in
    let (q, f, l) = bind-ok _ _ next k in
    let (t, m) = reject-ok _ _ _ next l in
    (
      placed _ op.path false next.path p e (ap (λ o. o.path) (ok-same m)),
      placed _ op.source_path false next.source_path q f (ap (λ o. o.source_path) (ok-same m)),
    )

below :
    (context raw path p : Bytes)
    → normalize_path_as context raw false ≡ ok p
    → p ≡ path
    → is_empty (components path) ≡ false
unfolding normalize_path_as
below context raw path p h e =
    subst (λ x. is_empty (components x) ≡ false) e
      (below-root raw p (wrap-ok (bad_path context) _ p h))

-- The two paths of a renaming, neither of them the root.
abbrev RenamePlaced : Operation → Type 0
RenamePlaced next =
    IsPlace next.path
    × IsPlace next.destination
    × (is_empty (components next.path) ≡ false)
    × (is_empty (components next.destination) ≡ false)

normalize_rename-placed : (op next : Operation) → normalize_rename op ≡ ok next → RenamePlaced next
unfolding normalize_rename
normalize_rename-placed op next h =
    let (p, e, k) = bind-ok _ _ next h in
    let (q, f, l) = bind-ok _ _ next k in
    let (t, m) = reject-ok _ _ _ next l in
    let path = ap (λ o. o.path) (ok-same m) in
    let destination = ap (λ o. o.destination) (ok-same m) in
    (
      placed _ op.path false next.path p e path,
      placed _ op.destination false next.destination q f destination,
      below _ op.path next.path p e path,
      below _ op.destination next.destination q f destination,
    )

-- The test of a kind, and what follows where it holds and where it does not.
kind_case :
    {m k : Result OperationError Operation} {next : Operation} {P : Type 0} (b : Bool)
    → (if b then m else k) ≡ ok next
    → (m ≡ ok next → P)
    → (k ≡ ok next → P)
    → P
kind_case true h f g = f h
kind_case false h f g = g h

normalize_operation-PathPlaced : PathPlaced normalize_operation
unfolding normalize_operation
normalize_operation-PathPlaced op next h =
    kind_case (not (is_operation_kind op.kind)) h (λ e. cc)
      λ h. kind_case (op.kind == create_file) h (normalize_with_mode-PathPlaced _ _ _ op next) λ h.
        kind_case (op.kind == create_dir) h (normalize_with_mode-PathPlaced _ _ _ op next) λ h.
          kind_case (op.kind == create_symlink) h (normalize_symlink-PathPlaced op next) λ h.
            kind_case (op.kind == create_hardlink) h (λ e. (normalize_hardlink-placed op next e).0)
              λ h. kind_case (op.kind == delete) h (normalize_delete-PathPlaced op next) λ h.
                kind_case (op.kind == rename) h (λ e. (normalize_rename-placed op next e).0)
                  λ h.
                    kind_case (op.kind == chmod) h (normalize_with_mode-PathPlaced _ _ _ op next)
                      λ h. kind_case (op.kind == chown) h (normalize_chown-PathPlaced op next) λ h.
                        kind_case (op.kind == truncate) h (normalize_truncate-PathPlaced op next)
                          λ h.
                            kind_case (op.kind == append) h (normalize_append-PathPlaced op next)
                              λ h.
                                kind_case (op.kind == overwrite_range) h
                                  (normalize_overwrite-PathPlaced op next)
                                  λ h.
                                    kind_case (op.kind == set_xattr) h
                                      (normalize_xattr-PathPlaced _ _ op next)
                                      (normalize_xattr-PathPlaced _ _ op next)

of_hardlink :
    (op next : Operation)
    → (op.kind == create_hardlink) ≡ true
    → normalize_operation op ≡ ok next
    → normalize_hardlink op ≡ ok next
unfolding normalize_operation is_operation_kind
of_hardlink op next e h = ground (arith, e, h)

of_rename :
    (op next : Operation)
    → (op.kind == rename) ≡ true
    → normalize_operation op ≡ ok next
    → normalize_rename op ≡ ok next
unfolding normalize_operation is_operation_kind
of_rename op next e h = ground (arith, e, h)

-- The paths of an operation that normalization returns are in their normal form.
pub normalize_operation-IsPlaced :
    (op next : Operation) → normalize_operation op ≡ ok next → IsPlaced next
normalize_operation-IsPlaced op next h =
    let fixed = normalize_operation-fixed op next h in
    record {
      path_placed = normalize_operation-PathPlaced op next h;
      source_placed = λ e. (normalize_hardlink-placed next next (of_hardlink next next e fixed)).1;
      destination_placed = λ e. (normalize_rename-placed next next (of_rename next next e fixed)).1;
      path_below = λ e. (normalize_rename-placed next next (of_rename next next e fixed)).2;
      destination_below = λ e. (normalize_rename-placed next next (of_rename next next e fixed)).3;
    }
