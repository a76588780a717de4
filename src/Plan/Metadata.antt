-- ===== src/Plan/Metadata.antt =====
-- metadata.go: extended attribute names, ACL entries, and the metadata that a planned entry gets.
use randfiletree.Prelude.{
  ℕ, suc, ◌+◌, Bool, false, Option, none, some, List, [], ◌∷◌, Bytes, codes, Result, ok, err, Check,
  length, leb, ◌==◌, eqb, ◌||◌, ◌&&◌, not, if◌then◌else◌, is_empty, reject, sort_strings,
}
use mathlib.Core.List.{reverse}
use randfiletree.Prelude.Dict.{insert, member}
use randfiletree.Prelude.Int.{ℤ}
use randfiletree.Action.{◌>>=◌, pure, fail, lift}
use randfiletree.Plan.Types.{
  MetadataConfig, PlanError, acl_entry_empty, acl_entry_contains_nul, acl_entry_contains_comma, Gen,
  FailingGen, Generator, XattrValueGen, nil_call,
}
use randfiletree.Plan.Content.{Drawing, ask, ask_failing}

-- The white space that `strings.TrimSpace` removes, in ASCII text.
unfoldable pub is_space : ℕ → Bool
is_space c = c == 32 || (leb 9 c && leb c 13)

unfoldable pub trim_left : Bytes → Bytes
trim_left [] = []
trim_left (c ∷ s) = let rest = trim_left s in if is_space c then rest else c ∷ s

unfoldable pub trim_space : Bytes → Bytes
unfolding trim_left is_space
trim_space s = reverse (trim_left (reverse (trim_left s)))

unfoldable pub contains_byte : ℕ → Bytes → Bool
contains_byte c [] = false
contains_byte c (d ∷ s) = d == c || contains_byte c s

-- What stands before the first dot; `none` where there is no dot.
unfoldable pub before_dot : Bytes → Option Bytes
before_dot [] = none
before_dot (c ∷ s) =
    let rest = before_dot s in
    if c == b'.' then some [] else elim rest [ none ↦ none | some w ↦ some (c ∷ w) ]

unfoldable pub xattr_namespace : Bytes → Bytes
unfolding before_dot
xattr_namespace name = elim (before_dot name) [ none ↦ [] | some w ↦ w ]

pub data XattrNameError : Type 0 where
  name_empty contains_nul missing_namespace : XattrNameError

unfoldable pub validate_xattr_name : Bytes → Result XattrNameError Bytes
validate_xattr_name name =
    if is_empty name
    then err name_empty
    else if contains_byte 0 name
    then err contains_nul
    else if is_empty (xattr_namespace name)
    then err missing_namespace
    else if leb (length name) (length (xattr_namespace name) + 1)
    then err missing_namespace
    else ok name

pub data XattrConfigError : Type 0 where
  value_gen_nil : ℕ → XattrConfigError
  bad_name : ℕ → XattrNameError → XattrConfigError
  duplicate_name : Bytes → XattrConfigError
  namespace_not_allowed : Bytes → XattrConfigError
  namespace_unsupported : Bytes → XattrConfigError

unfoldable pub check_namespace : Bool → Bool → Bytes → Check XattrConfigError
check_namespace trusted security name =
    if eqb (xattr_namespace name) (codes "user")
    then ok tt
    else if eqb (xattr_namespace name) (codes "trusted")
    then reject (not trusted) (namespace_not_allowed name)
    else if eqb (xattr_namespace name) (codes "security")
    then reject (not security) (namespace_not_allowed name)
    else err (namespace_unsupported name)

module _ {R : Type 0} where
  -- The loop of `validateXAttrConfiguration`, from index `i` on.
  unfoldable pub validate_xattr_gens :
      Bool → Bool → ℕ → List Bytes → List (XattrValueGen R) → Check XattrConfigError
  validate_xattr_gens trusted security i seen [] = ok tt
  validate_xattr_gens trusted security i seen (cfg ∷ cfgs) =
      let rest = validate_xattr_gens trusted security (suc i) (cfg.name ∷ seen) cfgs in
      elim cfg.value_gen [
        | none ↦ err (value_gen_nil i)
        | some _ ↦ elim (validate_xattr_name cfg.name) [
          | err e ↦ err (bad_name i e)
          | ok name ↦
              if member name seen
              then err (duplicate_name name)
              else elim (check_namespace trusted security name) [ err e ↦ err e | ok _ ↦ rest ]
        ]
      ]

  unfoldable pub validate_xattr_configuration : Generator R → Check XattrConfigError
  validate_xattr_configuration g =
      validate_xattr_gens g.xattr_allow_trusted_namespace g.xattr_allow_security_namespace 0 []
        g.xattr_value_gens

-- The first loop of `normalizeACLEntries`.
unfoldable pub check_acl_entries : ℕ → List Bytes → Result PlanError (List Bytes)
check_acl_entries i [] = ok []
check_acl_entries i (entry ∷ entries) =
    let rest = check_acl_entries (suc i) entries in
    let trimmed = trim_space entry in
    if is_empty trimmed
    then err (acl_entry_empty i)
    else if contains_byte 0 trimmed
    then err (acl_entry_contains_nul i)
    else if contains_byte b',' trimmed
    then err (acl_entry_contains_comma i)
    else elim rest [ err e ↦ err e | ok ws ↦ ok (trimmed ∷ ws) ]

-- The second loop: of equal neighbours the first stays.
unfoldable pub drop_repeats : List Bytes → List Bytes
drop_repeats [] = []
drop_repeats (x ∷ []) = x ∷ []
drop_repeats (x ∷ y ∷ xs) = let rest = drop_repeats (y ∷ xs) in if eqb x y then rest else x ∷ rest

unfoldable pub normalize_acl_entries : List Bytes → Result PlanError (List Bytes)
normalize_acl_entries entries = elim (check_acl_entries 0 entries) [
  | err e ↦ err e
  | ok ws ↦ ok (drop_repeats (sort_strings ws))
]

module _ {R : Type 0} where
  unfoldable pub draw_pair : Option (Gen R ℤ) → Option (Gen R ℤ) → Drawing R (Option (ℤ × ℤ))
  draw_pair (some f) (some g) = do a ← ask f; b ← ask g; pure (some (a, b))
  draw_pair (some f) none = pure none
  draw_pair none g = pure none

  unfoldable pub draw_value : Option (FailingGen R Bytes) → Drawing R Bytes
  draw_value none = fail nil_call
  draw_value (some g) = ask_failing g

  unfoldable pub draw_xattrs :
      List (XattrValueGen R) → List (Bytes × Bytes) → Drawing R (List (Bytes × Bytes))
  draw_xattrs [] xattrs = pure xattrs
  draw_xattrs (cfg ∷ cfgs) xattrs = do
    value ← draw_value cfg.value_gen
    draw_xattrs cfgs (insert cfg.name value xattrs)

  unfoldable pub draw_xattr_set : List (XattrValueGen R) → Drawing R (Option (List (Bytes × Bytes)))
  draw_xattr_set [] = pure none
  draw_xattr_set (cfg ∷ cfgs) = do xattrs ← draw_xattrs (cfg ∷ cfgs) []; pure (some xattrs)

  unfoldable pub draw_acl : Option (FailingGen R (List Bytes)) → Drawing R (Option (List Bytes))
  draw_acl none = pure none
  draw_acl (some g) = do
    entries ← ask_failing g
    normalized ← lift (normalize_acl_entries entries)
    pure (some normalized)

  unfoldable pub resolve_metadata : Generator R → Drawing R MetadataConfig
  resolve_metadata g = do
    ownership ← draw_pair g.ownership_uid_gen g.ownership_gid_gen
    timestamps ← draw_pair g.atime_gen g.mtime_gen
    xattrs ← draw_xattr_set g.xattr_value_gens
    acl_entries ← draw_acl g.acl_entries_gen
    pure (record {
      ownership = ownership;
      timestamps = timestamps;
      xattrs = xattrs;
      acl_entries = acl_entries;
    })
