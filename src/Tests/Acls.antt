-- ===== src/Tests/Acls.antt =====
-- metadata.go: ACL entries.
use randfiletree.Prelude.{[], ◌∷◌, codes, ok, ◌≡◌, refl, dec_bytes, sort_strings}
use randfiletree.Plan.Metadata.{
  normalize_acl_entries, check_acl_entries, drop_repeats, trim_space, trim_left, is_space,
  contains_byte,
}
use randfiletree.Plan.Acl.{Increasing, normalize_acl_entries-Increasing}

acl_normalized :
    normalize_acl_entries (codes "u:b" ∷ codes " u:a " ∷ codes "u:b" ∷ [])
    ≡ ok (codes "u:a" ∷ codes "u:b" ∷ [])
unfolding normalize_acl_entries check_acl_entries drop_repeats trim_space trim_left is_space
    contains_byte dec_bytes sort_strings
acl_normalized = refl

acl_example : Increasing (codes "u:a" ∷ codes "u:b" ∷ [])
acl_example =
    normalize_acl_entries-Increasing (codes "u:b" ∷ codes " u:a " ∷ codes "u:b" ∷ [])
      (codes "u:a" ∷ codes "u:b" ∷ []) acl_normalized
