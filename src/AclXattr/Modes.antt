-- ===== src/AclXattr/Modes.antt =====
-- internal/aclxattr/aclxattr.go: the base entries that are derived from mode bits.
use randfiletree.Prelude.{
  ℕ, ◌/◌, ◌%◌, Bool, false, List, ◌++◌, Bytes, ok, ltb, All, is_empty, ◌≡◌, refl, ap, ◌∙◌, arith,
}
use randfiletree.AclXattr.{
  Entry, access_entries_from_mode, sort_entries, validate, check_entries, check_qualifier, has_key,
  count_tag, has_named, marshal, parse, put_uint32, put_entries, xattr_version,
}
use randfiletree.AclXattr.Codec.{IsEntry, parse-marshal}

small : (n : ℕ) → ltb 7 (n % 8) ≡ false
small n = ground arith

sort_entries-access :
    (mode : ℕ) → sort_entries (access_entries_from_mode mode) ≡ access_entries_from_mode mode
unfolding sort_entries access_entries_from_mode
sort_entries-access mode = refl

validate-access : (mode : ℕ) → validate (access_entries_from_mode mode) ≡ ok tt
unfolding validate access_entries_from_mode check_entries check_qualifier has_key count_tag
    has_named
validate-access mode = rw (small (mode / 64), small (mode / 8), small mode) refl

access-IsEntry : (mode : ℕ) → All IsEntry (access_entries_from_mode mode)
unfolding access_entries_from_mode
access-IsEntry mode = (
  (omega arith, omega arith, omega arith),
  ((omega arith, omega arith, omega arith), ((omega arith, omega arith, omega arith), tt)),
)

-- Entries that are sorted and valid are marshalled as they stand.
pub marshal-sorted :
    (big : Bool) (es : List Entry)
    → is_empty es ≡ false
    → sort_entries es ≡ es
    → validate es ≡ ok tt
    → marshal big es ≡ ok (put_uint32 big xattr_version ++ put_entries big es)
unfolding marshal
marshal-sorted big es some_entry sorted valid = rw (marshal, some_entry, sorted, valid) refl

access-not_empty : (mode : ℕ) → is_empty (access_entries_from_mode mode) ≡ false
unfolding access_entries_from_mode
access-not_empty mode = refl

-- In either byte order, the base entries of a mode are marshalled with no error, and parsed back as
-- they are.
pub access_entries_from_mode-parsed :
    (big : Bool) (mode : ℕ)
    → (bytes : Bytes) × (marshal big (access_entries_from_mode mode) ≡ ok bytes)
      × (parse big bytes ≡ ok (access_entries_from_mode mode))
access_entries_from_mode-parsed big mode =
    let m =
      marshal-sorted big (access_entries_from_mode mode) (access-not_empty mode)
        (sort_entries-access mode) (validate-access mode) in
    (
      _,
      m,
      parse-marshal big (access_entries_from_mode mode) _ (access-IsEntry mode) m
          ∙ ap ok (sort_entries-access mode),
    )
