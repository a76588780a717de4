-- ===== src/Tests/AclXattrs.antt =====
-- internal/aclxattr/aclxattr.go: the binary form of an access list with a named user.
use randfiletree.Prelude.{
  [], ◌∷◌, Bytes, List, ok, ◌≡◌, refl, codes, true, Bool, ltb, ◌&&◌, All, false, sort_by, arith,
}
use randfiletree.AclXattr.{
  Entry, marshal, parse, sort_entries, entry_less, tag_sort_rank, validate, check_entries,
  check_qualifier, is_unqualified, is_named, has_key, count_tag, has_named, put_entries, put_uint16,
  put_uint32, undefined_id, tag_user_obj, tag_user, tag_group_obj, tag_mask, tag_other,
  access_entries_from_mode,
}
use randfiletree.AclXattr.Codec.{parse-marshal}
use randfiletree.Prelude.Digits.{decimal, digits, digit}
use randfiletree.AclXattr.Text.{
  parse_text_entries, format_text_entries, format_text_entry, entry_text, format_perm, perm_letter,
}
use randfiletree.AclXattr.Sets.{parse_text_entries-format_text_entries}
use randfiletree.AclXattr.Again.{IsByte, marshal-parse}
use randfiletree.AclXattr.Modes.{access_entries_from_mode-parsed}

abbrev named_list : List Entry
named_list =
    record { tag = tag_other; perm = 4; id = undefined_id }
    ∷ record { tag = tag_mask; perm = 7; id = undefined_id }
    ∷ record { tag = tag_user; perm = 6; id = 1000 }
    ∷ record { tag = tag_user_obj; perm = 7; id = undefined_id }
    ∷ record { tag = tag_group_obj; perm = 5; id = undefined_id }
    ∷ []

abbrev named_bytes : Bytes
named_bytes =
    2 ∷ 0 ∷ 0 ∷ 0 ∷ 1 ∷ 0 ∷ 7 ∷ 0 ∷ 255 ∷ 255 ∷ 255 ∷ 255 ∷ 2 ∷ 0 ∷ 6 ∷ 0 ∷ 232 ∷ 3 ∷ 0 ∷ 0 ∷ 4 ∷ 0
    ∷ 5 ∷ 0 ∷ 255 ∷ 255 ∷ 255 ∷ 255 ∷ 16 ∷ 0 ∷ 7 ∷ 0 ∷ 255 ∷ 255 ∷ 255 ∷ 255 ∷ 32 ∷ 0 ∷ 4 ∷ 0 ∷ 255
    ∷ 255 ∷ 255 ∷ 255 ∷ []

named_marshalled : marshal false named_list ≡ ok named_bytes
unfolding marshal sort_entries sort_by entry_less tag_sort_rank validate check_entries
    check_qualifier is_unqualified is_named has_key count_tag has_named put_entries put_uint16
    put_uint32
named_marshalled = refl

parse-marshal_example : parse false named_bytes ≡ ok (sort_entries named_list)
parse-marshal_example =
    parse-marshal false named_list named_bytes
      (
        (omega arith, omega arith, omega arith),
        (
          (omega arith, omega arith, omega arith),
          (
            (omega arith, omega arith, omega arith),
            (
              (omega arith, omega arith, omega arith),
              ((omega arith, omega arith, omega arith), tt),
            ),
          ),
        ),
      )
      named_marshalled

abbrev are_bytes : Bytes → Bool
are_bytes [] = true
are_bytes (b ∷ bs) = ltb b 256 && are_bytes bs

are_bytes-IsByte : (bs : Bytes) → are_bytes bs ≡ true → All IsByte bs
are_bytes-IsByte [] h = tt
are_bytes-IsByte (b ∷ bs) h = (ground arith, are_bytes-IsByte bs (ground arith))

again_example :
    (again : Bytes) × (marshal false (sort_entries named_list) ≡ ok again)
    × (parse false again ≡ ok (sort_entries named_list))
again_example =
    marshal-parse false named_bytes (sort_entries named_list) (are_bytes-IsByte named_bytes refl)
      parse-marshal_example

mode_example :
    (bytes : Bytes) × (marshal false (access_entries_from_mode 493) ≡ ok bytes)
    × (parse false bytes ≡ ok (access_entries_from_mode 493))
mode_example = access_entries_from_mode-parsed false 493

abbrev no_entries : List Entry
no_entries = []

named_accepted : validate (sort_entries named_list) ≡ ok tt
unfolding sort_entries sort_by entry_less tag_sort_rank validate check_entries check_qualifier
    is_unqualified is_named has_key count_tag has_named
named_accepted = refl

none_accepted : validate (sort_entries no_entries) ≡ ok tt
unfolding sort_entries sort_by validate
none_accepted = refl

named_text :
    format_text_entries named_list no_entries
    ≡ codes "user::rwx"
      ∷ codes "user:1000:rw-"
      ∷ codes "group::r-x"
      ∷ codes "mask::rwx"
      ∷ codes "other::r--"
      ∷ []
unfolding format_text_entries sort_entries sort_by entry_less tag_sort_rank format_text_entry
    entry_text format_perm perm_letter decimal digits digit
named_text = refl

text_example :
    parse_text_entries (format_text_entries named_list no_entries)
    ≡ ok (sort_entries named_list, sort_entries no_entries)
text_example =
    parse_text_entries-format_text_entries named_list no_entries named_accepted none_accepted
      (omega arith, (omega arith, (omega arith, (omega arith, (omega arith, tt))))) tt
