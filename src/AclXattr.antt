-- ===== src/AclXattr.antt =====
-- internal/aclxattr/aclxattr.go: ACL entries, their order and validation, and their binary form.
-- `bigendian` is the byte order of the machine.
use randfiletree.Prelude.{
  ℕ, suc, ◌+◌, ◌-◌, ◌*◌, ◌/◌, ◌%◌, Bool, true, false, List, [], ◌∷◌, ◌++◌, Bytes, Result, ok, err,
  Check, ◌>>=◌, ◌>>◌, reject, ltb, leb, ◌==◌, ◌&&◌, ◌||◌, not, if◌then◌else◌, is_empty, length,
  sort_by,
}
pub mod Codec
pub mod Text
pub mod Words
pub mod Form
pub mod Sets
pub mod Modes
pub mod Again

abbrev pub tag_user_obj : ℕ
tag_user_obj = 1

abbrev pub tag_user : ℕ
tag_user = 2

abbrev pub tag_group_obj : ℕ
tag_group_obj = 4

abbrev pub tag_group : ℕ
tag_group = 8

abbrev pub tag_mask : ℕ
tag_mask = 16

abbrev pub tag_other : ℕ
tag_other = 32

abbrev pub xattr_version : ℕ
xattr_version = 2

-- `^uint32(0)`.
abbrev pub undefined_id : ℕ
undefined_id = 4294967295

-- `tag` and `perm` are uint16, `id` is a uint32.
pub record Entry : Type 0 where
  pub tag : ℕ
  pub perm : ℕ
  pub id : ℕ

unfoldable pub access_entries_from_mode : ℕ → List Entry
access_entries_from_mode mode =
    record { tag = tag_user_obj; perm = mode / 64 % 8; id = undefined_id }
    ∷ record { tag = tag_group_obj; perm = mode / 8 % 8; id = undefined_id }
    ∷ record { tag = tag_other; perm = mode % 8; id = undefined_id }
    ∷ []

unfoldable pub tag_sort_rank : ℕ → ℕ
tag_sort_rank tag =
    if tag == tag_user_obj
    then 0
    else if tag == tag_user
    then 1
    else if tag == tag_group_obj
    then 2
    else if tag == tag_group
    then 3
    else if tag == tag_mask
    then 4
    else if tag == tag_other
    then 5
    else 99

-- The comparison that `SortEntries` sorts by.
unfoldable pub entry_less : Entry → Entry → Bool
unfolding tag_sort_rank
entry_less a b =
    if not (tag_sort_rank a.tag == tag_sort_rank b.tag)
    then ltb (tag_sort_rank a.tag) (tag_sort_rank b.tag)
    else if not (a.id == b.id)
    then ltb a.id b.id
    else ltb a.perm b.perm

-- Entries that `entry_less` orders neither way, and whose tags are valid, are equal, so that it does
-- not matter that `sort.Slice` may exchange such entries.
unfoldable pub sort_entries : List Entry → List Entry
unfolding sort_by entry_less
sort_entries entries = sort_by entry_less entries

pub data AclError : Type 0 where
  invalid_perm : ℕ → AclError
  undefined_required : ℕ → AclError
  qualifier_required : ℕ → AclError
  unsupported_tag : ℕ → AclError
  duplicate : ℕ → ℕ → AclError
  user_obj_count group_obj_count other_count mask_count mask_required : AclError
  too_short : ℕ → AclError
  malformed_length : ℕ → AclError
  version_mismatch : ℕ → AclError

unfoldable pub is_unqualified : ℕ → Bool
is_unqualified tag =
    tag == tag_user_obj || tag == tag_group_obj || tag == tag_mask || tag == tag_other

unfoldable pub is_named : ℕ → Bool
is_named tag = tag == tag_user || tag == tag_group

-- The `switch` on the tag.
unfoldable pub check_qualifier : Entry → Check AclError
unfolding is_unqualified is_named
check_qualifier e =
    if is_unqualified e.tag
    then reject (not (e.id == undefined_id)) (undefined_required e.tag)
    else if is_named e.tag
    then reject (e.id == undefined_id) (qualifier_required e.tag)
    else err (unsupported_tag e.tag)

-- `seen` as the entries before.
unfoldable pub has_key : ℕ → ℕ → List Entry → Bool
has_key tag id [] = false
has_key tag id (e ∷ es) = e.tag == tag && e.id == id || has_key tag id es

-- The loop of `Validate` over the entries that are left, with those before them.
unfoldable pub check_entries : List Entry → List Entry → Check AclError
check_entries seen [] = ok tt
check_entries seen (e ∷ es) = do
  reject (ltb 7 e.perm) (invalid_perm e.perm)
  check_qualifier e
  reject (has_key e.tag e.id seen) (duplicate e.tag e.id)
  check_entries (e ∷ seen) es

-- `counts[tag]` behind the loop.
unfoldable pub count_tag : ℕ → List Entry → ℕ
count_tag tag [] = 0
count_tag tag (e ∷ es) = let rest = count_tag tag es in if e.tag == tag then suc rest else rest

-- `hasNamed` behind the loop.
unfoldable pub has_named : List Entry → Bool
unfolding is_named
has_named [] = false
has_named (e ∷ es) = is_named e.tag || has_named es

unfoldable pub validate : List Entry → Check AclError
validate entries = if is_empty entries then ok tt else do
  check_entries [] entries
  reject (not (count_tag tag_user_obj entries == 1)) user_obj_count
  reject (not (count_tag tag_group_obj entries == 1)) group_obj_count
  reject (not (count_tag tag_other entries == 1)) other_count
  reject (ltb 1 (count_tag tag_mask entries)) mask_count
  reject (has_named entries && not (count_tag tag_mask entries == 1)) mask_required

-- `binary.NativeEndian`: the bytes of a uint16 and of a uint32, and back.
unfoldable pub put_uint16 : Bool → ℕ → Bytes
put_uint16 big v = if big then v / 256 % 256 ∷ v % 256 ∷ [] else v % 256 ∷ v / 256 % 256 ∷ []

unfoldable pub put_uint32 : Bool → ℕ → Bytes
put_uint32 big v =
    if big
    then v / 16777216 % 256 ∷ v / 65536 % 256 ∷ v / 256 % 256 ∷ v % 256 ∷ []
    else v % 256 ∷ v / 256 % 256 ∷ v / 65536 % 256 ∷ v / 16777216 % 256 ∷ []

unfoldable pub uint16_of : Bool → ℕ → ℕ → ℕ
uint16_of big a b = if big then a * 256 + b else b * 256 + a

unfoldable pub uint32_of : Bool → ℕ → ℕ → ℕ → ℕ → ℕ
uint32_of big a b c d =
    if big then a * 16777216 + b * 65536 + c * 256 + d else d * 16777216 + c * 65536 + b * 256 + a

-- The loop of `Marshal`.
unfoldable pub put_entries : Bool → List Entry → Bytes
put_entries big [] = []
put_entries big (e ∷ es) =
    put_uint16 big e.tag ++ (put_uint16 big e.perm ++ (put_uint32 big e.id ++ put_entries big es))

-- `Marshal`: no entries give no bytes.
unfoldable pub marshal : Bool → List Entry → Result AclError Bytes
marshal big entries = if is_empty entries then ok [] else do
  validate (sort_entries entries)
  ok (put_uint32 big xattr_version ++ put_entries big (sort_entries entries))

-- The loop of `Parse`: eight bytes are an entry.
unfoldable pub get_entries : Bool → Bytes → List Entry
get_entries big (t0 ∷ t1 ∷ p0 ∷ p1 ∷ a ∷ b ∷ c ∷ d ∷ rest) =
    record { tag = uint16_of big t0 t1; perm = uint16_of big p0 p1; id = uint32_of big a b c d }
    ∷ get_entries big rest
get_entries big _ = []

-- `binary.NativeEndian.Uint32(data[:4])`; shorter data is refused before.
unfoldable pub version_of : Bool → Bytes → ℕ
version_of big (a ∷ b ∷ c ∷ d ∷ rest) = uint32_of big a b c d
version_of big _ = 0

unfoldable pub payload_of : Bytes → Bytes
payload_of (a ∷ b ∷ c ∷ d ∷ rest) = rest
payload_of _ = []

unfoldable pub parse : Bool → Bytes → Result AclError (List Entry)
parse big bytes = if is_empty bytes then ok [] else do
  reject (ltb (length bytes) 4) (too_short (length bytes))
  reject (not ((length bytes - 4) % 8 == 0)) (malformed_length (length bytes))
  reject (not (version_of big bytes == xattr_version)) (version_mismatch (version_of big bytes))
  validate (sort_entries (get_entries big (payload_of bytes)))
  ok (sort_entries (get_entries big (payload_of bytes)))
