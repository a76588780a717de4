-- ===== src/AclXattr/Text.antt =====
-- internal/aclxattr/aclxattr.go: ACL entries as text, on ASCII.
use randfiletree.Prelude.{
  ℕ, ◌+◌, ◌-◌, ◌*◌, ◌/◌, ◌%◌, Bool, true, false, Option, none, some, List, [], ◌∷◌, ◌++◌, Bytes,
  codes, Result, ok, err, ◌>>=◌, ◌>>◌, wrap, leb, ◌==◌, ◌&&◌, ◌||◌, not, eqb, if◌then◌else◌,
  is_empty, map, has_prefix, trim_prefix,
}
use randfiletree.Prelude.Digits.{decimal}
use randfiletree.Plan.Metadata.{trim_space}
use randfiletree.AclXattr.{
  Entry, AclError, undefined_id, tag_user_obj, tag_user, tag_group_obj, tag_group, tag_mask,
  tag_other, sort_entries, validate,
}

pub data TextError : Type 0 where
  entry_empty : TextError
  field_count : Bytes → TextError
  perm_length : Bytes → TextError
  bad_read bad_write bad_exec : Bytes → TextError
  bad_id : Bytes → TextError
  qualifier_given : ℕ → TextError
  unsupported_role : Bytes → TextError
  access_invalid default_invalid : AclError → TextError

-- One character of a permission: its bit, or nothing.
unfoldable pub perm_bit : ℕ → ℕ → ℕ → TextError → Result TextError ℕ
perm_bit letter bit c e = if c == letter then ok bit else if c == b'-' then ok 0 else err e

-- `perm |= bit` adds, since no bit occurs twice. A shorter text is refused by its length.
unfoldable pub parse_perm : Bytes → Result TextError ℕ
unfolding perm_bit
parse_perm (r ∷ w ∷ x ∷ []) = do
  read ← perm_bit b'r' 4 r (bad_read (r ∷ w ∷ x ∷ []))
  write ← perm_bit b'w' 2 w (bad_write (r ∷ w ∷ x ∷ []))
  exec ← perm_bit b'x' 1 x (bad_exec (r ∷ w ∷ x ∷ []))
  ok (read + write + exec)
parse_perm raw = err (perm_length raw)

-- `perm&bit != 0` for a bit that is a power of two.
unfoldable pub perm_letter : ℕ → ℕ → ℕ → ℕ
perm_letter letter bit perm = if perm / bit % 2 == 0 then b'-' else letter

unfoldable pub format_perm : ℕ → Bytes
unfolding perm_letter
format_perm perm = perm_letter b'r' 4 perm ∷ perm_letter b'w' 2 perm ∷ perm_letter b'x' 1 perm ∷ []

unfoldable pub is_digit : ℕ → Bool
is_digit c = leb 48 c && leb c 57

-- The digits of `strconv.ParseUint(raw, 10, 32)`; `none` is its error.
unfoldable pub parse_digits : ℕ → Bytes → Option ℕ
unfolding is_digit
parse_digits acc [] = some acc
parse_digits acc (c ∷ s) =
    let next = acc * 10 + (c - 48) in
    let rest = parse_digits next s in
    if not (is_digit c) then none else if leb 4294967296 next then none else rest

unfoldable pub parse_id : Bytes → Result TextError ℕ
unfolding parse_digits
parse_id raw =
    if is_empty raw
    then err (bad_id raw)
    else elim (parse_digits 0 raw) [ none ↦ err (bad_id raw) | some id ↦ ok id ]

-- `strings.ToLower`, and `strings.Split(text, ":")`.
unfoldable pub to_lower : Bytes → Bytes
to_lower = map (λ c. if leb 65 c && leb c 90 then c + 32 else c)

unfoldable pub split_colon : Bytes → List Bytes
split_colon [] = [] ∷ []
split_colon (c ∷ s) =
    let rest = split_colon s in
    if c == b':' then [] ∷ rest else elim rest [ [] ↦ (c ∷ []) ∷ [] | w ∷ ws ↦ (c ∷ w) ∷ ws ]

-- Text behind a marker of a default entry, and whether there was one.
unfoldable pub strip_marker : Bytes → Bool × Bytes → Bool × Bytes
strip_marker marker r =
    if has_prefix r.1 marker then (true, trim_space (trim_prefix r.1 marker)) else r

unfoldable pub entry_with : ℕ → ℕ → ℕ → Entry
entry_with tag perm id = record { tag = tag; perm = perm; id = id }

-- The user and group roles: an empty qualifier is the owner's entry.
unfoldable pub qualified_entry : ℕ → ℕ → ℕ → Bytes → Result TextError Entry
unfolding entry_with
qualified_entry owner named perm qualifier =
    if is_empty qualifier
    then ok (entry_with owner perm undefined_id)
    else do id ← parse_id qualifier; ok (entry_with named perm id)

unfoldable pub unqualified_entry : ℕ → ℕ → Bytes → Result TextError Entry
unfolding entry_with
unqualified_entry tag perm qualifier =
    if not (is_empty qualifier)
    then err (qualifier_given tag)
    else ok (entry_with tag perm undefined_id)

unfoldable pub entry_of_role : Bytes → Bytes → ℕ → Result TextError Entry
entry_of_role role qualifier perm =
    if eqb role (codes "u") || eqb role (codes "user")
    then qualified_entry tag_user_obj tag_user perm qualifier
    else if eqb role (codes "g") || eqb role (codes "group")
    then qualified_entry tag_group_obj tag_group perm qualifier
    else if eqb role (codes "m") || eqb role (codes "mask")
    then unqualified_entry tag_mask perm qualifier
    else if eqb role (codes "o") || eqb role (codes "other")
    then unqualified_entry tag_other perm qualifier
    else err (unsupported_role role)

unfoldable pub entry_of_fields : Bytes → List Bytes → Result TextError Entry
entry_of_fields raw (role ∷ qualifier ∷ perm_text ∷ []) = do
  perm ← parse_perm (trim_space perm_text)
  entry_of_role (to_lower (trim_space role)) (trim_space qualifier) perm
entry_of_fields raw fields = err (field_count raw)

-- A nested `do` result: whether the entry is a default one, and the entry.
unfoldable pub parse_text_entry : Bytes → Result TextError (Bool × Entry)
parse_text_entry raw = if is_empty (trim_space raw) then err entry_empty else do
  let marked = strip_marker (codes "default:") (strip_marker (codes "d:") (false, trim_space raw))
  entry ← entry_of_fields raw (split_colon marked.1)
  ok (marked.0, entry)

-- `set[key] = entry` on the maps of `ParseTextEntries`.
unfoldable pub put_entry : Entry → List Entry → List Entry
put_entry e [] = e ∷ []
put_entry e (f ∷ fs) =
    let rest = put_entry e fs in if f.tag == e.tag && f.id == e.id then e ∷ fs else f ∷ rest

-- The loop of `ParseTextEntries`, with the two maps.
unfoldable pub collect_entries :
    List Bytes → List Entry → List Entry → Result TextError (List Entry × List Entry)
collect_entries [] access defaults = ok (access, defaults)
collect_entries (raw ∷ raws) access defaults = do
  parsed ← parse_text_entry raw
  if parsed.0
      then collect_entries raws access (put_entry parsed.1 defaults)
      else collect_entries raws (put_entry parsed.1 access) defaults

-- No entries are valid, so that the tests of the lengths need no case.
unfoldable pub parse_text_entries : List Bytes → Result TextError (List Entry × List Entry)
parse_text_entries raws = do
  sets ← collect_entries raws [] []
  wrap access_invalid (validate (sort_entries sets.0))
  wrap default_invalid (validate (sort_entries sets.1))
  ok (sort_entries sets.0, sort_entries sets.1)

unfoldable pub entry_text : Entry → Bytes
entry_text e =
    if e.tag == tag_user_obj
    then codes "user::" ++ format_perm e.perm
    else if e.tag == tag_user
    then codes "user:" ++ decimal e.id ++ codes ":" ++ format_perm e.perm
    else if e.tag == tag_group_obj
    then codes "group::" ++ format_perm e.perm
    else if e.tag == tag_group
    then codes "group:" ++ decimal e.id ++ codes ":" ++ format_perm e.perm
    else if e.tag == tag_mask
    then codes "mask::" ++ format_perm e.perm
    else if e.tag == tag_other
    then codes "other::" ++ format_perm e.perm
    else codes "unknown:" ++ decimal e.tag ++ codes "::" ++ format_perm e.perm

unfoldable pub format_text_entry : Bool → Entry → Bytes
unfolding entry_text
format_text_entry is_default e =
    if is_default then codes "default:" ++ entry_text e else entry_text e

unfoldable pub format_text_entries : List Entry → List Entry → List Bytes
format_text_entries access defaults =
    map (format_text_entry false) (sort_entries access)
    ++ map (format_text_entry true) (sort_entries defaults)
