-- ===== src/AclXattr/Codec.antt =====
-- internal/aclxattr/aclxattr.go: `Parse` reads what `Marshal` wrote.
use randfiletree.Prelude.{
  ℕ, ◌+◌, ◌-◌, ◌*◌, ◌/◌, ◌%◌, ◌<◌, ◌^◌, Bool, true, false, List, [], ◌∷◌, ◌++◌, Bytes, Result, ok,
  ◌==◌, ltb, is_empty, length, All, ◌≡◌, refl, ap, ◌∙◌, arith, Check-cases, inl, inr, sort_by,
}
use randfiletree.Prelude.Sorted.{sort_by-sort_by, sort_by-All}
use mathlib.Core.Path.{subst}
use randfiletree.AclXattr.{
  Entry, AclError, entry_less, sort_entries, validate, put_uint16, put_uint32, uint16_of, uint32_of,
  put_entries, get_entries, marshal, parse, version_of, payload_of, xattr_version,
}

-- The widths of the fields.
abbrev pub IsEntry : Entry → Type 0
IsEntry e = (e.tag < 2 ^ 16) × (e.perm < 2 ^ 16) × (e.id < 2 ^ 32)

two_bytes : (v : ℕ) → v < 2 ^ 16 → v / 256 % 256 * 256 + v % 256 ≡ v
two_bytes v h = omega arith

four_bytes :
    (v : ℕ)
    → v < 2 ^ 32
    → v / 16777216 % 256 * 16777216 + v / 65536 % 256 * 65536 + v / 256 % 256 * 256 + v % 256 ≡ v
four_bytes v h = omega arith

bytes_same : {a b : Bytes} → ◌≡◌ {A = Result AclError Bytes} (ok a) (ok b) → a ≡ b
bytes_same e = cc

entry_same :
    (e : Entry) (t p i : ℕ)
    → t ≡ e.tag
    → p ≡ e.perm
    → i ≡ e.id
    → ◌≡◌ {A = Entry} (record { tag = t; perm = p; id = i }) e
entry_same e t p i a b c = rw (a, b, c) refl

get_entries-put_entries :
    (big : Bool) (es : List Entry) → All IsEntry es → get_entries big (put_entries big es) ≡ es
unfolding get_entries put_entries put_uint16 put_uint32 uint16_of uint32_of
get_entries-put_entries true [] h = refl
get_entries-put_entries false [] h = refl
get_entries-put_entries true (e ∷ es) ((t, p, i), h) =
    ap (λ x. x ∷ get_entries true (put_entries true es))
      (entry_same e _ _ _ (two_bytes e.tag t) (two_bytes e.perm p) (four_bytes e.id i))
    ∙ ap (λ xs. e ∷ xs) (get_entries-put_entries true es h)
get_entries-put_entries false (e ∷ es) ((t, p, i), h) =
    ap (λ x. x ∷ get_entries false (put_entries false es))
      (entry_same e _ _ _ (two_bytes e.tag t) (two_bytes e.perm p) (four_bytes e.id i))
    ∙ ap (λ xs. e ∷ xs) (get_entries-put_entries false es h)

length-put_entries : (big : Bool) (es : List Entry) → length (put_entries big es) ≡ 8 * length es
unfolding put_entries put_uint16 put_uint32
length-put_entries true [] = omega arith
length-put_entries false [] = omega arith
length-put_entries true (e ∷ es) = omega (arith, length-put_entries true es)
length-put_entries false (e ∷ es) = omega (arith, length-put_entries false es)

entry_less_asym : (a b : Entry) → entry_less a b ≡ true → entry_less b a ≡ false
unfolding entry_less
entry_less_asym a b h = ground arith

pub sort_entries-sort_entries : (es : List Entry) → sort_entries (sort_entries es) ≡ sort_entries es
unfolding sort_entries
sort_entries-sort_entries es = sort_by-sort_by entry_less entry_less_asym es

payload_of-put_uint32 :
    (big : Bool) (v : ℕ) (rest : Bytes) → payload_of (put_uint32 big v ++ rest) ≡ rest
unfolding payload_of put_uint32
payload_of-put_uint32 true v rest = refl
payload_of-put_uint32 false v rest = refl

version_of-put_uint32 :
    (big : Bool) (v : ℕ) (rest : Bytes) → v < 2 ^ 32 → version_of big (put_uint32 big v ++ rest) ≡ v
unfolding version_of put_uint32 uint32_of
version_of-put_uint32 true v rest h = four_bytes v h
version_of-put_uint32 false v rest h = four_bytes v h

length-put_uint32 :
    (big : Bool) (v : ℕ) (rest : Bytes) → length (put_uint32 big v ++ rest) ≡ 4 + length rest
unfolding put_uint32
length-put_uint32 true v rest = omega arith
length-put_uint32 false v rest = omega arith

is_empty-put_uint32 :
    (big : Bool) (v : ℕ) (rest : Bytes) → is_empty (put_uint32 big v ++ rest) ≡ false
unfolding put_uint32
is_empty-put_uint32 true v rest = refl
is_empty-put_uint32 false v rest = refl

pub sort_entries-IsEntry : (es : List Entry) → All IsEntry es → All IsEntry (sort_entries es)
unfolding sort_entries
sort_entries-IsEntry es h = sort_by-All entry_less IsEntry es h

parse-put_entries :
    (big : Bool) (es : List Entry)
    → All IsEntry es
    → validate (sort_entries es) ≡ ok tt
    → parse big (put_uint32 big xattr_version ++ put_entries big (sort_entries es))
      ≡ ok (sort_entries es)
unfolding parse
parse-put_entries big es h v =
    let body = put_entries big (sort_entries es) in
    let size = length-put_uint32 big xattr_version body in
    let total : length (put_uint32 big xattr_version ++ body) ≡ 4 + 8 * length (sort_entries es) =
      omega (arith, size, length-put_entries big (sort_entries es)) in
    let long : ltb (length (put_uint32 big xattr_version ++ body)) 4 ≡ false =
      ground (arith, total) in
    let whole : ((length (put_uint32 big xattr_version ++ body) - 4) % 8 == 0) ≡ true =
      ground (arith, total) in
    rw
      (
        parse,
        is_empty-put_uint32 big xattr_version body,
        long,
        whole,
        version_of-put_uint32 big xattr_version body (omega arith),
        payload_of-put_uint32 big xattr_version body,
        get_entries-put_entries big (sort_entries es) (sort_entries-IsEntry es h),
        sort_entries-sort_entries es,
        v,
      )
      refl

-- In either byte order, what is marshalled of entries whose fields have their widths is parsed as
-- the entries in their sorted order.
pub parse-marshal :
    (big : Bool) (es : List Entry) (bytes : Bytes)
    → All IsEntry es
    → marshal big es ≡ ok bytes
    → parse big bytes ≡ ok (sort_entries es)
unfolding marshal
parse-marshal big [] bytes h e =
    subst (λ b. parse big b ≡ ok (sort_entries [])) (bytes_same e)
      (unfold parse sort_entries sort_by in refl)
parse-marshal big (x ∷ es) bytes h e = elim (Check-cases (validate (sort_entries (x ∷ es)))) [
  | inr (a, v) ↦ absurd (ground (arith, e, v))
  | inl v ↦
      subst (λ b. parse big b ≡ ok (sort_entries (x ∷ es))) (bytes_same (rw v at e))
        (parse-put_entries big (x ∷ es) h v)
]
