-- ===== src/AclXattr/Again.antt =====
-- internal/aclxattr/aclxattr.go: what `Parse` returns can be written again.
use randfiletree.Prelude.{
  ℕ, ◌-◌, ◌%◌, ◌<◌, ◌^◌, Bool, true, false, List, [], ◌∷◌, Bytes, Result, ok, All, ◌≡◌, refl, sym,
  ap, ◌∙◌, arith, ltb, length, ◌==◌, not, reject-ok, then-ok, sort_by,
}
use mathlib.Core.Path.{subst}
use randfiletree.AclXattr.{
  AclError, Entry, sort_entries, validate, marshal, parse, get_entries, payload_of, version_of,
  xattr_version, uint16_of, uint32_of,
}
use randfiletree.AclXattr.Codec.{
  IsEntry, sort_entries-IsEntry, sort_entries-sort_entries, parse-marshal,
}
use randfiletree.AclXattr.Modes.{marshal-sorted}

abbrev pub IsByte : ℕ → Type 0
IsByte b = b < 256

uint16_of-fits : (big : Bool) (a b : ℕ) → a < 256 → b < 256 → uint16_of big a b < 2 ^ 16
unfolding uint16_of
uint16_of-fits true a b p q = omega arith
uint16_of-fits false a b p q = omega arith

uint32_of-fits :
    (big : Bool) (a b c d : ℕ)
    → a < 256
    → b < 256
    → c < 256
    → d < 256
    → uint32_of big a b c d < 2 ^ 32
unfolding uint32_of
uint32_of-fits true a b c d p q r s = omega arith
uint32_of-fits false a b c d p q r s = omega arith

get_entries-IsEntry :
    (big : Bool) (bytes : Bytes) → All IsByte bytes → All IsEntry (get_entries big bytes)
unfolding get_entries
get_entries-IsEntry big [] h = tt
get_entries-IsEntry big (_ ∷ []) h = tt
get_entries-IsEntry big (_ ∷ _ ∷ []) h = tt
get_entries-IsEntry big (_ ∷ _ ∷ _ ∷ []) h = tt
get_entries-IsEntry big (_ ∷ _ ∷ _ ∷ _ ∷ []) h = tt
get_entries-IsEntry big (_ ∷ _ ∷ _ ∷ _ ∷ _ ∷ []) h = tt
get_entries-IsEntry big (_ ∷ _ ∷ _ ∷ _ ∷ _ ∷ _ ∷ []) h = tt
get_entries-IsEntry big (_ ∷ _ ∷ _ ∷ _ ∷ _ ∷ _ ∷ _ ∷ []) h = tt
get_entries-IsEntry big (t ∷ u ∷ p ∷ q ∷ a ∷ b ∷ c ∷ d ∷ rest)
      (ht, (hu, (hp, (hq, (ha, (hb, (hc, (hd, h)))))))) =
    (
      (
        uint16_of-fits big t u ht hu,
        uint16_of-fits big p q hp hq,
        uint32_of-fits big a b c d ha hb hc hd,
      ),
      get_entries-IsEntry big rest h,
    )

payload_of-IsByte : (bytes : Bytes) → All IsByte bytes → All IsByte (payload_of bytes)
unfolding payload_of
payload_of-IsByte [] h = tt
payload_of-IsByte (_ ∷ []) h = tt
payload_of-IsByte (_ ∷ _ ∷ []) h = tt
payload_of-IsByte (_ ∷ _ ∷ _ ∷ []) h = tt
payload_of-IsByte (_ ∷ _ ∷ _ ∷ _ ∷ rest) (a, (b, (c, (d, h)))) = h

results_same : {A : Type 0} {a b : A} → ◌≡◌ {A = Result AclError A} (ok a) (ok b) → a ≡ b
results_same e = cc

parse-accepted :
    (big : Bool) (c : ℕ) (bytes : Bytes) (es : List Entry)
    → parse big (c ∷ bytes) ≡ ok es
    → (validate es ≡ ok tt) × (es ≡ sort_entries (get_entries big (payload_of (c ∷ bytes))))
unfolding parse
parse-accepted big c bytes es h =
    let found = sort_entries (get_entries big (payload_of (c ∷ bytes))) in
    let (_, h1) = reject-ok (ltb (length (c ∷ bytes)) 4) _ _ es h in
    let (_, h2) = reject-ok (not ((length (c ∷ bytes) - 4) % 8 == 0)) _ _ es h1 in
    let (_, h3) = reject-ok (not (version_of big (c ∷ bytes) == xattr_version)) _ _ es h2 in
    let (v, e) = then-ok (validate found) _ es h3 in
    let same = sym (results_same e) in (subst (λ xs. validate xs ≡ ok tt) (sym same) v, same)

parse_nothing : (big : Bool) (es : List Entry) → parse big [] ≡ ok es → [] ≡ es
unfolding parse
parse_nothing big es h = results_same h

Written : Bool → List Entry → Type 0
Written big es = (again : Bytes) × (marshal big es ≡ ok again) × (parse big again ≡ ok es)

accepted-Written :
    (big : Bool) (es : List Entry)
    → validate es ≡ ok tt
    → sort_entries es ≡ es
    → All IsEntry es
    → Written big es
unfolding Written
accepted-Written big [] v s w = ([], unfold marshal in refl, unfold parse in refl)
accepted-Written big (e ∷ es) v s w =
    let m = marshal-sorted big (e ∷ es) refl s v in
    (_, m, parse-marshal big (e ∷ es) _ w m ∙ ap ok s)

-- In either byte order, the entries that are parsed from bytes are marshalled with no error, and
-- parsed as they are.
pub marshal-parse :
    (big : Bool) (bytes : Bytes) (es : List Entry)
    → All IsByte bytes
    → parse big bytes ≡ ok es
    → (again : Bytes) × (marshal big es ≡ ok again) × (parse big again ≡ ok es)
unfolding Written
marshal-parse big [] es h e =
    subst (Written big) (parse_nothing big es e)
      (unfold sort_entries sort_by validate in accepted-Written big [] refl refl tt)
marshal-parse big (c ∷ bytes) es h e =
    let (v, same) = parse-accepted big c bytes es e in
    let found = get_entries big (payload_of (c ∷ bytes)) in
    accepted-Written big es v (ap sort_entries same ∙ sort_entries-sort_entries found ∙ sym same) (
      subst (All IsEntry) (sym same) (
        sort_entries-IsEntry found
          (get_entries-IsEntry big (payload_of (c ∷ bytes)) (payload_of-IsByte (c ∷ bytes) h))))
