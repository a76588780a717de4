-- ===== src/AclXattr/Sets.antt =====
-- internal/aclxattr/aclxattr.go: `ParseTextEntries` reads what `FormatTextEntries` wrote.
use randfiletree.Prelude.{
  ℕ, ◌<◌, ◌^◌, Bool, true, false, List, [], ◌∷◌, ◌++◌, Bytes, ok, reject-ok, then-ok, ◌==◌, ◌&&◌,
  ◌||◌, ltb, map, All, ◌≡◌, refl, sym, ap, ◌∙◌, arith, inl, inr, Bool-cases,
}
use mathlib.Core.List.{append_assoc, append-nil}
use randfiletree.Prelude.Sorted.{sort_by-All}
use randfiletree.AclXattr.{
  Entry, check_entries, check_qualifier, has_key, sort_entries, entry_less, validate,
}
use randfiletree.AclXattr.Text.{
  parse_text_entries, collect_entries, put_entry, format_text_entry, format_text_entries,
}
use randfiletree.AclXattr.Codec.{sort_entries-sort_entries}
use randfiletree.AclXattr.Form.{parse_text_entry-format_text_entry}

put_entry-new :
    (e : Entry) (acc : List Entry)
    → has_key e.tag e.id acc ≡ false
    → put_entry e acc ≡ acc ++ (e ∷ [])
unfolding put_entry has_key
put_entry-new e [] h = refl
put_entry-new e (f ∷ fs) h = elim (Bool-cases (f.tag == e.tag && f.id == e.id)) [
  | inl k ↦ absurd (ground (arith, rw k at h))
  | inr k ↦ rw (k) (ap (λ xs. f ∷ xs) (put_entry-new e fs (rw k at h)))
]

has_key-snoc :
    (t i : ℕ) (acc : List Entry) (e : Entry) → has_key t i (acc ++ (e ∷ [])) ≡ has_key t i (e ∷ acc)
unfolding has_key
has_key-snoc t i [] e = refl
has_key-snoc t i (f ∷ acc) e =
    ap (λ b. f.tag == t && f.id == i || b) (has_key-snoc t i acc e)
    ∙ swap (f.tag == t && f.id == i) (e.tag == t && e.id == i) (has_key t i acc)
  where
    swap : (a b c : Bool) → (a || (b || c)) ≡ (b || (a || c))
    swap true true c = refl
    swap true false c = refl
    swap false true c = refl
    swap false false c = refl

-- What a step of the loop of `Validate` found.
step_accepted :
    (e : Entry) (seen es : List Entry)
    → check_entries seen (e ∷ es) ≡ ok tt
    → (e.perm < 8)
      × (check_qualifier e ≡ ok tt)
      × (has_key e.tag e.id seen ≡ false)
      × (check_entries (e ∷ seen) es ≡ ok tt)
unfolding check_entries
step_accepted e seen es h =
    let (p, h1) = reject-ok (ltb 7 e.perm) _ _ tt h in
    let (q, h2) = then-ok (check_qualifier e) _ tt h1 in
    let (k, rest) = reject-ok (has_key e.tag e.id seen) _ _ tt h2 in (ground arith, q, k, rest)

-- The width of an identifier.
abbrev pub IsId : Entry → Type 0
IsId e = e.id < 2 ^ 32

-- The entries that are collected have the keys of those that were seen.
Agrees : List Entry → List Entry → Type 0
Agrees acc seen = (t i : ℕ) → has_key t i acc ≡ has_key t i seen

Agrees-snoc :
    (e : Entry) (acc seen : List Entry) → Agrees acc seen → Agrees (acc ++ (e ∷ [])) (e ∷ seen)
unfolding Agrees has_key
Agrees-snoc e acc seen a t i =
    has_key-snoc t i acc e ∙ ap (λ b. e.tag == t && e.id == i || b) (a t i)

collect_entries-access :
    (es acc seen defaults : List Entry) (raws : List Bytes)
    → check_entries seen es ≡ ok tt
    → Agrees acc seen
    → All IsId es
    → collect_entries (map (format_text_entry false) es ++ raws) acc defaults
      ≡ collect_entries raws (acc ++ es) defaults
unfolding Agrees collect_entries
collect_entries-access [] acc seen defaults raws h a w =
    ap (λ xs. collect_entries raws xs defaults) (sym (append-nil acc))
collect_entries-access (e ∷ es) acc seen defaults raws h a (i, w) =
    let (p, q, k, rest) = step_accepted e seen es h in
    rw
      (
        collect_entries,
        parse_text_entry-format_text_entry false e q p i,
        put_entry-new e acc (a e.tag e.id ∙ k),
      )
      (collect_entries-access es (acc ++ (e ∷ [])) (e ∷ seen) defaults raws rest
          (Agrees-snoc e acc seen a) w
        ∙ ap (λ xs. collect_entries raws xs defaults) (append_assoc acc (e ∷ []) es))

collect_entries-defaults :
    (es access acc seen : List Entry)
    → check_entries seen es ≡ ok tt
    → Agrees acc seen
    → All IsId es
    → collect_entries (map (format_text_entry true) es) access acc ≡ ok (access, acc ++ es)
unfolding Agrees collect_entries
collect_entries-defaults [] access acc seen h a w =
    ap (λ xs. ok (access, xs)) (sym (append-nil acc))
collect_entries-defaults (e ∷ es) access acc seen h a (i, w) =
    let (p, q, k, rest) = step_accepted e seen es h in
    rw
      (
        collect_entries,
        parse_text_entry-format_text_entry true e q p i,
        put_entry-new e acc (a e.tag e.id ∙ k),
      )
      (collect_entries-defaults es access (acc ++ (e ∷ [])) (e ∷ seen) rest
          (Agrees-snoc e acc seen a) w
        ∙ ap (λ xs. ok (access, xs)) (append_assoc acc (e ∷ []) es))

validate-check_entries : (es : List Entry) → validate es ≡ ok tt → check_entries [] es ≡ ok tt
unfolding validate check_entries
validate-check_entries [] h = refl
validate-check_entries (e ∷ es) h = (then-ok (check_entries [] (e ∷ es)) _ tt h).0

-- The texts of two lists of entries, each of them valid in its sorted order and with identifiers of
-- 32 bits, are parsed as the two lists in their sorted orders.
pub parse_text_entries-format_text_entries :
    (access defaults : List Entry)
    → validate (sort_entries access) ≡ ok tt
    → validate (sort_entries defaults) ≡ ok tt
    → All IsId access
    → All IsId defaults
    → parse_text_entries (format_text_entries access defaults)
      ≡ ok (sort_entries access, sort_entries defaults)
unfolding parse_text_entries format_text_entries Agrees sort_entries
parse_text_entries-format_text_entries access defaults v u i j =
    let collected =
      collect_entries-access (sort_entries access) [] [] []
        (map (format_text_entry true) (sort_entries defaults))
        (validate-check_entries (sort_entries access) v) (λ t k. refl)
        (sort_by-All entry_less IsId access i)
      ∙ collect_entries-defaults (sort_entries defaults) (sort_entries access) [] []
          (validate-check_entries (sort_entries defaults) u) (λ t k. refl)
          (sort_by-All entry_less IsId defaults j) in
    rw
      (
        parse_text_entries,
        collected,
        sort_entries-sort_entries access,
        sort_entries-sort_entries defaults,
        v,
        u,
      )
      refl
