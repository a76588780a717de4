-- ===== src/AclXattr/Form.antt =====
-- internal/aclxattr/aclxattr.go: `ParseTextEntry` reads what `formatTextEntry` wrote.
use randfiletree.Prelude.{
  ℕ, ◌<◌, ◌^◌, Bool, true, false, [], ◌∷◌, ◌++◌, Bytes, codes, ok, ◌>>=◌, ◌==◌, is_empty, dec_bytes,
  has_prefix, drop_prefix, trim_prefix, All, ◌≡◌, refl, ap, ◌∙◌, arith, inl, inr, Bool-cases,
}
use mathlib.Core.List.{append_assoc}
use mathlib.Core.Path.{subst}
use randfiletree.Prelude.Digits.{decimal}
use randfiletree.GoPath.Below.{All-append}
use randfiletree.Plan.Metadata.{is_space, trim_space}
use randfiletree.AclXattr.{Entry, undefined_id, check_qualifier, is_unqualified, is_named}
use randfiletree.AclXattr.Text.{
  parse_text_entry, strip_marker, entry_of_fields, entry_of_role, entry_with, to_lower,
  qualified_entry, unqualified_entry, format_text_entry, entry_text, format_perm, split_colon,
}
use randfiletree.AclXattr.Words.{
  Solid, IsWordByte, trim_space-Solid, word-Solid, split_colon-word, split_colon-append,
  decimal-IsWord, decimal-not_empty, parse_id-decimal, parse_perm-format_perm, format_perm-IsWord,
}

-- A line of three words.
abbrev line : Bytes → Bytes → ℕ → Bytes
line role qualifier perm = role ++ (b':' ∷ (qualifier ++ (b':' ∷ format_perm perm)))

abbrev marked : Bool → Bytes → Bytes
marked false s = s
marked true s = codes "default:" ++ s

line-Solid :
    (role qualifier : Bytes) (perm : ℕ)
    → All IsWordByte role
    → All IsWordByte qualifier
    → All Solid (line role qualifier perm)
unfolding is_space
line-Solid role qualifier perm r q = All-append Solid role _ (word-Solid role r) (
  refl,
  All-append Solid qualifier _ (word-Solid qualifier q)
      (refl, word-Solid _ (format_perm-IsWord perm)),
)

entry_of_fields-line :
    (raw role qualifier : Bytes) (perm : ℕ)
    → All IsWordByte role
    → All IsWordByte qualifier
    → perm < 8
    → entry_of_fields raw (split_colon (line role qualifier perm))
      ≡ entry_of_role (to_lower role) qualifier perm
unfolding entry_of_fields
entry_of_fields-line raw role qualifier perm r q p =
    rw
      (
        split_colon-append role (qualifier ++ (b':' ∷ format_perm perm)) r,
        split_colon-append qualifier (format_perm perm) q,
        split_colon-word (format_perm perm) (format_perm-IsWord perm),
        trim_space-Solid role (word-Solid role r),
        trim_space-Solid qualifier (word-Solid qualifier q),
        trim_space-Solid (format_perm perm) (word-Solid _ (format_perm-IsWord perm)),
        parse_perm-format_perm perm p,
      )
      refl

parse_text_entry-plain :
    (s : Bytes)
    → All Solid s
    → is_empty s ≡ false
    → has_prefix s (codes "d:") ≡ false
    → has_prefix s (codes "default:") ≡ false
    → parse_text_entry s ≡ (entry_of_fields s (split_colon s) >>= λ e. ok (false, e))
unfolding parse_text_entry strip_marker
parse_text_entry-plain s h n d l = rw (trim_space-Solid s h, n, d, l) refl

strip_marker-default :
    (s : Bytes)
    → strip_marker (codes "default:") (strip_marker (codes "d:") (false, codes "default:" ++ s))
      ≡ (true, trim_space s)
unfolding strip_marker has_prefix trim_prefix drop_prefix
strip_marker-default s = refl

parse_text_entry-default :
    (s : Bytes)
    → All Solid s
    → parse_text_entry (codes "default:" ++ s)
      ≡ (entry_of_fields (codes "default:" ++ s) (split_colon s) >>= λ e. ok (true, e))
unfolding parse_text_entry is_space
parse_text_entry-default s h =
    rw
      (
        trim_space-Solid (codes "default:" ++ s) (
            All-append Solid (codes "default:") s
              (refl, (refl, (refl, (refl, (refl, (refl, (refl, (refl, tt)))))))) h),
        strip_marker-default s,
        trim_space-Solid s h,
      )
      refl

-- A line that does not look like a default entry is parsed by its role, marked or not.
parse_text_entry-line :
    (is_default : Bool) (role qualifier : Bytes) (perm : ℕ)
    → All IsWordByte role
    → All IsWordByte qualifier
    → perm < 8
    → is_empty (line role qualifier perm) ≡ false
    → has_prefix (line role qualifier perm) (codes "d:") ≡ false
    → has_prefix (line role qualifier perm) (codes "default:") ≡ false
    → parse_text_entry (marked is_default (line role qualifier perm))
      ≡ (entry_of_role (to_lower role) qualifier perm >>= λ e. ok (is_default, e))
parse_text_entry-line false role qualifier perm r q p n d l =
    parse_text_entry-plain (line role qualifier perm) (line-Solid role qualifier perm r q) n d l
    ∙ ap (λ x. x >>= λ e. ok (false, e)) (entry_of_fields-line _ role qualifier perm r q p)
parse_text_entry-line true role qualifier perm r q p n d l =
    parse_text_entry-default (line role qualifier perm) (line-Solid role qualifier perm r q)
    ∙ ap (λ x. x >>= λ e. ok (true, e)) (entry_of_fields-line _ role qualifier perm r q p)

abbrev Reads : Bool → Entry → Type 0
Reads is_default e = parse_text_entry (format_text_entry is_default e) ≡ ok (is_default, e)

format_text_entry-marked :
    (is_default : Bool) (e : Entry)
    → format_text_entry is_default e ≡ marked is_default (entry_text e)
unfolding format_text_entry
format_text_entry-marked false e = refl
format_text_entry-marked true e = refl

-- An entry whose text is a line is read by the role of the line.
line-Reads :
    (is_default : Bool) (e : Entry) (role qualifier : Bytes)
    → All IsWordByte role
    → All IsWordByte qualifier
    → e.perm < 8
    → entry_text e ≡ line role qualifier e.perm
    → is_empty (line role qualifier e.perm) ≡ false
    → has_prefix (line role qualifier e.perm) (codes "d:") ≡ false
    → has_prefix (line role qualifier e.perm) (codes "default:") ≡ false
    → entry_of_role (to_lower role) qualifier e.perm ≡ ok e
    → Reads is_default e
line-Reads is_default e role qualifier r q p text n d l read =
    ap parse_text_entry (format_text_entry-marked is_default e)
    ∙ ap (λ t. parse_text_entry (marked is_default t)) text
    ∙ parse_text_entry-line is_default role qualifier e.perm r q p n d l
    ∙ ap (λ x. x >>= λ f. ok (is_default, f)) read

owner-Reads :
    (is_default : Bool) (perm : ℕ) → perm < 8 → Reads is_default (entry_with 1 perm undefined_id)
unfolding entry_text entry_with entry_of_role qualified_entry unqualified_entry to_lower is_space
    has_prefix dec_bytes
owner-Reads is_default perm p =
    line-Reads is_default (entry_with 1 perm undefined_id) (codes "user") []
      ((refl, refl), ((refl, refl), ((refl, refl), ((refl, refl), tt)))) tt p refl refl refl refl
      refl

owning_group-Reads :
    (is_default : Bool) (perm : ℕ) → perm < 8 → Reads is_default (entry_with 4 perm undefined_id)
unfolding entry_text entry_with entry_of_role qualified_entry unqualified_entry to_lower is_space
    has_prefix dec_bytes
owning_group-Reads is_default perm p =
    line-Reads is_default (entry_with 4 perm undefined_id) (codes "group") []
      ((refl, refl), ((refl, refl), ((refl, refl), ((refl, refl), ((refl, refl), tt))))) tt p refl
      refl refl refl refl

mask-Reads :
    (is_default : Bool) (perm : ℕ) → perm < 8 → Reads is_default (entry_with 16 perm undefined_id)
unfolding entry_text entry_with entry_of_role qualified_entry unqualified_entry to_lower is_space
    has_prefix dec_bytes
mask-Reads is_default perm p =
    line-Reads is_default (entry_with 16 perm undefined_id) (codes "mask") []
      ((refl, refl), ((refl, refl), ((refl, refl), ((refl, refl), tt)))) tt p refl refl refl refl
      refl

others-Reads :
    (is_default : Bool) (perm : ℕ) → perm < 8 → Reads is_default (entry_with 32 perm undefined_id)
unfolding entry_text entry_with entry_of_role qualified_entry unqualified_entry to_lower is_space
    has_prefix dec_bytes
others-Reads is_default perm p =
    line-Reads is_default (entry_with 32 perm undefined_id) (codes "other") []
      ((refl, refl), ((refl, refl), ((refl, refl), ((refl, refl), ((refl, refl), tt))))) tt p refl
      refl refl refl refl

user-Reads :
    (is_default : Bool) (perm id : ℕ)
    → perm < 8
    → id < 2 ^ 32
    → Reads is_default (entry_with 2 perm id)
unfolding entry_text entry_with entry_of_role qualified_entry unqualified_entry to_lower is_space
    has_prefix dec_bytes
user-Reads is_default perm id p i =
    line-Reads is_default (entry_with 2 perm id) (codes "user") (decimal id)
      ((refl, refl), ((refl, refl), ((refl, refl), ((refl, refl), tt)))) (decimal-IsWord id) p
      (append_assoc (codes "user:" ++ decimal id) (codes ":") (format_perm perm)) refl refl refl
      (rw (decimal-not_empty id, parse_id-decimal id i) refl)

group-Reads :
    (is_default : Bool) (perm id : ℕ)
    → perm < 8
    → id < 2 ^ 32
    → Reads is_default (entry_with 8 perm id)
unfolding entry_text entry_with entry_of_role qualified_entry unqualified_entry to_lower is_space
    has_prefix dec_bytes
group-Reads is_default perm id p i =
    line-Reads is_default (entry_with 8 perm id) (codes "group") (decimal id)
      ((refl, refl), ((refl, refl), ((refl, refl), ((refl, refl), ((refl, refl), tt)))))
      (decimal-IsWord id) p
      (append_assoc (codes "group:" ++ decimal id) (codes ":") (format_perm perm)) refl refl refl
      (rw (decimal-not_empty id, parse_id-decimal id i) refl)

entry_same : (e : Entry) (tag id : ℕ) → tag ≡ e.tag → id ≡ e.id → entry_with tag e.perm id ≡ e
unfolding entry_with
entry_same e tag id t i = rw (t, i) refl

undefined_qualifier :
    (e : Entry) → check_qualifier e ≡ ok tt → is_unqualified e.tag ≡ true → undefined_id ≡ e.id
unfolding check_qualifier
undefined_qualifier e v u = ground (arith, rw u at v)

data Tag (t : ℕ) : Type 0 where
  user_obj : 1 ≡ t → Tag t
  user : 2 ≡ t → Tag t
  group_obj : 4 ≡ t → Tag t
  group : 8 ≡ t → Tag t
  mask : 16 ≡ t → Tag t
  other : 32 ≡ t → Tag t

tag_of : (e : Entry) → check_qualifier e ≡ ok tt → Tag e.tag
unfolding check_qualifier is_unqualified is_named
tag_of e v = elim (Bool-cases (e.tag == 1)) [
  | inl t ↦ user_obj (ground arith)
  | inr t1 ↦ elim (Bool-cases (e.tag == 2)) [
    | inl t ↦ user (ground arith)
    | inr t2 ↦ elim (Bool-cases (e.tag == 4)) [
      | inl t ↦ group_obj (ground arith)
      | inr t4 ↦ elim (Bool-cases (e.tag == 8)) [
        | inl t ↦ group (ground arith)
        | inr t8 ↦ elim (Bool-cases (e.tag == 16)) [
          | inl t ↦ mask (ground arith)
          | inr t16 ↦ elim (Bool-cases (e.tag == 32)) [
            | inl t ↦ other (ground arith)
            | inr t32 ↦ absurd (ground (arith, rw (t1, t2, t4, t8, t16, t32) at v))
          ]
        ]
      ]
    ]
  ]
]

-- Every entry that the validation accepts, with an identifier of 32 bits, is parsed from its text,
-- marked as a default entry or not.
pub parse_text_entry-format_text_entry :
    (is_default : Bool) (e : Entry)
    → check_qualifier e ≡ ok tt
    → e.perm < 8
    → e.id < 2 ^ 32
    → parse_text_entry (format_text_entry is_default e) ≡ ok (is_default, e)
unfolding is_unqualified
parse_text_entry-format_text_entry is_default e v p i =
    let undefined = undefined_qualifier e v in
    elim (tag_of e v) [
      | user_obj t ↦
          subst (Reads is_default) (entry_same e 1 undefined_id t (undefined (ground arith)))
            (owner-Reads is_default e.perm p)
      | group_obj t ↦
          subst (Reads is_default) (entry_same e 4 undefined_id t (undefined (ground arith)))
            (owning_group-Reads is_default e.perm p)
      | mask t ↦
          subst (Reads is_default) (entry_same e 16 undefined_id t (undefined (ground arith)))
            (mask-Reads is_default e.perm p)
      | other t ↦
          subst (Reads is_default) (entry_same e 32 undefined_id t (undefined (ground arith)))
            (others-Reads is_default e.perm p)
      | user t ↦
          subst (Reads is_default) (entry_same e 2 e.id t refl)
            (user-Reads is_default e.perm e.id p i)
      | group t ↦
          subst (Reads is_default) (entry_same e 8 e.id t refl)
            (group-Reads is_default e.perm e.id p i)
    ]
