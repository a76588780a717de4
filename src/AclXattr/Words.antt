-- ===== src/AclXattr/Words.antt =====
-- internal/aclxattr/aclxattr.go: words of a text entry, which have no white space and no colon.
use randfiletree.Prelude.{
  ℕ, zero, suc, ◌+◌, ◌-◌, ◌*◌, ◌/◌, ◌%◌, ◌<◌, ◌≤◌, ◌^◌, true, false, Option, some, [], ◌∷◌, ◌++◌,
  Bytes, ok, leb, ltb, ◌==◌, is_empty, All, ◌≡◌, refl, sym, ap, ◌∙◌, arith, inl, inr, Bool-cases,
}
use mathlib.Core.List.{reverse, reverse-cons, reverse-reverse}
use mathlib.Core.Path.{subst}
use randfiletree.Prelude.Digits.{decimal, digits, digit}
use randfiletree.GoPath.Below.{All-append}
use randfiletree.Plan.Metadata.{trim_space, trim_left, is_space}
use randfiletree.AclXattr.Text.{
  split_colon, parse_digits, is_digit, parse_id, parse_perm, perm_bit, format_perm, perm_letter,
}

abbrev pub Solid : ℕ → Type 0
Solid c = is_space c ≡ false

abbrev pub IsWordByte : ℕ → Type 0
IsWordByte c = Solid c × ((c == b':') ≡ false)

trim_left-Solid : (s : Bytes) → All Solid s → trim_left s ≡ s
unfolding trim_left
trim_left-Solid [] h = refl
trim_left-Solid (c ∷ s) (p, h) = rw (p) refl

reverse-Solid : (s : Bytes) → All Solid s → All Solid (reverse s)
reverse-Solid [] h = tt
reverse-Solid (c ∷ s) (p, h) =
    subst (All Solid) (sym (reverse-cons c s))
      (All-append Solid (reverse s) (c ∷ []) (reverse-Solid s h) (p, tt))

pub trim_space-Solid : (s : Bytes) → All Solid s → trim_space s ≡ s
unfolding trim_space
trim_space-Solid s h =
    ap (λ t. reverse (trim_left (reverse t))) (trim_left-Solid s h)
    ∙ ap reverse (trim_left-Solid (reverse s) (reverse-Solid s h))
    ∙ reverse-reverse s

pub word-Solid : (s : Bytes) → All IsWordByte s → All Solid s
word-Solid [] h = tt
word-Solid (c ∷ s) ((p, q), h) = (p, word-Solid s h)

pub split_colon-word : (w : Bytes) → All IsWordByte w → split_colon w ≡ w ∷ []
unfolding split_colon
split_colon-word [] h = refl
split_colon-word (c ∷ w) ((p, q), h) = rw (q, split_colon-word w h) refl

pub split_colon-append :
    (w s : Bytes) → All IsWordByte w → split_colon (w ++ (b':' ∷ s)) ≡ w ∷ split_colon s
unfolding split_colon
split_colon-append [] s h = refl
split_colon-append (c ∷ w) s ((p, q), h) = rw (q, split_colon-append w s h) refl

digit-IsWordByte : (d : ℕ) → d < 10 → IsWordByte (digit d)
unfolding digit is_space
digit-IsWordByte d h = (ground arith, ground arith)

digits-small : (fuel n : ℕ) → ltb n 10 ≡ true → digits (suc fuel) 10 n ≡ digit n ∷ []
unfolding digits
digits-small fuel n e = rw (e) refl

digits-more :
    (fuel n : ℕ)
    → ltb n 10 ≡ false
    → digits (suc fuel) 10 n ≡ digits fuel 10 (n / 10) ++ (digit (n % 10) ∷ [])
unfolding digits
digits-more fuel n e = rw (e) refl

digits-IsWord : (fuel n : ℕ) → All IsWordByte (digits fuel 10 n)
unfolding digits
digits-IsWord zero n = (digit-IsWordByte (n % 10) (omega arith), tt)
digits-IsWord (suc fuel) n = elim (Bool-cases (ltb n 10)) [
  | inl e ↦
      subst (All IsWordByte) (sym (digits-small fuel n e)) (digit-IsWordByte n (ground arith), tt)
  | inr e ↦ subst (All IsWordByte) (sym (digits-more fuel n e)) (
      All-append IsWordByte (digits fuel 10 (n / 10)) (digit (n % 10) ∷ [])
        (digits-IsWord fuel (n / 10)) (digit-IsWordByte (n % 10) (omega arith), tt))
]

pub decimal-IsWord : (n : ℕ) → All IsWordByte (decimal n)
unfolding decimal
decimal-IsWord n = digits-IsWord n n

digits-not_empty : (fuel n : ℕ) → is_empty (digits fuel 10 n) ≡ false
unfolding digits
digits-not_empty zero n = refl
digits-not_empty (suc fuel) n = elim (Bool-cases (ltb n 10)) [
  | inl e ↦ rw (e) refl
  | inr e ↦ rw (e) (snoc (digits fuel 10 (n / 10)) (digit (n % 10)))
]
  where
    snoc : (s : Bytes) (c : ℕ) → is_empty (s ++ (c ∷ [])) ≡ false
    snoc [] c = refl
    snoc (d ∷ s) c = refl

pub decimal-not_empty : (n : ℕ) → is_empty (decimal n) ≡ false
unfolding decimal
decimal-not_empty n = digits-not_empty n n

parse_digits-append :
    (acc v : ℕ) (a b : Bytes)
    → parse_digits acc a ≡ some v
    → parse_digits acc (a ++ b) ≡ parse_digits v b
unfolding parse_digits
parse_digits-append acc v [] b e = ap (λ n. parse_digits n b) (values_same e)
  where
    values_same : {m n : ℕ} → ◌≡◌ {A = Option ℕ} (some m) (some n) → m ≡ n
    values_same k = cc
parse_digits-append acc v (c ∷ a) b e = elim (Bool-cases (is_digit c)) [
  | inr d ↦ absurd (ground (arith, d, e))
  | inl d ↦ elim (Bool-cases (leb 4294967296 (acc * 10 + (c - 48)))) [
    | inl l ↦ absurd (ground (arith, d, l, e))
    | inr l ↦ rw (d, l) (parse_digits-append (acc * 10 + (c - 48)) v a b (rw (d, l) at e))
  ]
]

parse_digits-digit :
    (acc d : ℕ)
    → d < 10
    → acc * 10 + d < 2 ^ 32
    → parse_digits acc (digit d ∷ []) ≡ some (acc * 10 + d)
unfolding parse_digits digit is_digit
parse_digits-digit acc d h k = ground arith

parse_digits-digits :
    (fuel n : ℕ) → n ≤ fuel → n < 2 ^ 32 → parse_digits 0 (digits fuel 10 n) ≡ some n
unfolding digits
parse_digits-digits zero n h k =
    parse_digits-digit 0 (n % 10) (omega arith) (omega arith) ∙ ap some (omega arith)
parse_digits-digits (suc fuel) n h k = elim (Bool-cases (ltb n 10)) [
  | inl e ↦
      ap (parse_digits 0) (digits-small fuel n e)
      ∙ parse_digits-digit 0 n (ground arith) (omega arith)
      ∙ ap some (omega arith)
  | inr e ↦
      ap (parse_digits 0) (digits-more fuel n e)
      ∙ parse_digits-append 0 (n / 10) (digits fuel 10 (n / 10)) (digit (n % 10) ∷ [])
          (parse_digits-digits fuel (n / 10) (ground arith) (omega arith))
      ∙ parse_digits-digit (n / 10) (n % 10) (omega arith) (omega arith)
      ∙ ap some (omega arith)
]

pub parse_id-decimal : (n : ℕ) → n < 2 ^ 32 → parse_id (decimal n) ≡ ok n
unfolding parse_id decimal
parse_id-decimal n h =
    rw (parse_id, digits-not_empty n n, parse_digits-digits n n (omega arith) h) refl

pub parse_perm-format_perm : (perm : ℕ) → perm < 8 → parse_perm (format_perm perm) ≡ ok perm
unfolding parse_perm perm_bit format_perm perm_letter
parse_perm-format_perm perm h = ground arith

pub format_perm-IsWord : (perm : ℕ) → All IsWordByte (format_perm perm)
unfolding format_perm perm_letter is_space
format_perm-IsWord perm = (
  (ground arith, ground arith),
  ((ground arith, ground arith), ((ground arith, ground arith), tt)),
)
