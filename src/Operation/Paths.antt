-- ===== src/Operation/Paths.antt =====
-- operations.go: the path that normalization returns is in its normal form.
use randfiletree.Prelude.{
  Bool, true, false, [], ◌∷◌, ◌++◌, Bytes, ok, eqb, ◌&&◌, not, is_empty, ◌≡◌, refl, All, arith,
}
use mathlib.Core.List.{reverse, reverse-cons}
use mathlib.Core.Path.{subst}
use randfiletree.GoPath.{clean, is_rooted, root, slash}
use randfiletree.GoPath.Rooted.{NotNul, clean-clean, clean-NotNul, clean-is_rooted}
use randfiletree.Plan.Metadata.{trim_space, trim_left, is_space, contains_byte}
use randfiletree.Operation.{normalize_operation_path}

pub contains_byte-NotNul : (s : Bytes) → contains_byte 0 s ≡ false → All NotNul s
unfolding contains_byte
contains_byte-NotNul [] h = tt
contains_byte-NotNul (c ∷ s) h = (ground arith, contains_byte-NotNul s (ground arith))

NotNul-contains_byte : (s : Bytes) → All NotNul s → contains_byte 0 s ≡ false
unfolding contains_byte
NotNul-contains_byte [] h = refl
NotNul-contains_byte (c ∷ s) (n, h) = rw (n, NotNul-contains_byte s h) refl

-- Trimming on the left keeps a text that ends in a slash non-empty.
trim_left-snoc : (s : Bytes) → is_empty (trim_left (s ++ (slash ∷ []))) ≡ false
unfolding trim_left is_space
trim_left-snoc [] = refl
trim_left-snoc (c ∷ s) = ground (arith, trim_left-snoc s)

reverse-is_empty : (s : Bytes) → is_empty s ≡ false → is_empty (reverse s) ≡ false
reverse-is_empty [] h = cc
reverse-is_empty (c ∷ s) h = rw (reverse-cons c s) (snoc (reverse s))
  where
    snoc : (t : Bytes) → is_empty (t ++ (c ∷ [])) ≡ false
    snoc [] = refl
    snoc (d ∷ t) = refl

pub rooted-trim_space : (s : Bytes) → is_empty (trim_space (slash ∷ s)) ≡ false
unfolding trim_space trim_left is_space
rooted-trim_space s =
    reverse-is_empty (trim_left (reverse (slash ∷ s)))
      (rw (reverse-cons slash s) (trim_left-snoc (reverse s)))

is_rooted-trim_space : (s : Bytes) → is_rooted s ≡ true → is_empty (trim_space s) ≡ false
unfolding is_rooted
is_rooted-trim_space [] h = cc
is_rooted-trim_space (c ∷ s) h =
    subst (λ d. is_empty (trim_space (d ∷ s)) ≡ false) (ground arith) (rooted-trim_space s)

-- A path that normalization returns is its own normal form.
pub normalize_operation_path-fixed :
    (raw : Bytes) (allow_root : Bool) (path : Bytes)
    → normalize_operation_path raw allow_root ≡ ok path
    → normalize_operation_path path allow_root ≡ ok path
unfolding normalize_operation_path
normalize_operation_path-fixed raw allow_root path h =
    let is_path : path ≡ clean raw = ground arith in
    let not_nul = contains_byte-NotNul raw (ground arith) in
    let rooted : is_rooted (clean raw) ≡ true = ground arith in
    let from_root = clean-is_rooted raw not_nul rooted in
    let allowed : (not allow_root && eqb (clean raw) root) ≡ false = ground arith in
    rw
      (
        is_path,
        is_rooted-trim_space (clean raw) rooted,
        NotNul-contains_byte (clean raw) (clean-NotNul raw from_root not_nul),
        clean-clean raw from_root not_nul,
        rooted,
        allowed,
      )
      refl
