-- ===== src/Prelude/Text.antt =====
-- Go strings and byte slices as lists of byte values.
use Prim.Native.Nat.{ℕ}
use randfiletree.Prelude.Tests.{◌==◌}
use Prim.Native.Char.{code}
use Prim.Native.String.{String}
use mathlib.Core.Path.{◌≡◌, refl, ap₂}
use mathlib.Core.Logic.{◌≢◌}
use mathlib.Core.Bool.{Bool, true, false, ◌&&◌}
use mathlib.Core.List.{List, [], ◌∷◌}
use native.Mathlib.Decide.{ℕ_discrete}

abbrev pub Bytes : Type 0
Bytes = List ℕ

-- The bytes of an ASCII literal.
abbrev pub codes : String → Bytes
codes String.[] = []
codes (String.◌∷◌ c s) = code c ∷ codes s

unfoldable pub dec_bytes : Discrete Bytes
unfolding ℕ_discrete
dec_bytes [] [] = yes refl
dec_bytes [] (y ∷ ys) = no (cc)
dec_bytes (x ∷ xs) [] = no (cc)
dec_bytes (x ∷ xs) (y ∷ ys) = elim (ℕ_discrete x y) [
  | yes p ↦ elim (dec_bytes xs ys) [ yes q ↦ yes (ap₂ ◌∷◌ p q) | no n ↦ no λ e. n (cc) ]
  | no n ↦ no λ e. n (cc)
]

-- `a == b` on strings.
abbrev pub eqb : Bytes → Bytes → Bool
eqb a b = elim (dec_bytes a b) [ yes _ ↦ true | no _ ↦ false ]

pub eqb-same : (a b : Bytes) → eqb a b ≡ true → a ≡ b
eqb-same a b h = go (dec_bytes a b) h
  where
    go : (d : Dec (a ≡ b)) → elim d [ yes _ ↦ true | no _ ↦ false ] ≡ true → a ≡ b
    go (yes e) h = e
    go (no n) h = cc

pub eqb-differ : (a b : Bytes) → eqb a b ≡ false → a ≢ b
eqb-differ a b h = go (dec_bytes a b) h
  where
    go : (d : Dec (a ≡ b)) → elim d [ yes _ ↦ true | no _ ↦ false ] ≡ false → a ≢ b
    go (yes e) h = cc
    go (no n) h = n

pub eqb_refl : (a : Bytes) → eqb a a ≡ true
eqb_refl a = go (dec_bytes a a)
  where
    go : (d : Dec (a ≡ a)) → elim d [ yes _ ↦ true | no _ ↦ false ] ≡ true
    go (yes e) = refl
    go (no n) = absurd (n refl)

pub eqb_differ : (a b : Bytes) → a ≢ b → eqb a b ≡ false
eqb_differ a b n = go (dec_bytes a b)
  where
    go : (d : Dec (a ≡ b)) → elim d [ yes _ ↦ true | no _ ↦ false ] ≡ false
    go (yes e) = absurd (n e)
    go (no n) = refl

-- `strings.HasPrefix(s, prefix)`.
unfoldable pub has_prefix : Bytes → Bytes → Bool
has_prefix s [] = true
has_prefix [] (d ∷ prefix) = false
has_prefix (c ∷ s) (d ∷ prefix) = c == d && has_prefix s prefix

-- The text behind a prefix of it, by the prefix.
unfoldable pub drop_prefix : Bytes → Bytes → Bytes
drop_prefix s [] = s
drop_prefix [] (d ∷ prefix) = []
drop_prefix (c ∷ s) (d ∷ prefix) = drop_prefix s prefix

-- `strings.TrimPrefix(s, prefix)`.
unfoldable pub trim_prefix : Bytes → Bytes → Bytes
unfolding has_prefix drop_prefix
trim_prefix s prefix = elim (has_prefix s prefix) [ true ↦ drop_prefix s prefix | false ↦ s ]
