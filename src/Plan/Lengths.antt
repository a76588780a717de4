-- ===== src/Plan/Lengths.antt =====
-- content_patterns.go: sorted ranges, cut blocks and shortened segments.
use randfiletree.Prelude.{
  ℕ, zero, suc, ◌-◌, ◌≤◌, ◌<◌, Bool, true, false, List, [], ◌∷◌, Bytes, length, take, ltb, leb,
  ◌&&◌, is_empty, if◌then◌else◌, ◌≡◌, All, arith, inl, inr, sort_by, insert_by, Bool-cases,
}
use randfiletree.Plan.Content.{default_content_write_chunk_size}

insert_by-All :
    {A : Type 0} (P : A → Type 0) (less : A → A → Bool) (a : A) (xs : List A)
    → P a
    → All P xs
    → All P (insert_by less a xs)
unfolding insert_by
insert_by-All P less a [] p h = (p, tt)
insert_by-All P less a (x ∷ xs) p (q, h) = elim (Bool-cases (less x a)) [
  | inl e ↦ rw e (q, insert_by-All P less a xs p h)
  | inr e ↦ rw e (p, (q, h))
]

pub sort_by-All :
    {A : Type 0} (P : A → Type 0) (less : A → A → Bool) (xs : List A)
    → All P xs
    → All P (sort_by less xs)
unfolding sort_by
sort_by-All P less [] h = tt
sort_by-All P less (x ∷ xs) (p, h) = insert_by-All P less x _ p (sort_by-All P less xs h)

length-take_le : (n : ℕ) (xs : Bytes) → length (take n xs) ≤ n
length-take_le zero xs = omega arith
length-take_le (suc n) [] = omega arith
length-take_le (suc n) (x ∷ xs) = omega (arith, length-take_le n xs)

length-take_pos : (n : ℕ) (xs : Bytes) → 0 < n → is_empty xs ≡ false → 0 < length (take n xs)
length-take_pos zero xs h k = absurd (omega arith)
length-take_pos (suc n) [] h k = cc
length-take_pos (suc n) (x ∷ xs) h k = omega arith

length-pos : (xs : Bytes) → is_empty xs ≡ false → 0 < length xs
length-pos [] h = cc
length-pos (x ∷ xs) h = omega arith

pub cut_block :
    (b : Bytes)
    → is_empty b ≡ false
    → (0
        < length (
            if ltb default_content_write_chunk_size (length b)
            then take default_content_write_chunk_size b
            else b))
      × (length (
            if ltb default_content_write_chunk_size (length b)
            then take default_content_write_chunk_size b
            else b)
          ≤ default_content_write_chunk_size)
cut_block b e = elim (Bool-cases (ltb default_content_write_chunk_size (length b))) [
  | inl l ↦ rw l (
    length-take_pos default_content_write_chunk_size b (omega arith) e,
    length-take_le default_content_write_chunk_size b,
  )
  | inr l ↦ rw l (length-pos b e, ground arith)
]

-- The length of a sparse segment, shortened so that a hole is left.
pub shortened :
    (n k : ℕ)
    → 0 < k
    → k ≤ n
    → (0 < (if ltb 1 n && leb n k then n - 1 else k))
      × ((if ltb 1 n && leb n k then n - 1 else k) ≤ n)
      × (1 < n → ltb (if ltb 1 n && leb n k then n - 1 else k) n ≡ true)
shortened n k h l = (ground arith, ground arith, λ m. ground arith)
