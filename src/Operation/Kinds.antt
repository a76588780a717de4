-- ===== src/Operation/Kinds.antt =====
-- operations.go: which options for generating operations are accepted.
use randfiletree.Prelude.{
  ℕ, suc, true, false, List, [], ◌∷◌, ok, is_empty, ◌≡◌, refl, ◌<◌, ◌≢◌, In, All, Distinct, inl,
  inr, arith,
}
use randfiletree.Prelude.Int.{pos_part}
use randfiletree.Operation.{
  OperationGenerationOptions, is_operation_kind, is_seen, validate_kinds,
  validate_generation_options,
}

is_seen-false : (kind : ℕ) (ks : List ℕ) → is_seen kind ks ≡ false → ¬ In kind ks
unfolding is_seen
is_seen-false kind [] h = λ n. n
is_seen-false kind (k ∷ ks) h =
    λ i. elim i [ inl e ↦ absurd (ground arith) | inr j ↦ is_seen-false kind ks (ground arith) j ]

kinds-fresh :
    (i : ℕ) (seen kinds : List ℕ) (kind : ℕ)
    → validate_kinds i seen kinds ≡ ok tt
    → In kind kinds
    → ¬ In kind seen
unfolding validate_kinds
kinds-fresh i seen [] kind h m = elim m [ ]
kinds-fresh i seen (k ∷ kinds) kind h (inl e) = is_seen-false kind seen (ground arith)
kinds-fresh i seen (k ∷ kinds) kind h (inr m) =
    λ s. kinds-fresh (suc i) (k ∷ seen) kinds kind (ground arith) m (inr s)

kinds_sound :
    (i : ℕ) (seen kinds : List ℕ)
    → validate_kinds i seen kinds ≡ ok tt
    → Distinct kinds × All (λ k. is_operation_kind k ≡ true) kinds
unfolding validate_kinds
kinds_sound i seen [] h = (tt, tt)
kinds_sound i seen (k ∷ kinds) h =
    let rest : validate_kinds (suc i) (k ∷ seen) kinds ≡ ok tt = ground arith in
    let (d, a) = kinds_sound (suc i) (k ∷ seen) kinds rest in
    ((λ m. kinds-fresh (suc i) (k ∷ seen) kinds k rest m (inl refl), d), (ground arith, a))

-- Accepted options ask for at least one operation and one byte, and the kinds that they allow are
-- valid, different from one another, and not none.
pub validate_generation_options_sound :
    (o : OperationGenerationOptions)
    → validate_generation_options o ≡ ok tt
    → (0 < pos_part o.count)
      × (0 < pos_part o.max_data_size)
      × (o.allowed_kinds ≢ [])
      × Distinct o.allowed_kinds
      × All (λ k. is_operation_kind k ≡ true) o.allowed_kinds
unfolding validate_generation_options
validate_generation_options_sound o h =
    let kinds : validate_kinds 0 [] o.allowed_kinds ≡ ok tt = ground arith in
    let (d, a) = kinds_sound 0 [] o.allowed_kinds kinds in
    (ground arith, ground arith, nonempty o.allowed_kinds (ground arith), d, a)
  where
    nonempty : (ks : List ℕ) → is_empty ks ≡ false → ks ≢ []
    nonempty [] h = cc
    nonempty (k ∷ ks) h = cc
