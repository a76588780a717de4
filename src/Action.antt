-- ===== src/Action.antt =====
-- Code that changes a state and may return an error. The state is kept on the error path too,
-- as it is behind the pointers of the source.
use randfiletree.Prelude.{
  Result, ok, err, Bool, true, false, ℕ, zero, suc, ◌≡◌, refl, if◌then◌else◌,
}

abbrev pub Action : Type 0 → Type 0 → Type 0 → Type 0
Action S E A = S → Result E A × S

module _ {S E A B : Type 0} where
  -- The rest of the code, unless an error came before.
  unfoldable pub and_then : Result E A × S → (A → Action S E B) → Result E B × S
  and_then (ok a, s) f = f a s
  and_then (err e, s) f = (err e, s)

infixl 5 ◌>>=◌ ◌>>◌
unfoldable pub ◌>>=◌ : {S E A B : Type 0} → Action S E A → (A → Action S E B) → Action S E B
unfolding and_then
◌>>=◌ m f s = and_then (m s) f

unfoldable pub ◌>>◌ : {S E B : Type 0} → Action S E (Unit {0}) → Action S E B → Action S E B
unfolding ◌>>=◌
m >> k = m >>= λ _. k

unfoldable pub pure : {S E A : Type 0} → A → Action S E A
pure a s = (ok a, s)

unfoldable pub fail : {S E A : Type 0} → E → Action S E A
fail e s = (err e, s)

unfoldable pub lift : {S E A : Type 0} → Result E A → Action S E A
lift r s = (r, s)

-- `if test { return err }`.
unfoldable pub fail_if : {S E : Type 0} → Bool → E → Action S E (Unit {0})
fail_if true e s = (err e, s)
fail_if false e s = (ok tt, s)

-- `for i := 0; i < n; i++ { body }`.
unfoldable pub repeat : {S E : Type 0} → ℕ → Action S E (Unit {0}) → Action S E (Unit {0})
repeat zero body = pure tt
repeat (suc n) body = body >> repeat n body

-- What a run guarantees: `Q` of the value and the state, or `X` of the error and the state.
pub data Ensures {S E A : Type 0} (Q : A → S → Type 0) (X : E → S → Type 0)
    : Result E A × S → Type 0 where
  returns : {a : A} {s : S} → Q a s → Ensures Q X (ok a, s)
  raises : {e : E} {s : S} → X e s → Ensures Q X (err e, s)

module _ {S E : Type 0} {X : E → S → Type 0} where
  and_then-Ensures :
      {A B : Type 0} {Q : A → S → Type 0} {Q' : B → S → Type 0} (r : Result E A × S)
      (f : A → Action S E B)
      → Ensures Q X r
      → ((a : A) (s : S) → Q a s → Ensures Q' X (f a s))
      → Ensures Q' X (and_then r f)
  unfolding and_then
  and_then-Ensures r f (returns q) k = k _ _ q
  and_then-Ensures r f (raises x) k = raises x

  pub bind_rule :
      {A B : Type 0} {Q : A → S → Type 0} {Q' : B → S → Type 0} (m : Action S E A)
      (f : A → Action S E B) (s : S)
      → Ensures Q X (m s)
      → ((a : A) (s : S) → Q a s → Ensures Q' X (f a s))
      → Ensures Q' X ((m >>= f) s)
  unfolding ◌>>=◌
  bind_rule m f s h k = and_then-Ensures (m s) f h k

  pub seq_rule :
      {B : Type 0} {Q : S → Type 0} {Q' : B → S → Type 0} (m : Action S E (Unit {0}))
      (k : Action S E B) (s : S)
      → Ensures (λ _. Q) X (m s)
      → ((s : S) → Q s → Ensures Q' X (k s))
      → Ensures Q' X ((m >> k) s)
  unfolding ◌>>◌
  seq_rule m k s h g = bind_rule m (λ _. k) s h λ _. g

  pub weaken :
      {A : Type 0} {Q Q' : A → S → Type 0} {r : Result E A × S}
      → Ensures Q X r
      → ((a : A) (s : S) → Q a s → Q' a s)
      → Ensures Q' X r
  weaken (returns q) k = returns (k _ _ q)
  weaken (raises x) k = raises x

  pub pure_rule : {A : Type 0} {Q : A → S → Type 0} (a : A) (s : S) → Q a s → Ensures Q X (pure a s)
  unfolding pure
  pure_rule a s q = returns q

  pub fail_rule : {A : Type 0} {Q : A → S → Type 0} (e : E) (s : S) → X e s → Ensures Q X (fail e s)
  unfolding fail
  fail_rule e s x = raises x

  pub fail_if_rule :
      {Q : S → Type 0} (b : Bool) (e : E) (s : S) → Q s → X e s → Ensures (λ _. Q) X (fail_if b e s)
  unfolding fail_if
  fail_if_rule true e s q x = raises x
  fail_if_rule false e s q x = returns q

  pub if_rule :
      {A : Type 0} {Q : A → S → Type 0} (b : Bool) (m k : Action S E A) (s : S)
      → (b ≡ true → Ensures Q X (m s))
      → (b ≡ false → Ensures Q X (k s))
      → Ensures Q X ((if b then m else k) s)
  if_rule true m k s h g = h refl
  if_rule false m k s h g = g refl

  -- What follows a test runs where the test fails.
  pub guard_rule :
      {B : Type 0} {Q : B → S → Type 0} (b : Bool) (e : E) (k : Action S E B) (s : S)
      → X e s
      → (b ≡ false → Ensures Q X (k s))
      → Ensures Q X ((fail_if b e >> k) s)
  unfolding fail_if ◌>>◌
  guard_rule true e k s x h = raises x
  guard_rule false e k s x h = h refl

  -- The invariant rule of a counted loop.
  pub repeat_rule :
      (I : S → Type 0) (n : ℕ) (body : Action S E (Unit {0})) (s : S)
      → ((s : S) → I s → Ensures (λ _. I) X (body s))
      → I s
      → Ensures (λ _. I) X (repeat n body s)
  unfolding repeat
  repeat_rule I zero body s keep i = pure_rule _ _ i
  repeat_rule I (suc n) body s keep i =
      seq_rule _ _ _ (keep s i) λ s' i'. repeat_rule I n body s' keep i'
