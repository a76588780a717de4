-- ===== src/Fault/Once.antt =====
-- faults.go: no rule injects twice, also when the steps go on after a fault.
use randfiletree.Prelude.{
  ℕ, zero, suc, ◌+◌, ◌≤◌, Bool, true, false, Option, none, some, List, [], ◌∷◌, Bytes, err, ◌≡◌,
  ◌≢◌, inl, inr, In, Distinct, arith, Check, Result-cases, Option-cases,
}
use randfiletree.Fault.{
  FaultPoint, FaultRuleState, FaultInjector, FaultError, injected, fault_rule_matches_point,
  count_match, visit, before_rules,
}

triggered_at : FaultInjector → ℕ → Bool
triggered_at [] j = false
triggered_at (s ∷ rest) zero = s.triggered
triggered_at (s ∷ rest) (suc j) = triggered_at rest j

fired_rule : Check FaultError → Option ℕ
fired_rule (err (injected e)) = some e.rule_index
fired_rule _ = none

module _ (path_match : Bytes → Bytes → Option Bool) where
  -- The indices of the rules that fire over the points, the loop going on after each fault.
  pub fired : FaultInjector → List FaultPoint → List ℕ
  fired injector [] = []
  fired injector (p ∷ points) =
      let (result, injector') = before_rules path_match 0 injector p in
      let rest = fired injector' points in
      elim (fired_rule result) [ none ↦ rest | some i ↦ i ∷ rest ]

  -- A malformed pattern is no injection.
  no_fault :
      (s : FaultRuleState) (p : FaultPoint) (e : FaultError)
      → fault_rule_matches_point path_match s.rule p ≡ err e
      → fired_rule (err e) ≡ none
  unfolding fault_rule_matches_point fired_rule
  no_fault s p e h = ground arith

  fired_from :
      (i k : ℕ) (rules : FaultInjector) (p : FaultPoint)
      → fired_rule (before_rules path_match i rules p).0 ≡ some k
      → i ≤ k
  unfolding before_rules visit count_match fired_rule
  fired_from i k [] p h = cc
  fired_from i k (s ∷ rest) p h =
      elim (Result-cases (fault_rule_matches_point path_match s.rule p)) [
        | inl (m, e) ↦ ground (arith, fired_from (suc i) k rest p)
        | inr (x, e) ↦ ground (arith, no_fault s p x e, fired_from (suc i) k rest p)
      ]

  -- A rule that fires is marked.
  fired-triggered :
      (i j : ℕ) (rules : FaultInjector) (p : FaultPoint)
      → fired_rule (before_rules path_match i rules p).0 ≡ some (i + j)
      → triggered_at (before_rules path_match i rules p).1 j ≡ true
  unfolding triggered_at before_rules visit count_match fired_rule
  fired-triggered i j [] p h = cc
  fired-triggered i zero (s ∷ rest) p h =
      elim (Result-cases (fault_rule_matches_point path_match s.rule p)) [
        | inl (m, e) ↦ ground (arith, fired_from (suc i) (i + 0) rest p)
        | inr (x, e) ↦ ground (arith, no_fault s p x e, fired_from (suc i) (i + 0) rest p)
      ]
  fired-triggered i (suc j) (s ∷ rest) p h =
      elim (Result-cases (fault_rule_matches_point path_match s.rule p)) [
        | inl (m, e) ↦ ground (arith, fired-triggered (suc i) j rest p)
        | inr (x, e) ↦ ground (arith, no_fault s p x e, fired-triggered (suc i) j rest p)
      ]

  -- A rule that has fired stays so, and does not fire again.
  triggered_stays :
      (i j : ℕ) (rules : FaultInjector) (p : FaultPoint)
      → triggered_at rules j ≡ true
      → (triggered_at (before_rules path_match i rules p).1 j ≡ true)
        × (fired_rule (before_rules path_match i rules p).0 ≢ some (i + j))
  unfolding triggered_at before_rules visit count_match fired_rule
  triggered_stays i j [] p h = cc
  triggered_stays i zero (s ∷ rest) p h = ground (arith, fired_from (suc i) (i + 0) rest p)
  triggered_stays i (suc j) (s ∷ rest) p h =
      elim (Result-cases (fault_rule_matches_point path_match s.rule p)) [
        | inl (m, e) ↦ ground (arith, triggered_stays (suc i) j rest p h)
        | inr (x, e) ↦ ground (arith, no_fault s p x e, triggered_stays (suc i) j rest p h)
      ]

  triggered-not_fired :
      (j : ℕ) (injector : FaultInjector) (points : List FaultPoint)
      → triggered_at injector j ≡ true
      → ¬ In j (fired injector points)
  unfolding fired
  triggered-not_fired j injector [] h = λ n. n
  triggered-not_fired j injector (p ∷ points) h =
      let (stays, other) = triggered_stays 0 j injector p h in
      ground (arith, triggered-not_fired j (before_rules path_match 0 injector p).1 points stays)

  -- Whatever the state of the injector and the points it is asked about, also when the steps are
  -- retried or go on after a fault, no rule injects more than once.
  pub fired-Distinct :
      (injector : FaultInjector) (points : List FaultPoint) → Distinct (fired injector points)
  unfolding fired
  fired-Distinct injector [] = tt
  fired-Distinct injector (p ∷ points) =
      let injector' = (before_rules path_match 0 injector p).1 in
      let rest = fired-Distinct injector' points in
      elim (Option-cases (fired_rule (before_rules path_match 0 injector p).0)) [
        | inl e ↦ ground (arith, e, rest)
        | inr (k, e) ↦
            ground (
              arith,
              e,
              rest,
              fired-triggered 0 k injector p,
              triggered-not_fired k injector' points,
            )
      ]
