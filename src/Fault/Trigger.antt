-- ===== src/Fault/Trigger.antt =====
-- faults.go injects exactly where `Fault.Spec` says.
use randfiletree.Prelude.{
  ℕ, suc, ◌+◌, Bool, true, false, Option, none, some, List, [], ◌∷◌, Bytes, if◌then◌else◌, codes,
  ok, Check-cases, ◌≡◌, refl, inl, inr, All, arith,
}
use randfiletree.Fault.{
  FaultRule, FaultPoint, FaultInjector, pass, stop, injected, cause_of, validate_rule,
  validate_rules, new_rules, new_fault_injector, fault_rule_matches_point, count_match, visit,
  before_rules, before,
}
use randfiletree.Fault.Spec.{selects, hits, due, first_due, expected, before_all, outcome}

module _ (path_match : Bytes → Bytes → Option Bool) where
  -- Whether a pattern is malformed does not depend on the name.
  abbrev pub PatternErrors : Type 0
  PatternErrors = (p a b : Bytes) → path_match p a ≡ none → path_match p b ≡ none

  Checked : FaultRule → Type 0
  Checked rule =
      (p : FaultPoint) → fault_rule_matches_point path_match rule p ≡ ok (selects path_match rule p)

  -- An injector whose rules have seen the points and not fired.
  unfoldable counted : List FaultRule → List FaultPoint → FaultInjector
  counted [] seen = []
  counted (rule ∷ rules) seen =
      record { rule = rule; match_count = hits path_match rule seen; triggered = false }
      ∷ counted rules seen

  validate_rule-Checked :
      (i : ℕ) (rule : FaultRule)
      → PatternErrors
      → validate_rule path_match i rule ≡ ok tt
      → Checked rule
  unfolding validate_rule fault_rule_matches_point selects Checked
  validate_rule-Checked i rule h v p = ground (arith, h rule.path_pattern p.path (codes "probe"))

  validate_rules-Checked :
      (i : ℕ) (rules : List FaultRule)
      → PatternErrors
      → validate_rules path_match i rules ≡ ok tt
      → All Checked rules
  unfolding validate_rules
  validate_rules-Checked i [] h v = tt
  validate_rules-Checked i (rule ∷ rules) h v =
      elim (Check-cases (validate_rule path_match i rule)) [
        | inl e ↦ (
          validate_rule-Checked i rule h e,
          validate_rules-Checked (suc i) rules h (rw (e, validate_rules) at v),
        )
        | inr (_, e) ↦ cc
      ]

  -- A rule that has seen the points fires at the next one when it is due, and counts it if not.
  visit_lem :
      (i : ℕ) (rule : FaultRule) (seen : List FaultPoint) (p : FaultPoint)
      → Checked rule
      → visit path_match i
          (record { rule = rule; match_count = hits path_match rule seen; triggered = false })
          p
        ≡ (if due path_match rule seen p
            then stop
                (injected
                  (record { rule_index = i; rule = rule; point = p; cause = cause_of rule }))
                (record {
                  rule = rule;
                  match_count = hits path_match rule seen + 1;
                  triggered = true;
                })
            else pass (record {
              rule = rule;
              match_count = hits path_match rule (p ∷ seen);
              triggered = false;
            }))
  unfolding visit count_match due hits Checked
  visit_lem i rule seen p h = ground (arith, h p)

  before_rules_lem :
      (i : ℕ) (rules : List FaultRule) (seen : List FaultPoint) (p : FaultPoint)
      → All Checked rules
      → ((before_rules path_match i (counted rules seen) p).0
          ≡ outcome (first_due path_match i rules seen p))
        × (first_due path_match i rules seen p ≡ none
            → (before_rules path_match i (counted rules seen) p).1 ≡ counted rules (p ∷ seen))
  unfolding before_rules counted first_due
  before_rules_lem i [] seen p h = (refl, λ _. refl)
  before_rules_lem i (rule ∷ rules) seen p h =
      let (same, next) = before_rules_lem (suc i) rules seen p h.1 in
      (
        ground (arith, visit_lem i rule seen p h.0, same),
        λ n. ground (arith, visit_lem i rule seen p h.0, next),
      )

  before_all_lem :
      (rules : List FaultRule) (seen points : List FaultPoint)
      → All Checked rules
      → before_all path_match (some (counted rules seen)) points
        ≡ outcome (expected path_match rules seen points)
  unfolding before_all before expected
  before_all_lem rules seen [] h = refl
  before_all_lem rules seen (p ∷ points) h =
      let (same, next) = before_rules_lem 0 rules seen p h in
      ground (arith, same, next, before_all_lem rules (p ∷ seen) points h)

  before_all-none : (points : List FaultPoint) → before_all path_match none points ≡ ok tt
  unfolding before_all before
  before_all-none [] = refl
  before_all-none (p ∷ points) = before_all-none points

  expected-nil : (seen points : List FaultPoint) → expected path_match [] seen points ≡ none
  unfolding expected first_due
  expected-nil seen [] = refl
  expected-nil seen (p ∷ points) = expected-nil (p ∷ seen) points

  counted_start : (rules : List FaultRule) → counted rules [] ≡ new_rules rules
  unfolding counted new_rules hits
  counted_start [] = refl
  counted_start (rule ∷ rules) = rw (counted_start rules)

  -- A profile that is accepted injects exactly as specified. Asked before each of the points in
  -- turn, its injector returns an error first at the first point that is, for some rule, the nth
  -- point which the rule is about; the error names the first such rule, and it is never the error
  -- of a malformed pattern. Asked about other points only, it returns no error.
  pub before_all-expected :
      (rules : List FaultRule) (injector : Option FaultInjector) (points : List FaultPoint)
      → PatternErrors
      → new_fault_injector path_match rules ≡ ok injector
      → before_all path_match injector points ≡ outcome (expected path_match rules [] points)
  unfolding new_fault_injector
  before_all-expected [] injector points h e =
      ground (arith, before_all-none points, expected-nil [] points)
  before_all-expected (rule ∷ rules) injector points h e =
      let v = validate_rules-Checked 0 (rule ∷ rules) h in
      elim (Check-cases (validate_rules path_match 0 (rule ∷ rules))) [
        | inl e' ↦ ground (
          arith,
          e',
          counted_start (rule ∷ rules),
          before_all_lem (rule ∷ rules) [] points (v e'),
        )
        | inr (_, e') ↦ ground (arith, e')
      ]
