-- ===== src/Tests/Faults.antt =====
-- faults.go on two rules.
use randfiletree.Prelude.{
  ℕ, Bool, Option, some, none, List, [], ◌∷◌, Bytes, codes, ok, eqb, ◌≡◌, refl, Distinct,
}
use randfiletree.Prelude.Int.{pos}
use randfiletree.Fault.{
  FaultRule, FaultPoint, fault_scope_any, fault_scope_run, new_fault_injector, new_rules,
  validate_pattern, validate_rule, validate_rules, is_fault_scope,
}
use randfiletree.Fault.Spec.{before_all, expected, outcome}
use randfiletree.Fault.Trigger.{before_all-expected, PatternErrors}
use randfiletree.Fault.Once.{fired, fired-Distinct}

-- Patterns that match themselves only.
abbrev literal_match : Bytes → Bytes → Option Bool
literal_match pattern name = some (eqb pattern name)

literal_match-PatternErrors : PatternErrors literal_match
literal_match-PatternErrors p a b h = cc

abbrev second_write : FaultRule
second_write = record {
  nth = pos 2;
  scope = fault_scope_run;
  kind = codes "write";
  path_pattern = [];
  custom_err = none;
}

abbrev first_of_path : FaultRule
first_of_path = record {
  nth = pos 1;
  scope = fault_scope_any;
  kind = [];
  path_pattern = codes "/b";
  custom_err = some (codes "disk full");
}

abbrev rules : List FaultRule
rules = second_write ∷ first_of_path ∷ []

abbrev write_at : Bytes → ℕ → FaultPoint
write_at path index = record {
  scope = fault_scope_run;
  kind = codes "write";
  path = path;
  index = index;
}

abbrev points : List FaultPoint
points = write_at (codes "/a") 0 ∷ write_at (codes "/b") 1 ∷ write_at (codes "/b") 2 ∷ []

rules_accepted : new_fault_injector literal_match rules ≡ ok (some (new_rules rules))
unfolding new_fault_injector validate_rules validate_rule validate_pattern is_fault_scope
rules_accepted = refl

before_all_example :
    before_all literal_match (some (new_rules rules)) points
    ≡ outcome (expected literal_match rules [] points)
before_all_example =
    before_all-expected literal_match rules (some (new_rules rules)) points
      literal_match-PatternErrors rules_accepted

fired_example : Distinct (fired literal_match (new_rules rules) points)
fired_example = fired-Distinct literal_match (new_rules rules) points
