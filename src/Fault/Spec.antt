-- ===== src/Fault/Spec.antt =====
-- When faults.go should inject: stated over the points seen so far, with no injector state.
use randfiletree.Prelude.{
  ℕ, suc, ◌+◌, Bool, false, ◌&&◌, ◌||◌, Option, none, some, List, [], ◌∷◌, Bytes, eqb, ◌==◌,
  if◌then◌else◌, is_empty, ok, err, Check,
}
use randfiletree.Prelude.Int.{pos, eqb_ℤ}
use randfiletree.Fault.{
  FaultRule, FaultPoint, FaultInjectionError, FaultError, injected, FaultInjector, fault_scope_any,
  cause_of, before,
}

module _ (path_match : Bytes → Bytes → Option Bool) where
  -- The rule is about this point: its scope, its kind and its path fit.
  unfoldable pub selects : FaultRule → FaultPoint → Bool
  selects rule p =
      (rule.scope == fault_scope_any || rule.scope == p.scope)
      && (is_empty rule.kind || eqb rule.kind p.kind)
      && (is_empty rule.path_pattern
          || elim (path_match rule.path_pattern p.path) [ none ↦ false | some m ↦ m ])

  -- How many of the points the rule is about.
  unfoldable pub hits : FaultRule → List FaultPoint → ℕ
  hits rule [] = 0
  hits rule (p ∷ seen) = if selects rule p then hits rule seen + 1 else hits rule seen

  -- `p` is the rule's nth point after those of `seen`.
  unfoldable pub due : FaultRule → List FaultPoint → FaultPoint → Bool
  due rule seen p = selects rule p && eqb_ℤ (pos (hits rule seen + 1)) rule.nth

  -- The first rule that is due, by its index from `i` on.
  unfoldable pub first_due :
      ℕ → List FaultRule → List FaultPoint → FaultPoint → Option FaultInjectionError
  first_due i [] seen p = none
  first_due i (rule ∷ rules) seen p =
      if due rule seen p
      then some (record { rule_index = i; rule = rule; point = p; cause = cause_of rule })
      else first_due (suc i) rules seen p

  -- The fault of the first point at which a rule is due.
  unfoldable pub expected :
      List FaultRule → List FaultPoint → List FaultPoint → Option FaultInjectionError
  expected rules seen [] = none
  expected rules seen (p ∷ points) =
      let later = expected rules (p ∷ seen) points in
      elim (first_due 0 rules seen p) [ some e ↦ some e | none ↦ later ]

  -- A loop that asks before each step and returns at the first error.
  unfoldable pub before_all : Option FaultInjector → List FaultPoint → Check FaultError
  before_all injector [] = ok tt
  before_all injector (p ∷ points) =
      let (result, injector') = before path_match injector p in
      elim result [ ok _ ↦ before_all injector' points | err e ↦ err e ]

abbrev pub outcome : Option FaultInjectionError → Check FaultError
outcome none = ok tt
outcome (some e) = err (injected e)
