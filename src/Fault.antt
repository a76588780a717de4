-- ===== src/Fault.antt =====
-- faults.go and executor.go: fault rules, the injector that counts their matches, and the
-- execution context through which the apply loops ask before each step.
-- `path_match` stands for Go's `path.Match`; `none` is its ErrBadPattern.
use randfiletree.Prelude.{
  ℕ, suc, ◌+◌, Bool, true, false, not, ◌&&◌, ◌||◌, Option, none, some, List, [], ◌∷◌, Bytes, codes,
  eqb, ◌==◌, if◌then◌else◌, is_empty, Result, ok, err, Check, ◌>>◌, wrap, reject,
}
use randfiletree.Prelude.Int.{ℤ, pos, leb_ℤ, eqb_ℤ}
pub mod Spec
pub mod Trigger
pub mod Once

-- A uint8, so that values outside the three constants exist.
abbrev pub FaultScope : Type 0
FaultScope = ℕ

abbrev pub fault_scope_any : FaultScope
fault_scope_any = 0

abbrev pub fault_scope_run : FaultScope
fault_scope_run = 1

abbrev pub fault_scope_mutation : FaultScope
fault_scope_mutation = 2

-- `err = none` is a nil error.
pub record FaultRule : Type 0 where
  pub nth : ℤ
  pub scope : FaultScope
  pub kind : Bytes
  pub path_pattern : Bytes
  pub custom_err : Option Bytes

pub record FaultPoint : Type 0 where
  pub scope : FaultScope
  pub kind : Bytes
  pub path : Bytes
  pub index : ℕ

-- The error that a rule injects: ErrFaultInjected, or the rule's own.
pub data Cause : Type 0 where
  fault_injected : Cause
  custom : Bytes → Cause

pub record FaultInjectionError : Type 0 where
  pub rule_index : ℕ
  pub rule : FaultRule
  pub point : FaultPoint
  pub cause : Cause

pub data FaultError : Type 0 where
  nth_not_positive : ℕ → ℤ → FaultError
  invalid_scope : ℕ → FaultScope → FaultError
  invalid_pattern_at : ℕ → Bytes → FaultError
  bad_pattern : Bytes → FaultError
  injected : FaultInjectionError → FaultError

unfoldable pub fault_scope_name : FaultScope → Option Bytes
fault_scope_name s =
    if s == fault_scope_any
    then some (codes "any")
    else if s == fault_scope_run
    then some (codes "run")
    else if s == fault_scope_mutation
    then some (codes "mutation")
    else none

unfoldable pub is_fault_scope : FaultScope → Bool
is_fault_scope s = s == fault_scope_any || s == fault_scope_run || s == fault_scope_mutation

pub record FaultRuleState : Type 0 where
  pub rule : FaultRule
  pub match_count : ℕ
  pub triggered : Bool

abbrev pub FaultInjector : Type 0
FaultInjector = List FaultRuleState

-- What one round of the loop in `before` does: go on, or return an error.
pub data Visit : Type 0 where
  pass : FaultRuleState → Visit
  stop : FaultError → FaultRuleState → Visit

unfoldable pub cause_of : FaultRule → Cause
cause_of rule = elim rule.custom_err [ none ↦ fault_injected | some e ↦ custom e ]

unfoldable pub new_rules : List FaultRule → FaultInjector
new_rules [] = []
new_rules (rule ∷ rules) =
    record { rule = rule; match_count = 0; triggered = false } ∷ new_rules rules

module _ (path_match : Bytes → Bytes → Option Bool) where
  unfoldable pub validate_pattern : ℕ → Bytes → Check FaultError
  validate_pattern i pattern =
      if is_empty pattern then ok tt else elim (path_match pattern (codes "probe")) [
        | none ↦ err (invalid_pattern_at i pattern)
        | some _ ↦ ok tt
      ]

  unfoldable pub validate_rule : ℕ → FaultRule → Check FaultError
  unfolding is_fault_scope validate_pattern
  validate_rule i rule = do
    reject (leb_ℤ rule.nth (pos 0)) (nth_not_positive i rule.nth)
    reject (not (is_fault_scope rule.scope)) (invalid_scope i rule.scope)
    validate_pattern i rule.path_pattern

  -- The loop of `FaultProfile.validate`, from index `i` on.
  unfoldable pub validate_rules : ℕ → List FaultRule → Check FaultError
  validate_rules i [] = ok tt
  validate_rules i (rule ∷ rules) = validate_rule i rule >> validate_rules (suc i) rules

  -- `none` is the nil injector of an empty profile.
  unfoldable pub new_fault_injector : List FaultRule → Result FaultError (Option FaultInjector)
  new_fault_injector rules = do
    validate_rules 0 rules
    ok (if is_empty rules then none else some (new_rules rules))

  -- `filepath.ToSlash` is the identity where the separator is '/'.
  unfoldable pub fault_rule_matches_point : FaultRule → FaultPoint → Result FaultError Bool
  fault_rule_matches_point rule point =
      if not (rule.scope == fault_scope_any) && not (rule.scope == point.scope)
      then ok false
      else if not (is_empty rule.kind) && not (eqb rule.kind point.kind)
      then ok false
      else if is_empty rule.path_pattern
      then ok true
      else elim (path_match rule.path_pattern point.path) [
        | none ↦ err (bad_pattern rule.path_pattern)
        | some matched ↦ if not matched then ok false else ok true
      ]

  -- A rule that matches: count, compare with nth, and fire.
  unfoldable pub count_match : ℕ → FaultRuleState → FaultPoint → Visit
  unfolding cause_of
  count_match i s point =
      let counted = record s { match_count = s.match_count + 1 } in
      if not (eqb_ℤ (pos counted.match_count) s.rule.nth)
      then pass counted
      else stop
          (injected
            (record { rule_index = i; rule = s.rule; point = point; cause = cause_of s.rule }))
          (record counted { triggered = true })

  unfoldable pub visit : ℕ → FaultRuleState → FaultPoint → Visit
  visit i s point = if s.triggered then pass s else elim (fault_rule_matches_point s.rule point) [
    | err e ↦ stop e s
    | ok matches ↦ if not matches then pass s else count_match i s point
  ]

  unfoldable pub before_rules : ℕ → FaultInjector → FaultPoint → Check FaultError × FaultInjector
  before_rules i [] point = (ok tt, [])
  before_rules i (s ∷ rest) point =
      let (result, rest') = before_rules (suc i) rest point in
      elim (visit i s point) [ pass s' ↦ (result, s' ∷ rest') | stop e s' ↦ (err e, s' ∷ rest) ]

  -- `faultInjector.before`, on a nil injector too.
  unfoldable pub before :
      Option FaultInjector → FaultPoint → Check FaultError × Option FaultInjector
  before none point = (ok tt, none)
  before (some rules) point =
      let (result, rules') = before_rules 0 rules point in (result, some rules')

  -- `executionContext.before`.
  unfoldable pub exec_before :
      Option FaultInjector
      → FaultScope
      → ℕ
      → Bytes
      → Bytes
      → Check FaultError × Option FaultInjector
  exec_before injector scope i kind path =
      before injector (record { scope = scope; kind = kind; path = path; index = i })
