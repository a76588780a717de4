-- ===== src/Mutation/Resume.antt =====
-- mutate.go: what the loop of `ApplyOperationsWithOptions` did when it stopped, and how it resumes.
use randfiletree.Prelude.{
  ℕ, suc, ◌+◌, ◌≤◌, Bool, true, false, Option, none, List, [], ◌∷◌, ◌++◌, Bytes, ok, err, Check,
  ◌>>◌, Check-cases, Result-cases, Bool-cases, inl, inr, ◌≡◌, refl, ap, ◌∙◌, sym, length, is_empty,
  arith, reject, length-append,
}
use mathlib.Core.Path.{subst}
use randfiletree.Prelude.Int.{pos, pos_part, eqb_ℤ}
use randfiletree.Plan.Metadata.{trim_space}
use randfiletree.Operation.{Operation, normalize_operation}
use randfiletree.Fault.{FaultInjector, exec_before, before, new_fault_injector, validate_rules}
use randfiletree.Mutation.System.{FileSystem}
use randfiletree.Mutation.Execute.{apply_operation}
use randfiletree.Mutation.Loop.{
  RunError, base_path_empty, operation_failed, OperationApplyOptions, StepError, drop, check_base,
  apply_step, apply_from, apply_operations_with_options, apply_operations, validate_apply_options,
}

module _ {F : Type 0} (path_match : Bytes → Bytes → Option Bool) (fs : FileSystem F)
    (base : Bytes) where
  abbrev Outcome : Type 0
  Outcome = Check RunError × Option FaultInjector × F

  abbrev result_of : Outcome → Check RunError × F
  result_of o = (o.0, o.2)

  -- What is left to do, unless an error came before.
  abbrev continue_from : ℕ → List Operation → Outcome → Outcome
  continue_from i ops o = elim (o.0) [
    | err e ↦ (err e, o.1, o.2)
    | ok _ ↦ apply_from path_match fs base i ops o.1 o.2
  ]

  apply_from-cons :
      (i : ℕ) (op : Operation) (ops : List Operation) (injector : Option FaultInjector) (f : F)
      → apply_from path_match fs base i (op ∷ ops) injector f
        ≡ continue_from (suc i) ops (apply_step path_match fs base i op injector f)
  unfolding apply_from
  apply_from-cons i op ops injector f = refl

  apply_from-append :
      (i : ℕ) (front back : List Operation) (injector : Option FaultInjector) (f : F)
      → apply_from path_match fs base i (front ++ back) injector f
        ≡ continue_from (i + length front) back (apply_from path_match fs base i front injector f)
  apply_from-append i [] back injector f =
      unfold apply_from in ap (λ j. apply_from path_match fs base j back injector f) (omega arith)
  apply_from-append i (op ∷ front) back injector f =
      apply_from-cons i op (front ++ back) injector f
      ∙ go (apply_step path_match fs base i op injector f) (apply_from-append (suc i) front back)
      ∙ ap (continue_from (i + suc (length front)) back)
          (sym (apply_from-cons i op front injector f))
    where
      go :
          (o : Outcome)
          → ((injector : Option FaultInjector) (f : F)
              → apply_from path_match fs base (suc i) (front ++ back) injector f
                ≡ continue_from
                    (suc i + length front)
                    back
                    (apply_from path_match fs base (suc i) front injector f))
          → continue_from (suc i) (front ++ back) o
            ≡ continue_from (i + suc (length front)) back (continue_from (suc i) front o)
      go (err e, injector', f') rest = refl
      go (ok u, injector', f') rest =
          rest injector' f'
          ∙ ap
              (λ j. continue_from j back (apply_from path_match fs base (suc i) front injector' f'))
              (omega arith)

  -- The operation at index `i` stopped the loop that began at `start`: those before it ran.
  pub record StoppedAt (start : ℕ) (ops : List Operation) (injector : Option FaultInjector) (f : F)
      (i : ℕ) (op : Operation) (cause : StepError) (f' : F) : Type 0 where
    pub front : List Operation
    pub stopped : Operation
    pub back : List Operation
    pub injector_then : Option FaultInjector
    pub state_then : F
    pub split : ops ≡ front ++ (stopped ∷ back)
    pub at_index : i ≡ start + length front
    pub front_ran :
        apply_from path_match fs base start front injector f ≡ (ok tt, injector_then, state_then)
    pub step_failed :
        (apply_step path_match fs base i stopped injector_then state_then).0
        ≡ err (operation_failed i op cause)
    pub state_left : (apply_step path_match fs base i stopped injector_then state_then).2 ≡ f'

  StoppedAt-cons :
      {start i : ℕ} {ops : List Operation} {injector injector' : Option FaultInjector}
      {f f' end : F} {op : Operation} {cause : StepError} (first : Operation)
      → apply_step path_match fs base start first injector f ≡ (ok tt, injector', f')
      → StoppedAt (suc start) ops injector' f' i op cause end
      → StoppedAt start (first ∷ ops) injector f i op cause end
  StoppedAt-cons {start} {injector} {f} first h s = record {
    front = first ∷ s.front;
    stopped = s.stopped;
    back = s.back;
    injector_then = s.injector_then;
    state_then = s.state_then;
    split = ap (λ xs. first ∷ xs) s.split;
    at_index = omega (arith, s.at_index);
    front_ran =
        apply_from-cons start first s.front injector f
        ∙ ap (continue_from (suc start) s.front) h
        ∙ s.front_ran;
    step_failed = s.step_failed;
    state_left = s.state_left;
  }

  StoppedAt-here :
      (start i : ℕ) (ops : List Operation) (injector : Option FaultInjector) (f : F)
      (op first : Operation) (cause : StepError)
      → i ≡ start
      → (apply_step path_match fs base start first injector f).0 ≡ err (operation_failed i op cause)
      → StoppedAt start
          (first ∷ ops)
          injector
          f
          i
          op
          cause
          (apply_step path_match fs base start first injector f).2
  StoppedAt-here start i ops injector f op first cause e h = record {
    front = [];
    stopped = first;
    back = ops;
    injector_then = injector;
    state_then = f;
    split = refl;
    at_index = omega (arith, e);
    front_ran = unfold apply_from in refl;
    step_failed = ap (λ j. (apply_step path_match fs base j first injector f).0) e ∙ h;
    state_left = ap (λ j. (apply_step path_match fs base j first injector f).2) e;
  }

  apply_step_index :
      (i j : ℕ) (op next : Operation) (cause : StepError) (injector : Option FaultInjector) (f : F)
      → (apply_step path_match fs base i op injector f).0 ≡ err (operation_failed j next cause)
      → j ≡ i
  unfolding apply_step
  apply_step_index i j op next cause injector f h = ground arith

  apply_from-StoppedAt :
      (start : ℕ) (ops : List Operation) (injector : Option FaultInjector) (f : F) (i : ℕ)
      (op : Operation) (cause : StepError)
      → (apply_from path_match fs base start ops injector f).0 ≡ err (operation_failed i op cause)
      → StoppedAt start ops injector f i op cause
          (apply_from path_match fs base start ops injector f).2
  apply_from-StoppedAt start [] injector f i op cause h = unfold apply_from in cc
  apply_from-StoppedAt start (first ∷ ops) injector f i op cause h =
      subst (StoppedAt start (first ∷ ops) injector f i op cause)
        (ap (λ o. o.2) (sym (apply_from-cons start first ops injector f)))
        (go _ refl (apply_from-StoppedAt (suc start) ops)
          (ap (λ o. o.0) (sym (apply_from-cons start first ops injector f)) ∙ h))
    where
      go :
          (o : Outcome)
          → apply_step path_match fs base start first injector f ≡ o
          → ((injector : Option FaultInjector) (f : F) (i : ℕ) (op : Operation) (cause : StepError)
              → (apply_from path_match fs base (suc start) ops injector f).0
                ≡ err (operation_failed i op cause)
              → StoppedAt
                  (suc start)
                  ops
                  injector
                  f
                  i
                  op
                  cause
                  (apply_from path_match fs base (suc start) ops injector f).2)
          → (continue_from (suc start) ops o).0 ≡ err (operation_failed i op cause)
          → StoppedAt start (first ∷ ops) injector f i op cause (continue_from (suc start) ops o).2
      go (ok u, injector', f') e rest h = StoppedAt-cons first e (rest injector' f' i op cause h)
      go (err x, injector', f') e rest h =
          let failed = ap (λ o. o.0) e ∙ h in
          subst (StoppedAt start (first ∷ ops) injector f i op cause) (ap (λ o. o.2) e) (
            StoppedAt-here start i ops injector f op first cause
              (apply_step_index start i first op cause injector f failed) failed)

  abbrev checks : List Operation → OperationApplyOptions → Check RunError
  checks ops o =
      reject (is_empty (trim_space base)) base_path_empty
      >> validate_apply_options path_match fs base o (length ops)

  not_from_checks :
      (ops : List Operation) (o : OperationApplyOptions) (e : RunError) (i : ℕ) (op : Operation)
      (cause : StepError)
      → checks ops o ≡ err e
      → e ≡ operation_failed i op cause
      → ⊥
  unfolding validate_apply_options
  not_from_checks ops o e i op cause h k =
      elim (Check-cases (validate_rules path_match 0 o.fault_profile)) [
        | inl a ↦ ground (arith, a)
        | inr (x, a) ↦ ground (arith, a)
      ]

  not_from_base :
      (f : F) (e : RunError) (i : ℕ) (op : Operation) (cause : StepError)
      → check_base path_match fs base f ≡ err e
      → e ≡ operation_failed i op cause
      → ⊥
  unfolding check_base
  not_from_base f e i op cause h k = ground arith

  abbrev loop_from : List Operation → OperationApplyOptions → Option FaultInjector → F → Outcome
  loop_from ops o injector f =
      apply_from path_match fs base (pos_part o.start_index) (drop (pos_part o.start_index) ops)
        injector f

  run_loop :
      (ops : List Operation) (o : OperationApplyOptions) (f : F) (injector : Option FaultInjector)
      → checks ops o ≡ ok tt
      → eqb_ℤ o.start_index (pos (length ops)) ≡ false
      → check_base path_match fs base f ≡ ok tt
      → new_fault_injector path_match o.fault_profile ≡ ok injector
      → apply_operations_with_options path_match fs base ops o f
        ≡ ((loop_from ops o injector f).0, (loop_from ops o injector f).2)
  unfolding apply_operations_with_options
  run_loop ops o f injector a b c d = rw (apply_operations_with_options, a, b, c, d) refl

  -- Where an operation is reported to have failed, it is the first from the start index on that did:
  -- the operations before it were applied one after another with no error, its own step failed with
  -- the reported cause, and the file system is left as that step left it. The fault injector is that
  -- of the options' profile.
  pub apply_operations_with_options-StoppedAt :
      (ops : List Operation) (o : OperationApplyOptions) (f : F) (i : ℕ) (op : Operation)
      (cause : StepError)
      → (apply_operations_with_options path_match fs base ops o f).0
        ≡ err (operation_failed i op cause)
      → (injector : Option FaultInjector) × (new_fault_injector path_match o.fault_profile
          ≡ ok injector)
        × StoppedAt
            (pos_part o.start_index)
            (drop (pos_part o.start_index) ops)
            injector
            f
            i
            op
            cause
            (apply_operations_with_options path_match fs base ops o f).1
  unfolding apply_operations_with_options
  apply_operations_with_options-StoppedAt ops o f i op cause h = elim (Check-cases (checks ops o)) [
    | inr (e, a) ↦ absurd (not_from_checks ops o e i op cause a (ground (arith, a)))
    | inl a ↦ elim (Bool-cases (eqb_ℤ o.start_index (pos (length ops)))) [
      | inl b ↦ absurd (ground (arith, a, b))
      | inr b ↦ elim (Check-cases (check_base path_match fs base f)) [
        | inr (e, c) ↦ absurd (not_from_base f e i op cause c (ground (arith, a, b, c)))
        | inl c ↦ elim (Result-cases (new_fault_injector path_match o.fault_profile)) [
          | inr (e, d) ↦ absurd (ground (arith, a, b, c, d))
          | inl (injector, d) ↦ (injector, d, transport_run (run_loop ops o f injector a b c d) h)
        ]
      ]
    ]
  ]
    where
      transport_run :
          {injector : Option FaultInjector}
          → apply_operations_with_options path_match fs base ops o f
            ≡ ((loop_from ops o injector f).0, (loop_from ops o injector f).2)
          → (apply_operations_with_options path_match fs base ops o f).0
            ≡ err (operation_failed i op cause)
          → StoppedAt
              (pos_part o.start_index)
              (drop (pos_part o.start_index) ops)
              injector
              f
              i
              op
              cause
              (apply_operations_with_options path_match fs base ops o f).1
      transport_run {injector} e h =
          subst
            (StoppedAt (pos_part o.start_index) (drop (pos_part o.start_index) ops) injector f i op
              cause)
            (sym (ap (λ r. r.1) e))
            (apply_from-StoppedAt _ _ injector f i op cause (sym (ap (λ r. r.0) e) ∙ h))

  apply_step-none :
      (i : ℕ) (op : Operation) (f : F) → (apply_step path_match fs base i op none f).1 ≡ none
  unfolding apply_step exec_before before
  apply_step-none i op f = elim (Result-cases (normalize_operation op)) [
    | inr (e, h) ↦ rw (apply_step, h) refl
    | inl (next, h) ↦ elim (Check-cases (apply_operation fs base next f).0) [
      | inr (e, k) ↦ rw (apply_step, h, k) refl
      | inl k ↦ rw (apply_step, h, k) refl
    ]
  ]

  -- Without rules there is no injector.
  apply_from-none :
      (i : ℕ) (ops : List Operation) (f : F) → (apply_from path_match fs base i ops none f).1 ≡ none
  apply_from-none i [] f = unfold apply_from in refl
  apply_from-none i (op ∷ ops) f =
      ap (λ o. o.1) (apply_from-cons i op ops none f)
      ∙ go (apply_step path_match fs base i op none f) (apply_step-none i op f)
          (apply_from-none (suc i) ops)
    where
      go :
          (o : Outcome)
          → o.1 ≡ none
          → ((f : F) → (apply_from path_match fs base (suc i) ops none f).1 ≡ none)
          → (continue_from (suc i) ops o).1 ≡ none
      go (err e, injector', f') n rest = n
      go (ok u, injector', f') n rest = rw n (rest f')

  drop_all : (front back : List Operation) → drop (length front) (front ++ back) ≡ back
  unfolding drop
  drop_all [] back = refl
  drop_all (op ∷ front) back = drop_all front back

  abbrev from_index : ℕ → OperationApplyOptions
  from_index n = record { start_index = pos n; fault_profile = [] }

  checks_blank :
      (ops : List Operation) (n : ℕ)
      → is_empty (trim_space base) ≡ false
      → n ≤ length ops
      → checks ops (from_index n) ≡ ok tt
  unfolding validate_apply_options validate_rules
  checks_blank ops n e h = ground (arith, e)

  no_injector : new_fault_injector path_match [] ≡ ok none
  unfolding new_fault_injector validate_rules
  no_injector = refl

  no_base :
      (op : Operation) (ops : List Operation) (f f' : F) (e : RunError)
      → is_empty (trim_space base) ≡ false
      → check_base path_match fs base f ≡ err e
      → apply_operations_with_options path_match fs base (op ∷ ops) (from_index 0) f ≡ (ok tt, f')
      → ⊥
  unfolding apply_operations_with_options
  no_base op ops f f' e blank c h = ground (arith, checks_blank (op ∷ ops) 0 blank (omega arith), c)

  outcome_parts :
      (o : Outcome) (f : F)
      → ◌≡◌ {A = Check RunError × F} (o.0, o.2) (ok tt, f)
      → o.1 ≡ none
      → o ≡ (ok tt, none, f)
  outcome_parts (r, n, g) f h k = cc

  -- The rest of a run whose first part succeeds.
  resume_loop :
      (op : Operation) (front back : List Operation) (f f' : F)
      → is_empty (trim_space base) ≡ false
      → check_base path_match fs base f ≡ ok tt
      → apply_operations_with_options path_match fs base (op ∷ front) (from_index 0) f ≡ (ok tt, f')
      → apply_operations_with_options path_match fs base (op ∷ front ++ back) (from_index 0) f ≡ (
        (apply_from path_match fs base (suc (length front)) back none f').0,
        (apply_from path_match fs base (suc (length front)) back none f').2,
      )
  unfolding drop
  resume_loop op front back f f' blank c h =
      run_loop (op ∷ front ++ back) (from_index 0) f none
        (checks_blank (op ∷ front ++ back) 0 blank (omega arith)) (ground arith) c no_injector
      ∙ ap result_of (apply_from-append 0 (op ∷ front) back none f)
      ∙ ap
          (λ n.
            result_of (continue_from n back (apply_from path_match fs base 0 (op ∷ front) none f)))
          (omega arith)
      ∙ ap (λ o. result_of (continue_from (suc (length front)) back o)) ran
    where
      ran : apply_from path_match fs base 0 (op ∷ front) none f ≡ (ok tt, none, f')
      ran =
          outcome_parts _ f'
            (sym (
                run_loop (op ∷ front) (from_index 0) f none
                  (checks_blank (op ∷ front) 0 blank (omega arith)) (ground arith) c no_injector)
              ∙ h)
            (apply_from-none 0 (op ∷ front) f)

  -- A run from the index behind a first part.
  restart :
      (front back : List Operation) (f : F)
      → is_empty (trim_space base) ≡ false
      → check_base path_match fs base f ≡ ok tt
      → apply_operations_with_options path_match fs base
          (front ++ back)
          (from_index (length front))
          f
        ≡ (
          (apply_from path_match fs base (length front) back none f).0,
          (apply_from path_match fs base (length front) back none f).2,
        )
  unfolding apply_operations_with_options apply_from
  restart front [] f blank c =
      rw
        (
          apply_operations_with_options,
          checks_blank (front ++ []) (length front) blank (omega (arith, length-append front [])),
          at_end,
        )
        refl
    where
      at_end : eqb_ℤ (pos (length front)) (pos (length (front ++ []))) ≡ true
      at_end = ground (arith, length-append front [])
  restart front (op ∷ back) f blank c =
      run_loop (front ++ (op ∷ back)) (from_index (length front)) f none
        (checks_blank (front ++ (op ∷ back)) (length front) blank
          (omega (arith, length-append front (op ∷ back))))
        (ground (arith, length-append front (op ∷ back))) c no_injector
      ∙ ap
          (λ ops. (
            (apply_from path_match fs base (length front) ops none f).0,
            (apply_from path_match fs base (length front) ops none f).2,
          ))
          (drop_all front (op ∷ back))

  apply_operations_lem :
      (ops : List Operation) (f : F)
      → apply_operations path_match fs base ops f
        ≡ apply_operations_with_options path_match fs base ops (from_index 0) f
  unfolding apply_operations
  apply_operations_lem ops f = refl

  nothing_done :
      (f f' : F)
      → is_empty (trim_space base) ≡ false
      → apply_operations path_match fs base [] f ≡ (ok tt, f')
      → f ≡ f'
  unfolding apply_operations apply_operations_with_options
  nothing_done f f' blank h = ap (λ (r : Check RunError × F). r.1) (sym (run_empty blank) ∙ h)
    where
      run_empty :
          is_empty (trim_space base) ≡ false
          → apply_operations_with_options path_match fs base [] (from_index 0) f ≡ (ok tt, f)
      run_empty blank =
          rw (apply_operations_with_options, checks_blank [] 0 blank (omega arith)) refl

  -- A run without faults that stops can be taken up: where the operations of a first part succeed,
  -- the whole stream has the outcome of a run from the index behind that part, in the state that
  -- the first part left. The base path is not blank, and is still a directory then.
  pub resume :
      (front back : List Operation) (f f' : F)
      → is_empty (trim_space base) ≡ false
      → apply_operations path_match fs base front f ≡ (ok tt, f')
      → check_base path_match fs base f' ≡ ok tt
      → apply_operations path_match fs base (front ++ back) f
        ≡ apply_operations_with_options path_match fs base
            (front ++ back)
            (from_index (length front))
            f'
  resume [] back f f' blank h again =
      unfold apply_operations in
      ap (apply_operations_with_options path_match fs base back (from_index 0))
        (nothing_done f f' blank h)
  resume (op ∷ front) back f f' blank h again =
      elim (Check-cases (check_base path_match fs base f)) [
        | inr (e, c) ↦
            absurd (no_base op front f f' e blank c (sym (apply_operations_lem (op ∷ front) f) ∙ h))
        | inl c ↦
            apply_operations_lem (op ∷ front ++ back) f
            ∙ resume_loop op front back f f' blank c (sym (apply_operations_lem (op ∷ front) f) ∙ h)
            ∙ sym (restart (op ∷ front) back f' blank again)
      ]
