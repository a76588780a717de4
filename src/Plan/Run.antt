-- ===== src/Plan/Run.antt =====
-- plan.go: what every plan of an accepted configuration satisfies, whatever the random source and
-- the generators give, and whether or not the run ends with an error.
use randfiletree.Prelude.{
  ◌≤◌, some, [], ◌∷◌, ◌⊎◌, inr, Bytes, Result, ok, err, length, ◌≡◌, refl, inl, Distinct, arith,
}
use mathlib.Core.Path.{subst}
use randfiletree.Prelude.Int.{ℤ, pos_part}
use randfiletree.Action.{Ensures, returns, raises, weaken}
use randfiletree.Plan.Types.{Random, IsLawful, Generator, NameGen, PlanError}
use randfiletree.Plan.State.{PlanState}
use randfiletree.Plan.Config.{validate_run_configuration}
use randfiletree.Plan.Invariant.{Frame, Inv, IsReported, Ordered, shapes, paths}
use randfiletree.Plan.Rules.{Safe, At}
use randfiletree.Plan.Tree.{start_book, start, plan_fuel, plan_dir, finish_plan, plan_run}
use randfiletree.Plan.Total.{plan_dir-Fills}
use randfiletree.Plan.Soundness.{Offers}
use randfiletree.Plan.Accepted.{accepted-IsConfigured}

-- The error of a result is one that the source reports.
abbrev pub HasReported : Result PlanError (Unit {0}) → Type 0
HasReported (ok _) = Unit
HasReported (err e) = IsReported e

ended :
    {R : Type 0} {base : Frame} {x : Result PlanError (Unit {0}) × PlanState R}
    → Ensures (λ _ s. Inv base s.book) (Safe base) x
    → Inv base x.1.book × HasReported x.0
ended (returns i) = (i, tt)
ended (raises (k, i)) = (i, k)

-- One of the name generators that are configured.
abbrev pub Configured : {R : Type 0} → Generator R → NameGen R → Type 0
Configured g gen =
    (g.file_name_gen ≡ some gen)
    ⊎ ((g.byte_file_name_gen ≡ some gen)
        ⊎ ((g.dir_name_gen ≡ some gen) ⊎ (g.byte_dir_name_gen ≡ some gen)))

-- A name that one of them returns.
abbrev pub IsDrawn : {R : Type 0} → Generator R → Bytes → Type 0
IsDrawn {R} g name = (gen : NameGen R) × (r : R) × (n : ℤ) × Configured g gen × ((gen r n).0 ≡ name)

module _ {R : Type 0} (random : Random R) (law : IsLawful random) (g : Generator R)
    (accepted : validate_run_configuration g ≡ ok tt) where
  abbrev frame : Frame
  frame = record { base_path = g.base_path; limit = g.plan_entry_limit; is_name = IsDrawn g }

  frame-Offers : Offers g frame
  frame-Offers = record {
    file_names = λ gen e r n. (gen, r, n, inl e, refl);
    byte_file_names = λ gen e r n. (gen, r, n, inr (inl e), refl);
    dir_names = λ gen e r n. (gen, r, n, inr (inr (inl e)), refl);
    byte_dir_names = λ gen e r n. (gen, r, n, inr (inr (inr e)), refl);
  }

  start-Inv : Inv frame (start_book random g)
  start-Inv = record {
    limited = refl;
    distinct = tt;
    used = λ p h. elim h [ ];
    bounded = omega arith;
    ordered = tt;
    files = λ p h. elim h [ ];
  }

  start-At : At frame (plan_fuel random g) [] (g.base_path ∷ []) (start_book random g)
  start-At = record {
    inv = start-Inv;
    room = omega arith;
    planned = tt;
    reserved = (record { taken = inl refl; unplanned = λ h. elim h [ ] }, tt);
    apart = (λ h. h, tt);
  }

  run-Ensures :
      (r : R)
      → Ensures
          (λ _ s. Inv frame s.book)
          (Safe frame)
          (plan_dir random g (plan_fuel random g) 0 g.base_path (start random g r))
  run-Ensures r =
      weaken
        (plan_dir-Fills random law g (accepted-IsConfigured g accepted) frame frame-Offers
          (plan_fuel random g) 0 [] g.base_path (start random g r) start-At (inl (refl, refl)))
        λ _ s a. a.inv

  -- For an accepted configuration and a random source that keeps its bounds, planning does not run
  -- out of fuel, calls no nil generator and indexes nothing out of range: it succeeds, or its
  -- error is one that the source returns.
  pub plan_run-HasReported : (r : R) → HasReported (plan_run random g r).0
  unfolding plan_run
  plan_run-HasReported r = (ended (run-Ensures r)).1

  -- For an accepted configuration and a random source that keeps its bounds, no two entries of a
  -- plan have the same path, also when planning ends with an error.
  pub plan_run-Distinct : (r : R) → Distinct (paths (shapes (plan_run random g r).1.entries))
  unfolding plan_run finish_plan
  plan_run-Distinct r = (ended (run-Ensures r)).0.distinct

  -- For an accepted configuration and a random source that keeps its bounds, a plan has at most as
  -- many entries as the limit allows, also when planning ends with an error.
  pub plan_run-bounded :
      (r : R) → length (plan_run random g r).1.entries ≤ pos_part g.plan_entry_limit
  unfolding plan_run finish_plan
  plan_run-bounded r =
      let i = (ended (run-Ensures r)).0 in
      subst (λ n. length (plan_run random g r).1.entries ≤ pos_part n) i.limited i.bounded

  -- Every entry of a plan is at the base path, as the first one, or in the directory of an earlier
  -- entry by a name that was drawn, and a hardlink's target is an earlier file or hardlink.
  pub plan_run_placed : (r : R) → Ordered frame [] (shapes (plan_run random g r).1.entries)
  unfolding plan_run finish_plan
  plan_run_placed r = (ended (run-Ensures r)).0.ordered
