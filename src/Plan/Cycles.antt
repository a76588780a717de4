-- ===== src/Plan/Cycles.antt =====
-- plan.go: dangling symlinks and symlink cycles, which reserve several paths at once.
use randfiletree.Prelude.{
  ℕ, zero, suc, ◌<◌, List, [], ◌∷◌, ◌++◌, Bytes, length, get_elem?, ◌≡◌, refl, sym, inl, inr, In,
  All, Distinct, arith, Option-cases, ltb,
}
use randfiletree.Action.{Ensures, bind_rule, seq_rule, pure_rule, guard_rule}
use randfiletree.GoPath.{join}
use randfiletree.Plan.Types.{Random, IsLawful, Generator}
use randfiletree.Plan.State.{Book, PlanState}
use randfiletree.Plan.Invariant.{Frame, Known, a_dir}
use randfiletree.Plan.Rules.{Safe, At}
use randfiletree.Plan.Steps.{get_elem?-total}
use native.Mathlib.Nat.{mod-lt}
use randfiletree.Plan.Soundness.{
  IsConfigured, Offers, Keeps, file_path_rule, append_symlink_rule, plan_symlink-Keeps,
  or_rel_error-Keeps,
}
use randfiletree.Plan.Entries.{
  plan_dangling, plan_symlink_cycle, reserve_cycle, append_cycle, at_index,
}

pub At-drop :
    {base : Frame} {fuel : ℕ} {known : List Known} {held : List Bytes} {p : Bytes} {b : Book}
    → At base fuel known (p ∷ held) b
    → At base fuel known held b
At-drop a = record {
  inv = a.inv;
  room = a.room;
  planned = a.planned;
  reserved = a.reserved.1;
  apart = a.apart.1;
}

-- An element of the middle comes first.
All-middle :
    {A : Type 0} (P : A → Type 0) (xs : List A) (y : A) (ys : List A)
    → All P (xs ++ (y ∷ ys))
    → All P (y ∷ (xs ++ ys))
All-middle P [] y ys h = h
All-middle P (x ∷ xs) y ys (p, h) = let (q, r) = All-middle P xs y ys h in (q, (p, r))

In-middle :
    {A : Type 0} (xs : List A) (y : A) (ys : List A) (a : A)
    → In a (y ∷ (xs ++ ys))
    → In a (xs ++ (y ∷ ys))
In-middle [] y ys a h = h
In-middle (x ∷ xs) y ys a (inl e) = inr (In-middle xs y ys a (inl e))
In-middle (x ∷ xs) y ys a (inr (inl e)) = inl e
In-middle (x ∷ xs) y ys a (inr (inr i)) = inr (In-middle xs y ys a (inr i))

Distinct-middle :
    {A : Type 0} (xs : List A) (y : A) (ys : List A)
    → Distinct (xs ++ (y ∷ ys))
    → Distinct (y ∷ (xs ++ ys))
Distinct-middle [] y ys h = h
Distinct-middle (x ∷ xs) y ys (n, h) =
    let (m, r) = Distinct-middle xs y ys h in
    (
      λ i. elim i [ inl e ↦ n (In-middle xs y ys x (inl (sym e))) | inr j ↦ m j ],
      (λ i. n (In-middle xs y ys x (inr i)), r),
    )

At-middle :
    {base : Frame} {fuel : ℕ} {known : List Known} (ps : List Bytes) (p : Bytes) (held : List Bytes)
    {b : Book}
    → At base fuel known (ps ++ (p ∷ held)) b
    → At base fuel known (p ∷ (ps ++ held)) b
At-middle ps p held a = record {
  inv = a.inv;
  room = a.room;
  planned = a.planned;
  reserved = All-middle _ ps p _ a.reserved;
  apart = Distinct-middle ps p _ a.apart;
}

module _ {R : Type 0} (random : Random R) (law : IsLawful random) (g : Generator R)
    (c : IsConfigured g) (base : Frame) (offers : Offers g base) (fuel : ℕ) (known : List Known)
    (d : Bytes) (here : In (a_dir d) known) where
  pub plan_dangling-Keeps :
      Keeps random law g c base offers fuel known d here [] (plan_dangling random g d)
  unfolding plan_dangling
  plan_dangling-Keeps s a =
      bind_rule _ _ _ (file_path_rule random law g c base offers fuel known d here [] _ s a)
        λ t s1 f1.
          seq_rule _ _ _
            (plan_symlink-Keeps random law g c base offers fuel known d here (t ∷ []) t s1 f1.0)
            λ s2 a2. pure_rule _ s2 (At-drop a2)

  -- The paths that a cycle has reserved lie in the directory.
  abbrev Cycle : List Bytes → List Bytes → Book → Type 0
  Cycle held ps b =
      At base fuel known (ps ++ held) b
      × All (λ p. (name : Bytes) × base.is_name name × (p ≡ join d name)) ps

  reserve_cycle_rule :
      (n : ℕ) (held : List Bytes) (s : PlanState R)
      → At base fuel known held s.book
      → Ensures
          (λ ps s'. Cycle held ps s'.book × (length ps ≡ n))
          (Safe base)
          (reserve_cycle random g n d s)
  unfolding reserve_cycle
  reserve_cycle_rule zero held s a = pure_rule _ s ((a, tt), refl)
  reserve_cycle_rule (suc n) held s a =
      bind_rule _ _ _ (file_path_rule random law g c base offers fuel known d here held _ s a)
        λ p s1 (a1, named).
          bind_rule _ _ _ (reserve_cycle_rule n (p ∷ held) s1 a1) λ ps s2 ((a2, names), len).
            pure_rule _ s2 ((At-middle ps p held a2, (named, names)), omega (arith, len))

  at_index_rule :
      (all : List Bytes) (i : ℕ) (held : List Bytes) (s : PlanState R)
      → i < length all
      → At base fuel known held s.book
      → Ensures (λ _ s'. At base fuel known held s'.book) (Safe base) (at_index random g all i s)
  unfolding at_index
  at_index_rule all i held s h a = elim (Option-cases (get_elem? all i)) [
    | inl e ↦ absurd (get_elem?-total all i h e)
    | inr (q, e) ↦ rw (e, at_index) (pure_rule _ s a)
  ]

  append_cycle_rule :
      (all : List Bytes) (i : ℕ) (ps : List Bytes) (s : PlanState R)
      → 0 < length all
      → Cycle [] ps s.book
      → Ensures
          (λ _ s'. At base fuel known [] s'.book)
          (Safe base)
          (append_cycle random g all i ps s)
  unfolding append_cycle
  append_cycle_rule all i [] s h (a, _) = pure_rule _ s a
  append_cycle_rule all i (p ∷ ps) s h (a, (named, names)) =
      let held = p ∷ (ps ++ []) in
      bind_rule _ _ _ (at_index_rule all _ held s (mod-lt _ h) a) λ next s1 a1.
        bind_rule _ _ _
          (or_rel_error-Keeps random law g c base offers fuel known d here held p _ s1 a1)
          λ target s2 a2.
            seq_rule _ _ _
              (append_symlink_rule random law g c base offers fuel known d here (ps ++ []) p target
                s2 (a2, named))
              λ s3 a3. append_cycle_rule all (suc i) ps s3 h (a3, names)

  pub plan_symlink_cycle-Keeps :
      (n : ℕ)
      → Keeps random law g c base offers fuel known d here [] (plan_symlink_cycle random g d n)
  unfolding plan_symlink_cycle
  plan_symlink_cycle-Keeps n s a =
      guard_rule (ltb n 2) _ _ s (tt, a.inv)
        λ e.
          bind_rule _ _ _ (reserve_cycle_rule n [] s a)
            λ ps s1 (a1, len). append_cycle_rule ps 0 ps s1 (ground (arith, len)) a1
