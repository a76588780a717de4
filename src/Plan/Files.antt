-- ===== src/Plan/Files.antt =====
-- plan.go: planning symlinks, hardlinks, special files and files keeps the invariant.
use randfiletree.Prelude.{
  ℕ, Bool, Option, none, some, List, [], ◌∷◌, Bytes, codes, inr, In, ◌==◌, not, is_empty,
}
use randfiletree.Action.{
  Ensures, bind_rule, seq_rule, pure_rule, fail_rule, guard_rule, if_rule, weaken,
}
use randfiletree.Plan.Types.{Random, IsLawful, Generator, hardlink, new_entry, Gen}
use randfiletree.Plan.State.{Book, PlanState, Planner, pick_file_path, pick_symlink_path}
use randfiletree.Plan.Invariant.{Frame, Known, a_dir, a_file, Holds, FileIn, shapes}
use randfiletree.Plan.Rules.{Safe, At, Fresh, draw_rule, call_rule, modify_rule, get_book_rule}
use randfiletree.Plan.Steps.{
  unique_path_rule, pick_rule, Picked, refile-At, append_held_rule, register_hardlink-At, All-In,
  FileIn-snoc,
}
use randfiletree.Plan.Soundness.{
  IsConfigured, Offers, Keeps, plan_symlink-Keeps, plan_symlink_to-Keeps, plan_relative-Keeps,
  plan_self_referential-Keeps,
}
use randfiletree.Plan.Cycles.{plan_dangling-Keeps, plan_symlink_cycle-Keeps}
use randfiletree.Plan.Entries.{
  plan_file_path, plan_symlink_strategy, plan_explicit_strategy, plan_last_path, try_plan_symlink,
  plan_wanted_symlink, plan_picked_hardlink, plan_hardlink_to, try_plan_hardlink, should_plan,
  symlink_strategy_absolute, symlink_strategy_relative, symlink_strategy_dangling,
  symlink_strategy_self_referential, symlink_strategy_chained, symlink_strategy_cycle,
  is_symlink_strategy,
}

module _ {R : Type 0} (random : Random R) (law : IsLawful random) (g : Generator R)
    (c : IsConfigured g) (base : Frame) (offers : Offers g base) (fuel : ℕ) (known : List Known)
    (d : Bytes) (here : In (a_dir d) known) where
  abbrev pub Kept : {A : Type 0} → Planner R A → Type 0
  Kept m = Keeps random law g c base offers fuel known d here [] m

  -- The state between two entries: nothing is reserved.
  abbrev pub Between : Book → Type 0
  Between = At base fuel known []

  -- A file path that was picked is the path of an earlier file.
  abbrev PickedFile : Book → Option Bytes → Type 0
  PickedFile b none = Unit
  PickedFile b (some t) = FileIn t (shapes b.entries)

  picked_file :
      (files : List Bytes) (b : Book) (o : Option Bytes)
      → ((p : Bytes) → In p files → FileIn p (shapes b.entries))
      → Picked files o
      → PickedFile b o
  picked_file files b none h i = tt
  picked_file files b (some t) h i = h t i

  pick_file_rule :
      (s : PlanState R)
      → Between s.book
      → Ensures
          (λ o s'. Between s'.book × PickedFile s'.book o)
          (Safe base)
          (pick_file_path random s)
  unfolding pick_file_path
  pick_file_rule s a =
      let files = s.book.file_paths in
      get_book_rule (Safe base) _ s (
        weaken
          (pick_rule base
            (λ b. Between b × ((p : Bytes) → In p files → FileIn p (shapes b.entries))) random law
            files s (a, a.inv.files))
          λ o s1 ((a1, h), i). (a1, picked_file files s1.book o h i))

  pick_symlink-Kept : Kept (pick_symlink_path random)
  unfolding pick_symlink_path
  pick_symlink-Kept s a =
      get_book_rule (Safe base) _ s
        (weaken (pick_rule base Between random law s.book.symlink_paths s a) λ o s1 (a1, _). a1)

  plan_symlink_strategy-Kept : (strategy : ℕ) → Kept (plan_symlink_strategy random g d strategy)
  unfolding plan_symlink_strategy
  plan_symlink_strategy-Kept strategy s a =
      if_rule (strategy == symlink_strategy_absolute) _ _ s
        (λ _. bind_rule _ _ _ (pick_file_rule s a) λ o s1 (a1, _).
          plan_symlink_to-Keeps random law g c base offers fuel known d here o s1 a1)
        λ _.
          if_rule (strategy == symlink_strategy_relative) _ _ s
            (λ _. bind_rule _ _ _ (pick_file_rule s a) λ o s1 (a1, _).
              plan_relative-Keeps random law g c base offers fuel known d here o s1 a1)
            λ _.
              if_rule (strategy == symlink_strategy_dangling) _ _ s
                (λ _. plan_dangling-Keeps random law g c base offers fuel known d here s a)
                λ _.
                  if_rule (strategy == symlink_strategy_self_referential) _ _ s
                    (λ _.
                      plan_self_referential-Keeps random law g c base offers fuel known d here s a)
                    λ _.
                      if_rule (strategy == symlink_strategy_chained) _ _ s
                        (λ _. bind_rule _ _ _ (pick_symlink-Kept s a) λ o s1 a1.
                          plan_symlink_to-Keeps random law g c base offers fuel known d here o s1
                            a1)
                        λ _.
                          if_rule (strategy == symlink_strategy_cycle) _ _ s
                            (λ _.
                              seq_rule _ _ _
                                (plan_symlink_cycle-Keeps random law g c base offers fuel known d
                                  here _ s a)
                                λ s1 a1. pure_rule _ s1 a1)
                            λ _. fail_rule _ s (tt, a.inv)

  pub should_plan-Kept : (o : Option (Gen R Bool)) → Kept (should_plan random g o)
  unfolding should_plan
  should_plan-Kept none s a = pure_rule _ s a
  should_plan-Kept (some p) s a = draw_rule base Between p s a

  plan_explicit_strategy-Kept : (o : Gen R ℕ) → Kept (plan_explicit_strategy random g d o)
  unfolding plan_explicit_strategy
  plan_explicit_strategy-Kept o s a =
      bind_rule _ _ _ (draw_rule base Between o s a) λ strategy s1 a1.
        guard_rule (not (is_symlink_strategy strategy)) _ _ s1 (tt, a1.inv)
          λ _. plan_symlink_strategy-Kept strategy s1 a1

  plan_last_path-Kept : Kept (plan_last_path random g d)
  unfolding plan_last_path
  plan_last_path-Kept s a = get_book_rule (Safe base) _ s (
      if_rule (is_empty s.book.last_path) _ _ s (λ _. pure_rule _ s a)
        λ _.
          seq_rule _ _ _ (plan_symlink-Keeps random law g c base offers fuel known d here [] _ s a)
            λ s1 a1. pure_rule _ s1 a1)

  plan_wanted_symlink-Kept : (o : Option (Gen R ℕ)) → Kept (plan_wanted_symlink random g d o)
  unfolding plan_wanted_symlink
  plan_wanted_symlink-Kept none = plan_last_path-Kept
  plan_wanted_symlink-Kept (some o) = plan_explicit_strategy-Kept o

  pub try_plan_symlink-Kept : Kept (try_plan_symlink random g d)
  unfolding try_plan_symlink
  try_plan_symlink-Kept s a =
      bind_rule _ _ _ (call_rule base Between g.symlink_prob_gen s c.symlink_prob a) λ wanted s1 a1.
        if_rule (not wanted) _ _ s1 (λ _. pure_rule _ s1 a1)
          λ _. plan_wanted_symlink-Kept g.symlink_strategy_gen s1 a1

  -- Reserving a path leaves the entries as they are.
  linked_path_rule :
      (t : Bytes) (s : PlanState R)
      → Between s.book
      → FileIn t (shapes s.book.entries)
      → Ensures
          (λ p s'. Fresh base fuel known [] d p s'.book × FileIn t (shapes s'.book.entries))
          (Safe base)
          (plan_file_path random g d (codes "hardlink") s)
  unfolding plan_file_path
  linked_path_rule t s a found =
      weaken
        (unique_path_rule base fuel (a_file t ∷ known) [] d _ _ _ _ s c.file_name_len c.file_name
          offers.file_names offers.byte_file_names (also t a found))
        λ p s1 (a1, named). ((forget a1, named), a1.planned.0)
    where
      also :
          (t : Bytes) {b : Book}
          → Between b
          → FileIn t (shapes b.entries)
          → At base fuel (a_file t ∷ known) [] b
      also t a f = record {
        inv = a.inv;
        room = a.room;
        planned = (f, a.planned);
        reserved = tt;
        apart = tt;
      }

      forget :
          {t p : Bytes} {b : Book}
          → At base fuel (a_file t ∷ known) (p ∷ []) b
          → At base fuel known (p ∷ []) b
      forget a = record {
        inv = a.inv;
        room = a.room;
        planned = a.planned.1;
        reserved = a.reserved;
        apart = a.apart;
      }

  plan_picked_hardlink-Kept :
      (o : Option Bytes) (s : PlanState R)
      → Between s.book × PickedFile s.book o
      → Ensures (λ _ s'. Between s'.book) (Safe base) (plan_picked_hardlink random g d o s)
  unfolding plan_picked_hardlink plan_hardlink_to
  plan_picked_hardlink-Kept none s (a, _) = pure_rule _ s a
  plan_picked_hardlink-Kept (some t) s (a, found) =
      bind_rule _ _ _ (linked_path_rule t s a found) λ path s1 (f1, found1).
        let e = record (new_entry hardlink path) { link_target = t } in
        seq_rule _ _ _
          (append_held_rule base fuel known [] e s1 f1.0 (
            inr (
              d,
              f1.1.0,
              f1.1.1,
              All-In (λ k. Holds k (shapes s1.book.entries)) known (a_dir d) f1.0.planned here,
              f1.1.2,
            ),
            λ _. found1,
          ))
          λ s2 (a2, (at_path, _)).
            seq_rule _ _ _
              (modify_rule base Between _ s2 (
                register_hardlink-At base fuel known [] t path (
                  refile-At base fuel known [] _ _ _ _ _ a2
                    (FileIn-snoc s2.book.file_paths path _ a2.inv.files (at_path tt)))))
              λ s3 a3. pure_rule _ s3 a3

  pub try_plan_hardlink-Kept : Kept (try_plan_hardlink random g d)
  unfolding try_plan_hardlink
  try_plan_hardlink-Kept s a =
      bind_rule _ _ _ (should_plan-Kept g.hardlink_prob_gen s a) λ wanted s1 a1.
        if_rule (not wanted) _ _ s1 (λ _. pure_rule _ s1 a1)
          λ _. bind_rule _ _ _ (pick_file_rule s1 a1) plan_picked_hardlink-Kept
