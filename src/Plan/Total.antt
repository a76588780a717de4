-- ===== src/Plan/Total.antt =====
-- plan.go: planning a directory with all below it keeps the invariant, and the fuel is enough.
use randfiletree.Prelude.{
  ℕ, zero, suc, ◌+◌, ◌-◌, ◌<◌, some, List, [], ◌∷◌, Bytes, length, length-append, ◌≡◌, refl, inl,
  inr, arith, Bool-cases, ap,
}
use mathlib.Core.Path.{subst}
use randfiletree.Prelude.Int.{pos, ltb_ℤ, pos_part}
use randfiletree.Action.{Ensures, bind_rule, seq_rule, pure_rule, repeat_rule, weaken}
use randfiletree.Plan.Types.{
  Random, IsLawful, Generator, PlannedEntry, MetadataConfig, dir, new_entry,
}
use randfiletree.Plan.State.{Book, PlanState, Planner}
use randfiletree.Plan.Invariant.{
  Frame, Known, a_dir, Inv, Anchored, DirIn, shape, shapes, add_entry,
}
use randfiletree.Plan.Rules.{
  Safe, At, call_rule, get_book_rule, modify_rule, on_random_rule, append_entry_rule,
}
use randfiletree.Plan.Steps.{unique_path_rule, add_entry-At, add_entry-Found}
use randfiletree.Plan.Soundness.{IsConfigured, Offers}
use randfiletree.Plan.Cycles.{At-drop}
use randfiletree.Plan.Nodes.{plan_node-Kept}
use randfiletree.Plan.Draws.{metadata-OnlyReports}
use randfiletree.Plan.Tree.{set_metadata, put_metadata, plan_sub_dir, fill_dir, plan_dir}

length-shapes : (es : List PlannedEntry) → length (shapes es) ≡ length es
length-shapes [] = refl
length-shapes (e ∷ es) = ap suc (length-shapes es)

same_length : (xs es : List PlannedEntry) → shapes xs ≡ shapes es → length xs ≡ length es
same_length xs es h = omega (arith, ap length h, length-shapes xs, length-shapes es)

-- Where there is an entry of the index, it gets the metadata, and no shape changes.
set_metadata-some :
    (i : ℕ) (m : MetadataConfig) (es : List PlannedEntry)
    → i < length es
    → (xs : List PlannedEntry) × (set_metadata i m es ≡ some xs) × (shapes xs ≡ shapes es)
unfolding set_metadata
set_metadata-some i m [] h = absurd (omega arith)
set_metadata-some zero m (e ∷ es) h = (record e { metadata = m } ∷ es, refl, refl)
set_metadata-some (suc i) m (e ∷ es) h =
    let (xs, found, same) = set_metadata-some i m es (omega arith) in
    (e ∷ xs, rw found refl, ap (λ ys. shape e ∷ ys) same)

DirIn-length : (p : Bytes) (es : List PlannedEntry) → DirIn p (shapes es) → 0 < length es
DirIn-length p [] h = elim h [ ]
DirIn-length p (e ∷ es) h = omega arith

module _ (base : Frame) (fuel : ℕ) (known : List Known) where
  same_shapes-At :
      (xs : List PlannedEntry) {b : Book}
      → shapes xs ≡ shapes b.entries
      → At base fuel known [] b
      → At base fuel known [] (record b { entries = xs })
  same_shapes-At xs {b} same a = record {
    inv = record {
      limited = a.inv.limited;
      distinct = rw same a.inv.distinct;
      used = λ p h. a.inv.used p (rw same at h);
      bounded = rw (same_length _ _ same) a.inv.bounded;
      ordered = rw same a.inv.ordered;
      files = λ p h. rw same (a.inv.files p h);
    };
    room = rw (same_length _ _ same) a.room;
    planned = rw same a.planned;
    reserved = tt;
    apart = tt;
  }

  -- An entry that exists can be given its metadata.
  put_metadata_rule :
      {R : Type 0} (i : ℕ) (m : MetadataConfig) (s : PlanState R)
      → i < length s.book.entries
      → At base fuel known [] s.book
      → Ensures (λ _ s'. At base fuel known [] s'.book) (Safe base) (put_metadata i m s)
  unfolding put_metadata
  put_metadata_rule i m s h a =
      let (xs, found, same) = set_metadata-some i m s.book.entries h in
      get_book_rule (Safe base) _ s (
        rw found (
          modify_rule base (At base fuel known []) (λ b. record b { entries = xs }) s
            (same_shapes-At xs same a)))

  -- The entry of the directory uses up the fuel that its level needs.
  add_dir-At :
      (path : Bytes) (e : PlannedEntry) {b : Book}
      → e.path ≡ path
      → e.type_id ≡ dir
      → At base (suc fuel) known (e.path ∷ []) b
      → Inv base (add_entry e b)
      → At base fuel (a_dir path ∷ known) [] (add_entry e b)
  add_dir-At path e {b} at_path is_dir a i =
      let a' = add_entry-At base (suc fuel) known [] e a i in
      record {
        inv = i;
        room = omega (arith, length-append b.entries (e ∷ []), a.room);
        planned = (
          subst (λ p. DirIn p (shapes (add_entry e b).entries)) at_path
              ((add_entry-Found base fuel known [] e b).1 is_dir),
          a'.planned,
        );
        reserved = tt;
        apart = tt;
      }

  -- Leaving the directory.
  leave-At :
      (path : Bytes) {b : Book}
      → At base fuel (a_dir path ∷ known) [] b
      → At base (suc fuel) known [] b
  leave-At path a = record {
    inv = a.inv;
    room = omega (arith, a.room);
    planned = a.planned.1;
    reserved = tt;
    apart = tt;
  }

module _ {R : Type 0} (random : Random R) (law : IsLawful random) (g : Generator R)
    (c : IsConfigured g) (base : Frame) (offers : Offers g base) where
  -- What planning a directory whose path is reserved does.
  abbrev pub Fills : ℕ → (Bytes → Planner R (Unit {0})) → Type 0
  Fills fuel plan =
      (known : List Known) (path : Bytes) (s : PlanState R)
      → At base fuel known (path ∷ []) s.book
      → Anchored base (shapes s.book.entries) path
      → Ensures (λ _ s'. At base fuel known [] s'.book) (Safe base) (plan path s)

  plan_sub_dir_rule :
      (fuel : ℕ) (known : List Known) (path : Bytes) (below : Bytes → Planner R (Unit {0}))
      (s : PlanState R)
      → Fills fuel below
      → At base fuel (a_dir path ∷ known) [] s.book
      → Ensures
          (λ _ s'. At base fuel (a_dir path ∷ known) [] s'.book)
          (Safe base)
          (plan_sub_dir random g path below s)
  unfolding plan_sub_dir
  plan_sub_dir_rule fuel known path below s fills a =
      bind_rule _ _ _
        (unique_path_rule base fuel (a_dir path ∷ known) [] path _ _ _ _ s c.dir_name_len c.dir_name
          offers.dir_names offers.byte_dir_names a)
        λ sub s1 (a1, (name, named, eq)).
          fills (a_dir path ∷ known) sub s1 a1 (inr (path, name, named, a1.planned.0, eq))

  last_entry :
      (path : Bytes) (s s' : PlanState R)
      → DirIn path (shapes s.book.entries)
      → s'.book ≡ s.book
      → length s.book.entries - 1 < length s'.book.entries
  last_entry path s s' d kept =
      omega (arith, DirIn-length path s.book.entries d, ap (λ (b : Book). length b.entries) kept)

  fill_dir_rule :
      (fuel : ℕ) (known : List Known) (path : Bytes) (below : Bytes → Planner R (Unit {0}))
      (s : PlanState R)
      → Fills fuel below
      → At base (suc fuel) known (path ∷ []) s.book
      → Anchored base (shapes s.book.entries) path
      → Ensures
          (λ _ s'. At base fuel (a_dir path ∷ known) [] s'.book)
          (Safe base)
          (fill_dir random g path below s)
  unfolding fill_dir
  fill_dir_rule fuel known path below s fills a anchored =
      let Inside = At base fuel (a_dir path ∷ known) [] in
      let Before : Book → Type 0 =
        λ b. At base (suc fuel) known (path ∷ []) b × Anchored base (shapes b.entries) path in
      bind_rule _ _ _ (call_rule base Before g.dir_mode_gen s c.dir_mode (a, anchored))
        λ mode s1 (a1, an1).
          seq_rule _ _ _
            (append_entry_rule base Inside (record (new_entry dir path) { mode = mode }) s1 a1.inv
              a1.reserved.0 (an1, λ e. cc)
              (add_dir-At base fuel known path (record (new_entry dir path) { mode = mode }) refl
                refl a1))
            λ s2 a2. get_book_rule (Safe base) _ s2 (
              bind_rule _ _ _
                (on_random_rule base (λ b. Inside b × (b ≡ s2.book)) _ s2
                  (metadata-OnlyReports g c.xattrs) a2.inv (a2, refl))
                λ m s3 (a3, kept).
                  seq_rule _ _ _
                    (put_metadata_rule base fuel (a_dir path ∷ known) (length s2.book.entries - 1) m
                      s3 (last_entry path s2 s3 a2.planned.0 kept) a3)
                    λ s4 a4.
                      bind_rule _ _ _ (call_rule base Inside g.n_dirs_in_dir_gen s4 c.n_dirs a4)
                        λ n s5 a5.
                          seq_rule _ _ _
                            (repeat_rule (λ s. Inside s.book) (pos_part n) _ s5
                              (λ s a. plan_sub_dir_rule fuel known path below s fills a) a5)
                            λ s6 a6.
                              bind_rule _ _ _
                                (call_rule base Inside g.n_files_in_dir_gen s6 c.n_files a6)
                                λ k s7 a7.
                                  repeat_rule (λ s. Inside s.book) (pos_part k) _ s7
                                    (λ s a.
                                      plan_node-Kept random law g c base offers fuel
                                        (a_dir path ∷ known) path (inl refl) s a)
                                    a7)

  pub plan_dir-Fills : (fuel depth : ℕ) → Fills fuel (plan_dir random g fuel depth)
  unfolding plan_dir
  plan_dir-Fills zero depth known path s a anchored = absurd (omega (arith, a.room, a.inv.bounded))
  plan_dir-Fills (suc fuel) depth known path s a anchored =
      let Before : Book → Type 0 =
        λ b. At base (suc fuel) known (path ∷ []) b × Anchored base (shapes b.entries) path in
      bind_rule _ _ _ (call_rule base Before g.path_depth_gen s c.path_depth (a, anchored))
        λ max_depth s1 (a1, an1). elim (Bool-cases (ltb_ℤ max_depth (pos (depth + 1)))) [
          | inl e ↦ rw e (pure_rule _ s1 (At-drop a1))
          | inr e ↦ rw e (
              weaken (fill_dir_rule fuel known path _ s1 (plan_dir-Fills fuel (depth + 1)) a1 an1)
                λ _ s2 a2. leave-At base fuel known path a2)
        ]
