-- ===== src/Plan/Steps.antt =====
-- plan.go: drawing names, picking targets, adding entries and registering them keep the
-- invariant, as steps between states that hold reserved paths.
use randfiletree.Prelude.{
  ℕ, zero, suc, ◌<◌, false, Option, none, some, List, [], ◌∷◌, ◌++◌, Bytes, ◌&&◌, length,
  length-append, get_elem?, ◌≡◌, refl, sym, ◌≢◌, inl, inr, In, All, arith, Option-cases,
}
use mathlib.Core.List.{map-append}
use mathlib.Core.Path.{subst}
use randfiletree.Prelude.Dict.{lookup}
use randfiletree.Prelude.Int.{ℤ}
use randfiletree.Action.{Ensures, returns, bind_rule, pure_rule}
use randfiletree.Plan.Types.{
  Random, IsLawful, PlannedEntry, dir, PlannedHardlinkGroup, Gen, NameGen,
}
use randfiletree.Plan.State.{
  Book, PlanState, draw, next_name, plan_unique_path_with_byte, pick, append_entry,
  register_hardlink, group_of,
}
use randfiletree.Plan.Config.{is_nil}
use randfiletree.Plan.Invariant.{
  Frame, Known, Holds-append, Inv, Reserved, Fits, Shape, FileIn, FileIn-last, DirIn, DirIn-last,
  shape, shapes, add_entry, add_entry-Reserved, IsFileLike,
}
use randfiletree.Plan.Rules.{
  Safe, At, Fresh, All-weaken, draw_bind_rule, call_rule, append_entry_rule, try_paths_rule,
}

-- What the generator returns, if there is one, are names of the frame.
abbrev pub Supplies : {R : Type 0} → Frame → Option (NameGen R) → Type 0
Supplies {R} base o = (g : NameGen R) → o ≡ some g → (r : R) (n : ℤ) → base.is_name (g r n).0

module _ {R : Type 0} (base : Frame) (fuel : ℕ) (known : List Known) (held : List Bytes) where
  draw_name_rule :
      (g : NameGen R) (n : ℤ) (s : PlanState R)
      → ((r : R) (n : ℤ) → base.is_name (g r n).0)
      → At base fuel known held s.book
      → Ensures
          (λ w s'. At base fuel known held s'.book × base.is_name w)
          (Safe base)
          (draw (λ r. g r n) s)
  unfolding draw
  draw_name_rule g n s named a = returns (a, named s.rnd n)

  next_name_rule :
      (name_gen : Option (NameGen R)) (len_gen : Option (Gen R ℤ)) (byte_gen : Option (NameGen R))
      (s : PlanState R)
      → is_nil len_gen ≡ false
      → (is_nil name_gen && is_nil byte_gen) ≡ false
      → Supplies base name_gen
      → Supplies base byte_gen
      → At base fuel known held s.book
      → Ensures
          (λ w s'. At base fuel known held s'.book × base.is_name w)
          (Safe base)
          (next_name name_gen len_gen byte_gen s)
  unfolding next_name
  next_name_rule none len_gen none s l n p q a = cc
  next_name_rule (some g) len_gen none s l n p q a =
      bind_rule _ _ _ (call_rule base (At base fuel known held) len_gen s l a)
        λ k s1 a1. draw_name_rule g k s1 (p g refl) a1
  next_name_rule name_gen len_gen (some g) s l n p q a =
      bind_rule _ _ _ (call_rule base (At base fuel known held) len_gen s l a)
        λ k s1 a1. draw_name_rule g k s1 (q g refl) a1

  pub unique_path_rule :
      (d : Bytes) (name_gen : Option (NameGen R)) (len_gen : Option (Gen R ℤ))
      (byte_gen : Option (NameGen R)) (entry_kind : Bytes) (s : PlanState R)
      → is_nil len_gen ≡ false
      → (is_nil name_gen && is_nil byte_gen) ≡ false
      → Supplies base name_gen
      → Supplies base byte_gen
      → At base fuel known held s.book
      → Ensures
          (λ p s'. Fresh base fuel known held d p s'.book)
          (Safe base)
          (plan_unique_path_with_byte d name_gen len_gen byte_gen entry_kind s)
  unfolding plan_unique_path_with_byte
  unique_path_rule d name_gen len_gen byte_gen entry_kind s l n p q a =
      try_paths_rule base fuel known held 128 entry_kind d _ s
        (λ s' a'. next_name_rule name_gen len_gen byte_gen s' l n p q a') a

abbrev pub Picked : List Bytes → Option Bytes → Type 0
Picked ps none = Unit
Picked ps (some p) = In p ps

get_elem?-In : (ps : List Bytes) (i : ℕ) (p : Bytes) → get_elem? ps i ≡ some p → In p ps
get_elem?-In [] i p h = cc
get_elem?-In (q ∷ ps) zero p h = inl (ground arith)
get_elem?-In (q ∷ ps) (suc i) p h = inr (get_elem?-In ps i p h)

pub get_elem?-total : (ps : List Bytes) (i : ℕ) → i < length ps → get_elem? ps i ≢ none
get_elem?-total [] i h = absurd (omega arith)
get_elem?-total (q ∷ ps) zero h = cc
get_elem?-total (q ∷ ps) (suc i) h = get_elem?-total ps i (omega arith)

module _ {R : Type 0} (base : Frame) (P : Book → Type 0) (random : Random R)
    (law : IsLawful random) where
  pub pick_rule :
      (ps : List Bytes) (s : PlanState R)
      → P s.book
      → Ensures (λ o s'. P s'.book × Picked ps o) (Safe base) (pick random ps s)
  unfolding pick
  pick_rule [] s p = pure_rule _ s (p, tt)
  pick_rule (q ∷ ps) s p =
      draw_bind_rule (Safe base) _ _ s
        (elim (Option-cases (get_elem? (q ∷ ps) (random.intn s.rnd (length (q ∷ ps))).0)) [
          | inl e ↦ absurd (get_elem?-total (q ∷ ps) _ (law.intn_lt s.rnd _ (omega arith)) e)
          | inr (x, e) ↦ rw e (pure_rule _ _ (p, get_elem?-In (q ∷ ps) _ x e))
        ])

-- The fields that entries are registered in, given anew.
abbrev pub refile :
    List Bytes → Bytes → List Bytes → List PlannedHardlinkGroup → List (Bytes × ℕ) → Book → Book
refile files last symlinks groups by_path b = record b {
  file_paths = files;
  last_path = last;
  symlink_paths = symlinks;
  hardlink_groups = groups;
  hardlink_group_by_path = by_path;
}

module _ (base : Frame) (fuel : ℕ) (known : List Known) (held : List Bytes) where
  pub refile-At :
      (files : List Bytes) (last : Bytes) (symlinks : List Bytes)
      (groups : List PlannedHardlinkGroup) (by_path : List (Bytes × ℕ)) {b : Book}
      → At base fuel known held b
      → ((p : Bytes) → In p files → FileIn p (shapes b.entries))
      → At base fuel known held (refile files last symlinks groups by_path b)
  refile-At files last symlinks groups by_path a h = record {
    inv = record {
      limited = a.inv.limited;
      distinct = a.inv.distinct;
      used = a.inv.used;
      bounded = a.inv.bounded;
      ordered = a.inv.ordered;
      files = h;
    };
    room = a.room;
    planned = a.planned;
    reserved =
        All-weaken _ _ held (λ q r. record { taken = r.taken; unplanned = r.unplanned }) a.reserved;
    apart = a.apart;
  }

  pub add_entry-At :
      (e : PlannedEntry) {b : Book}
      → At base fuel known (e.path ∷ held) b
      → Inv base (add_entry e b)
      → At base fuel known held (add_entry e b)
  add_entry-At e {b} a i = record {
    inv = i;
    room = omega (arith, length-append b.entries (e ∷ []), a.room);
    planned =
        All-weaken _ _ known
          (λ k h. rw (map-append shape b.entries (e ∷ [])) (Holds-append k _ _ h)) a.planned;
    reserved = others held a.apart.0 a.reserved.1;
    apart = a.apart.1;
  }
    where
      others :
          (ps : List Bytes)
          → ¬ In e.path ps
          → All (λ q. Reserved q b) ps
          → All (λ q. Reserved q (add_entry e b)) ps
      others [] n h = tt
      others (q ∷ ps) n (r, h) =
          (add_entry-Reserved q e b r (λ x. n (inl (sym x))), others ps (λ m. n (inr m)) h)

  -- A new entry is found at its path.
  abbrev pub Found : PlannedEntry → Book → Type 0
  Found e b =
      (IsFileLike e.type_id → FileIn e.path (shapes b.entries))
      × (e.type_id ≡ dir → DirIn e.path (shapes b.entries))

  pub add_entry-Found : (e : PlannedEntry) (b : Book) → Found e (add_entry e b)
  add_entry-Found e b = (
    λ h. rw (map-append shape b.entries (e ∷ [])) (FileIn-last (shapes b.entries) (shape e) h),
    λ h. rw (map-append shape b.entries (e ∷ [])) (DirIn-last (shapes b.entries) (shape e) h),
  )

  -- The first of the held paths gets its entry.
  pub append_held_rule :
      {R : Type 0} (e : PlannedEntry) (s : PlanState R)
      → At base fuel known (e.path ∷ held) s.book
      → Fits base (shapes s.book.entries) (shape e)
      → Ensures
          (λ _ s'. At base fuel known held s'.book × Found e s'.book)
          (Safe base)
          (append_entry e s)
  append_held_rule e s a f =
      append_entry_rule base (λ b. At base fuel known held b × Found e b) e s a.inv a.reserved.0 f
        λ i. (add_entry-At e a i, add_entry-Found e s.book)

  group_of-At :
      (target : Bytes) {b : Book}
      → At base fuel known held b
      → (At base fuel known held (group_of target b).1)
        × ((group_of target b).1.file_paths ≡ b.file_paths)
        × ((group_of target b).1.entries ≡ b.entries)
  unfolding group_of
  group_of-At target {b} a = elim (Option-cases (lookup target b.hardlink_group_by_path)) [
    | inl e ↦ rw (e, group_of) (refile-At _ _ _ _ _ a a.inv.files, refl, refl)
    | inr (i, e) ↦ rw (e, group_of) (a, refl, refl)
  ]

  pub register_hardlink-At :
      (target path : Bytes) {b : Book}
      → At base fuel known held b
      → At base fuel known held (register_hardlink target path b)
  unfolding register_hardlink
  register_hardlink-At target path a =
      let (a', _, _) = group_of-At target a in refile-At _ _ _ _ _ a' a'.inv.files

pub All-In : {A : Type 0} (P : A → Type 0) (xs : List A) (x : A) → All P xs → In x xs → P x
All-In P (y ∷ xs) x (p, h) (inl e) = subst P e p
All-In P (y ∷ xs) x (p, h) (inr i) = All-In P xs x h i
All-In P [] x h i = elim i [ ]

pub FileIn-snoc :
    (files : List Bytes) (path : Bytes) (es : List Shape)
    → ((p : Bytes) → In p files → FileIn p es)
    → FileIn path es
    → (p : Bytes) → In p (files ++ (path ∷ []))
    → FileIn p es
FileIn-snoc [] path es h f p (inl e) = subst (λ q. FileIn q es) e f
FileIn-snoc [] path es h f p (inr i) = elim i [ ]
FileIn-snoc (x ∷ files) path es h f p (inl e) = h p (inl e)
FileIn-snoc (x ∷ files) path es h f p (inr i) = FileIn-snoc files path es (λ q j. h q (inr j)) f p i
