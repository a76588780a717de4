-- ===== src/Plan/State.antt =====
-- plan.go: the state of a planning run, and the operations on it.
use randfiletree.Prelude.{
  ℕ, zero, suc, ◌+◌, true, false, Option, none, some, List, [], ◌∷◌, ◌++◌, Bytes, ok, err, length,
  get_elem?, if◌then◌else◌, map, sort_by, sort_strings, bytes_ltb,
}
use randfiletree.Prelude.Dict.{lookup, insert, member}
use randfiletree.Prelude.Int.{ℤ, pos, leb_ℤ}
use randfiletree.Action.{Action, ◌>>=◌, ◌>>◌, pure, fail}
use randfiletree.GoPath.{join}
use randfiletree.Plan.Types.{
  Random, PlannedEntry, PlannedHardlinkGroup, PlanError, limit_exceeded, nil_call, index_panic,
  collision_exhausted, generator_failed, Gen, FailingGen, NameGen,
}

-- `planState` without its random source, and the entries of the `runPlan` that it fills.
-- A group is shared by the paths that `hardlink_group_by_path` sends to its index.
pub record Book : Type 0 where
  pub used : List Bytes
  pub last_path : Bytes
  pub file_paths : List Bytes
  pub symlink_paths : List Bytes
  pub hardlink_groups : List PlannedHardlinkGroup
  pub hardlink_group_by_path : List (Bytes × ℕ)
  pub entry_limit : ℤ
  pub path_retries : ℕ
  pub path_collisions : ℕ
  pub entries : List PlannedEntry

pub record PlanState (R : Type 0) : Type 0 where
  pub rnd : R
  pub book : Book

abbrev pub Planner : Type 0 → Type 0 → Type 0
Planner R A = Action (PlanState R) PlanError A

abbrev pub count_collision : Book → Book
count_collision b = record b {
  path_retries = b.path_retries + 1;
  path_collisions = b.path_collisions + 1;
}

abbrev pub reserve : Bytes → Book → Book
reserve path b = record b { used = path ∷ b.used }

abbrev pub max_plan_path_collision_retries : ℕ
max_plan_path_collision_retries = 128

abbrev pub register_file_path : Bytes → Book → Book
register_file_path path b = record b { file_paths = b.file_paths ++ (path ∷ []) }

abbrev pub register_symlink_path : Bytes → Book → Book
register_symlink_path path b = record b { symlink_paths = b.symlink_paths ++ (path ∷ []) }

abbrev pub set_last_path : Bytes → Book → Book
set_last_path path b = record b { last_path = path }

module _ {R : Type 0} where
  unfoldable pub get_book : Planner R Book
  get_book s = (ok s.book, s)

  unfoldable pub modify : (Book → Book) → Planner R (Unit {0})
  modify f s = (ok tt, record s { book = f s.book })

  -- A call of a generator function.
  unfoldable pub draw : {A : Type 0} → Gen R A → Planner R A
  draw g s = let (a, r) = g s.rnd in (ok a, record s { rnd = r })

  -- A computation on the random source alone, which may fail.
  unfoldable pub on_random : {A : Type 0} → Action R PlanError A → Planner R A
  on_random m s = let (a, r) = m s.rnd in (a, record s { rnd = r })

  -- A call through a field that may be nil.
  unfoldable pub call : {A : Type 0} → Option (Gen R A) → Planner R A
  call none = fail nil_call
  call (some g) = draw g

  unfoldable pub append_entry : PlannedEntry → Planner R (Unit {0})
  append_entry entry s =
      if leb_ℤ s.book.entry_limit (pos (length s.book.entries))
      then (err (limit_exceeded s.book.entry_limit), s)
      else (ok tt, record s { book = record (s.book) { entries = s.book.entries ++ (entry ∷ []) } })

  -- The error of a generator that the caller supplied.
  unfoldable pub call_failing : {A : Type 0} → FailingGen R A → Planner R A
  call_failing g s =
      let (a, r) = g s.rnd in
      elim a [
        | ok x ↦ (ok x, record s { rnd = r })
        | err e ↦ (err (generator_failed e), record s { rnd = r })
      ]

  -- The name length is drawn first; a byte name generator takes precedence.
  unfoldable pub next_name :
      Option (NameGen R) → Option (Gen R ℤ) → Option (NameGen R) → Planner R Bytes
  next_name name_gen len_gen none = do
    n ← call len_gen
    elim name_gen [ none ↦ fail nil_call | some g ↦ draw (λ r. g r n) ]
  next_name name_gen len_gen (some g) = do n ← call len_gen; draw (λ r. g r n)

  -- The loop of `planUniquePathWithByte`, with the attempts that are left.
  unfoldable pub try_paths : ℕ → Bytes → Bytes → Planner R Bytes → Planner R Bytes
  try_paths zero entry_kind path_dir name = fail (collision_exhausted entry_kind path_dir)
  try_paths (suc attempts) entry_kind path_dir name = do
    w ← name
    b ← get_book
    elim (member (join path_dir w) b.used) [
      | true ↦ modify count_collision >> try_paths attempts entry_kind path_dir name
      | false ↦ modify (reserve (join path_dir w)) >> pure (join path_dir w)
    ]

  unfoldable pub plan_unique_path_with_byte :
      Bytes → Option (NameGen R) → Option (Gen R ℤ) → Option (NameGen R) → Bytes → Planner R Bytes
  plan_unique_path_with_byte path_dir name_gen len_gen byte_gen entry_kind =
      try_paths max_plan_path_collision_retries entry_kind path_dir
        (next_name name_gen len_gen byte_gen)

module _ {R : Type 0} (random : Random R) where
  -- `paths[r.Intn(len(paths))]`, and `none` where there is no path.
  unfoldable pub pick : List Bytes → Planner R (Option Bytes)
  pick [] = pure none
  pick (p ∷ ps) = do
    i ← draw (λ r. random.intn r (length (p ∷ ps)))
    elim (get_elem? (p ∷ ps) i) [ none ↦ fail index_panic | some q ↦ pure (some q) ]

  unfoldable pub pick_file_path : Planner R (Option Bytes)
  pick_file_path = do b ← get_book; pick b.file_paths

  unfoldable pub pick_symlink_path : Planner R (Option Bytes)
  pick_symlink_path = do b ← get_book; pick b.symlink_paths

-- The group of a path, or a new one with the path as its origin: its index, and the book.
unfoldable pub group_of : Bytes → Book → ℕ × Book
group_of target b = elim (lookup target b.hardlink_group_by_path) [
  | some i ↦ (i, b)
  | none ↦ (
    length b.hardlink_groups,
    record b {
      hardlink_groups = b.hardlink_groups ++ (record { origin = target; paths = target ∷ [] } ∷ []);
      hardlink_group_by_path = insert target (length b.hardlink_groups) b.hardlink_group_by_path;
    },
  )
]

-- `group.paths = append(group.paths, path)` through the shared pointer.
unfoldable pub add_to_group : ℕ → Bytes → List PlannedHardlinkGroup → List PlannedHardlinkGroup
add_to_group i path [] = []
add_to_group zero path (g ∷ gs) = record g { paths = g.paths ++ (path ∷ []) } ∷ gs
add_to_group (suc i) path (g ∷ gs) = g ∷ add_to_group i path gs

unfoldable pub register_hardlink : Bytes → Bytes → Book → Book
unfolding group_of add_to_group
register_hardlink target path b =
    let (i, b') = group_of target b in
    record b' {
      hardlink_groups = add_to_group i path b'.hardlink_groups;
      hardlink_group_by_path = insert path i b'.hardlink_group_by_path;
    }

unfoldable pub materialize_hardlink_groups : Book → List PlannedHardlinkGroup
unfolding sort_by sort_strings bytes_ltb
materialize_hardlink_groups b =
    sort_by (λ g h. bytes_ltb g.origin h.origin)
      (map (λ g. record { origin = g.origin; paths = sort_strings g.paths }) b.hardlink_groups)
