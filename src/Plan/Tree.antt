-- ===== src/Plan/Tree.antt =====
-- plan.go: planning a directory with all below it, and a whole run.
use randfiletree.Prelude.{
  ℕ, zero, suc, ◌+◌, ◌-◌, true, false, Option, none, some, List, [], ◌∷◌, Bytes, codes, Result,
  length,
}
use randfiletree.Prelude.Int.{pos, pos_part, ltb_ℤ}
use randfiletree.Action.{◌>>=◌, ◌>>◌, pure, fail, repeat}
use randfiletree.Plan.Types.{
  Random, Generator, PlanError, out_of_fuel, index_panic, PlannedEntry, PlannedHardlinkGroup,
  MetadataConfig, new_entry, dir,
}
use randfiletree.Plan.State.{
  Book, PlanState, Planner, get_book, modify, on_random, call, append_entry,
  plan_unique_path_with_byte, materialize_hardlink_groups,
}
use randfiletree.Plan.Metadata.{resolve_metadata}
use randfiletree.Plan.Entries.{plan_node}

pub record RunPlan : Type 0 where
  pub entries : List PlannedEntry
  pub hardlink_groups : List PlannedHardlinkGroup
  pub path_retries : ℕ
  pub path_collisions : ℕ

-- The entries with the metadata of entry `i` set; `none` where there is no such entry.
unfoldable pub set_metadata : ℕ → MetadataConfig → List PlannedEntry → Option (List PlannedEntry)
set_metadata i m [] = none
set_metadata zero m (e ∷ es) = some (record e { metadata = m } ∷ es)
set_metadata (suc i) m (e ∷ es) =
    let rest = set_metadata i m es in elim rest [ none ↦ none | some xs ↦ some (e ∷ xs) ]

-- `plan.entries[i].metadata = metadata`.
unfoldable pub put_metadata : {R : Type 0} → ℕ → MetadataConfig → Planner R (Unit {0})
put_metadata i m = do
  b ← get_book
  elim (set_metadata i m b.entries) [
    | none ↦ fail index_panic
    | some es ↦ modify (λ b. record b { entries = es })
  ]

module _ {R : Type 0} (random : Random R) (g : Generator R) where
  -- One round of the loop over the directories of a directory; `below` plans what is in it.
  unfoldable pub plan_sub_dir : Bytes → (Bytes → Planner R (Unit {0})) → Planner R (Unit {0})
  plan_sub_dir path below = do
    sub ←
        plan_unique_path_with_byte path g.dir_name_gen g.dir_name_len_gen g.byte_dir_name_gen
          (codes "directory")
    below sub

  -- The body of `planDir` for a depth that is allowed.
  unfoldable pub fill_dir : Bytes → (Bytes → Planner R (Unit {0})) → Planner R (Unit {0})
  fill_dir path below = do
    mode ← call g.dir_mode_gen
    append_entry (record (new_entry dir path) { mode = mode })
    b ← get_book
    metadata ← on_random (resolve_metadata g)
    put_metadata (length b.entries - 1) metadata
    n_dirs ← call g.n_dirs_in_dir_gen
    repeat (pos_part n_dirs) (plan_sub_dir path below)
    n_files ← call g.n_files_in_dir_gen
    repeat (pos_part n_files) (plan_node random g path)

  -- `planDir`; the fuel bounds how deep directories nest.
  unfoldable pub plan_dir : ℕ → ℕ → Bytes → Planner R (Unit {0})
  plan_dir zero depth path = fail out_of_fuel
  plan_dir (suc fuel) depth path = do
    max_depth ← call g.path_depth_gen
    elim (ltb_ℤ max_depth (pos (depth + 1))) [
      | true ↦ pure tt
      | false ↦ fill_dir path (plan_dir fuel (depth + 1))
    ]

  abbrev pub start_book : Book
  start_book = record {
    used = g.base_path ∷ [];
    last_path = [];
    file_paths = [];
    symlink_paths = [];
    hardlink_groups = [];
    hardlink_group_by_path = [];
    entry_limit = g.plan_entry_limit;
    path_retries = 0;
    path_collisions = 0;
    entries = [];
  }

  abbrev pub start : R → PlanState R
  start r = record { rnd = r; book = start_book }

  abbrev pub plan_fuel : ℕ
  plan_fuel = suc (pos_part g.plan_entry_limit)

  unfoldable pub finish_plan : Book → RunPlan
  unfolding materialize_hardlink_groups
  finish_plan b = record {
    entries = b.entries;
    hardlink_groups = materialize_hardlink_groups b;
    path_retries = b.path_retries;
    path_collisions = b.path_collisions;
  }

  -- `planRun` from the random source `r`; the plan is returned with an error too.
  unfoldable pub plan_run : R → Result PlanError (Unit {0}) × RunPlan
  plan_run r =
      let (result, s) = plan_dir plan_fuel 0 g.base_path (start r) in (result, finish_plan s.book)
