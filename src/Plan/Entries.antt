-- ===== src/Plan/Entries.antt =====
-- plan.go: planning one entry of a directory.
use randfiletree.Prelude.{
  ℕ, zero, suc, ◌+◌, ◌%◌, Bool, true, false, Option, none, some, List, [], ◌∷◌, Bytes, codes,
  length, get_elem?, ltb, ◌==◌, ◌||◌, not, if◌then◌else◌, is_empty,
}
use randfiletree.Prelude.Int.{ℤ, pos, ltb_ℤ}
use randfiletree.Action.{◌>>=◌, ◌>>◌, pure, fail, fail_if}
use randfiletree.GoPath.{rel, dir_of, base_of}
use randfiletree.Plan.Types.{
  Random, Generator, PlannedEntry, new_entry, file, symlink, hardlink, special, nil_call,
  index_panic, invalid_symlink_strategy, unsupported_symlink_strategy, cycle_too_short, rel_failed,
  invalid_special_type, device_numbers_required, device_major_negative, device_minor_negative, Gen,
  FailingGen,
}
use randfiletree.Plan.State.{
  Planner, get_book, modify, draw, on_random, call, call_failing, append_entry,
  plan_unique_path_with_byte, register_file_path, register_symlink_path, set_last_path,
  pick_file_path, pick_symlink_path, register_hardlink,
}
use randfiletree.Plan.Content.{plan_file_content_pattern}
use randfiletree.Plan.Metadata.{resolve_metadata}
use randfiletree.Plan.Config.{is_nil}

abbrev pub symlink_strategy_absolute : ℕ
symlink_strategy_absolute = 1

abbrev pub symlink_strategy_relative : ℕ
symlink_strategy_relative = 2

abbrev pub symlink_strategy_dangling : ℕ
symlink_strategy_dangling = 3

abbrev pub symlink_strategy_self_referential : ℕ
symlink_strategy_self_referential = 4

abbrev pub symlink_strategy_chained : ℕ
symlink_strategy_chained = 5

abbrev pub symlink_strategy_cycle : ℕ
symlink_strategy_cycle = 6

abbrev pub default_symlink_cycle_length : ℕ
default_symlink_cycle_length = 2

unfoldable pub is_symlink_strategy : ℕ → Bool
is_symlink_strategy s =
    s == symlink_strategy_absolute
    || s == symlink_strategy_relative
    || s == symlink_strategy_dangling
    || s == symlink_strategy_self_referential
    || s == symlink_strategy_chained
    || s == symlink_strategy_cycle

abbrev pub special_file_type_fifo : ℕ
special_file_type_fifo = 1

abbrev pub special_file_type_socket : ℕ
special_file_type_socket = 2

abbrev pub special_file_type_char_device : ℕ
special_file_type_char_device = 3

abbrev pub special_file_type_block_device : ℕ
special_file_type_block_device = 4

unfoldable pub is_special_file_type : ℕ → Bool
is_special_file_type t =
    t == special_file_type_fifo
    || t == special_file_type_socket
    || t == special_file_type_char_device
    || t == special_file_type_block_device

unfoldable pub is_special_device_type : ℕ → Bool
is_special_device_type t = t == special_file_type_char_device || t == special_file_type_block_device

module _ {R : Type 0} (random : Random R) (g : Generator R) where
  unfoldable pub plan_file_path : Bytes → Bytes → Planner R Bytes
  plan_file_path dir entry_kind =
      plan_unique_path_with_byte dir g.file_name_gen g.file_name_len_gen g.byte_file_name_gen
        entry_kind

  unfoldable pub append_symlink : Bytes → Bytes → Planner R (Unit {0})
  append_symlink path target = do
    append_entry (record (new_entry symlink path) { link_target = target })
    modify (register_symlink_path path)

  unfoldable pub plan_symlink : Bytes → Bytes → Planner R (Unit {0})
  plan_symlink dir target = do
    path ← plan_file_path dir (codes "symlink")
    append_symlink path target

  unfoldable pub or_rel_error : Bytes → Option Bytes → Planner R Bytes
  or_rel_error target none = fail (rel_failed target)
  or_rel_error target (some t) = pure t

  unfoldable pub reserve_cycle : ℕ → Bytes → Planner R (List Bytes)
  reserve_cycle zero dir = pure []
  reserve_cycle (suc n) dir = do
    path ← plan_file_path dir (codes "symlink cycle")
    paths ← reserve_cycle n dir
    pure (path ∷ paths)

  -- `paths[i]`.
  unfoldable pub at_index : List Bytes → ℕ → Planner R Bytes
  at_index all i = elim (get_elem? all i) [ none ↦ fail index_panic | some q ↦ pure q ]

  -- The second loop of `planSymlinkCycle`: the entries from index `i` on of all the paths.
  unfoldable pub append_cycle : List Bytes → ℕ → List Bytes → Planner R (Unit {0})
  append_cycle all i [] = pure tt
  append_cycle all i (path ∷ paths) = do
    next ← at_index all ((i + 1) % length all)
    target ← or_rel_error path (rel (dir_of path) next)
    append_symlink path target
    append_cycle all (suc i) paths

  unfoldable pub plan_symlink_cycle : Bytes → ℕ → Planner R (Unit {0})
  plan_symlink_cycle dir len = do
    fail_if (ltb len 2) (cycle_too_short len)
    paths ← reserve_cycle len dir
    append_cycle paths 0 paths

  -- A symlink to the target, if there is one.
  unfoldable pub plan_symlink_to : Bytes → Option Bytes → Planner R Bool
  plan_symlink_to dir none = pure false
  plan_symlink_to dir (some target) = plan_symlink dir target >> pure true

  unfoldable pub plan_relative : Bytes → Option Bytes → Planner R Bool
  plan_relative dir none = pure false
  plan_relative dir (some target) = do
    rel_target ← or_rel_error target (rel dir target)
    plan_symlink dir rel_target
    pure true

  unfoldable pub plan_self_referential : Bytes → Planner R Bool
  plan_self_referential dir = do
    path ← plan_file_path dir (codes "self-referential symlink")
    append_symlink path (base_of path)
    pure true

  unfoldable pub plan_dangling : Bytes → Planner R Bool
  plan_dangling dir = do
    target ← plan_file_path dir (codes "dangling symlink target")
    plan_symlink dir target
    pure true

  unfoldable pub plan_symlink_strategy : Bytes → ℕ → Planner R Bool
  plan_symlink_strategy dir strategy =
      if strategy == symlink_strategy_absolute
      then (do target ← pick_file_path random; plan_symlink_to dir target)
      else if strategy == symlink_strategy_relative
      then (do target ← pick_file_path random; plan_relative dir target)
      else if strategy == symlink_strategy_dangling
      then plan_dangling dir
      else if strategy == symlink_strategy_self_referential
      then plan_self_referential dir
      else if strategy == symlink_strategy_chained
      then (do target ← pick_symlink_path random; plan_symlink_to dir target)
      else if strategy == symlink_strategy_cycle
      then plan_symlink_cycle dir default_symlink_cycle_length >> pure true
      else fail (unsupported_symlink_strategy strategy)

  unfoldable pub plan_explicit_strategy : Bytes → Gen R ℕ → Planner R Bool
  plan_explicit_strategy dir strategy_gen = do
    strategy ← draw strategy_gen
    fail_if (not (is_symlink_strategy strategy)) (invalid_symlink_strategy strategy)
    plan_symlink_strategy dir strategy

  unfoldable pub plan_last_path : Bytes → Planner R Bool
  plan_last_path dir = do
    b ← get_book
    if is_empty b.last_path then pure false else plan_symlink dir b.last_path >> pure true

  unfoldable pub plan_wanted_symlink : Bytes → Option (Gen R ℕ) → Planner R Bool
  plan_wanted_symlink dir (some strategy_gen) = plan_explicit_strategy dir strategy_gen
  plan_wanted_symlink dir none = plan_last_path dir

  unfoldable pub try_plan_symlink : Bytes → Planner R Bool
  try_plan_symlink dir = do
    wanted ← call g.symlink_prob_gen
    if not wanted then pure false else plan_wanted_symlink dir g.symlink_strategy_gen

  -- A probability generator that may be nil: `false` then.
  unfoldable pub should_plan : Option (Gen R Bool) → Planner R Bool
  should_plan none = pure false
  should_plan (some p) = draw p

  unfoldable pub plan_hardlink_to : Bytes → Bytes → Planner R Bool
  plan_hardlink_to dir target = do
    path ← plan_file_path dir (codes "hardlink")
    append_entry (record (new_entry hardlink path) { link_target = target })
    modify (λ b. register_hardlink target path (set_last_path path (register_file_path path b)))
    pure true

  unfoldable pub plan_picked_hardlink : Bytes → Option Bytes → Planner R Bool
  plan_picked_hardlink dir none = pure false
  plan_picked_hardlink dir (some target) = plan_hardlink_to dir target

  unfoldable pub try_plan_hardlink : Bytes → Planner R Bool
  try_plan_hardlink dir = do
    wanted ← should_plan g.hardlink_prob_gen
    if not wanted
        then pure false
        else (do target ← pick_file_path random; plan_picked_hardlink dir target)

  unfoldable pub next_special_file_type : Option (Gen R ℕ) → Planner R ℕ
  next_special_file_type none = pure 0
  next_special_file_type (some t) = draw t

  -- The device numbers of a device, and zeros for the other types.
  unfoldable pub device_numbers : ℕ → Option (Gen R ℤ) → Option (Gen R ℤ) → Planner R (ℤ × ℤ)
  device_numbers t (some major_gen) (some minor_gen) =
      if is_special_device_type t
      then (do
        major ← draw major_gen
        minor ← draw minor_gen
        fail_if (ltb_ℤ major (pos 0)) (device_major_negative major)
        fail_if (ltb_ℤ minor (pos 0)) (device_minor_negative minor)
        pure (major, minor))
      else pure (pos 0, pos 0)
  device_numbers t major_gen minor_gen =
      if is_special_device_type t then fail device_numbers_required else pure (pos 0, pos 0)

  unfoldable pub plan_special_file : Bytes → Planner R Bool
  plan_special_file dir = do
    t ← next_special_file_type g.special_file_type_gen
    fail_if (not (is_special_file_type t)) (invalid_special_type t)
    path ← plan_file_path dir (codes "special file")
    mode ← call g.file_mode_gen
    numbers ← device_numbers t g.special_device_major_gen g.special_device_minor_gen
    append_entry (record (new_entry special path) {
      mode = mode;
      special_file_type = t;
      special_device_major = numbers.0;
      special_device_minor = numbers.1;
    })
    modify (set_last_path path)
    pure true

  unfoldable pub try_plan_special_file : Bytes → Planner R Bool
  try_plan_special_file dir = do
    wanted ← should_plan g.special_file_prob_gen
    if not wanted then pure false else plan_special_file dir

  unfoldable pub generate_data : Option (FailingGen R Bytes) → Planner R Bytes
  generate_data none = fail nil_call
  generate_data (some gen) = call_failing gen

  -- The entry of a file with its content, pattern or data.
  unfoldable pub fill_content : PlannedEntry → Planner R PlannedEntry
  fill_content entry =
      if is_nil g.content_pattern_gen || is_nil g.content_logical_size_gen
      then (do bytes ← generate_data g.data_gen; pure (record entry { content_data = bytes }))
      else do
        content ← on_random (plan_file_content_pattern random g)
        pure (record entry { content_pattern = some content })

  -- What follows a file: with no strategy configured, perhaps a relative symlink to it.
  unfoldable pub plan_companion : Bytes → Bytes → Planner R (Unit {0})
  plan_companion dir path = if not (is_nil g.symlink_strategy_gen) then pure tt else do
    wanted ← should_plan g.symlink_rel_prob_gen
    if not wanted
        then pure tt
        else (do target ← or_rel_error path (rel dir path); plan_symlink dir target)

  unfoldable pub plan_file : Bytes → Planner R (Unit {0})
  plan_file dir = do
    path ← plan_file_path dir (codes "file")
    mode ← call g.file_mode_gen
    entry ← fill_content (record (new_entry file path) { mode = mode })
    metadata ← on_random (resolve_metadata g)
    append_entry (record entry { metadata = metadata })
    modify (λ b. set_last_path path (register_file_path path b))
    plan_companion dir path

  -- One round of the loop over the files of a directory.
  unfoldable pub plan_node : Bytes → Planner R (Unit {0})
  plan_node dir = do
    planned_symlink ← try_plan_symlink dir
    if planned_symlink then pure tt else do
      planned_hardlink ← try_plan_hardlink dir
      if planned_hardlink then pure tt else do
        planned_special ← try_plan_special_file dir
        if planned_special then pure tt else plan_file dir
