-- ===== src/Mutation/Draft.antt =====
-- mutate.go: the choice of the next operation, `planNextOperation`.
use randfiletree.Prelude.{
  ℕ, zero, suc, ◌+◌, ◌-◌, ◌%◌, Bool, true, false, none, some, List, [], ◌∷◌, ◌++◌, Bytes, codes, ok,
  err, length, get_elem?, eqb, ◌==◌, ◌&&◌, ◌||◌, if◌then◌else◌, is_empty, sort_strings,
}
use randfiletree.Prelude.Dict.{lookup, is_key, member}
use randfiletree.Prelude.Digits.{decimal, hexadecimal, pad_zeros}
use randfiletree.Prelude.Int.{ℤ, pos, pos_part, ltb_ℤ, leb_ℤ}
use randfiletree.Action.{Action, ◌>>=◌, ◌>>◌, pure, fail, fail_if}
use randfiletree.GoPath.{clean, join, root, dir_of, rel}
use randfiletree.Plan.Types.{Random}
use randfiletree.Operation.{
  Operation, create_file, create_dir, create_symlink, create_hardlink, delete, rename, chmod, chown,
  truncate, append, overwrite_range, set_xattr, remove_xattr,
}
use randfiletree.Mutation.{
  MutationNode, Nodes, MutationState, Indexes, is_dir, xattr_names, rebuild_path_indexes,
  is_child_mutation_path, add_int64,
}

-- What stops the choice. The first two are `errOperationPreconditions`, without and with context;
-- `intn_panic` and `index_panic` are panics.
pub data DraftError : Type 0 where
  preconditions no_directory : DraftError
  collision_exhausted rename_collision_exhausted : DraftError
  rel_failed : Bytes → Bytes → DraftError
  unsupported : ℕ → DraftError
  intn_panic index_panic : DraftError
  of_kind : ℕ → DraftError → DraftError

-- `errors.Is(err, errOperationPreconditions)`.
unfoldable pub is_preconditions : DraftError → Bool
is_preconditions preconditions = true
is_preconditions no_directory = true
is_preconditions collision_exhausted = false
is_preconditions rename_collision_exhausted = false
is_preconditions (rel_failed _ _) = false
is_preconditions (unsupported _) = false
is_preconditions intn_panic = false
is_preconditions index_panic = false
is_preconditions (of_kind _ e) = is_preconditions e

-- The random source and the state that the choice works on.
pub record Session (R : Type 0) : Type 0 where
  pub rnd : R
  pub state : MutationState

abbrev pub Draft : Type 0 → Type 0 → Type 0
Draft R A = Action (Session R) DraftError A

-- `os.Getuid()` and `os.Getgid()`.
pub record User : Type 0 where
  pub uid : ℤ
  pub gid : ℤ

abbrev pub max_mutation_path_collision_retries : ℕ
max_mutation_path_collision_retries = 128

-- An `Operation{Kind: kind, Path: path}` literal.
abbrev pub new_operation : ℕ → Bytes → Operation
new_operation kind path = record {
  kind = kind;
  path = path;
  destination = [];
  source_path = [];
  link_target = [];
  mode = 0;
  uid = pos 0;
  gid = pos 0;
  size = pos 0;
  offset = pos 0;
  content = [];
  xattr_name = [];
  xattr_value = [];
}

unfoldable pub without_root : List Bytes → List Bytes
without_root [] = []
without_root (p ∷ ps) = if eqb p root then ps else p ∷ ps

unfoldable pub sorted_node_xattrs : Bytes → Nodes → List Bytes
sorted_node_xattrs path nodes = elim (lookup path nodes) [
  | none ↦ []
  | some node ↦ sort_strings (xattr_names node)
]

module _ {R : Type 0} where
  unfoldable pub get_nodes : Draft R Nodes
  get_nodes s = (ok s.state.nodes, s)

  unfoldable pub get_indexes : Draft R Indexes
  get_indexes s =
      let (ix, state) = rebuild_path_indexes s.state in (ok ix, record s { state = state })

  unfoldable pub sorted_paths : Bool → Draft R (List Bytes)
  sorted_paths include_root = do
    ix ← get_indexes
    pure (if include_root then ix.all else without_root ix.all)

  unfoldable pub sorted_dir_paths : Draft R (List Bytes)
  sorted_dir_paths = do ix ← get_indexes; pure ix.dirs

  unfoldable pub sorted_file_paths : Draft R (List Bytes)
  sorted_file_paths = do ix ← get_indexes; pure ix.files

  unfoldable pub sorted_paths_with_xattrs : Bool → Draft R (List Bytes)
  sorted_paths_with_xattrs include_root = do
    ix ← get_indexes
    pure (if include_root then ix.with_xattrs else without_root ix.with_xattrs)

  -- `state.nameSeq++`, and the number before it.
  unfoldable pub take_name_seq : Draft R ℕ
  take_name_seq s = (
    ok s.state.name_seq,
    record s { state = record (s.state) { name_seq = s.state.name_seq + 1 } },
  )

  -- A node is there where its path was taken from the indexes.
  unfoldable pub node_at : Bytes → Draft R MutationNode
  node_at path = do
    nodes ← get_nodes
    elim (lookup path nodes) [ none ↦ fail index_panic | some node ↦ pure node ]

module _ {R : Type 0} (random : Random R) where
  -- `r.Intn(n)`, which panics on `n <= 0`.
  unfoldable pub intn : ℤ → Draft R ℕ
  intn n s =
      let (i, r) = random.intn s.rnd (pos_part n) in
      if leb_ℤ n (pos 0) then (err intn_panic, s) else (ok i, record s { rnd = r })

  -- `paths[r.Intn(len(paths))]`.
  unfoldable pub choose : List Bytes → Draft R Bytes
  choose paths = do
    i ← intn (pos (length paths))
    elim (get_elem? paths i) [ none ↦ fail index_panic | some p ↦ pure p ]

  -- The same, where no path is a failed precondition.
  unfoldable pub choose_some : List Bytes → Draft R Bytes
  choose_some paths = fail_if (is_empty paths) preconditions >> choose paths

  unfoldable pub next_mutation_name : Draft R Bytes
  next_mutation_name = do
    seq ← take_name_seq
    n ← intn (pos 256)
    pure (codes "mut_" ++ pad_zeros 4 (decimal seq) ++ codes "_" ++ pad_zeros 2 (hexadecimal n))

  -- The loop of `planUniquePath`, with the attempts that are left.
  unfoldable pub try_unique_path : ℕ → List Bytes → Draft R Bytes
  try_unique_path zero dirs = fail collision_exhausted
  try_unique_path (suc attempts) dirs = do
    parent ← choose dirs
    name ← next_mutation_name
    nodes ← get_nodes
    elim (eqb (clean (join parent name)) root || is_key (clean (join parent name)) nodes) [
      | true ↦ try_unique_path attempts dirs
      | false ↦ pure (clean (join parent name))
    ]

  unfoldable pub plan_unique_path : Draft R Bytes
  plan_unique_path = do
    dirs ← sorted_dir_paths
    fail_if (is_empty dirs) no_directory
    try_unique_path max_mutation_path_collision_retries dirs

  unfoldable pub random_data_length : ℤ → Draft R ℕ
  random_data_length max = if leb_ℤ max (pos 1) then pure 1 else do n ← intn max; pure (n + 1)

  unfoldable pub random_bytes : ℕ → Draft R Bytes
  random_bytes size s = let (b, r) = random.read s.rnd size in (ok b, record s { rnd = r })

  -- `randomBytes(r, randomDataLength(r, max))`.
  unfoldable pub random_data : ℤ → Draft R Bytes
  random_data max = do size ← random_data_length max; random_bytes size

  unfoldable pub random_file_mode : Draft R ℕ
  random_file_mode = do n ← intn (pos 128); pure (384 + n)

  unfoldable pub random_dir_mode : Draft R ℕ
  random_dir_mode = do n ← intn (pos 64); pure (448 + n)

  unfoldable pub draft_file : ℤ → Draft R Operation
  draft_file max_data_size = do
    path ← plan_unique_path
    mode ← random_file_mode
    content ← random_data max_data_size
    pure (record (new_operation create_file path) { mode = mode; content = content })

  unfoldable pub draft_dir : Draft R Operation
  draft_dir = do
    path ← plan_unique_path
    mode ← random_dir_mode
    pure (record (new_operation create_dir path) { mode = mode })

  unfoldable pub draft_symlink : Draft R Operation
  draft_symlink = do
    targets ← sorted_paths false
    fail_if (is_empty targets) preconditions
    path ← plan_unique_path
    target ← choose targets
    elim (rel (dir_of path) target) [
      | none ↦ fail (rel_failed path target)
      | some link_target ↦
          pure (record (new_operation create_symlink path) { link_target = link_target })
    ]

  unfoldable pub draft_hardlink : Draft R Operation
  draft_hardlink = do
    files ← sorted_file_paths
    fail_if (is_empty files) preconditions
    path ← plan_unique_path
    source ← choose files
    pure (record (new_operation create_hardlink path) { source_path = source })

  unfoldable pub draft_delete : Draft R Operation
  draft_delete = do
    paths ← sorted_paths false
    path ← choose_some paths
    pure (new_operation delete path)

  -- The loop of the rename case, with the attempts that are left.
  unfoldable pub try_destination : ℕ → Bytes → MutationNode → Draft R Operation
  try_destination zero source node = fail rename_collision_exhausted
  try_destination (suc attempts) source node = do
    destination ← plan_unique_path
    elim (is_dir node && is_child_mutation_path destination source) [
      | true ↦ try_destination attempts source node
      | false ↦ pure (record (new_operation rename source) { destination = destination })
    ]

  unfoldable pub draft_rename : Draft R Operation
  draft_rename = do
    sources ← sorted_paths false
    source ← choose_some sources
    node ← node_at source
    try_destination max_mutation_path_collision_retries source node

  unfoldable pub draft_chmod : Draft R Operation
  draft_chmod = do
    paths ← sorted_paths false
    path ← choose_some paths
    file_mode ← random_file_mode
    node ← node_at path
    mode ← if is_dir node then random_dir_mode else pure file_mode
    pure (record (new_operation chmod path) { mode = mode })

  unfoldable pub draft_chown : User → Draft R Operation
  draft_chown user = do
    paths ← sorted_paths false
    fail_if (is_empty paths) preconditions
    fail_if (ltb_ℤ user.uid (pos 0)) preconditions
    fail_if (ltb_ℤ user.gid (pos 0)) preconditions
    path ← choose paths
    pure (record (new_operation chown path) { uid = user.uid; gid = user.gid })

  unfoldable pub draft_truncate : ℤ → Draft R Operation
  draft_truncate max_data_size = do
    files ← sorted_file_paths
    path ← choose_some files
    node ← node_at path
    size ←
        intn
          (add_int64 (if ltb_ℤ max_data_size node.size then node.size else max_data_size) (pos 1))
    pure (record (new_operation truncate path) { size = pos size })

  unfoldable pub draft_append : ℤ → Draft R Operation
  draft_append max_data_size = do
    files ← sorted_file_paths
    path ← choose_some files
    content ← random_data max_data_size
    pure (record (new_operation append path) { content = content })

  -- `fileSize` is positive behind the first test, so that `fileSize - offset` is on numbers.
  unfoldable pub draft_overwrite : ℤ → Draft R Operation
  draft_overwrite max_data_size = do
    files ← sorted_file_paths
    path ← choose_some files
    node ← node_at path
    fail_if (leb_ℤ node.size (pos 0)) preconditions
    offset ← intn node.size
    let remaining = pos (pos_part node.size - offset)
    fail_if (leb_ℤ remaining (pos 0)) preconditions
    content ← random_data (if ltb_ℤ remaining max_data_size then remaining else max_data_size)
    pure (record (new_operation overwrite_range path) { offset = pos offset; content = content })

  unfoldable pub random_xattr_name : Draft R Bytes
  random_xattr_name = do n ← intn (pos 1000); pure (codes "user.mut_" ++ pad_zeros 3 (decimal n))

  -- The loop over candidates, with the attempts that are left.
  unfoldable pub try_xattr_name : ℕ → Bytes → List Bytes → Draft R Bytes
  try_xattr_name zero name taken = pure name
  try_xattr_name (suc attempts) name taken = do
    candidate ← random_xattr_name
    elim (member candidate taken) [
      | true ↦ try_xattr_name attempts name taken
      | false ↦ pure candidate
    ]

  unfoldable pub draft_set_xattr : ℤ → Draft R Operation
  draft_set_xattr max_data_size = do
    paths ← sorted_paths true
    path ← choose_some paths
    node ← node_at path
    first ← random_xattr_name
    name ← elim (node.xattrs) [
      | none ↦ pure first
      | some taken ↦ try_xattr_name max_mutation_path_collision_retries first taken
    ]
    value ← random_data max_data_size
    pure (record (new_operation set_xattr path) { xattr_name = name; xattr_value = value })

  unfoldable pub draft_remove_xattr : Draft R Operation
  draft_remove_xattr = do
    paths ← sorted_paths_with_xattrs true
    path ← choose_some paths
    nodes ← get_nodes
    name ← choose_some (sorted_node_xattrs path nodes)
    pure (record (new_operation remove_xattr path) { xattr_name = name })

  unfoldable pub plan_operation : User → ℤ → ℕ → Draft R Operation
  plan_operation user max_data_size kind =
      if kind == create_file
      then draft_file max_data_size
      else if kind == create_dir
      then draft_dir
      else if kind == create_symlink
      then draft_symlink
      else if kind == create_hardlink
      then draft_hardlink
      else if kind == delete
      then draft_delete
      else if kind == rename
      then draft_rename
      else if kind == chmod
      then draft_chmod
      else if kind == chown
      then draft_chown user
      else if kind == truncate
      then draft_truncate max_data_size
      else if kind == append
      then draft_append max_data_size
      else if kind == overwrite_range
      then draft_overwrite max_data_size
      else if kind == set_xattr
      then draft_set_xattr max_data_size
      else if kind == remove_xattr
      then draft_remove_xattr
      else fail (unsupported kind)

  -- The loop of `planNextOperation` over the kinds that are left, and the last failed
  -- precondition.
  unfoldable pub try_kinds : User → ℤ → List ℕ → DraftError → Draft R Operation
  try_kinds user max_data_size [] last s = (err last, s)
  try_kinds user max_data_size (kind ∷ kinds) last s =
      let (result, s') = plan_operation user max_data_size kind s in
      let rest = try_kinds user max_data_size kinds in
      elim result [
        | ok op ↦ (ok op, s')
        | err e ↦
            if is_preconditions e then rest (of_kind kind e) s' else (err (of_kind kind e), s')
      ]

-- `allowedKinds[(start+i)%len(allowedKinds)]` for `i` from 0 on: `left` of them.
unfoldable pub kinds_from : ℕ → ℕ → List ℕ → List ℕ
kinds_from zero start kinds = []
kinds_from (suc left) start kinds =
    elim (get_elem? kinds (start % length kinds)) [ none ↦ [] | some k ↦ k ∷ [] ]
    ++ kinds_from left (suc start) kinds

module _ {R : Type 0} (random : Random R) where
  unfoldable pub plan_next_operation : User → ℤ → List ℕ → Draft R Operation
  plan_next_operation user max_data_size allowed = do
    start ← intn random (pos (length allowed))
    try_kinds random user max_data_size (kinds_from (length allowed) start allowed) preconditions
