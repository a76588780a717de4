-- ===== src/Tests/Mutations.antt =====
-- mutate.go on a small file system of directories.
use randfiletree.Prelude.{
  Bool, true, false, Option, none, some, List, [], ◌∷◌, Bytes, codes, Result, ok, err, ◌≡◌, refl,
  dec_bytes, is_empty, has_prefix, trim_prefix,
}
use randfiletree.Prelude.Dict.{member, lookup}
use randfiletree.Prelude.Int.{pos}
use randfiletree.Action.{fail, fail_if, pure, lift, and_then, ◌>>=◌, ◌>>◌}
use randfiletree.GoPath.{render, components, clean, rel, dir_of, join, split_path}
use randfiletree.Plan.Metadata.{trim_space, trim_left, is_space, contains_byte}
use randfiletree.Operation.{
  Operation, create_dir, rename, normalize_operation, is_operation_kind, normalize_with_mode,
  normalize_path_as, normalize_operation_path, validate_mode, normalize_rename,
}
use randfiletree.Fault.{FaultInjector, validate_rules, new_fault_injector, exec_before, before}
use randfiletree.Mutation.{
  dir, file, MutationNode, Nodes, MutationState, has_parent_directory, is_dir,
}
use randfiletree.Mutation.Draft.{new_operation}
use randfiletree.Mutation.System.{
  FileSystem, FileInfo, Errno, not_exist, invalid, directory, is_symlink, is_directory,
}
use randfiletree.Mutation.Apply.{
  already_exists, resolve_path, wrap_errors, look, operation_path_to_fs, ensure_path_within_base,
  ensure_no_symlink_parents, check_parents, require_vacant, ensure_parent_directory, path_exists,
  call,
}
use randfiletree.Mutation.Execute.{operation_kind_name, apply_operation, apply_kind, apply_create}
use randfiletree.Mutation.Loop.{
  operation_failed, failed, OperationApplyOptions, apply_operations, apply_operations_with_options,
  check_base, validate_apply_options, apply_from, apply_step, drop,
}
use randfiletree.Mutation.Parents.{ensure_no_symlink_parents-IsRealDirectory}
use randfiletree.Mutation.Resume.{StoppedAt, resume, apply_operations_with_options-StoppedAt}
use randfiletree.GoPath.Rooted.{Plain}
use randfiletree.Mutation.Virtual.{apply_virtual_operation}
use randfiletree.Mutation.Tree.{effect}
use randfiletree.Mutation.Refine.{view}
use randfiletree.Mutation.Shape.{WellFormed, Carried, apply_virtual_operation-Carried}

-- The directories that there are.
abbrev look_up : Bytes → List Bytes → Result Errno FileInfo
look_up path f = elim (member path f) [
  | true ↦ ok (record { kind = directory; size = pos 0 })
  | false ↦ err not_exist
]

abbrev directories : FileSystem (List Bytes)
directories = record {
  lstat = look_up;
  stat = look_up;
  write_file = λ path content mode. fail invalid;
  mkdir = λ path mode f. (ok tt, path ∷ f);
  make_symlink = λ target path. fail invalid;
  make_link = λ source path. fail invalid;
  remove_all = λ path. fail invalid;
  remove = λ path. fail invalid;
  move = λ source path. fail invalid;
  change_mode = λ path mode. fail invalid;
  change_owner = λ path uid gid. fail invalid;
  resize = λ path size. fail invalid;
  open_file = λ path appending. fail invalid;
  write = λ fd content. fail invalid;
  write_at = λ fd content offset. fail invalid;
  close = λ fd. fail invalid;
  lsetxattr = λ path name value. fail invalid;
  lremovexattr = λ path name. fail invalid;
}

abbrev never : Bytes → Bytes → Option Bool
never pattern path = some false

abbrev make_x : Operation
make_x = new_operation create_dir (codes "/x")

abbrev make_y : Operation
make_y = new_operation create_dir (codes "/x/y")

abbrev from_start : OperationApplyOptions
from_start = record { start_index = pos 0; fault_profile = [] }

made_x :
    apply_operations never directories (codes "/b") (make_x ∷ []) (codes "/b" ∷ [])
    ≡ (ok tt, codes "/b/x" ∷ codes "/b" ∷ [])
unfolding apply_operations apply_operations_with_options trim_space trim_left is_space
    validate_apply_options validate_rules check_base member dec_bytes is_symlink is_directory
    new_fault_injector apply_from apply_step normalize_operation is_operation_kind
    normalize_with_mode normalize_path_as normalize_operation_path contains_byte clean validate_mode
    exec_before before operation_kind_name apply_operation resolve_path lift wrap_errors look
    operation_path_to_fs ensure_path_within_base ensure_no_symlink_parents check_parents rel dir_of
    join split_path trim_prefix has_prefix apply_kind apply_create require_vacant
    ensure_parent_directory path_exists call fail_if pure and_then ◌>>=◌ ◌>>◌ drop fail
made_x = refl

base_there : check_base never directories (codes "/b") (codes "/b/x" ∷ codes "/b" ∷ []) ≡ ok tt
unfolding check_base member dec_bytes is_symlink is_directory
base_there = refl

base_named : is_empty (trim_space (codes "/b")) ≡ false
unfolding trim_space trim_left is_space
base_named = refl

resume_example :
    apply_operations never directories (codes "/b") (make_x ∷ make_y ∷ []) (codes "/b" ∷ [])
    ≡ apply_operations_with_options never directories
        (codes "/b")
        (make_x ∷ make_y ∷ [])
        (record { start_index = pos 1; fault_profile = [] })
        (codes "/b/x" ∷ codes "/b" ∷ [])
resume_example =
    resume never directories (codes "/b") (make_x ∷ []) (make_y ∷ []) (codes "/b" ∷ [])
      (codes "/b/x" ∷ codes "/b" ∷ []) base_named made_x base_there

-- The second of two equal operations fails.
abbrev twice : List Operation
twice = make_x ∷ make_x ∷ []

twice_fails :
    (apply_operations_with_options never directories
      (codes "/b")
      twice
      from_start
      (codes "/b" ∷ [])).0
    ≡ err (operation_failed 1 make_x (failed (already_exists (codes "/x"))))
unfolding apply_operations apply_operations_with_options trim_space trim_left is_space
    validate_apply_options validate_rules check_base member dec_bytes is_symlink is_directory
    new_fault_injector apply_from apply_step normalize_operation is_operation_kind
    normalize_with_mode normalize_path_as normalize_operation_path contains_byte clean validate_mode
    exec_before before operation_kind_name apply_operation resolve_path lift wrap_errors look
    operation_path_to_fs ensure_path_within_base ensure_no_symlink_parents check_parents rel dir_of
    join split_path trim_prefix has_prefix apply_kind apply_create require_vacant
    ensure_parent_directory path_exists call fail_if pure and_then ◌>>=◌ ◌>>◌ drop fail
twice_fails = refl

stopped_example :
    (injector : Option FaultInjector) × (new_fault_injector never [] ≡ ok injector)
    × StoppedAt never directories
        (codes "/b")
        0
        (drop 0 twice)
        injector
        (codes "/b" ∷ [])
        1
        make_x
        (failed (already_exists (codes "/x")))
        (apply_operations_with_options never directories
          (codes "/b")
          twice
          from_start
          (codes "/b" ∷ [])).1
stopped_example =
    apply_operations_with_options-StoppedAt never directories (codes "/b") twice from_start
      (codes "/b" ∷ []) 1 make_x (failed (already_exists (codes "/x"))) twice_fails

abbrev directory_node : MutationNode
directory_node = record { type_id = dir; size = pos 0; xattrs = some [] }

abbrev small_nodes : Nodes
small_nodes =
    (codes "/", directory_node)
    ∷ (codes "/a", directory_node)
    ∷ (codes "/a/f", record { type_id = file; size = pos 3; xattrs = some [] })
    ∷ []

abbrev small_state : MutationState
small_state = record { nodes = small_nodes; name_seq = 1; indexes = none }

name_a : Plain (codes "a")
unfolding dec_bytes
name_a = record {
  some_text = refl;
  not_dot = refl;
  not_dot_dot = refl;
  allowed = ((refl, refl), tt);
}

name_f : Plain (codes "f")
unfolding dec_bytes
name_f = record {
  some_text = refl;
  not_dot = refl;
  not_dot_dot = refl;
  allowed = ((refl, refl), tt);
}

small_nodes-WellFormed : WellFormed small_nodes
unfolding clean render components dec_bytes has_parent_directory dir_of lookup is_dir
small_nodes-WellFormed = record {
  placed = (
    record { plain = tt; rendered = refl },
    (
      record { plain = (name_a, tt); rendered = refl },
      (record { plain = (name_a, (name_f, tt)); rendered = refl }, tt),
    ),
  );
  parented = (refl, (refl, (refl, tt)));
}

abbrev move_a : Operation
move_a = record (new_operation rename (codes "/a")) { destination = codes "/b" }

move_a_normal : normalize_operation move_a ≡ ok move_a
unfolding normalize_operation normalize_rename normalize_path_as is_operation_kind
    normalize_operation_path clean trim_space trim_left is_space contains_byte dec_bytes
move_a_normal = refl

carried_example :
    Carried small_state
      (apply_virtual_operation move_a small_state)
      (effect move_a (view small_nodes))
carried_example =
    apply_virtual_operation-Carried move_a move_a small_state move_a_normal small_nodes-WellFormed

name_b : Plain (codes "b")
unfolding dec_bytes
name_b = record {
  some_text = refl;
  not_dot = refl;
  not_dot_dot = refl;
  allowed = ((refl, refl), tt);
}

name_x : Plain (codes "x")
unfolding dec_bytes
name_x = record {
  some_text = refl;
  not_dot = refl;
  not_dot_dot = refl;
  allowed = ((refl, refl), tt);
}

name_y : Plain (codes "y")
unfolding dec_bytes
name_y = record {
  some_text = refl;
  not_dot = refl;
  not_dot_dot = refl;
  allowed = ((refl, refl), tt);
}

abbrev base_and_x : List Bytes
base_and_x = codes "/b/x" ∷ codes "/b" ∷ []

parents_there :
    ensure_no_symlink_parents directories
      (render true (codes "b" ∷ []))
      (render true (codes "b" ∷ codes "x" ∷ codes "y" ∷ []))
      base_and_x
    ≡ ok tt
unfolding render clean rel dir_of join split_path ensure_path_within_base ensure_no_symlink_parents
    check_parents member dec_bytes is_symlink is_directory has_prefix
parents_there = refl

parents_example :
    (info : FileInfo) × (look_up (render true (codes "b" ∷ codes "x" ∷ [])) base_and_x ≡ ok info)
    × (is_directory info ≡ true)
    × (is_symlink info ≡ false)
parents_example =
    ensure_no_symlink_parents-IsRealDirectory directories base_and_x (codes "b" ∷ []) [] []
      (codes "x") (codes "y") (name_b, tt) (name_x, tt) name_y parents_there
