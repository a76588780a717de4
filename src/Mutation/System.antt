-- ===== src/Mutation/System.antt =====
-- What mutate.go uses of the operating system, through `os`, `io/fs` and `unix`.
use randfiletree.Prelude.{ℕ, Bool, true, false, Bytes, Result}
use randfiletree.Prelude.Int.{ℤ}
use randfiletree.Action.{Action}

-- The error numbers that the program tells apart.
pub data Errno : Type 0 where
  not_exist permission not_supported invalid : Errno
  other : ℕ → Errno

-- `fs.FileInfo`, as far as it is read. A symbolic link is no directory and not regular.
pub data FileKind : Type 0 where
  regular directory link special : FileKind

pub record FileInfo : Type 0 where
  pub kind : FileKind
  pub size : ℤ

unfoldable pub is_directory : FileInfo → Bool
is_directory info = elim (info.kind) [
  | regular ↦ false
  | directory ↦ true
  | link ↦ false
  | special ↦ false
]

unfoldable pub is_symlink : FileInfo → Bool
is_symlink info = elim (info.kind) [
  | regular ↦ false
  | directory ↦ false
  | link ↦ true
  | special ↦ false
]

unfoldable pub is_regular : FileInfo → Bool
is_regular info = elim (info.kind) [
  | regular ↦ true
  | directory ↦ false
  | link ↦ false
  | special ↦ false
]

-- The calls of `os` and `unix` on a file system with states `F`. `open_file` gives a descriptor, for
-- appending where the flag is true, and `write` and `write_at` say how much was written.
pub record FileSystem (F : Type 0) : Type 0 where
  pub lstat : Bytes → F → Result Errno FileInfo
  pub stat : Bytes → F → Result Errno FileInfo
  pub write_file : Bytes → Bytes → ℕ → Action F Errno (Unit {0})
  pub mkdir : Bytes → ℕ → Action F Errno (Unit {0})
  pub make_symlink : Bytes → Bytes → Action F Errno (Unit {0})
  pub make_link : Bytes → Bytes → Action F Errno (Unit {0})
  pub remove_all : Bytes → Action F Errno (Unit {0})
  pub remove : Bytes → Action F Errno (Unit {0})
  pub move : Bytes → Bytes → Action F Errno (Unit {0})
  pub change_mode : Bytes → ℕ → Action F Errno (Unit {0})
  pub change_owner : Bytes → ℤ → ℤ → Action F Errno (Unit {0})
  pub resize : Bytes → ℤ → Action F Errno (Unit {0})
  pub open_file : Bytes → Bool → Action F Errno ℕ
  pub write : ℕ → Bytes → Action F Errno ℕ
  pub write_at : ℕ → Bytes → ℤ → Action F Errno ℕ
  pub close : ℕ → Action F Errno (Unit {0})
  pub lsetxattr : Bytes → Bytes → Bytes → Action F Errno (Unit {0})
  pub lremovexattr : Bytes → Bytes → Action F Errno (Unit {0})
