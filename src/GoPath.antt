-- ===== src/GoPath.antt =====
-- The functions of Go's `path` and `path/filepath` that the program calls, on slash-separated
-- paths: Clean, Join, Dir, Base and Rel. A path is its components and whether it is rooted.
use randfiletree.Prelude.{
  ℕ, Bool, true, false, Option, none, some, List, [], ◌∷◌, ◌++◌, Bytes, codes, eqb, ◌==◌,
  if◌then◌else◌, is_empty, ◌||◌, not, ◌&&◌, dec_bytes, ◌≡◌, refl,
}
use mathlib.Core.List.{reverse}
pub mod Rooted
pub mod Below

abbrev pub slash : ℕ
slash = b'/'

abbrev pub dot : Bytes
dot = codes "."

abbrev pub dot_dot : Bytes
dot_dot = codes ".."

abbrev pub root : Bytes
root = codes "/"

abbrev pub cons_head : ℕ → List Bytes → List Bytes
cons_head c [] = (c ∷ []) ∷ []
cons_head c (w ∷ ws) = (c ∷ w) ∷ ws

-- `strings.Split(path, "/")`.
unfoldable pub split_path : Bytes → List Bytes
split_path [] = [] ∷ []
split_path (c ∷ s) = let rest = split_path s in if c == slash then [] ∷ rest else cons_head c rest

-- `strings.Join(components, "/")`.
unfoldable pub join_components : List Bytes → Bytes
join_components [] = []
join_components (w ∷ []) = w
join_components (w ∷ v ∷ ws) = w ++ (slash ∷ join_components (v ∷ ws))

unfoldable pub is_rooted : Bytes → Bool
is_rooted [] = false
is_rooted (c ∷ _) = c == slash

-- What ".." does to the components kept so far, the last one first.
unfoldable pub go_up : Bool → List Bytes → List Bytes
go_up true [] = []
go_up false [] = dot_dot ∷ []
go_up rooted (w ∷ kept) = if eqb w dot_dot then dot_dot ∷ w ∷ kept else kept

unfoldable pub keep : Bool → List Bytes → Bytes → List Bytes
unfolding go_up
keep rooted kept w =
    if is_empty w || eqb w dot then kept else if eqb w dot_dot then go_up rooted kept else w ∷ kept

unfoldable pub keep_all : Bool → List Bytes → List Bytes → List Bytes
unfolding keep
keep_all rooted kept [] = kept
keep_all rooted kept (w ∷ ws) = keep_all rooted (keep rooted kept w) ws

-- The components of the cleaned path.
unfoldable pub components : Bytes → List Bytes
unfolding keep_all is_rooted split_path
components path = reverse (keep_all (is_rooted path) [] (split_path path))

unfoldable pub render : Bool → List Bytes → Bytes
unfolding join_components
render true ws = slash ∷ join_components ws
render false [] = dot
render false (w ∷ ws) = join_components (w ∷ ws)

unfoldable pub clean : Bytes → Bytes
unfolding components render is_rooted
clean path = render (is_rooted path) (components path)

-- `Join(dir, name)`: empty elements are left out.
unfoldable pub join : Bytes → Bytes → Bytes
unfolding clean
join [] [] = []
join [] (c ∷ name) = clean (c ∷ name)
join (c ∷ dir) [] = clean (c ∷ dir)
join (c ∷ dir) (d ∷ name) = clean ((c ∷ dir) ++ (slash ∷ d ∷ name))

-- The text up to the last slash, that slash included, and the text behind it.
unfoldable pub split_last : Bytes → Bytes × Bytes
split_last [] = ([], [])
split_last (c ∷ s) =
    let (dir, file) = split_last s in
    if c == slash || not (is_empty dir) then (c ∷ dir, file) else (dir, c ∷ file)

unfoldable pub dir_of : Bytes → Bytes
unfolding clean split_last
dir_of path = clean (split_last path).0

-- Without its trailing slashes.
unfoldable pub trim_slashes : Bytes → Bytes
trim_slashes [] = []
trim_slashes (c ∷ s) =
    let rest = trim_slashes s in if c == slash && is_empty rest then [] else c ∷ rest

unfoldable pub base_of : Bytes → Bytes
unfolding trim_slashes split_last
base_of [] = dot
base_of (c ∷ s) =
    let trimmed = trim_slashes (c ∷ s) in if is_empty trimmed then root else (split_last trimmed).1

unfoldable pub ups : List Bytes → List Bytes
ups [] = []
ups (w ∷ ws) = dot_dot ∷ ups ws

-- From the components of the base to those of the target; `none` when the way up is not known.
unfoldable pub rel_components : List Bytes → List Bytes → Option (List Bytes)
unfolding ups
rel_components [] target = some target
rel_components (b ∷ bs) [] = if eqb b dot_dot then none else some (ups (b ∷ bs))
rel_components (b ∷ bs) (t ∷ ts) =
    let rest = rel_components bs ts in
    if eqb b t then rest else if eqb b dot_dot then none else some (ups (b ∷ bs) ++ (t ∷ ts))

-- `filepath.Rel`; `none` is its error.
unfoldable pub rel : Bytes → Bytes → Option Bytes
unfolding rel_components components render is_rooted
rel base target =
    if not (is_rooted base) && is_rooted target || is_rooted base && not (is_rooted target)
    then none
    else elim (rel_components (components base) (components target)) [
      | none ↦ none
      | some ws ↦ some (render false ws)
    ]
