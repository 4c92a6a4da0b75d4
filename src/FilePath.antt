-- ===== src/FilePath.antt =====
-- What the client uses of Rust's `std::path` on POSIX systems, on the bytes of a path, and
-- src/utils/path.rs.
pub mod Segments
pub mod Parents
pub mod Joins
mod Tests
use remotefs_rs_ftp.Base.{
  ℕ, ◌≡◌, Bool, true, false, ◌&&◌, ◌||◌, List, [], ◌∷◌, ◌++◌, Option, none, some, ◌==◌,
  if◌then◌else◌,
}
use remotefs_rs_ftp.Text.{Bytes, bytes_eq}

abbrev pub FilePath : Type 0
FilePath = Bytes

pub data Component : Type 0 where
  root_dir cur_dir parent_dir : Component
  normal : Bytes → Component

abbrev pub push_byte : ℕ → List Bytes → List Bytes
push_byte c [] = (c ∷ []) ∷ []
push_byte c (s ∷ ss) = (c ∷ s) ∷ ss

-- The parts between the slashes, the empty ones too.
unfoldable pub segments : Bytes → List Bytes
segments [] = [] ∷ []
segments (c ∷ cs) = let rest = segments cs in if c == b'/' then [] ∷ rest else push_byte c rest

unfoldable pub join_segments : List Bytes → Bytes
join_segments [] = []
join_segments (s ∷ []) = s
join_segments (s ∷ t ∷ ss) = s ++ b'/' ∷ join_segments (t ∷ ss)

abbrev pub dot : Bytes
dot = b'.' ∷ []

abbrev pub dot_dot : Bytes
dot_dot = b'.' ∷ b'.' ∷ []

-- Empty parts and dots are no components, but for a leading dot of a relative path.
unfoldable pub is_skipped : Bytes → Bool
is_skipped s = bytes_eq s [] || bytes_eq s dot

unfoldable pub body_components : List Bytes → List Component
unfolding is_skipped
body_components [] = []
body_components (s ∷ ss) =
    let rest = body_components ss in
    if is_skipped s then rest else (if bytes_eq s dot_dot then parent_dir else normal s) ∷ rest

abbrev pub is_absolute : FilePath → Bool
is_absolute [] = false
is_absolute (c ∷ cs) = c == b'/'

relative_components : List Bytes → List Component
unfolding body_components
relative_components [] = []
relative_components (s ∷ ss) =
    if bytes_eq s dot then cur_dir ∷ body_components ss else body_components (s ∷ ss)

-- `Path::components`.
unfoldable pub components : FilePath → List Component
unfolding body_components relative_components segments
components p =
    if is_absolute p
    then root_dir ∷ body_components (segments p)
    else relative_components (segments p)

unfoldable pub component_eq : Component → Component → Bool
component_eq root_dir root_dir = true
component_eq cur_dir cur_dir = true
component_eq parent_dir parent_dir = true
component_eq (normal s) (normal t) = bytes_eq s t
component_eq _ _ = false

unfoldable pub components_eq : List Component → List Component → Bool
unfolding component_eq
components_eq [] [] = true
components_eq (c ∷ cs) (d ∷ ds) = component_eq c d && components_eq cs ds
components_eq _ _ = false

-- Rust compares paths by their components.
unfoldable pub path_eq : FilePath → FilePath → Bool
unfolding components_eq components
path_eq p q = components_eq (components p) (components q)

unfoldable pub last_component : List Component → Option Component
last_component [] = none
last_component (c ∷ []) = some c
last_component (c ∷ d ∷ ds) = last_component (d ∷ ds)

-- `Path::file_name`.
unfoldable pub file_name : FilePath → Option Bytes
unfolding last_component components
file_name p = elim (last_component (components p)) [ some (normal s) ↦ some s | _ ↦ none ]

unfoldable pub trim_right : List Bytes → List Bytes
unfolding is_skipped
trim_right [] = []
trim_right (s ∷ ss) = elim (trim_right ss) [
  | [] ↦ if is_skipped s then [] else s ∷ []
  | t ∷ ts ↦ s ∷ t ∷ ts
]

unfoldable pub drop_last : List Bytes → List Bytes
drop_last [] = []
drop_last (s ∷ []) = []
drop_last (s ∷ t ∷ ss) = s ∷ drop_last (t ∷ ss)

-- The parent's parts, from the parts of a body.
unfoldable pub parent_segments : List Bytes → Option (List Bytes)
unfolding trim_right drop_last
parent_segments ss = elim (trim_right ss) [
  | [] ↦ none
  | t ∷ ts ↦ some (trim_right (drop_last (t ∷ ts)))
]

relative_parent : List Bytes → Option FilePath
unfolding parent_segments join_segments
relative_parent [] = none
relative_parent (s ∷ ss) =
    if bytes_eq s dot
    then elim (parent_segments ss) [ none ↦ some [] | some ts ↦ some (join_segments (s ∷ ts)) ]
    else elim (parent_segments (s ∷ ss)) [ none ↦ none | some ts ↦ some (join_segments ts) ]

-- `Path::parent`: the bytes before the last component, with no trailing separator.
unfoldable pub parent : FilePath → Option FilePath
unfolding parent_segments join_segments segments relative_parent
parent [] = none
parent (c ∷ cs) =
    if c == b'/'
    then elim (parent_segments (segments cs)) [
      | none ↦ none
      | some ts ↦ some (b'/' ∷ join_segments ts)
    ]
    else relative_parent (segments (c ∷ cs))

ends_with_slash : FilePath → Bool
ends_with_slash [] = true
ends_with_slash (c ∷ []) = c == b'/'
ends_with_slash (c ∷ d ∷ ds) = ends_with_slash (d ∷ ds)

-- `Path::join`. An empty base gets no separator.
unfoldable pub join : FilePath → FilePath → FilePath
unfolding ends_with_slash
join p q = if is_absolute q then q else if ends_with_slash p then p ++ q else p ++ b'/' ∷ q

unfoldable pub absolutize : FilePath → FilePath → FilePath
unfolding join
absolutize wrkdir target = if is_absolute target then target else join wrkdir target
