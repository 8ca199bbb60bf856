-- ===== src/Archive/Disk.antt =====
-- The disk that app/core/archive.py writes to, as an association list from absolute paths to
-- what stands there, with the calls of pathlib that the program makes.
pub mod Laws
pub mod Directories
use patrol_x.Base.{
  ℕ, zero, suc, ◌+◌, Bool, true, false, ◌&&◌, List, [], ◌∷◌, ◌++◌, Option, none, some,
  if◌then◌else◌,
}
use patrol_x.Base.Text.{Text, text_eq}
use patrol_x.Archive.MemberPath.{dot, dot_dot}

abbrev pub FilePath : Type 0
FilePath = List Text

-- A regular file has its size, a symbolic link the path that it leads to.
pub data Node : Type 0 where
  dir : Node
  file : ℕ → Node
  link : FilePath → Node

abbrev pub Disk : Type 0
Disk = List (FilePath × Node)

abbrev pub path_eq : FilePath → FilePath → Bool
path_eq [] [] = true
path_eq (a ∷ p) (b ∷ q) = text_eq a b && path_eq p q
path_eq _ _ = false

unfoldable pub lookup : FilePath → Disk → Option Node
lookup p [] = none
lookup p ((q, n) ∷ d) = if path_eq q p then some n else lookup p d

unfoldable pub erase : FilePath → Disk → Disk
erase p [] = []
erase p ((q, n) ∷ d) = let rest = erase p d in if path_eq q p then rest else (q, n) ∷ rest

unfoldable pub put : FilePath → Node → Disk → Disk
put p n d = (p, n) ∷ erase p d

-- `path.parent`: the parent of the root is the root.
abbrev pub parent : FilePath → FilePath
parent [] = []
parent (a ∷ []) = []
parent (a ∷ b ∷ p) = a ∷ parent (b ∷ p)

abbrev pub link_node? : Option Node → Bool
link_node? (some (link t)) = true
link_node? _ = false

abbrev pub dir_node? : Option Node → Bool
dir_node? (some dir) = true
dir_node? _ = false

-- `path.is_symlink()`
unfoldable pub is_symlink : Disk → FilePath → Bool
unfolding lookup
is_symlink d p = link_node? (lookup p d)

-- `path.resolve()`, component by component. The fuel bounds how many links are followed: beyond it
-- they are taken to lead in a circle, where `resolve` raises (`none`).
unfoldable pub resolve_from : ℕ → Disk → FilePath → FilePath → Option FilePath
resolve_from zero d base rest = none
resolve_from (suc fuel) d base [] = some base
resolve_from (suc fuel) d base (part ∷ rest) = elim (text_eq part dot) [
  | true ↦ resolve_from (suc fuel) d base rest
  | false ↦ elim (text_eq part dot_dot) [
    | true ↦ resolve_from (suc fuel) d (parent base) rest
    | false ↦ elim (lookup (base ++ part ∷ []) d) [
      | some (link t) ↦ resolve_from fuel d [] (t ++ rest)
      | _ ↦ resolve_from (suc fuel) d (base ++ part ∷ []) rest
    ]
  ]
]

abbrev pub max_links : ℕ
max_links = 40

unfoldable pub resolve : Disk → FilePath → Option FilePath
unfolding resolve_from
resolve d p = resolve_from max_links d [] p

-- `path.is_relative_to(root)`
unfoldable pub is_relative_to : FilePath → FilePath → Bool
is_relative_to [] p = true
is_relative_to (a ∷ root) [] = false
is_relative_to (a ∷ root) (b ∷ p) = text_eq a b && is_relative_to root p

-- `path.mkdir(parents=True, exist_ok=True)` below `base`, which is there: `none` is an OSError. A link
-- on the way is taken for one, also where it leads to a directory.
unfoldable pub make_dirs : Disk → FilePath → List Text → Option Disk
make_dirs d base [] = some d
make_dirs d base (part ∷ rest) =
    let here = base ++ part ∷ [] in
    let on = make_dirs d here rest in
    let created = make_dirs (put here dir d) here rest in
    elim (lookup here d) [ none ↦ created | some dir ↦ on | _ ↦ none ]

-- The bytes that the regular files take up.
abbrev pub node_bytes : Node → ℕ
node_bytes (file size) = size
node_bytes _ = 0

unfoldable pub bytes : Disk → ℕ
bytes [] = 0
bytes ((p, n) ∷ d) = node_bytes n + bytes d
