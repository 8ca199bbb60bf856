-- ===== src/Archive/Disk/Directories.antt =====
-- Directories stay, and `mkdir` leaves the directory that it was asked for.
use mathlib.Core.List.{append-nil, append_assoc}
use patrol_x.Base.{◌≤◌, ◌≡◌, ◌≢◌, ◌⊎◌, refl, ap, false, List, [], ◌∷◌, ◌++◌, none, some, arith, inl}
use patrol_x.Base.Text.{Text}
use patrol_x.Archive.Disk.{
  FilePath, Node, dir, Disk, path_eq, lookup, erase, put, parent, bytes, make_dirs,
}
use patrol_x.Archive.Disk.Laws.{path_eq_iff, lookup-put, bytes-erase-le}

pub parent-append :
    (root parts : FilePath) → parts ≢ [] → parent (root ++ parts) ≡ root ++ parent parts
parent-append [] parts h = refl
parent-append (a ∷ []) [] h = absurd (h refl)
parent-append (a ∷ []) (b ∷ parts) h = refl
parent-append (a ∷ b ∷ root) parts h = ap (λ p. a ∷ p) (parent-append (b ∷ root) parts h)

pub path_eq-parent : (p : FilePath) → p ≢ [] → path_eq p (parent p) ≡ false
path_eq-parent [] h = absurd (h refl)
path_eq-parent (a ∷ []) h = refl
path_eq-parent (a ∷ b ∷ p) h = ground (arith, path_eq-parent (b ∷ p) (λ e. cc))

pub append-ne-nil : (root parts : FilePath) → parts ≢ [] → root ++ parts ≢ []
append-ne-nil [] parts h e = h e
append-ne-nil (a ∷ root) parts h e = cc

pub path_eq-append_self :
    (root parts : FilePath) → parts ≢ [] → path_eq (root ++ parts) root ≡ false
path_eq-append_self [] [] h = absurd (h refl)
path_eq-append_self [] (a ∷ parts) h = refl
path_eq-append_self (a ∷ root) parts h = ground (arith, path_eq-append_self root parts h)

pub lookup-make_dirs_dir :
    (d : Disk) (base : FilePath) (rest : List Text) (d' : Disk) (q : FilePath)
    → make_dirs d base rest ≡ some d'
    → lookup q d ≡ some dir
    → lookup q d' ≡ some dir
unfolding make_dirs
lookup-make_dirs_dir d base [] d' q h k = ground arith
lookup-make_dirs_dir d base (part ∷ rest) d' q h k = ground (
  arith,
  lookup-make_dirs_dir d (base ++ part ∷ []) rest d' q,
  lookup-make_dirs_dir (put (base ++ part ∷ []) dir d) (base ++ part ∷ []) rest d' q,
  lookup-put (base ++ part ∷ []) q dir d,
  path_eq_iff (base ++ part ∷ []) q,
)

pub lookup-make_dirs :
    (d : Disk) (base : FilePath) (rest : List Text) (d' : Disk)
    → make_dirs d base rest ≡ some d'
    → lookup base d ≡ some dir
    → lookup (base ++ rest) d' ≡ some dir
unfolding make_dirs
lookup-make_dirs d base [] d' h k = rw append-nil (ground arith)
lookup-make_dirs d base (part ∷ rest) d' h k = rw (← append_assoc base (part ∷ []) rest) (
    ground (
      arith,
      lookup-make_dirs d (base ++ part ∷ []) rest d',
      lookup-make_dirs (put (base ++ part ∷ []) dir d) (base ++ part ∷ []) rest d',
      lookup-put (base ++ part ∷ []) (base ++ part ∷ []) dir d,
      path_eq_iff (base ++ part ∷ []) (base ++ part ∷ []),
    ))

pub bytes-erase-put-le :
    (p : FilePath) (n : Node) (d : Disk) → bytes (erase p (put p n d)) ≤ bytes d
unfolding bytes erase put
bytes-erase-put-le p n d =
    ground (arith, path_eq_iff p p, bytes-erase-le p (erase p d), bytes-erase-le p d)

-- `mkdir` changes nothing that was there.
pub lookup-make_dirs_cases :
    (d : Disk) (base : FilePath) (rest : List Text) (d' : Disk) (q : FilePath)
    → make_dirs d base rest ≡ some d'
    → (lookup q d' ≡ lookup q d) ⊎ (lookup q d ≡ none) × (lookup q d' ≡ some dir)
unfolding make_dirs
lookup-make_dirs_cases d base [] d' q h = inl (ground arith)
lookup-make_dirs_cases d base (part ∷ rest) d' q h = ground (
  arith,
  lookup-make_dirs_cases d (base ++ part ∷ []) rest d' q,
  lookup-make_dirs_cases (put (base ++ part ∷ []) dir d) (base ++ part ∷ []) rest d' q,
  lookup-make_dirs_dir (put (base ++ part ∷ []) dir d) (base ++ part ∷ []) rest d' q,
  lookup-put (base ++ part ∷ []) q dir d,
  path_eq_iff (base ++ part ∷ []) q,
)
