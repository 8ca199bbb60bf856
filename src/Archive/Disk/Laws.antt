-- ===== src/Archive/Disk/Laws.antt =====
-- The laws of the disk: what a look-up finds after a change, and how many bytes are taken up.
use patrol_x.Base.{
  ◌+◌, ◌≤◌, ◌≡◌, ◌↔◌, refl, true, false, List, [], ◌∷◌, ◌++◌, none, some, if◌then◌else◌, arith,
}
use patrol_x.Base.Text.{Text, text_eq_iff}
use patrol_x.Archive.Disk.{
  FilePath, Node, dir, Disk, path_eq, lookup, erase, put, node_bytes, bytes, make_dirs,
  is_relative_to,
}

pub path_eq_iff : (p q : FilePath) → (path_eq p q ≡ true) ↔ (p ≡ q)
path_eq_iff [] [] = (λ _. refl, λ _. refl)
path_eq_iff [] (b ∷ q) = (λ h. cc, λ h. cc)
path_eq_iff (a ∷ p) [] = (λ h. cc, λ h. cc)
path_eq_iff (a ∷ p) (b ∷ q) = (
  λ h. ground (arith, (text_eq_iff a b).0, (path_eq_iff p q).0),
  λ h. ground (arith, (text_eq_iff a b).1, (path_eq_iff p q).1),
)

pub lookup-erase :
    (p q : FilePath) (d : Disk) → lookup q (erase p d) ≡ (if path_eq p q then none else lookup q d)
unfolding lookup erase
lookup-erase p q [] = ground arith
lookup-erase p q ((r, n) ∷ d) =
    ground (arith, lookup-erase p q d, path_eq_iff r p, path_eq_iff r q, path_eq_iff p q)

pub lookup-put :
    (p q : FilePath) (n : Node) (d : Disk)
    → lookup q (put p n d) ≡ (if path_eq p q then some n else lookup q d)
unfolding put lookup
lookup-put p q n d = ground (arith, lookup-erase p q d)

pub bytes-erase-le : (p : FilePath) (d : Disk) → bytes (erase p d) ≤ bytes d
unfolding bytes erase
bytes-erase-le p [] = omega arith
bytes-erase-le p ((q, n) ∷ d) = ground (arith, bytes-erase-le p d)

pub bytes-put-le : (p : FilePath) (n : Node) (d : Disk) → bytes (put p n d) ≤ bytes d + node_bytes n
unfolding bytes put
bytes-put-le p n d = omega (arith, bytes-erase-le p d)

pub bytes-make_dirs-le :
    (d : Disk) (base : FilePath) (rest : List Text) (d' : Disk)
    → make_dirs d base rest ≡ some d'
    → bytes d' ≤ bytes d
unfolding make_dirs
bytes-make_dirs-le d base [] d' h = ground arith
bytes-make_dirs-le d base (part ∷ rest) d' h = ground (
  arith,
  bytes-make_dirs-le d (base ++ part ∷ []) rest d',
  bytes-make_dirs-le (put (base ++ part ∷ []) dir d) (base ++ part ∷ []) rest d',
  bytes-put-le (base ++ part ∷ []) dir d,
)

pub is_relative_to-append :
    (root rest q : FilePath)
    → is_relative_to root q ≡ false
    → is_relative_to (root ++ rest) q ≡ false
unfolding is_relative_to
is_relative_to-append [] rest q h = cc
is_relative_to-append (a ∷ root) rest [] h = refl
is_relative_to-append (a ∷ root) rest (b ∷ q) h = ground (arith, is_relative_to-append root rest q)

pub is_relative_to-append_self : (root rest : FilePath) → is_relative_to root (root ++ rest) ≡ true
unfolding is_relative_to
is_relative_to-append_self [] rest = refl
is_relative_to-append_self (a ∷ root) rest =
    ground (arith, is_relative_to-append_self root rest, text_eq_iff a a)

-- A path outside `root` is none of the paths below it.
pub path_eq_outside :
    (root rest q : FilePath) → is_relative_to root q ≡ false → path_eq (root ++ rest) q ≡ false
unfolding is_relative_to
path_eq_outside [] rest q h = cc
path_eq_outside (a ∷ root) rest [] h = refl
path_eq_outside (a ∷ root) rest (b ∷ q) h = ground (arith, path_eq_outside root rest q)

pub lookup-make_dirs_outside :
    (d : Disk) (base : FilePath) (rest : List Text) (d' : Disk) (q : FilePath)
    → make_dirs d base rest ≡ some d'
    → is_relative_to base q ≡ false
    → lookup q d' ≡ lookup q d
unfolding make_dirs
lookup-make_dirs_outside d base [] d' q h out = ground arith
lookup-make_dirs_outside d base (part ∷ rest) d' q h out = ground (
  arith,
  lookup-make_dirs_outside d (base ++ part ∷ []) rest d' q,
  lookup-make_dirs_outside (put (base ++ part ∷ []) dir d) (base ++ part ∷ []) rest d' q,
  lookup-put (base ++ part ∷ []) q dir d,
  path_eq_outside base (part ∷ []) q,
  is_relative_to-append base (part ∷ []) q,
)
