-- ===== src/Archive/Packages/Links.antt =====
-- Where a member's file is written when links are followed.
use patrol_x.Base.{
  ◌≡◌, refl, sym, ◌∙◌, List, [], Option, none, some, ok, >>=-eq-ok, ok_injective, raise_if,
}
use mathlib.Core.Path.{ap}
use patrol_x.Archive.Errors.{link_rejected}
use patrol_x.Archive.Disk.{FilePath, Disk, is_symlink, resolve, make_dirs}
use patrol_x.Archive.Target.{resolved}
use patrol_x.Archive.Members.{Prepared}
use patrol_x.Archive.Unpack.{Config, State, extract_members}
use patrol_x.Archive.Packages.{prepare_archive_root, made, start}

pub prepare_archive_root-eq-ok :
    (d : Disk) (p root : FilePath) (d' : Disk)
    → prepare_archive_root d p ≡ ok (root, d')
    → (resolve d p ≡ some root) × (make_dirs d [] root ≡ some d')
unfolding prepare_archive_root
prepare_archive_root-eq-ok d p root d' h =
    let (u, plain, h') = >>=-eq-ok (raise_if (is_symlink d p) link_rejected) _ h in
    let (real, found, h'') = >>=-eq-ok (resolved (resolve d p)) _ h' in
    go real (is_resolved (resolve d p) real found) h''
  where
    is_resolved : (o : Option FilePath) (r : FilePath) → resolved o ≡ ok r → o ≡ some r
    is_resolved none r e = cc
    is_resolved (some q) r e = ap some (ok_injective e)

    go :
        (real : FilePath)
        → resolve d p ≡ some real
        → made real (make_dirs d [] real) ≡ ok (root, d')
        → (resolve d p ≡ some root) × (make_dirs d [] root ≡ some d')
    go real found e = (made_ (make_dirs d [] real) refl e)
      where
        made_ :
            (o : Option Disk)
            → make_dirs d [] real ≡ o
            → made real o ≡ ok (root, d')
            → (resolve d p ≡ some root) × (make_dirs d [] root ≡ some d')
        made_ none k e = cc
        made_ (some d2) k e =
            let same : real ≡ root = ap (λ (r : FilePath × Disk). r.0) (ok_injective e) in
            let disk_ : d2 ≡ d' = ap (λ (r : FilePath × Disk). r.1) (ok_injective e) in
            (found ∙ ap some same, ap (make_dirs d []) (sym same) ∙ k ∙ ap some disk_)

-- The state of the loop behind some members.
abbrev pub reached : Config → List Prepared → Disk → State
reached c earlier d = (extract_members c earlier (start d)).1
