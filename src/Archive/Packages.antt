-- ===== src/Archive/Packages.antt =====
-- unpack_zip, unpack_tar, is_archive and unpack of app/core/archive.py. What zipfile and tarfile
-- read from a package is a parameter: the list of its members, or none where they raise.
pub mod Guarantees
pub mod Links
use patrol_x.Base.{
  ℕ, ◌≡◌, Bool, true, false, not, ◌&&◌, ◌||◌, List, [], ◌∷◌, ◌++◌, Option, none, some,
  if◌then◌else◌, Result, ok, err, ◌>>=◌, ◌>>◌, raise_if,
}
use patrol_x.Base.Text.{Text, codes, ends_with}
use patrol_x.Archive.Errors.{
  ErrorCode, UnpackLimit, Checked, archive_corrupt, link_rejected, os_error,
}
use patrol_x.Archive.Disk.{FilePath, Disk, is_symlink, resolve, make_dirs}
use patrol_x.Archive.Target.{resolved}
use patrol_x.Archive.ZipDirectory.{Bytes, reject_unsafe_zip_raw_names}
use patrol_x.Archive.Members.{
  ZipInfo, TarInfo, zip_member_is_directory, is_tar_directory, validate_zip_member,
  validate_tar_member,
}
use patrol_x.Archive.Unpack.{Config, State, Outcome, unpack_members}

abbrev pub made : FilePath → Option Disk → Checked (FilePath × Disk)
made root none = err os_error
made root (some d) = ok (root, d)

-- _prepare_archive_root: the resolved root and the disk on which it is a directory.
unfoldable pub prepare_archive_root : Disk → FilePath → Checked (FilePath × Disk)
prepare_archive_root d root = do
  raise_if (is_symlink d root) link_rejected
  real ← resolved (resolve d root)
  made real (make_dirs d [] real)

abbrev pub start : Disk → State
start d = record { disk = d; count = 0; total_written = 0; seen_members = []; errors = [] }

-- The scan always has a verdict.
abbrev pub scan_verdict : Option (Checked (Unit {0})) → Checked (Unit {0})
scan_verdict none = err archive_corrupt
scan_verdict (some r) = r

abbrev pub listed : {M : Type 0} → Option (List M) → Checked (List M)
listed none = err archive_corrupt
listed (some members) = ok members

-- A step before the loops, and what follows it.
abbrev pub try_first : {A B : Type 0} → Checked A → State → (A → Outcome B) → Outcome B
try_first (err code) s next = (err code, s)
try_first (ok a) s next = next a

module _ (infolist : Bytes → Option (List ZipInfo)) where
  unfoldable pub unpack_zip : Config → Bytes → Disk → Outcome ℕ
  unfolding prepare_archive_root unpack_members
  unpack_zip c archive d = try_first (prepare_archive_root d c.root) (start d) λ (root, d').
      try_first (scan_verdict (reject_unsafe_zip_raw_names archive)) (start d') λ _.
        try_first (listed (infolist archive)) (start d') λ members.
          unpack_members zip_member_is_directory (validate_zip_member c.limit) (λ m. m.filename)
            (record c { root = root }) members (start d')

module _ (getmembers : Bytes → Option (List TarInfo)) where
  unfoldable pub unpack_tar : Config → Bytes → Disk → Outcome ℕ
  unfolding prepare_archive_root unpack_members
  unpack_tar c archive d = try_first (prepare_archive_root d c.root) (start d) λ (root, d').
      try_first (listed (getmembers archive)) (start d') λ members.
        unpack_members (λ m. is_tar_directory m.type) validate_tar_member (λ m. m.name)
          (record c { root = root }) members (start d')

-- The tests on a lower-case name: `unpack` and `peek_members` share them.
abbrev pub is_zip_name : Text → Bool
is_zip_name name = ends_with (codes ".zip") name

abbrev pub is_tar_name : Text → Bool
is_tar_name name =
    ends_with (codes ".tar.gz") name
    || ends_with (codes ".tgz") name
    || ends_with (codes ".tar") name

module _ (infolist : Bytes → Option (List ZipInfo)) (getmembers : Bytes → Option (List TarInfo))
    (lower : Text → Text) where
  unfoldable pub unpack : Config → Text → Bytes → Disk → Outcome ℕ
  unpack c archive_name archive d =
      if is_zip_name (lower archive_name)
      then unpack_zip infolist c archive d
      else if is_tar_name (lower archive_name)
      then unpack_tar getmembers c archive d
      else (err archive_corrupt, start d)
