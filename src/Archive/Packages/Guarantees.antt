-- ===== src/Archive/Packages/Guarantees.antt =====
-- The budget of unpack_zip and unpack_tar.
use patrol_x.Base.{
  ℕ, ◌+◌, ◌≤◌, ◌≡◌, inl, inr, Bool-cases, refl, List, [], Option, some, arith, Result, ok, err,
}
use patrol_x.Base.Text.{Text}
use patrol_x.Archive.Errors.{ErrorCode, Checked}
use patrol_x.Archive.Disk.{FilePath, dir, Disk, lookup, bytes}
use patrol_x.Archive.Disk.Laws.{bytes-make_dirs-le}
use patrol_x.Archive.Disk.Directories.{lookup-make_dirs}
use patrol_x.Archive.ZipDirectory.{Bytes, reject_unsafe_zip_raw_names}
use patrol_x.Archive.Members.{
  ZipInfo, TarInfo, zip_member_is_directory, is_tar_directory, validate_zip_member,
  validate_tar_member,
}
use patrol_x.Archive.Members.Checks.{validate_zip_member-IsSafe, validate_tar_member-IsSafe}
use patrol_x.Archive.Unpack.{Config, State, Outcome}
use patrol_x.Archive.Unpack.Budget.{IsBounded, Charged}
use patrol_x.Archive.Unpack.Totals.{unpack_members-Charged}
use patrol_x.Archive.Packages.Links.{prepare_archive_root-eq-ok}
use patrol_x.Archive.Packages.{
  prepare_archive_root, start, scan_verdict, listed, try_first, unpack_zip, unpack_tar, unpack,
  is_zip_name, is_tar_name,
}

-- A whole call on a disk `d`: it counted no more than the limit, and the disk grew by no more than
-- what it counted.
pub record Fits (c : Config) (d : Disk) (o : Outcome ℕ) : Type 0 where
  pub within : o.1.total_written ≤ c.limit.max_total_bytes
  pub grown : bytes o.1.disk ≤ bytes d + o.1.total_written

-- What `_prepare_archive_root` gives the loops to start from.
record IsReady (c : Config) (d : Disk) (root : FilePath) (d' : Disk) : Type 0 where
  rooted : lookup root d' ≡ some dir
  spared : bytes d' ≤ bytes d

prepare_archive_root-IsReady :
    (c : Config) (d : Disk) (root : FilePath) (d' : Disk)
    → lookup [] d ≡ some dir
    → prepare_archive_root d c.root ≡ ok (root, d')
    → IsReady c d root d'
prepare_archive_root-IsReady c d root d' top h =
    let (found, done) = prepare_archive_root-eq-ok d c.root root d' h in
    record {
      rooted = lookup-make_dirs d [] root d' done top;
      spared = bytes-make_dirs-le d [] root d' done;
    }

Fits-start :
    {c : Config} {d : Disk} {root : FilePath} {d' : Disk} (r : Result ErrorCode ℕ)
    → IsReady c d root d'
    → Fits c d (r, start d')
Fits-start {c} {d} {root} r ready = record {
  within = omega arith;
  grown = omega (arith, ready.spared);
}

Fits-loops :
    {c : Config} {d : Disk} {root : FilePath} {d' : Disk} (o : Outcome ℕ)
    → IsReady c d root d'
    → Charged (record c { root = root }) (start d') o.1
    → Fits c d o
Fits-loops {c} {d} {root} {d'} o ready h = record {
  within = h.bounded.fits;
  grown = omega (arith, ready.spared, h.charged);
}

try_first-Fits :
    {A : Type 0} (c : Config) (d : Disk) (r : Checked A) (s : State) (next : A → Outcome ℕ)
    → ((code : ErrorCode) → Fits c d (err code, s))
    → ((a : A) → r ≡ ok a → Fits c d (next a))
    → Fits c d (try_first r s next)
try_first-Fits c d (err code) s next h k = h code
try_first-Fits c d (ok a) s next h k = k a refl

Fits-untouched : (c : Config) (d : Disk) (code : ErrorCode) → Fits c d (err code, start d)
Fits-untouched c d code = record { within = omega arith; grown = omega arith }

IsBounded-start :
    {c : Config} {d : Disk} {root : FilePath} {d' : Disk}
    → IsReady c d root d'
    → IsBounded (record c { root = root }) (start d')
IsBounded-start ready = record { rooted = ready.rooted; fits = omega arith }

module _ (c : Config) (archive : Bytes) (d : Disk) (top : lookup [] d ≡ some dir) where
  zip-Fits : (infolist : Bytes → Option (List ZipInfo)) → Fits c d (unpack_zip infolist c archive d)
  unfolding unpack_zip
  zip-Fits infolist =
      try_first-Fits c d (prepare_archive_root d c.root) (start d) _ (Fits-untouched c d)
        λ (root, d') e.
          let ready : IsReady c d root d' = prepare_archive_root-IsReady c d root d' top e in
          try_first-Fits c d (scan_verdict (reject_unsafe_zip_raw_names archive)) (start d') _
            (λ code. Fits-start (err code) ready)
            λ _ scanned.
              try_first-Fits c d (listed (infolist archive)) (start d') _
                (λ code. Fits-start (err code) ready)
                λ members read. Fits-loops _ ready (
                  unpack_members-Charged (validate_zip_member c.limit) (λ m. m.filename)
                    (λ m p h. (validate_zip_member-IsSafe c.limit m p h).0.filled)
                    (record c { root = root }) zip_member_is_directory members (start d')
                    (IsBounded-start ready))

  tar-Fits :
      (getmembers : Bytes → Option (List TarInfo)) → Fits c d (unpack_tar getmembers c archive d)
  unfolding unpack_tar
  tar-Fits getmembers =
      try_first-Fits c d (prepare_archive_root d c.root) (start d) _ (Fits-untouched c d)
        λ (root, d') e.
          let ready : IsReady c d root d' = prepare_archive_root-IsReady c d root d' top e in
          try_first-Fits c d (listed (getmembers archive)) (start d') _
            (λ code. Fits-start (err code) ready)
            λ members read. Fits-loops _ ready (
              unpack_members-Charged validate_tar_member (λ m. m.name)
                (λ m p h. (validate_tar_member-IsSafe m p h).0.filled) (record c { root = root })
                (λ m. is_tar_directory m.type) members (start d') (IsBounded-start ready))

module _ (infolist : Bytes → Option (List ZipInfo)) (getmembers : Bytes → Option (List TarInfo))
    (lower : Text → Text) (c : Config) (archive_name : Text) (archive : Bytes) (d : Disk)
    (top : lookup [] d ≡ some dir) where
  unpack-Fits : Fits c d (unpack infolist getmembers lower c archive_name archive d)
  unfolding unpack
  unpack-Fits = elim (Bool-cases (is_zip_name (lower archive_name))) [
    | inl zip ↦ rw zip (zip-Fits c archive d top infolist)
    | inr not_zip ↦ elim (Bool-cases (is_tar_name (lower archive_name))) [
      | inl tar ↦ rw (not_zip, tar) (tar-Fits c archive d top getmembers)
      | inr neither ↦ rw (not_zip, neither) (Fits-untouched c d _)
    ]
  ]

-- Whatever the package holds and whatever is wrong with it, the bytes that `unpack` has counted when
-- it ends, from which those of the failed members are taken off again, are no more than
-- `max_total_bytes`, and the files that it leaves on the disk are together no larger than those
-- before it and the counted bytes. The root of the disk is taken to be a directory.
pub bytes-unpack-le :
    (infolist : Bytes → Option (List ZipInfo)) (getmembers : Bytes → Option (List TarInfo))
    (lower : Text → Text) (c : Config) (archive_name : Text) (archive : Bytes) (d : Disk)
    → lookup [] d ≡ some dir
    → ((unpack infolist getmembers lower c archive_name archive d).1.total_written
        ≤ c.limit.max_total_bytes)
      × (bytes (unpack infolist getmembers lower c archive_name archive d).1.disk
          ≤ bytes d + (unpack infolist getmembers lower c archive_name archive d).1.total_written)
bytes-unpack-le infolist getmembers lower c archive_name archive d top =
    let fits = unpack-Fits infolist getmembers lower c archive_name archive d top in
    (fits.within, fits.grown)
