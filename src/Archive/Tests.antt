-- ===== src/Archive/Tests.antt =====
-- Small packages, and what the unpacker does with them.
use patrol_x.Base.{
  ℕ, ◌+◌, ◌*◌, ◌≤◌, ◌≡◌, ◌≢◌, refl, true, false, List, [], ◌∷◌, ◌++◌, Option, none, some, ok, err,
}
use patrol_x.Base.Lists.{length, All}
use patrol_x.Base.Text.{
  Text, codes, strip, replace_char, split_char, join_char, starts_with, ends_with, rstrip_chars,
}
use patrol_x.Base.Text.Chars.{Lacks}
use patrol_x.Archive.Errors.{default_limit, unsafe_path, duplicate_member, archive_corrupt}
use patrol_x.Archive.MemberPath.{slash, normalize_member_path}
use patrol_x.Archive.PathSafety.{IsSafePart, normalize_member_path-IsSafePart}
use patrol_x.Archive.Disk.{
  FilePath, dir, file, link, Disk, lookup, erase, put, bytes, is_symlink, resolve, is_relative_to,
  make_dirs,
}
use patrol_x.Archive.Target.{
  Stream, link_on_way, resolve_member_target, ensure_target_paths, copy_chunks,
  delete_partial_target,
}
use patrol_x.Archive.Members.{
  ZipInfo, TarInfo, TarType, regular, Prepared, zip_member_is_directory, validate_zip_member,
  validate_tar_member, validate_metadata,
}
use patrol_x.Archive.Members.Checks.{IsSafe, validate_zip_member-IsSafe, validate_tar_member-IsSafe}
use patrol_x.Archive.Unpack.{
  Config, State, extract_member, extract_members, locate_member, clear_target, unpack_members,
}
use patrol_x.Archive.Unpack.Accounts.{
  IsRefused, extract_members_accounts, extract_member-deletes_existing,
  extract_members-aborts_at_directory,
}
use patrol_x.Archive.ZipDirectory.{Bytes, central_directory, reject_unsafe_zip_raw_names}
use patrol_x.Archive.ZipDirectory.Scan.{
  reject_unsafe_zip_raw_names_ends, reject_unsafe_zip_raw_names-Entries, Entries,
}
use patrol_x.Archive.Packages.{start, unpack, unpack_tar, unpack_zip}
use patrol_x.Archive.Packages.Guarantees.{bytes-unpack-le}
use patrol_x.Archive.Packages.Links.{reached}

abbrev out : Text
out = codes "out"

abbrev root : FilePath
root = out ∷ []

abbrev disk : Disk
disk = ([], dir) ∷ (root, dir) ∷ (out ∷ codes "old" ∷ [], file 7) ∷ (codes "etc" ∷ [], file 3) ∷ []

abbrev config : Config
config = record {
  limit = default_limit;
  root = root;
  casefold = λ s. s;
  path_limit_check = λ p n. none;
  records_errors = true;
}

abbrev stream : List ℕ → Stream
stream chunks = record { opens = true; chunks = chunks; breaks = false }

abbrev prepared : Text → Prepared
prepared name = record {
  name = name;
  size = 5;
  parts = name ∷ [];
  canonical = name;
  stream = stream (5 ∷ []);
}

program : Unit {0}
unfolding unpack unpack_tar unpack_zip unpack_members extract_members extract_member locate_member
    clear_target validate_metadata validate_tar_member validate_zip_member zip_member_is_directory
    normalize_member_path link_on_way resolve_member_target ensure_target_paths copy_chunks
    delete_partial_target lookup erase put bytes is_symlink resolve is_relative_to make_dirs strip
    replace_char split_char join_char ends_with rstrip_chars starts_with
program = tt

tidy :
    normalize_member_path (codes " ./a\\b /c.txt")
    ≡ ok (codes "a" ∷ codes "b" ∷ codes "c.txt" ∷ [], codes "a/b/c.txt")
unfolding program
tidy = refl

climbing : normalize_member_path (codes "a/ .. /b") ≡ err unsafe_path
unfolding program
climbing = refl

-- The drive test reads the raw path only: behind "./" a drive letter passes.
hidden_drive :
    normalize_member_path (codes "./C:/x") ≡ ok (codes "C:" ∷ codes "x" ∷ [], codes "C:/x")
unfolding program
hidden_drive = refl

normalize_member_path-IsSafePart_example :
    All IsSafePart (codes "a" ∷ codes "b" ∷ codes "c.txt" ∷ [])
    × (codes "a" ∷ codes "b" ∷ codes "c.txt" ∷ [] ≢ [])
    × (codes "a/b/c.txt" ≡ join_char slash (codes "a" ∷ codes "b" ∷ codes "c.txt" ∷ []))
normalize_member_path-IsSafePart_example =
    normalize_member_path-IsSafePart (codes " ./a\\b /c.txt") (codes "a/b/c.txt")
      (codes "a" ∷ codes "b" ∷ codes "c.txt" ∷ []) tidy

abbrev tar_info : TarInfo
tar_info = record { name = codes "d/f"; type = regular; size = 5; stream = stream (5 ∷ []) }

abbrev zip_info : ZipInfo
zip_info = record {
  filename = codes "d/f";
  create_system = 3;
  external_attr = 0x81a40000;
  file_size = 5;
  stream = stream (5 ∷ []);
}

abbrev checked : Prepared
checked = record {
  name = codes "d/f";
  size = 5;
  parts = codes "d" ∷ codes "f" ∷ [];
  canonical = codes "d/f";
  stream = stream (5 ∷ []);
}

zip_checked : validate_zip_member default_limit zip_info ≡ ok (some checked)
unfolding program
zip_checked = refl

tar_checked : validate_tar_member tar_info ≡ ok (some checked)
unfolding program
tar_checked = refl

validate_zip_member-IsSafe_example :
    IsSafe checked × (zip_member_is_directory zip_info ≡ false) × (2 ≤ 12)
validate_zip_member-IsSafe_example =
    validate_zip_member-IsSafe default_limit zip_info checked zip_checked

validate_tar_member-IsSafe_example : IsSafe checked × (◌≡◌ {A = TarType} regular regular)
validate_tar_member-IsSafe_example = validate_tar_member-IsSafe tar_info checked tar_checked

abbrev members : Bytes → Option (List TarInfo)
members b = some (tar_info ∷ tar_info ∷ [])

-- The second member repeats the first.
unpacked : (unpack (λ b. none) members (λ s. s) config (codes "x.tar") [] disk).0 ≡ ok 1
unfolding program
unpacked = refl

bytes-unpack-le_example :
    ((unpack (λ b. none) members (λ s. s) config (codes "x.tar") [] disk).1.total_written
      ≤ 3 * 1024 * 1024 * 1024)
    × (bytes (unpack (λ b. none) members (λ s. s) config (codes "x.tar") [] disk).1.disk
        ≤ bytes disk
          + (unpack (λ b. none) members (λ s. s) config (codes "x.tar") [] disk).1.total_written)
unfolding lookup
bytes-unpack-le_example =
    bytes-unpack-le (λ b. none) members (λ s. s) config (codes "x.tar") [] disk refl

-- A link in the root leads out of it.
abbrev with_link : Disk
with_link = (out ∷ codes "l" ∷ [], link (codes "etc" ∷ [])) ∷ disk

abbrev earlier : State
earlier = reached config (prepared (codes "old") ∷ []) with_link

extract_members_ok :
    (extract_members config (checked ∷ prepared (codes "old") ∷ []) (start disk)).0 ≡ ok tt
unfolding program
extract_members_ok = refl

extract_members_accounts_example :
    (extract_members config (checked ∷ prepared (codes "old") ∷ []) (start disk)).1.count
      + length
          (extract_members config (checked ∷ prepared (codes "old") ∷ []) (start disk)).1.errors
    ≡ 2
extract_members_accounts_example =
    extract_members_accounts config (checked ∷ prepared (codes "old") ∷ []) (start disk)
      extract_members_ok

old-IsRefused : IsRefused config (prepared (codes "old")) (start disk) (out ∷ codes "old" ∷ [])
unfolding program
old-IsRefused = (refl, refl, refl)

extract_member-deletes_existing_example :
    (lookup
        (out ∷ codes "old" ∷ [])
        (extract_member config (prepared (codes "old")) (start disk)).1.disk
      ≡ none)
    × ((extract_member config (prepared (codes "old")) (start disk)).0 ≡ ok tt)
    × ((extract_member config (prepared (codes "old")) (start disk)).1.errors
        ≡ (duplicate_member, codes "old") ∷ [])
unfolding lookup
extract_member-deletes_existing_example =
    extract_member-deletes_existing config (prepared (codes "old")) (start disk)
      (out ∷ codes "old" ∷ []) 7 old-IsRefused refl refl

abbrev with_directory : Disk
with_directory = (out ∷ codes "a" ∷ [], dir) ∷ disk

directory-IsRefused :
    IsRefused config (prepared (codes "a")) (start with_directory) (out ∷ codes "a" ∷ [])
unfolding program
directory-IsRefused = (refl, refl, refl)

extract_members-aborts_at_directory_example :
    ((extract_members config (prepared (codes "a") ∷ checked ∷ []) (start with_directory)).0
      ≡ err archive_corrupt)
    × ((extract_members config (prepared (codes "a") ∷ checked ∷ []) (start with_directory)).1.count
        ≡ 0)
    × ((extract_members config
          (prepared (codes "a") ∷ checked ∷ [])
          (start with_directory)).1.errors
        ≡ [])
    × ((extract_members config (prepared (codes "a") ∷ checked ∷ []) (start with_directory)).1.disk
        ≡ with_directory)
unfolding lookup
extract_members-aborts_at_directory_example =
    extract_members-aborts_at_directory config (prepared (codes "a")) (checked ∷ [])
      (start with_directory) (out ∷ codes "a" ∷ []) directory-IsRefused refl refl

-- A directory with one entry, named "a", and its end record.
abbrev zip_bytes : Bytes
zip_bytes =
    (0x50 ∷ 0x4b ∷ 1 ∷ 2 ∷ 0 ∷ 0 ∷ 0 ∷ 0 ∷ 0 ∷ 0 ∷ 0 ∷ 0 ∷ 0 ∷ 0 ∷ 0 ∷ 0 ∷ 0 ∷ 0 ∷ 0 ∷ 0 ∷ [])
    ++ (0 ∷ 0 ∷ 0 ∷ 0 ∷ 0 ∷ 0 ∷ 0 ∷ 0 ∷ 1 ∷ 0 ∷ 0 ∷ 0 ∷ 0 ∷ 0 ∷ 0 ∷ 0 ∷ 0 ∷ 0 ∷ 0 ∷ 0 ∷ [])
    ++ (0 ∷ 0 ∷ 0 ∷ 0 ∷ 0 ∷ 0 ∷ b'a' ∷ [])
    ++ (0x50 ∷ 0x4b ∷ 5 ∷ 6 ∷ 0 ∷ 0 ∷ 0 ∷ 0 ∷ 1 ∷ 0 ∷ 1 ∷ 0 ∷ 47 ∷ 0 ∷ 0 ∷ 0 ∷ 0 ∷ 0 ∷ 0 ∷ 0 ∷ [])
    ++ (0 ∷ 0 ∷ [])

zip_scanned : reject_unsafe_zip_raw_names zip_bytes ≡ some (ok tt)
unfolding reject_unsafe_zip_raw_names starts_with
zip_scanned = refl

reject_unsafe_zip_raw_names_ends_example : reject_unsafe_zip_raw_names zip_bytes ≢ none
reject_unsafe_zip_raw_names_ends_example = reject_unsafe_zip_raw_names_ends zip_bytes

reject_unsafe_zip_raw_names-Entries_example :
    (cd_size : ℕ) × (cd_offset : ℕ) × (names : List Bytes) × (central_directory zip_bytes
      ≡ ok (cd_size, cd_offset))
    × Entries zip_bytes cd_offset (cd_offset + cd_size) names
    × All (Lacks 0) names
reject_unsafe_zip_raw_names-Entries_example =
    reject_unsafe_zip_raw_names-Entries zip_bytes zip_scanned
