-- ===== src/Archive/Members.antt =====
-- Members of ZIP and TAR packages and their checks before anything is written:
-- _validate_zip_member, _validate_tar_member and the size checks of app/core/archive.py.
pub mod Checks
use patrol_x.Base.{
  ℕ, ◌+◌, ◌/◌, ◌%◌, ◌^◌, Bool, true, false, not, ◌&&◌, ◌||◌, List, [], ◌∷◌, Option, none, some,
  if◌then◌else◌, ltb, ◌==◌, Result, ok, err, ◌>>=◌, ◌>>◌, raise_if,
}
use patrol_x.Base.Lists.{length}
use patrol_x.Base.Text.{Text, codes, ends_with, rstrip_chars}
use patrol_x.Archive.Errors.{
  UnpackLimit, Checked, unsafe_path, link_rejected, file_too_large, member_path_depth_exceeded,
}
use patrol_x.Archive.MemberPath.{normalize_member_path}
use patrol_x.Archive.Target.{Stream}

-- What zipfile.ZipInfo says of a member.
pub record ZipInfo : Type 0 where
  pub filename : Text
  pub create_system : ℕ
  pub external_attr : ℕ
  pub file_size : ℕ
  pub stream : Stream

-- The type that tarfile.TarInfo reports: isreg, isdir, issym, islnk, or none of them.
pub data TarType : Type 0 where
  regular directory symbolic_link hard_link other : TarType

pub record TarInfo : Type 0 where
  pub name : Text
  pub type : TarType
  pub size : ℕ
  pub stream : Stream

-- A file member that passed its path checks: what `prepared_members` holds.
pub record Prepared : Type 0 where
  pub name : Text
  pub size : ℕ
  pub parts : List Text
  pub canonical : Text
  pub stream : Stream

-- `stat.S_IFMT` of the mode in the upper half of `external_attr`, shifted down by twelve bits.
abbrev pub unix_type : ZipInfo → ℕ
unix_type member = member.external_attr / 2 ^ 16 % 2 ^ 16 / 2 ^ 12

abbrev pub directory_type : ℕ
directory_type = 4

abbrev pub regular_type : ℕ
regular_type = 8

abbrev pub link_type : ℕ
link_type = 10

unfoldable pub zip_member_is_directory : ZipInfo → Bool
zip_member_is_directory member =
    ends_with (codes "/") member.filename
    || member.create_system == 3 && unix_type member == directory_type

-- `member.filename.rstrip("/\\")`
abbrev pub separators : Text
separators = b'/' ∷ 92 ∷ []

unfoldable pub validate_zip_member : UnpackLimit → ZipInfo → Checked (Option Prepared)
validate_zip_member limit member = do
  let is_directory = zip_member_is_directory member
  (parts, canonical) ←
      normalize_member_path
        (if is_directory then rstrip_chars separators member.filename else member.filename)
  raise_if (member.create_system == 3 && unix_type member == link_type) link_rejected
  raise_if
      (member.create_system == 3
        && (not is_directory && not (unix_type member == 0 || unix_type member == regular_type)))
      unsafe_path
  raise_if (ltb limit.max_member_path_depth (length parts)) member_path_depth_exceeded
  ok (
      if is_directory
      then none
      else some (record {
        name = member.filename;
        size = member.file_size;
        parts = parts;
        canonical = canonical;
        stream = member.stream;
      }))

abbrev pub is_tar_link : TarType → Bool
is_tar_link symbolic_link = true
is_tar_link hard_link = true
is_tar_link _ = false

abbrev pub is_tar_directory : TarType → Bool
is_tar_directory directory = true
is_tar_directory _ = false

abbrev pub is_tar_regular : TarType → Bool
is_tar_regular regular = true
is_tar_regular _ = false

unfoldable pub validate_tar_member : TarInfo → Checked (Option Prepared)
validate_tar_member member = do
  raise_if (is_tar_link member.type) link_rejected
  (parts, canonical) ←
      normalize_member_path
        (if is_tar_directory member.type then rstrip_chars separators member.name else member.name)
  if is_tar_directory member.type then ok none else do
    raise_if (not (is_tar_regular member.type)) unsafe_path
    ok (
        some (record {
          name = member.name;
          size = member.size;
          parts = parts;
          canonical = canonical;
          stream = member.stream;
        }))

-- _validate_zip_metadata and _validate_tar_metadata
unfoldable pub validate_metadata : UnpackLimit → Prepared → Checked (Unit {0})
validate_metadata limit member = raise_if (ltb limit.max_single_file member.size) file_too_large
