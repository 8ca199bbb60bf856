-- ===== src/Archive/Members/Checks.antt =====
-- What the member checks of both package formats let through.
use patrol_x.Base.{◌≤◌, ◌≡◌, ◌≢◌, false, [], some, if◌then◌else◌, arith, ok}
use patrol_x.Base.Lists.{length, All}
use patrol_x.Base.Text.{Text, join_char, rstrip_chars}
use patrol_x.Archive.Errors.{UnpackLimit}
use patrol_x.Archive.MemberPath.{slash, normalize_member_path}
use patrol_x.Archive.PathSafety.{IsSafePart, normalize_member_path-IsSafePart}
use patrol_x.Archive.Members.{
  ZipInfo, TarInfo, regular, Prepared, zip_member_is_directory, validate_zip_member,
  validate_tar_member, separators, is_tar_directory,
}

-- A prepared member is a plain file with a safe path.
pub record IsSafe (p : Prepared) : Type 0 where
  pub parts_safe : All IsSafePart p.parts
  pub filled : p.parts ≢ []
  pub joined : p.canonical ≡ join_char slash p.parts

abbrev zip_name : ZipInfo → Text
zip_name m = if zip_member_is_directory m then rstrip_chars separators m.filename else m.filename

validate_zip_member-eq-some :
    (limit : UnpackLimit) (m : ZipInfo) (p : Prepared)
    → validate_zip_member limit m ≡ ok (some p)
    → (normalize_member_path (zip_name m) ≡ ok (p.parts, p.canonical))
      × (zip_member_is_directory m ≡ false)
      × (length p.parts ≤ limit.max_member_path_depth)
unfolding validate_zip_member
validate_zip_member-eq-some limit m p h = (ground arith, ground arith, ground arith)

abbrev tar_name : TarInfo → Text
tar_name m = if is_tar_directory m.type then rstrip_chars separators m.name else m.name

validate_tar_member-eq-some :
    (m : TarInfo) (p : Prepared)
    → validate_tar_member m ≡ ok (some p)
    → (normalize_member_path (tar_name m) ≡ ok (p.parts, p.canonical)) × (m.type ≡ regular)
unfolding validate_tar_member
validate_tar_member-eq-some m p h = (ground arith, ground arith)

IsSafe-of_path :
    (name : Text) (p : Prepared) → normalize_member_path name ≡ ok (p.parts, p.canonical) → IsSafe p
IsSafe-of_path name p h =
    let (safe, filled, joined) = normalize_member_path-IsSafePart name p.canonical p.parts h in
    record { parts_safe = safe; filled = filled; joined = joined }

-- A ZIP member that passes its checks is no directory, its path is safe, and the path is no
-- deeper than the limit.
pub validate_zip_member-IsSafe :
    (limit : UnpackLimit) (m : ZipInfo) (p : Prepared)
    → validate_zip_member limit m ≡ ok (some p)
    → IsSafe p
      × (zip_member_is_directory m ≡ false)
      × (length p.parts ≤ limit.max_member_path_depth)
validate_zip_member-IsSafe limit m p h =
    let (named, plain, shallow) = validate_zip_member-eq-some limit m p h in
    (IsSafe-of_path (zip_name m) p named, plain, shallow)

-- A TAR member that passes its checks is a regular file with a safe path.
pub validate_tar_member-IsSafe :
    (m : TarInfo) (p : Prepared)
    → validate_tar_member m ≡ ok (some p)
    → IsSafe p × (m.type ≡ regular)
validate_tar_member-IsSafe m p h =
    let (named, plain) = validate_tar_member-eq-some m p h in
    (IsSafe-of_path (tar_name m) p named, plain)
