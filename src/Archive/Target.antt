-- ===== src/Archive/Target.antt =====
-- Where a member goes: _resolve_member_target, _ensure_target_paths, _delete_partial_target and
-- the loop that copies a member's chunks, of app/core/archive.py.
pub mod Real
use patrol_x.Base.{
  ℕ, ◌+◌, Bool, true, false, not, ◌&&◌, ◌||◌, List, [], ◌∷◌, ◌++◌, Option, none, some,
  if◌then◌else◌, ltb, ok, err, ◌>>=◌, ◌>>◌, raise_if,
}
use patrol_x.Base.Text.{Text}
use patrol_x.Archive.Errors.{
  ErrorCode, UnpackLimit, Checked, unsafe_path, link_rejected, duplicate_member, archive_corrupt,
  file_too_large, total_bytes_exceeded, os_error,
}
use patrol_x.Archive.Disk.{
  FilePath, Node, dir, Disk, lookup, erase, parent, dir_node?, is_symlink, resolve, is_relative_to,
}

-- The loop over `parts`: is the path, or a directory on the way to it, a link?
unfoldable pub link_on_way : Disk → FilePath → List Text → Bool
link_on_way d current [] = false
link_on_way d current (part ∷ rest) =
    is_symlink d (current ++ part ∷ []) || link_on_way d (current ++ part ∷ []) rest

-- `path.resolve()`: the error of a circle of links is no ArchiveError.
abbrev pub resolved : Option FilePath → Checked FilePath
resolved none = err os_error
resolved (some p) = ok p

unfoldable pub resolve_member_target : Disk → FilePath → List Text → Checked FilePath
unfolding resolve
resolve_member_target d root parts = do
  raise_if (is_symlink d root) link_rejected
  raise_if (link_on_way d root parts) link_rejected
  root_resolved ← resolved (resolve d root)
  target_resolved ← resolved (resolve d (root ++ parts))
  raise_if (not (is_relative_to root_resolved target_resolved)) unsafe_path
  ok (root ++ parts)

-- `path.exists()` of a path that is no link
abbrev pub node? : Option Node → Bool
node? none = false
node? (some n) = true

unfoldable pub ensure_target_paths : Disk → FilePath → Checked (Unit {0})
ensure_target_paths d target = do
  raise_if (is_symlink d target) link_rejected
  raise_if (node? (lookup target d)) duplicate_member
  raise_if (node? (lookup (parent target) d) && not (dir_node? (lookup (parent target) d)))
      unsafe_path

-- `target.unlink(missing_ok=True)`: `none` is the OSError for a directory.
abbrev pub unlink : Option Node → Disk → FilePath → Option Disk
unlink none d target = some d
unlink (some dir) d target = none
unlink (some _) d target = some (erase target d)

unfoldable pub delete_partial_target : Disk → Option FilePath → Option Disk
delete_partial_target d none = some d
delete_partial_target d (some target) =
    if dir_node? (lookup (parent target) d) then unlink (lookup target d) d target else some d

-- What a library's reader hands out for a member: whether it opens, the sizes of the chunks, and
-- whether it raises after the last of them.
pub record Stream : Type 0 where
  pub opens : Bool
  pub chunks : List ℕ
  pub breaks : Bool

-- `written` and `total_written` at the end of the loop, and what ended it.
pub record Written : Type 0 where
  pub fault : Option ErrorCode
  pub written : ℕ
  pub total : ℕ

unfoldable pub copy_chunks : UnpackLimit → Bool → List ℕ → ℕ → ℕ → Written
copy_chunks limit breaks [] written total = record {
  fault = if breaks then some archive_corrupt else none;
  written = written;
  total = total;
}
copy_chunks limit breaks (chunk ∷ rest) written total =
    let written' = written + chunk in
    let total' = total + chunk in
    let onward = copy_chunks limit breaks rest written' total' in
    if ltb limit.max_single_file written'
    then record { fault = some file_too_large; written = written'; total = total' }
    else if ltb limit.max_total_bytes total'
    then record { fault = some total_bytes_exceeded; written = written'; total = total' }
    else onward
