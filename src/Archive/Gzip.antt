-- ===== src/Archive/Gzip.antt =====
-- unpack_gzip of app/core/archive.py. The budget that `charge` keeps is a parameter `B`.
pub mod Guarantees
mod Tests
use patrol_x.Base.{
  ℕ, ◌+◌, Bool, true, false, not, List, [], ◌∷◌, ◌++◌, Option, none, some, if◌then◌else◌, ltb,
  Result, ok, err, ◌>>=◌, ◌>>◌, raise_if,
}
use patrol_x.Base.Text.{Text}
use patrol_x.Archive.Errors.{
  ErrorCode, UnpackLimit, Checked, archive_corrupt, file_too_large, link_rejected, os_error,
  target_conflict,
}
use patrol_x.Archive.MemberPath.{normalize_member_path}
use patrol_x.Archive.Disk.{
  FilePath, Node, dir, file, Disk, lookup, put, erase, parent, is_symlink, make_dirs,
}
use patrol_x.Archive.Target.{Stream, resolve_member_target, unlink, node?}
use patrol_x.Archive.Unpack.{path_check}

-- A call gives its result, the disk and the caller's budget.
abbrev pub Gzip : Type 0 → Type 0
Gzip B = Result ErrorCode ℕ × Disk × B

-- The checks before the `try` block, and the directory that it writes to.
unfoldable pub gzip_target : Option ErrorCode → FilePath → Text → Disk → Checked (FilePath × Disk)
gzip_target too_long folder name d = do
  path_check too_long
  (parts, canonical) ← normalize_member_path name
  target ← resolve_member_target d folder parts
  raise_if (is_symlink d target) link_rejected
  elim (make_dirs d [] (parent target)) [ none ↦ err os_error | some d' ↦ ok (target, d') ]

-- `dst.write(chunk)`: the open file grows by the chunk.
abbrev pub grown : FilePath → ℕ → Disk → Option Node → Disk
grown target chunk d (some (file size)) = put target (file (size + chunk)) d
grown target chunk d _ = d

unfoldable pub write_chunk : FilePath → ℕ → Disk → Disk
unfolding lookup put
write_chunk target chunk d = grown target chunk d (lookup target d)

module _ {B : Type 0} where
  -- `safe_target.unlink(missing_ok=True); raise`: an OSError of `unlink` takes its place.
  abbrev pub give_up : ErrorCode → FilePath → Disk → B → Gzip B
  give_up code target d b = elim (unlink (lookup target d) d target) [
    | none ↦ (err os_error, d, b)
    | some d' ↦ (err code, d', b)
  ]

  -- The `except` blocks behind the loop.
  abbrev pub after_gzip : FilePath → Gzip B → Gzip B
  after_gzip target (ok total, d, b) = (ok total, d, b)
  after_gzip target (err code, d, b) = give_up code target d b

  -- The `while` loop, with the output file open: `total` at its end, or the error that ended it, and
  -- the disk with what was written up to there.
  module _ (charge : ℕ → B → Result ErrorCode (Unit {0}) × B) (limit : UnpackLimit) where
    abbrev pub charged : Result ErrorCode (Unit {0}) × B → Disk → (B → Gzip B) → Gzip B
    charged (err code, b) d next = (err code, d, b)
    charged (ok _, b) d next = next b

    unfoldable pub copy_gzip : Bool → FilePath → List ℕ → ℕ → Disk → B → Gzip B
    unfolding write_chunk
    copy_gzip breaks target [] total d b = (if breaks then err archive_corrupt else ok total, d, b)
    copy_gzip breaks target (chunk ∷ rest) total d b = charged (charge chunk b) d λ b'.
        let onward = copy_gzip breaks target rest (total + chunk) (write_chunk target chunk d) b' in
        if ltb limit.max_single_file (total + chunk) then (err file_too_large, d, b') else onward

    -- The `try` block: `gzip.open`, then `open("xb")`, which wants a free target and makes an empty
    -- file.
    unfoldable pub write_gzip : Stream → FilePath → Disk → B → Gzip B
    unfolding copy_gzip
    write_gzip stream target d b =
        if not stream.opens
        then give_up archive_corrupt target d b
        else if node? (lookup target d)
        then give_up target_conflict target d b
        else after_gzip target
            (copy_gzip stream.breaks target stream.chunks 0 (put target (file 0) d) b)

    unfoldable pub unpack_gzip : Option ErrorCode → Stream → FilePath → Text → Disk → B → Gzip B
    unfolding gzip_target write_gzip
    unpack_gzip too_long stream folder name d b = elim (gzip_target too_long folder name d) [
      | err code ↦ (err code, d, b)
      | ok (target, d') ↦ write_gzip stream target d' b
    ]
