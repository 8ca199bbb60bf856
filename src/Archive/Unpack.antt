-- ===== src/Archive/Unpack.antt =====
-- The two loops of unpack_zip and unpack_tar of app/core/archive.py, and the dispatch by name. A
-- member's error goes to the caller's recorder, or ends the unpacking where there is none.
pub mod Budget
pub mod Totals
pub mod Accounts
pub mod Linkless
use patrol_x.Base.{
  ℕ, zero, suc, ◌+◌, ◌-◌, Bool, true, false, not, ◌&&◌, ◌||◌, List, [], ◌∷◌, ◌++◌, Option, none,
  some, if◌then◌else◌, ltb, Result, ok, err, ◌>>=◌, ◌>>◌, raise_if,
}
use patrol_x.Base.Lists.{length, any, keep}
use patrol_x.Base.Text.{Text, text_eq}
use patrol_x.Archive.Errors.{
  ErrorCode, UnpackLimit, Checked, archive_corrupt, duplicate_member, member_path_depth_exceeded,
  file_count_exceeded, os_error,
}
use patrol_x.Archive.Disk.{FilePath, Node, file, Disk, put, parent, make_dirs}
use patrol_x.Archive.Target.{
  Stream, Written, resolve_member_target, ensure_target_paths, delete_partial_target, copy_chunks,
}
use patrol_x.Archive.Members.{Prepared, validate_metadata}

-- What the caller fixes: the limits, the root, `str.casefold`, the path length check (its error, if
-- it raises) and whether member errors are recorded.
pub record Config : Type 0 where
  pub limit : UnpackLimit
  pub root : FilePath
  pub casefold : Text → Text
  pub path_limit_check : FilePath → Text → Option ErrorCode
  pub records_errors : Bool

-- The variables of the loop, the disk, and what the recorder was given.
pub record State : Type 0 where
  pub disk : Disk
  pub count : ℕ
  pub total_written : ℕ
  pub seen_members : List Text
  pub errors : List (ErrorCode × Text)

-- The state outlives an error that ends the unpacking.
abbrev pub Outcome : Type 0 → Type 0
Outcome A = Result ErrorCode A × State

abbrev pub Step : Type 0
Step = Outcome (Unit {0})

abbrev pub member_seen : Text → List Text → Bool
member_seen key seen = any (λ k. text_eq k key) seen

unfoldable pub record_member_error : Config → ErrorCode → Text → State → Step
record_member_error c code name s =
    if c.records_errors
    then (ok tt, record s { errors = s.errors ++ (code, name) ∷ [] })
    else (err code, s)

-- The `except` blocks of the loop: an OSError of `unlink` is raised there, past both of them.
unfoldable pub after_delete : Config → ErrorCode → Text → State → Option Disk → Step
unfolding record_member_error
after_delete c code name s none = (err archive_corrupt, s)
after_delete c code name s (some d) = record_member_error c code name (record s { disk = d })

unfoldable pub fail_member : Config → ErrorCode → Text → Option FilePath → State → Step
unfolding after_delete
fail_member c code name target s = after_delete c code name s (delete_partial_target s.disk target)

-- The checks before `target` is bound.
unfoldable pub locate_member : Config → Prepared → Disk → Checked FilePath
locate_member c member d = do
  validate_metadata c.limit member
  raise_if (ltb c.limit.max_member_path_depth (length member.parts)) member_path_depth_exceeded
  resolve_member_target d c.root member.parts

abbrev pub path_check : Option ErrorCode → Checked (Unit {0})
path_check none = ok tt
path_check (some code) = err code

-- From `path_limit_check` to `mkdir`: an OSError of `mkdir` counts as a corrupt archive.
unfoldable pub clear_target : Config → Prepared → FilePath → Disk → Checked Disk
clear_target c member target d = do
  path_check (c.path_limit_check target member.name)
  ensure_target_paths d target
  elim (make_dirs d c.root (parent member.parts)) [ none ↦ err archive_corrupt | some d' ↦ ok d' ]

-- The file as the copy left it, then `count += 1` or the `except` blocks.
unfoldable pub after_copy : Config → Text → FilePath → State → Written → Option ErrorCode → Step
unfolding fail_member
after_copy c name target s w none = (
  ok tt,
  record s {
    disk = put target (file w.written) s.disk;
    total_written = w.total;
    count = s.count + 1;
  },
)
after_copy c name target s w (some code) =
    fail_member c code name (some target)
      (record s { disk = put target (file w.written) s.disk; total_written = w.total - w.written })

-- `with zf.open(member) as src, target.open("wb") as dst: ...`
unfoldable pub write_member : Config → Prepared → FilePath → State → Step
unfolding after_copy
write_member c member target s =
    if member.stream.opens
    then (let w = copy_chunks c.limit member.stream.breaks member.stream.chunks 0 s.total_written in
        after_copy c member.name target s w w.fault)
    else fail_member c archive_corrupt member.name (some target) s

unfoldable pub place_member : Config → Prepared → FilePath → State → Checked Disk → Step
unfolding write_member
place_member c member target s (err code) = fail_member c code member.name (some target) s
place_member c member target s (ok d) = write_member c member target (record s { disk = d })

-- The second `except` block: an error that is no ArchiveError counts as a corrupt archive.
abbrev pub member_code : ErrorCode → ErrorCode
member_code os_error = archive_corrupt
member_code code = code

unfoldable pub extract_located : Config → Prepared → State → Checked FilePath → Step
unfolding place_member
extract_located c member s (err code) = fail_member c (member_code code) member.name none s
extract_located c member s (ok target) =
    place_member c member target s (clear_target c member target s.disk)

-- One round of the loop over `prepared_members`.
unfoldable pub extract_member : Config → Prepared → State → Step
unfolding extract_located
extract_member c member s =
    let key = c.casefold member.canonical in
    let s' = record s { seen_members = key ∷ s.seen_members } in
    if member_seen key s.seen_members
    then fail_member c duplicate_member member.name none s
    else extract_located c member s' (locate_member c member s.disk)

-- An error that a round lets out ends the loop.
abbrev pub and_then : {A : Type 0} → Step → (State → Outcome A) → Outcome A
and_then (ok _, s) f = f s
and_then (err code, s) f = (err code, s)

unfoldable pub extract_members : Config → List Prepared → State → Step
extract_members c [] s = (ok tt, s)
extract_members c (member ∷ rest) s = and_then (extract_member c member s) (extract_members c rest)

abbrev pub prepend : {A : Type 0} → Option A → Checked (List A) → Checked (List A)
prepend none r = r
prepend (some a) r = do l ← r; ok (a ∷ l)

-- One round of the loop over `members`, before the rounds `next` of those behind it.
unfoldable pub prepare_member :
    Config
    → Checked (Option Prepared)
    → Text
    → (State → Outcome (List Prepared))
    → State
    → Outcome (List Prepared)
unfolding record_member_error
prepare_member c (ok found) name next s = let (r, s') = next s in (prepend found r, s')
prepare_member c (err code) name next s = and_then (record_member_error c code name s) next

module _ {M : Type 0} (validate : M → Checked (Option Prepared)) (name : M → Text) where
  unfoldable pub prepare_members : Config → List M → State → Outcome (List Prepared)
  unfolding prepare_member
  prepare_members c [] s = (ok [], s)
  prepare_members c (member ∷ rest) s =
      prepare_member c (validate member) (name member) (prepare_members c rest) s

abbrev pub bind : {A B : Type 0} → Outcome A → (A → State → Outcome B) → Outcome B
bind (ok a, s) f = f a s
bind (err code, s) f = (err code, s)

-- From the file count to `return count`, over the members that the library lists.
module _ {M : Type 0} (is_directory : M → Bool) (validate : M → Checked (Option Prepared))
    (name : M → Text) where
  unfoldable pub unpack_members : Config → List M → State → Outcome ℕ
  unfolding prepare_members extract_members
  unpack_members c members s =
      if ltb c.limit.max_files (length (keep (λ m. not (is_directory m)) members))
      then (err file_count_exceeded, s)
      else bind (prepare_members validate name c members s)
          λ prepared s'. and_then (extract_members c prepared s') λ s''. (ok s''.count, s'')
