-- ===== src/Extraction/Selection.antt =====
-- _gzip_output_relative, _selected_include, _decompress_member_gzip and the loop of
-- select_and_decompress of app/services/extraction/nested.py.
pub mod Matches
pub mod Outputs
pub mod Sources
use patrol_x.Base.{
  ℕ, ◌+◌, ◌-◌, Bool, true, false, not, ◌&&◌, ◌||◌, List, [], ◌∷◌, ◌++◌, Option, none, some, Result,
  ok, err, ◌>>=◌, ◌>>◌, raise_if, if◌then◌else◌,
}
use patrol_x.Base.Lists.{is_nil, all, length, take}
use patrol_x.Base.Text.{Text, codes, text_eq, split_char, join_char, ends_with}
use patrol_x.Archive.Errors.{
  ErrorCode, UnpackLimit, Checked, archive_corrupt, unsafe_path, os_error,
}
use patrol_x.Archive.MemberPath.{slash, normalize_member_path}
use patrol_x.Archive.Disk.{FilePath, Disk, lookup, parent}
use patrol_x.Archive.Target.{Stream, unlink, node?}
use patrol_x.Archive.Gzip.{Gzip, unpack_gzip}
use patrol_x.Extraction.Patterns.{Names, member_pattern_matches}

pub record SelectionInclude : Type 0 where
  pub pattern : Text
  pub service : Option Text

pub record SelectionExclude : Type 0 where
  pub pattern : Text
  pub reason : Text

pub record SelectedMember : Type 0 where
  pub path : FilePath
  pub member_relative : Text
  pub service : Option Text

pub record IgnoredMember : Type 0 where
  pub member_relative : Text
  pub reason : Text

pub record MemberError : Type 0 where
  pub member_relative : Text
  pub error : ErrorCode

-- What ends the whole selection: an ArchiveError of a name, or the one of overlapping includes.
pub data Stopped : Type 0 where
  bad_name : ErrorCode → Stopped
  invalid_classification_config : Stopped

abbrev pub member_not_selected : Text
member_not_selected = codes "member_not_selected"

-- The lists of select_and_decompress (without the errors of the unpacking before it), and the disk.
pub record Progress : Type 0 where
  pub selected : List SelectedMember
  pub ignored : List IgnoredMember
  pub member_errors : List MemberError
  pub disk : Disk

abbrev pub last_of : List Text → Text
last_of [] = []
last_of (p ∷ []) = p
last_of (p ∷ q ∷ ps) = last_of (q ∷ ps)

-- `values[-1] = last`
abbrev pub with_last : Text → List Text → List Text
with_last last [] = []
with_last last (p ∷ []) = last ∷ []
with_last last (p ∷ q ∷ ps) = p ∷ with_last last (q ∷ ps)

-- A name that ends with `.gz` and not with `.tar.gz`, in any case of letters
abbrev pub is_gzip_name : Names → Text → Bool
is_gzip_name names name =
    ends_with (codes ".gz") (names.casefold name)
    && not (ends_with (codes ".tar.gz") (names.casefold name))

-- _is_single_file_gzip, by the member's relative path
abbrev pub is_single_file_gzip : Names → Text → Bool
is_single_file_gzip names member_relative =
    is_gzip_name names (last_of (split_char slash member_relative))

-- `text[:-3]`
abbrev pub without_suffix : Text → Text
without_suffix text = take (length text - 3) text

unfoldable pub gzip_output_relative : Names → Text → Checked Text
unfolding normalize_member_path join_char ends_with
gzip_output_relative names member_relative = do
  (parts, canonical) ← normalize_member_path member_relative
  raise_if (not (is_gzip_name names canonical)) archive_corrupt
  raise_if (is_nil (without_suffix (last_of parts))) unsafe_path
  ok (join_char slash (with_last (without_suffix (last_of parts)) parts))

-- `except OSError as exc: raise ArchiveError(..., "unsafe_path")`
abbrev pub as_archive_error : ErrorCode → ErrorCode
as_archive_error os_error = unsafe_path
as_archive_error code = code

abbrev pub of_name {ℓ} : {A : Type ℓ} → Checked A → Result Stopped A
of_name (err code) = err (bad_name code)
of_name (ok a) = ok a

module _ (names : Names) where
  -- `next((item for item in exclude if ...), None)`
  unfoldable pub first_exclude : List SelectionExclude → Text → Checked (Option SelectionExclude)
  unfolding member_pattern_matches
  first_exclude [] member_relative = ok none
  first_exclude (item ∷ rest) member_relative =
      let others = first_exclude rest member_relative in
      member_pattern_matches names item.pattern member_relative >>= λ matches.
      if matches then ok (some item) else others

  unfoldable pub matching_includes : List SelectionInclude → Text → Checked (List SelectionInclude)
  unfolding member_pattern_matches
  matching_includes [] member_relative = ok []
  matching_includes (item ∷ rest) member_relative = do
    matches ← member_pattern_matches names item.pattern member_relative
    others ← matching_includes rest member_relative
    ok (if matches then item ∷ others else others)

  abbrev pub service_eq : Option Text → Option Text → Bool
  service_eq none none = true
  service_eq (some s) (some t) = text_eq s t
  service_eq _ _ = false

  -- The first match, where all matches have one service
  abbrev pub one_service : List SelectionInclude → Result Stopped (Option SelectionInclude)
  one_service [] = ok none
  one_service (item ∷ rest) =
      if all (λ (other : SelectionInclude). service_eq item.service other.service) rest
      then ok (some item)
      else err invalid_classification_config

  unfoldable pub selected_include :
      List SelectionInclude → Text → Result Stopped (Option SelectionInclude)
  unfolding matching_includes
  selected_include include member_relative =
      of_name (matching_includes include member_relative) >>= one_service

  module _ (limit : UnpackLimit) (streams : Text → Stream) (staging_root : FilePath) where
    -- `staging_root / member_relative`
    abbrev pub staged_path : Text → FilePath
    staged_path member_relative = staging_root ++ split_char slash member_relative

    -- `member.unlink()` behind unpack_gzip, and the OSErrors of both.
    abbrev pub behind_unlink : Text → Disk → Option Disk → Result ErrorCode Text × Disk
    behind_unlink output d none = (err unsafe_path, d)
    behind_unlink output d (some d') = (ok output, d')

    abbrev pub drop_source : Text → Text → Gzip (Unit {0}) → Result ErrorCode Text × Disk
    drop_source member_relative output (err code, d, b) = (err (as_archive_error code), d)
    drop_source member_relative output (ok total, d, b) =
        if node? (lookup (staged_path member_relative) d)
        then behind_unlink output d
            (unlink (lookup (staged_path member_relative) d) d (staged_path member_relative))
        else (err unsafe_path, d)

    abbrev pub free_of_charge : ℕ → Unit {0} → Result ErrorCode (Unit {0}) × Unit {0}
    free_of_charge chunk b = (ok tt, b)

    -- _decompress_member_gzip, on the output's path
    abbrev pub decompress_to : Text → Disk → Checked Text → Result ErrorCode Text × Disk
    decompress_to member_relative d (err code) = (err code, d)
    decompress_to member_relative d (ok output) = drop_source member_relative output (
        unpack_gzip free_of_charge limit none (streams member_relative)
          (parent (staged_path output)) (last_of (split_char slash output)) d tt)

    -- _decompress_member_gzip; `streams`: what gzip.open reads from a member.
    unfoldable pub decompress_member_gzip : Text → Disk → Result ErrorCode Text × Disk
    unfolding gzip_output_relative unpack_gzip lookup
    decompress_member_gzip member_relative d =
        decompress_to member_relative d (gzip_output_relative names member_relative)

    -- The `try` block: the member's relative path behind it.
    abbrev pub final_member : Text → Disk → Result ErrorCode Text × Disk
    final_member member_relative d =
        if is_single_file_gzip names member_relative
        then decompress_member_gzip member_relative d
        else (ok member_relative, d)

    abbrev pub ignore : Text → Text → Progress → Progress
    ignore member_relative reason s = record s {
      ignored = s.ignored ++ record { member_relative = member_relative; reason = reason } ∷ [];
    }

    abbrev pub note_member :
        Text → SelectionInclude → Result ErrorCode Text × Disk → Progress → Progress
    note_member member_relative item (err code, d) s = record s {
      member_errors =
          s.member_errors ++ record { member_relative = member_relative; error = code } ∷ [];
      disk = d;
    }
    note_member member_relative item (ok final, d) s = record s {
      selected =
          s.selected
          ++ record { path = staged_path final; member_relative = final; service = item.service }
            ∷ [];
      disk = d;
    }

    abbrev pub include_member : Text → Option SelectionInclude → Progress → Progress
    include_member member_relative none s = ignore member_relative member_not_selected s
    include_member member_relative (some item) s =
        note_member member_relative item (final_member member_relative s.disk) s

    -- What the loop does behind the search for an exclusion.
    abbrev pub unless_excluded :
        List SelectionInclude → Text → Option SelectionExclude → Progress → Result Stopped Progress
    unless_excluded include member_relative (some item) s =
        ok (ignore member_relative item.reason s)
    unless_excluded include member_relative none s = do
      chosen ← selected_include include member_relative
      ok (include_member member_relative chosen s)

    -- The loop of select_and_decompress.
    unfoldable pub select_members :
        List SelectionInclude
        → List SelectionExclude
        → List Text
        → Progress
        → Result Stopped Progress
    unfolding first_exclude selected_include decompress_member_gzip
    select_members include exclude [] s = ok s
    select_members include exclude (member_relative ∷ rest) s = do
      exclusion ← of_name (first_exclude exclude member_relative)
      s' ← unless_excluded include member_relative exclusion s
      select_members include exclude rest s'
