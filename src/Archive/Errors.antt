-- ===== src/Archive/Errors.antt =====
-- ArchiveError and UnpackLimit of app/core/archive.py, and the budget errors of
-- app/services/extraction/budget.py. An error is its code: the class says that the code is the
-- only identification that callers may rely on.
use patrol_x.Base.{ℕ, ◌*◌, Result}

pub data ErrorCode : Type 0 where
  unsafe_path link_rejected duplicate_member archive_corrupt : ErrorCode
  total_bytes_exceeded file_too_large file_count_exceeded : ErrorCode
  member_path_depth_exceeded task_file_count_exceeded target_conflict : ErrorCode
  -- an OSError that no handler turns into an ArchiveError
  os_error : ErrorCode

pub record UnpackLimit : Type 0 where
  pub max_depth : ℕ
  pub max_member_path_depth : ℕ
  pub max_files : ℕ
  pub max_single_file : ℕ
  pub max_total_bytes : ℕ

abbrev pub default_limit : UnpackLimit
default_limit = record {
  max_depth = 8;
  max_member_path_depth = 12;
  max_files = 100_000;
  max_single_file = 2 * 1024 * 1024 * 1024;
  max_total_bytes = 3 * 1024 * 1024 * 1024;
}

abbrev pub Checked {ℓ} : Type ℓ → Type ℓ
Checked A = Result ErrorCode A
