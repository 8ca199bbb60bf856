-- ===== src/Alarm/Records.antt =====
-- The records of app/inspectors/alarm/common.py: a normalised alarm, the row-level quality counts,
-- the result for a file.
use patrol_x.Base.{ℕ, ◌+◌, Bool, true, false, List, [], ◌∷◌, Option, none, some, if◌then◌else◌}
use patrol_x.Base.Text.{Text, text_eq}

-- SEVERITY_ORDER
pub data Severity : Type 0 where
  critical high medium low unknown : Severity

-- The states that a record can have: STATE_ORDER without its last entry, which no row is given.
pub data AlarmState : Type 0 where
  not_cleared normal_cleared reset_cleared : AlarmState

-- A moment, in microseconds since the first day that `datetime` knows, in UTC.
abbrev pub Moment : Type 0
Moment = ℕ

pub record AlarmRecord : Type 0 where
  pub app_name : Text
  pub alarm_id : Text
  pub alarm_name : Text
  pub severity : Severity
  pub state : AlarmState
  pub raised_at : Moment
  pub cleared_at : Option Moment
  pub duration_sec : Option ℕ
  pub repeat_times : Option ℕ
  pub object_key : Text
  pub serial_no : Option Text
  pub source_file : Text
  pub line_no : ℕ
  pub location_info : Option Text
  pub additional_info : Option Text

-- `Counter[str]`
abbrev pub Counter : Type 0
Counter = List (Text × ℕ)

-- `counter[key] += 1`
unfoldable pub tally : Text → Counter → Counter
tally key [] = (key, 1) ∷ []
tally key ((k, n) ∷ rest) = if text_eq k key then (k, n + 1) ∷ rest else (k, n) ∷ tally key rest

pub record AlarmQuality : Type 0 where
  pub excluded_rows : ℕ
  pub invalid_status_rows : ℕ
  pub unknown_status_values : Counter
  pub unknown_severity_values : Counter
  pub unknown_headers : Counter
  pub invalid_raised_time_rows : ℕ
  pub invalid_cleared_time_rows : ℕ
  pub missing_cleared_time_rows : ℕ
  pub cleared_before_raised_rows : ℕ
  pub invalid_repeat_times_rows : ℕ
  pub missing_repeat_times_rows : ℕ
  pub missing_app_name_rows : ℕ
  pub missing_alarm_id_rows : ℕ
  pub missing_alarm_name_rows : ℕ
  pub missing_object_rows : ℕ
  pub repeat_totals_complete : Bool
  pub estimated_report_totals_complete : Bool

-- _empty_quality
abbrev pub empty_quality : AlarmQuality
empty_quality = record {
  excluded_rows = 0;
  invalid_status_rows = 0;
  unknown_status_values = [];
  unknown_severity_values = [];
  unknown_headers = [];
  invalid_raised_time_rows = 0;
  invalid_cleared_time_rows = 0;
  missing_cleared_time_rows = 0;
  cleared_before_raised_rows = 0;
  invalid_repeat_times_rows = 0;
  missing_repeat_times_rows = 0;
  missing_app_name_rows = 0;
  missing_alarm_id_rows = 0;
  missing_alarm_name_rows = 0;
  missing_object_rows = 0;
  repeat_totals_complete = true;
  estimated_report_totals_complete = true;
}

pub data FileStatus : Type 0 where
  matched failed budget_exceeded : FileStatus

pub data FileError : Type 0 where
  row_budget_exceeded file_too_large encoding_error format_invalid : FileError

-- The message of a result is fixed by its code.
pub record AlarmFileResult : Type 0 where
  pub source_file : Text
  pub status : FileStatus
  pub rows : ℕ
  pub valid_rows : ℕ
  pub excluded_rows : ℕ
  pub duplicate_rows : ℕ
  pub error_code : Option FileError

-- AlarmCoverage: its notes are constants.
pub record AlarmCoverage : Type 0 where
  pub start_at : Option Moment
  pub end_at : Option Moment
  pub span_sec : ℕ

abbrev pub is_active : AlarmRecord → Bool
is_active r = elim r.state [ not_cleared ↦ true | _ ↦ false ]

abbrev pub estimated_report_count : AlarmRecord → Option ℕ
estimated_report_count r = elim r.repeat_times [ none ↦ none | some n ↦ some (1 + n) ]
