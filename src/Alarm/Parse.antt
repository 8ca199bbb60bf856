-- ===== src/Alarm/Parse.antt =====
-- parse_alarm_files of app/inspectors/alarm/common.py as a whole: the loop from nothing, the coverage
-- of the records in time, and the counts by state.
pub mod Accounts
use patrol_x.Base.{
  ℕ, ◌+◌, ◌-◌, max, min, Bool, true, false, not, ◌&&◌, List, [], ◌∷◌, ◌++◌, Option, none, some,
  if◌then◌else◌, Result, ok, ◌>>=◌, of_bool, ◌==◌,
}
use patrol_x.Base.Lists.{length, count_if}
use patrol_x.Alarm.Records.{
  AlarmRecord, AlarmState, not_cleared, normal_cleared, reset_cleared, AlarmQuality, empty_quality,
  AlarmFileResult, AlarmCoverage, Moment,
}
use patrol_x.Alarm.Times.{TimeError}
use patrol_x.Alarm.Row.{Library, whole_seconds}
use patrol_x.Alarm.Files.{Source, Budgets, BudgetMessage, Totals, read_files}

-- `min` and `max` of a first value and the others
abbrev pub min_from : ℕ → List ℕ → ℕ
min_from a [] = a
min_from a (x ∷ xs) = min_from (min a x) xs

abbrev pub max_from : ℕ → List ℕ → ℕ
max_from a [] = a
max_from a (x ∷ xs) = max_from (max a x) xs

abbrev pub raised_times : List AlarmRecord → List Moment
raised_times [] = []
raised_times (r ∷ rest) = r.raised_at ∷ raised_times rest

abbrev pub with_cleared : Option Moment → List Moment → List Moment
with_cleared none l = l
with_cleared (some t) l = t ∷ l

-- `timestamps`
abbrev pub all_times : List AlarmRecord → List Moment
all_times [] = []
all_times (r ∷ rest) = r.raised_at ∷ with_cleared r.cleared_at (all_times rest)

-- _coverage
unfoldable pub coverage : List AlarmRecord → AlarmCoverage
coverage [] = record { start_at = none; end_at = none; span_sec = 0 }
coverage (r ∷ rest) =
    let start = min_from r.raised_at (raised_times rest) in
    let end = max_from r.raised_at (with_cleared r.cleared_at (all_times rest)) in
    record { start_at = some start; end_at = some end; span_sec = whole_seconds (end - start) }

abbrev pub in_state : AlarmState → AlarmRecord → Bool
in_state not_cleared r = elim r.state [ not_cleared ↦ true | _ ↦ false ]
in_state normal_cleared r = elim r.state [ normal_cleared ↦ true | _ ↦ false ]
in_state reset_cleared r = elim r.state [ reset_cleared ↦ true | _ ↦ false ]

-- `Counter` over STATE_ORDER: its entry for "Unknown" stays 0.
abbrev pub StateCounts : Type 0
StateCounts = AlarmState → ℕ

abbrev pub count_states : List AlarmRecord → StateCounts
count_states records state = count_if (in_state state) records

pub record AlarmParseResult : Type 0 where
  pub records : List AlarmRecord
  pub coverage : AlarmCoverage
  pub quality : AlarmQuality
  pub files : List AlarmFileResult
  pub raw_rows : ℕ
  pub duplicate_rows : ℕ
  pub budget_exceeded : Bool
  pub budget_messages : List BudgetMessage
  pub status_counts : StateCounts

abbrev pub no_totals : Totals
no_totals = record {
  records = [];
  files = [];
  quality = empty_quality;
  seen_rows = [];
  raw_rows = 0;
  duplicate_rows = 0;
  task_rows = 0;
  budget_exceeded = false;
  budget_messages = [];
  task_stopped = false;
}

-- `not (quality.invalid_repeat_times_rows or quality.missing_repeat_times_rows)`
abbrev pub repeats_complete : AlarmQuality → Bool
repeats_complete q = (q.invalid_repeat_times_rows == 0) && (q.missing_repeat_times_rows == 0)

unfoldable pub finish_parse : Totals → AlarmParseResult
unfolding coverage
finish_parse t = record {
  records = t.records;
  coverage = coverage t.records;
  quality = record t.quality {
    repeat_totals_complete = repeats_complete t.quality;
    estimated_report_totals_complete = repeats_complete t.quality;
  };
  files = t.files;
  raw_rows = t.raw_rows;
  duplicate_rows = t.duplicate_rows;
  budget_exceeded = t.budget_exceeded;
  budget_messages = t.budget_messages;
  status_counts = count_states t.records;
}

unfoldable pub parse_alarm_files :
    Library → Budgets → List Source → Result TimeError AlarmParseResult
unfolding read_files finish_parse
parse_alarm_files lib budgets sources = do
  totals ← read_files lib budgets sources no_totals
  ok (finish_parse totals)
