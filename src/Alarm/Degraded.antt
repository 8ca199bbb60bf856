-- ===== src/Alarm/Degraded.antt =====
-- _quality_degraded of app/inspectors/alarm/recurrence.py and of active_state.py, which are alike,
-- and the test that the verdicts use.
use patrol_x.Base.{ℕ, Bool, true, false, not, ◌||◌, ltb}
use patrol_x.Base.Lists.{any, is_nil, count_if}
use patrol_x.Alarm.Records.{FileStatus, matched}
use patrol_x.Alarm.Parse.{AlarmParseResult}

abbrev pub not_matched : FileStatus → Bool
not_matched matched = false
not_matched _ = true

abbrev pub some_rows : ℕ → Bool
some_rows n = ltb 0 n

unfoldable pub quality_degraded : AlarmParseResult → Bool
quality_degraded parsed =
    let q = parsed.quality in
    parsed.budget_exceeded
    || any (λ f. not_matched f.status) parsed.files
    || some_rows q.excluded_rows
    || some_rows q.invalid_status_rows
    || some_rows q.invalid_raised_time_rows
    || some_rows q.invalid_cleared_time_rows
    || some_rows q.missing_cleared_time_rows
    || some_rows q.cleared_before_raised_rows
    || some_rows q.invalid_repeat_times_rows
    || some_rows q.missing_repeat_times_rows
    || some_rows q.missing_app_name_rows
    || some_rows q.missing_alarm_id_rows
    || some_rows q.missing_alarm_name_rows
    || some_rows q.missing_object_rows
    || not (is_nil q.unknown_status_values)
    || not (is_nil q.unknown_severity_values)
    || not (is_nil q.unknown_headers)

-- `sum(item.status != "matched" for item in parsed.files)`
abbrev pub failed_files : AlarmParseResult → ℕ
failed_files parsed = count_if (λ f. not_matched f.status) parsed.files
