-- ===== src/Alarm/ActiveState.antt =====
-- The rule alarm.active_state, app/inspectors/alarm/active_state.py: the alarms that are not cleared,
-- grouped by application, alarm and object. `stable_hash` is a parameter; texts are left out.
pub mod Guarantees
use patrol_x.Base.{
  ℕ, zero, suc, ◌+◌, ◌-◌, max, Bool, true, false, not, ◌&&◌, ◌||◌, ltb, ◌==◌, List, [], ◌∷◌, Option,
  none, some, if◌then◌else◌, Result, ok, ◌>>=◌,
}
use patrol_x.Base.Lists.{length, any, keep, take, sum, sum_of, is_nil, max_or_zero, all}
use patrol_x.Base.Sort.{sort}
use patrol_x.Base.Text.{Text, codes}
use patrol_x.Alarm.Records.{AlarmRecord, AlarmState, not_cleared, Moment, Severity}
use patrol_x.Alarm.Times.{TimeError}
use patrol_x.Alarm.Row.{Library}
use patrol_x.Alarm.Files.{Source, Budgets}
use patrol_x.Base.Text.{text_le}
use patrol_x.Alarm.Parse.{
  AlarmParseResult, parse_alarm_files, in_state, min_from, max_from, raised_times,
}
use patrol_x.Rules.{RuleStatus, pass, warn, fail}
use patrol_x.Alarm.Degraded.{quality_degraded, failed_files}
use patrol_x.Alarm.Groups.{
  Key, Buckets, group_onto, severity_rank, SeverityCounts, count_severities, Ref, ref_le,
  source_refs,
}
use patrol_x.Alarm.Recurrence.Flags.{until, valid_repeats}
use patrol_x.Alarm.Recurrence.Views.{ascending, descending}
use patrol_x.Alarm.Recurrence.Verdict.{SkipReason, no_files, skip_reason, head_of, Finding}

abbrev pub or_zero : Option ℕ → ℕ
or_zero none = 0
or_zero (some n) = n

-- _active_duration: `parsed` stands by the end of its coverage.
abbrev pub active_duration : Option Moment → AlarmRecord → ℕ
active_duration end r = or_zero (until end r.raised_at)

-- `min` by severity and moment: the first of the least ones.
abbrev pub before : AlarmRecord → AlarmRecord → Bool
before r s =
    ascending (severity_rank r.severity) (severity_rank s.severity) (ltb r.raised_at s.raised_at)

abbrev pub representative : AlarmRecord → List AlarmRecord → AlarmRecord
representative best [] = best
representative best (r ∷ rest) = representative (if before r best then r else best) rest

-- `min` by severity
abbrev pub least_severity : Severity → List AlarmRecord → Severity
least_severity s [] = s
least_severity s (r ∷ rest) =
    least_severity (if ltb (severity_rank r.severity) (severity_rank s) then r.severity else s) rest

abbrev pub durations_of : Option Moment → List AlarmRecord → List ℕ
durations_of end [] = []
durations_of end (r ∷ rest) = active_duration end r ∷ durations_of end rest

pub record GroupView : Type 0 where
  pub group_key : Text
  pub group : Key
  pub alarm_name : Text
  pub severity : Severity
  pub first_raised_at : Moment
  pub last_raised_at : Moment
  pub duration_sec : ℕ
  pub lifecycle_count : ℕ
  pub raw_repeat_times_total : ℕ
  pub max_single_repeat_times : ℕ
  pub estimated_report_total : ℕ
  pub repeat_totals_complete : Bool
  pub source_refs : List Ref

abbrev pub group_of : AlarmRecord → Key
group_of r = r.app_name ∷ r.alarm_id ∷ r.object_key ∷ []

unfoldable pub group_le : GroupView → GroupView → Bool
unfolding text_le
group_le a b = ascending (severity_rank a.severity) (severity_rank b.severity) (
    descending a.raw_repeat_times_total b.raw_repeat_times_total
      (descending a.duration_sec b.duration_sec (text_le a.group_key b.group_key)))

pub record RecordView : Type 0 where
  pub record_of : AlarmRecord
  pub duration_sec : ℕ

-- `repeat_times`, or -1, moved up by one
abbrev pub shown_repeats : AlarmRecord → ℕ
shown_repeats r = elim r.repeat_times [ none ↦ 0 | some n ↦ suc n ]

unfoldable pub record_le : RecordView → RecordView → Bool
unfolding text_le
record_le a b =
    ascending (severity_rank a.record_of.severity) (severity_rank b.record_of.severity) (
      descending (shown_repeats a.record_of) (shown_repeats b.record_of) (
        descending a.duration_sec b.duration_sec (
          ref_le (a.record_of.source_file, a.record_of.line_no)
            (b.record_of.source_file, b.record_of.line_no))))

module _ (stable_hash : List Text → Text → Text) (end : Option Moment) where
  -- The group of a bucket, whose records are `first` and `rest`.
  unfoldable pub group_view : Key → AlarmRecord → List AlarmRecord → GroupView
  unfolding source_refs
  group_view k first rest =
      let records = first ∷ rest in
      let repeats = valid_repeats records in
      record {
        group_key = stable_hash k (codes "alarm.active_state:");
        group = k;
        alarm_name = (representative first rest).alarm_name;
        severity = least_severity first.severity rest;
        first_raised_at = min_from first.raised_at (raised_times rest);
        last_raised_at = max_from first.raised_at (raised_times rest);
        duration_sec = max_or_zero (durations_of end records);
        lifecycle_count = length records;
        raw_repeat_times_total = sum repeats;
        max_single_repeat_times = max_or_zero repeats;
        estimated_report_total = sum_of (λ n. 1 + n) repeats;
        repeat_totals_complete = length repeats == length records;
        source_refs = take 100 (source_refs records);
      }

  -- The loop over the buckets: a bucket is never empty.
  abbrev pub views_of : Buckets → List GroupView
  views_of [] = []
  views_of ((k, []) ∷ rest) = views_of rest
  views_of ((k, r ∷ rs) ∷ rest) = group_view k r rs ∷ views_of rest

  -- _group_views
  unfoldable pub group_views : List AlarmRecord → List GroupView
  unfolding group_view sort group_le group_onto
  group_views active = sort group_le (views_of (group_onto group_of [] active))

  abbrev pub record_views : List AlarmRecord → List RecordView
  record_views [] = []
  record_views (r ∷ rest) =
      record { record_of = r; duration_sec = active_duration end r } ∷ record_views rest

  unfoldable pub sorted_records : List AlarmRecord → List RecordView
  unfolding sort record_le
  sorted_records active = sort record_le (record_views active)

  abbrev pub group_finding : GroupView → Finding
  group_finding g = record {
    finding_id = stable_hash (g.group_key ∷ []) (codes "alarm.active_state:");
    severity = g.severity;
    source = head_of g.source_refs;
  }

  abbrev pub group_findings : List GroupView → List Finding
  group_findings [] = []
  group_findings (g ∷ rest) = group_finding g ∷ group_findings rest

pub record ActiveResult : Type 0 where
  pub status : RuleStatus
  pub active_severity_counts : SeverityCounts
  pub active_records : ℕ
  pub active_groups : ℕ
  pub failed_files : ℕ
  pub findings : List Finding
  pub groups : List GroupView
  pub records : List RecordView
  pub details_truncated : Bool
  pub findings_truncated : Bool

pub data ActiveOutcome : Type 0 where
  skipped : SkipReason → ActiveOutcome
  judged : ActiveResult → ActiveOutcome

-- `record.severity in {"CRITICAL", "HIGH"}`
abbrev pub is_high : AlarmRecord → Bool
is_high r = ltb (severity_rank r.severity) 2

abbrev pub active_of : AlarmParseResult → List AlarmRecord
active_of parsed = keep (in_state not_cleared) parsed.records

unfoldable pub active_status : AlarmParseResult → RuleStatus
unfolding quality_degraded
active_status parsed =
    if any is_high (active_of parsed)
    then fail
    else if not (is_nil (active_of parsed)) || quality_degraded parsed
    then warn
    else pass

module _ (stable_hash : List Text → Text → Text) where
  unfoldable pub judge_active : AlarmParseResult → ActiveOutcome
  unfolding group_views sorted_records active_status skip_reason
  judge_active parsed =
      let active = active_of parsed in
      let groups = group_views stable_hash parsed.coverage.end_at active in
      let records = sorted_records stable_hash parsed.coverage.end_at active in
      let result : ActiveResult = record {
        status = active_status parsed;
        active_severity_counts = count_severities active;
        active_records = length active;
        active_groups = length groups;
        failed_files = failed_files parsed;
        findings = group_findings stable_hash parsed.coverage.end_at (take 100 groups);
        groups = take 100 groups;
        records = take 100 records;
        details_truncated = ltb 100 (length groups) || ltb 100 (length records);
        findings_truncated = ltb 100 (length groups);
      } in
      if is_nil parsed.records then skipped (skip_reason parsed.files) else judged result

  -- _run
  unfoldable pub run_active : Library → Budgets → List Source → Result TimeError ActiveOutcome
  unfolding parse_alarm_files judge_active
  run_active lib budgets [] = ok (skipped no_files)
  run_active lib budgets (s ∷ rest) = do
    parsed ← parse_alarm_files lib budgets (s ∷ rest)
    ok (judge_active parsed)
