-- ===== src/Alarm/Recurrence/Verdict.antt =====
-- _findings, _metrics, _metadata and _run of app/inspectors/alarm/recurrence.py. Titles, evidence
-- texts and the constant parts of the metadata are left out.
pub mod Guarantees
pub mod Sums
pub mod Sources
use patrol_x.Base.{
  ℕ, zero, suc, ◌+◌, Bool, true, false, not, ◌&&◌, ◌||◌, ltb, List, [], ◌∷◌, Option, none, some,
  if◌then◌else◌, Result, ok, ◌>>=◌,
}
use patrol_x.Base.Lists.{length, any, all, keep, take, count_if, sum, sum_of, is_nil}
use patrol_x.Base.Text.{Text}
use patrol_x.Alarm.Records.{
  AlarmRecord, AlarmState, reset_cleared, AlarmFileResult, FileStatus, failed, FileError,
  format_invalid, Severity, AlarmCoverage,
}
use patrol_x.Alarm.Times.{TimeError}
use patrol_x.Alarm.Row.{Library}
use patrol_x.Alarm.Files.{Source, Budgets}
use patrol_x.Alarm.Parse.{AlarmParseResult, parse_alarm_files, in_state}
use patrol_x.Rules.{RuleStatus, pass, warn, fail, skip}
use patrol_x.Alarm.Degraded.{not_matched, quality_degraded, failed_files}
use patrol_x.Alarm.Groups.{highest_severity, SeverityCounts, Ref, severity_order}
use patrol_x.Alarm.Recurrence.Flags.{Flags, valid_repeats}
use patrol_x.Alarm.Recurrence.Views.{Summary, TypeView, max_details, bucket_views, is_risky}

pub data SkipReason : Type 0 where
  no_files format_unsuitable no_records : SkipReason

pub record Finding : Type 0 where
  pub finding_id : Text
  pub severity : Severity
  -- none: `source_refs[0]` of an empty list
  pub source : Option Ref

abbrev pub head_of {ℓ} : {A : Type ℓ} → List A → Option A
head_of [] = none
head_of (x ∷ xs) = some x

abbrev pub finding_of : TypeView → Finding
finding_of v = record {
  finding_id = v.type_key;
  severity = highest_severity v.summary.severity_counts;
  source = head_of v.summary.source_refs;
}

-- The loop of _findings: it passes over what is not risky and stops at `room` findings.
unfoldable pub findings_upto : ℕ → List TypeView → List Finding
unfolding is_risky highest_severity
findings_upto room [] = []
findings_upto zero (v ∷ rest) = []
findings_upto (suc room) (v ∷ rest) =
    let skipped = findings_upto (suc room) rest in
    let taken = findings_upto room rest in
    if is_risky v.summary then finding_of v ∷ taken else skipped

abbrev pub findings : List TypeView → List Finding
findings types = findings_upto max_details types

-- The values of _metrics
pub record Metrics : Type 0 where
  pub matched_files : ℕ
  pub valid_lifecycles : ℕ
  pub alarm_types : ℕ
  pub multi_lifecycle_types : ℕ
  pub repeat_reporting_types : ℕ
  pub short_alarm_types : ℕ
  pub rapid_recurrence_types : ℕ
  pub reset_cleared_lifecycles : ℕ
  pub repeat_positive_lifecycles : ℕ
  pub raw_repeat_times_total : ℕ
  pub estimated_reports_total : ℕ

-- _metrics
unfoldable pub metrics : AlarmParseResult → List TypeView → Metrics
metrics parsed types =
    let repeats = valid_repeats parsed.records in
    record {
      matched_files = count_if (λ f. not (not_matched f.status)) parsed.files;
      valid_lifecycles = length parsed.records;
      alarm_types = length types;
      multi_lifecycle_types = count_if (λ v. v.summary.flags.multi_lifecycle) types;
      repeat_reporting_types = count_if (λ v. v.summary.flags.repeat_reporting) types;
      short_alarm_types = count_if (λ v. v.summary.flags.short_alarm) types;
      rapid_recurrence_types = count_if (λ v. v.summary.flags.rapid_recurrence) types;
      reset_cleared_lifecycles = count_if (in_state reset_cleared) parsed.records;
      repeat_positive_lifecycles = count_if (ltb 0) repeats;
      raw_repeat_times_total = sum repeats;
      estimated_reports_total = sum_of (λ n. 1 + n) repeats;
    }

-- What _metadata computes
pub record Metadata : Type 0 where
  pub coverage : AlarmCoverage
  pub source_files : ℕ
  pub failed_files : ℕ
  pub types_truncated : Bool
  pub details_truncated : Bool
  pub findings_truncated : Bool
  pub severity_counts : SeverityCounts
  pub types : List TypeView

-- _metadata
unfoldable pub metadata : AlarmParseResult → List TypeView → Metadata
unfolding is_risky
metadata parsed types = record {
  coverage = parsed.coverage;
  source_files = length parsed.files;
  failed_files = failed_files parsed;
  types_truncated = ltb max_details (length types);
  details_truncated =
      ltb max_details (length types) || any (λ v. v.objects_truncated) (take max_details types);
  findings_truncated = ltb max_details (count_if (λ v. is_risky v.summary) types);
  severity_counts = (λ s. sum_of (λ v. v.summary.severity_counts s) types);
  types = take max_details types;
}

pub data RuleResult : Type 0 where
  skipped : SkipReason → RuleResult
  judged : RuleStatus → Metrics → List Finding → Metadata → RuleResult

abbrev pub is_invalid_format : AlarmFileResult → Bool
is_invalid_format f = elim f.status [
  | failed ↦ elim f.error_code [ some format_invalid ↦ true | _ ↦ false ]
  | _ ↦ false
]

unfoldable pub skip_reason : List AlarmFileResult → SkipReason
skip_reason files =
    if not (is_nil files) && all is_invalid_format files then format_unsuitable else no_records

-- `has_active_repeat`, for one type
abbrev pub is_active_repeat : TypeView → Bool
is_active_repeat v =
    ltb 0 v.summary.not_cleared_count
    && (v.summary.flags.repeat_reporting || v.summary.flags.rapid_recurrence)

unfoldable pub status_of : AlarmParseResult → List TypeView → RuleStatus
unfolding is_risky quality_degraded
status_of parsed types =
    if any is_active_repeat types
    then fail
    else if any (λ v. is_risky v.summary) types || quality_degraded parsed
    then warn
    else pass

module _ (stable_hash : List Text → Text → Text) where
  abbrev pub types_of : AlarmParseResult → List TypeView
  types_of parsed = bucket_views stable_hash parsed.coverage.end_at parsed.records

  -- What follows the parsing.
  unfoldable pub judge : AlarmParseResult → RuleResult
  unfolding bucket_views findings_upto metrics metadata skip_reason status_of
  judge parsed =
      let types = types_of parsed in
      let result =
        judged (status_of parsed types) (metrics parsed types) (findings types)
          (metadata parsed types) in
      if is_nil parsed.records then skipped (skip_reason parsed.files) else result

  -- _run
  unfoldable pub run : Library → Budgets → List Source → Result TimeError RuleResult
  unfolding parse_alarm_files judge
  run lib budgets [] = ok (skipped no_files)
  run lib budgets (s ∷ rest) = do
    parsed ← parse_alarm_files lib budgets (s ∷ rest)
    ok (judge parsed)
