-- ===== src/Alarm/Tests.antt =====
-- A small alarm file, through the parser and both rules.
use patrol_x.Base.{
  ℕ, ◌+◌, ◌*◌, ◌≤◌, ◌≡◌, refl, arith, Bool, true, false, List, [], ◌∷◌, map, Option, none, some,
  Result, ok, err, ltb, ◌==◌,
}
use mathlib.Core.Logic.{◌↔◌}
use patrol_x.Base.Lists.{length, any, keep, take, sum_of, All}
use patrol_x.Base.Sort.Laws.{Ascends}
use patrol_x.Base.Text.{Text, codes, starts_with, join_char}
use patrol_x.Alarm.Records.{AlarmRecord, AlarmQuality, empty_quality}
use patrol_x.Alarm.Header.{Header, resolve_header, cell, header_aliases}
use patrol_x.Alarm.Times.{parse_alarm_time, parse_repeat_times, second, TimeError}
use patrol_x.Alarm.Row.{Library, parse_row}
use patrol_x.Alarm.Row.Quality.{Counts, parse_row-Counts}
use patrol_x.Alarm.Files.{Source, table, Budgets}
use patrol_x.Alarm.Parse.{AlarmParseResult, parse_alarm_files, no_totals, finish_parse}
use patrol_x.Alarm.Parse.Accounts.{IsAccounted, parse_alarm_files-IsAccounted}
use patrol_x.Alarm.Groups.{severity_rank}
use patrol_x.Rules.{pass, fail}
use patrol_x.Alarm.Degraded.{quality_degraded}
use patrol_x.Alarm.Recurrence.Flags.{rapid_recurrence}
use patrol_x.Alarm.Recurrence.Rapid.{raised_within, rapid_recurrence_iff}
use patrol_x.Alarm.Recurrence.Views.{TypeView, bucket_views, is_risky, type_le, max_details}
use patrol_x.Alarm.Recurrence.Verdict.{finding_of, findings, metadata, status_of}
use patrol_x.Alarm.Recurrence.Verdict.Guarantees.{
  rank_of, status_of_iff, findings_eq, bucket_views-Ascends,
}
use patrol_x.Alarm.Recurrence.Verdict.Sums.{IsConserved, bucket_views-IsConserved}
use patrol_x.Base.Lists.Every.{Some}
use patrol_x.Alarm.Recurrence.Verdict.Sources.{IsSourced, findings-IsSourced}
use patrol_x.Alarm.ActiveState.{GroupView, active_of, active_status, group_views, group_le, is_high}
use patrol_x.Alarm.ActiveState.Guarantees.{
  IsActive, IsGrave, high_group, active_status_iff, group_views_partition,
}

-- A moment is written as a run of marks, one for each second.
abbrev lib : Library
lib = record {
  lower = λ s. s;
  is_word = λ c. true;
  fromisoformat = λ s. some (record { clock = 40_000 * second + length s * second; zone = none });
  strptime = λ s f. none;
}

abbrev headers : List Text
headers =
    codes "app name"
    ∷ codes "alarm id"
    ∷ codes "alarm name"
    ∷ codes "severity"
    ∷ codes "alarm time"
    ∷ codes "status"
    ∷ codes "repeat times"
    ∷ []

abbrev cells : Text → Text → List Text
cells time repeats =
    codes "app" ∷ codes "7" ∷ codes "link" ∷ codes "major" ∷ time ∷ codes "active" ∷ repeats ∷ []

abbrev source : Source
source = record {
  name = codes "alarm/a.csv";
  size = some 100;
  content =
      table headers
        (record { line_num = 2; cells = cells (codes "x") (codes "2") }
          ∷ record { line_num = 3; cells = cells (codes "xx") (codes "3") }
          ∷ record { line_num = 4; cells = cells (codes "x") (codes "2") }
          ∷ record { line_num = 5; cells = cells [] (codes "2") }
          ∷ record { line_num = 6; cells = cells (codes "xxx") [] }
          ∷ [])
        false;
}

-- A task may read four rows.
abbrev budgets : Budgets
budgets = record { max_file_bytes = 1000; max_file_rows = 5; max_task_rows = 5 }

abbrev value_of : {A : Type 0} → Result TimeError A → A → A
value_of (ok x) y = x
value_of (err e) y = y

abbrev is_ok : {A : Type 0} → Result TimeError A → Bool
is_ok (ok x) = true
is_ok (err e) = false

value_of-eq : {A : Type 0} (r : Result TimeError A) (y : A) → is_ok r ≡ true → r ≡ ok (value_of r y)
value_of-eq (ok x) y h = refl
value_of-eq (err e) y h = ground arith

program : Unit {0}
unfolding parse_alarm_files header_aliases starts_with status_of active_status bucket_views
    group_views metadata finish_parse join_char cell parse_alarm_time parse_repeat_times
program = tt

abbrev result : AlarmParseResult
result = value_of (parse_alarm_files lib budgets (source ∷ [])) (finish_parse no_totals)

reads : is_ok (parse_alarm_files lib budgets (source ∷ [])) ≡ true
unfolding program
reads = refl

parsed : parse_alarm_files lib budgets (source ∷ []) ≡ ok result
parsed = value_of-eq (parse_alarm_files lib budgets (source ∷ [])) (finish_parse no_totals) reads

parsed_counts :
    (result.raw_rows ≡ 5)
    × (length result.records ≡ 3)
    × (result.quality.excluded_rows ≡ 1)
    × (result.duplicate_rows ≡ 1)
unfolding program
parsed_counts = (refl, refl, refl, refl)

parse_alarm_files-IsAccounted_example : IsAccounted budgets result
parse_alarm_files-IsAccounted_example =
    parse_alarm_files-IsAccounted lib budgets (source ∷ []) result parsed

abbrev header : Header
header = resolve_header lib.lower headers

abbrev row : Option AlarmRecord × AlarmQuality
row =
    value_of (parse_row lib (cells (codes "x") []) header (codes "a") 2 empty_quality)
      (none, empty_quality)

row_reads : is_ok (parse_row lib (cells (codes "x") []) header (codes "a") 2 empty_quality) ≡ true
unfolding program
row_reads = refl

row_parsed : parse_row lib (cells (codes "x") []) header (codes "a") 2 empty_quality ≡ ok row
row_parsed =
    value_of-eq (parse_row lib (cells (codes "x") []) header (codes "a") 2 empty_quality)
      (none, empty_quality) row_reads

parse_row-Counts_example : Counts empty_quality row.0 row.1
parse_row-Counts_example =
    parse_row-Counts lib (cells (codes "x") []) header (codes "a") 2 empty_quality row.1 row.0
      row_parsed

abbrev hash : List Text → Text → Text
hash parts prefix = prefix

abbrev types : List TypeView
types = bucket_views hash result.coverage.end_at result.records

rapid_recurrence_iff_example :
    (rapid_recurrence result.records ≡ true) ↔ ((lo : ℕ) × (3 ≤ raised_within lo result.records))
rapid_recurrence_iff_example = rapid_recurrence_iff result.records

recurrence_fails : status_of result types ≡ fail
unfolding program
recurrence_fails = refl

status_of_iff_example :
    ((status_of result types ≡ fail) ↔ (any (λ v. rank_of v == 0) types ≡ true))
    × ((status_of result types ≡ pass)
        ↔ ((any (λ v. ltb (rank_of v) 4) types ≡ false) × (quality_degraded result ≡ false)))
status_of_iff_example = status_of_iff result types

findings_eq_example :
    findings types ≡ map finding_of (take max_details (keep (λ v. is_risky v.summary) types))
findings_eq_example = findings_eq types

bucket_views-Ascends_example : Ascends type_le rank_of types
bucket_views-Ascends_example = bucket_views-Ascends hash result.coverage.end_at result.records

bucket_views-IsConserved_example : IsConserved result.records types
bucket_views-IsConserved_example =
    bucket_views-IsConserved hash result.coverage.end_at result.records

findings-IsSourced_example : All (IsSourced hash result.records) (findings types)
findings-IsSourced_example = findings-IsSourced hash result.coverage.end_at result.records

active_status_iff_example :
    ((active_status result ≡ fail) ↔ Some IsGrave result.records)
    × ((active_status result ≡ pass)
        ↔ (All (λ r. ¬ IsActive r) result.records × (quality_degraded result ≡ false)))
active_status_iff_example = active_status_iff result

abbrev groups : List GroupView
groups = group_views hash result.coverage.end_at (active_of result)

group_views_partition_example :
    (sum_of (λ g. g.lifecycle_count) groups ≡ length (active_of result))
    × (any high_group groups ≡ any is_high (active_of result))
    × Ascends group_le (λ g. severity_rank g.severity) groups
group_views_partition_example = group_views_partition hash result.coverage.end_at (active_of result)
