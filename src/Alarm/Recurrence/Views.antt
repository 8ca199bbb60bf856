-- ===== src/Alarm/Recurrence/Views.antt =====
-- _summary_view, _object_views, _bucket_views and their orders of app/inspectors/alarm/recurrence.py.
-- `stable_hash`, a digest of its arguments, is a parameter.
use patrol_x.Base.{
  ℕ, ◌+◌, Bool, true, false, not, ◌&&◌, ◌||◌, ltb, ◌==◌, List, [], ◌∷◌, map, Option, none, some,
  if◌then◌else◌,
}
use patrol_x.Base.Lists.{length, sum, sum_of, take, max_or_zero}
use patrol_x.Base.Sort.{sort}
use patrol_x.Base.Text.{Text, codes}
use patrol_x.Alarm.Records.{AlarmRecord, AlarmState, Moment, unknown}
use patrol_x.Base.Text.{text_le}
use patrol_x.Alarm.Parse.{raised_times, min_from, max_from, StateCounts, count_states}
use patrol_x.Alarm.Groups.{
  Key, Buckets, group_onto, severity_rank, SeverityCounts, count_severities, highest_severity, Ref,
  source_refs,
}
use patrol_x.Alarm.Recurrence.Flags.{
  Flags, flags, duration, valid_repeats, min_adjacent_gap, with_repeats,
}

-- _MAX_DETAILS
abbrev pub max_details : ℕ
max_details = 100

-- What the two kinds of summary share.
pub record Summary : Type 0 where
  pub app_name : Text
  pub alarm_id : Text
  pub alarm_name : Text
  pub lifecycle_count : ℕ
  pub not_cleared_count : ℕ
  pub raw_repeat_times_total : ℕ
  pub max_single_repeat_times : ℕ
  pub estimated_report_total : ℕ
  pub repeat_totals_complete : Bool
  pub first_raised_at : Option Moment
  pub last_raised_at : Option Moment
  pub max_duration_sec : Option ℕ
  pub min_adjacent_gap_sec : Option ℕ
  pub status_counts : StateCounts
  pub severity_counts : SeverityCounts
  pub flags : Flags
  pub source_refs : List Ref

pub record ObjectView : Type 0 where
  pub object : Text
  pub summary : Summary

pub record TypeView : Type 0 where
  pub type_key : Text
  pub summary : Summary
  pub object_count : ℕ
  pub objects : List ObjectView
  pub objects_truncated : Bool

abbrev pub first_of_times : List Moment → Option Moment
first_of_times [] = none
first_of_times (t ∷ ts) = some (min_from t ts)

abbrev pub last_of_times : List Moment → Option Moment
last_of_times [] = none
last_of_times (t ∷ ts) = some (max_from t ts)

-- The durations that are known
abbrev pub durations : Option Moment → List AlarmRecord → List ℕ
durations end [] = []
durations end (r ∷ rest) = with_repeats (duration r end) (durations end rest)

-- `max(xs, default=None)`
abbrev pub max_or_none : List ℕ → Option ℕ
max_or_none [] = none
max_or_none (x ∷ xs) = some (max_from x xs)

-- _summary_view without its objects and its key
unfoldable pub summary_view : Option Moment → Text → Text → Text → List AlarmRecord → Summary
unfolding flags duration min_adjacent_gap source_refs
summary_view end app_name alarm_id alarm_name records =
    let repeats = valid_repeats records in
    record {
      app_name = app_name;
      alarm_id = alarm_id;
      alarm_name = alarm_name;
      lifecycle_count = length records;
      not_cleared_count = count_states records AlarmState.not_cleared;
      raw_repeat_times_total = sum repeats;
      max_single_repeat_times = max_or_zero repeats;
      estimated_report_total = sum_of (λ n. 1 + n) repeats;
      repeat_totals_complete = length repeats == length records;
      first_raised_at = first_of_times (raised_times records);
      last_raised_at = last_of_times (raised_times records);
      max_duration_sec = max_or_none (durations end records);
      min_adjacent_gap_sec = min_adjacent_gap records;
      status_counts = count_states records;
      severity_counts = count_severities records;
      flags = flags records end;
      source_refs = take max_details (source_refs records);
    }

-- Tuples in a sort key: the smaller first, or the larger first, and the rest on a tie.
abbrev pub ascending : ℕ → ℕ → Bool → Bool
ascending a b tie = if ltb a b then true else if ltb b a then false else tie

abbrev pub descending : ℕ → ℕ → Bool → Bool
descending a b tie = ascending b a tie

abbrev pub highest : Summary → ℕ
highest s = severity_rank (highest_severity s.severity_counts)

unfoldable pub object_le : ObjectView → ObjectView → Bool
unfolding highest_severity text_le
object_le a b = ascending (highest a.summary) (highest b.summary) (
    descending a.summary.raw_repeat_times_total b.summary.raw_repeat_times_total
      (descending a.summary.lifecycle_count b.summary.lifecycle_count (text_le a.object b.object)))

abbrev pub name_of : List AlarmRecord → Text
name_of [] = []
name_of (r ∷ rest) = r.alarm_name

abbrev pub object_of : Key → Text
object_of [] = []
object_of (o ∷ rest) = o

-- _object_views
unfoldable pub object_views : Option Moment → Text → Text → List AlarmRecord → List ObjectView
unfolding group_onto summary_view sort object_le
object_views end app_name alarm_id records = sort object_le (
    map
      (λ (k, rs). record {
        object = object_of k;
        summary = summary_view end app_name alarm_id (name_of rs) rs;
      })
      (group_onto (λ r. r.object_key ∷ []) [] records))

-- _has_other_risk
unfoldable pub has_other_risk : Flags → Bool
has_other_risk f =
    f.multi_lifecycle || f.repeat_reporting || f.short_alarm || f.rapid_recurrence
    || f.reset_cleared

-- _risk_rank
unfoldable pub risk_rank : Summary → ℕ
unfolding has_other_risk
risk_rank s =
    let f = s.flags in
    let active = ltb 0 s.not_cleared_count in
    if active && (f.repeat_reporting || f.rapid_recurrence)
    then 0
    else if active && has_other_risk f
    then 1
    else if not active
        && (f.multi_lifecycle || f.repeat_reporting || f.short_alarm || f.rapid_recurrence)
    then 2
    else if f.reset_cleared || ltb 0 (s.severity_counts unknown)
    then 3
    else 4

-- _is_risky
unfoldable pub is_risky : Summary → Bool
unfolding has_other_risk
is_risky s = has_other_risk s.flags || ltb 0 (s.severity_counts unknown)

-- _type_sort_key
unfoldable pub type_le : TypeView → TypeView → Bool
unfolding risk_rank highest_severity text_le
type_le a b = ascending (risk_rank a.summary) (risk_rank b.summary) (
    ascending (highest a.summary) (highest b.summary) (
      descending a.summary.raw_repeat_times_total b.summary.raw_repeat_times_total (
        descending a.summary.lifecycle_count b.summary.lifecycle_count
          (text_le a.type_key b.type_key))))

abbrev pub type_app : Key → Text
type_app [] = []
type_app (a ∷ rest) = a

abbrev pub type_alarm : Key → Text
type_alarm [] = []
type_alarm (a ∷ rest) = type_app rest

module _ (stable_hash : List Text → Text → Text) (end : Option Moment) where
  -- _summary_view with `include_objects=True`
  unfoldable pub type_view : Key → List AlarmRecord → TypeView
  unfolding object_views
  type_view k records =
      let objects = object_views end (type_app k) (type_alarm k) records in
      record {
        type_key = stable_hash k (codes "alarm.recurrence:");
        summary = summary_view end (type_app k) (type_alarm k) (name_of records) records;
        object_count = length objects;
        objects = take max_details objects;
        objects_truncated = ltb max_details (length objects);
      }

  abbrev pub type_views : Buckets → List TypeView
  type_views [] = []
  type_views ((k, rs) ∷ rest) = type_view k rs ∷ type_views rest

  -- _bucket_views
  unfoldable pub bucket_views : List AlarmRecord → List TypeView
  unfolding type_view sort type_le group_onto
  bucket_views records =
      sort type_le (type_views (group_onto (λ r. r.app_name ∷ r.alarm_id ∷ []) [] records))
