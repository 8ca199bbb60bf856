-- ===== src/Alarm/Row.antt =====
-- _parse_row of app/inspectors/alarm/common.py: one CSV row becomes a record, or is excluded, and
-- the quality counts say why.
pub mod Quality
use patrol_x.Base.{
  ℕ, ◌+◌, ◌-◌, ◌/◌, Bool, true, false, not, ◌&&◌, ltb, List, [], ◌∷◌, ◌++◌, Option, none, some,
  if◌then◌else◌, Result, ok, err, ◌>>=◌,
}
use patrol_x.Base.Lists.{is_nil}
use patrol_x.Base.Text.{Text, codes, text_eq}
use patrol_x.Alarm.Records.{
  Severity, critical, high, medium, low, unknown, AlarmState, not_cleared, normal_cleared,
  reset_cleared, Moment, AlarmRecord, AlarmQuality, tally,
}
use patrol_x.Alarm.Header.{Header, Field, cell, normalize_token}
use patrol_x.Alarm.Objects.{Pair, object_unknown, normalize_object}
use patrol_x.Alarm.Times.{Stamp, TimeError, second, parse_alarm_time, parse_repeat_times}

abbrev pub Aliases : Type 0 → Type 0
Aliases V = List (Text × V)

module _ {V : Type 0} where
  -- `aliases.get(key)`
  unfoldable pub alias : Aliases V → Text → Option V
  alias [] key = none
  alias ((k, v) ∷ rest) key = if text_eq k key then some v else alias rest key

-- _STATE_ALIASES
abbrev pub state_aliases : Aliases AlarmState
state_aliases =
    (codes "not cleared", not_cleared)
    ∷ (codes "uncleared", not_cleared)
    ∷ (codes "active", not_cleared)
    ∷ (codes "未清除", not_cleared)
    ∷ (codes "未恢复", not_cleared)
    ∷ (codes "活动", not_cleared)
    ∷ (codes "normal cleared", normal_cleared)
    ∷ (codes "cleared", normal_cleared)
    ∷ (codes "自动清除", normal_cleared)
    ∷ (codes "手动清除", normal_cleared)
    ∷ (codes "正常清除", normal_cleared)
    ∷ (codes "已清除", normal_cleared)
    ∷ (codes "reset cleared", reset_cleared)
    ∷ (codes "reset", reset_cleared)
    ∷ (codes "重置清除", reset_cleared)
    ∷ (codes "清除重置", reset_cleared)
    ∷ []

-- _SEVERITY_ALIASES
abbrev pub severity_aliases : Aliases Severity
severity_aliases =
    (codes "critical", critical)
    ∷ (codes "紧急", critical)
    ∷ (codes "致命", critical)
    ∷ (codes "major", high)
    ∷ (codes "high", high)
    ∷ (codes "严重", high)
    ∷ (codes "重要", medium)
    ∷ (codes "medium", medium)
    ∷ (codes "minor", low)
    ∷ (codes "low", low)
    ∷ (codes "warning", low)
    ∷ (codes "warn", low)
    ∷ (codes "次要", low)
    ∷ []

abbrev pub or_unknown : Option Severity → Severity
or_unknown none = unknown
or_unknown (some s) = s

-- What the program takes from Python and its libraries.
pub record Library : Type 0 where
  pub lower : Text → Text
  pub is_word : ℕ → Bool
  pub fromisoformat : Text → Option Stamp
  pub strptime : Text → Text → Option Stamp

-- `value or None`
abbrev pub filled? : Text → Option Text
filled? s = if is_nil s then none else some s

-- A missing name: what stands for it, and the count of such rows.
abbrev pub name_or : Text → Text → Text
name_or s missing = if is_nil s then missing else s

abbrev pub count_missing : Text → ℕ → ℕ
count_missing s n = if is_nil s then n + 1 else n

abbrev pub app_unknown : Text
app_unknown = codes "应用未识别"

abbrev pub alarm_id_unknown : Text
alarm_id_unknown = codes "告警ID未识别"

abbrev pub alarm_name_unknown : Text
alarm_name_unknown = codes "告警名称未识别"

-- Microseconds as whole seconds: `int(delta.total_seconds())`
abbrev pub whole_seconds : ℕ → ℕ
whole_seconds micros = micros / second

abbrev pub is_not_cleared : AlarmState → Bool
is_not_cleared not_cleared = true
is_not_cleared _ = false

-- The duration, and the count of rows cleared before they were raised.
abbrev pub duration_of : Moment → Option Moment → Option ℕ
duration_of raised none = none
duration_of raised (some cleared) =
    if ltb cleared raised then none else some (whole_seconds (cleared - raised))

abbrev pub count_before : Moment → Option Moment → ℕ → ℕ
count_before raised none n = n
count_before raised (some cleared) n = if ltb cleared raised then n + 1 else n

module _ (lib : Library) (row : List Text) (header : Header) where
  abbrev pub at : Field → Text
  at f = cell row header f

  -- The part for `direct_objects`: the columns that are filled, under their canonical keys.
  abbrev pub direct : Text → Text → List Pair → List Pair
  direct key value rest = if is_nil value then rest else (key, value) ∷ rest

  abbrev pub direct_objects : List Pair
  direct_objects = direct (codes "Pod Name") (at Field.pod_name) (
      direct (codes "Located Device") (at Field.located_device) (
        direct (codes "Service Name") (at Field.service_name)
          (direct (codes "Alarm Source") (at Field.alarm_source) [])))

  abbrev pub row_object : Text
  row_object =
      normalize_object lib.is_word lib.lower (at Field.location_info) (at Field.additional_info)
        direct_objects

  -- No state: the row is excluded.
  unfoldable pub exclude_status : AlarmQuality → AlarmQuality
  exclude_status q = record q {
    invalid_status_rows = q.invalid_status_rows + 1;
    excluded_rows = q.excluded_rows + 1;
    unknown_status_values =
        (if is_nil (at Field.state)
          then q.unknown_status_values
          else tally (at Field.state) q.unknown_status_values);
  }

  unfoldable pub row_severity : Severity
  row_severity = or_unknown (alias severity_aliases (normalize_token lib.lower (at Field.severity)))

  abbrev pub is_unknown : Severity → Bool
  is_unknown unknown = true
  is_unknown _ = false

  unfoldable pub note_severity : AlarmQuality → AlarmQuality
  note_severity q =
      if is_unknown row_severity && not (is_nil (at Field.severity))
      then record q {
        unknown_severity_values = tally (at Field.severity) q.unknown_severity_values;
      }
      else q

  -- No moment of raising: the row is excluded.
  unfoldable pub exclude_raised : AlarmQuality → AlarmQuality
  exclude_raised q = record q {
    invalid_raised_time_rows = q.invalid_raised_time_rows + 1;
    excluded_rows = q.excluded_rows + 1;
  }

  abbrev pub missing : Option Moment → Bool
  missing none = true
  missing (some t) = false

  -- The counts about the clearing and the repeats of a row that is kept.
  unfoldable pub note_times : AlarmState → Moment → Option Moment → AlarmQuality → AlarmQuality
  note_times state raised cleared q =
      let cleared_raw = at Field.cleared_at in
      record q {
        invalid_cleared_time_rows =
            (if not (is_nil cleared_raw) && missing cleared
              then q.invalid_cleared_time_rows + 1
              else q.invalid_cleared_time_rows);
        missing_cleared_time_rows =
            (if not (is_not_cleared state) && is_nil cleared_raw
              then q.missing_cleared_time_rows + 1
              else q.missing_cleared_time_rows);
        cleared_before_raised_rows = count_before raised cleared q.cleared_before_raised_rows;
      }

  abbrev pub absent : Option ℕ → Bool
  absent none = true
  absent (some n) = false

  unfoldable pub row_repeats : Option ℕ
  row_repeats =
      if is_nil (at Field.repeat_times) then none else parse_repeat_times (at Field.repeat_times)

  unfoldable pub note_repeats : AlarmQuality → AlarmQuality
  note_repeats q =
      if is_nil (at Field.repeat_times)
      then record q { missing_repeat_times_rows = q.missing_repeat_times_rows + 1 }
      else if absent row_repeats
      then record q { invalid_repeat_times_rows = q.invalid_repeat_times_rows + 1 }
      else q

  unfoldable pub note_names : AlarmQuality → AlarmQuality
  note_names q = record q {
    missing_app_name_rows = count_missing (at Field.app_name) q.missing_app_name_rows;
    missing_alarm_id_rows = count_missing (at Field.alarm_id) q.missing_alarm_id_rows;
    missing_alarm_name_rows = count_missing (at Field.alarm_name) q.missing_alarm_name_rows;
    missing_object_rows =
        (if text_eq row_object object_unknown
          then q.missing_object_rows + 1
          else q.missing_object_rows);
  }

  unfoldable pub build_record : Text → ℕ → AlarmState → Moment → Option Moment → AlarmRecord
  unfolding row_severity row_repeats
  build_record source_file line_no state raised cleared = record {
    app_name = name_or (at Field.app_name) app_unknown;
    alarm_id = name_or (at Field.alarm_id) alarm_id_unknown;
    alarm_name = name_or (at Field.alarm_name) alarm_name_unknown;
    severity = row_severity;
    state = state;
    raised_at = raised;
    cleared_at = cleared;
    duration_sec = duration_of raised cleared;
    repeat_times = row_repeats;
    object_key = row_object;
    serial_no = filled? (at Field.serial_no);
    source_file = source_file;
    line_no = line_no;
    location_info = filled? (at Field.location_info);
    additional_info = filled? (at Field.additional_info);
  }

  abbrev pub Parsed : Type 0
  Parsed = Result TimeError (Option AlarmRecord × AlarmQuality)

  abbrev pub time_at : Field → Result TimeError (Option Moment)
  time_at f = parse_alarm_time lib.fromisoformat lib.strptime (at f)

  unfoldable pub parse_raised : Text → ℕ → AlarmState → Option Moment → AlarmQuality → Parsed
  unfolding exclude_raised note_times note_repeats note_names build_record
  parse_raised source_file line_no state none q = ok (none, exclude_raised q)
  parse_raised source_file line_no state (some raised) q = do
    cleared ← time_at Field.cleared_at
    ok (
      some (build_record source_file line_no state raised cleared),
      note_names (note_repeats (note_times state raised cleared q)),
    )

  unfoldable pub parse_stated : Text → ℕ → Option AlarmState → AlarmQuality → Parsed
  unfolding exclude_status note_severity parse_raised
  parse_stated source_file line_no none q = ok (none, exclude_status q)
  parse_stated source_file line_no (some state) q = do
    raised ← time_at Field.raised_at
    parse_raised source_file line_no state raised (note_severity q)

  unfoldable pub parse_row : Text → ℕ → AlarmQuality → Parsed
  unfolding parse_stated alias
  parse_row source_file line_no q =
      parse_stated source_file line_no
        (alias state_aliases (normalize_token lib.lower (at Field.state))) q
