-- ===== src/Alarm/Recurrence/Flags.antt =====
-- _duration, _rapid_recurrence, _flags and _min_adjacent_gap of app/inspectors/alarm/recurrence.py.
use patrol_x.Base.{
  ℕ, ◌-◌, ◌*◌, min, Bool, false, not, ◌&&◌, ◌||◌, ltb, leb, List, [], ◌∷◌, Option, none, some,
  if◌then◌else◌,
}
use patrol_x.Base.Lists.{length, any, sum}
use patrol_x.Base.Sort.{sort}
use patrol_x.Alarm.Records.{AlarmRecord, AlarmState, Moment}
use patrol_x.Alarm.Times.{second}
use patrol_x.Alarm.Row.{whole_seconds, is_not_cleared}
use patrol_x.Alarm.Parse.{raised_times, in_state}

abbrev pub short_alarm_sec : ℕ
short_alarm_sec = 300

abbrev pub rapid_recurrence_window_sec : ℕ
rapid_recurrence_window_sec = 3600

abbrev pub rapid_recurrence_min_count : ℕ
rapid_recurrence_min_count = 3

-- The window in microseconds: `span <= RAPID_RECURRENCE_WINDOW_SEC` for a span of fractional seconds.
abbrev pub window : ℕ
window = rapid_recurrence_window_sec * second

-- `max(0, int((end - raised).total_seconds()))`
abbrev pub until : Option Moment → Moment → Option ℕ
until none raised = none
until (some end) raised = some (whole_seconds (end - raised))

abbrev pub duration_from : Option Moment → AlarmRecord → Option Moment → Option ℕ
duration_from end r (some cleared) = r.duration_sec
duration_from end r none = if is_not_cleared r.state then until end r.raised_at else none

-- _duration: `parsed` stands by the end of its coverage.
unfoldable pub duration : AlarmRecord → Option Moment → Option ℕ
duration r end = duration_from end r r.cleared_at

-- The loop over the windows of three neighbours, each by its first and last moment.
unfoldable pub window_within : List Moment → Bool
window_within [] = false
window_within (a ∷ []) = false
window_within (a ∷ b ∷ []) = false
window_within (a ∷ b ∷ c ∷ rest) = leb (c - a) window || window_within (b ∷ c ∷ rest)

unfoldable pub rapid_recurrence : List AlarmRecord → Bool
unfolding window_within sort
rapid_recurrence records =
    if ltb (length records) rapid_recurrence_min_count
    then false
    else window_within (sort leb (raised_times records))

-- `[record.repeat_times for record in records if record.repeat_times is not None]`
abbrev pub with_repeats : Option ℕ → List ℕ → List ℕ
with_repeats none l = l
with_repeats (some n) l = n ∷ l

abbrev pub valid_repeats : List AlarmRecord → List ℕ
valid_repeats [] = []
valid_repeats (r ∷ rest) = with_repeats r.repeat_times (valid_repeats rest)

pub record Flags : Type 0 where
  pub multi_lifecycle : Bool
  pub repeat_reporting : Bool
  pub short_alarm : Bool
  pub rapid_recurrence : Bool
  pub reset_cleared : Bool

abbrev pub is_short : Option ℕ → Bool
is_short none = false
is_short (some d) = leb d short_alarm_sec

unfoldable pub flags : List AlarmRecord → Option Moment → Flags
unfolding rapid_recurrence duration
flags records end = record {
  multi_lifecycle = ltb 1 (length records);
  repeat_reporting = ltb 0 (sum (valid_repeats records));
  short_alarm = any (λ r. not (is_not_cleared r.state) && is_short (duration r end)) records;
  rapid_recurrence = rapid_recurrence records;
  reset_cleared = any (in_state AlarmState.reset_cleared) records;
}

-- The least gap between neighbours, in whole seconds.
abbrev pub least_gap : Moment → List Moment → Option ℕ
least_gap a [] = none
least_gap a (b ∷ rest) = elim (least_gap b rest) [
  | none ↦ some (whole_seconds (b - a))
  | some g ↦ some (min (whole_seconds (b - a)) g)
]

abbrev pub gaps : List Moment → Option ℕ
gaps [] = none
gaps (a ∷ rest) = least_gap a rest

unfoldable pub min_adjacent_gap : List AlarmRecord → Option ℕ
unfolding sort
min_adjacent_gap records = gaps (sort leb (raised_times records))
