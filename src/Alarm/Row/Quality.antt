-- ===== src/Alarm/Row/Quality.antt =====
-- The quality counts that one row leaves.
use mathlib.Core.Path.{subst₂}
use patrol_x.Base.{ℕ, ◌+◌, ◌≡◌, refl, List, Option, none, some, arith, ok, >>=-eq-ok}
use patrol_x.Base.Text.{Text}
use patrol_x.Alarm.Records.{AlarmState, Moment, AlarmRecord, AlarmQuality}
use patrol_x.Alarm.Header.{Header, Field}
use patrol_x.Alarm.Row.{
  Library, time_at, exclude_status, note_severity, exclude_raised, note_times, row_repeats,
  note_repeats, note_names, build_record, parse_raised, parse_stated, parse_row,
}

abbrev pub excluded_by : Option AlarmRecord → ℕ
excluded_by none = 1
excluded_by (some r) = 0

-- Of a record that was made: how many repeat counts it lacks.
abbrev pub lacks_repeats : Option AlarmRecord → ℕ
lacks_repeats none = 0
lacks_repeats (some r) = elim r.repeat_times [ none ↦ 1 | some n ↦ 0 ]

-- How the counts grew from `q` to `q'` by a row that gave `found`.
pub record Counts (q : AlarmQuality) (found : Option AlarmRecord) (q' : AlarmQuality) : Type 0 where
  pub excluded : q'.excluded_rows ≡ q.excluded_rows + excluded_by found
  pub reasons :
      q'.invalid_status_rows + q'.invalid_raised_time_rows
      ≡ q.invalid_status_rows + q.invalid_raised_time_rows + excluded_by found
  pub repeats :
      q'.invalid_repeat_times_rows + q'.missing_repeat_times_rows
      ≡ q.invalid_repeat_times_rows + q.missing_repeat_times_rows + lacks_repeats found

module _ (lib : Library) (row : List Text) (header : Header) where
  note_severity-Counts :
      (q q' : AlarmQuality) (found : Option AlarmRecord)
      → Counts (note_severity lib row header q) found q'
      → Counts q found q'
  unfolding note_severity
  note_severity-Counts q q' found h = ground arith

  kept-Counts :
      (source : Text) (line : ℕ) (state : AlarmState) (raised : Moment) (cleared : Option Moment)
      (q : AlarmQuality)
      → Counts q (some (build_record lib row header source line state raised cleared)) (
          note_names lib row header
            (note_repeats lib row header (note_times lib row header state raised cleared q)))
  unfolding note_names note_repeats note_times build_record row_repeats
  kept-Counts source line state raised cleared q = record {
    excluded = ground arith;
    reasons = ground arith;
    repeats = ground arith;
  }

  parse_raised-Counts :
      (source : Text) (line : ℕ) (state : AlarmState) (raised : Option Moment) (q q' : AlarmQuality)
      (found : Option AlarmRecord)
      → parse_raised lib row header source line state raised q ≡ ok (found, q')
      → Counts q found q'
  unfolding parse_raised
  parse_raised-Counts source line state none q q' found h = read (ground arith) (ground arith)
    where
      read : none ≡ found → exclude_raised lib row header q ≡ q' → Counts q found q'
      read a b = subst₂ (Counts q) a b (
          unfold exclude_raised in
          record { excluded = refl; reasons = omega arith; repeats = omega arith })
  parse_raised-Counts source line state (some raised) q q' found h =
      let (cleared, e, f) = >>=-eq-ok (time_at lib row header Field.cleared_at) _ h in
      read cleared (ground arith) (ground arith)
    where
      kept : Option Moment → Option AlarmRecord
      kept cleared = some (build_record lib row header source line state raised cleared)

      noted : Option Moment → AlarmQuality
      noted cleared =
          note_names lib row header
            (note_repeats lib row header (note_times lib row header state raised cleared q))

      read :
          (cleared : Option Moment) → kept cleared ≡ found → noted cleared ≡ q' → Counts q found q'
      read cleared a b = subst₂ (Counts q) a b (kept-Counts source line state raised cleared q)

  parse_stated-Counts :
      (source : Text) (line : ℕ) (state : Option AlarmState) (q q' : AlarmQuality)
      (found : Option AlarmRecord)
      → parse_stated lib row header source line state q ≡ ok (found, q')
      → Counts q found q'
  unfolding parse_stated
  parse_stated-Counts source line none q q' found h = read (ground arith) (ground arith)
    where
      read : none ≡ found → exclude_status lib row header q ≡ q' → Counts q found q'
      read a b = subst₂ (Counts q) a b (
          unfold exclude_status in
          record { excluded = refl; reasons = omega arith; repeats = omega arith })
  parse_stated-Counts source line (some state) q q' found h =
      let (raised, e, f) = >>=-eq-ok (time_at lib row header Field.raised_at) _ h in
      note_severity-Counts q q' found
        (parse_raised-Counts source line state raised (note_severity lib row header q) q' found f)

-- A row that gives no record is counted as excluded, once, and for one reason: its status or its
-- moment of raising. A row that gives one is not counted so. A record without a repeat count is
-- counted, once, as missing or invalid, and no other row is.
pub parse_row-Counts :
    (lib : Library) (row : List Text) (header : Header) (source : Text) (line : ℕ)
    (q q' : AlarmQuality) (found : Option AlarmRecord)
    → parse_row lib row header source line q ≡ ok (found, q')
    → Counts q found q'
unfolding parse_row
parse_row-Counts lib row header source line q q' found h =
    parse_stated-Counts lib row header source line _ q q' found h
