-- ===== src/Alarm/Times.antt =====
-- parse_alarm_time and parse_repeat_times of app/inspectors/alarm/common.py. `datetime.fromisoformat`
-- and `datetime.strptime` are parameters: the stamp that they read, or none for a ValueError.
use patrol_x.Base.{
  ℕ, ◌+◌, ◌-◌, ◌*◌, Bool, not, ◌&&◌, ◌||◌, leb, ltb, ◌==◌, List, [], ◌∷◌, Option, none, some,
  if◌then◌else◌, Result, ok, err,
}
use patrol_x.Base.Lists.{all, is_nil, length}
use patrol_x.Base.Text.{Text, codes, strip}
use patrol_x.Alarm.Records.{Moment}

-- The zone of a stamp: ahead of UTC, or behind it, in microseconds.
pub data Zone : Type 0 where
  ahead behind : ℕ → Zone

-- A `datetime`: its own clock, in microseconds since the first day, and its zone if it has one.
pub record Stamp : Type 0 where
  pub clock : ℕ
  pub zone : Option Zone

-- The OverflowError of `astimezone` for a moment that no `datetime` can show. No handler of the
-- parser catches it.
pub data TimeError : Type 0 where
  time_overflow : TimeError

abbrev pub second : ℕ
second = 1_000_000

-- _UTC_PLUS_8
abbrev pub utc_plus_8 : ℕ
utc_plus_8 = 8 * 3600 * second

-- The first moment behind 9999-12-31.
abbrev pub end_of_time : ℕ
end_of_time = 3652059 * 86400 * second

abbrev pub in_range : ℕ → Result TimeError Moment
in_range t = if ltb t end_of_time then ok t else err time_overflow

abbrev pub to_utc : ℕ → Zone → Result TimeError Moment
to_utc clock (ahead offset) = if ltb clock offset then err time_overflow else ok (clock - offset)
to_utc clock (behind offset) = in_range (clock + offset)

-- `parsed.replace(tzinfo=_UTC_PLUS_8)` where there is no zone, then `astimezone(UTC)`
abbrev pub stamp_moment : Stamp → Result TimeError Moment
stamp_moment s = elim s.zone [
  | none ↦ to_utc s.clock (ahead utc_plus_8)
  | some z ↦ to_utc s.clock z
]

abbrev pub time_formats : List Text
time_formats =
    codes "%Y/%m/%d %H:%M:%S"
    ∷ codes "%Y-%m-%d %H:%M:%S"
    ∷ codes "%Y/%m/%d %H:%M"
    ∷ codes "%Y-%m-%d %H:%M"
    ∷ codes "%Y%m%d%H%M%S"
    ∷ []

abbrev pub moment? : Option Stamp → Result TimeError (Option Moment)
moment? none = ok none
moment? (some s) = elim (stamp_moment s) [ err e ↦ err e | ok t ↦ ok (some t) ]

-- `text[:-1] + "+00:00" if text.endswith(("Z", "z")) else text`
unfoldable pub replace_zulu : Text → Text
replace_zulu [] = []
replace_zulu (c ∷ []) = if c == b'Z' || c == b'z' then codes "+00:00" else c ∷ []
replace_zulu (c ∷ d ∷ s) = c ∷ replace_zulu (d ∷ s)

module _ (fromisoformat : Text → Option Stamp) (strptime : Text → Text → Option Stamp) where
  -- The loop over the formats.
  unfoldable pub first_format : Text → List Text → Option Stamp
  first_format s [] = none
  first_format s (f ∷ rest) = elim (strptime s f) [
    | some stamp ↦ some stamp
    | none ↦ first_format s rest
  ]

  unfoldable pub parse_stamp : Text → Option Stamp
  unfolding first_format
  parse_stamp s = elim (fromisoformat s) [
    | some stamp ↦ some stamp
    | none ↦ first_format s time_formats
  ]

  unfoldable pub parse_alarm_time : Text → Result TimeError (Option Moment)
  unfolding replace_zulu parse_stamp strip
  parse_alarm_time value =
      if is_nil (strip value) then ok none else moment? (parse_stamp (replace_zulu (strip value)))

abbrev pub is_digit : ℕ → Bool
is_digit c = leb 48 c && leb c 57

abbrev pub number_from : ℕ → Text → ℕ
number_from n [] = n
number_from n (c ∷ s) = number_from (n * 10 + (c - 48)) s

-- `int` raises a ValueError for more digits than this.
abbrev pub max_digits : ℕ
max_digits = 4300

unfoldable pub parse_repeat_times : Text → Option ℕ
unfolding strip
parse_repeat_times value =
    if is_nil (strip value)
      || not (all is_digit (strip value))
      || ltb max_digits (length (strip value))
    then none
    else some (number_from 0 (strip value))
