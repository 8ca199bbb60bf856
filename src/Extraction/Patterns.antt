-- ===== src/Extraction/Patterns.antt =====
-- _member_pattern_matches of app/services/extraction/nested.py.
pub mod Fits
use patrol_x.Base.{
  ℕ, Bool, true, false, not, ◌&&◌, ◌||◌, List, [], ◌∷◌, map, ok, ◌>>=◌, if◌then◌else◌,
}
use patrol_x.Base.Lists.{is_nil, keep}
use patrol_x.Base.Text.{Text, codes, text_eq, strip, split_char}
use patrol_x.Archive.Errors.{Checked}
use patrol_x.Archive.MemberPath.{slash, normalize_member_path}

-- Python's str.casefold, and fnmatch.fnmatchcase on a name and a glob.
pub record Names : Type 0 where
  pub casefold : Text → Text
  pub fnmatchcase : Text → Text → Bool

abbrev pub stars : Text
stars = codes "**"

module _ (names : Names) where
  unfoldable pub pattern_parts : Text → List Text
  unfolding split_char strip
  pattern_parts pattern =
      map names.casefold (keep (λ part. not (is_nil part)) (map strip (split_char slash pattern)))

  -- `match(pattern_index, ·)` from some index on
  abbrev pub any_suffix : (List Text → Bool) → List Text → Bool
  any_suffix test [] = test []
  any_suffix test (a ∷ actual) = test (a ∷ actual) || any_suffix test actual

  -- A segment that is not `**`, in front of others or as the last one.
  abbrev pub match_segment : Text → List Text → (List Text → Bool) → List Text → Bool
  match_segment segment others test [] = false
  match_segment segment others test (a ∷ actual) =
      if is_nil others
      then is_nil actual && names.fnmatchcase a segment
      else text_eq a segment && test actual

  -- The inner `match`, on what is left of the pattern and of the path.
  unfoldable pub match_parts : List Text → List Text → Bool
  match_parts [] actual = is_nil actual
  match_parts (segment ∷ others) actual =
      if text_eq segment stars
      then (if is_nil others then not (is_nil actual) else any_suffix (match_parts others) actual)
      else match_segment segment others (match_parts others) actual

  unfoldable pub member_pattern_matches : Text → Text → Checked Bool
  unfolding pattern_parts match_parts split_char
  member_pattern_matches pattern member_relative = do
    (parts, canonical) ← normalize_member_path member_relative
    let segments = pattern_parts pattern
    ok (
        not (is_nil segments)
        && match_parts segments (map names.casefold (split_char slash canonical)))
