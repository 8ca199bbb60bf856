-- ===== src/Scanning.antt =====
-- validate_patterns and match_paths of app/services/scanning/matcher.py.
pub mod Matches
mod Tests
use patrol_x.Base.{
  ℕ, Bool, true, false, not, ◌&&◌, ◌||◌, leb, ◌==◌, List, [], ◌∷◌, Result, ok, err, ◌>>=◌, ◌>>◌,
  raise_if, if◌then◌else◌,
}
use patrol_x.Base.Lists.{any, is_nil}
use patrol_x.Base.Sort.{sort}
use patrol_x.Base.Text.{Text, text_eq, text_le, split_char}
use patrol_x.Rules.Contract.{has_text, dots, leads_with, is_separator, is_home, unstripped}

pub data PatternError : Type 0 where
  malformed absolute traversal outside : PatternError

is_ascii_letter : ℕ → Bool
is_ascii_letter c = leb b'A' c && leb c b'Z' || leb b'a' c && leb c b'z'

-- _WINDOWS_ABSOLUTE.match
unfoldable pub windows_absolute : Text → Bool
unfolding is_ascii_letter
windows_absolute (c ∷ d ∷ e ∷ s) = is_ascii_letter c && d == b':' && is_separator e
windows_absolute _ = false

-- r"\.\."
abbrev pub escaped_dots : Text
escaped_dots = 92 ∷ b'.' ∷ 92 ∷ b'.' ∷ []

-- Python's `re`: whether `re.compile` takes a pattern, and whether it matches a text as a whole.
pub record Patterns : Type 0 where
  pub compiles : Text → Bool
  pub fullmatch : Text → Text → Bool

-- The body of the loop of validate_patterns.
unfoldable pub validate_pattern : Patterns → Text → Result PatternError (Unit {0})
unfolding windows_absolute has_text
validate_pattern re pattern = do
  raise_if (is_nil pattern || unstripped pattern) malformed
  raise_if
      (leads_with is_separator pattern || leads_with is_home pattern || windows_absolute pattern)
      absolute
  raise_if (has_text dots pattern || has_text escaped_dots pattern) traversal
  raise_if (not (re.compiles pattern)) malformed

unfoldable pub validate_patterns : Patterns → List Text → Result PatternError (Unit {0})
unfolding validate_pattern
validate_patterns re [] = ok tt
validate_patterns re (pattern ∷ rest) = do validate_pattern re pattern; validate_patterns re rest

-- `relative.is_absolute() or ".." in relative.parts`
unfoldable pub is_outside : Text → Bool
unfolding split_char
is_outside path = leads_with (λ c. c == b'/') path || any (text_eq dots) (split_char b'/' path)

-- `matched.add`, for a path of the loop
abbrev pub add_path : Text → List Text → List Text
add_path path matched = if any (text_eq path) matched then matched else path ∷ matched

-- The loop over the paths. (The set has no order: the path is added to the rest's.)
unfoldable pub collect_matches : Patterns → List Text → List Text → Result PatternError (List Text)
unfolding is_outside
collect_matches re patterns [] = ok []
collect_matches re patterns (path ∷ paths) = do
  raise_if (is_outside path) outside
  matched ← collect_matches re patterns paths
  if any (λ pattern. re.fullmatch pattern path) patterns
      then ok (add_path path matched)
      else ok matched

unfoldable pub match_paths : Patterns → List Text → List Text → Result PatternError (List Text)
unfolding validate_patterns collect_matches sort
match_paths re paths patterns = do
  validate_patterns re patterns
  matched ← collect_matches re patterns paths
  ok (sort text_le matched)
