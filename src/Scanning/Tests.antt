-- ===== src/Scanning/Tests.antt =====
-- Three paths, two of which a pattern selects.
use patrol_x.Base.{◌≡◌, refl, true, List, [], ◌∷◌, ok}
use patrol_x.Base.Text.{Text, codes, text_eq, text_le, strip, starts_with}
use patrol_x.Scanning.{Patterns, match_paths}
use patrol_x.Scanning.Matches.{AreMatches, match_paths-AreMatches}

abbrev re : Patterns
re = record { compiles = λ p. true; fullmatch = text_eq }

abbrev paths : List Text
paths = codes "c/d" ∷ codes "a" ∷ codes "b" ∷ []

abbrev patterns : List Text
patterns = codes "a" ∷ codes "c/d" ∷ []

matched : match_paths re paths patterns ≡ ok (codes "a" ∷ codes "c/d" ∷ [])
unfolding match_paths strip starts_with text_le
matched = refl

match_paths-AreMatches_example : AreMatches re paths patterns (codes "a" ∷ codes "c/d" ∷ [])
match_paths-AreMatches_example =
    match_paths-AreMatches re paths patterns (codes "a" ∷ codes "c/d" ∷ []) matched
