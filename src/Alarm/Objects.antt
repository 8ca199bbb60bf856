-- ===== src/Alarm/Objects.antt =====
-- normalize_object of app/inspectors/alarm/common.py: the object that an alarm is about, from the
-- object columns and from `key=value` pairs in two free-text columns. The character classes of
-- Unicode (`\w`, `str.lower`) are parameters.
use patrol_x.Base.{
  ℕ, zero, suc, Bool, false, not, ◌&&◌, ◌||◌, ltb, ◌==◌, List, [], ◌∷◌, ◌++◌, Option, none, some,
  if◌then◌else◌,
}
use patrol_x.Base.Lists.{all, is_nil}
use patrol_x.Base.Text.{Text, codes, strip, has_char, lstrip, onto_head, replace_char}
use patrol_x.Alarm.Header.{
  Field, pod_name, located_device, service_name, alarm_source, normalize_token, names_field,
}

abbrev pub object_unknown : Text
object_unknown = codes "对象未识别"

abbrev pub Pair : Type 0
Pair = Text × Text

-- `s.isascii()`
abbrev pub is_ascii : Text → Bool
is_ascii s = all (λ c. ltb c 128) s

-- _OBJECT_KEY_PRIORITY
abbrev pub object_fields : List Field
object_fields = pod_name ∷ located_device ∷ service_name ∷ alarm_source ∷ []

-- `value.split("=", 1)`: none if there is no "="
unfoldable pub split_pair : Text → Option Pair
split_pair [] = none
split_pair (c ∷ s) =
    if c == b'='
    then some ([], s)
    else elim (split_pair s) [ none ↦ none | some (key, item) ↦ some (c ∷ key, item) ]

abbrev pub strip_pair : Option Pair → List Pair → List Pair
strip_pair none ps = ps
strip_pair (some (key, item)) ps = (strip key, strip item) ∷ ps

unfoldable pub parts_pairs : List Text → List Pair
unfolding split_pair strip
parts_pairs [] = []
parts_pairs (part ∷ rest) = strip_pair (split_pair part) (parts_pairs rest)

module _ (is_word : ℕ → Bool) where
  -- `[\w ()/.:%+-]`
  abbrev pub in_key : ℕ → Bool
  in_key c = is_word c || has_char c (codes " ()/.:%+-")

  -- `\s*=` at the head of the text
  abbrev pub equals_ahead : Text → Bool
  equals_ahead s = elim (lstrip s) [ [] ↦ false | c ∷ t ↦ c == b'=' ]

  -- `[\w ()/.:%+-]{0,n}\s*=` at the head of the text
  unfoldable pub key_ahead : ℕ → Text → Bool
  unfolding lstrip
  key_ahead zero s = equals_ahead s
  key_ahead (suc n) [] = false
  key_ahead (suc n) (c ∷ s) = equals_ahead (c ∷ s) || in_key c && key_ahead n s

  -- The look-ahead of _STRUCTURED_PAIR_BOUNDARY
  abbrev pub pair_ahead : Text → Bool
  pair_ahead [] = false
  pair_ahead (c ∷ s) = is_word c && key_ahead 79 s

  -- `_STRUCTURED_PAIR_BOUNDARY.split(value)`. The white space behind a separator belongs to it: the
  -- next part is stripped anyway, so it is left in that part.
  unfoldable pub split_pairs : Text → List Text
  unfolding key_ahead
  split_pairs [] = [] ∷ []
  split_pairs (c ∷ s) =
      let rest = split_pairs s in
      if (c == b';' || c == b',') && pair_ahead (lstrip s) then [] ∷ rest else onto_head c rest

  -- _object_pairs
  unfoldable pub object_pairs : Text → List Pair
  unfolding split_pairs parts_pairs
  object_pairs value = parts_pairs (split_pairs (replace_char 10 b';' value))

module _ (is_word : ℕ → Bool) (lower : Text → Text) where
  -- _normalize_object_value
  unfoldable pub normalize_object_value : Text → Text
  normalize_object_value value = if is_ascii (strip value) then lower (strip value) else strip value

  -- The inner loop of normalize_object: the first pair with a key for the field and a value.
  unfoldable pub find_object : Field → List Pair → Option Text
  unfolding normalize_object_value
  find_object f [] = none
  find_object f ((key, value) ∷ rest) =
      if names_field lower (normalize_token lower key) f && not (is_nil (strip value))
      then some (normalize_object_value value)
      else find_object f rest

  -- The outer loop, over the fields in order of priority.
  unfoldable pub first_object : List Pair → List Field → Text
  unfolding find_object
  first_object pairs [] = object_unknown
  first_object pairs (f ∷ rest) = elim (find_object f pairs) [
    | some v ↦ v
    | none ↦ first_object pairs rest
  ]

  unfoldable pub normalize_object : Text → Text → List Pair → Text
  unfolding first_object object_pairs
  normalize_object location_info additional_info direct_objects =
      first_object
        (direct_objects
          ++ (object_pairs is_word location_info ++ object_pairs is_word additional_info))
        object_fields
