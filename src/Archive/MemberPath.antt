-- ===== src/Archive/MemberPath.antt =====
-- _normalize_member_path of app/core/archive.py.
use patrol_x.Base.{
  ℕ, Bool, false, ◌&&◌, ◌||◌, List, [], ◌∷◌, if◌then◌else◌, leb, ◌==◌, ok, err, ◌>>=◌, ◌>>◌,
  raise_if,
}
use patrol_x.Base.Lists.{is_nil}
use patrol_x.Base.Text.{Text, codes, text_eq, has_char, strip, replace_char, split_char, join_char}
use patrol_x.Archive.Errors.{Checked, unsafe_path}

abbrev pub slash : ℕ
slash = b'/'

abbrev pub backslash : ℕ
backslash = 92

abbrev pub dot : Text
dot = codes "."

abbrev pub dot_dot : Text
dot_dot = codes ".."

is_letter : ℕ → Bool
is_letter c = leb b'A' c && leb c b'Z' || leb b'a' c && leb c b'z'

-- `candidate.startswith(("/", "\\"))`
unfoldable pub is_rooted : Text → Bool
is_rooted [] = false
is_rooted (c ∷ s) = c == slash || c == backslash

-- `re.match(r"[A-Za-z]:", candidate)`
unfoldable pub has_drive : Text → Bool
unfolding is_letter
has_drive (c ∷ d ∷ s) = is_letter c && d == b':'
has_drive _ = false

-- The loop over `normalized.split("/")`.
unfoldable pub clean_parts : List Text → Checked (List Text)
clean_parts [] = ok []
clean_parts (raw_part ∷ rest) =
    let part = strip raw_part in
    let others = clean_parts rest in
    if is_nil part
    then err unsafe_path
    else if text_eq part dot
    then others
    else if text_eq part dot_dot
    then err unsafe_path
    else (do parts ← others; ok (part ∷ parts))

unfoldable pub finish_path : List Text → Checked (List Text × Text)
finish_path parts = if is_nil parts then err unsafe_path else ok (parts, join_char slash parts)

unfoldable pub normalize_member_path : Text → Checked (List Text × Text)
unfolding is_rooted has_drive clean_parts finish_path
normalize_member_path member_path = do
  raise_if (has_char 0 member_path) unsafe_path
  let candidate = strip member_path
  raise_if (is_nil candidate) unsafe_path
  raise_if (is_rooted candidate) unsafe_path
  raise_if (has_drive candidate) unsafe_path
  parts ← clean_parts (split_char slash (replace_char backslash slash candidate))
  finish_path parts
