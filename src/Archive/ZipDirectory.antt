-- ===== src/Archive/ZipDirectory.antt =====
-- _reject_unsafe_zip_raw_names of app/core/archive.py with its helpers: the scan of a ZIP file's
-- central directory for raw member names that hold a NUL. A file is the list of its bytes.
pub mod Scan
use patrol_x.Base.{
  ℕ, zero, suc, ◌+◌, ◌-◌, ◌*◌, ◌^◌, min, Bool, true, false, not, ◌&&◌, ◌||◌, List, [], ◌∷◌, Option,
  none, some, if◌then◌else◌, ltb, ◌==◌, Result, ok, err, ◌>>=◌, ◌>>◌, raise_if,
}
use patrol_x.Base.Lists.{length, take, drop}
use patrol_x.Base.Text.{text_eq, starts_with, has_char}
use patrol_x.Archive.Errors.{Checked, archive_corrupt, unsafe_path}

abbrev pub Bytes : Type 0
Bytes = List ℕ

-- `fp.seek(offset); fp.read(size)`, and `payload[offset : offset + size]`
abbrev pub slice : Bytes → ℕ → ℕ → Bytes
slice b offset size = take size (drop offset b)

-- A little-endian number, as `struct.unpack` reads it.
abbrev pub le_number : Bytes → ℕ
le_number [] = 0
le_number (x ∷ xs) = x + 256 * le_number xs

-- `payload.rfind(mark)`
unfoldable pub rfind : Bytes → Bytes → Option ℕ
rfind mark [] = if starts_with mark [] then some 0 else none
rfind mark (x ∷ xs) = elim (rfind mark xs) [
  | some i ↦ some (suc i)
  | none ↦ if starts_with mark (x ∷ xs) then some 0 else none
]

abbrev pub eocd_mark : Bytes
eocd_mark = 0x50 ∷ 0x4b ∷ 5 ∷ 6 ∷ []

abbrev pub zip64_locator_mark : Bytes
zip64_locator_mark = 0x50 ∷ 0x4b ∷ 6 ∷ 7 ∷ []

abbrev pub zip64_eocd_mark : Bytes
zip64_eocd_mark = 0x50 ∷ 0x4b ∷ 6 ∷ 6 ∷ []

abbrev pub header_mark : Bytes
header_mark = 0x50 ∷ 0x4b ∷ 1 ∷ 2 ∷ []

-- _read_at
unfoldable pub read_at : Bytes → ℕ → ℕ → Checked Bytes
read_at b offset size =
    let payload = slice b offset size in
    if length payload == size then ok payload else err archive_corrupt

abbrev pub found : Option ℕ → Checked ℕ
found none = err archive_corrupt
found (some i) = ok i

-- The bounds test that both directory formats share.
abbrev pub out_of_bounds : ℕ → ℕ → ℕ → Bool
out_of_bounds archive_size cd_size cd_offset =
    ltb archive_size cd_offset || ltb (archive_size - cd_offset) cd_size

-- _zip64_central_directory: the size and the offset of the directory
unfoldable pub zip64_central_directory : Bytes → Bytes → Checked (ℕ × ℕ)
unfolding read_at
zip64_central_directory b tail = do
  locator_pos ← found (rfind zip64_locator_mark tail)
  let locator = slice tail locator_pos 20
  raise_if (ltb (length locator) 20) archive_corrupt
  zip64_eocd ← read_at b (le_number (slice locator 8 8)) 56
  raise_if (not (text_eq (take 4 zip64_eocd) zip64_eocd_mark)) archive_corrupt
  let cd_size = le_number (slice zip64_eocd 40 8)
  let cd_offset = le_number (slice zip64_eocd 48 8)
  raise_if (out_of_bounds (length b) cd_size cd_offset) archive_corrupt
  ok (cd_size, cd_offset)

-- An entry at `pos`, with the checks on its header and its raw name: the entry's length.
unfoldable pub read_entry : Bytes → ℕ → Checked ℕ
read_entry b pos = do
  let header = slice b pos 46
  raise_if (ltb (length header) 46 || not (text_eq (take 4 header) header_mark)) archive_corrupt
  let name_length = le_number (slice header 28 2)
  let raw_name = slice b (pos + 46) name_length
  raise_if (not (length raw_name == name_length)) archive_corrupt
  raise_if (has_char 0 raw_name) unsafe_path
  ok (46 + name_length + le_number (slice header 30 2) + le_number (slice header 32 2))

-- The end of a round, given the rounds behind it by the length of this entry.
abbrev pub after_entry : Checked ℕ → (ℕ → Option (Checked (Unit {0}))) → Option (Checked (Unit {0}))
after_entry (err code) next = some (err code)
after_entry (ok size) next = next size

-- The `while` loop, and the test behind it. An entry has 46 bytes at least, so `cd_size` rounds are
-- enough: `none` is the end of the fuel.
unfoldable pub scan_entries : ℕ → Bytes → ℕ → ℕ → ℕ → Option (Checked (Unit {0}))
scan_entries zero b cd_offset cd_size consumed = none
scan_entries (suc fuel) b cd_offset cd_size consumed =
    if ltb consumed cd_size
    then after_entry (read_entry b (cd_offset + consumed))
        (λ size. scan_entries fuel b cd_offset cd_size (consumed + size))
    else some (if consumed == cd_size then ok tt else err archive_corrupt)

-- Where the directory stands: its size and its offset.
unfoldable pub central_directory : Bytes → Checked (ℕ × ℕ)
unfolding zip64_central_directory rfind
central_directory b = do
  let tail = drop (length b - min (length b) 65557) b
  eocd_pos ← found (rfind eocd_mark tail)
  let eocd = slice tail eocd_pos 22
  raise_if (ltb (length eocd) 22) archive_corrupt
  let cd_size = le_number (slice eocd 12 4)
  let cd_offset = le_number (slice eocd 16 4)
  if cd_size == 0xffffffff || cd_offset == 0xffffffff then zip64_central_directory b tail else (do
    raise_if (out_of_bounds (length b) cd_size cd_offset) archive_corrupt
    ok (cd_size, cd_offset))

unfoldable pub scan_directory : Bytes → Checked (ℕ × ℕ) → Option (Checked (Unit {0}))
unfolding scan_entries
scan_directory b (err code) = some (err code)
scan_directory b (ok (cd_size, cd_offset)) = scan_entries (suc cd_size) b cd_offset cd_size 0

unfoldable pub reject_unsafe_zip_raw_names : Bytes → Option (Checked (Unit {0}))
unfolding central_directory scan_directory read_entry
reject_unsafe_zip_raw_names b = scan_directory b (central_directory b)
