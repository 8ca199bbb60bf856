-- ===== src/Extraction/Budget.antt =====
-- ExtractionBudget of app/services/extraction/budget.py. A method gives its result, or its error,
-- and the budget that it leaves.
pub mod Limits
use patrol_x.Base.{ℕ, ◌+◌, ◌*◌, List, [], ◌∷◌, if◌then◌else◌, ltb, Result, ok, err}
use patrol_x.Archive.Errors.{ErrorCode, task_file_count_exceeded, total_bytes_exceeded}

pub record ExtractionBudget : Type 0 where
  pub files : ℕ
  pub bytes : ℕ

abbrev pub max_files : ℕ
max_files = 200_000

abbrev pub max_total_bytes : ℕ
max_total_bytes = 3 * 1024 * 1024 * 1024

-- __init__
abbrev pub fresh : ExtractionBudget
fresh = record { files = 0; bytes = 0 }

abbrev pub Charge : Type 0 → Type 0
Charge A = Result ErrorCode A × ExtractionBudget

-- `size` is the size of the file at the path, from `stat`.
unfoldable pub charge_file : ℕ → ExtractionBudget → Charge ℕ
charge_file size b =
    if ltb max_files (b.files + 1)
    then (err task_file_count_exceeded, b)
    else if ltb max_total_bytes (b.bytes + size)
    then (err total_bytes_exceeded, b)
    else (ok size, record { files = b.files + 1; bytes = b.bytes + size })

unfoldable pub charge_gzip_chunk : ℕ → ExtractionBudget → Charge (Unit {0})
charge_gzip_chunk size b = (
  if ltb max_total_bytes (b.bytes + size) then err total_bytes_exceeded else ok tt,
  record b { bytes = b.bytes + size },
)

-- What a task charges, in order, until the first error.
pub data Item : Type 0 where
  placed_file : ℕ → Item
  gzip_chunk : ℕ → Item

abbrev pub discard : Result ErrorCode ℕ → Result ErrorCode (Unit {0})
discard (ok n) = ok tt
discard (err code) = err code

unfoldable pub charge : Item → ExtractionBudget → Charge (Unit {0})
unfolding charge_file charge_gzip_chunk
charge (gzip_chunk size) b = charge_gzip_chunk size b
charge (placed_file size) b = let (r, b') = charge_file size b in (discard r, b')

abbrev pub on_ok : Charge (Unit {0}) → (ExtractionBudget → Charge (Unit {0})) → Charge (Unit {0})
on_ok (ok _, b) next = next b
on_ok (err code, b) next = (err code, b)

unfoldable pub charge_all : List Item → ExtractionBudget → Charge (Unit {0})
charge_all [] b = (ok tt, b)
charge_all (item ∷ rest) b = on_ok (charge item b) (charge_all rest)
