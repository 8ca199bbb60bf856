-- ===== src/Extraction/Budget/Limits.antt =====
-- The budget over a whole task.
use patrol_x.Base.{ℕ, ◌+◌, ◌≤◌, ◌≡◌, refl, List, [], ◌∷◌, arith, ok, err}
use patrol_x.Base.Lists.{sum_of}
use patrol_x.Archive.Errors.{ErrorCode}
use patrol_x.Extraction.Budget.{
  ExtractionBudget, max_files, max_total_bytes, Charge, charge_file, Item, placed_file, gzip_chunk,
  charge, on_ok, charge_all,
}

abbrev pub item_bytes : Item → ℕ
item_bytes (placed_file size) = size
item_bytes (gzip_chunk size) = size

abbrev pub item_files : Item → ℕ
item_files (placed_file size) = 1
item_files (gzip_chunk size) = 0

-- An item that is charged counts once and fits.
charge-eq-ok :
    (item : Item) (b : ExtractionBudget)
    → b.files ≤ max_files
    → (charge item b).0 ≡ ok tt
    → ((charge item b).1.files ≡ b.files + item_files item)
      × ((charge item b).1.bytes ≡ b.bytes + item_bytes item)
      × ((charge item b).1.files ≤ max_files)
      × ((charge item b).1.bytes ≤ max_total_bytes)
unfolding charge
charge-eq-ok (placed_file size) b f h = ground arith
charge-eq-ok (gzip_chunk size) b f h = ground arith

-- A task that charges all its items without an error has charged each of them once, and neither
-- limit is passed.
pub charge_all-eq-ok :
    (items : List Item) (b : ExtractionBudget)
    → b.files ≤ max_files
    → b.bytes ≤ max_total_bytes
    → (charge_all items b).0 ≡ ok tt
    → ((charge_all items b).1.files ≡ b.files + sum_of item_files items)
      × ((charge_all items b).1.bytes ≡ b.bytes + sum_of item_bytes items)
      × ((charge_all items b).1.files ≤ max_files)
      × ((charge_all items b).1.bytes ≤ max_total_bytes)
unfolding charge_all
charge_all-eq-ok [] b f n h = (omega arith, omega arith, f, n)
charge_all-eq-ok (item ∷ rest) b f n h =
    charged (charge item b) (charge-eq-ok item b f) (charge_all-eq-ok rest) h
  where
    Sums : ℕ → ℕ → Charge (Unit {0}) → Type 0
    Sums files bytes c =
        (c.1.files ≡ files)
        × (c.1.bytes ≡ bytes)
        × (c.1.files ≤ max_files)
        × (c.1.bytes ≤ max_total_bytes)

    charged :
        (c : Charge (Unit {0}))
        → (c.0 ≡ ok tt → Sums (b.files + item_files item) (b.bytes + item_bytes item) c)
        → ((b' : ExtractionBudget)
            → b'.files ≤ max_files
            → b'.bytes ≤ max_total_bytes
            → (charge_all rest b').0 ≡ ok tt
            → Sums
                (b'.files + sum_of item_files rest)
                (b'.bytes + sum_of item_bytes rest)
                (charge_all rest b'))
        → (on_ok c (charge_all rest)).0 ≡ ok tt
        → Sums
            (b.files + (item_files item + sum_of item_files rest))
            (b.bytes + (item_bytes item + sum_of item_bytes rest))
            (on_ok c (charge_all rest))
    charged (err code, b') one more h = cc
    charged (ok _, b') one more h =
        let (fs, bs, f', n') = one refl in omega (arith, more b' f' n' h)

-- A refused file leaves the budget as it was.
pub charge_file-eq-err :
    (size : ℕ) (b : ExtractionBudget) (code : ErrorCode)
    → (charge_file size b).0 ≡ err code
    → (charge_file size b).1 ≡ b
unfolding charge_file
charge_file-eq-err size b code h = ground arith
