-- ===== src/Alarm/Files/Balance.antt =====
-- The loop over the rows of a file keeps the counts in balance, within the budgets.
use mathlib.Core.Path.{ap, subst}
use patrol_x.Base.{
  ok_injective, ℕ, ◌+◌, ◌≤◌, ◌≡◌, refl, ◌∙◌, Bool, false, leb, List, [], ◌∷◌, Option, none, some,
  arith, ok, >>=-eq-ok, Bool-cases, inl, inr,
}
use patrol_x.Base.Lists.{length, length-append, sum_of, any}
use patrol_x.Base.Text.{Text}
use patrol_x.Alarm.Records.{AlarmRecord, AlarmQuality}
use patrol_x.Alarm.Row.{Library}
use patrol_x.Alarm.Row.Quality.{Counts, parse_row-Counts}
use patrol_x.Alarm.Files.{
  CsvRow, Budgets, Totals, Progress, Canonical, canonical_eq, canonical_row, header, count_row,
  note_duplicate, note_parsed, read_row, stop_file, stop_task, is_blank, read_rows,
}

-- The counts over all files, and what is not yet in a file's result.
pub record Adds (b : Budgets) (t : Totals) (rows valid excluded duplicates : ℕ) : Type 0 where
  pub records : length t.records ≡ sum_of (λ f. f.valid_rows) t.files + valid
  pub excluded_sum : t.quality.excluded_rows ≡ sum_of (λ f. f.excluded_rows) t.files + excluded
  pub duplicate_sum : t.duplicate_rows ≡ sum_of (λ f. f.duplicate_rows) t.files + duplicates
  pub row_sum : t.raw_rows ≡ sum_of (λ f. f.rows) t.files + rows
  pub task_sum : t.task_rows ≡ t.raw_rows
  pub task_fits : t.task_rows ≤ b.max_task_rows

pub record IsBalanced (b : Budgets) (p : Progress) : Type 0 where
  pub adds : Adds b p.totals p.rows p.valid p.excluded p.duplicates
  pub parts : p.rows ≡ p.valid + p.excluded + p.duplicates
  pub fits : p.rows ≤ b.max_file_rows

module _ (lib : Library) (b : Budgets) (source : Text) (raw_headers : List Text) where
  note_parsed-files :
      (key : Canonical) (found : Option AlarmRecord) (q' : AlarmQuality) (p : Progress)
      → (note_parsed lib b source raw_headers key
          (found, q')
          (count_row lib b source raw_headers p)).totals.files
        ≡ p.totals.files
  unfolding note_parsed
  note_parsed-files key none q' p = refl
  note_parsed-files key (some r) q' p = refl

  note_parsed-IsBalanced :
      (key : Canonical) (found : Option AlarmRecord) (q' : AlarmQuality) (p : Progress)
      → IsBalanced b p
      → Counts p.totals.quality found q'
      → leb b.max_file_rows p.rows ≡ false
      → leb b.max_task_rows p.totals.task_rows ≡ false
      → IsBalanced b (
          note_parsed lib b source raw_headers key
            (found, q')
            (count_row lib b source raw_headers p))
  unfolding note_parsed
  note_parsed-IsBalanced key none q' p h c room task_room = record {
    adds = record {
      records = omega (arith, h.adds.records);
      excluded_sum = omega (arith, h.adds.excluded_sum, c.excluded);
      duplicate_sum = h.adds.duplicate_sum;
      row_sum = omega (arith, h.adds.row_sum);
      task_sum = omega (arith, h.adds.task_sum);
      task_fits = ground arith;
    };
    parts = omega (arith, h.parts);
    fits = ground arith;
  }
  note_parsed-IsBalanced key (some r) q' p h c room task_room = record {
    adds = record {
      records = omega (arith, h.adds.records, length-append p.totals.records (r ∷ []));
      excluded_sum = omega (arith, h.adds.excluded_sum, c.excluded);
      duplicate_sum = h.adds.duplicate_sum;
      row_sum = omega (arith, h.adds.row_sum);
      task_sum = omega (arith, h.adds.task_sum);
      task_fits = ground arith;
    };
    parts = omega (arith, h.parts);
    fits = ground arith;
  }

  note_duplicate-IsBalanced :
      (p : Progress)
      → IsBalanced b p
      → leb b.max_file_rows p.rows ≡ false
      → leb b.max_task_rows p.totals.task_rows ≡ false
      → IsBalanced b
          (note_duplicate lib b source raw_headers (count_row lib b source raw_headers p))
  note_duplicate-IsBalanced p h room task_room = record {
    adds = record {
      records = h.adds.records;
      excluded_sum = h.adds.excluded_sum;
      duplicate_sum = omega (arith, h.adds.duplicate_sum);
      row_sum = omega (arith, h.adds.row_sum);
      task_sum = omega (arith, h.adds.task_sum);
      task_fits = ground arith;
    };
    parts = omega (arith, h.parts);
    fits = ground arith;
  }

  read_row-IsBalanced :
      (row : CsvRow) (p p' : Progress)
      → IsBalanced b p
      → leb b.max_file_rows p.rows ≡ false
      → leb b.max_task_rows p.totals.task_rows ≡ false
      → read_row lib b source raw_headers row p ≡ ok p'
      → IsBalanced b p' × (p'.totals.files ≡ p.totals.files)
  unfolding read_row
  read_row-IsBalanced row p p' h room task_room e =
      elim (Bool-cases
        (any (canonical_eq (canonical_row lib raw_headers row.cells)) p.totals.seen_rows)) [
          | inl again ↦
              moved (note_duplicate lib b source raw_headers (count_row lib b source raw_headers p))
                (note_duplicate-IsBalanced p h room task_room) refl (ok_injective (rw again at e))
          | inr new ↦
              let ((found, q'), parsed, noted) = >>=-eq-ok _ _ (rw new at e) in
              moved _
                (note_parsed-IsBalanced _ found q' p h
                  (parse_row-Counts lib row.cells (header lib b source raw_headers) source
                    row.line_num p.totals.quality q' found parsed)
                  room task_room)
                (note_parsed-files _ found q' p) (ok_injective noted)
        ]
    where
      moved :
          (r : Progress)
          → IsBalanced b r
          → r.totals.files ≡ p.totals.files
          → r ≡ p'
          → IsBalanced b p' × (p'.totals.files ≡ p.totals.files)
      moved r balanced same to = (
        subst (IsBalanced b) to balanced,
        subst (λ (x : Progress). x.totals.files ≡ p.totals.files) to same,
      )

  pub read_rows-IsBalanced :
      (breaks : Bool) (rows : List CsvRow) (p p' : Progress) (raised : Bool)
      → IsBalanced b p
      → read_rows lib b source raw_headers breaks rows p ≡ ok (p', raised)
      → IsBalanced b p' × (p'.totals.files ≡ p.totals.files)
  unfolding read_rows
  read_rows-IsBalanced breaks [] p p' raised h e =
      let same : p ≡ p' = ground arith in
      (
        subst (IsBalanced b) same h,
        subst (λ (x : Progress). x.totals.files ≡ p.totals.files) same refl,
      )
  read_rows-IsBalanced breaks (row ∷ rest) p p' raised h e =
      elim (Bool-cases (is_blank row.cells)) [
        | inl blank ↦ read_rows-IsBalanced breaks rest p p' raised h (rw blank at e)
        | inr written ↦ elim (Bool-cases (leb b.max_file_rows p.rows)) [
          | inl full ↦
              stopped (stop_file lib b source raw_headers p) refl
                (record {
                  adds = record {
                    records = h.adds.records;
                    excluded_sum = h.adds.excluded_sum;
                    duplicate_sum = h.adds.duplicate_sum;
                    row_sum = h.adds.row_sum;
                    task_sum = h.adds.task_sum;
                    task_fits = h.adds.task_fits;
                  };
                  parts = h.parts;
                  fits = h.fits;
                })
                (ok_injective (rw (written, full) at e))
          | inr room ↦ elim (Bool-cases (leb b.max_task_rows p.totals.task_rows)) [
            | inl spent ↦
                stopped (stop_task lib b source raw_headers p) refl
                  (record {
                    adds = record {
                      records = h.adds.records;
                      excluded_sum = h.adds.excluded_sum;
                      duplicate_sum = h.adds.duplicate_sum;
                      row_sum = h.adds.row_sum;
                      task_sum = h.adds.task_sum;
                      task_fits = h.adds.task_fits;
                    };
                    parts = h.parts;
                    fits = h.fits;
                  })
                  (ok_injective (rw (written, room, spent) at e))
            | inr task_room ↦
                let (next, read, onward) =
                  >>=-eq-ok (read_row lib b source raw_headers row p)
                    (read_rows lib b source raw_headers breaks rest)
                    (rw (written, room, task_room) at e) in
                let (balanced, same) = read_row-IsBalanced row p next h room task_room read in
                let (balanced', same') =
                  read_rows-IsBalanced breaks rest next p' raised balanced onward in
                (balanced', same' ∙ same)
          ]
        ]
      ]
    where
      stopped :
          (r : Progress)
          → r.totals.files ≡ p.totals.files
          → IsBalanced b r
          → ◌≡◌ {A = Progress × Bool} (r, false) (p', raised)
          → IsBalanced b p' × (p'.totals.files ≡ p.totals.files)
      stopped r same balanced to =
          let to' : r ≡ p' = ap (λ (x : Progress × Bool). x.0) to in
          (
            subst (IsBalanced b) to' balanced,
            subst (λ (x : Progress). x.totals.files ≡ p.totals.files) to' same,
          )
