-- ===== src/Alarm/Files/Conservation.antt =====
-- No row is lost: what the loop over the files counts adds up, within the budgets.
use mathlib.Core.Path.{subst}
use patrol_x.Base.{
  ok_injective, ℕ, ◌+◌, ◌≤◌, ◌≡◌, refl, sym, ◌∙◌, Bool, true, false, ltb, List, [], ◌∷◌, ◌++◌,
  Option, none, some, arith, Result, ok, >>=-eq-ok, Bool-cases, inl, inr,
}
use patrol_x.Base.Lists.{sum_of-append, All, All-append}
use patrol_x.Base.Text.{Text}
use patrol_x.Alarm.Records.{AlarmQuality, AlarmFileResult}
use patrol_x.Alarm.Times.{TimeError}
use patrol_x.Alarm.Header.{has_required, resolve_header}
use patrol_x.Alarm.Row.{Library}
use patrol_x.Alarm.Files.{
  CsvRow, Content, unreadable, undecodable, bad_header, empty, table, Source, Budgets, Totals,
  Progress, read_rows, close_file, tally_all, open_file, add_result, read_table, read_content,
  read_sized, read_unless, read_file, read_files,
}
use patrol_x.Alarm.Files.Balance.{Adds, IsBalanced, read_rows-IsBalanced}

-- A file's result adds up, and it is within the budget.
abbrev pub FileAdds : Budgets → AlarmFileResult → Type 0
FileAdds b f =
    (f.rows ≡ f.valid_rows + f.excluded_rows + f.duplicate_rows) × (f.rows ≤ b.max_file_rows)

pub record IsSettled (b : Budgets) (t : Totals) : Type 0 where
  pub adds : Adds b t 0 0 0 0
  pub each : All (FileAdds b) t.files

module _ (lib : Library) (b : Budgets) where
  close_file-IsSettled :
      (source : Text) (raw_headers : List Text) (p : Progress) (raised : Bool)
      → IsBalanced b p
      → All (FileAdds b) p.totals.files
      → IsSettled b (close_file lib b source raw_headers (p, raised))
  unfolding close_file
  close_file-IsSettled source raw_headers p raised h each = record {
    adds = record {
      records = omega (
        arith,
        h.adds.records,
        sum_of-append (λ (f : AlarmFileResult). f.valid_rows) p.totals.files _,
      );
      excluded_sum = omega (
        arith,
        h.adds.excluded_sum,
        sum_of-append (λ (f : AlarmFileResult). f.excluded_rows) p.totals.files _,
      );
      duplicate_sum = omega (
        arith,
        h.adds.duplicate_sum,
        sum_of-append (λ (f : AlarmFileResult). f.duplicate_rows) p.totals.files _,
      );
      row_sum =
          omega (
            arith,
            h.adds.row_sum,
            sum_of-append (λ (f : AlarmFileResult). f.rows) p.totals.files _,
          );
      task_sum = h.adds.task_sum;
      task_fits = h.adds.task_fits;
    };
    each = All-append (FileAdds b) p.totals.files _ each ((h.parts, h.fits), tt);
  }

  excluded-tally_all :
      (source : Text) (raw_headers names : List Text) (q : AlarmQuality)
      → (tally_all lib b source raw_headers names q).excluded_rows ≡ q.excluded_rows
  excluded-tally_all source raw_headers [] q = refl
  excluded-tally_all source raw_headers (n ∷ names) q =
      excluded-tally_all source raw_headers names _

  open_file-IsBalanced :
      (source : Text) (raw_headers : List Text) (t : Totals)
      → IsSettled b t
      → IsBalanced b (open_file lib b source raw_headers t)
        × ((open_file lib b source raw_headers t).totals.files ≡ t.files)
  unfolding open_file
  open_file-IsBalanced source raw_headers t h = (
    record {
      adds = record {
        records = h.adds.records;
        excluded_sum =
            excluded-tally_all source raw_headers ((resolve_header lib.lower raw_headers).unknown)
              t.quality
            ∙ h.adds.excluded_sum;
        duplicate_sum = h.adds.duplicate_sum;
        row_sum = h.adds.row_sum;
        task_sum = h.adds.task_sum;
        task_fits = h.adds.task_fits;
      };
      parts = omega arith;
      fits = omega arith;
    },
    refl,
  )

  -- A result with no rows changes no sum.
  no_rows-IsSettled :
      (t t' : Totals) (f : AlarmFileResult)
      → IsSettled b t
      → f.rows ≡ 0
      → f.valid_rows ≡ 0
      → f.excluded_rows ≡ 0
      → f.duplicate_rows ≡ 0
      → t' ≡ record t {
        files = t.files ++ f ∷ [];
        budget_exceeded = t'.budget_exceeded;
        budget_messages = t'.budget_messages;
      }
      → IsSettled b t'
  no_rows-IsSettled t t' f h r v x d e = rw e (record {
    adds = record {
      records = omega (
        arith,
        h.adds.records,
        sum_of-append (λ (f : AlarmFileResult). f.valid_rows) t.files (f ∷ []),
      );
      excluded_sum = omega (
        arith,
        h.adds.excluded_sum,
        sum_of-append (λ (f : AlarmFileResult). f.excluded_rows) t.files (f ∷ []),
      );
      duplicate_sum = omega (
        arith,
        h.adds.duplicate_sum,
        sum_of-append (λ (f : AlarmFileResult). f.duplicate_rows) t.files (f ∷ []),
      );
      row_sum =
          omega (
            arith,
            h.adds.row_sum,
            sum_of-append (λ (f : AlarmFileResult). f.rows) t.files (f ∷ []),
          );
      task_sum = h.adds.task_sum;
      task_fits = h.adds.task_fits;
    };
    each = All-append (FileAdds b) t.files (f ∷ []) h.each ((omega arith, omega arith), tt);
  })

  add_result-IsSettled :
      (t t' : Totals) (f : AlarmFileResult)
      → IsSettled b t
      → (f.rows ≡ 0) × (f.valid_rows ≡ 0) × (f.excluded_rows ≡ 0) × (f.duplicate_rows ≡ 0)
      → ◌≡◌ {A = Result TimeError Totals} (ok (add_result t f)) (ok t')
      → IsSettled b t'
  add_result-IsSettled t t' f h (r, v, x, d) e =
      subst (IsSettled b) (ok_injective e) (no_rows-IsSettled t (add_result t f) f h r v x d refl)

  read_table-IsSettled :
      (source : Text) (raw_headers : List Text) (rows : List CsvRow) (breaks : Bool) (t t' : Totals)
      → IsSettled b t
      → read_table lib b source raw_headers rows breaks t ≡ ok t'
      → IsSettled b t'
  unfolding read_table
  read_table-IsSettled source raw_headers rows breaks t t' h e =
      elim (Bool-cases (has_required (resolve_header lib.lower raw_headers))) [
        | inr lacking ↦ add_result-IsSettled t t' _ h (refl, refl, refl, refl) (rw lacking at e)
        | inl whole ↦
            let ((p, raised), read, closed) =
              >>=-eq-ok
                (read_rows lib b source raw_headers breaks rows
                  (open_file lib b source raw_headers t))
                _ (rw whole at e) in
            let (opened, same) = open_file-IsBalanced source raw_headers t h in
            let (balanced, same') =
              read_rows-IsBalanced lib b source raw_headers breaks rows _ p raised opened read in
            subst (IsSettled b) (ok_injective closed) (
              close_file-IsSettled source raw_headers p raised balanced
                (subst (All (FileAdds b)) (sym (same' ∙ same)) h.each))
      ]

  read_content-IsSettled :
      (source : Text) (content : Content) (t t' : Totals)
      → IsSettled b t
      → read_content lib b source content t ≡ ok t'
      → IsSettled b t'
  unfolding read_content
  read_content-IsSettled source (table raw_headers rows breaks) t t' h e =
      read_table-IsSettled source raw_headers rows breaks t t' h e
  read_content-IsSettled source unreadable t t' h e =
      add_result-IsSettled t t' _ h (refl, refl, refl, refl) e
  read_content-IsSettled source undecodable t t' h e =
      add_result-IsSettled t t' _ h (refl, refl, refl, refl) e
  read_content-IsSettled source bad_header t t' h e =
      add_result-IsSettled t t' _ h (refl, refl, refl, refl) e
  read_content-IsSettled source empty t t' h e =
      add_result-IsSettled t t' _ h (refl, refl, refl, refl) e

  read_sized-IsSettled :
      (s : Source) (size : Option ℕ) (t t' : Totals)
      → IsSettled b t
      → read_sized lib b s size t ≡ ok t'
      → IsSettled b t'
  unfolding read_sized
  read_sized-IsSettled s none t t' h e = add_result-IsSettled t t' _ h (refl, refl, refl, refl) e
  read_sized-IsSettled s (some size) t t' h e = elim (Bool-cases (ltb b.max_file_bytes size)) [
    | inl large ↦
        subst (IsSettled b) (ok_injective (rw large at e))
          (no_rows-IsSettled t _ _ h refl refl refl refl refl)
    | inr small ↦ read_content-IsSettled s.name s.content t t' h (rw small at e)
  ]

  read_unless-IsSettled :
      (stopped : Bool) (s : Source) (t t' : Totals)
      → IsSettled b t
      → read_unless lib b stopped s t ≡ ok t'
      → IsSettled b t'
  unfolding read_unless
  read_unless-IsSettled true s t t' h e = add_result-IsSettled t t' _ h (refl, refl, refl, refl) e
  read_unless-IsSettled false s t t' h e = read_sized-IsSettled s s.size t t' h e

  read_file-IsSettled :
      (s : Source) (t t' : Totals) → IsSettled b t → read_file lib b s t ≡ ok t' → IsSettled b t'
  unfolding read_file
  read_file-IsSettled s t t' = read_unless-IsSettled t.task_stopped s t t'

  pub read_files-IsSettled :
      (sources : List Source) (t t' : Totals)
      → IsSettled b t
      → read_files lib b sources t ≡ ok t'
      → IsSettled b t'
  unfolding read_files
  read_files-IsSettled [] t t' h e = subst (IsSettled b) (ok_injective e) h
  read_files-IsSettled (s ∷ rest) t t' h e =
      let (next, read, onward) = >>=-eq-ok (read_file lib b s t) (read_files lib b rest) e in
      read_files-IsSettled rest next t' (read_file-IsSettled s t next h read) onward
