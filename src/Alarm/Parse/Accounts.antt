-- ===== src/Alarm/Parse/Accounts.antt =====
-- The parse result accounts for every row that was read.
use patrol_x.Base.{◌+◌, ◌≤◌, ◌≡◌, arith, List, [], ◌∷◌, Result, ok, >>=-eq-ok, of_bool}
use mathlib.Core.Path.{subst}
use patrol_x.Base.Lists.{length, sum_of, All}
use patrol_x.Alarm.Records.{
  AlarmRecord, AlarmFileResult, not_cleared, normal_cleared, reset_cleared,
}
use patrol_x.Alarm.Times.{TimeError}
use patrol_x.Alarm.Row.{Library}
use patrol_x.Alarm.Files.{Source, Budgets, Totals, read_files}
use patrol_x.Alarm.Files.Conservation.{FileAdds, IsSettled, read_files-IsSettled}
use patrol_x.Alarm.Parse.{
  AlarmParseResult, no_totals, finish_parse, parse_alarm_files, in_state, count_states,
}

-- What the counts of a parse result promise.
pub record IsAccounted (b : Budgets) (r : AlarmParseResult) : Type 0 where
  pub rows_add_up : r.raw_rows ≡ length r.records + r.quality.excluded_rows + r.duplicate_rows
  pub rows_by_file : r.raw_rows ≡ sum_of (λ f. f.rows) r.files
  pub task_budget : r.raw_rows ≤ b.max_task_rows
  pub file_budgets : All (FileAdds b) r.files
  pub states_add_up :
      r.status_counts not_cleared + r.status_counts normal_cleared + r.status_counts reset_cleared
      ≡ length r.records

sum_of-FileAdds :
    (b : Budgets) (files : List AlarmFileResult)
    → All (FileAdds b) files
    → sum_of (λ f. f.rows) files
      ≡ sum_of (λ f. f.valid_rows) files
        + sum_of (λ f. f.excluded_rows) files
        + sum_of (λ f. f.duplicate_rows) files
sum_of-FileAdds b [] h = omega arith
sum_of-FileAdds b (f ∷ rest) h = omega (arith, h.0.0, sum_of-FileAdds b rest h.1)

in_state-one :
    (r : AlarmRecord)
    → of_bool (in_state not_cleared r)
        + of_bool (in_state normal_cleared r)
        + of_bool (in_state reset_cleared r)
      ≡ 1
in_state-one r = grind arith

count_states-total :
    (records : List AlarmRecord)
    → count_states records not_cleared
        + count_states records normal_cleared
        + count_states records reset_cleared
      ≡ length records
count_states-total [] = omega arith
count_states-total (r ∷ rest) = omega (arith, count_states-total rest, in_state-one r)

no_totals-IsSettled : (b : Budgets) → IsSettled b no_totals
no_totals-IsSettled b = record {
  adds = record {
    records = omega arith;
    excluded_sum = omega arith;
    duplicate_sum = omega arith;
    row_sum = omega arith;
    task_sum = omega arith;
    task_fits = omega arith;
  };
  each = tt;
}

finish_parse-IsAccounted :
    (b : Budgets) (t : Totals) → IsSettled b t → IsAccounted b (finish_parse t)
unfolding finish_parse
finish_parse-IsAccounted b t h = record {
  rows_add_up = omega (
    arith,
    h.adds.row_sum,
    h.adds.records,
    h.adds.excluded_sum,
    h.adds.duplicate_sum,
    sum_of-FileAdds b t.files h.each,
  );
  rows_by_file = omega (arith, h.adds.row_sum);
  task_budget = omega (arith, h.adds.task_sum, h.adds.task_fits);
  file_budgets = h.each;
  states_add_up = count_states-total t.records;
}

-- When the files are parsed, every row read is a valid record, an excluded row or a duplicate, and
-- none is counted twice; the files' row counts add up to it; the rows of the task and of each file
-- are within their budgets; and the counts by state add up to the records.
pub parse_alarm_files-IsAccounted :
    (lib : Library) (b : Budgets) (sources : List Source) (r : AlarmParseResult)
    → parse_alarm_files lib b sources ≡ ok r
    → IsAccounted b r
unfolding parse_alarm_files
parse_alarm_files-IsAccounted lib b sources r e =
    let (t, read, done) = >>=-eq-ok (read_files lib b sources no_totals) _ e in
    subst (IsAccounted b) (done_of t done) (
      finish_parse-IsAccounted b t
        (read_files-IsSettled lib b sources no_totals t (no_totals-IsSettled b) read))
  where
    done_of :
        (t : Totals)
        → ◌≡◌ {A = Result TimeError AlarmParseResult} (ok (finish_parse t)) (ok r)
        → finish_parse t ≡ r
    done_of t d = ground arith
