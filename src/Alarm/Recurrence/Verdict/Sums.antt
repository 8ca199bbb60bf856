-- ===== src/Alarm/Recurrence/Verdict/Sums.antt =====
-- The sums over the alarm types are the sums over the records.
use patrol_x.Base.{ℕ, ◌+◌, ◌≡◌, refl, ◌∙◌, sym, arith, List, [], ◌∷◌, Option, none, some}
use patrol_x.Base.Lists.{count_if-sum_of, length-sum_of, length, count_if, sum, sum_of}
use patrol_x.Base.Sort.Laws.{sum_of-sort}
use patrol_x.Base.Text.{Text}
use patrol_x.Alarm.Records.{AlarmRecord, Severity, Moment, not_cleared}
use patrol_x.Alarm.Parse.{in_state}
use patrol_x.Alarm.Groups.{Buckets, in_severity, count_severities}
use patrol_x.Alarm.Groups.Partition.{over, over-group_onto}
use patrol_x.Alarm.Recurrence.Flags.{valid_repeats, with_repeats}
use patrol_x.Alarm.Recurrence.Views.{
  Summary, TypeView, summary_view, type_view, type_views, type_le, bucket_views,
}

-- The repeats of a record, 0 where they are not known
abbrev repeats_of : (ℕ → ℕ) → AlarmRecord → ℕ
repeats_of f r = sum_of f (with_repeats r.repeat_times [])

valid_repeats-sum_of :
    (f : ℕ → ℕ) (records : List AlarmRecord)
    → sum_of f (valid_repeats records) ≡ sum_of (repeats_of f) records
valid_repeats-sum_of f [] = refl
valid_repeats-sum_of f (r ∷ rest) = omega (arith, valid_repeats-sum_of f rest, one r.repeat_times)
  where
    one :
        (n : Option ℕ)
        → sum_of f (with_repeats n (valid_repeats rest))
          ≡ sum_of f (with_repeats n []) + sum_of f (valid_repeats rest)
    one none = omega arith
    one (some n) = omega arith

sum-sum_of : (xs : List ℕ) → sum xs ≡ sum_of (λ n. n) xs
sum-sum_of [] = refl
sum-sum_of (x ∷ xs) = omega (arith, sum-sum_of xs)

module _ (stable_hash : List Text → Text → Text) (end : Option Moment) where
  -- A number of a summary that is a sum over its records is, over all types, the sum over all records.
  module _ (g : Summary → ℕ) (f : AlarmRecord → ℕ)
      (agrees : (app id name : Text) (rs : List AlarmRecord)
        → g (summary_view end app id name rs) ≡ sum_of f rs) where
    sum_of-type_views :
        (b : Buckets) → sum_of (λ v. g v.summary) (type_views stable_hash end b) ≡ over f b
    unfolding type_view
    sum_of-type_views [] = refl
    sum_of-type_views ((k, rs) ∷ rest) = omega (arith, agrees _ _ _ rs, sum_of-type_views rest)

    sum_of-bucket_views :
        (records : List AlarmRecord)
        → sum_of (λ v. g v.summary) (bucket_views stable_hash end records) ≡ sum_of f records
    unfolding bucket_views
    sum_of-bucket_views records =
        let from_nothing : 0 + sum_of f records ≡ sum_of f records = omega arith in
        sum_of-sort type_le (λ v. g v.summary) _
        ∙ sum_of-type_views _
        ∙ over-group_onto f _ [] records
        ∙ from_nothing

-- Over all alarm types, the lifecycles, the active lifecycles, the lifecycles of each severity, the
-- repeats and the estimated reports add up to those of the records.
pub record IsConserved (records : List AlarmRecord) (types : List TypeView) : Type 0 where
  pub lifecycles : sum_of (λ v. v.summary.lifecycle_count) types ≡ length records
  pub active :
      sum_of (λ v. v.summary.not_cleared_count) types ≡ count_if (in_state not_cleared) records
  pub severities :
      (s : Severity) → sum_of (λ v. v.summary.severity_counts s) types ≡ count_severities records s
  pub repeats : sum_of (λ v. v.summary.raw_repeat_times_total) types ≡ sum (valid_repeats records)
  pub reports :
      sum_of (λ v. v.summary.estimated_report_total) types
      ≡ sum_of (λ n. 1 + n) (valid_repeats records)

-- Grouping the records by alarm type loses nothing and counts nothing twice: the lifecycles, the
-- active ones, those of each severity, the repeats and the estimated reports of the types add up to
-- those of the records.
pub bucket_views-IsConserved :
    (stable_hash : List Text → Text → Text) (end : Option Moment) (records : List AlarmRecord)
    → IsConserved records (bucket_views stable_hash end records)
unfolding summary_view
bucket_views-IsConserved stable_hash end records = record {
  lifecycles =
      sum_of-bucket_views stable_hash end (λ s. s.lifecycle_count) (λ r. 1)
        (λ app id name rs. length-sum_of rs) records
      ∙ sym (length-sum_of records);
  active =
      sum_of-bucket_views stable_hash end (λ s. s.not_cleared_count) _
        (λ app id name rs. count_if-sum_of (in_state not_cleared) rs) records
      ∙ sym (count_if-sum_of (in_state not_cleared) records);
  severities = (λ sev.
      sum_of-bucket_views stable_hash end (λ s. s.severity_counts sev) _
        (λ app id name rs. count_if-sum_of (in_severity sev) rs) records
      ∙ sym (count_if-sum_of (in_severity sev) records));
  repeats =
      sum_of-bucket_views stable_hash end (λ s. s.raw_repeat_times_total) _
        (λ app id name rs. sum-sum_of (valid_repeats rs) ∙ valid_repeats-sum_of (λ n. n) rs) records
      ∙ sym (sum-sum_of (valid_repeats records) ∙ valid_repeats-sum_of (λ n. n) records);
  reports =
      sum_of-bucket_views stable_hash end (λ s. s.estimated_report_total) _
        (λ app id name rs. valid_repeats-sum_of (λ n. 1 + n) rs) records
      ∙ sym (valid_repeats-sum_of (λ n. 1 + n) records);
}
