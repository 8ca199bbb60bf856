-- ===== src/Alarm/Recurrence/Verdict/Sources.antt =====
-- Every finding of the rule alarm.recurrence names the row of a record of its own alarm type:
-- `source_refs[0]` is never out of range.
use patrol_x.Base.{
  ℕ, zero, suc, ◌<◌, ◌≡◌, refl, ◌∙◌, sym, arith, Bool, true, false, List, [], ◌∷◌, Option, some,
  Bool-cases, inl, inr,
}
use mathlib.Core.Path.{ap, subst}
use patrol_x.Base.Lists.{length, All, All-append, any, take}
use patrol_x.Base.Lists.Every.{All-weaken, Some, Some-map, All-Some, Some-All}
use patrol_x.Base.Sort.{sort}
use patrol_x.Base.Sort.Laws.{All-sort, length-sort}
use patrol_x.Base.Text.{Text, text_eq, text_eq_iff, codes}
use patrol_x.Alarm.Records.{AlarmRecord, Moment}
use patrol_x.Alarm.Groups.{
  Key, key_eq, Buckets, add_to, group_onto, Ref, ref_le, ref_eq, distinct_refs, source_refs,
}
use patrol_x.Alarm.Groups.Partition.{IsFull, group_onto-IsFull}
use patrol_x.Alarm.Recurrence.Views.{
  TypeView, max_details, summary_view, type_view, type_views, type_le, bucket_views, is_risky,
}
use patrol_x.Alarm.Recurrence.Verdict.{Finding, finding_of, findings, findings_upto, head_of}

key_eq-true : (j k : Key) → key_eq j k ≡ true → j ≡ k
key_eq-true [] [] h = refl
key_eq-true [] (t ∷ k) h = cc
key_eq-true (s ∷ j) [] h = cc
key_eq-true (s ∷ j) (t ∷ k) h = elim (Bool-cases (text_eq s t)) [
  | inl same ↦
      let head : s ≡ t = (text_eq_iff s t).0 same in
      let tail : j ≡ k = key_eq-true j k (rw same at h) in rw (head, tail) refl
  | inr other ↦ absurd (clash (rw other at h))
]
  where
    clash : false ≡ true → ⊥
    clash e = cc

-- What holds of each record with its own key holds of each record with the key of its bucket.
module _ (P : Key → AlarmRecord → Type 0) where
  abbrev Holds : Key × List AlarmRecord → Type 0
  Holds (k, rs) = All (P k) rs

  add_to-Holds :
      (key : Key) (r : AlarmRecord) (b : Buckets)
      → P key r
      → All Holds b
      → All Holds (add_to key r b)
  unfolding add_to
  add_to-Holds key r [] new h = ((new, tt), tt)
  add_to-Holds key r ((k, rs) ∷ rest) new h = elim (Bool-cases (key_eq k key)) [
    | inl same ↦ rw same (
      All-append (P k) rs (r ∷ []) h.0 (subst (λ j. P j r) (sym (key_eq-true k key same)) new, tt),
      h.1,
    )
    | inr other ↦ rw other (h.0, add_to-Holds key r rest new h.1)
  ]

  group_onto-Holds :
      (key : AlarmRecord → Key) (b : Buckets) (records : List AlarmRecord)
      → All (λ r. P (key r) r) records
      → All Holds b
      → All Holds (group_onto key b records)
  unfolding group_onto
  group_onto-Holds key b [] each h = h
  group_onto-Holds key b (r ∷ rest) each h =
      group_onto-Holds key (add_to (key r) r b) rest each.1 (add_to-Holds (key r) r b each.0 h)

abbrev ref_of : AlarmRecord → Ref
ref_of r = (r.source_file, r.line_no)

abbrev Points : List AlarmRecord → Ref → Type 0
Points records ref = Some (λ r. ref ≡ ref_of r) records

distinct_refs-Points : (rs : List AlarmRecord) → All (Points rs) (distinct_refs rs)
unfolding distinct_refs
distinct_refs-Points [] = tt
distinct_refs-Points (r ∷ rest) =
    let later : All (Points (r ∷ rest)) (distinct_refs rest) =
      All-weaken (Points rest) (Points (r ∷ rest)) (distinct_refs rest) (λ ref h. inr h)
        (distinct_refs-Points rest) in
    elim (Bool-cases (any (ref_eq (r.source_file, r.line_no)) (distinct_refs rest))) [
      | inl seen ↦ rw seen later
      | inr new ↦ rw new (inl refl, later)
    ]

distinct_refs-pos :
    (records : List AlarmRecord) → 0 < length records → 0 < length (distinct_refs records)
unfolding distinct_refs
distinct_refs-pos [] h = h
distinct_refs-pos (r ∷ rest) h =
    elim (Bool-cases (any (ref_eq (r.source_file, r.line_no)) (distinct_refs rest))) [
      | inl seen ↦ rw seen (any-pos _ (distinct_refs rest) seen)
      | inr new ↦ rw new (omega arith)
    ]
  where
    any-pos : {A : Type 0} (p : A → Bool) (xs : List A) → any p xs ≡ true → 0 < length xs
    any-pos p [] e = ground arith
    any-pos p (x ∷ xs) e = omega arith

-- The first of some references
head_of-All :
    {A : Type 0} (P : A → Type 0) (n : ℕ) (xs : List A)
    → 0 < length xs
    → All P xs
    → (x : A) × (head_of (take (suc n) xs) ≡ some x) × P x
head_of-All P n [] h all_ = absurd (omega arith)
head_of-All P n (x ∷ xs) h all_ = (x, refl, all_.0)

-- The references of some records begin with the row of one of them.
source_refs-Points :
    (rs : List AlarmRecord)
    → 0 < length rs
    → (ref : Ref) × (head_of (take max_details (source_refs rs)) ≡ some ref) × Points rs ref
unfolding source_refs
source_refs-Points rs h =
    head_of-All (Points rs) 99 (sort ref_le (distinct_refs rs))
      (omega (arith, length-sort ref_le (distinct_refs rs), distinct_refs-pos rs h))
      (All-sort ref_le (Points rs) (distinct_refs rs) (distinct_refs-Points rs))

abbrev pub type_of : AlarmRecord → Key
type_of r = r.app_name ∷ r.alarm_id ∷ []

module _ (stable_hash : List Text → Text → Text) where
  -- The finding's source is the file and the line of one of the records, and its id is made of that
  -- record's application and alarm.
  abbrev pub IsSourced : List AlarmRecord → Finding → Type 0
  IsSourced records f =
      Some
        (λ r.
          (f.source ≡ some (r.source_file, r.line_no))
          × (f.finding_id ≡ stable_hash (type_of r) (codes "alarm.recurrence:")))
        records

  module _ (end : Option Moment) (records : List AlarmRecord) where
    -- A record of a bucket, with the bucket's key, is one of the records.
    abbrev Stands : Key → AlarmRecord → Type 0
    Stands k r = Some (λ s. (ref_of r ≡ ref_of s) × (k ≡ type_of s)) records

    type_view-IsSourced :
        (k : Key) (rs : List AlarmRecord)
        → 0 < length rs
        → All (Stands k) rs
        → IsSourced records (finding_of (type_view stable_hash end k rs))
    unfolding type_view summary_view
    type_view-IsSourced k rs h stands =
        let (ref, first, points) = source_refs-Points rs h in
        Some-All (λ r. ref ≡ ref_of r) (Stands k) rs
          (λ r named stand.
            Some-map (λ s. (ref_of r ≡ ref_of s) × (k ≡ type_of s)) _ records
              (λ s (same, key). (
                first ∙ ap some (named ∙ same),
                ap (λ j. stable_hash j (codes "alarm.recurrence:")) key,
              ))
              stand)
          points stands

    type_views-IsSourced :
        (b : Buckets)
        → All IsFull b
        → All (Holds Stands) b
        → All (λ v. IsSourced records (finding_of v)) (type_views stable_hash end b)
    type_views-IsSourced [] h stands = tt
    type_views-IsSourced ((k, rs) ∷ rest) h stands =
        (type_view-IsSourced k rs h.0 stands.0, type_views-IsSourced rest h.1 stands.1)

    findings_upto-IsSourced :
        (room : ℕ) (types : List TypeView)
        → All (λ v. IsSourced records (finding_of v)) types
        → All (IsSourced records) (findings_upto room types)
    unfolding findings_upto
    findings_upto-IsSourced room [] h = tt
    findings_upto-IsSourced zero (v ∷ rest) h = tt
    findings_upto-IsSourced (suc room) (v ∷ rest) h = elim (Bool-cases (is_risky v.summary)) [
      | inl risky ↦ rw risky (h.0, findings_upto-IsSourced room rest h.1)
      | inr calm ↦ rw calm (findings_upto-IsSourced (suc room) rest h.1)
    ]

  -- Each finding on the types of some records has as its source the file and the line of one of these
  -- records, a record of the application and the alarm that the finding's id is made of.
  pub findings-IsSourced :
      (end : Option Moment) (records : List AlarmRecord)
      → All (IsSourced records) (findings (bucket_views stable_hash end records))
  unfolding bucket_views
  findings-IsSourced end records =
      let buckets : Buckets = group_onto type_of [] records in
      findings_upto-IsSourced end records max_details _ (
        All-sort type_le (λ v. IsSourced records (finding_of v)) _
          (type_views-IsSourced end records buckets (group_onto-IsFull type_of [] records tt) (
            group_onto-Holds (Stands end records) type_of [] records
              (All-Some (λ r s. (ref_of r ≡ ref_of s) × (type_of r ≡ type_of s)) records
                (λ r. (refl, refl)))
              tt)))
