-- ===== src/Alarm/Recurrence/Verdict/Guarantees.antt =====
-- What the rule alarm.recurrence promises: its statuses, its findings, its sums and its order.
use patrol_x.Base.{
  ℕ, zero, suc, ◌≤◌, ◌≡◌, refl, sym, arith, Bool, true, false, ◌||◌, ltb, ◌==◌, List, [], ◌∷◌, map,
  Option, if◌then◌else◌, Bool-cases, inl, inr,
}
use mathlib.Core.Logic.{◌↔◌}
use patrol_x.Base.Lists.{
  length, length-map, cut-take, length-take-le, any, keep, take, count_if, length-keep,
}
use patrol_x.Base.Sort.Laws.{Ascends, sort-Ascends}
use patrol_x.Base.Text.{Text}
use patrol_x.Alarm.Records.{Moment, AlarmRecord}
use patrol_x.Alarm.Parse.{AlarmParseResult}
use patrol_x.Rules.{pass, warn, fail}
use patrol_x.Alarm.Degraded.{quality_degraded}
use patrol_x.Alarm.Recurrence.Views.{
  Summary, TypeView, max_details, bucket_views, is_risky, risk_rank, has_other_risk, type_le,
  type_views, ascending,
}
use patrol_x.Alarm.Groups.{group_onto}
use patrol_x.Alarm.Recurrence.Verdict.{
  finding_of, findings_upto, findings, metadata, status_of, is_active_repeat,
}

-- The rank of a type.
abbrev pub rank_of : TypeView → ℕ
rank_of v = risk_rank v.summary

risk_rank-is_active_repeat : (v : TypeView) → is_active_repeat v ≡ (rank_of v == 0)
unfolding risk_rank has_other_risk
risk_rank-is_active_repeat v = ground arith

risk_rank-is_risky : (s : Summary) → is_risky s ≡ ltb (risk_rank s) 4
unfolding risk_rank is_risky has_other_risk
risk_rank-is_risky s = ground arith

any-is_active_repeat :
    (types : List TypeView) → any is_active_repeat types ≡ any (λ v. rank_of v == 0) types
any-is_active_repeat [] = refl
any-is_active_repeat (v ∷ rest) = rw (risk_rank-is_active_repeat v, any-is_active_repeat rest) refl

any-is_risky :
    (types : List TypeView)
    → any (λ v. is_risky v.summary) types ≡ any (λ v. ltb (rank_of v) 4) types
any-is_risky [] = refl
any-is_risky (v ∷ rest) = rw (risk_rank-is_risky v.summary, any-is_risky rest) refl

any-ranks :
    (types : List TypeView)
    → any (λ v. rank_of v == 0) types ≡ true
    → any (λ v. ltb (rank_of v) 4) types ≡ true
any-ranks [] h = ground arith
any-ranks (v ∷ rest) h = elim (Bool-cases (rank_of v == 0)) [
  | inl first ↦ rw (low (rank_of v) first) refl
  | inr later ↦ rw (any-ranks rest (rw later at h)) (of_or (ltb (rank_of v) 4))
]
  where
    low : (n : ℕ) → (n == 0) ≡ true → ltb n 4 ≡ true
    low n e = ground arith

    of_or : (b : Bool) → (b || true) ≡ true
    of_or b = ground arith

choice_iff :
    (active risky degraded : Bool)
    → (active ≡ true → risky ≡ true)
    → (((if active then fail else if risky || degraded then warn else pass) ≡ fail)
        ↔ (active ≡ true))
      × (((if active then fail else if risky || degraded then warn else pass) ≡ pass)
          ↔ ((risky ≡ false) × (degraded ≡ false)))
choice_iff active risky degraded covered = ground arith

-- The status is FAIL exactly when some alarm type has risk rank 0, and PASS exactly when every type
-- has the last rank and the data are of full quality.
pub status_of_iff :
    (parsed : AlarmParseResult) (types : List TypeView)
    → ((status_of parsed types ≡ fail) ↔ (any (λ v. rank_of v == 0) types ≡ true))
      × ((status_of parsed types ≡ pass)
          ↔ ((any (λ v. ltb (rank_of v) 4) types ≡ false) × (quality_degraded parsed ≡ false)))
unfolding status_of
status_of_iff parsed types =
    rw (sym (any-is_active_repeat types), sym (any-is_risky types))
      (choice_iff (any is_active_repeat types) (any (λ v. is_risky v.summary) types)
        (quality_degraded parsed)
        (rw (any-is_active_repeat types, any-is_risky types) (any-ranks types)))

findings_upto_eq :
    (room : ℕ) (types : List TypeView)
    → findings_upto room types ≡ map finding_of (take room (keep (λ v. is_risky v.summary) types))
unfolding findings_upto
findings_upto_eq zero [] = refl
findings_upto_eq (suc room) [] = refl
findings_upto_eq zero (v ∷ rest) = refl
findings_upto_eq (suc room) (v ∷ rest) = elim (Bool-cases (is_risky v.summary)) [
  | inl risky ↦ rw (risky, findings_upto_eq room rest) refl
  | inr calm ↦ rw (calm, findings_upto_eq (suc room) rest) refl
]

-- The findings are those of the first hundred risky types, in the order of the types.
pub findings_eq :
    (types : List TypeView)
    → findings types ≡ map finding_of (take max_details (keep (λ v. is_risky v.summary) types))
findings_eq types = findings_upto_eq max_details types

-- A finding is missing exactly when the metadata say that findings were cut off, and there are never
-- more than a hundred.
pub metadata-findings_truncated :
    (parsed : AlarmParseResult) (types : List TypeView)
    → ((metadata parsed types).findings_truncated
        ≡ ltb (length (findings types)) (count_if (λ v. is_risky v.summary) types))
      × (length (findings types) ≤ max_details)
unfolding metadata
metadata-findings_truncated parsed types =
    rw
      (
        findings_eq types,
        length-map finding_of (take max_details (keep (λ v. is_risky v.summary) types)),
        sym (length-keep (λ v. is_risky v.summary) types),
      )
      (cut-take max_details (keep (λ v. is_risky v.summary) types), length-take-le max_details _)

pub ascending-above : (a b : ℕ) (tie : Bool) → ascending a b tie ≡ true → a ≤ b
ascending-above a b tie h = ground arith

pub ascending-below : (a b : ℕ) (tie : Bool) → ascending a b tie ≡ false → b ≤ a
ascending-below a b tie h = ground arith

type_le-above : (a b : TypeView) → type_le a b ≡ true → rank_of a ≤ rank_of b
unfolding type_le
type_le-above a b h = ascending-above (rank_of a) (rank_of b) _ h

type_le-below : (a b : TypeView) → type_le a b ≡ false → rank_of b ≤ rank_of a
unfolding type_le
type_le-below a b h = ascending-below (rank_of a) (rank_of b) _ h

-- The types come in ascending order of risk rank, so the hundred that are kept are of the least ranks.
pub bucket_views-Ascends :
    (stable_hash : List Text → Text → Text) (end : Option Moment) (records : List AlarmRecord)
    → Ascends type_le rank_of (bucket_views stable_hash end records)
unfolding bucket_views
bucket_views-Ascends stable_hash end records =
    sort-Ascends type_le rank_of type_le-above type_le-below
      (type_views stable_hash end (group_onto (λ r. r.app_name ∷ r.alarm_id ∷ []) [] records))
