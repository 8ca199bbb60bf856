-- ===== src/Alarm/ActiveState/Guarantees.antt =====
-- What the rule alarm.active_state promises: its statuses, and its groups against the active records.
use patrol_x.Base.{
  ℕ, ◌+◌, ◌≤◌, ◌≡◌, refl, ◌∙◌, sym, arith, Bool, true, false, not, ◌||◌, ltb, List, [], ◌∷◌, Option,
  of_bool, if◌then◌else◌, Bool-cases, ◌⊎◌, inl, inr,
}
use mathlib.Core.Logic.{◌↔◌}
use mathlib.Core.Path.{ap}
use patrol_x.Base.Lists.{
  All, keep, count_if-sum_of, length-sum_of, length, any, count_if, sum_of, is_nil,
}
use patrol_x.Base.Sort.{sort}
use patrol_x.Base.Sort.Laws.{sum_of-sort, count_if-sort, Ascends, sort-Ascends}
use patrol_x.Base.Text.{Text}
use patrol_x.Alarm.Records.{
  AlarmRecord, AlarmState, not_cleared, normal_cleared, reset_cleared, Severity, critical, high,
  medium, low, unknown, Moment,
}
use patrol_x.Base.Lists.Every.{Some}
use patrol_x.Alarm.Parse.{AlarmParseResult, in_state}
use patrol_x.Rules.{pass, warn, fail}
use patrol_x.Alarm.Degraded.{quality_degraded}
use patrol_x.Alarm.Groups.{Buckets, group_onto, severity_rank}
use patrol_x.Alarm.Groups.Partition.{over, over-group_onto}
use patrol_x.Alarm.Recurrence.Verdict.Guarantees.{ascending-above, ascending-below}
use patrol_x.Alarm.ActiveState.{
  GroupView, group_view, group_of, group_le, views_of, group_views, least_severity, is_high,
  active_of, active_status,
}

-- An alarm that is not cleared, and one that is also critical or high.
abbrev pub IsActive : AlarmRecord → Type 0
IsActive r = r.state ≡ not_cleared

abbrev pub IsGrave : AlarmRecord → Type 0
IsGrave r = IsActive r × (r.severity ≡ critical) ⊎ IsActive r × (r.severity ≡ high)

in_state-cases : (r : AlarmRecord) → (in_state not_cleared r ≡ true) ↔ IsActive r
in_state-cases r = of_state r.state
  where
    of_state :
        (s : AlarmState) → ((elim s [ not_cleared ↦ true | _ ↦ false ]) ≡ true) ↔ (s ≡ not_cleared)
    of_state not_cleared = (λ h. refl, λ h. refl)
    of_state normal_cleared = (λ h. cc, λ h. cc)
    of_state reset_cleared = (λ h. cc, λ h. cc)

is_high-cases : (r : AlarmRecord) → is_high r ≡ true → (r.severity ≡ critical) ⊎ (r.severity ≡ high)
is_high-cases r h = of_severity r.severity h
  where
    of_severity : (s : Severity) → ltb (severity_rank s) 2 ≡ true → (s ≡ critical) ⊎ (s ≡ high)
    of_severity critical h = inl refl
    of_severity high h = inr refl
    of_severity medium h = cc
    of_severity low h = cc
    of_severity unknown h = cc

IsGrave-tests : (r : AlarmRecord) → IsGrave r → (in_state not_cleared r ≡ true) × (is_high r ≡ true)
IsGrave-tests r (inl (active, e)) = ((in_state-cases r).1 active, rw e refl)
IsGrave-tests r (inr (active, e)) = ((in_state-cases r).1 active, rw e refl)

fails_iff :
    (records : List AlarmRecord)
    → (any is_high (keep (in_state not_cleared) records) ≡ true) ↔ Some IsGrave records
fails_iff [] = (λ h. cc, λ h. absurd h)
fails_iff (r ∷ rest) = let later = fails_iff rest in (forth later.0, back later.1)
  where
    forth :
        (any is_high (keep (in_state not_cleared) rest) ≡ true → Some IsGrave rest)
        → any is_high (keep (in_state not_cleared) (r ∷ rest)) ≡ true
        → Some IsGrave (r ∷ rest)
    forth later h = elim (Bool-cases (in_state not_cleared r)) [
      | inr cleared ↦ inr (later (rw cleared at h))
      | inl active ↦ elim (Bool-cases (is_high r)) [
        | inr lesser ↦ inr (later (rw (active, lesser) at h))
        | inl grave ↦ elim (is_high-cases r grave) [
          | inl e ↦ inl (inl ((in_state-cases r).0 active, e))
          | inr e ↦ inl (inr ((in_state-cases r).0 active, e))
        ]
      ]
    ]

    back :
        (Some IsGrave rest → any is_high (keep (in_state not_cleared) rest) ≡ true)
        → Some IsGrave (r ∷ rest)
        → any is_high (keep (in_state not_cleared) (r ∷ rest)) ≡ true
    back later (inl h) = let (active, grave) = IsGrave-tests r h in rw (active, grave) refl
    back later (inr h) = elim (Bool-cases (in_state not_cleared r)) [
      | inr cleared ↦ rw cleared (later h)
      | inl active ↦ rw active (ground (arith, later h))
    ]

idle_iff :
    (records : List AlarmRecord)
    → (is_nil (keep (in_state not_cleared) records) ≡ true) ↔ All (λ r. ¬ IsActive r) records
idle_iff [] = (λ h. tt, λ h. refl)
idle_iff (r ∷ rest) = elim (Bool-cases (in_state not_cleared r)) [
  | inl active ↦ rw active (λ h. cc, λ h. absurd (h.0 ((in_state-cases r).0 active)))
  | inr cleared ↦ rw cleared (
    λ h. (λ active. absurd (clash ((in_state-cases r).1 active) cleared), (idle_iff rest).0 h),
    λ h. (idle_iff rest).1 h.1,
  )
]
  where
    clash : {b : Bool} → b ≡ true → b ≡ false → ⊥
    clash h k = cc

idle-any : {A : Type 0} (p : A → Bool) (xs : List A) → is_nil xs ≡ true → any p xs ≡ false
idle-any p [] h = refl
idle-any p (x ∷ xs) h = ground arith

choice_iff :
    (high_ idle degraded : Bool) {Grave Calm : Type 0}
    → (high_ ≡ true) ↔ Grave
    → (idle ≡ true) ↔ Calm
    → (idle ≡ true → high_ ≡ false)
    → (((if high_ then fail else if not idle || degraded then warn else pass) ≡ fail) ↔ Grave)
      × (((if high_ then fail else if not idle || degraded then warn else pass) ≡ pass)
          ↔ (Calm × (degraded ≡ false)))
choice_iff true true degraded grave calm covered = absurd (clash (covered refl))
  where
    clash : true ≡ false → ⊥
    clash h = cc
choice_iff true false degraded grave calm covered =
    ((λ h. grave.0 refl, λ h. refl), (λ h. cc, λ (h, d). absurd (clash (calm.1 h))))
  where
    clash : false ≡ true → ⊥
    clash h = cc
choice_iff false true true grave calm covered =
    ((λ h. cc, λ h. absurd (clash (grave.1 h))), (λ h. cc, λ (h, d). absurd (clash (sym d))))
  where
    clash : false ≡ true → ⊥
    clash h = cc
choice_iff false true false grave calm covered =
    ((λ h. cc, λ h. absurd (clash (grave.1 h))), (λ h. (calm.0 refl, refl), λ h. refl))
  where
    clash : false ≡ true → ⊥
    clash h = cc
choice_iff false false degraded grave calm covered =
    ((λ h. cc, λ h. absurd (clash (grave.1 h))), (λ h. cc, λ (h, d). absurd (clash (calm.1 h))))
  where
    clash : false ≡ true → ⊥
    clash h = cc

-- The status is FAIL exactly when one of the parsed records has the state "not cleared" and the
-- severity critical or high, and PASS exactly when none of the parsed records has the state "not
-- cleared" and the data are of full quality.
pub active_status_iff :
    (parsed : AlarmParseResult)
    → ((active_status parsed ≡ fail) ↔ Some IsGrave parsed.records)
      × ((active_status parsed ≡ pass)
          ↔ (All (λ r. ¬ IsActive r) parsed.records × (quality_degraded parsed ≡ false)))
unfolding active_status
active_status_iff parsed =
    choice_iff (any is_high (active_of parsed)) (is_nil (active_of parsed))
      (quality_degraded parsed) (fails_iff parsed.records) (idle_iff parsed.records)
      (idle-any is_high (active_of parsed))

any-count_if : {A : Type 0} (p : A → Bool) (xs : List A) → any p xs ≡ ltb 0 (count_if p xs)
any-count_if p [] = refl
any-count_if p (x ∷ xs) = let rest = any-count_if p xs in ground arith

abbrev pub high_group : GroupView → Bool
high_group g = ltb (severity_rank g.severity) 2

least_severity-high :
    (s : Severity) (records : List AlarmRecord)
    → ltb (severity_rank (least_severity s records)) 2
      ≡ ltb 0 (of_bool (ltb (severity_rank s) 2) + count_if is_high records)
least_severity-high s [] = ground arith
least_severity-high s (r ∷ rest) =
    elim (Bool-cases (ltb (severity_rank r.severity) (severity_rank s))) [
      | inl lower ↦ rw lower (let later = least_severity-high r.severity rest in ground arith)
      | inr higher ↦ rw higher (let later = least_severity-high s rest in ground arith)
    ]

module _ (stable_hash : List Text → Text → Text) (end : Option Moment) where
  high_views :
      (b : Buckets)
      → ltb 0 (count_if high_group (views_of stable_hash end b))
        ≡ ltb 0 (over (λ r. of_bool (is_high r)) b)
  unfolding group_view
  high_views [] = refl
  high_views ((k, []) ∷ rest) = let later = high_views rest in ground arith
  high_views ((k, r ∷ rs) ∷ rest) =
      let later = high_views rest in
      let here = least_severity-high r.severity rs in
      let count = count_if-sum_of is_high rs in ground arith

  lifecycles-views_of :
      (b : Buckets) → sum_of (λ g. g.lifecycle_count) (views_of stable_hash end b) ≡ over (λ r. 1) b
  unfolding group_view
  lifecycles-views_of [] = refl
  lifecycles-views_of ((k, []) ∷ rest) = omega (arith, lifecycles-views_of rest)
  lifecycles-views_of ((k, r ∷ rs) ∷ rest) =
      omega (arith, lifecycles-views_of rest, length-sum_of rs)

group_le-above :
    (a b : GroupView) → group_le a b ≡ true → severity_rank a.severity ≤ severity_rank b.severity
unfolding group_le
group_le-above a b h = ascending-above (severity_rank a.severity) (severity_rank b.severity) _ h

group_le-below :
    (a b : GroupView) → group_le a b ≡ false → severity_rank b.severity ≤ severity_rank a.severity
unfolding group_le
group_le-below a b h = ascending-below (severity_rank a.severity) (severity_rank b.severity) _ h

-- Grouping the active records loses none of them; some group is critical or high exactly when some
-- record is; and the groups come in order of severity, the most severe first.
pub group_views_partition :
    (stable_hash : List Text → Text → Text) (end : Option Moment) (active : List AlarmRecord)
    → (sum_of (λ g. g.lifecycle_count) (group_views stable_hash end active) ≡ length active)
      × (any high_group (group_views stable_hash end active) ≡ any is_high active)
      × Ascends group_le (λ g. severity_rank g.severity) (group_views stable_hash end active)
unfolding group_views
group_views_partition stable_hash end active =
    let buckets : Buckets = group_onto group_of [] active in
    let views : List GroupView = views_of stable_hash end buckets in
    let rank : GroupView → ℕ = λ g. severity_rank g.severity in
    let lifecycles = sum_of-sort group_le (λ (g : GroupView). g.lifecycle_count) views in
    let counted = lifecycles-views_of stable_hash end buckets in
    let grouped = over-group_onto (λ r. 1) group_of [] active in
    let one_each = length-sum_of active in
    (
      omega arith,
      any-count_if high_group (sort group_le views)
          ∙ ap (ltb 0) (count_if-sort group_le high_group views)
          ∙ high_views stable_hash end buckets
          ∙ ap (ltb 0) (
              over-group_onto (λ r. of_bool (is_high r)) group_of [] active
              ∙ sym (from_nothing _)
              ∙ sym (count_if-sum_of is_high active))
          ∙ sym (any-count_if is_high active),
      sort-Ascends group_le rank group_le-above group_le-below views,
    )
  where
    from_nothing : (n : ℕ) → n ≡ 0 + n
    from_nothing n = omega arith
