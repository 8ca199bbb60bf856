-- ===== src/Parallel/Stage/Outcomes.antt =====
-- Each unit of a stage has its outcome, in the order of the plans.
use mathlib.Core.Path.{ap}
use patrol_x.Base.{
  ℕ, ◌+◌, ◌≤◌, ◌<◌, ◌≡◌, refl, ◌∙◌, arith, Bool, true, false, ◌&&◌, ltb, ◌==◌, List, [], ◌∷◌, ◌++◌,
  Option, none, some, of_bool, if◌then◌else◌, Bool-cases, inl, inr,
}
use patrol_x.Base.Lists.{keep, length, is_nil, sum_of}
use patrol_x.Parallel.{
  UnitPlan, needs_worker, UnitOutcome, Pending, Measured, Pools, Landed, run_parallel,
  recover_units,
}
use patrol_x.Parallel.Counts.{picked}
use patrol_x.Parallel.Partition.{run_parallel_partition, run_parallel_ends}
use patrol_x.Parallel.Whole.{run_parallel-whole}
use patrol_x.Parallel.Stage.{
  ParallelPolicy, Reason, no_pending_units, broker_broken, decide, Staged, pending_from, outcome_at,
  aligned, execute_plans, staged_of, after_parallel, staged_serially, run_stage,
}

abbrev pub is_some : {A : Type 0} → Option A → Bool
is_some none = false
is_some (some a) = true

-- Each plan that needs a worker has an outcome, and no other has one.
abbrev pub LinesUp : List UnitPlan → List (Option UnitOutcome) → Type 0
LinesUp [] [] = Unit
LinesUp (plan ∷ plans) (o ∷ rest) = (is_some o ≡ needs_worker plan) × LinesUp plans rest
LinesUp _ _ = ⊥

-- The index of a plan is at most its own: none before `k`.
picked_below :
    (k i : ℕ) (plans : List UnitPlan) → i < k → picked (λ j. j == i) (pending_from k plans) ≡ 0
unfolding pending_from
picked_below k i [] h = refl
picked_below k i (plan ∷ rest) h = elim (Bool-cases (needs_worker plan)) [
  | inl works ↦ rw works (ground (arith, picked_below (k + 1) i rest))
  | inr idle ↦ rw idle (picked_below (k + 1) i rest (omega arith))
]

picked-pending_from :
    (k i : ℕ) (plans : List UnitPlan) → picked (λ j. j == i) (pending_from k plans) ≤ 1
unfolding pending_from
picked-pending_from k i [] = omega arith
picked-pending_from k i (plan ∷ rest) = elim (Bool-cases (needs_worker plan)) [
  | inl works ↦
      rw works (ground (arith, picked_below (k + 1) i rest, picked-pending_from (k + 1) i rest))
  | inr idle ↦ rw idle (picked-pending_from (k + 1) i rest)
]

is_some-outcome_at :
    (i : ℕ) (m : Measured) → is_some (outcome_at i m) ≡ ltb 0 (picked (λ j. j == i) m)
unfolding outcome_at
is_some-outcome_at i [] = refl
is_some-outcome_at i ((j, o) ∷ m) = let rest = is_some-outcome_at i m in ground arith

pending_step :
    (k i : ℕ) (plan : UnitPlan) (rest : List UnitPlan)
    → picked (λ j. j == i) (pending_from k (plan ∷ rest))
      ≡ of_bool (needs_worker plan && k == i) + picked (λ j. j == i) (pending_from (k + 1) rest)
unfolding pending_from
pending_step k i plan rest = elim (Bool-cases (needs_worker plan)) [
  | inl works ↦ rw works refl
  | inr idle ↦ rw idle (omega arith)
]

aligned-LinesUp :
    (k : ℕ) (m : Measured) (plans : List UnitPlan)
    → ((i : ℕ) → k ≤ i → picked (λ j. j == i) m ≡ picked (λ j. j == i) (pending_from k plans))
    → LinesUp plans (aligned k m plans)
unfolding aligned
aligned-LinesUp k m [] same = tt
aligned-LinesUp k m (plan ∷ rest) same = (
  is_some-outcome_at k m
      ∙ ap (ltb 0) (same k (omega arith) ∙ pending_step k k plan rest)
      ∙ own (needs_worker plan) (picked_below (k + 1) k rest (omega arith)),
  aligned-LinesUp (k + 1) m rest (λ i h.
      same i (omega arith)
      ∙ pending_step k i plan rest
      ∙ other i (needs_worker plan) (omega arith)),
)
  where
    own : (b : Bool) {n : ℕ} → n ≡ 0 → ltb 0 (of_bool (b && k == k) + n) ≡ b
    own b h = ground arith

    other : (i : ℕ) (b : Bool) {n : ℕ} → k < i → of_bool (b && k == i) + n ≡ n
    other i b h = ground arith

-- A full outcome list from a run in the parent process.
picked-execute_plans :
    (execute : UnitPlan → Option UnitOutcome) (p : ℕ → Bool) (l : List Pending)
    → picked p (execute_plans execute l) ≡ picked p l
unfolding execute_plans
picked-execute_plans execute p [] = refl
picked-execute_plans execute p (t ∷ rest) = omega (arith, picked-execute_plans execute p rest)

-- The runs of the pool, with those of the recovery where it degraded.
staged_of-LinesUp :
    (policy : ParallelPolicy) (pools : Pools) (plans : List UnitPlan) (landed : Landed)
    → 1 ≤ policy.max_workers
    → 0 < length (pending_from 0 plans)
    → run_parallel pools policy.max_workers (pending_from 0 plans) ≡ some landed
    → LinesUp plans (staged_of pools plans landed).outcomes
staged_of-LinesUp policy pools plans landed workers some_pending h =
    elim (Bool-cases landed.degraded) [
      | inl broke ↦ rw broke (
          aligned-LinesUp 0 (landed.measured ++ recover_units pools landed.unsettled) plans (λ i _.
            (run_parallel_partition pools policy.max_workers (pending_from 0 plans) landed
              (λ j. j == i) (λ i'. picked-pending_from 0 i' plans) h).1))
      | inr whole ↦ rw whole (aligned-LinesUp 0 landed.measured plans (λ i _. settled i whole))
    ]
  where
    settled :
        (i : ℕ)
        → landed.degraded ≡ false
        → picked (λ j. j == i) landed.measured ≡ picked (λ j. j == i) (pending_from 0 plans)
    settled i whole =
        let parts =
          (run_parallel_partition pools policy.max_workers (pending_from 0 plans) landed
            (λ j. j == i) (λ i'. picked-pending_from 0 i' plans) h).0 in
        let none_left : picked (λ j. j == i) landed.unsettled ≡ 0 = ap (picked (λ j. j == i)) (
          run_parallel-whole pools policy.max_workers (pending_from 0 plans) landed workers
            some_pending h whole) in
        omega (arith, parts, none_left)

serially-LinesUp :
    (execute : UnitPlan → Option UnitOutcome) (plans : List UnitPlan)
    → LinesUp plans (aligned 0 (execute_plans execute (pending_from 0 plans)) plans)
serially-LinesUp execute plans =
    aligned-LinesUp 0 (execute_plans execute (pending_from 0 plans)) plans
      (λ i _. picked-execute_plans execute (λ j. j == i) (pending_from 0 plans))

is_nil-length : (l : List Pending) → is_nil l ≡ false → 0 < length l
is_nil-length [] h = absurd (ground arith)
is_nil-length (x ∷ l) h = ground arith

-- A value, lined up with the plans.
abbrev Gives : List UnitPlan → Option Staged → Type 0
Gives plans o = (r : Staged) × (o ≡ some r) × LinesUp plans r.outcomes

if-Gives :
    (plans : List UnitPlan) {x y : Option Staged} (b : Bool)
    → (b ≡ true → Gives plans x)
    → (b ≡ false → Gives plans y)
    → Gives plans (if b then x else y)
if-Gives plans true f g = f refl
if-Gives plans false f g = g refl

parallel-Gives :
    (policy : ParallelPolicy) (pools : Pools) (plans : List UnitPlan)
    → 1 ≤ policy.max_workers
    → ((l : List Pending) → 0 < length l → 0 < length (keep (pools.is_done l) l))
    → is_nil (pending_from 0 plans) ≡ false
    → Gives plans
        (after_parallel pools plans (run_parallel pools policy.max_workers (pending_from 0 plans)))
parallel-Gives policy pools plans workers waits busy =
    landing (run_parallel pools policy.max_workers (pending_from 0 plans)) refl
  where
    landing :
        (o : Option Landed)
        → run_parallel pools policy.max_workers (pending_from 0 plans) ≡ o
        → Gives plans (after_parallel pools plans o)
    landing none h =
        absurd (run_parallel_ends pools policy.max_workers (pending_from 0 plans) waits h)
    landing (some landed) h = (
      staged_of pools plans landed,
      refl,
      staged_of-LinesUp policy pools plans landed workers
          (is_nil-length (pending_from 0 plans) busy) h,
    )

-- Where a pool has a worker and `wait` gives at least one future of a window that is not empty, a
-- stage ends, and each plan that needs a worker has an outcome, at its own place, and no other plan
-- has one: in a serial stage, in a parallel one, and in one whose pool broke at any moment.
pub run_stage-LinesUp :
    (policy : ParallelPolicy) (pools : Pools) (execute : UnitPlan → Option UnitOutcome)
    (broken : Bool) (plans : List UnitPlan)
    → 1 ≤ policy.max_workers
    → ((l : List Pending) → 0 < length l → 0 < length (keep (pools.is_done l) l))
    → (r : Staged) × (run_stage policy pools execute broken plans ≡ some r)
      × LinesUp plans r.outcomes
unfolding run_stage
run_stage-LinesUp policy pools execute broken plans workers waits =
    let (chosen, reason) =
      decide policy (length (pending_from 0 plans)) (sum_of (λ plan. plan.matched_bytes) plans) in
    if-Gives plans (is_nil (pending_from 0 plans)) (λ _. serially no_pending_units)
      (λ busy.
        if-Gives plans (chosen && broken) (λ _. serially broker_broken)
          (λ _.
            if-Gives plans chosen (λ _. parallel-Gives policy pools plans workers waits busy)
              (λ _. serially reason)))
  where
    serially :
        (reason : Reason)
        → Gives plans (
            some
              (staged_serially plans broken (execute_plans execute (pending_from 0 plans)) reason))
    serially reason = (
      staged_serially plans broken (execute_plans execute (pending_from 0 plans)) reason,
      refl,
      serially-LinesUp execute plans,
    )
