-- ===== src/Parallel/Stage.antt =====
-- ParallelPolicy.decide, run_stage and _execute_plan of app/services/parallel.py: a stage as a whole.
pub mod Outcomes
pub mod Aligned
use patrol_x.Base.{
  ℕ, ◌+◌, Bool, true, false, not, ◌&&◌, ◌||◌, ltb, ◌==◌, List, [], ◌∷◌, ◌++◌, Option, none, some,
  if◌then◌else◌,
}
use patrol_x.Base.Lists.{is_nil, length, sum_of}
use patrol_x.Parallel.{
  UnitPlan, needs_worker, UnitOutcome, Pending, Measured, Pools, Landed, run_parallel,
  crash_outcome, recover_one, recover_units,
}

pub record ParallelPolicy : Type 0 where
  pub max_workers : ℕ
  pub min_units : ℕ
  pub min_matched_bytes : ℕ
  pub enabled : Bool

pub data Reason : Type 0 where
  eligible disabled few_units few_bytes no_pending_units broker_broken : Reason

-- ParallelPolicy.decide
unfoldable pub decide : ParallelPolicy → ℕ → ℕ → Bool × Reason
decide policy pending_units matched_bytes =
    if not policy.enabled
    then (false, disabled)
    else if ltb pending_units policy.min_units
    then (false, few_units)
    else if ltb matched_bytes policy.min_matched_bytes
    then (false, few_bytes)
    else (true, eligible)

pub data Mode : Type 0 where
  serial parallel degraded : Mode

-- What a stage gives, and whether the runner's pool is broken behind it.
pub record Staged : Type 0 where
  pub outcomes : List (Option UnitOutcome)
  pub mode : Mode
  pub reason : Reason
  pub broken : Bool

-- `[(index, plan) for index, plan in enumerate(plans) if plan.needs_worker]`, from an index on
unfoldable pub pending_from : ℕ → List UnitPlan → List Pending
pending_from index [] = []
pending_from index (plan ∷ rest) =
    let others = pending_from (index + 1) rest in
    if needs_worker plan then (index, plan) ∷ others else others

-- `measured.get(index)`
unfoldable pub outcome_at : ℕ → Measured → Option UnitOutcome
outcome_at index [] = none
outcome_at index ((i, o) ∷ rest) = if i == index then some o else outcome_at index rest

-- The loop that lines the outcomes up with the plans, from an index on.
unfoldable pub aligned : ℕ → Measured → List UnitPlan → List (Option UnitOutcome)
unfolding outcome_at
aligned index measured [] = []
aligned index measured (plan ∷ rest) = outcome_at index measured ∷ aligned (index + 1) measured rest

-- _execute_plan, of a plan that has a request; `execute` is `execute_unit` in the parent process.
unfoldable pub execute_plans : (UnitPlan → Option UnitOutcome) → List Pending → Measured
execute_plans execute [] = []
execute_plans execute ((index, plan) ∷ rest) =
    (index, recover_one plan (execute plan)) ∷ execute_plans execute rest

-- What follows _run_parallel: a degraded stage is recovered.
abbrev pub staged_of : Pools → List UnitPlan → Landed → Staged
staged_of pools plans landed =
    if landed.degraded
    then record {
      outcomes = aligned 0 (landed.measured ++ recover_units pools landed.unsettled) plans;
      mode = degraded;
      reason = broker_broken;
      broken = true;
    }
    else record {
      outcomes = aligned 0 landed.measured plans;
      mode = parallel;
      reason = eligible;
      broken = false;
    }

abbrev pub after_parallel : Pools → List UnitPlan → Option Landed → Option Staged
after_parallel pools plans none = none
after_parallel pools plans (some landed) = some (staged_of pools plans landed)

abbrev pub staged_serially : List UnitPlan → Bool → Measured → Reason → Staged
staged_serially plans broken measured reason = record {
  outcomes = aligned 0 measured plans;
  mode = serial;
  reason = reason;
  broken = broken;
}

-- run_stage, on a runner whose pool is broken or not. The first parallel stage makes the pool.
unfoldable pub run_stage :
    ParallelPolicy → Pools → (UnitPlan → Option UnitOutcome) → Bool → List UnitPlan → Option Staged
unfolding decide pending_from aligned execute_plans run_parallel recover_units
run_stage policy pools execute broken plans =
    let pending = pending_from 0 plans in
    let (chosen, reason) =
      decide policy (length pending) (sum_of (λ plan. plan.matched_bytes) plans) in
    let serially = staged_serially plans broken (execute_plans execute pending) in
    if is_nil pending
    then some (serially no_pending_units)
    else if chosen && broken
    then some (serially broker_broken)
    else if chosen
    then after_parallel pools plans (run_parallel pools policy.max_workers pending)
    else some (serially reason)
