-- ===== src/Parallel/Stage/Aligned.antt =====
-- The outcomes of a stage stand in the order of its plans.
use mathlib.Core.Path.{subst}
use patrol_x.Base.{
  some_injective, either_branch, ◌≡◌, refl, Bool, ◌&&◌, List, ◌++◌, Option, none, some, Bool-cases,
  inl, inr,
}
use patrol_x.Base.Lists.{length, is_nil, sum_of}
use patrol_x.Parallel.{UnitPlan, UnitOutcome, Measured, Pools, Landed, run_parallel, recover_units}
use patrol_x.Parallel.Stage.{
  ParallelPolicy, Reason, no_pending_units, broker_broken, decide, Staged, pending_from, aligned,
  execute_plans, staged_of, after_parallel, staged_serially, run_stage,
}

-- A stage returns a list aligned with the plans, whatever the pools do.
abbrev pub IsAligned : List UnitPlan → Staged → Type 0
IsAligned plans staged = (m : Measured) × (staged.outcomes ≡ aligned 0 m plans)

staged_of-IsAligned :
    (pools : Pools) (plans : List UnitPlan) (landed : Landed)
    → IsAligned plans (staged_of pools plans landed)
staged_of-IsAligned pools plans landed = elim (Bool-cases landed.degraded) [
  | inl broke ↦ rw broke (landed.measured ++ recover_units pools landed.unsettled, refl)
  | inr whole ↦ rw whole (landed.measured, refl)
]

after_parallel-IsAligned :
    (pools : Pools) (plans : List UnitPlan) (o : Option Landed) (staged : Staged)
    → after_parallel pools plans o ≡ some staged
    → IsAligned plans staged
after_parallel-IsAligned pools plans none staged h = cc
after_parallel-IsAligned pools plans (some landed) staged h =
    subst (IsAligned plans) (some_injective h) (staged_of-IsAligned pools plans landed)

pub run_stage-IsAligned :
    (policy : ParallelPolicy) (pools : Pools) (execute : UnitPlan → Option UnitOutcome)
    (broken : Bool) (plans : List UnitPlan) (staged : Staged)
    → run_stage policy pools execute broken plans ≡ some staged
    → IsAligned plans staged
unfolding run_stage
run_stage-IsAligned policy pools execute broken plans staged h =
    let (chosen, reason) =
      decide policy (length (pending_from 0 plans)) (sum_of (λ plan. plan.matched_bytes) plans) in
    either_branch (is_nil (pending_from 0 plans)) h (λ _. serially no_pending_units)
      (λ _ h'.
        either_branch (chosen && broken) h' (λ _. serially broker_broken)
          (λ _ h''.
            either_branch chosen h''
              (λ _.
                after_parallel-IsAligned pools plans
                  (run_parallel pools policy.max_workers (pending_from 0 plans)) staged)
              (λ _. serially reason)))
  where
    serially :
        (reason : Reason)
        → some (staged_serially plans broken (execute_plans execute (pending_from 0 plans)) reason)
          ≡ some staged
        → IsAligned plans staged
    serially reason e =
        subst (IsAligned plans) (some_injective e)
          (execute_plans execute (pending_from 0 plans), refl)
