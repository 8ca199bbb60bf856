-- ===== src/Parallel/Tests.antt =====
-- Three units, of which the second breaks the pool.
use patrol_x.Base.{
  ℕ, ◌+◌, ◌≤◌, ◌<◌, ◌≡◌, refl, arith, true, false, ◌==◌, if◌then◌else◌, List, [], ◌∷◌, ◌++◌, none,
  some,
}
use patrol_x.Base.Lists.{length, keep}
use patrol_x.Base.Text.{Text, codes}
use patrol_x.Rules.{inspect, pass}
use patrol_x.Parallel.{Pending, UnitPlan, UnitOutcome, Pools, Landed, run_parallel, recover_units}
use patrol_x.Parallel.Counts.{picked}
use patrol_x.Parallel.Stage.{ParallelPolicy, Staged, run_stage}
use patrol_x.Parallel.Stage.Outcomes.{LinesUp, run_stage-LinesUp}
use patrol_x.Parallel.Partition.{run_parallel_partition}

abbrev plan : Text → UnitPlan
plan code = record {
  unit_kind = inspect;
  code = code;
  owner_code = code;
  request = some [];
  matched_bytes = 10;
  prepare_state = none;
  short_circuit = none;
}

abbrev pending : List Pending
pending = (0, plan (codes "a")) ∷ (1, plan (codes "b")) ∷ (2, plan (codes "c")) ∷ []

abbrev outcome : Text → UnitOutcome
outcome code = record {
  unit_kind = inspect;
  code = code;
  crashed = false;
  result = some (record { code = code; status = pass; metrics = []; execution_order = 0 });
  prepare_state = none;
}

abbrev pools : Pools
pools = record {
  accepts = λ t. true;
  is_done = λ l t. true;
  result = λ t. if t.0 == 1 then none else some (outcome t.1.code);
  recovered = λ t. some (outcome t.1.code);
}

abbrev landed : Landed
landed = record {
  measured = (0, outcome (codes "a")) ∷ [];
  unsettled = (1, plan (codes "b")) ∷ (2, plan (codes "c")) ∷ [];
  degraded = true;
}

ran : run_parallel pools 2 pending ≡ some landed
unfolding run_parallel
ran = refl

distinct : (i : ℕ) → picked (λ j. j == i) pending ≤ 1
distinct i = ground arith

run_parallel_partition_example :
    (picked (λ i. true) landed.measured + picked (λ i. true) landed.unsettled
      ≡ picked (λ i. true) pending)
    × (picked (λ i. true) (landed.measured ++ recover_units pools landed.unsettled)
        ≡ picked (λ i. true) pending)
run_parallel_partition_example =
    run_parallel_partition pools 2 pending landed (λ i. true) distinct ran

waits : (l : List Pending) → 0 < length l → 0 < length (keep (pools.is_done l) l)
waits [] h = h
waits (t ∷ l) h = omega arith

abbrev policy : ParallelPolicy
policy = record { max_workers = 2; min_units = 1; min_matched_bytes = 30; enabled = true }

-- A plan that waits for no worker between the others.
abbrev plans : List UnitPlan
plans = plan (codes "a") ∷ record (plan (codes "b")) { request = none } ∷ plan (codes "c") ∷ []

run_stage-LinesUp_example :
    (r : Staged) × (run_stage policy pools (λ p. none) false plans ≡ some r)
    × LinesUp plans r.outcomes
run_stage-LinesUp_example =
    run_stage-LinesUp policy pools (λ p. none) false plans (omega arith) waits
