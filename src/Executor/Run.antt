-- ===== src/Executor/Run.antt =====
-- run_one, run_all and assign_order of app/services/executor.py.
pub mod Codes
pub mod Domain
pub mod Registered
pub mod Unready
pub mod Returns
use patrol_x.Base.{
  ℕ, ◌+◌, Bool, true, false, not, ◌&&◌, ◌||◌, List, [], ◌∷◌, ◌++◌, Option, none, some, Result, ok,
  err, ◌>>=◌, ◌>>◌, raise_if, if◌then◌else◌,
}
use patrol_x.Base.Dict.{Dict, get, put}
use patrol_x.Base.Lists.{any}
use patrol_x.Base.Text.{Text}
use patrol_x.Rules.{
  RuleStatus, pass, warn, fail, error, skip, RuleResult, UnitKind, prepare, inspect,
}
use patrol_x.Rules.Contract.{Inspector, PrepareSpec}
use patrol_x.Rules.Registry.{get_rule}
use patrol_x.Parallel.{UnitPlan, UnitOutcome, Pools, error_result}
use patrol_x.Parallel.Stage.{ParallelPolicy, Staged, run_stage}
use patrol_x.Executor.{Surroundings, Context, Executor, extract_plan, inspect_plan, scoped_prepares}
use patrol_x.Executor.Unit.{run_inspect_call, execute_unit}
use patrol_x.Executor.Plan.{
  Raised, not_registered, catalog_error, no_end, plan_prepare, finish_prepare, plan_rule,
  plan_inspect,
}

abbrev pub Results : Type 0
Results = Dict RuleResult

abbrev pub of_option {ℓ} : {A : Type ℓ} → Raised → Option A → Result Raised A
of_option raised none = err raised
of_option raised (some a) = ok a

-- _store_result, without the counter of the metrics
abbrev pub store_result : Bool → RuleResult → Context → Context
store_result collect result ctx =
    if collect then record ctx { collected = put result.code result ctx.collected } else ctx

abbrev pub files_of : UnitPlan → List Text
files_of plan = elim plan.request [ none ↦ [] | some files ↦ files ]

-- The result of run_one behind the plan.
abbrev pub one_result : Surroundings → Inspector → UnitPlan → RuleResult
one_result env rule plan = elim plan.short_circuit [
  | some result ↦ result
  | none ↦ run_inspect_call env rule (files_of plan) plan.prepare_state
]

-- run_one, on the rule that the registry finds
abbrev pub run_registered :
    Surroundings → Bool → Context → Option Inspector → Result Raised (Context × RuleResult)
run_registered env collect ctx none = err not_registered
run_registered env collect ctx (some rule) =
    let result = one_result env rule (plan_rule env rule ctx) in
    ok (store_result collect result ctx, result)

unfoldable pub run_one :
    Surroundings → Executor → Bool → Text → Context → Result Raised (Context × RuleResult)
unfolding plan_rule run_inspect_call
run_one env ex collect code ctx = run_registered env collect ctx (get_rule ex.registry code)

-- The loop of run_all over extract_plan.
unfoldable pub run_extracts :
    Surroundings → Executor → List Text → Context × Results → Result Raised (Context × Results)
unfolding run_one
run_extracts env ex [] s = ok s
run_extracts env ex (code ∷ codes) (ctx, results) = do
  (ctx', result) ← run_one env ex true code ctx
  run_extracts env ex codes (ctx', put code result results)

abbrev pub is_error : RuleStatus → Bool
is_error error = true
is_error pass = false
is_error warn = false
is_error fail = false
is_error skip = false

abbrev pub has_failed : Option RuleResult → Bool
has_failed none = false
has_failed (some result) = is_error result.status

-- `failed_units`
abbrev pub any_failed : List Text → Results → Bool
any_failed codes results = any (λ code. has_failed (get code results)) codes

-- The two lists of plans of run_all.
unfoldable pub plan_prepares :
    Surroundings
    → List (Inspector × PrepareSpec)
    → Context
    → Result Raised (Context × List UnitPlan)
unfolding plan_prepare
plan_prepares env [] ctx = ok (ctx, [])
plan_prepares env ((owner, prep) ∷ rest) ctx = do
  (ctx', plan) ← plan_prepare env false owner prep ctx
  (ctx'', plans) ← plan_prepares env rest ctx'
  ok (ctx'', plan ∷ plans)

unfoldable pub plan_inspects :
    Surroundings → Executor → List Text → Context → Result Raised (List UnitPlan)
unfolding plan_inspect
plan_inspects env ex [] ctx = ok []
plan_inspects env ex (code ∷ codes) ctx = do
  plan ← plan_inspect env ex code ctx
  plans ← plan_inspects env ex codes ctx
  ok (plan ∷ plans)

-- The hook of the prepare stage, unit by unit in the order of the plans.
abbrev pub finish_one : Surroundings → UnitPlan → Option UnitOutcome → Context → Context
finish_one env plan none ctx = ctx
finish_one env plan (some outcome) ctx = finish_prepare env plan outcome ctx

unfoldable pub finish_prepares :
    Surroundings → List UnitPlan → List (Option UnitOutcome) → Context → Context
unfolding finish_prepare
finish_prepares env (plan ∷ plans) (outcome ∷ outcomes) ctx =
    finish_prepares env plans outcomes (finish_one env plan outcome ctx)
finish_prepares env _ _ ctx = ctx

-- `plan.short_circuit if outcome is None else outcome.result`, or the error result of a worker that
-- returned none
abbrev pub or_error : Text → Option RuleResult → RuleResult
or_error code none = error_result code
or_error code (some result) = result

abbrev pub final_result : UnitPlan → Option UnitOutcome → RuleResult
final_result plan none = or_error plan.code plan.short_circuit
final_result plan (some outcome) = or_error plan.code outcome.result

-- The last loop of run_all, over plans and outcomes.
unfoldable pub collect_results :
    List UnitPlan → List (Option UnitOutcome) → Context × Results → Context × Results
collect_results (plan ∷ plans) (outcome ∷ outcomes) (ctx, results) =
    let result = final_result plan outcome in
    collect_results plans outcomes (store_result true result ctx, put plan.code result results)
collect_results _ _ s = s

-- The stages of a task on one runner, whose pools are given for each stage.
module _ (env : Surroundings) (policy : ParallelPolicy) (pools : UnitKind → Pools)
    (ex : Executor) where
  unfoldable pub run_inspects : Bool → Context × Results → Result Raised (Context × Results)
  unfolding plan_inspects run_stage collect_results execute_unit inspect_plan
  run_inspects broken (ctx, results) = do
    plans ← plan_inspects env ex (inspect_plan ex) ctx
    staged ←
        of_option no_end
          (run_stage policy (pools inspect) (execute_unit env ex.registry) broken plans)
    ok (collect_results plans staged.outcomes (ctx, results))

  unfoldable pub run_stages : Context × Results → Result Raised (Context × Results)
  unfolding plan_prepares run_stage finish_prepares execute_unit scoped_prepares run_inspects
  run_stages (ctx, results) = do
    (ctx', plans) ← plan_prepares env (scoped_prepares ex) ctx
    staged ←
        of_option no_end
          (run_stage policy (pools prepare) (execute_unit env ex.registry) false plans)
    run_inspects staged.broken (finish_prepares env plans staged.outcomes ctx', results)

  abbrev pub has_catalog : Bool
  has_catalog = elim env.catalog [ none ↦ false | some paths ↦ true ]

  -- What run_all does with the results of the extraction.
  abbrev pub after_extracts : Context × Results → Result Raised (Context × Results)
  after_extracts (ctx, results) =
      if any_failed (extract_plan ex) results
      then ok (ctx, results)
      else if has_catalog
      then run_stages (ctx, results)
      else err catalog_error

  unfoldable pub run_all : Context → Result Raised (Context × Results)
  unfolding run_extracts run_stages extract_plan
  run_all ctx = run_extracts env ex (extract_plan ex) (ctx, []) >>= after_extracts

-- The loop of assign_order, from an index on.
unfoldable pub number_results : ℕ → List Text → Results → Results
number_results index [] results = results
number_results index (code ∷ codes) results =
    number_results (index + 1) codes (numbered (get code results))
  where
    numbered : Option RuleResult → Results
    numbered none = results
    numbered (some result) = put code (record result { execution_order = index }) results

-- assign_order
unfoldable pub assign_order : Executor → Results → Results
unfolding extract_plan inspect_plan number_results
assign_order ex results = number_results 0 (extract_plan ex ++ inspect_plan ex) results
