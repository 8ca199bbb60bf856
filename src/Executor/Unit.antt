-- ===== src/Executor/Unit.antt =====
-- validate_metrics, run_prepare_call, run_inspect_call, validate_request and execute_unit of
-- app/services/unit_runtime.py.
pub mod Metrics
use patrol_x.Base.{
  ℕ, Bool, true, false, not, ◌&&◌, ◌||◌, List, [], ◌∷◌, Option, none, some, if◌then◌else◌,
}
use patrol_x.Base.Lists.{any, all}
use patrol_x.Base.Text.{Text, text_eq}
use patrol_x.Rules.{
  RuleStatus, pass, warn, fail, error, skip, Metric, RuleResult, UnitKind, prepare, inspect,
  PrepareState, failed, rebuilt,
}
use patrol_x.Rules.Contract.{Inspector, leads_with, is_home}
use patrol_x.Rules.Registry.{RuleRegistry, get_rule, has_prepare}
use patrol_x.Parallel.{UnitPlan, UnitOutcome, error_result}
use patrol_x.Scanning.{is_outside}
use patrol_x.Executor.{Surroundings}

-- `{m.key: m.unit for m in metrics}.get(key)`: the last one counts.
unfoldable pub unit_of : Text → List Metric → Option (Option Text)
unit_of key [] = none
unit_of key (m ∷ rest) = later (unit_of key rest)
  where
    later : Option (Option Text) → Option (Option Text)
    later (some unit) = some unit
    later none = if text_eq m.key key then some m.unit else none

abbrev pub unit_eq : Option Text → Option Text → Bool
unit_eq none none = true
unit_eq (some s) (some t) = text_eq s t
unit_eq _ _ = false

abbrev pub entry_eq : Option (Option Text) → Option (Option Text) → Bool
entry_eq none none = true
entry_eq (some u) (some v) = unit_eq u v
entry_eq _ _ = false

abbrev pub same_at : List Metric → List Metric → Metric → Bool
same_at declared actual m = entry_eq (unit_of m.key declared) (unit_of m.key actual)

-- `actual == declared`, of the two dictionaries
unfoldable pub same_units : List Metric → List Metric → Bool
unfolding unit_of
same_units declared actual =
    all (same_at declared actual) declared && all (same_at declared actual) actual

-- `status in (PASS, WARN, FAIL)`
abbrev pub is_verdict : RuleStatus → Bool
is_verdict pass = true
is_verdict warn = true
is_verdict fail = true
is_verdict error = false
is_verdict skip = false

-- validate_metrics: whether it finds no fault
abbrev pub metrics_hold : Inspector → RuleResult → Bool
metrics_hold rule result =
    not (is_verdict result.status) || same_units rule.outputs_metrics result.metrics

-- What run_inspect_call makes of what the rule's function gives.
abbrev pub inspected : Inspector → Option RuleResult → RuleResult
inspected rule none = error_result rule.code
inspected rule (some result) = if metrics_hold rule result then result else error_result rule.code

unfoldable pub run_inspect_call :
    Surroundings → Inspector → List Text → Option PrepareState → RuleResult
unfolding same_units
run_inspect_call env rule files state = inspected rule (env.rule_run rule.code files state)

abbrev pub run_prepare_call : Surroundings → Text → List Text → PrepareState
run_prepare_call env prepare_code files =
    if env.prepare_run prepare_code files then rebuilt else failed

-- validate_request of the files; the two directories are absolute.
unfoldable pub request_holds : List Text → Bool
unfolding is_outside
request_holds files = all (λ file. not (is_outside file || leads_with is_home file)) files

abbrev pub inspect_outcome : Text → RuleResult → UnitOutcome
inspect_outcome code result = record {
  unit_kind = inspect;
  code = code;
  crashed = false;
  result = some result;
  prepare_state = none;
}

abbrev pub prepare_outcome : Text → PrepareState → UnitOutcome
prepare_outcome code state = record {
  unit_kind = prepare;
  code = code;
  crashed = false;
  result = none;
  prepare_state = some state;
}

-- The dispatch of execute_unit on the kind; none: the registry has no such code.
abbrev pub execute_kind :
    Surroundings → RuleRegistry → UnitPlan → List Text → UnitKind → Option UnitOutcome
execute_kind env reg plan files prepare =
    if has_prepare plan.code reg
    then some (prepare_outcome plan.code (run_prepare_call env plan.code files))
    else none
execute_kind env reg plan files inspect = elim (get_rule reg plan.code) [
  | none ↦ none
  | some rule ↦
      some (inspect_outcome plan.code (run_inspect_call env rule files plan.prepare_state))
]

-- execute_unit on the request of a plan; none: it raises.
unfoldable pub execute_unit : Surroundings → RuleRegistry → UnitPlan → Option UnitOutcome
unfolding request_holds run_inspect_call
execute_unit env reg plan = elim plan.request [
  | none ↦ none
  | some files ↦
      if request_holds files then execute_kind env reg plan files plan.unit_kind else none
]
