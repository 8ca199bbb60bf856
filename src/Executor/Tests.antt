-- ===== src/Executor/Tests.antt =====
-- A task with an extract unit, a rule whose preparation fails, and a rule outside of the frozen scope.
use patrol_x.Base.{
  ◌≢◌, ◌⊎◌, ◌<◌, ◌≡◌, refl, arith, Bool, true, false, not, ◌&&◌, ◌||◌, List, [], ◌∷◌, Option, none,
  some, ok,
}
use patrol_x.Base.Dict.{get}
use patrol_x.Base.Lists.{length, keep, count_if}
use patrol_x.Base.Sort.Ordered.{Ordered}
use patrol_x.Base.Text.{Text, codes, text_eq, text_eq_iff, text_le, strip, starts_with}
use patrol_x.Rules.{pass, RuleResult, UnitKind, prepare, inspect, failed, rebuilt}
use patrol_x.Rules.Contract.{p1, PrepareSpec, Inspector}
use patrol_x.Parallel.{UnitPlan, Pools, Pending}
use patrol_x.Parallel.Stage.{ParallelPolicy}
use patrol_x.Executor.{
  Surroundings, Context, Executor, extract_plan, inspect_plan, main_code, extract_prefix,
  extract_le, owner_in_scope,
}
use patrol_x.Rules.Registry.{get_rule}
use patrol_x.Executor.Orders.{plans_complete}
use patrol_x.Executor.Unit.{execute_unit, inspect_outcome}
use patrol_x.Executor.Unit.Metrics.{KeepsContract, execute_unit-KeepsContract}
use patrol_x.Executor.Plan.{finish_prepare, skip_result, blank_plan}
use patrol_x.Executor.Run.{Results, run_extracts, any_failed, run_all}
use patrol_x.Executor.Run.Codes.{has_result, is_planned}
use patrol_x.Executor.Single.{run_rule_with_deps}
use patrol_x.Executor.Single.Untouched.{AgreeOn, run_rule_with_deps-AgreeOn}
use patrol_x.Executor.Run.Domain.{run_all-has_result}
use patrol_x.Executor.Run.Unready.{run_all-unready}

abbrev rule : Text → Bool → Option (List Text) → Option PrepareSpec → Inspector
rule code hidden patterns prep = record {
  code = code;
  name = code;
  priority = p1;
  rule_version = codes "1";
  description = code;
  recommendation = code;
  hidden = hidden;
  source_patterns = patterns;
  source_refs = none;
  scan_refs_resolved = false;
  outputs_metrics = [];
  runs = true;
  prepare = prep;
}

abbrev spec : PrepareSpec
spec = record { code = codes "p"; owner_code = codes "r"; runs = true }

abbrev main_rule : Inspector
main_rule = rule main_code true none none

abbrev owner : Inspector
owner = rule (codes "r") false (some (codes "a" ∷ [])) (some spec)

abbrev stranger : Inspector
stranger = rule (codes "q") false (some (codes "a" ∷ [])) none

abbrev ex : Executor
ex = record {
  registry = record {
    rules = owner ∷ stranger ∷ main_rule ∷ [];
    prepares = (codes "r", spec) ∷ [];
  };
  frozen_rule_codes = some (codes "r" ∷ []);
}

abbrev passed : Text → RuleResult
passed code = record { code = code; status = pass; metrics = []; execution_order = 0 }

abbrev env : Bool → Surroundings
env prepares = record {
  re = record { compiles = λ p. true; fullmatch = text_eq };
  catalog = some (codes "b" ∷ codes "a" ∷ []);
  file_size = λ f. 7;
  file_sha256 = λ c. c;
  rule_run = λ c files state. some (passed c);
  prepare_run = λ c files. prepares;
}

abbrev start : Context
start = record { prepare_states = []; markers = []; collected = [] }

abbrev policy : ParallelPolicy
policy = record { max_workers = 2; min_units = 1; min_matched_bytes = 0; enabled = true }

abbrev pools : UnitKind → Pools
pools kind = record {
  accepts = λ t. true;
  is_done = λ l t. true;
  result = λ t. execute_unit (env false) ex.registry t.1;
  recovered = λ t. none;
}

abbrev extracted : Context × Results
extracted = (
  record { prepare_states = []; markers = []; collected = (main_code, passed main_code) ∷ [] },
  (main_code, passed main_code) ∷ [],
)

abbrev last : Context × Results
last = (
  record {
    prepare_states = (codes "r", failed) ∷ [];
    markers = [];
    collected = (main_code, passed main_code) ∷ (codes "r", skip_result (codes "r")) ∷ [];
  },
  (main_code, passed main_code) ∷ (codes "r", skip_result (codes "r")) ∷ [],
)

extracts : run_extracts (env false) ex (extract_plan ex) (start, []) ≡ ok extracted
unfolding run_extracts extract_plan text_le
extracts = refl

ran : run_all (env false) policy pools ex start ≡ ok last
unfolding run_all text_le strip
ran = refl

waits :
    (kind : UnitKind)
    → (l : List Pending) → 0 < length l
    → 0 < length (keep ((pools kind).is_done l) l)
waits kind [] h = h
waits kind (t ∷ l) h = omega arith

run_all-has_result_example :
    ((c : Text)
      → has_result c last.1 ≡ (
          is_planned c (extract_plan ex)
          || not (any_failed (extract_plan ex) extracted.1) && is_planned c (inspect_plan ex)))
    × ((any_failed (extract_plan ex) extracted.1 ≡ false) ⊎ (last ≡ extracted))
run_all-has_result_example =
    run_all-has_result (env false) policy pools ex start extracted last extracts ran

run_all-unready_example : get (codes "r") last.1 ≡ some (skip_result (codes "r"))
unfolding extract_plan inspect_plan text_le
run_all-unready_example =
    run_all-unready (env false) policy pools ex (omega arith) (waits inspect) start extracted last
      (codes "r") owner extracts refl ran refl refl refl

plans_complete_example :
    ((c : Text)
      → count_if (text_eq c) (extract_plan ex)
        ≡ count_if
            (λ (rule : Inspector). starts_with extract_prefix rule.code && text_eq c rule.code)
            ex.registry.rules)
    × ((c : Text)
        → count_if (text_eq c) (inspect_plan ex)
          ≡ count_if
              (λ (rule : Inspector).
                (not rule.hidden && owner_in_scope ex rule.code) && text_eq c rule.code)
              ex.registry.rules)
    × Ordered extract_le (extract_plan ex)
plans_complete_example = plans_complete ex

-- The request of the rule's preparation, and what becomes of it.
abbrev planned : UnitPlan
planned = record (blank_plan prepare (codes "p") (codes "r")) {
  request = some (codes "a" ∷ []);
  matched_bytes = 7;
}

abbrev inspected_plan : UnitPlan
inspected_plan = record (blank_plan inspect (codes "q") (codes "q")) {
  request = some (codes "a" ∷ []);
}

execute_unit-KeepsContract_example :
    (result : RuleResult) × (execute_unit (env true) ex.registry inspected_plan
      ≡ some (inspect_outcome (codes "q") result))
    × KeepsContract stranger result
unfolding execute_unit
execute_unit-KeepsContract_example =
    execute_unit-KeepsContract (env true) ex.registry inspected_plan (codes "a" ∷ []) stranger refl
      refl refl refl

-- The owner's rule, run again on its own.
abbrev rerun : Context
rerun = record {
  prepare_states = (codes "r", rebuilt) ∷ [];
  markers = (codes "r", codes "r") ∷ [];
  collected = (codes "r", passed (codes "r")) ∷ [];
}

reran :
    run_rule_with_deps (env true) ex true false (codes "r") start ≡ ok (rerun, passed (codes "r"))
unfolding run_rule_with_deps text_le strip starts_with finish_prepare
reran = refl

another : codes "r" ≢ codes "q"
another e = differ ((text_eq_iff (codes "r") (codes "q")).1 e)
  where
    differ : false ≡ true → ⊥
    differ h = cc

run_rule_with_deps-AgreeOn_example :
    ((found : Inspector) × (get_rule ex.registry (codes "r") ≡ some found)
      × ((not found.hidden && not (owner_in_scope ex (codes "r"))) ≡ false))
    × AgreeOn (codes "q") start rerun
run_rule_with_deps-AgreeOn_example =
    run_rule_with_deps-AgreeOn (env true) ex true false (codes "q") (codes "r") start rerun
      (passed (codes "r")) another another reran
