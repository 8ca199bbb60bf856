-- ===== src/Executor/Single.antt =====
-- _ensure_extraction_site, ensure_rule_dependencies and run_rule_with_deps of
-- app/services/executor.py: one rule run again.
pub mod Untouched
use patrol_x.Base.{
  Bool, true, false, not, ◌&&◌, Option, none, some, Result, ok, err, ◌>>=◌, ◌>>◌, raise_if,
  if◌then◌else◌,
}
use patrol_x.Base.Text.{Text, codes, starts_with}
use patrol_x.Rules.{RuleResult}
use patrol_x.Rules.Contract.{Inspector, PrepareSpec}
use patrol_x.Rules.Registry.{get_rule, has_rule}
use patrol_x.Parallel.{UnitPlan, UnitOutcome, recover_one}
use patrol_x.Executor.{Surroundings, Context, Executor, extract_prefix, main_code, owner_in_scope}
use patrol_x.Executor.Unit.{execute_unit}
use patrol_x.Executor.Plan.{
  Raised, not_registered, out_of_scope, extraction_failed, classification_error,
  catalog_build_failed, plan_prepare,
}
use patrol_x.Executor.Run.{run_one, is_error, finish_one, of_option}

abbrev pub classification_code : Text
classification_code = codes "pkg.extract.classification"

-- Any exception becomes the given one.
abbrev pub instead {ℓ} : {A : Type ℓ} → Raised → Result Raised A → Result Raised A
instead raised (err e) = err raised
instead raised (ok a) = ok a

module _ (env : Surroundings) (ex : Executor) where
  -- A gate on a hidden unit, whose result is not collected.
  abbrev pub gate : Text → Raised → Context → Result Raised Context
  gate code raised ctx = do
    (ctx', result) ← run_one env ex false code ctx
    raise_if (is_error result.status) raised
    ok ctx'

  -- _ensure_extraction_site; `has_package`: the path of the package is set and exists.
  unfoldable pub ensure_extraction_site : Bool → Context → Result Raised Context
  unfolding run_one
  ensure_extraction_site has_package ctx =
      let opened = gate main_code extraction_failed ctx in
      if has_package && has_rule main_code ex.registry then opened else ok ctx

  unfoldable pub ensure_rule_dependencies : Bool → Text → Context → Result Raised Context
  unfolding ensure_extraction_site run_one
  ensure_rule_dependencies has_package code ctx =
      let checked = (do
        ctx' ← instead extraction_failed (ensure_extraction_site has_package ctx)
        ctx'' ←
            (if has_rule classification_code ex.registry
              then gate classification_code classification_error ctx'
              else ok ctx')
        catalog ← of_option catalog_build_failed env.catalog
        ok ctx'') in
      if starts_with extract_prefix code then ok ctx else checked

  -- run_single
  abbrev pub single_outcome : UnitPlan → Option UnitOutcome
  single_outcome plan = elim plan.request [
    | none ↦ none
    | some files ↦ some (recover_one plan (execute_unit env ex.registry plan))
  ]

  -- `if rule.prepare is not None`
  abbrev pub prepare_single :
      Bool → Inspector → Option PrepareSpec → Context → Result Raised Context
  prepare_single force rule none ctx = ok ctx
  prepare_single force rule (some prep) ctx = do
    (ctx', plan) ← plan_prepare env force rule prep ctx
    ok (finish_one env plan (single_outcome plan) ctx')

  -- What run_rule_with_deps does with a rule that is found.
  abbrev pub run_found :
      Bool → Bool → Text → Inspector → Context → Result Raised (Context × RuleResult)
  run_found has_package force code rule ctx =
      let alone = run_one env ex true code ctx in
      let whole = (do
        ctx' ← ensure_rule_dependencies has_package code ctx
        ctx'' ← prepare_single force rule rule.prepare ctx'
        run_one env ex true code ctx'') in
      if not rule.hidden && not (owner_in_scope ex code)
      then err out_of_scope
      else if starts_with extract_prefix code
      then alone
      else whole

  -- run_rule_with_deps, on what the registry finds
  abbrev pub run_lookup :
      Bool → Bool → Text → Context → Option Inspector → Result Raised (Context × RuleResult)
  run_lookup has_package force code ctx none = err not_registered
  run_lookup has_package force code ctx (some rule) = run_found has_package force code rule ctx

  unfoldable pub run_rule_with_deps :
      Bool → Bool → Text → Context → Result Raised (Context × RuleResult)
  unfolding plan_prepare ensure_rule_dependencies execute_unit run_one
  run_rule_with_deps has_package force code ctx =
      run_lookup has_package force code ctx (get_rule ex.registry code)
