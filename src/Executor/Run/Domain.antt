-- ===== src/Executor/Run/Domain.antt =====
-- Which codes a whole run has results for.
use patrol_x.Base.{
  ◌⊎◌, inl, inr, either_branch, ◌≡◌, refl, sym, ◌∙◌, Bool, true, false, not, ◌&&◌, ◌||◌, List, [],
  Option, none, some, Result, ok, ◌>>=◌, >>=-eq-ok, ok_injective,
}
use mathlib.Core.Path.{ap}
use patrol_x.Base.Text.{Text}
use patrol_x.Rules.{UnitKind, prepare, inspect}
use patrol_x.Parallel.{UnitPlan, Pools}
use patrol_x.Parallel.Stage.{ParallelPolicy, Staged, run_stage}
use patrol_x.Parallel.Stage.Aligned.{run_stage-IsAligned}
use patrol_x.Executor.{Surroundings, Context, Executor, extract_plan, inspect_plan, scoped_prepares}
use patrol_x.Executor.Unit.{execute_unit}
use patrol_x.Executor.Plan.{Raised, no_end}
use patrol_x.Executor.Run.{
  Results, run_extracts, any_failed, plan_prepares, plan_inspects, finish_prepares, collect_results,
  of_option, run_inspects, run_stages, has_catalog, after_extracts, run_all,
}
use patrol_x.Executor.Run.Codes.{
  has_result, is_planned, run_extracts-has_result, plan_inspects-codes, collect_results-has_result,
}

of_option-eq-ok :
    {A : Type 0} (raised : Raised) (o : Option A) {a : A} → of_option raised o ≡ ok a → o ≡ some a
of_option-eq-ok raised none h = cc
of_option-eq-ok raised (some b) h = ap some (ok_injective h)

module _ (env : Surroundings) (policy : ParallelPolicy) (pools : UnitKind → Pools)
    (ex : Executor) where
  -- The inspect stage of a run that returns: its plans and what its stage gave.
  pub record Inspected (broken : Bool) (start last : Context × Results) : Type 0 where
    pub plans : List UnitPlan
    pub staged : Staged
    pub planned : plan_inspects env ex (inspect_plan ex) start.0 ≡ ok plans
    pub ran :
        run_stage policy (pools inspect) (execute_unit env ex.registry) broken plans ≡ some staged
    pub collected : collect_results plans staged.outcomes start ≡ last

  run_inspects-Inspected :
      (broken : Bool) (start : Context × Results) {last : Context × Results}
      → run_inspects env policy pools ex broken start ≡ ok last
      → Inspected broken start last
  unfolding run_inspects
  run_inspects-Inspected broken (ctx, results) h =
      let finish : List UnitPlan → Staged → Result Raised (Context × Results) =
        λ plans staged. ok (collect_results plans staged.outcomes (ctx, results)) in
      let stage : List UnitPlan → Result Raised Staged = λ plans.
        of_option no_end
          (run_stage policy (pools inspect) (execute_unit env ex.registry) broken plans) in
      let (plans, planned, h') =
        >>=-eq-ok (plan_inspects env ex (inspect_plan ex) ctx)
          (λ plans. stage plans >>= finish plans) h in
      let (staged, ran, last) = >>=-eq-ok (stage plans) (finish plans) h' in
      record {
        plans = plans;
        staged = staged;
        planned = planned;
        ran =
            of_option-eq-ok no_end
              (run_stage policy (pools inspect) (execute_unit env ex.registry) broken plans) ran;
        collected = ok_injective last;
      }

  -- The stages of a run that returns end in an inspect stage, on the results of the extraction.
  pub run_stages-Inspected :
      (ctx : Context) (results : Results) {last : Context × Results}
      → run_stages env policy pools ex (ctx, results) ≡ ok last
      → (broken : Bool) × (ctx' : Context) × Inspected broken (ctx', results) last
  unfolding run_stages
  run_stages-Inspected ctx results h =
      let stage : List UnitPlan → Result Raised Staged = λ plans.
        of_option no_end
          (run_stage policy (pools prepare) (execute_unit env ex.registry) false plans) in
      let onward : Context → List UnitPlan → Staged → Result Raised (Context × Results) =
        λ c plans staged.
          run_inspects env policy pools ex staged.broken
            (finish_prepares env plans staged.outcomes c, results) in
      let (planned, p, h') =
        >>=-eq-ok (plan_prepares env (scoped_prepares ex) ctx) (λ t. stage t.1 >>= onward t.0 t.1)
          h in
      let (staged, ran, h'') = >>=-eq-ok (stage planned.1) (onward planned.0 planned.1) h' in
      (
        staged.broken,
        finish_prepares env planned.1 staged.outcomes planned.0,
        run_inspects-Inspected staged.broken
            (finish_prepares env planned.1 staged.outcomes planned.0, results) h'',
      )

  Inspected-has_result :
      (broken : Bool) (ctx : Context) (results : Results) {last : Context × Results}
      → Inspected broken (ctx, results) last
      → (c : Text) → has_result c last.1 ≡ (is_planned c (inspect_plan ex) || has_result c results)
  Inspected-has_result broken ctx results i c =
      let (m, lined) =
        run_stage-IsAligned policy (pools inspect) (execute_unit env ex.registry) broken i.plans
          i.staged i.ran in
      sym (ap (λ (s : Context × Results). has_result c s.1) i.collected)
      ∙ ap (λ outcomes. has_result c (collect_results i.plans outcomes (ctx, results)).1) lined
      ∙ collect_results-has_result 0 m i.plans ctx results c
      ∙ ap (λ codes. is_planned c codes || has_result c results)
          (plan_inspects-codes env ex (inspect_plan ex) ctx i.plans i.planned)

  -- A run that returns has results for the codes of the extract plan, and, unless one of the extract
  -- units ended in an error, for the codes of the inspect plan, and for no other code. After an error
  -- of an extract unit the run ends with the results and the context that the extraction left:
  -- nothing is prepared.
  pub run_all-has_result :
      (ctx : Context) (extracted last : Context × Results)
      → run_extracts env ex (extract_plan ex) (ctx, []) ≡ ok extracted
      → run_all env policy pools ex ctx ≡ ok last
      → ((c : Text)
          → has_result c last.1 ≡ (
              is_planned c (extract_plan ex)
              || not (any_failed (extract_plan ex) extracted.1) && is_planned c (inspect_plan ex)))
        × ((any_failed (extract_plan ex) extracted.1 ≡ false) ⊎ (last ≡ extracted))
  unfolding run_all
  run_all-has_result ctx extracted last h ran =
      let base = run_extracts-has_result env ex (extract_plan ex) ctx [] h in
      let after : after_extracts env policy pools ex extracted ≡ ok last = rw h at ran in
      either_branch (any_failed (extract_plan ex) extracted.1) after
        (λ failed e. (
          λ c.
              sym (ap (λ (s : Context × Results). has_result c s.1) (ok_injective e))
              ∙ base c
              ∙ rw failed refl,
          inr (sym (ok_injective e)),
        ))
        (λ fine h'.
          either_branch (has_catalog env policy pools ex) h'
            (λ _ h''.
              let (broken, ctx', i) = run_stages-Inspected extracted.0 extracted.1 h'' in
              (
                λ c.
                    Inspected-has_result broken ctx' extracted.1 i c
                    ∙ ap (is_planned c (inspect_plan ex) ||◌) (base c)
                    ∙ rw fine
                        (or_flip (is_planned c (inspect_plan ex)) (is_planned c (extract_plan ex))),
                inl fine,
              ))
            (λ _ raised. cc))
    where
      or_flip : (a b : Bool) → (a || (b || false)) ≡ (b || a)
      or_flip true true = refl
      or_flip true false = refl
      or_flip false true = refl
      or_flip false false = refl
