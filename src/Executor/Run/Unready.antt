-- ===== src/Executor/Run/Unready.antt =====
-- What a run makes of a rule whose preparation is not ready.
use patrol_x.Base.{
  some_injective, either_branch, ◌≤◌, ◌<◌, ◌≡◌, refl, sym, ◌∙◌, Bool, true, false, List, [], ◌∷◌,
  Option, none, some, inl, inr, ◌⊎◌, ok, err, ◌>>=◌, >>=-eq-ok, ok_injective, Bool-cases,
}
use mathlib.Core.Path.{ap, subst}
use patrol_x.Base.Dict.{Dict, get, put, get-put, get-put_other}
use patrol_x.Base.Lists.{All, keep, length}
use patrol_x.Base.Text.{Text, text_eq, text_eq_iff}
use patrol_x.Rules.{PrepareState, RuleResult, UnitKind, inspect}
use patrol_x.Rules.Contract.{Inspector}
use patrol_x.Rules.Registry.{get_rule}
use patrol_x.Parallel.{UnitPlan, UnitOutcome, Pools, Pending, needs_worker}
use patrol_x.Parallel.Stage.{ParallelPolicy, Staged}
use patrol_x.Parallel.Stage.Outcomes.{is_some, LinesUp, run_stage-LinesUp}
use patrol_x.Executor.{Surroundings, Context, Executor, extract_plan, inspect_plan}
use patrol_x.Executor.Unit.{execute_unit}
use patrol_x.Executor.Plan.{
  not_registered, plan_inspect, plan_rule, is_unready, own_state, skip_result,
}
use patrol_x.Executor.Run.{
  Results, run_extracts, any_failed, plan_inspects, final_result, store_result, collect_results,
  has_catalog, after_extracts, run_all,
}
use patrol_x.Executor.Run.Codes.{
  is_planned, plan_codes, plan_rule-code, plan_inspects-codes, find_rule-code,
}
use patrol_x.Executor.Run.Domain.{Inspected, run_stages-Inspected}

-- A plan for a code is the one that its rule has.
plan_inspects-plan_rule :
    (env : Surroundings) (ex : Executor) (codes : List Text) (ctx : Context) (plans : List UnitPlan)
    (c : Text) (rule : Inspector)
    → get_rule ex.registry c ≡ some rule
    → plan_inspects env ex codes ctx ≡ ok plans
    → All (λ (plan : UnitPlan). plan.code ≡ c → plan ≡ plan_rule env rule ctx) plans
unfolding plan_inspects plan_inspect
plan_inspects-plan_rule env ex [] ctx plans c rule r h =
    subst (All (λ (plan : UnitPlan). plan.code ≡ c → plan ≡ plan_rule env rule ctx))
      (ok_injective h) tt
plan_inspects-plan_rule env ex (code ∷ codes) ctx plans c rule r h =
    let (plan, planned, h') =
      >>=-eq-ok (plan_inspect env ex code ctx)
        (λ plan. plan_inspects env ex codes ctx >>= λ rest. ok (plan ∷ rest)) h in
    let (rest, others, last) =
      >>=-eq-ok (plan_inspects env ex codes ctx) (λ rest. ok (plan ∷ rest)) h' in
    subst (All (λ (plan : UnitPlan). plan.code ≡ c → plan ≡ plan_rule env rule ctx))
      (ok_injective last)
      (
        own (get_rule ex.registry code) refl planned,
        plan_inspects-plan_rule env ex codes ctx rest c rule r others,
      )
  where
    own :
        {plan : UnitPlan} (o : Option Inspector)
        → get_rule ex.registry code ≡ o
        → (elim o [ none ↦ err not_registered | some found ↦ ok (plan_rule env found ctx) ])
          ≡ ok plan
        → plan.code ≡ c
        → plan ≡ plan_rule env rule ctx
    own none found h' e = cc
    own (some other) found h' e =
        let named : code ≡ c =
          sym (find_rule-code code ex.registry.rules other found)
          ∙ sym (plan_rule-code env other ctx)
          ∙ ap (λ (p : UnitPlan). p.code) (ok_injective h')
          ∙ e in
        let same : other ≡ rule =
          some_injective (sym found ∙ ap (get_rule ex.registry) named ∙ r) in
        sym (ok_injective h') ∙ ap (λ x. plan_rule env x ctx) same

-- Each plan with a code is settled with a value.
abbrev Settles : Text → RuleResult → List UnitPlan → List (Option UnitOutcome) → Type 0
Settles c v [] [] = Unit
Settles c v (plan ∷ plans) (o ∷ os) =
    (plan.code ≡ c → final_result plan o ≡ v) × Settles c v plans os
Settles c v _ _ = ⊥

collect_results-get :
    (c : Text) (v : RuleResult) (plans : List UnitPlan) (os : List (Option UnitOutcome))
    (ctx : Context) (results : Results)
    → Settles c v plans os
    → (is_planned c (plan_codes plans) ≡ true) ⊎ (get c results ≡ some v)
    → get c (collect_results plans os (ctx, results)).1 ≡ some v
unfolding collect_results
collect_results-get c v [] [] ctx results h (inl absent) = cc
collect_results-get c v [] [] ctx results h (inr e) = e
collect_results-get c v [] (o ∷ os) ctx results h found = elim h [ ]
collect_results-get c v (plan ∷ plans) [] ctx results h found = elim h [ ]
collect_results-get c v (plan ∷ plans) (o ∷ os) ctx results h found =
    let result = final_result plan o in
    collect_results-get c v plans os (store_result true result ctx) (put plan.code result results)
      h.1
      (elim (Bool-cases (text_eq c plan.code)) [
        | inl same ↦
            let e : plan.code ≡ c = sym ((text_eq_iff c plan.code).0 same) in
            inr (
              subst (λ k. get c (put k result results) ≡ some result) (sym e)
                (get-put c result results)
              ∙ ap some (h.0 e))
        | inr other ↦ later result other found
      ])
  where
    differ : {b : Bool} → b ≡ false → b ≡ true → ⊥
    differ h e = cc

    later :
        (result : RuleResult)
        → text_eq c plan.code ≡ false
        → (is_planned c (plan_codes (plan ∷ plans)) ≡ true) ⊎ (get c results ≡ some v)
        → (is_planned c (plan_codes plans) ≡ true) ⊎ (get c (put plan.code result results) ≡ some v)
    later result other (inl planned) = inl (rw other at planned)
    later result other (inr e) = inr (
        get-put_other c plan.code result results
          (λ e'. differ other ((text_eq_iff c plan.code).1 (sym e')))
        ∙ e)

collect_results-states :
    (plans : List UnitPlan) (os : List (Option UnitOutcome)) (ctx : Context) (results : Results)
    → (collect_results plans os (ctx, results)).0.prepare_states ≡ ctx.prepare_states
unfolding collect_results
collect_results-states [] os ctx results = refl
collect_results-states (plan ∷ plans) [] ctx results = refl
collect_results-states (plan ∷ plans) (o ∷ os) ctx results =
    collect_results-states plans os (store_result true (final_result plan o) ctx)
      (put plan.code (final_result plan o) results)

-- A rule that is not ready has a plan without a request, with its result.
plan_rule-unready :
    (env : Surroundings) (rule : Inspector) (ctx : Context)
    → is_unready (own_state rule ctx) ≡ true
    → (needs_worker (plan_rule env rule ctx) ≡ false)
      × (final_result (plan_rule env rule ctx) none ≡ skip_result rule.code)
unfolding plan_rule
plan_rule-unready env rule ctx unready = rw unready (refl, refl)

LinesUp-Settles :
    (env : Surroundings) (rule : Inspector) (ctx : Context) (c : Text) (plans : List UnitPlan)
    (os : List (Option UnitOutcome))
    → is_unready (own_state rule ctx) ≡ true
    → LinesUp plans os
    → All (λ (plan : UnitPlan). plan.code ≡ c → plan ≡ plan_rule env rule ctx) plans
    → Settles c (skip_result rule.code) plans os
LinesUp-Settles env rule ctx c [] [] unready lines plans' = tt
LinesUp-Settles env rule ctx c [] (o ∷ os) unready lines plans' = elim lines [ ]
LinesUp-Settles env rule ctx c (plan ∷ plans) [] unready lines plans' = elim lines [ ]
LinesUp-Settles env rule ctx c (plan ∷ plans) (o ∷ os) unready lines plans' = (
  λ e.
      let same = plans'.0 e in
      let (idle, skipped) = plan_rule-unready env rule ctx unready in
      ap (λ p. final_result p o) same
      ∙ ap (final_result (plan_rule env rule ctx))
          (absent o (lines.0 ∙ ap needs_worker same ∙ idle))
      ∙ skipped,
  LinesUp-Settles env rule ctx c plans os unready lines.1 plans'.1,
)
  where
    absent : (x : Option UnitOutcome) → is_some x ≡ false → x ≡ none
    absent none h = refl
    absent (some y) h = cc

module _ (env : Surroundings) (policy : ParallelPolicy) (pools : UnitKind → Pools) (ex : Executor)
    (workers : 1 ≤ policy.max_workers)
    (waits : (l : List Pending)
      → 0 < length l
      → 0 < length (keep ((pools inspect).is_done l) l)) where
  Inspected-unready :
      (broken : Bool) (ctx : Context) (results : Results) {last : Context × Results}
      → Inspected env policy pools ex broken (ctx, results) last
      → (c : Text) (rule : Inspector) → get_rule ex.registry c ≡ some rule
      → is_planned c (inspect_plan ex) ≡ true
      → is_unready (own_state rule last.0) ≡ true
      → get c last.1 ≡ some (skip_result rule.code)
  Inspected-unready broken ctx results {last = last} i c rule r planned unready =
      let (staged, ran, lines) =
        run_stage-LinesUp policy (pools inspect) (execute_unit env ex.registry) broken i.plans
          workers waits in
      let lines' : LinesUp i.plans i.staged.outcomes =
        subst (λ (s : Staged). LinesUp i.plans s.outcomes) (some_injective (sym ran ∙ i.ran))
          lines in
      let states : last.0.prepare_states ≡ ctx.prepare_states =
        sym (ap (λ (s : Context × Results). s.0.prepare_states) i.collected)
        ∙ collect_results-states i.plans i.staged.outcomes ctx results in
      let unready' : is_unready (own_state rule ctx) ≡ true =
        sym (ap (λ d. is_unready (state_in d)) states) ∙ unready in
      sym (ap (λ (s : Context × Results). get c s.1) i.collected)
      ∙ collect_results-get c (skip_result rule.code) i.plans i.staged.outcomes ctx results
          (LinesUp-Settles env rule ctx c i.plans i.staged.outcomes unready' lines'
            (plan_inspects-plan_rule env ex (inspect_plan ex) ctx i.plans c rule r i.planned))
          (inl (
            ap (is_planned c) (plan_inspects-codes env ex (inspect_plan ex) ctx i.plans i.planned)
            ∙ planned))
    where
      state_in : Dict PrepareState → Option PrepareState
      state_in d = elim rule.prepare [ none ↦ none | some prep ↦ get rule.code d ]

  -- In a run that returns and whose extraction made no error, a rule of the inspect plan whose
  -- preparation failed or was skipped, by the states that the run leaves, has a result with the
  -- status skip, whichever units ran in a pool and whenever a pool broke, where a pool has a worker
  -- and `wait` gives a future of a window that is not empty.
  pub run_all-unready :
      (ctx : Context) (extracted last : Context × Results) (c : Text) (rule : Inspector)
      → run_extracts env ex (extract_plan ex) (ctx, []) ≡ ok extracted
      → any_failed (extract_plan ex) extracted.1 ≡ false
      → run_all env policy pools ex ctx ≡ ok last
      → get_rule ex.registry c ≡ some rule
      → is_planned c (inspect_plan ex) ≡ true
      → is_unready (own_state rule last.0) ≡ true
      → get c last.1 ≡ some (skip_result rule.code)
  unfolding run_all
  run_all-unready ctx extracted last c rule h fine ran r planned unready =
      let after : after_extracts env policy pools ex extracted ≡ ok last = rw h at ran in
      either_branch (has_catalog env policy pools ex) (rw fine at after)
        (λ _ h'.
          let (broken, ctx', i) =
            run_stages-Inspected env policy pools ex extracted.0 extracted.1 h' in
          Inspected-unready broken ctx' extracted.1 i c rule r planned unready)
        (λ _ raised. cc)
