-- ===== src/Executor/Run/Codes.antt =====
-- The codes of plans and of their results, in the loops of a run.
use patrol_x.Base.{
  some_injective, either_branch, ℕ, ◌+◌, ◌≡◌, refl, sym, ◌∙◌, Bool, true, false, not, ◌&&◌, ◌||◌,
  List, [], ◌∷◌, Option, none, some, inl, inr, ok, err, ◌>>=◌, >>=-eq-ok, ok_injective, Bool-cases,
}
use mathlib.Core.Path.{ap, subst}
use patrol_x.Base.Dict.{get, put, get-put, get-put_other}
use patrol_x.Base.Lists.{any, is_nil}
use patrol_x.Base.Text.{Text, text_eq, text_eq_iff}
use patrol_x.Rules.{RuleResult, inspect}
use patrol_x.Rules.Contract.{Inspector, is_blank}
use patrol_x.Rules.Registry.{get_rule, find_rule, has_code}
use patrol_x.Parallel.{UnitPlan, Measured}
use patrol_x.Parallel.Stage.{aligned, outcome_at}
use patrol_x.Parallel.Stage.Outcomes.{is_some}
use patrol_x.Executor.{Surroundings, Context, Executor}
use patrol_x.Executor.Plan.{
  not_registered, plan_inspect, plan_rule, is_unready, own_state, inspect_matched, blank_plan,
  matched_files,
}
use patrol_x.Executor.Run.{
  Results, run_one, store_result, run_extracts, plan_inspects, final_result, collect_results,
}

abbrev pub has_result : Text → Results → Bool
has_result code results = is_some (get code results)

abbrev pub is_planned : Text → List Text → Bool
is_planned code codes = any (text_eq code) codes

pub has_result-put :
    (c k : Text) (r : RuleResult) (results : Results)
    → has_result c (put k r results) ≡ (text_eq c k || has_result c results)
has_result-put c k r results = elim (Bool-cases (text_eq c k)) [
  | inl same ↦
      let e : k ≡ c = sym ((text_eq_iff c k).0 same) in
      ap is_some (subst (λ x. get c (put x r results) ≡ some r) (sym e) (get-put c r results))
      ∙ rw same refl
  | inr other ↦
      ap is_some (get-put_other c k r results (λ e. differ other ((text_eq_iff c k).1 (sym e))))
      ∙ rw other refl
]
  where
    differ : {b : Bool} → b ≡ false → b ≡ true → ⊥
    differ h e = cc

pub or_swap : (a b c : Bool) → (a || (b || c)) ≡ ((b || a) || c)
or_swap true true c = refl
or_swap true false c = refl
or_swap false true c = refl
or_swap false false c = refl

-- Each plan keeps the code that it is made for.
abbrev pub plan_codes : List UnitPlan → List Text
plan_codes [] = []
plan_codes (plan ∷ plans) = plan.code ∷ plan_codes plans

pub find_rule-code :
    (code : Text) (l : List Inspector) (rule : Inspector)
    → find_rule code l ≡ some rule
    → rule.code ≡ code
find_rule-code code [] rule h = cc
find_rule-code code (r ∷ l) rule h =
    either_branch (has_code code r) h
      (λ found e.
        ap (λ (x : Inspector). x.code) (sym (some_injective e)) ∙ (text_eq_iff r.code code).0 found)
      (λ _ e. find_rule-code code l rule e)

pub inspect_matched-code :
    (env : Surroundings) (rule : Inspector) (plan : UnitPlan) (matched : Option (List Text))
    → (inspect_matched env rule plan matched).code ≡ plan.code
inspect_matched-code env rule plan none = refl
inspect_matched-code env rule plan (some matched) =
    elim (Bool-cases (not (is_blank rule.source_patterns) && is_nil matched)) [
      | inl empty ↦ rw empty refl
      | inr found ↦ rw found refl
    ]

pub plan_rule-code :
    (env : Surroundings) (rule : Inspector) (ctx : Context)
    → (plan_rule env rule ctx).code ≡ rule.code
unfolding plan_rule
plan_rule-code env rule ctx = elim (Bool-cases (is_unready (own_state rule ctx))) [
  | inl unready ↦ rw unready refl
  | inr ready ↦ rw ready (
      inspect_matched-code env rule
        (record (blank_plan inspect rule.code rule.code) { prepare_state = own_state rule ctx })
        (matched_files env rule))
]

pub run_extracts-has_result :
    (env : Surroundings) (ex : Executor) (codes : List Text) (ctx : Context) (results : Results)
    {last : Context × Results}
    → run_extracts env ex codes (ctx, results) ≡ ok last
    → (c : Text) → has_result c last.1 ≡ (is_planned c codes || has_result c results)
unfolding run_extracts
run_extracts-has_result env ex [] ctx results h c =
    sym (ap (λ (s : Context × Results). has_result c s.1) (ok_injective h))
run_extracts-has_result env ex (code ∷ codes) ctx results h c =
    let (s, ran, h') =
      >>=-eq-ok (run_one env ex true code ctx)
        (λ s. run_extracts env ex codes (s.0, put code s.1 results)) h in
    let rest = run_extracts-has_result env ex codes s.0 (put code s.1 results) h' c in
    let here = has_result-put c code s.1 results in
    rest
    ∙ ap (is_planned c codes ||◌) here
    ∙ or_swap (is_planned c codes) (text_eq c code) (has_result c results)

pub plan_inspects-codes :
    (env : Surroundings) (ex : Executor) (codes : List Text) (ctx : Context) (plans : List UnitPlan)
    → plan_inspects env ex codes ctx ≡ ok plans
    → plan_codes plans ≡ codes
unfolding plan_inspects plan_inspect
plan_inspects-codes env ex [] ctx plans h = ap plan_codes (sym (ok_injective h))
plan_inspects-codes env ex (code ∷ codes) ctx plans h =
    let (plan, planned, h') =
      >>=-eq-ok (plan_inspect env ex code ctx)
        (λ plan. plan_inspects env ex codes ctx >>= λ rest. ok (plan ∷ rest)) h in
    let (rest, others, last) =
      >>=-eq-ok (plan_inspects env ex codes ctx) (λ rest. ok (plan ∷ rest)) h' in
    ap plan_codes (sym (ok_injective last))
    ∙ ap (λ (l : List Text). plan.code ∷ l) (plan_inspects-codes env ex codes ctx rest others)
    ∙ ap (λ (c : Text). c ∷ codes) (own (get_rule ex.registry code) refl planned)
  where
    own :
        {plan : UnitPlan} (o : Option Inspector)
        → get_rule ex.registry code ≡ o
        → (elim o [ none ↦ err not_registered | some rule ↦ ok (plan_rule env rule ctx) ]) ≡ ok plan
        → plan.code ≡ code
    own none found h' = cc
    own (some rule) found h' =
        ap (λ (p : UnitPlan). p.code) (sym (ok_injective h'))
        ∙ plan_rule-code env rule ctx
        ∙ find_rule-code code ex.registry.rules rule found

pub collect_results-has_result :
    (k : ℕ) (m : Measured) (plans : List UnitPlan) (ctx : Context) (results : Results) (c : Text)
    → has_result c (collect_results plans (aligned k m plans) (ctx, results)).1
      ≡ (is_planned c (plan_codes plans) || has_result c results)
unfolding aligned collect_results
collect_results-has_result k m [] ctx results c = refl
collect_results-has_result k m (plan ∷ plans) ctx results c =
    let result = final_result plan (outcome_at k m) in
    collect_results-has_result (k + 1) m plans (store_result true result ctx)
      (put plan.code result results) c
    ∙ ap (is_planned c (plan_codes plans) ||◌) (has_result-put c plan.code result results)
    ∙ or_swap (is_planned c (plan_codes plans)) (text_eq c plan.code) (has_result c results)
