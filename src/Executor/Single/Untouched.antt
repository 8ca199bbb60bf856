-- ===== src/Executor/Single/Untouched.antt =====
-- What a single run leaves as it was.
use patrol_x.Base.{
  either_branch, ◌≡◌, ◌≢◌, refl, sym, ◌∙◌, Bool, true, false, not, ◌&&◌, List, Option, none, some,
  Result, ok, err, ◌>>=◌, >>=-eq-ok, ok_injective, raise_if, if◌then◌else◌, inl, inr, Bool-cases,
}
use mathlib.Core.Path.{ap, subst}
use patrol_x.Base.Dict.{get, get-put_other, get-remove_other}
use patrol_x.Base.Lists.{is_nil}
use patrol_x.Base.Text.{Text, starts_with}
use patrol_x.Rules.{RuleResult, PrepareState, rebuilt, failed, skip, hit, prepare}
use patrol_x.Rules.Contract.{Inspector, PrepareSpec}
use patrol_x.Rules.Registry.{get_rule, has_rule}
use patrol_x.Parallel.{UnitPlan, UnitOutcome}
use patrol_x.Executor.{Surroundings, Context, Executor, extract_prefix, main_code, owner_in_scope}
use patrol_x.Executor.Plan.{
  Raised, extraction_failed, classification_error, catalog_build_failed, matched_files,
  matched_bytes_of, is_owner_name, set_state, blank_plan, settled_prepare, marker_holds, plan_files,
  plan_prepare, is_rebuilt, finish_prepare,
}
use patrol_x.Executor.Run.{run_one, run_registered, store_result, is_error, finish_one, of_option}
use patrol_x.Executor.Run.Codes.{find_rule-code}
use patrol_x.Executor.Single.{
  classification_code, instead, gate, ensure_extraction_site, ensure_rule_dependencies,
  single_outcome, prepare_single, run_found, run_lookup, run_rule_with_deps,
}

-- Two contexts agree on a rule: on the state of its preparation, on its marker and on its result.
pub record AgreeOn (c : Text) (before after : Context) : Type 0 where
  pub states : get c after.prepare_states ≡ get c before.prepare_states
  pub markers : get c after.markers ≡ get c before.markers
  pub collected : get c after.collected ≡ get c before.collected

AgreeOn-refl : (c : Text) (ctx : Context) → AgreeOn c ctx ctx
AgreeOn-refl c ctx = record { states = refl; markers = refl; collected = refl }

AgreeOn-trans : (c : Text) (x y z : Context) → AgreeOn c x y → AgreeOn c y z → AgreeOn c x z
AgreeOn-trans c x y z h k = record {
  states = k.states ∙ h.states;
  markers = k.markers ∙ h.markers;
  collected = k.collected ∙ h.collected;
}

-- The context and the result of run_one.
run_one-stored :
    (env : Surroundings) (ex : Executor) (collect : Bool) (code : Text) (ctx ctx' : Context)
    (result : RuleResult)
    → run_one env ex collect code ctx ≡ ok (ctx', result)
    → ctx' ≡ store_result collect result ctx
unfolding run_one
run_one-stored env ex collect code ctx ctx' result h = stored (get_rule ex.registry code) h
  where
    stored :
        (o : Option Inspector)
        → run_registered env collect ctx o ≡ ok (ctx', result)
        → ctx' ≡ store_result collect result ctx
    stored none k = cc
    stored (some rule) k =
        sym (ap (λ (t : Context × RuleResult). t.0) (ok_injective k))
        ∙ ap (λ r. store_result collect r ctx)
            (ap (λ (t : Context × RuleResult). t.1) (ok_injective k))

module _ (env : Surroundings) (ex : Executor) where
  -- The gates change nothing.
  gate_same :
      (code : Text) (raised : Raised) (ctx ctx' : Context)
      → gate env ex code raised ctx ≡ ok ctx'
      → ctx' ≡ ctx
  gate_same code raised ctx ctx' h =
      let (t, ran, h') =
        >>=-eq-ok (run_one env ex false code ctx)
          (λ t. raise_if (is_error t.1.status) raised >>= λ u. ok t.0) h in
      let (u, passed, last) = >>=-eq-ok (raise_if (is_error t.1.status) raised) (λ u. ok t.0) h' in
      sym (ok_injective last) ∙ run_one-stored env ex false code ctx t.0 t.1 ran

  ensure_extraction_site_same :
      (has_package : Bool) (ctx ctx' : Context)
      → ensure_extraction_site env ex has_package ctx ≡ ok ctx'
      → ctx' ≡ ctx
  unfolding ensure_extraction_site
  ensure_extraction_site_same has_package ctx ctx' h =
      either_branch (has_package && has_rule main_code ex.registry) h
        (λ _. gate_same main_code extraction_failed ctx ctx') (λ _ e. sym (ok_injective e))

  instead-eq-ok :
      {A : Type 0} (raised : Raised) (r : Result Raised A) (a : A)
      → instead raised r ≡ ok a
      → r ≡ ok a
  instead-eq-ok raised (err e) a h = cc
  instead-eq-ok raised (ok b) a h = ap ok (ok_injective h)

  ensure_rule_dependencies_same :
      (has_package : Bool) (code : Text) (ctx ctx' : Context)
      → ensure_rule_dependencies env ex has_package code ctx ≡ ok ctx'
      → ctx' ≡ ctx
  unfolding ensure_rule_dependencies
  ensure_rule_dependencies_same has_package code ctx ctx' h =
      let classify : Context → Result Raised Context = λ c.
        if has_rule classification_code ex.registry
        then gate env ex classification_code classification_error c
        else ok c in
      let finish : Context → Result Raised Context =
        λ c. of_option catalog_build_failed env.catalog >>= λ catalog. ok c in
      either_branch (starts_with extract_prefix code) h (λ _ e. sym (ok_injective e))
        (λ _ h'.
          let (x, opened, h2) =
            >>=-eq-ok (instead extraction_failed (ensure_extraction_site env ex has_package ctx))
              (λ c. classify c >>= finish) h' in
          let (y, classified, h3) = >>=-eq-ok (classify x) finish h2 in
          let (catalog, built, last) =
            >>=-eq-ok (of_option catalog_build_failed env.catalog) (λ catalog. ok y) h3 in
          sym (ok_injective last)
          ∙ either_branch (has_rule classification_code ex.registry) classified
              (λ _. gate_same classification_code classification_error x y)
              (λ _ e. sym (ok_injective e))
          ∙ ensure_extraction_site_same has_package ctx x (
              instead-eq-ok extraction_failed (ensure_extraction_site env ex has_package ctx) x
                opened))

  -- One more entry under another code.
  set_state-AgreeOn :
      (c code : Text) (state : PrepareState) (ctx : Context)
      → code ≢ c
      → AgreeOn c ctx (set_state code state ctx)
  set_state-AgreeOn c code state ctx differ = record {
    states = get-put_other c code state ctx.prepare_states differ;
    markers = refl;
    collected = refl;
  }

  settled_prepare-AgreeOn :
      (c : Text) (owner : Inspector) (state : PrepareState) (plan : UnitPlan) (ctx : Context)
      (t : Context × UnitPlan)
      → owner.code ≢ c
      → plan.owner_code ≡ owner.code
      → settled_prepare owner state plan ctx ≡ ok t
      → AgreeOn c ctx t.0 × (t.1.owner_code ≡ owner.code)
  settled_prepare-AgreeOn c owner state plan ctx t differ own h = (
    subst (λ (u : Context × UnitPlan). AgreeOn c ctx u.0) (ok_injective h)
        (set_state-AgreeOn c owner.code state ctx differ),
    sym (ap (λ (u : Context × UnitPlan). u.1.owner_code) (ok_injective h)) ∙ own,
  )

  plan_prepare-AgreeOn :
      (c : Text) (force : Bool) (owner : Inspector) (prep : PrepareSpec) (ctx : Context)
      (t : Context × UnitPlan)
      → owner.code ≢ c
      → plan_prepare env force owner prep ctx ≡ ok t
      → AgreeOn c ctx t.0 × (t.1.owner_code ≡ owner.code)
  unfolding plan_prepare
  plan_prepare-AgreeOn c force owner prep ctx t differ h = planned (matched_files env owner) h
    where
      planned :
          (o : Option (List Text))
          → plan_files env force owner prep o ctx ≡ ok t
          → AgreeOn c ctx t.0 × (t.1.owner_code ≡ owner.code)
      planned none k =
          settled_prepare-AgreeOn c owner failed (blank_plan prepare prep.code owner.code) ctx t
            differ refl k
      planned (some matched) k =
          either_branch (is_nil matched) k
            (λ _ e.
              settled_prepare-AgreeOn c owner skip (blank_plan prepare prep.code owner.code) ctx t
                differ refl e)
            (λ _ k'.
              either_branch (not (is_owner_name owner.code)) k' (λ _ e. cc)
                (λ _ k''.
                  either_branch (not force && marker_holds env owner.code ctx) k''
                    (λ _ e.
                      settled_prepare-AgreeOn c owner hit
                        (record (blank_plan prepare prep.code owner.code) {
                          matched_bytes = matched_bytes_of env matched;
                        })
                        ctx t differ refl e)
                    (λ _ e. (
                      subst (λ (u : Context × UnitPlan). AgreeOn c ctx u.0) (ok_injective e)
                          (record {
                            states = refl;
                            markers = get-remove_other c owner.code ctx.markers differ;
                            collected = refl;
                          }),
                      sym (ap (λ (u : Context × UnitPlan). u.1.owner_code) (ok_injective e)),
                    ))))

  finish_one-AgreeOn :
      (c : Text) (plan : UnitPlan) (outcome : Option UnitOutcome) (ctx : Context)
      → plan.owner_code ≢ c
      → AgreeOn c ctx (finish_one env plan outcome ctx)
  unfolding finish_prepare
  finish_one-AgreeOn c plan none ctx differ = AgreeOn-refl c ctx
  finish_one-AgreeOn c plan (some outcome) ctx differ =
      elim (Bool-cases (is_rebuilt outcome.prepare_state)) [
        | inl built ↦ rw built (record {
          states = get-put_other c plan.owner_code rebuilt ctx.prepare_states differ;
          markers =
              get-put_other c plan.owner_code (env.file_sha256 plan.owner_code) ctx.markers differ;
          collected = refl;
        })
        | inr broken ↦ rw broken (set_state-AgreeOn c plan.owner_code failed ctx differ)
      ]

  prepare_single-AgreeOn :
      (c : Text) (force : Bool) (rule : Inspector) (o : Option PrepareSpec) (ctx ctx' : Context)
      → rule.code ≢ c
      → prepare_single env ex force rule o ctx ≡ ok ctx'
      → AgreeOn c ctx ctx'
  prepare_single-AgreeOn c force rule none ctx ctx' differ h =
      subst (AgreeOn c ctx) (ok_injective h) (AgreeOn-refl c ctx)
  prepare_single-AgreeOn c force rule (some prep) ctx ctx' differ h =
      let (t, planned, last) =
        >>=-eq-ok (plan_prepare env force rule prep ctx)
          (λ t. ok (finish_one env t.1 (single_outcome env ex t.1) t.0)) h in
      let (agree, own) = plan_prepare-AgreeOn c force rule prep ctx t differ planned in
      subst (AgreeOn c ctx) (ok_injective last) (
        AgreeOn-trans c ctx t.0 (finish_one env t.1 (single_outcome env ex t.1) t.0) agree
          (finish_one-AgreeOn c t.1 (single_outcome env ex t.1) t.0 (λ e. differ (sym own ∙ e))))

  run_one-AgreeOn :
      (c code : Text) (ctx ctx' : Context) (result : RuleResult)
      → result.code ≢ c
      → run_one env ex true code ctx ≡ ok (ctx', result)
      → AgreeOn c ctx ctx'
  run_one-AgreeOn c code ctx ctx' result differ h =
      subst (AgreeOn c ctx) (sym (run_one-stored env ex true code ctx ctx' result h)) (record {
        states = refl;
        markers = refl;
        collected = get-put_other c result.code result ctx.collected differ;
      })

  -- A single run that returns ran a rule that is hidden or in the frozen scope, and it leaves every
  -- other rule as it was: its preparation's state, its marker and its collected result, also those of
  -- the extract units that it ran as gates. (A rule is another one where its code is neither the code
  -- of the run nor the one that the returned result names.)
  pub run_rule_with_deps-AgreeOn :
      (has_package force : Bool) (c code : Text) (ctx ctx' : Context) (result : RuleResult)
      → code ≢ c
      → result.code ≢ c
      → run_rule_with_deps env ex has_package force code ctx ≡ ok (ctx', result)
      → ((rule : Inspector) × (get_rule ex.registry code ≡ some rule)
          × ((not rule.hidden && not (owner_in_scope ex code)) ≡ false))
        × AgreeOn c ctx ctx'
  unfolding run_rule_with_deps
  run_rule_with_deps-AgreeOn has_package force c code ctx ctx' result differ other h =
      looked_up (get_rule ex.registry code) refl h
    where
      found :
          (rule : Inspector)
          → rule.code ≡ code
          → run_found env ex has_package force code rule ctx ≡ ok (ctx', result)
          → ((not rule.hidden && not (owner_in_scope ex code)) ≡ false) × AgreeOn c ctx ctx'
      found rule own k =
          either_branch (not rule.hidden && not (owner_in_scope ex code)) k (λ _ e. cc)
            (λ scoped k'. (
              scoped,
              either_branch (starts_with extract_prefix code) k'
                  (λ _. run_one-AgreeOn c code ctx ctx' result other)
                  (λ _ k''.
                    let onward : Context → Result Raised (Context × RuleResult) = λ x.
                      prepare_single env ex force rule rule.prepare x >>= λ y.
                      run_one env ex true code y in
                    let (x, ready, k3) =
                      >>=-eq-ok (ensure_rule_dependencies env ex has_package code ctx) onward k'' in
                    let (y, prepared, ran) =
                      >>=-eq-ok (prepare_single env ex force rule rule.prepare x)
                        (λ y. run_one env ex true code y) k3 in
                    let start : AgreeOn c ctx x =
                      subst (AgreeOn c ctx)
                        (sym (ensure_rule_dependencies_same has_package code ctx x ready))
                        (AgreeOn-refl c ctx) in
                    AgreeOn-trans c ctx x ctx' start (
                      AgreeOn-trans c x y ctx'
                        (prepare_single-AgreeOn c force rule rule.prepare x y
                          (λ e. differ (sym own ∙ e)) prepared)
                        (run_one-AgreeOn c code y ctx' result other ran))),
            ))

      looked_up :
          (o : Option Inspector)
          → get_rule ex.registry code ≡ o
          → run_lookup env ex has_package force code ctx o ≡ ok (ctx', result)
          → ((rule : Inspector) × (get_rule ex.registry code ≡ some rule)
              × ((not rule.hidden && not (owner_in_scope ex code)) ≡ false))
            × AgreeOn c ctx ctx'
      looked_up none e k = cc
      looked_up (some rule) e k =
          let (scoped, agree) = found rule (find_rule-code code ex.registry.rules rule e) k in
          ((rule, e, scoped), agree)
