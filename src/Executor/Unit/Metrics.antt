-- ===== src/Executor/Unit/Metrics.antt =====
-- The contract of a rule's metrics on what a unit returns.
use patrol_x.Base.{
  ◌⊎◌, ◌≡◌, refl, sym, ◌∙◌, Bool, true, false, List, [], ◌∷◌, Option, none, some, inl, inr,
  if◌then◌else◌, Bool-cases, &&-true,
}
use mathlib.Core.Path.{ap, subst}
use patrol_x.Base.Lists.{any, all}
use patrol_x.Base.Text.{Text, text_eq, text_eq_iff}
use patrol_x.Rules.{Metric, RuleResult, inspect, PrepareState}
use patrol_x.Rules.Contract.{Inspector}
use patrol_x.Rules.Registry.{RuleRegistry, get_rule}
use patrol_x.Parallel.{UnitPlan}
use patrol_x.Executor.{Surroundings}
use patrol_x.Executor.Unit.{
  unit_of, unit_eq, entry_eq, same_at, same_units, is_verdict, metrics_hold, inspected,
  run_inspect_call, inspect_outcome, execute_kind, execute_unit, request_holds,
}

unit_eq_same : (u v : Option Text) → unit_eq u v ≡ true → u ≡ v
unit_eq_same none none h = refl
unit_eq_same none (some t) h = cc
unit_eq_same (some s) none h = cc
unit_eq_same (some s) (some t) h = ap some ((text_eq_iff s t).0 h)

entry_eq_same : (u v : Option (Option Text)) → entry_eq u v ≡ true → u ≡ v
entry_eq_same none none h = refl
entry_eq_same none (some t) h = cc
entry_eq_same (some s) none h = cc
entry_eq_same (some s) (some t) h = ap some (unit_eq_same s t h)

has_key : Text → Metric → Bool
has_key key m = text_eq m.key key

-- A key that no metric has, has no unit.
unit_of-absent : (key : Text) (l : List Metric) → any (has_key key) l ≡ false → unit_of key l ≡ none
unfolding unit_of has_key
unit_of-absent key [] h = refl
unit_of-absent key (m ∷ l) h = elim (Bool-cases (text_eq m.key key)) [
  | inl same ↦ absurd (ne (rw same at h))
  | inr other ↦ rw (unit_of-absent key l (rw other at h), other) refl
]
  where
    ne : true ≡ false → ⊥
    ne e = cc

-- A key that a metric has is compared.
at_key :
    (key : Text) (declared actual l : List Metric)
    → all (same_at declared actual) l ≡ true
    → any (has_key key) l ≡ true
    → unit_of key declared ≡ unit_of key actual
unfolding has_key
at_key key declared actual [] h found = cc
at_key key declared actual (m ∷ l) h found =
    let (here, rest) = &&-true (same_at declared actual m) (all (same_at declared actual) l) h in
    elim (Bool-cases (text_eq m.key key)) [
      | inl same ↦
          subst (λ k. unit_of k declared ≡ unit_of k actual) ((text_eq_iff m.key key).0 same)
            (entry_eq_same (unit_of m.key declared) (unit_of m.key actual) here)
      | inr other ↦ at_key key declared actual l rest (rw other at found)
    ]

-- The test on the two dictionaries says that they are equal.
same_units-unit_of :
    (declared actual : List Metric)
    → same_units declared actual ≡ true
    → (key : Text) → unit_of key declared ≡ unit_of key actual
unfolding same_units
same_units-unit_of declared actual h key =
    let (left, right) =
      &&-true (all (same_at declared actual) declared) (all (same_at declared actual) actual) h in
    elim (Bool-cases (any (has_key key) declared)) [
      | inl found ↦ at_key key declared actual declared left found
      | inr absent ↦ elim (Bool-cases (any (has_key key) actual)) [
        | inl found ↦ at_key key declared actual actual right found
        | inr absent' ↦ unit_of-absent key declared absent ∙ sym (unit_of-absent key actual absent')
      ]
    ]

-- A result with the metrics that a rule declares, unless it is an error or a skip.
abbrev pub KeepsContract : Inspector → RuleResult → Type 0
KeepsContract rule result =
    (is_verdict result.status ≡ false)
    ⊎ ((key : Text) → unit_of key rule.outputs_metrics ≡ unit_of key result.metrics)

run_inspect_call-KeepsContract :
    (env : Surroundings) (rule : Inspector) (files : List Text) (state : Option PrepareState)
    → KeepsContract rule (run_inspect_call env rule files state)
unfolding run_inspect_call
run_inspect_call-KeepsContract env rule files state = kept (env.rule_run rule.code files state)
  where
    kept : (o : Option RuleResult) → KeepsContract rule (inspected rule o)
    kept none = inl refl
    kept (some result) = elim (Bool-cases (metrics_hold rule result)) [
      | inl holds ↦ rw holds (elim (Bool-cases (is_verdict result.status)) [
        | inl verdict ↦
            inr (same_units-unit_of rule.outputs_metrics result.metrics (rw verdict at holds))
        | inr other ↦ inl other
      ])
      | inr fault ↦ rw fault (inl refl)
    ]

-- When an inspect unit returns, it has a result, and a result with the status pass, warn or fail has
-- the metrics that the registered rule declares: each key is in both or in neither, with one unit.
-- The unit returns whenever its files are inside the task's folder and its rule is registered.
pub execute_unit-KeepsContract :
    (env : Surroundings) (reg : RuleRegistry) (plan : UnitPlan) (files : List Text)
    (rule : Inspector)
    → plan.unit_kind ≡ inspect
    → plan.request ≡ some files
    → request_holds files ≡ true
    → get_rule reg plan.code ≡ some rule
    → (result : RuleResult) × (execute_unit env reg plan ≡ some (inspect_outcome plan.code result))
      × KeepsContract rule result
unfolding execute_unit
execute_unit-KeepsContract env reg plan files rule kind request inside registered = (
  run_inspect_call env rule files plan.prepare_state,
  ap
        (λ (o : Option (List Text)). elim o [
          | none ↦ none
          | some files' ↦
              if request_holds files' then execute_kind env reg plan files' plan.unit_kind else none
        ])
        request
      ∙ ap (λ (b : Bool). if b then execute_kind env reg plan files plan.unit_kind else none) inside
      ∙ ap (execute_kind env reg plan files) kind
      ∙ ap
          (λ (o : Option Inspector). elim o [
            | none ↦ none
            | some rule' ↦
                some
                  (inspect_outcome plan.code (run_inspect_call env rule' files plan.prepare_state))
          ])
          registered,
  run_inspect_call-KeepsContract env rule files plan.prepare_state,
)
