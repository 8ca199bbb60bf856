-- ===== src/Executor/Run/Registered.antt =====
-- Every code of a plan is the code of a registered rule.
use patrol_x.Base.{
  ◌≡◌, refl, Bool, true, false, not, ◌&&◌, ◌||◌, List, [], ◌∷◌, map, some, inl, inr, Result, ok,
  ◌>>=◌, if◌then◌else◌, Bool-cases,
}
use patrol_x.Base.Lists.Every.{All-keep, All-map}
use patrol_x.Rules.Registry.Invariant.{own_codes}
use patrol_x.Base.Lists.{any, All, keep}
use patrol_x.Base.Sort.{sort}
use patrol_x.Base.Sort.Laws.{All-sort}
use patrol_x.Base.Text.{Text, text_le, starts_with}
use patrol_x.Rules.Contract.{Inspector}
use patrol_x.Rules.Registry.{
  RuleRegistry, has_code, has_rule, find_rule, rule_le, all_rules, rule_codes,
}
use patrol_x.Executor.{
  Executor, extract_prefix, extract_le, extract_plan, inspect_plan, owner_in_scope,
}
use patrol_x.Executor.Plan.{Raised}

abbrev pub Returns {ℓ} : {A : Type ℓ} → Result Raised A → Type ℓ
Returns {A = A} r = (a : A) × (r ≡ ok a)

pub then_Returns :
    {A B : Type 0} {r : Result Raised A} (next : A → Result Raised B)
    → Returns r
    → ((a : A) → Returns (next a))
    → Returns (r >>= next)
then_Returns next (a, e) h = rw e (h a)

pub if-Returns :
    {A : Type 0} {x y : Result Raised A} (b : Bool)
    → Returns x
    → Returns y
    → Returns (if b then x else y)
if-Returns true h k = h
if-Returns false h k = k

pub found :
    (code : Text) (l : List Inspector)
    → any (has_code code) l ≡ true
    → (rule : Inspector) × (find_rule code l ≡ some rule)
found code [] h = cc
found code (rule ∷ l) h = elim (Bool-cases (has_code code rule)) [
  | inl same ↦ rw same (rule, refl)
  | inr other ↦ rw other (found code l (rw other at h))
]

abbrev pub AreRegistered : RuleRegistry → List Text → Type 0
AreRegistered reg codes = All (λ code. has_rule code reg ≡ true) codes

pub extract_plan-AreRegistered : (ex : Executor) → AreRegistered ex.registry (extract_plan ex)
unfolding extract_plan rule_codes
extract_plan-AreRegistered ex =
    All-sort extract_le (λ c. has_rule c ex.registry ≡ true)
      (keep (starts_with extract_prefix) (rule_codes ex.registry))
      (All-keep (λ c. has_rule c ex.registry ≡ true) (starts_with extract_prefix)
        (rule_codes ex.registry)
        (All-sort text_le (λ c. has_rule c ex.registry ≡ true)
          (map (λ (rule : Inspector). rule.code) ex.registry.rules)
          (All-map (λ c. has_rule c ex.registry ≡ true) (λ (rule : Inspector). rule.code)
            ex.registry.rules (own_codes ex.registry.rules))))

pub inspect_plan-AreRegistered : (ex : Executor) → AreRegistered ex.registry (inspect_plan ex)
unfolding inspect_plan all_rules
inspect_plan-AreRegistered ex =
    let IsKnown : Inspector → Type 0 = λ rule. has_rule rule.code ex.registry ≡ true in
    All-map (λ c. has_rule c ex.registry ≡ true) (λ (rule : Inspector). rule.code)
      (keep (λ (rule : Inspector). not rule.hidden && owner_in_scope ex rule.code)
        (all_rules false ex.registry))
      (All-keep IsKnown (λ (rule : Inspector). not rule.hidden && owner_in_scope ex rule.code)
        (all_rules false ex.registry)
        (All-keep IsKnown (λ (rule : Inspector). false || not rule.hidden)
          (sort rule_le ex.registry.rules)
          (All-sort rule_le IsKnown ex.registry.rules (own_codes ex.registry.rules))))
