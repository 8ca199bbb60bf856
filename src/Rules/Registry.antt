-- ===== src/Rules/Registry.antt =====
-- RuleRegistry of app/inspectors/registry.py.
pub mod Invariant
use patrol_x.Base.{
  ℕ, Bool, true, false, not, ◌&&◌, ◌||◌, ltb, ◌==◌, List, [], ◌∷◌, ◌++◌, map, Option, none, some,
  Result, ok, err, if◌then◌else◌,
}
use patrol_x.Base.Dict.{Dict, get}
use patrol_x.Base.Lists.{any, keep}
use patrol_x.Base.Sort.{sort}
use patrol_x.Base.Text.{Text, text_eq, text_le}
use patrol_x.Rules.Contract.{
  Priority, p0, p1, p2, PrepareSpec, Inspector, ContractError, Validated, validate, is_blank,
}

-- The rules in the order of their registration. A preparation stands with its owner's code, by which
-- the program's two dictionaries of preparations share the owner's object.
pub record RuleRegistry : Type 0 where
  pub rules : List Inspector
  pub prepares : List (Text × PrepareSpec)

pub data RegistryError : Type 0 where
  contract : ContractError → RegistryError
  repeated_code repeated_owner repeated_prepare unknown_group : RegistryError

abbrev pub Registered : Type 0
Registered = RuleRegistry × Result RegistryError (Unit {0})

abbrev pub empty_registry : RuleRegistry
empty_registry = record { rules = []; prepares = [] }

abbrev pub has_code : Text → Inspector → Bool
has_code code rule = text_eq rule.code code

abbrev pub has_rule : Text → RuleRegistry → Bool
has_rule code reg = any (has_code code) reg.rules

abbrev pub owned_by : Text → Text × PrepareSpec → Bool
owned_by owner_code (owner, prepare) = text_eq owner owner_code

abbrev pub prepare_has_code : Text → Text × PrepareSpec → Bool
prepare_has_code code (owner, prepare) = text_eq prepare.code code

-- `code in self._prepares`
abbrev pub has_prepare : Text → RuleRegistry → Bool
has_prepare code reg = any (prepare_has_code code) reg.prepares

-- _register_prepare
abbrev pub register_prepare : Inspector → PrepareSpec → RuleRegistry → Registered
register_prepare owner prepare reg =
    if any (owned_by owner.code) reg.prepares
    then (reg, err repeated_owner)
    else if has_prepare prepare.code reg || has_rule prepare.code reg
    then (reg, err repeated_prepare)
    else (record reg { prepares = reg.prepares ++ (owner.code, prepare) ∷ [] }, ok tt)

-- What register does behind `validate`: a rule stays registered where its preparation is refused.
abbrev pub register_own_prepare : Inspector → Option PrepareSpec → RuleRegistry → Registered
register_own_prepare rule none reg = (reg, ok tt)
register_own_prepare rule (some prepare) reg = register_prepare rule prepare reg

abbrev pub register_valid : Inspector → RuleRegistry → Validated → Registered
register_valid rule reg (err e) = (reg, err (contract e))
register_valid rule reg (ok _) =
    if has_rule rule.code reg
    then (reg, err repeated_code)
    else register_own_prepare rule rule.prepare (record reg { rules = reg.rules ++ rule ∷ [] })

unfoldable pub register : (Text → Bool) → Inspector → RuleRegistry → Registered
unfolding validate
register compiles rule reg = register_valid rule reg (validate compiles rule)

-- `self._rules.get(code)`
abbrev pub find_rule : Text → List Inspector → Option Inspector
find_rule code [] = none
find_rule code (rule ∷ rest) =
    let others = find_rule code rest in if has_code code rule then some rule else others

-- RuleRegistry.get
abbrev pub get_rule : RuleRegistry → Text → Option Inspector
get_rule reg code = find_rule code reg.rules

abbrev pub priority_rank : Priority → ℕ
priority_rank p0 = 0
priority_rank p1 = 1
priority_rank p2 = 2

-- The order of `(r.priority, r.code)`
abbrev pub rule_le : Inspector → Inspector → Bool
rule_le r s =
    ltb (priority_rank r.priority) (priority_rank s.priority)
    || priority_rank r.priority == priority_rank s.priority && text_le r.code s.code

-- RuleRegistry.all, without the hidden rules or with them
unfoldable pub all_rules : Bool → RuleRegistry → List Inspector
unfolding sort
all_rules include_hidden reg =
    keep (λ rule. include_hidden || not rule.hidden) (sort rule_le reg.rules)

-- RuleRegistry.codes
unfoldable pub rule_codes : RuleRegistry → List Text
unfolding sort
rule_codes reg = sort text_le (map (λ rule. rule.code) reg.rules)

-- The order of `(owner.priority, owner.code, prepare.code)`
abbrev pub prepare_le : Inspector × PrepareSpec → Inspector × PrepareSpec → Bool
prepare_le (owner, prepare) (other, another) =
    if text_eq owner.code other.code && priority_rank owner.priority == priority_rank other.priority
    then text_le prepare.code another.code
    else rule_le owner other

abbrev pub with_owner :
    PrepareSpec → Option Inspector → List (Inspector × PrepareSpec) → List (Inspector × PrepareSpec)
with_owner prepare none rest = rest
with_owner prepare (some owner) rest = (owner, prepare) ∷ rest

-- `self._prepares.values()`
unfoldable pub owned_prepares :
    RuleRegistry → List (Text × PrepareSpec) → List (Inspector × PrepareSpec)
owned_prepares reg [] = []
owned_prepares reg ((owner_code, prepare) ∷ rest) =
    with_owner prepare (get_rule reg owner_code) (owned_prepares reg rest)

-- RuleRegistry.prepares
unfoldable pub sorted_prepares : RuleRegistry → List (Inspector × PrepareSpec)
unfolding owned_prepares sort
sorted_prepares reg = sort prepare_le (owned_prepares reg reg.prepares)

-- The patterns of the groups that a rule refers to; none where a group is unknown.
unfoldable pub expand_refs : Dict (List Text) → List Text → Option (List Text)
expand_refs groups [] = some []
expand_refs groups (ref ∷ rest) = join (get ref groups) (expand_refs groups rest)
  where
    join : Option (List Text) → Option (List Text) → Option (List Text)
    join (some patterns) (some others) = some (patterns ++ others)
    join _ _ = none

-- The body of the loop of resolve_scan_refs on one rule, whose fields it sets before it validates.
abbrev pub resolve_rule :
    (Text → Bool) → Dict (List Text) → Inspector → Inspector × Result RegistryError (Unit {0})
resolve_rule compiles groups rule = elim rule.source_refs [
  | none ↦ (rule, ok tt)
  | some refs ↦ elim (expand_refs groups refs) [
    | none ↦ (rule, err unknown_group)
    | some patterns ↦
        let resolved : Inspector = record rule {
          source_patterns = some patterns;
          scan_refs_resolved = true;
        } in
        (resolved, elim (validate compiles resolved) [ err e ↦ err (contract e) | ok _ ↦ ok tt ])
  ]
]

-- resolve_scan_refs over the rules, on groups that validate_scan_groups has passed.
unfoldable pub resolve_rules :
    (Text → Bool)
    → Dict (List Text)
    → List Inspector
    → List Inspector × Result RegistryError (Unit {0})
unfolding expand_refs validate
resolve_rules compiles groups [] = ([], ok tt)
resolve_rules compiles groups (rule ∷ rest) =
    let (resolved, checked) = resolve_rule compiles groups rule in
    let (others, ended) = resolve_rules compiles groups rest in
    elim checked [ err e ↦ (resolved ∷ rest, err e) | ok _ ↦ (resolved ∷ others, ended) ]
