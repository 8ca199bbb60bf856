-- ===== src/Rules/States.antt =====
-- app/services/rule_states.py: which rules are enabled. A call takes the rows of the table of
-- RuleState, by the rule's code, and gives them back; a moment is a number.
pub mod Decisions
use patrol_x.Base.{
  ℕ, ◌+◌, ◌-◌, ◌*◌, Bool, true, false, not, ◌&&◌, ◌||◌, List, [], ◌∷◌, map, Option, none, some,
  Result, ok, err, if◌then◌else◌,
}
use patrol_x.Base.Dict.{Dict, get, put}
use patrol_x.Base.Lists.{any, keep, length, take, drop}
use patrol_x.Base.Text.{Text, text_eq}
use patrol_x.Rules.Contract.{Inspector}
use patrol_x.Rules.Registry.{RuleRegistry, all_rules, get_rule}

pub record RuleState : Type 0 where
  pub enabled : Bool
  pub updated_at : ℕ

-- The codes of RuleStateError
pub data StateError : Type 0 where
  not_found rule_not_manageable rule_disabled : StateError

abbrev pub Table : Type 0
Table = Dict RuleState

-- _normal_codes
unfoldable pub normal_codes : RuleRegistry → List Text
unfolding all_rules
normal_codes reg =
    map (λ rule. rule.code) (keep (λ (rule : Inspector). not rule.hidden) (all_rules false reg))

abbrev pub has_state : Text → Table → Bool
has_state code table = elim (get code table) [ none ↦ false | some state ↦ true ]

-- The loop of ensure_rule_states; `existing` is read before it.
unfoldable pub add_states : List Text → Table → ℕ → List Text → Table → Table
add_states disabled_rules existing now [] table = table
add_states disabled_rules existing now (code ∷ codes) table =
    let state : RuleState = record {
      enabled = not (any (text_eq code) disabled_rules);
      updated_at = now;
    } in
    let added = add_states disabled_rules existing now codes (put code state table) in
    let passed = add_states disabled_rules existing now codes table in
    if has_state code existing then passed else added

unfoldable pub ensure_rule_states : RuleRegistry → List Text → ℕ → Table → Table
unfolding normal_codes add_states
ensure_rule_states reg disabled_rules now table =
    add_states disabled_rules table now (normal_codes reg) table

-- What the session of update_rule_state does with the row.
abbrev pub set_enabled : Text → Bool → ℕ → Option RuleState → Table → Table
set_enabled code enabled now none table =
    put code (record { enabled = enabled; updated_at = now }) table
set_enabled code enabled now (some state) table =
    if (if state.enabled then enabled else not enabled)
    then table
    else put code (record { enabled = enabled; updated_at = now }) table

-- A rule that may be changed
abbrev pub manageable : Option Inspector → Result StateError Inspector
manageable none = err not_found
manageable (some rule) = if rule.hidden then err rule_not_manageable else ok rule

-- update_rule_state, on the global registry: the table in any case, and the row that it returns.
abbrev pub update_ensured :
    Text
    → Bool
    → ℕ
    → Result StateError Inspector
    → Table
    → Table × Result StateError (Option RuleState)
update_ensured code enabled now (err e) table = (table, err e)
update_ensured code enabled now (ok rule) table =
    let updated = set_enabled code enabled now (get code table) table in
    (updated, ok (get code updated))

unfoldable pub update_rule_state :
    RuleRegistry
    → List Text
    → Text
    → Bool
    → ℕ
    → Table
    → Table × Result StateError (Option RuleState)
unfolding ensure_rule_states
update_rule_state reg disabled_rules code enabled now table =
    update_ensured code enabled now (manageable (get_rule reg code))
      (ensure_rule_states reg disabled_rules now table)

abbrev pub is_enabled : Option RuleState → Bool
is_enabled none = false
is_enabled (some state) = state.enabled

-- The end of assert_rule_enabled: none is no error.
abbrev pub check_enabled : Option Inspector → Option RuleState → Option StateError
check_enabled none state = some not_found
check_enabled (some rule) state =
    if rule.hidden then none else if is_enabled state then none else some rule_disabled

unfoldable pub assert_rule_enabled :
    RuleRegistry → List Text → ℕ → Text → Table → Table × Option StateError
unfolding ensure_rule_states
assert_rule_enabled reg disabled_rules now code table =
    let ensured = ensure_rule_states reg disabled_rules now table in
    (ensured, check_enabled (get_rule reg code) (get code ensured))

-- get_enabled_rule_codes: the set, as the codes in the order of the registry
unfoldable pub get_enabled_rule_codes : RuleRegistry → List Text → ℕ → Table → Table × List Text
unfolding ensure_rule_states normal_codes
get_enabled_rule_codes reg disabled_rules now table =
    let ensured = ensure_rule_states reg disabled_rules now table in
    (ensured, keep (λ code. is_enabled (get code ensured)) (normal_codes reg))
