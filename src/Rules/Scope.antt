-- ===== src/Rules/Scope.antt =====
-- app/services/rule_scope.py: the rules that a task freezes when it starts, and their validation
-- when one of them is run again.
pub mod Frozen
use patrol_x.Base.{
  ℕ, ◌+◌, Bool, true, false, not, ◌&&◌, ◌||◌, ltb, ◌==◌, List, [], ◌∷◌, map, Option, none, some,
  Result, ok, err, ◌>>=◌, ◌>>◌, raise_if, if◌then◌else◌,
}
use patrol_x.Base.Lists.{any, all, keep}
use patrol_x.Base.Sort.{sort}
use patrol_x.Base.Text.{Text, codes, text_eq, text_le, strip}
use patrol_x.Rules.Contract.{Inspector, Priority}
use patrol_x.Rules.Registry.{RuleRegistry, all_rules, find_rule, rule_le}

-- RuleScopeItemData, with its assignment snapshot
pub record ScopeItem : Type 0 where
  pub rule_code : Text
  pub rule_version : Text
  pub priority : Priority
  pub execution_order : ℕ
  pub network_element_types : List Text

-- RuleScopeSnapshotData, as far as it is decided here
pub record Snapshot : Type 0 where
  pub network_element_type : Option Text
  pub assignment_revision : ℕ
  pub items : List ScopeItem

-- The codes of RuleScopeError
pub data ScopeError : Type 0 where
  invalid_network_element_type rule_not_in_task_scope rule_snapshot_version_mismatch : ScopeError

-- str.upper, and the codes of the dictionary of products, stripped and in upper case
pub record Products : Type 0 where
  pub upper : Text → Text
  pub allowed : List Text

-- A row of KpiRuleNetworkAssignment: the rule's code and the type of the network element.
abbrev pub Assignments : Type 0
Assignments = List (Text × Text)

-- _PUBLIC_SCOPES
abbrev pub public_scopes : List Text
public_scopes = codes "*" ∷ codes "COMMON" ∷ codes "PUBLIC" ∷ codes "GENERIC" ∷ [] ∷ []

-- _normalize_network_type
unfoldable pub normalize_network_type : Products → Option Text → Result ScopeError (Option Text)
unfolding strip
normalize_network_type products none = ok none
normalize_network_type products (some value) =
    let normalized = products.upper (strip value) in
    if any (text_eq normalized) public_scopes || not (any (text_eq normalized) products.allowed)
    then err invalid_network_element_type
    else ok (some normalized)

-- `{rule.code: rule for rule in rules if not rule.hidden}`
unfoldable pub business_rules : RuleRegistry → List Inspector
unfolding all_rules
business_rules reg = keep (λ (rule : Inspector). not rule.hidden) (all_rules false reg)

abbrev pub is_assigned : Assignments → Text → Inspector → Bool
is_assigned rows type rule =
    any (λ (code, element). text_eq code rule.code && text_eq element type) rows

-- The set of a rule's types, as a list without repetitions
unfoldable pub types_of : Text → Assignments → List Text
types_of rule_code [] = []
types_of rule_code ((code, element) ∷ rows) =
    let others = types_of rule_code rows in
    if text_eq code rule_code && not (any (text_eq element) others)
    then element ∷ others
    else others

-- `order.get(value, len(order))`: the last index counts.
unfoldable pub rank_from : ℕ → List Text → Text → Option ℕ
rank_from index [] value = none
rank_from index (code ∷ rest) value = later (rank_from (index + 1) rest value)
  where
    later : Option ℕ → Option ℕ
    later (some rank) = some rank
    later none = if text_eq code value then some index else none

-- `len(order)`, of a dictionary by the codes
unfoldable pub distinct_codes : List Text → ℕ
distinct_codes [] = 0
distinct_codes (code ∷ rest) =
    let others = distinct_codes rest in if any (text_eq code) rest then others else others + 1

abbrev pub rank_of : List Text → Text → ℕ
rank_of allowed value = elim (rank_from 0 allowed value) [
  | none ↦ distinct_codes allowed
  | some rank ↦ rank
]

abbrev pub element_le : List Text → Text → Text → Bool
element_le allowed s t =
    ltb (rank_of allowed s) (rank_of allowed t)
    || rank_of allowed s == rank_of allowed t && text_le s t

abbrev pub item_of : Products → Assignments → ℕ → Inspector → ScopeItem
item_of products rows index rule = record {
  rule_code = rule.code;
  rule_version = rule.rule_version;
  priority = rule.priority;
  execution_order = index;
  network_element_types = sort (element_le products.allowed) (types_of rule.code rows);
}

-- The items of the selected rules, from an execution order on.
unfoldable pub items_from : Products → Assignments → ℕ → List Inspector → List ScopeItem
unfolding types_of rank_from distinct_codes sort
items_from products rows index [] = []
items_from products rows index (rule ∷ rest) =
    item_of products rows index rule ∷ items_from products rows (index + 1) rest

unfoldable pub selected_rules : Assignments → RuleRegistry → Option Text → List Inspector
unfolding business_rules sort
selected_rules rows reg none = []
selected_rules rows reg (some type) =
    sort rule_le (keep (is_assigned rows type) (business_rules reg))

-- RuleScopeResolver.resolve
unfoldable pub resolve_scope :
    Products → Assignments → ℕ → RuleRegistry → Option Text → Result ScopeError Snapshot
unfolding normalize_network_type selected_rules items_from
resolve_scope products rows revision reg requested = do
  normalized ← normalize_network_type products requested
  ok (record {
    network_element_type = normalized;
    assignment_revision = revision;
    items = items_from products rows 0 (selected_rules rows reg normalized);
  })

-- `{item.rule_code: item for item in snapshot.items}.get(code)`: the last one counts.
unfoldable pub find_item : Text → List ScopeItem → Option ScopeItem
find_item code [] = none
find_item code (item ∷ rest) = later (find_item code rest)
  where
    later : Option ScopeItem → Option ScopeItem
    later (some found) = some found
    later none = if text_eq item.rule_code code then some item else none

-- The second loop's test on one code
abbrev pub current_rule : Option ScopeItem → Option Inspector → Result ScopeError Inspector
current_rule none rule = err rule_not_in_task_scope
current_rule (some item) none = err rule_snapshot_version_mismatch
current_rule (some item) (some rule) =
    if text_eq rule.rule_version item.rule_version
    then ok rule
    else err rule_snapshot_version_mismatch

unfoldable pub current_rules :
    RuleRegistry → List ScopeItem → List Text → Result ScopeError (List Inspector)
unfolding find_item business_rules
current_rules reg items [] = ok []
current_rules reg items (code ∷ rest) = do
  rule ← current_rule (find_item code items) (find_rule code (business_rules reg))
  others ← current_rules reg items rest
  ok (rule ∷ others)

abbrev pub is_frozen : List ScopeItem → Text → Bool
is_frozen items code = any (λ (item : ScopeItem). text_eq item.rule_code code) items

-- RuleScopeResolver.validate_frozen_rules
unfoldable pub validate_frozen_rules :
    RuleRegistry → Snapshot → List Text → Result ScopeError (List Inspector)
unfolding current_rules
validate_frozen_rules reg snapshot rule_codes = do
  raise_if (not (all (is_frozen snapshot.items) rule_codes)) rule_not_in_task_scope
  current_rules reg snapshot.items rule_codes

-- RuleScopeResolver.validate_snapshot_versions, with the rules that it finds
abbrev pub validate_snapshot_versions : RuleRegistry → Snapshot → Result ScopeError (List Inspector)
validate_snapshot_versions reg snapshot =
    validate_frozen_rules reg snapshot (map (λ (item : ScopeItem). item.rule_code) snapshot.items)
