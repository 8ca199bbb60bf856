-- ===== src/Rules/Tests.antt =====
-- A rule that is registered although its preparation's code is taken.
use patrol_x.Base.{◌≡◌, refl, true, false, [], ◌∷◌, none, some, ok, err}
use patrol_x.Base.Text.{Text, codes, strip, starts_with, text_le}
use patrol_x.Rules.Contract.{p1, Inspector}
use patrol_x.Rules.Registry.{RuleRegistry, empty_registry, repeated_prepare, register}
use patrol_x.Rules.Scope.{
  Snapshot, Products, Assignments, selected_rules, resolve_scope, validate_snapshot_versions,
}
use patrol_x.Rules.Scope.Frozen.{validate_snapshot_versions-resolve_scope}
use patrol_x.Rules.States.{Table, ensure_rule_states, update_rule_state}
use patrol_x.Rules.States.Decisions.{Decided, update_rule_state-Decided}
use patrol_x.Rules.Registry.Invariant.{IsValid, empty_registry-IsValid, register-IsValid}

abbrev rule : Text → Inspector
rule code = record {
  code = code;
  name = code;
  priority = p1;
  rule_version = codes "1";
  description = code;
  recommendation = code;
  hidden = false;
  source_patterns = some (codes "a" ∷ []);
  source_refs = none;
  scan_refs_resolved = false;
  outputs_metrics = [];
  runs = true;
  prepare = some (record { code = codes "p"; owner_code = code; runs = true });
}

abbrev one_rule : RuleRegistry
one_rule = (register (λ p. true) (rule (codes "r")) empty_registry).0

one_rule-IsValid : IsValid one_rule
one_rule-IsValid =
    register-IsValid (λ p. true) (rule (codes "r")) empty_registry empty_registry-IsValid

abbrev half_registered : RuleRegistry
half_registered = record {
  rules = rule (codes "r") ∷ rule (codes "s") ∷ [];
  prepares = (codes "r", record { code = codes "p"; owner_code = codes "r"; runs = true }) ∷ [];
}

registered_halfway :
    register (λ p. true) (rule (codes "s")) one_rule ≡ (half_registered, err repeated_prepare)
unfolding register strip starts_with
registered_halfway = refl

register-IsValid_example : IsValid (register (λ p. true) (rule (codes "s")) one_rule).0
register-IsValid_example = register-IsValid (λ p. true) (rule (codes "s")) one_rule one_rule-IsValid

-- A rule that the configuration disables, enabled by an operator.
abbrev after : Table
after = (codes "r", record { enabled = true; updated_at = 2 }) ∷ []

enabled :
    update_rule_state one_rule (codes "r" ∷ []) (codes "r") true 2 []
    ≡ (after, ok (some (record { enabled = true; updated_at = 2 })))
unfolding update_rule_state register strip starts_with text_le
enabled = refl

update_rule_state-Decided_example :
    Decided one_rule (codes "r") true (ensure_rule_states one_rule (codes "r" ∷ []) 2 []) after
update_rule_state-Decided_example =
    update_rule_state-Decided one_rule (codes "r" ∷ []) (codes "r") true 2 [] after
      (some (record { enabled = true; updated_at = 2 })) enabled

abbrev products : Products
products = record { upper = λ s. s; allowed = codes "A" ∷ codes "B" ∷ [] }

-- The rule is assigned to two types, of which the task has one.
abbrev rows : Assignments
rows = (codes "r", codes "B") ∷ (codes "x", codes "A") ∷ (codes "r", codes "A") ∷ []

abbrev frozen : Snapshot
frozen = record {
  network_element_type = some (codes "B");
  assignment_revision = 3;
  items =
      record {
        rule_code = codes "r";
        rule_version = codes "1";
        priority = p1;
        execution_order = 0;
        network_element_types = codes "A" ∷ codes "B" ∷ [];
      }
      ∷ [];
}

resolved : resolve_scope products rows 3 one_rule (some (codes "B")) ≡ ok frozen
unfolding resolve_scope register strip starts_with text_le
resolved = refl

validate_snapshot_versions-resolve_scope_example :
    validate_snapshot_versions one_rule frozen
    ≡ ok (selected_rules rows one_rule (some (codes "B")))
validate_snapshot_versions-resolve_scope_example =
    validate_snapshot_versions-resolve_scope products rows 3 one_rule (some (codes "B")) frozen
      one_rule-IsValid resolved
