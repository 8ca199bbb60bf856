-- ===== src/Executor.antt =====
-- What app/services/executor.py and app/services/unit_runtime.py read and write: the task's context,
-- the surroundings of a task, and the plans of an Executor.
pub mod Unit
pub mod Plan
pub mod Run
pub mod Single
pub mod Orders
mod Tests
use patrol_x.Base.{
  ℕ, ◌+◌, Bool, true, false, not, ◌&&◌, ◌||◌, List, [], ◌∷◌, ◌++◌, map, Option, none, some,
  if◌then◌else◌,
}
use patrol_x.Base.Dict.{Dict}
use patrol_x.Base.Lists.{any, keep}
use patrol_x.Base.Sort.{sort}
use patrol_x.Base.Text.{Text, codes, text_eq, text_le, starts_with}
use patrol_x.Rules.{RuleResult, PrepareState}
use patrol_x.Rules.Contract.{Inspector, PrepareSpec}
use patrol_x.Rules.Registry.{RuleRegistry, all_rules, rule_codes, sorted_prepares}
use patrol_x.Scanning.{Patterns}

-- What is outside of the services: `re`, the catalogue of the task's files (none: building it
-- raises), the size of a file (0 where `stat` raises), the checksum of the file that an owner's rule
-- stands in, and what the rules' functions do with the files and the state of their preparation.
-- `rule_run` gives none where the function raises or returns no RuleResult; `prepare_run` is false
-- where it raises.
pub record Surroundings : Type 0 where
  pub re : Patterns
  pub catalog : Option (List Text)
  pub file_size : Text → ℕ
  pub file_sha256 : Text → Text
  pub rule_run : Text → List Text → Option PrepareState → Option RuleResult
  pub prepare_run : Text → List Text → Bool

-- The part of RuleContext and of Executor that changes: `prepare_states`, the markers on the disk and
-- `collected`, each by a rule's code.
pub record Context : Type 0 where
  pub prepare_states : Dict PrepareState
  pub markers : Dict Text
  pub collected : Dict RuleResult

pub record Executor : Type 0 where
  pub registry : RuleRegistry
  pub frozen_rule_codes : Option (List Text)

abbrev pub extract_prefix : Text
extract_prefix = codes "pkg.extract."

abbrev pub main_code : Text
main_code = codes "pkg.extract.main"

-- The order of the keys `(0 if code == "pkg.extract.main" else 1, code)`
abbrev pub extract_le : Text → Text → Bool
extract_le s t =
    if text_eq s main_code
    then not (text_eq t main_code) || text_le s t
    else not (text_eq t main_code) && text_le s t

unfoldable pub extract_plan : Executor → List Text
unfolding sort rule_codes starts_with
extract_plan ex = sort extract_le (keep (starts_with extract_prefix) (rule_codes ex.registry))

-- _owner_in_scope
abbrev pub owner_in_scope : Executor → Text → Bool
owner_in_scope ex owner_code = elim ex.frozen_rule_codes [
  | none ↦ true
  | some frozen ↦ any (text_eq owner_code) frozen
]

-- The owners and preparations of a run, and prepare_plan
unfoldable pub scoped_prepares : Executor → List (Inspector × PrepareSpec)
unfolding sorted_prepares
scoped_prepares ex =
    keep (λ (owner, prepare). owner_in_scope ex owner.code) (sorted_prepares ex.registry)

abbrev pub prepare_plan : Executor → List Text
prepare_plan ex = map (λ (owner, prepare). prepare.code) (scoped_prepares ex)

unfoldable pub inspect_plan : Executor → List Text
unfolding all_rules
inspect_plan ex =
    map (λ rule. rule.code)
      (keep (λ (rule : Inspector). not rule.hidden && owner_in_scope ex rule.code)
        (all_rules false ex.registry))
