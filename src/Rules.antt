-- ===== src/Rules.antt =====
-- What rules and units are made of: RuleStatus and RuleResult of app/models/schemas.py, the kinds of
-- units and the states of a preparation of app/services/unit_runtime.py.
pub mod Contract
pub mod Registry
pub mod States
pub mod Scope
mod Tests
use patrol_x.Base.{ℕ, Option, List}
use patrol_x.Base.Text.{Text}

pub data RuleStatus : Type 0 where
  pass warn fail error skip : RuleStatus

-- Metric and OutputMetric, as far as validate_metrics reads them
pub record Metric : Type 0 where
  pub key : Text
  pub unit : Option Text

-- RuleResult, as far as the services read it
pub record RuleResult : Type 0 where
  pub code : Text
  pub status : RuleStatus
  pub metrics : List Metric
  pub execution_order : ℕ

pub data UnitKind : Type 0 where
  prepare inspect : UnitKind

-- PREPARE_REBUILT, PREPARE_FAILED, PREPARE_HIT, PREPARE_SKIP
pub data PrepareState : Type 0 where
  rebuilt failed hit skip : PrepareState
