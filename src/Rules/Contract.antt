-- ===== src/Rules/Contract.antt =====
-- PrepareSpec, OutputMetric and Inspector.validate of app/inspectors/base.py: what a rule declares.
use patrol_x.Base.{
  ℕ, Bool, true, false, not, ◌&&◌, ◌||◌, ◌==◌, List, [], ◌∷◌, Option, none, some, Result, ok, ◌>>◌,
  raise_if, if◌then◌else◌,
}
use patrol_x.Base.Lists.{any, is_nil}
use patrol_x.Base.Text.{Text, text_eq, has_char, strip, starts_with}
use patrol_x.Rules.{Metric}

pub data Priority : Type 0 where
  p0 p1 p2 : Priority

-- A rule's private preparation; `runs`: its `run` is not None.
pub record PrepareSpec : Type 0 where
  pub code : Text
  pub owner_code : Text
  pub runs : Bool

-- A rule, without what is only displayed. `runs`: its `run` is not None.
pub record Inspector : Type 0 where
  pub code : Text
  pub name : Text
  pub priority : Priority
  pub rule_version : Text
  pub description : Text
  pub recommendation : Text
  pub hidden : Bool
  pub source_patterns : Option (List Text)
  pub source_refs : Option (List Text)
  pub scan_refs_resolved : Bool
  pub outputs_metrics : List Metric
  pub runs : Bool
  pub prepare : Option PrepareSpec

-- One per message of the ValueError that `validate` raises.
pub data ContractError : Type 0 where
  no_name no_description no_version no_run : ContractError
  prepare_hidden prepare_without_sources prepare_no_code prepare_owner prepare_no_run :
      ContractError
  two_sources no_refs blank_ref malformed_ref repeated_ref hidden_empty no_patterns : ContractError
  malformed_pattern absolute_pattern traversal_pattern no_metric_key repeated_metric_key :
      ContractError

abbrev pub Validated : Type 0
Validated = Result ContractError (Unit {0})

-- `not values`, of a list or None
abbrev pub is_blank : Option (List Text) → Bool
is_blank none = true
is_blank (some values) = is_nil values

-- `".." in text`, and the same for any other text
unfoldable pub has_text : Text → Text → Bool
has_text part [] = is_nil part
has_text part (c ∷ s) = starts_with part (c ∷ s) || has_text part s

abbrev pub dots : Text
dots = b'.' ∷ b'.' ∷ []

-- `text.startswith("/") or text.startswith("\\")`, `text.startswith("~")`
abbrev pub leads_with : (ℕ → Bool) → Text → Bool
leads_with test [] = false
leads_with test (c ∷ s) = test c

abbrev pub is_separator : ℕ → Bool
is_separator c = c == b'/' || c == 92

abbrev pub is_home : ℕ → Bool
is_home c = c == b'~'

-- `len(values) != len(set(values))`
unfoldable pub repeats : List Text → Bool
repeats [] = false
repeats (v ∷ rest) = any (text_eq v) rest || repeats rest

abbrev pub unstripped : Text → Bool
unstripped value = not (text_eq (strip value) value)

module _ (compiles : Text → Bool) where
  -- The body of the loop of _validate_source_patterns; `compiles`: re.compile raises no re.error.
  unfoldable pub validate_source_pattern : Text → Validated
  unfolding has_text
  validate_source_pattern pattern = do
    raise_if (is_nil pattern || unstripped pattern) malformed_pattern
    raise_if (leads_with is_separator pattern) absolute_pattern
    raise_if (has_text dots pattern || leads_with is_home pattern) traversal_pattern
    raise_if (not (compiles pattern)) malformed_pattern

  unfoldable pub validate_source_patterns : List Text → Validated
  unfolding validate_source_pattern
  validate_source_patterns [] = ok tt
  validate_source_patterns (pattern ∷ rest) = do
    validate_source_pattern pattern
    validate_source_patterns rest

  abbrev pub validate_prepare : Inspector → PrepareSpec → Validated
  validate_prepare rule prepare = do
    raise_if rule.hidden prepare_hidden
    raise_if (is_blank rule.source_patterns && is_blank rule.source_refs) prepare_without_sources
    raise_if (is_nil prepare.code) prepare_no_code
    raise_if (not (text_eq prepare.owner_code rule.code)) prepare_owner
    raise_if (not prepare.runs) prepare_no_run

  abbrev pub validate_source_refs : List Text → Validated
  validate_source_refs refs = do
    raise_if (is_nil refs) no_refs
    raise_if (any is_nil refs) blank_ref
    raise_if (any (λ ref. unstripped ref || has_char b'/' ref || has_char 92 ref) refs)
        malformed_ref
    raise_if (repeats refs) repeated_ref

  abbrev pub metric_keys : List Metric → List Text
  metric_keys [] = []
  metric_keys (metric ∷ rest) = metric.key ∷ metric_keys rest

  abbrev pub validate_metric_keys : List Metric → Validated
  validate_metric_keys metrics = do
    raise_if (any is_nil (metric_keys metrics)) no_metric_key
    raise_if (repeats (metric_keys metrics)) repeated_metric_key

  -- The patterns, and then the metrics.
  abbrev pub validate_rest : Inspector → List Text → Validated
  validate_rest rule patterns = do
    validate_source_patterns patterns
    validate_metric_keys rule.outputs_metrics

  -- `self.prepare is not None`
  abbrev pub validate_own_prepare : Inspector → Option PrepareSpec → Validated
  validate_own_prepare rule none = ok tt
  validate_own_prepare rule (some prepare) = validate_prepare rule prepare

  -- The tests on the sources: a hidden rule with none of them is returned before its metrics are read.
  abbrev pub validate_sources : Inspector → Option (List Text) → Option (List Text) → Validated
  validate_sources rule none (some refs) = do validate_source_refs refs; validate_rest rule []
  validate_sources rule (some patterns) (some refs) = do
    raise_if (not rule.scan_refs_resolved) two_sources
    validate_source_refs refs
    validate_rest rule patterns
  validate_sources rule none none = raise_if (not rule.hidden) no_patterns
  validate_sources rule (some patterns) none = do
    raise_if (is_nil patterns) (if rule.hidden then hidden_empty else no_patterns)
    validate_rest rule patterns

  unfoldable pub validate : Inspector → Validated
  unfolding validate_source_patterns repeats
  validate rule = do
    raise_if (is_nil rule.code || is_nil rule.name) no_name
    raise_if (is_nil rule.description || is_nil rule.recommendation) no_description
    raise_if (is_nil rule.rule_version) no_version
    raise_if (not rule.runs) no_run
    validate_own_prepare rule rule.prepare
    validate_sources rule rule.source_patterns rule.source_refs
