-- ===== src/Executor/Plan.antt =====
-- _matched_files, _matched_bytes, _plan_prepare, _finish_prepare and _plan_inspect of
-- app/services/executor.py, and prepared_dir of app/services/prepare.py.
pub mod Cache
use patrol_x.Base.{
  ℕ, ◌+◌, Bool, true, false, not, ◌&&◌, ◌||◌, List, [], ◌∷◌, Option, none, some, Result, ok, err,
  ◌>>=◌, ◌>>◌, raise_if, if◌then◌else◌,
}
use patrol_x.Base.Dict.{get, put, remove}
use patrol_x.Base.Lists.{any, is_nil, sum_of}
use patrol_x.Base.Text.{Text, text_eq, has_char}
use patrol_x.Rules.{
  RuleStatus, error, RuleResult, UnitKind, prepare, inspect, PrepareState, rebuilt, failed, hit,
  skip,
}
use patrol_x.Rules.Contract.{Inspector, PrepareSpec, is_blank, dots}
use patrol_x.Rules.Registry.{get_rule}
use patrol_x.Parallel.{UnitPlan, UnitOutcome, error_result}
use patrol_x.Scanning.{validate_patterns, match_paths}
use patrol_x.Executor.{Surroundings, Context, Executor}

-- What a method of the executor raises. `no_end`: the fuel of a stage is used up.
pub data Raised : Type 0 where
  not_registered illegal_owner catalog_error out_of_scope : Raised
  extraction_failed classification_error catalog_build_failed no_end : Raised

-- The files of a rule's patterns; none for the ValueError of a pattern or of the catalogue.
abbrev pub match_catalog : Surroundings → List Text → Option (List Text)
match_catalog env patterns = elim env.catalog [
  | none ↦ none
  | some paths ↦ elim (validate_patterns env.re patterns) [
    | err e ↦ none
    | ok _ ↦ elim (match_paths env.re paths patterns) [ err e ↦ none | ok files ↦ some files ]
  ]
]

-- _matched_files
unfoldable pub matched_files : Surroundings → Inspector → Option (List Text)
unfolding validate_patterns match_paths
matched_files env rule =
    if is_blank rule.source_patterns
    then some []
    else elim rule.source_patterns [ none ↦ some [] | some patterns ↦ match_catalog env patterns ]

-- _matched_bytes
abbrev pub matched_bytes_of : Surroundings → List Text → ℕ
matched_bytes_of env files = sum_of env.file_size files

-- The test of prepared_dir, which marker_path makes: the code is one name of a path.
abbrev pub is_owner_name : Text → Bool
is_owner_name owner_code =
    not (is_nil owner_code)
    && not (has_char b'/' owner_code)
    && not (text_eq owner_code (b'.' ∷ []))
    && not (text_eq owner_code dots)

abbrev pub set_state : Text → PrepareState → Context → Context
set_state owner_code state ctx = record ctx {
  prepare_states = put owner_code state ctx.prepare_states;
}

abbrev pub blank_plan : UnitKind → Text → Text → UnitPlan
blank_plan kind code owner_code = record {
  unit_kind = kind;
  code = code;
  owner_code = owner_code;
  request = none;
  matched_bytes = 0;
  prepare_state = none;
  short_circuit = none;
}

abbrev pub Planned : Type 0
Planned = Result Raised (Context × UnitPlan)

-- A plan that is settled with a state, which the context takes on too.
abbrev pub settled_prepare : Inspector → PrepareState → UnitPlan → Context → Planned
settled_prepare owner state plan ctx =
    ok (set_state owner.code state ctx, record plan { prepare_state = some state })

-- `marker.exists() and marker.read_text() == expected_sha256`
abbrev pub marker_holds : Surroundings → Text → Context → Bool
marker_holds env owner_code ctx = elim (get owner_code ctx.markers) [
  | none ↦ false
  | some sha256 ↦ text_eq sha256 (env.file_sha256 owner_code)
]

-- The files are matched: the cache, and the removal of the owner's folder with its marker.
abbrev pub plan_matched :
    Surroundings → Bool → Inspector → PrepareSpec → List Text → Context → Planned
plan_matched env force_rebuild owner prep matched ctx =
    let plan : UnitPlan = record (blank_plan prepare prep.code owner.code) {
      matched_bytes = matched_bytes_of env matched;
    } in
    if not (is_owner_name owner.code)
    then err illegal_owner
    else if not force_rebuild && marker_holds env owner.code ctx
    then settled_prepare owner hit plan ctx
    else ok (
      record ctx { markers = remove owner.code ctx.markers },
      record plan { request = some matched },
    )

-- _plan_prepare, on the matched files
abbrev pub plan_files :
    Surroundings → Bool → Inspector → PrepareSpec → Option (List Text) → Context → Planned
plan_files env force_rebuild owner prep none ctx =
    settled_prepare owner failed (blank_plan prepare prep.code owner.code) ctx
plan_files env force_rebuild owner prep (some matched) ctx =
    if is_nil matched
    then settled_prepare owner skip (blank_plan prepare prep.code owner.code) ctx
    else plan_matched env force_rebuild owner prep matched ctx

-- _plan_prepare
unfoldable pub plan_prepare : Surroundings → Bool → Inspector → PrepareSpec → Context → Planned
unfolding matched_files
plan_prepare env force_rebuild owner prep ctx =
    plan_files env force_rebuild owner prep (matched_files env owner) ctx

-- `outcome.prepare_state == PREPARE_REBUILT`
abbrev pub is_rebuilt : Option PrepareState → Bool
is_rebuilt (some rebuilt) = true
is_rebuilt _ = false

-- _finish_prepare. (The owner is registered: its plan was made from the registry.)
unfoldable pub finish_prepare : Surroundings → UnitPlan → UnitOutcome → Context → Context
finish_prepare env plan outcome ctx =
    if is_rebuilt outcome.prepare_state
    then record ctx {
      prepare_states = put plan.owner_code rebuilt ctx.prepare_states;
      markers = put plan.owner_code (env.file_sha256 plan.owner_code) ctx.markers;
    }
    else set_state plan.owner_code failed ctx

abbrev pub skip_result : Text → RuleResult
skip_result code = record {
  code = code;
  status = RuleStatus.skip;
  metrics = [];
  execution_order = 0;
}

-- `prepare_state in {PREPARE_SKIP, PREPARE_FAILED}`
abbrev pub is_unready : Option PrepareState → Bool
is_unready (some skip) = true
is_unready (some failed) = true
is_unready _ = false

abbrev pub own_state : Inspector → Context → Option PrepareState
own_state rule ctx = elim rule.prepare [
  | none ↦ none
  | some prep ↦ get rule.code ctx.prepare_states
]

abbrev pub inspect_matched : Surroundings → Inspector → UnitPlan → Option (List Text) → UnitPlan
inspect_matched env rule plan none = record plan { short_circuit = some (error_result rule.code) }
inspect_matched env rule plan (some matched) =
    let measured : UnitPlan = record plan { matched_bytes = matched_bytes_of env matched } in
    if not (is_blank rule.source_patterns) && is_nil matched
    then record measured { short_circuit = some (skip_result rule.code) }
    else record measured { request = some matched }

-- _plan_inspect of a rule that is found
unfoldable pub plan_rule : Surroundings → Inspector → Context → UnitPlan
unfolding matched_files
plan_rule env rule ctx =
    let state = own_state rule ctx in
    let plan : UnitPlan = record (blank_plan inspect rule.code rule.code) {
      prepare_state = state;
    } in
    if is_unready state
    then record plan { short_circuit = some (skip_result rule.code) }
    else inspect_matched env rule plan (matched_files env rule)

unfoldable pub plan_inspect : Surroundings → Executor → Text → Context → Result Raised UnitPlan
unfolding plan_rule
plan_inspect env ex code ctx = elim (get_rule ex.registry code) [
  | none ↦ err not_registered
  | some rule ↦ ok (plan_rule env rule ctx)
]
