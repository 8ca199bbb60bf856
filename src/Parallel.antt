-- ===== src/Parallel.antt =====
-- _run_parallel, _recover_units and _settle of app/services/parallel.py: the units of a stage in a
-- window of futures, and what is run again when the pool breaks.
pub mod Counts
pub mod Partition
pub mod Whole
pub mod Stage
mod Tests
use patrol_x.Base.{
  ℕ, zero, suc, ◌+◌, min, Bool, true, false, not, ◌&&◌, ◌||◌, ltb, ◌==◌, List, [], ◌∷◌, ◌++◌,
  Option, none, some, if◌then◌else◌,
}
use patrol_x.Base.Lists.{any, keep, length, is_nil}
use patrol_x.Base.Text.{Text}
use patrol_x.Rules.{RuleResult, error, UnitKind, prepare, inspect, PrepareState, failed}

-- UnitPlan: of the request only the files are read here.
pub record UnitPlan : Type 0 where
  pub unit_kind : UnitKind
  pub code : Text
  pub owner_code : Text
  pub request : Option (List Text)
  pub matched_bytes : ℕ
  pub prepare_state : Option PrepareState
  pub short_circuit : Option RuleResult

-- UnitPlan.needs_worker
abbrev pub needs_worker : UnitPlan → Bool
needs_worker plan = elim plan.request [ none ↦ false | some files ↦ true ]

-- UnitOutcome: `crashed` is its status.
pub record UnitOutcome : Type 0 where
  pub unit_kind : UnitKind
  pub code : Text
  pub crashed : Bool
  pub result : Option RuleResult
  pub prepare_state : Option PrepareState

-- An element of `pending`: its index and its plan.
abbrev pub Pending : Type 0
Pending = ℕ × UnitPlan

abbrev pub Measured : Type 0
Measured = List (ℕ × UnitOutcome)

-- What the process pools do: whether `submit` takes a unit (or raises BrokenProcessPool), which
-- futures of a window `wait` gives as done, what a future gives (none: it raises), and what the unit
-- gives in a recovery pool.
pub record Pools : Type 0 where
  pub accepts : Pending → Bool
  pub is_done : List Pending → Pending → Bool
  pub result : Pending → Option UnitOutcome
  pub recovered : Pending → Option UnitOutcome

-- The variables of _run_parallel, and `self._broken`.
pub record Flight : Type 0 where
  pub queue : List Pending
  pub in_flight : List Pending
  pub measured : Measured
  pub crashed : List Pending
  pub broken : Bool
  pub degraded : Bool

-- What _run_parallel returns.
pub record Landed : Type 0 where
  pub measured : Measured
  pub unsettled : List Pending
  pub degraded : Bool

-- _settle
abbrev pub settle_result : Option UnitOutcome → Option UnitOutcome
settle_result none = none
settle_result (some o) = if o.crashed then none else some o

abbrev pub measured? : ℕ → Measured → Bool
measured? index m = any (λ (i, o). i == index) m

module _ (pools : Pools) (window : ℕ) where
  -- The inner `while`: the queue and the window that it leaves, and whether `submit` raised.
  unfoldable pub fill : List Pending → List Pending → List Pending × List Pending × Bool
  fill [] flying = ([], flying, false)
  fill (t ∷ queue) flying =
      let onward = fill queue (flying ++ t ∷ []) in
      if not (ltb (length flying) window)
      then (t ∷ queue, flying, false)
      else if pools.accepts t
      then onward
      else (t ∷ queue, flying, true)

  abbrev pub note_result : Pending → Option UnitOutcome → Flight → Flight
  note_result t none s = record s { crashed = s.crashed ++ t ∷ []; broken = true; degraded = true }
  note_result t (some o) s = record s { measured = s.measured ++ (t.0, o) ∷ [] }

  -- A loop over settled futures. (Where the pool is broken already, the flags stay what they are.)
  unfoldable pub collect : List Pending → Flight → Flight
  collect [] s = s
  collect (t ∷ rest) s = collect rest (note_result t (settle_result (pools.result t)) s)

  abbrev pub refill : Flight → Flight
  refill s =
      let (queue, flying, raised) = fill s.queue s.in_flight in
      record s {
        queue = queue;
        in_flight = flying;
        broken = s.broken || raised;
        degraded = s.degraded || raised;
      }

  abbrev pub settle_done : Flight → Flight
  settle_done s =
      collect (keep (pools.is_done s.in_flight) s.in_flight)
        (record s { in_flight = keep (λ t. not (pools.is_done s.in_flight t)) s.in_flight })

  abbrev pub land : Flight → Landed
  land s = record {
    measured = s.measured;
    unsettled = keep (λ t. not (measured? t.0 s.measured)) s.crashed ++ s.queue;
    degraded = s.degraded;
  }

  -- The outer `while`, on fuel: none if it is used up.
  unfoldable pub fly : ℕ → Flight → Option Landed
  unfolding fill collect
  fly zero s = none
  fly (suc fuel) s =
      let filled = refill s in
      let settled = settle_done filled in
      let onward = fly fuel settled in
      if is_nil filled.in_flight
      then some (record {
        measured = filled.measured;
        unsettled = filled.queue;
        degraded = filled.degraded;
      })
      else if settled.broken
      then some (land (collect settled.in_flight (record settled { in_flight = [] })))
      else onward

-- ParallelPolicy.workers_for
abbrev pub workers_for : ℕ → ℕ → ℕ
workers_for max_workers pending = min max_workers pending

abbrev pub departure : List Pending → Flight
departure pending = record {
  queue = pending;
  in_flight = [];
  measured = [];
  crashed = [];
  broken = false;
  degraded = false;
}

-- _run_parallel: each round but the last takes a unit out of the queue and the window.
unfoldable pub run_parallel : Pools → ℕ → List Pending → Option Landed
unfolding fly
run_parallel pools max_workers pending =
    fly pools (workers_for max_workers (length pending)) (suc (length pending)) (departure pending)

-- build_result with status ERROR
abbrev pub error_result : Text → RuleResult
error_result code = record { code = code; status = error; metrics = []; execution_order = 0 }

-- _crash_outcome
abbrev pub crash_of : UnitKind → Text → UnitOutcome
crash_of prepare code = record {
  unit_kind = prepare;
  code = code;
  crashed = true;
  result = none;
  prepare_state = some failed;
}
crash_of inspect code = record {
  unit_kind = inspect;
  code = code;
  crashed = true;
  result = some (error_result code);
  prepare_state = none;
}

abbrev pub crash_outcome : UnitPlan → UnitOutcome
crash_outcome plan = crash_of plan.unit_kind plan.code

abbrev pub recover_one : UnitPlan → Option UnitOutcome → UnitOutcome
recover_one plan none = crash_outcome plan
recover_one plan (some o) = o

-- _recover_units
unfoldable pub recover_units : Pools → List Pending → Measured
recover_units pools [] = []
recover_units pools (t ∷ rest) =
    (t.0, recover_one t.1 (pools.recovered t)) ∷ recover_units pools rest
