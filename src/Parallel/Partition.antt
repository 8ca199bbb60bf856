-- ===== src/Parallel/Partition.antt =====
-- No unit of a stage is lost or run twice by the window of futures.
use mathlib.Core.Path.{ap, subst}
use patrol_x.Base.{
  some_injective, either_branch, ℕ, zero, suc, ◌+◌, ◌≤◌, ◌<◌, ◌≡◌, refl, ◌∙◌, arith, Bool, true,
  false, not, ◌==◌, List, [], ◌∷◌, ◌++◌, none, some,
}
use patrol_x.Base.Lists.{keep, length, is_nil}
use patrol_x.Parallel.{
  Pending, Pools, Flight, Landed, collect, refill, settle_done, fly, run_parallel, recover_units,
  departure, workers_for,
}
use patrol_x.Parallel.Counts.{
  picked, units, picked-append, picked-keep, picked-is_nil, land-units, picked-fill, collect-kept,
  refill-units, settle_done-units, settle_rest-units,
}

module _ (pools : Pools) (window : ℕ) where
  fly-units :
      (fuel : ℕ) (s : Flight) (r : Landed)
      → s.crashed ≡ []
      → ((i : ℕ) → units (λ j. j == i) s ≤ 1)
      → fly pools window fuel s ≡ some r
      → (p : ℕ → Bool) → picked p r.measured + picked p r.unsettled ≡ units p s
  unfolding fly
  fly-units zero s r none_crashed distinct h p = absurd (ground arith)
  fly-units (suc fuel) s r none_crashed distinct h p =
      let filled : Flight = refill pools window s in
      let settled : Flight = settle_done pools window filled in
      let rest : Flight =
        collect pools window settled.in_flight (record settled { in_flight = [] }) in
      let total : (q : ℕ → Bool) → units q settled ≡ units q s =
        λ q. settle_done-units pools window q filled ∙ refill-units pools window q s in
      either_branch (is_nil filled.in_flight) h
        (λ idle ended.
          let no_crash : picked p s.crashed ≡ 0 = ap (picked p) none_crashed in
          subst (λ (x : Landed). picked p x.measured + picked p x.unsettled ≡ units p s)
            (some_injective ended)
            (omega (
              arith,
              refill-units pools window p s,
              picked-is_nil p filled.in_flight idle,
              no_crash,
            )))
        (λ busy h'.
          either_branch settled.broken h'
            (λ broke ended.
              let (flying, same) = settle_rest-units pools window settled in
              subst (λ (x : Landed). picked p x.measured + picked p x.unsettled ≡ units p s)
                (some_injective ended)
                (land-units pools window rest flying
                    (λ i. rw (same (λ j. j == i), total (λ j. j == i)) (distinct i)) p
                  ∙ same p
                  ∙ total p))
            (λ onward h''.
              let (count, queue, flying, kept) =
                collect-kept pools window (keep (pools.is_done filled.in_flight) filled.in_flight)
                  (record filled {
                    in_flight = keep (λ t. not (pools.is_done filled.in_flight t)) filled.in_flight;
                  }) in
              let (same, ok_) = kept onward in
              fly-units fuel settled r (same ∙ none_crashed)
                (λ i. rw (total (λ j. j == i)) (distinct i)) h'' p
              ∙ total p))

abbrev everyone : ℕ → Bool
everyone i = true

picked-everyone : (l : List Pending) → picked everyone l ≡ length l
picked-everyone [] = refl
picked-everyone (t ∷ l) = omega (arith, picked-everyone l)

is_nil-length : (l : List Pending) → is_nil l ≡ false → 0 < length l
is_nil-length [] h = absurd (ground arith)
is_nil-length (t ∷ l) h = omega arith

fly_ends :
    (pools : Pools) (window fuel : ℕ) (s : Flight)
    → ((l : List Pending) → 0 < length l → 0 < length (keep (pools.is_done l) l))
    → picked everyone s.queue + picked everyone s.in_flight < fuel
    → ¬ (fly pools window fuel s ≡ none)
unfolding fly
fly_ends pools window zero s waits enough h = omega (arith, enough)
fly_ends pools window (suc fuel) s waits enough h =
    let filled : Flight = refill pools window s in
    let settled : Flight = settle_done pools window filled in
    either_branch (is_nil filled.in_flight) h (λ idle e. absurd (ground arith))
      (λ busy h'.
        either_branch settled.broken h' (λ broke e. absurd (ground arith))
          (λ onward h''.
            let gone : List Pending = keep (pools.is_done filled.in_flight) filled.in_flight in
            let (count, queue, flying, kept) = collect-kept pools window gone (record filled {
              in_flight = keep (λ t. not (pools.is_done filled.in_flight t)) filled.in_flight;
            }) in
            let some_done = waits filled.in_flight (is_nil-length filled.in_flight busy) in
            fly_ends pools window fuel settled waits
              (rw (queue, flying)
                (omega (
                  arith,
                  enough,
                  some_done,
                  picked-everyone gone,
                  picked-keep everyone (pools.is_done filled.in_flight) filled.in_flight,
                  picked-fill pools window everyone s.queue s.in_flight,
                )))
              h''))

-- Where `wait` gives at least one future of a window that is not empty, the loop ends.
pub run_parallel_ends :
    (pools : Pools) (max_workers : ℕ) (pending : List Pending)
    → ((l : List Pending) → 0 < length l → 0 < length (keep (pools.is_done l) l))
    → ¬ (run_parallel pools max_workers pending ≡ none)
unfolding run_parallel
run_parallel_ends pools max_workers pending waits =
    fly_ends pools (workers_for max_workers (length pending)) (suc (length pending))
      (departure pending) waits (omega (arith, picked-everyone pending))

picked-recover_units :
    (pools : Pools) (p : ℕ → Bool) (left : List Pending)
    → picked p (recover_units pools left) ≡ picked p left
unfolding recover_units
picked-recover_units pools p [] = refl
picked-recover_units pools p (t ∷ rest) = omega (arith, picked-recover_units pools p rest)

-- When the loop ends, each pending unit, however the futures ended and whenever the pool broke, has
-- either one outcome or is left, once, for the recovery, and with the outcomes of the recovery each
-- unit has one: for any choice of indices, as many of them are among the outcomes as were pending.
-- The indices are taken to differ.
pub run_parallel_partition :
    (pools : Pools) (max_workers : ℕ) (pending : List Pending) (r : Landed) (p : ℕ → Bool)
    → ((i : ℕ) → picked (λ j. j == i) pending ≤ 1)
    → run_parallel pools max_workers pending ≡ some r
    → (picked p r.measured + picked p r.unsettled ≡ picked p pending)
      × (picked p (r.measured ++ recover_units pools r.unsettled) ≡ picked p pending)
unfolding run_parallel
run_parallel_partition pools max_workers pending r p distinct h =
    let parts =
      fly-units pools (workers_for max_workers (length pending)) (suc (length pending))
        (departure pending) r refl (λ i. omega (arith, distinct i)) h p in
    (
      omega (arith, parts),
      omega (
        arith,
        parts,
        picked-append p r.measured (recover_units pools r.unsettled),
        picked-recover_units pools p r.unsettled,
      ),
    )
