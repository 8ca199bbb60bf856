-- ===== src/Parallel/Whole.antt =====
-- A run whose pool did not break leaves no unit behind.
use patrol_x.Base.{
  some_injective, either_branch, ℕ, zero, suc, ◌≤◌, ◌<◌, ◌≡◌, refl, sym, ◌∙◌, arith, true, false,
  not, ◌||◌, ltb, List, [], ◌∷◌, ◌++◌, Option, none, some, Bool-cases, inl, inr,
}
use mathlib.Core.Path.{ap}
use patrol_x.Base.Lists.{keep, length, is_nil}
use patrol_x.Parallel.{
  UnitOutcome, Pending, Pools, Flight, Landed, settle_result, fill, note_result, collect, refill,
  settle_done, fly, workers_for, departure, run_parallel,
}

module _ (pools : Pools) (window : ℕ) (roomy : 0 < window) where
  -- A window that stays empty, with no refusal, means an empty queue.
  fill-empty :
      (queue flying : List Pending)
      → (fill pools window queue flying).2 ≡ false
      → is_nil (fill pools window queue flying).1 ≡ true
      → (fill pools window queue flying).0 ≡ []
  unfolding fill
  fill-empty [] flying h idle = refl
  fill-empty (t ∷ queue) flying h idle = elim (Bool-cases (ltb (length flying) window)) [
    | inr full ↦ absurd (crowded flying full (rw full at idle))
    | inl room ↦ elim (Bool-cases (pools.accepts t)) [
      | inl taken ↦
          rw (room, taken)
            (fill-empty queue (flying ++ t ∷ []) (rw (room, taken) at h) (rw (room, taken) at idle))
      | inr raised ↦ absurd (ne (rw (room, raised) at h))
    ]
  ]
    where
      crowded : (l : List Pending) → ltb (length l) window ≡ false → is_nil l ≡ true → ⊥
      crowded [] full idle = ground arith
      crowded (x ∷ l) full idle = ground arith

      ne : true ≡ false → ⊥
      ne e = cc

  note_result-flags :
      (t : Pending) (r : Option UnitOutcome) (s : Flight)
      → s.broken ≡ s.degraded
      → (note_result pools window t r s).broken ≡ (note_result pools window t r s).degraded
  note_result-flags t none s h = refl
  note_result-flags t (some o) s h = h

  collect-flags :
      (l : List Pending) (s : Flight)
      → s.broken ≡ s.degraded
      → (collect pools window l s).broken ≡ (collect pools window l s).degraded
  unfolding collect
  collect-flags [] s h = h
  collect-flags (t ∷ rest) s h =
      collect-flags rest (note_result pools window t (settle_result (pools.result t)) s)
        (note_result-flags t (settle_result (pools.result t)) s h)

  -- What is degraded stays so.
  collect-degraded :
      (l : List Pending) (s : Flight)
      → s.degraded ≡ true
      → (collect pools window l s).degraded ≡ true
  unfolding collect
  collect-degraded [] s h = h
  collect-degraded (t ∷ rest) s h =
      collect-degraded rest (note_result pools window t (settle_result (pools.result t)) s)
        (stays (settle_result (pools.result t)))
    where
      stays : (r : Option UnitOutcome) → (note_result pools window t r s).degraded ≡ true
      stays none = refl
      stays (some o) = h

  fly-whole :
      (fuel : ℕ) (s : Flight) (r : Landed)
      → s.broken ≡ s.degraded
      → fly pools window fuel s ≡ some r
      → r.degraded ≡ false
      → r.unsettled ≡ []
  unfolding fly
  fly-whole zero s r flags h whole = absurd (ground arith)
  fly-whole (suc fuel) s r flags h whole =
      let filled : Flight = refill pools window s in
      let settled : Flight = settle_done pools window filled in
      let flags' : filled.broken ≡ filled.degraded =
        ap (λ b. b || (fill pools window s.queue s.in_flight).2) flags in
      let flags'' : settled.broken ≡ settled.degraded =
        collect-flags (keep (pools.is_done filled.in_flight) filled.in_flight)
          (record filled {
            in_flight = keep (λ t. not (pools.is_done filled.in_flight t)) filled.in_flight;
          })
          flags' in
      either_branch (is_nil filled.in_flight) h
        (λ idle ended.
          let same : filled.degraded ≡ false =
            ap (λ (x : Landed). x.degraded) (some_injective ended) ∙ whole in
          sym (ap (λ (x : Landed). x.unsettled) (some_injective ended))
          ∙ fill-empty s.queue s.in_flight (ground arith) idle)
        (λ busy h'.
          either_branch settled.broken h'
            (λ broke ended.
              let degraded : (collect pools window settled.in_flight
                    (record settled { in_flight = [] })).degraded
                  ≡ true =
                collect-degraded settled.in_flight (record settled { in_flight = [] })
                  (sym flags'' ∙ broke) in
              absurd (
                ne (sym degraded ∙ ap (λ (x : Landed). x.degraded) (some_injective ended) ∙ whole)))
            (λ onward h''. fly-whole fuel settled r flags'' h'' whole))
    where
      ne : true ≡ false → ⊥
      ne e = cc

pub run_parallel-whole :
    (pools : Pools) (max_workers : ℕ) (pending : List Pending) (r : Landed)
    → 1 ≤ max_workers
    → 0 < length pending
    → run_parallel pools max_workers pending ≡ some r
    → r.degraded ≡ false
    → r.unsettled ≡ []
unfolding run_parallel
run_parallel-whole pools max_workers pending r workers some_pending h whole =
    fly-whole pools (workers_for max_workers (length pending)) (omega arith) (suc (length pending))
      (departure pending) r refl h whole
