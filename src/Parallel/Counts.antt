-- ===== src/Parallel/Counts.antt =====
-- Counts of the units in the steps of _run_parallel: each step moves units and loses none.
use mathlib.Core.Path.{ap}
use patrol_x.Base.{
  ℕ, ◌+◌, ◌≤◌, ◌≡◌, refl, ◌∙◌, arith, Bool, true, false, not, ltb, ◌==◌, List, [], ◌∷◌, ◌++◌,
  Option, none, some, of_bool, Bool-cases, inl, inr,
}
use patrol_x.Base.Lists.{keep, length, is_nil, count_if}
use patrol_x.Parallel.{
  UnitOutcome, Pending, Measured, Pools, Flight, settle_result, measured?, fill, note_result,
  collect, refill, settle_done, land,
}

-- How many entries have an index that a test picks.
abbrev pub picked {ℓ} : {A : Type ℓ} → (ℕ → Bool) → List (ℕ × A) → ℕ
picked p l = count_if (λ t. p t.0) l

pub picked-append {ℓ} :
    {A : Type ℓ} (p : ℕ → Bool) (xs ys : List (ℕ × A))
    → picked p (xs ++ ys) ≡ picked p xs + picked p ys
picked-append p [] ys = omega arith
picked-append p (x ∷ xs) ys = omega (arith, picked-append p xs ys)

pub picked-keep :
    (p : ℕ → Bool) (q : Pending → Bool) (xs : List Pending)
    → picked p (keep q xs) + picked p (keep (λ t. not (q t)) xs) ≡ picked p xs
picked-keep p q [] = omega arith
picked-keep p q (x ∷ xs) = elim (Bool-cases (q x)) [
  | inl chosen ↦ rw chosen (omega (arith, picked-keep p q xs))
  | inr left ↦ rw left (omega (arith, picked-keep p q xs))
]

-- All units of a state
abbrev pub units : (ℕ → Bool) → Flight → ℕ
units p s = picked p s.queue + picked p s.in_flight + picked p s.measured + picked p s.crashed

measured-picked : (i : ℕ) (m : Measured) → measured? i m ≡ true → 1 ≤ picked (λ j. j == i) m
measured-picked i [] h = absurd (ground arith)
measured-picked i ((j, o) ∷ m) h = let rest = measured-picked i m in ground arith

same_index : (i : ℕ) → (i == i) ≡ true
same_index i = ground arith

-- Where no index occurs twice, the test on the crashed units passes them all.
keep_fresh :
    (m : Measured) (l : List Pending)
    → ((i : ℕ) → picked (λ j. j == i) m + picked (λ j. j == i) l ≤ 1)
    → keep (λ t. not (measured? t.0 m)) l ≡ l
keep_fresh m [] h = refl
keep_fresh m (t ∷ rest) h = elim (Bool-cases (measured? t.0 m)) [
  | inl twice ↦
      let one = measured-picked t.0 m twice in
      let other : of_bool (t.0 == t.0) ≡ 1 = rw (same_index t.0) refl in
      absurd (omega (arith, one, other, h t.0))
  | inr once ↦ rw once (ap (t ∷◌) (keep_fresh m rest (λ i. omega (arith, h i))))
]

pub picked-is_nil : (p : ℕ → Bool) (l : List Pending) → is_nil l ≡ true → picked p l ≡ 0
picked-is_nil p [] h = refl
picked-is_nil p (t ∷ l) h = absurd (ground arith)

pub land-units :
    (pools : Pools) (window : ℕ) (s : Flight)
    → s.in_flight ≡ []
    → ((i : ℕ) → units (λ j. j == i) s ≤ 1)
    → (p : ℕ → Bool)
    → picked p (land pools window s).measured + picked p (land pools window s).unsettled ≡ units p s
land-units pools window s none_flying distinct p =
    let fresh = keep_fresh s.measured s.crashed (λ i. omega (arith, distinct i)) in
    let empty : picked p s.in_flight ≡ 0 = ap (picked p) none_flying in
    let all : picked p (keep (λ t. not (measured? t.0 s.measured)) s.crashed) ≡ picked p s.crashed =
      ap (picked p) fresh in
    omega (
      arith,
      all,
      empty,
      picked-append p (keep (λ t. not (measured? t.0 s.measured)) s.crashed) s.queue,
    )

module _ (pools : Pools) (window : ℕ) where
  pub picked-fill :
      (p : ℕ → Bool) (queue flying : List Pending)
      → picked p (fill pools window queue flying).0 + picked p (fill pools window queue flying).1
        ≡ picked p queue + picked p flying
  unfolding fill
  picked-fill p [] flying = refl
  picked-fill p (t ∷ queue) flying = elim (Bool-cases (ltb (length flying) window)) [
    | inr full ↦ rw full refl
    | inl room ↦ elim (Bool-cases (pools.accepts t)) [
      | inl taken ↦
          rw (room, taken)
            (omega (arith, picked-fill p queue (flying ++ t ∷ []), picked-append p flying (t ∷ [])))
      | inr raised ↦ rw (room, raised) refl
    ]
  ]

  note_result-kept :
      (t : Pending) (r : Option UnitOutcome) (s : Flight)
      → ((p : ℕ → Bool)
          → picked p (note_result pools window t r s).measured
              + picked p (note_result pools window t r s).crashed
            ≡ picked p s.measured + picked p s.crashed + of_bool (p t.0))
        × ((note_result pools window t r s).queue ≡ s.queue)
        × ((note_result pools window t r s).in_flight ≡ s.in_flight)
        × ((note_result pools window t r s).broken ≡ false
            → ((note_result pools window t r s).crashed ≡ s.crashed) × (s.broken ≡ false))
  note_result-kept t none s = (
    λ p. omega (arith, picked-append p s.crashed (t ∷ [])),
    refl,
    refl,
    λ h. absurd (ground arith),
  )
  note_result-kept t (some o) s =
      (λ p. omega (arith, picked-append p s.measured ((t.0, o) ∷ [])), refl, refl, λ h. (refl, h))

  -- A loop over settled futures puts each of them once among the measured or the crashed ones.
  pub collect-kept :
      (l : List Pending) (s : Flight)
      → ((p : ℕ → Bool)
          → picked p (collect pools window l s).measured
              + picked p (collect pools window l s).crashed
            ≡ picked p s.measured + picked p s.crashed + picked p l)
        × ((collect pools window l s).queue ≡ s.queue)
        × ((collect pools window l s).in_flight ≡ s.in_flight)
        × ((collect pools window l s).broken ≡ false
            → ((collect pools window l s).crashed ≡ s.crashed) × (s.broken ≡ false))
  unfolding collect
  collect-kept [] s = (λ p. omega arith, refl, refl, λ h. (refl, h))
  collect-kept (t ∷ rest) s =
      let (count, queue, flying, whole) = note_result-kept t (settle_result (pools.result t)) s in
      let (count', queue', flying', whole') =
        collect-kept rest (note_result pools window t (settle_result (pools.result t)) s) in
      (
        λ p. omega (arith, count p, count' p),
        queue' ∙ queue,
        flying' ∙ flying,
        λ h. let (same', ok') = whole' h in let (same, ok_) = whole ok' in (same' ∙ same, ok_),
      )

  pub refill-units : (p : ℕ → Bool) (s : Flight) → units p (refill pools window s) ≡ units p s
  refill-units p s = omega (arith, picked-fill p s.queue s.in_flight)

  pub settle_done-units :
      (p : ℕ → Bool) (s : Flight) → units p (settle_done pools window s) ≡ units p s
  settle_done-units p s =
      let (count, queue, flying, whole) =
        collect-kept (keep (pools.is_done s.in_flight) s.in_flight)
          (record s { in_flight = keep (λ t. not (pools.is_done s.in_flight t)) s.in_flight }) in
      rw (queue, flying)
        (omega (arith, count p, picked-keep p (pools.is_done s.in_flight) s.in_flight))

  pub settle_rest-units :
      (s : Flight)
      → (collect pools window s.in_flight (record s { in_flight = [] })).in_flight ≡ []
        × ((p : ℕ → Bool)
            → units p (collect pools window s.in_flight (record s { in_flight = [] })) ≡ units p s)
  settle_rest-units s =
      let (count, queue, flying, whole) = collect-kept s.in_flight (record s { in_flight = [] }) in
      (flying, λ p. rw (queue, flying) (omega (arith, count p)))
