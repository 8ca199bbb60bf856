-- ===== src/Alarm/Recurrence/Rapid.antt =====
-- Rapid recurrence is what it says: some stretch of an hour holds three alarms.
use patrol_x.Base.{
  ℕ, ◌+◌, ◌-◌, ◌≤◌, ◌≡◌, ◌↔◌, refl, Bool, true, ◌&&◌, leb, List, [], ◌∷◌, arith, Bool-cases, inl,
  inr,
}
use patrol_x.Base.Lists.{length, count_if, count_if-le}
use patrol_x.Base.Sort.{sort}
use patrol_x.Base.Sort.Laws.{IsSorted, sort-IsSorted, count_if-sort}
use patrol_x.Alarm.Records.{AlarmRecord, Moment}
use patrol_x.Alarm.Parse.{raised_times}
use patrol_x.Alarm.Recurrence.Flags.{window, window_within, rapid_recurrence}

-- The moment stands in the stretch that begins at `lo`.
abbrev pub in_window : ℕ → Moment → Bool
in_window lo t = leb lo t && leb t (lo + window)

-- The first of a sorted list is in the window if any is.
first_in_window :
    (lo t : ℕ) (ts : List Moment)
    → IsSorted (t ∷ ts)
    → 1 ≤ count_if (in_window lo) (t ∷ ts)
    → t ≤ lo + window
first_in_window lo t [] s h = ground arith
first_in_window lo t (u ∷ ts) s h = ground (arith, first_in_window lo u ts s.1, (s.0).0)

within_of_count :
    (lo : ℕ) (ts : List Moment)
    → IsSorted ts
    → 3 ≤ count_if (in_window lo) ts
    → window_within ts ≡ true
unfolding window_within
within_of_count lo [] s h = absurd (omega arith)
within_of_count lo (a ∷ []) s h = absurd (ground arith)
within_of_count lo (a ∷ b ∷ []) s h = absurd (ground arith)
within_of_count lo (a ∷ b ∷ c ∷ rest) s h = elim (Bool-cases (in_window lo a)) [
  | inl inside ↦
      let last : c ≤ lo + window = first_in_window lo c rest s.1.1 (ground arith) in ground arith
  | inr outside ↦
      let later : window_within (b ∷ c ∷ rest) ≡ true =
        within_of_count lo (b ∷ c ∷ rest) s.1 (ground arith) in
      ground arith
]

count_of_within :
    (ts : List Moment)
    → IsSorted ts
    → window_within ts ≡ true
    → (lo : ℕ) × (3 ≤ count_if (in_window lo) ts)
unfolding window_within
count_of_within [] s h = absurd (ground arith)
count_of_within (a ∷ []) s h = absurd (ground arith)
count_of_within (a ∷ b ∷ []) s h = absurd (ground arith)
count_of_within (a ∷ b ∷ c ∷ rest) s h = elim (Bool-cases (leb (c - a) window)) [
  | inl near ↦ let ab : a ≤ b = (s.0).0 in let bc : b ≤ c = (s.1.0).0 in (a, ground arith)
  | inr far ↦
      let (lo, many) = count_of_within (b ∷ c ∷ rest) s.1 (rw far at h) in
      (lo, ground (arith, many))
]

length-raised_times : (records : List AlarmRecord) → length (raised_times records) ≡ length records
length-raised_times [] = refl
length-raised_times (r ∷ rest) = omega (arith, length-raised_times rest)

-- How many alarms of a group were raised in the hour that begins at `lo`.
abbrev pub raised_within : ℕ → List AlarmRecord → ℕ
raised_within lo records = count_if (in_window lo) (raised_times records)

rapid_of_count :
    (records : List AlarmRecord) (lo : ℕ)
    → 3 ≤ raised_within lo records
    → rapid_recurrence records ≡ true
unfolding rapid_recurrence
rapid_of_count records lo h =
    let sorted : window_within (sort leb (raised_times records)) ≡ true =
      within_of_count lo _ (sort-IsSorted (raised_times records)) (rw count_if-sort h) in
    let enough : 3 ≤ length records =
      omega
        (arith, count_if-le (in_window lo) (raised_times records), length-raised_times records) in
    ground arith

-- A group is flagged as rapidly recurring exactly when some stretch of an hour, both ends
-- included, holds at least three of its alarms.
pub rapid_recurrence_iff :
    (records : List AlarmRecord)
    → (rapid_recurrence records ≡ true) ↔ ((lo : ℕ) × (3 ≤ raised_within lo records))
rapid_recurrence_iff records = (λ h. found h, λ (lo, h). rapid_of_count records lo h)
  where
    found : rapid_recurrence records ≡ true → (lo : ℕ) × (3 ≤ raised_within lo records)
    found h =
        let (lo, many) =
          count_of_within (sort leb (raised_times records)) (sort-IsSorted (raised_times records))
            (unfold rapid_recurrence in ground arith) in
        (lo, rw count_if-sort at many)
