-- ===== src/Alarm/Groups/Partition.antt =====
-- Grouping loses no record: any sum over the groups is the sum over the records.
use patrol_x.Base.{ℕ, ◌+◌, ◌<◌, ◌≡◌, List, [], ◌∷◌, arith, Bool-cases, inl, inr}
use patrol_x.Base.Lists.{sum_of, sum_of-append, All, length, length-append}
use patrol_x.Alarm.Records.{AlarmRecord}
use patrol_x.Alarm.Groups.{Key, key_eq, Buckets, add_to, group_onto}

-- A measure of the records over all buckets.
abbrev pub over : (AlarmRecord → ℕ) → Buckets → ℕ
over f b = sum_of (λ (k : Key × List AlarmRecord). sum_of f k.1) b

over-add_to :
    (f : AlarmRecord → ℕ) (key : Key) (r : AlarmRecord) (b : Buckets)
    → over f (add_to key r b) ≡ over f b + f r
unfolding add_to
over-add_to f key r [] = omega arith
over-add_to f key r ((k, rs) ∷ rest) = elim (Bool-cases (key_eq k key)) [
  | inl same ↦ rw same (omega (arith, sum_of-append f rs (r ∷ [])))
  | inr other ↦ rw other (omega (arith, over-add_to f key r rest))
]

pub over-group_onto :
    (f : AlarmRecord → ℕ) (key : AlarmRecord → Key) (b : Buckets) (records : List AlarmRecord)
    → over f (group_onto key b records) ≡ over f b + sum_of f records
unfolding group_onto
over-group_onto f key b [] = omega arith
over-group_onto f key b (r ∷ rest) =
    omega (arith, over-group_onto f key (add_to (key r) r b) rest, over-add_to f (key r) r b)

-- Every bucket has a record.
abbrev pub IsFull : Key × List AlarmRecord → Type 0
IsFull (k, rs) = 0 < length rs

add_to-IsFull :
    (key : Key) (r : AlarmRecord) (b : Buckets) → All IsFull b → All IsFull (add_to key r b)
unfolding add_to
add_to-IsFull key r [] h = (omega arith, tt)
add_to-IsFull key r ((k, rs) ∷ rest) h = elim (Bool-cases (key_eq k key)) [
  | inl same ↦ rw same (omega (arith, length-append rs (r ∷ [])), h.1)
  | inr other ↦ rw other (h.0, add_to-IsFull key r rest h.1)
]

pub group_onto-IsFull :
    (key : AlarmRecord → Key) (b : Buckets) (records : List AlarmRecord)
    → All IsFull b
    → All IsFull (group_onto key b records)
unfolding group_onto
group_onto-IsFull key b [] h = h
group_onto-IsFull key b (r ∷ rest) h =
    group_onto-IsFull key (add_to (key r) r b) rest (add_to-IsFull (key r) r b h)
