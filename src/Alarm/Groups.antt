-- ===== src/Alarm/Groups.antt =====
-- Records grouped under keys, and the parts of a summary that both alarm rules make of a group.
pub mod Partition
use patrol_x.Base.{
  ℕ, suc, ◌+◌, Bool, true, false, ◌&&◌, ltb, ◌==◌, List, [], ◌∷◌, ◌++◌, Option, none, some,
  if◌then◌else◌,
}
use patrol_x.Base.Lists.{any, count_if}
use patrol_x.Base.Sort.{sort}
use patrol_x.Base.Text.{Text, text_eq}
use patrol_x.Alarm.Records.{AlarmRecord, Severity, critical, high, medium, low, unknown}
use patrol_x.Base.Text.{text_le}

abbrev pub Key : Type 0
Key = List Text

abbrev pub key_eq : Key → Key → Bool
key_eq [] [] = true
key_eq (s ∷ a) (t ∷ b) = text_eq s t && key_eq a b
key_eq _ _ = false

abbrev pub Buckets : Type 0
Buckets = List (Key × List AlarmRecord)

-- `buckets.setdefault(key, []).append(record)`: a dictionary keeps the order of first insertion.
unfoldable pub add_to : Key → AlarmRecord → Buckets → Buckets
add_to key r [] = (key, r ∷ []) ∷ []
add_to key r ((k, rs) ∷ rest) =
    if key_eq k key then (k, rs ++ r ∷ []) ∷ rest else (k, rs) ∷ add_to key r rest

-- The loop over the records.
unfoldable pub group_onto : (AlarmRecord → Key) → Buckets → List AlarmRecord → Buckets
unfolding add_to
group_onto key b [] = b
group_onto key b (r ∷ rest) = group_onto key (add_to (key r) r b) rest

-- _SEVERITY_RANK
abbrev pub severity_rank : Severity → ℕ
severity_rank critical = 0
severity_rank high = 1
severity_rank medium = 2
severity_rank low = 3
severity_rank unknown = 4

abbrev pub SeverityCounts : Type 0
SeverityCounts = Severity → ℕ

abbrev pub in_severity : Severity → AlarmRecord → Bool
in_severity s r = severity_rank r.severity == severity_rank s

abbrev pub count_severities : List AlarmRecord → SeverityCounts
count_severities records s = count_if (in_severity s) records

abbrev pub first_counted : SeverityCounts → List Severity → Severity
first_counted counts [] = unknown
first_counted counts (s ∷ rest) = if ltb 0 (counts s) then s else first_counted counts rest

abbrev pub severity_order : List Severity
severity_order = critical ∷ high ∷ medium ∷ low ∷ unknown ∷ []

-- _highest_severity: the least rank that is counted.
unfoldable pub highest_severity : SeverityCounts → Severity
highest_severity counts = first_counted counts severity_order

-- `{(record.source_file, record.line_no) for record in records}`, sorted
abbrev pub Ref : Type 0
Ref = Text × ℕ

abbrev pub ref_eq : Ref → Ref → Bool
ref_eq (f, n) (g, m) = text_eq f g && n == m

abbrev pub ref_le : Ref → Ref → Bool
ref_le (f, n) (g, m) = if text_eq f g then (if ltb m n then false else true) else text_le f g

unfoldable pub distinct_refs : List AlarmRecord → List Ref
distinct_refs [] = []
distinct_refs (r ∷ rest) =
    let refs = distinct_refs rest in
    if any (ref_eq (r.source_file, r.line_no)) refs then refs else (r.source_file, r.line_no) ∷ refs

unfoldable pub source_refs : List AlarmRecord → List Ref
unfolding distinct_refs sort text_le
source_refs records = sort ref_le (distinct_refs records)
