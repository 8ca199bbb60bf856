-- ===== src/Retention.antt =====
-- app/services/retention.py: which task scenes are kept on disk, and the removal of the others. A
-- folder is the list of its entries, in the order of `sorted`, or none where it is not a directory.
-- `is_archive` and the task id that a package name gives are parameters, and so is whether the file
-- system lets an entry be removed; what a failed `rmtree` took with it is not modelled.
pub mod Guarantees
mod Tests
use patrol_x.Base.{
  ℕ, Bool, true, false, not, ◌&&◌, ◌||◌, ltb, List, [], ◌∷◌, ◌++◌, map, Option, none, some,
  if◌then◌else◌,
}
use patrol_x.Base.Lists.{any, keep, take}
use patrol_x.Base.Sort.{sort}
use patrol_x.Base.Text.{Text, codes, text_eq}
use patrol_x.Base.Text.{text_le}

abbrev pub max_retained_scenes : ℕ
max_retained_scenes = 50

-- TaskRecordView, as far as it is read here; a moment without a zone counts as UTC.
pub record TaskRecord : Type 0 where
  pub task_id : Text
  pub status : Text
  pub last_run_at : Option ℕ
  pub created_at : ℕ

-- _sort_key
abbrev pub or_else : Option ℕ → ℕ → ℕ
or_else none n = n
or_else (some m) n = m

abbrev pub started : TaskRecord → ℕ
started r = or_else r.last_run_at r.created_at

-- `sorted(..., key=_sort_key, reverse=True)`
unfoldable pub newer_first : TaskRecord → TaskRecord → Bool
unfolding text_le
newer_first a b =
    if ltb (started b) (started a)
    then true
    else if ltb (started a) (started b)
    then false
    else text_le b.task_id a.task_id

-- `record.status in _EXEMPT_STATUSES`
unfoldable pub is_exempt : TaskRecord → Bool
is_exempt r = text_eq r.status (codes "pending") || text_eq r.status (codes "running")

abbrev pub ids : List TaskRecord → List Text
ids rows = map (λ r. r.task_id) rows

unfoldable pub retained_task_ids : List TaskRecord → List Text
unfolding newer_first is_exempt sort
retained_task_ids rows =
    ids (take max_retained_scenes (sort newer_first rows)) ++ ids (keep is_exempt rows)

abbrev pub member : Text → List Text → Bool
member t set = any (text_eq t) set

pub data Kind : Type 0 where
  directory regular other : Kind

pub record Entry : Type 0 where
  pub name : Text
  pub kind : Kind

abbrev pub Folder : Type 0
Folder = Option (List Entry)

abbrev pub is_dir : Entry → Bool
is_dir e = elim e.kind [ directory ↦ true | _ ↦ false ]

abbrev pub is_file : Entry → Bool
is_file e = elim e.kind [ regular ↦ true | _ ↦ false ]

pub record CleanupResult : Type 0 where
  pub retained : List Text
  pub removed_directories : List Text
  pub removed_packages : List Text
  pub failed_paths : List Text
  pub skipped_unknown : List Text

-- What the loops work on: a folder's entries that stay, and the result so far.
abbrev pub Swept : Type 0
Swept = List Entry × CleanupResult

abbrev pub entry_stays : Entry → Swept → Swept
entry_stays e (stay, result) = (e ∷ stay, result)

pub record Surroundings : Type 0 where
  pub is_archive : Text → Bool
  pub task_id_for_package : Text → Text
  pub removable : Entry → Bool

module _ (known retained : List Text) (around : Surroundings) where
  abbrev pub remove_directory : Entry → CleanupResult → Bool × CleanupResult
  remove_directory e result =
      if around.removable e
      then (true, record result { removed_directories = result.removed_directories ++ e.name ∷ [] })
      else (false, record result { failed_paths = result.failed_paths ++ e.name ∷ [] })

  -- The loop over the children of `uploads` or of `output`.
  unfoldable pub sweep_directories : List Entry → CleanupResult → Swept
  sweep_directories [] result = ([], result)
  sweep_directories (e ∷ rest) result =
      let passed = entry_stays e (sweep_directories rest result) in
      let unknown = entry_stays e (
        sweep_directories rest
          (record result { skipped_unknown = result.skipped_unknown ++ e.name ∷ [] })) in
      let (removed, result') = remove_directory e result in
      let rest' = sweep_directories rest result' in
      if not (is_dir e)
      then passed
      else if not (member e.name known)
      then unknown
      else if member e.name retained
      then passed
      else if removed
      then rest'
      else entry_stays e rest'

  -- The loop over the packages in `uploads`.
  unfoldable pub sweep_packages : List Entry → CleanupResult → Swept
  sweep_packages [] result = ([], result)
  sweep_packages (e ∷ rest) result =
      let derived = around.task_id_for_package e.name in
      let passed = entry_stays e (sweep_packages rest result) in
      let removed =
        sweep_packages rest
          (record result { removed_packages = result.removed_packages ++ e.name ∷ [] }) in
      let failed = entry_stays e (
        sweep_packages rest
          (record result { failed_paths = result.failed_paths ++ e.name ∷ [] })) in
      if not (is_file e) || not (around.is_archive e.name)
      then passed
      else if not (member derived known) || member derived retained
      then passed
      else if around.removable e
      then removed
      else failed

abbrev pub over_folder :
    (List Entry → CleanupResult → Swept) → Folder → CleanupResult → Folder × CleanupResult
over_folder loop none result = (none, result)
over_folder loop (some entries) result =
    let (stay, result') = loop entries result in (some stay, result')

pub record Cleaned : Type 0 where
  pub uploads : Folder
  pub output : Folder
  pub result : CleanupResult

unfoldable pub cleanup : Surroundings → List TaskRecord → Folder → Folder → Cleaned
unfolding retained_task_ids sweep_directories sweep_packages
cleanup around rows uploads output =
    let known = ids rows in
    let retained = retained_task_ids rows in
    let nothing : CleanupResult = record {
      retained = retained;
      removed_directories = [];
      removed_packages = [];
      failed_paths = [];
      skipped_unknown = [];
    } in
    let (uploads', result) =
      over_folder (sweep_directories known retained around) uploads nothing in
    let (output', result') = over_folder (sweep_directories known retained around) output result in
    let (uploads'', result'') =
      over_folder (sweep_packages known retained around) uploads' result' in
    record { uploads = uploads''; output = output'; result = result'' }
