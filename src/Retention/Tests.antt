-- ===== src/Retention/Tests.antt =====
-- Two tasks, of which one runs.
use patrol_x.Base.{◌+◌, ◌≤◌, ◌≡◌, true, List, [], ◌∷◌, none, some}
use patrol_x.Base.Lists.{length, All, count_if}
use patrol_x.Base.Text.{codes}
use patrol_x.Retention.{
  TaskRecord, directory, regular, Folder, Surroundings, is_exempt, member, retained_task_ids,
  max_retained_scenes, cleanup,
}
use patrol_x.Retention.Guarantees.{
  directory_survives, package_survives, in_folder, cleanup_eq, retained_task_ids-bounds,
}

abbrev rows : List TaskRecord
rows =
    record { task_id = codes "a"; status = codes "running"; last_run_at = some 5; created_at = 1 }
    ∷ record { task_id = codes "b"; status = codes "done"; last_run_at = none; created_at = 9 }
    ∷ []

abbrev output : Folder
output = some (
    record { name = codes "a"; kind = directory }
    ∷ record { name = codes "x"; kind = directory }
    ∷ [])

abbrev uploads : Folder
uploads = some (record { name = codes "b.zip"; kind = regular } ∷ [])

abbrev around : Surroundings
around = record {
  is_archive = λ s. true;
  task_id_for_package = λ s. codes "b";
  removable = λ e. true;
}

cleanup_eq_example :
    ((cleanup around rows uploads output).output
      ≡ in_folder (directory_survives around rows) output)
    × ((cleanup around rows uploads output).uploads
        ≡ in_folder
            (package_survives around rows)
            (in_folder (directory_survives around rows) uploads))
cleanup_eq_example = cleanup_eq around rows uploads output

retained_task_ids-bounds_example :
    All (λ r. is_exempt r ≡ true → member r.task_id (retained_task_ids rows) ≡ true) rows
    × (length (retained_task_ids rows) ≤ max_retained_scenes + count_if is_exempt rows)
retained_task_ids-bounds_example = retained_task_ids-bounds rows
