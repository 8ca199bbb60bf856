-- ===== src/Retention/Guarantees.antt =====
-- Which scenes outlive a cleanup.
use patrol_x.Base.{
  ◌+◌, ◌≤◌, ◌≡◌, refl, ◌∙◌, sym, arith, Bool, true, not, ◌&&◌, List, [], ◌∷◌, ◌++◌, none, some,
  Bool-cases, inl, inr,
}
use mathlib.Core.Path.{ap, subst}
use patrol_x.Base.Lists.{
  keep, take, length, length-map, length-append, length-take-le, length-keep, count_if, All,
}
use patrol_x.Base.Sort.{sort}
use patrol_x.Base.Text.{Text, text_eq_iff}
use patrol_x.Retention.{
  TaskRecord, max_retained_scenes, newer_first, is_exempt, ids, retained_task_ids, member, Entry,
  Folder, is_dir, is_file, CleanupResult, Surroundings, sweep_directories, sweep_packages,
  over_folder, cleanup,
}

-- A task whose scene may go: it is known and not retained.
abbrev pub is_stale : List TaskRecord → Text → Bool
is_stale rows t = member t (ids rows) && not (member t (retained_task_ids rows))

abbrev pub directory_survives : Surroundings → List TaskRecord → Entry → Bool
directory_survives around rows e = not (is_dir e && is_stale rows e.name && around.removable e)

abbrev pub package_survives : Surroundings → List TaskRecord → Entry → Bool
package_survives around rows e = not (
    is_file e
    && around.is_archive e.name
    && is_stale rows (around.task_id_for_package e.name)
    && around.removable e)

abbrev pub in_folder : (Entry → Bool) → Folder → Folder
in_folder p none = none
in_folder p (some entries) = some (keep p entries)

module _ (around : Surroundings) (rows : List TaskRecord) where
  sweep_directories_eq :
      (entries : List Entry) (result : CleanupResult)
      → (sweep_directories (ids rows) (retained_task_ids rows) around entries result).0
        ≡ keep (directory_survives around rows) entries
  unfolding sweep_directories
  sweep_directories_eq [] result = refl
  sweep_directories_eq (e ∷ rest) result = elim (Bool-cases (is_dir e)) [
    | inr kept ↦ rw kept (ap (e ∷◌) (sweep_directories_eq rest _))
    | inl folder ↦ elim (Bool-cases (member e.name (ids rows))) [
      | inr unknown ↦ rw (folder, unknown) (ap (e ∷◌) (sweep_directories_eq rest _))
      | inl known ↦ elim (Bool-cases (member e.name (retained_task_ids rows))) [
        | inl retained ↦ rw (folder, known, retained) (ap (e ∷◌) (sweep_directories_eq rest _))
        | inr stale ↦ elim (Bool-cases (around.removable e)) [
          | inl gone ↦ rw (folder, known, stale, gone) (sweep_directories_eq rest _)
          | inr stuck ↦ rw (folder, known, stale, stuck) (ap (e ∷◌) (sweep_directories_eq rest _))
        ]
      ]
    ]
  ]

  sweep_packages_eq :
      (entries : List Entry) (result : CleanupResult)
      → (sweep_packages (ids rows) (retained_task_ids rows) around entries result).0
        ≡ keep (package_survives around rows) entries
  unfolding sweep_packages
  sweep_packages_eq [] result = refl
  sweep_packages_eq (e ∷ rest) result = elim (Bool-cases (is_file e)) [
    | inr kept ↦ rw kept (ap (e ∷◌) (sweep_packages_eq rest _))
    | inl file ↦ elim (Bool-cases (around.is_archive e.name)) [
      | inr plain ↦ rw (file, plain) (ap (e ∷◌) (sweep_packages_eq rest _))
      | inl packed ↦ elim (Bool-cases (member (around.task_id_for_package e.name) (ids rows))) [
        | inr unknown ↦ rw (file, packed, unknown) (ap (e ∷◌) (sweep_packages_eq rest _))
        | inl known ↦
            elim (Bool-cases
              (member (around.task_id_for_package e.name) (retained_task_ids rows))) [
                | inl retained ↦
                    rw (file, packed, known, retained) (ap (e ∷◌) (sweep_packages_eq rest _))
                | inr stale ↦ elim (Bool-cases (around.removable e)) [
                  | inl gone ↦ rw (file, packed, known, stale, gone) (sweep_packages_eq rest _)
                  | inr stuck ↦
                      rw (file, packed, known, stale, stuck) (ap (e ∷◌) (sweep_packages_eq rest _))
                ]
              ]
      ]
    ]
  ]

  over_folder-in_folder :
      (p : Entry → Bool) (loop : List Entry → CleanupResult → List Entry × CleanupResult)
      (folder : Folder) (result : CleanupResult)
      → ((entries : List Entry) (r : CleanupResult) → (loop entries r).0 ≡ keep p entries)
      → (over_folder loop folder result).0 ≡ in_folder p folder
  over_folder-in_folder p loop none result h = refl
  over_folder-in_folder p loop (some entries) result h = ap some (h entries result)

-- A cleanup leaves exactly these entries: in `output`, all but the directories of known tasks that
-- are not retained; in `uploads`, all but those and the packages of known tasks that are not
-- retained. Where the file system refuses to remove an entry, the entry stays too.
pub cleanup_eq :
    (around : Surroundings) (rows : List TaskRecord) (uploads output : Folder)
    → ((cleanup around rows uploads output).output
        ≡ in_folder (directory_survives around rows) output)
      × ((cleanup around rows uploads output).uploads
          ≡ in_folder
              (package_survives around rows)
              (in_folder (directory_survives around rows) uploads))
unfolding cleanup
cleanup_eq around rows uploads output = (
  over_folder-in_folder around rows (directory_survives around rows) _ output _
      (sweep_directories_eq around rows),
  over_folder-in_folder around rows (package_survives around rows) _ _ _
        (sweep_packages_eq around rows)
      ∙ ap (in_folder (package_survives around rows)) (
          over_folder-in_folder around rows (directory_survives around rows) _ uploads _
            (sweep_directories_eq around rows)),
)

member-append-right :
    (t : Text) (xs ys : List Text) → member t ys ≡ true → member t (xs ++ ys) ≡ true
member-append-right t [] ys h = h
member-append-right t (x ∷ xs) ys h = let rest = member-append-right t xs ys h in ground arith

Kept : List Text → TaskRecord → Type 0
Kept set r = is_exempt r ≡ true → member r.task_id set ≡ true

Kept-All :
    (set set' : List Text) (rows : List TaskRecord)
    → ((t : Text) → member t set ≡ true → member t set' ≡ true)
    → All (Kept set) rows
    → All (Kept set') rows
unfolding Kept
Kept-All set set' [] grows h = tt
Kept-All set set' (r ∷ rest) grows h =
    (λ e. grows r.task_id (h.0 e), Kept-All set set' rest grows h.1)

exempt-Kept : (rows : List TaskRecord) → All (Kept (ids (keep is_exempt rows))) rows
unfolding Kept
exempt-Kept [] = tt
exempt-Kept (r ∷ rest) = elim (Bool-cases (is_exempt r)) [
  | inl exempt ↦
      let all : keep is_exempt (r ∷ rest) ≡ r ∷ keep is_exempt rest = rw exempt refl in
      subst (λ l. All (Kept (ids l)) (r ∷ rest)) (sym all)
        (
          λ e. rw ((text_eq_iff r.task_id r.task_id).1 refl) refl,
          Kept-All (ids (keep is_exempt rest)) (r.task_id ∷ ids (keep is_exempt rest)) rest
              (λ t. member-append-right t (r.task_id ∷ []) (ids (keep is_exempt rest)))
              (exempt-Kept rest),
        )
  | inr plain ↦
      let all : keep is_exempt (r ∷ rest) ≡ keep is_exempt rest = rw plain refl in
      subst (λ l. All (Kept (ids l)) (r ∷ rest)) (sym all)
        (λ e. absurd (ground arith), exempt-Kept rest)
]

-- Every pending or running task is retained, and beside those at most fifty are.
pub retained_task_ids-bounds :
    (rows : List TaskRecord)
    → All (λ r. is_exempt r ≡ true → member r.task_id (retained_task_ids rows) ≡ true) rows
      × (length (retained_task_ids rows) ≤ max_retained_scenes + count_if is_exempt rows)
unfolding retained_task_ids Kept
retained_task_ids-bounds rows =
    let newest : List Text = ids (take max_retained_scenes (sort newer_first rows)) in
    let exempt : List Text = ids (keep is_exempt rows) in
    (
      Kept-All exempt (newest ++ exempt) rows (λ t. member-append-right t newest exempt)
          (exempt-Kept rows),
      omega (
        arith,
        length-append newest exempt,
        length-map (λ (r : TaskRecord). r.task_id)
            (take max_retained_scenes (sort newer_first rows)),
        length-map (λ (r : TaskRecord). r.task_id) (keep is_exempt rows),
        length-take-le max_retained_scenes (sort newer_first rows),
        length-keep is_exempt rows,
      ),
    )
