-- ===== src/Extraction/Selection/Sources.antt =====
-- What the loop of select_and_decompress makes of each member.
use patrol_x.Base.{
  ℕ, suc, ◌+◌, ◌≡◌, ◌⊎◌, refl, sym, ◌∙◌, arith, true, false, List, [], ◌∷◌, ◌++◌, Option, none,
  some, inl, inr, Result, ok, err, ◌>>=◌, >>=-eq-ok, ok_injective, Bool-cases,
}
use mathlib.Core.Path.{ap, subst}
use patrol_x.Base.Dict.{text_eq_refl}
use patrol_x.Base.Lists.Every.{All-weaken}
use patrol_x.Base.Lists.{any, All, length, length-append, All-append}
use patrol_x.Base.Text.{Text, text_eq, split_char}
use patrol_x.Archive.Errors.{ErrorCode, UnpackLimit, Checked}
use patrol_x.Archive.MemberPath.{slash}
use patrol_x.Archive.Disk.{FilePath, Disk, lookup, parent}
use patrol_x.Archive.Target.{Stream, unlink, node?}
use patrol_x.Archive.Gzip.{Gzip, unpack_gzip}
use patrol_x.Extraction.Patterns.{Names}
use patrol_x.Extraction.Selection.Outputs.{IsOutputOf, gzip_output_relative-IsOutputOf}
use patrol_x.Extraction.Selection.Matches.{
  of_name-eq-ok, IsFree, IsChosen, first_exclude-IsFree, selected_include-IsChosen,
}
use patrol_x.Extraction.Selection.{
  SelectionInclude, SelectionExclude, SelectedMember, Stopped, Progress, last_of,
  is_single_file_gzip, gzip_output_relative, of_name, first_exclude, selected_include, staged_path,
  drop_source, behind_unlink, free_of_charge, decompress_to, decompress_member_gzip, ignore,
  member_not_selected, final_member, note_member, include_member, unless_excluded, select_members,
}

abbrev pub settled : Progress → ℕ
settled s = length s.selected + length s.ignored + length s.member_errors

-- Each text of a list is one of its texts.
own : (l : List Text) → All (λ m. any (text_eq m) l ≡ true) l
own [] = tt
own (m ∷ l) = (
  rw (text_eq_refl m) refl,
  All-weaken (λ k. any (text_eq k) l ≡ true) (λ k. any (text_eq k) (m ∷ l) ≡ true) l
      (λ k h. ground (arith, h)) (own l),
)

module _ (names : Names) (include : List SelectionInclude) (exclude : List SelectionExclude)
    (staging_root : FilePath) where
  -- A file stands for a member that no exclude pattern matches and some include pattern does, and it
  -- has the service that all the matching includes have. It stands below the staging root under its
  -- relative path: the member's own, or for a single-file GZIP the one without the suffix.
  pub record ComesFrom (P : Text → Type 0) (file : SelectedMember) : Type 0 where
    pub member : Text
    pub holds : P member
    pub not_excluded : IsFree names member exclude
    pub included : IsChosen names member file.service include
    pub placed : file.path ≡ staging_root ++ split_char slash file.member_relative
    pub relative :
        (is_single_file_gzip names member ≡ false) × (file.member_relative ≡ member)
        ⊎ (is_single_file_gzip names member ≡ true) × IsOutputOf member file.member_relative

  -- The relative path of a member's file.
  abbrev Renames : Text → Text → Type 0
  Renames member final =
      (is_single_file_gzip names member ≡ false) × (final ≡ member)
      ⊎ (is_single_file_gzip names member ≡ true) × IsOutputOf member final

  module _ (limit : UnpackLimit) (streams : Text → Stream) where
    drop_source-output :
        (member output final : Text) (g : Gzip (Unit {0}))
        → (drop_source names limit streams staging_root member output g).0 ≡ ok final
        → output ≡ final
    drop_source-output member output final (err code, d, b) h = cc
    drop_source-output member output final (ok total, d, b) h =
        elim (Bool-cases (node? (lookup path d))) [
          | inl there ↦ dropped (unlink (lookup path d) d path) (rw there at h)
          | inr gone ↦ absurd (failed (rw gone at h))
        ]
      where
        path : FilePath
        path = staged_path names limit streams staging_root member

        failed : {code : ErrorCode} → ◌≡◌ {A = Result ErrorCode Text} (err code) (ok final) → ⊥
        failed e = cc

        dropped :
            (o : Option Disk)
            → (behind_unlink names limit streams staging_root output d o).0 ≡ ok final
            → output ≡ final
        dropped none e = cc
        dropped (some d') e = ok_injective e

    decompress_member_gzip-output :
        (member final : Text) (d : Disk)
        → (decompress_member_gzip names limit streams staging_root member d).0 ≡ ok final
        → gzip_output_relative names member ≡ ok final
    unfolding decompress_member_gzip
    decompress_member_gzip-output member final d h = go (gzip_output_relative names member) refl h
      where
        go :
            (o : Checked Text)
            → gzip_output_relative names member ≡ o
            → (decompress_to names limit streams staging_root member d o).0 ≡ ok final
            → gzip_output_relative names member ≡ ok final
        go (err code) e k = cc
        go (ok output) e k =
            e
            ∙ ap ok (
                drop_source-output member output final
                  (unpack_gzip (free_of_charge names limit streams staging_root) limit none
                    (streams member) (parent (staged_path names limit streams staging_root output))
                    (last_of (split_char slash output)) d tt)
                  k)

    final_member-relative :
        (member final : Text) (d : Disk)
        → (final_member names limit streams staging_root member d).0 ≡ ok final
        → Renames member final
    final_member-relative member final d h = elim (Bool-cases (is_single_file_gzip names member)) [
      | inl zipped ↦ inr (
        zipped,
        gzip_output_relative-IsOutputOf names member final
            (decompress_member_gzip-output member final d (rw zipped at h)),
      )
      | inr plain ↦ inl (plain, sym (ok_injective (rw plain at h)))
    ]

    -- One member more is settled, and what is selected comes from a member.
    Keeps : (Text → Type 0) → Progress → Progress → Type 0
    Keeps P s s' =
        (settled s' ≡ suc (settled s))
        × (All (ComesFrom P) s.selected → All (ComesFrom P) s'.selected)

    note_member-Keeps :
        (P : Text → Type 0) (member : Text) (item : SelectionInclude) (s : Progress)
        (outcome : Result ErrorCode Text × Disk)
        → P member
        → first_exclude names exclude member ≡ ok none
        → selected_include names include member ≡ ok (some item)
        → ((final : Text) → outcome.0 ≡ ok final → Renames member final)
        → Keeps P s (note_member names limit streams staging_root member item outcome s)
    unfolding Keeps
    note_member-Keeps P member item s (err code, d) holds free chosen path = (
      omega (
        arith,
        length-append s.member_errors (record { member_relative = member; error = code } ∷ []),
      ),
      λ h. h,
    )
    note_member-Keeps P member item s (ok final, d) holds free chosen path =
        let file : SelectedMember = record {
          path = staged_path names limit streams staging_root final;
          member_relative = final;
          service = item.service;
        } in
        (
          omega (arith, length-append s.selected (file ∷ [])),
          λ h. All-append (ComesFrom P) s.selected (file ∷ []) h (
            record {
              member = member;
              holds = holds;
              not_excluded = first_exclude-IsFree names member exclude free;
              included = selected_include-IsChosen names member include item chosen;
              placed = refl;
              relative = path final refl;
            },
            tt,
          ),
        )

    ignore-Keeps :
        (P : Text → Type 0) (member reason : Text) (s : Progress)
        → Keeps P s (ignore names limit streams staging_root member reason s)
    unfolding Keeps
    ignore-Keeps P member reason s = (
      omega (
        arith,
        length-append s.ignored (record { member_relative = member; reason = reason } ∷ []),
      ),
      λ h. h,
    )

    unless_excluded-Keeps :
        (P : Text → Type 0) (member : Text) (exclusion : Option SelectionExclude) (s s' : Progress)
        → P member
        → first_exclude names exclude member ≡ ok exclusion
        → unless_excluded names limit streams staging_root include member exclusion s ≡ ok s'
        → Keeps P s s'
    unless_excluded-Keeps P member (some item) s s' holds e h =
        subst (Keeps P s) (ok_injective h) (ignore-Keeps P member item.reason s)
    unless_excluded-Keeps P member none s s' holds e h =
        let (chosen, found, last) =
          >>=-eq-ok (selected_include names include member)
            (λ chosen. ok (include_member names limit streams staging_root member chosen s)) h in
        subst (Keeps P s) (ok_injective last) (included chosen found)
      where
        included :
            (chosen : Option SelectionInclude)
            → selected_include names include member ≡ ok chosen
            → Keeps P s (include_member names limit streams staging_root member chosen s)
        included none found = ignore-Keeps P member member_not_selected s
        included (some item) found =
            note_member-Keeps P member item s
              (final_member names limit streams staging_root member s.disk) holds e found
              (λ final. final_member-relative member final s.disk)

    select_members-Keeps :
        (P : Text → Type 0) (members : List Text) (s s' : Progress)
        → All P members
        → select_members names limit streams staging_root include exclude members s ≡ ok s'
        → (settled s' ≡ settled s + length members)
          × (All (ComesFrom P) s.selected → All (ComesFrom P) s'.selected)
    unfolding select_members Keeps
    select_members-Keeps P [] s s' holds h = (
      omega (arith, ap settled (sym (ok_injective h))),
      subst (λ (t : Progress). All (ComesFrom P) s.selected → All (ComesFrom P) t.selected)
          (ok_injective h) (λ k. k),
    )
    select_members-Keeps P (member ∷ rest) s s' holds h =
        let onward : Progress → Result Stopped Progress =
          select_members names limit streams staging_root include exclude rest in
        let (exclusion, found, h') =
          >>=-eq-ok (of_name (first_exclude names exclude member))
            (λ exclusion.
              unless_excluded names limit streams staging_root include member exclusion s
              >>= onward)
            h in
        let (middle, one, h'') =
          >>=-eq-ok (unless_excluded names limit streams staging_root include member exclusion s)
            onward h' in
        let (counts, kept) =
          unless_excluded-Keeps P member exclusion s middle holds.0
            (of_name-eq-ok (first_exclude names exclude member) exclusion found) one in
        let (counts', kept') = select_members-Keeps P rest middle s' holds.1 h'' in
        (omega (arith, counts, counts'), λ k. kept' (kept k))

    -- When the selection returns, each member is settled once, as a selected file, as an ignored one
    -- or as an error. Each selected file comes from one of the members that none of the exclude
    -- patterns matches and some include pattern does, and has the service that all the matching
    -- include patterns give. It stands below the staging root under its relative path, which is the
    -- member's own, or for a single-file GZIP the normalized one without its last three characters.
    pub select_members-ComesFrom :
        (members : List Text) (disk : Disk) (s : Progress)
        → select_members names limit streams staging_root include exclude members
            (record { selected = []; ignored = []; member_errors = []; disk = disk })
          ≡ ok s
        → (settled s ≡ length members)
          × All (ComesFrom (λ m. any (text_eq m) members ≡ true)) s.selected
    select_members-ComesFrom members disk s h =
        let start : Progress = record {
          selected = [];
          ignored = [];
          member_errors = [];
          disk = disk;
        } in
        let (counts, kept) =
          select_members-Keeps (λ m. any (text_eq m) members ≡ true) members start s (own members)
            h in
        (omega (arith, counts), kept tt)
