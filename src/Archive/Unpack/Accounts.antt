-- ===== src/Archive/Unpack/Accounts.antt =====
-- Each member ends up in the count or with the error recorder.
use patrol_x.Base.{
  ℕ, suc, ◌+◌, ◌≡◌, refl, false, List, [], ◌∷◌, ◌++◌, Option, none, some, arith, ok, err,
  if◌then◌else◌, Bool-cases, inl, inr,
}
use patrol_x.Base.Lists.{length, length-append}
use patrol_x.Base.Text.{Text}
use patrol_x.Archive.Errors.{ErrorCode, Checked, duplicate_member, archive_corrupt}
use patrol_x.Archive.Disk.{FilePath, Node, is_symlink, dir, file, Disk, lookup, parent}
use patrol_x.Archive.Disk.Laws.{path_eq_iff, lookup-erase}
use patrol_x.Archive.Target.{Written, copy_chunks, delete_partial_target, ensure_target_paths}
use patrol_x.Archive.Members.{Prepared}
use patrol_x.Archive.Unpack.{
  Config, State, Step, record_member_error, after_delete, fail_member, locate_member, clear_target,
  after_copy, write_member, place_member, extract_located, member_code, member_seen, extract_member,
  extract_members, and_then,
}

-- If the step returns, the count and the recorded errors grew by `n` together.
abbrev Grows : ℕ → State → Step → Type 0
Grows n s step =
    step.0 ≡ ok tt → step.1.count + length step.1.errors ≡ s.count + length s.errors + n

record_member_error-Grows :
    (c : Config) (code : ErrorCode) (name : Text) (s : State)
    → Grows 1 s (record_member_error c code name s)
unfolding record_member_error
record_member_error-Grows c code name s h =
    ground (arith, length-append s.errors ((code, name) ∷ []))

fail_member-Grows :
    (c : Config) (code : ErrorCode) (name : Text) (target : Option FilePath) (s : State)
    → Grows 1 s (fail_member c code name target s)
unfolding fail_member
fail_member-Grows c code name target s = deleted (delete_partial_target s.disk target)
  where
    deleted : (o : Option Disk) → Grows 1 s (after_delete c code name s o)
    deleted none h = cc
    deleted (some d) h = record_member_error-Grows c code name (record s { disk = d }) h

after_copy-Grows :
    (c : Config) (name : Text) (target : FilePath) (s : State) (w : Written)
    (fault : Option ErrorCode)
    → Grows 1 s (after_copy c name target s w fault)
unfolding after_copy
after_copy-Grows c name target s w none h = omega arith
after_copy-Grows c name target s w (some code) h = fail_member-Grows c code name (some target) _ h

write_member-Grows :
    (c : Config) (member : Prepared) (target : FilePath) (s : State)
    → Grows 1 s (write_member c member target s)
unfolding write_member
write_member-Grows c member target s = elim (Bool-cases member.stream.opens) [
  | inl open_ ↦ simp open_ (
      after_copy-Grows c member.name target s
        (copy_chunks c.limit member.stream.breaks member.stream.chunks 0 s.total_written) _)
  | inr shut ↦ simp shut (fail_member-Grows c archive_corrupt member.name (some target) s)
]

extract_located-Grows :
    (c : Config) (member : Prepared) (s : State) (located : Checked FilePath)
    → Grows 1 s (extract_located c member s located)
unfolding extract_located
extract_located-Grows c member s (err code) =
    fail_member-Grows c (member_code code) member.name none s
extract_located-Grows c member s (ok target) = placed (clear_target c member target s.disk)
  where
    placed : (cleared : Checked Disk) → Grows 1 s (place_member c member target s cleared)
    placed (err code) = fail_member-Grows c code member.name (some target) s
    placed (ok d) = write_member-Grows c member target (record s { disk = d })

extract_member-Grows :
    (c : Config) (member : Prepared) (s : State) → Grows 1 s (extract_member c member s)
unfolding extract_member
extract_member-Grows c member s =
    let s' : State = record s { seen_members = c.casefold member.canonical ∷ s.seen_members } in
    elim (Bool-cases (member_seen (c.casefold member.canonical) s.seen_members)) [
      | inl again ↦ rw again (fail_member-Grows c duplicate_member member.name none s)
      | inr new ↦ rw new (extract_located-Grows c member s' (locate_member c member s.disk))
    ]

-- When the loop runs to its end, each prepared member was either counted as written or recorded
-- with its error, once.
pub extract_members_accounts :
    (c : Config) (members : List Prepared) (s : State)
    → (extract_members c members s).0 ≡ ok tt
    → (extract_members c members s).1.count + length (extract_members c members s).1.errors
      ≡ s.count + length s.errors + length members
unfolding extract_members
extract_members_accounts c [] s h = omega arith
extract_members_accounts c (m ∷ rest) s h =
    after (extract_member c m s) (extract_member-Grows c m s) (extract_members_accounts c rest) h
  where
    after :
        (step : Step)
        → Grows 1 s step
        → ((t : State) → Grows (length rest) t (extract_members c rest t))
        → Grows (suc (length rest)) s (and_then step (extract_members c rest))
    after (ok _, t) one more h = omega (arith, more t h, one refl)
    after (err code, t) one more h = cc

module _ (c : Config) (member : Prepared) (s : State) (target : FilePath)
    (new : member_seen (c.casefold member.canonical) s.seen_members ≡ false)
    (located : locate_member c member s.disk ≡ ok target)
    (short : c.path_limit_check target member.name ≡ none)
    (not_link : is_symlink s.disk target ≡ false) where
  extract_occupied :
      (n : Node)
      → lookup target s.disk ≡ some n
      → extract_member c member s
        ≡ fail_member c duplicate_member member.name
            (some target)
            (record s { seen_members = c.casefold member.canonical ∷ s.seen_members })
  unfolding extract_member clear_target ensure_target_paths
  extract_occupied n there = rw (new, located, short, not_link, there)

-- A member that reaches the look at its target: its key was not seen before, its metadata, its depth
-- and the way to its target pass, and so does the caller's path check.
abbrev pub IsRefused : Config → Prepared → State → FilePath → Type 0
IsRefused c member s target =
    (member_seen (c.casefold member.canonical) s.seen_members ≡ false)
    × (locate_member c member s.disk ≡ ok target)
    × (c.path_limit_check target member.name ≡ none)

-- When a member with a new key has been located and the path check has passed, and its target is
-- already a regular file in a directory, the round refuses the member as a duplicate and deletes the
-- file that was there before. The error is recorded where there is a recorder, and raised otherwise.
pub extract_member-deletes_existing :
    (c : Config) (member : Prepared) (s : State) (target : FilePath) (size : ℕ)
    → IsRefused c member s target
    → lookup (parent target) s.disk ≡ some dir
    → lookup target s.disk ≡ some (file size)
    → (lookup target (extract_member c member s).1.disk ≡ none)
      × ((extract_member c member s).0 ≡ (if c.records_errors then ok tt else err duplicate_member))
      × ((extract_member c member s).1.errors ≡ (
          if c.records_errors then s.errors ++ (duplicate_member, member.name) ∷ [] else s.errors))
extract_member-deletes_existing c member s target size (new, located, short) placed there =
    rw
      (extract_occupied c member s target new located short (unfold is_symlink in rw there)
        (file size) there)
      (unfold fail_member delete_partial_target record_member_error in
        elim (Bool-cases c.records_errors) [
          | inl records ↦
              rw records
                (ground (arith, lookup-erase target target s.disk, path_eq_iff target target))
          | inr raises ↦
              rw raises
                (ground (arith, lookup-erase target target s.disk, path_eq_iff target target))
        ])

-- When a member with a new key has been located and the path check has passed, and its target is
-- already a directory in a directory, the loop ends there with a corrupt archive, whatever members
-- are behind it and also where member errors are recorded: nothing more is counted or recorded.
pub extract_members-aborts_at_directory :
    (c : Config) (member : Prepared) (rest : List Prepared) (s : State) (target : FilePath)
    → IsRefused c member s target
    → lookup (parent target) s.disk ≡ some dir
    → lookup target s.disk ≡ some dir
    → ((extract_members c (member ∷ rest) s).0 ≡ err archive_corrupt)
      × ((extract_members c (member ∷ rest) s).1.count ≡ s.count)
      × ((extract_members c (member ∷ rest) s).1.errors ≡ s.errors)
      × ((extract_members c (member ∷ rest) s).1.disk ≡ s.disk)
unfolding extract_members
extract_members-aborts_at_directory c member rest s target (new, located, short) placed there =
    rw
      (extract_occupied c member s target new located short (unfold is_symlink in rw there) dir
        there)
      (unfold fail_member delete_partial_target in rw (placed, there) (refl, refl, refl, refl))
