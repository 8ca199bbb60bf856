-- ===== src/Archive/Unpack/Linkless.antt =====
-- The unpacking loop makes no symbolic links.
use patrol_x.Base.{
  ◌≡◌, refl, sym, arith, false, List, [], ◌∷◌, ◌++◌, Option, none, some, inl, inr, ok, err,
  Bool-cases, some_injective,
}
use mathlib.Core.Path.{subst}
use patrol_x.Base.Text.{Text}
use patrol_x.Archive.Errors.{ErrorCode, Checked, duplicate_member, archive_corrupt}
use patrol_x.Archive.Disk.{
  FilePath, Node, file, Disk, path_eq, erase, put, parent, link_node?, is_symlink, make_dirs,
}
use patrol_x.Archive.Disk.Laws.{lookup-put, lookup-erase}
use patrol_x.Archive.Disk.Directories.{lookup-make_dirs_cases}
use patrol_x.Archive.Target.{link_on_way, Written, copy_chunks, delete_partial_target}
use patrol_x.Archive.Members.{Prepared}
use patrol_x.Archive.Unpack.{
  Config, State, Step, record_member_error, after_delete, fail_member, locate_member, clear_target,
  after_copy, write_member, place_member, extract_located, member_code, member_seen, extract_member,
  extract_members, and_then,
}
use patrol_x.Archive.Unpack.Budget.{delete_partial_target-cases}
use patrol_x.Archive.Target.Real.{or_false}

-- No new links
abbrev pub Linkless : Disk → Disk → Type 0
Linkless d d' = (q : FilePath) → is_symlink d q ≡ false → is_symlink d' q ≡ false

pub link_on_way-Linkless :
    (d d' : Disk) (base : FilePath) (parts : List Text)
    → Linkless d d'
    → link_on_way d base parts ≡ false
    → link_on_way d' base parts ≡ false
unfolding link_on_way
link_on_way-Linkless d d' base [] same h = refl
link_on_way-Linkless d d' base (a ∷ parts) same h =
    let (here, below) =
      or_false (is_symlink d (base ++ a ∷ [])) (link_on_way d (base ++ a ∷ []) parts) h in
    rw (same (base ++ a ∷ []) here) (link_on_way-Linkless d d' (base ++ a ∷ []) parts same below)

put-Linkless :
    (p : FilePath) (n : Node) (d : Disk) → link_node? (some n) ≡ false → Linkless d (put p n d)
unfolding is_symlink
put-Linkless p n d plain q h =
    rw lookup-put
      (elim (Bool-cases (path_eq p q)) [ inl same ↦ rw same plain | inr other ↦ rw other h ])

erase-Linkless : (p : FilePath) (d : Disk) → Linkless d (erase p d)
unfolding is_symlink
erase-Linkless p d q h =
    rw lookup-erase
      (elim (Bool-cases (path_eq p q)) [ inl same ↦ rw same refl | inr other ↦ rw other h ])

pub make_dirs-Linkless :
    (d : Disk) (base : FilePath) (rest : List Text) (d' : Disk)
    → make_dirs d base rest ≡ some d'
    → Linkless d d'
unfolding is_symlink
make_dirs-Linkless d base rest d' made_ q h = elim (lookup-make_dirs_cases d base rest d' q made_) [
  | inl same ↦ rw same h
  | inr (free, now) ↦ rw now refl
]

record_member_error-Linkless :
    (c : Config) (code : ErrorCode) (name : Text) (s : State)
    → Linkless s.disk (record_member_error c code name s).1.disk
unfolding record_member_error
record_member_error-Linkless c code name s = elim (Bool-cases c.records_errors) [
  | inl records ↦ simp records (λ q h. h)
  | inr raises ↦ simp raises (λ q h. h)
]

fail_member-Linkless :
    (c : Config) (code : ErrorCode) (name : Text) (target : Option FilePath) (s : State)
    → Linkless s.disk (fail_member c code name target s).1.disk
unfolding fail_member delete_partial_target
fail_member-Linkless c code name target s = deleted (delete_partial_target s.disk target) refl
  where
    less :
        (t : Option FilePath) (d : Disk)
        → delete_partial_target s.disk t ≡ some d
        → Linkless s.disk d
    less none d e = subst (Linkless s.disk) (some_injective e) (λ q h. h)
    less (some t) d e = elim (delete_partial_target-cases s.disk t d e) [
      | inl same ↦ subst (Linkless s.disk) (sym same) (λ q h. h)
      | inr erased ↦ subst (Linkless s.disk) (sym erased) (erase-Linkless t s.disk)
    ]

    deleted :
        (o : Option Disk)
        → delete_partial_target s.disk target ≡ o
        → Linkless s.disk (after_delete c code name s o).1.disk
    deleted none e = λ q h. h
    deleted (some d) e = λ q h.
        record_member_error-Linkless c code name (record s { disk = d }) q (less target d e q h)

after_copy-Linkless :
    (c : Config) (name : Text) (target : FilePath) (s : State) (w : Written)
    (fault : Option ErrorCode)
    → Linkless s.disk (after_copy c name target s w fault).1.disk
unfolding after_copy
after_copy-Linkless c name target s w none = put-Linkless target (file w.written) s.disk refl
after_copy-Linkless c name target s w (some code) = λ q h.
    fail_member-Linkless c code name (some target) _ q
      (put-Linkless target (file w.written) s.disk refl q h)

write_member-Linkless :
    (c : Config) (member : Prepared) (target : FilePath) (s : State)
    → Linkless s.disk (write_member c member target s).1.disk
unfolding write_member
write_member-Linkless c member target s = elim (Bool-cases member.stream.opens) [
  | inl open_ ↦ simp open_ (
      after_copy-Linkless c member.name target s
        (copy_chunks c.limit member.stream.breaks member.stream.chunks 0 s.total_written) _)
  | inr shut ↦ simp shut (fail_member-Linkless c archive_corrupt member.name (some target) s)
]

clear_target-Linkless :
    (c : Config) (member : Prepared) (target : FilePath) (d d' : Disk)
    → clear_target c member target d ≡ ok d'
    → Linkless d d'
unfolding clear_target
clear_target-Linkless c member target d d' h =
    let made_ : make_dirs d c.root (parent member.parts) ≡ some d' = ground arith in
    make_dirs-Linkless d c.root (parent member.parts) d' made_

extract_located-Linkless :
    (c : Config) (member : Prepared) (s : State) (located : Checked FilePath)
    → Linkless s.disk (extract_located c member s located).1.disk
unfolding extract_located
extract_located-Linkless c member s (err code) =
    fail_member-Linkless c (member_code code) member.name none s
extract_located-Linkless c member s (ok target) = placed (clear_target c member target s.disk) refl
  where
    placed :
        (cleared : Checked Disk)
        → clear_target c member target s.disk ≡ cleared
        → Linkless s.disk (place_member c member target s cleared).1.disk
    placed (err code) e = fail_member-Linkless c code member.name (some target) s
    placed (ok d) e = λ q h.
        write_member-Linkless c member target (record s { disk = d }) q
          (clear_target-Linkless c member target s.disk d e q h)

pub extract_member-Linkless :
    (c : Config) (member : Prepared) (s : State)
    → Linkless s.disk (extract_member c member s).1.disk
unfolding extract_member
extract_member-Linkless c member s =
    let s' : State = record s { seen_members = c.casefold member.canonical ∷ s.seen_members } in
    elim (Bool-cases (member_seen (c.casefold member.canonical) s.seen_members)) [
      | inl again ↦ rw again (fail_member-Linkless c duplicate_member member.name none s)
      | inr new ↦ rw new (extract_located-Linkless c member s' (locate_member c member s.disk))
    ]

pub extract_members-Linkless :
    (c : Config) (members : List Prepared) (s : State)
    → Linkless s.disk (extract_members c members s).1.disk
unfolding extract_members
extract_members-Linkless c [] s = λ q h. h
extract_members-Linkless c (m ∷ rest) s =
    after (extract_member c m s) (extract_member-Linkless c m s) (extract_members-Linkless c rest)
  where
    after :
        (step : Step)
        → Linkless s.disk step.1.disk
        → ((t : State) → Linkless t.disk (extract_members c rest t).1.disk)
        → Linkless s.disk (and_then step (extract_members c rest)).1.disk
    after (ok _, t) one more = λ q h. more t q (one q h)
    after (err code, t) one more = one
