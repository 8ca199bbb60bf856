-- ===== src/Archive/Unpack/Totals.antt =====
-- The budget over a whole member and over the loops.
use mathlib.Core.Path.{subst}
use patrol_x.Base.{
  ℕ, ◌≡◌, ◌≢◌, refl, ap, not, Bool, List, [], ◌∷◌, ◌++◌, Option, none, some, arith, ltb, ok, err,
  Bool-cases, inl, inr,
}
use patrol_x.Base.Lists.{length, keep, All}
use patrol_x.Base.Text.{Text}
use patrol_x.Archive.Errors.{Checked, archive_corrupt}
use patrol_x.Archive.Disk.{FilePath, dir, Disk, lookup, parent, make_dirs}
use patrol_x.Archive.Disk.Laws.{bytes-make_dirs-le, path_eq_outside, lookup-make_dirs_outside}
use patrol_x.Archive.Disk.Directories.{
  parent-append, append-ne-nil, path_eq-append_self, lookup-make_dirs_dir, lookup-make_dirs,
}
use patrol_x.Archive.Target.{resolve_member_target, copy_chunks}
use patrol_x.Archive.Members.{Prepared}
use patrol_x.Archive.Unpack.{
  Config, State, Step, locate_member, clear_target, write_member, place_member, extract_located,
  member_code, extract_member, member_seen, extract_members, and_then,
}
use patrol_x.Archive.Unpack.{
  prepare_member, prepare_members, unpack_members, bind, prepend, Outcome,
}
use patrol_x.Archive.Unpack.Budget.{
  copy_chunks_sums, copy_chunks_limits, IsBounded, IsBelow, Charged, Charged-trans, Charged-refl,
  fail_member-Charged, fail_member-Charged-none, after_copy-Charged,
}

clear_target-eq-ok :
    (c : Config) (member : Prepared) (target : FilePath) (d d' : Disk)
    → clear_target c member target d ≡ ok d'
    → make_dirs d c.root (parent member.parts) ≡ some d'
unfolding clear_target
clear_target-eq-ok c member target d d' h = ground arith

locate_member-eq-ok :
    (c : Config) (member : Prepared) (d : Disk) (target : FilePath)
    → locate_member c member d ≡ ok target
    → target ≡ c.root ++ member.parts
unfolding locate_member resolve_member_target
locate_member-eq-ok c member d target h = ground arith

IsBelow-root :
    (c : Config) (member : Prepared) → member.parts ≢ [] → IsBelow c (c.root ++ member.parts)
IsBelow-root c member filled = record {
  not_root = path_eq-append_self c.root member.parts filled;
  not_outside = path_eq_outside c.root member.parts;
}

module _ (c : Config) (member : Prepared) (s : State) (filled : member.parts ≢ [])
    (b : IsBounded c s) where
  abbrev target : FilePath
  target = c.root ++ member.parts

  below : IsBelow c target
  below = IsBelow-root c member filled

  write_member-Charged :
      lookup (parent target) s.disk ≡ some dir → Charged c s (write_member c member target s).1
  unfolding write_member
  write_member-Charged placed = elim (Bool-cases member.stream.opens) [
    | inr shut ↦
        simp shut
          (fail_member-Charged c archive_corrupt member.name target s s below (Charged-refl b))
    | inl open_ ↦ simp open_ (
        after_copy-Charged c member.name target s (append-ne-nil c.root member.parts filled) below
          placed (copy_chunks c.limit member.stream.breaks member.stream.chunks 0 s.total_written) _
          (omega (
            arith,
            copy_chunks_sums c.limit member.stream.breaks member.stream.chunks 0 s.total_written,
          ))
          (λ e.
            (copy_chunks_limits c.limit member.stream.breaks member.stream.chunks 0 s.total_written
              (omega arith) b.fits e).1)
          b)
  ]

module _ (c : Config) (member : Prepared) (filled : member.parts ≢ []) where
  place_member-Charged :
      (s : State) (cleared : Checked Disk)
      → IsBounded c s
      → clear_target c member (c.root ++ member.parts) s.disk ≡ cleared
      → Charged c s (place_member c member (c.root ++ member.parts) s cleared).1
  unfolding place_member
  place_member-Charged s (err code) b e =
      fail_member-Charged c code member.name _ s s (IsBelow-root c member filled) (Charged-refl b)
  place_member-Charged s (ok d) b e =
      let made : make_dirs s.disk c.root (parent member.parts) ≡ some d =
        clear_target-eq-ok c member (c.root ++ member.parts) s.disk d e in
      let s' : State = record s { disk = d } in
      let b' : IsBounded c s' = record {
        rooted = lookup-make_dirs_dir s.disk c.root (parent member.parts) d c.root made b.rooted;
        fits = b.fits;
      } in
      Charged-trans
        (record {
          bounded = b';
          outside = λ q. lookup-make_dirs_outside s.disk c.root (parent member.parts) d q made;
          charged = omega (arith, bytes-make_dirs-le s.disk c.root (parent member.parts) d made);
        })
        (write_member-Charged c member s' filled b' (
          rw (parent-append c.root member.parts filled)
            (lookup-make_dirs s.disk c.root (parent member.parts) d made b.rooted)))

  extract_located-Charged :
      (s : State) (located : Checked FilePath)
      → IsBounded c s
      → locate_member c member s.disk ≡ located
      → Charged c s (extract_located c member s located).1
  unfolding extract_located
  extract_located-Charged s (err code) b e =
      fail_member-Charged-none c (member_code code) member.name s s (Charged-refl b)
  extract_located-Charged s (ok target) b e =
      let named : target ≡ c.root ++ member.parts = locate_member-eq-ok c member s.disk target e in
      rw named (place_member-Charged s _ b refl)

  extract_member-Charged : (s : State) → IsBounded c s → Charged c s (extract_member c member s).1
  unfolding extract_member
  extract_member-Charged s b =
      let s' : State = record s { seen_members = c.casefold member.canonical ∷ s.seen_members } in
      elim (Bool-cases (member_seen (c.casefold member.canonical) s.seen_members)) [
        | inl again ↦ rw again (fail_member-Charged-none c _ member.name s s (Charged-refl b))
        | inr new ↦
            let r : Charged c s' (extract_located c member s' (locate_member c member s.disk)).1 =
              extract_located-Charged s' _ (record { rooted = b.rooted; fits = b.fits }) refl in
            rw new (record { bounded = r.bounded; outside = r.outside; charged = r.charged })
      ]

abbrev AllFilled : List Prepared → Type 0
AllFilled = All (λ m. m.parts ≢ [])

abbrev Charges : {A : Type 0} → Config → (State → Outcome A) → Type 0
Charges c run = (s : State) → IsBounded c s → Charged c s (run s).1

and_then-Charged :
    {A : Type 0} (c : Config) (s : State) (step : Step) (next : State → Outcome A)
    → Charged c s step.1
    → Charges c next
    → Charged c s (and_then step next).1
and_then-Charged c s (ok _, t) next h k = Charged-trans h (k t h.bounded)
and_then-Charged c s (err code, t) next h k = h

pub extract_members-Charged :
    (c : Config) (members : List Prepared)
    → AllFilled members
    → Charges c (extract_members c members)
unfolding extract_members
extract_members-Charged c [] filled s b = Charged-refl b
extract_members-Charged c (m ∷ rest) filled s b =
    and_then-Charged c s (extract_member c m s) (extract_members c rest)
      (extract_member-Charged c m filled.0 s b) (extract_members-Charged c rest filled.1)

-- What the checks of a package format let through has a path.
abbrev pub FillsPaths : {M : Type 0} → (M → Checked (Option Prepared)) → Type 0
FillsPaths {M} validate = (m : M) (p : Prepared) → validate m ≡ ok (some p) → p.parts ≢ []

-- The prepared members have paths, and preparing them leaves the disk and the total alone.
record IsPrepared (s : State) (o : Outcome (List Prepared)) : Type 0 where
  same_disk : o.1.disk ≡ s.disk
  same_total : o.1.total_written ≡ s.total_written
  filled : (l : List Prepared) → o.0 ≡ ok l → AllFilled l

IsPrepared-Charged :
    (c : Config) (s t : State)
    → IsBounded c s
    → t.disk ≡ s.disk
    → t.total_written ≡ s.total_written
    → Charged c s t
IsPrepared-Charged c s t b same_disk same_total = record {
  bounded = record { rooted = rw same_disk b.rooted; fits = rw same_total b.fits };
  outside = λ q out. rw same_disk;
  charged = rw (same_disk, same_total) (omega arith);
}

prepend-filled :
    (found : Option Prepared) (r : Checked (List Prepared)) (l : List Prepared)
    → ((p : Prepared) → found ≡ some p → p.parts ≢ [])
    → ((l' : List Prepared) → r ≡ ok l' → AllFilled l')
    → prepend found r ≡ ok l
    → AllFilled l
prepend-filled none r l h k e = k l e
prepend-filled (some p) (err code) l h k e = cc
prepend-filled (some p) (ok l') l h k e =
    let grown : p ∷ l' ≡ l = ground arith in subst AllFilled grown (h p refl, k l' refl)

prepare_member-IsPrepared :
    (c : Config) (checked : Checked (Option Prepared)) (name : Text)
    (next : State → Outcome (List Prepared)) (s : State)
    → ((p : Prepared) → checked ≡ ok (some p) → p.parts ≢ [])
    → ((t : State) → IsPrepared t (next t))
    → IsPrepared s (prepare_member c checked name next s)
unfolding prepare_member
prepare_member-IsPrepared c (ok found) name next s h k = record {
  same_disk = (k s).same_disk;
  same_total = (k s).same_total;
  filled = λ l. prepend-filled found (next s).0 l (λ p e. h p (ap (λ o. ok o) e)) (k s).filled;
}
prepare_member-IsPrepared c (err code) name next s h k = elim (Bool-cases c.records_errors) [
  | inl recorded ↦ simp recorded (
      let later : IsPrepared _ _ = k (record s { errors = s.errors ++ (code, name) ∷ [] }) in
      record { same_disk = later.same_disk; same_total = later.same_total; filled = later.filled })
  | inr raised ↦ simp raised (record { same_disk = refl; same_total = refl; filled = λ l e. cc })
]

module _ {M : Type 0} (validate : M → Checked (Option Prepared)) (name : M → Text)
    (fills : FillsPaths validate) (c : Config) where
  prepare_members-IsPrepared :
      (members : List M) (s : State) → IsPrepared s (prepare_members validate name c members s)
  unfolding prepare_members
  prepare_members-IsPrepared [] s = record {
    same_disk = refl;
    same_total = refl;
    filled = λ l e. (let none_left : [] ≡ l = ground arith in subst AllFilled none_left tt);
  }
  prepare_members-IsPrepared (m ∷ rest) s =
      prepare_member-IsPrepared c (validate m) (name m) (prepare_members validate name c rest) s
        (fills m) (prepare_members-IsPrepared rest)

  bind-Charged :
      (s : State) (o : Outcome (List Prepared)) (next : List Prepared → State → Outcome ℕ)
      → IsBounded c s
      → IsPrepared s o
      → ((l : List Prepared) → AllFilled l → Charges c (next l))
      → Charged c s (bind o next).1
  bind-Charged s (err code, t) next b h k = IsPrepared-Charged c s t b h.same_disk h.same_total
  bind-Charged s (ok l, t) next b h k =
      let first : Charged c s t = IsPrepared-Charged c s t b h.same_disk h.same_total in
      Charged-trans first (k l (h.filled l refl) t first.bounded)

  pub unpack_members-Charged :
      (is_directory : M → Bool) (members : List M)
      → Charges c (unpack_members is_directory validate name c members)
  unfolding unpack_members
  unpack_members-Charged is_directory members s b =
      elim (Bool-cases
        (ltb c.limit.max_files (length (keep (λ m. not (is_directory m)) members)))) [
          | inl many ↦ rw many (Charged-refl b)
          | inr few ↦ rw few (
              bind-Charged s _ _ b (prepare_members-IsPrepared members s) λ l filled t b'.
                and_then-Charged c t (extract_members c l t) (λ u. (ok u.count, u))
                  (extract_members-Charged c l filled t b') (λ u b''. Charged-refl b''))
        ]
