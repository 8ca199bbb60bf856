-- ===== src/Archive/Unpack/Budget.antt =====
-- The byte budget of the unpacking loops: what is on the disk is covered by `total_written`, and
-- `total_written` never passes the limit.
use patrol_x.Base.{
  ℕ, ◌+◌, ◌≤◌, ◌≡◌, ◌≢◌, ◌⊎◌, refl, ◌∙◌, Bool, false, List, [], ◌∷◌, Option, none, some, arith,
  Bool-cases, inl, inr,
}
use patrol_x.Base.Text.{Text}
use patrol_x.Archive.Errors.{ErrorCode, UnpackLimit}
use patrol_x.Archive.Disk.{
  FilePath, Node, dir, file, Disk, path_eq, lookup, erase, put, parent, bytes, is_relative_to,
}
use patrol_x.Archive.Disk.Laws.{path_eq_iff, lookup-put, lookup-erase, bytes-erase-le, bytes-put-le}
use patrol_x.Archive.Disk.Directories.{path_eq-parent, bytes-erase-put-le}
use patrol_x.Archive.Target.{Written, delete_partial_target, copy_chunks}
use patrol_x.Archive.Unpack.{
  Config, State, record_member_error, after_delete, fail_member, after_copy,
}

pub copy_chunks_sums :
    (limit : UnpackLimit) (breaks : Bool) (chunks : List ℕ) (written total : ℕ)
    → (copy_chunks limit breaks chunks written total).total + written
      ≡ total + (copy_chunks limit breaks chunks written total).written
unfolding copy_chunks
copy_chunks_sums limit breaks [] written total = omega arith
copy_chunks_sums limit breaks (chunk ∷ rest) written total =
    ground (arith, copy_chunks_sums limit breaks rest (written + chunk) (total + chunk))

-- A copy that ends without a fault has passed neither limit.
pub copy_chunks_limits :
    (limit : UnpackLimit) (breaks : Bool) (chunks : List ℕ) (written total : ℕ)
    → written ≤ limit.max_single_file
    → total ≤ limit.max_total_bytes
    → (copy_chunks limit breaks chunks written total).fault ≡ none
    → ((copy_chunks limit breaks chunks written total).written ≤ limit.max_single_file)
      × ((copy_chunks limit breaks chunks written total).total ≤ limit.max_total_bytes)
unfolding copy_chunks
copy_chunks_limits limit breaks [] written total a b h = (a, b)
copy_chunks_limits limit breaks (chunk ∷ rest) written total a b h =
    ground (arith, copy_chunks_limits limit breaks rest (written + chunk) (total + chunk))

-- The root is a directory, and the budget is kept.
pub record IsBounded (c : Config) (s : State) : Type 0 where
  pub rooted : lookup c.root s.disk ≡ some dir
  pub fits : s.total_written ≤ c.limit.max_total_bytes

-- A path below the root.
pub record IsBelow (c : Config) (target : FilePath) : Type 0 where
  pub not_root : path_eq target c.root ≡ false
  pub not_outside : (q : FilePath) → is_relative_to c.root q ≡ false → path_eq target q ≡ false

-- From `s` to `t` the disk grew by no more than `total_written` did, and at no path that is written
-- as one outside the root did anything change.
pub record Charged (c : Config) (s t : State) : Type 0 where
  pub bounded : IsBounded c t
  pub outside : (q : FilePath) → is_relative_to c.root q ≡ false → lookup q t.disk ≡ lookup q s.disk
  pub charged : bytes t.disk + s.total_written ≤ bytes s.disk + t.total_written

pub Charged-trans : {c : Config} {s t u : State} → Charged c s t → Charged c t u → Charged c s u
Charged-trans a b = record {
  bounded = b.bounded;
  outside = λ q out. b.outside q out ∙ a.outside q out;
  charged = omega (arith, a.charged, b.charged);
}

pub Charged-refl : {c : Config} {s : State} → IsBounded c s → Charged c s s
Charged-refl b = record { bounded = b; outside = λ q out. refl; charged = omega arith }

pub record_member_error-Charged :
    (c : Config) (code : ErrorCode) (name : Text) (s t : State)
    → Charged c s t
    → Charged c s (record_member_error c code name t).1
unfolding record_member_error
record_member_error-Charged c code name s t h = elim (Bool-cases c.records_errors) [
  | inl e ↦ simp e (record {
    bounded = record { rooted = h.bounded.rooted; fits = h.bounded.fits };
    outside = h.outside;
    charged = h.charged;
  })
  | inr e ↦ simp e h
]

pub delete_partial_target-cases :
    (d : Disk) (target : FilePath) (d' : Disk)
    → delete_partial_target d (some target) ≡ some d'
    → (d' ≡ d) ⊎ (d' ≡ erase target d)
unfolding delete_partial_target
delete_partial_target-cases d target d' h = ground arith

erase-rooted :
    (root target : FilePath) (d : Disk)
    → path_eq target root ≡ false
    → lookup root d ≡ some dir
    → lookup root (erase target d) ≡ some dir
erase-rooted root target d h k = rw lookup-erase (rw h k)

erase-outside :
    (target q : FilePath) (d : Disk)
    → path_eq target q ≡ false
    → lookup q (erase target d) ≡ lookup q d
erase-outside target q d h = rw lookup-erase (rw h)

put-outside :
    (target q : FilePath) (n : Node) (d : Disk)
    → path_eq target q ≡ false
    → lookup q (put target n d) ≡ lookup q d
put-outside target q n d h = rw lookup-put (rw h)

-- A member's failure gives back at least what the disk held before.
pub fail_member-Charged :
    (c : Config) (code : ErrorCode) (name : Text) (target : FilePath) (s t : State)
    → IsBelow c target
    → Charged c s t
    → Charged c s (fail_member c code name (some target) t).1
unfolding fail_member
fail_member-Charged c code name target s t below h =
    deleted (delete_partial_target t.disk (some target)) refl
  where
    deleted :
        (o : Option Disk)
        → delete_partial_target t.disk (some target) ≡ o
        → Charged c s (after_delete c code name t o).1
    deleted none e = h
    deleted (some d) e = elim (delete_partial_target-cases t.disk target d e) [
      | inl same ↦
          record_member_error-Charged c code name s (record t { disk = d })
            (record {
              bounded = record { rooted = rw same h.bounded.rooted; fits = h.bounded.fits };
              outside = rw same h.outside;
              charged = rw same h.charged;
            })
      | inr erased ↦
          record_member_error-Charged c code name s (record t { disk = d })
            (record {
              bounded = record {
                rooted =
                    rw erased (erase-rooted c.root target t.disk below.not_root h.bounded.rooted);
                fits = h.bounded.fits;
              };
              outside = λ q out.
                  rw erased
                    (erase-outside target q t.disk (below.not_outside q out) ∙ h.outside q out);
              charged = rw erased (omega (arith, bytes-erase-le target t.disk, h.charged));
            })
    ]

pub fail_member-Charged-none :
    (c : Config) (code : ErrorCode) (name : Text) (s t : State)
    → Charged c s t
    → Charged c s (fail_member c code name none t).1
unfolding fail_member delete_partial_target
fail_member-Charged-none c code name s t h = record_member_error-Charged c code name s t h

-- The partial file of a member is taken away again: its directory is there.
delete_partial_target-put :
    (d : Disk) (target : FilePath) (size : ℕ)
    → target ≢ []
    → lookup (parent target) d ≡ some dir
    → delete_partial_target (put target (file size) d) (some target)
      ≡ some (erase target (put target (file size) d))
unfolding delete_partial_target
delete_partial_target-put d target size filled h = ground (
  arith,
  lookup-put target (parent target) (file size) d,
  lookup-put target target (file size) d,
  path_eq-parent target filled,
  path_eq_iff target target,
)

put-rooted :
    (root target : FilePath) (n : Node) (d : Disk)
    → path_eq target root ≡ false
    → lookup root d ≡ some dir
    → lookup root (put target n d) ≡ some dir
put-rooted root target n d h k = rw lookup-put (rw h k)

module _ (c : Config) (name : Text) (target : FilePath) (s : State) (filled : target ≢ [])
    (below : IsBelow c target) (placed : lookup (parent target) s.disk ≡ some dir) where
  pub after_copy-Charged :
      (w : Written) (fault : Option ErrorCode)
      → w.total ≡ s.total_written + w.written
      → (fault ≡ none → w.total ≤ c.limit.max_total_bytes)
      → IsBounded c s
      → Charged c s (after_copy c name target s w fault).1
  unfolding after_copy
  after_copy-Charged w none sums fits b = record {
    bounded = record {
      rooted = put-rooted c.root target _ s.disk below.not_root b.rooted;
      fits = fits refl;
    };
    outside = λ q out. put-outside target q _ s.disk (below.not_outside q out);
    charged = omega (arith, bytes-put-le target (file w.written) s.disk);
  }
  after_copy-Charged w (some code) sums fits b =
      rw (delete_partial_target-put s.disk target w.written filled placed) (
        record_member_error-Charged c code name s _ (record {
          bounded = record {
            rooted =
                erase-rooted c.root target _ below.not_root
                  (put-rooted c.root target _ s.disk below.not_root b.rooted);
            fits = omega (arith, b.fits);
          };
          outside = λ q out.
              erase-outside target q _ (below.not_outside q out)
              ∙ put-outside target q _ s.disk (below.not_outside q out);
          charged = omega (arith, bytes-erase-put-le target (file w.written) s.disk);
        }))
