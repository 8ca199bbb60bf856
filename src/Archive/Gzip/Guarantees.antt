-- ===== src/Archive/Gzip/Guarantees.antt =====
-- What unpack_gzip leaves at its target.
use patrol_x.Base.{
  ℕ, ◌+◌, ◌≤◌, ◌≡◌, refl, Bool, true, false, sym, ◌∙◌, ltb, List, [], ◌∷◌, none, some, arith,
  Result, ok, err, Bool-cases, Option-cases, inl, inr,
}
use patrol_x.Archive.Errors.{ErrorCode, UnpackLimit, archive_corrupt, target_conflict}
use mathlib.Core.Path.{ap}
use patrol_x.Base.Lists.{sum}
use patrol_x.Archive.Disk.{FilePath, Node, file, Disk, lookup, put, path_eq}
use patrol_x.Archive.Disk.Laws.{path_eq_iff, lookup-put, lookup-erase}
use patrol_x.Archive.Target.{Stream}
use patrol_x.Archive.Gzip.{Gzip, write_chunk, give_up, after_gzip, charged, copy_gzip, write_gzip}

give_up-ne-ok :
    {B : Type 0} (code : ErrorCode) (target : FilePath) (d d' : Disk) (b b' : B) (size : ℕ)
    → ¬ (give_up code target d b ≡ (ok size, d', b'))
give_up-ne-ok code target d d' b b' size h = ground arith

put-file :
    (target : FilePath) (n : ℕ) (d : Disk) → lookup target (put target (file n) d) ≡ some (file n)
put-file target n d = rw (lookup-put, (path_eq_iff target target).1 refl) refl

put-elsewhere :
    (target q : FilePath) (n : Node) (d : Disk)
    → path_eq target q ≡ false
    → lookup q (put target n d) ≡ lookup q d
put-elsewhere target q n d other = rw (lookup-put, other) refl

-- A write makes the open file larger by the chunk, and touches no other path.
write_chunk_lem :
    (target : FilePath) (chunk size : ℕ) (d : Disk)
    → lookup target d ≡ some (file size)
    → (lookup target (write_chunk target chunk d) ≡ some (file (size + chunk)))
      × ((q : FilePath)
          → path_eq target q ≡ false
          → lookup q (write_chunk target chunk d) ≡ lookup q d)
unfolding write_chunk
write_chunk_lem target chunk size d open_ = (
  rw open_ (put-file target (size + chunk) d),
  λ q other. rw open_ (put-elsewhere target q (file (size + chunk)) d other),
)

module _ {B : Type 0} (charge : ℕ → B → Result ErrorCode (Unit {0}) × B) (limit : UnpackLimit) where
  charged-eq-ok :
      (r : Result ErrorCode (Unit {0}) × B) (d d' : Disk) (next : B → Gzip B) (size : ℕ) (b' : B)
      → charged charge limit r d next ≡ (ok size, d', b')
      → (b : B) × (next b ≡ (ok size, d', b'))
  charged-eq-ok (err code, b) d d' next size b' h = absurd (ground arith)
  charged-eq-ok (ok _, b) d d' next size b' h = (b, h)

  -- What the loop makes of a file that holds `total` bytes.
  record IsCopied (breaks : Bool) (chunks : List ℕ) (target : FilePath) (total : ℕ) (d : Disk)
      (size : ℕ) (d' : Disk) : Type 0 where
    whole : breaks ≡ false
    all_ : size ≡ total + sum chunks
    within : size ≤ limit.max_single_file
    holds : lookup target d' ≡ some (file size)
    spared : (q : FilePath) → path_eq target q ≡ false → lookup q d' ≡ lookup q d

  copy_gzip-IsCopied :
      (breaks : Bool) (target : FilePath) (chunks : List ℕ) (total : ℕ) (d : Disk) (b : B)
      (size : ℕ) (d' : Disk) (b' : B)
      → total ≤ limit.max_single_file
      → lookup target d ≡ some (file total)
      → copy_gzip charge limit breaks target chunks total d b ≡ (ok size, d', b')
      → IsCopied breaks chunks target total d size d'
  unfolding copy_gzip
  copy_gzip-IsCopied true target [] total d b size d' b' fits open_ h = absurd (ground arith)
  copy_gzip-IsCopied false target [] total d b size d' b' fits open_ h =
      let returned : total ≡ size = ground arith in
      let left : d ≡ d' = ground arith in
      record {
        whole = refl;
        all_ = omega (arith, returned);
        within = omega (arith, returned);
        holds = ap (lookup target) (sym left) ∙ open_ ∙ ap (λ n. some (file n)) returned;
        spared = λ q other. ap (lookup q) (sym left);
      }
  copy_gzip-IsCopied breaks target (chunk ∷ rest) total d b size d' b' fits open_ h =
      let (b'', e) = charged-eq-ok (charge chunk b) d d' _ size b' h in
      elim (Bool-cases (ltb limit.max_single_file (total + chunk))) [
        | inl over ↦ absurd (refused (rw over at e))
        | inr below ↦
            let (grew, kept) = write_chunk_lem target chunk total d open_ in
            let later =
              copy_gzip-IsCopied breaks target rest (total + chunk) (write_chunk target chunk d) b''
                size d' b' (ground (arith, below)) grew (rw below at e) in
            record {
              whole = later.whole;
              all_ = omega (arith, later.all_);
              within = later.within;
              holds = later.holds;
              spared = λ q other. later.spared q other ∙ kept q other;
            }
      ]
    where
      refused :
          {code : ErrorCode} {d1 d2 : Disk} {b1 b2 : B}
          → ◌≡◌ {A = Gzip B} (err code, d1, b1) (ok size, d2, b2)
          → ⊥
      refused k = ground arith

  after_gzip-eq-ok :
      (target : FilePath) (d' : Disk) (r : Gzip B) (b' : B) (size : ℕ)
      → after_gzip target r ≡ (ok size, d', b')
      → r ≡ (ok size, d', b')
  after_gzip-eq-ok target d' (ok total, d, b) b' size h = h
  after_gzip-eq-ok target d' (err code, d, b) b' size h =
      absurd (give_up-ne-ok code target d d' b b' size h)

  -- A successful call read its source to the end and found its target free. It returns the sum of
  -- the chunks that it read, the file at the target has that size, which is within the limit, and
  -- every other path has what it had.
  pub lookup-write_gzip :
      (stream : Stream) (target : FilePath) (d d' : Disk) (b b' : B) (size : ℕ)
      → write_gzip charge limit stream target d b ≡ (ok size, d', b')
      → (lookup target d ≡ none)
        × (stream.breaks ≡ false)
        × (size ≡ sum stream.chunks)
        × (lookup target d' ≡ some (file size))
        × (size ≤ limit.max_single_file)
        × ((q : FilePath) → path_eq target q ≡ false → lookup q d' ≡ lookup q d)
  unfolding write_gzip
  lookup-write_gzip stream target d d' b b' size h = elim (Bool-cases stream.opens) [
    | inr shut ↦ absurd (give_up-ne-ok archive_corrupt target d d' b b' size (rw shut at h))
    | inl open_ ↦ elim (Option-cases (lookup target d)) [
      | inr (n, there) ↦
          absurd (give_up-ne-ok target_conflict target d d' b b' size (rw (open_, there) at h))
      | inl free ↦
          let copied =
            copy_gzip-IsCopied stream.breaks target stream.chunks 0 (put target (file 0) d) b size
              d' b' (omega arith) (put-file target 0 d)
              (after_gzip-eq-ok target d'
                (copy_gzip charge limit stream.breaks target stream.chunks 0 (put target (file 0) d)
                  b)
                b' size (rw (open_, free) at h)) in
          (
            free,
            copied.whole,
            omega (arith, copied.all_),
            copied.holds,
            copied.within,
            λ q other. copied.spared q other ∙ put-elsewhere target q (file 0) d other,
          )
    ]
  ]

  -- Where the source opens and the target is already a regular file, the call fails with a conflict,
  -- and the file that was there is deleted.
  pub write_gzip-deletes_existing :
      (stream : Stream) (target : FilePath) (d : Disk) (b : B) (old : ℕ)
      → stream.opens ≡ true
      → lookup target d ≡ some (file old)
      → ((write_gzip charge limit stream target d b).0 ≡ err target_conflict)
        × (lookup target (write_gzip charge limit stream target d b).1 ≡ none)
  unfolding write_gzip
  write_gzip-deletes_existing stream target d b old open_ there =
      ground (arith, lookup-erase target target d, path_eq_iff target target)
