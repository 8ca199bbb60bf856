-- ===== src/Archive/Gzip/Tests.antt =====
-- One stream, unpacked to a free target and to a taken one.
use patrol_x.Base.{ℕ, ◌*◌, ◌≤◌, ◌≡◌, refl, true, false, [], ◌∷◌, none, some, Result, ok, err}
use patrol_x.Base.Text.{codes}
use patrol_x.Archive.Errors.{ErrorCode, default_limit, target_conflict}
use patrol_x.Archive.Disk.{FilePath, dir, file, Disk, lookup, put, erase, path_eq}
use patrol_x.Base.Lists.{sum}
use patrol_x.Archive.Target.{Stream}
use patrol_x.Archive.Gzip.{write_gzip}
use patrol_x.Archive.Gzip.Guarantees.{lookup-write_gzip, write_gzip-deletes_existing}

abbrev folder : FilePath
folder = codes "out" ∷ []

abbrev taken : FilePath
taken = codes "out" ∷ codes "a" ∷ []

abbrev free : FilePath
free = codes "out" ∷ codes "b" ∷ []

abbrev before : Disk
before = (folder, dir) ∷ (taken, file 9) ∷ []

abbrev stream : Stream
stream = record { opens = true; chunks = 3 ∷ 4 ∷ []; breaks = false }

abbrev count : ℕ → ℕ → Result ErrorCode (Unit {0}) × ℕ
count n b = (ok tt, b)

abbrev after : Disk
after = put free (file 7) before

written : write_gzip count default_limit stream free before 0 ≡ (ok 7, after, 0)
unfolding write_gzip lookup put erase
written = refl

lookup-write_gzip_example :
    (lookup free before ≡ none)
    × (stream.breaks ≡ false)
    × (7 ≡ sum stream.chunks)
    × (lookup free after ≡ some (file 7))
    × (7 ≤ 2 * 1024 * 1024 * 1024)
    × ((q : FilePath) → path_eq free q ≡ false → lookup q after ≡ lookup q before)
lookup-write_gzip_example =
    lookup-write_gzip count default_limit stream free before after 0 0 7 written

write_gzip-deletes_existing_example :
    ((write_gzip count default_limit stream taken before 0).0 ≡ err target_conflict)
    × (lookup taken (write_gzip count default_limit stream taken before 0).1 ≡ none)
unfolding lookup
write_gzip-deletes_existing_example =
    write_gzip-deletes_existing count default_limit stream taken before 0 9 refl refl
