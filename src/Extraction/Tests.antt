-- ===== src/Extraction/Tests.antt =====
-- A task that charges two files and a chunk, a pattern, and a selection of three members.
use patrol_x.Base.{◌≤◌, ◌≡◌, ◌↔◌, refl, arith, true, false, List, [], ◌∷◌, some, ok}
use patrol_x.Base.Lists.{All, any, length}
use patrol_x.Base.Text.{Text, codes, text_eq, replace_char}
use patrol_x.Archive.Errors.{default_limit}
use patrol_x.Archive.Disk.{
  Disk, dir, file, is_symlink, is_relative_to, resolve, make_dirs, put, erase,
}
use patrol_x.Archive.Target.{Stream, resolve_member_target, link_on_way}
use patrol_x.Extraction.Patterns.{Names, stars, match_parts}
use patrol_x.Extraction.Patterns.Fits.{Fits, match_parts_iff}
use patrol_x.Extraction.Selection.{SelectionInclude, SelectionExclude, Progress, select_members}
use patrol_x.Extraction.Selection.Sources.{ComesFrom, settled, select_members-ComesFrom}
use patrol_x.Extraction.Budget.{
  Item, placed_file, gzip_chunk, fresh, charge, charge_all, max_files, max_total_bytes,
}
use patrol_x.Extraction.Budget.Limits.{charge_all-eq-ok}

abbrev items : List Item
items = placed_file 10 ∷ gzip_chunk 5 ∷ placed_file 7 ∷ []

all_charged : (charge_all items fresh).0 ≡ ok tt
unfolding charge_all charge
all_charged = refl

charge_all-eq-ok_example :
    ((charge_all items fresh).1.files ≡ 2)
    × ((charge_all items fresh).1.bytes ≡ 22)
    × ((charge_all items fresh).1.files ≤ max_files)
    × ((charge_all items fresh).1.bytes ≤ max_total_bytes)
charge_all-eq-ok_example = charge_all-eq-ok items fresh (omega arith) (omega arith) all_charged

abbrev names : Names
names = record { casefold = λ s. s; fnmatchcase = text_eq }

match_parts_iff_example :
    (match_parts names (stars ∷ codes "a" ∷ []) (codes "x" ∷ codes "y" ∷ codes "a" ∷ []) ≡ true)
    ↔ Fits names (stars ∷ codes "a" ∷ []) (codes "x" ∷ codes "y" ∷ codes "a" ∷ [])
match_parts_iff_example =
    match_parts_iff names (stars ∷ codes "a" ∷ []) (codes "x" ∷ codes "y" ∷ codes "a" ∷ [])

abbrev include : List SelectionInclude
include = record { pattern = codes "**/b.gz"; service = some (codes "s") } ∷ []

abbrev exclude : List SelectionExclude
exclude = record { pattern = codes "a"; reason = codes "no" } ∷ []

abbrev members : List Text
members = codes "a" ∷ codes "b.gz" ∷ codes "c" ∷ []

abbrev disk : Disk
disk =
    (codes "r" ∷ [], dir)
    ∷ (codes "r" ∷ codes "a" ∷ [], file 1)
    ∷ (codes "r" ∷ codes "b.gz" ∷ [], file 2)
    ∷ (codes "r" ∷ codes "c" ∷ [], file 3)
    ∷ []

abbrev streams : Text → Stream
streams m = record { opens = true; chunks = 4 ∷ []; breaks = false }

abbrev selection : Progress
selection = record {
  selected =
      record {
        path = codes "r" ∷ codes "b" ∷ [];
        member_relative = codes "b";
        service = some (codes "s");
      }
      ∷ [];
  ignored =
      record { member_relative = codes "a"; reason = codes "no" }
      ∷ record { member_relative = codes "c"; reason = codes "member_not_selected" }
      ∷ [];
  member_errors = [];
  disk =
      (codes "r" ∷ codes "b" ∷ [], file 4)
      ∷ (codes "r" ∷ [], dir)
      ∷ (codes "r" ∷ codes "a" ∷ [], file 1)
      ∷ (codes "r" ∷ codes "c" ∷ [], file 3)
      ∷ [];
}

selected :
    select_members names default_limit streams
      (codes "r" ∷ [])
      include
      exclude
      members
      (record { selected = []; ignored = []; member_errors = []; disk = disk })
    ≡ ok selection
unfolding select_members replace_char resolve_member_target is_symlink link_on_way is_relative_to
    resolve make_dirs put erase
selected = refl

select_members-ComesFrom_example :
    (settled selection ≡ length members)
    × All
        (ComesFrom names include exclude (codes "r" ∷ []) (λ m. any (text_eq m) members ≡ true))
        selection.selected
select_members-ComesFrom_example =
    select_members-ComesFrom names include exclude (codes "r" ∷ []) default_limit streams members
      disk selection selected
