-- ===== src/Archive/ZipDirectory/Scan.antt =====
-- The scan of the central directory ends, and what it passes is a chain of entries without a NUL.
use mathlib.Core.Path.{ap, subst}
use patrol_x.Base.{
  ℕ, zero, suc, ◌+◌, ◌<◌, ◌≤◌, ◌≡◌, ◌≢◌, refl, sym, ◌∙◌, true, ◌==◌, List, [], ◌∷◌, ◌++◌, Option,
  none, some, arith, ltb, ok, err, Bool-cases, inl, inr,
}
use patrol_x.Base.Lists.{All, length, take, drop, length-take-le}
use patrol_x.Base.Text.{text_eq, text_eq_iff}
use patrol_x.Base.Text.Chars.{Lacks}
use patrol_x.Archive.Errors.{Checked, archive_corrupt}
use patrol_x.Archive.ZipDirectory.{
  Bytes, slice, le_number, header_mark, read_entry, after_entry, scan_entries, scan_directory,
  central_directory, reject_unsafe_zip_raw_names,
}

-- The scan's own reading of an entry, taken apart.
read_entry-eq-ok :
    (b : Bytes) (pos size : ℕ)
    → read_entry b pos ≡ ok size
    → let header = slice b pos 46 in
      let n = le_number (slice header 28 2) in
      (46 ≤ length header)
      × (text_eq (take 4 header) header_mark ≡ true)
      × (length (slice b (pos + 46) n) ≡ n)
      × Lacks 0 (slice b (pos + 46) n)
      × (size ≡ 46 + n + le_number (slice header 30 2) + le_number (slice header 32 2))
unfolding read_entry
read_entry-eq-ok b pos size h = ground arith

-- An entry of a central directory at `pos`: a header of 46 bytes, which gives the lengths, and behind
-- it the raw name.
pub record IsEntry (b : Bytes) (pos : ℕ) (name : Bytes) (size : ℕ) : Type 0 where
  pub header : Bytes
  pub behind : Bytes
  pub stands : drop pos b ≡ header ++ (name ++ behind)
  pub header_length : length header ≡ 46
  pub marked : take 4 header ≡ header_mark
  pub name_length : length name ≡ le_number (slice header 28 2)
  pub entry_length :
      size ≡ 46 + length name + le_number (slice header 30 2) + le_number (slice header 32 2)

-- The bytes from `pos` up to `end` are entries, one behind the other, with these raw names.
abbrev pub Entries : Bytes → ℕ → ℕ → List Bytes → Type 0
Entries b pos end [] = pos ≡ end
Entries b pos end (name ∷ names) =
    (size : ℕ) × IsEntry b pos name size × Entries b (pos + size) end names

cut : (n : ℕ) (b : Bytes) → b ≡ take n b ++ drop n b
cut zero b = refl
cut (suc n) [] = refl
cut (suc n) (x ∷ b) = ap (λ l. x ∷ l) (cut n b)

drop_nil : (n : ℕ) → drop {A = ℕ} n [] ≡ []
drop_nil zero = refl
drop_nil (suc n) = refl

drop-drop : (n m : ℕ) (b : Bytes) → drop m (drop n b) ≡ drop (n + m) b
drop-drop zero m b = ap (λ k. drop k b) (omega arith)
drop-drop (suc n) m [] = drop_nil m ∙ sym (drop_nil (suc n + m))
drop-drop (suc n) m (x ∷ b) = drop-drop n m b ∙ ap (λ k. drop k (x ∷ b)) shifted
  where
    shifted : suc (n + m) ≡ suc n + m
    shifted = omega arith

read_entry-IsEntry :
    (b : Bytes) (pos size : ℕ)
    → read_entry b pos ≡ ok size
    → ((name : Bytes) × IsEntry b pos name size × Lacks 0 name) × (46 ≤ size)
read_entry-IsEntry b pos size h =
    let header : Bytes = slice b pos 46 in
    let n : ℕ = le_number (slice header 28 2) in
    let name : Bytes = slice b (pos + 46) n in
    let (long, marked, named, lacks, sized) = read_entry-eq-ok b pos size h in
    (
      (
        name,
        record {
          header = header;
          behind = drop n (drop (pos + 46) b);
          stands =
              cut 46 (drop pos b)
              ∙ ap (λ l. header ++ l) (drop-drop pos 46 b ∙ cut n (drop (pos + 46) b));
          header_length = omega (arith, long, length-take-le 46 (drop pos b));
          marked = (text_eq_iff (take 4 header) header_mark).0 marked;
          name_length = named;
          entry_length = omega (arith, sized, named);
        },
        lacks,
      ),
      omega (arith, sized),
    )

after_entry-ne-none :
    (entry : Checked ℕ) (next : ℕ → Option (Checked (Unit {0})))
    → ((size : ℕ) → entry ≡ ok size → next size ≢ none)
    → after_entry entry next ≢ none
after_entry-ne-none (err code) next h e = cc
after_entry-ne-none (ok size) next h e = ground (arith, h size refl)

scan_entries_ends :
    (fuel : ℕ) (b : Bytes) (cd_offset cd_size consumed : ℕ)
    → 0 < fuel
    → cd_size < consumed + fuel
    → scan_entries fuel b cd_offset cd_size consumed ≢ none
unfolding scan_entries
scan_entries_ends zero b cd_offset cd_size consumed pos h = absurd (omega arith)
scan_entries_ends (suc fuel) b cd_offset cd_size consumed pos h =
    elim (Bool-cases (ltb consumed cd_size)) [
      | inl more ↦ rw more (
          after_entry-ne-none (read_entry b (cd_offset + consumed)) _ λ size e.
            let big : 46 ≤ size = (read_entry-IsEntry b _ size e).1 in
            scan_entries_ends fuel b cd_offset cd_size (consumed + size) (ground arith)
              (ground arith))
      | inr done ↦ rw done (λ e. cc)
    ]

scan_entries-Entries :
    (fuel : ℕ) (b : Bytes) (cd_offset cd_size consumed : ℕ)
    → scan_entries fuel b cd_offset cd_size consumed ≡ some (ok tt)
    → (names : List Bytes) × Entries b (cd_offset + consumed) (cd_offset + cd_size) names
      × All (Lacks 0) names
unfolding scan_entries
scan_entries-Entries zero b cd_offset cd_size consumed h = cc
scan_entries-Entries (suc fuel) b cd_offset cd_size consumed h =
    elim (Bool-cases (ltb consumed cd_size)) [
      | inl more ↦
          entered (read_entry b (cd_offset + consumed)) refl
            (λ size. scan_entries-Entries fuel b cd_offset cd_size (consumed + size)) (rw more at h)
      | inr done ↦ elim (Bool-cases (consumed == cd_size)) [
        | inl met ↦ ([], ground arith, tt)
        | inr over ↦ absurd (clash (rw (done, over) at h))
      ]
    ]
  where
    clash : ◌≡◌ {A = Option (Checked (Unit {0}))} (some (err archive_corrupt)) (some (ok tt)) → ⊥
    clash e = cc

    entered :
        (entry : Checked ℕ)
        → read_entry b (cd_offset + consumed) ≡ entry
        → ((size : ℕ)
            → scan_entries fuel b cd_offset cd_size (consumed + size) ≡ some (ok tt)
            → (names : List Bytes) × Entries b
                (cd_offset + (consumed + size))
                (cd_offset + cd_size)
                names
              × All (Lacks 0) names)
        → after_entry entry (λ size. scan_entries fuel b cd_offset cd_size (consumed + size))
          ≡ some (ok tt)
        → (names : List Bytes) × Entries b (cd_offset + consumed) (cd_offset + cd_size) names
          × All (Lacks 0) names
    entered (err code) e later h = cc
    entered (ok size) e later h =
        let (names, entries, safe) = later size h in
        let ((name, entry, lacks), long) = read_entry-IsEntry b (cd_offset + consumed) size e in
        let behind : Entries b (cd_offset + consumed + size) (cd_offset + cd_size) names =
          subst (λ k. Entries b k (cd_offset + cd_size) names) (omega arith) entries in
        (name ∷ names, (size, entry, behind), (lacks, safe))

-- The scan of the central directory always ends with a verdict, whatever the bytes are.
pub reject_unsafe_zip_raw_names_ends : (b : Bytes) → reject_unsafe_zip_raw_names b ≢ none
unfolding reject_unsafe_zip_raw_names
reject_unsafe_zip_raw_names_ends b = verdict (central_directory b)
  where
    verdict : (place : Checked (ℕ × ℕ)) → scan_directory b place ≢ none
    verdict (err code) e = cc
    verdict (ok (cd_size, cd_offset)) e =
        scan_entries_ends (suc cd_size) b cd_offset cd_size 0 (omega arith) (omega arith) e

-- When the scan passes a file, the bytes of its central directory, at the place that the end record
-- gives, are from the first to the last one entry behind the other, and none of their raw names
-- holds a NUL.
pub reject_unsafe_zip_raw_names-Entries :
    (b : Bytes)
    → reject_unsafe_zip_raw_names b ≡ some (ok tt)
    → (cd_size : ℕ) × (cd_offset : ℕ) × (names : List Bytes) × (central_directory b
        ≡ ok (cd_size, cd_offset))
      × Entries b cd_offset (cd_offset + cd_size) names
      × All (Lacks 0) names
unfolding reject_unsafe_zip_raw_names
reject_unsafe_zip_raw_names-Entries b h = verdict (central_directory b) refl h
  where
    verdict :
        (place : Checked (ℕ × ℕ))
        → central_directory b ≡ place
        → scan_directory b place ≡ some (ok tt)
        → (cd_size : ℕ) × (cd_offset : ℕ) × (names : List Bytes) × (central_directory b
            ≡ ok (cd_size, cd_offset))
          × Entries b cd_offset (cd_offset + cd_size) names
          × All (Lacks 0) names
    verdict (err code) e h = cc
    verdict (ok (cd_size, cd_offset)) e h =
        let (names, entries, safe) = scan_entries-Entries (suc cd_size) b cd_offset cd_size 0 h in
        (
          cd_size,
          cd_offset,
          names,
          e,
          subst (λ k. Entries b k (cd_offset + cd_size) names) (omega arith) entries,
          safe,
        )
