-- ===== src/Extraction/Matching.antt =====
-- decompress_matching_members of app/services/extraction/nested.py, on members that are sorted.
use patrol_x.Base.{
  ℕ, suc, ◌+◌, ◌≡◌, sym, arith, Bool, true, false, List, [], ◌∷◌, ◌++◌, Result, ok, err, ◌>>=◌,
  >>=-eq-ok, ok_injective, if◌then◌else◌,
}
use mathlib.Core.Path.{ap}
use patrol_x.Base.Lists.{length, length-append}
use patrol_x.Base.Text.{Text}
use patrol_x.Archive.Errors.{ErrorCode, UnpackLimit, Checked}
use patrol_x.Archive.Disk.{FilePath, Disk}
use patrol_x.Archive.Target.{Stream}
use patrol_x.Extraction.Patterns.{Names, member_pattern_matches}
use patrol_x.Extraction.Selection.{MemberError, is_single_file_gzip, decompress_member_gzip}

-- `output`, as relative paths, `member_errors` and the disk
pub record Decompressed : Type 0 where
  pub output : List Text
  pub member_errors : List MemberError
  pub disk : Disk

module _ (names : Names) where
  -- `any(_member_pattern_matches(pattern, member_relative) for pattern in patterns)`
  unfoldable pub any_pattern : List Text → Text → Checked Bool
  unfolding member_pattern_matches
  any_pattern [] member_relative = ok false
  any_pattern (pattern ∷ rest) member_relative =
      let others = any_pattern rest member_relative in
      member_pattern_matches names pattern member_relative >>= λ matches.
      if matches then ok true else others

  -- The condition of the loop: the patterns are read for a GZIP only.
  abbrev pub is_wanted : List Text → Text → Checked Bool
  is_wanted patterns member_relative =
      let matches = any_pattern patterns member_relative in
      if is_single_file_gzip names member_relative then matches else ok false

  abbrev pub note_output : Text → Result ErrorCode Text × Disk → Decompressed → Decompressed
  note_output member_relative (err code, d) s = record s {
    member_errors =
        s.member_errors ++ record { member_relative = member_relative; error = code } ∷ [];
    disk = d;
  }
  note_output member_relative (ok final, d) s = record s {
    output = s.output ++ final ∷ [];
    disk = d;
  }

  module _ (limit : UnpackLimit) (streams : Text → Stream) (staging_root : FilePath) where
    abbrev pub pass_member : Bool → Text → Decompressed → Decompressed
    pass_member true member_relative s =
        note_output member_relative
          (decompress_member_gzip names limit streams staging_root member_relative s.disk) s
    pass_member false member_relative s = note_output member_relative (ok member_relative, s.disk) s

    -- The loop; an error of a pattern's match ends it.
    unfoldable pub decompress_matching : List Text → List Text → Decompressed → Checked Decompressed
    unfolding any_pattern decompress_member_gzip
    decompress_matching patterns [] s = ok s
    decompress_matching patterns (member_relative ∷ rest) s = do
      wanted ← is_wanted patterns member_relative
      decompress_matching patterns rest (pass_member wanted member_relative s)

    abbrev passed : Decompressed → ℕ
    passed s = length s.output + length s.member_errors

    note_output-passed :
        (member_relative : Text) (outcome : Result ErrorCode Text × Disk) (s : Decompressed)
        → passed (note_output member_relative outcome s) ≡ suc (passed s)
    note_output-passed m (err code, d) s =
        omega
          (arith, length-append s.member_errors (record { member_relative = m; error = code } ∷ []))
    note_output-passed m (ok final, d) s = omega (arith, length-append s.output (final ∷ []))

    pass_member-passed :
        (wanted : Bool) (member_relative : Text) (s : Decompressed)
        → passed (pass_member wanted member_relative s) ≡ suc (passed s)
    pass_member-passed true m s =
        note_output-passed m (decompress_member_gzip names limit streams staging_root m s.disk) s
    pass_member-passed false m s = note_output-passed m (ok m, s.disk) s

    -- When the loop returns, each member is in the output or among the errors.
    pub decompress_matching-passed :
        (patterns members : List Text) (s last : Decompressed)
        → decompress_matching patterns members s ≡ ok last
        → passed last ≡ passed s + length members
    unfolding decompress_matching
    decompress_matching-passed patterns [] s last h =
        omega (arith, ap passed (sym (ok_injective h)))
    decompress_matching-passed patterns (m ∷ rest) s last h =
        let (wanted, found, h') =
          >>=-eq-ok (is_wanted patterns m)
            (λ wanted. decompress_matching patterns rest (pass_member wanted m s)) h in
        omega (
          arith,
          decompress_matching-passed patterns rest (pass_member wanted m s) last h',
          pass_member-passed wanted m s,
        )
