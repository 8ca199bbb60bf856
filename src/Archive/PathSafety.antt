-- ===== src/Archive/PathSafety.antt =====
-- What a normalised member path is.
use mathlib.Core.Path.{subst}
use patrol_x.Base.{
  ◌||◌, ◌≡◌, ◌≢◌, refl, true, false, List, [], ◌∷◌, arith, Result, ok, err, ◌>>=◌, >>=-eq-ok,
  Bool-cases, inl, inr,
}
use patrol_x.Base.Lists.{is_nil, All}
use patrol_x.Base.Text.{
  Text, text_eq, text_eq_iff, has_char, strip, replace_char, split_char, join_char,
}
use patrol_x.Base.Text.Chars.{
  Lacks, Lacks-strip, Lacks-replace_char_self, Lacks-replace_char, Lacks-split_char_self,
  Lacks-split_char,
}
use patrol_x.Archive.Errors.{ErrorCode, unsafe_path}
use patrol_x.Archive.MemberPath.{
  slash, backslash, dot, dot_dot, clean_parts, finish_path, normalize_member_path, is_rooted,
  has_drive,
}

-- A path segment that names an entry of the directory it stands in.
pub record IsSafePart (p : Text) : Type 0 where
  pub filled : p ≢ []
  pub not_dot : p ≢ dot
  pub not_parent : p ≢ dot_dot
  pub no_slash : Lacks slash p
  pub no_backslash : Lacks backslash p
  pub no_nul : Lacks 0 p

abbrev IsPlain : Text → Type 0
IsPlain p = Lacks slash p × Lacks backslash p × Lacks 0 p

IsSafePart-of_tests :
    (p : Text)
    → IsPlain p
    → is_nil p ≡ false
    → text_eq p dot ≡ false
    → text_eq p dot_dot ≡ false
    → IsSafePart p
IsSafePart-of_tests p plain filled not_dot not_parent = record {
  filled = λ e. ground arith;
  not_dot = λ e. cc ((text_eq_iff p dot).1 e);
  not_parent = λ e. cc ((text_eq_iff p dot_dot).1 e);
  no_slash = plain.0;
  no_backslash = plain.1;
  no_nul = plain.2;
}

All-IsPlain :
    (ps : List Text)
    → All (Lacks slash) ps
    → All (Lacks backslash) ps
    → All (Lacks 0) ps
    → All IsPlain ps
All-IsPlain [] a b c = tt
All-IsPlain (p ∷ ps) a b c = ((a.0, b.0, c.0), All-IsPlain ps a.1 b.1 c.1)

IsPlain-strip : (p : Text) → IsPlain p → IsPlain (strip p)
IsPlain-strip p h = (Lacks-strip _ p h.0, Lacks-strip _ p h.1, Lacks-strip _ p h.2)

AllSafe-cons :
    (part : Text) (others : Result ErrorCode (List Text)) (parts : List Text)
    → IsSafePart part
    → ((ps : List Text) → others ≡ ok ps → All IsSafePart ps)
    → (others >>= λ ps. ok (part ∷ ps)) ≡ ok parts
    → All IsSafePart parts
AllSafe-cons part (ok ps) parts safe rest e =
    let grown : part ∷ ps ≡ parts = ground arith in
    subst (All IsSafePart) grown (safe, rest ps refl)
AllSafe-cons part (err c) parts safe rest e = cc

clean_parts-IsSafePart :
    (raws parts : List Text) → All IsPlain raws → clean_parts raws ≡ ok parts → All IsSafePart parts
unfolding clean_parts
clean_parts-IsSafePart [] parts h e =
    subst (All IsSafePart) (let p : [] ≡ parts = ground arith in p) tt
clean_parts-IsSafePart (raw ∷ rest) parts h e = elim (Bool-cases (is_nil (strip raw))) [
  | inl empty ↦ absurd (ground arith)
  | inr filled ↦ elim (Bool-cases (text_eq (strip raw) dot)) [
    | inl skip ↦ clean_parts-IsSafePart rest parts h.1 (ground arith)
    | inr not_dot ↦ elim (Bool-cases (text_eq (strip raw) dot_dot)) [
      | inl parent ↦ absurd (ground arith)
      | inr not_parent ↦
          AllSafe-cons (strip raw) (clean_parts rest) parts
            (IsSafePart-of_tests (strip raw) (IsPlain-strip raw h.0) filled not_dot not_parent)
            (λ ps. clean_parts-IsSafePart rest ps h.1) (ground arith)
    ]
  ]
]

split-IsPlain :
    (s : Text) → Lacks 0 s → All IsPlain (split_char slash (replace_char backslash slash s))
split-IsPlain s h =
    All-IsPlain _ (Lacks-split_char_self slash _)
      (Lacks-split_char backslash slash _ (Lacks-replace_char_self backslash slash s (omega arith)))
      (Lacks-split_char 0 slash _ (Lacks-replace_char 0 backslash slash s (omega arith) h))

finish_path-eq-ok :
    (cleaned : List Text) (parts : List Text) (canonical : Text)
    → finish_path cleaned ≡ ok (parts, canonical)
    → (cleaned ≡ parts) × (parts ≢ []) × (canonical ≡ join_char slash parts)
unfolding finish_path
finish_path-eq-ok cleaned parts canonical h = (ground arith, λ e. ground arith, ground arith)

-- What is accepted names at least one entry, and every segment is a plain name: not empty, not
-- "." or "..", with no separator of either kind and no NUL. The canonical path is the segments
-- joined by "/".
pub normalize_member_path-IsSafePart :
    (member_path canonical : Text) (parts : List Text)
    → normalize_member_path member_path ≡ ok (parts, canonical)
    → All IsSafePart parts × (parts ≢ []) × (canonical ≡ join_char slash parts)
unfolding normalize_member_path
normalize_member_path-IsSafePart member_path canonical parts h =
    let no_nul : Lacks 0 member_path = ground arith in
    let (cleaned, e, f) =
      >>=-eq-ok (clean_parts (split_char slash (replace_char backslash slash (strip member_path))))
        finish_path (ground arith) in
    let (same, filled, joined) = finish_path-eq-ok cleaned parts canonical f in
    (
      subst (All IsSafePart) same
          (clean_parts-IsSafePart _ cleaned (split-IsPlain _ (Lacks-strip 0 member_path no_nul)) e),
      filled,
      joined,
    )

-- A path with a NUL, an absolute path and a path with a Windows drive are refused.
pub normalize_member_path-refuses :
    (member_path : Text)
    → (has_char 0 member_path || is_rooted (strip member_path) || has_drive (strip member_path))
      ≡ true
    → normalize_member_path member_path ≡ err unsafe_path
unfolding normalize_member_path
normalize_member_path-refuses member_path h = ground arith
