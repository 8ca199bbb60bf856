-- ===== src/Extraction/Patterns/Fits.antt =====
-- What a pattern means.
use patrol_x.Base.{
  ◌≡◌, ◌↔◌, ◌⊎◌, refl, sym, Bool, true, false, not, ◌&&◌, ◌||◌, List, [], ◌∷◌, ◌++◌, inl, inr,
  if◌then◌else◌, &&-true,
}
use mathlib.Core.Path.{ap, subst}
use patrol_x.Base.Dict.{text_eq_refl}
use patrol_x.Base.Lists.{is_nil}
use patrol_x.Base.Text.{Text, text_eq, text_eq_iff}
use patrol_x.Extraction.Patterns.{Names, stars, any_suffix, match_segment, match_parts}

module _ (names : Names) where
  -- One segment, followed by others of which `rest` says what they fit: `**` stands for any run of
  -- segments, and as the last one for a run that is not empty; another segment stands for itself,
  -- and as the last one for a name that it matches as a glob.
  abbrev pub FitsFrom : Bool → Text → List Text → (List Text → Type 0) → List Text → Type 0
  FitsFrom true segment [] rest actual = is_nil actual ≡ false
  FitsFrom true segment (s ∷ others) rest actual =
      (above : List Text) × (below : List Text) × (actual ≡ above ++ below) × rest below
  FitsFrom false segment [] rest actual =
      (name : Text) × (actual ≡ name ∷ []) × (names.fnmatchcase name segment ≡ true)
  FitsFrom false segment (s ∷ others) rest actual =
      (below : List Text) × (actual ≡ segment ∷ below) × rest below

  abbrev pub Fits : List Text → List Text → Type 0
  Fits [] actual = is_nil actual ≡ true
  Fits (segment ∷ others) actual =
      FitsFrom (text_eq segment stars) segment others (Fits others) actual

  or_cases : (a b : Bool) → (a || b) ≡ true → (a ≡ true) ⊎ (b ≡ true)
  or_cases true b h = inl refl
  or_cases false b h = inr h

  below_holds :
      (test : List Text → Bool) (above below : List Text)
      → test below ≡ true
      → any_suffix names test (above ++ below) ≡ true
  below_holds test [] [] h = h
  below_holds test [] (b ∷ below) h = rw h refl
  below_holds test (a ∷ above) below h =
      or_right (test (a ∷ (above ++ below))) (below_holds test above below h)
    where
      or_right : (x : Bool) {y : Bool} → y ≡ true → (x || y) ≡ true
      or_right true k = refl
      or_right false k = k

  any_suffix_iff :
      (test : List Text → Bool) (P : List Text → Type 0)
      → ((l : List Text) → (test l ≡ true) ↔ P l)
      → (actual : List Text)
      → (any_suffix names test actual ≡ true)
        ↔ ((above : List Text) × (below : List Text) × (actual ≡ above ++ below) × P below)
  any_suffix_iff test P same [] = (
    λ h. ([], [], refl, (same []).0 h),
    λ (above, below, e, h).
        subst (λ l. any_suffix names test l ≡ true) (sym e)
          (below_holds test above below ((same below).1 h)),
  )
  any_suffix_iff test P same (a ∷ actual) = (
    λ h. elim (or_cases (test (a ∷ actual)) (any_suffix names test actual) h) [
      | inl first ↦ ([], a ∷ actual, refl, (same (a ∷ actual)).0 first)
      | inr later ↦
          let (above, below, e, k) = (any_suffix_iff test P same actual).0 later in
          (a ∷ above, below, ap (a ∷◌) e, k)
    ],
    λ (above, below, e, h).
        subst (λ l. any_suffix names test l ≡ true) (sym e)
          (below_holds test above below ((same below).1 h)),
  )

  -- The recursive match accepts exactly the paths that fit the pattern: a segment `**` stands for any
  -- run of segments, and at the end for one that is not empty, another segment stands for itself, and
  -- at the end for one name that it matches as a glob.
  pub match_parts_iff :
      (segments actual : List Text)
      → (match_parts names segments actual ≡ true) ↔ Fits segments actual
  unfolding match_parts
  match_parts_iff [] actual = (λ h. h, λ h. h)
  match_parts_iff (segment ∷ others) actual =
      starred (text_eq segment stars) others (match_parts_iff others) actual
    where
      named_last :
          (a : Text) (l : List Text)
          → (is_nil l && names.fnmatchcase a segment) ≡ true
          → FitsFrom false segment [] (Fits []) (a ∷ l)
      named_last a [] h = (a, refl, h)
      named_last a (b ∷ l) h = cc

      named :
          (others : List Text)
          → ((l : List Text) → (match_parts names others l ≡ true) ↔ Fits others l)
          → (l : List Text)
          → (match_segment names segment others (match_parts names others) l ≡ true)
            ↔ FitsFrom false segment others (Fits others) l
      named [] same [] = (λ h. cc, λ (a, e, h). cc)
      named [] same (a ∷ l) = (
        named_last a l,
        λ (name, e, h).
            subst (λ x. match_segment names segment [] (match_parts names []) x ≡ true) (sym e) h,
      )
      named (s ∷ others) same [] = (λ h. cc, λ (below, e, h). cc)
      named (s ∷ others) same (a ∷ l) = (
        λ h.
            let (here, rest) = &&-true (text_eq a segment) (match_parts names (s ∷ others) l) h in
            (l, ap (λ (x : Text). x ∷ l) ((text_eq_iff a segment).0 here), (same l).0 rest),
        λ (below, e, h).
            subst
              (λ x.
                match_segment names segment (s ∷ others) (match_parts names (s ∷ others)) x ≡ true)
              (sym e) (rw (text_eq_refl segment) ((same below).1 h)),
      )

      starred :
          (b : Bool) (others : List Text)
          → ((l : List Text) → (match_parts names others l ≡ true) ↔ Fits others l)
          → (l : List Text)
          → ((if b
                then (if is_nil others
                    then not (is_nil l)
                    else any_suffix names (match_parts names others) l)
                else match_segment names segment others (match_parts names others) l)
              ≡ true)
            ↔ FitsFrom b segment others (Fits others) l
      starred true [] same [] = (λ h. cc, λ h. cc)
      starred true [] same (a ∷ l) = (λ h. refl, λ h. refl)
      starred true (s ∷ others) same l =
          any_suffix_iff (match_parts names (s ∷ others)) (Fits (s ∷ others)) same l
      starred false others same l = named others same l
