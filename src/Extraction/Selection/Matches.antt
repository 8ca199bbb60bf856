-- ===== src/Extraction/Selection/Matches.antt =====
-- Which patterns of a selection match a member.
use patrol_x.Base.{
  ◌≡◌, ◌⊎◌, refl, sym, ◌∙◌, Bool, true, false, List, [], ◌∷◌, Option, none, some, inl, inr, Result,
  ok, err, ◌>>=◌, >>=-eq-ok, ok_injective, Bool-cases, if◌then◌else◌,
}
use mathlib.Core.Path.{ap, subst}
use patrol_x.Base.Lists.{All, all}
use patrol_x.Base.Lists.Every.{Some}
use patrol_x.Base.Text.{Text, text_eq_iff}
use patrol_x.Archive.Errors.{Checked}
use patrol_x.Extraction.Patterns.{Names, member_pattern_matches}
use patrol_x.Extraction.Selection.{
  SelectionInclude, SelectionExclude, Stopped, of_name, first_exclude, matching_includes,
  service_eq, one_service, selected_include,
}

pub of_name-eq-ok : {A : Type 0} (o : Checked A) (a : A) → of_name o ≡ ok a → o ≡ ok a
of_name-eq-ok (err code) a h = cc
of_name-eq-ok (ok b) a h = ap ok (ok_injective h)

module _ (names : Names) (member : Text) where
  abbrev pub Matches : Text → Bool → Type 0
  Matches pattern verdict = member_pattern_matches names pattern member ≡ ok verdict

  -- No pattern of the list matches the member.
  abbrev pub IsFree : List SelectionExclude → Type 0
  IsFree exclude = All (λ item. Matches item.pattern false) exclude

  -- Some pattern of the list matches the member, and all that do have this service.
  abbrev pub IsChosen : Option Text → List SelectionInclude → Type 0
  IsChosen service include =
      Some (λ item. Matches item.pattern true × (service ≡ item.service)) include
      × All
          (λ item.
            Matches item.pattern false ⊎ Matches item.pattern true × (service ≡ item.service))
          include

  pub first_exclude-IsFree :
      (exclude : List SelectionExclude)
      → first_exclude names exclude member ≡ ok none
      → IsFree exclude
  unfolding first_exclude
  first_exclude-IsFree [] h = tt
  first_exclude-IsFree (item ∷ rest) h =
      let (matches, e, h') =
        >>=-eq-ok (member_pattern_matches names item.pattern member)
          (λ matches. if matches then ok (some item) else first_exclude names rest member) h in
      elim (Bool-cases matches) [
        | inl yes_ ↦ absurd (clash (rw yes_ at h'))
        | inr no_ ↦ (e ∙ ap ok no_, first_exclude-IsFree rest (rw no_ at h'))
      ]
    where
      clash : ◌≡◌ {A = Checked (Option SelectionExclude)} (ok (some item)) (ok none) → ⊥
      clash h = cc

  -- What holds of the found patterns holds of those that match, and one of them does if any is found.
  matching_includes-All :
      (Q : SelectionInclude → Type 0) (include found : List SelectionInclude)
      → matching_includes names include member ≡ ok found
      → All Q found
      → All (λ item. Matches item.pattern false ⊎ Matches item.pattern true × Q item) include
        × ((found ≡ []) ⊎ Some (λ item. Matches item.pattern true × Q item) include)
  unfolding matching_includes
  matching_includes-All Q [] found h q = (tt, inl (sym (ok_injective h)))
  matching_includes-All Q (item ∷ rest) found h q =
      let (matches, e, h') =
        >>=-eq-ok (member_pattern_matches names item.pattern member)
          (λ matches. matching_includes names rest member >>= λ others.
            ok (if matches then item ∷ others else others))
          h in
      let (others, later, last) =
        >>=-eq-ok (matching_includes names rest member)
          (λ others. ok (if matches then item ∷ others else others)) h' in
      split matches others e (ok_injective last) (matching_includes-All Q rest others later)
    where
      split :
          (matches : Bool) (others : List SelectionInclude)
          → member_pattern_matches names item.pattern member ≡ ok matches
          → (if matches then item ∷ others else others) ≡ found
          → (All Q others
              → All (λ i. Matches i.pattern false ⊎ Matches i.pattern true × Q i) rest
                × ((others ≡ []) ⊎ Some (λ i. Matches i.pattern true × Q i) rest))
          → All (λ i. Matches i.pattern false ⊎ Matches i.pattern true × Q i) (item ∷ rest)
            × ((found ≡ []) ⊎ Some (λ i. Matches i.pattern true × Q i) (item ∷ rest))
      split true others e same later =
          let holds : All Q (item ∷ others) = subst (All Q) (sym same) q in
          ((inr (e, holds.0), (later holds.1).0), inr (inl (e, holds.0)))
      split false others e same later =
          let holds : All Q others = subst (All Q) (sym same) q in
          let (every, some_) = later holds in
          ((inl e, every), elim some_ [ inl none_ ↦ inl (sym same ∙ none_) | inr h ↦ inr (inr h) ])

  service_eq-true : (s t : Option Text) → service_eq names s t ≡ true → s ≡ t
  service_eq-true none none h = refl
  service_eq-true none (some t) h = cc
  service_eq-true (some s) none h = cc
  service_eq-true (some s) (some t) h = ap some ((text_eq_iff s t).0 h)

  services-All :
      (service : Option Text) (rest : List SelectionInclude)
      → all (λ (other : SelectionInclude). service_eq names service other.service) rest ≡ true
      → All (λ item. service ≡ item.service) rest
  services-All service [] h = tt
  services-All service (item ∷ rest) h = elim (Bool-cases (service_eq names service item.service)) [
    | inl same ↦
        (service_eq-true service item.service same, services-All service rest (rw same at h))
    | inr other ↦ absurd (clash (rw other at h))
  ]
    where
      clash : false ≡ true → ⊥
      clash h = cc

  pub selected_include-IsChosen :
      (include : List SelectionInclude) (item : SelectionInclude)
      → selected_include names include member ≡ ok (some item)
      → IsChosen item.service include
  unfolding selected_include
  selected_include-IsChosen include item h =
      let (found, e, h') =
        >>=-eq-ok (of_name (matching_includes names include member)) (one_service names) h in
      chosen found (of_name-eq-ok (matching_includes names include member) found e) h'
    where
      chosen :
          (found : List SelectionInclude)
          → matching_includes names include member ≡ ok found
          → one_service names found ≡ ok (some item)
          → IsChosen item.service include
      chosen [] e h = cc
      chosen (first ∷ rest) e h =
          elim (Bool-cases (
            all (λ (other : SelectionInclude). service_eq names first.service other.service)
              rest)) [
                | inr mixed ↦ absurd (clash (rw mixed at h))
                | inl same ↦
                    let it : first ≡ item = picked (rw same at h) in
                    let (every, some_) =
                      matching_includes-All (λ i. item.service ≡ i.service) include (first ∷ rest) e
                        (subst
                          (λ (i : SelectionInclude).
                            All (λ (o : SelectionInclude). i.service ≡ o.service) (first ∷ rest))
                          it (refl, services-All first.service rest same)) in
                    elim some_ [ inl none_ ↦ absurd (filled none_) | inr h ↦ (h, every) ]
              ]
        where
          clash :
              ◌≡◌ {A = Result Stopped (Option SelectionInclude)}
                (err Stopped.invalid_classification_config)
                (ok (some item))
              → ⊥
          clash h = cc

          picked :
              ◌≡◌ {A = Result Stopped (Option SelectionInclude)} (ok (some first)) (ok (some item))
              → first ≡ item
          picked h = cc

          filled : first ∷ rest ≡ [] → ⊥
          filled h = cc
