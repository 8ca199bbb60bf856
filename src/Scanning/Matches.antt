-- ===== src/Scanning/Matches.antt =====
-- Which paths a rule's patterns select.
use patrol_x.Base.{
  ◌≡◌, refl, sym, ◌∙◌, arith, Bool, true, false, ◌&&◌, List, [], ◌∷◌, inl, inr, ok, ◌>>=◌,
  >>=-eq-ok, raise_if, raise_if-eq-ok, ok_injective, if◌then◌else◌, of_bool, Bool-cases,
}
use mathlib.Core.Path.{subst, ap}
use patrol_x.Base.Lists.{any, count_if, All}
use patrol_x.Base.Sort.{sort}
use patrol_x.Base.Sort.Laws.{count_if-sort, All-sort}
use patrol_x.Base.Sort.Ordered.{Ordered, sort-Ordered, text_le-total, text_le_trans}
use patrol_x.Base.Text.{Text, text_eq, text_eq_iff, text_le}
use patrol_x.Scanning.{
  Patterns, outside, is_outside, add_path, validate_patterns, collect_matches, match_paths,
}

abbrev pub selects : Patterns → List Text → Text → Bool
selects re patterns path = any (λ pattern. re.fullmatch pattern path) patterns

-- The matches hold each selected path of `paths` once and nothing else, in order and inside the root.
pub record AreMatches (re : Patterns) (paths patterns files : List Text) : Type 0 where
  pub once :
      (f : Text)
      → count_if (text_eq f) files ≡ of_bool (any (text_eq f) paths && selects re patterns f)
  pub ordered : Ordered text_le files
  pub inside : All (λ f. is_outside f ≡ false) files

none_of : (f : Text) (l : List Text) → any (text_eq f) l ≡ false → count_if (text_eq f) l ≡ 0
none_of f [] h = refl
none_of f (x ∷ l) h = ground (arith, none_of f l)

some_of :
    (f : Text) (l : List Text) (b : Bool)
    → count_if (text_eq f) l ≡ of_bool b
    → any (text_eq f) l ≡ b
some_of f [] b h = ground arith
some_of f (x ∷ l) true h = ground (arith, some_of f l true)
some_of f (x ∷ l) false h = ground (arith, some_of f l false)

module _ (re : Patterns) (patterns : List Text) where
  abbrev Collected : List Text → List Text → Type 0
  Collected paths matched =
      ((f : Text)
        → count_if (text_eq f) matched ≡ of_bool (any (text_eq f) paths && selects re patterns f))
      × All (λ f. is_outside f ≡ false) matched

  add_path-Collected :
      (path : Text) (paths matched : List Text)
      → is_outside path ≡ false
      → selects re patterns path ≡ true
      → Collected paths matched
      → Collected (path ∷ paths) (add_path path matched)
  add_path-Collected path paths matched inside selected (once, insides) =
      elim (Bool-cases (any (text_eq path) matched)) [
        | inl known ↦ rw known (
          λ f. elim (Bool-cases (text_eq f path)) [
            | inl same ↦
                let e : path ≡ f = sym ((text_eq_iff f path).0 same) in
                let held : any (text_eq f) matched ≡ true =
                  subst (λ x. any (text_eq x) matched ≡ true) e known in
                let chosen : selects re patterns f ≡ true =
                  subst (λ x. selects re patterns x ≡ true) e selected in
                let here =
                  some_of f matched (any (text_eq f) paths && selects re patterns f) (once f) in
                rw same (once f ∙ ap of_bool (sym here ∙ held ∙ sym chosen))
            | inr other ↦ rw other (once f)
          ],
          insides,
        )
        | inr fresh ↦ rw fresh (
          λ f. elim (Bool-cases (text_eq f path)) [
            | inl same ↦
                let e : path ≡ f = sym ((text_eq_iff f path).0 same) in
                let absent =
                  none_of f matched (subst (λ x. any (text_eq x) matched ≡ false) e fresh) in
                let chosen : selects re patterns f ≡ true =
                  subst (λ x. selects re patterns x ≡ true) e selected in
                rw (same, chosen) (omega (arith, absent))
            | inr other ↦ rw other (omega (arith, once f))
          ],
          (inside, insides),
        )
      ]

  pass_by-Collected :
      (path : Text) (paths matched : List Text)
      → selects re patterns path ≡ false
      → Collected paths matched
      → Collected (path ∷ paths) matched
  pass_by-Collected path paths matched unselected (once, insides) = (
    λ f. elim (Bool-cases (text_eq f path)) [
      | inl same ↦
          let left : selects re patterns f ≡ false =
            ap (selects re patterns) ((text_eq_iff f path).0 same) ∙ unselected in
          rw same (once f ∙ rw left (dropped (any (text_eq f) paths)))
      | inr other ↦ rw other (once f)
    ],
    insides,
  )
    where
      dropped : (b : Bool) → of_bool (b && false) ≡ 0
      dropped true = refl
      dropped false = refl

  collect_matches-Collected :
      (paths matched : List Text)
      → collect_matches re patterns paths ≡ ok matched
      → Collected paths matched
  unfolding collect_matches
  collect_matches-Collected [] matched h = subst (Collected []) (ok_injective h) (λ f. refl, tt)
  collect_matches-Collected (path ∷ paths) matched h =
      let (u, checked, h') =
        >>=-eq-ok (raise_if (is_outside path) outside)
          (λ u. collect_matches re patterns paths >>= λ rest.
            if selects re patterns path then ok (add_path path rest) else ok rest)
          h in
      let (rest, ended, last) =
        >>=-eq-ok (collect_matches re patterns paths)
          (λ rest. if selects re patterns path then ok (add_path path rest) else ok rest) h' in
      elim (Bool-cases (selects re patterns path)) [
        | inl chosen ↦ subst (Collected (path ∷ paths)) (ok_injective (rw chosen at last)) (
            add_path-Collected path paths rest (raise_if-eq-ok (is_outside path) outside checked)
              chosen (collect_matches-Collected paths rest ended))
        | inr left ↦
            subst (Collected (path ∷ paths)) (ok_injective (rw left at last))
              (pass_by-Collected path paths rest left (collect_matches-Collected paths rest ended))
      ]

-- What match_paths returns is sorted, holds no path twice and none outside the root, and is made of
-- the catalogue's paths that one of the patterns matches as a whole, and of no other.
pub match_paths-AreMatches :
    (re : Patterns) (paths patterns files : List Text)
    → match_paths re paths patterns ≡ ok files
    → AreMatches re paths patterns files
unfolding match_paths
match_paths-AreMatches re paths patterns files h =
    let (u, valid, h') =
      >>=-eq-ok (validate_patterns re patterns)
        (λ u. collect_matches re patterns paths >>= λ matched. ok (sort text_le matched)) h in
    let (matched, ended, last) =
      >>=-eq-ok (collect_matches re patterns paths) (λ matched. ok (sort text_le matched)) h' in
    let (once, insides) = collect_matches-Collected re patterns paths matched ended in
    subst (AreMatches re paths patterns) (ok_injective last) (record {
      once = λ f. count_if-sort text_le (text_eq f) matched ∙ once f;
      ordered = sort-Ordered text_le text_le-total text_le_trans matched;
      inside = All-sort text_le (λ f. is_outside f ≡ false) matched insides;
    })
