-- ===== src/Base/Dict.antt =====
-- Python's `dict` with texts as keys, in the order of insertion.
use mathlib.Core.Path.{◌≡◌, refl, sym, ◌∙◌}
use mathlib.Core.Logic.{inl, inr, ◌≢◌}
use mathlib.Core.Bool.{true, false}
use mathlib.Core.Option.{Option, none, some}
use mathlib.Core.List.{List, [], ◌∷◌}
use patrol_x.Base.Tests.{if◌then◌else◌, Bool-cases}
use patrol_x.Base.Text.{Text, text_eq, text_eq_iff}

abbrev pub Dict {ℓ} : Type ℓ → Type ℓ
Dict A = List (Text × A)

module _ {ℓ} {A : Type ℓ} where
  -- `d.get(key)`
  abbrev pub get : Text → Dict A → Option A
  get key [] = none
  get key ((k, a) ∷ d) = let rest = get key d in if text_eq k key then some a else rest

  -- `d[key] = a`
  abbrev pub put : Text → A → Dict A → Dict A
  put key a [] = (key, a) ∷ []
  put key a ((k, b) ∷ d) =
      let rest = put key a d in if text_eq k key then (k, a) ∷ d else (k, b) ∷ rest

  -- `d` without a key
  abbrev pub remove : Text → Dict A → Dict A
  remove key [] = []
  remove key ((k, b) ∷ d) = let rest = remove key d in if text_eq k key then rest else (k, b) ∷ rest

pub text_eq_refl : (s : Text) → text_eq s s ≡ true
text_eq_refl s = (text_eq_iff s s).1 refl

pub text_eq-false : (s t : Text) → s ≢ t → text_eq s t ≡ false
text_eq-false s t differ = elim (Bool-cases (text_eq s t)) [
  | inl same ↦ absurd (differ ((text_eq_iff s t).0 same))
  | inr e ↦ e
]

module _ {ℓ} {A : Type ℓ} where
  pub get-put : (key : Text) (a : A) (d : Dict A) → get key (put key a d) ≡ some a
  get-put key a [] = rw (text_eq_refl key) refl
  get-put key a ((k, b) ∷ d) = elim (Bool-cases (text_eq k key)) [
    | inl same ↦ rw (same, same) refl
    | inr other ↦ rw (other, other) (get-put key a d)
  ]

  pub get-put_other :
      (key other : Text) (a : A) (d : Dict A) → other ≢ key → get key (put other a d) ≡ get key d
  get-put_other key other a [] differ = rw (text_eq-false other key differ) refl
  get-put_other key other a ((k, b) ∷ d) differ = elim (Bool-cases (text_eq k other)) [
    | inl same ↦ rw same (elim (Bool-cases (text_eq k key)) [
      | inl k' ↦ absurd (differ (sym ((text_eq_iff k other).0 same) ∙ (text_eq_iff k key).0 k'))
      | inr k' ↦ rw k' refl
    ])
    | inr e ↦ rw e (elim (Bool-cases (text_eq k key)) [
      | inl k' ↦ rw k' refl
      | inr k' ↦ rw k' (get-put_other key other a d differ)
    ])
  ]

  pub get-remove : (key : Text) (d : Dict A) → get key (remove key d) ≡ none
  get-remove key [] = refl
  get-remove key ((k, b) ∷ d) = elim (Bool-cases (text_eq k key)) [
    | inl same ↦ rw same (get-remove key d)
    | inr other ↦ rw (other, other) (get-remove key d)
  ]

  pub get-remove_other :
      (key other : Text) (d : Dict A) → other ≢ key → get key (remove other d) ≡ get key d
  get-remove_other key other [] differ = refl
  get-remove_other key other ((k, b) ∷ d) differ = elim (Bool-cases (text_eq k other)) [
    | inl same ↦
        rw (same, text_eq-false k key (λ e. differ (sym ((text_eq_iff k other).0 same) ∙ e)))
          (get-remove_other key other d differ)
    | inr e ↦ rw e (elim (Bool-cases (text_eq k key)) [
      | inl k' ↦ rw k' refl
      | inr k' ↦ rw k' (get-remove_other key other d differ)
    ])
  ]
