-- ===== src/Base/Lists/Every.antt =====
-- What holds of every element of a list, and of some element of it.
use mathlib.Core.Logic.{◌⊎◌, inl, inr}
use mathlib.Core.Bool.{Bool}
use mathlib.Core.List.{List, [], ◌∷◌, map}
use patrol_x.Base.Tests.{Bool-cases}
use patrol_x.Base.Lists.{All, keep}

module _ {A : Type 0} (P : A → Type 0) where
  pub All-keep : (q : A → Bool) (l : List A) → All P l → All P (keep q l)
  All-keep q [] h = tt
  All-keep q (x ∷ l) h = elim (Bool-cases (q x)) [
    | inl kept ↦ rw kept (h.0, All-keep q l h.1)
    | inr left ↦ rw left (All-keep q l h.1)
  ]

  pub All-map : {B : Type 0} (f : B → A) (l : List B) → All (λ x. P (f x)) l → All P (map f l)
  All-map f [] h = tt
  All-map f (x ∷ l) h = (h.0, All-map f l h.1)

  pub All-weaken : (Q : A → Type 0) (l : List A) → ((x : A) → P x → Q x) → All P l → All Q l
  All-weaken Q [] f h = tt
  All-weaken Q (x ∷ l) f h = (f x h.0, All-weaken Q l f h.1)

pub zip_All :
    {A : Type 0} (P Q R : A → Type 0) (l : List A)
    → ((x : A) → P x → Q x → R x)
    → All P l
    → All Q l
    → All R l
zip_All P Q R [] f h k = tt
zip_All P Q R (x ∷ l) f h k = (f x h.0 k.0, zip_All P Q R l f h.1 k.1)

abbrev pub Some : {A : Type 0} → (A → Type 0) → List A → Type 0
Some P [] = ⊥
Some P (x ∷ l) = P x ⊎ Some P l

module _ {A : Type 0} where
  pub Some-map : (P Q : A → Type 0) (l : List A) → ((x : A) → P x → Q x) → Some P l → Some Q l
  Some-map P Q [] f h = absurd h
  Some-map P Q (x ∷ l) f (inl h) = inl (f x h)
  Some-map P Q (x ∷ l) f (inr h) = inr (Some-map P Q l f h)

  -- Each element of a list is found in it.
  pub All-Some : (Q : A → A → Type 0) (l : List A) → ((x : A) → Q x x) → All (λ x. Some (Q x) l) l
  All-Some Q [] same = tt
  All-Some Q (x ∷ l) same = (
    inl (same x),
    All-weaken (λ y. Some (Q y) l) (λ y. Some (Q y) (x ∷ l)) l (λ y h. inr h) (All-Some Q l same),
  )

  -- An element that is there, with what holds of all of them.
  pub Some-All :
      {C : Type 0} (P Q : A → Type 0) (l : List A)
      → ((x : A) → P x → Q x → C)
      → Some P l
      → All Q l
      → C
  Some-All P Q [] f h k = absurd h
  Some-All P Q (x ∷ l) f (inl h) k = f x h k.0
  Some-All P Q (x ∷ l) f (inr h) k = Some-All P Q l f h k.1
