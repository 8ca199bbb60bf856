-- ===== src/Archive/Target/Real.antt =====
-- Paths without links: such a path is its own resolved path, and what `resolve` finds is one.
use patrol_x.Base.{
  Bool, ℕ, zero, suc, ◌≡◌, refl, sym, ◌∙◌, true, false, ◌||◌, List, [], ◌∷◌, ◌++◌, Option, none,
  some, inl, inr, Bool-cases, some_injective,
}
use mathlib.Core.Path.{ap, subst}
use mathlib.Core.List.{append-nil, append_assoc}
use patrol_x.Base.Dict.{text_eq-false}
use patrol_x.Base.Lists.{All, All-append}
use patrol_x.Base.Text.{Text, text_eq}
use patrol_x.Archive.MemberPath.{dot, dot_dot}
use patrol_x.Archive.PathSafety.{IsSafePart}
use patrol_x.Archive.Disk.{
  FilePath, Node, dir, file, link, Disk, lookup, parent, link_node?, is_symlink, resolve_from,
  resolve,
}
use patrol_x.Archive.Target.{link_on_way}

-- A segment that is no step in place and no step up.
abbrev pub IsName : Text → Type 0
IsName part = (text_eq part dot ≡ false) × (text_eq part dot_dot ≡ false)

pub IsSafePart-IsName : (part : Text) → IsSafePart part → IsName part
IsSafePart-IsName part h =
    (text_eq-false part dot h.not_dot, text_eq-false part dot_dot h.not_parent)

-- A path of names with no link on it, from some directory on.
abbrev pub IsFreeFrom : Disk → FilePath → List Text → Type 0
IsFreeFrom d base parts = All IsName parts × (link_on_way d base parts ≡ false)

-- An absolute path that is its own resolved path.
abbrev pub IsReal : Disk → FilePath → Type 0
IsReal d p = IsFreeFrom d [] p

pub or_false : (b b' : Bool) → (b || b') ≡ false → (b ≡ false) × (b' ≡ false)
or_false true b' e = cc
or_false false b' e = (refl, e)

link_on_way-append :
    (d : Disk) (base p q : FilePath)
    → link_on_way d base p ≡ false
    → link_on_way d (base ++ p) q ≡ false
    → link_on_way d base (p ++ q) ≡ false
unfolding link_on_way
link_on_way-append d base [] q h k = subst (λ b. link_on_way d b q ≡ false) (append-nil base) k
link_on_way-append d base (a ∷ p) q h k =
    let (here, below) =
      or_false (is_symlink d (base ++ a ∷ [])) (link_on_way d (base ++ a ∷ []) p) h in
    rw here (
      link_on_way-append d (base ++ a ∷ []) p q below
        (subst (λ b. link_on_way d b q ≡ false) (sym (append_assoc base (a ∷ []) p)) k))

-- A path of names without a link resolves to itself, whatever the fuel.
resolve_from_free :
    (fuel : ℕ) (d : Disk) (base : FilePath) (parts : List Text)
    → IsFreeFrom d base parts
    → resolve_from (suc fuel) d base parts ≡ some (base ++ parts)
unfolding resolve_from link_on_way is_symlink
resolve_from_free fuel d base [] h = ap some (sym (append-nil base))
resolve_from_free fuel d base (part ∷ rest) ((name, names), free) =
    let (here, below) =
      or_false (link_node? (lookup (base ++ part ∷ []) d)) (link_on_way d (base ++ part ∷ []) rest)
        free in
    let onward = resolve_from_free fuel d (base ++ part ∷ []) rest (names, below) in
    rw (resolve_from, name.0, name.1)
      (passed (lookup (base ++ part ∷ []) d) here
        (onward ∙ ap some (append_assoc base (part ∷ []) rest)))
  where
    passed :
        (n : Option Node)
        → link_node? n ≡ false
        → resolve_from (suc fuel) d (base ++ part ∷ []) rest ≡ some (base ++ part ∷ rest)
        → (elim n [
          | some (link t) ↦ resolve_from fuel d [] (t ++ rest)
          | _ ↦ resolve_from (suc fuel) d (base ++ part ∷ []) rest
        ])
          ≡ some (base ++ part ∷ rest)
    passed none e k = k
    passed (some dir) e k = k
    passed (some (file n)) e k = k
    passed (some (link t)) e k = cc

pub IsReal-resolve : (d : Disk) (p : FilePath) → IsReal d p → resolve d p ≡ some p
unfolding resolve
IsReal-resolve d p h = resolve_from_free 39 d [] p h

-- The directory above a path without links is one.
IsFreeFrom-parent :
    (d : Disk) (base : FilePath) (p : List Text)
    → IsFreeFrom d base p
    → IsFreeFrom d base (parent p)
unfolding link_on_way
IsFreeFrom-parent d base [] h = h
IsFreeFrom-parent d base (a ∷ []) h = (tt, refl)
IsFreeFrom-parent d base (a ∷ b ∷ p) ((name, names), free) =
    let (here, below) =
      or_false (is_symlink d (base ++ a ∷ [])) (link_on_way d (base ++ a ∷ []) (b ∷ p)) free in
    let (names', free') = IsFreeFrom-parent d (base ++ a ∷ []) (b ∷ p) (names, below) in
    ((name, names'), rw here free')

pub IsReal-append :
    (d : Disk) (p parts : List Text) → IsReal d p → IsFreeFrom d p parts → IsReal d (p ++ parts)
IsReal-append d p parts h k =
    (All-append IsName p parts h.0 k.0, link_on_way-append d [] p parts h.1 k.1)

-- What `resolve` finds has no links on its way.
resolve_from-IsReal :
    (fuel : ℕ) (d : Disk) (base rest r : FilePath)
    → IsReal d base
    → resolve_from fuel d base rest ≡ some r
    → IsReal d r
unfolding resolve_from link_on_way is_symlink
resolve_from-IsReal zero d base rest r real h = cc
resolve_from-IsReal (suc fuel) d base [] r real h = subst (IsReal d) (some_injective h) real
resolve_from-IsReal (suc fuel) d base (part ∷ rest) r real h =
    elim (Bool-cases (text_eq part dot)) [
      | inl same ↦ resolve_from-IsReal (suc fuel) d base rest r real (rw (resolve_from, same) at h)
      | inr not_dot ↦ elim (Bool-cases (text_eq part dot_dot)) [
        | inl up ↦
            resolve_from-IsReal (suc fuel) d (parent base) rest r (IsFreeFrom-parent d [] base real)
              (rw (resolve_from, not_dot, up) at h)
        | inr not_up ↦
            stepped (lookup (base ++ part ∷ []) d) refl
              (λ t. resolve_from-IsReal fuel d [] (t ++ rest) r (tt, refl))
              (resolve_from-IsReal (suc fuel) d (base ++ part ∷ []) rest r) (not_dot, not_up)
              (rw (resolve_from, not_dot, not_up) at h)
      ]
    ]
  where
    onto :
        (n : Option Node)
        → lookup (base ++ part ∷ []) d ≡ n
        → link_node? n ≡ false
        → IsName part
        → IsReal d (base ++ part ∷ [])
    onto n e plain name = IsReal-append d base (part ∷ []) real ((name, tt), rw (e, plain) refl)

    stepped :
        (n : Option Node)
        → lookup (base ++ part ∷ []) d ≡ n
        → ((t : FilePath) → resolve_from fuel d [] (t ++ rest) ≡ some r → IsReal d r)
        → (IsReal d (base ++ part ∷ [])
            → resolve_from (suc fuel) d (base ++ part ∷ []) rest ≡ some r
            → IsReal d r)
        → IsName part
        → (elim n [
          | some (link t) ↦ resolve_from fuel d [] (t ++ rest)
          | _ ↦ resolve_from (suc fuel) d (base ++ part ∷ []) rest
        ])
          ≡ some r
        → IsReal d r
    stepped none e leap walk name k = walk (onto none e refl name) k
    stepped (some dir) e leap walk name k = walk (onto (some dir) e refl name) k
    stepped (some (file n)) e leap walk name k = walk (onto (some (file n)) e refl name) k
    stepped (some (link t)) e leap walk name k = leap t k

pub resolve-IsReal : (d : Disk) (p r : FilePath) → resolve d p ≡ some r → IsReal d r
unfolding resolve link_on_way
resolve-IsReal d p r h = resolve_from-IsReal 40 d [] p r (tt, refl) h
