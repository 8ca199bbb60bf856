-- ===== src/Rules/Registry/Invariant.antt =====
-- What every registration keeps.
use mathlib.Core.Path.{subst}
use patrol_x.Base.{
  refl, sym, ◌∙◌, ◌||◌, Option, ◌+◌, ◌≤◌, ◌≡◌, arith, List, [], ◌∷◌, ◌++◌, none, some, inl, inr,
  Bool, true, false, ok, err, Bool-cases,
}
use patrol_x.Base.Dict.{text_eq_refl, text_eq-false}
use patrol_x.Base.Lists.Every.{All-weaken}
use patrol_x.Base.Lists.{All, any, count_if}
use patrol_x.Base.Text.{Text, text_eq, text_eq_iff}
use patrol_x.Rules.Contract.{PrepareSpec, Inspector, Validated, validate}
use patrol_x.Rules.Registry.{
  RuleRegistry, empty_registry, has_code, has_rule, owned_by, prepare_has_code, has_prepare,
  register_prepare, register_own_prepare, register_valid, register,
}

-- No code is registered twice, of a rule or of a preparation, no owner has two preparations, and
-- each owner is registered.
pub record IsValid (reg : RuleRegistry) : Type 0 where
  pub rules : (c : Text) → count_if (has_code c) reg.rules ≤ 1
  pub owners : (c : Text) → count_if (owned_by c) reg.prepares ≤ 1
  pub prepares : (c : Text) → count_if (prepare_has_code c) reg.prepares ≤ 1
  pub owned : (c : Text) → has_rule c reg ≡ false → count_if (owned_by c) reg.prepares ≡ 0

module _ {A : Type 0} (p : A → Bool) where
  count_if-append : (xs ys : List A) → count_if p (xs ++ ys) ≡ count_if p xs + count_if p ys
  count_if-append [] ys = omega arith
  count_if-append (x ∷ xs) ys = omega (arith, count_if-append xs ys)

  any-append : (xs ys : List A) → any p (xs ++ ys) ≡ false → any p xs ≡ false
  any-append [] ys h = refl
  any-append (x ∷ xs) ys h = ground (arith, any-append xs ys)

  none_counted : (xs : List A) → any p xs ≡ false → count_if p xs ≡ 0
  none_counted [] h = refl
  none_counted (x ∷ xs) h = ground (arith, none_counted xs)

  any-last : (xs : List A) (x : A) → p x ≡ true → any p (xs ++ x ∷ []) ≡ true
  any-last [] x h = ground (arith, h)
  any-last (y ∷ ys) x h = ground (arith, any-last ys x h)

-- One more element under a key that no other element has.
module _ {A : Type 0} (key : A → Text) where
  abbrev keyed : Text → A → Bool
  keyed c x = text_eq (key x) c

  one_more :
      (x : A) (xs : List A)
      → any (keyed (key x)) xs ≡ false
      → ((c : Text) → count_if (keyed c) xs ≤ 1)
      → (c : Text) → count_if (keyed c) (xs ++ x ∷ []) ≤ 1
  one_more x xs fresh h c = elim (Bool-cases (text_eq (key x) c)) [
    | inl same ↦
        let e : key x ≡ c = (text_eq_iff (key x) c).0 same in
        let absent : count_if (keyed c) xs ≡ 0 =
          subst (λ d. count_if (keyed d) xs ≡ 0) e (none_counted (keyed (key x)) xs fresh) in
        rw (count_if-append (keyed c) xs (x ∷ []), same) (omega (arith, absent))
    | inr other ↦ rw (count_if-append (keyed c) xs (x ∷ []), other) (omega (arith, h c))
  ]

add_rule-IsValid :
    (rule : Inspector) (reg : RuleRegistry)
    → has_rule rule.code reg ≡ false
    → IsValid reg
    → IsValid (record reg { rules = reg.rules ++ rule ∷ [] })
add_rule-IsValid rule reg fresh valid = record {
  rules = one_more (λ (r : Inspector). r.code) rule reg.rules fresh valid.rules;
  owners = valid.owners;
  prepares = valid.prepares;
  owned = λ c h. valid.owned c (any-append (has_code c) reg.rules (rule ∷ []) h);
}

register_prepare-IsValid :
    (owner : Inspector) (prepare : PrepareSpec) (reg : RuleRegistry)
    → has_rule owner.code reg ≡ true
    → IsValid reg
    → IsValid (register_prepare owner prepare reg).0
register_prepare-IsValid owner prepare reg registered valid =
    elim (Bool-cases (any (owned_by owner.code) reg.prepares)) [
      | inl owned ↦ rw owned valid
      | inr unowned ↦
          elim (Bool-cases (has_prepare prepare.code reg || has_rule prepare.code reg)) [
            | inl taken ↦ rw (unowned, taken) valid
            | inr free ↦
                rw (unowned, free)
                  (record {
                    rules = valid.rules;
                    owners =
                        one_more (λ (t : Text × PrepareSpec). t.0) (owner.code, prepare)
                          reg.prepares unowned valid.owners;
                    prepares =
                        one_more (λ (t : Text × PrepareSpec). t.1.code) (owner.code, prepare)
                          reg.prepares (ground arith) valid.prepares;
                    owned = λ c absent.
                        rw
                          (
                            count_if-append (owned_by c) reg.prepares ((owner.code, prepare) ∷ []),
                            valid.owned c absent,
                            another c absent,
                          )
                          refl;
                  })
          ]
    ]
  where
    ne : true ≡ false → ⊥
    ne e = cc

    another : (c : Text) → has_rule c reg ≡ false → text_eq owner.code c ≡ false
    another c absent =
        text_eq-false owner.code c
          (λ same. absurd (ne (sym (subst (λ d. has_rule d reg ≡ true) same registered) ∙ absent)))

register_valid-IsValid :
    (rule : Inspector) (reg : RuleRegistry) (checked : Validated)
    → IsValid reg
    → IsValid (register_valid rule reg checked).0
register_valid-IsValid rule reg (err e) valid = valid
register_valid-IsValid rule reg (ok _) valid = elim (Bool-cases (has_rule rule.code reg)) [
  | inl known ↦ rw known valid
  | inr fresh ↦ rw fresh (own rule.prepare (add_rule-IsValid rule reg fresh valid))
]
  where
    own :
        (prepare : Option PrepareSpec)
        → IsValid (record reg { rules = reg.rules ++ rule ∷ [] })
        → IsValid
            (register_own_prepare rule prepare (record reg { rules = reg.rules ++ rule ∷ [] })).0
    own none valid' = valid'
    own (some prepare) valid' =
        register_prepare-IsValid rule prepare (record reg { rules = reg.rules ++ rule ∷ [] })
          (any-last (has_code rule.code) reg.rules rule (text_eq_refl rule.code)) valid'

-- Each registration, also one that is refused halfway, keeps the registry valid: no two rules share
-- a code, no two preparations share a code or an owner, and the owner of each is a registered rule.
pub register-IsValid :
    (compiles : Text → Bool) (rule : Inspector) (reg : RuleRegistry)
    → IsValid reg
    → IsValid (register compiles rule reg).0
unfolding register
register-IsValid compiles rule reg valid =
    register_valid-IsValid rule reg (validate compiles rule) valid

pub empty_registry-IsValid : IsValid empty_registry
empty_registry-IsValid = record {
  rules = λ c. omega arith;
  owners = λ c. omega arith;
  prepares = λ c. omega arith;
  owned = λ c h. refl;
}

-- Each rule of a registry is found by its code.
pub own_codes :
    (l : List Inspector) → All (λ (rule : Inspector). any (has_code rule.code) l ≡ true) l
own_codes [] = tt
own_codes (rule ∷ l) = (
  rw (text_eq_refl rule.code) refl,
  All-weaken (λ (r : Inspector). any (has_code r.code) l ≡ true)
      (λ (r : Inspector). any (has_code r.code) (rule ∷ l) ≡ true) l (λ r h. ground (arith, h))
      (own_codes l),
)
