-- ===== src/Rules/Scope/Frozen.antt =====
-- A frozen scope on the registry that it was frozen from.
use patrol_x.Base.{
  ℕ, ◌+◌, ◌≤◌, ◌≡◌, refl, sym, ◌∙◌, arith, Bool, true, false, not, ◌||◌, List, [], ◌∷◌, map, Option,
  none, some, inl, inr, ok, >>=-eq-ok, ok_injective, some_injective, of_bool, Bool-cases,
}
use mathlib.Core.Path.{ap, subst}
use patrol_x.Base.Dict.{text_eq_refl}
use patrol_x.Base.Lists.Every.{All-keep, zip_All}
use patrol_x.Base.Lists.{any, all, All, keep, count_if}
use patrol_x.Base.Sort.{sort}
use patrol_x.Base.Sort.Laws.{All-sort, count_if-sort}
use patrol_x.Base.Text.{Text, text_eq_iff}
use patrol_x.Rules.Contract.{Inspector}
use patrol_x.Rules.Registry.{RuleRegistry, has_code, find_rule, rule_le, all_rules}
use patrol_x.Rules.Registry.Invariant.{IsValid, own_codes}
use patrol_x.Rules.Scope.{
  item_of, ScopeItem, Snapshot, Products, Assignments, normalize_network_type, business_rules,
  is_assigned, items_from, selected_rules, resolve_scope, find_item, current_rule, current_rules,
  is_frozen, validate_frozen_rules, validate_snapshot_versions,
}

count_if-keep-le : {A : Type 0} (p q : A → Bool) (l : List A) → count_if p (keep q l) ≤ count_if p l
count_if-keep-le p q [] = omega arith
count_if-keep-le p q (x ∷ l) = elim (Bool-cases (q x)) [
  | inl kept ↦ rw kept (omega (arith, count_if-keep-le p q l))
  | inr left ↦ rw left (omega (arith, count_if-keep-le p q l))
]

counted : (l : List Inspector) → All (λ (r : Inspector). 1 ≤ count_if (has_code r.code) l) l
counted [] = tt
counted (rule ∷ l) = (
  rw (text_eq_refl rule.code) (omega arith),
  zip_All (λ (r : Inspector). 1 ≤ count_if (has_code r.code) l)
      (λ (r : Inspector). 1 ≤ count_if (has_code r.code) l)
      (λ (r : Inspector). 1 ≤ count_if (has_code r.code) (rule ∷ l)) l (λ r h k. omega (arith, h))
      (counted l) (counted l),
)

-- Where no code occurs twice, each rule is the one that its code finds.
abbrev Finds : List Inspector → Inspector → Type 0
Finds l rule = find_rule rule.code l ≡ some rule

each_found : (l : List Inspector) → ((c : Text) → count_if (has_code c) l ≤ 1) → All (Finds l) l
each_found [] h = tt
each_found (rule ∷ l) h = (
  rw (text_eq_refl rule.code) refl,
  zip_All (λ (r : Inspector). 1 ≤ count_if (has_code r.code) l) (Finds l) (Finds (rule ∷ l)) l
      onward (counted l) (each_found l (λ c. omega (arith, h c))),
)
  where
    onward : (r : Inspector) → 1 ≤ count_if (has_code r.code) l → Finds l r → Finds (rule ∷ l) r
    onward r one found =
        let most : of_bool (has_code r.code rule) + count_if (has_code r.code) l ≤ 1 = h r.code in
        elim (Bool-cases (has_code r.code rule)) [
          | inl twice ↦ absurd (two (rw twice at most) one)
          | inr other ↦ rw other found
        ]
      where
        two : {n : ℕ} → 1 + n ≤ 1 → 1 ≤ n → ⊥
        two a b = omega arith

business_rules-Finds :
    (reg : RuleRegistry) → IsValid reg → All (Finds (business_rules reg)) (business_rules reg)
unfolding business_rules all_rules
business_rules-Finds reg valid = each_found (business_rules reg) (λ c. omega (
  arith,
  count_if-keep-le (has_code c) (λ (rule : Inspector). not rule.hidden) (all_rules false reg),
  count_if-keep-le (has_code c) (λ (rule : Inspector). false || not rule.hidden)
      (sort rule_le reg.rules),
  count_if-sort rule_le (has_code c) reg.rules,
  valid.rules c,
))

selected_rules-Finds :
    (rows : Assignments) (reg : RuleRegistry) (type : Option Text)
    → IsValid reg
    → All (Finds (business_rules reg)) (selected_rules rows reg type)
unfolding selected_rules
selected_rules-Finds rows reg none valid = tt
selected_rules-Finds rows reg (some type) valid =
    All-sort rule_le (Finds (business_rules reg))
      (keep (is_assigned rows type) (business_rules reg))
      (All-keep (Finds (business_rules reg)) (is_assigned rows type) (business_rules reg)
        (business_rules-Finds reg valid))

-- No item has a code that no rule has.
items_absent :
    (products : Products) (rows : Assignments) (k : ℕ) (l : List Inspector) (c : Text)
    → any (has_code c) l ≡ false
    → find_item c (items_from products rows k l) ≡ none
unfolding items_from find_item
items_absent products rows k [] c h = refl
items_absent products rows k (rule ∷ l) c h = elim (Bool-cases (has_code c rule)) [
  | inl same ↦ absurd (ne (rw same at h))
  | inr other ↦ rw (items_absent products rows (k + 1) l c (rw other at h), other) refl
]
  where
    ne : true ≡ false → ⊥
    ne e = cc

-- The item of a code has the version of a rule with that code, which has what all rules have.
items_version :
    (products : Products) (rows : Assignments) (P : Inspector → Type 0) (k : ℕ) (l : List Inspector)
    (c : Text)
    → All P l
    → any (has_code c) l ≡ true
    → (item : ScopeItem) × (rule : Inspector) × (find_item c (items_from products rows k l)
        ≡ some item)
      × (item.rule_version ≡ rule.rule_version)
      × (rule.code ≡ c)
      × P rule
unfolding items_from find_item
items_version products rows P k [] c h found = cc
items_version products rows P k (rule ∷ l) c h found = elim (Bool-cases (any (has_code c) l)) [
  | inl later ↦
      let (item, r, e, version, code, holds) =
        items_version products rows P (k + 1) l c h.1 later in
      (item, r, rw e refl, version, code, holds)
  | inr absent ↦ elim (Bool-cases (has_code c rule)) [
    | inl same ↦ (
      item_of products rows k rule,
      rule,
      rw (items_absent products rows (k + 1) l c absent, same) refl,
      refl,
      (text_eq_iff rule.code c).0 same,
      h.0,
    )
    | inr other ↦ absurd (ne (rw (other, absent) at found))
  ]
]
  where
    ne : false ≡ true → ⊥
    ne e = cc

items_codes :
    (products : Products) (rows : Assignments) (k : ℕ) (l : List Inspector)
    → map (λ (item : ScopeItem). item.rule_code) (items_from products rows k l)
      ≡ map (λ (rule : Inspector). rule.code) l
unfolding items_from
items_codes products rows k [] = refl
items_codes products rows k (rule ∷ l) = ap (rule.code ∷◌) (items_codes products rows (k + 1) l)

items_frozen :
    (products : Products) (rows : Assignments) (k : ℕ) (l : List Inspector) (c : Text)
    → is_frozen (items_from products rows k l) c ≡ any (has_code c) l
unfolding items_from
items_frozen products rows k [] c = refl
items_frozen products rows k (rule ∷ l) c =
    ap (has_code c rule ||◌) (items_frozen products rows (k + 1) l c)

all_frozen :
    (items : List ScopeItem) (l : List Inspector)
    → All (λ (r : Inspector). is_frozen items r.code ≡ true) l
    → all (is_frozen items) (map (λ (rule : Inspector). rule.code) l) ≡ true
all_frozen items [] h = refl
all_frozen items (rule ∷ l) h = rw h.0 (all_frozen items l h.1)

module _ (reg : RuleRegistry) (items : List ScopeItem) where
  -- A rule that is found again, in the version that is frozen.
  abbrev IsCurrent : Inspector → Type 0
  IsCurrent rule =
      current_rule (find_item rule.code items) (find_rule rule.code (business_rules reg)) ≡ ok rule

  current_rules-eq-ok :
      (l : List Inspector)
      → All IsCurrent l
      → current_rules reg items (map (λ (rule : Inspector). rule.code) l) ≡ ok l
  unfolding current_rules
  current_rules-eq-ok [] h = refl
  current_rules-eq-ok (rule ∷ l) h = rw (h.0, current_rules-eq-ok l h.1) refl

validate_frozen_rules-eq-ok :
    (reg : RuleRegistry) (snap : Snapshot) (l : List Inspector)
    → All (λ (r : Inspector). is_frozen snap.items r.code ≡ true) l
    → All (IsCurrent reg snap.items) l
    → validate_frozen_rules reg snap (map (λ (rule : Inspector). rule.code) l) ≡ ok l
unfolding validate_frozen_rules
validate_frozen_rules-eq-ok reg snap l frozen current =
    rw (all_frozen snap.items l frozen, current_rules-eq-ok reg snap.items l current) refl

same_version :
    (item : ScopeItem) (rule : Inspector)
    → item.rule_version ≡ rule.rule_version
    → current_rule (some item) (some rule) ≡ ok rule
same_version item rule e = rw (e, text_eq_refl rule.rule_version) refl

items-IsCurrent :
    (products : Products) (rows : Assignments) (reg : RuleRegistry) (l : List Inspector)
    → All (Finds (business_rules reg)) l
    → All (IsCurrent reg (items_from products rows 0 l)) l
items-IsCurrent products rows reg l found =
    zip_All (λ (r : Inspector). any (has_code r.code) l ≡ true) (Finds (business_rules reg))
      (IsCurrent reg (items_from products rows 0 l)) l current (own_codes l) found
  where
    current :
        (r : Inspector)
        → any (has_code r.code) l ≡ true
        → Finds (business_rules reg) r
        → IsCurrent reg (items_from products rows 0 l) r
    current r there self =
        let (item, other, e, version, code, again) =
          items_version products rows (Finds (business_rules reg)) 0 l r.code found there in
        let same : other ≡ r =
          some_injective (sym again ∙ ap (λ c. find_rule c (business_rules reg)) code ∙ self) in
        ap (λ (i : Option ScopeItem). current_rule i (find_rule r.code (business_rules reg))) e
        ∙ ap (current_rule (some item)) self
        ∙ same_version item r (version ∙ ap (λ (x : Inspector). x.rule_version) same)

-- A scope that a task freezes passes the validation of versions on a valid registry that has not
-- changed: the validation gives back exactly the rules that were selected, in the frozen order, the
-- rules that are not hidden and are assigned to the requested type, by priority and code.
pub validate_snapshot_versions-resolve_scope :
    (products : Products) (rows : Assignments) (revision : ℕ) (reg : RuleRegistry)
    (requested : Option Text) (snapshot : Snapshot)
    → IsValid reg
    → resolve_scope products rows revision reg requested ≡ ok snapshot
    → validate_snapshot_versions reg snapshot
      ≡ ok (selected_rules rows reg snapshot.network_element_type)
unfolding resolve_scope
validate_snapshot_versions-resolve_scope products rows revision reg requested snapshot valid h =
    let frozen : Option Text → Snapshot = λ type. record {
      network_element_type = type;
      assignment_revision = revision;
      items = items_from products rows 0 (selected_rules rows reg type);
    } in
    let (type, normalized, last) =
      >>=-eq-ok (normalize_network_type products requested) (λ type. ok (frozen type)) h in
    subst
      (λ (s : Snapshot).
        validate_snapshot_versions reg s ≡ ok (selected_rules rows reg s.network_element_type))
      (ok_injective last) (validated type)
  where
    validated :
        (type : Option Text)
        → validate_snapshot_versions reg (record {
          network_element_type = type;
          assignment_revision = revision;
          items = items_from products rows 0 (selected_rules rows reg type);
        })
          ≡ ok (selected_rules rows reg type)
    validated type =
        let l = selected_rules rows reg type in
        let items = items_from products rows 0 l in
        let snap : Snapshot = record {
          network_element_type = type;
          assignment_revision = revision;
          items = items;
        } in
        ap (validate_frozen_rules reg snap) (items_codes products rows 0 l)
        ∙ validate_frozen_rules-eq-ok reg snap l
            (zip_All (λ (r : Inspector). any (has_code r.code) l ≡ true)
              (λ (r : Inspector). any (has_code r.code) l ≡ true)
              (λ (r : Inspector). is_frozen items r.code ≡ true) l
              (λ r h k. items_frozen products rows 0 l r.code ∙ h) (own_codes l) (own_codes l))
            (items-IsCurrent products rows reg l (selected_rules-Finds rows reg type valid))
