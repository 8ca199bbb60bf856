-- ===== src/Executor/Orders.antt =====
-- What the plans of an executor hold, and in which order.
use patrol_x.Base.{
  ◌≡◌, refl, ◌∙◌, arith, Bool, true, false, not, ◌&&◌, ◌||◌, List, [], ◌∷◌, map, inl, inr, of_bool,
  Bool-cases,
}
use mathlib.Core.Path.{ap}
use patrol_x.Base.Lists.{keep, count_if}
use patrol_x.Base.Sort.{sort}
use patrol_x.Base.Sort.Laws.{count_if-sort}
use patrol_x.Base.Sort.Ordered.{Ordered, sort-Ordered, text_le-total, text_le_trans}
use patrol_x.Base.Text.{Text, text_eq, text_le, starts_with}
use patrol_x.Rules.Contract.{Inspector}
use patrol_x.Rules.Registry.{rule_le, all_rules, rule_codes}
use patrol_x.Executor.{
  Executor, extract_prefix, extract_le, extract_plan, owner_in_scope, inspect_plan,
}

count_if-map :
    {A B : Type 0} (p : B → Bool) (f : A → B) (l : List A)
    → count_if p (map f l) ≡ count_if (λ x. p (f x)) l
count_if-map p f [] = refl
count_if-map p f (x ∷ l) = omega (arith, count_if-map p f l)

count_if-keep :
    {A : Type 0} (p q : A → Bool) (l : List A)
    → count_if p (keep q l) ≡ count_if (λ x. q x && p x) l
count_if-keep p q [] = refl
count_if-keep p q (x ∷ l) = elim (Bool-cases (q x)) [
  | inl kept ↦ rw kept (omega (arith, count_if-keep p q l))
  | inr left ↦ rw left (omega (arith, count_if-keep p q l))
]

same_count :
    {A : Type 0} (p q : A → Bool) (l : List A) → ((x : A) → p x ≡ q x) → count_if p l ≡ count_if q l
same_count p q [] h = refl
same_count p q (x ∷ l) h = omega (arith, ap of_bool (h x), same_count p q l h)

extract_le-total : (s t : Text) → extract_le s t ≡ false → extract_le t s ≡ true
extract_le-total s t h = ground (arith, text_le-total s t)

extract_le_trans :
    (s t u : Text) → extract_le s t ≡ true → extract_le t u ≡ true → extract_le s u ≡ true
extract_le_trans s t u h k = ground (arith, text_le_trans s t u)

-- The plans of an executor hold each code as often as the registry has it: the extract plan the codes
-- with the prefix of the extract units, the inspect plan those of the rules that are not hidden and
-- are in the frozen scope. The extract plan is in order: the main package first, the others by code.
pub plans_complete :
    (ex : Executor)
    → ((c : Text)
        → count_if (text_eq c) (extract_plan ex)
          ≡ count_if
              (λ (rule : Inspector). starts_with extract_prefix rule.code && text_eq c rule.code)
              ex.registry.rules)
      × ((c : Text)
          → count_if (text_eq c) (inspect_plan ex)
            ≡ count_if
                (λ (rule : Inspector).
                  (not rule.hidden && owner_in_scope ex rule.code) && text_eq c rule.code)
                ex.registry.rules)
      × Ordered extract_le (extract_plan ex)
unfolding extract_plan inspect_plan rule_codes all_rules
plans_complete ex = (
  λ c.
      count_if-sort extract_le (text_eq c)
        (keep (starts_with extract_prefix) (rule_codes ex.registry))
      ∙ count_if-keep (text_eq c) (starts_with extract_prefix) (rule_codes ex.registry)
      ∙ count_if-sort text_le (λ k. starts_with extract_prefix k && text_eq c k)
          (map (λ (rule : Inspector). rule.code) ex.registry.rules)
      ∙ count_if-map (λ k. starts_with extract_prefix k && text_eq c k)
          (λ (rule : Inspector). rule.code) ex.registry.rules,
  λ c.
      count_if-map (text_eq c) (λ (rule : Inspector). rule.code)
        (keep (λ (rule : Inspector). not rule.hidden && owner_in_scope ex rule.code)
          (all_rules false ex.registry))
      ∙ count_if-keep (λ (rule : Inspector). text_eq c rule.code)
          (λ (rule : Inspector). not rule.hidden && owner_in_scope ex rule.code)
          (all_rules false ex.registry)
      ∙ count_if-keep
          (λ (rule : Inspector).
            (not rule.hidden && owner_in_scope ex rule.code) && text_eq c rule.code)
          (λ (rule : Inspector). false || not rule.hidden) (sort rule_le ex.registry.rules)
      ∙ count_if-sort rule_le
          (λ (rule : Inspector).
            (false || not rule.hidden)
            && ((not rule.hidden && owner_in_scope ex rule.code) && text_eq c rule.code))
          ex.registry.rules
      ∙ same_count
          (λ (rule : Inspector).
            (false || not rule.hidden)
            && ((not rule.hidden && owner_in_scope ex rule.code) && text_eq c rule.code))
          (λ (rule : Inspector).
            (not rule.hidden && owner_in_scope ex rule.code) && text_eq c rule.code)
          ex.registry.rules
          (λ rule. once (not rule.hidden) (owner_in_scope ex rule.code) (text_eq c rule.code)),
  sort-Ordered extract_le extract_le-total extract_le_trans
      (keep (starts_with extract_prefix) (rule_codes ex.registry)),
)
  where
    once : (a b c : Bool) → ((false || a) && ((a && b) && c)) ≡ ((a && b) && c)
    once true b c = refl
    once false b c = refl
