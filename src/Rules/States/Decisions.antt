-- ===== src/Rules/States/Decisions.antt =====
-- An operator's decision on a rule holds until the next one.
use patrol_x.Base.{
  either_branch, ℕ, ◌≡◌, ◌≢◌, ◌⊎◌, refl, sym, ◌∙◌, Bool, true, false, not, List, [], ◌∷◌, Option,
  none, some, inl, inr, if◌then◌else◌, Bool-cases, Result, ok, err, ok_injective,
}
use mathlib.Core.Path.{ap, subst}
use patrol_x.Base.Dict.{get, put, get-put, get-put_other}
use patrol_x.Base.Lists.{any}
use patrol_x.Base.Text.{Text, text_eq, text_eq_iff}
use patrol_x.Rules.Contract.{Inspector}
use patrol_x.Rules.Registry.{RuleRegistry, get_rule}
use patrol_x.Rules.States.{
  RuleState, StateError, rule_disabled, Table, normal_codes, has_state, add_states,
  ensure_rule_states, set_enabled, manageable, update_ensured, update_rule_state, check_enabled,
  assert_rule_enabled,
}

-- A row that exists is not written again.
add_states-get :
    (disabled_rules : List Text) (existing : Table) (now : ℕ) (codes : List Text) (table : Table)
    (c : Text)
    → has_state c existing ≡ true
    → get c (add_states disabled_rules existing now codes table) ≡ get c table
unfolding add_states
add_states-get disabled_rules existing now [] table c h = refl
add_states-get disabled_rules existing now (code ∷ codes) table c h =
    elim (Bool-cases (has_state code existing)) [
      | inl known ↦ rw known (add_states-get disabled_rules existing now codes table c h)
      | inr fresh ↦ rw fresh (
          add_states-get disabled_rules existing now codes (put code (row code) table) c h
          ∙ get-put_other c code (row code) table
              (λ e. ne (subst (λ k. has_state k existing ≡ false) e fresh) h))
    ]
  where
    row : Text → RuleState
    row code = record { enabled = not (any (text_eq code) disabled_rules); updated_at = now }

    ne : {b : Bool} → b ≡ false → b ≡ true → ⊥
    ne h e = cc

ensure_rule_states-get :
    (reg : RuleRegistry) (disabled_rules : List Text) (now : ℕ) (table : Table) (c : Text)
    (state : RuleState)
    → get c table ≡ some state
    → get c (ensure_rule_states reg disabled_rules now table) ≡ some state
unfolding ensure_rule_states
ensure_rule_states-get reg disabled_rules now table c state h =
    add_states-get disabled_rules table now (normal_codes reg) table c (rw (h, has_state) refl) ∙ h

set_enabled-get :
    (code : Text) (enabled : Bool) (now : ℕ) (o : Option RuleState) (table : Table)
    → get code table ≡ o
    → (state : RuleState) × (get code (set_enabled code enabled now o table) ≡ some state)
      × (state.enabled ≡ enabled)
set_enabled-get code enabled now none table h = (
  record { enabled = enabled; updated_at = now },
  get-put code (record { enabled = enabled; updated_at = now }) table,
  refl,
)
set_enabled-get code enabled now (some state) table h =
    elim (Bool-cases (if state.enabled then enabled else not enabled)) [
      | inl same ↦ rw same (state, h, equal state.enabled enabled same)
      | inr other ↦ rw other (
        record { enabled = enabled; updated_at = now },
        get-put code (record { enabled = enabled; updated_at = now }) table,
        refl,
      )
    ]
  where
    equal : (a b : Bool) → (if a then b else not b) ≡ true → a ≡ b
    equal true b h = sym h
    equal false true h = cc
    equal false false h = refl

set_enabled-other :
    (code : Text) (enabled : Bool) (now : ℕ) (o : Option RuleState) (table : Table) (c : Text)
    → c ≢ code
    → get c (set_enabled code enabled now o table) ≡ get c table
set_enabled-other code enabled now none table c differ =
    get-put_other c code (record { enabled = enabled; updated_at = now }) table
      (λ e. differ (sym e))
set_enabled-other code enabled now (some state) table c differ =
    elim (Bool-cases (if state.enabled then enabled else not enabled)) [
      | inl same ↦ rw same refl
      | inr other ↦ rw other (
          get-put_other c code (record { enabled = enabled; updated_at = now }) table
            (λ e. differ (sym e)))
    ]

-- A decision that is in force already leaves the table as it is.
set_enabled_again :
    (code : Text) (enabled : Bool) (now : ℕ) (state : RuleState) (table : Table)
    → state.enabled ≡ enabled
    → set_enabled code enabled now (some state) table ≡ table
set_enabled_again code enabled now state table h = rw (h, same enabled) refl
  where
    same : (b : Bool) → (if b then b else not b) ≡ true
    same true = refl
    same false = refl

manageable-eq-ok :
    (o : Option Inspector) (rule : Inspector)
    → manageable o ≡ ok rule
    → (o ≡ some rule) × (rule.hidden ≡ false)
manageable-eq-ok none rule h = cc
manageable-eq-ok (some r) rule h =
    either_branch r.hidden h (λ _ e. cc)
      (λ shown e. (
        ap some (ok_injective e),
        subst (λ (x : Inspector). x.hidden ≡ false) (ok_injective e) shown,
      ))

-- What an update that succeeds leaves in the table, whose rows it reads after the ensuring.
pub record Decided (reg : RuleRegistry) (code : Text) (enabled : Bool) (before after : Table)
    : Type 0 where
  -- after any later restart, with any list of disabled rules, a run of the rule is let through or not
  pub holds :
      (disabled_rules : List Text) (now : ℕ)
      → (assert_rule_enabled reg disabled_rules now code after).1
        ≡ (if enabled then none else some rule_disabled)
  -- the other rows are not touched
  pub others : (c : Text) → (c ≡ code) ⊎ (get c after ≡ get c before)
  -- the same decision again changes no row of the rule, and so keeps the moment of the first
  pub repeated :
      (disabled_rules : List Text) (now : ℕ)
      → get code (update_rule_state reg disabled_rules code enabled now after).0 ≡ get code after

set_enabled-Decided :
    (reg : RuleRegistry) (code : Text) (enabled : Bool) (now : ℕ) (before : Table)
    (rule : Inspector)
    → manageable (get_rule reg code) ≡ ok rule
    → Decided reg code enabled before (set_enabled code enabled now (get code before) before)
unfolding assert_rule_enabled update_rule_state
set_enabled-Decided reg code enabled now before rule found =
    let (registered, shown) = manageable-eq-ok (get_rule reg code) rule found in
    let (state, row, decided) = set_enabled-get code enabled now (get code before) before refl in
    let after : Table = set_enabled code enabled now (get code before) before in
    record {
      holds = λ disabled_rules later.
          let kept = ensure_rule_states-get reg disabled_rules later after code state row in
          ap
            (λ (o : Option Inspector).
              check_enabled o (get code (ensure_rule_states reg disabled_rules later after)))
            registered
          ∙ ap (check_enabled (some rule)) kept
          ∙ rw (shown, decided) refl;
      others = λ c. elim (Bool-cases (text_eq c code)) [
        | inl same ↦ inl ((text_eq_iff c code).0 same)
        | inr other ↦
            inr (set_enabled-other code enabled now (get code before) before c (differ c other))
      ];
      repeated = λ disabled_rules later.
          let ensured : Table = ensure_rule_states reg disabled_rules later after in
          let kept : get code ensured ≡ some state =
            ensure_rule_states-get reg disabled_rules later after code state row in
          ap (λ r. get code (update_ensured code enabled later r ensured).0) found
          ∙ ap (λ o. get code (set_enabled code enabled later o ensured)) kept
          ∙ ap (get code) (set_enabled_again code enabled later state ensured decided)
          ∙ kept
          ∙ sym row;
    }
  where
    differ : (c : Text) → text_eq c code ≡ false → c ≢ code
    differ c other e = ne other ((text_eq_iff c code).1 e)
      where
        ne : {b : Bool} → b ≡ false → b ≡ true → ⊥
        ne h k = cc

-- When an update of a rule's state returns, the decision is in the table: any later check of the
-- rule, after any restart and with any list of disabled rules in the configuration, lets it through
-- or not as was decided, the states of the other rules are what they were, and the same update again
-- keeps the moment of the first.
pub update_rule_state-Decided :
    (reg : RuleRegistry) (disabled_rules : List Text) (code : Text) (enabled : Bool) (now : ℕ)
    (table after : Table) (row : Option RuleState)
    → update_rule_state reg disabled_rules code enabled now table ≡ (after, ok row)
    → Decided reg code enabled (ensure_rule_states reg disabled_rules now table) after
unfolding update_rule_state
update_rule_state-Decided reg disabled_rules code enabled now table after row h =
    updated (manageable (get_rule reg code)) refl h
  where
    updated :
        (r : Result StateError Inspector)
        → manageable (get_rule reg code) ≡ r
        → update_ensured code enabled now r (ensure_rule_states reg disabled_rules now table)
          ≡ (after, ok row)
        → Decided reg code enabled (ensure_rule_states reg disabled_rules now table) after
    updated (err e) found k = absurd (failed (ap (λ t. t.1) k))
      where
        failed : ◌≡◌ {A = Result StateError (Option RuleState)} (err e) (ok row) → ⊥
        failed q = cc
    updated (ok rule) found k =
        subst (Decided reg code enabled (ensure_rule_states reg disabled_rules now table))
          (ap (λ t. t.0) k)
          (set_enabled-Decided reg code enabled now
            (ensure_rule_states reg disabled_rules now table) rule found)
