-- ===== src/Base/Outcome.antt =====
-- The value of a Python call that may raise: what it returns, or what it raises.
use mathlib.Core.Path.{◌≡◌, refl}
use mathlib.Core.Bool.{Bool, true, false}

pub data Result {ℓ} (E : Type 0) (A : Type ℓ) : Type ℓ where
  err : E → Result E A
  ok : A → Result E A

-- `if test: raise exception`
abbrev pub raise_if : {E : Type 0} → Bool → E → Result E (Unit {0})
raise_if false exception = ok tt
raise_if true exception = err exception

module _ {ℓ κ} {E : Type 0} {A : Type ℓ} {B : Type κ} where
  infixl 5 ◌>>=◌
  -- What is raised skips the statements behind it.
  abbrev pub ◌>>=◌ : Result E A → (A → Result E B) → Result E B
  err exception >>= next = err exception
  ok returned >>= next = next returned

  pub >>=-eq-ok :
      (first : Result E A) (next : A → Result E B) {last : B}
      → (first >>= next) ≡ ok last
      → (returned : A) × (first ≡ ok returned) × (next returned ≡ ok last)
  >>=-eq-ok (err exception) next h = cc
  >>=-eq-ok (ok returned) next h = (returned, refl, h)

infixl 5 ◌>>◌
abbrev pub ◌>>◌ {κ} : {E : Type 0} {B : Type κ} → Result E (Unit {0}) → Result E B → Result E B
check >> behind = check >>= λ nothing. behind

pub ok_injective {ℓ} :
    {E : Type 0} {A : Type ℓ} {a b : A} → ◌≡◌ {A = Result E A} (ok a) (ok b) → a ≡ b
ok_injective h = cc

pub raise_if-eq-ok :
    {E : Type 0} (b : Bool) (e : E) {u : Unit {0}} → raise_if b e ≡ ok u → b ≡ false
raise_if-eq-ok false e h = refl
raise_if-eq-ok true e h = cc
