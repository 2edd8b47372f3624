-- ===== src/Prelude/Results.antt =====
-- Errors as values, and the state that an operation leaves when it fails: a failed operation
-- keeps whatever it had written.
use mathlib.Core.Path.{◌≡◌, ap, refl}
use mathlib.Core.Bool.{Bool, true, false, not}
use mathlib.Core.Logic.{◌⊎◌, inl, inr}
use boxwarden.Prelude.Tests.{if◌then◌else◌}

-- An error carries no message: the model keeps which operation failed, not its text.
pub data Outcome {ℓ} (A : Type ℓ) : Type ℓ where
  ok : A → Outcome A
  err : Outcome A

abbrev pub bind {ℓ κ} : {A : Type ℓ} {B : Type κ} → Outcome A → (A → Outcome B) → Outcome B
bind (ok a) f = f a
bind err f = err

abbrev pub guard : Bool → Outcome (Unit {0})
guard true = ok tt
guard false = err

-- A success has passed through the first step, and the rest has succeeded on its value.
pub bind-eq-ok {ℓ κ} :
    {S : Type ℓ} {T : Type κ} (first : Outcome S) (rest : S → Outcome T) {result : T}
    → bind first rest ≡ ok result
    → (s : S) × (first ≡ ok s) × (rest s ≡ ok result)
bind-eq-ok err rest e = cc
bind-eq-ok (ok s) rest e = (s, refl, e)

pub Outcome-cases {ℓ} : {A : Type ℓ} (o : Outcome A) → (o ≡ err) ⊎ ((a : A) × (o ≡ ok a))
Outcome-cases (ok a) = inr (a, refl)
Outcome-cases err = inl refl

-- A guard that a success has passed.
pub else-eq-ok {ℓ} :
    {A : Type ℓ} (b : Bool) (m : Outcome A) {a : A}
    → (if not b then err else m) ≡ ok a
    → (b ≡ true) × (m ≡ ok a)
else-eq-ok true m h = (refl, h)
else-eq-ok false m h = cc

pub if-eq-ok {ℓ} :
    {A : Type ℓ} (b : Bool) (m : Outcome A) {a : A}
    → (if b then err else m) ≡ ok a
    → (b ≡ false) × (m ≡ ok a)
if-eq-ok false m h = (refl, h)
if-eq-ok true m h = cc

pub guard-eq-ok : (b : Bool) → guard b ≡ ok tt → b ≡ true
guard-eq-ok true h = refl
guard-eq-ok false h = cc

pub ok-injective {ℓ} : {A : Type ℓ} (a b : A) → ok a ≡ ok b → a ≡ b
ok-injective a b e = ap (λ o. elim o [ ok x ↦ x | err ↦ a ]) e
