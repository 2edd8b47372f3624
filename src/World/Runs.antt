-- ===== src/World/Runs.antt =====
-- A run that succeeds has passed through each of its steps.
use boxwarden.Prelude.{
  Bool, Outcome, ap, err, false, guard, guard-eq-ok, if◌then◌else◌, inl, inr, ok, refl, true, ◌≡◌,
  ◌⊎◌,
}
use boxwarden.World.{M, World, fail, lift, then_with}

pub then_with-eq-ok :
    {A B : Type 0} (first : Outcome A × World) (rest : A → M B) {b : B} {w' : World}
    → then_with first rest ≡ (ok b, w')
    → (a : A) × (first.0 ≡ ok a) × (rest a first.1 ≡ (ok b, w'))
then_with-eq-ok (ok a, w) rest h = (a, refl, h)
then_with-eq-ok (err, w) rest {b} h = let e : err ≡ ok b = ap (λ p. p.0) h in cc

pub guard-passed :
    (test : Bool) {B : Type 0} (rest : Unit {0} → M B) {w : World} {b : B} {w' : World}
    → then_with (guard test, w) rest ≡ (ok b, w')
    → (test ≡ true) × (rest tt w ≡ (ok b, w'))
guard-passed true rest h = (refl, h)
guard-passed false rest {w} {b} h = let e : err ≡ ok b = ap (λ p. p.0) h in cc

-- A guard at the end of a run.
pub guard_last :
    (test : Bool) {w w' : World} → lift (guard test) w ≡ (ok tt, w') → (test ≡ true) × (w ≡ w')
guard_last test h = (guard-eq-ok test (ap (λ p. p.0) h), ap (λ p. p.1) h)

-- A step of a run: it has failed and the run with it, or the rest has run on its value.
pub then_with-cases :
    {A B : Type 0} (first : Outcome A × World) (rest : A → M B)
    → ((first.0 ≡ err) × (then_with first rest ≡ (err, first.1)))
      ⊎ ((a : A) × (first.0 ≡ ok a) × (then_with first rest ≡ rest a first.1))
then_with-cases (ok a, w) rest = inr (a, refl, refl)
then_with-cases (err, w) rest = inl (refl, refl)

-- What holds of the worlds that a run may leave, step by step.
pub then_with-leaves :
    {A B : Type 0} (Q : World → Type 0) (first : Outcome A × World) (rest : A → M B)
    → Q first.1
    → ((a : A) → first.0 ≡ ok a → Q (rest a first.1).1)
    → Q (then_with first rest).1
then_with-leaves Q (ok a, w) rest q h = h a refl
then_with-leaves Q (err, w) rest q h = q

-- A run that branches has run one of its branches.
pub if-runs :
    {A : Type 0} (b : Bool) (m n : M A) {w : World} {o : Outcome A × World}
    → (if b then m else n) w ≡ o
    → ((b ≡ true) × (m w ≡ o)) ⊎ ((b ≡ false) × (n w ≡ o))
if-runs true m n h = inl (refl, h)
if-runs false m n h = inr (refl, h)

pub fail-never :
    {A : Type 0} {a : A} {w w' : World} → fail {A = A} w ≡ (ok a, w') → (P : Type 0) → P
fail-never {A} {a} h P = let e : err ≡ ok a = ap (λ p. p.0) h in cc
