-- ===== src/Base/Success.antt =====
-- Outcomes: the three cases of one that is computed, with the equation, and injectivity.
use mathlib.Core.Path.{◌≡◌, refl, ap}
use native.Mathlib.Omega.{arith}
use strevm.Base.Outcomes.{Outcome, ok, err, panic, Error, ◌>>=◌}

pub data IsOutcome {ℓ} {A : Type ℓ} (m : Outcome A) : Type ℓ where
  is_ok : (a : A) → m ≡ ok a → IsOutcome m
  is_err : (e : Error) → m ≡ err e → IsOutcome m
  is_panic : m ≡ panic → IsOutcome m

pub Outcome-cases {ℓ} : {A : Type ℓ} → (m : Outcome A) → IsOutcome m
Outcome-cases (ok a) = is_ok a refl
Outcome-cases (err e) = is_err e refl
Outcome-cases panic = is_panic refl

abbrev ok_or {ℓ} : {A : Type ℓ} → A → Outcome A → A
ok_or default (ok a) = a
ok_or default (err e) = default
ok_or default panic = default

pub ok-injective {ℓ} : {A : Type ℓ} {a b : A} → ok a ≡ ok b → a ≡ b
ok-injective {a = a} e = ap (ok_or a) e

-- A chain of calls that returns went through each of them.
pub bind_inverts {ℓ κ} :
    {A : Type ℓ} {B : Type κ} (m : Outcome A) (next : A → Outcome B) (b : B)
    → (m >>= next) ≡ ok b
    → (a : A) × (m ≡ ok a) × (next a ≡ ok b)
bind_inverts (ok a) next b run = (a, refl, run)
bind_inverts (err e) next b run = absurd (ground arith)
bind_inverts panic next b run = absurd (ground arith)
