-- ===== src/Common/Ensures.antt =====
-- What holds of a call into the C code if it returns, with a rule for each way to build one.
use mathlib.Core.Path.{◌≡◌, refl, subst}
use mathlib.Core.Bool.{Bool, true, false}
use mathlib.Core.Option.{Option, none, some}
use frelay.Common.Tests.{if◌then◌else◌}
use frelay.Common.Results.{Outcome, returns, dies, faults, ◌>>=◌, if_some}

-- What holds of the result of a call that returns.
pub record Ensures {ℓ κ} {A : Type ℓ} (P : A → Type κ) (m : Outcome A) : Type (ℓ ⊔ κ) where
  pub at : (a : A) → m ≡ returns a → P a

module _ {ℓ κ} {A : Type ℓ} {P : A → Type κ} where
  pub Ensures-returns : (a : A) → P a → Ensures P (returns a)
  Ensures-returns a h = record { at = λ b e. subst P (returns_injective e) h }
    where
      returns_injective : {b : A} → Path (Outcome A) (returns a) (returns b) → a ≡ b
      returns_injective e = cc

  pub Ensures-faults : Ensures P faults
  Ensures-faults = record { at = λ b e. absurd (cc) }

  pub Ensures-if :
      (b : Bool) (x y : Outcome A)
      → (b ≡ true → Ensures P x)
      → (b ≡ false → Ensures P y)
      → Ensures P (if b then x else y)
  Ensures-if true x y h k = h refl
  Ensures-if false x y h k = k refl

module _ {ℓ κ μ} {A : Type ℓ} {B : Type κ} {P : B → Type μ} where
  pub Ensures-bind :
      (m : Outcome A) (f : A → Outcome B) → ((a : A) → Ensures P (f a)) → Ensures P (m >>= f)
  Ensures-bind (returns a) f h = h a
  Ensures-bind dies f h = record { at = λ b e. absurd (cc) }
  Ensures-bind faults f h = record { at = λ b e. absurd (cc) }

  -- The rest may use what holds of the first result.
  pub Ensures-then {ν} :
      {Q : A → Type ν} (m : Outcome A) (f : A → Outcome B)
      → Ensures Q m
      → ((a : A) → Q a → Ensures P (f a))
      → Ensures P (m >>= f)
  Ensures-then (returns a) f q h = h a (q.at a refl)
  Ensures-then dies f q h = record { at = λ b e. absurd (cc) }
  Ensures-then faults f q h = record { at = λ b e. absurd (cc) }

module _ {ℓ κ μ} {A : Type ℓ} {B : Type κ} {P : B → Type μ} where
  pub Ensures-if_some :
      (o : Option A) (x : Outcome B) (f : A → Outcome B)
      → Ensures P x
      → ((a : A) → Ensures P (f a))
      → Ensures P (if_some o x f)
  Ensures-if_some none x f h k = h
  Ensures-if_some (some a) x f h k = k a

  pub Ensures-some :
      (o : Option A) (x : Outcome B) (f : A → Outcome B)
      → Ensures P x
      → ((a : A) → o ≡ some a → Ensures P (f a))
      → Ensures P (if_some o x f)
  Ensures-some none x f h k = h
  Ensures-some (some a) x f h k = k a refl

pub ruleset ensures_rules =
    (Ensures-returns, Ensures-faults, Ensures-if, Ensures-bind, Ensures-if_some)
