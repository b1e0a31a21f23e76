-- ===== src/Common/Results.antt =====
-- What a call into the C code can do: return, end the process by `die_if`, or leave defined
-- behaviour (a read behind a buffer, a null pointer handed to a string function).
use mathlib.Core.Path.{◌≡◌, refl}
use mathlib.Core.Option.{Option, none, some}

pub data Outcome {ℓ} (A : Type ℓ) : Type ℓ where
  returns : A → Outcome A
  dies : Outcome A
  faults : Outcome A

infixl 5 ◌>>=◌
abbrev pub ◌>>=◌ {ℓ κ} : {A : Type ℓ} {B : Type κ} → Outcome A → (A → Outcome B) → Outcome B
returns a >>= f = f a
dies >>= f = dies
faults >>= f = faults

pub >>=_cong {ℓ κ} :
    {A : Type ℓ} {B : Type κ} (m : Outcome A) {f g : A → Outcome B}
    → ((a : A) → f a ≡ g a)
    → (m >>= f) ≡ (m >>= g)
>>=_cong (returns a) h = h a
>>=_cong dies h = refl
>>=_cong faults h = refl

pub >>=-eq-returns {ℓ κ} :
    {A : Type ℓ} {B : Type κ} (m : Outcome A) (f : A → Outcome B) {b : B}
    → (m >>= f) ≡ returns b
    → (a : A) × (m ≡ returns a) × (f a ≡ returns b)
>>=-eq-returns (returns a) f h = (a, refl, h)
>>=-eq-returns dies f h = cc
>>=-eq-returns faults f h = cc

-- A choice on a pointer or a result: the second value is for the one that is missing.
abbrev pub if_some {ℓ κ} : {A : Type ℓ} {B : Type κ} → Option A → B → (A → B) → B
if_some none x f = x
if_some (some a) x f = f a

pub if_some_cong {ℓ κ} :
    {A : Type ℓ} {B : Type κ} (o : Option A) (n : B) {f g : A → B}
    → ((a : A) → o ≡ some a → f a ≡ g a)
    → if_some o n f ≡ if_some o n g
if_some_cong none n h = refl
if_some_cong (some a) n h = h a refl
