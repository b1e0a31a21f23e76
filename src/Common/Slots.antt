-- ===== src/Common/Slots.antt =====
-- Writes into the slots of an array.
use Prim.Native.Nat.{ℕ, zero, suc}
use mathlib.Core.Path.{◌≡◌, refl, ap}
use mathlib.Core.Logic.{◌⊎◌, inl, inr}
use mathlib.Core.List.{List, [], ◌∷◌}
use mathlib.Core.Option.{some}
use frelay.Common.Lists.{get_elem?, set}

module _ {ℓ} {A : Type ℓ} where
  pub set-set : (xs : List A) (i : ℕ) (a b : A) → set (set xs i a) i b ≡ set xs i b
  set-set [] i a b = refl
  set-set (x ∷ xs) zero a b = refl
  set-set (x ∷ xs) (suc i) a b = ap (λ ys. x ∷ ys) (set-set xs i a b)

  -- What a slot holds after another write.
  pub get_elem?-set_cases :
      (xs : List A) (i j : ℕ) (a y : A)
      → get_elem? xs i ≡ some a
      → (x : A) × (get_elem? (set xs j y) i ≡ some x) × ((x ≡ a) ⊎ ((i ≡ j) × (x ≡ y)))
  get_elem?-set_cases [] i j a y h = cc
  get_elem?-set_cases (x ∷ xs) zero zero a y h = (y, refl, inr (refl, refl))
  get_elem?-set_cases (x ∷ xs) zero (suc j) a y h = (a, h, inl refl)
  get_elem?-set_cases (x ∷ xs) (suc i) zero a y h = (a, h, inl refl)
  get_elem?-set_cases (x ∷ xs) (suc i) (suc j) a y h =
      let (b, eb, which) = get_elem?-set_cases xs i j a y h in
      (b, eb, elim which [ inl e ↦ inl e | inr (e, f) ↦ inr (ap suc e, f) ])

  -- A slot that holds something holds what was written last.
  pub get_elem?-set_inv :
      (xs : List A) (i : ℕ) (v : A) {x : A} → get_elem? (set xs i v) i ≡ some x → x ≡ v
  get_elem?-set_inv [] i v h = cc
  get_elem?-set_inv (y ∷ xs) zero v h = cc
  get_elem?-set_inv (y ∷ xs) (suc i) v h = get_elem?-set_inv xs i v h
