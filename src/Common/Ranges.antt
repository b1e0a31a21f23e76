-- ===== src/Common/Ranges.antt =====
-- Byte ranges of a buffer: what reads see after writes, and where ranges of joined lists lie.
use Prim.Native.Nat.{ℕ, zero, suc, ◌+◌, ◌-◌, ◌≤◌}
use mathlib.Core.Path.{◌≡◌, refl, ap, ◌∙◌}
use mathlib.Core.List.{List, [], ◌∷◌, ◌++◌}
use native.Mathlib.Omega.{arith}
use frelay.Common.Lists.{length, take, drop, replicate, slice, write, length-take, length-drop}

module _ {ℓ} {A : Type ℓ} where
  pub length-write : (o : ℕ) (vs xs : List A) → length (write o vs xs) ≡ length xs
  unfolding write
  length-write o vs [] = refl
  length-write (suc o) vs (x ∷ xs) = ap suc (length-write o vs xs)
  length-write zero [] (x ∷ xs) = refl
  length-write zero (v ∷ vs) (x ∷ xs) = ap suc (length-write zero vs xs)

  pub slice-write_self :
      (o : ℕ) (vs xs : List A)
      → o + length vs ≤ length xs
      → slice o (length vs) (write o vs xs) ≡ vs
  unfolding slice write
  slice-write_self zero [] xs h = refl
  slice-write_self zero (v ∷ vs) [] h = absurd (omega arith)
  slice-write_self zero (v ∷ vs) (x ∷ xs) h = ap (◌∷◌ v) (slice-write_self zero vs xs (omega arith))
  slice-write_self (suc o) vs [] h = absurd (omega arith)
  slice-write_self (suc o) vs (x ∷ xs) h = slice-write_self o vs xs (omega arith)

  take-write : (n o : ℕ) (vs xs : List A) → n ≤ o → take n (write o vs xs) ≡ take n xs
  unfolding write
  take-write zero o vs xs h = refl
  take-write (suc n) o vs [] h = refl
  take-write (suc n) zero vs (x ∷ xs) h = absurd (omega arith)
  take-write (suc n) (suc o) vs (x ∷ xs) h = ap (◌∷◌ x) (take-write n o vs xs (omega arith))

  pub slice-write_before :
      (o n p : ℕ) (vs xs : List A) → o + n ≤ p → slice o n (write p vs xs) ≡ slice o n xs
  unfolding slice write
  slice-write_before zero n p vs xs h = take-write n p vs xs (omega arith)
  slice-write_before (suc o) n p vs [] h = refl
  slice-write_before (suc o) n zero vs (x ∷ xs) h = absurd (omega arith)
  slice-write_before (suc o) n (suc p) vs (x ∷ xs) h = slice-write_before o n p vs xs (omega arith)

  pub drop-write :
      (o p : ℕ) (vs xs : List A) → p + length vs ≤ o → drop o (write p vs xs) ≡ drop o xs
  unfolding write
  drop-write o p vs [] h = refl
  drop-write zero zero [] (x ∷ xs) h = refl
  drop-write zero zero (v ∷ vs) (x ∷ xs) h = absurd (omega arith)
  drop-write zero (suc p) vs (x ∷ xs) h = absurd (omega arith)
  drop-write (suc o) zero [] (x ∷ xs) h = refl
  drop-write (suc o) zero (v ∷ vs) (x ∷ xs) h = drop-write o zero vs xs (omega arith)
  drop-write (suc o) (suc p) vs (x ∷ xs) h = drop-write o p vs xs (omega arith)

  pub slice-write_after :
      (o n p : ℕ) (vs xs : List A) → p + length vs ≤ o → slice o n (write p vs xs) ≡ slice o n xs
  unfolding slice
  slice-write_after o n p vs xs h = ap (take n) (drop-write o p vs xs h)

  pub write-append_left :
      (o : ℕ) (vs xs ys : List A)
      → o + length vs ≤ length xs
      → write o vs (xs ++ ys) ≡ write o vs xs ++ ys
  unfolding write
  write-append_left zero [] [] [] h = refl
  write-append_left zero [] [] (y ∷ ys) h = refl
  write-append_left zero [] (x ∷ xs) ys h = refl
  write-append_left zero (v ∷ vs) [] ys h = absurd (omega arith)
  write-append_left zero (v ∷ vs) (x ∷ xs) ys h =
      ap (◌∷◌ v) (write-append_left zero vs xs ys (omega arith))
  write-append_left (suc o) vs [] ys h = absurd (omega arith)
  write-append_left (suc o) vs (x ∷ xs) ys h =
      ap (◌∷◌ x) (write-append_left o vs xs ys (omega arith))

  pub write-append_right :
      (o : ℕ) (vs xs ys : List A) → write (length xs + o) vs (xs ++ ys) ≡ xs ++ write o vs ys
  unfolding write
  write-append_right o vs [] ys = ap (λ k. write k vs ys) (omega arith)
  write-append_right o vs (x ∷ xs) ys =
      rw (suc_shift (length xs) o) (ap (◌∷◌ x) (write-append_right o vs xs ys))
    where
      suc_shift : (m n : ℕ) → suc m + n ≡ suc (m + n)
      suc_shift m n = omega arith

  pub write_exact : (vs xs : List A) → length vs ≡ length xs → write 0 vs xs ≡ vs
  unfolding write
  write_exact [] [] h = refl
  write_exact (v ∷ vs) [] h = absurd (omega arith)
  write_exact [] (x ∷ xs) h = absurd (omega arith)
  write_exact (v ∷ vs) (x ∷ xs) h = ap (◌∷◌ v) (write_exact vs xs (omega arith))

  pub length-slice : (o n : ℕ) (xs : List A) → o + n ≤ length xs → length (slice o n xs) ≡ n
  unfolding slice
  length-slice o n xs h = omega (arith, length-take n (drop o xs), length-drop o xs)

  take-take : (m n : ℕ) (xs : List A) → n ≤ m → take n (take m xs) ≡ take n xs
  take-take m zero xs h = refl
  take-take zero (suc n) xs h = absurd (omega arith)
  take-take (suc m) (suc n) [] h = refl
  take-take (suc m) (suc n) (x ∷ xs) h = ap (◌∷◌ x) (take-take m n xs (omega arith))

  pub slice-take : (m o n : ℕ) (xs : List A) → o + n ≤ m → slice o n (take m xs) ≡ slice o n xs
  unfolding slice
  slice-take m zero n xs h = take-take m n xs (omega arith)
  slice-take zero (suc o) n xs h = absurd (omega arith)
  slice-take (suc m) (suc o) n [] h = refl
  slice-take (suc m) (suc o) n (x ∷ xs) h = slice-take m o n xs (omega arith)

  take-append_left : (n : ℕ) (xs ys : List A) → n ≤ length xs → take n (xs ++ ys) ≡ take n xs
  take-append_left zero xs ys h = refl
  take-append_left (suc n) [] ys h = absurd (omega arith)
  take-append_left (suc n) (x ∷ xs) ys h = ap (◌∷◌ x) (take-append_left n xs ys (omega arith))

  pub slice-append_left :
      (o n : ℕ) (xs ys : List A) → o + n ≤ length xs → slice o n (xs ++ ys) ≡ slice o n xs
  unfolding slice
  slice-append_left zero n xs ys h = take-append_left n xs ys (omega arith)
  slice-append_left (suc o) n [] ys h = absurd (omega arith)
  slice-append_left (suc o) n (x ∷ xs) ys h = slice-append_left o n xs ys (omega arith)

  pub slice-append_right :
      (o n : ℕ) (xs ys : List A) → slice (length xs + o) n (xs ++ ys) ≡ slice o n ys
  unfolding slice
  slice-append_right o n [] ys = ap (λ k. take n (drop k ys)) (omega arith)
  slice-append_right o n (x ∷ xs) ys =
      ap (λ k. take n (drop k (x ∷ (xs ++ ys)))) (shift (length xs) o)
      ∙ slice-append_right o n xs ys
    where
      shift : (m k : ℕ) → suc m + k ≡ suc (m + k)
      shift m k = omega arith

  pub drop-drop : (m n : ℕ) (xs : List A) → drop m (drop n xs) ≡ drop (n + m) xs
  drop-drop m zero xs = ap (λ k. drop k xs) (omega arith)
  drop-drop zero (suc n) [] = ap (λ k. drop k []) (sym_shift n)
    where
      sym_shift : (k : ℕ) → suc k ≡ suc k + 0
      sym_shift k = omega arith
  drop-drop (suc m) (suc n) [] = ap (λ k. drop k []) (shift n m)
    where
      shift : (k l : ℕ) → suc (k + suc l) ≡ suc k + suc l
      shift k l = omega arith
  drop-drop m (suc n) (x ∷ xs) = drop-drop m n xs ∙ ap (λ k. drop k (x ∷ xs)) (shift n m)
    where
      shift : (k l : ℕ) → suc (k + l) ≡ suc k + l
      shift k l = omega arith

  pub replicate-append : (m n : ℕ) (a : A) → replicate (m + n) a ≡ replicate m a ++ replicate n a
  replicate-append zero n a = ap (λ k. replicate k a) (omega arith)
  replicate-append (suc m) n a =
      ap (λ k. replicate k a) (shift m n) ∙ ap (◌∷◌ a) (replicate-append m n a)
    where
      shift : (k l : ℕ) → suc k + l ≡ suc (k + l)
      shift k l = omega arith

  pub write-replicate :
      (vs : List A) (k : ℕ) (a : A)
      → length vs ≤ k
      → write 0 vs (replicate k a) ≡ vs ++ replicate (k - length vs) a
  unfolding write
  write-replicate [] zero a h = refl
  write-replicate [] (suc k) a h = ap (λ n. replicate n a) (minus_zero (suc k))
    where
      minus_zero : (m : ℕ) → m ≡ m - 0
      minus_zero m = omega arith
  write-replicate (v ∷ vs) zero a h = absurd (omega arith)
  write-replicate (v ∷ vs) (suc k) a h =
      ap (◌∷◌ v)
        (write-replicate vs k a (omega arith) ∙ ap (λ n. vs ++ replicate n a) (shift k (length vs)))
    where
      shift : (m n : ℕ) → m - n ≡ suc m - suc n
      shift m n = omega arith

  pub take-write_self :
      (j o : ℕ) (vs xs : List A)
      → j ≡ o + length vs
      → j ≤ length xs
      → take j (write o vs xs) ≡ take o xs ++ vs
  unfolding write
  take-write_self zero zero [] xs e h = refl
  take-write_self (suc j) zero [] xs e h = absurd (omega arith)
  take-write_self j zero (v ∷ vs) [] e h = absurd (omega arith)
  take-write_self zero zero (v ∷ vs) (x ∷ xs) e h = absurd (omega arith)
  take-write_self (suc j) zero (v ∷ vs) (x ∷ xs) e h =
      ap (λ ys. v ∷ ys) (take-write_self j zero vs xs (omega arith) (omega arith))
  take-write_self j (suc o) vs [] e h = absurd (omega arith)
  take-write_self zero (suc o) vs (x ∷ xs) e h = absurd (omega arith)
  take-write_self (suc j) (suc o) vs (x ∷ xs) e h =
      ap (λ ys. x ∷ ys) (take-write_self j o vs xs (omega arith) (omega arith))

  pub take_add : (j o n : ℕ) (xs : List A) → j ≡ o + n → take j xs ≡ take o xs ++ slice o n xs
  unfolding slice
  take_add j zero n xs e = let same : j ≡ n = omega arith in ap (λ l. take l xs) same
  take_add zero (suc o) n xs e = absurd (omega arith)
  take_add (suc j) (suc o) zero [] e = refl
  take_add (suc j) (suc o) (suc n) [] e = refl
  take_add (suc j) (suc o) n (x ∷ xs) e = ap (λ ys. x ∷ ys) (take_add j o n xs (omega arith))
