-- ===== src/Common/Slices.antt =====
-- Laws of `take`, `drop` and `++` at native numbers: slices of a storage.
use Prim.Native.Nat.{ℕ, zero, suc, ◌+◌, ◌-◌, ◌≤◌, ◌<◌}
use mathlib.Core.Path.{◌≡◌, refl, sym, ap, ◌∙◌}
use mathlib.Core.List.{List, [], ◌∷◌, ◌++◌}
use native.Mathlib.Omega.{arith}
use tpe_protos.Common.Lists.{length, take, drop, set, get_or}

pub take-nil {ℓ} : (A : Type ℓ) (n : ℕ) → take {A = A} n [] ≡ []
take-nil A zero = refl
take-nil A (suc n) = refl

pub drop-nil {ℓ} : (A : Type ℓ) (n : ℕ) → drop {A = A} n [] ≡ []
drop-nil A zero = refl
drop-nil A (suc n) = refl

module _ {ℓ} {A : Type ℓ} where
  pub drop-drop : (r n : ℕ) (xs : List A) → drop n (drop r xs) ≡ drop (r + n) xs
  drop-drop zero n xs = ap (λ k. drop k xs) (omega arith)
  drop-drop (suc r) n [] = drop-nil A n ∙ sym (drop-nil A (suc r + n))
  drop-drop (suc r) n (x ∷ xs) =
      drop-drop r n xs ∙ ap (λ k. drop k (x ∷ xs)) {x = suc (r + n)} (omega arith)

  pub drop-take : (n m : ℕ) (xs : List A) → drop n (take m xs) ≡ take (m - n) (drop n xs)
  drop-take zero m xs = ap (λ k. take k xs) (omega arith)
  drop-take (suc n) zero xs = ap (λ k. take k (drop (suc n) xs)) {x = 0} (omega arith)
  drop-take (suc n) (suc m) [] = sym (take-nil A (suc m - suc n))
  drop-take (suc n) (suc m) (x ∷ xs) =
      drop-take n m xs ∙ ap (λ k. take k (drop n xs)) {x = m - n} (omega arith)

  pub take_append-exact : (n : ℕ) (xs ys : List A) → length xs ≡ n → take n (xs ++ ys) ≡ xs
  take_append-exact zero [] ys h = refl
  take_append-exact zero (x ∷ xs) ys h = absurd (omega arith)
  take_append-exact (suc n) [] ys h = absurd (omega arith)
  take_append-exact (suc n) (x ∷ xs) ys h =
      ap (λ t. x ∷ t) (take_append-exact n xs ys (omega arith))

  pub drop-append : (n : ℕ) (xs ys : List A) → n ≤ length xs → drop n (xs ++ ys) ≡ drop n xs ++ ys
  drop-append zero xs ys h = refl
  drop-append (suc n) [] ys h = absurd (omega arith)
  drop-append (suc n) (x ∷ xs) ys h = drop-append n xs ys (omega arith)

  pub take-all : (n : ℕ) (xs : List A) → length xs ≤ n → take n xs ≡ xs
  take-all zero [] h = refl
  take-all zero (x ∷ xs) h = absurd (omega arith)
  take-all (suc n) [] h = refl
  take-all (suc n) (x ∷ xs) h = ap (λ t. x ∷ t) (take-all n xs (omega arith))

  -- The element at `r` heads the slice from `r`.
  pub take-drop-cons :
      (n r : ℕ) (d : A) (xs : List A)
      → r < length xs
      → take (suc n) (drop r xs) ≡ get_or xs r d ∷ take n (drop (suc r) xs)
  take-drop-cons n r d [] h = absurd (omega arith)
  take-drop-cons n zero d (x ∷ xs) h = refl
  take-drop-cons n (suc r) d (x ∷ xs) h = take-drop-cons n r d xs (omega arith)

  pub set-eq-append :
      (xs : List A) (w : ℕ) (c : A) → w < length xs → set xs w c ≡ take w xs ++ c ∷ drop (w + 1) xs
  set-eq-append [] w c h = absurd (omega arith)
  set-eq-append (x ∷ xs) zero c h = ap (λ k. c ∷ drop k (x ∷ xs)) {x = 1} {y = 0 + 1} (omega arith)
  set-eq-append (x ∷ xs) (suc w) c h =
      ap (λ t. x ∷ t)
        (set-eq-append xs w c (omega arith)
          ∙ ap (λ k. take w xs ++ c ∷ drop k (x ∷ xs)) {x = suc (w + 1)} (omega arith))

  -- A write just behind `xs`.
  pub set-append :
      (xs : List A) (x v : A) (ys : List A) → set (xs ++ x ∷ ys) (length xs) v ≡ xs ++ v ∷ ys
  set-append [] x v ys = refl
  set-append (y ∷ xs) x v ys = ap (λ t. y ∷ t) (set-append xs x v ys)
