-- ===== src/Base/Lists.antt =====
-- Lists measured by native numbers, under the library's names.
use Prim.Native.Nat.{ℕ, zero, suc, ◌+◌, ◌≤◌}
use mathlib.Core.Bool.{Bool, false, ◌||◌}
use mathlib.Core.List.{List, [], ◌∷◌, ◌++◌}
use native.Mathlib.Omega.{arith}
use mathlib.Core.Path.{◌≡◌, refl, sym, ap, subst, ◌∙◌}
use cillion.Base.Equality.{Eq, ◌==◌}

module _ {ℓ} {A : Type ℓ} where
  abbrev pub length : List A → ℕ
  length [] = 0
  length (x ∷ xs) = suc (length xs)

  pub length-append : (xs ys : List A) → length (xs ++ ys) ≡ length xs + length ys
  length-append [] ys = omega arith
  length-append (x ∷ xs) ys = omega (arith, length-append xs ys)

  abbrev pub take : ℕ → List A → List A
  take zero xs = []
  take (suc n) [] = []
  take (suc n) (x ∷ xs) = x ∷ take n xs

  abbrev pub drop : ℕ → List A → List A
  drop zero xs = xs
  drop (suc n) [] = []
  drop (suc n) (x ∷ xs) = drop n xs

  pub length-take : (n : ℕ) (xs : List A) → n ≤ length xs → length (take n xs) ≡ n
  length-take zero xs h = refl
  length-take (suc n) [] h = absurd (omega arith)
  length-take (suc n) (x ∷ xs) h = ap (λ (k : ℕ). suc k) (length-take n xs (omega arith))

  pub take-append_length : (xs ys : List A) → take (length xs) (xs ++ ys) ≡ xs
  take-append_length [] ys = refl
  take-append_length (x ∷ xs) ys = ap (λ (zs : List A). x ∷ zs) (take-append_length xs ys)

  pub drop-append_length : (xs ys : List A) → drop (length xs) (xs ++ ys) ≡ ys
  drop-append_length [] ys = refl
  drop-append_length (x ∷ xs) ys = drop-append_length xs ys

  drop-nil : (n : ℕ) → drop n [] ≡ []
  drop-nil zero = refl
  drop-nil (suc n) = refl

  pub drop-drop : (m n : ℕ) (xs : List A) → drop m (drop n xs) ≡ drop (n + m) xs
  drop-drop m zero xs = ap (λ (k : ℕ). drop k xs) (omega arith)
  drop-drop m (suc n) [] = drop-nil m ∙ sym (drop-nil (suc n + m))
  drop-drop m (suc n) (x ∷ xs) =
      let e : suc (n + m) ≡ suc n + m = omega arith in
      drop-drop m n xs ∙ ap (λ (k : ℕ). drop k (x ∷ xs)) e

  pub take-drop : (n : ℕ) (xs : List A) → take n xs ++ drop n xs ≡ xs
  take-drop zero xs = refl
  take-drop (suc n) [] = refl
  take-drop (suc n) (x ∷ xs) = ap (λ (zs : List A). x ∷ zs) (take-drop n xs)

  pub drop-prefix : (xs ys : List A) (i : ℕ) → length xs ≡ i → drop i (xs ++ ys) ≡ ys
  drop-prefix xs ys i e = subst (λ (k : ℕ). drop k (xs ++ ys) ≡ ys) e (drop-append_length xs ys)

  -- The part in the middle.
  pub take-drop_middle :
      (xs ys zs : List A) (i j : ℕ)
      → length xs ≡ i
      → length ys ≡ j
      → take j (drop i (xs ++ (ys ++ zs))) ≡ ys
  take-drop_middle xs ys zs i j e f =
      ap (take j) (drop-prefix xs (ys ++ zs) i e)
      ∙ subst (λ (k : ℕ). take k (ys ++ zs) ≡ ys) f (take-append_length ys zs)

  -- What lies in the first elements does not depend on what follows them.
  pub take-drop_front :
      (i k n : ℕ) (xs ys : List A)
      → i + k ≤ n
      → n ≤ length xs
      → take k (drop i (take n xs ++ ys)) ≡ take k (drop i xs)
  take-drop_front i k zero xs ys h le = front_of_none i k (omega arith) (omega arith) xs ys
    where
      front_of_none :
          (i k : ℕ) → i ≡ 0 → k ≡ 0 → (xs ys : List A) → take k (drop i ys) ≡ take k (drop i xs)
      front_of_none i k e f xs ys = rw (e, f) refl
  take-drop_front i k (suc n) [] ys h le = absurd (omega arith)
  take-drop_front zero zero (suc n) (x ∷ xs) ys h le = refl
  take-drop_front zero (suc k) (suc n) (x ∷ xs) ys h le =
      ap (λ (zs : List A). x ∷ zs) (take-drop_front zero k n xs ys (omega arith) (omega arith))
  take-drop_front (suc i) k (suc n) (x ∷ xs) ys h le =
      take-drop_front i k n xs ys (omega arith) (omega arith)

  abbrev pub All {κ} : (A → Type κ) → List A → Type κ
  All P [] = Unit
  All P (x ∷ xs) = P x × All P xs

module _ {ℓ} {A : Type ℓ} ⦃e : Eq A⦄ where
  abbrev pub contains : List A → A → Bool
  contains [] a = false
  contains (x ∷ xs) a = a == x || contains xs a
