-- ===== src/Base/Lists.antt =====
-- Lists measured by native numbers, and the loops of <algorithm> that the program calls.
use Prim.Native.Nat.{ℕ, suc, ◌+◌, ◌≤◌}
use mathlib.Core.Path.{◌≡◌, refl}
use mathlib.Core.Bool.{Bool, true, false, ◌&&◌, ◌||◌, not}
use mathlib.Core.List.{List, [], ◌∷◌, ◌++◌}
use mathlib.Core.Option.{Option, none, some}
use native.Mathlib.Omega.{arith}
use package.fp_jaringan_nirkabel.Base.Tests.{if◌then◌else◌}

abbrev pub All {ℓ κ} : {A : Type ℓ} → (A → Type κ) → List A → Type κ
All P [] = Unit
All P (x ∷ xs) = P x × All P xs

module _ {ℓ} {A : Type ℓ} where
  abbrev pub length : List A → ℕ
  length [] = 0
  length (x ∷ xs) = suc (length xs)

  pub length-append : (xs ys : List A) → length (xs ++ ys) ≡ length xs + length ys
  length-append [] ys = omega arith
  length-append (x ∷ xs) ys = omega (arith, length-append xs ys)

  -- `v.erase(std::remove_if(v.begin(), v.end(), p), v.end())`
  abbrev pub remove_if : (A → Bool) → List A → List A
  remove_if p [] = []
  remove_if p (x ∷ xs) = let rest = remove_if p xs in if p x then rest else x ∷ rest

  -- A loop that returns true at the first element that passes a test.
  abbrev pub any : (A → Bool) → List A → Bool
  any p [] = false
  any p (x ∷ xs) = p x || any p xs

  -- The first element that passes a test.
  abbrev pub find_if : (A → Bool) → List A → Option A
  find_if p [] = none
  find_if p (x ∷ xs) = if p x then some x else find_if p xs

module _ {ℓ} {A : Type ℓ} (p : A → Bool) where
  pub length-remove_if-le : (xs : List A) → length (remove_if p xs) ≤ length xs
  length-remove_if-le [] = omega arith
  length-remove_if-le (x ∷ xs) = ground (arith, length-remove_if-le xs)

  pub remove_if-append :
      (xs ys : List A) → remove_if p (xs ++ ys) ≡ remove_if p xs ++ remove_if p ys
  remove_if-append [] ys = refl
  remove_if-append (x ∷ xs) ys = ground (arith, remove_if-append xs ys)

  -- Nothing that passes the test is left.
  pub All-remove_if : (xs : List A) → All (λ x. p x ≡ false) (remove_if p xs)
  All-remove_if [] = tt
  All-remove_if (x ∷ xs) = ground (arith, All-remove_if xs)

  pub remove_if_id : (xs : List A) → All (λ x. p x ≡ false) xs → remove_if p xs ≡ xs
  remove_if_id [] h = refl
  remove_if_id (x ∷ xs) h = ground (arith, remove_if_id xs h.1)

  pub remove_if_keeps {κ} : (P : A → Type κ) (xs : List A) → All P xs → All P (remove_if p xs)
  remove_if_keeps P [] h = tt
  remove_if_keeps P (x ∷ xs) h = ground (arith, remove_if_keeps P xs h.1)

  pub any-remove_if :
      (q : A → Bool) (xs : List A) → any q (remove_if p xs) ≡ any (λ x. not (p x) && q x) xs
  any-remove_if q [] = refl
  any-remove_if q (x ∷ xs) = ground (arith, any-remove_if q xs)

  pub any-append : (xs ys : List A) → any p (xs ++ ys) ≡ any p xs || any p ys
  any-append [] ys = refl
  any-append (x ∷ xs) ys = ground (arith, any-append xs ys)

  pub any-eq-false : (xs : List A) → any p xs ≡ false → All (λ x. p x ≡ false) xs
  any-eq-false [] h = tt
  any-eq-false (x ∷ xs) h = ground (arith, any-eq-false xs)

-- A second removal by a weaker test swallows the first.
pub remove_if-remove_if {ℓ} :
    {A : Type ℓ} (p q : A → Bool)
    → ((x : A) → p x ≡ true → q x ≡ true)
    → (xs : List A) → remove_if q (remove_if p xs) ≡ remove_if q xs
remove_if-remove_if p q weaker [] = refl
remove_if-remove_if p q weaker (x ∷ xs) =
    ground (arith, weaker x, remove_if-remove_if p q weaker xs)

pub All-append {ℓ κ} :
    {A : Type ℓ} (P : A → Type κ) (xs ys : List A) → All P xs → All P ys → All P (xs ++ ys)
All-append P [] ys h k = k
All-append P (x ∷ xs) ys h k = (h.0, All-append P xs ys h.1 k)
