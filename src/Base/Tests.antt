-- ===== src/Base/Tests.antt =====
-- Boolean tests on the native numbers, and the conditional.
use Prim.Native.Nat.{ℕ, ◌<◌, compare, Ordering}
use mathlib.Core.Path.{◌≡◌, refl}
use mathlib.Core.Logic.{◌↔◌, ◌⊎◌, inl, inr}
use mathlib.Core.Bool.{Bool, true, false}
use mathlib.Core.Option.{Option, none, some}
use mathlib.Core.List.{List, [], ◌∷◌}
use native.Mathlib.Omega.{arith}

abbrev pub ltb : ℕ → ℕ → Bool
ltb a b = elim (compare a b) [ Ordering.lt ↦ true | _ ↦ false ]

abbrev pub leb : ℕ → ℕ → Bool
leb a b = elim (compare a b) [ Ordering.gt ↦ false | _ ↦ true ]

infix 50 ◌==◌
abbrev pub ◌==◌ : ℕ → ℕ → Bool
a == b = elim (compare a b) [ Ordering.eq ↦ true | _ ↦ false ]

infix 1 if◌then◌else◌
abbrev pub if◌then◌else◌ {ℓ} : {A : Type ℓ} → Bool → A → A → A
if true then x else y = x
if false then x else y = y

pub ltb→lt : (a b : ℕ) → ltb a b ≡ true → a < b
ltb→lt a b h = ground arith

pub ==_iff : (a b : ℕ) → ((a == b) ≡ true) ↔ (a ≡ b)
==_iff a b = ground arith

pub ==_refl : (a : ℕ) → (a == a) ≡ true
==_refl a = ground arith

-- To split on a computed value and keep the equation.
pub Bool-cases : (b : Bool) → (b ≡ true) ⊎ (b ≡ false)
Bool-cases true = inl refl
Bool-cases false = inr refl

pub Option-cases {ℓ} : {A : Type ℓ} (o : Option A) → (o ≡ none) ⊎ ((a : A) × (o ≡ some a))
Option-cases none = inl refl
Option-cases (some a) = inr (a, refl)

pub List-cases {ℓ} :
    {A : Type ℓ} (xs : List A) → (xs ≡ []) ⊎ ((y : A) × (ys : List A) × (xs ≡ y ∷ ys))
List-cases [] = inl refl
List-cases (y ∷ ys) = inr (y, ys, refl)

-- A computation that may fail does not, and its result is as told.
abbrev pub Returns : {A : Type 0} → Option A → (A → Type 0) → Type 0
Returns none P = ⊥
Returns (some a) P = P a

-- What holds of a result, if there is one.
abbrev pub OnSome : {A : Type 0} → Option A → (A → Type 0) → Type 0
OnSome none P = Unit
OnSome (some a) P = P a

-- Chains of reads that may run out of bytes.
infixl 5 ◌>>=◌
abbrev pub ◌>>=◌ : {A B : Type 0} → Option A → (A → Option B) → Option B
none >>= f = none
some a >>= f = f a

pub OnSome-bind :
    {A B : Type 0} (P : B → Type 0) (r : Option A) (f : A → Option B)
    → ((a : A) → OnSome (f a) P)
    → OnSome (r >>= f) P
OnSome-bind P none f h = tt
OnSome-bind P (some a) f h = h a

pub OnSome-if :
    {A : Type 0} (P : A → Type 0) (b : Bool) (x y : Option A)
    → OnSome x P
    → OnSome y P
    → OnSome (if b then x else y) P
OnSome-if P true x y h k = h
OnSome-if P false x y h k = k

pub either_branch :
    {A : Type 0} (P : A → Type 0) (b : Bool) (x y : A) → P x → P y → P (if b then x else y)
either_branch P true x y h k = h
either_branch P false x y h k = k

pub Returns-bind :
    {A B : Type 0} (Q : A → Type 0) (P : B → Type 0) (r : Option A) (f : A → Option B)
    → Returns r Q
    → ((a : A) → Q a → Returns (f a) P)
    → Returns (r >>= f) P
Returns-bind Q P none f h k = h
Returns-bind Q P (some a) f h k = k a h

-- A call that returns, with what holds of its result if there is one.
pub returns_with :
    {A : Type 0} (Q P : A → Type 0) (r : Option A) → Returns r Q → OnSome r P → Returns r P
returns_with Q P none h k = h
returns_with Q P (some a) h k = k

pub chained :
    {A B : Type 0} (Q : A → Type 0) (P : B → Type 0) (r : Option A) (f : A → Option B)
    → OnSome r Q
    → ((a : A) → Q a → OnSome (f a) P)
    → OnSome (r >>= f) P
chained Q P none f h k = tt
chained Q P (some a) f h k = k a h

pub mapped :
    {A : Type 0} (Q P : A → Type 0) (r : Option A) → OnSome r Q → ((a : A) → Q a → P a) → OnSome r P
mapped Q P none h k = tt
mapped Q P (some a) h k = k a h

pub combined :
    {A : Type 0} (P Q R : A → Type 0) (r : Option A)
    → OnSome r P
    → OnSome r Q
    → ((a : A) → P a → Q a → R a)
    → OnSome r R
combined P Q R none h k f = tt
combined P Q R (some a) h k f = f a h k
