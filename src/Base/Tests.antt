-- ===== src/Base/Tests.antt =====
-- Boolean tests: order on the native numbers, and `==` for every type whose equality is decided.
use Prim.Native.Nat.{ℕ, compare, Ordering}
use mathlib.Core.Path.{◌≡◌, refl}
use mathlib.Core.Logic.{◌⊎◌, inl, inr, ite}
use mathlib.Core.Bool.{Bool, true, false}
use mathlib.Core.List.{List}
use mathlib.Core.Option.{Option, none, some}
use native.Mathlib.Omega.{arith}
use native.Mathlib.Decide.{ℕ_discrete}

abbrev pub ltb : ℕ → ℕ → Bool
ltb a b = elim (compare a b) [ Ordering.lt ↦ true | _ ↦ false ]

abbrev pub leb : ℕ → ℕ → Bool
leb a b = elim (compare a b) [ Ordering.gt ↦ false | _ ↦ true ]

infix 1 if◌then◌else◌
abbrev pub if◌then◌else◌ {ℓ} : {A : Type ℓ} → Bool → A → A → A
if true then x else y = x
if false then x else y = y

pub record Eq {ℓ} (A : Type ℓ) : Type ℓ where
  pub dec : Discrete A

-- A split on `a == b` yields the equation or its negation.
infix 50 ◌==◌
abbrev pub ◌==◌ {ℓ} : {A : Type ℓ} ⦃e : Eq A⦄ → A → A → Bool
◌==◌ ⦃e⦄ a b = ite (e.dec a b) true false

instance unfoldable pub nat_eq : Eq ℕ
unfolding ℕ_discrete
nat_eq = record { dec = ℕ_discrete }

texts_dec : Discrete (List ℕ)
texts_dec = hlevel ℕ_discrete

instance unfoldable pub list_eq : Eq (List ℕ)
unfolding texts_dec ℕ_discrete
list_eq = record { dec = texts_dec }

lists_dec : Discrete (List (List ℕ))
lists_dec = hlevel ℕ_discrete

instance unfoldable pub lists_eq : Eq (List (List ℕ))
unfolding lists_dec ℕ_discrete
lists_eq = record { dec = lists_dec }

module _ {ℓ} {A : Type ℓ} ⦃e : Eq A⦄ where
  pub ==-eq : (a b : A) → (a == b) ≡ true → a ≡ b
  ==-eq a b h = ground arith

  pub ==-self : (a : A) → (a == a) ≡ true
  ==-self a = ground arith

  pub ==-ne : (a b : A) → ¬ (a ≡ b) → (a == b) ≡ false
  ==-ne a b h = ground arith

-- To split on a computed value and keep the equation.
pub Bool-cases : (b : Bool) → (b ≡ true) ⊎ (b ≡ false)
Bool-cases true = inl refl
Bool-cases false = inr refl

pub Option-cases {ℓ} : {A : Type ℓ} (o : Option A) → (o ≡ none) ⊎ ((a : A) × (o ≡ some a))
Option-cases none = inl refl
Option-cases (some a) = inr (a, refl)
