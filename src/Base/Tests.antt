-- ===== src/Base/Tests.antt =====
-- Boolean tests, the conditional, and derived equality (Rust's PartialEq) as an instance.
use Prim.Native.Nat.{ℕ, ◌+◌, ◌-◌, compare, Ordering}
use mathlib.Core.Path.{◌≡◌, refl}
use mathlib.Core.Logic.{◌⊎◌, inl, inr}
use mathlib.Core.Bool.{Bool, true, false}
use mathlib.Core.Option.{Option, none, some}
use native.Mathlib.Omega.{arith}
use native.Mathlib.Decide.{ℕ_discrete}

abbrev pub ltb : ℕ → ℕ → Bool
ltb a b = elim (compare a b) [ Ordering.lt ↦ true | _ ↦ false ]

abbrev pub leb : ℕ → ℕ → Bool
leb a b = elim (compare a b) [ Ordering.gt ↦ false | _ ↦ true ]

infix 1 if◌then◌else◌
abbrev pub if◌then◌else◌ {ℓ} : {A : Type ℓ} → Bool → A → A → A
if true then x else y = x
if false then x else y = y

-- A type whose values are compared by `==`.
pub record DecEq {ℓ} (A : Type ℓ) : Type ℓ where
  pub discrete : Discrete A

infix 50 ◌==◌ ◌!=◌
abbrev pub ◌==◌ {ℓ} : {A : Type ℓ} ⦃d : DecEq A⦄ → A → A → Bool
◌==◌ ⦃d⦄ a b = elim (d.discrete a b) [ yes p ↦ true | no n ↦ false ]

abbrev pub ◌!=◌ {ℓ} : {A : Type ℓ} ⦃d : DecEq A⦄ → A → A → Bool
◌!=◌ ⦃d⦄ a b = elim (d.discrete a b) [ yes p ↦ false | no n ↦ true ]

instance abbrev pub nat_eq : DecEq ℕ
nat_eq = record { discrete = ℕ_discrete }

module _ {ℓ} {A : Type ℓ} where
  pub ==-refl : ⦃d : DecEq A⦄ (a : A) → (a == a) ≡ true
  ==-refl a = ground arith

  pub eq_of_== : ⦃d : DecEq A⦄ (a b : A) → (a == b) ≡ true → a ≡ b
  eq_of_== a b h = ground arith

  pub Option-cases : (o : Option A) → (o ≡ none) ⊎ ((a : A) × (o ≡ some a))
  Option-cases none = inl refl
  Option-cases (some a) = inr (a, refl)

pub Bool-cases : (b : Bool) → (b ≡ true) ⊎ (b ≡ false)
Bool-cases true = inl refl
Bool-cases false = inr refl

-- u64: the largest value, and the checked and saturating sums of the standard library.
abbrev pub u64_mod : ℕ
u64_mod = 18446744073709551616

abbrev pub checked_add : ℕ → ℕ → Option ℕ
checked_add a b = if ltb (a + b) u64_mod then some (a + b) else none

abbrev pub saturating_add : ℕ → ℕ → ℕ
saturating_add a b = if ltb (a + b) u64_mod then a + b else 18446744073709551615

abbrev pub checked_sub : ℕ → ℕ → Option ℕ
checked_sub a b = if leb b a then some (a - b) else none
