-- ===== src/Base/BTreeMap.antt =====
-- `BTreeMap` with string keys: entries in increasing order of their keys, as `insert` places them.
-- Lookups need no ordering.
pub mod Sorted
use mathlib.Core.Path.{◌≡◌, refl}
use mathlib.Core.Bool.{Bool, true, false}
use mathlib.Core.Option.{Option, none, some}
use mathlib.Core.List.{List, [], ◌∷◌, map}
use Prim.Native.Nat.{Ordering}
use native.Mathlib.Omega.{arith}
use react_native_surrealdb.Base.Tests.{◌==◌, if◌then◌else◌}
use react_native_surrealdb.Base.Lists.{keep}
use react_native_surrealdb.Base.Bytes.{
  Bytes, bytes_eq, compare_bytes, compare_bytes_eq, compare_bytes_refl,
}

abbrev pub BTreeMap {ℓ} : Type ℓ → Type ℓ
BTreeMap A = List (Bytes × A)

module _ {ℓ} {A : Type ℓ} where
  unfoldable pub get : Bytes → BTreeMap A → Option A
  get k [] = none
  get k ((j, a) ∷ m) = if k == j then some a else get k m

  abbrev pub contains_key : Bytes → BTreeMap A → Bool
  contains_key k m = elim (get k m) [ none ↦ false | some a ↦ true ]

  unfoldable pub insert : Bytes → A → BTreeMap A → BTreeMap A
  insert k a [] = (k, a) ∷ []
  insert k a ((j, b) ∷ m) = elim (compare_bytes k j) [
    | Ordering.lt ↦ (k, a) ∷ (j, b) ∷ m
    | Ordering.eq ↦ (k, a) ∷ m
    | Ordering.gt ↦ (j, b) ∷ insert k a m
  ]

  unfoldable pub remove : Bytes → BTreeMap A → BTreeMap A
  remove k [] = []
  remove k ((j, a) ∷ m) = if k == j then remove k m else (j, a) ∷ remove k m

  abbrev pub keys : BTreeMap A → List Bytes
  keys = map λ e. e.0

  abbrev pub values : BTreeMap A → List A
  values = map λ e. e.1

  abbrev pub map_values {κ} : {B : Type κ} → (A → B) → BTreeMap A → BTreeMap B
  map_values f = map λ e. (e.0, f e.1)

  abbrev pub retain : (Bytes → Bool) → BTreeMap A → BTreeMap A
  retain p = keep λ e. p e.0

  -- A lookup after an insertion.
  pub get-insert :
      (j k : Bytes) (a : A) (m : BTreeMap A)
      → get j (insert k a m) ≡ (if j == k then some a else get j m)
  unfolding get insert
  get-insert j k a [] = refl
  get-insert j k a ((i, b) ∷ m) =
      ground (arith, compare_bytes_eq k i, compare_bytes_refl k, get-insert j k a m)

  -- A lookup after a removal.
  pub get-remove :
      (j k : Bytes) (m : BTreeMap A) → get j (remove k m) ≡ (if j == k then none else get j m)
  unfolding get remove
  get-remove j k [] = ground arith
  get-remove j k ((i, b) ∷ m) = ground (arith, get-remove j k m)

pub get-map_values {ℓ κ} :
    {A : Type ℓ} {B : Type κ} (f : A → B) (k : Bytes) (m : BTreeMap A)
    → get k (map_values f m) ≡ elim (get k m) [ none ↦ none | some a ↦ some (f a) ]
unfolding get
get-map_values f k [] = refl
get-map_values f k ((i, b) ∷ m) = ground (arith, get-map_values f k m)
