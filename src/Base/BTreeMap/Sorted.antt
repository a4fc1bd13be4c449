-- ===== src/Base/BTreeMap/Sorted.antt =====
-- Maps in strictly increasing order of their keys, and building one from its entries in any order.
use mathlib.Core.Path.{◌≡◌, refl, sym, ap, ◌∙◌, subst}
use mathlib.Core.Logic.{◌≢◌, ◌⊎◌, inl, inr}
use mathlib.Core.List.{[], ◌∷◌}
use Prim.Native.Nat.{Ordering}
use native.Mathlib.Omega.{arith}
use react_native_surrealdb.Base.Lists.{All, All-map}
use react_native_surrealdb.Base.Bytes.{
  Bytes, bytes_eq, compare_bytes, compare_bytes_eq, compare_bytes_refl, compare_bytes_flip,
  compare_bytes_trans,
}
use react_native_surrealdb.Base.BTreeMap.{BTreeMap, insert}

Ordering-cases : (o : Ordering) → (o ≡ Ordering.lt) ⊎ (o ≡ Ordering.eq) ⊎ (o ≡ Ordering.gt)
Ordering-cases Ordering.lt = inl refl
Ordering-cases Ordering.eq = inr (inl refl)
Ordering-cases Ordering.gt = inr (inr refl)

apart_of_lt : (a b : Bytes) → compare_bytes a b ≡ Ordering.lt → a ≢ b
apart_of_lt a b h e = cc (h, compare_bytes_refl b, ap (λ x. compare_bytes x b) e)

module _ {ℓ} {A : Type ℓ} where
  abbrev pub Absent : Bytes → BTreeMap A → Type 0
  Absent k = All λ e. k ≢ e.0

  abbrev pub DistinctKeys : BTreeMap A → Type 0
  DistinctKeys [] = Unit
  DistinctKeys (e ∷ m) = Absent e.0 m × DistinctKeys m

  abbrev pub IsSorted : BTreeMap A → Type 0
  IsSorted [] = Unit
  IsSorted (e ∷ m) = All (λ x. compare_bytes e.0 x.0 ≡ Ordering.lt) m × IsSorted m

  pub IsSorted-DistinctKeys : (m : BTreeMap A) → IsSorted m → DistinctKeys m
  IsSorted-DistinctKeys [] s = tt
  IsSorted-DistinctKeys (e ∷ m) s =
      (All-map _ _ m (λ x h. apart_of_lt e.0 x.0 h) s.0, IsSorted-DistinctKeys m s.1)

  pub insert_comm :
      (k j : Bytes) (a b : A) (m : BTreeMap A)
      → k ≢ j
      → insert k a (insert j b m) ≡ insert j b (insert k a m)
  unfolding insert
  insert_comm k j a b [] n = ground (arith, compare_bytes_flip k j, compare_bytes_eq k j)
  insert_comm k j a b ((i, c) ∷ m) n = ground (
    arith,
    compare_bytes_flip k j,
    compare_bytes_eq k j,
    compare_bytes_eq k i,
    compare_bytes_eq j i,
    compare_bytes_flip k i,
    compare_bytes_flip j i,
    compare_bytes_flip i k,
    compare_bytes_flip i j,
    compare_bytes_trans k i j,
    compare_bytes_trans j i k,
    insert_comm k j a b m,
  )

  -- `for (k, v) in entries { map.insert(k, v); }`.
  abbrev pub insert_all : BTreeMap A → BTreeMap A → BTreeMap A
  insert_all [] m = m
  insert_all (e ∷ es) m = insert_all es (insert e.0 e.1 m)

  pub insert_all-insert :
      (es : BTreeMap A) (k : Bytes) (a : A) (m : BTreeMap A)
      → Absent k es
      → insert_all es (insert k a m) ≡ insert k a (insert_all es m)
  insert_all-insert [] k a m h = refl
  insert_all-insert (e ∷ es) k a m h =
      rw (insert_comm e.0 k e.1 a m (λ q. h.0 (sym q)))
        (insert_all-insert es k a (insert e.0 e.1 m) h.1)

  insert_below :
      (k : Bytes) (a : A) (m : BTreeMap A)
      → All (λ x. compare_bytes k x.0 ≡ Ordering.lt) m
      → insert k a m ≡ (k, a) ∷ m
  unfolding insert
  insert_below k a [] h = refl
  insert_below k a ((j, b) ∷ m) h = ground (arith, h.0)

  -- A sorted map is what its entries build.
  pub insert_all-IsSorted : (m : BTreeMap A) → IsSorted m → insert_all m [] ≡ m
  insert_all-IsSorted [] s = refl
  insert_all-IsSorted (e ∷ m) s =
      insert_all-insert m e.0 e.1 [] (IsSorted-DistinctKeys (e ∷ m) s).0
      ∙ ap (insert e.0 e.1) (insert_all-IsSorted m s.1)
      ∙ insert_below e.0 e.1 m s.0

  pub All-insert {κ} :
      (P : Bytes × A → Type κ) (k : Bytes) (a : A) (m : BTreeMap A)
      → P (k, a)
      → All P m
      → All P (insert k a m)
  unfolding insert
  All-insert P k a [] p h = (p, tt)
  All-insert P k a ((j, b) ∷ m) p h =
      elim (compare_bytes k j)
        as (λ o. All P (elim o as (λ _. BTreeMap A) [
          | Ordering.lt ↦ (k, a) ∷ (j, b) ∷ m
          | Ordering.eq ↦ (k, a) ∷ m
          | Ordering.gt ↦ (j, b) ∷ insert k a m
        ])) [
          | Ordering.lt ↦ (p, h)
          | Ordering.eq ↦ (p, h.1)
          | Ordering.gt ↦ (h.0, All-insert P k a m p h.1)
        ]

  pub IsSorted-insert : (k : Bytes) (a : A) (m : BTreeMap A) → IsSorted m → IsSorted (insert k a m)
  unfolding insert
  IsSorted-insert k a [] s = (tt, tt)
  IsSorted-insert k a ((j, b) ∷ m) s = elim (Ordering-cases (compare_bytes k j)) [
    | inl e ↦ rw (IsSorted, e) ((e, All-map _ _ m (λ x h. compare_bytes_trans k j x.0 e h) s.0), s)
    | inr (inl e) ↦
        rw (IsSorted, e)
          (
            subst (λ t. All (λ x. compare_bytes t x.0 ≡ Ordering.lt) m)
                (sym (compare_bytes_eq k j e)) s.0,
            s.1,
          )
    | inr (inr e) ↦
        rw (IsSorted, e)
          (
            All-insert (λ x. compare_bytes j x.0 ≡ Ordering.lt) k a m
                (cc (compare_bytes_flip k j, e)) s.0,
            IsSorted-insert k a m s.1,
          )
  ]
