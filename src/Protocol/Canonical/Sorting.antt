-- ===== src/Protocol/Canonical/Sorting.antt =====
-- canonical.rs: the order of the entries in an encoded object. Sorting keeps the entries, so the
-- map that they build does not change.
use react_native_surrealdb.Base.{◌≡◌, refl, sym, ap, ◌∙◌, ◌≢◌, [], ◌∷◌, All, Ordering}
use react_native_surrealdb.Base.Bytes.{Bytes, bytes_eq}
use react_native_surrealdb.Base.BTreeMap.{BTreeMap, insert, map_values}
use react_native_surrealdb.Base.BTreeMap.Sorted.{
  Absent, DistinctKeys, IsSorted, insert_comm, insert_all, insert_all-IsSorted,
  IsSorted-DistinctKeys,
}
use react_native_surrealdb.Protocol.Canonical.Cbor.{compare_keys, insert_entry, sort_entries}

insert_entry-map_values {ℓ κ} :
    {A : Type ℓ} {B : Type κ} (f : A → B) (k : Bytes) (a : A) (m : BTreeMap A)
    → insert_entry (k, f a) (map_values f m) ≡ map_values f (insert_entry (k, a) m)
insert_entry-map_values f k a [] = refl
insert_entry-map_values {A = A} {B = B} f k a ((j, b) ∷ m) =
    elim (compare_keys k j)
      as (λ o.
        (elim o as (λ _. BTreeMap B) [
          | Ordering.gt ↦ (j, f b) ∷ insert_entry (k, f a) (map_values f m)
          | _ ↦ (k, f a) ∷ (j, f b) ∷ map_values f m
        ])
        ≡ map_values f (elim o as (λ _. BTreeMap A) [
          | Ordering.gt ↦ (j, b) ∷ insert_entry (k, a) m
          | _ ↦ (k, a) ∷ (j, b) ∷ m
        ])) [
          | Ordering.lt ↦ refl
          | Ordering.eq ↦ refl
          | Ordering.gt ↦ ap (λ t. (j, f b) ∷ t) (insert_entry-map_values f k a m)
        ]

pub sort_entries-map_values {ℓ κ} :
    {A : Type ℓ} {B : Type κ} (f : A → B) (m : BTreeMap A)
    → sort_entries (map_values f m) ≡ map_values f (sort_entries m)
sort_entries-map_values f [] = refl
sort_entries-map_values f ((k, a) ∷ m) =
    ap (insert_entry (k, f a)) (sort_entries-map_values f m)
    ∙ insert_entry-map_values f k a (sort_entries m)

module _ {ℓ} {A : Type ℓ} where
  All-insert_entry {κ} :
      (P : Bytes × A → Type κ) (e : Bytes × A) (m : BTreeMap A)
      → P e
      → All P m
      → All P (insert_entry e m)
  All-insert_entry P e [] p h = (p, tt)
  All-insert_entry P e (j ∷ m) p h =
      elim (compare_keys e.0 j.0)
        as (λ o.
          All P
            (elim o as (λ _. BTreeMap A) [ Ordering.gt ↦ j ∷ insert_entry e m | _ ↦ e ∷ j ∷ m ])) [
              | Ordering.lt ↦ (p, h)
              | Ordering.eq ↦ (p, h)
              | Ordering.gt ↦ (h.0, All-insert_entry P e m p h.1)
            ]

  pub All-sort_entries {κ} :
      (P : Bytes × A → Type κ) (m : BTreeMap A) → All P m → All P (sort_entries m)
  All-sort_entries P [] h = tt
  All-sort_entries P (e ∷ m) h =
      All-insert_entry P e (sort_entries m) h.0 (All-sort_entries P m h.1)

  DistinctKeys-insert_entry :
      (e : Bytes × A) (m : BTreeMap A)
      → Absent e.0 m
      → DistinctKeys m
      → DistinctKeys (insert_entry e m)
  DistinctKeys-insert_entry e [] p h = (tt, tt)
  DistinctKeys-insert_entry e (j ∷ m) p h =
      elim (compare_keys e.0 j.0)
        as (λ o.
          DistinctKeys
            (elim o as (λ _. BTreeMap A) [ Ordering.gt ↦ j ∷ insert_entry e m | _ ↦ e ∷ j ∷ m ])) [
              | Ordering.lt ↦ (p, h)
              | Ordering.eq ↦ (p, h)
              | Ordering.gt ↦ (
                All-insert_entry (λ x. j.0 ≢ x.0) e m (λ q. p.0 (sym q)) h.0,
                DistinctKeys-insert_entry e m p.1 h.1,
              )
            ]

  pub DistinctKeys-sort_entries : (m : BTreeMap A) → DistinctKeys m → DistinctKeys (sort_entries m)
  DistinctKeys-sort_entries [] h = tt
  DistinctKeys-sort_entries (e ∷ m) h =
      DistinctKeys-insert_entry e (sort_entries m) (All-sort_entries (λ x. e.0 ≢ x.0) m h.0)
        (DistinctKeys-sort_entries m h.1)

  insert_all-insert_entry :
      (es : BTreeMap A) (e : Bytes × A) (m : BTreeMap A)
      → Absent e.0 es
      → insert_all (insert_entry e es) m ≡ insert_all es (insert e.0 e.1 m)
  insert_all-insert_entry [] e m h = refl
  insert_all-insert_entry (j ∷ es) e m h =
      elim (compare_keys e.0 j.0)
        as (λ o.
          insert_all
            (elim o as (λ _. BTreeMap A) [ Ordering.gt ↦ j ∷ insert_entry e es | _ ↦ e ∷ j ∷ es ]) m
          ≡ insert_all (j ∷ es) (insert e.0 e.1 m)) [
            | Ordering.lt ↦ refl
            | Ordering.eq ↦ refl
            | Ordering.gt ↦
                insert_all-insert_entry es e (insert j.0 j.1 m) h.1
                ∙ ap (insert_all es) (insert_comm e.0 j.0 e.1 j.1 m h.0)
          ]

  insert_all-sort_entries :
      (es : BTreeMap A) (m : BTreeMap A)
      → DistinctKeys es
      → insert_all (sort_entries es) m ≡ insert_all es m
  insert_all-sort_entries [] m h = refl
  insert_all-sort_entries (e ∷ es) m h =
      insert_all-insert_entry (sort_entries es) e m (All-sort_entries (λ x. e.0 ≢ x.0) es h.0)
      ∙ insert_all-sort_entries es (insert e.0 e.1 m) h.1

  -- A map is rebuilt from its entries in the order of the encoding.
  pub insert_all-encoded : (m : BTreeMap A) → IsSorted m → insert_all (sort_entries m) [] ≡ m
  insert_all-encoded m s =
      insert_all-sort_entries m [] (IsSorted-DistinctKeys m s) ∙ insert_all-IsSorted m s
