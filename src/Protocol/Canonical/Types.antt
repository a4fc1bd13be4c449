-- ===== src/Protocol/Canonical/Types.antt =====
-- canonical.rs: from_cbor returns values that the Rust types allow.
use react_native_surrealdb.Base.{
  ℕ, ℕ_discrete, ◌%◌, ◌≡◌, refl, sym, ap, subst, Bool, Bool-cases, inl, inr, none, some, [], ◌∷◌,
  ◌==◌, nat_eq, if◌then◌else◌, All, Result, ok, err, ◌>>=◌, fail_if, Ensures, Ensures-bind,
  Ensures-seq, Ensures-if, holds, fails, ensures_ok,
}
use react_native_surrealdb.Base.Bytes.{Bytes, bytes as ascii}
use react_native_surrealdb.Base.BTreeMap.{BTreeMap, contains_key}
use react_native_surrealdb.Base.BTreeMap.Sorted.{IsSorted, IsSorted-insert, All-insert}
use react_native_surrealdb.Protocol.Canonical.{
  CodecError, is_finite, new_float, none_tag, record_id_tag, Value,
}
use react_native_surrealdb.Protocol.Canonical.Ciborium.{CborValue, CborItems, CborEntries}
use react_native_surrealdb.Protocol.Canonical.Budget.{validate_value}
use react_native_surrealdb.Protocol.Canonical.Cbor.{
  entries, fields_of, fits_i64, text_key, checked_record_id, record_id_table, insert_field,
  from_cbor, from_tag, record_id_from_cbor, items_from_cbor, entries_from_cbor,
}
use react_native_surrealdb.Protocol.Canonical.RoundTrip.{IsValue, AreValues, AreFields}

-- A float that `new_float` made is one that it leaves as it is.
new_float-stable : (n : ℕ) → Ensures (λ f. new_float f.bits ≡ ok f) (new_float n)
unfolding new_float ℕ_discrete
new_float-stable n = elim (Bool-cases (is_finite n)) [
  | inl p ↦ elim (Bool-cases (n % 9223372036854775808 == 0)) [
    | inl z ↦ rw (p, z) (holds refl)
    | inr z ↦ rw (p, z) (holds (rw (p, z) refl))
  ]
  | inr p ↦ rw p fails
]

AreFields-fields_of : (m : BTreeMap Value) → All (λ e. IsValue e.1) m → AreFields (fields_of m)
unfolding IsValue
AreFields-fields_of [] h = tt
AreFields-fields_of (e ∷ m) h = (h.0, AreFields-fields_of m h.1)

entries-fields_of : (m : BTreeMap Value) → entries (fields_of m) ≡ m
entries-fields_of [] = refl
entries-fields_of (e ∷ m) = ap (λ t. e ∷ t) (entries-fields_of m)

IsMap : BTreeMap Value → Type 0
IsMap m = IsSorted m × All (λ e. IsValue e.1) m

object-IsValue : (m : BTreeMap Value) → IsMap m → IsValue (Value.object (fields_of m))
unfolding IsMap IsValue
object-IsValue m h = (subst IsSorted (sym (entries-fields_of m)) h.0, AreFields-fields_of m h.1)

insert_field-IsMap :
    (m : BTreeMap Value) (k : Bytes) (a : Value)
    → IsMap m
    → IsValue a
    → Ensures IsMap (insert_field m k a)
unfolding IsMap
insert_field-IsMap m k a h v =
    Ensures-seq (fail_if (contains_key k m) CodecError.duplicate_object_key)
      λ _. holds (IsSorted-insert k a m h.0, All-insert (λ e. IsValue e.1) k a m v h.1)

record_id_table-IsValue :
    (part : CborValue) (key : Value) → IsValue key → Ensures IsValue (record_id_table part key)
unfolding checked_record_id IsValue
record_id_table-IsValue part key h =
    elim (text_key part)
      as (λ o. Ensures IsValue (elim o as (λ _. Result CodecError Value) [
        | none ↦ err CodecError.invalid_record_id
        | some table ↦ checked_record_id table key
      ])) [
        | none ↦ fails
        | some table ↦ Ensures-seq (validate_value (Value.record_id table key)) λ _. holds h
      ]

refused_tag :
    (b : Bool) (e f : CodecError) → Ensures {E = CodecError} IsValue (if b then err e else err f)
refused_tag b e f = Ensures-if b (λ _. fails) (λ _. fails)

mutual
  unfolding from_cbor IsValue IsMap

  pub from_cbor-IsValue : (c : CborValue) → Ensures IsValue (from_cbor c)
  from_cbor-IsValue (CborValue.integer n) = Ensures-if (fits_i64 n) (λ h. holds h) (λ _. fails)
  from_cbor-IsValue (CborValue.bytes content) = holds tt
  from_cbor-IsValue (CborValue.float n) =
      Ensures-bind (new_float n) λ f e. holds (ensures_ok (new_float-stable n) e)
  from_cbor-IsValue (CborValue.text text) = holds tt
  from_cbor-IsValue (CborValue.bool b) = holds tt
  from_cbor-IsValue CborValue.null = holds tt
  from_cbor-IsValue (CborValue.tag number content) = from_tag-IsValue number content
  from_cbor-IsValue (CborValue.array items) =
      Ensures-bind (items_from_cbor items)
        λ values e. holds (ensures_ok (items_from_cbor-AreValues items) e)
  from_cbor-IsValue (CborValue.map pairs) =
      Ensures-bind (entries_from_cbor [] pairs)
        λ m e. holds (object-IsValue m (ensures_ok (entries_from_cbor-IsMap pairs [] (tt, tt)) e))
  from_cbor-IsValue CborValue.other = fails

  from_tag-IsValue : (number : ℕ) (c : CborValue) → Ensures IsValue (from_tag number c)
  from_tag-IsValue number CborValue.null =
      Ensures-if (number == none_tag) (λ _. holds tt)
        (λ _. refused_tag (number == record_id_tag) _ _)
  from_tag-IsValue number (CborValue.array items) =
      Ensures-if (number == record_id_tag) (λ _. record_id_from_cbor-IsValue items) (λ _. fails)
  from_tag-IsValue number (CborValue.integer n) = refused_tag (number == record_id_tag) _ _
  from_tag-IsValue number (CborValue.bytes content) = refused_tag (number == record_id_tag) _ _
  from_tag-IsValue number (CborValue.float n) = refused_tag (number == record_id_tag) _ _
  from_tag-IsValue number (CborValue.text text) = refused_tag (number == record_id_tag) _ _
  from_tag-IsValue number (CborValue.bool b) = refused_tag (number == record_id_tag) _ _
  from_tag-IsValue number (CborValue.tag n c) = refused_tag (number == record_id_tag) _ _
  from_tag-IsValue number (CborValue.map pairs) = refused_tag (number == record_id_tag) _ _
  from_tag-IsValue number CborValue.other = refused_tag (number == record_id_tag) _ _

  record_id_from_cbor-IsValue : (items : CborItems) → Ensures IsValue (record_id_from_cbor items)
  record_id_from_cbor-IsValue CborItems.nil = fails
  record_id_from_cbor-IsValue (CborItems.cons table CborItems.nil) = fails
  record_id_from_cbor-IsValue (CborItems.cons table (CborItems.cons key CborItems.nil)) =
      Ensures-bind (from_cbor key)
        λ k e. record_id_table-IsValue table k (ensures_ok (from_cbor-IsValue key) e)
  record_id_from_cbor-IsValue
        (CborItems.cons table (CborItems.cons key (CborItems.cons more items))) =
      fails

  items_from_cbor-AreValues : (items : CborItems) → Ensures AreValues (items_from_cbor items)
  items_from_cbor-AreValues CborItems.nil = holds tt
  items_from_cbor-AreValues (CborItems.cons item items) = Ensures-bind (from_cbor item) λ v e.
      Ensures-bind (items_from_cbor items) λ vs es.
        holds
          (ensures_ok (from_cbor-IsValue item) e, ensures_ok (items_from_cbor-AreValues items) es)

  entries_from_cbor-IsMap :
      (pairs : CborEntries) (m : BTreeMap Value)
      → IsMap m
      → Ensures IsMap (entries_from_cbor m pairs)
  entries_from_cbor-IsMap CborEntries.end m h = holds h
  entries_from_cbor-IsMap (CborEntries.entry key item rest) m h =
      elim (text_key key)
        as (λ o. Ensures IsMap (elim o as (λ _. Result CodecError (BTreeMap Value)) [
          | none ↦ err (CodecError.unsupported (ascii "non-text object key"))
          | some name ↦ from_cbor item >>= λ value.
              insert_field m name value >>= λ next. entries_from_cbor next rest
        ])) [
          | none ↦ fails
          | some name ↦ Ensures-bind (from_cbor item) λ v e.
              Ensures-bind (insert_field m name v) λ next i. entries_from_cbor-IsMap rest next (
                ensures_ok (insert_field-IsMap m name v h (ensures_ok (from_cbor-IsValue item) e))
                  i)
        ]
