-- ===== src/Protocol/Canonical/Cbor.antt =====
-- canonical.rs: to_cbor and from_cbor, between values and the value type of the ciborium crate.
use react_native_surrealdb.Base.{
  ℕ, Ordering, Bool, Option, none, some, List, [], ◌∷◌, length, compare, ltb, ◌==◌, nat_eq,
  if◌then◌else◌, Result, ok, err, ◌>>=◌, ◌>>◌, fail_if,
}
use react_native_surrealdb.Base.Bytes.{Bytes, bytes as ascii, compare_bytes, then_with}
use react_native_surrealdb.Base.BTreeMap.{BTreeMap, insert, contains_key}
use react_native_surrealdb.Protocol.Subscription.{ℤ}
use react_native_surrealdb.Protocol.Canonical.{
  CodecError, new_float, Value, Values, Fields, none_tag, record_id_tag,
}
use react_native_surrealdb.Protocol.Canonical.Ciborium.{CborValue, CborItems, CborEntries}
use react_native_surrealdb.Protocol.Canonical.Budget.{validate_value}

-- The entries of an object, as the map that they make up.
abbrev pub entries : Fields → BTreeMap Value
entries Fields.end = []
entries (Fields.field key value fields) = (key, value) ∷ entries fields

abbrev pub fields_of : BTreeMap Value → Fields
fields_of [] = Fields.end
fields_of ((key, value) ∷ rest) = Fields.field key value (fields_of rest)

-- Shorter keys first, then by their bytes.
abbrev pub compare_keys : Bytes → Bytes → Ordering
compare_keys left right =
    then_with (compare (length left) (length right)) (compare_bytes left right)

module _ {ℓ} {A : Type ℓ} where
  abbrev pub insert_entry : Bytes × A → List (Bytes × A) → List (Bytes × A)
  insert_entry entry [] = entry ∷ []
  insert_entry entry (next ∷ rest) = elim (compare_keys entry.0 next.0) [
    | Ordering.gt ↦ next ∷ insert_entry entry rest
    | _ ↦ entry ∷ next ∷ rest
  ]

  -- `entries.sort_by(…)`, which is stable.
  abbrev pub sort_entries : List (Bytes × A) → List (Bytes × A)
  sort_entries [] = []
  sort_entries (entry ∷ rest) = insert_entry entry (sort_entries rest)

abbrev pub map_entries : List (Bytes × CborValue) → CborEntries
map_entries [] = CborEntries.end
map_entries ((key, value) ∷ rest) = CborEntries.entry (CborValue.text key) value (map_entries rest)

unfoldable mutual
  pub to_cbor : Value → CborValue
  to_cbor Value.none = CborValue.tag none_tag CborValue.null
  to_cbor Value.null = CborValue.null
  to_cbor (Value.bool b) = CborValue.bool b
  to_cbor (Value.int n) = CborValue.integer n
  to_cbor (Value.float f) = CborValue.float f.bits
  to_cbor (Value.string text) = CborValue.text text
  to_cbor (Value.bytes content) = CborValue.bytes content
  to_cbor (Value.array values) = CborValue.array (items_to_cbor values)
  to_cbor (Value.object fields) = CborValue.map (map_entries (sort_entries (fields_to_cbor fields)))
  to_cbor (Value.record_id table key) = CborValue.tag record_id_tag (
      CborValue.array
        (CborItems.cons (CborValue.text table) (CborItems.cons (to_cbor key) CborItems.nil)))

  pub items_to_cbor : Values → CborItems
  items_to_cbor Values.nil = CborItems.nil
  items_to_cbor (Values.cons value values) = CborItems.cons (to_cbor value) (items_to_cbor values)

  pub fields_to_cbor : Fields → List (Bytes × CborValue)
  fields_to_cbor Fields.end = []
  fields_to_cbor (Fields.field key value fields) = (key, to_cbor value) ∷ fields_to_cbor fields

-- `i64::try_from`.
abbrev pub fits_i64 : ℤ → Bool
fits_i64 (ℤ.pos n) = ltb n 9223372036854775808
fits_i64 (ℤ.negsuc n) = ltb n 9223372036854775808

abbrev pub text_key : CborValue → Option Bytes
text_key (CborValue.text key) = some key
text_key _ = none

-- A record id that was assembled is validated on its own.
unfoldable pub checked_record_id : Bytes → Value → Result CodecError Value
checked_record_id table key =
    validate_value (Value.record_id table key) >> ok (Value.record_id table key)

-- The table of a record id, after its key was converted.
abbrev pub record_id_table : CborValue → Value → Result CodecError Value
record_id_table part key = elim (text_key part) [
  | none ↦ err CodecError.invalid_record_id
  | some table ↦ checked_record_id table key
]

-- `values.insert(key, …).is_some()`.
abbrev pub insert_field : BTreeMap Value → Bytes → Value → Result CodecError (BTreeMap Value)
insert_field fields key value =
    fail_if (contains_key key fields) CodecError.duplicate_object_key
    >> ok (insert key value fields)

unfoldable mutual
  pub from_cbor : CborValue → Result CodecError Value
  from_cbor (CborValue.integer n) =
      if fits_i64 n
      then ok (Value.int n)
      else err (CodecError.unsupported (ascii "integer outside i64"))
  from_cbor (CborValue.bytes content) = ok (Value.bytes content)
  from_cbor (CborValue.float n) = new_float n >>= λ f. ok (Value.float f)
  from_cbor (CborValue.text text) = ok (Value.string text)
  from_cbor (CborValue.bool b) = ok (Value.bool b)
  from_cbor CborValue.null = ok Value.null
  from_cbor (CborValue.tag number content) = from_tag number content
  from_cbor (CborValue.array items) = items_from_cbor items >>= λ values. ok (Value.array values)
  from_cbor (CborValue.map pairs) =
      entries_from_cbor [] pairs >>= λ fields. ok (Value.object (fields_of fields))
  from_cbor CborValue.other = err (CodecError.unsupported (ascii "unknown CBOR value"))

  -- The two tags of the profile: no value at all, and a record id.
  pub from_tag : ℕ → CborValue → Result CodecError Value
  from_tag number CborValue.null =
      if number == none_tag
      then ok Value.none
      else if number == record_id_tag
      then err CodecError.invalid_record_id
      else err (CodecError.unsupported (ascii "CBOR tag"))
  from_tag number (CborValue.array items) =
      let record_id = record_id_from_cbor items in
      if number == record_id_tag then record_id else err (CodecError.unsupported (ascii "CBOR tag"))
  from_tag number _ =
      if number == record_id_tag
      then err CodecError.invalid_record_id
      else err (CodecError.unsupported (ascii "CBOR tag"))

  -- Exactly two parts: the key is converted first.
  pub record_id_from_cbor : CborItems → Result CodecError Value
  record_id_from_cbor CborItems.nil = err CodecError.invalid_record_id
  record_id_from_cbor (CborItems.cons table CborItems.nil) = err CodecError.invalid_record_id
  record_id_from_cbor (CborItems.cons table (CborItems.cons key CborItems.nil)) =
      from_cbor key >>= record_id_table table
  record_id_from_cbor (CborItems.cons table (CborItems.cons key (CborItems.cons more items))) =
      err CodecError.invalid_record_id

  pub items_from_cbor : CborItems → Result CodecError Values
  items_from_cbor CborItems.nil = ok Values.nil
  items_from_cbor (CborItems.cons item items) = do
    value ← from_cbor item
    values ← items_from_cbor items
    ok (Values.cons value values)

  pub entries_from_cbor : BTreeMap Value → CborEntries → Result CodecError (BTreeMap Value)
  entries_from_cbor fields CborEntries.end = ok fields
  entries_from_cbor fields (CborEntries.entry key item rest) = elim (text_key key) [
    | none ↦ err (CodecError.unsupported (ascii "non-text object key"))
    | some name ↦ do
      value ← from_cbor item
      next ← insert_field fields name value
      entries_from_cbor next rest
  ]
