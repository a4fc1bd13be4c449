-- ===== src/Protocol/Canonical/RoundTrip.antt =====
-- canonical.rs: to_cbor and from_cbor undo each other on the values that the Rust types allow.
use react_native_surrealdb.Base.{
  ℕ, ℕ_discrete, ◌+◌, ◌≡◌, refl, ap, true, Option, none, [], ◌∷◌, All, Result, ok, ◌>>=◌, >>=-eq-ok,
  >>-eq-ok, Ensures, ensures_ok, arith,
}
use react_native_surrealdb.Base.Bytes.{Bytes, bytes_eq}
use react_native_surrealdb.Base.BTreeMap.{
  BTreeMap, get, insert, get-insert, map_values, contains_key,
}
use react_native_surrealdb.Base.BTreeMap.Sorted.{
  Absent, DistinctKeys, IsSorted, insert_all, IsSorted-DistinctKeys,
}
use react_native_surrealdb.Protocol.Canonical.{
  CodecError, new_float, Value, Values, Fields, count_fields,
}
use react_native_surrealdb.Protocol.Canonical.Budget.{
  Budget, full_budget, enter, take_items, take_text, validate_with_budget, validate_values,
  validate_fields, validate_value,
}
use react_native_surrealdb.Protocol.Canonical.Cbor.{
  entries, fields_of, sort_entries, map_entries, to_cbor, items_to_cbor, fields_to_cbor, fits_i64,
  checked_record_id, insert_field, from_cbor, items_from_cbor, entries_from_cbor,
}
use react_native_surrealdb.Protocol.Canonical.Sorting.{
  sort_entries-map_values, All-sort_entries, DistinctKeys-sort_entries, insert_all-encoded,
}
use react_native_surrealdb.Protocol.Canonical.Eased.{Below, Eased-validate_with_budget, Eased-ok}
use react_native_surrealdb.Protocol.Canonical.Spent.{
  take_items-Spends, take_text-Spends, enter-Spends, validate_with_budget-Spends,
}

-- What the types of a value say: integers are of 64 bits, floats were made by `new_float`, and an
-- object's entries are those of a `BTreeMap`.
unfoldable mutual
  pub IsValue : Value → Type 0
  IsValue Value.none = Unit
  IsValue Value.null = Unit
  IsValue (Value.bool b) = Unit
  IsValue (Value.int n) = fits_i64 n ≡ true
  IsValue (Value.float f) = new_float f.bits ≡ ok f
  IsValue (Value.string text) = Unit
  IsValue (Value.bytes content) = Unit
  IsValue (Value.array values) = AreValues values
  IsValue (Value.object fields) = IsSorted (entries fields) × AreFields fields
  IsValue (Value.record_id table key) = IsValue key

  pub AreValues : Values → Type 0
  AreValues Values.nil = Unit
  AreValues (Values.cons value values) = IsValue value × AreValues values

  pub AreFields : Fields → Type 0
  AreFields Fields.end = Unit
  AreFields (Fields.field key value fields) = IsValue value × AreFields fields

unfoldable pub Returns : Value → Type 0
Returns value = from_cbor (to_cbor value) ≡ ok value

fields_to_cbor_lem : (fields : Fields) → fields_to_cbor fields ≡ map_values to_cbor (entries fields)
unfolding to_cbor
fields_to_cbor_lem Fields.end = refl
fields_to_cbor_lem (Fields.field key value fields) =
    ap (λ t. (key, to_cbor value) ∷ t) (fields_to_cbor_lem fields)

fields_of-entries : (fields : Fields) → fields_of (entries fields) ≡ fields
fields_of-entries Fields.end = refl
fields_of-entries (Fields.field key value fields) =
    ap (Fields.field key value) (fields_of-entries fields)

Absent-insert :
    (es : BTreeMap Value) (k : Bytes) (a : Value) (m : BTreeMap Value)
    → Absent k es
    → All (λ e. get e.0 m ≡ none) es
    → All (λ e. get e.0 (insert k a m) ≡ none) es
Absent-insert [] k a m h g = tt
Absent-insert (e ∷ es) k a m h g =
    (rw (get-insert e.0 k a m) (ground (arith, h.0, g.0)), Absent-insert es k a m h.1 g.1)

insert_field_new :
    (k : Bytes) (a : Value) (m : BTreeMap Value)
    → get k m ≡ none
    → insert_field m k a ≡ ok (insert k a m)
insert_field_new k a m h = rw (insert_field, contains_key, h) refl

-- Entries with different new keys are read back into the map one by one.
entries_from_cbor-map_entries :
    (es m : BTreeMap Value)
    → All (λ e. Returns e.1) es
    → DistinctKeys es
    → All (λ e. get e.0 m ≡ none) es
    → entries_from_cbor m (map_entries (map_values to_cbor es)) ≡ ok (insert_all es m)
unfolding from_cbor Returns
entries_from_cbor-map_entries [] m r d g = refl
entries_from_cbor-map_entries ((k, a) ∷ es) m r d g =
    rw (r.0, insert_field_new k a m g.0)
      (entries_from_cbor-map_entries es (insert k a m) r.1 d.1 (Absent-insert es k a m d.0 g.1))

All-get_nil : (es : BTreeMap Value) → All (λ e. ◌≡◌ {A = Option Value} (get e.0 []) none) es
unfolding get
All-get_nil [] = tt
All-get_nil (e ∷ es) = (refl, All-get_nil es)

object_lem :
    (fields : Fields)
    → IsSorted (entries fields)
    → All (λ e. Returns e.1) (entries fields)
    → Returns (Value.object fields)
unfolding Returns from_cbor to_cbor
object_lem fields s r =
    let es = sort_entries (entries fields) in
    let read =
      entries_from_cbor-map_entries es [] (All-sort_entries (λ e. Returns e.1) (entries fields) r)
        (DistinctKeys-sort_entries (entries fields) (IsSorted-DistinctKeys (entries fields) s))
        (All-get_nil es) in
    rw
      (
        fields_to_cbor_lem fields,
        sort_entries-map_values to_cbor (entries fields),
        read,
        insert_all-encoded (entries fields) s,
        fields_of-entries fields,
      )
      refl

-- A record id that is admitted inside a value is admitted on its own.
checked_record_id_lem :
    (table : Bytes) (key : Value) (d : ℕ) (b c : Budget)
    → Below b full_budget
    → validate_with_budget (Value.record_id table key) d b ≡ ok c
    → checked_record_id table key ≡ ok (Value.record_id table key)
unfolding checked_record_id validate_value
checked_record_id_lem table key d b c l v =
    let alone =
      Eased-ok
        (Eased-validate_with_budget (Value.record_id table key) d 0 b full_budget (omega arith) l)
        v in
    rw alone.1 refl

-- A part of a value is checked with what the parts before it have left.
Checked : Budget → (Budget → Result CodecError Budget) → Budget → Type 0
Checked b check c = (x : Budget) × Below x b × (check x ≡ ok c)

first_of :
    (r : Result CodecError Budget) (f : Budget → Result CodecError Budget) (b c : Budget)
    → Ensures (λ x. Below x b) r
    → (r >>= f) ≡ ok c
    → (x : Budget) × (r ≡ ok x) × Below x b × (f x ≡ ok c)
first_of r f b c s h = let p = >>=-eq-ok r f h in (p.0, p.1, ensures_ok s p.1, p.2)

pub Below-trans : (a b c : Budget) → Below a b → Below b c → Below a c
Below-trans a b c h k = (omega arith, omega arith)

Checked-array :
    (values : Values) (d : ℕ) (b c : Budget)
    → validate_with_budget (Value.array values) d b ≡ ok c
    → Checked b (validate_values values (d + 1)) c
unfolding validate_with_budget Checked
Checked-array values d b c h =
    let p = first_of (enter d b) _ b c (enter-Spends d b) h in (p.0, p.2, (>>-eq-ok _ _ p.3).1)

Checked-object :
    (fields : Fields) (d : ℕ) (b c : Budget)
    → validate_with_budget (Value.object fields) d b ≡ ok c
    → Checked b (validate_fields fields (d + 1)) c
unfolding validate_with_budget Checked
Checked-object fields d b c h =
    let p = first_of (enter d b) _ b c (enter-Spends d b) h in
    let n = count_fields fields in
    let q = first_of (take_items n p.0) _ p.0 c (take_items-Spends n p.0) (>>-eq-ok _ _ p.3).1 in
    (q.0, Below-trans q.0 p.0 b q.2 p.2, q.3)

Checked-record_id :
    (table : Bytes) (key : Value) (d : ℕ) (b c : Budget)
    → validate_with_budget (Value.record_id table key) d b ≡ ok c
    → Checked b (validate_with_budget key (d + 1)) c
unfolding validate_with_budget Checked
Checked-record_id table key d b c h =
    let p = first_of (enter d b) _ b c (enter-Spends d b) h in
    let q =
      first_of (take_text table p.0) _ p.0 c (take_text-Spends table p.0) (>>-eq-ok _ _ p.3).1 in
    let r = first_of (take_items 2 q.0) _ q.0 c (take_items-Spends 2 q.0) (>>-eq-ok _ _ q.3).1 in
    (r.0, Below-trans r.0 q.0 b r.2 (Below-trans q.0 p.0 b q.2 p.2), r.3)

record_id_lem :
    (table : Bytes) (key : Value)
    → Returns key
    → checked_record_id table key ≡ ok (Value.record_id table key)
    → Returns (Value.record_id table key)
unfolding Returns from_cbor to_cbor ℕ_discrete
record_id_lem table key r h = rw (r, h) refl

mutual
  unfolding IsValue Returns Checked from_cbor to_cbor validate_with_budget ℕ_discrete

  pub Returns-admitted :
      (value : Value) (d : ℕ) (b c : Budget)
      → Below b full_budget
      → validate_with_budget value d b ≡ ok c
      → IsValue value
      → Returns value
  Returns-admitted Value.none d b c l v h = refl
  Returns-admitted Value.null d b c l v h = refl
  Returns-admitted (Value.bool x) d b c l v h = refl
  Returns-admitted (Value.int n) d b c l v h = rw h refl
  Returns-admitted (Value.float f) d b c l v h = rw h refl
  Returns-admitted (Value.string text) d b c l v h = refl
  Returns-admitted (Value.bytes content) d b c l v h = refl
  Returns-admitted (Value.array values) d b c l v h =
      let (x, m, k) = Checked-array values d b c v in
      rw (items_from_cbor-items_to_cbor values (d + 1) x c (Below-trans x b full_budget m l) k h)
        refl
  Returns-admitted (Value.object fields) d b c l v h =
      let (x, m, k) = Checked-object fields d b c v in
      object_lem fields h.0
        (entries-Returns fields (d + 1) x c (Below-trans x b full_budget m l) k h.1)
  Returns-admitted (Value.record_id table key) d b c l v h =
      let (x, m, k) = Checked-record_id table key d b c v in
      record_id_lem table key
        (Returns-admitted key (d + 1) x c (Below-trans x b full_budget m l) k h)
        (checked_record_id_lem table key d b c l v)

  items_from_cbor-items_to_cbor :
      (values : Values) (d : ℕ) (b c : Budget)
      → Below b full_budget
      → validate_values values d b ≡ ok c
      → AreValues values
      → items_from_cbor (items_to_cbor values) ≡ ok values
  items_from_cbor-items_to_cbor Values.nil d b c l v h = refl
  items_from_cbor-items_to_cbor (Values.cons value values) d b c l v h =
      let p =
        first_of (validate_with_budget value d b) _ b c (validate_with_budget-Spends value d b) v in
      rw
        (
          Returns-admitted value d b p.0 l p.1 h.0,
          items_from_cbor-items_to_cbor values d p.0 c (Below-trans p.0 b full_budget p.2 l) p.3
              h.1,
        )
        refl

  entries-Returns :
      (fields : Fields) (d : ℕ) (b c : Budget)
      → Below b full_budget
      → validate_fields fields d b ≡ ok c
      → AreFields fields
      → All (λ e. Returns e.1) (entries fields)
  entries-Returns Fields.end d b c l v h = tt
  entries-Returns (Fields.field key value fields) d b c l v h =
      let p = first_of (take_text key b) _ b c (take_text-Spends key b) v in
      let m = Below-trans p.0 b full_budget p.2 l in
      let q =
        first_of (validate_with_budget value d p.0) _ p.0 c
          (validate_with_budget-Spends value d p.0) p.3 in
      (
        Returns-admitted value d p.0 q.0 m q.1 h.0,
        entries-Returns fields d q.0 c (Below-trans q.0 p.0 full_budget q.2 m) q.3 h.1,
      )

pub from_cbor-to_cbor :
    (value : Value)
    → IsValue value
    → validate_value value ≡ ok tt
    → from_cbor (to_cbor value) ≡ ok value
unfolding Returns validate_value
from_cbor-to_cbor value h v =
    let p = >>=-eq-ok (validate_with_budget value 0 full_budget) _ v in
    Returns-admitted value 0 full_budget p.0 (omega arith, omega arith) p.1 h
