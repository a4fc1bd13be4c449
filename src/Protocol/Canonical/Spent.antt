-- ===== src/Protocol/Canonical/Spent.antt =====
-- canonical.rs: the budget check only spends.
use react_native_surrealdb.Base.{
  ℕ, ◌+◌, not, Bool-cases, inl, inr, leb, length, is_empty, Result, ◌>>=◌, fail_if, arith, Ensures,
  Ensures-bind, Ensures-seq, Ensures-map, holds, fails, ensures_ok,
}
use react_native_surrealdb.Base.Bytes.{Bytes}
use react_native_surrealdb.Protocol.Canonical.{CodecError, Value, Values, Fields, count_fields}
use react_native_surrealdb.Protocol.Canonical.Budget.{
  Budget, take_bytes, take_items, enter, take_text, is_record_key, validate_with_budget,
  validate_values, validate_fields,
}
use react_native_surrealdb.Protocol.Canonical.Eased.{Below}

abbrev pub Spends : Budget → Result CodecError Budget → Type 0
Spends b = Ensures (λ c. Below c b)

pub take_items-Spends : (n : ℕ) (b : Budget) → Spends b (take_items n b)
unfolding take_items
take_items-Spends n b = elim (Bool-cases (leb n b.items)) [
  | inl p ↦ rw p (holds (omega arith, omega arith))
  | inr p ↦ rw p fails
]

pub take_bytes-Spends : (n : ℕ) (b : Budget) → Spends b (take_bytes n b)
unfolding take_bytes
take_bytes-Spends n b = elim (Bool-cases (leb n b.bytes)) [
  | inl p ↦ rw p (holds (omega arith, omega arith))
  | inr p ↦ rw p fails
]

pub take_text-Spends : (t : Bytes) (b : Budget) → Spends b (take_text t b)
unfolding take_text
take_text-Spends t b = Ensures-seq _ λ _. take_bytes-Spends (length t) b

pub enter-Spends : (d : ℕ) (b : Budget) → Spends b (enter d b)
unfolding enter
enter-Spends d b = Ensures-seq _ λ _. take_items-Spends 1 b

pub bind-Spends :
    (b : Budget) {r : Result CodecError Budget} {f : Budget → Result CodecError Budget}
    → Spends b r
    → ((c : Budget) → Spends c (f c))
    → Spends b (r >>= f)
bind-Spends b {r} p h = Ensures-bind r λ c e.
    let l = ensures_ok p e in Ensures-map (h c) λ x m. (omega (arith, l, m), omega (arith, l, m))

mutual
  unfolding validate_with_budget

  pub validate_with_budget-Spends :
      (v : Value) (d : ℕ) (b : Budget) → Spends b (validate_with_budget v d b)
  validate_with_budget-Spends Value.none d b =
      bind-Spends b (enter-Spends d b) λ c. take_items-Spends 1 c
  validate_with_budget-Spends Value.null d b = enter-Spends d b
  validate_with_budget-Spends (Value.bool x) d b = enter-Spends d b
  validate_with_budget-Spends (Value.int n) d b = enter-Spends d b
  validate_with_budget-Spends (Value.float f) d b = enter-Spends d b
  validate_with_budget-Spends (Value.string text) d b =
      bind-Spends b (enter-Spends d b) λ c. take_text-Spends text c
  validate_with_budget-Spends (Value.bytes text) d b =
      bind-Spends b (enter-Spends d b) λ c. take_text-Spends text c
  validate_with_budget-Spends (Value.array values) d b =
      bind-Spends b (enter-Spends d b)
        λ c. Ensures-seq _ λ _. validate_values-Spends values (d + 1) c
  validate_with_budget-Spends (Value.object fields) d b = bind-Spends b (enter-Spends d b) λ c.
      Ensures-seq _ λ _.
        bind-Spends c (take_items-Spends (count_fields fields) c)
          λ x. validate_fields-Spends fields (d + 1) x
  validate_with_budget-Spends (Value.record_id table key) d b =
      bind-Spends b (enter-Spends d b) λ c.
        Ensures-seq (fail_if (is_empty table) CodecError.invalid_record_id) λ _.
          bind-Spends c (take_text-Spends table c) λ x.
            Ensures-seq (fail_if (not (is_record_key key)) CodecError.invalid_record_id) λ _.
              bind-Spends x (take_items-Spends 2 x) λ y. validate_with_budget-Spends key (d + 1) y

  pub validate_values-Spends : (v : Values) (d : ℕ) (b : Budget) → Spends b (validate_values v d b)
  validate_values-Spends Values.nil d b = holds (omega arith, omega arith)
  validate_values-Spends (Values.cons value values) d b =
      bind-Spends b (validate_with_budget-Spends value d b) λ c. validate_values-Spends values d c

  pub validate_fields-Spends : (v : Fields) (d : ℕ) (b : Budget) → Spends b (validate_fields v d b)
  validate_fields-Spends Fields.end d b = holds (omega arith, omega arith)
  validate_fields-Spends (Fields.field key value fields) d b =
      bind-Spends b (take_text-Spends key b) λ x.
        bind-Spends x (validate_with_budget-Spends value d x) λ c. validate_fields-Spends fields d c
