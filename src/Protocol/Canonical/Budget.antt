-- ===== src/Protocol/Canonical/Budget.antt =====
-- canonical.rs: validate and validate_with_budget. Two budgets are passed through a value: the
-- items it may still hold, and the bytes of its texts.
use react_native_surrealdb.Base.{
  ℕ, ◌+◌, Bool, true, false, not, length, is_empty, ltb, checked_sub, Result, ok, ◌>>=◌, ◌>>◌,
  fail_if, ok_or,
}
use react_native_surrealdb.Base.Bytes.{Bytes}
use react_native_surrealdb.Protocol.Canonical.{
  CodecError, Value, Values, Fields, count_values, count_fields, max_depth, max_container_items,
  max_total_items, max_string_bytes, max_encoded_bytes,
}

pub record Budget : Type 0 where
  pub items : ℕ
  pub bytes : ℕ

abbrev pub full_budget : Budget
full_budget = record { items = max_total_items; bytes = max_encoded_bytes }

-- `*remaining = remaining.checked_sub(length).ok_or(EncodedLimit)?`.
unfoldable pub take_bytes : ℕ → Budget → Result CodecError Budget
take_bytes length budget = do
  left ← ok_or (checked_sub budget.bytes length) CodecError.encoded_limit
  ok (record budget { bytes = left })

unfoldable pub take_items : ℕ → Budget → Result CodecError Budget
take_items count budget = do
  left ← ok_or (checked_sub budget.items count) CodecError.container_limit
  ok (record budget { items = left })

-- What every value costs, before its kind is looked at.
unfoldable pub enter : ℕ → Budget → Result CodecError Budget
enter depth budget = do fail_if (ltb max_depth depth) CodecError.depth_limit; take_items 1 budget

unfoldable pub take_text : Bytes → Budget → Result CodecError Budget
take_text text budget = do
  fail_if (ltb max_string_bytes (length text)) CodecError.string_limit
  take_bytes (length text) budget

-- The kinds of value that a record id may have as its key.
abbrev pub is_record_key : Value → Bool
is_record_key (Value.int n) = true
is_record_key (Value.string text) = true
is_record_key (Value.array values) = true
is_record_key (Value.object fields) = true
is_record_key _ = false

unfoldable mutual
  pub validate_with_budget : Value → ℕ → Budget → Result CodecError Budget
  validate_with_budget Value.none depth budget = enter depth budget >>= take_items 1
  validate_with_budget Value.null depth budget = enter depth budget
  validate_with_budget (Value.bool b) depth budget = enter depth budget
  validate_with_budget (Value.int n) depth budget = enter depth budget
  validate_with_budget (Value.float f) depth budget = enter depth budget
  validate_with_budget (Value.string text) depth budget = enter depth budget >>= take_text text
  validate_with_budget (Value.bytes text) depth budget = enter depth budget >>= take_text text
  validate_with_budget (Value.array values) depth budget = do
    entered ← enter depth budget
    fail_if (ltb max_container_items (count_values values)) CodecError.container_limit
    validate_values values (depth + 1) entered
  validate_with_budget (Value.object fields) depth budget = do
    entered ← enter depth budget
    fail_if (ltb max_container_items (count_fields fields)) CodecError.container_limit
    counted ← take_items (count_fields fields) entered
    validate_fields fields (depth + 1) counted
  validate_with_budget (Value.record_id table key) depth budget = do
    entered ← enter depth budget
    fail_if (is_empty table) CodecError.invalid_record_id
    charged ← take_text table entered
    fail_if (not (is_record_key key)) CodecError.invalid_record_id
    counted ← take_items 2 charged
    validate_with_budget key (depth + 1) counted

  pub validate_values : Values → ℕ → Budget → Result CodecError Budget
  validate_values Values.nil depth budget = ok budget
  validate_values (Values.cons value values) depth budget =
      validate_with_budget value depth budget >>= validate_values values depth

  pub validate_fields : Fields → ℕ → Budget → Result CodecError Budget
  validate_fields Fields.end depth budget = ok budget
  validate_fields (Fields.field key value fields) depth budget = do
    charged ← take_text key budget
    left ← validate_with_budget value depth charged
    validate_fields fields depth left

unfoldable pub validate_value : Value → Result CodecError (Unit {0})
validate_value value = validate_with_budget value 0 full_budget >>= λ _. ok tt
