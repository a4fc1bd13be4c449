-- ===== src/Protocol/Canonical.antt =====
-- crates/surrealdb-sync-protocol/src/canonical.rs: bounded values, their limits and errors. The
-- child modules are the budget check, the scan of encoded bytes, the conversion from and to CBOR,
-- and the codec with the commit fingerprint.
pub mod Budget
pub mod Scan
pub mod Ciborium
pub mod Cbor
pub mod Codec
pub mod Sorting
pub mod Eased
pub mod Spent
pub mod RoundTrip
pub mod Encode
pub mod Types
pub mod Decode
pub mod Prefix
pub mod Fingerprint
pub mod Identity
use react_native_surrealdb.Base.{
  ℕ, Bool, ◌+◌, ◌*◌, ◌/◌, ◌%◌, List, [], ◌∷◌, ◌==◌, nat_eq, Result, ok, err, if◌then◌else◌, zero,
  suc,
}
use react_native_surrealdb.Base.Bytes.{Bytes, bytes as ascii}
use react_native_surrealdb.Protocol.Subscription.{ℤ}

abbrev pub none_tag : ℕ
none_tag = 6

abbrev pub record_id_tag : ℕ
record_id_tag = 8

abbrev pub fingerprint_domain : Bytes
fingerprint_domain = ascii "surrealdb-sync/1/commit-fingerprint/sha256"

abbrev pub v1_name : Bytes
v1_name = ascii "surrealdb-sync/1"

abbrev pub max_depth : ℕ
max_depth = 32

abbrev pub max_container_items : ℕ
max_container_items = 1024

abbrev pub max_total_items : ℕ
max_total_items = 4096

abbrev pub max_string_bytes : ℕ
max_string_bytes = 1048576

abbrev pub max_encoded_bytes : ℕ
max_encoded_bytes = 4194304

pub data CodecError : Type 0 where
  decode encode trailing_bytes non_canonical : CodecError
  unsupported : Bytes → CodecError
  invalid_record_id duplicate_object_key invalid_identifier invalid_fingerprint : CodecError
  invalid_envelope depth_limit container_limit string_limit encoded_limit : CodecError

-- A binary64 number is its 64 bits: sign, 11 bits of exponent and 52 of fraction.
pub record CanonicalFloat : Type 0 where
  pub bits : ℕ

-- `is_finite`: the exponent is not all ones.
abbrev pub is_finite : ℕ → Bool
is_finite n = if n / 4503599627370496 % 2048 == 2047 then Bool.false else Bool.true

-- Both zeros become the positive one.
unfoldable pub new_float : ℕ → Result CodecError CanonicalFloat
new_float n =
    if is_finite n
    then ok (record { bits = if n % 9223372036854775808 == 0 then 0 else n })
    else err (CodecError.unsupported (ascii "non-finite float"))

-- `object` holds the entries of its map in the order of their keys.
mutual
  pub data Value : Type 0 where
    none null : Value
    bool : Bool → Value
    int : ℤ → Value
    float : CanonicalFloat → Value
    string : Bytes → Value
    bytes : Bytes → Value
    array : Values → Value
    object : Fields → Value
    record_id : Bytes → Value → Value

  pub data Values : Type 0 where
    nil : Values
    cons : Value → Values → Values

  pub data Fields : Type 0 where
    end : Fields
    field : Bytes → Value → Fields → Fields

abbrev pub count_values : Values → ℕ
count_values Values.nil = zero
count_values (Values.cons value values) = suc (count_values values)

abbrev pub count_fields : Fields → ℕ
count_fields Fields.end = zero
count_fields (Fields.field key value fields) = suc (count_fields fields)
