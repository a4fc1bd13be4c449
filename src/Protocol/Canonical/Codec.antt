-- ===== src/Protocol/Canonical/Codec.antt =====
-- canonical.rs: canonical_cbor, decode_canonical_cbor and fingerprint_commit. The ciborium and sha2
-- crates are parameters.
use react_native_surrealdb.Base.{
  ℕ, ◌+◌, ◌/◌, ◌%◌, Bool, true, false, ◌&&◌, ◌||◌, Option, none, some, List, [], ◌∷◌, ◌++◌, length,
  is_empty, ltb, ◌!=◌, nat_eq, checked_add, if◌then◌else◌, Result, ok, err, ◌>>=◌, ◌>>◌, fail_if,
  ok_or,
}
use react_native_surrealdb.Base.Bytes.{Bytes, bytes as ascii, bytes_eq}
use react_native_surrealdb.Protocol.{
  PartitionId, ClientId, ClientCommitId, Fingerprint, RecordId, BaseVersion, Operation,
}
use react_native_surrealdb.Protocol.Subscription.{ℤ}
use react_native_surrealdb.Protocol.Canonical.{
  CodecError, Value, fingerprint_domain, v1_name, max_container_items, max_string_bytes,
  max_encoded_bytes,
}
use react_native_surrealdb.Protocol.Canonical.Budget.{
  Budget, full_budget, take_bytes, validate_with_budget, validate_value,
}
use react_native_surrealdb.Protocol.Canonical.Scan.{preflight_canonical_cbor}
use react_native_surrealdb.Protocol.Canonical.Ciborium.{CborValue, CborItems}
use react_native_surrealdb.Protocol.Canonical.Cbor.{to_cbor, from_cbor}

-- What the codec calls of ciborium. `into_writer` is the sequence of its writes, and whether it
-- then reports success; `from_reader` is the value that it reads and the bytes that this takes.
pub record Ciborium : Type 0 where
  pub into_writer : CborValue → List Bytes × Bool
  pub from_reader : Bytes → Option (CborValue × ℕ)

pub record LimitedWriter : Type 0 where
  pub written : Bytes
  pub limit : ℕ
  pub exceeded : Bool

abbrev pub new_writer : ℕ → LimitedWriter
new_writer limit = record { written = []; limit = limit; exceeded = false }

-- Whether the write succeeded, and the writer after it.
unfoldable pub write : LimitedWriter → Bytes → Bool × LimitedWriter
write writer input = elim (checked_add (length writer.written) (length input)) [
  | none ↦ (false, record writer { exceeded = true })
  | some next_len ↦
      if ltb writer.limit next_len
      then (false, record writer { exceeded = true })
      else (true, record writer { written = writer.written ++ input })
]

-- A serializer stops at the first write that fails.
abbrev pub write_all : LimitedWriter → List Bytes → Bool × LimitedWriter
write_all writer [] = (true, writer)
write_all writer (input ∷ inputs) =
    let next = write writer input in
    let rest = write_all next.1 inputs in if next.0 then rest else (false, next.1)

abbrev pub validate_identifier : Bytes → Result CodecError (Unit {0})
validate_identifier text =
    fail_if (is_empty text || ltb max_string_bytes (length text)) CodecError.invalid_identifier

abbrev pub base_version_to_cbor : BaseVersion → CborValue
base_version_to_cbor BaseVersion.absent =
    CborValue.array (CborItems.cons (CborValue.integer (ℤ.pos 0)) CborItems.nil)
base_version_to_cbor (BaseVersion.exact version) = CborValue.array (
    CborItems.cons (CborValue.integer (ℤ.pos 1))
      (CborItems.cons (CborValue.integer (ℤ.pos version)) CborItems.nil))

abbrev pub optional_record_id_to_cbor : Option RecordId → CborValue
optional_record_id_to_cbor none = CborValue.null
optional_record_id_to_cbor (some id) = CborValue.text id

abbrev pub take_identifier : Bytes → Budget → Result CodecError Budget
take_identifier text budget = validate_identifier text >> take_bytes (length text) budget

abbrev pub take_reference : Option RecordId → Budget → Result CodecError Budget
take_reference none budget = ok budget
take_reference (some id) budget = take_identifier id budget

unfoldable pub operation_to_cbor : Operation Value → Budget → Result CodecError (CborValue × Budget)
operation_to_cbor (Operation.upsert id base value reference) budget = do
  named ← take_identifier id budget
  referred ← take_reference reference named
  left ← validate_with_budget value 0 referred
  ok (
    CborValue.array (
        CborItems.cons (CborValue.integer (ℤ.pos 0)) (
          CborItems.cons (CborValue.text id) (
            CborItems.cons (base_version_to_cbor base) (
              CborItems.cons (to_cbor value)
                (CborItems.cons (optional_record_id_to_cbor reference) CborItems.nil))))),
    left,
  )
operation_to_cbor (Operation.delete id base) budget = do
  left ← take_identifier id budget
  ok (
    CborValue.array (
        CborItems.cons (CborValue.integer (ℤ.pos 1)) (
          CborItems.cons (CborValue.text id)
            (CborItems.cons (CborValue.integer (ℤ.pos base)) CborItems.nil))),
    left,
  )

abbrev pub operations_to_cbor : List (Operation Value) → Budget → Result CodecError CborItems
operations_to_cbor [] budget = ok CborItems.nil
operations_to_cbor (op ∷ ops) budget = do
  first ← operation_to_cbor op budget
  rest ← operations_to_cbor ops first.1
  ok (CborItems.cons first.0 rest)

-- The fixed texts and the identities are charged before the operations.
unfoldable pub charge_identities :
    PartitionId → ClientId → ClientCommitId → Budget → Result CodecError Budget
charge_identities partition client commit budget = do
  domain ← take_bytes (length fingerprint_domain) budget
  name ← take_bytes (length v1_name) domain
  left ← take_bytes (length partition) name
  left' ← take_bytes (length client) left
  take_bytes (length commit) left'

abbrev pub fingerprint_envelope : PartitionId → ClientId → ClientCommitId → CborItems → CborValue
fingerprint_envelope partition client commit operations = CborValue.array (
    CborItems.cons (CborValue.text fingerprint_domain) (
      CborItems.cons (CborValue.text v1_name) (
        CborItems.cons (CborValue.text partition) (
          CborItems.cons (CborValue.text client) (
            CborItems.cons (CborValue.text commit)
              (CborItems.cons (CborValue.array operations) CborItems.nil))))))

-- `{byte:02x}`.
abbrev pub hex_digit : ℕ → ℕ
hex_digit n = if ltb n 10 then 48 + n else 87 + n

abbrev pub hex : Bytes → Bytes
hex [] = []
hex (b ∷ rest) = hex_digit (b / 16) ∷ hex_digit (b % 16) ∷ hex rest

module _ (ciborium : Ciborium) where
  unfoldable pub encode_cbor_value : CborValue → Result CodecError Bytes
  encode_cbor_value value =
      let writes = ciborium.into_writer value in
      let done = write_all (new_writer max_encoded_bytes) writes.0 in
      if done.1.exceeded
      then err CodecError.encoded_limit
      else if done.0 && writes.1
      then ok done.1.written
      else err CodecError.encode

  unfoldable pub canonical_cbor : Value → Result CodecError Bytes
  canonical_cbor value = do
    validate_value value
    encoded ← encode_cbor_value (to_cbor value)
    preflight_canonical_cbor encoded
    ok encoded

  unfoldable pub decode_canonical_cbor : Bytes → Result CodecError Value
  decode_canonical_cbor input = do
    fail_if (ltb max_encoded_bytes (length input)) CodecError.encoded_limit
    preflight_canonical_cbor input
    decoded ← ok_or (ciborium.from_reader input) CodecError.decode
    fail_if (decoded.1 != length input) CodecError.trailing_bytes
    value ← from_cbor decoded.0
    validate_value value
    encoded ← canonical_cbor value
    fail_if (encoded != input) CodecError.non_canonical
    ok value

  module _ (sha256 : Bytes → Bytes) where
    unfoldable pub fingerprint_commit :
        PartitionId
        → ClientId
        → ClientCommitId
        → List (Operation Value)
        → Result CodecError Fingerprint
    fingerprint_commit partition client commit operations = do
      fail_if (ltb max_container_items (length operations)) CodecError.container_limit
      validate_identifier partition
      validate_identifier client
      validate_identifier commit
      charged ← charge_identities partition client commit full_budget
      items ← operations_to_cbor operations charged
      encoded ← encode_cbor_value (fingerprint_envelope partition client commit items)
      ok (ascii "sha256:" ++ hex (sha256 encoded))
