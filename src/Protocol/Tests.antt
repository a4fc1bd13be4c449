-- ===== src/Protocol/Tests.antt =====
-- Concrete runs of canonical.rs: the theorems at sample values, with small codecs.
use react_native_surrealdb.Base.{
  ℕ, zero, suc, ◌+◌, ◌<◌, ◌≡◌, ◌⊎◌, refl, Bool, true, false, not, Option, none, some, List, [], ◌∷◌,
  ◌++◌, length, is_empty, ◌==◌, nat_eq, ℕ_discrete, if◌then◌else◌, All, ok, fail_if, Ensures, arith,
}
use react_native_surrealdb.Base.Bytes.{Bytes, bytes as ascii}
use react_native_surrealdb.Protocol.{Operation}
use react_native_surrealdb.Protocol.Canonical.{CodecError, Value, max_encoded_bytes}
use react_native_surrealdb.Protocol.Canonical.Budget.{
  validate_value, validate_with_budget, enter, take_items, take_text, take_bytes,
}
use react_native_surrealdb.Protocol.Canonical.Scan.{
  preflight_canonical_cbor, scan_cbor_item, scan_body, read_head, read_cbor_argument, skip_text,
}
use react_native_surrealdb.Protocol.Canonical.Ciborium.{CborValue, CborItems}
use react_native_surrealdb.Protocol.Canonical.Cbor.{to_cbor}
use react_native_surrealdb.Protocol.Canonical.Codec.{
  Ciborium, hex, fingerprint_envelope, encode_cbor_value, write, canonical_cbor,
  decode_canonical_cbor, fingerprint_commit, operation_to_cbor, charge_identities,
}
use react_native_surrealdb.Protocol.Canonical.Encode.{within_limit, encode_cbor_value_lem}
use react_native_surrealdb.Protocol.Canonical.RoundTrip.{IsValue}
use react_native_surrealdb.Protocol.Canonical.Decode.{
  decode_canonical_cbor-canonical_cbor, Ensures-decode_canonical_cbor,
}
use react_native_surrealdb.Protocol.Canonical.Prefix.{preflight_canonical_cbor-append}
use react_native_surrealdb.Protocol.Canonical.Fingerprint.{
  HasDigests, IsFingerprint, fingerprint_commit-IsFingerprint,
}
use react_native_surrealdb.Protocol.Canonical.Identity.{
  Collides, Commit, items_of, items_of_all, fingerprint_commit-injective,
}

-- A codec of short texts.
abbrev write_short : CborValue → List Bytes × Bool
write_short (CborValue.text text) = (((96 + length text) ∷ []) ∷ text ∷ [], true)
write_short _ = ([], false)

abbrev read_short : Bytes → Option (CborValue × ℕ)
read_short [] = none
read_short (head ∷ text) =
    if head == 96 + length text then some (CborValue.text text, suc (length text)) else none

abbrev short_texts : Ciborium
short_texts = record { into_writer = write_short; from_reader = read_short }

abbrev hello : Bytes
hello = ascii "hello"

abbrev encoded_hello : Bytes
encoded_hello = 101 ∷ hello

decode_canonical_cbor-canonical_cbor_example :
    decode_canonical_cbor short_texts encoded_hello ≡ ok (Value.string hello)
unfolding IsValue to_cbor ℕ_discrete canonical_cbor validate_value validate_with_budget enter
    take_items take_text take_bytes encode_cbor_value write preflight_canonical_cbor scan_cbor_item
    scan_body read_head read_cbor_argument skip_text
decode_canonical_cbor-canonical_cbor_example =
    decode_canonical_cbor-canonical_cbor short_texts (Value.string hello) encoded_hello tt
      (λ _. refl) refl

Ensures-decode_canonical_cbor_example :
    Ensures
      (λ value.
        IsValue value
        × (validate_value value ≡ ok tt)
        × (canonical_cbor short_texts value ≡ ok encoded_hello))
      (decode_canonical_cbor short_texts encoded_hello)
Ensures-decode_canonical_cbor_example = Ensures-decode_canonical_cbor short_texts encoded_hello

encode_cbor_value_lem_example :
    encode_cbor_value short_texts (CborValue.text hello)
    ≡ within_limit max_encoded_bytes true encoded_hello
encode_cbor_value_lem_example = encode_cbor_value_lem short_texts (CborValue.text hello)

abbrev one_more : Bytes
one_more = 0 ∷ []

preflight_canonical_cbor-append_example :
    preflight_canonical_cbor (encoded_hello ++ one_more)
    ≡ fail_if (not (is_empty one_more)) CodecError.trailing_bytes
unfolding ℕ_discrete preflight_canonical_cbor scan_cbor_item scan_body read_head read_cbor_argument
    skip_text
preflight_canonical_cbor-append_example =
    preflight_canonical_cbor-append one_more encoded_hello refl

-- A codec of the envelopes that differ in their commit, and a hash function without any use.
abbrev operations : List (Operation Value)
operations = Operation.delete (ascii "note:1") 4 ∷ []

abbrev commit_of : CborValue → Bytes
commit_of
      (CborValue.array (
        CborItems.cons domain (
          CborItems.cons name (
            CborItems.cons partition
              (CborItems.cons client (CborItems.cons (CborValue.text commit) items)))))) =
    commit
commit_of _ = []

abbrev envelopes : Ciborium
envelopes = record {
  into_writer = λ value. (commit_of value ∷ [], true);
  from_reader = λ text.
      some
        (fingerprint_envelope (ascii "p") (ascii "c") text (items_of_all operations), length text);
}

abbrev sevens : ℕ → Bytes
sevens zero = []
sevens (suc n) = 7 ∷ sevens n

sevens_small : (n : ℕ) → All (λ b. b < 256) (sevens n)
sevens_small zero = tt
sevens_small (suc n) = (omega arith, sevens_small n)

abbrev constant_hash : Bytes → Bytes
constant_hash text = sevens 32

constant_hash-HasDigests : HasDigests constant_hash 32
constant_hash-HasDigests text = (refl, sevens_small 32)

fingerprint_commit-IsFingerprint_example :
    Ensures IsFingerprint
      (fingerprint_commit envelopes constant_hash (ascii "p") (ascii "c") (ascii "1") operations)
fingerprint_commit-IsFingerprint_example =
    fingerprint_commit-IsFingerprint envelopes constant_hash constant_hash-HasDigests (ascii "p")
      (ascii "c") (ascii "1") operations

abbrev commit_named : Bytes → Commit
commit_named name = record {
  partition = ascii "p";
  client = ascii "c";
  commit = name;
  operations = operations;
}

fingerprint_commit-injective_example :
    (commit_named (ascii "1") ≡ commit_named (ascii "2")) ⊎ Collides constant_hash
unfolding ℕ_discrete items_of items_of_all fingerprint_commit operation_to_cbor charge_identities
    take_bytes encode_cbor_value write
fingerprint_commit-injective_example =
    fingerprint_commit-injective envelopes constant_hash (commit_named (ascii "1"))
      (commit_named (ascii "2")) (ascii "sha256:" ++ hex (sevens 32)) (tt, tt) (tt, tt) (λ _. refl)
      (λ _. refl) refl refl
