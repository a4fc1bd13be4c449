-- ===== src/Protocol/Canonical/Fingerprint.antt =====
-- canonical.rs: the text of a commit's fingerprint.
use react_native_surrealdb.Base.{
  ℕ, ◌*◌, ◌/◌, ◌%◌, ◌≤◌, ◌<◌, ◌≡◌, refl, Bool-cases, inl, inr, ◌⊎◌, List, [], ◌∷◌, ◌++◌, length,
  ltb, All, fail_if, Ensures, Ensures-bind, Ensures-seq, holds, arith,
}
use react_native_surrealdb.Base.Bytes.{Bytes, bytes as ascii}
use react_native_surrealdb.Protocol.{PartitionId, ClientId, ClientCommitId, Operation}
use react_native_surrealdb.Protocol.Canonical.{CodecError, Value, max_container_items}
use react_native_surrealdb.Protocol.Canonical.Budget.{full_budget}
use react_native_surrealdb.Protocol.Canonical.Codec.{
  Ciborium, validate_identifier, operations_to_cbor, charge_identities, fingerprint_envelope,
  encode_cbor_value, hex_digit, hex, fingerprint_commit,
}

-- A lower-case hexadecimal digit.
abbrev pub IsHexDigit : ℕ → Type 0
IsHexDigit c = (48 ≤ c) × (c ≤ 57) ⊎ (97 ≤ c) × (c ≤ 102)

hex_digit-IsHexDigit : (n : ℕ) → n < 16 → IsHexDigit (hex_digit n)
hex_digit-IsHexDigit n h = elim (Bool-cases (ltb n 10)) [
  | inl p ↦ rw p (inl (omega arith, ground arith))
  | inr p ↦ rw p (inr (ground arith, omega arith))
]

hex-All : (digest : Bytes) → All (λ b. b < 256) digest → All IsHexDigit (hex digest)
hex-All [] h = tt
hex-All (b ∷ digest) h = (
  hex_digit-IsHexDigit (b / 16) (omega (arith, h.0)),
  (hex_digit-IsHexDigit (b % 16) (omega arith), hex-All digest h.1),
)

length-hex : (digest : Bytes) → length (hex digest) ≡ 2 * length digest
length-hex [] = refl
length-hex (b ∷ digest) = omega (arith, length-hex digest)

-- What a hash function of `size` bytes promises.
abbrev pub HasDigests : (Bytes → Bytes) → ℕ → Type 0
HasDigests hash size = (text : Bytes) → (length (hash text) ≡ size) × All (λ b. b < 256) (hash text)

-- A fingerprint is its prefix and 64 digits.
abbrev pub IsFingerprint : Bytes → Type 0
IsFingerprint text =
    (digits : Bytes) × (text ≡ ascii "sha256:" ++ digits)
    × (length digits ≡ 64)
    × All IsHexDigit digits

-- When the hash function gives 32 bytes, each fingerprint is the text sha256: and 64 lower-case
-- hexadecimal digits.
pub fingerprint_commit-IsFingerprint :
    (ciborium : Ciborium) (sha256 : Bytes → Bytes)
    → HasDigests sha256 32
    → (partition : PartitionId) (client : ClientId) (commit : ClientCommitId)
      (operations : List (Operation Value))
    → Ensures IsFingerprint (fingerprint_commit ciborium sha256 partition client commit operations)
unfolding fingerprint_commit
fingerprint_commit-IsFingerprint ciborium sha256 d partition client commit operations =
    Ensures-seq (fail_if (ltb max_container_items (length operations)) CodecError.container_limit)
      λ _. Ensures-seq (validate_identifier partition) λ _.
        Ensures-seq (validate_identifier client) λ _. Ensures-seq (validate_identifier commit) λ _.
          Ensures-bind (charge_identities partition client commit full_budget) λ charged _.
            Ensures-bind (operations_to_cbor operations charged) λ items _.
              Ensures-bind
                (encode_cbor_value ciborium (fingerprint_envelope partition client commit items))
                λ encoded _. holds (
                  hex (sha256 encoded),
                  refl,
                  omega (arith, length-hex (sha256 encoded), (d encoded).0),
                  hex-All (sha256 encoded) (d encoded).1,
                )
