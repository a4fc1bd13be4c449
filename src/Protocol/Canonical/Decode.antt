-- ===== src/Protocol/Canonical/Decode.antt =====
-- canonical.rs: canonical_cbor and decode_canonical_cbor against each other.
use react_native_surrealdb.Base.{
  ℕ, ◌≡◌, refl, sym, ap, ◌∙◌, subst, Bool, true, false, Bool-cases, inl, inr, some, length, ltb,
  ◌!=◌, nat_eq, if◌then◌else◌, ok, err, ok-injective, err≢ok, fail_if, fail_if_iff, ok_or,
  >>=-eq-ok, >>-eq-ok, Ensures, Ensures-bind, Ensures-seq, holds, ensures_ok, arith,
}
use react_native_surrealdb.Base.Bytes.{Bytes, concat, bytes_eq}
use react_native_surrealdb.Protocol.Canonical.{CodecError, Value, max_encoded_bytes}
use react_native_surrealdb.Protocol.Canonical.Budget.{validate_value}
use react_native_surrealdb.Protocol.Canonical.Scan.{preflight_canonical_cbor}
use react_native_surrealdb.Protocol.Canonical.Ciborium.{CborValue}
use react_native_surrealdb.Protocol.Canonical.Cbor.{to_cbor, from_cbor}
use react_native_surrealdb.Protocol.Canonical.Codec.{
  Ciborium, encode_cbor_value, canonical_cbor, decode_canonical_cbor,
}
use react_native_surrealdb.Protocol.Canonical.Encode.{within_limit, encode_cbor_value_lem}
use react_native_surrealdb.Protocol.Canonical.RoundTrip.{IsValue, from_cbor-to_cbor}
use react_native_surrealdb.Protocol.Canonical.Types.{from_cbor-IsValue}

-- What ciborium documents of one value: the bytes of a successful write are read as that value,
-- to their end.
abbrev pub ReadsBack : Ciborium → CborValue → Type 0
ReadsBack ciborium value =
    let writes = ciborium.into_writer value in
    writes.1 ≡ true
    → ciborium.from_reader (concat writes.0) ≡ some (value, length (concat writes.0))

pub within_limit_ok :
    (limit : ℕ) (fine : Bool) (text encoded : Bytes)
    → within_limit limit fine text ≡ ok encoded
    → (ltb limit (length text) ≡ false) × (fine ≡ true) × (text ≡ encoded)
within_limit_ok limit fine text encoded h = elim (Bool-cases (ltb limit (length text))) [
  | inl p ↦ cc
  | inr p ↦
      elim fine
          as (λ b.
            (if b then ok text else err CodecError.encode) ≡ ok encoded
            → (ltb limit (length text) ≡ false) × (b ≡ true) × (text ≡ encoded)) [
              | true ↦ λ k. (p, refl, ok-injective k)
              | false ↦ λ k. absurd (err≢ok k)
            ]
        (sym (rw p refl) ∙ h)
]

nat_same : (n : ℕ) → (n != n) ≡ false
nat_same n = ground arith

bytes_same : (a : Bytes) → (a != a) ≡ false
bytes_same a = ground arith

bytes_of : (a b : Bytes) → (a != b) ≡ false → a ≡ b
bytes_of a b h = ground arith

module _ (ciborium : Ciborium) where
  -- What a successful encoding passed through.
  record Encoded (value : Value) (encoded : Bytes) : Type 0 where
    valid : validate_value value ≡ ok tt
    scanned : preflight_canonical_cbor encoded ≡ ok tt
    bounded : ltb max_encoded_bytes (length encoded) ≡ false
    written : (ciborium.into_writer (to_cbor value)).1 ≡ true
    text : concat (ciborium.into_writer (to_cbor value)).0 ≡ encoded

  canonical_cbor-Encoded :
      (value : Value) (encoded : Bytes)
      → canonical_cbor ciborium value ≡ ok encoded
      → Encoded value encoded
  unfolding canonical_cbor
  canonical_cbor-Encoded value encoded h =
      let (v, h1) = >>-eq-ok (validate_value value) _ h in
      let (out, e, h2) = >>=-eq-ok (encode_cbor_value ciborium (to_cbor value)) _ h1 in
      let (s, h3) = >>-eq-ok (preflight_canonical_cbor out) _ h2 in
      let q = ok-injective h3 in
      let writes = ciborium.into_writer (to_cbor value) in
      let (b, w, t) =
        within_limit_ok max_encoded_bytes writes.1 (concat writes.0) out
          (sym (encode_cbor_value_lem ciborium (to_cbor value)) ∙ e) in
      record {
        valid = v;
        scanned = subst (λ x. preflight_canonical_cbor x ≡ ok tt) q s;
        bounded = subst (λ x. ltb max_encoded_bytes (length x) ≡ false) (t ∙ q) b;
        written = w;
        text = t ∙ q;
      }

  -- When canonical_cbor encodes a value of the Rust types, and ciborium reads back what it wrote
  -- for that value, decode_canonical_cbor of the encoding is the value.
  pub decode_canonical_cbor-canonical_cbor :
      (value : Value) (encoded : Bytes)
      → IsValue value
      → ReadsBack ciborium (to_cbor value)
      → canonical_cbor ciborium value ≡ ok encoded
      → decode_canonical_cbor ciborium encoded ≡ ok value
  unfolding decode_canonical_cbor
  decode_canonical_cbor-canonical_cbor value encoded t r h =
      let e = canonical_cbor-Encoded value encoded h in
      let read =
        subst (λ x. ciborium.from_reader x ≡ some (to_cbor value, length x)) e.text (r e.written) in
      rw
        (
          e.bounded,
          e.scanned,
          read,
          nat_same (length encoded),
          from_cbor-to_cbor value t e.valid,
          e.valid,
          h,
          bytes_same encoded,
        )
        refl

  -- A value that decode_canonical_cbor returns is one of the Rust types (64-bit integers,
  -- normalised floats, objects in the order of their keys), passes the validation, and is encoded
  -- by canonical_cbor as the very input.
  pub Ensures-decode_canonical_cbor :
      (input : Bytes)
      → Ensures
          (λ value.
            IsValue value
            × (validate_value value ≡ ok tt)
            × (canonical_cbor ciborium value ≡ ok input))
          (decode_canonical_cbor ciborium input)
  unfolding decode_canonical_cbor
  Ensures-decode_canonical_cbor input =
      Ensures-seq (fail_if (ltb max_encoded_bytes (length input)) CodecError.encoded_limit) λ _.
        Ensures-seq (preflight_canonical_cbor input) λ _.
          Ensures-bind (ok_or (ciborium.from_reader input) CodecError.decode) λ decoded _.
            Ensures-seq (fail_if (decoded.1 != length input) CodecError.trailing_bytes) λ _.
              Ensures-bind (from_cbor decoded.0) λ value e. Ensures-seq (validate_value value) λ v.
                Ensures-bind (canonical_cbor ciborium value) λ encoded c.
                  Ensures-seq (fail_if (encoded != input) CodecError.non_canonical) λ n. holds (
                    ensures_ok (from_cbor-IsValue decoded.0) e,
                    v,
                    c ∙ ap ok (bytes_of encoded input ((fail_if_iff _ _).0 n)),
                  )
