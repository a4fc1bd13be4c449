-- ===== src/Protocol/Canonical/Encode.antt =====
-- canonical.rs: encode_cbor_value, whose writer keeps the encoding within its limit.
use react_native_surrealdb.Base.{
  ℕ, ◌+◌, ◌≤◌, ◌≡◌, refl, sym, Bool, true, false, ◌&&◌, Bool-cases, inl, inr, ◌<◌, u64_mod, List,
  [], ◌∷◌, ◌++◌, length, length-append, ltb, if◌then◌else◌, Result, ok, err, arith,
}
use mathlib.Core.List.{append-nil, append_assoc}
use react_native_surrealdb.Base.Bytes.{Bytes, concat}
use react_native_surrealdb.Protocol.Canonical.{CodecError, max_encoded_bytes}
use react_native_surrealdb.Protocol.Canonical.Ciborium.{CborValue}
use react_native_surrealdb.Protocol.Canonical.Codec.{
  Ciborium, LimitedWriter, write, write_all, encode_cbor_value,
}

-- What encode_cbor_value makes of a writer and of the serializer's own report.
finish : Bool → Bool × LimitedWriter → Result CodecError Bytes
finish fine done =
    if done.1.exceeded
    then err CodecError.encoded_limit
    else if done.0 && fine
    then ok done.1.written
    else err CodecError.encode

-- The same, by the whole text that was to be written.
abbrev pub within_limit : ℕ → Bool → Bytes → Result CodecError Bytes
within_limit limit fine text =
    if ltb limit (length text)
    then err CodecError.encoded_limit
    else if fine
    then ok text
    else err CodecError.encode

writer_of : ℕ → Bytes → LimitedWriter
writer_of limit text = record { written = text; limit = limit; exceeded = false }

write_over :
    (limit : ℕ) (text input : Bytes)
    → ltb limit (length text + length input) ≡ true
    → write (writer_of limit text) input
      ≡ (false, record { written = text; limit = limit; exceeded = true })
unfolding write writer_of
write_over limit text input h = ground arith

write_fits :
    (limit : ℕ) (text input : Bytes)
    → limit < u64_mod
    → ltb limit (length text + length input) ≡ false
    → write (writer_of limit text) input ≡ (true, writer_of limit (text ++ input))
unfolding write writer_of
write_fits limit text input l h = ground arith

finish-write_all :
    (inputs : List Bytes) (limit : ℕ) (text : Bytes) (fine : Bool)
    → limit < u64_mod
    → length text ≤ limit
    → finish fine (write_all (writer_of limit text) inputs)
      ≡ within_limit limit fine (text ++ concat inputs)
unfolding finish writer_of
finish-write_all [] limit text fine l h =
    let q : ltb limit (length text) ≡ false = ground arith in rw (append-nil text, q) refl
finish-write_all (input ∷ inputs) limit text fine l h =
    elim (Bool-cases (ltb limit (length text + length input))) [
      | inl p ↦
          let q : ltb limit (length (text ++ (input ++ concat inputs))) ≡ true = ground (
            arith,
            length-append text (input ++ concat inputs),
            length-append input (concat inputs),
          ) in
          rw (write_over limit text input p, q) refl
      | inr p ↦
          rw (write_fits limit text input l p, sym (append_assoc text input (concat inputs)))
            (finish-write_all inputs limit (text ++ input) fine l
              (ground (arith, length-append text input)))
    ]

-- Whatever writes ciborium makes, encode_cbor_value is an EncodedLimit error exactly when their
-- total is over 4 MiB; otherwise it is the bytes of all writes, or an Encode error when ciborium
-- reports one.
pub encode_cbor_value_lem :
    (ciborium : Ciborium) (value : CborValue)
    → let writes = ciborium.into_writer value in
      encode_cbor_value ciborium value ≡ within_limit max_encoded_bytes writes.1 (concat writes.0)
unfolding encode_cbor_value finish writer_of
encode_cbor_value_lem ciborium value =
    let writes = ciborium.into_writer value in
    finish-write_all writes.0 max_encoded_bytes [] writes.1 (omega arith) (omega arith)
