-- ===== src/Protocol/Canonical/Scan.antt =====
-- canonical.rs: preflight_canonical_cbor, scan_cbor_item and read_cbor_argument. The cursor is the
-- rest of the input; `levels` are the nestings that the depth limit still allows.
use react_native_surrealdb.Base.{
  ℕ, zero, suc, ◌+◌, ◌*◌, ◌/◌, ◌%◌, not, ◌||◌, [], ◌∷◌, ◌==◌, nat_eq, length, is_empty, split_at,
  ltb, checked_sub, if◌then◌else◌, Result, ok, err, ◌>>=◌, ◌>>◌, fail_if, ok_or, u64_mod,
}
use react_native_surrealdb.Base.Bytes.{Bytes}
use react_native_surrealdb.Protocol.Canonical.{
  CodecError, max_depth, max_container_items, max_total_items, max_string_bytes,
}

pub record Cursor : Type 0 where
  pub rest : Bytes
  pub items : ℕ

-- The bytes of an argument by the additional bits of its head; the first 24 are the argument.
abbrev pub argument_width : ℕ → Result CodecError ℕ
argument_width additional =
    if ltb additional 24
    then ok 0
    else if additional == 24
    then ok 1
    else if additional == 25
    then ok 2
    else if additional == 26
    then ok 4
    else if additional == 27
    then ok 8
    else err CodecError.decode

-- `fold(0_u64, |value, byte| (value << 8) | byte)`.
abbrev pub big_endian : ℕ → Bytes → ℕ
big_endian value [] = value
big_endian value (b ∷ rest) = big_endian ((value * 256 + b) % u64_mod) rest

unfoldable pub read_cbor_argument : ℕ → Bytes → Result CodecError (ℕ × Bytes)
read_cbor_argument additional rest = if ltb additional 24 then ok (additional, rest) else do
  width ← argument_width additional
  parts ← ok_or (split_at width rest) CodecError.decode
  ok (big_endian 0 parts.0, parts.1)

-- `for _ in 0..n { step(&mut s)?; }`.
abbrev pub repeat {ℓ} : {E : Type 0} {S : Type ℓ} → ℕ → (S → Result E S) → S → Result E S
repeat zero step s = ok s
repeat (suc n) step s = step s >>= repeat n step

unfoldable pub skip_text : ℕ → Cursor → Result CodecError Cursor
skip_text length cursor = do
  fail_if (ltb max_string_bytes length) CodecError.string_limit
  parts ← ok_or (split_at length cursor.rest) CodecError.decode
  ok (record cursor { rest = parts.1 })

-- `initial`, the head of an item, and what it takes from the item budget.
unfoldable pub read_head : Cursor → Result CodecError (ℕ × Cursor)
read_head cursor = do
  items ← ok_or (checked_sub cursor.items 1) CodecError.container_limit
  elim cursor.rest [
    | [] ↦ err CodecError.decode
    | initial ∷ rest ↦ ok (initial, record { rest = rest; items = items })
  ]

-- By the major type, with the scan of one nested item.
unfoldable pub scan_body :
    (Cursor → Result CodecError Cursor) → ℕ → ℕ → Cursor → Result CodecError Cursor
scan_body nested major argument cursor =
    if major == 0 || major == 1
    then ok cursor
    else if major == 2 || major == 3
    then skip_text argument cursor
    else if major == 4
    then (fail_if (ltb max_container_items argument) CodecError.container_limit
        >> repeat argument nested cursor)
    else if major == 5
    then (fail_if (ltb max_container_items argument) CodecError.container_limit
        >> repeat (argument * 2) nested cursor)
    else if major == 6
    then nested cursor
    else if major == 7
    then ok cursor
    else err CodecError.decode

unfoldable pub scan_cbor_item : ℕ → Cursor → Result CodecError Cursor
scan_cbor_item zero cursor = err CodecError.depth_limit
scan_cbor_item (suc levels) cursor = do
  head ← read_head cursor
  argument ← read_cbor_argument (head.0 % 32) head.1.rest
  scan_body (scan_cbor_item levels) (head.0 / 32) argument.0 (record (head.1) { rest = argument.1 })

unfoldable pub preflight_canonical_cbor : Bytes → Result CodecError (Unit {0})
preflight_canonical_cbor input = do
  cursor ← scan_cbor_item (suc max_depth) (record { rest = input; items = max_total_items })
  fail_if (not (is_empty cursor.rest)) CodecError.trailing_bytes
