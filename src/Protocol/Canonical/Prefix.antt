-- ===== src/Protocol/Canonical/Prefix.antt =====
-- canonical.rs: the scan of encoded bytes reads one item and looks no further.
use react_native_surrealdb.Base.{
  ℕ, zero, suc, ◌*◌, ◌/◌, ◌%◌, ◌≡◌, refl, ap, Bool, true, false, not, ◌||◌, some, Option-cases, inl,
  inr, [], ◌∷◌, ◌++◌, is_empty, split_at, ltb, ◌==◌, nat_eq, checked_sub, if◌then◌else◌, Result, ok,
  err, ok-injective, err≢ok, ◌>>=◌, ◌>>◌, fail_if, fail_if_iff, ok_or, >>=-eq-ok, arith,
}
use react_native_surrealdb.Base.Bytes.{Bytes}
use react_native_surrealdb.Protocol.Canonical.{
  CodecError, max_depth, max_string_bytes, max_total_items,
}
use react_native_surrealdb.Protocol.Canonical.Scan.{
  Cursor, argument_width, read_cbor_argument, repeat, skip_text, read_head, scan_body,
  scan_cbor_item, preflight_canonical_cbor,
}

abbrev extend : Bytes → Cursor → Cursor
extend more cursor = record cursor { rest = cursor.rest ++ more }

-- The second result is the first one, with further bytes behind it, when the first is a success.
data Local {ℓ} {A : Type ℓ} (grow : A → A)
    : Result CodecError A → Result CodecError A → Type ℓ where
  stopped : {e : CodecError} {s : Result CodecError A} → Local grow (err e) s
  passed : {a : A} → Local grow (ok a) (ok (grow a))

Local-ok {ℓ} :
    {A : Type ℓ} {g : A → A} {r s : Result CodecError A} {a : A}
    → Local g r s
    → r ≡ ok a
    → s ≡ ok (g a)
Local-ok stopped e = absurd (err≢ok e)
Local-ok {g = g} (passed {a}) e = ap (λ x. ok (g x)) (ok-injective e)

is_empty_nil : (text : Bytes) → not (is_empty text) ≡ false → text ≡ []
is_empty_nil [] h = refl
is_empty_nil (b ∷ text) h = cc

Local-bind {ℓ κ} :
    {A : Type ℓ} {B : Type κ} {g : A → A} {k : B → B} {r s : Result CodecError A}
    {f : A → Result CodecError B} (h : A → Result CodecError B)
    → Local g r s
    → ((a : A) → Local k (f a) (h (g a)))
    → Local k (r >>= f) (s >>= h)
Local-bind h stopped l = stopped
Local-bind h (passed {a}) l = l a

Local-seq {ℓ} :
    {A : Type ℓ} {g : A → A} (m : Result CodecError (Unit {0})) {r s : Result CodecError A}
    → Local g r s
    → Local g (m >> r) (m >> s)
Local-seq (ok tt) l = l
Local-seq (err e) l = stopped

Local-if {ℓ} :
    {A : Type ℓ} {g : A → A} (b : Bool) {r s r' s' : Result CodecError A}
    → Local g r s
    → Local g r' s'
    → Local g (if b then r else r') (if b then s else s')
Local-if true l k = l
Local-if false l k = k

Local-same {ℓ} : {A : Type ℓ} (r : Result CodecError A) → Local (λ a. a) r r
Local-same (ok a) = passed
Local-same (err e) = stopped

first_byte : ℕ → Bytes → Result CodecError (ℕ × Cursor)
first_byte items [] = err CodecError.decode
first_byte items (initial ∷ rest) = ok (initial, record { rest = rest; items = items })

module _ (more : Bytes) where
  IsLocal : (Cursor → Result CodecError Cursor) → Type 0
  IsLocal step = (cursor : Cursor) → Local (extend more) (step cursor) (step (extend more cursor))

  split_at-append :
      (n : ℕ) (text front back : Bytes)
      → split_at n text ≡ some (front, back)
      → split_at n (text ++ more) ≡ some (front, back ++ more)
  split_at-append zero text front back h = cc
  split_at-append (suc n) [] front back h = cc
  split_at-append (suc n) (x ∷ text) front back h = elim (Option-cases (split_at n text)) [
    | inl e ↦ ground (arith, e)
    | inr (parts, e) ↦ ground (arith, e, split_at-append n text parts.0 parts.1 e)
  ]

  Local-split_at :
      (n : ℕ) (text : Bytes)
      → Local
          (λ parts. (parts.0, parts.1 ++ more))
          (ok_or (split_at n text) CodecError.decode)
          (ok_or (split_at n (text ++ more)) CodecError.decode)
  Local-split_at n text = elim (Option-cases (split_at n text)) [
    | inl e ↦ rw e stopped
    | inr (parts, e) ↦ rw (e, split_at-append n text parts.0 parts.1 e) passed
  ]

  Local-repeat :
      (n : ℕ) (step : Cursor → Result CodecError Cursor) → IsLocal step → IsLocal (repeat n step)
  unfolding IsLocal
  Local-repeat zero step l cursor = passed
  Local-repeat (suc n) step l cursor = Local-bind _ (l cursor) (Local-repeat n step l)

  Local-skip_text : (n : ℕ) → IsLocal (skip_text n)
  unfolding IsLocal skip_text
  Local-skip_text n cursor =
      Local-seq (fail_if (ltb max_string_bytes n) CodecError.string_limit)
        (Local-bind _ (Local-split_at n cursor.rest) λ parts. passed)

  Local-read_cbor_argument :
      (additional : ℕ) (rest : Bytes)
      → Local
          (λ a. (a.0, a.1 ++ more))
          (read_cbor_argument additional rest)
          (read_cbor_argument additional (rest ++ more))
  unfolding read_cbor_argument
  Local-read_cbor_argument additional rest = Local-if (ltb additional 24) passed (
      Local-bind {g = λ w. w} _ (Local-same (argument_width additional))
        λ width. Local-bind _ (Local-split_at width rest) λ parts. passed)

  Local-read_head :
      (cursor : Cursor)
      → Local (λ h. (h.0, extend more h.1)) (read_head cursor) (read_head (extend more cursor))
  unfolding read_head first_byte
  Local-read_head cursor =
      Local-bind {g = λ w. w} _
        (Local-same (ok_or (checked_sub cursor.items 1) CodecError.container_limit))
        λ items.
          elim cursor.rest
            as (λ t.
              Local (λ h. (h.0, extend more h.1)) (first_byte items t)
                (first_byte items (t ++ more))) [ [] ↦ stopped | initial ∷ rest ↦ passed ]

  Local-scan_body :
      (nested : Cursor → Result CodecError Cursor) (major argument : ℕ)
      → IsLocal nested
      → IsLocal (scan_body nested major argument)
  unfolding IsLocal scan_body
  Local-scan_body nested major argument l cursor = Local-if (major == 0 || major == 1) passed (
      Local-if (major == 2 || major == 3) (Local-skip_text argument cursor) (
        Local-if (major == 4) (Local-seq _ (Local-repeat argument nested l cursor)) (
          Local-if (major == 5) (Local-seq _ (Local-repeat (argument * 2) nested l cursor))
            (Local-if (major == 6) (l cursor) (Local-if (major == 7) passed stopped)))))

  Local-scan_cbor_item : (levels : ℕ) → IsLocal (scan_cbor_item levels)
  unfolding IsLocal scan_cbor_item
  Local-scan_cbor_item zero cursor = stopped
  Local-scan_cbor_item (suc levels) cursor = Local-bind _ (Local-read_head cursor) λ head.
      Local-bind _ (Local-read_cbor_argument (head.0 % 32) head.1.rest) λ argument.
        Local-scan_body (scan_cbor_item levels) (head.0 / 32) argument.0
          (Local-scan_cbor_item levels) (record (head.1) { rest = argument.1 })

  -- When the scan accepts an input, it refuses the input with any further bytes behind it as
  -- trailing bytes: no accepted input is a proper prefix of another.
  pub preflight_canonical_cbor-append :
      (input : Bytes)
      → preflight_canonical_cbor input ≡ ok tt
      → preflight_canonical_cbor (input ++ more)
        ≡ fail_if (not (is_empty more)) CodecError.trailing_bytes
  unfolding preflight_canonical_cbor IsLocal
  preflight_canonical_cbor-append input h =
      let start : Cursor = record { rest = input; items = max_total_items } in
      let (c, e, k) = >>=-eq-ok (scan_cbor_item (suc max_depth) start) _ h in
      let empty : c.rest ≡ [] = is_empty_nil c.rest ((fail_if_iff _ _).0 k) in
      rw (Local-ok (Local-scan_cbor_item (suc max_depth) start) e, empty) refl
