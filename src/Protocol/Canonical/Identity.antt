-- ===== src/Protocol/Canonical/Identity.antt =====
-- canonical.rs: what a commit's fingerprint tells apart.
use react_native_surrealdb.Base.{
  ℕ, ◌/◌, ◌%◌, ◌≡◌, refl, sym, ap, ◌∙◌, subst, ◌≢◌, ◌==◌, false, Bool-cases, inl, inr, ◌⊎◌, Option,
  none, some, List, [], ◌∷◌, ◌++◌, length, ltb, All, Result, ok, ok-injective, fail_if, Ensures,
  Ensures-seq, Ensures-bind, holds, ensures_ok, arith,
}
use react_native_surrealdb.Base.Bytes.{Bytes, concat, bytes_eq, bytes as ascii}
use react_native_surrealdb.Protocol.{
  PartitionId, ClientId, ClientCommitId, RecordId, BaseVersion, Operation, Fingerprint,
}
use react_native_surrealdb.Protocol.Canonical.{
  CodecError, Value, max_container_items, max_encoded_bytes,
}
use react_native_surrealdb.Protocol.Canonical.Ciborium.{CborValue, CborItems}
use react_native_surrealdb.Protocol.Canonical.Budget.{Budget, full_budget, validate_with_budget}
use react_native_surrealdb.Protocol.Canonical.Cbor.{to_cbor, from_cbor}
use react_native_surrealdb.Protocol.Canonical.Eased.{Below}
use react_native_surrealdb.Protocol.Canonical.RoundTrip.{
  IsValue, Returns, Returns-admitted, Below-trans,
}
use react_native_surrealdb.Protocol.Canonical.Spent.{
  Spends, take_bytes-Spends, bind-Spends, validate_with_budget-Spends,
}
use react_native_surrealdb.Protocol.Canonical.Encode.{encode_cbor_value_lem}
use react_native_surrealdb.Protocol.Canonical.Decode.{ReadsBack, within_limit_ok}
use react_native_surrealdb.Protocol.Subscription.{ℤ}
use react_native_surrealdb.Protocol.Canonical.Codec.{
  Ciborium, validate_identifier, base_version_to_cbor, optional_record_id_to_cbor, take_identifier,
  take_reference, operation_to_cbor, operations_to_cbor, charge_identities, fingerprint_envelope,
  encode_cbor_value, hex_digit, hex, fingerprint_commit,
}

hex_digit-injective : (m n : ℕ) → hex_digit m ≡ hex_digit n → m ≡ n
hex_digit-injective m n h = ground arith

hex-injective : (xs ys : Bytes) → hex xs ≡ hex ys → xs ≡ ys
hex-injective [] [] h = refl
hex-injective [] (y ∷ ys) h = cc
hex-injective (x ∷ xs) [] h = cc
hex-injective (x ∷ xs) (y ∷ ys) h =
    let high = hex_digit-injective (x / 16) (y / 16) (cc h) in
    let low = hex_digit-injective (x % 16) (y % 16) (cc h) in
    let same : x ≡ y = omega (arith, high, low) in cc (same, hex-injective xs ys (cc h))

base_version_to_cbor-injective :
    (a b : BaseVersion) → base_version_to_cbor a ≡ base_version_to_cbor b → a ≡ b
base_version_to_cbor-injective BaseVersion.absent BaseVersion.absent h = refl
base_version_to_cbor-injective BaseVersion.absent (BaseVersion.exact n) h = cc
base_version_to_cbor-injective (BaseVersion.exact m) BaseVersion.absent h = cc
base_version_to_cbor-injective (BaseVersion.exact m) (BaseVersion.exact n) h = cc

optional_record_id_to_cbor-injective :
    (a b : Option RecordId) → optional_record_id_to_cbor a ≡ optional_record_id_to_cbor b → a ≡ b
optional_record_id_to_cbor-injective none none h = refl
optional_record_id_to_cbor-injective none (some b) h = cc
optional_record_id_to_cbor-injective (some a) none h = cc
optional_record_id_to_cbor-injective (some a) (some b) h = cc

take_identifier-Spends : (text : Bytes) (b : Budget) → Spends b (take_identifier text b)
take_identifier-Spends text b =
    Ensures-seq (validate_identifier text) λ _. take_bytes-Spends (length text) b

take_reference-Spends : (id : Option RecordId) (b : Budget) → Spends b (take_reference id b)
take_reference-Spends none b = holds (omega arith, omega arith)
take_reference-Spends (some id) b = take_identifier-Spends id b

charge_identities-Spends :
    (partition : PartitionId) (client : ClientId) (commit : ClientCommitId) (b : Budget)
    → Spends b (charge_identities partition client commit b)
unfolding charge_identities
charge_identities-Spends partition client commit b = bind-Spends b (take_bytes-Spends _ b) λ x.
    bind-Spends x (take_bytes-Spends _ x) λ y.
      bind-Spends y (take_bytes-Spends (length partition) y) λ z.
        bind-Spends z (take_bytes-Spends (length client) z) λ w. take_bytes-Spends (length commit) w

-- An operation's items, without its budget.
unfoldable pub items_of : Operation Value → CborItems
items_of (Operation.upsert id base value reference) = CborItems.cons (CborValue.integer (ℤ.pos 0)) (
    CborItems.cons (CborValue.text id) (
      CborItems.cons (base_version_to_cbor base) (
        CborItems.cons (to_cbor value)
          (CborItems.cons (optional_record_id_to_cbor reference) CborItems.nil))))
items_of (Operation.delete id base) = CborItems.cons (CborValue.integer (ℤ.pos 1)) (
    CborItems.cons (CborValue.text id)
      (CborItems.cons (CborValue.integer (ℤ.pos base)) CborItems.nil))

-- The values of an operation.
abbrev pub WithValue {κ} : (Value → Type κ) → Operation Value → Type κ
WithValue P (Operation.upsert id base value reference) = P value
WithValue P (Operation.delete id base) = Unit

operation_to_cbor_lem :
    (op : Operation Value) (b : Budget)
    → Below b full_budget
    → WithValue IsValue op
    → Ensures
        (λ r. (r.0 ≡ CborValue.array (items_of op)) × WithValue Returns op × Below r.1 full_budget)
        (operation_to_cbor op b)
unfolding operation_to_cbor items_of
operation_to_cbor_lem (Operation.upsert id base value reference) b l h =
    Ensures-bind (take_identifier id b) λ c e. Ensures-bind (take_reference reference c) λ d f.
      Ensures-bind (validate_with_budget value 0 d) λ left g.
        let below_c = Below-trans c b full_budget (ensures_ok (take_identifier-Spends id b) e) l in
        let below_d =
          Below-trans d c full_budget (ensures_ok (take_reference-Spends reference c) f) below_c in
        holds (
          refl,
          Returns-admitted value 0 d left below_d g h,
          Below-trans left d full_budget (ensures_ok (validate_with_budget-Spends value 0 d) g)
              below_d,
        )
operation_to_cbor_lem (Operation.delete id base) b l h = Ensures-bind (take_identifier id b) λ c e.
    holds (refl, tt, Below-trans c b full_budget (ensures_ok (take_identifier-Spends id b) e) l)

unfoldable pub items_of_all : List (Operation Value) → CborItems
items_of_all [] = CborItems.nil
items_of_all (op ∷ ops) = CborItems.cons (CborValue.array (items_of op)) (items_of_all ops)

operations_to_cbor_lem :
    (ops : List (Operation Value)) (b : Budget)
    → Below b full_budget
    → All (WithValue IsValue) ops
    → Ensures
        (λ items. (items ≡ items_of_all ops) × All (WithValue Returns) ops)
        (operations_to_cbor ops b)
unfolding items_of_all
operations_to_cbor_lem [] b l h = holds (refl, tt)
operations_to_cbor_lem (op ∷ ops) b l h = Ensures-bind (operation_to_cbor op b) λ first e.
    Ensures-bind (operations_to_cbor ops first.1) λ rest f.
      let p = ensures_ok (operation_to_cbor_lem op b l h.0) e in
      let q = ensures_ok (operations_to_cbor_lem ops first.1 p.2 h.1) f in
      holds (cc (p.0, q.0), (p.1, q.1))

items_of-injective :
    (a b : Operation Value)
    → WithValue Returns a
    → WithValue Returns b
    → items_of a ≡ items_of b
    → a ≡ b
unfolding items_of Returns
items_of-injective (Operation.upsert i m v r) (Operation.upsert j n w s) h k e =
    let same : to_cbor v ≡ to_cbor w = cc e in
    cc (
      e,
      base_version_to_cbor-injective m n (cc e),
      optional_record_id_to_cbor-injective r s (cc e),
      ok-injective (sym h ∙ ap from_cbor same ∙ k),
    )
items_of-injective (Operation.upsert i m v r) (Operation.delete j n) h k e = cc e
items_of-injective (Operation.delete i m) (Operation.upsert j n w s) h k e = cc e
items_of-injective (Operation.delete i m) (Operation.delete j n) h k e = cc e

items_of_all-injective :
    (xs ys : List (Operation Value))
    → All (WithValue Returns) xs
    → All (WithValue Returns) ys
    → items_of_all xs ≡ items_of_all ys
    → xs ≡ ys
unfolding items_of_all
items_of_all-injective [] [] h k e = refl
items_of_all-injective [] (y ∷ ys) h k e = cc e
items_of_all-injective (x ∷ xs) [] h k e = cc e
items_of_all-injective (x ∷ xs) (y ∷ ys) h k e =
    cc (items_of-injective x y h.0 k.0 (cc e), items_of_all-injective xs ys h.1 k.1 (cc e))

differ : (x y : Bytes) → (x == y) ≡ false → x ≢ y
differ x y h e = ground (arith, h, e)

-- Two texts that a hash function does not tell apart.
abbrev pub Collides : (Bytes → Bytes) → Type 0
Collides hash = (a : Bytes) × (b : Bytes) × (a ≢ b) × (hash a ≡ hash b)

-- What a commit is made of.
pub record Commit : Type 0 where
  pub partition : PartitionId
  pub client : ClientId
  pub commit : ClientCommitId
  pub operations : List (Operation Value)

abbrev pub envelope_of : Commit → CborValue
envelope_of c = fingerprint_envelope c.partition c.client c.commit (items_of_all c.operations)

module _ (ciborium : Ciborium) (sha256 : Bytes → Bytes) where
  abbrev pub fingerprint_of : Commit → Result CodecError Fingerprint
  fingerprint_of c = fingerprint_commit ciborium sha256 c.partition c.client c.commit c.operations

  -- The text that was hashed.
  Hashed : Commit → Fingerprint → Type 0
  Hashed c print =
      (text : Bytes) × (encode_cbor_value ciborium (envelope_of c) ≡ ok text)
      × (print ≡ ascii "sha256:" ++ hex (sha256 text))
      × All (WithValue Returns) c.operations

  fingerprint_commit-Hashed :
      (c : Commit) → All (WithValue IsValue) c.operations → Ensures (Hashed c) (fingerprint_of c)
  unfolding fingerprint_commit Hashed
  fingerprint_commit-Hashed c h =
      Ensures-seq
        (fail_if (ltb max_container_items (length c.operations)) CodecError.container_limit)
        λ _. Ensures-seq (validate_identifier c.partition) λ _.
          Ensures-seq (validate_identifier c.client) λ _.
            Ensures-seq (validate_identifier c.commit) λ _.
              Ensures-bind (charge_identities c.partition c.client c.commit full_budget)
                λ charged e. Ensures-bind (operations_to_cbor c.operations charged) λ items f.
                  let below =
                    ensures_ok (charge_identities-Spends c.partition c.client c.commit full_budget)
                      e in
                  let read = ensures_ok (operations_to_cbor_lem c.operations charged below h) f in
                  Ensures-bind
                    (encode_cbor_value ciborium
                      (fingerprint_envelope c.partition c.client c.commit items))
                    λ text g. holds (
                      text,
                      subst
                          (λ i.
                            encode_cbor_value ciborium
                              (fingerprint_envelope c.partition c.client c.commit i)
                            ≡ ok text)
                          read.0 g,
                      refl,
                      read.1,
                    )

  -- An encoding that is read back determines its value.
  encode_cbor_value-injective :
      (a b : CborValue) (text : Bytes)
      → ReadsBack ciborium a
      → ReadsBack ciborium b
      → encode_cbor_value ciborium a ≡ ok text
      → encode_cbor_value ciborium b ≡ ok text
      → a ≡ b
  encode_cbor_value-injective a b text r s e f =
      let writes = λ (c : CborValue). ciborium.into_writer c in
      let (_, v, t) =
        within_limit_ok max_encoded_bytes (writes a).1 (concat (writes a).0) text
          (sym (encode_cbor_value_lem ciborium a) ∙ e) in
      let (_, w, u) =
        within_limit_ok max_encoded_bytes (writes b).1 (concat (writes b).0) text
          (sym (encode_cbor_value_lem ciborium b) ∙ f) in
      let same = sym (r v) ∙ ap ciborium.from_reader (t ∙ sym u) ∙ s w in cc same

  -- When two commits whose values are of the Rust types have the same fingerprint, and ciborium
  -- reads back both envelopes, they have the same partition, client, commit id and operations, or
  -- two different texts collide under the hash function.
  pub fingerprint_commit-injective :
      (c d : Commit) (print : Fingerprint)
      → All (WithValue IsValue) c.operations
      → All (WithValue IsValue) d.operations
      → ReadsBack ciborium (envelope_of c)
      → ReadsBack ciborium (envelope_of d)
      → fingerprint_of c ≡ ok print
      → fingerprint_of d ≡ ok print
      → (c ≡ d) ⊎ Collides sha256
  unfolding Hashed
  fingerprint_commit-injective c d print h k r s e f =
      let (x, p, q, v) = ensures_ok (fingerprint_commit-Hashed c h) e in
      let (y, m, n, w) = ensures_ok (fingerprint_commit-Hashed d k) f in
      let digests : sha256 x ≡ sha256 y = hex-injective (sha256 x) (sha256 y) (cc (q, n)) in
      elim (Bool-cases (x == y)) [
        | inl t ↦
            let xy : x ≡ y = ground (arith, t) in
            let envelopes =
              encode_cbor_value-injective (envelope_of c) (envelope_of d) y r s (p ∙ ap ok xy) m in
            let ops = items_of_all-injective c.operations d.operations v w (cc envelopes) in
            inl (cc (envelopes, ops))
        | inr t ↦ inr (x, y, differ x y t, digests)
      ]
