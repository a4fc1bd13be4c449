-- ===== src/Protocol/Canonical/Eased.antt =====
-- canonical.rs: a value that the budget check admits is admitted with a larger budget and at a
-- smaller depth.
use react_native_surrealdb.Base.{
  ℕ, ◌+◌, ◌≡◌, ◌≤◌, Bool-cases, inl, inr, leb, refl, true, false, length, ltb, Result, ok, err,
  err≢ok, ok-injective, subst, ◌>>=◌, ◌>>◌, arith,
}
use react_native_surrealdb.Base.Bytes.{Bytes}
use react_native_surrealdb.Protocol.Canonical.{
  CodecError, Value, Values, Fields, count_fields, max_depth,
}
use react_native_surrealdb.Protocol.Canonical.Budget.{
  Budget, take_bytes, take_items, enter, take_text, validate_with_budget, validate_values,
  validate_fields,
}

abbrev pub Below : Budget → Budget → Type 0
Below b c = (b.items ≤ c.items) × (b.bytes ≤ c.bytes)

-- The second result is a success with at least as much left when the first one is a success.
pub data Eased : Result CodecError Budget → Result CodecError Budget → Type 0 where
  refused : {e : CodecError} {s : Result CodecError Budget} → Eased (err e) s
  admitted : {b c : Budget} → Below b c → Eased (ok b) (ok c)

Eased-bind :
    {r s : Result CodecError Budget} {f g : Budget → Result CodecError Budget}
    → Eased r s
    → ((b c : Budget) → Below b c → Eased (f b) (g c))
    → Eased (r >>= f) (s >>= g)
Eased-bind refused h = refused
Eased-bind (admitted {b} {c} l) h = h b c l

Eased-seq :
    (m : Result CodecError (Unit {0})) {r s : Result CodecError Budget}
    → Eased r s
    → Eased (m >> r) (m >> s)
Eased-seq (ok tt) h = h
Eased-seq (err e) h = refused

Eased-take_items : (n : ℕ) (b c : Budget) → Below b c → Eased (take_items n b) (take_items n c)
unfolding take_items
Eased-take_items n b c l = elim (Bool-cases (leb n b.items)) [
  | inl p ↦ let q : leb n c.items ≡ true = ground arith in rw (p, q) (admitted (omega arith, l.1))
  | inr p ↦ rw p refused
]

Eased-take_bytes : (n : ℕ) (b c : Budget) → Below b c → Eased (take_bytes n b) (take_bytes n c)
unfolding take_bytes
Eased-take_bytes n b c l = elim (Bool-cases (leb n b.bytes)) [
  | inl p ↦ let q : leb n c.bytes ≡ true = ground arith in rw (p, q) (admitted (l.0, omega arith))
  | inr p ↦ rw p refused
]

Eased-take_text : (t : Bytes) (b c : Budget) → Below b c → Eased (take_text t b) (take_text t c)
unfolding take_text
Eased-take_text t b c l = Eased-seq _ (Eased-take_bytes (length t) b c l)

Eased-enter : (d e : ℕ) (b c : Budget) → e ≤ d → Below b c → Eased (enter d b) (enter e c)
unfolding enter
Eased-enter d e b c l h = elim (Bool-cases (ltb max_depth d)) [
  | inl p ↦ rw p refused
  | inr p ↦ let q : ltb max_depth e ≡ false = ground arith in rw (p, q) (Eased-take_items 1 b c h)
]

mutual
  unfolding validate_with_budget

  pub Eased-validate_with_budget :
      (v : Value) (d e : ℕ) (b c : Budget)
      → e ≤ d
      → Below b c
      → Eased (validate_with_budget v d b) (validate_with_budget v e c)
  Eased-validate_with_budget Value.none d e b c l h =
      Eased-bind (Eased-enter d e b c l h) (Eased-take_items 1)
  Eased-validate_with_budget Value.null d e b c l h = Eased-enter d e b c l h
  Eased-validate_with_budget (Value.bool x) d e b c l h = Eased-enter d e b c l h
  Eased-validate_with_budget (Value.int n) d e b c l h = Eased-enter d e b c l h
  Eased-validate_with_budget (Value.float f) d e b c l h = Eased-enter d e b c l h
  Eased-validate_with_budget (Value.string text) d e b c l h =
      Eased-bind (Eased-enter d e b c l h) (Eased-take_text text)
  Eased-validate_with_budget (Value.bytes text) d e b c l h =
      Eased-bind (Eased-enter d e b c l h) (Eased-take_text text)
  Eased-validate_with_budget (Value.array values) d e b c l h =
      Eased-bind (Eased-enter d e b c l h) λ b' c' h'.
        Eased-seq _ (Eased-validate_values values (d + 1) (e + 1) b' c' (omega arith) h')
  Eased-validate_with_budget (Value.object fields) d e b c l h =
      Eased-bind (Eased-enter d e b c l h) λ b' c' h'. Eased-seq _ (
        Eased-bind (Eased-take_items (count_fields fields) b' c' h')
          λ b'' c'' h''. Eased-validate_fields fields (d + 1) (e + 1) b'' c'' (omega arith) h'')
  Eased-validate_with_budget (Value.record_id table key) d e b c l h =
      Eased-bind (Eased-enter d e b c l h) λ b' c' h'. Eased-seq _ (
        Eased-bind (Eased-take_text table b' c' h') λ b2 c2 h2. Eased-seq _ (
          Eased-bind (Eased-take_items 2 b2 c2 h2)
            λ b3 c3 h3. Eased-validate_with_budget key (d + 1) (e + 1) b3 c3 (omega arith) h3))

  Eased-validate_values :
      (v : Values) (d e : ℕ) (b c : Budget)
      → e ≤ d
      → Below b c
      → Eased (validate_values v d b) (validate_values v e c)
  Eased-validate_values Values.nil d e b c l h = admitted h
  Eased-validate_values (Values.cons value values) d e b c l h =
      Eased-bind (Eased-validate_with_budget value d e b c l h)
        λ b' c' h'. Eased-validate_values values d e b' c' l h'

  Eased-validate_fields :
      (v : Fields) (d e : ℕ) (b c : Budget)
      → e ≤ d
      → Below b c
      → Eased (validate_fields v d b) (validate_fields v e c)
  Eased-validate_fields Fields.end d e b c l h = admitted h
  Eased-validate_fields (Fields.field key value fields) d e b c l h =
      Eased-bind (Eased-take_text key b c h) λ b1 c1 h1.
        Eased-bind (Eased-validate_with_budget value d e b1 c1 l h1)
          λ b' c' h'. Eased-validate_fields fields d e b' c' l h'

pub Eased-ok :
    {r s : Result CodecError Budget} {b : Budget}
    → Eased r s
    → r ≡ ok b
    → (c : Budget) × (s ≡ ok c) × Below b c
Eased-ok refused e = absurd (err≢ok e)
Eased-ok (admitted {b} {c} l) e = (c, refl, subst (λ x. Below x c) (ok-injective e) l)
