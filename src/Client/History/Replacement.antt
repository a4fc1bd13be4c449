-- ===== src/Client/History/Replacement.antt =====
-- surrealdb-sync-client/src/lib.rs: what the tests on a replacement commit and on a repeated
-- resolution say.
use react_native_surrealdb.Base.{
  ◌≡◌, refl, ap, subst, ◌⊎◌, inl, inr, Bool, true, false, Option, none, some, List, [], ◌∷◌, ◌++◌,
  map, arith, DecEq, nat_eq, ◌==◌, find, any, Bool-cases,
}
use react_native_surrealdb.Base.Bytes.{bytes_eq}
use react_native_surrealdb.Protocol.{
  CommitIdentity, commit_identity_eq, client_commit_eq, RecordId, BaseVersion, Operation, record_id,
  ClientCommit, RecordState, DurableOutcome,
}
use react_native_surrealdb.Client.{
  ConflictResolution, ConflictResolutionRequest, ResolvedCommit, DurableClientState,
}
use react_native_surrealdb.Client.Commits.{
  base_matches, commit_matches_authoritative_base, same_reference, same_operation, same_operations,
  same_intent, is_durable, resolution_request_matches,
}
use react_native_surrealdb.Client.Runtime.{rebased, conflict_record}

-- An element stands in a list.
abbrev pub Has {ℓ} : {A : Type ℓ} → A → List A → Type ℓ
Has {A = A} x xs = (before : List A) × (after : List A) × (xs ≡ before ++ x ∷ after)

Has-cons {ℓ} : {A : Type ℓ} (x y : A) (xs : List A) → Has x xs → Has x (y ∷ xs)
Has-cons x y xs (before, after, e) = (y ∷ before, after, ap (λ l. y ∷ l) e)

any-Has {ℓ} :
    {A : Type ℓ} (p : A → Bool) (xs : List A) → any p xs ≡ true → (x : A) × Has x xs × (p x ≡ true)
any-Has p [] h = absurd (cc h)
any-Has p (x ∷ xs) h = elim (Bool-cases (p x)) [
  | inl t ↦ (x, ([], xs, refl), t)
  | inr f ↦ let (y, has, t) = any-Has p xs (ground (arith, f, h)) in (y, Has-cons y x xs has, t)
]

pub some_injective {ℓ} : {A : Type ℓ} {a b : A} → some a ≡ some b → a ≡ b
some_injective h = cc

find-Has {ℓ} :
    {A : Type ℓ} (p : A → Bool) (xs : List A) {x : A} → find p xs ≡ some x → Has x xs × (p x ≡ true)
find-Has p [] h = absurd (cc h)
find-Has p (y ∷ ys) {x} h = elim (Bool-cases (p y)) [
  | inl t ↦
      let e : y ≡ x = some_injective (rw t at h) in
      (([], ys, ap (λ z. z ∷ ys) e), subst (λ z. p z ≡ true) e t)
  | inr f ↦ let (has, t) = find-Has p ys (rw f at h) in (Has-cons x y ys has, t)
]

module _ {V : Type 0} where
  -- The version that a write on a state must name, and the operations that may follow a state.
  abbrev pub version_of : RecordState V → BaseVersion
  version_of RecordState.absent = BaseVersion.absent
  version_of (RecordState.present value version reference) = BaseVersion.exact version
  version_of (RecordState.tombstone version) = BaseVersion.exact version

  abbrev pub Follows : Operation V → RecordState V → Type 0
  Follows (Operation.upsert id base value reference) state = base ≡ version_of state
  Follows (Operation.delete id base) state =
      (value : V) × (reference : Option RecordId) × (state
        ≡ RecordState.present value base reference)

  -- A commit has an operation on the conflict's record that may follow the conflict's state.
  abbrev pub IsBasedOn : DurableOutcome V → ClientCommit V → Type 0
  IsBasedOn outcome commit =
      (identity : CommitIdentity) × (id : RecordId) × (state : RecordState V) × (op : Operation V)
      × (outcome ≡ DurableOutcome.conflict identity id state)
      × Has op commit.operations
      × (record_id op ≡ id)
      × Follows op state

  base_matches-Follows :
      (op : Operation V) (state : RecordState V) → base_matches op state ≡ true → Follows op state
  base_matches-Follows (Operation.upsert id BaseVersion.absent value reference) RecordState.absent
        h =
      refl
  base_matches-Follows (Operation.upsert id (BaseVersion.exact base) value reference)
        (RecordState.present v n r) h =
      ap BaseVersion.exact (ground (arith, h))
  base_matches-Follows (Operation.upsert id (BaseVersion.exact base) value reference)
        (RecordState.tombstone n) h =
      ap BaseVersion.exact (ground (arith, h))
  base_matches-Follows (Operation.delete id base) (RecordState.present v n r) h =
      (v, r, ap (λ m. RecordState.present v m r) (ground (arith, h)))
  base_matches-Follows _ _ h = absurd (cc h)

  pub rebased-IsBasedOn :
      (outcome : DurableOutcome V) (commit : ClientCommit V)
      → rebased commit (conflict_record outcome) ≡ true
      → IsBasedOn outcome commit
  unfolding commit_matches_authoritative_base
  rebased-IsBasedOn (DurableOutcome.conflict identity id state) commit h =
      by_operation (find (λ op. record_id op == id) commit.operations) refl h
    where
      by_operation :
          (o : Option (Operation V))
          → find (λ op. record_id op == id) commit.operations ≡ o
          → (elim o as (λ _. Bool) [ none ↦ false | some op ↦ base_matches op state ]) ≡ true
          → IsBasedOn (DurableOutcome.conflict identity id state) commit
      by_operation none e t = absurd (cc t)
      by_operation (some op) e t =
          let (has, same) = find-Has (λ op. record_id op == id) commit.operations e in
          (
            identity,
            id,
            state,
            op,
            refl,
            has,
            ground (arith, same),
            base_matches-Follows op state t,
          )
  rebased-IsBasedOn _ commit h = absurd (cc h)

  -- An operation without its base version.
  abbrev pub intent : Operation V → Operation V
  intent (Operation.upsert id base value reference) =
      Operation.upsert id BaseVersion.absent value reference
  intent (Operation.delete id base) = Operation.delete id 0

same_reference-equal : (a b : Option RecordId) → same_reference a b ≡ true → a ≡ b
same_reference-equal none none h = refl
same_reference-equal (some a) (some b) h = ap some (ground (arith, h))
same_reference-equal _ _ h = absurd (cc h)

module _ {V : Type 0} ⦃v : DecEq V⦄ where
  same_operation-intent :
      (op other : Operation V) → same_operation op other ≡ true → intent op ≡ intent other
  same_operation-intent (Operation.upsert id base value reference)
        (Operation.upsert id' base' value' reference') h =
      let r = same_reference-equal reference reference' (ground (arith, h)) in
      let i : id ≡ id' = ground (arith, h) in
      let w : value ≡ value' = ground (arith, h) in cc (i, w, r)
  same_operation-intent (Operation.delete id base) (Operation.delete id' base') h =
      ap (λ i. Operation.delete i 0) (ground (arith, h))
  same_operation-intent _ _ h = absurd (cc h)

  same_operations-intent :
      (ops others : List (Operation V))
      → same_operations ops others ≡ true
      → map intent ops ≡ map intent others
  unfolding same_operations
  same_operations-intent [] [] h = refl
  same_operations-intent (op ∷ ops) (other ∷ others) h =
      let one = same_operation-intent op other (ground (arith, h)) in
      let rest = same_operations-intent ops others (ground (arith, h)) in cc (one, rest)
  same_operations-intent _ _ h = absurd (cc h)

  pub same_intent-intent :
      (original replacement : ClientCommit V)
      → same_intent original replacement ≡ true
      → map intent original.operations ≡ map intent replacement.operations
  unfolding same_intent
  same_intent-intent original replacement h =
      same_operations-intent original.operations replacement.operations h

  -- A commit is pending or settled in a state.
  abbrev pub IsHeld : DurableClientState V → ClientCommit V → Type 0
  IsHeld state commit =
      Has commit state.outbox
      ⊎ ((r : ResolvedCommit V) × Has r state.outcomes × (r.local_commit ≡ commit))

  -- A resolution is what a request asks for, and the state holds the request's replacement.
  abbrev pub Matches :
      DurableClientState V → ConflictResolution → ConflictResolutionRequest V → Type 0
  Matches state resolution ConflictResolutionRequest.keep_server =
      (resolution ≡ ConflictResolution.keep_server)
      ⊎ (resolution ≡ ConflictResolution.prefer_server_policy_v1)
  Matches state resolution (ConflictResolutionRequest.keep_local c) =
      (resolution ≡ ConflictResolution.keep_local c.identity) × IsHeld state c
  Matches state resolution (ConflictResolutionRequest.merge c) =
      (resolution ≡ ConflictResolution.merge c.identity) × IsHeld state c

  is_durable-IsHeld :
      (state : DurableClientState V) (c : ClientCommit V)
      → is_durable state c ≡ true
      → IsHeld state c
  unfolding is_durable
  is_durable-IsHeld state c h = elim (Bool-cases (any (λ commit. commit == c) state.outbox)) [
    | inl t ↦
        let (x, has, e) = any-Has (λ commit. commit == c) state.outbox t in
        inl (subst (λ y. Has y state.outbox) (ground (arith, e)) has)
    | inr f ↦
        let (r, has, e) =
          any-Has (λ resolved. resolved.local_commit == c) state.outcomes (ground (arith, f, h)) in
        inr (r, has, ground (arith, e))
  ]

  pub resolution_request_matches-Matches :
      (state : DurableClientState V) (resolution : ConflictResolution)
      (request : ConflictResolutionRequest V)
      → resolution_request_matches state resolution request ≡ true
      → Matches state resolution request
  unfolding resolution_request_matches
  resolution_request_matches-Matches state ConflictResolution.keep_server
        ConflictResolutionRequest.keep_server h =
      inl refl
  resolution_request_matches-Matches state ConflictResolution.prefer_server_policy_v1
        ConflictResolutionRequest.keep_server h =
      inr refl
  resolution_request_matches-Matches state (ConflictResolution.keep_local identity)
        (ConflictResolutionRequest.keep_local c) h =
      (
        ap ConflictResolution.keep_local (ground (arith, h)),
        is_durable-IsHeld state c (ground (arith, h)),
      )
  resolution_request_matches-Matches state (ConflictResolution.merge identity)
        (ConflictResolutionRequest.merge c) h =
      (
        ap ConflictResolution.merge (ground (arith, h)),
        is_durable-IsHeld state c (ground (arith, h)),
      )
  resolution_request_matches-Matches _ _ _ h = absurd (cc h)
