-- ===== src/Core/Queue/Fits.antt =====
-- sync_queue.rs: the window and the admission test agree.
use react_native_surrealdb.Base.{
  ℕ, zero, suc, ◌+◌, ◌-◌, ◌≤◌, ◌<◌, ◌≡◌, ◌↔◌, refl, ap, ◌∙◌, subst, Bool, true, false, not, Option,
  none, some, take, List, [], ◌∷◌, ◌++◌, length, length-append, is_empty, leb, Result, ok, err,
  err≢ok, ok-injective, ◌>>=◌, fail_if, >>=-eq-ok, >>-eq-ok, fail_if_iff, Ensures, Ensures-bind,
  Ensures-map, holds, ensures_ok, arith,
}
use react_native_surrealdb.Base.Bytes.{Bytes}
use react_native_surrealdb.Core.{NativeSyncError}
use react_native_surrealdb.Core.Queue.{
  NativePendingWindow, Serializer, limits, charge, usize_from, fill, window, admit, admits,
}

take-length {ℓ} : {A : Type ℓ} (n : ℕ) (xs : List A) → length (take n xs) ≤ n
take-length n [] = omega arith
take-length zero (x ∷ xs) = omega arith
take-length (suc n) (x ∷ xs) = omega (arith, take-length n xs)

take_all {ℓ} : {A : Type ℓ} (n : ℕ) (xs : List A) → length xs ≤ n → take n xs ≡ xs
take_all n [] h = refl
take_all zero (x ∷ xs) h = absurd (omega arith)
take_all (suc n) (x ∷ xs) h = ap (λ t. x ∷ t) (take_all n xs (omega arith))

few_lem {ℓ} :
    {A : Type ℓ} (count : ℕ) (items : List A)
    → leb count (length items) ≡ false
    → length items < count
few_lem count items h = ground (arith, h)

room_lem {ℓ} :
    {A : Type ℓ} (count : ℕ) (items : List A)
    → length items < count
    → leb count (length items) ≡ false
room_lem count items h = ground (arith, h)

module _ {T : Type 0} (json : Serializer T) where
  -- Whether a loop showed each of its items.
  ShowsAll : ℕ → List T → ℕ → List Bytes → Type 0
  ShowsAll budget items bytes commits =
      (shown : List Bytes) × (left : ℕ) × (large : Bool) × (fill json budget items bytes commits
        ≡ ok (shown, left, large))
      × (length shown ≡ length commits + length items)

  -- No loop shows more than its items.
  fill-length :
      (items : List T) (budget bytes : ℕ) (commits : List Bytes)
      → Ensures
          (λ r. length r.0 ≤ length commits + length items)
          (fill json budget items bytes commits)
  unfolding fill
  fill-length [] budget bytes commits = holds (omega arith)
  fill-length (value ∷ items) budget bytes commits =
      Ensures-bind (charge json (budget - bytes) (usize_from (not (is_empty commits))) value)
        λ charged _.
          fill_step (λ cost raw. fill-length items budget (bytes + cost) (commits ++ raw ∷ []))
            charged
    where
      fill_step :
          ((cost : ℕ) (raw : Bytes)
            → Ensures
                (λ r. length r.0 ≤ length (commits ++ raw ∷ []) + length items)
                (fill json budget items (bytes + cost) (commits ++ raw ∷ [])))
          → (charged : Option (Bytes × ℕ))
          → Ensures
              (λ r. length r.0 ≤ length commits + length (value ∷ items))
              (elim charged as (λ _. Result NativeSyncError (List Bytes × ℕ × Bool)) [
                | none ↦ ok (commits, bytes, is_empty commits)
                | some (raw, cost) ↦ fill json budget items (bytes + cost) (commits ++ raw ∷ [])
              ])
      fill_step ih none = holds (omega arith)
      fill_step ih (some (raw, cost)) =
          Ensures-map (ih cost raw) λ r h. omega (arith, h, length-append commits (raw ∷ []))

  seen_after : (commits : List Bytes) (raw : Bytes) → is_empty (commits ++ raw ∷ []) ≡ false
  seen_after [] raw = refl
  seen_after (x ∷ commits) raw = refl

  -- What each loop does with a charge.
  admit_charged : ℕ → List T → ℕ → Option (Bytes × ℕ) → Result NativeSyncError (Unit {0})
  admit_charged budget items bytes none = err NativeSyncError.queue_capacity
  admit_charged budget items bytes (some (raw, cost)) = admit json budget items (bytes + cost) true

  fill_charged :
      ℕ
      → List T
      → ℕ
      → List Bytes
      → Option (Bytes × ℕ)
      → Result NativeSyncError (List Bytes × ℕ × Bool)
  fill_charged budget items bytes commits none = ok (commits, bytes, is_empty commits)
  fill_charged budget items bytes commits (some (raw, cost)) =
      fill json budget items (bytes + cost) (commits ++ raw ∷ [])

  too_few :
      (commits shown : List Bytes) (n : ℕ)
      → commits ≡ shown
      → length shown ≡ length commits + suc n
      → ⊥
  too_few commits shown n e l = omega (arith, ap (λ c. length c) e, l)

  admit-fill :
      (items : List T) (budget bytes : ℕ) (commits : List Bytes)
      → (admit json budget items bytes (not (is_empty commits)) ≡ ok tt)
        ↔ ShowsAll budget items bytes commits
  unfolding admit fill ShowsAll admit_charged fill_charged
  admit-fill [] budget bytes commits = (λ _. (commits, bytes, false, refl, omega arith), λ _. refl)
  admit-fill (value ∷ items) budget bytes commits =
      admit_step (λ cost raw. admit-fill items budget (bytes + cost) (commits ++ raw ∷ []))
        (charge json (budget - bytes) (usize_from (not (is_empty commits))) value)
    where
      admit_step :
          ((cost : ℕ) (raw : Bytes)
            → (admit json budget items (bytes + cost) (not (is_empty (commits ++ raw ∷ [])))
                ≡ ok tt)
              ↔ ShowsAll budget items (bytes + cost) (commits ++ raw ∷ []))
          → (r : Result NativeSyncError (Option (Bytes × ℕ)))
          → ((r >>= admit_charged budget items bytes) ≡ ok tt) ↔ (
              (shown : List Bytes) × (left : ℕ) × (large : Bool) × ((r
                  >>= fill_charged budget items bytes commits)
                ≡ ok (shown, left, large))
              × (length shown ≡ length commits + suc (length items)))
      admit_step next (err e) = (λ h. absurd (err≢ok h), λ (_, _, _, h, _). absurd (err≢ok h))
      admit_step next (ok none) = (
        λ h. absurd (err≢ok h),
        λ (shown, left, large, h, l).
            absurd (too_few commits shown (length items) (ap (λ r. r.0) (ok-injective h)) l),
      )
      admit_step next (ok (some (raw, cost))) =
          let ih =
            subst
              (λ b.
                (admit json budget items (bytes + cost) (not b) ≡ ok tt)
                ↔ ShowsAll budget items (bytes + cost) (commits ++ raw ∷ []))
              (seen_after commits raw) (next cost raw) in
          let size = length-append commits (raw ∷ []) in
          (
            λ h.
                let (shown, left, large, p, l) = ih.0 h in
                (shown, left, large, p, omega (arith, l, size)),
            λ (shown, left, large, p, l). ih.1 (shown, left, large, p, omega (arith, l, size)),
          )

  -- A commit is admitted to a queue exactly when the window of the queue with the commit at its
  -- end, under the same limits, succeeds and leaves no commit out.
  pub admits_iff :
      (items : List T) (candidate : T) (revision count budget : ℕ)
      → (admits json items candidate count budget ≡ ok tt) ↔ (
          (shown : NativePendingWindow) × (window json revision
              (items ++ candidate ∷ [])
              count
              budget
            ≡ ok shown)
          × (shown.remaining_count ≡ 0))
  unfolding admits window ShowsAll
  admits_iff items candidate revision count budget = (
    λ h.
        let (l, h1) = >>-eq-ok (limits count budget) _ h in
        let (few, h2) =
          >>-eq-ok (fail_if (leb count (length items)) NativeSyncError.queue_capacity) _ h1 in
        let all = items ++ candidate ∷ [] in
        let same = take_all count all (
          omega (
            arith,
            length-append items (candidate ∷ []),
            few_lem count items ((fail_if_iff _ _).0 few),
          )) in
        let (shown, left, large, p, size) = (admit-fill all budget 2 []).0 h2 in
        let none_left : length all - length shown ≡ 0 = omega (arith, size) in
        (
          record {
            revision = revision;
            commits = shown;
            bytes = left;
            remaining_count = length all - length shown;
            first_commit_too_large = large;
          },
          rw (l, same, p, none_left) refl,
          none_left,
        ),
    λ (w, h, r).
        let (l, h1) = >>-eq-ok (limits count budget) _ h in
        let all = items ++ candidate ∷ [] in
        let (filled, p, h2) = >>=-eq-ok (fill json budget (take count all) 2 []) _ h1 in
        let (small, h3) =
          >>-eq-ok
            (fail_if (leb 4294967296 (length all - length filled.0)) NativeSyncError.internal) _
            h2 in
        let zero_left : length all - length filled.0 ≡ 0 =
          ap (λ x. x.remaining_count) (ok-injective h3) ∙ r in
        let most = ensures_ok (fill-length (take count all) budget 2 []) p in
        let fits : length all ≤ count = omega (arith, zero_left, most, take-length count all) in
        let same = take_all count all fits in
        let q = subst (λ xs. fill json budget xs 2 [] ≡ ok filled) same p in
        let most' = ensures_ok (fill-length all budget 2 []) q in
        let ok_all =
          (admit-fill all budget 2 []).1
            (filled.0, filled.1, filled.2, q, omega (arith, zero_left, most')) in
        rw (l, room_lem count items (omega (arith, fits, length-append items (candidate ∷ []))))
          ok_all,
  )
