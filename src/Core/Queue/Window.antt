-- ===== src/Core/Queue/Window.antt =====
-- sync_queue.rs: what the window shows.
use mathlib.Core.List.{append-nil, append_assoc}
use react_native_surrealdb.Base.{
  ℕ, zero, suc, ◌+◌, ◌-◌, ◌≤◌, ◌≡◌, refl, sym, ap, ◌∙◌, Bool, true, false, not, Option, none, some,
  IfSome, take, List, [], ◌∷◌, ◌++◌, map, length, length-append, is_empty, leb, Result, ok, ◌>>◌,
  fail_if, Ensures, Ensures-bind, Ensures-seq, Ensures-map, holds, ensures_ok, arith,
}
use react_native_surrealdb.Base.Bytes.{Bytes, concat}
use react_native_surrealdb.Base.Utf8.{is_utf8}
use react_native_surrealdb.Core.{NativeSyncError}
use react_native_surrealdb.Core.Queue.{
  Serializer, limits, bounded_json, usize_from, charge, take, fill, window,
}
use react_native_surrealdb.Core.Queue.Writer.{bounded_json-IfSome}

comma_le : (seen : Bool) → usize_from seen ≤ 1
comma_le true = omega arith
comma_le false = omega arith

take-rest {ℓ} :
    {A : Type ℓ} (n : ℕ) (xs : List A)
    → (rest : List A) × (xs ≡ take n xs ++ rest) × (length (take n xs) ≤ n)
take-rest n [] = ([], refl, omega arith)
take-rest zero (x ∷ xs) = (x ∷ xs, refl, omega arith)
take-rest (suc n) (x ∷ xs) =
    let (rest, e, l) = take-rest n xs in (rest, ap (λ t. x ∷ t) e, omega (arith, l))

length-map {ℓ κ} :
    {A : Type ℓ} {B : Type κ} (f : A → B) (xs : List A) → length (map f xs) ≡ length xs
length-map f [] = refl
length-map f (x ∷ xs) = ap suc (length-map f xs)

limits_lem : (count budget : ℕ) → limits count budget ≡ ok tt → 2 ≤ budget
unfolding limits
limits_lem count budget h = ground (arith, h)

module _ {T : Type 0} (json : Serializer T) where
  -- A JSON string is at least its text and two quotation marks.
  abbrev pub QuotesTexts : Type 0
  QuotesTexts = (text : Bytes) → 2 + length text ≤ length (concat (json.write_text text).0)

  abbrev pub raw_of : T → Bytes
  raw_of value = concat (json.write_value value).0

  abbrev pub quoted : Bytes → Bytes
  quoted raw = concat (json.write_text raw).0

  -- The size of a JSON array of strings: two brackets, the strings, and a comma between two of them.
  abbrev pub strings_size : List Bytes → ℕ
  strings_size [] = 0
  strings_size (raw ∷ commits) =
      length (quoted raw) + usize_from (not (is_empty commits)) + strings_size commits

  strings_size-snoc :
      (commits : List Bytes) (raw : Bytes)
      → strings_size (commits ++ raw ∷ [])
        ≡ strings_size commits + usize_from (not (is_empty commits)) + length (quoted raw)
  strings_size-snoc [] raw = omega arith
  strings_size-snoc (x ∷ []) raw = omega arith
  strings_size-snoc (x ∷ y ∷ commits) raw = omega (arith, strings_size-snoc (y ∷ commits) raw)

  Charges : ℕ → ℕ → T → Option (Bytes × ℕ) → Type 0
  Charges available comma value =
      IfSome λ c. (c.0 ≡ raw_of value) × (c.1 ≡ length (quoted c.0) + comma) × (c.1 ≤ available)

  charge-Charges :
      QuotesTexts
      → (available comma : ℕ) (value : T) → comma ≤ 1
      → Ensures (Charges available comma value) (charge json available comma value)
  unfolding charge Charges
  charge-Charges q available comma value k =
      charged_raw (bounded_json (json.write_value value) available)
        (bounded_json-IfSome (json.write_value value) available)
    where
      charged_quoted :
          (raw : Bytes) (o : Option Bytes)
          → raw ≡ raw_of value
          → length raw ≤ available
          → IfSome (λ text. (text ≡ quoted raw) × (length text ≤ available - comma)) o
          → Ensures
              (Charges available comma value)
              (elim o as (λ _. Result NativeSyncError (Option (Bytes × ℕ))) [
                | none ↦ ok none
                | some text ↦ ok (some (raw, length text + comma))
              ])
      charged_quoted raw none e l h = holds tt
      charged_quoted raw (some text) e l h =
          holds (
            e,
            ap (λ t. length t + comma) h.0,
            omega (arith, k, h.1, q raw, ap (λ t. length t) h.0),
          )

      charged_raw :
          (o : Option Bytes)
          → IfSome (λ text. (text ≡ raw_of value) × (length text ≤ available)) o
          → Ensures
              (Charges available comma value)
              (elim o as (λ _. Result NativeSyncError (Option (Bytes × ℕ))) [
                | none ↦ ok none
                | some raw ↦
                    fail_if (not (is_utf8 raw)) NativeSyncError.internal
                    >> elim (bounded_json (json.write_text raw) (available - comma)) [
                      | none ↦ ok none
                      | some text ↦ ok (some (raw, length text + comma))
                    ]
              ])
      charged_raw none h = holds tt
      charged_raw (some raw) h =
          Ensures-seq (fail_if (not (is_utf8 raw)) NativeSyncError.internal) λ _.
            charged_quoted raw (bounded_json (json.write_text raw) (available - comma)) h.0 h.1
              (bounded_json-IfSome (json.write_text raw) (available - comma))

  -- The items that a loop took, and what it left.
  Taken : List T → ℕ → List Bytes → List Bytes × ℕ × Bool → Type 0
  Taken items budget commits r =
      (taken : List T) × (rest : List T) × (items ≡ taken ++ rest)
      × (r.0 ≡ commits ++ map raw_of taken)
      × (r.1 ≡ 2 + strings_size r.0)
      × (r.1 ≤ budget)

  fill-Taken :
      QuotesTexts
      → (items : List T) (budget bytes : ℕ) (commits : List Bytes)
      → bytes ≡ 2 + strings_size commits
      → bytes ≤ budget
      → Ensures (Taken items budget commits) (fill json budget items bytes commits)
  unfolding fill Taken Charges
  fill-Taken q [] budget bytes commits e l = holds ([], [], refl, sym (append-nil commits), e, l)
  fill-Taken q (value ∷ items) budget bytes commits e l =
      let comma = usize_from (not (is_empty commits)) in
      Ensures-bind (charge json (budget - bytes) comma value) λ charged c.
        taken_step charged
          (ensures_ok
            (charge-Charges q (budget - bytes) comma value (comma_le (not (is_empty commits)))) c)
          (λ raw cost. fill-Taken q items budget (bytes + cost) (commits ++ raw ∷ []))
    where
      taken_step :
          (charged : Option (Bytes × ℕ))
          → Charges (budget - bytes) (usize_from (not (is_empty commits))) value charged
          → ((raw : Bytes) (cost : ℕ)
              → bytes + cost ≡ 2 + strings_size (commits ++ raw ∷ [])
              → bytes + cost ≤ budget
              → Ensures
                  (Taken items budget (commits ++ raw ∷ []))
                  (fill json budget items (bytes + cost) (commits ++ raw ∷ [])))
          → Ensures
              (Taken (value ∷ items) budget commits)
              (elim charged as (λ _. Result NativeSyncError (List Bytes × ℕ × Bool)) [
                | none ↦ ok (commits, bytes, is_empty commits)
                | some (raw, cost) ↦ fill json budget items (bytes + cost) (commits ++ raw ∷ [])
              ])
      taken_step none c next = holds ([], value ∷ items, refl, sym (append-nil commits), e, l)
      taken_step (some (raw, cost)) (same, size, fits) next =
          Ensures-map
            (next raw cost (omega (arith, e, size, strings_size-snoc commits raw))
              (omega (arith, l, fits)))
            λ r (taken, rest, parts, shown, sized, small). (
              value ∷ taken,
              rest,
              ap (λ t. value ∷ t) parts,
              shown
                  ∙ append_assoc commits (raw ∷ []) (map raw_of taken)
                  ∙ ap (λ t. commits ++ t ∷ map raw_of taken) same,
              sized,
              small,
            )

  -- When a JSON string has at least the size of its text and two bytes, a window shows a prefix of
  -- the queue in order, of at most the given count; its size is that of the JSON array of the
  -- shown commits, at most the budget, and the rest of the queue is what it counts as remaining.
  pub window-Shown :
      QuotesTexts
      → (items : List T) (revision count budget : ℕ)
      → Ensures
          (λ w.
            (shown : List T) × (rest : List T) × (items ≡ shown ++ rest)
            × (w.commits ≡ map raw_of shown)
            × (length shown ≤ count)
            × (w.bytes ≡ 2 + strings_size w.commits)
            × (w.bytes ≤ budget)
            × (w.remaining_count ≡ length rest))
          (window json revision items count budget)
  unfolding window Taken
  window-Shown q items revision count budget = Ensures-seq (limits count budget) λ within.
      Ensures-bind (fill json budget (take count items) 2 []) λ filled f.
        let least = limits_lem count budget within in
        let (shown, left, parts, commits, size, small) =
          ensures_ok (fill-Taken q (take count items) budget 2 [] refl least) f in
        let (rest, all, most) = take-rest count items in
        Ensures-seq
          (fail_if (leb 4294967296 (length items - length filled.0)) NativeSyncError.internal)
          λ _.
            let split = all ∙ ap (λ t. t ++ rest) parts ∙ append_assoc shown left rest in
            let sizes = ap (λ t. length t) split ∙ length-append shown (left ++ rest) in
            let few = ap (λ t. length t) parts ∙ length-append shown left in
            let count_commits = ap (λ t. length t) commits ∙ length-map raw_of shown in
            holds (
              shown,
              left ++ rest,
              split,
              commits,
              omega (arith, few, most),
              size,
              small,
              omega (arith, sizes, count_commits),
            )
