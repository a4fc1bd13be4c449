-- ===== src/Core/Queue/Writer.antt =====
-- sync_queue.rs: what the bounded writer keeps.
use mathlib.Core.List.{append-nil, append_assoc}
use react_native_surrealdb.Base.{
  ℕ, ◌-◌, ◌≤◌, ◌≡◌, sym, ap, ◌∙◌, subst, Bool, true, false, Bool-cases, inl, inr, Option, none,
  some, IfSome, IfSome-map, IfSome-bind, List, [], ◌∷◌, ◌++◌, length, length-append, ltb,
  if◌then◌else◌, arith,
}
use react_native_surrealdb.Base.Bytes.{Bytes, concat}
use react_native_surrealdb.Core.Queue.{BudgetWriter, write, write_all, bounded_json}

Written : BudgetWriter → List Bytes → BudgetWriter → Type 0
Written writer inputs next =
    (next.bytes ≡ writer.bytes ++ concat inputs) × (length next.bytes ≤ writer.limit)

write-some :
    (writer next : BudgetWriter) (input : Bytes)
    → length writer.bytes ≤ writer.limit
    → write writer input ≡ some next
    → (next.bytes ≡ writer.bytes ++ input)
      × (next.limit ≡ writer.limit)
      × (length next.bytes ≤ writer.limit)
unfolding write
write-some writer next input l h =
    elim (Bool-cases (ltb (writer.limit - length writer.bytes) (length input))) [
      | inl p ↦ ground (arith, p, h)
      | inr p ↦
          let e : record writer { bytes = writer.bytes ++ input } ≡ next = ground (arith, p, h) in
          (
            ap (λ w. w.bytes) (sym e),
            ap (λ w. w.limit) (sym e),
            subst (λ w. length w.bytes ≤ writer.limit) e
                (ground (arith, p, l, length-append writer.bytes input)),
          )
    ]

-- Writes in several parts succeed only when they fit together.
write_all-Written :
    (inputs : List Bytes) (writer : BudgetWriter)
    → length writer.bytes ≤ writer.limit
    → IfSome (Written writer inputs) (write_all writer inputs)
unfolding write Written
write_all-Written [] writer l = (sym (append-nil writer.bytes), l)
write_all-Written (input ∷ inputs) writer l =
    IfSome-bind (Written writer (input ∷ inputs)) (write writer input)
      (λ next. write_all next inputs)
      λ next e.
        let (text, limit, fits) = write-some writer next input l e in
        IfSome-map (write_all next inputs)
          (write_all-Written inputs next (subst (λ t. length next.bytes ≤ t) (sym limit) fits))
          λ done h. (
            h.0
                ∙ ap (λ t. t ++ concat inputs) text
                ∙ append_assoc writer.bytes input (concat inputs),
            subst (λ t. length done.bytes ≤ t) limit h.1,
          )

pub bounded_json-IfSome :
    (writes : List Bytes × Bool) (limit : ℕ)
    → IfSome (λ text. (text ≡ concat writes.0) × (length text ≤ limit)) (bounded_json writes limit)
unfolding bounded_json Written
bounded_json-IfSome writes limit =
    finished (write_all start writes.0) (write_all-Written writes.0 start (omega arith))
  where
    start : BudgetWriter
    start = record { bytes = []; limit = limit }

    finished :
        (o : Option BudgetWriter)
        → IfSome (λ next. (next.bytes ≡ concat writes.0) × (length next.bytes ≤ limit)) o
        → IfSome
            (λ text. (text ≡ concat writes.0) × (length text ≤ limit))
            (elim o as (λ _. Option Bytes) [
              | none ↦ none
              | some writer ↦ if writes.1 then some writer.bytes else none
            ])
    finished none h = tt
    finished (some writer) h =
        elim (writes.1)
          as (λ b.
            IfSome (λ text. (text ≡ concat writes.0) × (length text ≤ limit))
              (if b then some writer.bytes else none)) [ true ↦ h | false ↦ tt ]
