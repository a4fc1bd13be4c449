-- ===== src/Core/ReadJournal/Numbers.antt =====
-- sync_read.rs: revisions as decimal text, and the epochs that they stand with.
use react_native_surrealdb.Base.{
  ℕ, zero, suc, ◌+◌, ◌*◌, ◌-◌, ◌/◌, ◌%◌, ◌<◌, ◌≡◌, refl, sym, ap, ◌∙◌, true, false, ◌&&◌,
  Bool-cases, inl, inr, none, some, [], ◌∷◌, ◌++◌, is_empty, ltb, ◌==◌, nat_eq, u64_mod, arith,
}
use react_native_surrealdb.Base.Bytes.{Bytes, bytes as ascii, decimal_fuel, decimal}
use react_native_surrealdb.Core.ReadJournal.{
  JournalEpoch, epoch_value, is_digit, parse_digits, parse_u64,
}

-- One more digit behind a number.
parse_digits_last :
    (text : Bytes) (value number digit : ℕ)
    → parse_digits value text ≡ some number
    → digit < 10
    → number * 10 + digit < u64_mod
    → parse_digits value (text ++ (48 + digit) ∷ []) ≡ some (number * 10 + digit)
unfolding parse_digits
parse_digits_last [] value number digit h d l = ground (arith, h)
parse_digits_last (c ∷ text) value number digit h d l =
    elim (Bool-cases (is_digit c && ltb (value * 10 + (c - 48)) u64_mod)) [
      | inl p ↦ rw p (parse_digits_last text (value * 10 + (c - 48)) number digit (rw p at h) d l)
      | inr p ↦ ground (arith, p, h)
    ]

one_digit : (n : ℕ) → n < 10 → parse_digits 0 ((48 + n) ∷ []) ≡ some n
unfolding parse_digits
one_digit n h = ground (arith, h)

plus_digit : (c : ℕ) (text : Bytes) → (c == 43) ≡ true → parse_digits 0 (c ∷ text) ≡ none
unfolding parse_digits
plus_digit c text h = ground (arith, h)

parse_digits-decimal_fuel :
    (fuel n : ℕ) → n < fuel → n < u64_mod → parse_digits 0 (decimal_fuel fuel n) ≡ some n
unfolding decimal_fuel
parse_digits-decimal_fuel zero n h l = absurd (omega arith)
parse_digits-decimal_fuel (suc fuel) n h l = elim (Bool-cases (ltb n 10)) [
  | inl p ↦ rw p (one_digit n (ground (arith, p)))
  | inr p ↦
      let front = parse_digits-decimal_fuel fuel (n / 10) (ground (arith, p)) (omega arith) in
      let all =
        parse_digits_last (decimal_fuel fuel (n / 10)) 0 (n / 10) (n % 10) front (omega arith)
          (omega arith) in
      rw p (all ∙ ap some (omega arith))
]

parse_u64_digits :
    (text : Bytes) (n : ℕ)
    → is_empty text ≡ false
    → parse_digits 0 text ≡ some n
    → parse_u64 text ≡ some n
unfolding parse_u64
parse_u64_digits [] n e h = cc
parse_u64_digits (c ∷ text) n e h = elim (Bool-cases (c == 43)) [
  | inl p ↦ cc (plus_digit c text p, h)
  | inr p ↦ rw p h
]

append_nonempty : (xs : Bytes) (x : ℕ) → is_empty (xs ++ x ∷ []) ≡ false
append_nonempty [] x = refl
append_nonempty (y ∷ xs) x = refl

decimal_nonempty : (fuel n : ℕ) → is_empty (decimal_fuel (suc fuel) n) ≡ false
unfolding decimal_fuel
decimal_nonempty fuel n = elim (Bool-cases (ltb n 10)) [
  | inl p ↦ rw p refl
  | inr p ↦ rw p (append_nonempty (decimal_fuel fuel (n / 10)) (48 + n % 10))
]

pub parse_u64-decimal : (n : ℕ) → n < u64_mod → parse_u64 (decimal n) ≡ some n
unfolding decimal
parse_u64-decimal n h =
    parse_u64_digits (decimal_fuel (suc n) n) n (decimal_nonempty n n)
      (parse_digits-decimal_fuel (suc n) n (omega arith) h)

decimal-injective : (m n : ℕ) → m < u64_mod → n < u64_mod → decimal m ≡ decimal n → m ≡ n
decimal-injective m n h k e =
    let same = sym (parse_u64-decimal m h) ∙ ap parse_u64 e ∙ parse_u64-decimal n k in cc same

append_cancel : (xs ys zs : Bytes) → xs ++ ys ≡ xs ++ zs → ys ≡ zs
append_cancel [] ys zs h = h
append_cancel (x ∷ xs) ys zs h = append_cancel xs ys zs (cc h)

-- Two generations below 2^64 of one journal write the same epoch text only when they are the same
-- generation.
pub epoch_value-injective :
    (epoch : JournalEpoch) (next : ℕ)
    → epoch.generation < u64_mod
    → next < u64_mod
    → epoch_value epoch ≡ epoch_value (record epoch { generation = next })
    → epoch.generation ≡ next
unfolding epoch_value
epoch_value-injective epoch next h k e =
    decimal-injective epoch.generation next h k
      (append_cancel (epoch.prefix ++ ascii ":") (decimal epoch.generation) (decimal next) e)
