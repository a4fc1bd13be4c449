-- ===== src/Base/Bytes.antt =====
-- Rust strings as their UTF-8 bytes, in the byte-wise order of `Ord for str`.
use Prim.Native.Char.{code}
use Prim.Native.Nat.{ℕ, zero, suc, ◌+◌, ◌/◌, ◌%◌, compare, Ordering}
use Prim.Native.String.{String}
use mathlib.Core.Path.{◌≡◌, refl}
use mathlib.Core.List.{List, [], ◌∷◌, ◌++◌}
use native.Mathlib.Omega.{arith}
use native.Mathlib.Decide.{ℕ_discrete}
use react_native_surrealdb.Base.Tests.{DecEq, ltb, if◌then◌else◌}

abbrev pub Bytes : Type 0
Bytes = List ℕ

pub Bytes-discrete : Discrete Bytes
Bytes-discrete = hlevel ℕ_discrete

instance abbrev pub bytes_eq : DecEq Bytes
bytes_eq = record { discrete = Bytes-discrete }

-- An ASCII literal.
abbrev pub bytes : String → Bytes
bytes String.[] = []
bytes (String.◌∷◌ c s) = code c ∷ bytes s

-- `Ordering::then`.
abbrev pub then_with : Ordering → Ordering → Ordering
then_with Ordering.lt o = Ordering.lt
then_with Ordering.eq o = o
then_with Ordering.gt o = Ordering.gt

abbrev pub reverse_ordering : Ordering → Ordering
reverse_ordering Ordering.lt = Ordering.gt
reverse_ordering Ordering.eq = Ordering.eq
reverse_ordering Ordering.gt = Ordering.lt

unfoldable pub compare_bytes : Bytes → Bytes → Ordering
compare_bytes [] [] = Ordering.eq
compare_bytes [] (y ∷ ys) = Ordering.lt
compare_bytes (x ∷ xs) [] = Ordering.gt
compare_bytes (x ∷ xs) (y ∷ ys) = then_with (compare x y) (compare_bytes xs ys)

pub compare_bytes_eq : (a b : Bytes) → compare_bytes a b ≡ Ordering.eq → a ≡ b
unfolding compare_bytes
compare_bytes_eq [] [] h = refl
compare_bytes_eq [] (y ∷ ys) h = ground arith
compare_bytes_eq (x ∷ xs) [] h = ground arith
compare_bytes_eq (x ∷ xs) (y ∷ ys) h = ground (arith, compare_bytes_eq xs ys)

pub compare_bytes_refl : (a : Bytes) → compare_bytes a a ≡ Ordering.eq
unfolding compare_bytes
compare_bytes_refl [] = refl
compare_bytes_refl (x ∷ xs) = ground (arith, compare_bytes_refl xs)

pub compare_bytes_flip : (a b : Bytes) → compare_bytes b a ≡ reverse_ordering (compare_bytes a b)
unfolding compare_bytes
compare_bytes_flip [] [] = refl
compare_bytes_flip [] (y ∷ ys) = refl
compare_bytes_flip (x ∷ xs) [] = refl
compare_bytes_flip (x ∷ xs) (y ∷ ys) = ground (arith, compare_bytes_flip xs ys)

pub compare_bytes_trans :
    (a b c : Bytes)
    → compare_bytes a b ≡ Ordering.lt
    → compare_bytes b c ≡ Ordering.lt
    → compare_bytes a c ≡ Ordering.lt
unfolding compare_bytes
compare_bytes_trans [] b [] p q = ground (arith, compare_bytes_flip b [])
compare_bytes_trans [] b (z ∷ zs) p q = refl
compare_bytes_trans (x ∷ xs) [] c p q = cc
compare_bytes_trans (x ∷ xs) (y ∷ ys) [] p q = cc
compare_bytes_trans (x ∷ xs) (y ∷ ys) (z ∷ zs) p q = ground (arith, compare_bytes_trans xs ys zs)

-- `Display` of an unsigned number: fuel above the number is always enough.
unfoldable pub decimal_fuel : ℕ → ℕ → Bytes
decimal_fuel zero n = []
decimal_fuel (suc fuel) n =
    let rest = decimal_fuel fuel (n / 10) ++ (48 + n % 10) ∷ [] in
    if ltb n 10 then (48 + n) ∷ [] else rest

unfoldable pub decimal : ℕ → Bytes
unfolding decimal_fuel
decimal n = decimal_fuel (suc n) n

decimal_204 : decimal 204 ≡ bytes "204"
unfolding decimal
decimal_204 = refl

-- The bytes of several writes.
abbrev pub concat : List Bytes → Bytes
concat [] = []
concat (input ∷ inputs) = input ++ concat inputs
