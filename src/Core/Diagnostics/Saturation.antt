-- ===== src/Core/Diagnostics/Saturation.antt =====
-- sync_diagnostics.rs: what a phase's counters are after many measurements.
use react_native_surrealdb.Base.{
  ℕ, ◌+◌, ◌≤◌, ◌≡◌, List, [], ◌∷◌, length, min, saturating_add, arith,
}
use react_native_surrealdb.Core.Diagnostics.{Phase, clamp, record_phase}

abbrev pub record_all : Phase → List ℕ → Phase
record_all self [] = self
record_all self (elapsed ∷ samples) = record_all (record_phase self elapsed) samples

abbrev pub total : List ℕ → ℕ
total [] = 0
total (elapsed ∷ samples) = elapsed + total samples

abbrev pub max_u64 : ℕ
max_u64 = 18446744073709551615

saturating_add-min : (a b : ℕ) → saturating_add a b ≡ min (a + b) max_u64
saturating_add-min a b = ground arith

clamp-min : (elapsed : ℕ) → clamp elapsed ≡ min elapsed max_u64
clamp-min elapsed = ground arith

-- When the counters of a phase fit 64 bits and it records a list of measurements one after
-- another, its count and its nanoseconds are the exact sums, cut at 2^64 - 1.
pub record_all-min :
    (samples : List ℕ) (self : Phase)
    → self.count ≤ max_u64
    → self.ns ≤ max_u64
    → ((record_all self samples).count ≡ min (self.count + length samples) max_u64)
      × ((record_all self samples).ns ≡ min (self.ns + total samples) max_u64)
unfolding record_phase
record_all-min [] self c n = (omega arith, omega arith)
record_all-min (elapsed ∷ samples) self c n =
    let next = record_phase self elapsed in
    let count = saturating_add-min self.count 1 in
    let ns = saturating_add-min self.ns (clamp elapsed) in
    let one = clamp-min elapsed in
    let rest = record_all-min samples next (omega (arith, count)) (omega (arith, ns)) in
    (omega (arith, rest.0, count), omega (arith, rest.1, ns, one))
