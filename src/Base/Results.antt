-- ===== src/Base/Results.antt =====
-- Rust's Result, with `?` as the bind of a `do` block.
use mathlib.Core.Path.{◌≡◌, refl, subst}
use mathlib.Core.Logic.{◌↔◌}
use mathlib.Core.Bool.{Bool, true, false}
use mathlib.Core.Option.{Option, none, some}
use mathlib.Core.List.{List, [], ◌∷◌}
use react_native_surrealdb.Base.Lists.{All}
use react_native_surrealdb.Base.Tests.{if◌then◌else◌}

pub data Result {ℓ} (E : Type 0) (A : Type ℓ) : Type ℓ where
  ok : A → Result E A
  err : E → Result E A

-- `if test { return Err(e) }`.
abbrev pub fail_if : {E : Type 0} → Bool → E → Result E (Unit {0})
fail_if false e = ok tt
fail_if true e = err e

abbrev pub ok_or {ℓ} : {E : Type 0} {A : Type ℓ} → Option A → E → Result E A
ok_or none e = err e
ok_or (some a) e = ok a

-- The `?` operator: an error ends the function.
infixl 5 ◌>>=◌
abbrev pub ◌>>=◌ {ℓ κ} :
    {E : Type 0} {A : Type ℓ} {B : Type κ} → Result E A → (A → Result E B) → Result E B
err e >>= next = err e
ok value >>= next = next value

infixl 5 ◌>>◌
abbrev pub ◌>>◌ {ℓ} : {E : Type 0} {B : Type ℓ} → Result E (Unit {0}) → Result E B → Result E B
check >> rest = check >>= λ _. rest

-- `for x in xs { f(x)?; }`.
unfoldable pub try_for_each {ℓ} :
    {E : Type 0} {A : Type ℓ} → (A → Result E (Unit {0})) → List A → Result E (Unit {0})
try_for_each f [] = ok tt
try_for_each f (x ∷ xs) = f x >> try_for_each f xs

-- `for x in xs { f(&mut s, x)?; }`.
unfoldable pub try_fold {ℓ κ} :
    {E : Type 0} {S : Type ℓ} {A : Type κ} → (S → A → Result E S) → S → List A → Result E S
try_fold f s [] = ok s
try_fold f s (x ∷ xs) = f s x >>= λ s'. try_fold f s' xs

pub ok-injective {ℓ} :
    {E : Type 0} {A : Type ℓ} {a b : A} → ◌≡◌ {A = Result E A} (ok a) (ok b) → a ≡ b
ok-injective e = cc

pub err≢ok {ℓ} : {E : Type 0} {A : Type ℓ} {e : E} {a : A} → ◌≡◌ {A = Result E A} (err e) (ok a) → ⊥
err≢ok h = cc

pub fail_if_iff : {E : Type 0} (b : Bool) (e : E) → (fail_if b e ≡ ok tt) ↔ (b ≡ false)
fail_if_iff true e = (λ h. cc, λ h. cc)
fail_if_iff false e = (λ _. refl, λ _. refl)

module _ {κ} {E : Type 0} {B : Type κ} {b : B} where
  -- A function that returned a value passed each `?` on its way.
  pub >>=-eq-ok {ℓ} :
      {A : Type ℓ} (m : Result E A) (next : A → Result E B)
      → (m >>= next) ≡ ok b
      → (a : A) × (m ≡ ok a) × (next a ≡ ok b)
  >>=-eq-ok (err e) next h = cc
  >>=-eq-ok (ok value) next h = (value, refl, h)

  pub >>-eq-ok :
      (check : Result E (Unit {0})) (rest : Result E B)
      → (check >> rest) ≡ ok b
      → (check ≡ ok tt) × (rest ≡ ok b)
  >>-eq-ok (err e) rest h = cc
  >>-eq-ok (ok a) rest h = (refl, h)

module _ {ℓ} {E : Type 0} {A : Type ℓ} (f : A → Result E (Unit {0})) where
  -- The loop succeeds exactly when every step does.
  pub try_for_each-All : (xs : List A) → (try_for_each f xs ≡ ok tt) ↔ All (λ x. f x ≡ ok tt) xs
  unfolding try_for_each
  try_for_each-All [] = (λ _. tt, λ _. refl)
  try_for_each-All (x ∷ xs) = (
    λ h. let (p, q) = >>-eq-ok (f x) (try_for_each f xs) h in (p, (try_for_each-All xs).0 q),
    λ (p, q). rw p ((try_for_each-All xs).1 q),
  )

-- What a result satisfies when it is a success; a rule for each way to build one.
pub data Ensures {ℓ κ} {E : Type 0} {A : Type ℓ} (P : A → Type κ) : Result E A → Type (ℓ ⊔ κ) where
  holds : {a : A} → P a → Ensures P (ok a)
  fails : {e : E} → Ensures P (err e)

module _ {ℓ κ} {E : Type 0} {B : Type ℓ} {P : B → Type κ} where
  pub Ensures-bind {μ} :
      {A : Type μ} (m : Result E A) {f : A → Result E B}
      → ((a : A) → m ≡ ok a → Ensures P (f a))
      → Ensures P (m >>= f)
  Ensures-bind (ok a) h = h a refl
  Ensures-bind (err e) h = fails

  pub Ensures-seq :
      (m : Result E (Unit {0})) {k : Result E B} → (m ≡ ok tt → Ensures P k) → Ensures P (m >> k)
  Ensures-seq (ok a) h = h refl
  Ensures-seq (err e) h = fails

  pub Ensures-if :
      (b : Bool) {x y : Result E B}
      → (b ≡ true → Ensures P x)
      → (b ≡ false → Ensures P y)
      → Ensures P (if b then x else y)
  Ensures-if true h k = h refl
  Ensures-if false h k = k refl

  pub ensures_ok : {r : Result E B} → Ensures P r → {b : B} → r ≡ ok b → P b
  ensures_ok (holds {a} p) {b} e = subst P (ok-injective e) p
  ensures_ok fails e = absurd (err≢ok e)

  pub Ensures-map {μ} :
      {Q : B → Type μ} {r : Result E B} → Ensures P r → ((b : B) → P b → Q b) → Ensures Q r
  Ensures-map (holds p) f = holds (f _ p)
  Ensures-map fails f = fails

  pub Ensures-of : (r : Result E B) → ((b : B) → r ≡ ok b → P b) → Ensures P r
  Ensures-of (ok b) h = holds (h b refl)
  Ensures-of (err e) h = fails
