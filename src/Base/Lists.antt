-- ===== src/Base/Lists.antt =====
-- Lists measured by native numbers, tests over lists, and predicates on all elements.
use Prim.Native.Nat.{ℕ, zero, suc, ◌+◌}
use mathlib.Core.Path.{◌≡◌, refl, sym, ap}
use mathlib.Core.Logic.{◌↔◌, inl, inr}
use mathlib.Core.Logic.Or
use mathlib.Core.Bool.{Bool, true, false, ◌&&◌, ◌||◌}
use mathlib.Core.Option.{Option, none, some}
use mathlib.Core.List.{
  List, [], ◌∷◌, ◌++◌, map, Mem, mem-cons, not-mem-nil, mem-cons_self, mem-append,
}
use native.Mathlib.Omega.{arith}
use react_native_surrealdb.Base.Tests.{DecEq, ◌==◌, if◌then◌else◌, Bool-cases}

module _ {ℓ} {A : Type ℓ} where
  abbrev pub length : List A → ℕ
  length [] = 0
  length (x ∷ xs) = suc (length xs)

  abbrev pub is_empty : List A → Bool
  is_empty [] = true
  is_empty (x ∷ xs) = false

  pub length-append : (xs ys : List A) → length (xs ++ ys) ≡ length xs + length ys
  length-append [] ys = omega arith
  length-append (x ∷ xs) ys = omega (arith, length-append xs ys)

  abbrev pub head : List A → Option A
  head [] = none
  head (x ∷ xs) = some x

  abbrev pub last : List A → Option A
  last [] = none
  last (x ∷ []) = some x
  last (x ∷ y ∷ xs) = last (y ∷ xs)

  -- Taken apart at an index; `none` is a range past the end.
  abbrev pub split_at : ℕ → List A → Option (List A × List A)
  split_at zero xs = some ([], xs)
  split_at (suc n) [] = none
  split_at (suc n) (x ∷ xs) = elim (split_at n xs) [
    | none ↦ none
    | some (front, back) ↦ some (x ∷ front, back)
  ]

  abbrev pub take : ℕ → List A → List A
  take n [] = []
  take zero (x ∷ xs) = []
  take (suc n) (x ∷ xs) = x ∷ take n xs

  -- All but the last element.
  abbrev pub init : List A → List A
  init [] = []
  init (x ∷ []) = []
  init (x ∷ y ∷ xs) = x ∷ init (y ∷ xs)

  abbrev pub any : (A → Bool) → List A → Bool
  any p [] = false
  any p (x ∷ xs) = p x || any p xs

  abbrev pub all : (A → Bool) → List A → Bool
  all p [] = true
  all p (x ∷ xs) = p x && all p xs

  abbrev pub find : (A → Bool) → List A → Option A
  find p [] = none
  find p (x ∷ xs) = if p x then some x else find p xs

  -- `position` and then `remove`: the first element that passes, and the others in order.
  abbrev pub extract_cons : A → Option (A × List A) → Option (A × List A)
  extract_cons x none = none
  extract_cons x (some (y, rest)) = some (y, x ∷ rest)

  abbrev pub extract : (A → Bool) → List A → Option (A × List A)
  extract p [] = none
  extract p (x ∷ xs) = if p x then some (x, xs) else extract_cons x (extract p xs)

  -- `position` and then an assignment at that index.
  abbrev pub update_first : (A → Bool) → (A → A) → List A → List A
  update_first p f [] = []
  update_first p f (x ∷ xs) = if p x then f x ∷ xs else x ∷ update_first p f xs

  abbrev pub keep : (A → Bool) → List A → List A
  keep p [] = []
  keep p (x ∷ xs) = if p x then x ∷ keep p xs else keep p xs

  abbrev pub All {κ} : (A → Type κ) → List A → Type κ
  All P [] = Unit
  All P (x ∷ xs) = P x × All P xs

  unfoldable pub contains : ⦃d : DecEq A⦄ → A → List A → Bool
  contains a [] = false
  contains a (x ∷ xs) = a == x || contains a xs

  -- `contains` decides membership.
  pub contains-Mem : ⦃d : DecEq A⦄ (a : A) (xs : List A) → (contains a xs ≡ true) ↔ Mem a xs
  unfolding contains
  contains-Mem ⦃d⦄ a [] = (λ h. cc, λ m. absurd (not-mem-nil m))
  contains-Mem ⦃d⦄ a (x ∷ xs) = elim (d.discrete a x) [
    | yes p ↦ (λ _. mem-cons.1 (Or.inl p), λ _. ground arith)
    | no n ↦ (
      λ h. mem-cons.1 (Or.inr ((contains-Mem a xs).0 (ground arith))),
      λ m.
          let later : contains a xs ≡ true =
            Or.elim (hlevel) (mem-cons.0 m) (λ e. absurd (n e)) (contains-Mem a xs).1 in
          ground arith,
    )
  ]

  pub not-contains : ⦃d : DecEq A⦄ (a : A) (xs : List A) → (contains a xs ≡ false) ↔ (¬ Mem a xs)
  not-contains a xs = (
    λ h m. let found = (contains-Mem a xs).1 m in cc,
    λ n. elim (Bool-cases (contains a xs)) [
      | inl h ↦ absurd (n ((contains-Mem a xs).0 h))
      | inr h ↦ h
    ],
  )

module _ {ℓ} {A : Type ℓ} where
  pub All-map {κ μ} :
      (P : A → Type κ) (Q : A → Type μ) (xs : List A) → ((a : A) → P a → Q a) → All P xs → All Q xs
  All-map P Q [] f h = tt
  All-map P Q (x ∷ xs) f h = (f x h.0, All-map P Q xs f h.1)

  pub All-append {κ} : (P : A → Type κ) (xs ys : List A) → All P (xs ++ ys) ↔ (All P xs × All P ys)
  All-append P [] ys = (λ h. (tt, h), λ h. h.1)
  All-append P (x ∷ xs) ys = (
    λ h. let r = (All-append P xs ys).0 h.1 in ((h.0, r.0), r.1),
    λ h. (h.0.0, (All-append P xs ys).1 (h.0.1, h.1)),
  )

  pub any-All : (p : A → Bool) (xs : List A) → (any p xs ≡ false) ↔ All (λ a. p a ≡ false) xs
  any-All p [] = (λ _. tt, λ _. refl)
  any-All p (x ∷ xs) = (
    λ h. (ground arith, (any-All p xs).0 (ground arith)),
    λ h. let rest = (any-All p xs).1 h.1 in ground arith,
  )

  pub All-of_mem {κ} : (P : A → Type κ) (xs : List A) → ((a : A) → Mem a xs → P a) → All P xs
  All-of_mem P [] h = tt
  All-of_mem P (x ∷ xs) h =
      (h x mem-cons_self, All-of_mem P xs (λ a m. h a (mem-cons.1 (Or.inr m))))

-- What holds of the value of an option, if it has one.
abbrev pub IfSome {ℓ κ} : {A : Type ℓ} → (A → Type κ) → Option A → Type κ
IfSome P none = Unit
IfSome P (some a) = P a

pub IfSome-map {ℓ κ μ} :
    {A : Type ℓ} {P : A → Type κ} {Q : A → Type μ} (o : Option A)
    → IfSome P o
    → ((a : A) → P a → Q a)
    → IfSome Q o
IfSome-map none h f = tt
IfSome-map (some a) h f = f a h

-- What a chain of two optional steps gives.
pub IfSome-bind {ℓ κ μ} :
    {A : Type ℓ} {B : Type κ} (P : B → Type μ) (o : Option A) (f : A → Option B)
    → ((a : A) → o ≡ some a → IfSome P (f a))
    → IfSome P (elim o [ none ↦ none | some a ↦ f a ])
IfSome-bind P none f h = tt
IfSome-bind P (some a) f h = h a refl

-- A test for an element with a given key.
pub any-Mem {ℓ κ} :
    {A : Type ℓ} {B : Type κ} ⦃d : DecEq B⦄ (f : A → B) (b : B) (xs : List A)
    → (any (λ a. f a == b) xs ≡ true) ↔ Mem b (map f xs)
any-Mem f b [] = (λ h. cc, λ m. absurd (not-mem-nil m))
any-Mem ⦃d⦄ f b (x ∷ xs) = elim (d.discrete (f x) b) [
  | yes p ↦ (λ _. mem-cons.1 (Or.inl (sym p)), λ _. ground arith)
  | no n ↦ (
    λ h. mem-cons.1 (Or.inr ((any-Mem f b xs).0 (ground arith))),
    λ m.
        let later : any (λ a. f a == b) xs ≡ true =
          Or.elim (hlevel) (mem-cons.0 m) (λ e. absurd (n (sym e))) (any-Mem f b xs).1 in
        ground arith,
  )
]

-- The same over two lists.
pub any-Mem-append {ℓ κ μ} :
    {A : Type ℓ} {C : Type κ} {B : Type μ} ⦃d : DecEq B⦄ (f : A → B) (g : C → B) (b : B)
    (xs : List A) (ys : List C)
    → ((any (λ a. f a == b) xs || any (λ c. g c == b) ys) ≡ true) ↔ Mem b (map f xs ++ map g ys)
any-Mem-append f g b xs ys = (
  λ h. elim (Bool-cases (any (λ a. f a == b) xs)) [
    | inl p ↦ mem-append.1 (Or.inl ((any-Mem f b xs).0 p))
    | inr p ↦ mem-append.1 (Or.inr ((any-Mem g b ys).0 (ground arith)))
  ],
  λ m.
      Or.elim (hlevel) (mem-append.0 m) (λ l. let p = (any-Mem f b xs).1 l in ground arith)
        (λ r. let p = (any-Mem g b ys).1 r in ground arith),
)

pub init-last {ℓ} : {A : Type ℓ} (xs : List A) {a : A} → last xs ≡ some a → xs ≡ init xs ++ a ∷ []
init-last [] h = cc
init-last (x ∷ []) h = cc
init-last (x ∷ y ∷ xs) h = ap (◌∷◌ x) (init-last (y ∷ xs) h)

pub last-append {ℓ} : {A : Type ℓ} (xs : List A) (a : A) → last (xs ++ a ∷ []) ≡ some a
last-append [] a = refl
last-append (x ∷ []) a = refl
last-append (x ∷ y ∷ xs) a = last-append (y ∷ xs) a

pub init-append {ℓ} : {A : Type ℓ} (xs : List A) (a : A) → init (xs ++ a ∷ []) ≡ xs
init-append [] a = refl
init-append (x ∷ []) a = refl
init-append (x ∷ y ∷ xs) a = ap (◌∷◌ x) (init-append (y ∷ xs) a)
