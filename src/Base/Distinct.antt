-- ===== src/Base/Distinct.antt =====
-- Lists without repetition, as the code tests for them: by a set of the elements seen so far.
use mathlib.Core.Logic.Or
use mathlib.Core.HLevel.{⊥_prop}
use mathlib.Core.List.{Mem, Nodup, Nodup-cons, Nodup-nil, mem-cons, not-mem-nil, mem-cons_self}
use react_native_surrealdb.Base.Tests.{DecEq}
use react_native_surrealdb.Base.Lists.{contains, not-contains}
use mathlib.Core.Path.{◌≡◌, subst}
use mathlib.Core.Logic.{◌↔◌}
use mathlib.Core.Bool.{false}
use mathlib.Core.List.{List, [], ◌∷◌, ◌++◌}

module _ {ℓ} {A : Type ℓ} where
  -- No element of the one list stands in the other.
  abbrev pub Apart : List A → List A → Type ℓ
  Apart xs ys = (a : A) → Mem a xs → ¬ Mem a ys

  -- The set after the elements of a list have joined it.
  abbrev pub add_seen : List A → List A → List A
  add_seen seen [] = seen
  add_seen seen (x ∷ xs) = add_seen (x ∷ seen) xs

  module _ ⦃d : DecEq A⦄ where
    -- Each element passes the test against those before it.
    abbrev pub Fresh : List A → List A → Type 0
    Fresh seen [] = Unit
    Fresh seen (x ∷ xs) = (contains x seen ≡ false) × Fresh (x ∷ seen) xs

    pub Fresh-iff : (seen xs : List A) → Fresh seen xs ↔ (Nodup xs × Apart xs seen)
    Fresh-iff seen [] = (λ _. (Nodup-nil, λ a m _. not-mem-nil m), λ _. tt)
    Fresh-iff seen (x ∷ xs) = (
      λ (h, rest).
          let r = (Fresh-iff (x ∷ seen) xs).0 rest in
          (
            Nodup-cons.1 (λ m. r.1 x m mem-cons_self, r.0),
            λ a m n.
                Or.elim ⊥_prop (mem-cons.0 m)
                  (λ e. (not-contains x seen).0 h (subst (λ y. Mem y seen) e n))
                  (λ later. r.1 a later (mem-cons.1 (Or.inr n))),
          ),
      λ (nodup, apart).
          let r = Nodup-cons.0 nodup in
          (
            (not-contains x seen).1 (apart x mem-cons_self),
            (Fresh-iff (x ∷ seen) xs).1 (
              r.1,
              λ a m n.
                  Or.elim ⊥_prop (mem-cons.0 n) (λ e. r.0 (subst (λ y. Mem y xs) e m))
                    (apart a (mem-cons.1 (Or.inr m))),
            ),
          ),
    )

    pub Fresh-Nodup : (xs : List A) → Fresh [] xs ↔ Nodup xs
    Fresh-Nodup xs =
        (λ h. ((Fresh-iff [] xs).0 h).0, λ n. (Fresh-iff [] xs).1 (n, λ a _ m. not-mem-nil m))

    pub Fresh-append :
        (seen xs ys : List A)
        → Fresh seen (xs ++ ys) ↔ (Fresh seen xs × Fresh (add_seen seen xs) ys)
    Fresh-append seen [] ys = (λ h. (tt, h), λ h. h.1)
    Fresh-append seen (x ∷ xs) ys = (
      λ h. let r = (Fresh-append (x ∷ seen) xs ys).0 h.1 in ((h.0, r.0), r.1),
      λ h. (h.0.0, (Fresh-append (x ∷ seen) xs ys).1 (h.0.1, h.1)),
    )
