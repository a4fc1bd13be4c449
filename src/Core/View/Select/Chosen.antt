-- ===== src/Core/View/Select/Chosen.antt =====
-- sync_view.rs: the rows of counts and pages, by what a selector and a cursor mean.
use react_native_surrealdb.Base.{
  ℕ, ◌+◌, ◌≡◌, ◌↔◌, ◌⊎◌, refl, sym, ap, subst, take, Bool, true, false, not, Option, none, some,
  List, [], ◌∷◌, keep, length, if◌then◌else◌, Ensures, Ensures-map, Bool-cases, inl, inr, ltb,
  nat_eq, ==-refl, Option-cases, arith,
}
use Prim.Native.Nat.{Ordering}
use react_native_surrealdb.Base.Bytes.{
  Bytes, bytes as ascii, bytes_eq, compare_bytes, compare_bytes_flip,
}
use react_native_surrealdb.Base.BTreeMap.{BTreeMap, get, contains_key}
use react_native_surrealdb.Core.Json.{Json, members}
use react_native_surrealdb.Core.View.{Selector, Selectors, Work, found_is, same_scalar}
use react_native_surrealdb.Core.View.Select.{count_matches, at_most, select}
use react_native_surrealdb.Core.View.Select.Paging.{
  value_at, selects, selects_all, on_page, count_matches-keep, select-keep,
}

-- The value at a path. A path goes into objects only, and into none that is tagged.
abbrev pub lookup : List Bytes → Json → Option Json
lookup [] value = some value
lookup (key ∷ path) (Json.object fields) =
    if contains_key (ascii "$surreal") (members fields)
    then none
    else elim (get key (members fields)) [ none ↦ none | some next ↦ lookup path next ]
lookup (key ∷ path) _ = none

-- The values that a selector compares with.
abbrev pub IsScalar : Json → Type 0
IsScalar Json.null = Unit
IsScalar (Json.bool b) = Unit
IsScalar (Json.string text) = Unit
IsScalar _ = ⊥

-- What a selector asks of a row.
unfoldable mutual
  pub Selects : Selector → Json → Type 0
  Selects Selector.everything value = Unit
  Selects (Selector.eq path wanted) value = IsScalar wanted × (lookup path value ≡ some wanted)
  Selects (Selector.and terms) value = SelectsAll terms value

  pub SelectsAll : Selectors → Json → Type 0
  SelectsAll Selectors.no_term value = Unit
  SelectsAll (Selectors.term selector terms) value = Selects selector value × SelectsAll terms value

-- A key that is greater than the cursor's, byte by byte.
abbrev pub IsBehind : Option Bytes → Bytes → Type 0
IsBehind none id = Unit
IsBehind (some last_id) id = compare_bytes last_id id ≡ Ordering.lt

abbrev pub OnPage : Selector → Option Bytes → Bytes × Json → Type 0
OnPage selector after row = IsBehind after row.0 × Selects selector row.1

-- The elements that have a property, in their order.
abbrev pub Filtered {ℓ} : {A : Type ℓ} → (A → Type 0) → List A → List A → Type ℓ
Filtered P [] chosen = chosen ≡ []
Filtered {A = A} P (x ∷ xs) chosen =
    (rest : List A) × Filtered P xs rest × ((P x × (chosen ≡ x ∷ rest)) ⊎ (¬ P x × (chosen ≡ rest)))

keep-Filtered {ℓ} :
    {A : Type ℓ} (P : A → Type 0) (p : A → Bool) (xs : List A)
    → ((x : A) → (p x ≡ true) ↔ P x)
    → Filtered P xs (keep p xs)
keep-Filtered P p [] h = refl
keep-Filtered P p (x ∷ xs) h = elim (Bool-cases (p x)) [
  | inl t ↦ rw t (keep p xs, keep-Filtered P p xs h, inl ((h x).0 t, refl))
  | inr f ↦
      rw f
        (keep p xs, keep-Filtered P p xs h, inr (λ q. absurd (ground (arith, f, (h x).1 q)), refl))
]

value_at-lookup : (path : List Bytes) (value : Json) → value_at path value ≡ lookup path value
value_at-lookup [] value = refl
value_at-lookup (key ∷ path) (Json.object fields) =
    elim (Bool-cases (contains_key (ascii "$surreal") (members fields))) [
      | inl t ↦ rw t refl
      | inr f ↦ elim (Option-cases (get key (members fields))) [
        | inl n ↦ rw (f, n) refl
        | inr (next, s) ↦ rw (f, s) (value_at-lookup path next)
      ]
    ]
value_at-lookup (key ∷ path) Json.null = refl
value_at-lookup (key ∷ path) (Json.bool b) = refl
value_at-lookup (key ∷ path) (Json.number text) = refl
value_at-lookup (key ∷ path) (Json.string text) = refl
value_at-lookup (key ∷ path) (Json.array values) = refl

same_scalar-equal :
    (value wanted : Json) → same_scalar value wanted ≡ true → IsScalar wanted × (value ≡ wanted)
same_scalar-equal Json.null Json.null h = (tt, refl)
same_scalar-equal (Json.bool true) (Json.bool b) h = (tt, ap Json.bool (sym h))
same_scalar-equal (Json.bool false) (Json.bool b) h = (tt, ap Json.bool (ground (arith, h)))
same_scalar-equal (Json.string text) (Json.string other) h =
    (tt, ap Json.string (ground (arith, h)))
same_scalar-equal _ _ h = absurd (cc h)

same_scalar_refl : (value : Json) → IsScalar value → same_scalar value value ≡ true
same_scalar_refl Json.null h = refl
same_scalar_refl (Json.bool true) h = refl
same_scalar_refl (Json.bool false) h = refl
same_scalar_refl (Json.number text) h = absurd h
same_scalar_refl (Json.string text) h = ==-refl text
same_scalar_refl (Json.array values) h = absurd h
same_scalar_refl (Json.object fields) h = absurd h

found_is-lookup :
    (wanted : Json) (o : Option Json)
    → (found_is wanted o ≡ true) ↔ (IsScalar wanted × (o ≡ some wanted))
found_is-lookup wanted none = (λ h. absurd (cc h), λ h. absurd (cc (h.1)))
found_is-lookup wanted (some value) = (
  λ h. let (scalar, same) = same_scalar-equal value wanted h in (scalar, ap some same),
  λ h.
      subst (λ v. same_scalar v wanted ≡ true) (sym (some_injective h.1))
        (same_scalar_refl wanted h.0),
)
  where
    some_injective : {a b : Json} → some a ≡ some b → a ≡ b
    some_injective h = cc

mutual
  unfolding selects Selects

  selects-Selects :
      (selector : Selector) (value : Json)
      → (selects selector value ≡ true) ↔ Selects selector value
  selects-Selects Selector.everything value = (λ h. tt, λ h. refl)
  selects-Selects (Selector.eq path wanted) value =
      subst
        (λ o. (found_is wanted o ≡ true) ↔ (IsScalar wanted × (lookup path value ≡ some wanted)))
        (sym (value_at-lookup path value)) (found_is-lookup wanted (lookup path value))
  selects-Selects (Selector.and terms) value = selects_all-SelectsAll terms value

  selects_all-SelectsAll :
      (terms : Selectors) (value : Json) → (selects_all terms value ≡ true) ↔ SelectsAll terms value
  selects_all-SelectsAll Selectors.no_term value = (λ h. tt, λ h. refl)
  selects_all-SelectsAll (Selectors.term selector terms) value =
      let one = selects-Selects selector value in
      let rest = selects_all-SelectsAll terms value in
      (
        λ h. (one.0 (ground (arith, h)), rest.0 (ground (arith, h))),
        λ h. let a = one.1 h.0 in let b = rest.1 h.1 in ground (arith, a, b),
      )

not-at_most :
    (id : Bytes) (after : Option Bytes) → (not (at_most id after) ≡ true) ↔ IsBehind after id
not-at_most id none = (λ h. tt, λ h. refl)
not-at_most id (some last_id) =
    let flip = compare_bytes_flip id last_id in
    (λ h. ground (arith, flip, h), λ h. ground (arith, flip, h))

on_page-OnPage :
    (selector : Selector) (after : Option Bytes) (row : Bytes × Json)
    → (on_page selector after row ≡ true) ↔ OnPage selector after row
on_page-OnPage selector after row =
    let side = not-at_most row.0 after in
    let asked = selects-Selects selector row.1 in
    (
      λ h. (side.0 (ground (arith, h)), asked.0 (ground (arith, h))),
      λ h. let a = side.1 h.0 in let b = asked.1 h.1 in ground (arith, a, b),
    )

-- When rows are counted within the budget, the count grows by the number of rows that the selector
-- selects: a row satisfies an equation when its value at the path, looked up in objects that are
-- not tagged, is the null, boolean or string that was asked for.
pub count_matches-Chosen :
    (selector : Selector) (rows : BTreeMap Json) (n : ℕ) (work : Work)
    → Ensures
        (λ r.
          (chosen : BTreeMap Json) × Filtered (λ row. Selects selector row.1) rows chosen
          × (r.0 ≡ n + length chosen))
        (count_matches selector rows n work)
count_matches-Chosen selector rows n work =
    Ensures-map (count_matches-keep selector rows n work) λ r h. (
      _,
      keep-Filtered (λ row. Selects selector row.1) (λ row. selects selector row.1) rows
          (λ row. selects-Selects selector row.1),
      h,
    )

-- When a page is selected within the budget, it has the first rows, up to its limit and in the
-- order in which they stand, of those that the selector selects and whose key is greater than the
-- cursor's, and it has a next page exactly when there are more of them.
pub select-Chosen :
    (selector : Selector) (after : Option Bytes) (rows : BTreeMap Json) (limit : ℕ) (work : Work)
    → Ensures
        (λ r.
          (chosen : BTreeMap Json) × Filtered (OnPage selector after) rows chosen
          × (r.0 ≡ take limit chosen)
          × (r.1 ≡ ltb limit (length chosen)))
        (select selector after rows limit work)
select-Chosen selector after rows limit work =
    Ensures-map (select-keep selector after rows limit work) λ r h. (
      _,
      keep-Filtered (OnPage selector after) (on_page selector after) rows
          (on_page-OnPage selector after),
      h.0,
      h.1,
    )
