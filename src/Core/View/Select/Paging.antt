-- ===== src/Core/View/Select/Paging.antt =====
-- sync_view.rs: which rows are on a page.
use react_native_surrealdb.Base.{
  ℕ, zero, suc, ◌+◌, ◌≡◌, refl, ap, ◌∙◌, subst, take, Bool, true, false, not, ◌&&◌, Option, none,
  some, List, [], ◌∷◌, keep, length, if◌then◌else◌, Result, ok, Ensures, Bool-cases, inl, inr, ltb,
  fail_if, Ensures-seq, Ensures-bind, Ensures-map, Ensures-if, holds, ensures_ok, arith,
}
use react_native_surrealdb.Base.Bytes.{Bytes}
use react_native_surrealdb.Base.BTreeMap.{BTreeMap}
use react_native_surrealdb.Core.{NativeSyncError}
use react_native_surrealdb.Core.Json.{Json}
use react_native_surrealdb.Core.View.{
  Selector, Selectors, Work, max_nodes, visit, is_tagged, child, field, found_is, matches,
  matches_all,
}
use react_native_surrealdb.Core.View.Select.{
  count_matches, at_most, is_selected, select_next, select,
}

-- The value at a path, without the charge.
abbrev pub value_at : List Bytes → Json → Option Json
value_at [] value = some value
value_at (key ∷ path) value =
    if is_tagged value
    then none
    else elim (child key value) [ none ↦ none | some next ↦ value_at path next ]

-- What a selector asks for, without the charge.
unfoldable mutual
  pub selects : Selector → Json → Bool
  selects Selector.everything value = true
  selects (Selector.eq path wanted) value = found_is wanted (value_at path value)
  selects (Selector.and terms) value = selects_all terms value

  pub selects_all : Selectors → Json → Bool
  selects_all Selectors.no_term value = true
  selects_all (Selectors.term selector terms) value =
      selects selector value && selects_all terms value

field-value_at :
    (path : List Bytes) (value : Json) (work : Work)
    → Ensures (λ r. r.0 ≡ value_at path value) (field path value work)
unfolding field
field-value_at [] value work = holds refl
field-value_at (key ∷ path) value work = elim (Bool-cases (is_tagged value)) [
  | inl p ↦ rw p (holds refl)
  | inr p ↦ rw p (
      Ensures-seq
        (fail_if (ltb max_nodes (work.value_nodes_visited + 1))
          NativeSyncError.read_output_too_large)
        λ _. into (λ found next. field-value_at path found next) (child key value))
]
  where
    into :
        ((found : Json) (next : Work)
          → Ensures (λ r. r.0 ≡ value_at path found) (field path found next))
        → (next : Option Json)
        → Ensures
            (λ r. r.0 ≡ elim next [ none ↦ none | some found ↦ value_at path found ])
            (elim next as (λ _. Result NativeSyncError (Option Json × Work)) [
              | none ↦ ok (none, record work { value_nodes_visited = work.value_nodes_visited + 1 })
              | some found ↦
                  field path found
                    (record work { value_nodes_visited = work.value_nodes_visited + 1 })
            ])
    into ih none = holds refl
    into ih (some found) =
        ih found (record work { value_nodes_visited = work.value_nodes_visited + 1 })

mutual
  unfolding matches selects

  matches-selects :
      (selector : Selector) (value : Json) (work : Work)
      → Ensures (λ r. r.0 ≡ selects selector value) (matches selector value work)
  matches-selects Selector.everything value work = holds refl
  matches-selects (Selector.eq path wanted) value work =
      Ensures-bind (field path value work)
        λ got e. holds (ap (found_is wanted) (ensures_ok (field-value_at path value work) e))
  matches-selects (Selector.and terms) value work = matches_all-selects_all terms value work

  matches_all-selects_all :
      (terms : Selectors) (value : Json) (work : Work)
      → Ensures (λ r. r.0 ≡ selects_all terms value) (matches_all terms value work)
  matches_all-selects_all Selectors.no_term value work = holds refl
  matches_all-selects_all (Selectors.term selector terms) value work =
      Ensures-bind (matches selector value work) λ got e.
        let same = ensures_ok (matches-selects selector value work) e in
        Ensures-if (got.0)
          (λ t.
            Ensures-map (matches_all-selects_all terms value got.1)
              λ r h. ground (arith, same, t, h))
          (λ f. holds (ground (arith, same, f)))

-- When rows are counted within the budget, the count grows by the number of rows that the selector
-- asks for.
pub count_matches-keep :
    (selector : Selector) (rows : BTreeMap Json) (n : ℕ) (work : Work)
    → Ensures
        (λ r. r.0 ≡ n + length (keep (λ e. selects selector e.1) rows))
        (count_matches selector rows n work)
unfolding count_matches
count_matches-keep selector [] n work = holds (omega arith)
count_matches-keep selector ((id, value) ∷ rows) n work =
    Ensures-bind (visit false work) λ visited _.
      Ensures-bind (matches selector value visited) λ found e.
        let same = ensures_ok (matches-selects selector value visited) e in
        Ensures-map (count_matches-keep selector rows (if found.0 then n + 1 else n) found.1) λ r h.
          h
          ∙ counted (selects selector value) found.0 n (id, value)
              (keep (λ e. selects selector e.1) rows) same
  where
    counted :
        (b found : Bool) (n : ℕ) (row : Bytes × Json) (chosen : BTreeMap Json)
        → found ≡ b
        → (if found then n + 1 else n) + length chosen
          ≡ n + length (if b then row ∷ chosen else chosen)
    counted b found n row chosen h = ground (arith, h)

-- The rows of a page and of all later ones.
abbrev pub on_page : Selector → Option Bytes → Bytes × Json → Bool
on_page selector after row = not (at_most row.0 after) && selects selector row.1

is_selected-on_page :
    (selector : Selector) (after : Option Bytes) (id : Bytes) (value : Json) (work : Work)
    → Ensures
        (λ r. r.0 ≡ on_page selector after (id, value))
        (is_selected selector after id value work)
unfolding is_selected
is_selected-on_page selector after id value work =
    Ensures-if (at_most id after) (λ t. holds (ground (arith, t)))
      (λ f. Ensures-map (matches-selects selector value work) λ r h. ground (arith, h, f))

-- The page's rows, and whether there are more.
PageOf : ℕ → BTreeMap Json → BTreeMap Json × Bool × Work → Type 0
PageOf limit chosen r = (r.0 ≡ take limit chosen) × (r.1 ≡ ltb limit (length chosen))

PageOf-next :
    (found : Bool) (limit : ℕ) (row : Bytes × Json) (chosen : BTreeMap Json) (work : Work)
    (next : ℕ → Result NativeSyncError (BTreeMap Json × Bool × Work))
    → ((left : ℕ) → Ensures (PageOf left chosen) (next left))
    → Ensures
        (PageOf limit (if found then row ∷ chosen else chosen))
        (select_next found limit next row work)
unfolding PageOf
PageOf-next false limit row chosen work next h = h limit
PageOf-next true zero row chosen work next h = holds (refl, ground arith)
PageOf-next true (suc left) row chosen work next h = Ensures-bind (next left) λ rest e.
    let (rows, more) = ensures_ok (h left) e in holds (ap (λ t. row ∷ t) rows, ground (arith, more))

-- When a page is selected within the budget, it has the first rows, up to its limit, of those
-- behind the cursor that the selector asks for, in the order of the keys, and it has a next page
-- exactly when there are more of them.
pub select-keep :
    (selector : Selector) (after : Option Bytes) (rows : BTreeMap Json) (limit : ℕ) (work : Work)
    → Ensures
        (λ r.
          (r.0 ≡ take limit (keep (on_page selector after) rows))
          × (r.1 ≡ ltb limit (length (keep (on_page selector after) rows))))
        (select selector after rows limit work)
unfolding select PageOf
select-keep selector after [] limit work = holds (refl, ground arith)
select-keep selector after ((id, value) ∷ rows) limit work =
    Ensures-bind (visit false work) λ visited _.
      Ensures-bind (is_selected selector after id value visited) λ found e.
        let same = ensures_ok (is_selected-on_page selector after id value visited) e in
        subst
          (λ b.
            Ensures
              (PageOf limit (
                if b
                then (id, value) ∷ keep (on_page selector after) rows
                else keep (on_page selector after) rows))
              (select_next found.0 limit (λ left. select selector after rows left found.1)
                (id, value) found.1))
          same
          (PageOf-next found.0 limit (id, value) (keep (on_page selector after) rows) found.1
            (λ left. select selector after rows left found.1)
            (λ left. select-keep selector after rows left found.1))
