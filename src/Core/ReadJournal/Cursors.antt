-- ===== src/Core/ReadJournal/Cursors.antt =====
-- sync_read.rs: the view cursors that a journal remembers stay within their bounds.
use react_native_surrealdb.Base.{
  ℕ, ◌+◌, ◌≤◌, ◌<◌, ◌≡◌, refl, sym, ◌∙◌, subst, true, Bool-cases, inl, inr, none, some, List, [],
  ◌∷◌, ◌++◌, length, length-append, any, leb, ◌==◌, ==-refl, arith,
}
use react_native_surrealdb.Base.Bytes.{Bytes, bytes_eq}
use react_native_surrealdb.Core.ReadJournal.{
  ReadJournal, max_view_cursors, max_view_cursor_bytes, total_length, view_cursors_full, make_room,
  remembered, remember_view_cursor, issued_view_cursor,
}
use react_native_surrealdb.Core.ReadJournal.Bounds.{IsBounded}

total_length-append :
    (xs ys : List Bytes) → total_length (xs ++ ys) ≡ total_length xs + total_length ys
total_length-append [] ys = omega arith
total_length-append (x ∷ xs) ys = omega (arith, total_length-append xs ys)

make_room_lem :
    (size : ℕ) (cursors : List Bytes)
    → size ≤ max_view_cursor_bytes
    → (kept : List Bytes) × (make_room size cursors ≡ some kept)
      × (length kept < max_view_cursors)
      × (total_length kept + size ≤ max_view_cursor_bytes)
unfolding make_room
make_room_lem size [] h = ([], ground arith, omega arith, omega arith)
make_room_lem size (oldest ∷ cursors) h =
    elim (Bool-cases (view_cursors_full size (oldest ∷ cursors))) [
      | inl p ↦ let (kept, q, r, s) = make_room_lem size cursors h in (kept, rw p q, r, s)
      | inr p ↦ (oldest ∷ cursors, rw p refl, ground (arith, p), ground (arith, p))
    ]

make_room_none :
    (size : ℕ) (cursors : List Bytes) → max_view_cursor_bytes < size → make_room size cursors ≡ none
unfolding make_room
make_room_none size [] h = ground arith
make_room_none size (oldest ∷ cursors) h = ground (arith, make_room_none size cursors h)

any_last : (texts : List Bytes) (text : Bytes) → any (λ t. t == text) (texts ++ text ∷ []) ≡ true
any_last [] text = rw (==-refl text) refl
any_last (t ∷ texts) text = rw (any_last texts text) (ground arith)

-- A cursor is remembered unless it is larger than the limit by itself.
Remembers : ReadJournal → Bytes → ReadJournal → Type 0
Remembers self cursor next =
    IsBounded next
    × (issued_view_cursor next cursor ≡ leb (length cursor) max_view_cursor_bytes)
    × (next.batches ≡ self.batches)

Remembers-kept :
    (self : ReadJournal) (cursor : Bytes) (kept : List Bytes)
    → IsBounded self
    → length cursor ≤ max_view_cursor_bytes
    → length kept < max_view_cursors
    → total_length kept + length cursor ≤ max_view_cursor_bytes
    → Remembers self cursor (record self { view_cursors = kept ++ cursor ∷ [] })
unfolding Remembers issued_view_cursor
Remembers-kept self cursor kept b h few small = (
  record {
    counted = b.counted;
    few = b.few;
    small = b.small;
    few_cursors = omega (arith, length-append kept (cursor ∷ []), few);
    small_cursors = omega (arith, total_length-append kept (cursor ∷ []), small);
  },
  any_last kept cursor ∙ ground (arith, h),
  refl,
)

Remembers-empty :
    (self : ReadJournal) (cursor : Bytes)
    → IsBounded self
    → max_view_cursor_bytes < length cursor
    → Remembers self cursor (record self { view_cursors = [] })
unfolding Remembers issued_view_cursor
Remembers-empty self cursor b h = (
  record {
    counted = b.counted;
    few = b.few;
    small = b.small;
    few_cursors = omega arith;
    small_cursors = omega arith;
  },
  ground (arith, h),
  refl,
)

-- On a journal within its bounds, remembering a view cursor keeps them (at most 64 cursors and 256
-- KiB) and leaves the batches as they are; the cursor then counts as issued exactly when it has at
-- most 256 KiB.
pub remember_view_cursor-IsBounded :
    (self : ReadJournal) (cursor : Bytes)
    → IsBounded self
    → let next = remember_view_cursor self cursor in
      IsBounded next
      × (issued_view_cursor next cursor ≡ leb (length cursor) max_view_cursor_bytes)
      × (next.batches ≡ self.batches)
unfolding remember_view_cursor Remembers
remember_view_cursor-IsBounded self cursor b =
    elim (Bool-cases (leb (length cursor) max_view_cursor_bytes)) [
      | inl p ↦
          let fits : length cursor ≤ max_view_cursor_bytes = ground (arith, p) in
          let (kept, q, few, small) = make_room_lem (length cursor) self.view_cursors fits in
          subst (λ o. Remembers self cursor (remembered self cursor o)) (sym q)
            (Remembers-kept self cursor kept b fits few small)
      | inr p ↦
          let over : max_view_cursor_bytes < length cursor = ground (arith, p) in
          subst (λ o. Remembers self cursor (remembered self cursor o))
            (sym (make_room_none (length cursor) self.view_cursors over))
            (Remembers-empty self cursor b over)
    ]
