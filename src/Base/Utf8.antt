-- ===== src/Base/Utf8.antt =====
-- `String::from_utf8`: which bytes are UTF-8.
use mathlib.Core.Bool.{Bool, true, false, ◌&&◌}
use mathlib.Core.List.{[], ◌∷◌}
use Prim.Native.Nat.{ℕ, zero, suc}
use react_native_surrealdb.Base.Tests.{ltb, leb, ◌==◌, nat_eq, if◌then◌else◌}
use react_native_surrealdb.Base.Bytes.{Bytes}

-- The continuation bytes that a lead byte asks for, with the bounds of the first of them.
pub record Lead : Type 0 where
  pub valid : Bool
  pub more : ℕ
  pub low : ℕ
  pub high : ℕ

abbrev pub continuing : ℕ → ℕ → ℕ → Lead
continuing more low high = record { valid = true; more = more; low = low; high = high }

abbrev pub lead : ℕ → Lead
lead b =
    if ltb b 128
    then continuing 0 128 191
    else if leb 194 b && leb b 223
    then continuing 1 128 191
    else if b == 224
    then continuing 2 160 191
    else if b == 237
    then continuing 2 128 159
    else if leb 225 b && leb b 239
    then continuing 2 128 191
    else if b == 240
    then continuing 3 144 191
    else if leb 241 b && leb b 243
    then continuing 3 128 191
    else if b == 244
    then continuing 3 128 143
    else record { valid = false; more = 0; low = 0; high = 0 }

-- With the continuation bytes that are still missing and the bounds of the next one.
unfoldable pub utf8_from : Bytes → ℕ → ℕ → ℕ → Bool
utf8_from [] zero low high = true
utf8_from [] (suc more) low high = false
utf8_from (b ∷ text) zero low high =
    (lead b).valid && utf8_from text (lead b).more (lead b).low (lead b).high
utf8_from (b ∷ text) (suc more) low high = (leb low b && leb b high) && utf8_from text more 128 191

unfoldable pub is_utf8 : Bytes → Bool
is_utf8 text = utf8_from text 0 128 191
