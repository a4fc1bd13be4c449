-- ===== src/Protocol/Canonical/Ciborium.antt =====
-- The value type of the ciborium crate, as canonical.rs takes it apart and builds it.
use react_native_surrealdb.Base.{ℕ, Bool}
use react_native_surrealdb.Base.Bytes.{Bytes}
use react_native_surrealdb.Protocol.Subscription.{ℤ}

-- `ciborium::value::Value`, which is open to further variants; a float is its bits.
mutual
  pub data CborValue : Type 0 where
    integer : ℤ → CborValue
    bytes : Bytes → CborValue
    float : ℕ → CborValue
    text : Bytes → CborValue
    bool : Bool → CborValue
    null : CborValue
    tag : ℕ → CborValue → CborValue
    array : CborItems → CborValue
    map : CborEntries → CborValue
    other : CborValue

  pub data CborItems : Type 0 where
    nil : CborItems
    cons : CborValue → CborItems → CborItems

  pub data CborEntries : Type 0 where
    end : CborEntries
    entry : CborValue → CborValue → CborEntries → CborEntries
