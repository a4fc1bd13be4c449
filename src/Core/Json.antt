-- ===== src/Core/Json.antt =====
-- `serde_json::Value`, as the core crate takes values apart. A number is its text, and an object
-- holds the entries of its map in the order of their keys.
use react_native_surrealdb.Base.{Bool, Option, none, some, [], ◌∷◌}
use react_native_surrealdb.Base.Bytes.{Bytes}
use react_native_surrealdb.Base.BTreeMap.{BTreeMap}

mutual
  pub data Json : Type 0 where
    null : Json
    bool : Bool → Json
    number : Bytes → Json
    string : Bytes → Json
    array : Elements → Json
    object : Members → Json

  pub data Elements : Type 0 where
    last : Elements
    element : Json → Elements → Elements

  pub data Members : Type 0 where
    close : Members
    member : Bytes → Json → Members → Members

abbrev pub members : Members → BTreeMap Json
members Members.close = []
members (Members.member key value rest) = (key, value) ∷ members rest

-- `as_object`.
abbrev pub as_object : Json → Option (BTreeMap Json)
as_object (Json.object fields) = some (members fields)
as_object _ = none
