-- ===== src/Core/View.antt =====
-- sync_view.rs: bounded reads of the local view. Each read is charged for the records, operations
-- and values that it visits; the child modules are the effective rows and the pages.
pub mod Effective
pub mod Summary
pub mod Select
pub mod Page
use react_native_surrealdb.Base.{
  ℕ, zero, suc, ◌+◌, Bool, true, false, not, ◌&&◌, ◌||◌, Option, none, some, List, [], ◌∷◌, length,
  is_empty, all, contains, ltb, leb, ◌==◌, nat_eq, checked_add, if◌then◌else◌, Result, ok, err,
  ◌>>=◌, ◌>>◌, fail_if, ok_or,
}
use react_native_surrealdb.Base.Bytes.{Bytes, bytes as ascii, bytes_eq}
use react_native_surrealdb.Base.BTreeMap.{BTreeMap, get, contains_key}
use react_native_surrealdb.Core.{NativeSyncError}
use react_native_surrealdb.Core.Json.{Json, Elements, Members, as_object}

abbrev pub max_input : ℕ
max_input = 16384

abbrev pub max_output : ℕ
max_output = 262144

abbrev pub max_visits : ℕ
max_visits = 16384

abbrev pub max_nodes : ℕ
max_nodes = 65536

abbrev pub max_value_bytes : ℕ
max_value_bytes = 4194304

-- `and` holds its terms.
mutual
  pub data Selector : Type 0 where
    everything : Selector
    eq : List Bytes → Json → Selector
    and : Selectors → Selector

  pub data Selectors : Type 0 where
    no_term : Selectors
    term : Selector → Selectors → Selectors

pub record Work : Type 0 where
  pub records_visited : ℕ
  pub operations_visited : ℕ
  pub value_nodes_visited : ℕ
  pub value_bytes_visited : ℕ

abbrev pub no_work : Work
no_work = record {
  records_visited = 0;
  operations_visited = 0;
  value_nodes_visited = 0;
  value_bytes_visited = 0;
}

abbrev pub check_visits : Work → Result NativeSyncError Work
check_visits work =
    fail_if (ltb max_visits (work.records_visited + work.operations_visited))
      NativeSyncError.read_output_too_large
    >> ok work

unfoldable pub visit : Bool → Work → Result NativeSyncError Work
visit true work = check_visits (record work { operations_visited = work.operations_visited + 1 })
visit false work = check_visits (record work { records_visited = work.records_visited + 1 })

unfoldable pub charge_bytes : ℕ → Work → Result NativeSyncError Work
charge_bytes n work = do
  visited ← ok_or (checked_add work.value_bytes_visited n) NativeSyncError.read_output_too_large
  fail_if (ltb max_value_bytes visited) NativeSyncError.read_output_too_large
  ok (record work { value_bytes_visited = visited })

-- One more node, at a depth.
unfoldable pub charge_node : ℕ → Work → Result NativeSyncError Work
charge_node depth work =
    fail_if (ltb max_nodes (work.value_nodes_visited + 1) || ltb 64 depth)
      NativeSyncError.read_output_too_large
    >> ok (record work { value_nodes_visited = work.value_nodes_visited + 1 })

unfoldable mutual
  pub charge_value : Json → ℕ → Work → Result NativeSyncError Work
  charge_value Json.null depth work = charge_node depth work >>= charge_bytes 24
  charge_value (Json.bool b) depth work = charge_node depth work >>= charge_bytes 24
  charge_value (Json.number text) depth work = charge_node depth work >>= charge_bytes 24
  charge_value (Json.string text) depth work = charge_node depth work >>= charge_bytes (length text)
  charge_value (Json.array values) depth work =
      charge_node depth work >>= charge_elements values (depth + 1)
  charge_value (Json.object fields) depth work =
      charge_node depth work >>= charge_members fields (depth + 1)

  pub charge_elements : Elements → ℕ → Work → Result NativeSyncError Work
  charge_elements Elements.last depth work = ok work
  charge_elements (Elements.element value values) depth work =
      charge_value value depth work >>= charge_elements values depth

  pub charge_members : Members → ℕ → Work → Result NativeSyncError Work
  charge_members Members.close depth work = ok work
  charge_members (Members.member key value fields) depth work = do
    named ← charge_bytes (length key) work
    charged ← charge_value value depth named
    charge_members fields depth charged

-- `char::is_control` on UTF-8: U+0000 to U+001F, and U+007F to U+009F.
abbrev pub starts_below_160 : Bytes → Bool
starts_below_160 [] = false
starts_below_160 (b ∷ text) = ltb b 160

unfoldable pub has_control : Bytes → Bool
has_control [] = false
has_control (b ∷ text) =
    ltb b 32 || b == 127 || (b == 194 && starts_below_160 text) || has_control text

abbrev pub reserved_names : List Bytes
reserved_names = ascii "__proto__" ∷ ascii "constructor" ∷ ascii "prototype" ∷ ascii "$surreal" ∷ []

unfoldable pub name_valid : Bytes → Bool
name_valid name =
    not (is_empty name)
    && leb (length name) 128
    && not (contains name reserved_names)
    && not (has_control name)

unfoldable pub path_valid : List Bytes → Bool
path_valid path = not (is_empty path) && leb (length path) 8 && all name_valid path

-- The values that a selector may ask for.
abbrev pub is_wanted : Json → Bool
is_wanted Json.null = true
is_wanted (Json.bool b) = true
is_wanted (Json.string text) = leb (length text) 1024
is_wanted _ = false

abbrev pub count_terms : Selectors → ℕ
count_terms Selectors.no_term = zero
count_terms (Selectors.term selector terms) = suc (count_terms terms)

unfoldable pub validate_eq : List Bytes → Json → Result NativeSyncError (Unit {0})
validate_eq path value =
    fail_if (not (path_valid path && is_wanted value)) NativeSyncError.invalid_input

-- Every term is an equation.
abbrev pub validate_terms : Selectors → Result NativeSyncError (Unit {0})
validate_terms Selectors.no_term = ok tt
validate_terms (Selectors.term (Selector.eq path value) terms) =
    validate_eq path value >> validate_terms terms
validate_terms (Selectors.term _ terms) = err NativeSyncError.invalid_input

unfoldable pub validate_selector : Selector → Result NativeSyncError (Unit {0})
validate_selector Selector.everything = ok tt
validate_selector (Selector.eq path value) = validate_eq path value
validate_selector (Selector.and terms) =
    fail_if (count_terms terms == 0 || ltb 8 (count_terms terms)) NativeSyncError.invalid_input
    >> validate_terms terms

-- A tagged value is an object that no path goes into.
abbrev pub is_tagged : Json → Bool
is_tagged value = elim (as_object value) [
  | none ↦ false
  | some fields ↦ contains_key (ascii "$surreal") fields
]

abbrev pub child : Bytes → Json → Option Json
child key value = elim (as_object value) [ none ↦ none | some fields ↦ get key fields ]

unfoldable pub field : List Bytes → Json → Work → Result NativeSyncError (Option Json × Work)
field [] value work = ok (some value, work)
field (key ∷ path) value work =
    if is_tagged value
    then ok (none, work)
    else (fail_if (ltb max_nodes (work.value_nodes_visited + 1))
          NativeSyncError.read_output_too_large
        >> elim (child key value) [
          | none ↦ ok (none, record work { value_nodes_visited = work.value_nodes_visited + 1 })
          | some next ↦
              field path next (record work { value_nodes_visited = work.value_nodes_visited + 1 })
        ])

-- Equality of two scalars; a composite value equals nothing.
abbrev pub same_scalar : Json → Json → Bool
same_scalar Json.null Json.null = true
same_scalar (Json.bool true) (Json.bool b) = b
same_scalar (Json.bool false) (Json.bool b) = not b
same_scalar (Json.string text) (Json.string other) = text == other
same_scalar _ _ = false

abbrev pub found_is : Json → Option Json → Bool
found_is wanted none = false
found_is wanted (some value) = same_scalar value wanted

unfoldable mutual
  pub matches : Selector → Json → Work → Result NativeSyncError (Bool × Work)
  matches Selector.everything value work = ok (true, work)
  matches (Selector.eq path wanted) value work =
      field path value work >>= λ got. ok (found_is wanted got.0, got.1)
  matches (Selector.and terms) value work = matches_all terms value work

  pub matches_all : Selectors → Json → Work → Result NativeSyncError (Bool × Work)
  matches_all Selectors.no_term value work = ok (true, work)
  matches_all (Selectors.term selector terms) value work = matches selector value work >>= λ got.
      let rest = matches_all terms value got.1 in if got.0 then rest else ok (false, got.1)
