-- ===== src/Json.antt =====
-- packages/core/src/support/json.ts: JSON values, and the merge of a sparse update. An object's
-- fields stand in the order in which they were set. The key `__proto__`, which JavaScript reads and
-- writes as the object's prototype, is outside the model.
pub mod Laws
use sloppenheimer_ts.Base.{String, Bool, Option, none, some, ◌==◌, if◌then◌else◌, string_eq}

mutual
  -- A number is kept as its literal.
  pub data Json : Type 0 where
    null : Json
    bool : Bool → Json
    number : String → Json
    text : String → Json
    array : Items → Json
    object : Fields → Json

  pub data Items : Type 0 where
    nil : Items
    cons : Json → Items → Items

  pub data Fields : Type 0 where
    end : Fields
    field : String → Json → Fields → Fields

-- `merged[key]`, which is `undefined` for a key that is not there.
unfoldable pub member : String → Fields → Option Json
member key end = none
member key (field k v rest) = if k == key then some v else member key rest

-- `merged[key] = value`.
unfoldable pub set_member : String → Json → Fields → Fields
set_member key value end = field key value end
set_member key value (field k v rest) =
    let later = set_member key value rest in
    if k == key then field k value rest else field k v later

unfoldable mutual
  unfolding member set_member

  pub merge_sparse : Fields → Fields → Fields
  merge_sparse merged end = merged
  merge_sparse merged (field key value rest) =
      merge_sparse (set_member key (merge_value (member key merged) value) merged) rest

  -- Nested objects merge; every other value replaces.
  pub merge_value : Option Json → Json → Json
  merge_value (some (object existing)) (object value) = object (merge_sparse existing value)
  merge_value existing value = value

-- `mergeSparseObject(current, update)`, where `current` may be null.
unfoldable pub merge_sparse_object : Option Fields → Fields → Fields
unfolding merge_sparse
merge_sparse_object none update = merge_sparse end update
merge_sparse_object (some current) update = merge_sparse current update
