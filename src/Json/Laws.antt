-- ===== src/Json/Laws.antt =====
-- What an object holds after a sparse update.
use sloppenheimer_ts.Base.{
  ◌≡◌, ◌∙◌, ◌!=◌, ◌&&◌, refl, String, Bool, true, Option, none, some, ◌==◌, if◌then◌else◌,
  string_eq, arith,
}
use sloppenheimer_ts.Json.{
  Json, Fields, object, end, field, member, set_member, merge_sparse, merge_value,
  merge_sparse_object,
}

-- The keys of an object are different.
abbrev pub IsKeyed : Fields → Type 0
IsKeyed end = Unit
IsKeyed (field k v rest) = (member k rest ≡ none) × IsKeyed rest

member-set_member :
    (k j : String) (v : Json) (m : Fields)
    → member j (set_member k v m) ≡ (if k == j then some v else member j m)
unfolding member set_member
member-set_member k j v end = refl
member-set_member k j v (field i w rest) = ground (arith, member-set_member k j v rest)

set_member-IsKeyed : (k : String) (v : Json) (m : Fields) → IsKeyed m → IsKeyed (set_member k v m)
unfolding set_member member
set_member-IsKeyed k v end h = (refl, tt)
set_member-IsKeyed k v (field j w rest) h =
    ground (arith, set_member-IsKeyed k v rest h.1, member-set_member k j v rest)

-- What the update names is merged into what was there, and the rest stays.
abbrev pub merged : Option Json → Option Json → Option Json
merged before none = before
merged before (some value) = some (merge_value before value)

member-merge_sparse :
    (key : String) (m u : Fields)
    → IsKeyed u
    → member key (merge_sparse m u) ≡ merged (member key m) (member key u)
unfolding merge_sparse member
member-merge_sparse key m end h = refl
member-merge_sparse key m (field k v rest) h = ground (
  arith,
  member-merge_sparse key (set_member k (merge_value (member k m) v) m) rest h.1,
  member-set_member k key (merge_value (member k m) v) m,
)

abbrev pub current_member : String → Option Fields → Option Json
current_member key none = none
current_member key (some m) = member key m

-- No object of an update has the key that JavaScript reads as the prototype.
unfoldable mutual
  pub is_ordinary : Fields → Bool
  is_ordinary end = true
  is_ordinary (field k v rest) = k != "__proto__" && is_ordinary_value v && is_ordinary rest

  pub is_ordinary_value : Json → Bool
  is_ordinary_value (object fields) = is_ordinary fields
  is_ordinary_value v = true

-- What a key holds after an update: what it held where the update does not name it, the merge where
-- both are objects, and the update's value otherwise.
abbrev pub laid_over : Option Json → Option Json → Option Json
laid_over before none = before
laid_over (some (object current)) (some (object update)) =
    some (object (merge_sparse_object (some current) update))
laid_over before (some value) = some value

merged-laid_over : (before update : Option Json) → merged before update ≡ laid_over before update
unfolding merge_value merge_sparse_object
merged-laid_over before none = refl
merged-laid_over none (some value) = refl
merged-laid_over (some before) (some value) = ground arith

-- After a sparse update whose keys are different and none of which, at any depth, is `__proto__`, a key
-- that the update does not name holds what it held. Where the old value and the update's are objects
-- the key holds the sparse merge of the two, and otherwise the update's value.
pub member-merge_sparse_object :
    (key : String) (current : Option Fields) (update : Fields)
    → IsKeyed update
    → is_ordinary update ≡ true
    → member key (merge_sparse_object current update)
      ≡ laid_over (current_member key current) (member key update)
unfolding merge_sparse_object member
member-merge_sparse_object key none update h o =
    member-merge_sparse key end update h ∙ merged-laid_over none (member key update)
member-merge_sparse_object key (some m) update h o =
    member-merge_sparse key m update h ∙ merged-laid_over (member key m) (member key update)

-- An object has each key once, and a sparse update keeps it so.
pub merge_sparse-IsKeyed : (m u : Fields) → IsKeyed m → IsKeyed (merge_sparse m u)
unfolding merge_sparse
merge_sparse-IsKeyed m end h = h
merge_sparse-IsKeyed m (field k v rest) h =
    merge_sparse-IsKeyed (set_member k (merge_value (member k m) v) m) rest
      (set_member-IsKeyed k (merge_value (member k m) v) m h)
