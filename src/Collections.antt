-- ===== src/Collections.antt =====
-- packages/core/src/support/collections.ts. A `Map` and a `Set` keep their insertion order, so a map
-- is the list of its entries, oldest first, and a set is the list of its members.
pub mod Laws
pub mod Capped
use sloppenheimer_ts.Base.{
  ℕ, String, Bool, true, false, not, ◌||◌, ◌∷◌, [], List, Option, none, some, ◌==◌, leb,
  if◌then◌else◌, Eq, length, ◌++◌, includes,
}

abbrev pub Map {ℓ κ} : Type ℓ → Type κ → Type (ℓ ⊔ κ)
Map K V = List (K × V)

abbrev pub Set {ℓ} : Type ℓ → Type ℓ
Set K = List K

module _ {ℓ κ} {K : Type ℓ} {V : Type κ} ⦃e : Eq K⦄ where
  -- `map.get`, `map.has`, `map.set` and `map.delete`.
  unfoldable pub get : Map K V → K → Option V
  get [] k = none
  get ((j, v) ∷ m) k = if j == k then some v else get m k

  unfoldable pub has : Map K V → K → Bool
  has [] k = false
  has ((j, v) ∷ m) k = j == k || has m k

  unfoldable pub with_entry : Map K V → K → V → Map K V
  with_entry [] k v = (k, v) ∷ []
  with_entry ((j, w) ∷ m) k v =
      let rest = with_entry m k v in if j == k then (j, v) ∷ m else (j, w) ∷ rest

  unfoldable pub without_entry : Map K V → K → Map K V
  without_entry [] k = []
  without_entry ((j, w) ∷ m) k = let rest = without_entry m k in if j == k then m else (j, w) ∷ rest

  -- The loop that drops the oldest entries: what is left once the size is within the limit.
  unfoldable pub drop_oldest : ℕ → Map K V → Map K V
  drop_oldest limit [] = []
  drop_oldest limit (x ∷ m) =
      let rest = drop_oldest limit m in if leb (length (x ∷ m)) limit then x ∷ m else rest

  unfoldable pub with_capped_entry : Map K V → K → V → ℕ → Map K V
  unfolding drop_oldest without_entry
  with_capped_entry m k v limit = drop_oldest limit (without_entry m k ++ (k, v) ∷ [])

module _ {ℓ} {K : Type ℓ} ⦃e : Eq K⦄ where
  unfoldable pub with_member : Set K → K → Set K
  with_member s k = if includes s k then s else s ++ k ∷ []

  unfoldable pub remove_member : Set K → K → Set K
  remove_member [] k = []
  remove_member (j ∷ s) k = let rest = remove_member s k in if j == k then s else j ∷ rest

  unfoldable pub without_member : Set K → K → Set K
  unfolding remove_member
  without_member s k = if not (includes s k) then s else remove_member s k
