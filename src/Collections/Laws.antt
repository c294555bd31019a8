-- ===== src/Collections/Laws.antt =====
-- A write is read back, and touches no other key.
use sloppenheimer_ts.Base.{
  ◌≡◌, refl, true, false, ◌||◌, [], ◌∷◌, none, some, ◌==◌, arith, if◌then◌else◌, Eq,
}
use sloppenheimer_ts.Collections.{Map, get, has, with_entry, without_entry}

module _ {ℓ κ} {K : Type ℓ} {V : Type κ} ⦃e : Eq K⦄ where
  pub get-with_entry :
      (m : Map K V) (k j : K) (v : V)
      → get (with_entry m k v) j ≡ (if k == j then some v else get m j)
  unfolding get with_entry
  get-with_entry [] k j v = refl
  get-with_entry ((i, w) ∷ m) k j v = ground (arith, get-with_entry m k j v)

  -- The keys of a map are different.
  abbrev pub IsKeyed : Map K V → Type 0
  IsKeyed [] = Unit
  IsKeyed ((k, v) ∷ m) = (has m k ≡ false) × IsKeyed m

  pub get_of_absent : (m : Map K V) (k : K) → has m k ≡ false → get m k ≡ none
  unfolding get has
  get_of_absent [] k h = refl
  get_of_absent ((i, w) ∷ m) k h = ground (arith, get_of_absent m k)

  pub has_of_get : (m : Map K V) (k : K) (v : V) → get m k ≡ some v → has m k ≡ true
  unfolding get has
  has_of_get [] k v h = cc
  has_of_get ((i, w) ∷ m) k v h = ground (arith, has_of_get m k v)

  pub get-without_entry :
      (m : Map K V) (k j : K)
      → IsKeyed m
      → get (without_entry m k) j ≡ (if k == j then none else get m j)
  unfolding get without_entry
  get-without_entry [] k j h = ground arith
  get-without_entry ((i, w) ∷ m) k j h =
      ground (arith, get-without_entry m k j h.1, get_of_absent m i h.0)

  pub has-with_entry :
      (m : Map K V) (k j : K) (v : V) → has (with_entry m k v) j ≡ (k == j || has m j)
  unfolding has with_entry
  has-with_entry [] k j v = refl
  has-with_entry ((i, w) ∷ m) k j v = ground (arith, has-with_entry m k j v)

  has-without_entry : (m : Map K V) (k j : K) → has m j ≡ false → has (without_entry m k) j ≡ false
  unfolding has without_entry
  has-without_entry [] k j h = refl
  has-without_entry ((i, w) ∷ m) k j h = ground (arith, has-without_entry m k j)

  pub with_entry-IsKeyed : (m : Map K V) (k : K) (v : V) → IsKeyed m → IsKeyed (with_entry m k v)
  unfolding with_entry has
  with_entry-IsKeyed [] k v h = (refl, tt)
  with_entry-IsKeyed ((i, w) ∷ m) k v h =
      ground (arith, with_entry-IsKeyed m k v h.1, has-with_entry m k i v)

  pub without_entry-IsKeyed : (m : Map K V) (k : K) → IsKeyed m → IsKeyed (without_entry m k)
  unfolding without_entry
  without_entry-IsKeyed [] k h = tt
  without_entry-IsKeyed ((i, w) ∷ m) k h =
      ground (arith, without_entry-IsKeyed m k h.1, has-without_entry m k i h.0)

  -- A removal with nothing to remove is the map itself.
  pub without_entry_of_absent : (m : Map K V) (k : K) → has m k ≡ false → without_entry m k ≡ m
  unfolding without_entry has
  without_entry_of_absent [] k h = refl
  without_entry_of_absent ((i, w) ∷ m) k h = ground (arith, without_entry_of_absent m k)
