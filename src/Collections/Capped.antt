-- ===== src/Collections/Capped.antt =====
-- The bounded map.
use sloppenheimer_ts.Base.{
  ℕ, ◌≤◌, ◌<◌, ◌≡◌, refl, false, ◌||◌, [], ◌∷◌, ◌++◌, some, ◌==◌, arith, if◌then◌else◌, Eq, length,
}
use sloppenheimer_ts.Collections.{Map, get, has, without_entry, drop_oldest, with_capped_entry}
use sloppenheimer_ts.Collections.Laws.{
  IsKeyed, get-without_entry, without_entry-IsKeyed, has_of_get,
}

module _ {ℓ κ} {K : Type ℓ} {V : Type κ} ⦃e : Eq K⦄ where
  drop_oldest-length : (limit : ℕ) (m : Map K V) → length (drop_oldest limit m) ≤ limit
  unfolding drop_oldest
  drop_oldest-length limit [] = omega arith
  drop_oldest-length limit (x ∷ m) = ground (arith, drop_oldest-length limit m)

  -- Nothing goes from a map within its cap.
  drop_oldest_within : (limit : ℕ) (m : Map K V) → length m ≤ limit → drop_oldest limit m ≡ m
  unfolding drop_oldest
  drop_oldest_within limit [] h = refl
  drop_oldest_within limit (x ∷ m) h = ground arith

  get_of_last :
      (limit : ℕ) (m : Map K V) (k : K) (v : V)
      → has m k ≡ false
      → 0 < limit
      → get (drop_oldest limit (m ++ (k, v) ∷ [])) k ≡ some v
  unfolding drop_oldest get has
  get_of_last limit [] k v h p = ground arith
  get_of_last limit ((j, w) ∷ m) k v h p = ground (arith, get_of_last limit m k v, get_append m k v)
    where
      get_append :
          (m : Map K V) (k : K) (v : V) → has m k ≡ false → get (m ++ (k, v) ∷ []) k ≡ some v
      get_append [] k v h = ground arith
      get_append ((j, w) ∷ m) k v h = ground (arith, get_append m k v)

  pub has-without_entry_self : (m : Map K V) (k : K) → IsKeyed m → has (without_entry m k) k ≡ false
  unfolding without_entry has
  has-without_entry_self [] k h = refl
  has-without_entry_self ((j, w) ∷ m) k h = ground (arith, has-without_entry_self m k h.1)

  get_of_survivor :
      (limit : ℕ) (m : Map K V) (j : K) (w : V)
      → IsKeyed m
      → get (drop_oldest limit m) j ≡ some w
      → get m j ≡ some w
  unfolding drop_oldest get
  get_of_survivor limit [] j w h g = g
  get_of_survivor limit ((i, x) ∷ m) j w h g = ground (
    arith,
    get_of_survivor limit m j w h.1,
    has_of_get (drop_oldest limit m) j w,
    has_of_get m j w,
  )

  append-IsKeyed :
      (m : Map K V) (k : K) (v : V) → IsKeyed m → has m k ≡ false → IsKeyed (m ++ (k, v) ∷ [])
  unfolding has
  append-IsKeyed [] k v h n = (refl, tt)
  append-IsKeyed ((i, x) ∷ m) k v h n = ground (arith, append-IsKeyed m k v h.1, has_append m i)
    where
      has_append : (m : Map K V) (i : K) → has (m ++ (k, v) ∷ []) i ≡ (has m i || k == i)
      has_append [] i = ground arith
      has_append ((j, w) ∷ m) i = ground (arith, has_append m i)

  get-append_last :
      (m : Map K V) (k j : K) (v : V)
      → has m k ≡ false
      → get (m ++ (k, v) ∷ []) j ≡ (if k == j then some v else get m j)
  unfolding get has
  get-append_last [] k j v n = refl
  get-append_last ((i, x) ∷ m) k j v n = ground (arith, get-append_last m k j v)

  -- If the limit is positive, a write to a capped map leaves at most `limit` entries, and the
  -- written one is among them.
  pub with_capped_entry_bounded :
      (m : Map K V) (k : K) (v : V) (limit : ℕ)
      → IsKeyed m
      → 0 < limit
      → (length (with_capped_entry m k v limit) ≤ limit)
        × (get (with_capped_entry m k v limit) k ≡ some v)
  unfolding with_capped_entry
  with_capped_entry_bounded m k v limit h p = (
    drop_oldest-length limit (without_entry m k ++ (k, v) ∷ []),
    get_of_last limit (without_entry m k) k v (has-without_entry_self m k h) p,
  )

  -- What a capped map holds at another key after a write is what it held before.
  pub with_capped_entry_keeps :
      (m : Map K V) (k j : K) (v w : V) (limit : ℕ)
      → IsKeyed m
      → (k == j) ≡ false
      → get (with_capped_entry m k v limit) j ≡ some w
      → get m j ≡ some w
  unfolding with_capped_entry
  with_capped_entry_keeps m k j v w limit h n g = ground (
    arith,
    get_of_survivor limit (without_entry m k ++ (k, v) ∷ []) j w
        (append-IsKeyed (without_entry m k) k v (without_entry-IsKeyed m k h)
          (has-without_entry_self m k h))
        g,
    get-append_last (without_entry m k) k j v (has-without_entry_self m k h),
    get-without_entry m k j h,
  )
