-- ===== src/Domain/Retention/Cap.antt =====
-- An issue keeps no more than its limit of what may be evicted, and nothing else is evicted.
use Prim.Native.Nat.{Ordering}
use sloppenheimer_ts.Base.{
  ℕ, zero, suc, ◌+◌, ◌≤◌, ◌≡◌, refl, String, Bool, true, ◌&&◌, ◌||◌, [], ◌∷◌, List, map, ◌==◌,
  string_eq, keep, any, drop, max, length, arith, All, Bool-cases, inl, inr,
}
use sloppenheimer_ts.Domain.Retention.{
  WorkspaceRetention, RetainedWorkspace, may_evict, insert_retained, newest_first,
  workspaces_to_evict,
}

module _ (p : RetainedWorkspace → Bool) where
  keep-drop :
      (n : ℕ) (ws : List RetainedWorkspace) → length (keep p ws) ≤ length (keep p (drop n ws)) + n
  keep-drop zero ws = omega arith
  keep-drop (suc n) [] = omega arith
  keep-drop (suc n) (w ∷ ws) = ground (arith, keep-drop n ws)

  any-drop : (n : ℕ) (ws : List RetainedWorkspace) → any p (drop n ws) ≡ true → any p ws ≡ true
  any-drop zero ws h = h
  any-drop (suc n) [] h = h
  any-drop (suc n) (w ∷ ws) h = ground (arith, any-drop n ws)

  module _ (locale_compare : String → String → Ordering) where
    keep-insert_retained :
        (w : RetainedWorkspace) (ws : List RetainedWorkspace)
        → length (keep p (insert_retained locale_compare w ws)) ≡ length (keep p (w ∷ ws))
    unfolding insert_retained
    keep-insert_retained w [] = refl
    keep-insert_retained w (v ∷ ws) = ground (arith, keep-insert_retained w ws)

    keep-newest_first :
        (ws : List RetainedWorkspace)
        → length (keep p (newest_first locale_compare ws)) ≡ length (keep p ws)
    unfolding newest_first
    keep-newest_first [] = refl
    keep-newest_first (w ∷ ws) =
        ground
          (arith, keep-newest_first ws, keep-insert_retained w (newest_first locale_compare ws))

    any-insert_retained :
        (w : RetainedWorkspace) (ws : List RetainedWorkspace)
        → any p (insert_retained locale_compare w ws) ≡ (p w || any p ws)
    unfolding insert_retained
    any-insert_retained w [] = refl
    any-insert_retained w (v ∷ ws) = ground (arith, any-insert_retained w ws)

    any-newest_first :
        (ws : List RetainedWorkspace) → any p (newest_first locale_compare ws) ≡ any p ws
    unfolding newest_first
    any-newest_first [] = refl
    any-newest_first (w ∷ ws) =
        ground (arith, any-newest_first ws, any-insert_retained w (newest_first locale_compare ws))

-- The key of a workspace that may be evicted.
abbrev pub names_evictable : WorkspaceRetention → String → RetainedWorkspace → Bool
names_evictable retention key w = may_evict retention w && w.key == key

length-keys : (ws : List RetainedWorkspace) → length (map (λ w. w.key) ws) ≡ length ws
length-keys [] = refl
length-keys (w ∷ ws) = ground (arith, length-keys ws)

keys_of :
    (retention : WorkspaceRetention) (ws all : List RetainedWorkspace)
    → ((q : RetainedWorkspace → Bool) → any q ws ≡ true → any q all ≡ true)
    → All
        (λ key. any (names_evictable retention key) all ≡ true)
        (map (λ w. w.key) (keep (may_evict retention) ws))
keys_of retention [] all h = tt
keys_of retention (w ∷ ws) all h =
    let rest = keys_of retention ws all (λ q a. h q (ground (arith, a))) in
    elim (Bool-cases (may_evict retention w)) [
      | inl e ↦ rw e (h (names_evictable retention w.key) (ground (arith, e)), rest)
      | inr e ↦ rw e rest
    ]

-- For any comparison of keys and any retained workspaces: of those that may be evicted, all but at
-- most the limit, or but one if the limit is zero, are evicted; and every evicted key is that of a
-- retained workspace whose host is finished with it and which is not protected.
pub workspaces_to_evict_caps :
    (locale_compare : String → String → Ordering) (retained : List RetainedWorkspace)
    (retention : WorkspaceRetention)
    → (length (keep (may_evict retention) retained)
        ≤ length (workspaces_to_evict locale_compare retained retention) + max retention.limit 1)
      × All
          (λ key. any (names_evictable retention key) retained ≡ true)
          (workspaces_to_evict locale_compare retained retention)
unfolding workspaces_to_evict
workspaces_to_evict_caps locale_compare retained retention =
    let n = max retention.limit 1 in
    let sorted = newest_first locale_compare retained in
    (
      omega (
        arith,
        length-keys (keep (may_evict retention) (drop n sorted)),
        keep-drop (may_evict retention) n sorted,
        keep-newest_first (may_evict retention) locale_compare retained,
      ),
      keys_of retention (drop n sorted) retained (λ q a.
          ground (arith, any-drop q n sorted a, any-newest_first q locale_compare retained)),
    )
