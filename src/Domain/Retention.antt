-- ===== src/Domain/Retention.antt =====
-- packages/core/src/domain/workspace-retention.ts: which of an issue's retained workspaces are
-- evicted. The comparison of texts in the host's locale is a parameter.
pub mod Cap
use Prim.Native.Nat.{compare, Ordering}
use sloppenheimer_ts.Base.{
  ℕ, String, Bool, not, ◌&&◌, [], ◌∷◌, List, map, Option, none, some, if◌then◌else◌, string_eq,
  keep, includes, drop, max, or_then, stands_after,
}
use sloppenheimer_ts.Collections.{Set}

pub record WorkspaceRetention : Type 0 where
  pub limit : ℕ
  pub protected_keys : Set String

pub record RetainedWorkspace : Type 0 where
  pub key : String
  pub retained_at : Option ℕ
  pub run_id : Option ℕ
  pub owner_finished : Bool

-- `(right ?? -Infinity) - (left ?? -Infinity)`, where `||` passes over a zero and a NaN.
unfoldable pub later_first : Option ℕ → Option ℕ → Ordering
later_first (some l) (some r) = compare r l
later_first (some l) none = Ordering.lt
later_first none (some r) = Ordering.gt
later_first none none = Ordering.eq

-- What the cap may take: nothing that is protected or that a live peer retained.
unfoldable pub may_evict : WorkspaceRetention → RetainedWorkspace → Bool
may_evict retention w = w.owner_finished && not (includes retention.protected_keys w.key)

module _ (locale_compare : String → String → Ordering) where
  unfoldable pub compare_retained : RetainedWorkspace → RetainedWorkspace → Ordering
  unfolding later_first
  compare_retained left right =
      or_then (later_first left.retained_at right.retained_at)
        (or_then (later_first left.run_id right.run_id) (locale_compare left.key right.key))

  unfoldable pub insert_retained :
      RetainedWorkspace → List RetainedWorkspace → List RetainedWorkspace
  unfolding compare_retained
  insert_retained w [] = w ∷ []
  insert_retained w (first ∷ rest) =
      let later = insert_retained w rest in
      if stands_after (compare_retained w first) then first ∷ later else w ∷ first ∷ rest

  unfoldable pub newest_first : List RetainedWorkspace → List RetainedWorkspace
  unfolding insert_retained
  newest_first [] = []
  newest_first (w ∷ ws) = insert_retained w (newest_first ws)

  unfoldable pub workspaces_to_evict : List RetainedWorkspace → WorkspaceRetention → List String
  unfolding newest_first may_evict
  workspaces_to_evict retained retention =
      map (λ w. w.key)
        (keep (may_evict retention) (drop (max retention.limit 1) (newest_first retained)))
