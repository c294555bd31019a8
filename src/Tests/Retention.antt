-- ===== src/Tests/Retention.antt =====
-- A run of the theorem about the eviction of retained workspaces.
use Prim.Native.Nat.{Ordering}
use sloppenheimer_ts.Base.{
  ◌≡◌, ◌≤◌, ◌+◌, true, false, List, [], ◌∷◌, none, some, any, keep, length, max, All,
}
use sloppenheimer_ts.Domain.Retention.{
  WorkspaceRetention, RetainedWorkspace, may_evict, workspaces_to_evict,
}
use sloppenheimer_ts.Domain.Retention.Cap.{workspaces_to_evict_caps, names_evictable}

-- One with no date, and one of a live peer.
abbrev run_workspaces : List RetainedWorkspace
run_workspaces =
    record { key = "run-1"; retained_at = some 10; run_id = some 1; owner_finished = true }
    ∷ record { key = "run-2"; retained_at = none; run_id = none; owner_finished = true }
    ∷ record { key = "run-3"; retained_at = some 5; run_id = some 3; owner_finished = false }
    ∷ []

abbrev one_protected : WorkspaceRetention
one_protected = record { limit = 1; protected_keys = "run-9" ∷ [] }

workspaces_to_evict_caps_example :
    (length (keep (may_evict one_protected) run_workspaces)
      ≤ length (workspaces_to_evict (λ s t. Ordering.eq) run_workspaces one_protected)
        + max one_protected.limit 1)
    × All
        (λ key. any (names_evictable one_protected key) run_workspaces ≡ true)
        (workspaces_to_evict (λ s t. Ordering.eq) run_workspaces one_protected)
workspaces_to_evict_caps_example =
    workspaces_to_evict_caps (λ s t. Ordering.eq) run_workspaces one_protected
