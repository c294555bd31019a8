-- ===== src/Durable/Host/Sync.antt =====
-- The in-memory records are the rows of the store until a commit fails. A commit that was given up at
-- its deadline may still take effect in the worker, at any later time.
use sloppenheimer_ts.Base.{
  ℕ, ◌≡◌, is_some, if◌then◌else◌, String, Bool, List, [], ◌∷◌, Option, nat_eq, string_eq,
}
use sloppenheimer_ts.Collections.{get}
use sloppenheimer_ts.Domain.Issue.{Issue}
use sloppenheimer_ts.Durable.Types.{DurableWorkflow, Intent, SourceControlTarget, AfterPublication}
use sloppenheimer_ts.Durable.Store.{Store, ok, err, commit_row}
use sloppenheimer_ts.Durable.Admission.{Admission, RetryMismatch}
use sloppenheimer_ts.Durable.Host.{Host, host_of, Update, write, set_intent, start}

abbrev pub IsInSync : Host → Type 0
IsInSync h = (id : String) → get h.records id ≡ get h.store.rows id

-- The worker commits a request whose response the host has given up on.
unfoldable pub land : DurableWorkflow → Option ℕ → Host → Host
land w expected h =
    if is_some h.failure
    then (elim (commit_row w expected h.store) [ ok t ↦ record h { store = t } | err e ↦ h ])
    else h

-- The calls that write durable records through the host, and the commits that land late: none was
-- given up before a failure.
pub data HostCall : Type 0 where
  lands : DurableWorkflow → Option ℕ → HostCall
  writes : Bool → String → Update → Option String → Bool → ℕ → HostCall
  intends : Bool → String → Intent → ℕ → ℕ → HostCall
  starts :
      Bool → Issue → SourceControlTarget → AfterPublication → Bool → RetryMismatch → ℕ → HostCall

unfoldable pub perform : HostCall → Host → Host
unfolding write set_intent start land
perform (lands w expected) h = land w expected h
perform (writes available id update owner require_active now) h =
    host_of (write available id update owner require_active now h)
perform (intends available identifier intent now later) h =
    host_of (set_intent available identifier intent now later h)
perform (starts available issue target after_publication required mismatch now) h =
    host_of (start available issue target after_publication required mismatch now h)

unfoldable pub perform_all : Host → List HostCall → Host
perform_all h [] = h
perform_all h (c ∷ cs) = perform_all (perform c h) cs
