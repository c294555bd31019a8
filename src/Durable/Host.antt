-- ===== src/Durable/Host.antt =====
-- packages/core/src/core/durable/live-journal.ts: the host's in-memory records beside the store. One
-- semaphore runs the writers one after another, so a writer is a function of the whole host. The
-- flag `available` says whether the database answers the commit of this write.
pub mod Sync
pub mod Owners
use sloppenheimer_ts.Base.{
  ℕ, ◌+◌, String, Bool, true, false, not, ◌&&◌, ◌||◌, List, [], ◌∷◌, Option, none, some, ◌==◌, ◌!=◌,
  if◌then◌else◌, Eq, nat_eq, string_eq, option_eq,
}
use sloppenheimer_ts.Collections.{Map, get, with_entry}
use sloppenheimer_ts.Domain.Issue.{Issue}
use sloppenheimer_ts.Durable.Types.{DurableWorkflow, Intent, SourceControlTarget, AfterPublication}
use sloppenheimer_ts.Durable.Transition.{is_active, advance, transition_workflow, intent_changed}
use sloppenheimer_ts.Durable.Store.{Store, StoreError, Result, ok, err, commit}
use sloppenheimer_ts.Durable.Admission.{
  Admission, refused, held, admitted, RetryMismatch, admit, current_for, next_of,
}

pub record Host : Type 0 where
  pub records : Map String DurableWorkflow
  pub store : Store
  pub failure : Option StoreError

-- A mutation ends, or is interrupted; a store failure is kept, the first one, for the supervisor.
pub data Exit {ℓ} (A : Type ℓ) : Type ℓ where
  done : A → Host → Exit A
  interrupted : Host → Exit A

abbrev pub host_of {ℓ} : {A : Type ℓ} → Exit A → Host
host_of (done a h) = h
host_of (interrupted h) = h

abbrev pub first_failure : Option StoreError → StoreError → Option StoreError
first_failure none e = some e
first_failure (some e) _ = some e

unfoldable pub kept : Result Store → DurableWorkflow → Host → Exit (Unit {0})
unfolding with_entry
kept (ok t) next h =
    done tt (record h { records = with_entry h.records next.issue_id next; store = t })
kept (err e) next h = interrupted (record h { failure = first_failure h.failure e })

unfoldable pub persist : Bool → DurableWorkflow → Option ℕ → Host → Exit (Unit {0})
unfolding commit kept
persist available next expected h = kept (commit available next expected h.store) next h

-- `next.revision === current.revision ? { ...next, revision + 1, updatedAt: now } : next`.
unfoldable pub stamped : DurableWorkflow → DurableWorkflow → ℕ → DurableWorkflow
stamped current next now =
    if next.revision == current.revision
    then record next { revision = current.revision + 1; updated_at = now }
    else next

-- The workflow is another owner's, or is not active although it must be.
unfoldable pub fenced : DurableWorkflow → Option String → Bool → Bool
fenced current none require_active = require_active && not (is_active current.intent)
fenced current (some owner) require_active =
    current.owner != some owner || require_active && not (is_active current.intent)

-- An update answers `none` where the source returns the object that it was given.
abbrev pub Update : Type 0
Update = DurableWorkflow → Option DurableWorkflow

abbrev pub changed {ℓ} : {A : Type ℓ} → (A → A) → A → Option A
changed f a = some (f a)

unfoldable pub write_row :
    Option DurableWorkflow → Bool → Update → Option String → Bool → ℕ → Host → Exit (Unit {0})
unfolding persist stamped fenced
write_row none available update owner require_active now h = done tt h
write_row (some current) available update owner require_active now h =
    if fenced current owner require_active then interrupted h else elim (update current) [
      | none ↦ done tt h
      | some next ↦ persist available (stamped current next now) (some current.revision) h
    ]

unfoldable pub write : Bool → String → Update → Option String → Bool → ℕ → Host → Exit (Unit {0})
unfolding write_row get
write available id update owner require_active now h =
    write_row (get h.records id) available update owner require_active now h

-- `setIntent`: `now` is read before the write, and stamps the event. The transition has already
-- advanced the revision of what it returns.
unfoldable pub record_named : Map String DurableWorkflow → String → Option DurableWorkflow
record_named [] identifier = none
record_named ((k, w) ∷ rows) identifier =
    if w.identifier == identifier then some w else record_named rows identifier

abbrev pub intent_update : Intent → ℕ → Update
intent_update intent now w = elim (advance w (intent_changed intent) now) [
  | none ↦ none
  | some _ ↦ some (transition_workflow w (intent_changed intent) now)
]

unfoldable pub set_row_intent :
    Option DurableWorkflow → Bool → Intent → ℕ → ℕ → Host → Exit (Unit {0})
unfolding write transition_workflow
set_row_intent none available intent now later h = done tt h
set_row_intent (some w) available intent now later h =
    write available w.issue_id (intent_update intent now) none false later h

unfoldable pub set_intent : Bool → String → Intent → ℕ → ℕ → Host → Exit (Unit {0})
unfolding record_named set_row_intent
set_intent available identifier intent now later h =
    set_row_intent (record_named h.records identifier) available intent now later h

abbrev pub previous_revision : Option DurableWorkflow → Option ℕ
previous_revision none = none
previous_revision (some w) = some w.revision

-- What `start` answers: the owner under which the run's journal writes.
abbrev pub and_answer : Exit (Unit {0}) → Option String → Exit (Option String)
and_answer (done _ h) answer = done answer h
and_answer (interrupted h) answer = interrupted h

unfoldable pub carry_out : Admission → Option DurableWorkflow → Bool → Host → Exit (Option String)
unfolding persist
carry_out refused current available h = done none h
carry_out (held w) current available h =
    and_answer (persist available w (previous_revision current) h) none
carry_out (admitted w) current available h =
    and_answer (persist available w (previous_revision current) h) w.owner

unfoldable pub start :
    Bool
    → Issue
    → SourceControlTarget
    → AfterPublication
    → Bool
    → RetryMismatch
    → ℕ
    → Host
    → Exit (Option String)
unfolding current_for admit carry_out
start available issue target after_publication verification_required mismatch now h =
    let current = current_for h.records issue in
    carry_out (admit current issue target after_publication verification_required mismatch now)
      current available h
