-- ===== src/Scheduler/Workspaces/Passes.antt =====
-- Counts that a removal has overtaken are refused, and one pass at a time answers every request.
use sloppenheimer_ts.Base.{
  ℕ, ◌+◌, ◌<◌, ◌≡◌, refl, String, Bool, true, false, ◌&&◌, [], ◌∷◌, ◌++◌, List, Option, none, some,
  if◌then◌else◌, nat_eq, string_eq, arith, All, ap, ◌∙◌,
}
use sloppenheimer_ts.Collections.{get, has, with_entry}
use sloppenheimer_ts.Collections.Laws.{
  IsKeyed, get-with_entry, has-with_entry, get-without_entry, without_entry-IsKeyed,
  with_entry-IsKeyed, has_of_get,
}
use sloppenheimer_ts.Collections.Capped.{with_capped_entry_bounded, has-without_entry_self}
use sloppenheimer_ts.Scheduler.State.{RuntimeState, RetainedWorkspaceEntry}
use sloppenheimer_ts.Scheduler.Workspaces.{
  record_retained_workspaces, forget_retained_workspaces, recorded_workspace_removals, admit_prune,
  take_prune_request, release_prune_run,
}

-- Counts that arrive one after another, each with the run that counted.
unfoldable pub record_counts : List (RetainedWorkspaceEntry × ℕ) → RuntimeState → RuntimeState
unfolding record_retained_workspaces
record_counts [] state = state
record_counts ((entry, run_id) ∷ counts) state =
    record_counts counts (record_retained_workspaces entry run_id state)

-- What a removal leaves of an issue: no row, and the counter that it recorded.
record HasGone (id : String) (counter : ℕ) (state : RuntimeState) : Type 0 where
  keyed : IsKeyed state.retained_workspaces
  no_row : get state.retained_workspaces id ≡ none
  recorded : get state.workspace_removals id ≡ some counter

record_retained_workspaces-HasGone :
    (id : String) (counter : ℕ) (entry : RetainedWorkspaceEntry) (run_id : ℕ) (state : RuntimeState)
    → run_id < counter
    → HasGone id counter state
    → HasGone id counter (record_retained_workspaces entry run_id state)
unfolding record_retained_workspaces
record_retained_workspaces-HasGone id counter entry run_id state h v = ground (
  arith,
  get-with_entry state.retained_workspaces entry.issue_id id entry,
  get-without_entry state.retained_workspaces entry.issue_id id v.keyed,
  with_entry-IsKeyed state.retained_workspaces entry.issue_id entry v.keyed,
  without_entry-IsKeyed state.retained_workspaces entry.issue_id v.keyed,
)

record_counts-HasGone :
    (id : String) (counter : ℕ) (counts : List (RetainedWorkspaceEntry × ℕ)) (state : RuntimeState)
    → All (λ c. c.1 < counter) counts
    → HasGone id counter state
    → HasGone id counter (record_counts counts state)
unfolding record_counts
record_counts-HasGone id counter [] state h v = v
record_counts-HasGone id counter ((entry, run_id) ∷ counts) state h v =
    record_counts-HasGone id counter counts (record_retained_workspaces entry run_id state) h.1
      (record_retained_workspaces-HasGone id counter entry run_id state h.0 v)

-- After an issue's workspaces were removed, no sequence of counts by runs whose numbers are below
-- the counter at the removal, of this issue or of others, gives the issue a row again.
pub removal_overtakes_counts :
    (id : String) (counts : List (RetainedWorkspaceEntry × ℕ)) (state : RuntimeState)
    → IsKeyed state.retained_workspaces
    → IsKeyed state.workspace_removals
    → All (λ c. c.1 < state.next_run_id) counts
    → get (record_counts counts (forget_retained_workspaces id state)).retained_workspaces id ≡ none
unfolding forget_retained_workspaces
removal_overtakes_counts id counts state k l h =
    let gone : HasGone id state.next_run_id (forget_retained_workspaces id state) = ground (
      arith,
      get-without_entry state.retained_workspaces id id k,
      without_entry-IsKeyed state.retained_workspaces id k,
      (with_capped_entry_bounded state.workspace_removals id state.next_run_id
          recorded_workspace_removals l (omega arith)).1,
    ) in
    (record_counts-HasGone id state.next_run_id counts (forget_retained_workspaces id state) h
      gone).no_row

-- What may happen to the passes over an issue: a run asks for one, and the running pass finishes or
-- is given up.
pub data PruneEvent : Type 0 where
  asks : ℕ → PruneEvent
  finishes gives_up : PruneEvent

unfoldable pub prune_step : String → PruneEvent → RuntimeState → RuntimeState
unfolding admit_prune take_prune_request release_prune_run
prune_step id (asks run_id) state = (admit_prune id run_id state).1
prune_step id finishes state = (take_prune_request id state).1
prune_step id gives_up state = release_prune_run id state

unfoldable pub prune_steps : String → List PruneEvent → RuntimeState → RuntimeState
unfolding prune_step
prune_steps id [] state = state
prune_steps id (e ∷ es) state = prune_steps id es (prune_step id e state)

abbrev pub one_if : Bool → ℕ
one_if b = if b then 1 else 0

-- The passes that are started, and those of the running ones that end.
unfoldable pub starts : String → PruneEvent → RuntimeState → ℕ
starts id (asks run_id) state = one_if (admit_prune id run_id state).0
starts id finishes state = 0
starts id gives_up state = 0

abbrev owes_none : Option ℕ → Bool
owes_none none = true
owes_none (some owed) = false

unfoldable pub stops : String → PruneEvent → RuntimeState → ℕ
stops id (asks run_id) state = 0
stops id finishes state =
    one_if (has state.prune_runs id && owes_none (take_prune_request id state).0)
stops id gives_up state = one_if (has state.prune_runs id)

prune_step_balance :
    (id : String) (e : PruneEvent) (state : RuntimeState)
    → IsKeyed state.prune_runs
    → (starts id e state + one_if (has state.prune_runs id)
        ≡ stops id e state + one_if (has (prune_step id e state).prune_runs id))
      × IsKeyed (prune_step id e state).prune_runs
unfolding prune_step starts stops admit_prune take_prune_request release_prune_run
prune_step_balance id (asks run_id) state k = ground (
  arith,
  has-with_entry state.prune_runs id id (some run_id),
  has-with_entry state.prune_runs id id none,
  with_entry-IsKeyed state.prune_runs id (some run_id) k,
  with_entry-IsKeyed state.prune_runs id none k,
)
prune_step_balance id finishes state k = finished (get state.prune_runs id) refl
  where
    finished :
        (o : Option (Option ℕ))
        → get state.prune_runs id ≡ o
        → (starts id finishes state + one_if (has state.prune_runs id)
            ≡ stops id finishes state + one_if (has (prune_step id finishes state).prune_runs id))
          × IsKeyed (prune_step id finishes state).prune_runs
    finished none e = ground (
      arith,
      e,
      has-without_entry_self state.prune_runs id k,
      without_entry-IsKeyed state.prune_runs id k,
    )
    finished (some none) e = ground (
      arith,
      e,
      has-without_entry_self state.prune_runs id k,
      without_entry-IsKeyed state.prune_runs id k,
    )
    finished (some (some owed)) e = ground (
      arith,
      e,
      has_of_get state.prune_runs id (some owed) e,
      has-with_entry state.prune_runs id id none,
      with_entry-IsKeyed state.prune_runs id none k,
    )
prune_step_balance id gives_up state k = ground (
  arith,
  has-without_entry_self state.prune_runs id k,
  without_entry-IsKeyed state.prune_runs id k,
)

unfoldable pub all_starts : String → List PruneEvent → RuntimeState → ℕ
unfolding prune_step
all_starts id [] state = 0
all_starts id (e ∷ es) state = starts id e state + all_starts id es (prune_step id e state)

unfoldable pub all_stops : String → List PruneEvent → RuntimeState → ℕ
unfolding prune_step
all_stops id [] state = 0
all_stops id (e ∷ es) state = stops id e state + all_stops id es (prune_step id e state)

-- Whatever runs ask and however passes end: the passes over an issue that were started, and the one
-- that ran at the start if one did, are those that ended, and the one that runs at the end if one
-- does. So no two run at once.
pub prune_passes_balance :
    (id : String) (es : List PruneEvent) (state : RuntimeState)
    → IsKeyed state.prune_runs
    → all_starts id es state + one_if (has state.prune_runs id)
      ≡ all_stops id es state + one_if (has (prune_steps id es state).prune_runs id)
unfolding prune_steps all_starts all_stops
prune_passes_balance id [] state k = omega arith
prune_passes_balance id (e ∷ es) state k =
    let (balance, keyed) = prune_step_balance id e state k in
    omega (arith, balance, prune_passes_balance id es (prune_step id e state) keyed)

-- The requests of runs, in order.
abbrev pub all_ask : List ℕ → List PruneEvent
all_ask [] = []
all_ask (r ∷ rs) = asks r ∷ all_ask rs

-- A request while a pass runs is recorded against it.
noted : String → ℕ → RuntimeState → RuntimeState
noted id r state = record state { prune_runs = with_entry state.prune_runs id (some r) }

asks-noted :
    (id : String) (r : ℕ) (state : RuntimeState)
    → has state.prune_runs id ≡ true
    → (prune_step id (asks r) state ≡ noted id r state) × (starts id (asks r) state ≡ 0)
unfolding prune_step starts admit_prune noted
asks-noted id r state h = ground arith

noted-has :
    (id : String) (r : ℕ) (state : RuntimeState) → has (noted id r state).prune_runs id ≡ true
unfolding noted
noted-has id r state = ground (arith, has-with_entry state.prune_runs id id (some r))

noted-owed :
    (id : String) (r : ℕ) (state : RuntimeState)
    → (take_prune_request id (noted id r state)).0 ≡ some r
unfolding noted take_prune_request
noted-owed id r state = ground (arith, get-with_entry state.prune_runs id id (some r))

-- Runs that ask while a pass runs are refused, and the newest of them is what the pass is owed when
-- it finishes.
pub prune_request_kept :
    (id : String) (older : List ℕ) (newest : ℕ) (state : RuntimeState)
    → has state.prune_runs id ≡ true
    → (all_starts id (all_ask (older ++ newest ∷ [])) state ≡ 0)
      × ((take_prune_request id (prune_steps id (all_ask (older ++ newest ∷ [])) state)).0
          ≡ some newest)
unfolding prune_steps all_starts
prune_request_kept id [] newest state h =
    let (stepped, refused) = asks-noted id newest state h in
    (
      omega (arith, refused),
      ap (λ s. (take_prune_request id s).0) stepped ∙ noted-owed id newest state,
    )
prune_request_kept id (r ∷ older) newest state h =
    let (stepped, refused) = asks-noted id r state h in
    let (later, owed) =
      prune_request_kept id older newest (noted id r state) (noted-has id r state) in
    let rest = all_ask (older ++ newest ∷ []) in
    (
      omega (arith, refused, ap (all_starts id rest) stepped, later),
      ap (λ s. (take_prune_request id (prune_steps id rest s)).0) stepped ∙ owed,
    )
