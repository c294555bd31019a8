-- ===== src/Scheduler/Claims.antt =====
-- packages/core/src/core/transitions/claims.ts: the identities of issues and the finished work.
use sloppenheimer_ts.Base.{String, [], ◌∷◌, if◌then◌else◌, leb, length, string_eq}
use sloppenheimer_ts.Collections.{Map, with_entry}
use sloppenheimer_ts.Domain.Issue.{Issue}
use sloppenheimer_ts.Scheduler.State.{RuntimeState, CompletedEntry, remembered_identifiers}

-- What is left of a map without its oldest entry.
abbrev drop_first {ℓ κ} : {K : Type ℓ} {V : Type κ} → Map K V → Map K V
drop_first [] = []
drop_first (x ∷ m) = m

unfoldable pub note_issue : Issue → RuntimeState → RuntimeState
unfolding with_entry
note_issue issue state =
    let identifiers = with_entry state.identifiers issue.id issue.identifier in
    record state {
      identifiers =
          if leb (length identifiers) remembered_identifiers
          then identifiers
          else drop_first identifiers;
    }

unfoldable pub complete_issue : String → CompletedEntry → RuntimeState → RuntimeState
complete_issue id finished state = record state {
  completed = with_entry state.completed id finished;
}
