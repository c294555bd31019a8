-- ===== src/Handoff/Action.antt =====
-- packages/core/src/core/handoff-decision.ts: what one observation of a pull request leaves to do.
use sloppenheimer_ts.Base.{ℕ, String, Bool, false, List, Option, some, ◌==◌, string_eq, option_eq}
use sloppenheimer_ts.Handoff.Observation.{PullRequest, opened, closed}
use sloppenheimer_ts.Handoff.Entry.{HandoffEntry}

pub data HandoffAction : Type 0 where
  no_action : HandoffAction
  request_review : String → HandoffAction
  resolve_threads : String → List String → HandoffAction
  merge : String → HandoffAction
  complete : Option String → HandoffAction
  note_closed : HandoffAction
  repair : String → Option String → ℕ → HandoffAction
  rebase : String → String → HandoffAction

pub record HandoffDecision : Type 0 where
  pub handoff : HandoffEntry
  pub action : HandoffAction

-- A step carries the handoff on, or ends the pass.
pub data Step : Type 0 where
  carry : HandoffEntry → Step
  decide : HandoffEntry → HandoffAction → Step

abbrev pub continue_with : Step → (HandoffEntry → HandoffDecision) → HandoffDecision
continue_with (carry h) k = k h
continue_with (decide h a) k = record { handoff = h; action = a }

-- `observation.headSha` of either shape.
abbrev pub head_of : PullRequest → Option String
head_of (opened p) = some p.head_sha
head_of (closed c) = c.head_sha

-- The pull request is open at this head.
abbrev pub open_at : PullRequest → Option String → Bool
open_at (opened p) head = some p.head_sha == head
open_at (closed _) head = false
