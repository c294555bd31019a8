-- ===== src/Durable/Cleanup.antt =====
-- packages/core/src/core/durable/cleanup.ts: the removal of a workspace that is no longer needed, as
-- durable work of its own. What the loop meets is an argument: other writers that drop the cleanup,
-- commits that fail, and the removals' answers and instants. A cleanup that is dropped and queued anew
-- while the loop waits or removes is not modelled: the loop would go on with the new one.
pub mod Attempts
use sloppenheimer_ts.Base.{
  ℕ, zero, suc, ◌+◌, ◌*◌, ◌^◌, String, Bool, true, false, not, Option, none, some, leb,
  if◌then◌else◌,
}
use sloppenheimer_ts.Durable.Types.{
  Artifact, CleanupState, queued, running, retry, completed, intervention, Cleanup, cancelled,
  DurableWorkflow,
}
use sloppenheimer_ts.Durable.Host.{Update}

-- `queueCleanup`: the first request counts, and only a workflow with an artifact has a workspace.
abbrev pub queued_cleanup : Artifact → ℕ → Cleanup
queued_cleanup a now = record {
  workspace_path = a.workspace_path;
  workspace_key = a.workspace_key;
  state = queued;
  attempts = 0;
  due_at = now;
  reason = none;
}

unfoldable pub queue_cleanup : ℕ → Update
queue_cleanup now w = elim w.artifact [
  | none ↦ none
  | some a ↦ elim w.cleanup [
    | some _ ↦ none
    | none ↦ some (record w { intent = cancelled; cleanup = some (queued_cleanup a now) })
  ]
]

-- The answer of one removal, with the instant at which it came: an error has its message.
pub record Removal : Type 0 where
  pub error : Option String
  pub settled_at : ℕ

abbrev pub is_finished : CleanupState → Bool
is_finished completed = true
is_finished intervention = true
is_finished _ = false

-- `{ ...cleanup, attempts: attempt, state: 'running' }`.
unfoldable pub claimed_cleanup : Cleanup → Cleanup
claimed_cleanup c = record c { attempts = c.attempts + 1; state = running }

abbrev pub state_after : Option String → ℕ → CleanupState
state_after none attempt = completed
state_after (some message) attempt = if leb 5 attempt then intervention else retry

-- The write after the removal, on the cleanup that was claimed.
unfoldable pub settled_cleanup : Cleanup → Removal → Cleanup
settled_cleanup c r = record c {
  state = state_after r.error c.attempts;
  due_at = r.settled_at + 1000 * 2 ^ c.attempts;
  reason = r.error;
}

-- What a write of the loop meets: it is committed, the commit fails, which interrupts the loop, or
-- another writer has dropped the cleanup, so that the write changes nothing.
pub data Written : Type 0 where
  stands fails dropped : Written

-- What one round of the loop meets: whether the record still has a cleanup, and the two writes with
-- the removal between them.
pub record Round : Type 0 where
  pub there : Bool
  pub claim : Written
  pub removal : Removal
  pub settlement : Written

-- How the loop ends: with no cleanup to do, with a finished one, because its claim was replaced, or
-- interrupted.
pub data CleanupEnd : Type 0 where
  gone overtaken interrupted out_of_fuel : CleanupEnd
  ended : Cleanup → CleanupEnd

-- The end of a round after its removal; `rest` is what the next rounds make of a settled cleanup.
abbrev pub after_removal : Written → CleanupEnd → CleanupEnd
after_removal stands rest = rest
after_removal fails rest = interrupted
after_removal dropped rest = gone

abbrev pub after_claim : Written → CleanupEnd → CleanupEnd
after_claim stands rest = rest
after_claim fails rest = interrupted
after_claim dropped rest = overtaken

-- The loop on fuel; `rounds n` is what the attempt after the n-th meets.
unfoldable pub run_cleanup : ℕ → Cleanup → (ℕ → Round) → CleanupEnd
unfolding claimed_cleanup settled_cleanup
run_cleanup zero c rounds = out_of_fuel
run_cleanup (suc fuel) c rounds =
    let round = rounds c.attempts in
    let rest = run_cleanup fuel (settled_cleanup (claimed_cleanup c) round.removal) rounds in
    if not round.there
    then gone
    else if is_finished c.state
    then ended c
    else after_claim round.claim (after_removal round.settlement rest)
