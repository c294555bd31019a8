-- ===== src/Durable/Restore/Laws.antt =====
-- No restored record runs anything, and nothing that was done is forgotten.
use sloppenheimer_ts.Base.{
  ℕ, ◌≡◌, ◌≢◌, ◌⊎◌, inl, inr, refl, String, Bool, true, false, List, [], ◌∷◌, Option, none, some,
  arith, All, map, subst, sym, Bool-cases, is_some-some,
}
use sloppenheimer_ts.Domain.Handoff.{HandoffSnapshot}
use sloppenheimer_ts.Durable.Types.{
  DurableWorkflow, Artifact, ExternalOperation, ExternalOutcome, pending, WaitCondition, capacity,
  checks, review, eligibility, continuation, retry, WorkflowStatus, queued, executing, stopping,
  reconciling, retrying, waiting, intervention, completed, SourceControlTarget,
}
use sloppenheimer_ts.Durable.Store.{Store, ok, >>=-eq-ok}
use sloppenheimer_ts.Durable.Restore.{
  has_pending, is_pending, has_published, condition_stands, stands, restored, restore_one,
  restore_workflows, restart_reason,
}

-- What a wait is for is recorded, or a publication is.
abbrev pub HasAwaited : WaitCondition → DurableWorkflow → Type 0
HasAwaited condition w =
    (condition ≡ continuation)
    ⊎ ((condition ≡ review) × (h : HandoffSnapshot) × (w.handoff ≡ some h))
    ⊎ ((condition ≡ retry) × (t : SourceControlTarget) × (w.run_target ≡ some t))
    ⊎ ((a : Artifact) × (head : String) × (w.artifact ≡ some a) × (a.published_head ≡ some head))

-- The statuses in which nothing is queued or under way.
pub data Rests (w : DurableWorkflow) : WorkflowStatus → Type 0 where
  is_done : (c : Option String) → Rests w (completed c)
  is_held : (reason : String) → Rests w (intervention reason)
  waits :
      (condition : WaitCondition) (until : ℕ)
      → HasAwaited condition w
      → Rests w (waiting condition until)

pub record IsAtRest (w : DurableWorkflow) : Type 0 where
  pub resting : Rests w w.status
  pub known :
      (w.external_operation ≡ none)
      ⊎ ((o : ExternalOperation) × (w.external_operation ≡ some o) × (o.outcome ≢ pending))

published-HasAwaited :
    (condition : WaitCondition) (w : DurableWorkflow) (a : Option Artifact)
    → w.artifact ≡ a
    → has_published a ≡ true
    → HasAwaited condition w
published-HasAwaited condition w none e h = cc
published-HasAwaited condition w (some a) e h =
    let (head, p) = is_some-some a.published_head h in inr (inr (inr (a, head, e, p)))

condition-HasAwaited :
    (condition : WaitCondition) (w : DurableWorkflow)
    → condition_stands condition w ≡ true
    → HasAwaited condition w
condition-HasAwaited continuation w h = inl refl
condition-HasAwaited review w h = let (x, e) = is_some-some w.handoff h in inr (inl (refl, x, e))
condition-HasAwaited retry w h =
    let (x, e) = is_some-some w.run_target h in inr (inr (inl (refl, x, e)))
condition-HasAwaited capacity w h = cc
condition-HasAwaited checks w h = cc
condition-HasAwaited eligibility w h = cc

stands-Rests : (s : WorkflowStatus) (w : DurableWorkflow) → stands s w ≡ true → Rests w s
stands-Rests (completed c) w h = is_done c
stands-Rests (intervention reason) w h = is_held reason
stands-Rests (waiting condition until) w h =
    waits condition until (elim (Bool-cases (condition_stands condition w)) [
      | inl e ↦ condition-HasAwaited condition w e
      | inr e ↦ published-HasAwaited condition w w.artifact refl (rw e at h)
    ])
stands-Rests (queued o) w h = cc
stands-Rests (executing o until) w h = cc
stands-Rests (stopping o until) w h = cc
stands-Rests (reconciling o) w h = cc
stands-Rests (retrying o until) w h = cc

not_pending :
    (o : Option ExternalOperation)
    → has_pending o ≡ false
    → (o ≡ none) ⊎ ((e : ExternalOperation) × (o ≡ some e) × (e.outcome ≢ pending))
not_pending none h = inl refl
not_pending (some e) h = inr (e, refl, λ p. absurd (pending_known e.outcome p h))
  where
    pending_known : (x : ExternalOutcome) → x ≡ pending → is_pending x ≡ false → ⊥
    pending_known x p h = cc

restored-stands :
    (w : DurableWorkflow) (now : ℕ)
    → (stands (restored w now).status (restored w now) ≡ true)
      × (has_pending (restored w now).external_operation ≡ false)
unfolding restored
restored-stands w now = ground arith

pub restored-IsAtRest : (w : DurableWorkflow) (now : ℕ) → IsAtRest (restored w now)
restored-IsAtRest w now =
    let (s, k) = restored-stands w now in
    record {
      resting = stands-Rests (restored w now).status (restored w now) s;
      known = not_pending (restored w now).external_operation k;
    }

-- Restoring a record that was restored, at whatever later time, changes nothing.
pub restored_twice :
    (w : DurableWorkflow) (now later : ℕ) → restored (restored w now) later ≡ restored w now
unfolding restored
restored_twice w now later = ground arith

-- What a restart keeps of a record.
pub record Retains (w v : DurableWorkflow) : Type 0 where
  pub artifact : v.artifact ≡ w.artifact
  pub intent : v.intent ≡ w.intent
  pub target : v.run_target ≡ w.run_target
  pub handoff : v.handoff ≡ w.handoff
  pub cleanup : v.cleanup ≡ w.cleanup
  pub coding : v.coding_attempts ≡ w.coding_attempts
  pub repairs : v.repair_attempts ≡ w.repair_attempts
  pub deadline : v.budget_deadline ≡ w.budget_deadline
  pub status : (v.status ≡ w.status) ⊎ (v.status ≡ intervention restart_reason)

-- A restart keeps the artifact, intent, target, handoff, cleanup, attempts and deadline of a record, and
-- its status is the old one or the intervention of a restart.
pub restored-Retains : (w : DurableWorkflow) (now : ℕ) → Retains w (restored w now)
unfolding restored
restored-Retains w now = ground arith

restore_one_record :
    (available : Bool) (w v : DurableWorkflow) (now : ℕ) (s t : Store)
    → restore_one available w now s ≡ ok (v, t)
    → v ≡ restored w now
unfolding restore_one restored
restore_one_record available w v now s t h = ground arith

All-IsAtRest : (ws : List DurableWorkflow) (now : ℕ) → All IsAtRest (map (λ w. restored w now) ws)
All-IsAtRest [] now = tt
All-IsAtRest (w ∷ ws) now = (restored-IsAtRest w now, All-IsAtRest ws now)

restore_workflows_records :
    (available : Bool) (ws vs : List DurableWorkflow) (now : ℕ) (s t : Store)
    → restore_workflows available ws now s ≡ ok (vs, t)
    → vs ≡ map (λ w. restored w now) ws
unfolding restore_workflows
restore_workflows_records available [] vs now s t h = ground arith
restore_workflows_records available (w ∷ ws) vs now s t h =
    let (r, first, more) = >>=-eq-ok (restore_one available w now s) _ h in
    let (q, later, last) = >>=-eq-ok (restore_workflows available ws now r.1) _ more in
    cc (
      last,
      restore_one_record available w r.0 now s r.1 first,
      restore_workflows_records available ws q.0 now r.1 q.1 later,
    )

-- One list is related to the other place by place.
abbrev pub Each :
    (DurableWorkflow → DurableWorkflow → Type 0)
    → List DurableWorkflow
    → List DurableWorkflow
    → Type 0
Each R [] [] = Unit
Each R (w ∷ ws) (v ∷ vs) = R w v × Each R ws vs
Each R [] (v ∷ vs) = ⊥
Each R (w ∷ ws) [] = ⊥

Each-Retains :
    (ws : List DurableWorkflow) (now : ℕ) → Each Retains ws (map (λ w. restored w now) ws)
Each-Retains [] now = tt
Each-Retains (w ∷ ws) now = (restored-Retains w now, Each-Retains ws now)

-- A start of the host that does not fail answers with one record for each stored one. It keeps the
-- artifact, intent, target, handoff, cleanup, attempts and deadline, and its status is the old one or
-- the intervention of a restart. Each is completed, held, or waits for a continuation, for the review
-- of a recorded handoff, for a retry of a recorded target, or with a published head; and no external
-- operation of it is pending.
pub restore_workflows-IsAtRest :
    (available : Bool) (ws vs : List DurableWorkflow) (now : ℕ) (s t : Store)
    → restore_workflows available ws now s ≡ ok (vs, t)
    → Each Retains ws vs × All IsAtRest vs
restore_workflows-IsAtRest available ws vs now s t h =
    let e = restore_workflows_records available ws vs now s t h in
    (
      subst (Each Retains ws) (sym e) (Each-Retains ws now),
      subst (All IsAtRest) (sym e) (All-IsAtRest ws now),
    )
