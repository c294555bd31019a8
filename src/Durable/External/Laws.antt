-- ===== src/Durable/External/Laws.antt =====
-- What a call to the code host rests on, and that one call at a time owns a workflow.
use sloppenheimer_ts.Base.{
  ℕ, ◌+◌, ◌≤◌, ◌<◌, ◌≡◌, ◌≢◌, ◌⊎◌, refl, String, Bool, true, false, ◌&&◌, ◌||◌, not, Option, none,
  some, ◌==◌, arith, leb, ap, sym, ◌∙◌, some_inj, subst, Bool-cases, inl, inr, nat_eq, string_eq,
  option_discrete,
}
use sloppenheimer_ts.Collections.{get}
use sloppenheimer_ts.Collections.Laws.{get-with_entry}
use sloppenheimer_ts.Durable.Types.{
  ExternalOperationKind, ExternalOperation, Artifact, DurableWorkflow, active, pending,
}
use sloppenheimer_ts.Durable.Transition.{is_active}
use sloppenheimer_ts.Durable.Restore.{has_pending}
use sloppenheimer_ts.Durable.Host.{
  Host, Exit, done, interrupted, write, write_row, kept, persist, stamped, fenced,
}
use sloppenheimer_ts.Durable.Store.{Store, Result, ok, err, commit}
use sloppenheimer_ts.Durable.External.{
  owns, settled_as, settle_external, CallExit, success, failure, broken, and_launch, and_refuse,
  hold_spent, claim_update, launches, admit_external, permits_pull_request, opens_pull_request,
  published_and_verified, other_head, ExternalAdmission, refused, retries_spent, launched,
  begin_external, begin_admitted, operation_for, operation_id, same_input,
}

-- The artifact, if there is one, was published at this head.
abbrev pub PublishedHead : Option Artifact → String → Type 0
PublishedHead none head = Unit
PublishedHead (some a) head = a.published_head ≡ some head

-- What a launched call to the code host rests on.
pub record MayCall (w : DurableWorkflow) (kind : ExternalOperationKind) (head : String) (now : ℕ)
    (o : ExternalOperation) : Type 0 where
  pub wanted : w.intent ≡ active
  pub in_time : now < w.budget_deadline
  pub alone : has_pending w.external_operation ≡ false
  pub published : PublishedHead w.artifact head
  pub verified :
      (opens_pull_request kind ≡ false)
      ⊎ (published_and_verified w.artifact w.verification_required head ≡ true)
  pub same_head : o.head_sha ≡ head
  pub same_kind : o.kind ≡ kind
  pub is_pending : o.outcome ≡ pending
  pub deadline : (o.deadline ≤ w.budget_deadline) × (o.deadline ≤ now + 60000)
  pub affordable : (same_input w o.id ≡ false) ⊎ (w.repeated_failures < 3)

-- The guards that a launched call has passed.
admit_guards :
    (w : DurableWorkflow) (issue_id : String) (kind : ExternalOperationKind) (head : String)
    (now : ℕ) (o : ExternalOperation)
    → admit_external w issue_id kind head now ≡ launched o
    → (is_active w.intent ≡ true)
      × (leb w.budget_deadline now ≡ false)
      × (has_pending w.external_operation ≡ false)
      × (permits_pull_request w kind head ≡ true)
      × (other_head w.artifact head ≡ false)
      × ((same_input w (operation_id issue_id kind head) && leb 3 w.repeated_failures) ≡ false)
      × (operation_for w issue_id kind head now ≡ o)
unfolding admit_external
admit_guards w issue_id kind head now o h = ground arith

at_published :
    (a : Option Artifact) (head : String) → other_head a head ≡ false → PublishedHead a head
unfolding option_discrete
at_published none head h = tt
at_published (some a) head h = ground arith

either : (a b : Bool) → (not a || b) ≡ true → (a ≡ false) ⊎ (b ≡ true)
either a b h = ground arith

permitted :
    (w : DurableWorkflow) (kind : ExternalOperationKind) (head : String)
    → permits_pull_request w kind head ≡ true
    → (opens_pull_request kind ≡ false)
      ⊎ (published_and_verified w.artifact w.verification_required head ≡ true)
unfolding permits_pull_request
permitted w kind head h = either (opens_pull_request kind) _ h

-- A call is launched only for an active workflow within its time budget that no other call owns, at
-- the published head if there is an artifact, a new pull request only for a verified publication, and
-- not after three failures of the same call; its deadline is within a minute and within the budget.
pub admit_external-MayCall :
    (w : DurableWorkflow) (issue_id : String) (kind : ExternalOperationKind) (head : String)
    (now : ℕ) (o : ExternalOperation)
    → admit_external w issue_id kind head now ≡ launched o
    → MayCall w kind head now o
admit_external-MayCall w issue_id kind head now o h =
    let (wanted, in_time, alone, permits, same, left, e) =
      admit_guards w issue_id kind head now o h in
    subst (MayCall w kind head now) e (record {
      wanted = ground arith;
      in_time = ground arith;
      alone = alone;
      published = at_published w.artifact head same;
      verified = permitted w kind head permits;
      same_head = refl;
      same_kind = refl;
      is_pending = refl;
      deadline = (omega arith, omega arith);
      affordable = ground arith;
    })

-- A call that begins was launched by the workflow that was seen, and the host records it.
begun_kept :
    (r : Result Store) (v : DurableWorkflow) (launch : Bool) (o q : ExternalOperation) (h h' : Host)
    → and_launch (kept r v h) launch o ≡ done (some q) h'
    → (launch ≡ true) × (o ≡ q) × (get h'.records v.issue_id ≡ some v)
unfolding kept
begun_kept (ok t) v launch o q h h' p =
    ground (arith, get-with_entry h.records v.issue_id v.issue_id v)
begun_kept (err e) v launch o q h h' p = absurd (not_done _ p)
  where
    not_done : (h : Host) → interrupted h ≡ done (some q) h' → ⊥
    not_done h p = cc

-- What the host records of a call that it launched.
pub record IsRecorded (h : Host) (issue_id : String) (o : ExternalOperation) : Type 0 where
  pub row : DurableWorkflow
  pub recorded : get h.records issue_id ≡ some row
  pub owned : row.external_operation ≡ some o

claimed_row : DurableWorkflow → ExternalOperation → ℕ → DurableWorkflow
claimed_row current o later = stamped current (record current { external_operation = some o }) later

claimed_row_owned :
    (current : DurableWorkflow) (o : ExternalOperation) (later : ℕ)
    → ((claimed_row current o later).external_operation ≡ some o)
      × ((claimed_row current o later).issue_id ≡ current.issue_id)
unfolding claimed_row stamped
claimed_row_owned current o later = ground arith

-- A call that another writer overtook is not launched.
other_revision :
    (available : Bool) (before current : DurableWorkflow) (o q : ExternalOperation) (later : ℕ)
    (h h' : Host)
    → (current.revision == before.revision) ≡ false
    → and_launch
        (write_row (some current) available (claim_update before o) none false later h)
        (launches (some current) before)
        o
      ≡ done (some q) h'
    → ⊥
unfolding write_row fenced
other_revision available before current o q later h h' other p = ground arith

row-IsRecorded :
    (available : Bool) (before current : DurableWorkflow) (o q : ExternalOperation) (later : ℕ)
    (h h' : Host)
    → and_launch
        (write_row (some current) available (claim_update before o) none false later h)
        (launches (some current) before)
        o
      ≡ done (some q) h'
    → (o ≡ q) × IsRecorded h' current.issue_id o
row-IsRecorded available before current o q later h h' p =
    elim (Bool-cases (current.revision == before.revision)) [
      | inl same ↦
          let (_, e, k) =
            begun_kept
              (commit available (claimed_row current o later) (some current.revision) h.store)
              (claimed_row current o later) (is_active current.intent) o q h h'
              (unfold write_row persist fenced claimed_row in rw same at p) in
          let (owned, id) = claimed_row_owned current o later in
          (
            e,
            record {
              row = claimed_row current o later;
              recorded = subst (λ i. get h'.records i ≡ some (claimed_row current o later)) id k;
              owned = owned;
            },
          )
      | inr other ↦ absurd (other_revision available before current o q later h h' other p)
    ]

not_refused :
    (e : Exit (Unit {0})) (q : ExternalOperation) (h' : Host) → and_refuse e ≡ done (some q) h' → ⊥
not_refused (done _ h) q h' p = cc
not_refused (interrupted h) q h' p = cc

launched_as :
    (e : Exit (Unit {0})) (launch : Bool) (o q : ExternalOperation) (h' : Host)
    → and_launch e launch o ≡ done (some q) h'
    → o ≡ q
launched_as (done _ h) true o q h' p = cc
launched_as (done _ h) false o q h' p = absurd (cc)
launched_as (interrupted h) launch o q h' p = absurd (cc)

-- Only an admission that launches begins a call.
begun_admitted :
    (a : ExternalAdmission) (available : Bool) (id : String) (before : DurableWorkflow)
    (q : ExternalOperation) (later : ℕ) (h h' : Host)
    → begin_admitted a available id before later h ≡ done (some q) h'
    → a ≡ launched q
unfolding begin_admitted
begun_admitted (refused reason) available id before q later h h' p =
    absurd (not_refused (done tt h) q h' p)
begun_admitted retries_spent available id before q later h h' p =
    absurd (not_refused (write available id hold_spent none false later h) q h' p)
begun_admitted (launched o) available id before q later h h' p = ap launched (
    launched_as (write available id (claim_update before o) none false later h)
      (launches (get h.records id) before) o q h' p)

begun-IsRecorded :
    (available : Bool) (id : String) (before current : DurableWorkflow) (o : ExternalOperation)
    (later : ℕ) (h h' : Host)
    → get h.records id ≡ some current
    → begin_admitted (launched o) available id before later h ≡ done (some o) h'
    → IsRecorded h' current.issue_id o
unfolding begin_admitted
begun-IsRecorded available id before current o later h h' g p =
    (row-IsRecorded available before current o o later h h' (
      subst
        (λ row.
          and_launch (write_row row available (claim_update before o) none false later h)
            (launches row before) o
          ≡ done (some o) h')
        g (unfold write in p))).1

still_pending :
    (row after : DurableWorkflow) (o : ExternalOperation)
    → row ≡ after
    → row.external_operation ≡ some o
    → o.outcome ≡ pending
    → has_pending after.external_operation ≡ false
    → ⊥
still_pending row after o same owned waiting alone = ground arith

-- Once a call began on the workflow of an issue, no other call begins on what the host then holds of
-- it, whatever it asks for and whenever it writes.
pub calls_exclude :
    (available again : Bool) (before current after : DurableWorkflow)
    (kind other : ExternalOperationKind) (head head' : String) (now later now' later' : ℕ)
    (h h' g g' : Host) (o o' : ExternalOperation)
    → get h.records current.issue_id ≡ some current
    → begin_external available current.issue_id before kind head now later h ≡ done (some o) h'
    → get h'.records current.issue_id ≡ some after
    → begin_external again current.issue_id after other head' now' later' g ≢ done (some o') g'
unfolding begin_external
calls_exclude available again before current after kind other head head' now later now' later' h h'
      g g' o o' row began seen second =
    let a =
      begun_admitted (admit_external before current.issue_id kind head now) available
        current.issue_id before o later h h' began in
    let r = begun-IsRecorded available current.issue_id before current o later h h' row (
      subst (λ a. begin_admitted a available current.issue_id before later h ≡ done (some o) h') a
        began) in
    let first = admit_external-MayCall before current.issue_id kind head now o a in
    let next =
      begun_admitted (admit_external after current.issue_id other head' now') again current.issue_id
        after o' later' g g' second in
    let alone = (admit_external-MayCall after current.issue_id other head' now' o' next).alone in
    still_pending r.row after o (some_inj (sym r.recorded ∙ seen)) r.owned first.is_pending alone

kept_row :
    (r : Result Store) (v : DurableWorkflow) (h h' : Host)
    → kept r v h ≡ done tt h'
    → get h'.records v.issue_id ≡ some v
unfolding kept
kept_row (ok t) v h h' p = ground (arith, get-with_entry h.records v.issue_id v.issue_id v)
kept_row (err e) v h h' p = absurd (cc)

settled_free :
    (w : DurableWorkflow) (o : ExternalOperation) (exit : CallExit) (again : Bool) (now : ℕ)
    → (has_pending (stamped w (settled_as w o exit again now) now).external_operation ≡ false)
      × ((stamped w (settled_as w o exit again now) now).issue_id ≡ w.issue_id)
unfolding stamped
settled_free w o success again now = ground arith
settled_free w o failure again now = ground arith
settled_free w o broken again now = ground arith

settled_write :
    (available : Bool) (row : DurableWorkflow) (o : ExternalOperation) (exit : CallExit)
    (again : Bool) (now : ℕ) (h h' : Host)
    → get h.records row.issue_id ≡ some row
    → owns row.external_operation o.generation ≡ true
    → settle_external available row.issue_id o exit again now h ≡ done tt h'
    → persist available (stamped row (settled_as row o exit again now) now) (some row.revision) h
      ≡ done tt h'
unfolding settle_external write fenced
settled_write available row o exit again now h h' g owned p = ground arith

-- If a workflow holds the generation of a call, then a settlement of the call that is written leaves
-- no call pending on it, however the call ended.
pub settlement_frees :
    (available : Bool) (row after : DurableWorkflow) (o : ExternalOperation) (exit : CallExit)
    (again : Bool) (now : ℕ) (h h' : Host)
    → get h.records row.issue_id ≡ some row
    → owns row.external_operation o.generation ≡ true
    → settle_external available row.issue_id o exit again now h ≡ done tt h'
    → get h'.records row.issue_id ≡ some after
    → has_pending after.external_operation ≡ false
settlement_frees available row after o exit again now h h' g owned p seen =
    let v = stamped row (settled_as row o exit again now) now in
    let (free, id) = settled_free row o exit again now in
    let k =
      kept_row (commit available v (some row.revision) h.store) v h h'
        (unfold persist in settled_write available row o exit again now h h' g owned p) in
    subst (λ (w : DurableWorkflow). has_pending w.external_operation ≡ false)
      (some_inj (sym (subst (λ i. get h'.records i ≡ some v) id k) ∙ seen)) free
