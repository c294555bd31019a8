-- ===== src/Durable/Host/Owners.antt =====
-- A run that another run of its issue has replaced does not write while the other owns the record.
use sloppenheimer_ts.Base.{
  ℕ, ◌+◌, ◌≤◌, ◌≡◌, ◌≢◌, refl, sym, ap, ◌∙◌, String, Bool, Option, none, some, arith, nat_eq,
  string_eq, option_discrete, subst, some_inj,
}
use sloppenheimer_ts.Collections.{Map, get}
use sloppenheimer_ts.Collections.Laws.{get-with_entry}
use sloppenheimer_ts.Domain.Issue.{Issue}
use sloppenheimer_ts.Durable.Types.{DurableWorkflow, SourceControlTarget, AfterPublication}
use sloppenheimer_ts.Durable.Store.{Store, Result, ok, err}
use sloppenheimer_ts.Durable.Admission.{
  Admission, refused, held, admitted, RetryMismatch, admit, current_for, owner_of,
  admitted_workflow,
}
use sloppenheimer_ts.Durable.Admission.Laws.{owner_of_inj, admit_decides}
use sloppenheimer_ts.Durable.Host.{
  Host, Exit, done, interrupted, kept, Update, write, start, carry_out, and_answer,
}

not_answered :
    (e : Exit (Unit {0})) (owner : String) (h : Host) → and_answer e none ≡ done (some owner) h → ⊥
not_answered (done _ g) owner h p = cc
not_answered (interrupted g) owner h p = cc

kept_admitted :
    (r : Result Store) (v : DurableWorkflow) (h h' : Host) (owner : String)
    → and_answer (kept r v h) v.owner ≡ done (some owner) h'
    → (v.owner ≡ some owner) × (get h'.records v.issue_id ≡ some v)
unfolding kept
kept_admitted (ok t) v h h' owner p =
    ground (arith, get-with_entry h.records v.issue_id v.issue_id v)
kept_admitted (err e) v h h' owner p = cc

-- A start that answers with an owner was admitted, and the workflow it admitted is recorded.
carried :
    (a : Admission) (current : Option DurableWorkflow) (available : Bool) (h h' : Host)
    (owner : String)
    → carry_out a current available h ≡ done (some owner) h'
    → (v : DurableWorkflow) × (a ≡ admitted v)
      × (v.owner ≡ some owner)
      × (get h'.records v.issue_id ≡ some v)
unfolding carry_out
carried refused current available h h' owner p = cc
carried (held w) current available h h' owner p = absurd (not_answered _ owner h' p)
carried (admitted v) current available h h' owner p =
    let (o, g) = kept_admitted _ v h h' owner p in (v, refl, o, g)

current_for_own :
    (rows : Map String DurableWorkflow) (issue : Issue) (w : DurableWorkflow)
    → get rows issue.id ≡ some w
    → current_for rows issue ≡ some w
unfolding current_for
current_for_own rows issue w e = ground arith

admitted_owner :
    (w : DurableWorkflow) (issue : Issue) (target : SourceControlTarget)
    (after_publication : AfterPublication) (required : Bool) (now : ℕ)
    → let v = admitted_workflow (some w) issue target after_publication required now in
      (v.issue_id ≡ issue.id) × (v.owner ≡ some (owner_of issue.id (w.revision + 1)))
unfolding admitted_workflow
admitted_owner w issue target after_publication required now = (refl, refl)

fenced_out :
    (available : Bool) (id old : String) (update : Update) (require_active : Bool) (now : ℕ)
    (h : Host) (v : DurableWorkflow)
    → get h.records id ≡ some v
    → v.owner ≢ some old
    → write available id update (some old) require_active now h ≡ interrupted h
unfolding write option_discrete
fenced_out available id old update require_active now h v g n = ground arith

module _ (available required : Bool) (w : DurableWorkflow) (issue : Issue)
    (target : SourceControlTarget) (after_publication : AfterPublication) (mismatch : RetryMismatch)
    (now : ℕ) (h h' : Host) (owner : String) (g : get h.records issue.id ≡ some w)
    (p : start available issue target after_publication required mismatch now h
      ≡ done (some owner) h') where
  -- The owner that a start answers is that of the revision it admits.
  start_owner : some owner ≡ some (owner_of issue.id (w.revision + 1))
  unfolding start
  start_owner =
      let current = current_for h.records issue in
      let (v, a, o, k) =
        carried (admit current issue target after_publication required mismatch now) current
          available h h' owner p in
      let (q, e) = admit_decides w issue target after_publication required now v mismatch (
        subst (λ c. admit c issue target after_publication required mismatch now ≡ admitted v)
          (current_for_own h.records issue w g) a) in
      let (_, own) = admitted_owner w issue target after_publication required now in
      sym o ∙ ap (λ (u : DurableWorkflow). u.owner) e ∙ own

-- If a run starts on an issue whose workflow `w` was owned by an earlier run of it, then whatever that
-- earlier run writes under its own name is interrupted and leaves the host as it is, on every host
-- whose record of the issue still has the owner that the start answered.
pub superseded_owner_fenced :
    (available later_available required require_active : Bool) (w v : DurableWorkflow)
    (issue : Issue) (target : SourceControlTarget) (after_publication : AfterPublication)
    (mismatch : RetryMismatch) (r now later : ℕ) (h h' g : Host) (owner : String) (update : Update)
    → get h.records issue.id ≡ some w
    → r ≤ w.revision
    → start available issue target after_publication required mismatch now h ≡ done (some owner) h'
    → get g.records issue.id ≡ some v
    → v.owner ≡ some owner
    → write later_available issue.id update (some (owner_of issue.id r)) require_active later g
      ≡ interrupted g
superseded_owner_fenced available later_available required require_active w v issue target
      after_publication mismatch r now later h h' g owner update recorded le p current owned =
    let o =
      start_owner available required w issue target after_publication mismatch now h h' owner
        recorded p in
    fenced_out later_available issue.id (owner_of issue.id r) update require_active later g v
      current
      (λ same.
        absurd (
          omega
            (arith, owner_of_inj issue.id r (w.revision + 1) (some_inj (sym same ∙ owned ∙ o)))))
