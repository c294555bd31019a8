-- ===== src/Durable/Transition/Failures.antt =====
-- The count of repeated failures against the history of failure signatures.
use sloppenheimer_ts.Base.{
  ℕ, suc, String, ◌≡◌, refl, ◌≤◌, true, List, [], ◌∷◌, Option, some, none, arith, ◌==◌,
  if◌then◌else◌, string_eq, option_eq, option_discrete,
}
use sloppenheimer_ts.Durable.Types.{DurableWorkflow, is_intervention}
use sloppenheimer_ts.Durable.Transition.{
  WorkflowEvent, Settlement, intent_changed, started, settled, recovered, transition_workflow, run,
  repeats, settle,
}

-- How many entries at the front of the history, newest first, are this signature.
abbrev pub leading : String → List (Option String) → ℕ
leading s [] = 0
leading s (x ∷ history) = let rest = leading s history in if some s == x then suc rest else 0

-- The length of the run of equal failures at the front of the history; a success ends it.
abbrev pub streak : List (Option String) → ℕ
streak [] = 0
streak (none ∷ history) = 0
streak (some s ∷ history) = suc (leading s history)

abbrev pub newest : List (Option String) → Option String
newest [] = none
newest (x ∷ history) = x

repeats-streak :
    (x : Option String) (history : List (Option String))
    → repeats x (newest history) (streak history) ≡ streak (x ∷ history)
unfolding repeats option_discrete
repeats-streak none history = refl
repeats-streak (some s) [] = refl
repeats-streak (some s) (none ∷ history) = refl
repeats-streak (some s) (some t ∷ history) = ground arith

-- The signatures of the settlements that the workflow accepted, newest first, before `history`.
abbrev pub signatures :
    DurableWorkflow → List (WorkflowEvent × ℕ) → List (Option String) → List (Option String)
signatures w [] history = history
signatures w ((settled x, now) ∷ es) history =
    signatures (transition_workflow w (settled x) now) es
      (elim (settle w x now) [ none ↦ history | some _ ↦ x.failure_signature ∷ history ])
signatures w ((e, now) ∷ es) history = signatures (transition_workflow w e now) es history

-- The workflow's two failure fields are those of the history.
pub record Describes (w : DurableWorkflow) (history : List (Option String)) : Type 0 where
  pub last : w.last_failure_signature ≡ newest history
  pub count : w.repeated_failures ≡ streak history

settled-Describes :
    (w : DurableWorkflow) (x : Settlement) (now : ℕ) (history : List (Option String))
    → Describes w history
    → Describes
        (transition_workflow w (settled x) now)
        (elim (settle w x now) [ none ↦ history | some _ ↦ x.failure_signature ∷ history ])
unfolding transition_workflow
settled-Describes w x now history h = ground (arith, repeats-streak x.failure_signature history)

run-Describes :
    (w : DurableWorkflow) (es : List (WorkflowEvent × ℕ)) (history : List (Option String))
    → Describes w history
    → Describes (run w es) (signatures w es history)
unfolding run
run-Describes w [] history h = h
run-Describes w ((settled x, now) ∷ es) history h =
    run-Describes (transition_workflow w (settled x) now) es _ (settled-Describes w x now history h)
run-Describes w ((intent_changed i, now) ∷ es) history h =
    run-Describes (transition_workflow w (intent_changed i) now) es history
      (unfold transition_workflow in ground arith)
run-Describes w ((started i g, now) ∷ es) history h =
    run-Describes (transition_workflow w (started i g) now) es history
      (unfold transition_workflow in ground arith)
run-Describes w ((recovered, now) ∷ es) history h =
    run-Describes (transition_workflow w recovered now) es history
      (unfold transition_workflow in ground arith)

-- From a workflow whose failure fields describe a history, after any events the fields describe
-- the history extended by the accepted settlements: the last signature is the newest one, and the
-- count is the length of the run of equal signatures that ends there.
pub run_counts_streak :
    (w : DurableWorkflow) (es : List (WorkflowEvent × ℕ)) (history : List (Option String))
    → Describes w history
    → ((run w es).last_failure_signature ≡ newest (signatures w es history))
      × ((run w es).repeated_failures ≡ streak (signatures w es history))
run_counts_streak w es history h =
    ((run-Describes w es history h).last, (run-Describes w es history h).count)

-- A settlement that is accepted and is the third failure in a row with one signature leaves the
-- workflow in intervention, whatever status it asks for.
pub third_failure_holds :
    (w v : DurableWorkflow) (x : Settlement) (now : ℕ) (history : List (Option String))
    → Describes w history
    → settle w x now ≡ some v
    → 3 ≤ streak (x.failure_signature ∷ history)
    → is_intervention v.status ≡ true
unfolding settle
third_failure_holds w v x now history h e three =
    ground (arith, repeats-streak x.failure_signature history)
