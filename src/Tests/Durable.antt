-- ===== src/Tests/Durable.antt =====
-- Runs of the theorems about the durable transition.
use sloppenheimer_ts.Base.{
  ℕ, String, ◌≡◌, refl, true, false, string_discrete, ℕ_discrete, option_discrete, List, [], ◌∷◌,
  Option, none, some, arith,
}
use sloppenheimer_ts.Durable.Types.{DurableWorkflow, executing, queued, paused, intervention}
use sloppenheimer_ts.Durable.Transition.{
  WorkflowEvent, intent_changed, started, settled, recovered, Settlement, run, settle,
}
use sloppenheimer_ts.Durable.Transition.Evidence.{run-IsEvidenced, IsEvidenced}
use sloppenheimer_ts.Durable.Transition.Budget.{run-WithinBudget, WithinBudget}
use sloppenheimer_ts.Durable.Transition.Failures.{third_failure_holds}
use sloppenheimer_ts.Durable.Transition.Stopping.{stop_executes_nothing, is_executing}
use sloppenheimer_ts.Durable.Types.{is_intervention}
use sloppenheimer_ts.Tests.Data.{workflow, publication, completion}

-- The publication starts and reports its completion.
abbrev publishes : List (WorkflowEvent × ℕ)
publishes = (started "I7:publish" 4, 20) ∷ (settled completion, 30) ∷ []

run-IsEvidenced_example : IsEvidenced (run workflow publishes)
run-IsEvidenced_example = run-IsEvidenced workflow publishes tt

run-WithinBudget_example : WithinBudget (run workflow publishes)
run-WithinBudget_example =
    run-WithinBudget workflow publishes (record { coding = omega arith; repairs = omega arith })

-- A publication that fails for the third time in the same way.
abbrev failing : DurableWorkflow
failing = record workflow {
  status = executing publication 920;
  last_failure_signature = some "timeout";
  repeated_failures = 2;
}

abbrev failure : Settlement
failure = record completion {
  next = queued publication;
  artifact = none;
  failure_signature = some "timeout";
}

abbrev two_timeouts : List (Option String)
two_timeouts = some "timeout" ∷ some "timeout" ∷ []

abbrev held : DurableWorkflow
held = record failing {
  status = intervention "Repeated unchanged failure requires new inputs or intervention";
  repeated_failures = 3;
}

third_failure_holds_example : is_intervention held.status ≡ true
unfolding settle string_discrete ℕ_discrete option_discrete
third_failure_holds_example =
    third_failure_holds failing held failure 30 two_timeouts (record { last = refl; count = refl })
      refl (omega arith)

abbrev running : DurableWorkflow
running = record workflow { status = executing publication 920 }

stop_executes_nothing_example :
    is_executing (run running ((intent_changed paused, 30) ∷ (recovered, 40) ∷ [])).status ≡ false
stop_executes_nothing_example =
    stop_executes_nothing running paused 30 ((recovered, 40) ∷ []) refl refl (tt, tt)
