-- ===== src/Durable/Store.antt =====
-- packages/core/src/ports/workflow-store.ts as packages/adapter-node/src/workflow-store.ts and its
-- worker, workflow-database-worker.ts, implement it: one row for each issue, an append-only history
-- with a unique (issue, revision), and a commit that compares the revision of the row. A row holds
-- the workflow itself in place of its JSON text; whether the database answers is an argument.
pub mod Commits
use sloppenheimer_ts.Base.{
  ℕ, ◌+◌, String, Bool, true, false, not, ◌&&◌, ◌||◌, List, [], ◌∷◌, Option, none, some, ◌==◌, ◌!=◌,
  if◌then◌else◌, Eq, nat_eq, string_eq, option_eq, ◌≡◌, refl,
}
use sloppenheimer_ts.Collections.{Map, get, with_entry}
use sloppenheimer_ts.Durable.Types.{DurableWorkflow}

pub record Store : Type 0 where
  pub rows : Map String DurableWorkflow
  pub history : List DurableWorkflow

pub data StoreError : Type 0 where
  conflict storage : StoreError

pub data Result {ℓ} (T : Type ℓ) : Type ℓ where
  ok : T → Result T
  err : StoreError → Result T

infixl 5 ◌>>=◌
abbrev pub ◌>>=◌ {ℓ κ} : {S : Type ℓ} {T : Type κ} → Result S → (S → Result T) → Result T
ok answer >>= rest = rest answer
err failure >>= rest = err failure

-- A chain that succeeds succeeded in both parts.
pub >>=-eq-ok {ℓ κ} :
    {S : Type ℓ} {T : Type κ} (first : Result S) (rest : S → Result T) {last : T}
    → (first >>= rest) ≡ ok last
    → (answer : S) × (first ≡ ok answer) × (rest answer ≡ ok last)
>>=-eq-ok (ok answer) rest done = (answer, refl, done)
>>=-eq-ok (err failure) rest done = cc

-- `old?.revision ?? null`.
abbrev pub revision_of : Option DurableWorkflow → Option ℕ
revision_of none = none
revision_of (some w) = some w.revision

abbrev pub next_revision : Option ℕ → ℕ
next_revision none = 0
next_revision (some r) = r + 1

-- The primary key of the history.
unfoldable pub recorded : List DurableWorkflow → String → ℕ → Bool
recorded [] id revision = false
recorded (h ∷ hs) id revision =
    h.issue_id == id && h.revision == revision || recorded hs id revision

-- The worker's transaction: a failed comparison or a failed insertion rolls back.
unfoldable pub commit_row : DurableWorkflow → Option ℕ → Store → Result Store
unfolding get with_entry recorded
commit_row w expected s =
    if revision_of (get s.rows w.issue_id) != expected
    then err conflict
    else if recorded s.history w.issue_id w.revision
    then err storage
    else ok (record { rows = with_entry s.rows w.issue_id w; history = w ∷ s.history })

-- `store.commit`, as far as its answer: `available` says whether the worker answers before the
-- deadline of the response. A request that is given up may be committed later, which is `commit_row`
-- at that time (Durable.Host.Sync).
unfoldable pub commit : Bool → DurableWorkflow → Option ℕ → Store → Result Store
unfolding commit_row
commit available w expected s =
    if w.revision != next_revision expected
    then err conflict
    else if not available
    then err storage
    else commit_row w expected s
