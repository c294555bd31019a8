-- ===== src/Durable/Store/Commits.antt =====
-- What a commit promises: compare and swap, and a history without gaps.
use sloppenheimer_ts.Base.{
  ℕ, zero, suc, ◌+◌, ◌||◌, ◌<◌, ◌≡◌, refl, String, Bool, true, false, List, [], ◌∷◌, Option, none,
  some, ◌==◌, arith, if◌then◌else◌, nat_eq, string_eq, option_discrete,
}
use sloppenheimer_ts.Collections.{get, with_entry}
use sloppenheimer_ts.Collections.Laws.{get-with_entry}
use sloppenheimer_ts.Durable.Types.{DurableWorkflow}
use sloppenheimer_ts.Durable.Store.{
  Store, conflict, Result, ok, err, revision_of, next_revision, recorded, commit,
}

-- A successful commit advances the row of its issue by exactly one revision from the one that was
-- expected, and leaves every other row as it was.
pub commit_writes :
    (available : Bool) (w : DurableWorkflow) (expected : Option ℕ) (s t : Store) (id : String)
    → commit available w expected s ≡ ok t
    → (revision_of (get s.rows w.issue_id) ≡ expected)
      × (w.revision ≡ next_revision expected)
      × (get t.rows id ≡ (if w.issue_id == id then some w else get s.rows id))
unfolding commit option_discrete
commit_writes available w expected s t id h = ground (arith, get-with_entry s.rows w.issue_id id w)

-- Of two writers that decided on one revision of an issue, the one that commits second is refused
-- with a conflict by a database that answers, whatever it wants to write.
pub stale_commit_conflicts :
    (first : Bool) (w v : DurableWorkflow) (expected : Option ℕ) (s t : Store)
    → commit first w expected s ≡ ok t
    → v.issue_id ≡ w.issue_id
    → commit true v expected t ≡ err conflict
unfolding commit option_discrete
stale_commit_conflicts first w v none s t h same =
    ground (arith, get-with_entry s.rows w.issue_id v.issue_id w)
stale_commit_conflicts first w v (some r) s t h same =
    ground (arith, get-with_entry s.rows w.issue_id v.issue_id w)

-- The revisions that the history holds of an issue, newest first.
abbrev pub revisions : List DurableWorkflow → String → List ℕ
revisions [] id = []
revisions (h ∷ hs) id =
    let rest = revisions hs id in if h.issue_id == id then h.revision ∷ rest else rest

-- r, r - 1, …, 0.
abbrev pub descending : ℕ → List ℕ
descending zero = zero ∷ []
descending (suc r) = suc r ∷ descending r

abbrev pub all_up_to : Option ℕ → List ℕ
all_up_to none = []
all_up_to (some r) = descending r

abbrev pub IsGapless : Store → Type 0
IsGapless s = (id : String) → revisions s.history id ≡ all_up_to (revision_of (get s.rows id))

abbrev listed : List ℕ → ℕ → Bool
listed [] r = false
listed (x ∷ xs) r = x == r || listed xs r

recorded-listed :
    (hs : List DurableWorkflow) (id : String) (r : ℕ)
    → recorded hs id r ≡ listed (revisions hs id) r
unfolding recorded
recorded-listed [] id r = refl
recorded-listed (h ∷ hs) id r = ground (arith, recorded-listed hs id r)

descending_below : (r n : ℕ) → r < n → listed (descending r) n ≡ false
descending_below zero n h = ground arith
descending_below (suc r) n h = ground (arith, descending_below r n)

all_up_to_next : (e : Option ℕ) → listed (all_up_to e) (next_revision e) ≡ false
all_up_to_next none = refl
all_up_to_next (some r) = descending_below r (r + 1) (omega arith)

-- On a store without gaps the history never refuses a row: with a database that answers, a commit
-- that advances by one revision from the row's own succeeds.
pub commit_succeeds :
    (w : DurableWorkflow) (expected : Option ℕ) (s : Store)
    → IsGapless s
    → revision_of (get s.rows w.issue_id) ≡ expected
    → w.revision ≡ next_revision expected
    → commit true w expected s
      ≡ ok (record { rows = with_entry s.rows w.issue_id w; history = w ∷ s.history })
unfolding commit option_discrete
commit_succeeds w expected s g e r =
    ground (
      arith,
      g w.issue_id,
      recorded-listed s.history w.issue_id w.revision,
      all_up_to_next expected,
    )

descending_next : (n r : ℕ) → n ≡ r + 1 → descending n ≡ n ∷ descending r
descending_next zero r h = absurd (omega arith)
descending_next (suc n) r h = let e : n ≡ r = omega arith in rw e

commit-IsGapless :
    (available : Bool) (w : DurableWorkflow) (expected : Option ℕ) (s t : Store)
    → IsGapless s
    → commit available w expected s ≡ ok t
    → IsGapless t
unfolding commit option_discrete
commit-IsGapless available w none s t g h id =
    ground (arith, g id, get-with_entry s.rows w.issue_id id w)
commit-IsGapless available w (some r) s t g h id =
    ground (arith, g id, get-with_entry s.rows w.issue_id id w, descending_next w.revision r)

-- The store after a series of commits, each with its expected revision and whether the database
-- answered it; one that fails leaves the store as it was.
abbrev pub after : Store → Result Store → Store
after s (ok t) = t
after s (err e) = s

unfoldable pub commits : Store → List (Bool × DurableWorkflow × Option ℕ) → Store
commits s [] = s
commits s ((available, w, expected) ∷ cs) = commits (after s (commit available w expected s)) cs

after-IsGapless :
    (available : Bool) (w : DurableWorkflow) (expected : Option ℕ) (s : Store) (r : Result Store)
    → commit available w expected s ≡ r
    → IsGapless s
    → IsGapless (after s r)
after-IsGapless available w expected s (ok t) e g = commit-IsGapless available w expected s t g e
after-IsGapless available w expected s (err x) e g = g

abbrev pub empty_store : Store
empty_store = record { rows = []; history = [] }

commits-IsGapless :
    (s : Store) (cs : List (Bool × DurableWorkflow × Option ℕ))
    → IsGapless s
    → IsGapless (commits s cs)
unfolding commits
commits-IsGapless s [] g = g
commits-IsGapless s ((available, w, expected) ∷ cs) g =
    commits-IsGapless (after s (commit available w expected s)) cs
      (after-IsGapless available w expected s (commit available w expected s) refl g)

-- After any series of commits to an empty store, by any writers and with any failures, the history
-- of each issue is exactly the revisions from its row's own down to 0.
pub commits_gapless :
    (cs : List (Bool × DurableWorkflow × Option ℕ)) (id : String)
    → revisions (commits empty_store cs).history id
      ≡ all_up_to (revision_of (get (commits empty_store cs).rows id))
unfolding get
commits_gapless cs id = commits-IsGapless empty_store cs (λ _. refl) id
