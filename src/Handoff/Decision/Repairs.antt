-- ===== src/Handoff/Decision/Repairs.antt =====
-- The repair budget and the cycle guard over the life of a handoff.
use sloppenheimer_ts.Base.{
  ℕ, ◌≤◌, ◌<◌, String, true, false, ◌||◌, ◌≡◌, inl, inr, refl, sym, subst, List, [], ◌∷◌, ◌++◌,
  Option, none, some, ◌==◌, string_eq, includes, length, length-append, All, All-append, arith,
  Bool-cases,
}
use sloppenheimer_ts.Handoff.Observation.{
  Observation, OpenPullRequest, PullRequest, opened, closed, Disposition, merged,
  closed_without_merge, awaiting_checks, repair_needed, rebase_needed, ready_to_merge, CodexReview,
  classify_pull_request,
}
use sloppenheimer_ts.Handoff.Entry.{HandoffEntry, RepairEntry, release_repair}
use sloppenheimer_ts.Handoff.Action.{
  HandoffAction, repair, HandoffDecision, Step, carry, decide, continue_with,
}
use sloppenheimer_ts.Handoff.Attribution.{
  await_rebased_head, attribute_step, attribute_as, attribute_repair, attribute_repair_head,
  unchanged_repair,
}
use sloppenheimer_ts.Handoff.Review.{gate_review, adopt_review}
use sloppenheimer_ts.Handoff.Decision.{
  repair_limit, act_on_disposition, dispose, retire_or_dispose, gate_or_dispose, observe_handoff,
}

-- No head occurs twice.
abbrev pub IsDistinct : List String → Type 0
IsDistinct [] = Unit
IsDistinct (x ∷ xs) = (includes xs x ≡ false) × IsDistinct xs

abbrev pub Within : List String → List String → Type 0
Within heads seen = All (λ s. includes seen s ≡ true) heads

-- A repair that is carried still has its place in the budget.
abbrev pub Owing : Option RepairEntry → List String → Type 0
Owing none heads = length heads ≤ repair_limit
Owing (some r) heads = length heads < repair_limit

-- The verified repairs are within the budget, are different heads, and are heads that the cycle
-- guard knows.
pub record IsAccounted (h : HandoffEntry) : Type 0 where
  pub budget : Owing h.repair h.repair_head_shas
  pub distinct : IsDistinct h.repair_head_shas
  pub known : Within h.repair_head_shas h.repair_observed_head_shas

includes-append :
    (xs : List String) (y z : String) → includes (xs ++ y ∷ []) z ≡ (includes xs z || y == z)
includes-append [] y z = ground arith
includes-append (x ∷ xs) y z = ground (arith, includes-append xs y z)

pub Within-append :
    (heads seen : List String) (y : String) → Within heads seen → Within heads (seen ++ y ∷ [])
Within-append [] seen y h = tt
Within-append (x ∷ xs) seen y h =
    ground (arith, includes-append seen y x, Within-append xs seen y h.1)

-- A head that the guard does not know is none of the heads that it knows.
unseen :
    (heads seen : List String) (y : String)
    → Within heads seen
    → includes seen y ≡ false
    → includes heads y ≡ false
unseen [] seen y h n = refl
unseen (x ∷ xs) seen y h n = ground (arith, unseen xs seen y h.1 n)

IsDistinct-append :
    (xs : List String) (y : String)
    → IsDistinct xs
    → includes xs y ≡ false
    → IsDistinct (xs ++ y ∷ [])
IsDistinct-append [] y h n = (refl, tt)
IsDistinct-append (x ∷ xs) y h n =
    ground (arith, includes-append xs y x, IsDistinct-append xs y h.1)

Within-grown :
    (heads seen : List String) (y : String)
    → Within heads seen
    → Within (heads ++ y ∷ []) (seen ++ y ∷ [])
Within-grown heads seen y h =
    All-append (λ s. includes (seen ++ y ∷ []) s ≡ true) heads (y ∷ [])
      (Within-append heads seen y h) (ground (arith, includes-append seen y y), tt)

-- A decision for a repair is made where a place is left.
abbrev pub HasRoom : HandoffAction → HandoffEntry → Type 0
HasRoom (repair reason head attempt) h = length h.repair_head_shas < repair_limit
HasRoom _ h = Unit

-- A step keeps the account.
abbrev pub Accounts : Step → Type 0
Accounts (carry h) = IsAccounted h
Accounts (decide h a) = IsAccounted h × HasRoom a h

release_none : (h : HandoffEntry) → (release_repair h).repair ≡ none
unfolding release_repair
release_none h = ground arith

one_more :
    (r : Option RepairEntry) (q : RepairEntry) (heads : List String) (head : String)
    → r ≡ some q
    → Owing r heads
    → length (heads ++ head ∷ []) ≤ repair_limit
one_more none q heads head e b = cc
one_more (some x) q heads head e b = omega (arith, length-append heads (head ∷ []))

pub release-IsAccounted : (h : HandoffEntry) → IsAccounted h → IsAccounted (release_repair h)
unfolding release_repair
release-IsAccounted h a = ground arith

-- The repair that owned a head gives its place in the budget to that head.
attribute_head :
    (h : HandoffEntry) (r : RepairEntry) (head : String)
    → h.repair ≡ some r
    → IsAccounted h
    → Accounts (attribute_repair_head h head)
unfolding attribute_repair_head
attribute_head h r head some_repair a =
    elim (Bool-cases (includes h.repair_observed_head_shas head)) [
      | inl seen ↦ rw seen (let b = release-IsAccounted h a in ground arith)
      | inr new ↦ rw new (record {
        budget =
            subst (λ r. Owing r (h.repair_head_shas ++ head ∷ [])) (sym (release_none h))
              (one_more h.repair r h.repair_head_shas head some_repair a.budget);
        distinct =
            IsDistinct-append h.repair_head_shas head a.distinct
              (unseen h.repair_head_shas h.repair_observed_head_shas head a.known new);
        known = Within-grown h.repair_head_shas h.repair_observed_head_shas head a.known;
      })
    ]

attribute-Accounts :
    (h : HandoffEntry) (o : Observation) (p : OpenPullRequest) (r : RepairEntry)
    → h.repair ≡ some r
    → IsAccounted h
    → Accounts (attribute_repair h o p r)
unfolding attribute_repair unchanged_repair
attribute-Accounts h o p r e a =
    let released = release-IsAccounted h a in
    let owned = attribute_head h r p.head_sha e a in ground arith

attribute_as-Accounts :
    (h : HandoffEntry) (o : Observation) (p : PullRequest) (r : Option RepairEntry)
    → h.repair ≡ r
    → IsAccounted h
    → Accounts (attribute_as h o p r)
unfolding attribute_as
attribute_as-Accounts h o (opened p) (some r) e a = attribute-Accounts h o p r e a
attribute_as-Accounts h o (opened p) none e a = a
attribute_as-Accounts h o (closed c) r e a = a

await-Accounts :
    (h : HandoffEntry) (p : PullRequest) → IsAccounted h → Accounts (await_rebased_head h p)
unfolding await_rebased_head
await-Accounts h p a = ground arith

adopt-IsAccounted :
    (h : HandoffEntry) (r : Option CodexReview) (head : String)
    → IsAccounted h
    → IsAccounted (adopt_review h r head).handoff
unfolding adopt_review
adopt-IsAccounted h none head a = ground arith
adopt-IsAccounted h (some r) head a = ground arith

gate-IsAccounted :
    (h : HandoffEntry) (r : Option CodexReview) (head : String) (d : HandoffDecision)
    → IsAccounted h
    → gate_review h r head ≡ some d
    → IsAccounted d.handoff
unfolding gate_review
gate-IsAccounted h r head d a e = let adopted = adopt-IsAccounted h r head a in ground arith

act-IsAccounted :
    (h : HandoffEntry) (d : Disposition) (o : Observation)
    → IsAccounted h
    → IsAccounted (act_on_disposition h d o).handoff
unfolding act_on_disposition
act-IsAccounted h (merged c) o a = a
act-IsAccounted h (closed_without_merge r) o a = a
act-IsAccounted h (awaiting_checks r) o a = a
act-IsAccounted h (repair_needed r) o a = ground arith
act-IsAccounted h (rebase_needed r) o a = ground arith
act-IsAccounted h (ready_to_merge g) o a = ground arith

pub record IsSound (d : HandoffDecision) : Type 0 where
  pub accounted : IsAccounted d.handoff
  pub room : HasRoom d.action d.handoff

act-HasRoom :
    (h : HandoffEntry) (d : Disposition) (o : Observation)
    → HasRoom (act_on_disposition h d o).action (act_on_disposition h d o).handoff
unfolding act_on_disposition
act-HasRoom h (merged c) o = tt
act-HasRoom h (closed_without_merge r) o = tt
act-HasRoom h (awaiting_checks r) o = tt
act-HasRoom h (repair_needed r) o = ground arith
act-HasRoom h (rebase_needed r) o = ground arith
act-HasRoom h (ready_to_merge g) o = tt

dispose-IsSound :
    (h : HandoffEntry) (o : Observation) (d : Disposition) → IsAccounted h → IsSound (dispose h o d)
unfolding dispose
dispose-IsSound h o d a = record {
  accounted = act-IsAccounted _ d o (ground arith);
  room = act-HasRoom _ d o;
}

retire-IsSound :
    (h : HandoffEntry) (o : Observation) → IsAccounted h → IsSound (retire_or_dispose h o)
unfolding retire_or_dispose
retire-IsSound h o a =
    let disposed = dispose-IsSound h o (classify_pull_request o) a in ground arith

adopt-HasRoom :
    (h : HandoffEntry) (r : Option CodexReview) (head : String)
    → HasRoom (adopt_review h r head).action (adopt_review h r head).handoff
unfolding adopt_review
adopt-HasRoom h none head = tt
adopt-HasRoom h (some r) head = ground arith

gate-IsSound :
    (h : HandoffEntry) (r : Option CodexReview) (head : String) (d : HandoffDecision)
    → IsAccounted h
    → gate_review h r head ≡ some d
    → IsSound d
unfolding gate_review
gate-IsSound h r head d a e =
    let accounted = gate-IsAccounted h r head d a e in
    let room = adopt-HasRoom h r head in ground arith

gate_or_dispose-IsSound :
    (h : HandoffEntry) (o : Observation) → IsAccounted h → IsSound (gate_or_dispose h o)
unfolding gate_or_dispose
gate_or_dispose-IsSound h o a = at_pull_request o.pull_request
  where
    at_gate :
        (d : Option HandoffDecision) (r : Option CodexReview) (head : String)
        → gate_review h r head ≡ d
        → IsSound (elim d [ some d ↦ d | none ↦ retire_or_dispose h o ])
    at_gate none r head e = retire-IsSound h o a
    at_gate (some d) r head e = gate-IsSound h r head d a e

    at_pull_request :
        (p : PullRequest)
        → IsSound (elim p [
          | opened p ↦ elim (gate_review h o.codex_review p.head_sha) [
            | some d ↦ d
            | none ↦ retire_or_dispose h o
          ]
          | closed _ ↦ retire_or_dispose h o
        ])
    at_pull_request (opened p) = at_gate _ o.codex_review p.head_sha refl
    at_pull_request (closed c) = retire-IsSound h o a

continue-IsSound :
    (s : Step) (k : HandoffEntry → HandoffDecision)
    → Accounts s
    → ((h : HandoffEntry) → IsAccounted h → IsSound (k h))
    → IsSound (continue_with s k)
continue-IsSound (carry h) k a next = next h a
continue-IsSound (decide h x) k a next = record { accounted = a.0; room = a.1 }

attribute_step-Accounts :
    (h : HandoffEntry) (o : Observation) → IsAccounted h → Accounts (attribute_step h o)
unfolding attribute_step
attribute_step-Accounts h o a = attribute_as-Accounts h o o.pull_request h.repair refl a

pub observe-IsSound :
    (h : HandoffEntry) (o : Observation) (now : ℕ)
    → IsAccounted h
    → IsSound (observe_handoff h o now)
observe-IsSound h o now a =
    let seen = record h { observed_at = now } in
    let rest =
      continue-IsSound (await_rebased_head seen o.pull_request)
        (λ awaited. continue_with (attribute_step awaited o) (λ next. gate_or_dispose next o))
        (await-Accounts seen o.pull_request (ground arith))
        (λ awaited b.
          continue-IsSound (attribute_step awaited o) (λ next. gate_or_dispose next o)
            (attribute_step-Accounts awaited o b) (λ next c. gate_or_dispose-IsSound next o c)) in
    unfold observe_handoff in ground arith
