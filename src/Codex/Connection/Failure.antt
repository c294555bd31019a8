-- ===== src/Codex/Connection/Failure.antt =====
-- A session-level failure settles everything, and stands.
use sloppenheimer_ts.Base.{
  ℕ, ◌+◌, ◌≡◌, refl, String, Bool, true, ◌∷◌, [], List, map, Option, none, some, every, nat_eq,
  string_eq, arith, ap, ◌∙◌,
}
use sloppenheimer_ts.Collections.{Map, get, has}
use sloppenheimer_ts.Collections.Laws.{has-with_entry}
use sloppenheimer_ts.Codex.Framing.{AgentError}
use sloppenheimer_ts.Codex.Connection.{
  TurnState, ConnectionState, register_request, claim_response, expire_pending, remove_pending,
  claim_all, stand_in, claim_outstanding,
}
use sloppenheimer_ts.Codex.Connection.Trace.{
  Transition, registers, answers, expires, removes, fails, next, after_all, given_by,
}
use sloppenheimer_ts.Codex.Connection.Loop.{claim_all-has}
use sloppenheimer_ts.Codex.Connection.Unchanged.{next-SameRequests, leaves_requests}
use sloppenheimer_ts.Codex.Connection.Requests.{taken}

-- A connection that has failed: the reason stands and no request waits.
record HasFailed (e : AgentError) (s : ConnectionState) : Type 0 where
  reason : s.terminal_error ≡ some e
  nothing_pending : s.pending ≡ []

module _ (e : AgentError) (s : ConnectionState) (v : HasFailed e s) where
  registers-HasFailed :
      (method : String) (turn_count : Option ℕ) (reply : ℕ)
      → HasFailed e (next (registers method turn_count reply) s)
        × (taken (registers method turn_count reply) s ≡ [])
  unfolding next taken register_request
  registers-HasFailed method turn_count reply = ground (arith, v.reason, v.nothing_pending)

  answers-HasFailed : (id : ℕ) → HasFailed e (next (answers id) s)
  unfolding next claim_response get
  answers-HasFailed id = ground (arith, ap (λ m. get m id) v.nothing_pending, v.reason)

  expires-HasFailed : (id reply : ℕ) → HasFailed e (next (expires id reply) s)
  unfolding next expire_pending get
  expires-HasFailed id reply = ground (arith, ap (λ m. get m id) v.nothing_pending, v.reason)

  removes-HasFailed : (id reply : ℕ) → HasFailed e (next (removes id reply) s)
  unfolding next remove_pending get
  removes-HasFailed id reply = ground (arith, ap (λ m. get m id) v.nothing_pending, v.reason)

  fails-HasFailed :
      (later : AgentError) (remember : Bool) (candidate : TurnState)
      → HasFailed e (next (fails later remember candidate) s)
  unfolding next claim_outstanding
  fails-HasFailed later remember candidate = ground (arith, v.reason)

  other-HasFailed : (t : Transition) → leaves_requests t ≡ true → HasFailed e (next t s)
  other-HasFailed t h =
      let same = next-SameRequests t s h in
      record {
        reason = same.terminal_error ∙ v.reason;
        nothing_pending = same.pending ∙ v.nothing_pending;
      }

  next-HasFailed : (t : Transition) → HasFailed e (next t s) × (taken t s ≡ [])
  unfolding taken
  next-HasFailed (registers method turn_count reply) = registers-HasFailed method turn_count reply
  next-HasFailed (answers id) = (answers-HasFailed id, refl)
  next-HasFailed (expires id reply) = (expires-HasFailed id reply, refl)
  next-HasFailed (removes id reply) = (removes-HasFailed id reply, refl)
  next-HasFailed (fails later remember candidate) = (fails-HasFailed later remember candidate, refl)
  next-HasFailed t = (other-HasFailed t refl, refl)

after_all-HasFailed :
    (e : AgentError) (ts : List Transition) (s : ConnectionState)
    → HasFailed e s
    → HasFailed e (after_all ts s) × (given_by taken ts s ≡ [])
unfolding after_all given_by
after_all-HasFailed e [] s v = (v, refl)
after_all-HasFailed e (t ∷ ts) s v =
    let (stays, none_taken) = next-HasFailed e s v t in
    let (later, none_later) = after_all-HasFailed e ts (next t s) stays in
    (later, rw none_taken none_later)

-- From a connection with no terminal error, a failure that is remembered is the reason after any
-- later transitions, further failures included: none of them takes a request id, and no request is
-- pending after them.
pub session_failure_stands :
    (e : AgentError) (candidate : TurnState) (ts : List Transition) (s : ConnectionState)
    → s.terminal_error ≡ none
    → ((after_all ts (next (fails e true candidate) s)).terminal_error ≡ some e)
      × ((after_all ts (next (fails e true candidate) s)).pending ≡ [])
      × (given_by taken ts (next (fails e true candidate) s) ≡ [])
unfolding next claim_outstanding
session_failure_stands e candidate ts s h =
    let failed : HasFailed e (next (fails e true candidate) s) = ground (arith, h) in
    let (stays, none_taken) = after_all-HasFailed e ts (next (fails e true candidate) s) failed in
    (stays.reason, stays.nothing_pending, none_taken)

claim_all-claimed :
    (fresh : ℕ) (m : Map String TurnState)
    → every (λ entry. entry.1.claimed) (claim_all fresh m).0 ≡ true
unfolding claim_all
claim_all-claimed fresh [] = refl
claim_all-claimed fresh ((j, turn) ∷ m) =
    ground (arith, claim_all-claimed fresh m, claim_all-claimed (fresh + 1) m)

-- Whether the turn in flight, if there is one, is among the turns.
abbrev pub in_flight_known : Option String → Map String TurnState → Bool
in_flight_known none turns = true
in_flight_known (some id) turns = has turns id

stand_in-known :
    (turn_id : Option String) (candidate : TurnState) (turns : Map String TurnState)
    → in_flight_known turn_id (stand_in turn_id candidate turns).0 ≡ true
unfolding stand_in
stand_in-known none candidate turns = refl
stand_in-known (some id) candidate turns = ground (arith, has-with_entry turns id id candidate)

claim_all-known :
    (turn_id : Option String) (fresh : ℕ) (m : Map String TurnState)
    → in_flight_known turn_id (claim_all fresh m).0 ≡ in_flight_known turn_id m
claim_all-known none fresh m = refl
claim_all-known (some id) fresh m = claim_all-has fresh m id

-- A session-level failure hands over every pending request and leaves none pending, leaves no turn
-- unclaimed, and leaves a turn for the turn in flight, if there is one.
pub claim_outstanding-claims :
    (e : AgentError) (remember : Bool) (candidate : TurnState) (s : ConnectionState)
    → ((claim_outstanding e remember candidate s).0.pending ≡ map (λ entry. entry.1) s.pending)
      × ((claim_outstanding e remember candidate s).1.pending ≡ [])
      × (every (λ entry. entry.1.claimed) (claim_outstanding e remember candidate s).1.turns ≡ true)
      × (in_flight_known s.turn_id (claim_outstanding e remember candidate s).1.turns ≡ true)
unfolding claim_outstanding
claim_outstanding-claims e remember candidate s = (
  refl,
  refl,
  claim_all-claimed s.fresh (stand_in s.turn_id candidate s.turns).0,
  claim_all-known s.turn_id s.fresh (stand_in s.turn_id candidate s.turns).0
      ∙ stand_in-known s.turn_id candidate s.turns,
)
