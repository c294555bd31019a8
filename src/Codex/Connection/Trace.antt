-- ===== src/Codex/Connection/Trace.antt =====
-- What may happen to a connection, as a sequence of the transitions of
-- packages/adapter-codex/src/connection-state.ts in the order in which they took effect.
use sloppenheimer_ts.Base.{
  ℕ, String, Bool, true, false, ◌∷◌, [], List, ◌++◌, map, Option, none, some, if◌then◌else◌,
}
use sloppenheimer_ts.Domain.Telemetry.{Usage}
use sloppenheimer_ts.Json.{Fields}
use sloppenheimer_ts.Codex.Framing.{AgentError}
use sloppenheimer_ts.Codex.Connection.{
  TurnState, ConnectionState, ProtocolIdentity, select_turn, claim_turn, begin_turn_timer,
  release_turn_timer, register_request, claim_response, expire_pending, remove_pending,
  adopt_thread_id, adopt_identity, mark_turn_started, adopt_rate_limit_snapshot, admit_rate_limits,
  accumulate_usage, begin_close, claim_outstanding,
}

pub data Transition : Type 0 where
  selects : String → TurnState → Transition
  claims : String → TurnState → Transition
  begins_timer releases_timer : String → TurnState → Transition
  registers : String → Option ℕ → ℕ → Transition
  answers : ℕ → Transition
  expires removes : ℕ → ℕ → Transition
  adopts_thread : String → Transition
  adopts : ProtocolIdentity → Transition
  starts : String → ℕ → Transition
  adopts_limits admits_limits : Fields → Transition
  reports : String → Usage → Transition
  closes : Transition
  -- A session-level failure. Its candidate is allocated claimed, as `failSession` does.
  fails : AgentError → Bool → (candidate : TurnState) → Transition

-- The candidate that `failSession` of session-runtime.ts allocates.
abbrev pub claimed_candidate : TurnState → TurnState
claimed_candidate candidate = record candidate { timer_started = false; claimed = true }

unfoldable pub next : Transition → ConnectionState → ConnectionState
next (selects id candidate) s = (select_turn id candidate s).1
next (claims id held) s = (claim_turn id held s).1
next (begins_timer id held) s = (begin_turn_timer id held s).1
next (releases_timer id held) s = release_turn_timer id held s
next (registers method count reply) s = (register_request method count reply s).1
next (answers id) s = (claim_response id s).1
next (expires id reply) s = (expire_pending id reply s).1
next (removes id reply) s = remove_pending id reply s
next (adopts_thread id) s = adopt_thread_id id s
next (adopts declared) s = (adopt_identity declared s).1
next (starts id count) s = (mark_turn_started id count s).1
next (adopts_limits snapshot) s = (adopt_rate_limit_snapshot snapshot s).1
next (admits_limits limits) s = (admit_rate_limits limits s).1
next (reports id usage) s = (accumulate_usage id usage s).1
next closes s = (begin_close s).1
next (fails e remember candidate) s =
    (claim_outstanding e remember (claimed_candidate candidate) s).1

unfoldable pub after_all : List Transition → ConnectionState → ConnectionState
unfolding next
after_all [] s = s
after_all (t ∷ ts) s = after_all ts (next t s)

-- The turns whose settlement a transition gives to its caller.
unfoldable pub awards : Transition → ConnectionState → List String
awards (claims id held) s = if (claim_turn id held s).0 then id ∷ [] else []
awards (fails e remember candidate) s =
    map (λ entry. entry.0) (claim_outstanding e remember (claimed_candidate candidate) s).0.turns
awards t s = []

-- The requests whose reply a transition gives to its caller alone.
unfoldable pub grants : Transition → ConnectionState → List ℕ
grants (answers id) s = elim (claim_response id s).0 [ some _ ↦ id ∷ [] | none ↦ [] ]
grants (expires id reply) s = if (expire_pending id reply s).0 then id ∷ [] else []
grants t s = []

module _ {ℓ} {A : Type ℓ} (given : Transition → ConnectionState → List A) where
  -- All that a sequence of transitions gives, in order.
  unfoldable pub given_by : List Transition → ConnectionState → List A
  unfolding next
  given_by [] s = []
  given_by (t ∷ ts) s = given t s ++ given_by ts (next t s)
