-- ===== src/Codex/Connection.antt =====
-- packages/adapter-codex/src/connection-state.ts: everything one App Server connection remembers,
-- and every transition of it. A transition is a function that returns its result and the next
-- state. A Deferred, a Queue and an object are their numbers: a copy `{ ...existing, claimed: true }`
-- is a new object, and `fresh` is the number of the next one.
pub mod Trace
pub mod Loop
pub mod Unchanged
pub mod Awards
pub mod Requests
pub mod Failure
pub mod Tokens
use sloppenheimer_ts.Base.{
  ℕ, ◌+◌, String, Bool, true, false, not, ◌&&◌, ◌||◌, ◌∷◌, [], List, ◌++◌, map, Option, none, some,
  ◌==◌, ◌!=◌, if◌then◌else◌, Eq, nat_eq, string_eq, includes,
}
use sloppenheimer_ts.Collections.{Map, Set, get, has, with_entry, without_entry, with_member}
use sloppenheimer_ts.Domain.Telemetry.{Usage, high_water, plus_usage, no_usage}
use sloppenheimer_ts.Json.{Fields, end, merge_sparse_object}
use sloppenheimer_ts.Codex.Framing.{AgentError}

pub record PendingRequest : Type 0 where
  pub method : String
  pub turn_count : Option ℕ
  pub reply : ℕ
  pub claimed : Bool

pub record TurnState : Type 0 where
  pub self : ℕ
  pub settlement : ℕ
  pub activity : ℕ
  pub timer_started : Bool
  pub claimed : Bool

pub record ConnectionState : Type 0 where
  pub pending : Map ℕ PendingRequest
  pub turns : Map String TurnState
  pub turn_usage : Map String Usage
  pub started_turns : Set String
  pub turn_counts : Map String ℕ
  pub pending_rate_limits : Option Fields
  pub rate_limits_ready : Bool
  pub next_id : ℕ
  pub closed : Bool
  pub terminal_error : Option AgentError
  pub thread_id : Option String
  pub turn_id : Option String
  pub turn_count : ℕ
  pub fresh : ℕ

abbrev pub initial_connection_state : ConnectionState
initial_connection_state = record {
  pending = [];
  turns = [];
  turn_usage = [];
  started_turns = [];
  turn_counts = [];
  pending_rate_limits = none;
  rate_limits_ready = false;
  next_id = 1;
  closed = false;
  terminal_error = none;
  thread_id = none;
  turn_id = none;
  turn_count = 0;
  fresh = 0;
}

pub data TurnSelection : Type 0 where
  turn : TurnState → TurnSelection
  error : AgentError → TurnSelection

pub data RequestRegistration : Type 0 where
  registered : ℕ → RequestRegistration
  refused : AgentError → RequestRegistration

-- The `claimed` copy of a turn, and its `timerStarted` copies.
abbrev pub claimed_copy : ℕ → TurnState → TurnState
claimed_copy self existing = record existing { self = self; claimed = true }

abbrev pub timer_copy : ℕ → Bool → TurnState → TurnState
timer_copy self started existing = record existing { self = self; timer_started = started }

unfoldable pub select_turn : String → TurnState → ConnectionState → TurnSelection × ConnectionState
unfolding get with_entry
select_turn turn_id candidate current = elim (get current.turns turn_id) [
  | some existing ↦ (turn existing, current)
  | none ↦ elim current.terminal_error [
    | some e ↦ (error e, current)
    | none ↦ (turn candidate, record current { turns = with_entry current.turns turn_id candidate })
  ]
]

unfoldable pub claim_turn : String → TurnState → ConnectionState → Bool × ConnectionState
claim_turn turn_id held current = elim (get current.turns turn_id) [
  | none ↦ (false, current)
  | some existing ↦
      if existing.settlement != held.settlement || existing.claimed then (false, current) else (
        true,
        record current {
          turns = with_entry current.turns turn_id (claimed_copy current.fresh existing);
          fresh = current.fresh + 1;
        },
      )
]

unfoldable pub begin_turn_timer : String → TurnState → ConnectionState → Bool × ConnectionState
begin_turn_timer turn_id held current = elim (get current.turns turn_id) [
  | none ↦ (false, current)
  | some existing ↦
      if existing.self != held.self || existing.timer_started || existing.claimed
      then (false, current)
      else (
        true,
        record current {
          turns = with_entry current.turns turn_id (timer_copy current.fresh true existing);
          fresh = current.fresh + 1;
        },
      )
]

unfoldable pub release_turn_timer : String → TurnState → ConnectionState → ConnectionState
release_turn_timer turn_id held current = elim (get current.turns turn_id) [
  | none ↦ current
  | some existing ↦
      if existing.activity != held.activity || not existing.timer_started
      then current
      else record current {
        turns = with_entry current.turns turn_id (timer_copy current.fresh false existing);
        fresh = current.fresh + 1;
      }
]

-- The queue that is offered to, if one is.
unfoldable pub note_turn_activity : String → ConnectionState → Option ℕ
note_turn_activity turn_id current = elim (get current.turns turn_id) [
  | none ↦ none
  | some held ↦ if not held.timer_started || held.claimed then none else some held.activity
]

unfoldable pub register_request :
    String → Option ℕ → ℕ → ConnectionState → RequestRegistration × ConnectionState
register_request method turn_count reply current = elim current.terminal_error [
  | some e ↦ (refused e, current)
  | none ↦ (
    registered current.next_id,
    record current {
      next_id = current.next_id + 1;
      pending =
          with_entry current.pending current.next_id
            (record { method = method; turn_count = turn_count; reply = reply; claimed = false });
    },
  )
]

unfoldable pub claim_response : ℕ → ConnectionState → Option PendingRequest × ConnectionState
claim_response id current = elim (get current.pending id) [
  | none ↦ (none, current)
  | some request ↦
      if request.claimed
      then (none, current)
      else let claimed = record request { claimed = true } in
        (some claimed, record current { pending = with_entry current.pending id claimed })
]

unfoldable pub expire_pending : ℕ → ℕ → ConnectionState → Bool × ConnectionState
expire_pending id reply current = elim (get current.pending id) [
  | none ↦ (false, current)
  | some request ↦
      if request.reply != reply || request.claimed
      then (false, current)
      else (true, record current { pending = without_entry current.pending id })
]

unfoldable pub remove_pending : ℕ → ℕ → ConnectionState → ConnectionState
remove_pending id reply current = elim (get current.pending id) [
  | none ↦ current
  | some request ↦
      if request.reply != reply
      then current
      else record current { pending = without_entry current.pending id }
]

-- The ids that a message declares, `ProtocolIdentity` of protocol.ts.
pub record ProtocolIdentity : Type 0 where
  pub thread_id : Option String
  pub turn_id : Option String

abbrev or_else {ℓ} : {A : Type ℓ} → Option A → Option A → Option A
or_else none other = other
or_else (some a) other = some a

unfoldable pub adopt_thread_id : String → ConnectionState → ConnectionState
adopt_thread_id thread_id current = record current { thread_id = some thread_id }

unfoldable pub adopt_identity :
    ProtocolIdentity → ConnectionState → ProtocolIdentity × ConnectionState
adopt_identity declared current =
    let thread_id = or_else declared.thread_id current.thread_id in
    let turn_id = or_else declared.turn_id current.turn_id in
    (
      record { thread_id = thread_id; turn_id = turn_id },
      record current { thread_id = thread_id; turn_id = turn_id },
    )

unfoldable pub mark_turn_started : String → ℕ → ConnectionState → Bool × ConnectionState
unfolding with_member
mark_turn_started turn_id turn_count current =
    if includes current.started_turns turn_id then (false, current) else (
      true,
      record current {
        started_turns = with_member current.started_turns turn_id;
        turn_counts = with_entry current.turn_counts turn_id turn_count;
        turn_id = some turn_id;
        turn_count = turn_count;
      },
    )

-- `Option.getOrElse(limits, () => ({}))`.
abbrev pub limits_or_empty : Option Fields → Fields
limits_or_empty none = end
limits_or_empty (some limits) = limits

unfoldable pub adopt_rate_limit_snapshot : Fields → ConnectionState → Fields × ConnectionState
adopt_rate_limit_snapshot snapshot current = (
  merge_sparse_object (some snapshot) (limits_or_empty current.pending_rate_limits),
  record current { pending_rate_limits = none; rate_limits_ready = true },
)

unfoldable pub admit_rate_limits : Fields → ConnectionState → Bool × ConnectionState
admit_rate_limits rate_limits current = if current.rate_limits_ready then (true, current) else (
  false,
  record current {
    pending_rate_limits =
        some (merge_sparse_object (some (limits_or_empty current.pending_rate_limits)) rate_limits);
  },
)

-- The sum over `turnUsage.values()`, from the left.
unfoldable pub sum_usage : Usage → Map String Usage → Usage
unfolding plus_usage
sum_usage sum [] = sum
sum_usage sum ((turn_id, entry) ∷ rest) = sum_usage (plus_usage sum entry) rest

unfoldable pub accumulate_usage : String → Usage → ConnectionState → Usage × ConnectionState
unfolding high_water
accumulate_usage turn_id usage current =
    let turn_usage =
      with_entry current.turn_usage turn_id (high_water (get current.turn_usage turn_id) usage) in
    (sum_usage no_usage turn_usage, record current { turn_usage = turn_usage })

-- The first pending `turn/start` that carries a count.
unfoldable pub first_turn_start : Map ℕ PendingRequest → Option ℕ
first_turn_start [] = none
first_turn_start ((id, request) ∷ rest) =
    let later = first_turn_start rest in
    if request.method == "turn/start"
    then elim request.turn_count [ some count ↦ some count | none ↦ later ]
    else later

unfoldable pub pending_turn_start_count : ConnectionState → Option ℕ
unfolding first_turn_start
pending_turn_start_count state = first_turn_start state.pending

unfoldable pub begin_close : ConnectionState → Bool × ConnectionState
begin_close current =
    if current.closed then (false, current) else (true, record current { closed = true })

pub record Outstanding : Type 0 where
  pub pending : List PendingRequest
  pub turns : List (String × TurnState)

-- The loop over the turns: each unclaimed one is replaced in its place by a claimed copy, and
-- listed. It returns the turns, the list and the number of the next object.
unfoldable pub claim_all :
    ℕ → Map String TurnState → Map String TurnState × List (String × TurnState) × ℕ
claim_all fresh [] = ([], [], fresh)
claim_all fresh ((turn_id, held) ∷ rest) =
    let kept = claim_all fresh rest in
    let later = claim_all (fresh + 1) rest in
    let claimed = claimed_copy fresh held in
    if held.claimed
    then ((turn_id, held) ∷ kept.0, kept.1, kept.2)
    else ((turn_id, claimed) ∷ later.0, (turn_id, claimed) ∷ later.1, later.2)

-- The candidate stands in for a turn in flight that has no Deferred yet.
unfoldable pub stand_in :
    Option String
    → TurnState
    → Map String TurnState
    → Map String TurnState × List (String × TurnState)
unfolding has with_entry
stand_in none candidate turns = (turns, [])
stand_in (some turn_id) candidate turns =
    if has turns turn_id
    then (turns, [])
    else (with_entry turns turn_id candidate, (turn_id, candidate) ∷ [])

unfoldable pub claim_outstanding :
    AgentError → Bool → TurnState → ConnectionState → Outstanding × ConnectionState
unfolding stand_in claim_all
claim_outstanding e remember candidate current =
    let begun = stand_in current.turn_id candidate current.turns in
    let claimed = claim_all current.fresh begun.0 in
    (
      record { pending = map (λ entry. entry.1) current.pending; turns = begun.1 ++ claimed.1 },
      record current {
        pending = [];
        turns = claimed.0;
        fresh = claimed.2;
        terminal_error = elim current.terminal_error [
          | none ↦ if remember then some e else none
          | some first ↦ some first
        ];
      },
    )
