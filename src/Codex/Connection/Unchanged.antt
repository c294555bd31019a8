-- ===== src/Codex/Connection/Unchanged.antt =====
-- What the transitions leave alone.
use sloppenheimer_ts.Base.{
  ℕ, ◌≡◌, Bool, true, false, String, Option, string_eq, nat_eq, arith, Option-cases,
}
use sloppenheimer_ts.Collections.{get}
use sloppenheimer_ts.Json.{Fields}
use sloppenheimer_ts.Codex.Connection.{
  ConnectionState, TurnState, select_turn, claim_turn, begin_turn_timer, release_turn_timer,
  adopt_thread_id, adopt_identity, adopt_rate_limit_snapshot, accumulate_usage, register_request,
  claim_response, expire_pending, remove_pending, mark_turn_started, admit_rate_limits, begin_close,
}
use sloppenheimer_ts.Codex.Connection.Trace.{
  Transition, selects, claims, begins_timer, releases_timer, registers, answers, expires, removes,
  adopts_thread, adopts, starts, adopts_limits, admits_limits, reports, closes, fails, next,
}

-- The transitions of requests, identities and telemetry leave the turns alone.
module _ (s : ConnectionState) where
  pub register_request-turns :
      (method : String) (turn_count : Option ℕ) (reply : ℕ)
      → (register_request method turn_count reply s).1.turns ≡ s.turns
  unfolding register_request
  register_request-turns method turn_count reply = ground (arith, Option-cases s.terminal_error)

  pub claim_response-turns : (id : ℕ) → (claim_response id s).1.turns ≡ s.turns
  unfolding claim_response
  claim_response-turns id = ground (arith, Option-cases (get s.pending id))

  pub expire_pending-turns : (id reply : ℕ) → (expire_pending id reply s).1.turns ≡ s.turns
  unfolding expire_pending
  expire_pending-turns id reply = ground (arith, Option-cases (get s.pending id))

  pub remove_pending-turns : (id reply : ℕ) → (remove_pending id reply s).turns ≡ s.turns
  unfolding remove_pending
  remove_pending-turns id reply = ground (arith, Option-cases (get s.pending id))

  pub mark_turn_started-turns :
      (id : String) (turn_count : ℕ) → (mark_turn_started id turn_count s).1.turns ≡ s.turns
  unfolding mark_turn_started
  mark_turn_started-turns id turn_count = ground arith

  pub admit_rate_limits-turns : (limits : Fields) → (admit_rate_limits limits s).1.turns ≡ s.turns
  unfolding admit_rate_limits
  admit_rate_limits-turns limits = ground arith

  pub begin_close-turns : (begin_close s).1.turns ≡ s.turns
  unfolding begin_close
  begin_close-turns = ground arith

-- What registers, answers and expires requests, and what keeps the first terminal error.
pub record SameRequests (s t : ConnectionState) : Type 0 where
  pub pending : t.pending ≡ s.pending
  pub next_id : t.next_id ≡ s.next_id
  pub terminal_error : t.terminal_error ≡ s.terminal_error

-- The transitions of turns and telemetry leave the requests alone.
module _ (s : ConnectionState) where
  pub select_turn-SameRequests :
      (id : String) (candidate : TurnState) → SameRequests s (select_turn id candidate s).1
  unfolding select_turn
  select_turn-SameRequests id candidate =
      ground (arith, Option-cases (get s.turns id), Option-cases s.terminal_error)

  pub claim_turn-SameRequests :
      (id : String) (held : TurnState) → SameRequests s (claim_turn id held s).1
  unfolding claim_turn
  claim_turn-SameRequests id held = ground (arith, Option-cases (get s.turns id))

  pub begin_turn_timer-SameRequests :
      (id : String) (held : TurnState) → SameRequests s (begin_turn_timer id held s).1
  unfolding begin_turn_timer
  begin_turn_timer-SameRequests id held = ground (arith, Option-cases (get s.turns id))

  pub release_turn_timer-SameRequests :
      (id : String) (held : TurnState) → SameRequests s (release_turn_timer id held s)
  unfolding release_turn_timer
  release_turn_timer-SameRequests id held = ground (arith, Option-cases (get s.turns id))

  pub mark_turn_started-SameRequests :
      (id : String) (turn_count : ℕ) → SameRequests s (mark_turn_started id turn_count s).1
  unfolding mark_turn_started
  mark_turn_started-SameRequests id turn_count = ground arith

  pub admit_rate_limits-SameRequests :
      (limits : Fields) → SameRequests s (admit_rate_limits limits s).1
  unfolding admit_rate_limits
  admit_rate_limits-SameRequests limits = ground arith

  pub begin_close-SameRequests : SameRequests s (begin_close s).1
  unfolding begin_close
  begin_close-SameRequests = ground arith

-- The transitions that are not about requests.
abbrev pub leaves_requests : Transition → Bool
leaves_requests (registers method turn_count reply) = false
leaves_requests (answers id) = false
leaves_requests (expires id reply) = false
leaves_requests (removes id reply) = false
leaves_requests (fails e remember candidate) = false
leaves_requests t = true

pub next-SameRequests :
    (t : Transition) (s : ConnectionState) → leaves_requests t ≡ true → SameRequests s (next t s)
unfolding next adopt_thread_id adopt_identity adopt_rate_limit_snapshot accumulate_usage
next-SameRequests (selects id candidate) s h = select_turn-SameRequests s id candidate
next-SameRequests (claims id held) s h = claim_turn-SameRequests s id held
next-SameRequests (begins_timer id held) s h = begin_turn_timer-SameRequests s id held
next-SameRequests (releases_timer id held) s h = release_turn_timer-SameRequests s id held
next-SameRequests (starts id turn_count) s h = mark_turn_started-SameRequests s id turn_count
next-SameRequests (admits_limits limits) s h = admit_rate_limits-SameRequests s limits
next-SameRequests closes s h = begin_close-SameRequests s
next-SameRequests (adopts_thread id) s h = ground arith
next-SameRequests (adopts declared) s h = ground arith
next-SameRequests (adopts_limits snapshot) s h = ground arith
next-SameRequests (reports id usage) s h = ground arith
next-SameRequests (registers method turn_count reply) s h = cc
next-SameRequests (answers id) s h = cc
next-SameRequests (expires id reply) s h = cc
next-SameRequests (removes id reply) s h = cc
next-SameRequests (fails e remember candidate) s h = cc
