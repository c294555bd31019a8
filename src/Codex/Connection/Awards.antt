-- ===== src/Codex/Connection/Awards.antt =====
-- A turn's settlement is given to one caller.
use sloppenheimer_ts.Base.{
  ℕ, ◌+◌, ◌≤◌, ◌≡◌, refl, String, Bool, true, false, ◌∷◌, [], List, Option, none, some, string_eq,
  nat_eq, arith, count, count-append, Option-cases, ap,
}
use sloppenheimer_ts.Collections.{get}
use sloppenheimer_ts.Collections.Laws.{IsKeyed, get-with_entry, with_entry-IsKeyed}
use sloppenheimer_ts.Codex.Connection.Loop.{
  to_give, names, claim_all-names, claim_all-get, claim_all-IsKeyed, stand_in-left,
  stand_in-IsKeyed, names-append,
}
use sloppenheimer_ts.Codex.Connection.Unchanged.{
  register_request-turns, claim_response-turns, expire_pending-turns, remove_pending-turns,
  mark_turn_started-turns, admit_rate_limits-turns, begin_close-turns,
}
use sloppenheimer_ts.Codex.Framing.{AgentError}
use sloppenheimer_ts.Codex.Connection.{
  TurnState, ConnectionState, claimed_copy, timer_copy, select_turn, claim_turn, begin_turn_timer,
  release_turn_timer, claim_all, stand_in, claim_outstanding, adopt_thread_id, adopt_identity,
  adopt_rate_limit_snapshot, accumulate_usage,
}
use sloppenheimer_ts.Codex.Connection.Trace.{
  Transition, selects, claims, begins_timer, releases_timer, registers, answers, expires, removes,
  adopts_thread, adopts, starts, adopts_limits, admits_limits, reports, closes, fails,
  claimed_candidate, next, after_all, awards, given_by,
}

left : String → ConnectionState → ℕ
left id s = to_give (get s.turns id)

select_turn-left :
    (id turn_id : String) (candidate : TurnState) (s : ConnectionState)
    → left id (select_turn turn_id candidate s).1 ≤ left id s
unfolding select_turn left
select_turn-left id turn_id candidate s = ground (
  arith,
  Option-cases (get s.turns turn_id),
  Option-cases s.terminal_error,
  get-with_entry s.turns turn_id id candidate,
)

claim_turn-left :
    (id turn_id : String) (held : TurnState) (s : ConnectionState)
    → count id (awards (claims turn_id held) s) + left id (claim_turn turn_id held s).1 ≤ left id s
unfolding claim_turn left awards
claim_turn-left id turn_id held s = claim_found (get s.turns turn_id) refl
  where
    claim_found :
        (o : Option TurnState)
        → get s.turns turn_id ≡ o
        → count id (awards (claims turn_id held) s) + left id (claim_turn turn_id held s).1
          ≤ left id s
    claim_found none e = ground (arith, e)
    claim_found (some existing) e =
        ground (arith, e, get-with_entry s.turns turn_id id (claimed_copy s.fresh existing))

begin_turn_timer-left :
    (id turn_id : String) (held : TurnState) (s : ConnectionState)
    → left id (begin_turn_timer turn_id held s).1 ≤ left id s
unfolding begin_turn_timer left
begin_turn_timer-left id turn_id held s = begin_found (get s.turns turn_id) refl
  where
    begin_found :
        (o : Option TurnState)
        → get s.turns turn_id ≡ o
        → left id (begin_turn_timer turn_id held s).1 ≤ left id s
    begin_found none e = ground (arith, e)
    begin_found (some existing) e =
        ground (arith, e, get-with_entry s.turns turn_id id (timer_copy s.fresh true existing))

release_turn_timer-left :
    (id turn_id : String) (held : TurnState) (s : ConnectionState)
    → left id (release_turn_timer turn_id held s) ≤ left id s
unfolding release_turn_timer left
release_turn_timer-left id turn_id held s = release_found (get s.turns turn_id) refl
  where
    release_found :
        (o : Option TurnState)
        → get s.turns turn_id ≡ o
        → left id (release_turn_timer turn_id held s) ≤ left id s
    release_found none e = ground (arith, e)
    release_found (some existing) e =
        ground (arith, e, get-with_entry s.turns turn_id id (timer_copy s.fresh false existing))

claim_outstanding-left :
    (id : String) (e : AgentError) (remember : Bool) (candidate : TurnState) (s : ConnectionState)
    → IsKeyed s.turns
    → count id (names (claim_outstanding e remember (claimed_candidate candidate) s).0.turns)
        + left id (claim_outstanding e remember (claimed_candidate candidate) s).1
      ≤ left id s
unfolding claim_outstanding left
claim_outstanding-left id e remember candidate s k =
    let begun = stand_in s.turn_id (claimed_candidate candidate) s.turns in
    let keyed = stand_in-IsKeyed s.turn_id (claimed_candidate candidate) s.turns k in
    omega (
      arith,
      ap (count id) (names-append begun.1 (claim_all s.fresh begun.0).1),
      count-append id (names begun.1) (names (claim_all s.fresh begun.0).1),
      claim_all-names s.fresh begun.0 id keyed,
      claim_all-get s.fresh begun.0 id,
      stand_in-left id s.turn_id (claimed_candidate candidate) s.turns refl,
    )

-- What a transition gives of a turn's settlement, it takes from what was left to give.
next-left :
    (id : String) (t : Transition) (s : ConnectionState)
    → IsKeyed s.turns
    → count id (awards t s) + left id (next t s) ≤ left id s
unfolding next awards names left adopt_thread_id adopt_identity adopt_rate_limit_snapshot
    accumulate_usage
next-left id (selects j candidate) s k = omega (arith, select_turn-left id j candidate s)
next-left id (claims j held) s k = claim_turn-left id j held s
next-left id (begins_timer j held) s k = omega (arith, begin_turn_timer-left id j held s)
next-left id (releases_timer j held) s k = omega (arith, release_turn_timer-left id j held s)
next-left id (fails e remember candidate) s k = claim_outstanding-left id e remember candidate s k
next-left id (registers method turn_count reply) s k =
    rw (register_request-turns s method turn_count reply) (omega arith)
next-left id (answers j) s k = rw (claim_response-turns s j) (omega arith)
next-left id (expires j reply) s k = rw (expire_pending-turns s j reply) (omega arith)
next-left id (removes j reply) s k = rw (remove_pending-turns s j reply) (omega arith)
next-left id (starts j turn_count) s k = rw (mark_turn_started-turns s j turn_count) (omega arith)
next-left id (admits_limits limits) s k = rw (admit_rate_limits-turns s limits) (omega arith)
next-left id closes s k = rw (begin_close-turns s) (omega arith)
next-left id (adopts_thread j) s k = omega arith
next-left id (adopts declared) s k = omega arith
next-left id (adopts_limits snapshot) s k = omega arith
next-left id (reports j usage) s k = omega arith

module _ (s : ConnectionState) (k : IsKeyed s.turns) where
  select_turn-IsKeyed :
      (id : String) (candidate : TurnState) → IsKeyed (select_turn id candidate s).1.turns
  unfolding select_turn
  select_turn-IsKeyed id candidate = ground (
    arith,
    Option-cases (get s.turns id),
    Option-cases s.terminal_error,
    with_entry-IsKeyed s.turns id candidate k,
  )

  claim_turn-IsKeyed : (id : String) (held : TurnState) → IsKeyed (claim_turn id held s).1.turns
  unfolding claim_turn
  claim_turn-IsKeyed id held = claim_found (get s.turns id) refl
    where
      claim_found :
          (o : Option TurnState) → get s.turns id ≡ o → IsKeyed (claim_turn id held s).1.turns
      claim_found none e = ground (arith, e)
      claim_found (some existing) e =
          ground (arith, e, with_entry-IsKeyed s.turns id (claimed_copy s.fresh existing) k)

  begin_turn_timer-IsKeyed :
      (id : String) (held : TurnState) → IsKeyed (begin_turn_timer id held s).1.turns
  unfolding begin_turn_timer
  begin_turn_timer-IsKeyed id held = begin_found (get s.turns id) refl
    where
      begin_found :
          (o : Option TurnState) → get s.turns id ≡ o → IsKeyed (begin_turn_timer id held s).1.turns
      begin_found none e = ground (arith, e)
      begin_found (some existing) e =
          ground (arith, e, with_entry-IsKeyed s.turns id (timer_copy s.fresh true existing) k)

  release_turn_timer-IsKeyed :
      (id : String) (held : TurnState) → IsKeyed (release_turn_timer id held s).turns
  unfolding release_turn_timer
  release_turn_timer-IsKeyed id held = release_found (get s.turns id) refl
    where
      release_found :
          (o : Option TurnState) → get s.turns id ≡ o → IsKeyed (release_turn_timer id held s).turns
      release_found none e = ground (arith, e)
      release_found (some existing) e =
          ground (arith, e, with_entry-IsKeyed s.turns id (timer_copy s.fresh false existing) k)

  claim_outstanding-IsKeyed :
      (e : AgentError) (remember : Bool) (candidate : TurnState)
      → IsKeyed (claim_outstanding e remember candidate s).1.turns
  unfolding claim_outstanding
  claim_outstanding-IsKeyed e remember candidate =
      claim_all-IsKeyed s.fresh (stand_in s.turn_id candidate s.turns).0
        (stand_in-IsKeyed s.turn_id candidate s.turns k)

pub next-IsKeyed :
    (t : Transition) (s : ConnectionState) → IsKeyed s.turns → IsKeyed (next t s).turns
unfolding next adopt_thread_id adopt_identity adopt_rate_limit_snapshot accumulate_usage
next-IsKeyed (selects j candidate) s k = select_turn-IsKeyed s k j candidate
next-IsKeyed (claims j held) s k = claim_turn-IsKeyed s k j held
next-IsKeyed (begins_timer j held) s k = begin_turn_timer-IsKeyed s k j held
next-IsKeyed (releases_timer j held) s k = release_turn_timer-IsKeyed s k j held
next-IsKeyed (fails e remember candidate) s k =
    claim_outstanding-IsKeyed s k e remember (claimed_candidate candidate)
next-IsKeyed (registers method turn_count reply) s k =
    rw (register_request-turns s method turn_count reply) k
next-IsKeyed (answers j) s k = rw (claim_response-turns s j) k
next-IsKeyed (expires j reply) s k = rw (expire_pending-turns s j reply) k
next-IsKeyed (removes j reply) s k = rw (remove_pending-turns s j reply) k
next-IsKeyed (starts j turn_count) s k = rw (mark_turn_started-turns s j turn_count) k
next-IsKeyed (admits_limits limits) s k = rw (admit_rate_limits-turns s limits) k
next-IsKeyed closes s k = rw (begin_close-turns s) k
next-IsKeyed (adopts_thread j) s k = k
next-IsKeyed (adopts declared) s k = k
next-IsKeyed (adopts_limits snapshot) s k = k
next-IsKeyed (reports j usage) s k = k

given-left :
    (id : String) (ts : List Transition) (s : ConnectionState)
    → IsKeyed s.turns
    → count id (given_by awards ts s) + left id (after_all ts s) ≤ left id s
unfolding given_by after_all
given-left id [] s k = omega arith
given-left id (t ∷ ts) s k = omega (
  arith,
  count-append id (awards t s) (given_by awards ts (next t s)),
  next-left id t s k,
  given-left id ts (next t s) (next-IsKeyed t s k),
)

left-le-one : (id : String) (s : ConnectionState) → left id s ≤ 1
unfolding left
left-le-one id s = ground (arith, Option-cases (get s.turns id))

-- Over any sequence of transitions from a connection whose turns have different ids, the right to
-- settle a turn is given at most once, to a caller of `claimTurn` or to a failure of the session; to
-- none if the turn is claimed already.
pub turn_awarded_once :
    (id : String) (ts : List Transition) (s : ConnectionState)
    → IsKeyed s.turns
    → (count id (given_by awards ts s) ≤ 1)
      × (count id (given_by awards ts s) ≤ to_give (get s.turns id))
unfolding left
turn_awarded_once id ts s k =
    (omega (arith, given-left id ts s k, left-le-one id s), omega (arith, given-left id ts s k))
