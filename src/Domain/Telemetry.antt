-- ===== src/Domain/Telemetry.antt =====
-- What an agent reports: packages/core/src/telemetry/events.ts and packages/core/src/domain/domain.ts.
use sloppenheimer_ts.Base.{
  ℕ, String, not, ◌&&◌, ◌||◌, ◌+◌, ◌≤◌, max, Option, none, some, leb, is_some, if◌then◌else◌,
}

-- What an agent reports of its token use.
pub record Usage : Type 0 where
  pub input_tokens : ℕ
  pub output_tokens : ℕ
  pub total_tokens : ℕ

abbrev pub no_usage : Usage
no_usage = record { input_tokens = 0; output_tokens = 0; total_tokens = 0 }

-- `previous?.inputTokens ?? 0` and so on, against a new report: the larger of each.
unfoldable pub high_water : Option Usage → Usage → Usage
high_water none usage = record {
  input_tokens = max 0 usage.input_tokens;
  output_tokens = max 0 usage.output_tokens;
  total_tokens = max 0 usage.total_tokens;
}
high_water (some previous) usage = record {
  input_tokens = max previous.input_tokens usage.input_tokens;
  output_tokens = max previous.output_tokens usage.output_tokens;
  total_tokens = max previous.total_tokens usage.total_tokens;
}

unfoldable pub plus_usage : Usage → Usage → Usage
plus_usage sum entry = record {
  input_tokens = sum.input_tokens + entry.input_tokens;
  output_tokens = sum.output_tokens + entry.output_tokens;
  total_tokens = sum.total_tokens + entry.total_tokens;
}

-- Each count of the one is within the other's.
pub record IsWithin (low high : Usage) : Type 0 where
  pub input : low.input_tokens ≤ high.input_tokens
  pub output : low.output_tokens ≤ high.output_tokens
  pub total : low.total_tokens ≤ high.total_tokens

-- An event that a runner reports. The payload and the lifecycle are carried and never read by the
-- modelled code; `self` is the object's own number.
pub record AgentEvent : Type 0 where
  pub self : ℕ
  pub event : String
  pub timestamp : ℕ
  pub process_id : Option ℕ
  pub message : Option String
  pub usage : Option Usage
  pub thread_id : Option String
  pub turn_id : Option String
  pub session_id : Option String
  pub turn_count : ℕ

-- telemetry/events.ts: the turn half of a session identity, and its fold.
pub record TurnIdentity : Type 0 where
  pub turn_id : Option String
  pub session_id : Option String
  pub turn_count : ℕ

-- `value ?? held`.
abbrev pub or_held {ℓ} : {A : Type ℓ} → Option A → Option A → Option A
or_held none held = held
or_held (some value) held = some value

unfoldable pub fold_turn_identity : TurnIdentity → AgentEvent → TurnIdentity
fold_turn_identity held event =
    let supersedes = is_some event.turn_id && leb held.turn_count event.turn_count in
    record {
      turn_id = if supersedes then event.turn_id else held.turn_id;
      session_id =
          if supersedes || not (is_some event.turn_id)
          then or_held event.session_id held.session_id
          else held.session_id;
      turn_count = max held.turn_count event.turn_count;
    }
