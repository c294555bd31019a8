-- ===== src/Codex/Connection/Tokens.antt =====
-- The session's token total never falls, and late reports of a turn do not depend on their order.
use sloppenheimer_ts.Base.{
  ℕ, ◌+◌, ◌≡◌, String, ◌∷◌, [], Option, none, some, ◌==◌, string_eq, arith, Bool-cases, inl, inr,
}
use sloppenheimer_ts.Collections.{Map, get, with_entry}
use sloppenheimer_ts.Collections.Laws.{get-with_entry}
use sloppenheimer_ts.Domain.Telemetry.{Usage, no_usage, high_water, plus_usage, IsWithin}
use sloppenheimer_ts.Codex.Connection.{ConnectionState, sum_usage, accumulate_usage}

-- The total over every turn of the session.
abbrev pub session_total : ConnectionState → Usage
session_total s = sum_usage no_usage s.turn_usage

sum_usage_mono :
    (m : Map String Usage) (low high : Usage)
    → IsWithin low high
    → IsWithin (sum_usage low m) (sum_usage high m)
unfolding sum_usage plus_usage
sum_usage_mono [] low high h = h
sum_usage_mono ((id, entry) ∷ m) low high h =
    sum_usage_mono m (plus_usage low entry) (plus_usage high entry) (ground arith)

sum_usage_grows :
    (m : Map String Usage) (sum usage : Usage) (id : String)
    → IsWithin (sum_usage sum m) (sum_usage sum (with_entry m id (high_water (get m id) usage)))
unfolding sum_usage plus_usage high_water with_entry get
sum_usage_grows [] sum usage id = ground arith
sum_usage_grows ((j, entry) ∷ m) sum usage id = elim (Bool-cases (j == id)) [
  | inl e ↦ rw e (
      sum_usage_mono m (plus_usage sum entry) (plus_usage sum (high_water (some entry) usage))
        (ground arith))
  | inr e ↦ rw e (sum_usage_grows m (plus_usage sum entry) usage id)
]

-- The sum of one count over the turns.
abbrev pub sum_of : (Usage → ℕ) → Map String Usage → ℕ
sum_of count_of [] = 0
sum_of count_of ((id, entry) ∷ m) = count_of entry + sum_of count_of m

-- Each count is the sum of that count over the turns.
pub record IsSumOver (total : Usage) (m : Map String Usage) : Type 0 where
  pub input : total.input_tokens ≡ sum_of (λ u. u.input_tokens) m
  pub output : total.output_tokens ≡ sum_of (λ u. u.output_tokens) m
  pub total_sum : total.total_tokens ≡ sum_of (λ u. u.total_tokens) m

sum_usage-counts :
    (m : Map String Usage) (sum : Usage)
    → ((sum_usage sum m).input_tokens ≡ sum.input_tokens + sum_of (λ u. u.input_tokens) m)
      × ((sum_usage sum m).output_tokens ≡ sum.output_tokens + sum_of (λ u. u.output_tokens) m)
      × ((sum_usage sum m).total_tokens ≡ sum.total_tokens + sum_of (λ u. u.total_tokens) m)
unfolding sum_usage plus_usage
sum_usage-counts [] sum = (omega arith, omega arith, omega arith)
sum_usage-counts ((id, entry) ∷ m) sum =
    let (i, o, t) = sum_usage-counts m (plus_usage sum entry) in
    (omega (arith, i), omega (arith, o), omega (arith, t))

high_water-IsWithin :
    (before : Option Usage) (usage : Usage) → IsWithin usage (high_water before usage)
unfolding high_water
high_water-IsWithin none usage = ground arith
high_water-IsWithin (some before) usage = ground arith

high_water_swap :
    (before : Option Usage) (left right : Usage)
    → high_water (some (high_water before left)) right
      ≡ high_water (some (high_water before right)) left
unfolding high_water
high_water_swap none left right = ground arith
high_water_swap (some before) left right = ground arith

get-with_entry_self :
    (m : Map String Usage) (id : String) (usage : Usage)
    → get (with_entry m id usage) id ≡ some usage
get-with_entry_self m id usage = ground (arith, get-with_entry m id id usage)

-- After a turn's report, each count that is reported for the session is the sum of that count over
-- the turns, none of them has fallen, and the turn has a count that is at least what it reported.
pub accumulate_usage-IsWithin :
    (id : String) (usage : Usage) (s : ConnectionState)
    → IsSumOver (accumulate_usage id usage s).0 (accumulate_usage id usage s).1.turn_usage
      × IsWithin (session_total s) (accumulate_usage id usage s).0
      × (held : Usage) × (get (accumulate_usage id usage s).1.turn_usage id ≡ some held)
      × IsWithin usage held
unfolding accumulate_usage
accumulate_usage-IsWithin id usage s =
    let held = high_water (get s.turn_usage id) usage in
    let (i, o, t) = sum_usage-counts (with_entry s.turn_usage id held) no_usage in
    (
      record { input = omega (arith, i); output = omega (arith, o); total_sum = omega (arith, t) },
      sum_usage_grows s.turn_usage no_usage usage id,
      held,
      get-with_entry_self s.turn_usage id held,
      high_water-IsWithin (get s.turn_usage id) usage,
    )

with_entry_over :
    (m : Map String Usage) (id : String) (old new : Usage)
    → with_entry (with_entry m id old) id new ≡ with_entry m id new
unfolding with_entry
with_entry_over [] id old new = ground arith
with_entry_over ((j, entry) ∷ m) id old new = ground (arith, with_entry_over m id old new)

-- Two reports of one turn leave the same session total and the same state in either order.
pub accumulate_usage_swap :
    (id : String) (left right : Usage) (s : ConnectionState)
    → accumulate_usage id right (accumulate_usage id left s).1
      ≡ accumulate_usage id left (accumulate_usage id right s).1
unfolding accumulate_usage
accumulate_usage_swap id left right s =
    let before = get s.turn_usage id in
    rw (
      get-with_entry_self s.turn_usage id (high_water before left),
      get-with_entry_self s.turn_usage id (high_water before right),
      with_entry_over s.turn_usage id (high_water before left)
          (high_water (some (high_water before left)) right),
      with_entry_over s.turn_usage id (high_water before right)
          (high_water (some (high_water before right)) left),
      high_water_swap before left right,
    )
