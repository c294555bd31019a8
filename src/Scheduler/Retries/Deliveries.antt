-- ===== src/Scheduler/Retries/Deliveries.antt =====
-- The life of a retained delivery: an attempt to publish it is settled once.
use sloppenheimer_ts.Base.{
  ℕ, ◌+◌, ◌≤◌, ◌≡◌, refl, String, true, false, ◌&&◌, [], ◌∷◌, List, Option, none, some, ◌==◌,
  if◌then◌else◌, nat_eq, string_eq, arith, is_some,
}
use sloppenheimer_ts.Collections.{get}
use sloppenheimer_ts.Collections.Laws.{
  IsKeyed, get-with_entry, get-without_entry, with_entry-IsKeyed, without_entry-IsKeyed,
}
use sloppenheimer_ts.Scheduler.State.{RuntimeState, DeliveryEntry}
use sloppenheimer_ts.Scheduler.Claims.{note_issue}
use sloppenheimer_ts.Scheduler.Retries.{
  schedule_delivery, take_due_delivery, take_attempted_delivery, begin_delivery_attempt,
  hold_delivery, suspend_delivery, take_delivery,
}

-- What may happen to deliveries. A newly scheduled one is not being published.
pub data DeliveryEvent : Type 0 where
  schedules holds : DeliveryEntry → DeliveryEvent
  comes_due settles : String → ℕ → DeliveryEvent
  begins : String → ℕ → ℕ → DeliveryEvent
  suspends abandons : String → DeliveryEvent

unfoldable pub delivery_step : DeliveryEvent → RuntimeState → RuntimeState
delivery_step (schedules entry) s = schedule_delivery (record entry { publishing_since = none }) s
delivery_step (holds entry) s = hold_delivery entry s
delivery_step (comes_due id attempt) s = (take_due_delivery id attempt s).1
delivery_step (settles id attempt) s = (take_attempted_delivery id attempt s).1
delivery_step (begins id attempt at) s = (begin_delivery_attempt id attempt at s).1
delivery_step (suspends id) s = (suspend_delivery id s).1
delivery_step (abandons id) s = (take_delivery id s).1

unfoldable pub delivery_steps : List DeliveryEvent → RuntimeState → RuntimeState
unfolding delivery_step
delivery_steps [] s = s
delivery_steps (e ∷ es) s = delivery_steps es (delivery_step e s)

-- The attempts at an issue's delivery that an event hands over, and those that it settles.
unfoldable pub begun : String → DeliveryEvent → RuntimeState → ℕ
begun j (begins id attempt at) s =
    if id == j && is_some (begin_delivery_attempt id attempt at s).0 then 1 else 0
begun j e s = 0

unfoldable pub settled : String → DeliveryEvent → RuntimeState → ℕ
settled j (settles id attempt) s =
    if id == j && is_some (take_attempted_delivery id attempt s).0 then 1 else 0
settled j e s = 0

-- Whether a delivery is being published.
abbrev pub publishing : Option DeliveryEntry → ℕ
publishing none = 0
publishing (some entry) = if is_some entry.publishing_since then 1 else 0

-- What an event keeps, and what it moves between the two counts.
record Moves (j : String) (e : DeliveryEvent) (s : RuntimeState) : Type 0 where
  keyed : IsKeyed (delivery_step e s).deliveries
  moved :
      settled j e s + publishing (get (delivery_step e s).deliveries j)
      ≤ begun j e s + publishing (get s.deliveries j)

module _ (j : String) (s : RuntimeState) (k : IsKeyed s.deliveries) where
  schedules-Moves : (entry : DeliveryEntry) → Moves j (schedules entry) s
  unfolding delivery_step begun settled schedule_delivery note_issue
  schedules-Moves entry =
      let new = record entry { publishing_since = none } in
      ground (
        arith,
        with_entry-IsKeyed s.deliveries entry.issue.id new k,
        get-with_entry s.deliveries entry.issue.id j new,
      )

  holds-Moves : (entry : DeliveryEntry) → Moves j (holds entry) s
  unfolding delivery_step begun settled hold_delivery note_issue
  holds-Moves entry =
      let new = record entry { armed = false; publishing_since = none } in
      ground (
        arith,
        with_entry-IsKeyed s.deliveries entry.issue.id new k,
        get-with_entry s.deliveries entry.issue.id j new,
      )

  settles-Moves : (id : String) (attempt : ℕ) → Moves j (settles id attempt) s
  unfolding delivery_step begun settled take_attempted_delivery
  settles-Moves id attempt = settle_at (get s.deliveries id) refl
    where
      settle_at :
          (o : Option DeliveryEntry) → get s.deliveries id ≡ o → Moves j (settles id attempt) s
      settle_at none e = ground (arith, e, k)
      settle_at (some entry) e = ground (
        arith,
        e,
        k,
        without_entry-IsKeyed s.deliveries id k,
        get-without_entry s.deliveries id j k,
      )

  comes_due-Moves : (id : String) (attempt : ℕ) → Moves j (comes_due id attempt) s
  unfolding delivery_step begun settled take_due_delivery
  comes_due-Moves id attempt = comes_due_at (get s.deliveries id) refl
    where
      comes_due_at :
          (o : Option DeliveryEntry) → get s.deliveries id ≡ o → Moves j (comes_due id attempt) s
      comes_due_at none e = ground (arith, e, k)
      comes_due_at (some entry) e = ground (
        arith,
        e,
        k,
        without_entry-IsKeyed s.deliveries id k,
        get-without_entry s.deliveries id j k,
      )

  begins-Moves : (id : String) (attempt at : ℕ) → Moves j (begins id attempt at) s
  unfolding delivery_step begun settled begin_delivery_attempt
  begins-Moves id attempt at = begins_at (get s.deliveries id) refl
    where
      begins_at :
          (o : Option DeliveryEntry) → get s.deliveries id ≡ o → Moves j (begins id attempt at) s
      begins_at none e = ground (arith, e, k)
      begins_at (some entry) e = ground (
        arith,
        e,
        k,
        with_entry-IsKeyed s.deliveries id
            (record entry { armed = true; publishing_since = some at }) k,
        get-with_entry s.deliveries id j
            (record entry { armed = true; publishing_since = some at }),
      )

  suspends-Moves : (id : String) → Moves j (suspends id) s
  unfolding delivery_step begun settled suspend_delivery
  suspends-Moves id = suspends_at (get s.deliveries id) refl
    where
      suspends_at : (o : Option DeliveryEntry) → get s.deliveries id ≡ o → Moves j (suspends id) s
      suspends_at none e = ground (arith, e, k)
      suspends_at (some entry) e = ground (
        arith,
        e,
        k,
        with_entry-IsKeyed s.deliveries id (record entry { armed = false }) k,
        get-with_entry s.deliveries id j (record entry { armed = false }),
      )

  abandons-Moves : (id : String) → Moves j (abandons id) s
  unfolding delivery_step begun settled take_delivery
  abandons-Moves id = abandons_at (get s.deliveries id) refl
    where
      abandons_at : (o : Option DeliveryEntry) → get s.deliveries id ≡ o → Moves j (abandons id) s
      abandons_at none e = ground (arith, e, k)
      abandons_at (some entry) e = ground (
        arith,
        e,
        k,
        without_entry-IsKeyed s.deliveries id k,
        get-without_entry s.deliveries id j k,
      )

  delivery_step-Moves : (e : DeliveryEvent) → Moves j e s
  delivery_step-Moves (schedules entry) = schedules-Moves entry
  delivery_step-Moves (holds entry) = holds-Moves entry
  delivery_step-Moves (comes_due id attempt) = comes_due-Moves id attempt
  delivery_step-Moves (settles id attempt) = settles-Moves id attempt
  delivery_step-Moves (begins id attempt at) = begins-Moves id attempt at
  delivery_step-Moves (suspends id) = suspends-Moves id
  delivery_step-Moves (abandons id) = abandons-Moves id

module _ (count_of : String → DeliveryEvent → RuntimeState → ℕ) where
  -- The sum over a sequence of events.
  unfoldable pub sum_over : String → List DeliveryEvent → RuntimeState → ℕ
  unfolding delivery_step
  sum_over j [] s = 0
  sum_over j (e ∷ es) s = count_of j e s + sum_over j es (delivery_step e s)

-- Over any sequence of events, the attempts at an issue's delivery that were settled, and the one
-- that is being published at the end if one is, are at most those that were begun, and the one that
-- was being published at the start if one was: an attempt is settled at most once, and never before
-- it was begun.
pub delivery_settles_once :
    (j : String) (es : List DeliveryEvent) (s : RuntimeState)
    → IsKeyed s.deliveries
    → sum_over settled j es s + publishing (get (delivery_steps es s).deliveries j)
      ≤ sum_over begun j es s + publishing (get s.deliveries j)
unfolding sum_over delivery_steps
delivery_settles_once j [] s k = omega arith
delivery_settles_once j (e ∷ es) s k =
    let moves = delivery_step-Moves j s k e in
    omega (arith, moves.moved, delivery_settles_once j es (delivery_step e s) moves.keyed)
