-- ===== src/Codex/Connection/Loop.antt =====
-- The loop of `claimOutstanding` over the turns.
use sloppenheimer_ts.Base.{
  ℕ, ◌+◌, ◌≤◌, ◌≡◌, refl, String, true, ◌∷◌, [], List, ◌++◌, map, Option, none, some, if◌then◌else◌,
  string_eq, nat_eq, arith, count,
}
use sloppenheimer_ts.Collections.{Map, get, has}
use sloppenheimer_ts.Collections.Laws.{IsKeyed, get-with_entry, with_entry-IsKeyed, get_of_absent}
use sloppenheimer_ts.Codex.Connection.{TurnState, claim_all, stand_in}

-- One while a turn's settlement can still be given: a turn that is not there may come to be.
abbrev pub to_give : Option TurnState → ℕ
to_give none = 1
to_give (some held) = if held.claimed then 0 else 1

-- One for an unclaimed turn.
abbrev pub unclaimed : Option TurnState → ℕ
unclaimed none = 0
unclaimed (some held) = if held.claimed then 0 else 1

unfoldable pub names : List (String × TurnState) → List String
names = map (λ entry. entry.0)

pub claim_all-names :
    (fresh : ℕ) (m : Map String TurnState) (id : String)
    → IsKeyed m
    → count id (names (claim_all fresh m).1) ≡ unclaimed (get m id)
unfolding claim_all get names
claim_all-names fresh [] id h = refl
claim_all-names fresh ((j, held) ∷ m) id h = ground (
  arith,
  claim_all-names fresh m id h.1,
  claim_all-names (fresh + 1) m id h.1,
  get_of_absent m j h.0,
)

-- What is left to give after the loop: only what is not there.
pub claim_all-get :
    (fresh : ℕ) (m : Map String TurnState) (id : String)
    → to_give (get (claim_all fresh m).0 id) + unclaimed (get m id) ≡ to_give (get m id)
unfolding claim_all get
claim_all-get fresh [] id = refl
claim_all-get fresh ((j, held) ∷ m) id =
    ground (arith, claim_all-get fresh m id, claim_all-get (fresh + 1) m id)

pub claim_all-has :
    (fresh : ℕ) (m : Map String TurnState) (id : String) → has (claim_all fresh m).0 id ≡ has m id
unfolding claim_all has
claim_all-has fresh [] id = refl
claim_all-has fresh ((j, held) ∷ m) id =
    ground (arith, claim_all-has fresh m id, claim_all-has (fresh + 1) m id)

pub claim_all-IsKeyed :
    (fresh : ℕ) (m : Map String TurnState) → IsKeyed m → IsKeyed (claim_all fresh m).0
unfolding claim_all
claim_all-IsKeyed fresh [] h = tt
claim_all-IsKeyed fresh ((j, held) ∷ m) h = ground (
  arith,
  claim_all-IsKeyed fresh m h.1,
  claim_all-IsKeyed (fresh + 1) m h.1,
  claim_all-has fresh m j,
  claim_all-has (fresh + 1) m j,
)

pub stand_in-left :
    (id : String) (turn_id : Option String) (candidate : TurnState) (m : Map String TurnState)
    → candidate.claimed ≡ true
    → count id (names (stand_in turn_id candidate m).1)
        + to_give (get (stand_in turn_id candidate m).0 id)
      ≤ to_give (get m id)
unfolding stand_in names
stand_in-left id none candidate m c = omega arith
stand_in-left id (some turn_id) candidate m c =
    ground (arith, get-with_entry m turn_id id candidate, get_of_absent m turn_id)

pub stand_in-IsKeyed :
    (turn_id : Option String) (candidate : TurnState) (m : Map String TurnState)
    → IsKeyed m
    → IsKeyed (stand_in turn_id candidate m).0
unfolding stand_in
stand_in-IsKeyed none candidate m h = h
stand_in-IsKeyed (some turn_id) candidate m h =
    ground (arith, with_entry-IsKeyed m turn_id candidate h)

pub names-append : (xs ys : List (String × TurnState)) → names (xs ++ ys) ≡ names xs ++ names ys
unfolding names
names-append [] ys = refl
names-append (x ∷ xs) ys = ground (arith, names-append xs ys)
