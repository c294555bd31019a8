-- ===== src/Codex/Connection/Requests.antt =====
-- A request id is taken once, and its reply is given to one caller.
use sloppenheimer_ts.Base.{
  ℕ, String, ◌+◌, ◌≤◌, ◌≡◌, refl, Bool, true, false, ◌∷◌, [], List, Option, none, some, leb,
  if◌then◌else◌, nat_eq, arith, count, count-append, Option-cases,
}
use sloppenheimer_ts.Collections.{get}
use sloppenheimer_ts.Collections.Laws.{
  IsKeyed, get-with_entry, with_entry-IsKeyed, get-without_entry, without_entry-IsKeyed,
}
use sloppenheimer_ts.Codex.Framing.{AgentError}
use sloppenheimer_ts.Codex.Connection.{
  TurnState, PendingRequest, ConnectionState, registered, refused, register_request, claim_response,
  expire_pending, remove_pending, claim_outstanding,
}
use sloppenheimer_ts.Codex.Connection.Trace.{
  Transition, registers, answers, expires, removes, fails, next, grants, given_by,
}
use sloppenheimer_ts.Codex.Connection.Unchanged.{next-SameRequests, leaves_requests}

-- The ids that a transition gives to new requests.
unfoldable pub taken : Transition → ConnectionState → List ℕ
unfolding register_request
taken (registers method turn_count reply) s = elim (register_request method turn_count reply s).0 [
  | registered id ↦ id ∷ []
  | refused e ↦ []
]
taken t s = []

-- One while an id can still be taken, and one while its reply can still be granted.
to_take : ℕ → ConnectionState → ℕ
to_take id s = if leb s.next_id id then 1 else 0

grantable : Option PendingRequest → Bool → ℕ
grantable (some request) later = if request.claimed then 0 else 1
grantable none later = if later then 1 else 0

to_grant : ℕ → ConnectionState → ℕ
to_grant id s = grantable (get s.pending id) (leb s.next_id id)

-- The pending requests have different ids, and an id that is still to be taken is none of them.
pub record IsNumbered (id : ℕ) (s : ConnectionState) : Type 0 where
  pub keyed : IsKeyed s.pending
  pub untaken : leb s.next_id id ≡ true → get s.pending id ≡ none

module _ (id : ℕ) (s : ConnectionState) (v : IsNumbered id s) where
  -- What a transition keeps, and what it takes from what was left.
  record Keeps (t : Transition) : Type 0 where
    numbered : IsNumbered id (next t s)
    takes : count id (taken t s) + to_take id (next t s) ≤ to_take id s
    grants_one : count id (grants t s) + to_grant id (next t s) ≤ to_grant id s

  registers-Keeps :
      (method : String) (turn_count : Option ℕ) (reply : ℕ)
      → Keeps (registers method turn_count reply)
  unfolding next taken grants register_request to_take to_grant grantable
  registers-Keeps method turn_count reply = register_with s.terminal_error refl
    where
      added : PendingRequest
      added = record { method = method; turn_count = turn_count; reply = reply; claimed = false }

      register_with :
          (o : Option AgentError) → s.terminal_error ≡ o → Keeps (registers method turn_count reply)
      register_with (some e) h = record {
        numbered = record {
          keyed = ground (arith, h, v.keyed);
          untaken = λ u. ground (arith, h, v.untaken);
        };
        takes = ground (arith, h);
        grants_one = ground (arith, h);
      }
      register_with none h = record {
        numbered = record {
          keyed = ground (arith, h, with_entry-IsKeyed s.pending s.next_id added v.keyed);
          untaken = λ u. ground (arith, h, get-with_entry s.pending s.next_id id added, v.untaken);
        };
        takes = ground (arith, h);
        grants_one = ground (arith, h, get-with_entry s.pending s.next_id id added, v.untaken);
      }

  answers-Keeps : (j : ℕ) → Keeps (answers j)
  unfolding next taken grants claim_response to_take to_grant grantable
  answers-Keeps j = answer_at (get s.pending j) refl
    where
      answer_at : (o : Option PendingRequest) → get s.pending j ≡ o → Keeps (answers j)
      answer_at none h = record {
        numbered = record {
          keyed = ground (arith, h, v.keyed);
          untaken = λ u. ground (arith, h, v.untaken);
        };
        takes = ground (arith, h);
        grants_one = ground (arith, h);
      }
      answer_at (some request) h = record {
        numbered = record {
          keyed = ground (
            arith,
            h,
            with_entry-IsKeyed s.pending j (record request { claimed = true }) v.keyed,
            v.keyed,
          );
          untaken = λ u. ground (
            arith,
            h,
            get-with_entry s.pending j id (record request { claimed = true }),
            v.untaken,
          );
        };
        takes = ground (arith, h);
        grants_one = ground (
          arith,
          h,
          get-with_entry s.pending j id (record request { claimed = true }),
          v.untaken,
        );
      }

  expires-Keeps : (j reply : ℕ) → Keeps (expires j reply)
  unfolding next taken grants expire_pending to_take to_grant grantable
  expires-Keeps j reply = expire_at (get s.pending j) refl
    where
      expire_at : (o : Option PendingRequest) → get s.pending j ≡ o → Keeps (expires j reply)
      expire_at none h = record {
        numbered = record {
          keyed = ground (arith, h, v.keyed);
          untaken = λ u. ground (arith, h, v.untaken);
        };
        takes = ground (arith, h);
        grants_one = ground (arith, h);
      }
      expire_at (some request) h = record {
        numbered = record {
          keyed = ground (arith, h, without_entry-IsKeyed s.pending j v.keyed, v.keyed);
          untaken = λ u. ground (arith, h, get-without_entry s.pending j id v.keyed, v.untaken);
        };
        takes = ground (arith, h);
        grants_one = ground (arith, h, get-without_entry s.pending j id v.keyed, v.untaken);
      }

  removes-Keeps : (j reply : ℕ) → Keeps (removes j reply)
  unfolding next taken grants remove_pending to_take to_grant grantable
  removes-Keeps j reply = remove_at (get s.pending j) refl
    where
      remove_at : (o : Option PendingRequest) → get s.pending j ≡ o → Keeps (removes j reply)
      remove_at none h = record {
        numbered = record {
          keyed = ground (arith, h, v.keyed);
          untaken = λ u. ground (arith, h, v.untaken);
        };
        takes = ground (arith, h);
        grants_one = ground (arith, h);
      }
      remove_at (some request) h = record {
        numbered = record {
          keyed = ground (arith, h, without_entry-IsKeyed s.pending j v.keyed, v.keyed);
          untaken = λ u. ground (arith, h, get-without_entry s.pending j id v.keyed, v.untaken);
        };
        takes = ground (arith, h);
        grants_one = ground (arith, h, get-without_entry s.pending j id v.keyed, v.untaken);
      }

  fails-Keeps :
      (e : AgentError) (remember : Bool) (candidate : TurnState)
      → Keeps (fails e remember candidate)
  unfolding next taken grants claim_outstanding to_take to_grant grantable get
  fails-Keeps e remember candidate = record {
    numbered = record { keyed = tt; untaken = λ u. refl };
    takes = omega arith;
    grants_one = ground (arith, v.untaken);
  }

  other-Keeps :
      (t : Transition) → leaves_requests t ≡ true → taken t s ≡ [] → grants t s ≡ [] → Keeps t
  unfolding to_take to_grant
  other-Keeps t h a b =
      let same = next-SameRequests t s h in
      record {
        numbered = record {
          keyed = rw same.pending v.keyed;
          untaken = λ u. ground (arith, same.pending, same.next_id, v.untaken);
        };
        takes = rw (a, same.next_id) (omega arith);
        grants_one = rw (b, same.pending, same.next_id) (omega arith);
      }

  next-Keeps : (t : Transition) → Keeps t
  unfolding taken grants
  next-Keeps (registers method turn_count reply) = registers-Keeps method turn_count reply
  next-Keeps (answers j) = answers-Keeps j
  next-Keeps (expires j reply) = expires-Keeps j reply
  next-Keeps (removes j reply) = removes-Keeps j reply
  next-Keeps (fails e remember candidate) = fails-Keeps e remember candidate
  next-Keeps t = other-Keeps t refl refl refl

-- What is left to take and to grant bounds what a sequence of transitions takes and grants.
left_over :
    (id : ℕ) (ts : List Transition) (s : ConnectionState)
    → IsNumbered id s
    → (count id (given_by taken ts s) ≤ to_take id s)
      × (count id (given_by grants ts s) ≤ to_grant id s)
unfolding given_by
left_over id [] s v = (omega arith, omega arith)
left_over id (t ∷ ts) s v =
    let kept = next-Keeps id s v t in
    let (takes, grants_rest) = left_over id ts (next t s) kept.numbered in
    (
      omega (arith, count-append id (taken t s) (given_by taken ts (next t s)), takes, kept.takes),
      omega (
        arith,
        count-append id (grants t s) (given_by grants ts (next t s)),
        grants_rest,
        kept.grants_one,
      ),
    )

-- Over any sequence of transitions from a connection whose pending requests have different ids, all
-- of them taken, an id is taken by at most one request, and the reply to the request of an id is
-- given to at most one caller: the response that claims it or the timeout that drops it.
pub request_granted_once :
    (id : ℕ) (ts : List Transition) (s : ConnectionState)
    → IsNumbered id s
    → (count id (given_by taken ts s) ≤ 1) × (count id (given_by grants ts s) ≤ 1)
unfolding to_take to_grant grantable
request_granted_once id ts s v =
    let (takes, grants_all) = left_over id ts s v in
    (ground (arith, takes), ground (arith, grants_all, Option-cases (get s.pending id)))
