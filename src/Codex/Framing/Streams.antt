-- ===== src/Codex/Framing/Streams.antt =====
-- One step of the stream operation of packages/adapter-codex/src/framing.ts.
use sloppenheimer_ts.Base.{◌≡◌, List, [], ◌∷◌, ◌++◌, Option, some}
use sloppenheimer_ts.Codex.Framing.{AgentError, Result, ok, err, Outcome, stateful}

-- More values before an outcome.
abbrev pub after {ℓ} : {B : Type ℓ} → List B → Outcome B → Outcome B
after values later = record later { emitted = values ++ later.emitted }

module _ {S A B : Type 0} (step : S → A → Result (S × List B)) (finish : S → Result (List B)) where
  pub stateful-ok :
      (s next : S) (a : A) (as' : List A) (emit : List B) (ended : Option AgentError)
      → step s a ≡ ok (next, emit)
      → stateful step finish s (a ∷ as') ended ≡ after emit (stateful step finish next as' ended)
  unfolding stateful
  stateful-ok s next a as' emit ended h = rw (h, stateful)

  pub stateful-err :
      (s : S) (a : A) (as' : List A) (ended : Option AgentError) (e : AgentError)
      → step s a ≡ err e
      → stateful step finish s (a ∷ as') ended ≡ record { emitted = []; failure = some e }
  unfolding stateful
  stateful-err s a as' ended e h = rw (h, stateful)
