-- ===== src/Codex/Records.antt =====
-- Diagnostic records of packages/adapter-codex/src/framing.ts: a PEM block on stderr is swallowed.
-- The methods of strings, and the search for the opening marker, are a parameter.
pub mod Swallow
use sloppenheimer_ts.Base.{
  ℕ, ◌+◌, String, Bool, not, ◌∷◌, [], List, Option, none, some, ◌==◌, if◌then◌else◌, string_eq,
  template,
}
use sloppenheimer_ts.Codex.Framing.{AgentError, Result, ok, Outcome, stateful}

-- A match of `pemStart`: where it begins, the matched text's length, and the label in it.
pub record PemMatch : Type 0 where
  pub index : ℕ
  pub matched : ℕ
  pub label : String

pub record TextMethods : Type 0 where
  pub pem_start : String → Option PemMatch
  pub has_text : String → String → Bool
  pub trim : String → String
  pub slice_from : ℕ → String → String
  pub slice_to : ℕ → String → String

pub record PemCapture : Type 0 where
  pub end_marker : String
  pub prefix : String

unfoldable pub redacted_pem : String → String
redacted_pem prefix = template (prefix ∷ "[REDACTED PEM PRIVATE KEY]" ∷ [])

unfoldable pub end_marker_of : String → String
end_marker_of label = template ("-----END " ∷ label ∷ "-----" ∷ [])

module _ (text : TextMethods) where
  open text use {pem_start, has_text, trim, slice_from, slice_to}

  unfoldable pub record_line : Option PemCapture → String → Option PemCapture × List String
  record_line (some capture) line =
      if has_text line capture.end_marker
      then (none, redacted_pem capture.prefix ∷ [])
      else (some capture, [])
  record_line none line = elim (pem_start line) [
    | some started ↦
        let end_marker = end_marker_of started.label in
        if has_text (slice_from (started.index + started.matched) line) end_marker
        then (none, trim line ∷ [])
        else (some (record { end_marker = end_marker; prefix = slice_to started.index line }), [])
    | none ↦ let message = trim line in (none, if message == "" then [] else message ∷ [])
  ]

  unfoldable pub finish_records : Option PemCapture → Result (List String)
  finish_records none = ok []
  finish_records (some capture) = ok (redacted_pem capture.prefix ∷ [])

  unfoldable pub diagnostic_records : List String → Option AgentError → Outcome String
  diagnostic_records = stateful (λ capture line. ok (record_line capture line)) finish_records none
