-- ===== src/Codex/Records/Swallow.antt =====
-- No line between the markers of a PEM block reaches a record.
use mathlib.Core.List.{append-nil}
use sloppenheimer_ts.Base.{
  ◌+◌, ◌≡◌, refl, String, true, false, ◌∷◌, [], List, ◌++◌, Option, none, some, arith, All, ◌∙◌, ap,
  sym,
}
use sloppenheimer_ts.Codex.Framing.{AgentError, ok, Outcome, stateful}
use sloppenheimer_ts.Codex.Framing.Streams.{after, stateful-ok}
use sloppenheimer_ts.Codex.Records.{
  PemMatch, TextMethods, PemCapture, redacted_pem, end_marker_of, record_line, finish_records,
  diagnostic_records,
}

module _ (text : TextMethods) where
  open text use {pem_start, has_text, slice_from, slice_to}

  abbrev records : Option PemCapture → List String → Option AgentError → Outcome String
  records = stateful (λ capture line. ok (record_line text capture line)) (finish_records text)

  -- A line that opens a block and does not close it.
  pub record Opens (line : String) (started : PemMatch) : Type 0 where
    pub found : pem_start line ≡ some started
    pub not_closed :
        has_text (slice_from (started.index + started.matched) line) (end_marker_of started.label)
        ≡ false

  -- What a block is replaced by.
  abbrev pub redaction : String → PemMatch → String
  redaction line started = redacted_pem (slice_to started.index line)

  capture_of : String → PemMatch → PemCapture
  capture_of line started = record {
    end_marker = end_marker_of started.label;
    prefix = slice_to started.index line;
  }

  -- The lines of a block are swallowed, whatever they hold.
  records_inside :
      (capture : PemCapture) (key rest : List String) (ended : Option AgentError)
      → All (λ line. has_text line capture.end_marker ≡ false) key
      → records (some capture) (key ++ rest) ended ≡ records (some capture) rest ended
  unfolding stateful record_line
  records_inside capture [] rest ended h = refl
  records_inside capture (line ∷ key) rest ended h =
      ground (arith, records_inside capture key rest ended h.1)

  record_line-Opens :
      (opening : String) (started : PemMatch)
      → Opens opening started
      → record_line text none opening ≡ (some (capture_of opening started), [])
  unfolding record_line capture_of
  record_line-Opens opening started o = ground (arith, o.found, o.not_closed)

  records_opened :
      (opening : String) (started : PemMatch) (rest : List String) (ended : Option AgentError)
      → Opens opening started
      → records none (opening ∷ rest) ended ≡ records (some (capture_of opening started)) rest ended
  records_opened opening started rest ended o =
      stateful-ok (λ capture line. ok (record_line text capture line)) (finish_records text) none
        (some (capture_of opening started)) opening rest [] ended
        (ap ok (record_line-Opens opening started o))

  records_closed :
      (capture : PemCapture) (closing : String) (rest : List String) (ended : Option AgentError)
      → has_text closing capture.end_marker ≡ true
      → records (some capture) (closing ∷ rest) ended
        ≡ after (redacted_pem capture.prefix ∷ []) (records none rest ended)
  unfolding stateful record_line
  records_closed capture closing rest ended h = ground arith

  records_end :
      (opening : String) (started : PemMatch) (ended : Option AgentError)
      → records (some (capture_of opening started)) [] ended ≡ record {
        emitted = elim ended [ none ↦ redaction opening started ∷ [] | some _ ↦ [] ];
        failure = ended;
      }
  unfolding stateful finish_records capture_of
  records_end opening started none = refl
  records_end opening started (some e) = refl

  -- Lines after one that opens a PEM block are swallowed up to the line that has the block's end
  -- marker, whatever they hold: the whole block gives one record, what stands before the marker on
  -- the opening line and a redaction, and the lines after the block are read as from the start.
  pub diagnostic_records_swallow :
      (opening : String) (started : PemMatch) (key : List String) (closing : String)
      (rest : List String) (ended : Option AgentError)
      → Opens opening started
      → All (λ line. has_text line (end_marker_of started.label) ≡ false) key
      → has_text closing (end_marker_of started.label) ≡ true
      → diagnostic_records text (opening ∷ (key ++ closing ∷ rest)) ended
        ≡ after (redaction opening started ∷ []) (diagnostic_records text rest ended)
  unfolding diagnostic_records capture_of
  diagnostic_records_swallow opening started key closing rest ended o inside h =
      let capture = capture_of opening started in
      records_opened opening started (key ++ closing ∷ rest) ended o
      ∙ records_inside capture key (closing ∷ rest) ended inside
      ∙ records_closed capture closing rest ended h

  -- A PEM block that is still open when the stream ends gives one record, what stands before its
  -- marker and a redaction; if the stream fails instead, the block gives none.
  pub diagnostic_records_unclosed :
      (opening : String) (started : PemMatch) (key : List String) (ended : Option AgentError)
      → Opens opening started
      → All (λ line. has_text line (end_marker_of started.label) ≡ false) key
      → diagnostic_records text (opening ∷ key) ended ≡ record {
        emitted = elim ended [ none ↦ redaction opening started ∷ [] | some _ ↦ [] ];
        failure = ended;
      }
  unfolding diagnostic_records capture_of
  diagnostic_records_unclosed opening started key ended o inside =
      let capture = capture_of opening started in
      records_opened opening started key ended o
      ∙ ap (λ lines. records (some capture) lines ended) (sym (append-nil key))
      ∙ records_inside capture key [] ended inside
      ∙ records_end opening started ended
