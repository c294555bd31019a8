-- ===== src/Codex/Framing/RoundTrip.antt =====
-- What is written line by line is read back, however the pipe cuts it.
use mathlib.Core.List.{append_assoc, append-nil}
use sloppenheimer_ts.Base.{
  ℕ, suc, ◌≤◌, ◌≡◌, refl, String, Bool, true, false, not, ◌||◌, ◌∷◌, [], List, ◌==◌, if◌then◌else◌,
  nat_eq, length, ◌++◌, arith, none, map, ap, ◌∙◌, All, ℕ_discrete, Option-cases,
}
use sloppenheimer_ts.Codex.Framing.{
  line_feed, carriage_return, stripped, ends_in_return, without_last, index_of, flatten,
  protocol_lines, diagnostic_lines,
}
use sloppenheimer_ts.Codex.Framing.Reference.{
  raw_lines, raw_tail, fits, raw_lines-append, raw_tail-append,
}
use sloppenheimer_ts.Codex.Framing.Scan.{texts, all_fit, index_of-none}
use sloppenheimer_ts.Codex.Framing.Whole.{framed_lines_fit, outcome}

-- A line as a writer sends it: its bytes, and whether it ends in CRLF rather than in LF.
pub record SentLine : Type 0 where
  pub bytes : List ℕ
  pub crlf : Bool

abbrev pub raw : SentLine → List ℕ
raw line = if line.crlf then line.bytes ++ carriage_return ∷ [] else line.bytes

-- The bytes of the lines on the wire.
unfoldable pub sent : List SentLine → List ℕ
sent [] = []
sent (line ∷ lines) = raw line ++ line_feed ∷ sent lines

-- A line of at most `limit` bytes with no line feed, which does not end in a carriage return of its
-- own unless it is sent with a CRLF.
pub record IsSendable (limit : ℕ) (line : SentLine) : Type 0 where
  pub one_line : index_of line_feed line.bytes ≡ none
  pub no_return : (line.crlf || not (ends_in_return line.bytes)) ≡ true
  pub short : length line.bytes ≤ limit

ends_in_return-append : (xs : List ℕ) → ends_in_return (xs ++ carriage_return ∷ []) ≡ true
unfolding ends_in_return
ends_in_return-append [] = refl
ends_in_return-append (x ∷ []) = refl
ends_in_return-append (x ∷ y ∷ ys) = ends_in_return-append (y ∷ ys)

without_last-append : (xs : List ℕ) → without_last (xs ++ carriage_return ∷ []) ≡ xs
unfolding without_last
without_last-append [] = refl
without_last-append (x ∷ []) = refl
without_last-append (x ∷ y ∷ ys) = ap (λ zs. x ∷ zs) (without_last-append (y ∷ ys))

stripped-raw :
    (limit : ℕ) (line : SentLine) → IsSendable limit line → stripped (raw line) ≡ line.bytes
unfolding stripped
stripped-raw limit line v =
    ground (arith, ends_in_return-append line.bytes, without_last-append line.bytes)

index_of-append_return :
    (xs : List ℕ)
    → index_of line_feed xs ≡ none
    → index_of line_feed (xs ++ carriage_return ∷ []) ≡ none
unfolding index_of ℕ_discrete
index_of-append_return [] h = refl
index_of-append_return (x ∷ xs) h =
    ground (arith, Option-cases (index_of line_feed xs), index_of-append_return xs)

index_of-raw :
    (limit : ℕ) (line : SentLine) → IsSendable limit line → index_of line_feed (raw line) ≡ none
index_of-raw limit line v = ground (arith, index_of-append_return line.bytes v.one_line)

-- The description of what was sent: the lines, and the tail that no line feed ended.
raw_lines-sent :
    (limit : ℕ) (lines : List SentLine) (tail : List ℕ)
    → All (IsSendable limit) lines
    → index_of line_feed tail ≡ none
    → (raw_lines [] (sent lines ++ tail) ≡ map raw lines)
      × (raw_tail [] (sent lines ++ tail) ≡ tail)
unfolding sent raw_lines raw_tail ℕ_discrete
raw_lines-sent limit [] tail v u = index_of-none [] tail u
raw_lines-sent limit (line ∷ lines) tail v u =
    let (none_yet, whole) = index_of-none [] (raw line) (index_of-raw limit line v.0) in
    let (later, ended) = raw_lines-sent limit lines tail v.1 u in
    let bytes = append_assoc (raw line) (line_feed ∷ sent lines) tail in
    let rest = line_feed ∷ (sent lines ++ tail) in
    (
      ap (raw_lines []) bytes
          ∙ raw_lines-append [] (raw line) rest
          ∙ rw (none_yet, whole) (ap (λ ls. raw line ∷ ls) later),
      ap (raw_tail []) bytes ∙ raw_tail-append [] (raw line) rest ∙ rw whole ended,
    )

lines_fit :
    (limit : ℕ) (lines : List SentLine)
    → All (IsSendable limit) lines
    → all_fit limit (map raw lines) ≡ true
lines_fit limit [] v = refl
lines_fit limit (line ∷ lines) v =
    ground (arith, stripped-raw limit line v.0, v.0.short, lines_fit limit lines v.1)

texts-sent :
    (utf8 : List ℕ → String) (limit : ℕ) (lines : List SentLine)
    → All (IsSendable limit) lines
    → texts utf8 (map raw lines) ≡ map (λ line. utf8 line.bytes) lines
texts-sent utf8 limit [] v = refl
texts-sent utf8 limit (line ∷ lines) v =
    ground (arith, stripped-raw limit line v.0, texts-sent utf8 limit lines v.1)

module _ (utf8 : List ℕ → String) (limit : ℕ) (lines : List SentLine) (tail : List ℕ)
    (chunks : List (List ℕ)) (sendable : All (IsSendable limit) lines)
    (unbroken : index_of line_feed tail ≡ none) (cut : flatten chunks ≡ sent lines ++ tail) where
  sent_fits : length tail ≤ suc limit → fits limit [] (flatten chunks) ≡ true
  unfolding fits
  sent_fits h =
      let (ls, t) = raw_lines-sent limit lines tail sendable unbroken in
      rw (cut, ls, t) (ground (arith, lines_fit limit lines sendable))

  -- Lines of at most `limit` bytes with no line feed, each sent with an LF or a CRLF (and with a
  -- CRLF if it ends in a carriage return), then an unterminated tail of at most `limit + 1` bytes:
  -- the protocol reader gives exactly those lines and ends without a failure, however the bytes are
  -- cut into chunks. The tail is dropped.
  pub protocol_lines-sent :
      length tail ≤ suc limit
      → protocol_lines utf8 limit chunks none
        ≡ record { emitted = map (λ line. utf8 line.bytes) lines; failure = none }
  unfolding protocol_lines outcome
  protocol_lines-sent h =
      let (ls, t) = raw_lines-sent limit lines tail sendable unbroken in
      framed_lines_fit utf8 limit false chunks none (sent_fits h)
      ∙ rw (cut, ls, texts-sent utf8 limit lines sendable)
          (rw (append-nil (map (λ line. utf8 line.bytes) lines)))

  -- Lines of at most `limit` bytes with no line feed, each sent with an LF or a CRLF (and with a
  -- CRLF if it ends in a carriage return), then a tail of one to `limit` bytes with no line feed
  -- that does not end in a carriage return: the diagnostic reader gives exactly those lines, then
  -- the tail, and ends without a failure, however the bytes are cut into chunks.
  pub diagnostic_lines-sent :
      (length tail == 0) ≡ false
      → length tail ≤ limit
      → ends_in_return tail ≡ false
      → diagnostic_lines utf8 limit chunks none
        ≡ record { emitted = map (λ line. utf8 line.bytes) lines ++ utf8 tail ∷ []; failure = none }
  unfolding diagnostic_lines outcome stripped
  diagnostic_lines-sent filled h whole =
      let (ls, t) = raw_lines-sent limit lines tail sendable unbroken in
      framed_lines_fit utf8 limit true chunks none (sent_fits (omega arith))
      ∙ rw (cut, ls, t, texts-sent utf8 limit lines sendable) (ground arith)
