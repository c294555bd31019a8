-- ===== src/Codex/Framing.antt =====
-- packages/adapter-codex/src/framing.ts. A buffer is the list of its bytes, and a stream is the list
-- of what its source gives, with the error that ended it, if one did. The decoding of a line's bytes
-- as UTF-8 is a parameter.
pub mod Reference
pub mod Scan
pub mod Chunks
pub mod Streams
pub mod Whole
pub mod RoundTrip
use sloppenheimer_ts.Base.{
  ℕ, suc, zero, ◌+◌, String, Bool, true, false, not, ◌||◌, ◌∷◌, [], List, Option, none, some, ◌==◌,
  ltb, if◌then◌else◌, nat_eq, length, take, drop, ◌++◌, string_of, template, ℕ_discrete,
}

-- The `AgentError` of domain/errors.ts, its category and message.
pub record AgentError : Type 0 where
  pub category : String
  pub message : String

pub data Result {ℓ} (A : Type ℓ) : Type ℓ where
  ok : A → Result A
  err : AgentError → Result A

-- What a stream's consumer sees: the values, then the error that ended it, if one did.
pub record Outcome {ℓ} (B : Type ℓ) : Type ℓ where
  pub emitted : List B
  pub failure : Option AgentError

module _ {ℓ κ μ} {S : Type ℓ} {A : Type κ} {B : Type μ} where
  -- The state is flushed at the source's end, and abandoned at a failure.
  unfoldable pub stateful :
      (S → A → Result (S × List B))
      → (S → Result (List B))
      → S
      → List A
      → Option AgentError
      → Outcome B
  stateful step finish s [] (some e) = record { emitted = []; failure = some e }
  stateful step finish s [] none = elim (finish s) [
    | ok values ↦ record { emitted = values; failure = none }
    | err e ↦ record { emitted = []; failure = some e }
  ]
  stateful step finish s (a ∷ rest) ended = elim (step s a) [
    | ok next ↦
        let later = stateful step finish next.0 rest ended in
        record later { emitted = next.1 ++ later.emitted }
    | err e ↦ record { emitted = []; failure = some e }
  ]

abbrev pub line_feed : ℕ
line_feed = 10

abbrev pub carriage_return : ℕ
carriage_return = 13

-- `buffer.indexOf`.
unfoldable pub index_of : ℕ → List ℕ → Option ℕ
index_of b [] = none
index_of b (x ∷ xs) =
    if x == b then some 0 else elim (index_of b xs) [ none ↦ none | some i ↦ some (suc i) ]

pub record PendingLine : Type 0 where
  pub chunks : List (List ℕ)
  pub bytes : ℕ

abbrev pub nothing_pending : PendingLine
nothing_pending = record { chunks = []; bytes = 0 }

unfoldable pub flatten {ℓ} : {A : Type ℓ} → List (List A) → List A
flatten [] = []
flatten (c ∷ cs) = c ++ flatten cs

-- `Buffer.concat(chunks, total)` cuts what is longer than `total` and fills with zeros what is
-- shorter.
unfoldable pub fill : ℕ → List ℕ → List ℕ
fill zero xs = []
fill (suc n) [] = 0 ∷ fill n []
fill (suc n) (x ∷ xs) = x ∷ fill n xs

unfoldable pub joined_chunks : List (List ℕ) → ℕ → List ℕ
unfolding fill flatten
joined_chunks (c ∷ []) total = c
joined_chunks cs total = fill total (flatten cs)

unfoldable pub joined : PendingLine → List ℕ
unfolding joined_chunks
joined pending = joined_chunks pending.chunks pending.bytes

-- `raw.at(-1) === carriageReturn`, and the buffer without its last byte.
unfoldable pub ends_in_return : List ℕ → Bool
unfolding ℕ_discrete
ends_in_return [] = false
ends_in_return (x ∷ []) = x == carriage_return
ends_in_return (x ∷ y ∷ ys) = ends_in_return (y ∷ ys)

unfoldable pub without_last : List ℕ → List ℕ
without_last [] = []
without_last (x ∷ []) = []
without_last (x ∷ y ∷ ys) = x ∷ without_last (y ∷ ys)

unfoldable pub stripped : List ℕ → List ℕ
unfolding ends_in_return without_last
stripped raw = if ends_in_return raw then without_last raw else raw

unfoldable pub line_overflow : ℕ → AgentError
unfolding string_of template
line_overflow limit = record {
  category = "protocol_error";
  message = template ("Codex protocol line exceeds " ∷ string_of limit ∷ " bytes" ∷ []);
}

unfoldable pub hold_rest : ℕ → List ℕ × List String → Result (PendingLine × List String)
hold_rest limit (buffer, emit) =
    if ltb (limit + 1) (length buffer)
    then err (line_overflow limit)
    else ok (
      if length buffer == 0
          then nothing_pending
          else record { chunks = buffer ∷ []; bytes = length buffer },
      emit,
    )

module _ (utf8 : List ℕ → String) (limit : ℕ) where
  -- The loop over the complete lines of a buffer: what is left of it, and the lines. A round takes
  -- one byte at least, so the buffer's length is fuel enough; at no fuel the buffer is empty.
  unfoldable pub scan : ℕ → List ℕ → List String → Result (List ℕ × List String)
  scan zero buffer emit = ok (buffer, emit)
  scan (suc fuel) buffer emit = elim (index_of line_feed buffer) [
    | none ↦ ok (buffer, emit)
    | some index ↦
        let line = stripped (take index buffer) in
        let more = scan fuel (drop (suc index) buffer) (emit ++ utf8 line ∷ []) in
        if ltb limit (length line) then err (line_overflow limit) else more
  ]

  unfoldable pub frame : PendingLine → List ℕ → Result (PendingLine × List String)
  frame pending chunk =
      let bytes : ℕ = pending.bytes + length chunk in
      let held : PendingLine = record { chunks = pending.chunks ++ chunk ∷ []; bytes = bytes } in
      elim (index_of line_feed chunk) [
        | none ↦ if ltb (limit + 1) bytes then err (line_overflow limit) else ok (held, [])
        | some _ ↦
            let buffer = joined held in
            elim (scan (length buffer) buffer []) [ ok left ↦ hold_rest limit left | err e ↦ err e ]
      ]

  -- What is flushed at the source's end.
  unfoldable pub finish_line : Bool → PendingLine → Result (List String)
  unfolding ℕ_discrete
  finish_line flush_incomplete_tail pending =
      if not flush_incomplete_tail || pending.bytes == 0
      then ok []
      else let line = stripped (joined pending) in
        if ltb limit (length line) then err (line_overflow limit) else ok (utf8 line ∷ [])

  unfoldable pub framed_lines : Bool → List (List ℕ) → Option AgentError → Outcome String
  framed_lines flush_incomplete_tail =
      stateful frame (finish_line flush_incomplete_tail) nothing_pending

  unfoldable pub protocol_lines : List (List ℕ) → Option AgentError → Outcome String
  protocol_lines = framed_lines false

  unfoldable pub diagnostic_lines : List (List ℕ) → Option AgentError → Outcome String
  diagnostic_lines = framed_lines true
