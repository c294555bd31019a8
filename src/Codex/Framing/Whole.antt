-- ===== src/Codex/Framing/Whole.antt =====
-- A stream's framing depends on its bytes alone, not on how they were cut into chunks.
use mathlib.Core.List.{append_assoc, map-append}
use sloppenheimer_ts.Base.{
  ℕ, ◌≡◌, refl, String, Bool, true, false, not, ◌&&◌, ◌||◌, ◌∷◌, [], List, ◌==◌, leb, if◌then◌else◌,
  nat_eq, length, every, ◌++◌, arith, none, some, Option, Bool-cases, inl, inr, sym, ap, ◌∙◌,
}
use sloppenheimer_ts.Codex.Framing.{
  stripped, line_overflow, PendingLine, nothing_pending, AgentError, flatten, frame, stateful,
  finish_line, framed_lines, Outcome,
}
use sloppenheimer_ts.Codex.Framing.Streams.{after, stateful-ok, stateful-err}
use sloppenheimer_ts.Codex.Framing.Reference.{
  raw_lines, raw_tail, fits, raw_lines-append, raw_tail-append, fits_of_overrun,
}
use sloppenheimer_ts.Codex.Framing.Scan.{texts, all_fit}
use sloppenheimer_ts.Codex.Framing.Chunks.{
  content, IsPending, frame_lem, nothing_pending-IsPending, joined-content,
}

every-append {ℓ} :
    {A : Type ℓ} (p : A → Bool) (xs ys : List A) → every p (xs ++ ys) ≡ (every p xs && every p ys)
every-append p [] ys = refl
every-append p (x ∷ xs) ys = ground (arith, every-append p xs ys)

fits-append :
    (limit : ℕ) (acc xs ys : List ℕ)
    → fits limit acc (xs ++ ys)
      ≡ (all_fit limit (raw_lines acc xs) && fits limit (raw_tail acc xs) ys)
unfolding fits
fits-append limit acc xs ys =
    rw
      (
        raw_lines-append acc xs ys,
        raw_tail-append acc xs ys,
        every-append (λ line. leb (length (stripped line)) limit) (raw_lines acc xs)
            (raw_lines (raw_tail acc xs) ys),
      )
      (ground arith)

-- What fits whole fits up to any cut, and after it.
fits_before :
    (limit : ℕ) (acc xs ys : List ℕ) → fits limit acc (xs ++ ys) ≡ true → fits limit acc xs ≡ true
unfolding fits
fits_before limit acc xs ys f =
    ground (arith, fits-append limit acc xs ys, fits_of_overrun limit (raw_tail acc xs) ys)

fits_after :
    (limit : ℕ) (acc xs ys : List ℕ)
    → fits limit acc xs ≡ true
    → fits limit acc (xs ++ ys) ≡ fits limit (raw_tail acc xs) ys
unfolding fits
fits_after limit acc xs ys f = ground (arith, fits-append limit acc xs ys)

module _ (utf8 : List ℕ → String) (limit : ℕ) (flush : Bool) where
  -- What is left at the source's end fits as a line of its own, if it is to be flushed.
  abbrev pub tail_admitted : List ℕ → Bool
  tail_admitted tail = not flush || length tail == 0 || leb (length (stripped tail)) limit

  abbrev pub flushed : List ℕ → List String
  flushed tail = if not flush || length tail == 0 then [] else utf8 (stripped tail) ∷ []

  -- The outcome for bytes that fit, from the whole of them: their lines, then what is flushed or
  -- the error that ended the source.
  unfoldable pub outcome : List ℕ → List ℕ → Option AgentError → Outcome String
  outcome acc bytes (some e) = record {
    emitted = texts utf8 (raw_lines acc bytes);
    failure = some e;
  }
  outcome acc bytes none =
      if tail_admitted (raw_tail acc bytes)
      then record {
        emitted = texts utf8 (raw_lines acc bytes) ++ flushed (raw_tail acc bytes);
        failure = none;
      }
      else record {
        emitted = texts utf8 (raw_lines acc bytes);
        failure = some (line_overflow limit);
      }

  texts-append :
      (acc xs ys : List ℕ)
      → texts utf8 (raw_lines acc (xs ++ ys))
        ≡ texts utf8 (raw_lines acc xs) ++ texts utf8 (raw_lines (raw_tail acc xs) ys)
  texts-append acc xs ys =
      ap (texts utf8) (raw_lines-append acc xs ys)
      ∙ map-append (λ line. utf8 (stripped line)) (raw_lines acc xs)
          (raw_lines (raw_tail acc xs) ys)

  outcome-append :
      (acc xs ys : List ℕ) (ended : Option AgentError)
      → outcome acc (xs ++ ys) ended
        ≡ after (texts utf8 (raw_lines acc xs)) (outcome (raw_tail acc xs) ys ended)
  unfolding outcome
  outcome-append acc xs ys (some e) = ground (arith, texts-append acc xs ys)
  outcome-append acc xs ys none = ground (
    arith,
    texts-append acc xs ys,
    raw_tail-append acc xs ys,
    append_assoc (texts utf8 (raw_lines acc xs)) (texts utf8 (raw_lines (raw_tail acc xs) ys))
        (flushed (raw_tail (raw_tail acc xs) ys)),
  )

  failed_source :
      (p : PendingLine) (e : AgentError)
      → stateful (frame utf8 limit) (finish_line utf8 limit flush) p [] (some e)
        ≡ outcome (content p) [] (some e)
  unfolding stateful outcome raw_lines
  failed_source p e = refl

  finish_outcome :
      (p : PendingLine)
      → IsPending limit p
      → stateful (frame utf8 limit) (finish_line utf8 limit flush) p [] none
        ≡ outcome (content p) [] none
  unfolding stateful finish_line outcome raw_lines raw_tail
  finish_outcome p v = ground (arith, joined-content p v.counted, v.counted)

  nothing_more : (p : PendingLine) → IsPending limit p → fits limit (content p) [] ≡ false → ⊥
  unfolding fits raw_lines raw_tail
  nothing_more p v f = ground arith

  abbrev run : PendingLine → List (List ℕ) → Option AgentError → Outcome String
  run = stateful (frame utf8 limit) (finish_line utf8 limit flush)

  -- From any held bytes, a stream that fits gives the outcome of the whole.
  run-fits :
      (p : PendingLine) (chunks : List (List ℕ)) (ended : Option AgentError)
      → IsPending limit p
      → fits limit (content p) (flatten chunks) ≡ true
      → run p chunks ended ≡ outcome (content p) (flatten chunks) ended
  unfolding flatten
  run-fits p [] (some e) v f = failed_source p e
  run-fits p [] none v f = finish_outcome p v
  run-fits p (c ∷ cs) ended v f =
      let (next, framed, held) = frame_lem utf8 limit p c v in
      let now = fits_before limit (content p) c (flatten cs) f in
      let (tail, w) = held now in
      let rest : fits limit (content next) (flatten cs) ≡ true =
        rw tail (sym (fits_after limit (content p) c (flatten cs) now) ∙ f) in
      stateful-ok (frame utf8 limit) (finish_line utf8 limit flush) p next c cs
        (texts utf8 (raw_lines (content p) c)) ended (framed ∙ rw now)
      ∙ ap (after (texts utf8 (raw_lines (content p) c)))
          (run-fits next cs ended w rest ∙ ap (λ acc. outcome acc (flatten cs) ended) tail)
      ∙ sym (outcome-append (content p) c (flatten cs) ended)

  -- From any held bytes, a stream that does not fit is refused, after lines that it has.
  run_overflows :
      (p : PendingLine) (chunks : List (List ℕ)) (ended : Option AgentError)
      → IsPending limit p
      → fits limit (content p) (flatten chunks) ≡ false
      → ((run p chunks ended).failure ≡ some (line_overflow limit))
        × (rest : List String) × ((run p chunks ended).emitted ++ rest
            ≡ texts utf8 (raw_lines (content p) (flatten chunks)))
  unfolding flatten
  run_overflows p [] ended v f = absurd (nothing_more p v f)
  run_overflows p (c ∷ cs) ended v f =
      let (next, framed, held) = frame_lem utf8 limit p c v in
      elim (Bool-cases (fits limit (content p) c)) [
        | inl now ↦
            let (tail, w) = held now in
            let more : fits limit (content next) (flatten cs) ≡ false =
              rw tail (sym (fits_after limit (content p) c (flatten cs) now) ∙ f) in
            let (failed, rest, lines) = run_overflows next cs ended w more in
            let stepped =
              stateful-ok (frame utf8 limit) (finish_line utf8 limit flush) p next c cs
                (texts utf8 (raw_lines (content p) c)) ended (framed ∙ rw now) in
            (
              ap (λ o. o.failure) stepped ∙ failed,
              rest,
              ap (λ o. o.emitted ++ rest) stepped
                  ∙ append_assoc (texts utf8 (raw_lines (content p) c)) (run next cs ended).emitted
                      rest
                  ∙ ap (λ later. texts utf8 (raw_lines (content p) c) ++ later)
                      (lines ∙ ap (λ acc. texts utf8 (raw_lines acc (flatten cs))) tail)
                  ∙ sym (texts-append (content p) c (flatten cs)),
            )
        | inr over ↦
            let stopped =
              stateful-err (frame utf8 limit) (finish_line utf8 limit flush) p c cs ended
                (line_overflow limit) (framed ∙ rw over) in
            (
              ap (λ o. o.failure) stopped,
              texts utf8 (raw_lines (content p) (flatten (c ∷ cs))),
              ap (λ o. o.emitted ++ texts utf8 (raw_lines (content p) (flatten (c ∷ cs)))) stopped,
            )
      ]

  -- If every line of the whole input and its tail fit the limit, framing it in any chunks gives
  -- those lines, then what is flushed of the tail or the error that ended the source.
  pub framed_lines_fit :
      (chunks : List (List ℕ)) (ended : Option AgentError)
      → fits limit [] (flatten chunks) ≡ true
      → framed_lines utf8 limit flush chunks ended ≡ outcome [] (flatten chunks) ended
  unfolding framed_lines flatten
  framed_lines_fit chunks ended f =
      run-fits nothing_pending chunks ended (nothing_pending-IsPending limit) f

  -- If a line of the whole input or its tail does not fit the limit, framing it in any chunks fails
  -- with the protocol error of that limit, after a beginning of the input's lines.
  pub framed_lines_overflow :
      (chunks : List (List ℕ)) (ended : Option AgentError)
      → fits limit [] (flatten chunks) ≡ false
      → ((framed_lines utf8 limit flush chunks ended).failure ≡ some (line_overflow limit))
        × (rest : List String) × ((framed_lines utf8 limit flush chunks ended).emitted ++ rest
            ≡ texts utf8 (raw_lines [] (flatten chunks)))
  unfolding framed_lines flatten
  framed_lines_overflow chunks ended f =
      run_overflows nothing_pending chunks ended (nothing_pending-IsPending limit) f

  -- Two streams of the same bytes, cut into chunks in different ways: if one is framed with no
  -- failure, the other gives the same lines, also with no failure.
  pub framed_lines_rechunked :
      (left right : List (List ℕ))
      → flatten left ≡ flatten right
      → (framed_lines utf8 limit flush left none).failure ≡ none
      → framed_lines utf8 limit flush right none ≡ framed_lines utf8 limit flush left none
  framed_lines_rechunked left right h clean = elim (Bool-cases (fits limit [] (flatten left))) [
    | inl f ↦
        framed_lines_fit right none (ap (fits limit []) (sym h) ∙ f)
        ∙ ap (λ bytes. outcome [] bytes none) (sym h)
        ∙ sym (framed_lines_fit left none f)
    | inr f ↦ let failed = (framed_lines_overflow left none f).0 in absurd (cc)
  ]
