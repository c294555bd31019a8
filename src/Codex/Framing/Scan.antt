-- ===== src/Codex/Framing/Scan.antt =====
-- The loop over a buffer finds the lines that the bytewise description gives.
use mathlib.Core.List.{append_assoc, append-nil}
use sloppenheimer_ts.Base.{
  ℕ, suc, zero, ◌≤◌, ◌<◌, ◌≡◌, refl, String, Bool, ◌∷◌, [], List, leb, ltb, if◌then◌else◌, nat_eq,
  length, every, ◌++◌, arith, take, drop, none, some, map, Option-cases, inl, inr, sym,
}
use sloppenheimer_ts.Codex.Framing.{
  line_feed, stripped, index_of, scan, Result, ok, err, line_overflow,
}
use sloppenheimer_ts.Codex.Framing.Reference.{raw_lines, raw_tail}

pub index_of-none :
    (acc buffer : List ℕ)
    → index_of line_feed buffer ≡ none
    → (raw_lines acc buffer ≡ []) × (raw_tail acc buffer ≡ acc ++ buffer)
unfolding index_of raw_lines raw_tail
index_of-none acc [] h = (refl, sym (append-nil acc))
index_of-none acc (b ∷ bs) h = ground (
  arith,
  Option-cases (index_of line_feed bs),
  append_assoc acc (b ∷ []) bs,
  index_of-none (acc ++ b ∷ []) bs,
)

index_of-empty : index_of line_feed [] ≡ none
unfolding index_of
index_of-empty = refl

pub index_of-some :
    (acc buffer : List ℕ) (i : ℕ)
    → index_of line_feed buffer ≡ some i
    → (raw_lines acc buffer ≡ (acc ++ take i buffer) ∷ raw_lines [] (drop (suc i) buffer))
      × (raw_tail acc buffer ≡ raw_tail [] (drop (suc i) buffer))
      × (length (drop (suc i) buffer) < length buffer)
unfolding index_of raw_lines raw_tail
index_of-some acc [] i h = cc
index_of-some acc (b ∷ bs) zero h =
    ground (arith, Option-cases (index_of line_feed bs), append-nil acc)
index_of-some acc (b ∷ bs) (suc i) h = ground (
  arith,
  Option-cases (index_of line_feed bs),
  append_assoc acc (b ∷ []) (take i bs),
  index_of-some (acc ++ b ∷ []) bs i,
)

-- The texts of lines, and whether each fits the limit.
abbrev pub texts : (List ℕ → String) → List (List ℕ) → List String
texts utf8 = map (λ line. utf8 (stripped line))

abbrev pub all_fit : ℕ → List (List ℕ) → Bool
all_fit limit = every (λ line. leb (length (stripped line)) limit)

module _ (utf8 : List ℕ → String) (limit : ℕ) where
  -- What the loop gives, by the description.
  abbrev scanned : List ℕ → List String → Result (List ℕ × List String)
  scanned buffer emit =
      if all_fit limit (raw_lines [] buffer)
      then ok (raw_tail [] buffer, emit ++ texts utf8 (raw_lines [] buffer))
      else err (line_overflow limit)

  scanned_whole :
      (buffer : List ℕ) (emit : List String)
      → index_of line_feed buffer ≡ none
      → scanned buffer emit ≡ ok (buffer, emit)
  scanned_whole buffer emit e =
      let (lines, tail) = index_of-none [] buffer e in rw (lines, tail, append-nil emit)

  scanned_line :
      (buffer : List ℕ) (emit : List String) (i : ℕ)
      → index_of line_feed buffer ≡ some i
      → scanned buffer emit ≡ (
          let line = stripped (take i buffer) in
          if ltb limit (length line)
          then err (line_overflow limit)
          else scanned (drop (suc i) buffer) (emit ++ utf8 line ∷ []))
  scanned_line buffer emit i e =
      let (lines, tail, _) = index_of-some [] buffer i e in
      rw (lines, tail)
        (ground (
          arith,
          append_assoc emit (utf8 (stripped (take i buffer)) ∷ [])
              (texts utf8 (raw_lines [] (drop (suc i) buffer))),
        ))

  -- The loop's result, for a fuel of at least the buffer's length.
  pub scan_lem :
      (fuel : ℕ) (buffer : List ℕ) (emit : List String)
      → length buffer ≤ fuel
      → scan utf8 limit fuel buffer emit ≡ scanned buffer emit
  unfolding scan
  scan_lem zero [] emit h = sym (scanned_whole [] emit index_of-empty)
  scan_lem zero (b ∷ bs) emit h = absurd (omega arith)
  scan_lem (suc fuel) buffer emit h = elim (Option-cases (index_of line_feed buffer)) [
    | inl e ↦ rw (scanned_whole buffer emit e) (rw (e, scan))
    | inr (i, e) ↦ rw (scanned_line buffer emit i e) (
        rw (e, scan)
          (rw (
            scan_lem fuel (drop (suc i) buffer) (emit ++ utf8 (stripped (take i buffer)) ∷ [])
              (omega (arith, (index_of-some [] buffer i e).2)))))
  ]
