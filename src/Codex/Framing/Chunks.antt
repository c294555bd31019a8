-- ===== src/Codex/Framing/Chunks.antt =====
-- One chunk is framed as the bytewise description says, wherever the chunks before it were cut.
use mathlib.Core.List.{append_assoc, append-nil}
use sloppenheimer_ts.Base.{
  ℕ, suc, ◌+◌, ◌≤◌, ◌≡◌, refl, String, true, false, ◌∷◌, [], List, ◌==◌, leb, if◌then◌else◌, nat_eq,
  length, length-append, ◌++◌, arith, none, some, Option-cases, Bool-cases, inl, inr, sym, ap,
  subst, ◌∙◌,
}
use sloppenheimer_ts.Codex.Framing.{
  line_feed, index_of, ok, err, line_overflow, PendingLine, nothing_pending, flatten, fill, joined,
  joined_chunks, hold_rest, frame,
}
use sloppenheimer_ts.Codex.Framing.Reference.{
  raw_lines, raw_tail, fits, raw_lines-append, raw_tail-append,
}
use sloppenheimer_ts.Codex.Framing.Scan.{texts, all_fit, scan_lem, index_of-none}

-- The bytes that are held.
abbrev pub content : PendingLine → List ℕ
content pending = flatten pending.chunks

-- Bytes with no line feed among them.
pub record IsUnbroken (bytes : List ℕ) : Type 0 where
  pub no_lines : raw_lines [] bytes ≡ []
  pub all_tail : raw_tail [] bytes ≡ bytes

pub record IsPending (limit : ℕ) (pending : PendingLine) : Type 0 where
  pub counted : pending.bytes ≡ length (content pending)
  pub unbroken : IsUnbroken (content pending)
  pub bounded : pending.bytes ≤ suc limit

pub nothing_pending-IsPending : (limit : ℕ) → IsPending limit nothing_pending
unfolding flatten raw_lines raw_tail
nothing_pending-IsPending limit = ground arith

empty-IsUnbroken : IsUnbroken []
unfolding raw_lines raw_tail
empty-IsUnbroken = ground arith

append-IsUnbroken :
    (held chunk : List ℕ)
    → IsUnbroken held
    → index_of line_feed chunk ≡ none
    → IsUnbroken (held ++ chunk)
append-IsUnbroken held chunk u e = ground (
  arith,
  raw_lines-append [] held chunk,
  raw_tail-append [] held chunk,
  index_of-none held chunk e,
)

index_of-other : (b : ℕ) → (b == line_feed) ≡ false → index_of line_feed (b ∷ []) ≡ none
unfolding index_of
index_of-other b e = rw e

raw_tail-IsUnbroken : (acc bytes : List ℕ) → IsUnbroken acc → IsUnbroken (raw_tail acc bytes)
unfolding raw_tail
raw_tail-IsUnbroken acc [] u = u
raw_tail-IsUnbroken acc (b ∷ bs) u = elim (Bool-cases (b == line_feed)) [
  | inl e ↦ rw e (raw_tail-IsUnbroken [] bs empty-IsUnbroken)
  | inr e ↦ rw e (
      raw_tail-IsUnbroken (acc ++ b ∷ []) bs
        (append-IsUnbroken acc (b ∷ []) u (index_of-other b e)))
]

flatten-append : (cs : List (List ℕ)) (c : List ℕ) → flatten (cs ++ c ∷ []) ≡ flatten cs ++ c
unfolding flatten
flatten-append [] c = append-nil c
flatten-append (d ∷ cs) c = ground (arith, flatten-append cs c, append_assoc d (flatten cs) c)

fill-length : (xs : List ℕ) → fill (length xs) xs ≡ xs
unfolding fill
fill-length [] = refl
fill-length (x ∷ xs) = ground (arith, fill-length xs)

-- The joined buffer is the bytes that are held.
pub joined-content : (p : PendingLine) → p.bytes ≡ length (content p) → joined p ≡ content p
unfolding joined
joined-content p h = joined_chunks-flatten p.chunks p.bytes h
  where
    joined_chunks-flatten :
        (cs : List (List ℕ)) (n : ℕ) → n ≡ length (flatten cs) → joined_chunks cs n ≡ flatten cs
    joined_chunks-flatten [] n h = rw h (fill-length [])
    joined_chunks-flatten (c ∷ []) n h = sym (append-nil c)
    joined_chunks-flatten (c ∷ d ∷ cs) n h = rw h (fill-length (flatten (c ∷ d ∷ cs)))

-- What is held over from a tail within the allowance.
abbrev held_over : List ℕ → PendingLine
held_over [] = nothing_pending
held_over (b ∷ bs) = record { chunks = (b ∷ bs) ∷ []; bytes = suc (length bs) }

held_over-content : (tail : List ℕ) → content (held_over tail) ≡ tail
unfolding flatten
held_over-content [] = refl
held_over-content (b ∷ bs) = append-nil (b ∷ bs)

held_over-IsPending :
    (limit : ℕ) (tail : List ℕ)
    → IsUnbroken tail
    → length tail ≤ suc limit
    → IsPending limit (held_over tail)
held_over-IsPending limit [] u h = nothing_pending-IsPending limit
held_over-IsPending limit (b ∷ bs) u h = record {
  counted = ap length (sym (held_over-content (b ∷ bs)));
  unbroken = subst IsUnbroken (sym (held_over-content (b ∷ bs))) u;
  bounded = h;
}

hold_rest_lem :
    (limit : ℕ) (tail : List ℕ) (emit : List String)
    → hold_rest limit (tail, emit) ≡ (
        if leb (length tail) (suc limit)
        then ok (held_over tail, emit)
        else err (line_overflow limit))
unfolding hold_rest
hold_rest_lem limit [] emit = ground arith
hold_rest_lem limit (b ∷ bs) emit = ground arith

held_whole :
    {limit : ℕ} (p : PendingLine) (chunk : List ℕ)
    → IsPending limit p
    → joined (record { chunks = p.chunks ++ chunk ∷ []; bytes = p.bytes + length chunk })
      ≡ content p ++ chunk
held_whole p chunk v =
    joined-content (record { chunks = p.chunks ++ chunk ∷ []; bytes = p.bytes + length chunk })
      (ground (arith, flatten-append p.chunks chunk, length-append (content p) chunk, v.counted))
    ∙ flatten-append p.chunks chunk

-- A buffer that begins with unbroken bytes has the lines of what follows them.
lines_after :
    (p : PendingLine) (chunk : List ℕ)
    → IsUnbroken (content p)
    → raw_lines [] (content p ++ chunk) ≡ raw_lines (content p) chunk
lines_after p chunk u = ground (arith, raw_lines-append [] (content p) chunk)

tail_after :
    (p : PendingLine) (chunk : List ℕ)
    → IsUnbroken (content p)
    → raw_tail [] (content p ++ chunk) ≡ raw_tail (content p) chunk
tail_after p chunk u = ground (arith, raw_tail-append [] (content p) chunk)

module _ (utf8 : List ℕ → String) (limit : ℕ) where
  frame_held :
      (p : PendingLine) (chunk : List ℕ)
      → index_of line_feed chunk ≡ none
      → frame utf8 limit p chunk ≡ (
          if leb (p.bytes + length chunk) (suc limit)
          then ok (record { chunks = p.chunks ++ chunk ∷ []; bytes = p.bytes + length chunk }, [])
          else err (line_overflow limit))
  unfolding frame
  frame_held p chunk e = rw (e, frame) (ground arith)

  frame_scanned :
      (p : PendingLine) (chunk : List ℕ) (i : ℕ)
      → IsPending limit p
      → index_of line_feed chunk ≡ some i
      → frame utf8 limit p chunk ≡ (
          if fits limit (content p) chunk
          then ok (held_over (raw_tail (content p) chunk), texts utf8 (raw_lines (content p) chunk))
          else err (line_overflow limit))
  unfolding frame fits
  frame_scanned p chunk i v e =
      rw (e, frame)
        (rw (held_whole p chunk v) (
          rw
            (
              scan_lem utf8 limit (length (content p ++ chunk)) (content p ++ chunk) []
                  (omega arith),
              lines_after p chunk v.unbroken,
              tail_after p chunk v.unbroken,
            )
            (elim (Bool-cases (all_fit limit (raw_lines (content p) chunk))) [
              | inl a ↦ rw a (
                  hold_rest_lem limit (raw_tail (content p) chunk)
                    (texts utf8 (raw_lines (content p) chunk)))
              | inr a ↦ rw a
            ])))

  tail_fits :
      (acc chunk : List ℕ) → fits limit acc chunk ≡ true → length (raw_tail acc chunk) ≤ suc limit
  unfolding fits
  tail_fits acc chunk f = ground arith

  frame_of_fragment :
      (p : PendingLine) (chunk : List ℕ)
      → IsPending limit p
      → index_of line_feed chunk ≡ none
      → (next : PendingLine) × (frame utf8 limit p chunk ≡ (
          if fits limit (content p) chunk
          then ok (next, texts utf8 (raw_lines (content p) chunk))
          else err (line_overflow limit)))
        × (fits limit (content p) chunk ≡ true
            → (content next ≡ raw_tail (content p) chunk) × IsPending limit next)
  unfolding fits
  frame_of_fragment p chunk v e =
      let (lines, tail) = index_of-none (content p) chunk e in
      let joins = flatten-append p.chunks chunk in
      let size = length-append (content p) chunk in
      let whole = append-IsUnbroken (content p) chunk v.unbroken e in
      (
        record { chunks = p.chunks ++ chunk ∷ []; bytes = p.bytes + length chunk },
        frame_held p chunk e ∙ rw (lines, tail, size, v.counted),
        λ f. (
          joins ∙ sym tail,
          record {
            counted = rw (joins, size, v.counted);
            unbroken = subst IsUnbroken (sym joins) whole;
            bounded = omega (arith, tail_fits (content p) chunk f, ap length tail, size, v.counted);
          },
        ),
      )

  -- Framing one more chunk gives the lines that it ends, exactly when they and what it leaves fit;
  -- what is held is then what it leaves.
  pub frame_lem :
      (p : PendingLine) (chunk : List ℕ)
      → IsPending limit p
      → (next : PendingLine) × (frame utf8 limit p chunk ≡ (
          if fits limit (content p) chunk
          then ok (next, texts utf8 (raw_lines (content p) chunk))
          else err (line_overflow limit)))
        × (fits limit (content p) chunk ≡ true
            → (content next ≡ raw_tail (content p) chunk) × IsPending limit next)
  frame_lem p chunk v = elim (Option-cases (index_of line_feed chunk)) [
    | inl e ↦ frame_of_fragment p chunk v e
    | inr (i, e) ↦ (
      held_over (raw_tail (content p) chunk),
      frame_scanned p chunk i v e,
      λ f. (
        held_over-content (raw_tail (content p) chunk),
        held_over-IsPending limit (raw_tail (content p) chunk)
            (raw_tail-IsUnbroken (content p) chunk v.unbroken) (tail_fits (content p) chunk f),
      ),
    )
  ]
