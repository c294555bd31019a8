-- ===== src/Codex/Framing/Reference.antt =====
-- The framing of packages/adapter-codex/src/framing.ts, described byte by byte over a whole input:
-- the lines between its line feeds and what follows the last one.
use sloppenheimer_ts.Base.{
  ℕ, suc, ◌≤◌, ◌<◌, ◌≡◌, refl, Bool, false, ◌&&◌, ◌∷◌, [], List, ◌==◌, leb, if◌then◌else◌, nat_eq,
  length, length-append, every, ◌++◌, arith,
}
use sloppenheimer_ts.Codex.Framing.{line_feed, stripped, without_last}

-- The lines without their line feeds, where `acc` is what came before.
unfoldable pub raw_lines : List ℕ → List ℕ → List (List ℕ)
raw_lines acc [] = []
raw_lines acc (b ∷ bs) =
    let ended = raw_lines [] bs in
    let more = raw_lines (acc ++ b ∷ []) bs in if b == line_feed then acc ∷ ended else more

unfoldable pub raw_tail : List ℕ → List ℕ → List ℕ
raw_tail acc [] = acc
raw_tail acc (b ∷ bs) =
    let ended = raw_tail [] bs in
    let more = raw_tail (acc ++ b ∷ []) bs in if b == line_feed then ended else more

-- Every line fits the limit, and what follows the last one, its allowance of one byte.
unfoldable pub fits : ℕ → List ℕ → List ℕ → Bool
unfolding raw_lines raw_tail stripped
fits limit acc bytes =
    every (λ line. leb (length (stripped line)) limit) (raw_lines acc bytes)
    && leb (length (raw_tail acc bytes)) (suc limit)

pub raw_lines-append :
    (acc xs ys : List ℕ)
    → raw_lines acc (xs ++ ys) ≡ raw_lines acc xs ++ raw_lines (raw_tail acc xs) ys
unfolding raw_lines raw_tail
raw_lines-append acc [] ys = refl
raw_lines-append acc (b ∷ xs) ys =
    ground (arith, raw_lines-append [] xs ys, raw_lines-append (acc ++ b ∷ []) xs ys)

pub raw_tail-append : (acc xs ys : List ℕ) → raw_tail acc (xs ++ ys) ≡ raw_tail (raw_tail acc xs) ys
unfolding raw_tail
raw_tail-append acc [] ys = refl
raw_tail-append acc (b ∷ xs) ys =
    ground (arith, raw_tail-append [] xs ys, raw_tail-append (acc ++ b ∷ []) xs ys)

without_last-length : (xs : List ℕ) → length xs ≤ suc (length (without_last xs))
unfolding without_last
without_last-length [] = omega arith
without_last-length (x ∷ []) = omega arith
without_last-length (x ∷ y ∷ ys) = omega (arith, without_last-length (y ∷ ys))

-- At most one byte is stripped.
pub stripped-length : (raw : List ℕ) → length raw ≤ suc (length (stripped raw))
unfolding stripped
stripped-length raw = ground (arith, without_last-length raw)

-- Bytes that have overrun the allowance never fit, whatever follows.
pub fits_of_overrun :
    (limit : ℕ) (acc bytes : List ℕ) → suc limit < length acc → fits limit acc bytes ≡ false
unfolding fits raw_lines raw_tail
fits_of_overrun limit acc [] h = ground arith
fits_of_overrun limit acc (b ∷ bs) h = ground (
  arith,
  stripped-length acc,
  length-append acc (b ∷ []),
  fits_of_overrun limit (acc ++ b ∷ []) bs,
)
