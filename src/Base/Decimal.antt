-- ===== src/Base/Decimal.antt =====
-- Template strings, and `String(n)` for a whole number: its decimal digits.
use Prim.Native.Char.{code}
use Prim.Native.String
use Prim.Native.String.{String}
use Prim.Native.Nat.{ℕ, zero, suc, ◌+◌, ◌-◌, ◌*◌, ◌/◌, ◌%◌, ◌≤◌, ◌<◌}
use mathlib.Core.Path.{◌≡◌, sym, ap, ◌∙◌}
use mathlib.Core.Logic.{inl, inr}
use mathlib.Core.List.{List, [], ◌∷◌}
use native.Mathlib.Omega.{arith}
use text.Mathlib.TextLemmas.{nil-append, cons-append, append-nil, append_cancel_left}
use sloppenheimer_ts.Base.Tests.{ltb, Bool-cases, if◌then◌else◌}

-- The digit's character, a one-character text.
digit : ℕ → String
digit zero = "0"
digit (suc zero) = "1"
digit (suc (suc zero)) = "2"
digit (suc (suc (suc zero))) = "3"
digit (suc (suc (suc (suc zero)))) = "4"
digit (suc (suc (suc (suc (suc zero))))) = "5"
digit (suc (suc (suc (suc (suc (suc zero)))))) = "6"
digit (suc (suc (suc (suc (suc (suc (suc zero))))))) = "7"
digit (suc (suc (suc (suc (suc (suc (suc (suc zero)))))))) = "8"
digit (suc (suc (suc (suc (suc (suc (suc (suc (suc d))))))))) = "9"

-- The digits of `n`, for a fuel of at least `n`.
digits : ℕ → ℕ → String
unfolding digit
digits zero n = digit n
digits (suc fuel) n =
    let more = String.◌++◌ (digits fuel (n / 10)) (digit (n % 10)) in
    if ltb n 10 then digit n else more

unfoldable pub string_of : ℕ → String
unfolding digits
string_of n = digits n n

-- What a text of digits stands for, read from the left.
value_from : ℕ → String → ℕ
value_from acc String.[] = acc
value_from acc (String.◌∷◌ c s) = value_from (acc * 10 + (code c - 48)) s

value_from-append :
    (acc : ℕ) (s t : String) → value_from acc (String.◌++◌ s t) ≡ value_from (value_from acc s) t
unfolding value_from
value_from-append acc String.[] t = rw nil-append
value_from-append acc (String.◌∷◌ c s) t =
    rw cons-append (value_from-append (acc * 10 + (code c - 48)) s t)

value_from-digit : (acc d : ℕ) → d < 10 → value_from acc (digit d) ≡ acc * 10 + d
unfolding value_from digit
value_from-digit acc zero h = omega arith
value_from-digit acc (suc zero) h = omega arith
value_from-digit acc (suc (suc zero)) h = omega arith
value_from-digit acc (suc (suc (suc zero))) h = omega arith
value_from-digit acc (suc (suc (suc (suc zero)))) h = omega arith
value_from-digit acc (suc (suc (suc (suc (suc zero))))) h = omega arith
value_from-digit acc (suc (suc (suc (suc (suc (suc zero)))))) h = omega arith
value_from-digit acc (suc (suc (suc (suc (suc (suc (suc zero))))))) h = omega arith
value_from-digit acc (suc (suc (suc (suc (suc (suc (suc (suc zero)))))))) h = omega arith
value_from-digit acc (suc (suc (suc (suc (suc (suc (suc (suc (suc zero))))))))) h = omega arith
value_from-digit acc (suc (suc (suc (suc (suc (suc (suc (suc (suc (suc d)))))))))) h =
    absurd (omega arith)

value_from-digits : (fuel n : ℕ) → n ≤ fuel → value_from 0 (digits fuel n) ≡ n
unfolding digits
value_from-digits zero n h = value_from-digit 0 n (omega arith) ∙ omega arith
value_from-digits (suc fuel) n h = elim (Bool-cases (ltb n 10)) [
  | inl small ↦ rw small (value_from-digit 0 n (ground arith) ∙ omega arith)
  | inr large ↦ rw large (
      value_from-append 0 (digits fuel (n / 10)) (digit (n % 10))
      ∙ ap (λ v. value_from v (digit (n % 10))) (value_from-digits fuel (n / 10) (omega arith))
      ∙ value_from-digit (n / 10) (n % 10) (omega arith)
      ∙ omega arith)
]

-- Different numbers have different texts.
pub string_of_inj : (m n : ℕ) → string_of m ≡ string_of n → m ≡ n
unfolding string_of
string_of_inj m n h =
    sym (value_from-digits m m (omega arith))
    ∙ ap (value_from 0) h
    ∙ value_from-digits n n (omega arith)

-- A template string: its parts in turn.
unfoldable pub template : List String → String
template [] = ""
template (s ∷ ss) = String.◌++◌ s (template ss)

-- Two templates with the same beginning differ where their next parts do.
pub template-cancel :
    (s : String) (ss ts : List String)
    → template (s ∷ ss) ≡ template (s ∷ ts)
    → template ss ≡ template ts
unfolding template
template-cancel s ss ts h = append_cancel_left s (template ss) (template ts) h

pub template_last : (s : String) → template (s ∷ []) ≡ s
unfolding template
template_last s = append-nil s
