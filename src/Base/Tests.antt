-- ===== src/Base/Tests.antt =====
-- Boolean tests as the source writes them. Equality is a decision, so that the tactics have the
-- equation on the branch that passed.
use Prim.Native.Nat.{ℕ, compare, Ordering}
use Prim.Native.String.{String}
use mathlib.Core.Path.{◌≡◌, refl}
use mathlib.Core.Logic.{◌↔◌, ◌⊎◌, inl, inr}
use mathlib.Core.Bool.{Bool, true, false}
use mathlib.Core.Option.{Option, none, some}
use native.Mathlib.Decide.{ℕ_discrete}
use text.Mathlib.Text.{◌==◌ as str_eq}
use text.Mathlib.TextEquality.{eq_iff}

abbrev pub ltb : ℕ → ℕ → Bool
ltb a b = elim (compare a b) [ Ordering.lt ↦ true | _ ↦ false ]

abbrev pub leb : ℕ → ℕ → Bool
leb a b = elim (compare a b) [ Ordering.gt ↦ false | _ ↦ true ]

infix 1 if◌then◌else◌
abbrev pub if◌then◌else◌ {ℓ} : {A : Type ℓ} → Bool → A → A → A
if true then x else y = x
if false then x else y = y

-- To split on a computed value and keep the equation.
pub Bool-cases : (b : Bool) → (b ≡ true) ⊎ (b ≡ false)
Bool-cases true = inl refl
Bool-cases false = inr refl

pub Option-cases {ℓ} : {A : Type ℓ} (o : Option A) → (o ≡ none) ⊎ ((a : A) × (o ≡ some a))
Option-cases none = inl refl
Option-cases (some a) = inr (a, refl)

pub some_inj {ℓ} : {A : Type ℓ} {a b : A} → some a ≡ some b → a ≡ b
some_inj h = cc

abbrev pub is_yes {ℓ} : {P : Type ℓ} → Dec P → Bool
is_yes (yes _) = true
is_yes (no _) = false

abbrev pub is_some {ℓ} : {A : Type ℓ} → Option A → Bool
is_some none = false
is_some (some a) = true

-- The keys that the source compares by `===`.
pub record Eq {ℓ} (A : Type ℓ) : Type ℓ where
  pub discrete : Discrete A

infix 50 ◌==◌ ◌!=◌
abbrev pub ◌==◌ {ℓ} : {A : Type ℓ} ⦃e : Eq A⦄ → A → A → Bool
◌==◌ ⦃e⦄ a b = is_yes (e.discrete a b)

abbrev pub ◌!=◌ {ℓ} : {A : Type ℓ} ⦃e : Eq A⦄ → A → A → Bool
◌!=◌ ⦃e⦄ a b = elim (e.discrete a b) [ yes _ ↦ false | no _ ↦ true ]

decide_string : (a b : String) (t : Bool) → ((t ≡ true) ↔ (a ≡ b)) → Dec (a ≡ b)
decide_string a b true e = yes (e.0 refl)
decide_string a b false e = no (λ p. cc (e.1 p))

unfoldable pub string_discrete : Discrete String
unfolding decide_string
string_discrete a b = decide_string a b (str_eq a b) (eq_iff a b)

unfoldable pub option_discrete {ℓ} : {A : Type ℓ} → Discrete A → Discrete (Option A)
option_discrete d none none = yes refl
option_discrete d none (some b) = no (λ p. cc)
option_discrete d (some a) none = no (λ p. cc)
option_discrete d (some a) (some b) = elim (d a b) [ yes p ↦ yes (cc) | no n ↦ no (λ q. n (cc)) ]

instance abbrev pub nat_eq : Eq ℕ
nat_eq = record { discrete = ℕ_discrete }

instance abbrev pub string_eq : Eq String
string_eq = record { discrete = string_discrete }

instance abbrev pub option_eq {ℓ} : {A : Type ℓ} ⦃e : Eq A⦄ → Eq (Option A)
option_eq ⦃e⦄ = record { discrete = option_discrete e.discrete }

-- `left || right` of two comparisons.
abbrev pub or_then : Ordering → Ordering → Ordering
or_then Ordering.lt later = Ordering.lt
or_then Ordering.eq later = later
or_then Ordering.gt later = Ordering.gt

abbrev pub stands_after : Ordering → Bool
stands_after Ordering.gt = true
stands_after Ordering.eq = false
stands_after Ordering.lt = false

pub is_some-some {ℓ} : {A : Type ℓ} (o : Option A) → is_some o ≡ true → (x : A) × (o ≡ some x)
is_some-some none h = cc
is_some-some (some x) h = (x, refl)
