-- ===== src/Scheduler/Policy/Sorting.antt =====
-- The order in which candidates are tried.
use Prim.Native.Nat.{compare, Ordering}
use mathlib.Core.List.{Perm}
use sloppenheimer_ts.Base.{
  ◌⊎◌, ◌<◌, ltb, ◌&&◌, ap, sym, ◌∙◌, if◌then◌else◌, ℕ, ◌≡◌, refl, String, true, false, [], ◌∷◌,
  List, Option, none, some, arith, All, or_then, stands_after, inl, inr,
}
use sloppenheimer_ts.Domain.Issue.{Issue}
use sloppenheimer_ts.Scheduler.Policy.{
  TextRules, compare_issues, compare_created, priority_rank, sort_issues, ArraySort,
}

-- What `localeCompare` guarantees: no two texts stand each after the other, and not standing after
-- is transitive.
pub record IsLocaleOrder (compare_text : String → String → Ordering) : Type 0 where
  pub total :
      (s t : String)
      → stands_after (compare_text s t) ≡ true
      → stands_after (compare_text t s) ≡ false
  pub trans :
      (s t u : String)
      → stands_after (compare_text s t) ≡ false
      → stands_after (compare_text t u) ≡ false
      → stands_after (compare_text s u) ≡ false

-- The comparisons of numbers and of creation dates, before a later comparison.
number_total :
    (l r : ℕ) (later later' : Ordering)
    → (stands_after later ≡ true → stands_after later' ≡ false)
    → stands_after (or_then (compare l r) later) ≡ true
    → stands_after (or_then (compare r l) later') ≡ false
number_total l r later later' h k = ground arith

number_trans :
    (a b c : ℕ) (p q r : Ordering)
    → (stands_after p ≡ false → stands_after q ≡ false → stands_after r ≡ false)
    → stands_after (or_then (compare a b) p) ≡ false
    → stands_after (or_then (compare b c) q) ≡ false
    → stands_after (or_then (compare a c) r) ≡ false
number_trans a b c p q r h k l = ground arith

created_total :
    (l r : Option ℕ) (later later' : Ordering)
    → (stands_after later ≡ true → stands_after later' ≡ false)
    → stands_after (or_then (compare_created l r) later) ≡ true
    → stands_after (or_then (compare_created r l) later') ≡ false
unfolding compare_created
created_total none none later later' h k = h k
created_total none (some r) later later' h k = refl
created_total (some l) none later later' h k = cc
created_total (some l) (some r) later later' h k = number_total l r later later' h k

created_trans :
    (a b c : Option ℕ) (p q r : Ordering)
    → (stands_after p ≡ false → stands_after q ≡ false → stands_after r ≡ false)
    → stands_after (or_then (compare_created a b) p) ≡ false
    → stands_after (or_then (compare_created b c) q) ≡ false
    → stands_after (or_then (compare_created a c) r) ≡ false
unfolding compare_created
created_trans (some a) (some b) (some c) p q r h k l = number_trans a b c p q r h k l
created_trans none none none p q r h k l = h k l
created_trans (some a) b none p q r h k l = refl
created_trans none (some b) c p q r h k l = cc
created_trans none none (some c) p q r h k l = cc
created_trans (some a) none (some c) p q r h k l = cc

-- A comparison that is an order: no two issues stand each after the other, and not standing after is
-- transitive.
pub record IsConsistent (compare_two : Issue → Issue → Ordering) : Type 0 where
  pub total :
      (x y : Issue) → stands_after (compare_two x y) ≡ true → stands_after (compare_two y x) ≡ false
  pub trans :
      (x y z : Issue)
      → stands_after (compare_two x y) ≡ false
      → stands_after (compare_two y z) ≡ false
      → stands_after (compare_two x z) ≡ false

-- Each issue is related to every later one.
abbrev pub InOrder : (Issue → Issue → Type 0) → List Issue → Type 0
InOrder Before [] = Unit
InOrder Before (x ∷ xs) = All (Before x) xs × InOrder Before xs

-- What `Array.prototype.sort` guarantees: the same elements, and, for a consistent comparison, none
-- that stands after a later one.
pub record IsArraySort (sort : ArraySort) : Type 0 where
  pub same :
      (compare_two : Issue → Issue → Ordering) (issues : List Issue)
      → Perm (sort compare_two issues) issues
  pub ordered :
      (compare_two : Issue → Issue → Ordering) (issues : List Issue)
      → IsConsistent compare_two
      → InOrder (λ x y. stands_after (compare_two x y) ≡ false) (sort compare_two issues)

-- 1 to 4 are priorities, and every other value is none.
abbrev pub urgency : Option ℕ → ℕ
urgency none = 5
urgency (some p) = if ltb 0 p && ltb p 5 then p else 5

-- A known date is older than every later one, and than none.
abbrev pub IsOlder : Option ℕ → Option ℕ → Type 0
IsOlder none later = ⊥
IsOlder (some date) none = Unit
IsOlder (some date) (some later) = date < later

-- The one issue is more urgent, or as urgent and older, or these are equal and its identifier does
-- not stand after the other's.
abbrev pub MayPrecede : TextRules → Issue → Issue → Type 0
MayPrecede text x y =
    (urgency x.priority < urgency y.priority)
    ⊎ ((urgency x.priority ≡ urgency y.priority)
        × (IsOlder x.created_at y.created_at
            ⊎ ((x.created_at ≡ y.created_at)
                × (stands_after (text.locale_compare x.identifier y.identifier) ≡ false))))

priority_rank-urgency : (p : Option ℕ) → priority_rank p ≡ urgency p
unfolding priority_rank
priority_rank-urgency none = refl
priority_rank-urgency (some p) = ground arith

number_decides :
    (l r : ℕ) (later : Ordering)
    → stands_after (or_then (compare l r) later) ≡ false
    → (l < r) ⊎ ((l ≡ r) × (stands_after later ≡ false))
number_decides l r later h = ground arith

created_decides :
    (l r : Option ℕ) (later : Ordering)
    → stands_after (or_then (compare_created l r) later) ≡ false
    → IsOlder l r ⊎ ((l ≡ r) × (stands_after later ≡ false))
unfolding compare_created
created_decides none none later h = inr (refl, h)
created_decides none (some r) later h = cc
created_decides (some l) none later h = inl tt
created_decides (some l) (some r) later h = elim (number_decides l r later h) [
  | inl less ↦ inl less
  | inr (same, rest) ↦ inr (ap some same, rest)
]

InOrder-map :
    (P Q : Issue → Issue → Type 0) (xs : List Issue)
    → ((x y : Issue) → P x y → Q x y)
    → InOrder P xs
    → InOrder Q xs
InOrder-map P Q [] f h = tt
InOrder-map P Q (x ∷ xs) f h = (All_map xs h.0, InOrder-map P Q xs f h.1)
  where
    All_map : (ys : List Issue) → All (P x) ys → All (Q x) ys
    All_map [] k = tt
    All_map (y ∷ ys) k = (f x y k.0, All_map ys k.1)

module _ (text : TextRules) (order : IsLocaleOrder text.locale_compare) where
  compare_issues-IsConsistent : IsConsistent (compare_issues text)
  unfolding compare_issues
  compare_issues-IsConsistent = record {
    total = λ x y h.
        number_total (priority_rank x.priority) (priority_rank y.priority) _ _
          (created_total x.created_at y.created_at _ _ (order.total x.identifier y.identifier)) h;
    trans = λ x y z h k.
        number_trans (priority_rank x.priority) (priority_rank y.priority)
          (priority_rank z.priority) _ _ _
          (created_trans x.created_at y.created_at z.created_at _ _ _
            (order.trans x.identifier y.identifier z.identifier))
          h k;
  }

  compare_issues-MayPrecede :
      (x y : Issue) → stands_after (compare_issues text x y) ≡ false → MayPrecede text x y
  unfolding compare_issues
  compare_issues-MayPrecede x y h =
      let p = priority_rank-urgency x.priority in
      let q = priority_rank-urgency y.priority in
      elim (number_decides (priority_rank x.priority) (priority_rank y.priority) _ h) [
        | inl less ↦ inl (omega (arith, p, q, less))
        | inr (same, rest) ↦
            inr (sym p ∙ same ∙ q, created_decides x.created_at y.created_at _ rest)
      ]

  -- If `localeCompare` is an order and `sort` sorts by any order, the candidates are the polled issues,
  -- each as often, and each of them may precede every later one: it is more urgent (1 to 4, then all
  -- others), or as urgent and older (a known date before none), or these are equal and its identifier
  -- does not stand after the other's.
  pub sort_issues-IsSorted :
      (sort : ArraySort) (issues : List Issue)
      → IsArraySort sort
      → Perm (sort_issues text sort issues) issues
        × InOrder (MayPrecede text) (sort_issues text sort issues)
  unfolding sort_issues
  sort_issues-IsSorted sort issues sorts = (
    sorts.same (compare_issues text) issues,
    InOrder-map _ (MayPrecede text) (sort (compare_issues text) issues) compare_issues-MayPrecede
        (sorts.ordered (compare_issues text) issues compare_issues-IsConsistent),
  )
