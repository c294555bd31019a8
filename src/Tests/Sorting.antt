-- ===== src/Tests/Sorting.antt =====
-- Insertion sort, as an `Array.prototype.sort` for the runs.
use Prim.Native.Nat.{Ordering}
use mathlib.Core.List.{Perm}
use mathlib.Core.List.Perm
use sloppenheimer_ts.Base.{
  ◌≡◌, false, [], ◌∷◌, List, if◌then◌else◌, All, Bool-cases, stands_after, inl, inr,
}
use sloppenheimer_ts.Domain.Issue.{Issue}
use sloppenheimer_ts.Scheduler.Policy.Sorting.{IsArraySort, IsConsistent, InOrder}

module _ (compare_two : Issue → Issue → Ordering) where
  abbrev insert : Issue → List Issue → List Issue
  insert x [] = x ∷ []
  insert x (y ∷ ys) =
      let later = insert x ys in if stands_after (compare_two x y) then y ∷ later else x ∷ y ∷ ys

  abbrev pub insertion_sort : List Issue → List Issue
  insertion_sort [] = []
  insertion_sort (x ∷ xs) = insert x (insertion_sort xs)

  abbrev Before : Issue → Issue → Type 0
  Before x y = stands_after (compare_two x y) ≡ false

  insert-perm : (x : Issue) (ys : List Issue) → Perm (insert x ys) (x ∷ ys)
  insert-perm x [] = Perm.refl (x ∷ [])
  insert-perm x (y ∷ ys) = elim (Bool-cases (stands_after (compare_two x y))) [
    | inl after ↦ rw after (Perm.trans (Perm.cons y (insert-perm x ys)) (Perm.swap x y ys))
    | inr before ↦ rw before (Perm.refl (x ∷ y ∷ ys))
  ]

  insertion_sort-perm : (xs : List Issue) → Perm (insertion_sort xs) xs
  insertion_sort-perm [] = Perm.refl []
  insertion_sort-perm (x ∷ xs) =
      Perm.trans (insert-perm x (insertion_sort xs)) (Perm.cons x (insertion_sort-perm xs))

  All-insert :
      (P : Issue → Type 0) (x : Issue) (ys : List Issue) → P x → All P ys → All P (insert x ys)
  All-insert P x [] h k = (h, tt)
  All-insert P x (y ∷ ys) h k = elim (Bool-cases (stands_after (compare_two x y))) [
    | inl after ↦ rw after (k.0, All-insert P x ys h k.1)
    | inr before ↦ rw before (h, k)
  ]

  module _ (order : IsConsistent compare_two) where
    All-Before :
        (x y : Issue) (ys : List Issue) → Before x y → All (Before y) ys → All (Before x) ys
    All-Before x y [] h k = tt
    All-Before x y (z ∷ ys) h k = (order.trans x y z h k.0, All-Before x y ys h k.1)

    insert-InOrder :
        (x : Issue) (ys : List Issue) → InOrder Before ys → InOrder Before (insert x ys)
    insert-InOrder x [] s = (tt, tt)
    insert-InOrder x (y ∷ ys) s = elim (Bool-cases (stands_after (compare_two x y))) [
      | inl after ↦
          rw after (All-insert (Before y) x ys (order.total x y after) s.0, insert-InOrder x ys s.1)
      | inr before ↦ rw before ((before, All-Before x y ys before s.0), s)
    ]

    insertion_sort-InOrder : (xs : List Issue) → InOrder Before (insertion_sort xs)
    insertion_sort-InOrder [] = tt
    insertion_sort-InOrder (x ∷ xs) =
        insert-InOrder x (insertion_sort xs) (insertion_sort-InOrder xs)

pub insertion_sort-IsArraySort : IsArraySort insertion_sort
insertion_sort-IsArraySort = record {
  same = λ compare_two issues. insertion_sort-perm compare_two issues;
  ordered = λ compare_two issues order. insertion_sort-InOrder compare_two order issues;
}
