-- ===== src/Durable/Cleanup/Attempts.antt =====
-- The attempts of a cleanup are bounded.
use sloppenheimer_ts.Base.{
  ℕ, zero, suc, ◌+◌, max, ◌≤◌, ◌<◌, ◌≡◌, refl, String, true, false, Option, none, some, arith, ◌⊎◌,
  inl, inr, Bool-cases,
}
use sloppenheimer_ts.Durable.Types.{Cleanup}
use sloppenheimer_ts.Durable.Cleanup.{
  Removal, Round, Written, stands, fails, dropped, CleanupEnd, gone, overtaken, interrupted, ended,
  after_claim, after_removal, is_finished, claimed_cleanup, settled_cleanup, state_after,
  run_cleanup,
}

attempt :
    (c : Cleanup) (r : Removal)
    → ((settled_cleanup (claimed_cleanup c) r).attempts ≡ c.attempts + 1)
      × ((settled_cleanup (claimed_cleanup c) r).state ≡ state_after r.error (c.attempts + 1))
unfolding settled_cleanup claimed_cleanup
attempt c r = (refl, refl)

unfinished_early : (e : Option String) (n : ℕ) → is_finished (state_after e n) ≡ false → n < 5
unfinished_early none n h = ground arith
unfinished_early (some message) n h = ground arith

-- The loop stands before a cleanup that has ended, or before an attempt that the fuel and the bound
-- leave room for.
abbrev Ready : ℕ → Cleanup → ℕ → Type 0
Ready fuel c bound =
    ((is_finished c.state ≡ true) × (c.attempts ≤ bound) × (1 ≤ fuel))
    ⊎ ((is_finished c.state ≡ false)
        × (c.attempts + 1 ≤ bound)
        × (5 ≤ bound)
        × (2 ≤ fuel)
        × (6 ≤ fuel + c.attempts))

-- How a loop may end: with a finished cleanup within the bound, with none or an overtaken claim only
-- if another writer dropped the cleanup in some round, and interrupted only if a commit failed in one.
pub data IsEnded (rounds : ℕ → Round) (bound : ℕ) : CleanupEnd → Type 0 where
  finished :
      (last : Cleanup)
      → is_finished last.state ≡ true
      → last.attempts ≤ bound
      → IsEnded rounds bound (ended last)
  absent : (n : ℕ) → (rounds n).there ≡ false → IsEnded rounds bound gone
  dropped_later : (n : ℕ) → (rounds n).settlement ≡ dropped → IsEnded rounds bound gone
  replaced : (n : ℕ) → (rounds n).claim ≡ dropped → IsEnded rounds bound overtaken
  unclaimed : (n : ℕ) → (rounds n).claim ≡ fails → IsEnded rounds bound interrupted
  unsettled : (n : ℕ) → (rounds n).settlement ≡ fails → IsEnded rounds bound interrupted

next-Ready :
    (fuel : ℕ) (c : Cleanup) (r : Removal) (bound : ℕ)
    → c.attempts + 1 ≤ bound
    → 5 ≤ bound
    → 2 ≤ suc fuel
    → 6 ≤ suc fuel + c.attempts
    → Ready fuel (settled_cleanup (claimed_cleanup c) r) bound
next-Ready fuel c r bound room five two enough =
    let (n, s) = attempt c r in
    elim (Bool-cases (is_finished (settled_cleanup (claimed_cleanup c) r).state)) [
      | inl over ↦ inl (over, rw n room, omega (arith, two))
      | inr unfinished ↦
          let early = unfinished_early r.error (c.attempts + 1) (rw s at unfinished) in
          inr (
            unfinished,
            rw n (omega (arith, early, five)),
            five,
            omega (arith, early, enough),
            rw n (omega (arith, enough)),
          )
    ]

round-IsEnded :
    (rounds : ℕ → Round) (bound n : ℕ) (rest : CleanupEnd) (claim settlement : Written)
    → (rounds n).claim ≡ claim
    → (rounds n).settlement ≡ settlement
    → IsEnded rounds bound rest
    → IsEnded rounds bound (after_claim claim (after_removal settlement rest))
round-IsEnded rounds bound n rest fails settlement c s v = unclaimed n c
round-IsEnded rounds bound n rest dropped settlement c s v = replaced n c
round-IsEnded rounds bound n rest stands stands c s v = v
round-IsEnded rounds bound n rest stands fails c s v = unsettled n s
round-IsEnded rounds bound n rest stands dropped c s v = dropped_later n s

cleanup_ends_within :
    (fuel : ℕ) (c : Cleanup) (rounds : ℕ → Round) (bound : ℕ)
    → Ready fuel c bound
    → IsEnded rounds bound (run_cleanup fuel c rounds)
unfolding run_cleanup
cleanup_ends_within zero c rounds bound (inl (over, within, one)) = absurd (omega (arith, one))
cleanup_ends_within zero c rounds bound (inr (going, room, five, two, enough)) =
    absurd (omega (arith, two))
cleanup_ends_within (suc fuel) c rounds bound ready = elim (Bool-cases (rounds c.attempts).there) [
  | inr away ↦ rw away (absent c.attempts away)
  | inl found ↦ elim ready [
    | inl (over, within, one) ↦ rw (found, over) (finished c over within)
    | inr (going, room, five, two, enough) ↦
        rw (found, going)
          (round-IsEnded rounds bound c.attempts _ (rounds c.attempts).claim
            (rounds c.attempts).settlement refl refl
            (cleanup_ends_within fuel
              (settled_cleanup (claimed_cleanup c) (rounds c.attempts).removal) rounds bound
              (next-Ready fuel c (rounds c.attempts).removal bound room five two enough)))
  ]
]

-- Whatever the rounds meet, the loop ends within six of them. It ends with a cleanup that is completed
-- or in intervention, after at most five attempts in all, or one more than it was started with,
-- unless another writer dropped the cleanup in one of the rounds or a commit failed in one.
pub cleanup_ends :
    (c : Cleanup) (rounds : ℕ → Round)
    → IsEnded rounds (max 5 (c.attempts + 1)) (run_cleanup 6 c rounds)
cleanup_ends c rounds = elim (Bool-cases (is_finished c.state)) [
  | inl over ↦ cleanup_ends_within 6 c rounds _ (inl (over, omega arith, omega arith))
  | inr going ↦
      cleanup_ends_within 6 c rounds _
        (inr (going, omega arith, omega arith, omega arith, omega arith))
]
