-- ===== src/Coordinator/Counting.antt =====
-- src/host/runCompletionCoordinator.ts: how many waits and outcomes a marker has, and what settling a wait
-- makes of them.
use agent_tty.Prelude.{
  ℕ, suc, ◌+◌, ◌≡◌, refl, true, List, [], ◌∷◌, ◌++◌, Text, text_eq, text_eq→eq, if◌then◌else◌,
  arith, Bool-cases, inl, inr,
}
use agent_tty.Coordinator.State.{
  Coordinator, WaitOutcome, is_waiting, delete_waiter, settle_waiter, all_exited, reset_for_exit,
}

-- How often a marker stands in a list.
unfoldable pub occurrences : Text → List Text → ℕ
occurrences marker [] = 0
occurrences marker (x ∷ xs) =
    let rest = occurrences marker xs in if text_eq x marker then suc rest else rest

unfoldable pub outcomes_of : Text → List (Text × WaitOutcome) → ℕ
outcomes_of marker [] = 0
outcomes_of marker (p ∷ settled) =
    let rest = outcomes_of marker settled in if text_eq p.0 marker then suc rest else rest

-- The waits of a marker that are open, and the outcomes that it was given.
unfoldable pub waits_of : Text → Coordinator → ℕ
waits_of marker c = occurrences marker c.run_completion_waiters + outcomes_of marker c.settled

pub occurrences-append :
    (marker : Text) (xs ys : List Text)
    → occurrences marker (xs ++ ys) ≡ occurrences marker xs + occurrences marker ys
unfolding occurrences
occurrences-append marker [] ys = omega arith
occurrences-append marker (x ∷ xs) ys = ground (arith, occurrences-append marker xs ys)

outcomes_of-append :
    (marker : Text) (xs ys : List (Text × WaitOutcome))
    → outcomes_of marker (xs ++ ys) ≡ outcomes_of marker xs + outcomes_of marker ys
unfolding outcomes_of
outcomes_of-append marker [] ys = omega arith
outcomes_of-append marker (p ∷ xs) ys = ground (arith, outcomes_of-append marker xs ys)

outcomes_of-all_exited :
    (marker : Text) (waiters : List Text)
    → outcomes_of marker (all_exited waiters) ≡ occurrences marker waiters
unfolding outcomes_of all_exited occurrences
outcomes_of-all_exited marker [] = refl
outcomes_of-all_exited marker (x ∷ waiters) = ground (arith, outcomes_of-all_exited marker waiters)

-- One waiter of the marker is taken away.
occurrences-delete :
    (marker other : Text) (waiters : List Text)
    → is_waiting marker waiters ≡ true
    → occurrences other (delete_waiter marker waiters) + occurrences other (marker ∷ [])
      ≡ occurrences other waiters
unfolding occurrences is_waiting delete_waiter
occurrences-delete marker other [] h = cc
occurrences-delete marker other (x ∷ waiters) h = elim (Bool-cases (text_eq x marker)) [
  | inl same ↦ let e = text_eq→eq x marker same in rw (same, e) (ground arith)
  | inr differ ↦
      let rest = occurrences-delete marker other waiters (ground (arith, h, differ)) in
      ground (arith, differ, rest)
]

pub settle_waiter-waits_of :
    (marker : Text) (result : WaitOutcome) (other : Text) (c : Coordinator)
    → waits_of other (settle_waiter marker result c) ≡ waits_of other c
unfolding settle_waiter waits_of
settle_waiter-waits_of marker result other c =
    elim (Bool-cases (is_waiting marker c.run_completion_waiters)) [
      | inr none_open ↦ ground (arith, none_open)
      | inl held ↦
          let taken = occurrences-delete marker other c.run_completion_waiters held in
          let given = outcomes_of-append other c.settled ((marker, result) ∷ []) in
          let same : occurrences other (marker ∷ []) ≡ outcomes_of other ((marker, result) ∷ []) =
            unfold occurrences outcomes_of in refl in
          ground (arith, held, taken, given, same)
    ]

-- What leaves every marker's waits as many as they were.
abbrev pub SameWaits : Coordinator → Coordinator → Type 0
SameWaits c c' = (marker : Text) → waits_of marker c' ≡ waits_of marker c

pub reset_for_exit-SameWaits : (c : Coordinator) → SameWaits c (reset_for_exit c)
unfolding reset_for_exit waits_of
reset_for_exit-SameWaits c marker = omega (
  arith,
  outcomes_of-append marker c.settled (all_exited c.run_completion_waiters),
  outcomes_of-all_exited marker c.run_completion_waiters,
  no_waiters,
)
  where
    no_waiters : occurrences marker [] ≡ 0
    no_waiters = unfold occurrences in refl
