-- ===== src/Coordinator/Waiting.antt =====
-- The waits of src/host/runCompletionCoordinator.ts, from their registration to their one outcome.
use agent_tty.Prelude.{
  ℕ, ◌≤◌, ◌<◌, ◌≡◌, refl, sym, ap, ◌∙◌, true, List, [], ◌∷◌, Text, arith, ◌⊎◌, inl, inr,
}
use agent_tty.Coordinator.State.{Coordinator, timed_out, aborted, is_waiting, reset_for_exit}
use agent_tty.Coordinator.Tasks.{EventAppender}
use agent_tty.Coordinator.Machine.{
  Host, IsUnused, Step, registers, ingests, flushes, runs, rejects, times_out, aborts, exits, Reach,
  here, next,
}
use agent_tty.Coordinator.Counting.{
  SameWaits, occurrences, outcomes_of, reset_for_exit-SameWaits, waits_of,
}
use agent_tty.Coordinator.TaskWaits.{run_task-SameWaits}
use agent_tty.Coordinator.Registering.{
  Registered, IsSettledOnce, flush-SameWaits, forget_waiter-SameWaits, ingest-SameWaits,
  occurrences_once, register_waited_run-Registered, register_waited_run-waits_of, unused_waits,
}

-- What a step may do to the waits.
abbrev Changes : Coordinator → Coordinator → Type 0
Changes c c' = SameWaits c c' ⊎ ((marker : Text) × Registered marker c c' × IsUnused marker c)

Changes-le :
    (c c' : Coordinator) → Changes c c' → (other : Text) → waits_of other c ≤ waits_of other c'
Changes-le c c' (inl same) other = omega (arith, same other)
Changes-le c c' (inr (marker, added, unused)) other =
    omega (arith, register_waited_run-waits_of marker other c c' added)

Changes-IsSettledOnce : (c c' : Coordinator) → Changes c c' → IsSettledOnce c → IsSettledOnce c'
Changes-IsSettledOnce c c' (inl same) once other = omega (arith, same other, once other)
Changes-IsSettledOnce c c' (inr (marker, added, unused)) once other =
    let sum = register_waited_run-waits_of marker other c c' added in
    elim (occurrences_once marker other) [
      | inl elsewhere ↦ omega (arith, sum, once other, elsewhere)
      | inr (here_once, e) ↦
          let none_yet = ap (λ m. waits_of m c) (sym e) ∙ unused_waits marker c c' added unused in
          omega (arith, sum, here_once, none_yet)
    ]

occurrences_waiting :
    (marker : Text) (waiters : List Text)
    → is_waiting marker waiters ≡ true
    → 0 < occurrences marker waiters
unfolding is_waiting occurrences
occurrences_waiting marker [] h = cc
occurrences_waiting marker (x ∷ waiters) h = ground (arith, h, occurrences_waiting marker waiters)

waiting_once :
    (marker : Text) (c : Coordinator)
    → is_waiting marker c.run_completion_waiters ≡ true
    → 0 < waits_of marker c
unfolding waits_of
waiting_once marker c held = omega (arith, occurrences_waiting marker c.run_completion_waiters held)

all_settled :
    (marker : Text) (c : Coordinator)
    → waits_of marker (reset_for_exit c) ≡ outcomes_of marker (reset_for_exit c).settled
unfolding waits_of reset_for_exit occurrences
all_settled marker c = omega arith

module _ {E W : Type 0} (appender : EventAppender E W) (utf8 : Text → List ℕ) where
  Step-Changes : {h h' : Host W} → Step appender utf8 h h' → Changes h.coordinator h'.coordinator
  Step-Changes {h} (registers {c} {run} tokens marker seq e unused) =
      inr (
        marker,
        register_waited_run-Registered utf8 tokens marker seq h.coordinator c run e,
        unused,
      )
  Step-Changes {h} (ingests {c} {tasks} text _ e) =
      inl (ingest-SameWaits text h.coordinator c tasks e)
  Step-Changes {h} (flushes {c} {tasks} _ e) = inl (flush-SameWaits h.coordinator c tasks e)
  Step-Changes {h} (runs task rest _ _) =
      inl (run_task-SameWaits appender task h.coordinator h.world)
  Step-Changes {h} (rejects task rest _ _) =
      inl (run_task-SameWaits appender task h.coordinator h.world)
  Step-Changes {h} (times_out marker) = inl (forget_waiter-SameWaits marker timed_out h.coordinator)
  Step-Changes {h} (aborts marker) = inl (forget_waiter-SameWaits marker aborted h.coordinator)
  Step-Changes {h} exits = inl (reset_for_exit-SameWaits h.coordinator)

  Reach-waits_of :
      {h h' : Host W}
      → Reach appender utf8 h h'
      → (marker : Text) → waits_of marker h.coordinator ≤ waits_of marker h'.coordinator
  Reach-waits_of here marker = omega arith
  Reach-waits_of (next r step) marker =
      omega (arith, Reach-waits_of r marker, Changes-le _ _ (Step-Changes step) marker)

  -- However registrations, chunks of output, their tasks, timeouts, aborts, rejections and exits follow
  -- each other: where no marker has more than one wait or outcome at first, none ever has, so a
  -- marker that waits was given no outcome, and no marker is given two.
  pub Reach-IsSettledOnce :
      {h h' : Host W}
      → IsSettledOnce h.coordinator
      → Reach appender utf8 h h'
      → IsSettledOnce h'.coordinator
  Reach-IsSettledOnce once here = once
  Reach-IsSettledOnce once (next r step) =
      Changes-IsSettledOnce _ _ (Step-Changes step) (Reach-IsSettledOnce once r)

  -- A run that waits is given exactly one outcome by the time of the exit, whatever comes before: after
  -- `resetForExit` its marker has one outcome, and no marker waits.
  pub exit_settles :
      {h h' : Host W} (marker : Text)
      → IsSettledOnce h.coordinator
      → Reach appender utf8 h h'
      → is_waiting marker h.coordinator.run_completion_waiters ≡ true
      → (outcomes_of marker (reset_for_exit h'.coordinator).settled ≡ 1)
        × ((reset_for_exit h'.coordinator).run_completion_waiters ≡ [])
  unfolding reset_for_exit
  exit_settles {h} {h'} marker once r held = (
    omega (
      arith,
      all_settled marker h'.coordinator,
      reset_for_exit-SameWaits h'.coordinator marker,
      Reach-IsSettledOnce once r marker,
      Reach-waits_of r marker,
      waiting_once marker h.coordinator held,
    ),
    refl,
  )
