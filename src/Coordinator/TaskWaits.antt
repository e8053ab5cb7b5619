-- ===== src/Coordinator/TaskWaits.antt =====
-- src/host/runCompletionCoordinator.ts: the waits of a marker behind one task of an ingestion.
use agent_tty.RunCompletion.Sentinel.{assert_run_marker}
use agent_tty.Prelude.{
  Result-cases, inl, inr, ℕ, ◌≡◌, refl, ap, ◌∙◌, false, Option, none, some, List, [], ◌∷◌, Text,
  text_eq, All, Result, ok, err, Failure, arith,
}
use agent_tty.RunCompletion.Sanitizer.{Sanitizer}
use agent_tty.RunCompletion.Scanner.{output, run_complete}
use agent_tty.Coordinator.State.{
  delete_completion, Coordinator, WaitOutcome, completed, rejected, is_waiting,
  resolve_run_completion_waiter, reject_run_completion_waiter, ActiveRunCompletion,
}
use agent_tty.Coordinator.Tasks.{
  Thrown, EventAppender, catch_and_reject, Task, append_piece, append_completion, finish_completion,
  append_flushed_echo, append_text, append_sanitized, start_completion, resolved, delete_found,
  run_task,
}
use agent_tty.Coordinator.Counting.{
  SameWaits, occurrences, outcomes_of, settle_waiter-waits_of, waits_of,
}

completions-SameWaits :
    (c : Coordinator) (active : List ActiveRunCompletion)
    → SameWaits c (record c { active_run_completions = active })
unfolding waits_of
completions-SameWaits c active marker = refl

module _ {E W : Type 0} (appender : EventAppender E W) where
  append_text-SameWaits :
      (tasks : List Task) (text : Text) (c : Coordinator) (w : W)
      → (append_text appender tasks text c w).coordinator ≡ c
  unfolding append_text
  append_text-SameWaits tasks [] c w = refl
  append_text-SameWaits tasks (x ∷ text) c w = refl

  append_sanitized-SameWaits :
      (tasks : List Task) (r : Result Failure (Sanitizer × Text)) (c : Coordinator) (w : W)
      → SameWaits c (append_sanitized appender tasks r c w).coordinator
  unfolding append_sanitized waits_of
  append_sanitized-SameWaits tasks (err e) c w marker = refl
  append_sanitized-SameWaits tasks (ok (sanitizer, text)) c w marker =
      ap (waits_of marker)
        (append_text-SameWaits tasks text (record c { postamble_echo_sanitizer = sanitizer }) w)

  catch-SameWaits :
      (marker : Text) (r : Result (Thrown E) (List Task)) (c c' : Coordinator) (w : W)
      → SameWaits c c'
      → SameWaits c (catch_and_reject appender marker r c' w).coordinator
  unfolding reject_run_completion_waiter
  catch-SameWaits marker (ok tasks) c c' w same other = same other
  catch-SameWaits marker (err error) c c' w same other =
      elim (Result-cases (assert_run_marker marker)) [
        | inl (_, e) ↦ rw e (settle_waiter-waits_of marker rejected other c' ∙ same other)
        | inr (_, e) ↦ rw e (same other)
      ]

  start_completion-SameWaits :
      (marker : Text) (r : Result Failure ActiveRunCompletion) (c : Coordinator) (w : W)
      → SameWaits c (start_completion appender marker r c w).coordinator
  unfolding start_completion
  start_completion-SameWaits marker (err e) c w other = refl
  start_completion-SameWaits marker (ok a) c w other =
      catch-SameWaits marker _ c _ _ (append_sanitized-SameWaits _ _ c w) other

  resolved-SameWaits :
      (marker : Text) (seq : ℕ) (c c' : Coordinator) (w : W)
      → SameWaits c c'
      → SameWaits c
          (resolved appender marker (resolve_run_completion_waiter marker seq c') c' w).coordinator
  unfolding resolve_run_completion_waiter
  resolved-SameWaits marker seq c c' w same other = elim (Result-cases (assert_run_marker marker)) [
    | inl (_, e) ↦ rw e (settle_waiter-waits_of marker (completed seq) other c' ∙ same other)
    | inr (_, e) ↦ rw e (catch-SameWaits marker (err _) c c' w same other)
  ]

  delete_found-SameWaits :
      (marker : Text) (seq : ℕ) (o : Option ActiveRunCompletion) (c : Coordinator) (w : W)
      → SameWaits c (delete_found appender marker seq o c w).coordinator
  delete_found-SameWaits marker seq none c w other =
      catch-SameWaits marker (err _) c c w (λ m. refl) other
  delete_found-SameWaits marker seq (some a) c w other =
      resolved-SameWaits marker seq c
        (record c { active_run_completions = delete_completion marker c.active_run_completions }) w
        (completions-SameWaits c (delete_completion marker c.active_run_completions)) other

  pub run_task-SameWaits :
      (task : Task) (c : Coordinator) (w : W) → SameWaits c (run_task appender task c w).coordinator
  unfolding run_task
  run_task-SameWaits (append_piece (output text)) c w = append_sanitized-SameWaits _ _ c w
  run_task-SameWaits (append_piece (run_complete marker)) c w =
      start_completion-SameWaits marker _ c w
  run_task-SameWaits (append_completion marker input_run_seq) c w =
      catch-SameWaits marker _ c c _ (λ m. refl)
  run_task-SameWaits (finish_completion marker seq) c w = delete_found-SameWaits marker seq _ c w
  run_task-SameWaits append_flushed_echo c w = append_sanitized-SameWaits _ _ c w

pub occurrences-is_waiting :
    (marker : Text) (waiters : List Text)
    → is_waiting marker waiters ≡ false
    → occurrences marker waiters ≡ 0
unfolding is_waiting occurrences
occurrences-is_waiting marker [] h = refl
occurrences-is_waiting marker (x ∷ waiters) h =
    ground (arith, h, occurrences-is_waiting marker waiters)

pub outcomes_of-IsUnused :
    (marker : Text) (settled : List (Text × WaitOutcome))
    → All (λ p. text_eq p.0 marker ≡ false) settled
    → outcomes_of marker settled ≡ 0
unfolding outcomes_of
outcomes_of-IsUnused marker [] h = refl
outcomes_of-IsUnused marker (p ∷ settled) h = rw h.0 (outcomes_of-IsUnused marker settled h.1)
