-- ===== src/Batch/Flush.antt =====
-- src/batch/result.ts: what a signal prints of the batch that it interrupts.
use agent_tty.Prelude.{
  ℕ, ◌+◌, ◌≡◌, refl, sym, ap, ◌∙◌, Bool, true, not, ◌&&◌, List, [], ◌∷◌, ◌++◌, append-nil, length,
  take, drop, take-append-drop, map, arith,
}
use agent_tty.Batch.Step.{
  BatchStep, StepStatus, not_run, interrupted, BatchStepRecord, BatchResult, unreached_step_record,
  count_completed, failed_of, is_completed, is_failed,
}
use agent_tty.Batch.Driver.{StepDriver}
use agent_tty.Batch.Execute.{execute_batch}
use agent_tty.Batch.Outcome.{count_completed-append, failed_of-append}
use agent_tty.Batch.Refinement.{execute_batch_lem}
use agent_tty.Batch.Partial.{unreached_records, build_partial_batch_result}
use agent_tty.Batch.Shape.{Shape, shape}
use agent_tty.Batch.Follows.{plan_shape, unreached_records-shape, execute_batch_follows}

map-append : {A B : Type 0} (f : A → B) (xs ys : List A) → map f (xs ++ ys) ≡ map f xs ++ map f ys
map-append f [] ys = refl
map-append f (x ∷ xs) ys = ap (f x ∷◌) (map-append f xs ys)

-- A status that counts neither as completed nor as failed.
abbrev is_unreached : StepStatus → Bool
is_unreached status = not (is_completed status) && not (is_failed status)

module _ {Mouse Condition : Type 0} where
  unreached_records-count :
      (plan : List (BatchStep Mouse Condition)) (index : ℕ) (status : StepStatus)
      → is_unreached status ≡ true
      → (count_completed (unreached_records plan index status) ≡ 0)
        × (failed_of (unreached_records plan index status) ≡ [])
  unfolding unreached_records unreached_step_record count_completed failed_of
  unreached_records-count [] index status h = (refl, refl)
  unreached_records-count (step ∷ plan) index status h =
      let rest = unreached_records-count plan (index + 1) not_run refl in
      (ground (arith, rest.0), ground (arith, rest.1))

  -- What is behind a prefix of a plan.
  plan_shape-drop :
      (recorded : List BatchStepRecord) (rest : List Shape)
      (plan : List (BatchStep Mouse Condition)) (index : ℕ)
      → map shape recorded ++ rest ≡ plan_shape plan index
      → plan_shape (drop (length recorded) plan) (index + length recorded) ≡ rest
  unfolding plan_shape
  plan_shape-drop [] rest plan index h = sym (h ∙ ap (plan_shape plan) (omega arith))
  plan_shape-drop (r ∷ recorded) rest [] index h = cc
  plan_shape-drop (r ∷ recorded) rest (step ∷ plan) index h =
      ap (plan_shape (drop (length recorded) plan)) (omega arith)
      ∙ plan_shape-drop recorded rest plan (index + 1) cc

  partial-shape :
      (plan : List (BatchStep Mouse Condition)) (recorded : List BatchStepRecord)
      (rest : List Shape)
      → map shape recorded ++ rest ≡ plan_shape plan 0
      → map shape (build_partial_batch_result plan recorded).steps ≡ plan_shape plan 0
  unfolding build_partial_batch_result
  partial-shape plan recorded rest h =
      map-append shape recorded _
      ∙ ap (map shape recorded ++◌) (
          unreached_records-shape (drop (length recorded) plan) (length recorded) interrupted
          ∙ ap (plan_shape (drop (length recorded) plan)) (omega arith)
          ∙ plan_shape-drop recorded rest plan 0 h)
      ∙ h

  partial-counts :
      (plan : List (BatchStep Mouse Condition)) (recorded : List BatchStepRecord)
      → ((build_partial_batch_result plan recorded).completed_count ≡ count_completed recorded)
        × ((build_partial_batch_result plan recorded).failed_indices ≡ failed_of recorded)
  unfolding build_partial_batch_result
  partial-counts plan recorded =
      let unreached =
        unreached_records-count (drop (length recorded) plan) (length recorded) interrupted refl in
      (
        count_completed-append recorded _
            ∙ ap (count_completed recorded +◌) unreached.0
            ∙ omega arith,
        failed_of-append recorded _
            ∙ ap (failed_of recorded ++◌) unreached.1
            ∙ append-nil (failed_of recorded),
      )

  plan_shape-nil :
      (plan : List (BatchStep Mouse Condition)) (index : ℕ) → plan_shape plan index ≡ [] → plan ≡ []
  unfolding plan_shape
  plan_shape-nil [] index h = refl
  plan_shape-nil (step ∷ plan) index h = cc

  partial-whole :
      (plan : List (BatchStep Mouse Condition)) (recorded : List BatchStepRecord)
      → map shape recorded ≡ plan_shape plan 0
      → (build_partial_batch_result plan recorded).steps ≡ recorded
  unfolding build_partial_batch_result unreached_records
  partial-whole plan recorded h =
      let behind =
        plan_shape-nil (drop (length recorded) plan) (0 + length recorded)
          (plan_shape-drop recorded [] plan 0 (append-nil (map shape recorded) ∙ h)) in
      ap (λ p. recorded ++ unreached_records p (length recorded) interrupted) behind
      ∙ append-nil recorded

BatchResult-eq :
    (a b : BatchResult)
    → a.steps ≡ b.steps
    → a.completed_count ≡ b.completed_count
    → a.failed_indices ≡ b.failed_indices
    → a ≡ b
BatchResult-eq a b p q r = λ i. record { steps = p i; completed_count = q i; failed_indices = r i }

module _ {W Mouse Condition : Type 0} (driver : StepDriver W Mouse Condition)
    (keep_going : Bool) where
  -- Interrupted when the first n steps are recorded, the batch still has one record for each step of
  -- the plan, and its counts are of the recorded steps alone.
  pub interrupted_batch_follows :
      (plan : List (BatchStep Mouse Condition)) (w : W) (n : ℕ)
      → (map shape
            (build_partial_batch_result plan
              (take n (execute_batch driver keep_going plan w).0.steps)).steps
          ≡ plan_shape plan 0)
        × ((build_partial_batch_result plan
              (take n (execute_batch driver keep_going plan w).0.steps)).completed_count
            ≡ count_completed (take n (execute_batch driver keep_going plan w).0.steps))
        × ((build_partial_batch_result plan
              (take n (execute_batch driver keep_going plan w).0.steps)).failed_indices
            ≡ failed_of (take n (execute_batch driver keep_going plan w).0.steps))
  interrupted_batch_follows plan w n =
      let steps = (execute_batch driver keep_going plan w).0.steps in
      let recorded = take n steps in
      let follows = (execute_batch_follows driver keep_going plan w).0 in
      (
        partial-shape plan recorded (map shape (drop n steps)) (
            sym (map-append shape recorded (drop n steps))
            ∙ ap (map shape) (take-append-drop n steps)
            ∙ follows),
        (partial-counts plan recorded).0,
        (partial-counts plan recorded).1,
      )

  -- Interrupted when every step is recorded, the batch gives the result that it returns.
  pub interrupted_at_end :
      (plan : List (BatchStep Mouse Condition)) (w : W)
      → build_partial_batch_result plan (execute_batch driver keep_going plan w).0.steps
        ≡ (execute_batch driver keep_going plan w).0
  interrupted_at_end plan w =
      let result = (execute_batch driver keep_going plan w).0 in
      let whole = ap (λ z. z.0) (execute_batch_lem driver keep_going plan w) in
      let same = ap (λ r. r.steps) whole in
      let counts = partial-counts plan result.steps in
      BatchResult-eq _ result
        (partial-whole plan result.steps (execute_batch_follows driver keep_going plan w).0)
        (counts.0 ∙ ap count_completed same ∙ sym (ap (λ r. r.completed_count) whole))
        (counts.1 ∙ ap failed_of same ∙ sym (ap (λ r. r.failed_indices) whole))
