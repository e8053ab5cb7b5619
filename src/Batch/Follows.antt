-- ===== src/Batch/Follows.antt =====
-- src/batch/executor.ts and src/batch/result.ts: the records of a batch, whole or interrupted.
use agent_tty.Prelude.{
  ℕ, ◌+◌, ◌≡◌, refl, ap, ap₂, ◌∙◌, Bool, true, false, not, ◌&&◌, ◌||◌, Option, none, List, [], ◌∷◌,
  map, if◌then◌else◌, arith, Bool-cases, inl, inr,
}
use agent_tty.Batch.Step.{
  BatchStep, StepStatus, not_run, BatchStepRecord, unreached_step_record, kind_of, is_completed,
  is_failed, is_not_run,
}
use agent_tty.Batch.Driver.{StepDriver}
use agent_tty.Batch.Execute.{attempt, execute_batch, next_baseline}
use agent_tty.Batch.Outcome.{not_run_records, batch_records}
use agent_tty.Batch.Refinement.{execute_batch_lem}
use agent_tty.Batch.Partial.{unreached_records}
use agent_tty.Batch.Shape.{Shape, shape, attempt-IsSettled}

module _ {Mouse Condition : Type 0} where
  -- The index and the kind of each step of a plan.
  unfoldable pub plan_shape : List (BatchStep Mouse Condition) → ℕ → List Shape
  plan_shape [] index = []
  plan_shape (step ∷ plan) index = (index, kind_of step) ∷ plan_shape plan (index + 1)

-- Every record is of a step that was not run.
unfoldable pub all_not_run : List BatchStepRecord → Bool
all_not_run [] = true
all_not_run (r ∷ records) = is_not_run r.status && all_not_run records

-- A step that was tried is completed or failed. Behind a failed one nothing is run, unless the batch
-- keeps going.
unfoldable pub obeys : Bool → List BatchStepRecord → Bool
obeys keep_going [] = true
obeys keep_going (r ∷ records) =
    let rest = obeys keep_going records in
    if is_completed r.status
    then rest
    else is_failed r.status && (if keep_going then rest else all_not_run records)

module _ {Mouse Condition : Type 0} where
  not_run_records-shape :
      (plan : List (BatchStep Mouse Condition)) (index : ℕ)
      → map shape (not_run_records plan index) ≡ plan_shape plan index
  unfolding not_run_records plan_shape unreached_step_record
  not_run_records-shape [] index = refl
  not_run_records-shape (step ∷ plan) index =
      ap ((index, kind_of step) ∷◌) (not_run_records-shape plan (index + 1))

  not_run_records-obey :
      (plan : List (BatchStep Mouse Condition)) (index : ℕ)
      → all_not_run (not_run_records plan index) ≡ true
  unfolding not_run_records all_not_run unreached_step_record
  not_run_records-obey [] index = refl
  not_run_records-obey (step ∷ plan) index = not_run_records-obey plan (index + 1)

  pub unreached_records-shape :
      (plan : List (BatchStep Mouse Condition)) (index : ℕ) (status : StepStatus)
      → map shape (unreached_records plan index status) ≡ plan_shape plan index
  unfolding unreached_records plan_shape unreached_step_record
  unreached_records-shape [] index status = refl
  unreached_records-shape (step ∷ plan) index status =
      ap ((index, kind_of step) ∷◌) (unreached_records-shape plan (index + 1) not_run)

obeys-failed :
    (keep_going : Bool) (r : BatchStepRecord) (records : List BatchStepRecord)
    → (is_failed r.status && not keep_going) ≡ true
    → all_not_run records ≡ true
    → obeys keep_going (r ∷ records) ≡ true
unfolding obeys
obeys-failed keep_going r records h rest = ground arith

obeys-settled :
    (keep_going : Bool) (r : BatchStepRecord) (records : List BatchStepRecord)
    → (is_completed r.status || is_failed r.status) ≡ true
    → (is_failed r.status && not keep_going) ≡ false
    → obeys keep_going records ≡ true
    → obeys keep_going (r ∷ records) ≡ true
unfolding obeys
obeys-settled keep_going r records s h rest = ground arith

module _ {W Mouse Condition : Type 0} (driver : StepDriver W Mouse Condition)
    (keep_going : Bool) where
  batch_records-shape :
      (plan : List (BatchStep Mouse Condition)) (index : ℕ) (baseline : Option ℕ) (w : W)
      → map shape (batch_records driver keep_going plan index baseline w).0 ≡ plan_shape plan index
  unfolding batch_records plan_shape
  batch_records-shape [] index baseline w = refl
  batch_records-shape (step ∷ plan) index baseline w =
      let tried = attempt driver step index baseline w in
      let first = (attempt-IsSettled driver step index baseline w).shape in
      elim (Bool-cases (is_failed tried.0.status && not keep_going)) [
        | inl h ↦ rw h (ap₂ ◌∷◌ first (not_run_records-shape plan (index + 1)))
        | inr h ↦ rw h (
            ap₂ ◌∷◌ first
              (batch_records-shape plan (index + 1) (next_baseline tried.0 baseline) tried.1))
      ]

  batch_records-obey :
      (plan : List (BatchStep Mouse Condition)) (index : ℕ) (baseline : Option ℕ) (w : W)
      → obeys keep_going (batch_records driver keep_going plan index baseline w).0 ≡ true
  unfolding batch_records
  batch_records-obey [] index baseline w = unfold obeys in refl
  batch_records-obey (step ∷ plan) index baseline w =
      let tried = attempt driver step index baseline w in
      elim (Bool-cases (is_failed tried.0.status && not keep_going)) [
        | inl h ↦ rw h (obeys-failed keep_going tried.0 _ h (not_run_records-obey plan (index + 1)))
        | inr h ↦ rw h (
            obeys-settled keep_going tried.0 _
              (attempt-IsSettled driver step index baseline w).status h
              (batch_records-obey plan (index + 1) (next_baseline tried.0 baseline) tried.1))
      ]

  -- There is one record for each step of the plan, in its order, with its index and kind. Each step is
  -- completed or failed; behind a failed one, unless the batch keeps going, every step is recorded
  -- as not run.
  pub execute_batch_follows :
      (plan : List (BatchStep Mouse Condition)) (w : W)
      → (map shape (execute_batch driver keep_going plan w).0.steps ≡ plan_shape plan 0)
        × (obeys keep_going (execute_batch driver keep_going plan w).0.steps ≡ true)
  execute_batch_follows plan w =
      let same = ap (λ z. z.0.steps) (execute_batch_lem driver keep_going plan w) in
      (
        ap (map shape) same ∙ batch_records-shape plan 0 none w,
        ap (obeys keep_going) same ∙ batch_records-obey plan 0 none w,
      )
