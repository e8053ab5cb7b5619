-- ===== src/Batch/Partial.antt =====
-- src/batch/result.ts: `buildPartialBatchResult`, what the signal handler prints of a batch that it
-- interrupts.
use agent_tty.Prelude.{ℕ, ◌+◌, List, [], ◌∷◌, ◌++◌, length, drop}
use agent_tty.Batch.Step.{
  BatchStep, StepStatus, not_run, interrupted, BatchStepRecord, BatchResult, unreached_step_record,
  count_completed, failed_of,
}

module _ {Mouse Condition : Type 0} where
  -- The loop over the steps from the first one that has no record.
  unfoldable pub unreached_records :
      List (BatchStep Mouse Condition) → ℕ → StepStatus → List BatchStepRecord
  unreached_records [] index status = []
  unreached_records (step ∷ plan) index status =
      unreached_step_record step index status ∷ unreached_records plan (index + 1) not_run

  -- `buildPartialBatchResult`
  unfoldable pub build_partial_batch_result :
      List (BatchStep Mouse Condition) → List BatchStepRecord → BatchResult
  build_partial_batch_result plan recorded =
      let steps =
        recorded ++ unreached_records (drop (length recorded) plan) (length recorded) interrupted in
      record {
        steps = steps;
        completed_count = count_completed steps;
        failed_indices = failed_of steps;
      }
