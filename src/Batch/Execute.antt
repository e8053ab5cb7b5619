-- ===== src/Batch/Execute.antt =====
-- src/batch/executor.ts: `executeBatch`, the loop over the steps of a plan.
use agent_tty.Prelude.{
  ℕ, ◌+◌, Bool, false, not, ◌&&◌, ◌||◌, Option, none, some, List, [], ◌∷◌, ◌++◌, if◌then◌else◌,
}
use agent_tty.Batch.Step.{
  BatchStep, not_run, BatchStepRecord, BatchResult, unreached_step_record, is_completed, is_failed,
  is_wait,
}
use agent_tty.Batch.Driver.{StepDriver, run_step, caught}

-- The variables of the loop.
pub record Progress : Type 0 where
  pub steps : List BatchStepRecord
  pub failed_indices : List ℕ
  pub completed_count : ℕ
  pub last_input_seq : Option ℕ
  pub stopped : Bool

abbrev pub no_progress : Progress
no_progress = record {
  steps = [];
  failed_indices = [];
  completed_count = 0;
  last_input_seq = none;
  stopped = false;
}

abbrev pub result_of : Progress → BatchResult
result_of p = record {
  steps = p.steps;
  completed_count = p.completed_count;
  failed_indices = p.failed_indices;
}

-- `finalize`; `onStep` is given the records as they are pushed.
unfoldable pub finalize : BatchStepRecord → Progress → Progress
finalize r p = record p {
  steps = p.steps ++ r ∷ [];
  completed_count = if is_completed r.status then p.completed_count + 1 else p.completed_count;
  failed_indices =
      if is_failed r.status then p.failed_indices ++ r.index ∷ [] else p.failed_indices;
}

abbrev or_else : Option ℕ → Option ℕ → Option ℕ
or_else none old = old
or_else (some seq) old = some seq

-- The Wait Baseline behind a record: a step that is no wait and produced a seq advances it.
unfoldable pub next_baseline : BatchStepRecord → Option ℕ → Option ℕ
next_baseline r old = if is_wait r.kind then old else or_else r.seq old

-- What the loop does with the record of a step that was run.
unfoldable pub settle_record : Bool → BatchStepRecord → Progress → Progress
settle_record keep_going r p =
    let done = finalize r (record p { last_input_seq = next_baseline r p.last_input_seq }) in
    record done { stopped = p.stopped || is_failed r.status && not keep_going }

module _ {W Mouse Condition : Type 0} (driver : StepDriver W Mouse Condition) where
  -- A step that is run: the record that its run or its `catch` gives. The clock is not read to go
  -- back between the two readings of a duration.
  unfoldable pub attempt : BatchStep Mouse Condition → ℕ → Option ℕ → W → BatchStepRecord × W
  attempt step index baseline w =
      let started_at = driver.now w in
      caught driver step index started_at (run_step driver step index baseline started_at w)

module _ {W Mouse Condition : Type 0} (driver : StepDriver W Mouse Condition)
    (keep_going : Bool) where
  -- One round of the loop.
  unfoldable pub step_round : BatchStep Mouse Condition → ℕ → Progress → W → Progress × W
  step_round step index p w =
      if p.stopped
      then (finalize (unreached_step_record step index not_run) p, w)
      else (let (r, w') = attempt driver step index p.last_input_seq w in
          (settle_record keep_going r p, w'))

  unfoldable pub execute_from : List (BatchStep Mouse Condition) → ℕ → Progress → W → Progress × W
  execute_from [] index p w = (p, w)
  execute_from (step ∷ plan) index p w =
      let (p', w') = step_round step index p w in execute_from plan (index + 1) p' w'

  -- `executeBatch`
  unfoldable pub execute_batch : List (BatchStep Mouse Condition) → W → BatchResult × W
  execute_batch plan w = let (p, w') = execute_from plan 0 no_progress w in (result_of p, w')
