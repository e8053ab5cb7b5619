-- ===== src/Batch/Tests.antt =====
-- Runs of src/batch/executor.ts and src/batch/result.ts through a small driver, and the theorems on
-- batches at concrete plans.
use agent_tty.Prelude.{
  ℕ, ◌+◌, ◌≡◌, refl, Bool, true, false, Option, none, some, List, [], ◌∷◌, map, take, Text, codes,
  ok, err,
}
use agent_tty.Batch.Step.{
  BatchStep, type_text, send_keys, mouse, run, wait, count_completed, failed_of, StepStatus,
  completed, failed, not_run, interrupted, unreached_step_record, BatchStepRecord, unexpected,
}
use agent_tty.Batch.Driver.{
  StepDriver, Call, MouseResult, RunResult, WaitResult, run_step, run_run_step, run_wait_step,
  failed_record, classify_run_outcome,
}
use agent_tty.Batch.Execute.{
  execute_batch, execute_from, step_round, attempt, settle_record, finalize, next_baseline,
}
use agent_tty.Batch.Outcome.{batch_records}
use agent_tty.Batch.Refinement.{execute_batch_lem}
use agent_tty.Batch.Partial.{build_partial_batch_result, unreached_records}
use agent_tty.Batch.Shape.{shape}
use agent_tty.Batch.Follows.{execute_batch_follows, plan_shape, obeys}
use agent_tty.Batch.Flush.{interrupted_batch_follows, interrupted_at_end}

-- The world is the next seq of the session's log.
abbrev write : {A : Type 0} → A → Call ℕ ℕ
write _ seq = (ok seq, seq + 1)

abbrev point : ℕ → Call ℕ MouseResult
point _ seq = (ok (record { seq = seq; reported = true; bytes_written = 6 }), seq + 1)

-- Every waited run times out.
abbrev start_run : Text → Bool → Option ℕ → Call ℕ RunResult
start_run _ _ _ seq =
    (ok (record { seq = seq; run_done = some false; timed_out = some true }), seq + 2)

-- A wait matches when it has a baseline.
abbrev watch : ℕ → Option ℕ → Option ℕ → Call ℕ WaitResult
watch _ none _ seq = (
  ok (record {
    matched = false;
    timed_out = true;
    matched_text = none;
    captured_at_seq = seq;
    screen_hash = none;
  }),
  seq,
)
watch _ (some baseline) _ seq = (
  ok (record {
    matched = true;
    timed_out = false;
    matched_text = none;
    captured_at_seq = seq;
    screen_hash = none;
  }),
  seq,
)

abbrev lost : List Text → Call ℕ ℕ
lost _ seq = (err unexpected, seq)

abbrev driver : StepDriver ℕ ℕ ℕ
driver = record {
  type_text = write;
  paste = write;
  send_keys = lost;
  mouse = point;
  run = start_run;
  wait = watch;
  assert_commandable = none;
  now = λ seq. seq;
}

abbrev plan : List (BatchStep ℕ ℕ)
plan =
    type_text (codes "ls")
    ∷ wait 7 none
    ∷ run (codes "make") false none
    ∷ send_keys (codes "Enter" ∷ [])
    ∷ mouse 3
    ∷ []

abbrev statuses : List BatchStepRecord → List StepStatus
statuses records = map (λ r. r.status) records

stops_at_timeout :
    statuses (execute_batch driver false plan 5).0.steps
    ≡ completed ∷ completed ∷ failed ∷ not_run ∷ not_run ∷ []
unfolding execute_batch execute_from step_round attempt settle_record finalize next_baseline
    run_step run_run_step run_wait_step failed_record classify_run_outcome unreached_step_record
stops_at_timeout = refl

keeps_going :
    statuses (execute_batch driver true plan 5).0.steps
    ≡ completed ∷ completed ∷ failed ∷ failed ∷ completed ∷ []
unfolding execute_batch execute_from step_round attempt settle_record finalize next_baseline
    run_step run_run_step run_wait_step failed_record classify_run_outcome unreached_step_record
keeps_going = refl

flushed :
    statuses
      (build_partial_batch_result plan (take 2 (execute_batch driver true plan 5).0.steps)).steps
    ≡ completed ∷ completed ∷ interrupted ∷ not_run ∷ not_run ∷ []
unfolding execute_batch execute_from step_round attempt settle_record finalize next_baseline
    run_step run_run_step run_wait_step failed_record classify_run_outcome unreached_step_record
    build_partial_batch_result unreached_records
flushed = refl

execute_batch_lem_example : execute_batch driver false plan 5 ≡ (
    let direct = batch_records driver false plan 0 none 5 in
    (
      record {
        steps = direct.0;
        completed_count = count_completed direct.0;
        failed_indices = failed_of direct.0;
      },
      direct.1,
    ))
execute_batch_lem_example = execute_batch_lem driver false plan 5

execute_batch_follows_example :
    (map shape (execute_batch driver true plan 5).0.steps ≡ plan_shape plan 0)
    × (obeys true (execute_batch driver true plan 5).0.steps ≡ true)
execute_batch_follows_example = execute_batch_follows driver true plan 5

interrupted_batch_follows_example :
    (map shape
        (build_partial_batch_result plan (take 2 (execute_batch driver false plan 5).0.steps)).steps
      ≡ plan_shape plan 0)
    × ((build_partial_batch_result plan
          (take 2 (execute_batch driver false plan 5).0.steps)).completed_count
        ≡ count_completed (take 2 (execute_batch driver false plan 5).0.steps))
    × ((build_partial_batch_result plan
          (take 2 (execute_batch driver false plan 5).0.steps)).failed_indices
        ≡ failed_of (take 2 (execute_batch driver false plan 5).0.steps))
interrupted_batch_follows_example = interrupted_batch_follows driver false plan 5 2

interrupted_at_end_example :
    build_partial_batch_result plan (execute_batch driver false plan 5).0.steps
    ≡ (execute_batch driver false plan 5).0
interrupted_at_end_example = interrupted_at_end driver false plan 5
