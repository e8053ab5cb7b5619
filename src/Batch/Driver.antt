-- ===== src/Batch/Driver.antt =====
-- src/batch/executor.ts: one step of a batch through the driver. The driver, its clock and the check of
-- the session are parameters over a world that each call may change; a call gives its result, or
-- what it throws, and the world after it.
use agent_tty.Prelude.{
  ℕ, ◌-◌, Bool, true, false, not, ◌&&◌, ◌||◌, Option, none, some, List, Text, Result, ok, err,
  if◌then◌else◌,
}
use agent_tty.Batch.Step.{
  BatchStep, type_text, paste, send_keys, mouse, run, wait, StepKind, type_kind, paste_kind,
  send_keys_kind, mouse_kind, run_kind, wait_kind, StepStatus, completed, failed, RunOutcome,
  run_completed, run_timed_out, session_exited, started, ErrorCode, wait_timeout,
  session_not_running, internal_error, StepError, cli_error, unexpected, BatchStepRecord,
  bare_record, kind_of, no_wait_of,
}

pub record MouseResult : Type 0 where
  pub seq : ℕ
  pub reported : Bool
  pub bytes_written : ℕ

pub record RunResult : Type 0 where
  pub seq : ℕ
  pub run_done : Option Bool
  pub timed_out : Option Bool

pub record WaitResult : Type 0 where
  pub matched : Bool
  pub timed_out : Bool
  pub matched_text : Option Text
  pub captured_at_seq : ℕ
  pub screen_hash : Option Text

-- An asynchronous call: what it returns or throws, and the world after it.
abbrev pub Call : Type 0 → Type 0 → Type 0
Call W A = W → Result StepError A × W

-- `StepDriver`, with the clock and the optional `assertCommandable` of the options.
pub record StepDriver (W Mouse Condition : Type 0) : Type 0 where
  pub type_text : Text → Call W ℕ
  pub paste : Text → Call W ℕ
  pub send_keys : List Text → Call W ℕ
  pub mouse : Mouse → Call W MouseResult
  pub run : Text → Bool → Option ℕ → Call W RunResult
  pub wait : Condition → Option ℕ → Option ℕ → Call W WaitResult
  pub assert_commandable : Option (Call W (Unit {0}))
  pub now : W → ℕ

abbrev pub continue :
    {W A B : Type 0} → Result StepError A × W → (A → Call W B) → Result StepError B × W
continue (ok a, w) f = f a w
continue (err e, w) f = (err e, w)

infixl 5 ◌>>=◌
abbrev pub ◌>>=◌ : {W A B : Type 0} → Call W A → (A → Call W B) → Call W B
◌>>=◌ m f w = continue (m w) f

abbrev is_true : Option Bool → Bool
is_true (some true) = true
is_true _ = false

-- `classifyRunOutcome`
unfoldable pub classify_run_outcome : Bool → Option Bool → Option Bool → RunOutcome
classify_run_outcome nw done timed_out =
    if nw
    then started
    else if is_true done
    then run_completed
    else if is_true timed_out
    then run_timed_out
    else session_exited

abbrev run_error : RunOutcome → ErrorCode
run_error run_timed_out = wait_timeout
run_error _ = session_not_running

module _ {W Mouse Condition : Type 0} (driver : StepDriver W Mouse Condition) where
  -- the record of a `type`, `paste` or `sendKeys` step that returned its seq
  abbrev input_record : ℕ → ℕ → StepKind → ℕ → W → BatchStepRecord
  input_record index started_at kind seq w =
      record (bare_record index (driver.now w - started_at) kind completed) { seq = some seq }

  abbrev finish_input : ℕ → ℕ → StepKind → ℕ → Call W BatchStepRecord
  finish_input index started_at kind seq w = (ok (input_record index started_at kind seq w), w)

  -- `runRunStep`
  unfoldable pub run_run_step : Text → Bool → Option ℕ → ℕ → ℕ → Call W BatchStepRecord
  unfolding classify_run_outcome
  run_run_step command nw timeout index started_at = do
    result ← driver.run command nw timeout
    let outcome = classify_run_outcome nw result.run_done result.timed_out
    let is_failure = not nw && not (is_true result.run_done)
    λ w. (
      ok
          (record (bare_record index (driver.now w - started_at) run_kind
            (if is_failure then failed else completed)) {
              seq = some result.seq;
              no_wait = some nw;
              run_done = result.run_done;
              timed_out = result.timed_out;
              run_outcome = some outcome;
              error = if is_failure then some (run_error outcome) else none;
            }),
      w,
    )

  abbrev pub check_commandable : Option (Call W (Unit {0})) → Call W (Unit {0})
  check_commandable none w = (ok tt, w)
  check_commandable (some check) w = check w

  -- the record of a wait with what was observed
  abbrev pub wait_record :
      ℕ → ℕ → Option ℕ → WaitResult → StepStatus → Option ErrorCode → W → BatchStepRecord
  wait_record index started_at baseline result status e w =
      record (bare_record index (driver.now w - started_at) wait_kind status) {
        timed_out = some result.timed_out;
        wait_baseline = baseline;
        matched = some result.matched;
        matched_text = result.matched_text;
        captured_at_seq = some result.captured_at_seq;
        screen_hash = result.screen_hash;
        error = e;
      }

  -- The re-check after a match: a `CliError` fails the record, and another error is thrown on.
  abbrev pub recheck :
      ℕ
      → ℕ
      → Option ℕ
      → WaitResult
      → Result StepError (Unit {0}) × W
      → Result StepError BatchStepRecord × W
  recheck index started_at baseline result (ok _, w) =
      (ok (wait_record index started_at baseline result completed none w), w)
  recheck index started_at baseline result (err (cli_error code), w) =
      (ok (wait_record index started_at baseline result failed (some code) w), w)
  recheck index started_at baseline result (err unexpected, w) = (err unexpected, w)

  -- `runWaitStep`
  unfoldable pub run_wait_step : Condition → Option ℕ → ℕ → Option ℕ → ℕ → Call W BatchStepRecord
  run_wait_step condition timeout index baseline started_at = do
    _ ← check_commandable driver.assert_commandable
    result ← driver.wait condition baseline timeout
    λ w.
        if result.timed_out || not result.matched
        then (ok (wait_record index started_at baseline result failed (some wait_timeout) w), w)
        else recheck index started_at baseline result
            (check_commandable driver.assert_commandable w)

  -- `runStep`
  unfoldable pub run_step : BatchStep Mouse Condition → ℕ → Option ℕ → ℕ → Call W BatchStepRecord
  unfolding run_run_step run_wait_step
  run_step (type_text text) index baseline started_at =
      driver.type_text text >>= finish_input index started_at type_kind
  run_step (paste text) index baseline started_at =
      driver.paste text >>= finish_input index started_at paste_kind
  run_step (send_keys keys) index baseline started_at =
      driver.send_keys keys >>= finish_input index started_at send_keys_kind
  run_step (mouse input) index baseline started_at = driver.mouse input >>= λ result w. (
    ok (record (input_record index started_at mouse_kind result.seq w) {
      reported = some result.reported;
      bytes_written = some result.bytes_written;
    }),
    w,
  )
  run_step (run command nw timeout) index baseline started_at =
      run_run_step command nw timeout index started_at
  run_step (wait condition timeout) index baseline started_at =
      run_wait_step condition timeout index baseline started_at

  -- `toBatchStepError`, behind `reframeAsInternalError` for what is no `CliError`
  abbrev step_error_code : StepError → ErrorCode
  step_error_code (cli_error code) = code
  step_error_code unexpected = internal_error

  -- `failedRecord`
  unfoldable pub failed_record : BatchStep Mouse Condition → ℕ → ℕ → StepError → BatchStepRecord
  failed_record step index duration e = record (bare_record index duration (kind_of step) failed) {
    no_wait = no_wait_of step;
    error = some (step_error_code e);
  }

  -- the `catch` of the loop
  abbrev pub caught :
      BatchStep Mouse Condition → ℕ → ℕ → Result StepError BatchStepRecord × W → BatchStepRecord × W
  caught step index started_at (ok r, w) = (r, w)
  caught step index started_at (err e, w) =
      (failed_record step index (driver.now w - started_at) e, w)
