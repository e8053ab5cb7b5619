-- ===== src/Batch/Step.antt =====
-- The steps of src/batch/plan.ts and the records of src/batch/result.ts. What a mouse step and a wait
-- condition hold is not looked at here: they are types that the plan is over. A record holds the
-- error's code, without its message.
use agent_tty.Prelude.{
  ℕ, suc, Bool, true, false, Option, none, some, List, [], ◌∷◌, Text, if◌then◌else◌,
}

-- `BatchStep`
pub data BatchStep (Mouse Condition : Type 0) : Type 0 where
  type_text : Text → BatchStep Mouse Condition
  paste : Text → BatchStep Mouse Condition
  send_keys : List Text → BatchStep Mouse Condition
  mouse : Mouse → BatchStep Mouse Condition
  run : Text → Bool → Option ℕ → BatchStep Mouse Condition
  wait : Condition → Option ℕ → BatchStep Mouse Condition

pub data StepKind : Type 0 where
  type_kind paste_kind send_keys_kind mouse_kind run_kind wait_kind : StepKind

pub data StepStatus : Type 0 where
  completed failed not_run interrupted : StepStatus

pub data RunOutcome : Type 0 where
  run_completed run_timed_out session_exited started : RunOutcome

pub data ErrorCode : Type 0 where
  wait_timeout session_not_running internal_error : ErrorCode
  other_code : Text → ErrorCode

-- What a driver call throws: a `CliError` with its code, or anything else.
pub data StepError : Type 0 where
  cli_error : ErrorCode → StepError
  unexpected : StepError

-- `BatchStepRecord`: the fields of the four shapes, each optional where a shape lacks it.
pub record BatchStepRecord : Type 0 where
  pub index : ℕ
  pub duration_ms : ℕ
  pub kind : StepKind
  pub status : StepStatus
  pub seq : Option ℕ
  pub reported : Option Bool
  pub bytes_written : Option ℕ
  pub no_wait : Option Bool
  pub run_done : Option Bool
  pub timed_out : Option Bool
  pub run_outcome : Option RunOutcome
  pub wait_baseline : Option ℕ
  pub matched : Option Bool
  pub matched_text : Option Text
  pub captured_at_seq : Option ℕ
  pub screen_hash : Option Text
  pub error : Option ErrorCode

pub record BatchResult : Type 0 where
  pub steps : List BatchStepRecord
  pub completed_count : ℕ
  pub failed_indices : List ℕ

-- A record with nothing observed.
abbrev pub bare_record : ℕ → ℕ → StepKind → StepStatus → BatchStepRecord
bare_record index duration kind status = record {
  index = index;
  duration_ms = duration;
  kind = kind;
  status = status;
  seq = none;
  reported = none;
  bytes_written = none;
  no_wait = none;
  run_done = none;
  timed_out = none;
  run_outcome = none;
  wait_baseline = none;
  matched = none;
  matched_text = none;
  captured_at_seq = none;
  screen_hash = none;
  error = none;
}

module _ {Mouse Condition : Type 0} where
  abbrev pub kind_of : BatchStep Mouse Condition → StepKind
  kind_of (type_text text) = type_kind
  kind_of (paste text) = paste_kind
  kind_of (send_keys keys) = send_keys_kind
  kind_of (mouse input) = mouse_kind
  kind_of (run command nw timeout) = run_kind
  kind_of (wait condition timeout) = wait_kind

  -- Only the record of a run names `noWait`.
  abbrev pub no_wait_of : BatchStep Mouse Condition → Option Bool
  no_wait_of (run command nw timeout) = some nw
  no_wait_of _ = none

  -- `unreachedStepRecord`, for a step that was never finalized
  unfoldable pub unreached_step_record :
      BatchStep Mouse Condition → ℕ → StepStatus → BatchStepRecord
  unreached_step_record step index status = record (bare_record index 0 (kind_of step) status) {
    no_wait = no_wait_of step;
  }

abbrev pub is_completed : StepStatus → Bool
is_completed completed = true
is_completed _ = false

abbrev pub is_failed : StepStatus → Bool
is_failed failed = true
is_failed _ = false

abbrev pub is_not_run : StepStatus → Bool
is_not_run not_run = true
is_not_run _ = false

abbrev pub is_wait : StepKind → Bool
is_wait wait_kind = true
is_wait _ = false

-- `steps.filter((record) => record.status === 'completed').length`
unfoldable pub count_completed : List BatchStepRecord → ℕ
count_completed [] = 0
count_completed (r ∷ records) =
    let rest = count_completed records in if is_completed r.status then suc rest else rest

-- `steps.filter((record) => record.status === 'failed').map((record) => record.index)`
unfoldable pub failed_of : List BatchStepRecord → List ℕ
failed_of [] = []
failed_of (r ∷ records) =
    let rest = failed_of records in if is_failed r.status then r.index ∷ rest else rest
