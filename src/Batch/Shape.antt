-- ===== src/Batch/Shape.antt =====
-- src/batch/executor.ts and src/batch/result.ts: what the records of a batch look like.
use agent_tty.Prelude.{
  ℕ, ◌≡◌, refl, Bool, true, not, ◌||◌, Option, arith, Bool-cases, inl, inr, ok, err, Result, Text,
}
use agent_tty.Batch.Step.{
  BatchStep, type_text, paste, send_keys, mouse, run, wait, StepKind, BatchStepRecord, kind_of,
  is_completed, is_failed, cli_error, unexpected, StepError, wait_kind, run_kind, type_kind,
  paste_kind, send_keys_kind, mouse_kind,
}
use agent_tty.Batch.Driver.{
  StepDriver, Call, run_step, run_run_step, run_wait_step, failed_record, caught, WaitResult, ◌>>=◌,
  recheck, continue, check_commandable,
}
use agent_tty.Batch.Execute.{attempt}

-- The index and the kind of a record, and whether it was reached.
abbrev pub Shape : Type 0
Shape = ℕ × StepKind

abbrev pub shape : BatchStepRecord → Shape
shape r = (r.index, r.kind)

-- A record that a step which was tried may leave.
pub record IsSettled (index : ℕ) (kind : StepKind) (r : BatchStepRecord) : Type 0 where
  pub shape : shape r ≡ (index, kind)
  pub status : (is_completed r.status || is_failed r.status) ≡ true

abbrev IsFine : {W : Type 0} → ℕ → StepKind → Result StepError BatchStepRecord × W → Type 0
IsFine index kind (ok r, w) = IsSettled index kind r
IsFine index kind (err e, w) = Unit {0}

>>=-IsFine :
    {W A : Type 0} (index : ℕ) (kind : StepKind) (m : Call W A) (f : A → Call W BatchStepRecord)
    (w : W)
    → ((a : A) (w' : W) → IsFine index kind (f a w'))
    → IsFine index kind ((m >>= f) w)
>>=-IsFine index kind m f w fine = continue-IsFine (m w)
  where
    continue-IsFine : (z : Result StepError _ × _) → IsFine index kind (continue z f)
    continue-IsFine (ok a, w') = fine a w'
    continue-IsFine (err e, w') = tt

recheck-IsFine :
    {W Mouse Condition : Type 0} (driver : StepDriver W Mouse Condition) (index started_at : ℕ)
    (baseline : Option ℕ) (result : WaitResult) (z : Result StepError (Unit {0}) × W)
    → IsFine index wait_kind (recheck driver index started_at baseline result z)
recheck-IsFine driver index started_at baseline result (ok _, w) = record {
  shape = refl;
  status = refl;
}
recheck-IsFine driver index started_at baseline result (err (cli_error code), w) = record {
  shape = refl;
  status = refl;
}
recheck-IsFine driver index started_at baseline result (err unexpected, w) = tt

module _ {W Mouse Condition : Type 0} (driver : StepDriver W Mouse Condition) where
  run_run_step-IsFine :
      (command : Text) (nw : Bool) (timeout : Option ℕ) (index started_at : ℕ) (w : W)
      → IsFine index run_kind (run_run_step driver command nw timeout index started_at w)
  unfolding run_run_step
  run_run_step-IsFine command nw timeout index started_at w =
      >>=-IsFine index run_kind (driver.run command nw timeout) _ w
        (λ result w'. record { shape = refl; status = ground arith })

  run_wait_step-IsFine :
      (condition : Condition) (timeout : Option ℕ) (index : ℕ) (baseline : Option ℕ)
      (started_at : ℕ) (w : W)
      → IsFine index wait_kind (run_wait_step driver condition timeout index baseline started_at w)
  unfolding run_wait_step
  run_wait_step-IsFine condition timeout index baseline started_at w =
      >>=-IsFine index wait_kind (check_commandable driver driver.assert_commandable) _ w (λ _ w'.
        >>=-IsFine index wait_kind (driver.wait condition baseline timeout) _ w' (λ result w''.
          elim (Bool-cases (result.timed_out || not result.matched)) [
            | inl h ↦ rw h (record { shape = refl; status = refl })
            | inr h ↦ rw h (
                recheck-IsFine driver index started_at baseline result
                  (check_commandable driver driver.assert_commandable w''))
          ]))

  run_step-IsFine :
      (step : BatchStep Mouse Condition) (index : ℕ) (baseline : Option ℕ) (started_at : ℕ) (w : W)
      → IsFine index (kind_of step) (run_step driver step index baseline started_at w)
  unfolding run_step
  run_step-IsFine (type_text text) index baseline started_at w =
      >>=-IsFine index type_kind (driver.type_text text) _ w
        (λ seq w'. record { shape = refl; status = refl })
  run_step-IsFine (paste text) index baseline started_at w =
      >>=-IsFine index paste_kind (driver.paste text) _ w
        (λ seq w'. record { shape = refl; status = refl })
  run_step-IsFine (send_keys keys) index baseline started_at w =
      >>=-IsFine index send_keys_kind (driver.send_keys keys) _ w
        (λ seq w'. record { shape = refl; status = refl })
  run_step-IsFine (mouse input) index baseline started_at w =
      >>=-IsFine index mouse_kind (driver.mouse input) _ w
        (λ result w'. record { shape = refl; status = refl })
  run_step-IsFine (run command nw timeout) index baseline started_at w =
      run_run_step-IsFine command nw timeout index started_at w
  run_step-IsFine (wait condition timeout) index baseline started_at w =
      run_wait_step-IsFine condition timeout index baseline started_at w

  caught-IsSettled :
      (step : BatchStep Mouse Condition) (index started_at : ℕ)
      (z : Result StepError BatchStepRecord × W)
      → IsFine index (kind_of step) z
      → IsSettled index (kind_of step) (caught driver step index started_at z).0
  unfolding failed_record
  caught-IsSettled step index started_at (ok r, w) fine = fine
  caught-IsSettled step index started_at (err e, w) fine = record { shape = refl; status = refl }

  -- A step that is tried is completed or failed, under its own index and kind.
  pub attempt-IsSettled :
      (step : BatchStep Mouse Condition) (index : ℕ) (baseline : Option ℕ) (w : W)
      → IsSettled index (kind_of step) (attempt driver step index baseline w).0
  unfolding attempt
  attempt-IsSettled step index baseline w =
      caught-IsSettled step index _ _ (run_step-IsFine step index baseline _ w)
