-- ===== src/Batch/Outcome.antt =====
-- What `executeBatch` of src/batch/executor.ts promises, by a direct description of a batch.
use agent_tty.Prelude.{
  ℕ, ◌+◌, ◌≡◌, refl, sym, subst, ap, ◌∙◌, Bool, true, false, not, ◌&&◌, Option, List, [], ◌∷◌, ◌++◌,
  append-nil, append_assoc, if◌then◌else◌, arith, Bool-cases, inl, inr,
}
use agent_tty.Batch.Step.{
  BatchStep, not_run, BatchStepRecord, unreached_step_record, is_completed, is_failed,
  count_completed, failed_of,
}
use agent_tty.Batch.Driver.{StepDriver}
use agent_tty.Batch.Execute.{
  Progress, finalize, next_baseline, settle_record, attempt, step_round, execute_from,
}

pub count_completed-append :
    (xs ys : List BatchStepRecord)
    → count_completed (xs ++ ys) ≡ count_completed xs + count_completed ys
unfolding count_completed
count_completed-append [] ys = omega arith
count_completed-append (x ∷ xs) ys = ground (arith, count_completed-append xs ys)

pub failed_of-append :
    (xs ys : List BatchStepRecord) → failed_of (xs ++ ys) ≡ failed_of xs ++ failed_of ys
unfolding failed_of
failed_of-append [] ys = refl
failed_of-append (x ∷ xs) ys = ground (arith, failed_of-append xs ys)

-- The counters say what the records do.
pub record Counts (p : Progress) : Type 0 where
  pub completed : p.completed_count ≡ count_completed p.steps
  pub failures : p.failed_indices ≡ failed_of p.steps

count_completed-one :
    (r : BatchStepRecord) → count_completed (r ∷ []) ≡ (if is_completed r.status then 1 else 0)
unfolding count_completed
count_completed-one r = ground arith

failed_of-one :
    (r : BatchStepRecord) → failed_of (r ∷ []) ≡ (if is_failed r.status then r.index ∷ [] else [])
unfolding failed_of
failed_of-one r = ground arith

finalize-Counts : (r : BatchStepRecord) (p : Progress) → Counts p → Counts (finalize r p)
unfolding finalize
finalize-Counts r p c = record {
  completed =
      ground (arith, c.completed, count_completed-append p.steps (r ∷ []), count_completed-one r);
  failures = ground (
    arith,
    c.failures,
    failed_of-append p.steps (r ∷ []),
    failed_of-one r,
    append-nil (failed_of p.steps),
  );
}

stop-Counts : (b : Bool) (p : Progress) → Counts p → Counts (record p { stopped = b })
stop-Counts b p c = record { completed = c.completed; failures = c.failures }

baseline-Counts :
    (o : Option ℕ) (p : Progress) → Counts p → Counts (record p { last_input_seq = o })
baseline-Counts o p c = record { completed = c.completed; failures = c.failures }

settle_record-Counts :
    (keep_going : Bool) (r : BatchStepRecord) (p : Progress)
    → Counts p
    → Counts (settle_record keep_going r p)
unfolding settle_record
settle_record-Counts keep_going r p c = stop-Counts _ _ (
    finalize-Counts r (record p { last_input_seq = next_baseline r p.last_input_seq })
      (baseline-Counts _ p c))

module _ {Mouse Condition : Type 0} where
  -- The records of the steps behind a failure.
  unfoldable pub not_run_records : List (BatchStep Mouse Condition) → ℕ → List BatchStepRecord
  not_run_records [] index = []
  not_run_records (step ∷ plan) index =
      unreached_step_record step index not_run ∷ not_run_records plan (index + 1)

module _ {W Mouse Condition : Type 0} (driver : StepDriver W Mouse Condition) where
  -- A batch, described directly: each step is tried in the world that the one before left, with the
  -- baseline that the records so far give; behind a failure that stops the batch nothing is tried.
  unfoldable pub batch_records :
      Bool → List (BatchStep Mouse Condition) → ℕ → Option ℕ → W → List BatchStepRecord × W
  batch_records keep_going [] index baseline w = ([], w)
  batch_records keep_going (step ∷ plan) index baseline w =
      let (r, w') = attempt driver step index baseline w in
      let rest = batch_records keep_going plan (index + 1) (next_baseline r baseline) w' in
      if is_failed r.status && not keep_going
      then (r ∷ not_run_records plan (index + 1), w')
      else (r ∷ rest.0, rest.1)

module _ {W Mouse Condition : Type 0} (driver : StepDriver W Mouse Condition)
    (keep_going : Bool) where
  -- One round, stopped and not.
  step_round_stopped :
      (step : BatchStep Mouse Condition) (index : ℕ) (p : Progress) (w : W)
      → p.stopped ≡ true
      → step_round driver keep_going step index p w
        ≡ (finalize (unreached_step_record step index not_run) p, w)
  unfolding step_round
  step_round_stopped step index p w h = rw h

  pub step_round_running :
      (step : BatchStep Mouse Condition) (index : ℕ) (p : Progress) (w : W)
      → p.stopped ≡ false
      → step_round driver keep_going step index p w ≡ (
        settle_record keep_going (attempt driver step index p.last_input_seq w).0 p,
        (attempt driver step index p.last_input_seq w).1,
      )
  unfolding step_round
  step_round_running step index p w h = rw h

  execute_from-cons :
      (step : BatchStep Mouse Condition) (plan : List (BatchStep Mouse Condition)) (index : ℕ)
      (p : Progress) (w : W)
      → execute_from driver keep_going (step ∷ plan) index p w ≡ (
          let round = step_round driver keep_going step index p w in
          execute_from driver keep_going plan (index + 1) round.0 round.1)
  unfolding execute_from
  execute_from-cons step plan index p w = refl

  -- The loop behind a round that is known.
  pub execute_from-round :
      (step : BatchStep Mouse Condition) (plan : List (BatchStep Mouse Condition)) (index : ℕ)
      (p : Progress) (w : W) (p' : Progress) (w' : W)
      → step_round driver keep_going step index p w ≡ (p', w')
      → execute_from driver keep_going (step ∷ plan) index p w
        ≡ execute_from driver keep_going plan (index + 1) p' w'
  execute_from-round step plan index p w p' w' e =
      execute_from-cons step plan index p w
      ∙ ap (λ round. execute_from driver keep_going plan (index + 1) round.0 round.1) e

  pub execute_from-nil :
      (index : ℕ) (p : Progress) (w : W) → execute_from driver keep_going [] index p w ≡ (p, w)
  unfolding execute_from
  execute_from-nil index p w = refl

  pub execute_from-Counts :
      (plan : List (BatchStep Mouse Condition)) (index : ℕ) (p : Progress) (w : W)
      → Counts p
      → Counts (execute_from driver keep_going plan index p w).0
  execute_from-Counts [] index p w c = subst (λ z. Counts z.0) (sym (execute_from-nil index p w)) c
  execute_from-Counts (step ∷ plan) index p w c = elim (Bool-cases p.stopped) [
    | inl h ↦
        subst (λ z. Counts z.0)
          (sym (execute_from-round step plan index p w _ _ (step_round_stopped step index p w h)))
          (execute_from-Counts plan (index + 1) _ w (finalize-Counts _ p c))
    | inr h ↦
        subst (λ z. Counts z.0)
          (sym (execute_from-round step plan index p w _ _ (step_round_running step index p w h)))
          (execute_from-Counts plan (index + 1) _ _ (settle_record-Counts keep_going _ p c))
  ]

  finalize-stopped : (r : BatchStepRecord) (p : Progress) → (finalize r p).stopped ≡ p.stopped
  unfolding finalize
  finalize-stopped r p = refl

  finalize-steps : (r : BatchStepRecord) (p : Progress) → (finalize r p).steps ≡ p.steps ++ r ∷ []
  unfolding finalize
  finalize-steps r p = refl

  not_run_records-cons :
      (step : BatchStep Mouse Condition) (plan : List (BatchStep Mouse Condition)) (index : ℕ)
      → not_run_records (step ∷ plan) index
        ≡ unreached_step_record step index not_run ∷ not_run_records plan (index + 1)
  unfolding not_run_records
  not_run_records-cons step plan index = refl

  not_run_records-nil :
      (index : ℕ) → not_run_records {Mouse = Mouse} {Condition = Condition} [] index ≡ []
  unfolding not_run_records
  not_run_records-nil index = refl

  -- Behind the stop the world is left alone, and every step is recorded as not run.
  pub execute_from_stopped :
      (plan : List (BatchStep Mouse Condition)) (index : ℕ) (p : Progress) (w : W)
      → p.stopped ≡ true
      → ((execute_from driver keep_going plan index p w).1 ≡ w)
        × ((execute_from driver keep_going plan index p w).0.steps
            ≡ p.steps ++ not_run_records plan index)
  execute_from_stopped [] index p w h = (
    ap (λ z. z.1) (execute_from-nil index p w),
    ap (λ z. z.0.steps) (execute_from-nil index p w)
        ∙ sym (ap (p.steps ++◌) (not_run_records-nil index) ∙ append-nil p.steps),
  )
  execute_from_stopped (step ∷ plan) index p w h =
      let r = unreached_step_record step index not_run in
      let rest =
        execute_from_stopped plan (index + 1) (finalize r p) w (finalize-stopped r p ∙ h) in
      let round =
        execute_from-round step plan index p w _ _ (step_round_stopped step index p w h) in
      (
        ap (λ z. z.1) round ∙ rest.0,
        ap (λ z. z.0.steps) round
            ∙ rest.1
            ∙ ap (◌++ not_run_records plan (index + 1)) (finalize-steps r p)
            ∙ append_assoc p.steps (r ∷ []) (not_run_records plan (index + 1))
            ∙ ap (p.steps ++◌) (sym (not_run_records-cons step plan index)),
      )
