-- ===== src/Batch/Refinement.antt =====
-- src/batch/executor.ts: the loop of `executeBatch` against the direct description of a batch.
use agent_tty.Prelude.{
  ℕ, ◌+◌, ◌≡◌, refl, sym, ap, ap₂, ◌∙◌, Bool, true, false, not, ◌&&◌, Option, none, List, [], ◌∷◌,
  ◌++◌, append-nil, append_assoc, Bool-cases, inl, inr,
}
use agent_tty.Batch.Step.{BatchStep, BatchStepRecord, is_failed, count_completed, failed_of}
use agent_tty.Batch.Driver.{StepDriver}
use agent_tty.Batch.Execute.{
  Progress, no_progress, finalize, next_baseline, settle_record, attempt, execute_from,
  execute_batch, result_of,
}
use agent_tty.Batch.Outcome.{
  Counts, not_run_records, batch_records, execute_from-nil, execute_from-round, execute_from-Counts,
  execute_from_stopped, step_round_running,
}

settle_record-steps :
    (keep_going : Bool) (r : BatchStepRecord) (p : Progress)
    → (settle_record keep_going r p).steps ≡ p.steps ++ r ∷ []
unfolding settle_record finalize
settle_record-steps keep_going r p = refl

settle_record-baseline :
    (keep_going : Bool) (r : BatchStepRecord) (p : Progress)
    → (settle_record keep_going r p).last_input_seq ≡ next_baseline r p.last_input_seq
unfolding settle_record finalize
settle_record-baseline keep_going r p = refl

settle_record-stopped :
    (keep_going : Bool) (r : BatchStepRecord) (p : Progress)
    → p.stopped ≡ false
    → (settle_record keep_going r p).stopped ≡ (is_failed r.status && not keep_going)
unfolding settle_record finalize
settle_record-stopped keep_going r p h = rw h

no_records-count : 0 ≡ count_completed []
unfolding count_completed
no_records-count = refl

no_records-failed : [] ≡ failed_of []
unfolding failed_of
no_records-failed = refl

module _ {W Mouse Condition : Type 0} (driver : StepDriver W Mouse Condition)
    (keep_going : Bool) where
  -- One step of the direct description.
  batch_records-nil :
      (index : ℕ) (baseline : Option ℕ) (w : W)
      → batch_records driver keep_going [] index baseline w ≡ ([], w)
  unfolding batch_records
  batch_records-nil index baseline w = refl

  batch_records_stops :
      (step : BatchStep Mouse Condition) (plan : List (BatchStep Mouse Condition)) (index : ℕ)
      (baseline : Option ℕ) (w : W)
      → (is_failed (attempt driver step index baseline w).0.status && not keep_going) ≡ true
      → batch_records driver keep_going (step ∷ plan) index baseline w ≡ (
        (attempt driver step index baseline w).0 ∷ not_run_records plan (index + 1),
        (attempt driver step index baseline w).1,
      )
  unfolding batch_records
  batch_records_stops step plan index baseline w h = rw h

  batch_records_goes_on :
      (step : BatchStep Mouse Condition) (plan : List (BatchStep Mouse Condition)) (index : ℕ)
      (baseline : Option ℕ) (w : W)
      → (is_failed (attempt driver step index baseline w).0.status && not keep_going) ≡ false
      → batch_records driver keep_going (step ∷ plan) index baseline w ≡ (
          let tried = attempt driver step index baseline w in
          let rest =
            batch_records driver keep_going plan
              (index + 1)
              (next_baseline tried.0 baseline)
              tried.1 in
          (tried.0 ∷ rest.0, rest.1))
  unfolding batch_records
  batch_records_goes_on step plan index baseline w h = rw h

  -- From a batch that has not stopped the loop does what the direct description does.
  execute_from_lem :
      (plan : List (BatchStep Mouse Condition)) (index : ℕ) (p : Progress) (w : W)
      → p.stopped ≡ false
      → ((execute_from driver keep_going plan index p w).1
          ≡ (batch_records driver keep_going plan index p.last_input_seq w).1)
        × ((execute_from driver keep_going plan index p w).0.steps
            ≡ p.steps ++ (batch_records driver keep_going plan index p.last_input_seq w).0)
  execute_from_lem [] index p w h =
      let direct = batch_records-nil index p.last_input_seq w in
      let loop = execute_from-nil driver keep_going index p w in
      (
        ap (λ z. z.1) loop ∙ sym (ap (λ z. z.1) direct),
        ap (λ z. z.0.steps) loop ∙ sym (ap (λ z. p.steps ++ z.0) direct ∙ append-nil p.steps),
      )
  execute_from_lem (step ∷ plan) index p w h =
      let r = (attempt driver step index p.last_input_seq w).0 in
      let w' = (attempt driver step index p.last_input_seq w).1 in
      let p' = settle_record keep_going r p in
      let round =
        execute_from-round driver keep_going step plan index p w p' w'
          (step_round_running driver keep_going step index p w h) in
      let records = settle_record-steps keep_going r p in
      elim (Bool-cases (is_failed r.status && not keep_going)) [
        | inl stops ↦
            let rest =
              execute_from_stopped driver keep_going plan (index + 1) p' w'
                (settle_record-stopped keep_going r p h ∙ stops) in
            let direct = batch_records_stops step plan index p.last_input_seq w stops in
            (
              ap (λ z. z.1) round ∙ rest.0 ∙ sym (ap (λ z. z.1) direct),
              ap (λ z. z.0.steps) round
                  ∙ rest.1
                  ∙ ap (λ l. l ++ not_run_records plan (index + 1)) records
                  ∙ append_assoc p.steps (r ∷ []) (not_run_records plan (index + 1))
                  ∙ sym (ap (λ z. p.steps ++ z.0) direct),
            )
        | inr goes_on ↦
            let baseline = settle_record-baseline keep_going r p in
            let rest =
              execute_from_lem plan (index + 1) p' w'
                (settle_record-stopped keep_going r p h ∙ goes_on) in
            let behind = λ (o : Option ℕ). batch_records driver keep_going plan (index + 1) o w' in
            let direct = batch_records_goes_on step plan index p.last_input_seq w goes_on in
            (
              ap (λ z. z.1) round
                  ∙ rest.0
                  ∙ ap (λ o. (behind o).1) baseline
                  ∙ sym (ap (λ z. z.1) direct),
              ap (λ z. z.0.steps) round
                  ∙ rest.1
                  ∙ ap (λ o. p'.steps ++ (behind o).0) baseline
                  ∙ ap (λ l. l ++ (behind (next_baseline r p.last_input_seq)).0) records
                  ∙ append_assoc p.steps (r ∷ []) (behind (next_baseline r p.last_input_seq)).0
                  ∙ sym (ap (λ z. p.steps ++ z.0) direct),
            )
      ]

  result_of-eq :
      (p : Progress) (records : List BatchStepRecord)
      → p.steps ≡ records
      → Counts p
      → result_of p ≡ (record {
        steps = records;
        completed_count = count_completed records;
        failed_indices = failed_of records;
      })
  result_of-eq p records e c = rw (c.completed, c.failures, e) refl

  -- The result of a batch is the direct description's: its records, the count of the completed ones
  -- and the indices of the failed ones, in the world that the direct description ends in.
  pub execute_batch_lem :
      (plan : List (BatchStep Mouse Condition)) (w : W)
      → execute_batch driver keep_going plan w ≡ (
          let direct = batch_records driver keep_going plan 0 none w in
          (
            record {
              steps = direct.0;
              completed_count = count_completed direct.0;
              failed_indices = failed_of direct.0;
            },
            direct.1,
          ))
  unfolding execute_batch
  execute_batch_lem plan w =
      let same = execute_from_lem plan 0 no_progress w refl in
      let counts =
        execute_from-Counts driver keep_going plan 0 no_progress w
          (record { completed = no_records-count; failures = no_records-failed }) in
      ap₂ (λ a b. (a, b)) (result_of-eq _ _ same.1 counts) same.0
