-- ===== src/Replay/Refinement.antt =====
-- `replayInSlices` of src/renderer/replaySlices.ts: where it ends.
use agent_tty.Prelude.{
  ℕ, zero, suc, ◌+◌, ◌-◌, ◌≤◌, ◌<◌, ◌≡◌, refl, ap, sym, ◌∙◌, true, List, [], ◌∷◌, ◌++◌,
  append_assoc, length, length-append, length-take, length-drop, take, drop, ltb, ltb→lt,
  Bool-cases, inl, inr, ok, Text, arith,
}
use agent_tty.Replay.Seq.{
  ReplaySeq, count_at_most, count_at_most-le, count_events_through, count_events_through_lem,
}
use agent_tty.Replay.Slices.{Millis, slice_end, first_slice_events}
use agent_tty.Replay.Backend.{
  ReplayInput, Backend, seq_le, replay_to, slices_loop, replay_in_slices,
}
use agent_tty.Replay.Positions.{take-AllWithin, length-le-count, count_at_most_mono}
use agent_tty.Replay.OneSlice.{SliceDone}
use agent_tty.Replay.InSlices.{
  IsLog, SliceStop, slice_stops, next_size, around_slice, some_slice, loop_ends, loop_goes_on,
}

module _ {T : Type 0} (feed : Text → T → T) (resize_to : ℕ → ℕ → T → T) (input : ReplayInput)
    (elapsed : ℕ → Millis) (log : IsLog input.events) (b' : Backend T) (last : ReplaySeq) where
  -- A slice between two positions of the log, where the replay of the whole log succeeds.
  slice_between :
      (next stop : ℕ) (b : Backend T)
      → next < stop
      → stop ≤ count_at_most input.target_seq input.events
      → next ≤ count_at_most b.last_applied_seq input.events
      → replay_to feed resize_to input b ≡ ok (b', last)
      → SliceDone feed resize_to input
          (take next input.events)
          (take (stop - next) (drop next input.events))
          b
          (b', last)
  slice_between next stop b lt inside behind h =
      let events = input.events in
      let all = count_at_most-le input.target_seq events in
      some_slice feed resize_to input (take next events) (take (stop - next) (drop next events))
        (drop (stop - next) (drop next events)) b b' last
        (omega (arith, length-take (stop - next) (drop next events), length-drop next events))
        (around_slice next (stop - next) events) log.sorted
        (take-AllWithin b.last_applied_seq 0 0 next events log.sorted (omega arith))
        (take-AllWithin input.target_seq 0 next (stop - next) events log.sorted (omega arith)) h

  -- Behind a slice the backend holds it.
  stop-le-reached :
      (next stop : ℕ) (b : Backend T)
      → next < stop
      → stop ≤ length input.events
      → (done : SliceDone feed resize_to input
          (take next input.events)
          (take (stop - next) (drop next input.events))
          b
          (b', last))
      → stop ≤ count_at_most done.after.last_applied_seq input.events
  stop-le-reached next stop b lt inside done =
      let events = input.events in
      let pre = take next events in
      let slice = take (stop - next) (drop next events) in
      let post = drop (stop - next) (drop next events) in
      let whole = around_slice next (stop - next) events ∙ sym (append_assoc pre slice post) in
      omega (
        arith,
        length-le-count done.after.last_applied_seq (pre ++ slice) post done.held,
        ap (count_at_most done.after.last_applied_seq) whole,
        length-append pre slice,
        length-take next events,
        length-take (stop - next) (drop next events),
        length-drop next events,
      )

  slices_loop_lem :
      (fuel round next size stop : ℕ) (b : Backend T) (reported : List ReplaySeq)
      → count_at_most input.target_seq input.events - next < fuel
      → 0 < size
      → SliceStop input.events next (count_at_most input.target_seq input.events) size stop
      → next ≤ count_at_most b.last_applied_seq input.events
      → replay_to feed resize_to input b ≡ ok (b', last)
      → (after : Backend T) × (progress : List ReplaySeq) × (slices_loop feed resize_to fuel input
            elapsed round
            (count_at_most input.target_seq input.events)
            next
            size
            stop
            b
            reported
          ≡ ok (after, progress))
        × (replay_to feed resize_to input after ≡ ok (b', last))
  slices_loop_lem zero round next size stop b reported enough pos stops behind h =
      absurd (omega arith)
  slices_loop_lem (suc fuel) round next size stop b reported enough pos stops behind h =
      let events = input.events in
      let end = count_at_most input.target_seq events in
      elim (Bool-cases (ltb stop end)) [
        | inr ended ↦ (
          b,
          reported,
          loop_ends feed resize_to input elapsed fuel round end next size stop b reported ended,
          h,
        )
        | inl goes ↦
            let lt = ltb→lt stop end goes in
            let done = slice_between next stop b (stops.goes lt) (omega arith) behind h in
            let l = done.after.last_applied_seq in
            let reached = count_at_most l events in
            let past =
              stop-le-reached next stop b (stops.goes lt)
                (omega (arith, count_at_most-le input.target_seq events)) done in
            let within = count_at_most_mono l input.target_seq events done.within in
            let (size', sized, pos') = next_size (stop - next) size (elapsed round) pos in
            let (stop', stops') =
              slice_stops events reached end size' pos'
                (count_at_most-le input.target_seq events) in
            let (after, progress, runs, rest) =
              slices_loop_lem fuel (round + 1) reached size' stop' done.after (reported ++ l ∷ [])
                (omega (arith, stops.goes lt)) pos' stops' (omega arith) done.goes_on in
            (
              after,
              progress,
              loop_goes_on feed resize_to input elapsed fuel round end next size stop b reported
                    done.after l reached size' stop' goes done.runs
                    (count_events_through_lem events l 0 log.sorted log.small) (ground arith)
                    (ground arith) sized stops'.runs
                  ∙ runs,
              rest,
            )
      ]

  -- The steps of `replayInSlices`, each with what it gives.
  steps_in_slices :
      (applied_seq : ReplaySeq) (b after : Backend T) (end next stop : ℕ)
      (progress : List ReplaySeq)
      → count_events_through input.events input.target_seq ≡ ok end
      → count_events_through input.events applied_seq ≡ ok next
      → slice_end input.events next end first_slice_events ≡ ok stop
      → slices_loop feed resize_to
          (length input.events + 1)
          input
          elapsed
          0
          end
          next
          first_slice_events
          stop
          b
          []
        ≡ ok (after, progress)
      → replay_to feed resize_to input after ≡ ok (b', last)
      → replay_in_slices feed resize_to input applied_seq elapsed b ≡ ok (b', progress ++ last ∷ [])
  unfolding replay_in_slices
  steps_in_slices applied_seq b after end next stop progress ends starts stops loops finishes =
      rw (ends, starts, stops, loops, finishes) refl

  -- On a sorted log of at most 2 ^ 31 events, from a position of the caller at or before the
  -- backend's: where `replayTo` succeeds, so does `replayInSlices` within its fuel, whatever times
  -- are measured; it leaves the backend as `replayTo` does, and the last position that it reports is
  -- the one that `replayTo` returns.
  pub replay_in_slices_lem :
      (applied_seq : ReplaySeq) (b : Backend T)
      → seq_le applied_seq b.last_applied_seq ≡ true
      → replay_to feed resize_to input b ≡ ok (b', last)
      → (progress : List ReplaySeq) × (replay_in_slices feed resize_to input applied_seq elapsed b
          ≡ ok (b', progress ++ last ∷ []))
  replay_in_slices_lem applied_seq b behind h =
      let events = input.events in
      let end = count_at_most input.target_seq events in
      let next = count_at_most applied_seq events in
      let within = count_at_most-le input.target_seq events in
      let (stop, stops) = slice_stops events next end first_slice_events (omega arith) within in
      let (after, progress, loops, finishes) =
        slices_loop_lem (length events + 1) 0 next first_slice_events stop b [] (omega arith)
          (omega arith) stops (count_at_most_mono applied_seq b.last_applied_seq events behind) h in
      (
        progress,
        steps_in_slices applied_seq b after end next stop progress
            (count_events_through_lem events input.target_seq 0 log.sorted log.small)
            (count_events_through_lem events applied_seq 0 log.sorted log.small) stops.runs loops
            finishes,
      )
