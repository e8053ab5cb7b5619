-- ===== src/Replay/InSlices.antt =====
-- `replayInSlices` of src/renderer/replaySlices.ts against `replayTo`.
use native.Mathlib.Decide.{dec_lt}
use agent_tty.Prelude.{
  ℕ, suc, ◌+◌, ◌-◌, ◌≤◌, ◌<◌, ◌≡◌, refl, ap, sym, subst, ◌∙◌, true, false, List, [], ◌∷◌, ◌++◌,
  length, take, drop, take-append-drop, min, leb, ltb, ◌==◌, if◌then◌else◌, Bool-cases, inl, inr,
  ok, Text, arith,
}
use agent_tty.EventLog.Record.{EventRecord}
use agent_tty.Replay.Seq.{ReplaySeq, Ascending, count_events_through}
use agent_tty.Replay.Slices.{Millis, slice_end, slice_loop, next_slice_size, no_cost}
use agent_tty.Replay.SliceBounds.{slice_end_lem, slice_end_runs, next_slice_size_bounds}
use agent_tty.Replay.Backend.{ReplayInput, Backend, replay_to, slices_loop}
use agent_tty.Replay.Resume.{AllWithin}
use agent_tty.Replay.OneSlice.{with_events, SliceDone, one_slice}

-- A log that a host replays: sorted, and short enough for the binary search.
pub record IsLog (events : List EventRecord) : Type 0 where
  pub sorted : Ascending 0 events
  pub small : length events ≤ 2147483648

-- The end of a slice: at its start where nothing is left, else behind it.
pub record SliceStop (events : List EventRecord) (next end size stop : ℕ) : Type 0 where
  pub runs : slice_end events next end size ≡ ok stop
  pub goes : stop < end → next < stop

slice_end_done :
    (events : List EventRecord) (next end size : ℕ)
    → 0 < size
    → end ≤ next
    → slice_end events next end size ≡ ok next
slice_end_done events next end size pos past =
    let none_left : min end (next + size) - next ≡ 0 = omega arith in
    slice_end_runs events next end size pos
    ∙ ap (λ rounds. slice_loop rounds events next next no_cost) none_left
    ∙ unfold slice_loop in refl

pub slice_stops :
    (events : List EventRecord) (next end size : ℕ)
    → 0 < size
    → end ≤ length events
    → (stop : ℕ) × SliceStop events next end size stop
slice_stops events next end size pos inside = elim (dec_lt next end) [
  | yes lt ↦
      let (n, runs, slice) = slice_end_lem events next end size lt inside pos in
      (next + n, record { runs = runs; goes = λ _. omega (arith, slice.nonempty) })
  | no ge ↦ (
    next,
    record {
      runs = slice_end_done events next end size pos (omega arith);
      goes = λ h. absurd (omega arith);
    },
  )
]

pub next_size :
    (taken size : ℕ) (elapsed : Millis)
    → 0 < size
    → (size' : ℕ) × ((if taken == size then next_slice_size size elapsed else ok size) ≡ ok size')
      × (0 < size')
next_size taken size elapsed pos = elim (Bool-cases (taken == size)) [
  | inl full ↦
      let (n, runs, some_left, _, _) = next_slice_size_bounds size elapsed pos in
      (n, rw full runs, some_left)
  | inr part ↦ (size, rw part refl, pos)
]

-- The log around a slice.
pub around_slice :
    (next taken : ℕ) (events : List EventRecord)
    → events ≡ take next events ++ (take taken (drop next events) ++ drop taken (drop next events))
around_slice next taken events = sym (
    ap (take next events ++◌) (take-append-drop taken (drop next events))
    ∙ take-append-drop next events)

module _ {T : Type 0} (feed : Text → T → T) (resize_to : ℕ → ℕ → T → T) where
  pub some_slice :
      (input : ReplayInput) (pre slice post : List EventRecord) (b b' : Backend T)
      (last : ReplaySeq)
      → 0 < length slice
      → input.events ≡ pre ++ (slice ++ post)
      → Ascending 0 input.events
      → AllWithin b.last_applied_seq pre
      → AllWithin input.target_seq slice
      → replay_to feed resize_to input b ≡ ok (b', last)
      → SliceDone feed resize_to input pre slice b (b', last)
  some_slice input pre [] post b b' last pos parts a old within h = absurd (omega arith)
  some_slice input pre (r ∷ rest) post b b' last pos parts a old within h =
      one_slice feed resize_to input pre post r rest b b' last parts (subst (Ascending 0) parts a)
        old within h

  module _ (input : ReplayInput) (elapsed : ℕ → Millis) (fuel round end next size stop : ℕ)
      (b : Backend T) (reported : List ReplaySeq) where
    pub loop_ends :
        ltb stop end ≡ false
        → slices_loop feed resize_to (suc fuel) input elapsed round end next size stop b reported
          ≡ ok (b, reported)
    unfolding slices_loop
    loop_ends e = rw (e, slices_loop) refl

    pub loop_goes_on :
        (b' : Backend T) (last : ReplaySeq) (reached size' stop' : ℕ)
        → ltb stop end ≡ true
        → replay_to feed resize_to
            (with_events input (take (stop - next) (drop next input.events)))
            b
          ≡ ok (b', last)
        → count_events_through input.events last ≡ ok reached
        → leb stop reached ≡ true
        → leb reached end ≡ true
        → (if stop - next == size then next_slice_size size (elapsed round) else ok size) ≡ ok size'
        → slice_end input.events reached end size' ≡ ok stop'
        → slices_loop feed resize_to (suc fuel) input elapsed round end next size stop b reported
          ≡ slices_loop feed resize_to fuel input elapsed
              (round + 1)
              end
              reached
              size'
              stop'
              b'
              (reported ++ last ∷ [])
    unfolding slices_loop
    loop_goes_on b' last reached size' stop' e replayed counted past within sized stops =
        rw (e, slices_loop, replayed, counted, past, within, sized, stops) refl
