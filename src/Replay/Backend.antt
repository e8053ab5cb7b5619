-- ===== src/Replay/Backend.antt =====
-- The replay of events into a terminal: `iterateInRangeReplayEvents` of
-- src/renderer/replayEvents.ts, `replayTo` of src/renderer/libghosttyVt/backend.ts, and
-- `replayInSlices` of src/renderer/replaySlices.ts. The native terminal is a parameter: what it does
-- with output and with a resize. The current size that the backend keeps beside the terminal, and
-- takes again from its snapshot, is left out. A throw ends the replay, and the state that it leaves is not
-- followed.
use agent_tty.Prelude.{
  Failure, assertion, out_of_fuel, ℕ, zero, suc, ◌+◌, ◌-◌, Bool, true, false, ◌&&◌, Option, none,
  some, List, [], ◌∷◌, ◌++◌, Text, length, take, drop, leb, ltb, ◌==◌, text_eq, if◌then◌else◌,
  Result, ok, err, ◌>>=◌, ◌>>◌, invariant,
}
use agent_tty.EventLog.Record.{EventRecord, Payload, output, resize}
use agent_tty.Replay.Seq.{ReplaySeq, at_most, count_events_through}
use agent_tty.Replay.Slices.{Millis, slice_end, next_slice_size, first_slice_events}

pub record ReplayInput : Type 0 where
  pub session_id : Text
  pub initial_cols : ℕ
  pub initial_rows : ℕ
  pub events : List EventRecord
  pub target_seq : ReplaySeq

-- The state of a booted `LibghosttyVtBackend`; `last_applied_seq` is -1 before the first event.
pub record Backend (T : Type 0) : Type 0 where
  pub session_id : Text
  pub terminal : T
  pub initial_size : Option (ℕ × ℕ)
  pub last_applied_seq : ReplaySeq
  pub latest_replay_input : Option ReplayInput

-- `a <= b`
abbrev pub seq_le : ReplaySeq → ReplaySeq → Bool
seq_le none b = true
seq_le (some a) b = at_most a b

module _ {T : Type 0} (feed : Text → T → T) (resize_to : ℕ → ℕ → T → T) where
  -- One event of the replay: only output and resizes reach the terminal.
  unfoldable pub apply_event : Payload → T → Result Failure T
  apply_event (output text) t = ok (feed text t)
  apply_event (resize cols rows) t =
      invariant (ltb 0 cols && ltb 0 rows) (assertion "resize event size must be positive")
      >> ok (resize_to cols rows t)
  apply_event _ t = ok t

  -- The loop of `replayTo` over `iterateInRangeReplayEvents`: events up to `applied` are skipped, the
  -- first one past `target` ends the loop, and every event must come after the one before it.
  unfoldable pub replay_loop :
      ReplaySeq
      → ReplaySeq
      → ReplaySeq
      → List EventRecord
      → T
      → ReplaySeq
      → Result Failure (T × ReplaySeq)
  unfolding apply_event
  replay_loop target applied previous [] t highest = ok (t, highest)
  replay_loop target applied previous (r ∷ records) t highest = elim (at_most r.seq previous) [
    | true ↦ err (assertion "replay events must be ordered by strictly increasing seq values")
    | false ↦ elim (at_most r.seq applied) [
      | true ↦ replay_loop target applied (some r.seq) records t highest
      | false ↦ elim (at_most r.seq target) [
        | false ↦ ok (t, highest)
        | true ↦ apply_event r.payload t >>= λ t'.
            replay_loop target applied (some r.seq) records t' (some r.seq)
      ]
    ]
  ]

  -- The terminal takes the size of the session at the first replay; a later one must name the same.
  unfoldable pub take_initial_size : ℕ → ℕ → Backend T → Result Failure (Backend T)
  take_initial_size cols rows b = elim b.initial_size [
    | none ↦
        ok
          (record b { terminal = resize_to cols rows b.terminal; initial_size = some (cols, rows) })
    | some (c, r) ↦
        invariant (c == cols && r == rows) (assertion "replay input initial dimensions changed")
        >> ok b
  ]

  abbrev pub or_target : ReplaySeq → ReplaySeq → ReplaySeq
  or_target none target = target
  or_target (some seq) target = some seq

  -- `replayTo`, and the `lastSeq` that it returns
  unfoldable pub replay_to : ReplayInput → Backend T → Result Failure (Backend T × ReplaySeq)
  replay_to input b = do
    invariant (text_eq input.session_id b.session_id)
        (assertion "replay input session does not match backend session")
    invariant (ltb 0 input.initial_cols) (assertion "replay input initialCols must be positive")
    invariant (ltb 0 input.initial_rows) (assertion "replay input initialRows must be positive")
    invariant (seq_le b.last_applied_seq input.target_seq)
        (assertion "stateful backend cannot rewind")
    sized ← take_initial_size input.initial_cols input.initial_rows b
    (t, highest) ←
        replay_loop input.target_seq b.last_applied_seq none input.events sized.terminal
          b.last_applied_seq
    let last = or_target highest input.target_seq
    ok (
      record sized { terminal = t; last_applied_seq = last; latest_replay_input = some input },
      last,
    )

  -- The `while` loop of `replayInSlices`, on fuel. `elapsed` gives the time that each slice took, and
  -- `reported` collects what `onReplayed` is given.
  unfoldable pub slices_loop :
      ℕ
      → ReplayInput
      → (ℕ → Millis)
      → ℕ
      → ℕ
      → ℕ
      → ℕ
      → ℕ
      → Backend T
      → List ReplaySeq
      → Result Failure (Backend T × List ReplaySeq)
  slices_loop zero input elapsed round end next size stop b reported = err out_of_fuel
  slices_loop (suc fuel) input elapsed round end next size stop b reported = elim (ltb stop end) [
    | false ↦ ok (b, reported)
    | true ↦ do
      (b', last) ←
          replay_to (record input { events = take (stop - next) (drop next input.events) }) b
      reached ← count_events_through input.events last
      invariant (leb stop reached && leb reached end)
          (assertion "a replay slice must end at its last event or at the backend position")
      size' ← (if stop - next == size then next_slice_size size (elapsed round) else ok size)
      stop' ← slice_end input.events reached end size'
      slices_loop fuel input elapsed (round + 1) end reached size' stop' b' (reported ++ last ∷ [])
  ]

  -- `replayInSlices`, from the position where the caller last saw the backend.
  unfoldable pub replay_in_slices :
      ReplayInput
      → ReplaySeq
      → (ℕ → Millis)
      → Backend T
      → Result Failure (Backend T × List ReplaySeq)
  replay_in_slices input applied_seq elapsed b = do
    end ← count_events_through input.events input.target_seq
    next ← count_events_through input.events applied_seq
    stop ← slice_end input.events next end first_slice_events
    (b', reported) ←
        slices_loop (length input.events + 1) input elapsed 0 end next first_slice_events stop b []
    (b'', last) ← replay_to input b'
    ok (b'', reported ++ last ∷ [])
