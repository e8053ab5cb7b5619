-- ===== src/Replay/Tests.antt =====
-- Runs of the replay, and the theorems on it at a concrete log.
use agent_tty.Prelude.{
  ℕ, ◌+◌, ◌*◌, ◌≡◌, ◌≤◌, ◌<◌, refl, none, some, List, [], ◌∷◌, text_eq, ◌++◌, min, Text, codes, ok,
  arith, ◌>>=◌,
}
use agent_tty.EventLog.Record.{EventRecord, Payload, output, marker, resize}
use agent_tty.Replay.InSlices.{IsLog}
use agent_tty.Replay.Refinement.{replay_in_slices_lem}
use agent_tty.Replay.Seq.{ReplaySeq, count_events_through, count_at_most, count_events_through_lem}
use agent_tty.Replay.Slices.{Millis, slice_end, next_slice_size}
use agent_tty.Replay.SliceBounds.{slice_end_lem, next_slice_size_bounds, IsSlice}
use agent_tty.Replay.Backend.{
  ReplayInput, Backend, replay_to, replay_loop, apply_event, take_initial_size, replay_in_slices,
}

abbrev event_at : ℕ → Payload → EventRecord
event_at seq payload = record { seq = seq; ts = codes "now"; payload = payload }

abbrev log : List EventRecord
log =
    event_at 0 (output (codes "a"))
    ∷ event_at 1 (resize 100 30)
    ∷ event_at 2 (output (codes "b"))
    ∷ event_at 3 (marker (codes "m"))
    ∷ event_at 4 (output (codes "c"))
    ∷ []

-- A terminal that keeps what it was fed.
abbrev type_on : Text → Text → Text
type_on text screen = screen ++ text

abbrev keep : ℕ → ℕ → Text → Text
keep cols rows screen = screen

abbrev booted : Backend Text
booted = record {
  session_id = codes "s";
  terminal = [];
  initial_size = none;
  last_applied_seq = none;
  latest_replay_input = none;
}

abbrev through : ℕ → ReplayInput
through seq = record {
  session_id = codes "s";
  initial_cols = 80;
  initial_rows = 24;
  events = log;
  target_seq = some seq;
}

replays_up_to_target :
    (replay_to type_on keep (through 2) booted >>= λ z. ok z.0.terminal) ≡ ok (codes "ab")
unfolding replay_to replay_loop apply_event take_initial_size text_eq
replays_up_to_target = refl

count_events_through_lem_example :
    count_events_through log (some 2) ≡ ok (count_at_most (some 2) log)
count_events_through_lem_example =
    count_events_through_lem log (some 2) 0 (ground arith) (omega arith)

slice_end_lem_example :
    (n : ℕ) × (slice_end log 1 5 2 ≡ ok (1 + n)) × IsSlice log 1 (min 5 (1 + 2)) n
slice_end_lem_example = slice_end_lem log 1 5 2 (omega arith) (omega arith) (omega arith)

next_slice_size_bounds_example :
    (n : ℕ) × (next_slice_size 32 (record { num = 10; den = 1 }) ≡ ok n)
    × (0 < n)
    × (n ≤ 32 * 4)
    × (32 ≤ n * 4)
next_slice_size_bounds_example =
    next_slice_size_bounds 32 (record { num = 10; den = 1 }) (omega arith)

-- Where the replay up to the position 4 leaves the backend.
abbrev replayed : Backend Text
replayed = record {
  session_id = codes "s";
  terminal = codes "abc";
  initial_size = some (80, 24);
  last_applied_seq = some 4;
  latest_replay_input = some (through 4);
}

log-IsLog : IsLog log
log-IsLog = record { sorted = ground arith; small = omega arith }

abbrev quick : ℕ → Millis
quick round = record { num = 10; den = 1 }

replays_whole_log : replay_to type_on keep (through 4) booted ≡ ok (replayed, some 4)
unfolding replay_to replay_loop apply_event take_initial_size text_eq
replays_whole_log = refl

replay_in_slices_lem_example :
    (progress : List ReplaySeq) × (replay_in_slices type_on keep (through 4) none quick booted
      ≡ ok (replayed, progress ++ some 4 ∷ []))
replay_in_slices_lem_example =
    replay_in_slices_lem type_on keep (through 4) quick log-IsLog replayed (some 4) none booted refl
      replays_whole_log
