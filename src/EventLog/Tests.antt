-- ===== src/EventLog/Tests.antt =====
-- Runs of the writer and of the readers, and the theorems on the event log at concrete logs.
use agent_tty.Prelude.{
  ◌++◌, ℕ, ◌≡◌, ◌↔◌, refl, true, false, none, some, List, [], ◌∷◌, Text, codes, ok, arith,
}
use agent_tty.Session.Number.{pos}
use agent_tty.EventLog.Record.{EventRecord, Payload, output, exit, marker, is_valid_payload}
use agent_tty.EventLog.Codec.{
  bytes, known, event_log_stop_label, is_event_log_stop_marker, stop_of_marker,
  assert_contiguous_sequence,
}
use agent_tty.EventLog.Store.{
  EventLog, written_whole, written_part, enqueue, push, get_stop, settle_write, run_rejection,
  rollback_buffered_events_from,
}
use agent_tty.EventLog.Append.{
  append, queue_append, store_or_stop, find_stop_reason, prepare_record, prepare_stop, stop_flag,
  Action, append_record, write_settles, rejection_runs, act_all, record_stop, acknowledge_unstored,
}
use agent_tty.EventLog.Landed.{Durable, append_stops_durably, exit_after_run_durably}
use agent_tty.EventLog.Invariant.{IsConsistent, Contiguous}
use agent_tty.EventLog.Durable.{act_all-IsConsistent}
use agent_tty.EventLog.Reading.{assert_contiguous_sequence_iff}
use agent_tty.EventLog.Stop.{stop_of_marker-label, stop_at}

-- Every line takes 100 bytes.
abbrev line_bytes : EventRecord → ℕ
line_bytes r = 100

abbrev pub now : Text
now = codes "now"

abbrev pub fresh : EventLog
fresh = record {
  next_seq = 0;
  file_bytes = 0;
  max_bytes = 4300;
  max_entries = 10;
  event_buffer = [];
  stopped = false;
  is_closed = false;
  pending = [];
  rejected = [];
  poisoned = false;
  file = [];
  torn = none;
  file_size = 0;
}

pub fresh-IsConsistent : IsConsistent fresh
fresh-IsConsistent = ground arith

abbrev pub event_at : ℕ → Payload → EventRecord
event_at seq payload = record { seq = seq; ts = now; payload = payload }

abbrev pub say : Text → Action
say text = append_record now (output text)

-- Two records, of which the second write fails; a third append comes before its handlers run.
abbrev pub failing_run_with : ℕ → List Action
failing_run_with part =
    say (codes "a")
    ∷ say (codes "b")
    ∷ write_settles written_whole
    ∷ write_settles (written_part part)
    ∷ say (codes "c")
    ∷ rejection_runs
    ∷ write_settles written_whole
    ∷ []

abbrev failing_run : List Action
failing_run = failing_run_with 40

failing_run_keeps_file :
    (act_all line_bytes failing_run fresh).file ≡ event_at 0 (output (codes "a")) ∷ []
unfolding act_all append queue_append store_or_stop enqueue prepare_record settle_write
    run_rejection is_valid_payload find_stop_reason rollback_buffered_events_from record_stop
    acknowledge_unstored
failing_run_keeps_file = refl

act_all-IsConsistent_example : IsConsistent (act_all line_bytes failing_run fresh)
act_all-IsConsistent_example = act_all-IsConsistent line_bytes failing_run fresh fresh-IsConsistent

-- Two records fill the log up to its reserve.
abbrev pub full : EventLog
full = record fresh {
  next_seq = 2;
  file_bytes = 200;
  event_buffer = event_at 0 (output (codes "a")) ∷ event_at 1 (output (codes "b")) ∷ [];
  file = event_at 0 (output (codes "a")) ∷ event_at 1 (output (codes "b")) ∷ [];
  file_size = 200;
}

pub full-IsConsistent : IsConsistent full
full-IsConsistent = ground arith

assert_contiguous_sequence_iff_example :
    (assert_contiguous_sequence full.event_buffer ≡ ok tt) ↔ Contiguous 0 full.event_buffer
assert_contiguous_sequence_iff_example = assert_contiguous_sequence_iff full.event_buffer

abbrev stop_label : Text
stop_label = event_log_stop_label bytes 4300

stop_of_marker-label_example :
    (is_event_log_stop_marker (event_at 1 (marker stop_label)) ≡ true)
    × (stop_of_marker (event_at 1 (marker stop_label)) ≡ record { reason = known bytes; seq = 1 })
stop_of_marker-label_example = stop_of_marker-label bytes 4300 (event_at 1 (marker stop_label)) refl

append_stops_durably_example :
    ((append line_bytes now (output (codes "c")) full).0.stopped ≡ true)
    × ((append line_bytes now (output (codes "c")) full).1 ≡ ok 2)
    × (get_stop (append line_bytes now (output (codes "c")) full).0
        ≡ some (stop_at (known bytes) 2))
    × Durable 2
        (full.event_buffer ++ (prepare_stop line_bytes now bytes (stop_flag full)).event ∷ [])
        (append line_bytes now (output (codes "c")) full).0
unfolding is_valid_payload find_stop_reason prepare_record get_stop is_event_log_stop_marker
append_stops_durably_example =
    append_stops_durably line_bytes now (output (codes "c")) bytes full full-IsConsistent refl refl
      refl refl refl refl (omega arith) (omega arith) refl

abbrev filling_run : List Action
filling_run =
    say (codes "a")
    ∷ say (codes "b")
    ∷ write_settles written_whole
    ∷ say (codes "c")
    ∷ rejection_runs
    ∷ []

-- The log that a run fills to its reserve, in bytes, at three records.
abbrev roomy : EventLog
roomy = record fresh { max_bytes = 4400 }

abbrev filled : EventLog
filled = act_all line_bytes filling_run roomy

abbrev filled_and_stopped : EventLog
filled_and_stopped = push (prepare_stop line_bytes now bytes (stop_flag filled)) (stop_flag filled)

exit_after_run_durably_example :
    let u =
      append line_bytes now
        (exit (some (pos 0)) none)
        (append line_bytes now (output (codes "d")) filled).0 in
    (u.1 ≡ ok 4)
    × Durable 4
        ((filled.event_buffer ++ (prepare_stop line_bytes now bytes (stop_flag filled)).event ∷ [])
          ++ (prepare_record line_bytes now (exit (some (pos 0)) none) filled_and_stopped).event
            ∷ [])
        u.0
unfolding act_all append queue_append store_or_stop enqueue prepare_record settle_write
    run_rejection is_valid_payload find_stop_reason rollback_buffered_events_from record_stop
    acknowledge_unstored
exit_after_run_durably_example =
    exit_after_run_durably line_bytes filling_run now now (output (codes "d"))
      (exit (some (pos 0)) none) bytes roomy (ground arith) (λ running. (omega arith, omega arith))
      (refl, (refl, (tt, (refl, (tt, tt))))) refl refl refl refl refl refl refl refl refl
      (omega arith)
