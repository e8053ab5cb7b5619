-- ===== src/EventLog/OpenTests.antt =====
-- Runs of `open`, `close` and the reading of a file, and the theorems on them at concrete logs. The
-- JSON is a small one: it knows output and markers, written at one time.
use agent_tty.Prelude.{
  inr, trim_start, trim_end, trim, byte_length, ℕ, ◌+◌, ◌-◌, ◌≡◌, refl, ap, ap₂, false, Option,
  none, some, is_some, List, [], ◌∷◌, ◌++◌, All, Text, codes, ok, arith, ◌==◌, if◌then◌else◌,
  concat,
}
use agent_tty.EventLog.Record.{EventRecord, Payload, output, marker, is_valid_payload}
use agent_tty.EventLog.Codec.{find_event_log_stop, assert_event_log_size}
use agent_tty.EventLog.Store.{
  written_whole, Prepared, enqueue, settle_write, run_rejection, rollback_buffered_events_from,
  EventLog,
}
use agent_tty.EventLog.Append.{
  queue_append, store_or_stop, prepare_record, find_stop_reason, record_stop, acknowledge_unstored,
  Action, write_settles, act_all, append,
}
use agent_tty.EventLog.Content.{
  LogFile, LineReader, parse_event_log_content, scan_event_log_file, record_of_line,
}
use agent_tty.EventLog.Open.{EventLogOptions, opened, construct, derive_next_seq, open_log}
use agent_tty.EventLog.Scanned.{scan_event_log_file_lem}
use agent_tty.EventLog.Stored.{IsStored}
use agent_tty.EventLog.Printed.{PrintsLines, line_bytes, parse_event_log_content_lem}
use agent_tty.EventLog.StoredRuns.{IsRecorded}
use agent_tty.EventLog.Invariant.{IsConsistent, IsPrefix}
use agent_tty.EventLog.Reopened.{file_of, limits_of, act_all-reopen}
use agent_tty.EventLog.Stoppable.{Acknowledges}
use agent_tty.EventLog.Opening.{IsBrief, append_acknowledged}
use agent_tty.EventLog.Tests.{now, fresh, fresh-IsConsistent, failing_run_with, say, event_at}

-- No unit of a text is a newline once it is shifted.
abbrev shift : Text → Text
shift [] = []
shift (c ∷ text) = (11 + c) ∷ shift text

abbrev units : Payload → Text
units (output text) = 11 ∷ shift text
units (marker label) = 12 ∷ shift label
units _ = 13 ∷ []

abbrev stringify : EventRecord → Text
stringify r = codes "{" ++ ((11 + r.seq) ∷ units r.payload) ++ codes "}"

-- Back again, but for the brace at the end.
abbrev unshift : Text → Text
unshift [] = []
unshift (c ∷ []) = []
unshift (c ∷ d ∷ text) = (c - 11) ∷ unshift (d ∷ text)

abbrev parse_json : Text → Option EventRecord
parse_json (brace ∷ seq ∷ tag ∷ text) =
    some (event_at (seq - 11) (if tag == 11 then output (unshift text) else marker (unshift text)))
parse_json _ = none

abbrev small_reader : LineReader EventRecord
small_reader = record { parse_json = parse_json; read_record = some }

abbrev IsSmall : Text → Payload → Type 0
IsSmall ts (output text) = ts ≡ now
IsSmall ts (marker label) = ts ≡ now
IsSmall ts _ = ⊥

shift_back : (n : ℕ) → 11 + n - 11 ≡ n
shift_back n = omega arith

unshift-shift : (text : Text) → unshift (shift text ++ codes "}") ≡ text
unshift-shift [] = refl
unshift-shift (c ∷ []) = ap (λ d. d ∷ []) (omega arith)
unshift-shift (c ∷ d ∷ text) = ap₂ (λ x xs. x ∷ xs) (shift_back c) (unshift-shift (d ∷ text))

small_reads_back :
    (seq : ℕ) (ts : Text) (payload : Payload)
    → IsSmall ts payload
    → let r : EventRecord = record { seq = seq; ts = ts; payload = payload } in
      record_of_line small_reader (stringify r) ≡ some r
small_reads_back seq ts (output text) plain = rw (shift_back seq, unshift-shift text, plain)
small_reads_back seq ts (marker label) plain = rw (shift_back seq, unshift-shift label, plain)
small_reads_back seq ts _ plain = absurd plain

small_shift_line : (text : Text) → All (λ c. (c == b'\n') ≡ false) (shift text ++ codes "}")
small_shift_line [] = (refl, tt)
small_shift_line (c ∷ text) = (ground arith, small_shift_line text)

small_units_line :
    (payload : Payload) → All (λ c. (c == b'\n') ≡ false) (units payload ++ codes "}")
small_units_line (output text) = (refl, small_shift_line text)
small_units_line (marker label) = (refl, small_shift_line label)
small_units_line _ = (refl, (refl, tt))

-- Of a line that is cut, the brace is left.
abbrev torn_text : EventRecord → ℕ → Text
torn_text r n = codes "{"

small_prints : PrintsLines small_reader stringify torn_text IsSmall
unfolding trim trim_start trim_end
small_prints = record {
  reads_back = λ r valid. small_reads_back r.seq r.ts r.payload valid.0;
  one_line = λ r. (refl, (ground arith, small_units_line r.payload));
  braces = λ r. ((11 + r.seq) ∷ units r.payload, refl);
  part_line = λ r n short. (refl, tt);
  part_broken = λ r n some_bytes short. ([], refl, refl);
}

abbrev small_bytes : EventRecord → ℕ
small_bytes = line_bytes small_reader stringify torn_text IsSmall

fresh-IsStored : IsStored small_bytes IsSmall fresh
fresh-IsStored = record {
  valid = tt;
  lines = refl;
  torn = tt;
  untorn = inr refl;
  waiting = tt;
  reserve = omega arith;
  size_limit = omega arith;
  reserve_entries = omega arith;
  entry_limit = omega arith;
}

-- The second write fails, with so many bytes of its line written.
abbrev failed : ℕ → EventLog
failed part = act_all small_bytes (failing_run_with part) fresh

abbrev second : Prepared
second = record { event = event_at 1 (output (codes "b")); size = 3 }

failed_untorn : (failed 0).torn ≡ none
unfolding act_all append queue_append store_or_stop enqueue prepare_record settle_write
    run_rejection is_valid_payload find_stop_reason rollback_buffered_events_from record_stop
    acknowledge_unstored byte_length
failed_untorn = refl

failing_run-IsRecorded : (part : ℕ) → All (IsRecorded small_bytes IsSmall) (failing_run_with part)
failing_run-IsRecorded part = (
  (refl, λ reason limit. refl),
  ((refl, λ reason limit. refl), (tt, (tt, ((refl, λ reason limit. refl), (tt, (tt, tt)))))),
)

act_all-reopen_example :
    (t : EventLog) × (open_log small_reader
        (file_of small_reader stringify torn_text IsSmall small_prints (failed 0))
        (limits_of small_reader stringify torn_text IsSmall small_prints (failed 0))
      ≡ ok t)
    × IsConsistent t
    × IsStored small_bytes IsSmall t
    × (t.event_buffer ≡ (failed 0).file)
    × IsPrefix t.event_buffer (failed 0).event_buffer
    × (t.stopped ≡ is_some (find_event_log_stop t.event_buffer))
act_all-reopen_example =
    act_all-reopen small_reader stringify torn_text IsSmall small_prints (failing_run_with 0) fresh
      fresh-IsConsistent fresh-IsStored (failing_run-IsRecorded 0) failed_untorn

-- Two lines in three chunks.
abbrev two_records : List EventRecord
two_records = event_at 0 (output (codes "a")) ∷ event_at 1 (marker (codes "b")) ∷ []

abbrev chunked : List Text
chunked =
    codes "{"
    ∷ (11 ∷ 11 ∷ 108 ∷ codes "}" ++ b'\n' ∷ codes "{")
    ∷ (12 ∷ 12 ∷ 109 ∷ codes "}" ++ b'\n' ∷ [])
    ∷ []

chunked_parses : parse_event_log_content small_reader (concat chunked) ≡ ok two_records
unfolding concat is_valid_payload
chunked_parses =
    parse_event_log_content_lem small_reader stringify torn_text IsSmall small_prints two_records
      ((refl, refl), ((refl, refl), tt)) (refl, (refl, tt))

scan_event_log_file_lem_example :
    ((scan_event_log_file small_reader chunked).entry_count ≡ 2)
    × ((scan_event_log_file small_reader chunked).stop ≡ find_event_log_stop two_records)
scan_event_log_file_lem_example =
    scan_event_log_file_lem small_reader chunked two_records chunked_parses

abbrev no_file : LogFile
no_file = record { size = 0; content = [] }

abbrev small_limits : EventLogOptions
small_limits = record { max_bytes = some 4300; max_entries = some 10 }

abbrev hundred : EventRecord → ℕ
hundred r = 100

hundred-IsBrief : IsBrief hundred now
hundred-IsBrief reason limit le = omega arith

no_file_opens : open_log small_reader no_file small_limits ≡ ok (opened [] 0 4300 10)
unfolding open_log construct derive_next_seq assert_event_log_size find_event_log_stop
no_file_opens = refl

abbrev three_lines : List Action
three_lines = say (codes "a") ∷ say (codes "b") ∷ write_settles written_whole ∷ say (codes "c") ∷ []

append_acknowledged_example :
    Acknowledges
      (append hundred now (output (codes "d")) (act_all hundred three_lines (opened [] 0 4300 10)))
unfolding is_valid_payload
append_acknowledged_example =
    append_acknowledged hundred small_reader no_file small_limits (opened [] 0 4300 10) three_lines
      now (output (codes "d")) no_file_opens
      (hundred-IsBrief, (hundred-IsBrief, (refl, (hundred-IsBrief, tt)))) hundred-IsBrief refl refl
