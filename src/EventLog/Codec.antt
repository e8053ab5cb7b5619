-- ===== src/EventLog/Codec.antt =====
-- src/storage/eventLogCodec.ts: the sequence check, the stop marker, and the scan of the records that
-- the lines of a file hold.
use agent_tty.Prelude.{
  ℕ, ◌+◌, ◌*◌, Bool, true, false, Option, none, some, List, [], ◌∷◌, ◌++◌, Text, codes, starts_with,
  decimal, skip_digits, is_digit, drop, length, ◌==◌, if◌then◌else◌, Result, ok, err, ◌>>◌,
  invariant, String, ltb,
}
use agent_tty.EventLog.Record.{EventRecord, Payload, marker, is_valid_payload}

abbrev pub max_event_log_size : ℕ
max_event_log_size = 50 * 1024 * 1024

-- `EventLogLimit`, and `EventLogStopReason` with its third value.
pub data EventLogLimit : Type 0 where
  bytes events : EventLogLimit

pub data EventLogStopReason : Type 0 where
  known : EventLogLimit → EventLogStopReason
  unknown : EventLogStopReason

pub record EventLogStop : Type 0 where
  pub reason : EventLogStopReason
  pub seq : ℕ

-- `EVENT_LOG_LIMIT_LABEL_PREFIX`
unfoldable pub event_log_limit_label_prefix : Text
event_log_limit_label_prefix = codes "agent-tty: event log limit reached"

abbrev pub limit_name : EventLogLimit → Text
limit_name bytes = codes "bytes"
limit_name events = codes "events"

-- `eventLogStopLabel`
unfoldable pub event_log_stop_label : EventLogLimit → ℕ → Text
event_log_stop_label reason limit =
    event_log_limit_label_prefix
    ++ (codes " ("
        ++ (decimal limit
            ++ (codes " " ++ (limit_name reason ++ codes "); later events are not recorded"))))

-- `assertEventLogSize`; the size is a number of bytes.
unfoldable pub assert_event_log_size : ℕ → Result String (Unit {0})
assert_event_log_size size =
    if ltb max_event_log_size size then err "event log file exceeds size limit" else ok tt

-- `assertSeqFollows`
unfoldable pub assert_seq_follows : Option ℕ → ℕ → Result String (Unit {0})
assert_seq_follows none seq = invariant (seq == 0) "first event log seq must be 0"
assert_seq_follows (some previous) seq =
    invariant (seq == previous + 1) "event log seq values must increase by 1 without gaps"

-- The loop of `assertContiguousSequence`, from the previous `seq`.
unfoldable pub assert_contiguous_from : Option ℕ → List EventRecord → Result String (Unit {0})
unfolding assert_seq_follows
assert_contiguous_from previous [] = ok tt
assert_contiguous_from previous (r ∷ records) =
    assert_seq_follows previous r.seq >> assert_contiguous_from (some r.seq) records

unfoldable pub assert_contiguous_sequence : List EventRecord → Result String (Unit {0})
unfolding assert_contiguous_from
assert_contiguous_sequence records = assert_contiguous_from none records

-- `EventRecordSchema.safeParse` of each record in turn
unfoldable pub check_records : List EventRecord → Result String (Unit {0})
unfolding is_valid_payload
check_records [] = ok tt
check_records (r ∷ records) =
    invariant (is_valid_payload r.payload) "event log record must match EventRecordSchema"
    >> check_records records

-- `validateEventRecords`
unfoldable pub validate_event_records : List EventRecord → Result String (List EventRecord)
validate_event_records records = do
  check_records records
  assert_contiguous_sequence records
  ok records

abbrev pub is_stop_label : Payload → Bool
is_stop_label (marker label) = starts_with event_log_limit_label_prefix label
is_stop_label _ = false

-- `isEventLogStopMarker`
unfoldable pub is_event_log_stop_marker : EventRecord → Bool
is_event_log_stop_marker r = is_stop_label r.payload

-- What the pattern reads past the digits.
abbrev pub read_limit_name : Text → EventLogStopReason
read_limit_name rest =
    if starts_with (codes " bytes)") rest
    then known bytes
    else if starts_with (codes " events)") rest
    then known events
    else unknown

-- `\d+`, then the name
abbrev pub read_digits : Text → EventLogStopReason
read_digits [] = unknown
read_digits (c ∷ text) = if is_digit c then read_limit_name (skip_digits text) else unknown

-- The match of `/^ \(\d+ (bytes|events)\)/`. A digit is no space, so `\d+` never gives back.
unfoldable pub read_limit : Text → EventLogStopReason
read_limit text = if starts_with (codes " (") text then read_digits (drop 2 text) else unknown

abbrev pub label_of : Payload → Text
label_of (marker label) = label
label_of _ = []

-- `stopOfMarker`
unfoldable pub stop_of_marker : EventRecord → EventLogStop
stop_of_marker r = record {
  reason = read_limit (drop (length event_log_limit_label_prefix) (label_of r.payload));
  seq = r.seq;
}

-- `findEventLogStop`: the first stop marker
unfoldable pub find_event_log_stop : List EventRecord → Option EventLogStop
find_event_log_stop [] = none
find_event_log_stop (r ∷ records) =
    if is_event_log_stop_marker r then some (stop_of_marker r) else find_event_log_stop records

-- `scanEventLog`, given the record that each non-blank line holds (`none` for a line that is not
-- the JSON of a record; the payload is checked here): the count of lines, and the first stop marker that a replay would
-- reach. The search ends at the marker, at the first bad line, and at the first gap in `seq`.
pub record Scan : Type 0 where
  pub entry_count : ℕ
  pub stop : Option EventLogStop
  pub previous_seq : Option ℕ
  pub searching : Bool

abbrev end_search : Scan → Scan
end_search s = record s { searching = false }

-- the body of the `try`, on a line that is a valid record
abbrev search_record : Scan → EventRecord → Result String (Unit {0}) → Scan
search_record s r (err message) = end_search s
search_record s r (ok _) =
    if is_event_log_stop_marker r
    then record s { previous_seq = some r.seq; stop = some (stop_of_marker r); searching = false }
    else record s { previous_seq = some r.seq }

abbrev search_line : Scan → Option EventRecord → Scan
search_line s none = end_search s
search_line s (some r) =
    if is_valid_payload r.payload
    then search_record s r (assert_seq_follows s.previous_seq r.seq)
    else end_search s

unfoldable pub read_line : Scan → Option EventRecord → Scan
unfolding assert_seq_follows is_valid_payload
read_line s line =
    let counted = record s { entry_count = s.entry_count + 1 } in
    if s.searching then search_line counted line else counted

unfoldable pub scan_lines : Scan → List (Option EventRecord) → Scan
unfolding read_line
scan_lines s [] = s
scan_lines s (line ∷ lines) = scan_lines (read_line s line) lines

-- What `scanEventLog` starts with.
abbrev pub start : Scan
start = record { entry_count = 0; stop = none; previous_seq = none; searching = true }

unfoldable pub scan_event_log : List (Option EventRecord) → Scan
unfolding scan_lines
scan_event_log = scan_lines start
