-- ===== src/EventLog/Open.antt =====
-- `EventLog.open` of src/host/eventLog.ts. The size of the file and its text are what `stat` and
-- `readFile` give.
use agent_tty.Prelude.{
  ℕ, ◌+◌, Bool, true, false, not, ◌&&◌, Option, none, some, is_some, List, [], ◌∷◌, length, ltb,
  leb, ◌==◌, if◌then◌else◌, String, Result, ok, invariant, ◌>>=◌, ◌>>◌,
}
use agent_tty.EventLog.Record.{EventRecord}
use agent_tty.EventLog.Codec.{max_event_log_size, assert_event_log_size, find_event_log_stop}
use agent_tty.EventLog.Store.{
  EventLog, max_event_buffer_entries, event_log_tail_reserve_bytes, event_log_tail_reserve_entries,
}
use agent_tty.EventLog.Content.{LineReader, LogFile, parse_event_log_content}

-- `deriveNextSeq`
unfoldable pub derive_next_seq : List EventRecord → ℕ
derive_next_seq [] = 0
derive_next_seq (r ∷ []) = r.seq + 1
derive_next_seq (r ∷ next ∷ records) = derive_next_seq (next ∷ records)

pub record EventLogOptions : Type 0 where
  pub max_bytes : Option ℕ
  pub max_entries : Option ℕ

-- `options.maxBytes ?? MAX_EVENT_LOG_SIZE`
abbrev pub or_default : Option ℕ → ℕ → ℕ
or_default none default = default
or_default (some n) default = n

-- The log of the constructor, once its invariants hold. Its writes are none yet.
abbrev pub opened : List EventRecord → ℕ → ℕ → ℕ → EventLog
opened records size max_bytes max_entries = record {
  next_seq = derive_next_seq records;
  file_bytes = size;
  max_bytes = max_bytes;
  max_entries = max_entries;
  event_buffer = records;
  stopped = is_some (find_event_log_stop records);
  is_closed = false;
  pending = [];
  rejected = [];
  poisoned = false;
  file = records;
  torn = none;
  file_size = size;
}

-- the constructor
unfoldable pub construct : EventLog → Result String EventLog
construct s = do
  invariant (ltb event_log_tail_reserve_bytes s.max_bytes && leb s.max_bytes max_event_log_size)
      "maxBytes must leave room beyond the tail reserve and must not exceed MAX_EVENT_LOG_SIZE"
  invariant
      (ltb event_log_tail_reserve_entries s.max_entries
        && leb s.max_entries max_event_buffer_entries)
      "maxEntries must leave room beyond the tail reserve and must not exceed MAX_EVENT_BUFFER_ENTRIES"
  invariant (s.next_seq == length s.event_buffer) "nextSeq must match buffered event count"
  ok s

abbrev pub holds_none : List EventRecord → Bool
holds_none [] = true
holds_none (r ∷ records) = false

module _ {V : Type 0} (reader : LineReader V) where
  -- An empty file is not read.
  abbrev pub read_existing : LogFile → Result String (List EventRecord)
  read_existing file =
      if ltb 0 file.size then parse_event_log_content reader file.content else ok []

  -- `open`. The source's `size > maxBytes - reserve` is a signed comparison; the summand stands on the
  -- other side here.
  unfoldable pub open_log : LogFile → EventLogOptions → Result String EventLog
  unfolding construct derive_next_seq assert_event_log_size parse_event_log_content
      find_event_log_stop
  open_log file options =
      let max_bytes = or_default options.max_bytes max_event_log_size in
      let max_entries = or_default options.max_entries max_event_buffer_entries in
      do
        assert_event_log_size file.size
        records ← read_existing file
        invariant
            (not (holds_none records && ltb max_bytes (file.size + event_log_tail_reserve_bytes)))
            "event log holds no record, and its bytes leave no room for the tail reserve"
        construct (opened records file.size max_bytes max_entries)
