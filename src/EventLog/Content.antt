-- ===== src/EventLog/Content.antt =====
-- src/storage/eventLogCodec.ts: the text of a log file, read as a whole and in chunks. `JSON.parse`
-- is a parameter, and so is what `EventRecordSchema` reads of a value, up to the check of the payload;
-- both give nothing where they fail.
use agent_tty.Prelude.{
  ℕ, Option, none, some, List, [], ◌∷◌, ◌++◌, Text, split, trim, Result, ok, err, ◌>>=◌, ◌>>◌,
  invariant, String,
}
use agent_tty.EventLog.Record.{EventRecord, is_valid_payload}
use agent_tty.EventLog.Codec.{
  assert_event_log_size, assert_contiguous_sequence, Scan, read_line, start,
}

-- `lines.map((line) => line.trim()).filter((line) => line.length > 0)`
abbrev pub add_line : Text → List Text → List Text
add_line [] lines = lines
add_line (c ∷ line) lines = (c ∷ line) ∷ lines

unfoldable pub trimmed_lines : List Text → List Text
unfolding trim
trimmed_lines [] = []
trimmed_lines (line ∷ lines) = add_line (trim line) (trimmed_lines lines)

-- The reader of one line.
pub record LineReader (V : Type 0) : Type 0 where
  pub parse_json : Text → Option V
  pub read_record : V → Option EventRecord

module _ {V : Type 0} (reader : LineReader V) where
  abbrev parse_record : Option EventRecord → Result String EventRecord
  parse_record none = err "event log line must match EventRecordSchema"
  parse_record (some r) =
      invariant (is_valid_payload r.payload) "event log line must match EventRecordSchema" >> ok r

  abbrev parse_value : Option V → Result String EventRecord
  parse_value none = err "event log line must be valid JSON"
  parse_value (some value) = parse_record (reader.read_record value)

  -- `parseEventLogLine`
  unfoldable pub parse_event_log_line : Text → Result String EventRecord
  unfolding is_valid_payload
  parse_event_log_line line = parse_value (reader.parse_json line)

  unfoldable pub parse_lines : List Text → Result String (List EventRecord)
  unfolding parse_event_log_line
  parse_lines [] = ok []
  parse_lines (line ∷ lines) = do
    r ← parse_event_log_line line
    records ← parse_lines lines
    ok (r ∷ records)

  -- `parseEventLogContent`
  unfoldable pub parse_event_log_content : Text → Result String (List EventRecord)
  unfolding trimmed_lines split parse_lines
  parse_event_log_content content = do
    records ← parse_lines (trimmed_lines (split b'\n' content))
    assert_contiguous_sequence records
    ok records

  -- What the scan reads of a line: the record, where it has one.
  abbrev pub record_of_line : Text → Option EventRecord
  record_of_line line = elim (reader.parse_json line) [
    | none ↦ none
    | some value ↦ reader.read_record value
  ]

  abbrev pub read_trimmed : Text → Scan → Scan
  read_trimmed [] s = s
  read_trimmed (c ∷ line) s = read_line s (record_of_line (c ∷ line))

  -- `readLine` of `scanEventLog`
  unfoldable pub read_raw_line : Text → Scan → Scan
  unfolding trim read_line
  read_raw_line raw_line s = read_trimmed (trim raw_line) s

  -- A chunk, cut at its newlines: its first part ends the line that is pending, and its last part is
  -- pending then.
  unfoldable pub read_parts : List Text → Text → Scan → Text × Scan
  unfolding read_raw_line
  read_parts [] pending s = (pending, s)
  read_parts (part ∷ []) pending s = (pending ++ part, s)
  read_parts (part ∷ next ∷ parts) pending s =
      read_parts (next ∷ parts) [] (read_raw_line (pending ++ part) s)

  -- the loop over the chunks of the file
  unfoldable pub read_chunks : List Text → Text → Scan → Text × Scan
  unfolding read_parts split
  read_chunks [] pending s = (pending, s)
  read_chunks (chunk ∷ chunks) pending s =
      let (pending', s') = read_parts (split b'\n' chunk) pending s in
      read_chunks chunks pending' s'

  -- `scanEventLog`, on the chunks of a file; an empty file has none.
  unfoldable pub scan_event_log_file : List Text → Scan
  unfolding read_chunks
  scan_event_log_file chunks =
      let (pending, s) = read_chunks chunks [] start in read_raw_line pending s

-- What `stat` and `readFile` tell of a file.
pub record LogFile : Type 0 where
  pub size : ℕ
  pub content : Text

-- `readEventLogRecords`
unfoldable pub read_event_log_records :
    {V : Type 0} → LineReader V → LogFile → Result String (List EventRecord)
unfolding assert_event_log_size parse_event_log_content
read_event_log_records reader file =
    assert_event_log_size file.size >> parse_event_log_content reader file.content
