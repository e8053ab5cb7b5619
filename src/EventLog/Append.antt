-- ===== src/EventLog/Append.antt =====
-- src/host/eventLog.ts: `queueAppend` and what it calls, the checks before a record is stored, and
-- the order in which appends and the settling of writes may come.
use agent_tty.Prelude.{
  ℕ, ◌+◌, ◌-◌, true, not, ◌&&◌, ◌||◌, Option, none, some, List, [], ◌∷◌, Text, length, ltb,
  if◌then◌else◌, ok, err,
}
use agent_tty.EventLog.Record.{EventRecord, Payload, marker, is_exit, is_valid_payload}
use agent_tty.EventLog.Codec.{EventLogLimit, bytes, events, event_log_stop_label, is_stop_label}
use agent_tty.EventLog.Store.{
  Prepared, EventLog, invalid_input, io_failed, M, pure, ◌>>=◌, ◌>>◌, gets, assert, enqueue,
  event_log_tail_reserve_bytes, event_log_tail_reserve_entries, settle_write, run_rejection,
  WriteOutcome,
}

abbrev reserve_bytes : Payload → ℕ
reserve_bytes payload = if is_exit payload then 0 else event_log_tail_reserve_bytes

abbrev reserve_entries : Payload → ℕ
reserve_entries payload = if is_exit payload then 0 else event_log_tail_reserve_entries

-- `findStopReason`. The source's `size > max - used - reserve` is a signed comparison; the summands
-- stand on the other side here.
unfoldable pub find_stop_reason : Payload → ℕ → EventLog → Option EventLogLimit
find_stop_reason payload size s =
    if ltb s.max_bytes (s.file_bytes + reserve_bytes payload + size)
    then some bytes
    else if ltb s.max_entries (length s.event_buffer + 1 + reserve_entries payload)
    then some events
    else none

-- `acknowledgeUnstored`. The caller's `written` settles when the queue does.
unfoldable pub acknowledge_unstored : M ℕ
acknowledge_unstored = do
  next ← gets (λ s. s.next_seq)
  assert (ltb 0 next) "a log that does not store a record must hold an earlier record"
  pure (next - 1)

abbrev pub stop_flag : EventLog → EventLog
stop_flag s = record s { stopped = true }

-- The limit that a stop marker names.
abbrev pub limit_of : EventLogLimit → EventLog → ℕ
limit_of bytes s = s.max_bytes
limit_of events s = s.max_entries

-- `line_bytes` is `Buffer.byteLength` of the record's JSON line.
module _ (line_bytes : EventRecord → ℕ) where
  -- `prepareRecord`
  unfoldable pub prepare_record : Text → Payload → EventLog → Prepared
  prepare_record now payload s =
      let event : EventRecord = record { seq = s.next_seq; ts = now; payload = payload } in
      record { event = event; size = line_bytes event }

  -- The stop marker that `recordStop` prepares.
  abbrev pub prepare_stop : Text → EventLogLimit → EventLog → Prepared
  prepare_stop now reason s =
      prepare_record now (marker (event_log_stop_label reason (limit_of reason s))) s

  -- `recordStop`. A write that fails reaches the caller through the queue.
  unfoldable pub record_stop : Text → EventLogLimit → M (Unit {0})
  record_stop now reason s =
      let s' = stop_flag s in
      let stop = prepare_stop now reason s' in
      if ltb s'.max_bytes (s'.file_bytes + stop.size)
        || ltb s'.max_entries (length s'.event_buffer + 1)
      then (s', ok tt)
      else (enqueue stop >> pure tt) s'

  -- The last part of `queueAppend`, on what `findStopReason` gives.
  unfoldable pub store_or_stop : Text → Prepared → Option EventLogLimit → M ℕ
  store_or_stop now prepared none s = enqueue prepared s
  store_or_stop now prepared (some reason) s =
      if s.stopped
      then acknowledge_unstored s
      else (record_stop now reason >> acknowledge_unstored) s

  -- `queueAppend`, and `startAppend`, which is the same
  unfoldable pub queue_append : Text → Payload → M ℕ
  queue_append now payload = do
    s ← gets (λ s. s)
    assert (not s.is_closed) "cannot append to a closed event log"
    assert (is_valid_payload payload) "payload must match schema"
    if s.stopped && not (is_exit payload)
        then acknowledge_unstored
        else (let prepared = prepare_record now payload s in
            store_or_stop now prepared (find_stop_reason payload prepared.size s))

  -- `append`, up to its `await`: it gives the `seq` that `await_written` then returns or rejects. The
  -- stop marker's label prefix is reserved.
  unfoldable pub append : Text → Payload → M ℕ
  append now payload s =
      if is_stop_label payload
      then (s, err (invalid_input "agent-tty reserves this label prefix"))
      else queue_append now payload s

-- `append`, behind its `await` of `written`: when the record's write has settled or, for a record that
-- is not stored, every write before it. A failed write before that rejects it.
unfoldable pub await_written : ℕ → M ℕ
await_written seq s = (s, if s.poisoned then err io_failed else ok seq)

-- What may happen to an open log: an append at a given time, the oldest write lands or fails, and
-- the last handler of a rejected write runs.
pub data Action : Type 0 where
  append_record : Text → Payload → Action
  write_settles : WriteOutcome → Action
  rejection_runs : Action

module _ (line_bytes : EventRecord → ℕ) where
  unfoldable pub act : Action → EventLog → EventLog
  act (append_record now payload) s = (append line_bytes now payload s).0
  act (write_settles outcome) s = settle_write outcome s
  act rejection_runs s = run_rejection s

  unfoldable pub act_all : List Action → EventLog → EventLog
  unfolding act
  act_all [] s = s
  act_all (a ∷ actions) s = act_all actions (act a s)
