-- ===== src/EventLog/Store.antt =====
-- src/host/eventLog.ts: the writer of a session's event log. A method is an action on the state: it
-- gives the state after it, and what it returns or throws. The queue of writes is explicit: a write
-- waits in `pending`, settles in a step of its own, and a rejected one runs its rollback handler in
-- a later step still, so appends may come between any two of these.
use agent_tty.Prelude.{
  ℕ, ◌+◌, ◌-◌, Bool, true, false, Option, none, some, List, [], ◌∷◌, ◌++◌, drop, take, length, ltb,
  leb, ◌==◌, if◌then◌else◌, Result, ok, err, String, get_elem?,
}
use agent_tty.EventLog.Record.{EventRecord}
use agent_tty.EventLog.Codec.{EventLogStop, find_event_log_stop}

abbrev pub max_event_buffer_entries : ℕ
max_event_buffer_entries = 250000

abbrev pub event_log_tail_reserve_bytes : ℕ
event_log_tail_reserve_bytes = 4096

abbrev pub event_log_tail_reserve_entries : ℕ
event_log_tail_reserve_entries = 2

-- `PreparedRecord`; the line itself is fixed by the record.
pub record Prepared : Type 0 where
  pub event : EventRecord
  pub size : ℕ

pub record EventLog : Type 0 where
  pub next_seq : ℕ
  pub file_bytes : ℕ
  pub max_bytes : ℕ
  pub max_entries : ℕ
  pub event_buffer : List EventRecord
  pub stopped : Bool
  pub is_closed : Bool
  pub pending : List Prepared  -- the writes that have not settled, oldest first
  pub rejected : List ℕ  -- the seqs of rejected writes whose last handler has not run
  pub poisoned : Bool  -- `writeQueue` is rejected
  pub file : List EventRecord  -- the records on disk, each a whole line
  pub torn : Option Prepared  -- what a failed write left behind them: the bytes of its line
  pub file_size : ℕ  -- the size of the file on disk

pub data Failure : Type 0 where
  assertion : String → Failure
  invalid_input : String → Failure
  io_failed : Failure  -- the rejection of an operation on the file

abbrev pub M : Type 0 → Type 0
M A = EventLog → EventLog × Result Failure A

abbrev pub pure : {A : Type 0} → A → M A
pure a s = (s, ok a)

abbrev pub continue :
    {A B : Type 0} → EventLog → Result Failure A → (A → M B) → EventLog × Result Failure B
continue s (ok a) f = f a s
continue s (err e) f = (s, err e)

infixl 5 ◌>>=◌ ◌>>◌
abbrev pub ◌>>=◌ : {A B : Type 0} → M A → (A → M B) → M B
◌>>=◌ m f s = continue (m s).0 (m s).1 f

abbrev pub ◌>>◌ : {A B : Type 0} → M A → M B → M B
m >> k = m >>= λ _. k

abbrev pub gets : {A : Type 0} → (EventLog → A) → M A
gets f s = (s, ok (f s))

abbrev pub modify : (EventLog → EventLog) → M (Unit {0})
modify f s = (f s, ok tt)

abbrev pub assert : Bool → String → M (Unit {0})
assert condition message s = (s, if condition then ok tt else err (assertion message))

-- What `enqueue` changes; the write itself waits in `pending`.
abbrev pub push : Prepared → EventLog → EventLog
push p s = record s {
  next_seq = s.next_seq + 1;
  event_buffer = s.event_buffer ++ p.event ∷ [];
  file_bytes = s.file_bytes + p.size;
  pending = s.pending ++ p ∷ [];
}

-- `enqueue`, its four checks first
unfoldable pub enqueue : Prepared → M ℕ
enqueue p = do
  s ← gets (λ s. s)
  assert (p.event.seq == s.next_seq) "event seq must match the expected next seq"
  assert (ltb (length s.event_buffer) s.max_entries) "session event log is too large"
  assert (p.event.seq == length s.event_buffer)
      "event record seq must match the buffered event count"
  assert (leb (s.file_bytes + p.size) s.max_bytes)
      "event log append must stay inside the size limit"
  modify (push p)
  pure p.event.seq

-- `rollbackBufferedEventsFrom`; the record at the failed position is the failed one.
abbrev holds_seq : Option EventRecord → ℕ → Bool
holds_seq none seq = false
holds_seq (some r) seq = r.seq == seq

unfoldable pub rollback_buffered_events_from : ℕ → M (Unit {0})
rollback_buffered_events_from seq s =
    if leb (length s.event_buffer) seq
    then (s, ok tt)
    else if holds_seq (get_elem? s.event_buffer seq) seq
    then (record s { event_buffer = take seq s.event_buffer; next_seq = seq }, ok tt)
    else (s, err (assertion "failed event seq must match the buffered rollback position"))

-- How `appendFile` ends: it wrote the line, or it failed with so many bytes of the line written, the
-- last one, the newline, not among them. A host that dies in a write leaves the same file.
pub data WriteOutcome : Type 0 where
  written_whole : WriteOutcome
  written_part : ℕ → WriteOutcome

abbrev pub torn_bytes : ℕ → Prepared → ℕ
torn_bytes part p = if ltb part p.size then part else p.size - 1

abbrev pub torn_line : ℕ → Prepared → Option Prepared
torn_line part p =
    if torn_bytes part p == 0 then none else some (record p { size = torn_bytes part p })

abbrev pub settle_first : WriteOutcome → Prepared → List Prepared → EventLog → EventLog
settle_first written_whole p rest s = record s {
  pending = rest;
  file = s.file ++ p.event ∷ [];
  file_size = s.file_size + p.size;
}
settle_first (written_part part) p rest s =
    (rollback_buffered_events_from p.event.seq (record s {
      pending = rest;
      rejected = s.rejected ++ p.event.seq ∷ [];
      poisoned = true;
      torn = torn_line part p;
      file_size = s.file_size + torn_bytes part p;
    })).0

-- The settling of the oldest pending write. Behind an earlier failure the write is not tried.
abbrev pub settle_head : WriteOutcome → List Prepared → EventLog → EventLog
settle_head outcome [] s = s
settle_head outcome (p ∷ rest) s =
    if s.poisoned
    then record s { pending = rest; rejected = s.rejected ++ p.event.seq ∷ [] }
    else settle_first outcome p rest s

unfoldable pub settle_write : WriteOutcome → EventLog → EventLog
settle_write outcome s = settle_head outcome s.pending s

-- The handler of `written` on a rejected write rolls back once more.
abbrev pub reject_head : List ℕ → EventLog → EventLog
reject_head [] s = s
reject_head (seq ∷ rest) s = (rollback_buffered_events_from seq (record s { rejected = rest })).0

unfoldable pub run_rejection : EventLog → EventLog
run_rejection s = reject_head s.rejected s

-- `getEventsSince`, for an `afterSeq` of at least 0; -1 gives every event.
unfoldable pub get_events_since : Option ℕ → EventLog → List EventRecord
get_events_since none s = s.event_buffer
get_events_since (some after) s =
    if leb (length s.event_buffer) after then [] else drop (after + 1) s.event_buffer

-- `getStop`
unfoldable pub get_stop : EventLog → Option EventLogStop
unfolding find_event_log_stop
get_stop s = find_event_log_stop s.event_buffer
