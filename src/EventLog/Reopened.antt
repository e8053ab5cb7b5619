-- ===== src/EventLog/Reopened.antt =====
-- A log of src/host/eventLog.ts whose host has gone, opened again from its file.
use agent_tty.Prelude.{
  none, inr, false, Option, ℕ, suc, ◌+◌, ◌≤◌, ◌<◌, ◌≡◌, refl, sym, ap, subst, ◌∙◌, Bool, true,
  false, some, is_some, List, [], ◌∷◌, map, length, All, arith, Text, ok, append-nil, not, ◌&&◌,
  ltb,
}
use agent_tty.EventLog.Record.{EventRecord, Payload}
use agent_tty.EventLog.Codec.{max_event_log_size, assert_event_log_size, find_event_log_stop}
use agent_tty.EventLog.Store.{
  Prepared, EventLog, event_log_tail_reserve_bytes, event_log_tail_reserve_entries,
  max_event_buffer_entries,
}
use agent_tty.EventLog.Append.{Action, act_all}
use agent_tty.EventLog.Content.{LogFile, LineReader}
use agent_tty.EventLog.Open.{
  derive_next_seq, EventLogOptions, opened, construct, holds_none, read_existing, open_log,
}
use agent_tty.EventLog.Invariant.{
  Contiguous, IsPrefix, IsConsistent, Queue, event_of, IsPrefix-append,
}
use agent_tty.EventLog.Durable.{act_all-IsConsistent}
use agent_tty.EventLog.Stored.{torn_size, IsValid, lines_size, IsStored}
use agent_tty.EventLog.StoredRuns.{IsRecorded, act_all-IsStored}
use agent_tty.EventLog.Printed.{
  line_bytes, content_of, PrintsLines, parse_event_log_content_lem, lines_size_positive,
}

derive_next_seq_lem :
    (k : ℕ) (r : EventRecord) (records : List EventRecord)
    → Contiguous k (r ∷ records)
    → derive_next_seq (r ∷ records) ≡ k + length (r ∷ records)
unfolding derive_next_seq
derive_next_seq_lem k r [] c = omega (arith, c.0)
derive_next_seq_lem k r (next ∷ records) c =
    omega (arith, derive_next_seq_lem (suc k) next records c.1)

derive_next_seq-length :
    (records : List EventRecord) → Contiguous 0 records → derive_next_seq records ≡ length records
derive_next_seq-length [] c = unfold derive_next_seq in refl
derive_next_seq-length (r ∷ records) c = omega (arith, derive_next_seq_lem 0 r records c)

Contiguous-IsPrefix :
    (k : ℕ) (xs ys : List EventRecord) → IsPrefix xs ys → Contiguous k ys → Contiguous k xs
Contiguous-IsPrefix k [] ys pre c = tt
Contiguous-IsPrefix k (x ∷ xs) [] pre c = absurd pre
Contiguous-IsPrefix k (x ∷ xs) (y ∷ ys) pre c =
    (ap (λ r. r.seq) pre.0 ∙ c.0, Contiguous-IsPrefix (suc k) xs ys pre.1 c.1)

All-IsPrefix {κ} :
    (P : EventRecord → Type κ) (xs ys : List EventRecord) → IsPrefix xs ys → All P ys → All P xs
All-IsPrefix P [] ys pre all = tt
All-IsPrefix P (x ∷ xs) [] pre all = absurd pre
All-IsPrefix P (x ∷ xs) (y ∷ ys) pre all =
    (subst P (sym pre.0) all.0, All-IsPrefix P xs ys pre.1 all.1)

length-IsPrefix : (xs ys : List EventRecord) → IsPrefix xs ys → length xs ≤ length ys
length-IsPrefix [] ys pre = omega arith
length-IsPrefix (x ∷ xs) [] pre = absurd pre
length-IsPrefix (x ∷ xs) (y ∷ ys) pre = omega (arith, length-IsPrefix xs ys pre.1)

-- What is on disk was put into the buffer, and in the same order.
file_prefix : (b : Bool) (s : EventLog) → Queue b s → IsPrefix s.file s.event_buffer
file_prefix false s q =
    subst (IsPrefix s.file) (sym q.0) (IsPrefix-append s.file (map event_of s.pending))
file_prefix true s q = q.0

opened-IsConsistent :
    (records : List EventRecord) (size max_bytes max_entries : ℕ)
    → Contiguous 0 records
    → size ≤ max_bytes
    → length records ≤ max_entries
    → IsConsistent (opened records size max_bytes max_entries)
opened-IsConsistent records size max_bytes max_entries c fits room = record {
  contiguous = c;
  next = derive_next_seq-length records c;
  queue = (sym (append-nil records), refl);
  accounted = omega arith;
  bytes_fit = fits;
  entries_fit = room;
}

module _ {V : Type 0} (reader : LineReader V) (stringify : EventRecord → Text)
    (torn_text : EventRecord → ℕ → Text) (IsRecordable : Text → Payload → Type 0)
    (json : PrintsLines reader stringify torn_text IsRecordable) where
  abbrev size_of : EventRecord → ℕ
  size_of = line_bytes reader stringify torn_text IsRecordable

  abbrev content : List EventRecord → Option Prepared → Text
  content = content_of reader stringify torn_text IsRecordable

  -- The file that a log leaves behind, and its limits once more.
  abbrev pub file_of : EventLog → LogFile
  file_of s = record { size = s.file_size; content = content s.file s.torn }

  abbrev pub limits_of : EventLog → EventLogOptions
  limits_of s = record { max_bytes = some s.max_bytes; max_entries = some s.max_entries }

  read_existing_lem :
      (size : ℕ) (records : List EventRecord)
      → size ≡ lines_size size_of IsRecordable records
      → All (IsValid size_of IsRecordable) records
      → Contiguous 0 records
      → read_existing reader (record { size = size; content = content records none }) ≡ ok records
  read_existing_lem size [] lines valid c = ground arith
  read_existing_lem size (r ∷ records) lines valid c = ground (
    arith,
    lines_size_positive reader stringify torn_text IsRecordable json r records,
    parse_event_log_content_lem reader stringify torn_text IsRecordable json (r ∷ records) valid c,
  )

  -- An empty file leaves room for the reserve, and only an empty file holds no record.
  has_room :
      (max_bytes size : ℕ) (records : List EventRecord)
      → event_log_tail_reserve_bytes < max_bytes
      → size ≡ lines_size size_of IsRecordable records
      → not (holds_none records && ltb max_bytes (size + event_log_tail_reserve_bytes)) ≡ true
  has_room max_bytes size [] reserve lines = ground arith
  has_room max_bytes size (r ∷ records) reserve lines = refl

  construct_lem :
      (s : EventLog)
      → event_log_tail_reserve_bytes < s.max_bytes
      → s.max_bytes ≤ max_event_log_size
      → event_log_tail_reserve_entries < s.max_entries
      → s.max_entries ≤ max_event_buffer_entries
      → s.next_seq ≡ length s.event_buffer
      → construct s ≡ ok s
  unfolding construct
  construct_lem s a b c d e = ground arith

  module _ (s : EventLog) (v : IsConsistent s) (w : IsStored size_of IsRecordable s) where
    prefix : IsPrefix s.file s.event_buffer
    prefix = file_prefix s.poisoned s v.queue

    contiguous : Contiguous 0 s.file
    contiguous = Contiguous-IsPrefix 0 s.file s.event_buffer prefix v.contiguous

    file-IsValid : All (IsValid size_of IsRecordable) s.file
    file-IsValid = All-IsPrefix (IsValid size_of IsRecordable) s.file s.event_buffer prefix w.valid

    small_file : ltb max_event_log_size s.file_size ≡ false
    small_file = ground (arith, v.accounted, v.bytes_fit, w.size_limit)

    whole_lines : s.torn ≡ none → s.file_size ≡ lines_size size_of IsRecordable s.file
    whole_lines untorn = omega (arith, w.lines, ap (torn_size size_of IsRecordable) untorn)

    reopen_lem :
        s.torn ≡ none
        → open_log reader (file_of s) (limits_of s)
          ≡ ok (opened s.file s.file_size s.max_bytes s.max_entries)
    unfolding open_log assert_event_log_size
    reopen_lem untorn =
        let lines = whole_lines untorn in
        let read = read_existing_lem s.file_size s.file lines file-IsValid contiguous in
        rw (untorn, small_file, read, has_room s.max_bytes s.file_size s.file w.reserve lines)
          (construct_lem (opened s.file s.file_size s.max_bytes s.max_entries) w.reserve
            w.size_limit w.reserve_entries w.entry_limit (derive_next_seq-length s.file contiguous))

    reopened-IsConsistent : IsConsistent (opened s.file s.file_size s.max_bytes s.max_entries)
    reopened-IsConsistent =
        opened-IsConsistent s.file s.file_size s.max_bytes s.max_entries contiguous
          (omega (arith, v.accounted, v.bytes_fit))
          (omega (arith, v.entries_fit, length-IsPrefix s.file s.event_buffer prefix))

    reopened-IsStored :
        s.torn ≡ none
        → IsStored size_of IsRecordable (opened s.file s.file_size s.max_bytes s.max_entries)
    reopened-IsStored untorn = record {
      valid = file-IsValid;
      lines = omega (arith, whole_lines untorn);
      torn = tt;
      untorn = inr refl;
      waiting = tt;
      reserve = w.reserve;
      size_limit = w.size_limit;
      reserve_entries = w.reserve_entries;
      entry_limit = w.entry_limit;
    }

  -- When a host goes away and the file ends with a whole line, after any appends that can be recorded,
  -- landing and failing writes and rejection handlers on a consistent log that its constructor allows
  -- and whose records read back, `open` succeeds on the file, if the JSON of such a record is one line
  -- between braces that reads back as the record. The new log is consistent, holds exactly the records
  -- on disk, which are the first ones of the old buffer, is stopped exactly when one of them is a stop
  -- marker, and is such a log again.
  pub act_all-reopen :
      (actions : List Action) (s : EventLog)
      → IsConsistent s
      → IsStored size_of IsRecordable s
      → All (IsRecorded size_of IsRecordable) actions
      → (act_all size_of actions s).torn ≡ none
      → let s' = act_all size_of actions s in
        (t : EventLog) × (open_log reader (file_of s') (limits_of s') ≡ ok t)
        × IsConsistent t
        × IsStored size_of IsRecordable t
        × (t.event_buffer ≡ s'.file)
        × IsPrefix t.event_buffer s'.event_buffer
        × (t.stopped ≡ is_some (find_event_log_stop t.event_buffer))
  act_all-reopen actions s v w recorded untorn =
      let s' = act_all size_of actions s in
      let v' = act_all-IsConsistent size_of actions s v in
      let w' = act_all-IsStored size_of IsRecordable actions s recorded w in
      (
        opened s'.file s'.file_size s'.max_bytes s'.max_entries,
        reopen_lem s' v' w' untorn,
        reopened-IsConsistent s' v' w',
        reopened-IsStored s' v' w' untorn,
        refl,
        prefix s' v' w',
        refl,
      )
