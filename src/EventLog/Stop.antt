-- ===== src/EventLog/Stop.antt =====
-- How the writer of src/host/eventLog.ts stops: what it records of the stop, what a reader gets
-- back, and what a stopped log still takes.
use agent_tty.Prelude.{
  ℕ, ◌+◌, ◌-◌, ◌≤◌, ◌<◌, ◌≡◌, refl, sym, ap, ◌∙◌, true, false, none, some, List, [], ◌∷◌, ◌++◌,
  Text, codes, starts_with, decimal, skip_digits, drop, length, length-append, drop-length-append,
  starts_with-append, skip_digits-decimal, ok, arith, Bool-cases, StartsWithDigit,
  decimal-StartsWithDigit, inl, inr, is_digit,
}
use agent_tty.EventLog.Record.{EventRecord, Payload, marker, is_exit, is_valid_payload}
use agent_tty.EventLog.Codec.{
  EventLogLimit, bytes, events, EventLogStop, EventLogStopReason, known,
  event_log_limit_label_prefix, event_log_stop_label, stop_of_marker, is_event_log_stop_marker,
  find_event_log_stop, read_limit, is_stop_label, limit_name, read_limit_name, read_digits,
  label_of,
}
use agent_tty.EventLog.Store.{
  EventLog, Prepared, enqueue, push, get_stop, event_log_tail_reserve_bytes,
  event_log_tail_reserve_entries,
}
use agent_tty.EventLog.Append.{
  acknowledge_unstored, find_stop_reason, prepare_record, prepare_stop, record_stop, store_or_stop,
  queue_append, append, stop_flag, limit_of,
}
use agent_tty.EventLog.Invariant.{IsConsistent}

abbrev tail_text : Text
tail_text = codes "); later events are not recorded"

-- What stands behind the number of a stop marker's label.
abbrev name_text : EventLogLimit → Text
name_text reason = codes " " ++ (limit_name reason ++ tail_text)

read_limit_name_lem : (reason : EventLogLimit) → read_limit_name (name_text reason) ≡ known reason
unfolding starts_with
read_limit_name_lem bytes = refl
read_limit_name_lem events = refl

skip_digits-name_text : (reason : EventLogLimit) → skip_digits (name_text reason) ≡ name_text reason
unfolding skip_digits
skip_digits-name_text bytes = refl
skip_digits-name_text events = refl

skip_digits-cons :
    (c : ℕ) (text : Text) → is_digit c ≡ true → skip_digits (c ∷ text) ≡ skip_digits text
unfolding skip_digits
skip_digits-cons c text h = rw h

read_digits_lem :
    (number rest : Text)
    → StartsWithDigit number
    → read_digits (number ++ rest) ≡ read_limit_name (skip_digits (number ++ rest))
read_digits_lem [] rest h = absurd h
read_digits_lem (c ∷ number) rest h =
    rw h (ap read_limit_name (sym (skip_digits-cons c (number ++ rest) h)))

read_limit_lem :
    (reason : EventLogLimit) (number : ℕ)
    → read_limit (codes " (" ++ (decimal number ++ name_text reason)) ≡ known reason
unfolding read_limit starts_with
read_limit_lem reason number =
    read_digits_lem (decimal number) (name_text reason) (decimal-StartsWithDigit number)
    ∙ ap read_limit_name
        (skip_digits-decimal number (name_text reason) (skip_digits-name_text reason))
    ∙ read_limit_name_lem reason

abbrev pub stop_at : EventLogStopReason → ℕ → EventLogStop
stop_at reason seq = record { reason = reason; seq = seq }

-- A marker with the label that the writer builds is a stop marker, and reads back to the limit that
-- the label names and to its own `seq`.
pub stop_of_marker-label :
    (reason : EventLogLimit) (limit : ℕ) (r : EventRecord)
    → r.payload ≡ marker (event_log_stop_label reason limit)
    → (is_event_log_stop_marker r ≡ true)
      × (stop_of_marker r ≡ record { reason = known reason; seq = r.seq })
unfolding is_event_log_stop_marker stop_of_marker event_log_stop_label
stop_of_marker-label reason limit r e =
    let rest = codes " (" ++ (decimal limit ++ name_text reason) in
    (
      ap is_stop_label e ∙ starts_with-append event_log_limit_label_prefix rest,
      ap (λ t. stop_at (read_limit t) r.seq)
            (ap (λ p. drop (length event_log_limit_label_prefix) (label_of p)) e
              ∙ drop-length-append event_log_limit_label_prefix rest)
          ∙ ap (λ x. stop_at x r.seq) (read_limit_lem reason limit),
    )

find_event_log_stop-snoc :
    (records : List EventRecord) (r : EventRecord)
    → find_event_log_stop records ≡ none
    → is_event_log_stop_marker r ≡ true
    → find_event_log_stop (records ++ r ∷ []) ≡ some (stop_of_marker r)
unfolding find_event_log_stop
find_event_log_stop-snoc [] r h m = rw m
find_event_log_stop-snoc (x ∷ records) r h m = ground (arith, find_event_log_stop-snoc records r)

exit_fits :
    (payload : Payload) (size : ℕ) (s : EventLog)
    → is_exit payload ≡ true
    → length s.event_buffer < s.max_entries
    → s.file_bytes + size ≤ s.max_bytes
    → find_stop_reason payload size s ≡ none
unfolding find_stop_reason
exit_fits payload size s ex room fits = ground arith

module _ (line_bytes : EventRecord → ℕ) (now : Text) where
  pub event_seq :
      (payload : Payload) (s : EventLog)
      → (prepare_record line_bytes now payload s).event.seq ≡ s.next_seq
  unfolding prepare_record
  event_seq payload s = refl

  -- What an append that is given to a log already stopped does.
  pub append_stopped :
      (payload : Payload) (s : EventLog)
      → s.is_closed ≡ false
      → s.stopped ≡ true
      → is_exit payload ≡ false
      → is_stop_label payload ≡ false
      → is_valid_payload payload ≡ true
      → 0 < s.next_seq
      → append line_bytes now payload s ≡ (s, ok (s.next_seq - 1))
  unfolding append queue_append acknowledge_unstored
  append_stopped payload s o st e l v pos = simp (l, o, st, e, v) (ground arith)

  pub enqueue_lem :
      (p : Prepared) (s : EventLog)
      → p.event.seq ≡ s.next_seq
      → s.next_seq ≡ length s.event_buffer
      → length s.event_buffer < s.max_entries
      → s.file_bytes + p.size ≤ s.max_bytes
      → enqueue p s ≡ (push p s, ok p.event.seq)
  unfolding enqueue
  enqueue_lem p s seq next room fits = ground arith

  pub record_stop_lem :
      (reason : EventLogLimit) (s : EventLog)
      → s.next_seq ≡ length s.event_buffer
      → length s.event_buffer < s.max_entries
      → s.file_bytes + (prepare_stop line_bytes now reason (stop_flag s)).size ≤ s.max_bytes
      → record_stop line_bytes now reason s
        ≡ (push (prepare_stop line_bytes now reason (stop_flag s)) (stop_flag s), ok tt)
  unfolding record_stop prepare_record
  record_stop_lem reason s next room fits = ground (
    arith,
    enqueue_lem (prepare_stop line_bytes now reason (stop_flag s)) (stop_flag s) refl next room
        fits,
  )

  pub acknowledge_unstored_lem :
      (s : EventLog) (seq : ℕ) → s.next_seq ≡ seq + 1 → acknowledge_unstored s ≡ (s, ok seq)
  unfolding acknowledge_unstored
  acknowledge_unstored_lem s seq e = ground arith

  -- An append past a limit, where the stop marker fits.
  pub append_past_limit :
      (payload : Payload) (reason : EventLogLimit) (s : EventLog)
      → IsConsistent s
      → s.is_closed ≡ false
      → s.stopped ≡ false
      → is_stop_label payload ≡ false
      → is_valid_payload payload ≡ true
      → find_stop_reason payload (prepare_record line_bytes now payload s).size s ≡ some reason
      → length s.event_buffer < s.max_entries
      → s.file_bytes + (prepare_stop line_bytes now reason (stop_flag s)).size ≤ s.max_bytes
      → append line_bytes now payload s
        ≡ (push (prepare_stop line_bytes now reason (stop_flag s)) (stop_flag s), ok s.next_seq)
  unfolding append queue_append store_or_stop
  append_past_limit payload reason s v o st l va past room fits =
      simp (l, o, va, st, past, record_stop_lem reason s v.next room fits)
        (acknowledge_unstored_lem _ s.next_seq refl)

  get_stop-push :
      (reason : EventLogLimit) (s : EventLog)
      → get_stop s ≡ none
      → get_stop (push (prepare_stop line_bytes now reason (stop_flag s)) (stop_flag s))
        ≡ some (stop_at (known reason) s.next_seq)
  unfolding get_stop prepare_record
  get_stop-push reason s unstopped =
      let stop = (prepare_stop line_bytes now reason (stop_flag s)).event in
      let (is_marker, reads) =
        stop_of_marker-label reason (limit_of reason (stop_flag s)) stop refl in
      find_event_log_stop-snoc s.event_buffer stop unstopped is_marker ∙ ap some reads

  -- The first record that passes a limit stops a log with room for the stop marker: the record is
  -- not stored, the log is stopped, and a reader of the log finds the stop at the next free `seq`,
  -- which the append acknowledges, with the limit that was passed.
  pub append_stops :
      (payload : Payload) (reason : EventLogLimit) (s : EventLog)
      → IsConsistent s
      → s.is_closed ≡ false
      → s.stopped ≡ false
      → is_stop_label payload ≡ false
      → is_valid_payload payload ≡ true
      → find_stop_reason payload (prepare_record line_bytes now payload s).size s ≡ some reason
      → length s.event_buffer < s.max_entries
      → s.file_bytes + (prepare_stop line_bytes now reason (stop_flag s)).size ≤ s.max_bytes
      → get_stop s ≡ none
      → ((append line_bytes now payload s).0.stopped ≡ true)
        × ((append line_bytes now payload s).1 ≡ ok s.next_seq)
        × (get_stop (append line_bytes now payload s).0 ≡ some (stop_at (known reason) s.next_seq))
        × (length (append line_bytes now payload s).0.event_buffer ≡ length s.event_buffer + 1)
  append_stops payload reason s v o st l va past room fits unstopped =
      let e = append_past_limit payload reason s v o st l va past room fits in
      let stop = prepare_stop line_bytes now reason (stop_flag s) in
      (
        ap (λ x. x.0.stopped) e,
        ap (λ x. x.1) e,
        ap (λ x. get_stop x.0) e ∙ get_stop-push reason s unstopped,
        ap (λ x. length x.0.event_buffer) e ∙ length-append s.event_buffer (stop.event ∷ []),
      )

  -- An `exit` record may fill the log to its limits, stopped or not.
  append_exit :
      (payload : Payload) (s : EventLog)
      → is_exit payload ≡ true
      → is_stop_label payload ≡ false
      → is_valid_payload payload ≡ true
      → s.is_closed ≡ false
      → s.next_seq ≡ length s.event_buffer
      → length s.event_buffer < s.max_entries
      → s.file_bytes + (prepare_record line_bytes now payload s).size ≤ s.max_bytes
      → append line_bytes now payload s
        ≡ (push (prepare_record line_bytes now payload s) s, ok s.next_seq)
  unfolding append queue_append store_or_stop
  append_exit payload s ex l va o next room fits =
      let kept = exit_fits payload (prepare_record line_bytes now payload s).size s ex room fits in
      let stored =
        enqueue_lem (prepare_record line_bytes now payload s) s (event_seq payload s) next room
          fits in
      elim (Bool-cases s.stopped) [
        | inl st ↦ simp (l, o, va, ex, st, kept, stored, event_seq payload s)
        | inr st ↦ simp (l, o, va, ex, st, kept, stored, event_seq payload s)
      ]

-- The state of a log with room for the tail when an append stops it.
module _ (line_bytes : EventRecord → ℕ) (now later : Text) where
  -- The reserve suffices: a consistent log that keeps its reserves free, given a record past a limit,
  -- still takes the session's `exit` record into its buffer and its queue of writes after it, if the
  -- stop marker and the `exit` record take no more than the reserve of bytes.
  pub exit_after_stop :
      (payload last : Payload) (reason : EventLogLimit) (s : EventLog)
      → IsConsistent s
      → s.is_closed ≡ false
      → s.stopped ≡ false
      → is_stop_label payload ≡ false
      → is_valid_payload payload ≡ true
      → find_stop_reason payload (prepare_record line_bytes now payload s).size s ≡ some reason
      → is_exit last ≡ true
      → is_stop_label last ≡ false
      → is_valid_payload last ≡ true
      → s.file_bytes + event_log_tail_reserve_bytes ≤ s.max_bytes
      → length s.event_buffer + event_log_tail_reserve_entries ≤ s.max_entries
      → let stop = prepare_stop line_bytes now reason (stop_flag s) in
        let stopped = push stop (stop_flag s) in
        let exit_record = prepare_record line_bytes later last stopped in
        stop.size + exit_record.size ≤ event_log_tail_reserve_bytes
        → append line_bytes later last (append line_bytes now payload s).0
          ≡ (push exit_record stopped, ok (s.next_seq + 1))
  exit_after_stop payload last reason s v o st l va past ex l' va' bytes_free entries_free small =
      let stop = prepare_stop line_bytes now reason (stop_flag s) in
      let e =
        append_past_limit line_bytes now payload reason s v o st l va past (omega arith)
          (omega arith) in
      ap (λ x. append line_bytes later last x.0) e
      ∙ append_exit line_bytes later last (push stop (stop_flag s)) ex l' va' o
          (omega (arith, v.next, length-append s.event_buffer (stop.event ∷ [])))
          (omega (arith, length-append s.event_buffer (stop.event ∷ []))) (omega arith)
