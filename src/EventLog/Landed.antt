-- ===== src/EventLog/Landed.antt =====
-- What the writer of src/host/eventLog.ts has on disk when it has stopped and its writes have landed.
use agent_tty.Prelude.{
  ℕ, ◌+◌, ◌≤◌, ◌<◌, ◌≡◌, refl, sym, ap, subst, ◌∙◌, true, false, none, some, List, [], ◌∷◌, ◌++◌,
  map, Text, length, ok, All, append-nil, append_assoc,
}
use agent_tty.EventLog.Record.{EventRecord, Payload, is_exit, is_valid_payload}
use agent_tty.EventLog.Codec.{EventLogLimit, known, is_stop_label}
use agent_tty.EventLog.Store.{
  EventLog, Prepared, written_whole, push, get_stop, settle_write, event_log_tail_reserve_bytes,
}
use agent_tty.EventLog.Append.{
  find_stop_reason, prepare_record, prepare_stop, append, await_written, stop_flag, Action, act_all,
}
use agent_tty.EventLog.Invariant.{IsConsistent, Queue, event_of}
use agent_tty.EventLog.Settle.{settle_write_lands}
use agent_tty.EventLog.Durable.{append-IsConsistent, act_all-IsConsistent}
use agent_tty.EventLog.Stop.{stop_at, append_stops, append_past_limit}
use agent_tty.EventLog.Reserve.{HasReserve, IsOrdinary, exit_after_run}

-- As many writes settle as wait, and each of them lands.
abbrev land_from : List Prepared → EventLog → EventLog
land_from [] s = s
land_from (p ∷ rest) s = land_from rest (settle_write written_whole s)

abbrev pub land_all : EventLog → EventLog
land_all s = land_from s.pending s

-- The whole buffer is on disk, and no write has failed.
abbrev OnDisk : EventLog → List EventRecord → Type 0
OnDisk s records = (s.file ≡ records) × (s.poisoned ≡ false)

land_from-OnDisk :
    (waiting : List Prepared) (s : EventLog)
    → s.pending ≡ waiting
    → s.poisoned ≡ false
    → OnDisk (land_from waiting s) (s.file ++ map event_of waiting)
land_from-OnDisk [] s queue clean = (sym (append-nil s.file), clean)
land_from-OnDisk (p ∷ rest) s queue clean =
    let landed = settle_write_lands s p rest queue clean in
    let (file, still) =
      land_from-OnDisk rest (settle_write written_whole s) (ap (λ x. x.pending) landed)
        (ap (λ x. x.poisoned) landed ∙ clean) in
    (
      file
          ∙ ap (λ x. x.file ++ map event_of rest) landed
          ∙ append_assoc s.file (p.event ∷ []) (map event_of rest),
      still,
    )

land_all-OnDisk :
    (s : EventLog) → IsConsistent s → s.poisoned ≡ false → OnDisk (land_all s) s.event_buffer
land_all-OnDisk s v clean =
    let q : Queue false s = subst (λ b. Queue b s) clean v.queue in
    let (file, still) = land_from-OnDisk s.pending s refl clean in (file ∙ sym q.0, still)

-- A settled append returns its `seq`, and the file holds these records.
abbrev pub Durable : ℕ → List EventRecord → EventLog → Type 0
Durable seq records s =
    ((land_all s).file ≡ records) × (await_written seq (land_all s) ≡ (land_all s, ok seq))

durable :
    (seq : ℕ) (s : EventLog) → IsConsistent s → s.poisoned ≡ false → Durable seq s.event_buffer s
unfolding await_written
durable seq s v clean = let (file, still) = land_all-OnDisk s v clean in (file, rw still refl)

module _ (line_bytes : EventRecord → ℕ) (now : Text) where
  -- The first record that passes a limit stops a log with room for the stop marker, none of whose
  -- writes has failed: the record is not stored, the log is stopped, a reader of the log finds the stop
  -- at the next free `seq`, with the limit that was passed, and once the waiting writes have landed the
  -- file is the old buffer and the stop marker, and the append returns the marker's `seq`.
  pub append_stops_durably :
      (payload : Payload) (reason : EventLogLimit) (s : EventLog)
      → IsConsistent s
      → s.poisoned ≡ false
      → s.is_closed ≡ false
      → s.stopped ≡ false
      → is_stop_label payload ≡ false
      → is_valid_payload payload ≡ true
      → find_stop_reason payload (prepare_record line_bytes now payload s).size s ≡ some reason
      → length s.event_buffer < s.max_entries
      → s.file_bytes + (prepare_stop line_bytes now reason (stop_flag s)).size ≤ s.max_bytes
      → get_stop s ≡ none
      → let stop = prepare_stop line_bytes now reason (stop_flag s) in
        let s' = (append line_bytes now payload s).0 in
        (s'.stopped ≡ true)
        × ((append line_bytes now payload s).1 ≡ ok s.next_seq)
        × (get_stop s' ≡ some (stop_at (known reason) s.next_seq))
        × Durable s.next_seq (s.event_buffer ++ stop.event ∷ []) s'
  append_stops_durably payload reason s v clean o st l va past room fits unstopped =
      let e = append_past_limit line_bytes now payload reason s v o st l va past room fits in
      let (stopped, seq, found, _) =
        append_stops line_bytes now payload reason s v o st l va past room fits unstopped in
      let s' = (append line_bytes now payload s).0 in
      let stored =
        durable s.next_seq s' (append-IsConsistent line_bytes now payload s v)
          (ap (λ x. x.0.poisoned) e ∙ clean) in
      (
        stopped,
        seq,
        found,
        subst (λ records. Durable s.next_seq records s') (ap (λ x. x.0.event_buffer) e) stored,
      )

-- However ordinary appends, landing and failing writes and rejection handlers follow each other on a
-- consistent log that begins with the reserve free: when no write has failed and a record passes a
-- limit while the log is not stopped, the session's `exit` record can be appended after it, and once the
-- waiting writes have landed the file is the buffer, the stop marker and the `exit` record, and the
-- append of the `exit` record returns its `seq`, if the two take no more than the reserve of bytes.
pub exit_after_run_durably :
    (line_bytes : EventRecord → ℕ) (actions : List Action) (now later : Text)
    (payload last : Payload) (reason : EventLogLimit) (s : EventLog)
    → IsConsistent s
    → HasReserve s
    → All IsOrdinary actions
    → let t = act_all line_bytes actions s in
      let stop = prepare_stop line_bytes now reason (stop_flag t) in
      let stopped = push stop (stop_flag t) in
      let exit_record = prepare_record line_bytes later last stopped in
      let u = append line_bytes later last (append line_bytes now payload t).0 in
      t.poisoned ≡ false
      → t.is_closed ≡ false
      → t.stopped ≡ false
      → is_stop_label payload ≡ false
      → is_valid_payload payload ≡ true
      → find_stop_reason payload (prepare_record line_bytes now payload t).size t ≡ some reason
      → is_exit last ≡ true
      → is_stop_label last ≡ false
      → is_valid_payload last ≡ true
      → stop.size + exit_record.size ≤ event_log_tail_reserve_bytes
      → (u.1 ≡ ok (t.next_seq + 1))
        × Durable
            (t.next_seq + 1)
            ((t.event_buffer ++ stop.event ∷ []) ++ exit_record.event ∷ [])
            u.0
exit_after_run_durably line_bytes actions now later payload last reason s v h ordinary clean o st l
      va past ex l' va' small =
    let t = act_all line_bytes actions s in
    let e =
      exit_after_run line_bytes actions now later payload last reason s v h ordinary o st l va past
        ex l' va' small in
    let u = append line_bytes later last (append line_bytes now payload t).0 in
    let first =
      append-IsConsistent line_bytes now payload t (act_all-IsConsistent line_bytes actions s v) in
    let second =
      append-IsConsistent line_bytes later last (append line_bytes now payload t).0 first in
    (
      ap (λ x. x.1) e,
      subst (λ records. Durable (t.next_seq + 1) records u.0) (ap (λ x. x.0.event_buffer) e)
          (durable (t.next_seq + 1) u.0 second (ap (λ x. x.0.poisoned) e ∙ clean)),
    )
