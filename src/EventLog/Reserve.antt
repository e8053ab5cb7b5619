-- ===== src/EventLog/Reserve.antt =====
-- The reserve that ordinary records leave free in src/host/eventLog.ts: the constants
-- `EVENT_LOG_TAIL_RESERVE_BYTES` and `EVENT_LOG_TAIL_RESERVE_ENTRIES`, and who keeps them.
use agent_tty.Prelude.{
  ℕ, ◌+◌, ◌≤◌, ◌≡◌, sym, ap, subst, ◌∙◌, true, false, List, [], ◌∷◌, length, length-append, All,
  arith, some, none, Text, ◌⊎◌, inl, inr, Bool-cases, ok, Option-cases,
}
use agent_tty.EventLog.Record.{EventRecord, Payload, is_exit, is_valid_payload}
use agent_tty.EventLog.Codec.{EventLogLimit, is_stop_label}
use agent_tty.EventLog.Store.{
  EventLog, Prepared, push, enqueue, event_log_tail_reserve_bytes, event_log_tail_reserve_entries,
}
use agent_tty.EventLog.Invariant.{IsConsistent}
use agent_tty.EventLog.Append.{
  stop_flag, prepare_record, prepare_stop, record_stop, append, store_or_stop, find_stop_reason,
  Action, append_record, write_settles, rejection_runs, act, act_all,
}
use agent_tty.EventLog.Durable.{
  record_stop_cases, store_or_stop_cases, queue_append_cases, act_all-IsConsistent,
}
use agent_tty.EventLog.Stop.{exit_after_stop}
use agent_tty.EventLog.Kept.{StoresNothing, settle_write-StoresNothing, run_rejection-StoresNothing}

-- A log that is not stopped has the reserve free.
abbrev pub HasReserve : EventLog → Type 0
HasReserve s =
    s.stopped ≡ false
    → (s.file_bytes + event_log_tail_reserve_bytes ≤ s.max_bytes)
      × (length s.event_buffer + event_log_tail_reserve_entries ≤ s.max_entries)

-- An action that does not append the record of the session's exit.
abbrev pub IsOrdinary : Action → Type 0
IsOrdinary (append_record now payload) = is_exit payload ≡ false
IsOrdinary (write_settles outcome) = Unit
IsOrdinary rejection_runs = Unit

HasReserve-kept : (s s' : EventLog) → StoresNothing s s' → HasReserve s → HasReserve s'
HasReserve-kept s s' k h running =
    let free = h (sym k.flag ∙ running) in
    (
      omega (arith, k.used, k.bytes_limit, free.0),
      omega (arith, k.shorter, k.entries_limit, free.1),
    )

enqueue_cases : (p : Prepared) (s : EventLog) → ((enqueue p s).0 ≡ s) ⊎ ((enqueue p s).0 ≡ push p s)
unfolding enqueue
enqueue_cases p s = ground arith

-- An ordinary record that `findStopReason` lets pass leaves the reserve free.
stored-HasReserve :
    (payload : Payload) (p : Prepared) (s : EventLog)
    → is_exit payload ≡ false
    → find_stop_reason payload p.size s ≡ none
    → HasReserve s
    → HasReserve (enqueue p s).0
unfolding find_stop_reason
stored-HasReserve payload p s ordinary fits h = elim (enqueue_cases p s) [
  | inl e ↦ subst HasReserve (sym e) h
  | inr e ↦ subst HasReserve (sym e) λ running. (
    ground (arith, ordinary, fits),
    ground (arith, ordinary, fits, length-append s.event_buffer (p.event ∷ [])),
  )
]

module _ (line_bytes : EventRecord → ℕ) (now : Text) where
  record_stop-stopped :
      (reason : EventLogLimit) (s : EventLog)
      → (record_stop line_bytes now reason s).0.stopped ≡ true
  record_stop-stopped reason s =
      let stop = prepare_stop line_bytes now reason (stop_flag s) in
      elim (record_stop_cases line_bytes now reason s) [
        | inl e ↦ ap (λ x. x.stopped) e
        | inr e ↦ ap (λ x. x.stopped) e ∙ elim (enqueue_cases stop (stop_flag s)) [
          | inl kept ↦ ap (λ x. x.stopped) kept
          | inr pushed ↦ ap (λ x. x.stopped) pushed
        ]
      ]

  stop-HasReserve :
      (p : Prepared) (reason : EventLogLimit) (s : EventLog)
      → HasReserve s
      → HasReserve (store_or_stop line_bytes now p (some reason) s).0
  stop-HasReserve p reason s h = elim (store_or_stop_cases line_bytes now p reason s) [
    | inl e ↦ subst HasReserve (sym e) h
    | inr e ↦
        subst HasReserve (sym e) λ running. absurd (cc (record_stop-stopped reason s, running))
  ]

  append-HasReserve :
      (payload : Payload) (s : EventLog)
      → is_exit payload ≡ false
      → HasReserve s
      → HasReserve (append line_bytes now payload s).0
  unfolding append store_or_stop
  append-HasReserve payload s ordinary h =
      let p = prepare_record line_bytes now payload s in
      elim (Bool-cases (is_stop_label payload)) [
        | inl reserved ↦ rw reserved h
        | inr free ↦ rw free (elim (queue_append_cases line_bytes now payload s) [
          | inl e ↦ subst HasReserve (sym e) h
          | inr e ↦
              subst HasReserve (sym e) (elim (Option-cases (find_stop_reason payload p.size s)) [
                | inl none_passed ↦
                    rw none_passed (stored-HasReserve payload p s ordinary none_passed h)
                | inr (reason, passed) ↦ rw passed (stop-HasReserve p reason s h)
              ])
        ])
      ]

module _ (line_bytes : EventRecord → ℕ) where
  act-HasReserve :
      (a : Action) (s : EventLog) → IsOrdinary a → HasReserve s → HasReserve (act line_bytes a s)
  unfolding act
  act-HasReserve (append_record now payload) s ordinary h =
      append-HasReserve line_bytes now payload s ordinary h
  act-HasReserve (write_settles outcome) s ordinary h =
      HasReserve-kept s _ (settle_write-StoresNothing outcome s) h
  act-HasReserve rejection_runs s ordinary h = HasReserve-kept s _ (run_rejection-StoresNothing s) h

  act_all-HasReserve :
      (actions : List Action) (s : EventLog)
      → All IsOrdinary actions
      → HasReserve s
      → HasReserve (act_all line_bytes actions s)
  unfolding act_all
  act_all-HasReserve [] s ordinary h = h
  act_all-HasReserve (a ∷ actions) s (o, ordinary) h =
      act_all-HasReserve actions (act line_bytes a s) ordinary (act-HasReserve a s o h)

  -- However ordinary appends, landing and failing writes and rejection handlers follow each other
  -- on a consistent log that begins with the reserve free: when a record passes a limit while the log is
  -- not stopped, the stop marker and then the session's `exit` record enter the buffer and the queue of
  -- writes, if the two take no more than the reserve of bytes.
  pub exit_after_run :
      (actions : List Action) (now later : Text) (payload last : Payload) (reason : EventLogLimit)
      (s : EventLog)
      → IsConsistent s
      → HasReserve s
      → All IsOrdinary actions
      → let t = act_all line_bytes actions s in
        let stop = prepare_stop line_bytes now reason (stop_flag t) in
        let stopped = push stop (stop_flag t) in
        let exit_record = prepare_record line_bytes later last stopped in
        t.is_closed ≡ false
        → t.stopped ≡ false
        → is_stop_label payload ≡ false
        → is_valid_payload payload ≡ true
        → find_stop_reason payload (prepare_record line_bytes now payload t).size t ≡ some reason
        → is_exit last ≡ true
        → is_stop_label last ≡ false
        → is_valid_payload last ≡ true
        → stop.size + exit_record.size ≤ event_log_tail_reserve_bytes
        → append line_bytes later last (append line_bytes now payload t).0
          ≡ (push exit_record stopped, ok (t.next_seq + 1))
  exit_after_run actions now later payload last reason s v h ordinary o st l va past ex l' va'
        small =
      let free = act_all-HasReserve actions s ordinary h st in
      exit_after_stop line_bytes now later payload last reason (act_all line_bytes actions s)
        (act_all-IsConsistent line_bytes actions s v) o st l va past ex l' va' free.0 free.1 small
