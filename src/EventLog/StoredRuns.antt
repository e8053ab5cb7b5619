-- ===== src/EventLog/StoredRuns.antt =====
-- The settling of writes and whole runs of the writer of src/host/eventLog.ts under what it stores.
use agent_tty.Prelude.{
  ℕ, ◌≡◌, sym, subst, List, [], ◌∷◌, ◌++◌, All, arith, ◌⊎◌, inl, inr, Text, Bool-cases, ◌==◌, ap,
  refl, false,
}
use agent_tty.EventLog.Record.{EventRecord, Payload, marker}
use agent_tty.EventLog.Codec.{EventLogLimit, event_log_stop_label}
use agent_tty.EventLog.Store.{
  EventLog, Prepared, WriteOutcome, torn_line, torn_bytes, settle_write, run_rejection,
  rollback_buffered_events_from,
}
use agent_tty.EventLog.Append.{Action, append_record, write_settles, rejection_runs, act, act_all}
use agent_tty.EventLog.Rollback.{cut}
use agent_tty.EventLog.Settle.{
  land_write, fail_write, settle_write_cases, settle_write_idle, run_rejection_cases,
  run_rejection_idle, List-cases,
}
use agent_tty.EventLog.Stored.{
  IsValid, torn_size, IsCut, Sized, IsStored, All-take, append-IsStored, lines_size-snoc,
}

module _ (line_bytes : EventRecord → ℕ) (IsRecordable : Text → Payload → Type 0) where
  rollback_stored_cases :
      (seq : ℕ) (s : EventLog)
      → ((rollback_buffered_events_from seq s).0 ≡ s)
        ⊎ ((rollback_buffered_events_from seq s).0 ≡ cut seq s)
  unfolding rollback_buffered_events_from
  rollback_stored_cases seq s = ground arith

  rollback-IsStored :
      (seq : ℕ) (s : EventLog)
      → IsStored line_bytes IsRecordable s
      → IsStored line_bytes IsRecordable (rollback_buffered_events_from seq s).0
  rollback-IsStored seq s v = elim (rollback_stored_cases seq s) [
    | inl e ↦ subst (IsStored line_bytes IsRecordable) (sym e) v
    | inr e ↦ subst (IsStored line_bytes IsRecordable) (sym e) (record {
      valid = All-take (IsValid line_bytes IsRecordable) seq s.event_buffer v.valid;
      lines = v.lines;
      torn = v.torn;
      untorn = v.untorn;
      waiting = v.waiting;
      reserve = v.reserve;
      size_limit = v.size_limit;
      reserve_entries = v.reserve_entries;
      entry_limit = v.entry_limit;
    })
  ]

  -- The same log but for its queue, in which what waits waited before.
  requeued :
      (waiting : List Prepared) (rejected : List ℕ) (s : EventLog)
      → IsStored line_bytes IsRecordable s
      → All (Sized line_bytes IsRecordable) waiting
      → IsStored line_bytes IsRecordable (record s { pending = waiting; rejected = rejected })
  requeued waiting rejected s v sized = record {
    valid = v.valid;
    lines = v.lines;
    torn = v.torn;
    untorn = v.untorn;
    waiting = sized;
    reserve = v.reserve;
    size_limit = v.size_limit;
    reserve_entries = v.reserve_entries;
    entry_limit = v.entry_limit;
  }

  land_write-IsStored :
      (p : Prepared) (rest : List Prepared) (s : EventLog)
      → IsStored line_bytes IsRecordable s
      → Sized line_bytes IsRecordable p
      → All (Sized line_bytes IsRecordable) rest
      → IsStored line_bytes IsRecordable (land_write p rest s)
  land_write-IsStored p rest s v sized others = record {
    valid = v.valid;
    lines = omega (arith, v.lines, sized, lines_size-snoc line_bytes IsRecordable s.file p.event);
    torn = v.torn;
    untorn = v.untorn;
    waiting = others;
    reserve = v.reserve;
    size_limit = v.size_limit;
    reserve_entries = v.reserve_entries;
    entry_limit = v.entry_limit;
  }

  torn_size-torn_line :
      (part : ℕ) (p : Prepared)
      → torn_size line_bytes IsRecordable (torn_line part p) ≡ torn_bytes part p
  torn_size-torn_line part p = elim (Bool-cases (torn_bytes part p == 0)) [
    | inl nothing ↦ rw nothing (ground (arith, nothing))
    | inr some_bytes ↦ rw some_bytes refl
  ]

  torn_line-IsCut :
      (part : ℕ) (p : Prepared)
      → Sized line_bytes IsRecordable p
      → IsCut line_bytes IsRecordable (torn_line part p)
  torn_line-IsCut part p sized = elim (Bool-cases (torn_bytes part p == 0)) [
    | inl nothing ↦ rw nothing tt
    | inr some_bytes ↦ rw some_bytes (ground (arith, some_bytes), ground (arith, some_bytes, sized))
  ]

  fail_write-IsStored :
      (part : ℕ) (p : Prepared) (rest : List Prepared) (s : EventLog)
      → IsStored line_bytes IsRecordable s
      → s.poisoned ≡ false
      → Sized line_bytes IsRecordable p
      → All (Sized line_bytes IsRecordable) rest
      → IsStored line_bytes IsRecordable (fail_write part p rest s)
  fail_write-IsStored part p rest s v clean sized others =
      let nothing : torn_size line_bytes IsRecordable s.torn ≡ 0 = elim v.untorn [
        | inl dirty ↦ absurd (cc (clean, dirty))
        | inr e ↦ ap (torn_size line_bytes IsRecordable) e
      ] in
      record {
        valid = v.valid;
        lines = omega (arith, v.lines, nothing, torn_size-torn_line part p);
        torn = torn_line-IsCut part p sized;
        untorn = inl refl;
        waiting = others;
        reserve = v.reserve;
        size_limit = v.size_limit;
        reserve_entries = v.reserve_entries;
        entry_limit = v.entry_limit;
      }

  settle_write-IsStored :
      (outcome : WriteOutcome) (s : EventLog)
      → IsStored line_bytes IsRecordable s
      → IsStored line_bytes IsRecordable (settle_write outcome s)
  settle_write-IsStored outcome s v = elim (List-cases s.pending) [
    | inl idle ↦ subst (IsStored line_bytes IsRecordable) (sym (settle_write_idle outcome s idle)) v
    | inr (p, rest, queue) ↦
        let sized = subst (All (Sized line_bytes IsRecordable)) queue v.waiting in
        elim (settle_write_cases outcome s p rest queue) [
          | inl (_, e) ↦
              subst (IsStored line_bytes IsRecordable) (sym e)
                (requeued rest (s.rejected ++ p.event.seq ∷ []) s v sized.1)
          | inr (inl (_, e)) ↦
              subst (IsStored line_bytes IsRecordable) (sym e)
                (land_write-IsStored p rest s v sized.0 sized.1)
          | inr (inr (part, clean, e)) ↦ subst (IsStored line_bytes IsRecordable) (sym e) (
              rollback-IsStored p.event.seq (fail_write part p rest s)
                (fail_write-IsStored part p rest s v clean sized.0 sized.1))
        ]
  ]

  run_rejection-IsStored :
      (s : EventLog)
      → IsStored line_bytes IsRecordable s
      → IsStored line_bytes IsRecordable (run_rejection s)
  run_rejection-IsStored s v = elim (List-cases s.rejected) [
    | inl idle ↦ subst (IsStored line_bytes IsRecordable) (sym (run_rejection_idle s idle)) v
    | inr (k, rest, e) ↦
        subst (IsStored line_bytes IsRecordable) (sym (run_rejection_cases s k rest e)) (
          rollback-IsStored k (record s { rejected = rest })
            (requeued s.pending rest s v v.waiting))
  ]

  -- An append that can be recorded, as the stop marker can be in its place.
  abbrev pub IsRecorded : Action → Type 0
  IsRecorded (append_record now payload) =
      IsRecordable now payload
      × ((reason : EventLogLimit) (limit : ℕ)
          → IsRecordable now (marker (event_log_stop_label reason limit)))
  IsRecorded (write_settles outcome) = Unit
  IsRecorded rejection_runs = Unit

  act-IsStored :
      (a : Action) (s : EventLog)
      → IsRecorded a
      → IsStored line_bytes IsRecordable s
      → IsStored line_bytes IsRecordable (act line_bytes a s)
  unfolding act
  act-IsStored (append_record now payload) s recorded v =
      append-IsStored line_bytes IsRecordable now recorded.1 payload s recorded.0 v
  act-IsStored (write_settles outcome) s recorded v = settle_write-IsStored outcome s v
  act-IsStored rejection_runs s recorded v = run_rejection-IsStored s v

  pub act_all-IsStored :
      (actions : List Action) (s : EventLog)
      → All IsRecorded actions
      → IsStored line_bytes IsRecordable s
      → IsStored line_bytes IsRecordable (act_all line_bytes actions s)
  unfolding act_all
  act_all-IsStored [] s recorded v = v
  act_all-IsStored (a ∷ actions) s recorded v =
      act_all-IsStored actions (act line_bytes a s) recorded.1 (act-IsStored a s recorded.0 v)
