-- ===== src/EventLog/Opening.antt =====
-- A log from `EventLog.open` of src/host/eventLog.ts on, on whatever its file holds: what it
-- acknowledges while its writes land.
use agent_tty.Prelude.{
  ℕ, ◌+◌, ◌≤◌, ◌<◌, ◌≡◌, refl, sym, ap, subst, true, false, not, ◌&&◌, is_some, List, [], ◌∷◌,
  length, ok, Text, arith, Bool-cases, ◌⊎◌, inl, inr, leb, ltb, ◌==◌, All, chain_passes, invariant,
}
use agent_tty.EventLog.Record.{EventRecord, Payload, marker, is_valid_payload}
use agent_tty.EventLog.Codec.{
  EventLogLimit, bytes, events, event_log_stop_label, is_stop_label, assert_event_log_size,
  max_event_log_size, find_event_log_stop,
}
use agent_tty.EventLog.Store.{
  EventLog, written_whole, settle_write, event_log_tail_reserve_bytes,
  event_log_tail_reserve_entries, max_event_buffer_entries,
}
use agent_tty.EventLog.Append.{
  limit_of, prepare_record, stop_flag, append, queue_append, Action, append_record, write_settles,
  rejection_runs, act, act_all,
}
use agent_tty.EventLog.Content.{LogFile, LineReader}
use agent_tty.EventLog.Open.{
  EventLogOptions, opened, or_default, construct, holds_none, read_existing, open_log,
}
use agent_tty.EventLog.Stoppable.{CanStop, Acknowledges}
use agent_tty.EventLog.Acknowledged.{FirstMarkerFits, append-Acknowledges}
use agent_tty.EventLog.Settle.{
  settle_write_lands, List-cases, settle_write_idle, run_rejection_idle,
}

construct_passes :
    (s t : EventLog)
    → construct s ≡ ok t
    → (s ≡ t)
      × (event_log_tail_reserve_bytes < s.max_bytes)
      × (s.max_bytes ≤ max_event_log_size)
      × (event_log_tail_reserve_entries < s.max_entries)
      × (s.max_entries ≤ max_event_buffer_entries)
      × (s.next_seq ≡ length s.event_buffer)
unfolding construct
construct_passes s t passed =
    let (_, bytes_hold, rest) =
      chain_passes
        (invariant
          (ltb event_log_tail_reserve_bytes s.max_bytes && leb s.max_bytes max_event_log_size) _)
        _ passed in
    let (_, entries_hold, last) =
      chain_passes
        (invariant
          (ltb event_log_tail_reserve_entries s.max_entries
            && leb s.max_entries max_event_buffer_entries)
          _)
        _ rest in
    let (_, counted, same) =
      chain_passes (invariant (s.next_seq == length s.event_buffer) _) _ last in
    (
      ground arith,
      ground (arith, bytes_hold),
      ground (arith, bytes_hold),
      ground (arith, entries_hold),
      ground (arith, entries_hold),
      ground (arith, counted),
    )

opened_room :
    (records : List EventRecord) (size max_bytes max_entries : ℕ)
    → not (holds_none records && ltb max_bytes (size + event_log_tail_reserve_bytes)) ≡ true
    → event_log_tail_reserve_entries < max_entries
    → (0 < length records)
      ⊎ ((is_some (find_event_log_stop records) ≡ false)
          × (size + event_log_tail_reserve_bytes ≤ max_bytes)
          × (event_log_tail_reserve_entries < max_entries))
unfolding find_event_log_stop
opened_room [] size max_bytes max_entries free entries = inr (refl, ground arith, entries)
opened_room (r ∷ records) size max_bytes max_entries free entries = inl (omega arith)

module _ {V : Type 0} (reader : LineReader V) (file : LogFile) (options : EventLogOptions) where
  open_log-CanStop : (s : EventLog) → open_log reader file options ≡ ok s → CanStop s
  unfolding open_log
  open_log-CanStop s passed =
      let max_bytes = or_default options.max_bytes max_event_log_size in
      let max_entries = or_default options.max_entries max_event_buffer_entries in
      let (_, _, rest) = chain_passes (assert_event_log_size file.size) _ passed in
      let (records, _, rest1) = chain_passes (read_existing reader file) _ rest in
      let (_, free, last) =
        chain_passes
          (invariant
            (not (holds_none records && ltb max_bytes (file.size + event_log_tail_reserve_bytes)))
            _)
          _ rest1 in
      let t = opened records file.size max_bytes max_entries in
      let (same, reserve, limit, reserve_entries, entry_limit, counted) =
        construct_passes t s last in
      subst CanStop same (record {
        next = counted;
        running = refl;
        clean = refl;
        none_rejected = refl;
        bytes_limit = limit;
        entries_limit = entry_limit;
        room =
            opened_room records file.size max_bytes max_entries (ground (arith, free))
              reserve_entries;
      })

module _ (line_bytes : EventRecord → ℕ) where
  -- The stop marker of an empty log, written at this time, takes no more than the reserve, whichever
  -- limit it names.
  abbrev pub IsBrief : Text → Type 0
  IsBrief now =
      (reason : EventLogLimit) (limit : ℕ)
      → limit ≤ max_event_log_size
      → line_bytes
          (record { seq = 0; ts = now; payload = marker (event_log_stop_label reason limit) })
        ≤ event_log_tail_reserve_bytes

  -- No write fails.
  abbrev pub Lands : Action → Type 0
  Lands (append_record now payload) = IsBrief now
  Lands (write_settles outcome) = outcome ≡ written_whole
  Lands rejection_runs = Unit

  limit_bounded :
      (reason : EventLogLimit) (s : EventLog)
      → CanStop s
      → limit_of reason (stop_flag s) ≤ max_event_log_size
  limit_bounded bytes s v = v.bytes_limit
  limit_bounded events s v = omega (arith, v.entries_limit)

  brief-FirstMarkerFits :
      (now : Text) (s : EventLog) → IsBrief now → CanStop s → FirstMarkerFits line_bytes now s
  unfolding prepare_record
  brief-FirstMarkerFits now s brief v empty reason =
      let first : s.next_seq ≡ 0 = omega (arith, v.next, ap (λ xs. length xs) empty) in
      let limit = limit_of reason (stop_flag s) in
      subst
        (λ seq.
          line_bytes
            (record { seq = seq; ts = now; payload = marker (event_log_stop_label reason limit) })
          ≤ event_log_tail_reserve_bytes)
        (sym first) (brief reason limit (limit_bounded reason s v))

  append_refused :
      (now : Text) (payload : Payload) (s : EventLog)
      → (is_stop_label payload ≡ true) ⊎ (is_valid_payload payload ≡ false)
      → (append line_bytes now payload s).0 ≡ s
  unfolding append queue_append
  append_refused now payload s (inl reserved) = ground arith
  append_refused now payload s (inr bad) = ground arith

  append-CanStop :
      (now : Text) (payload : Payload) (s : EventLog)
      → IsBrief now
      → CanStop s
      → CanStop (append line_bytes now payload s).0
  append-CanStop now payload s brief v = elim (Bool-cases (is_stop_label payload)) [
    | inl reserved ↦ subst CanStop (sym (append_refused now payload s (inl reserved))) v
    | inr free ↦ elim (Bool-cases (is_valid_payload payload)) [
      | inl valid ↦
          let (_, _, _, kept) =
            append-Acknowledges line_bytes now payload s v free valid
              (brief-FirstMarkerFits now s brief v) in
          kept
      | inr bad ↦ subst CanStop (sym (append_refused now payload s (inr bad))) v
    ]
  ]

  settle_write-CanStop : (s : EventLog) → CanStop s → CanStop (settle_write written_whole s)
  settle_write-CanStop s v = elim (List-cases s.pending) [
    | inl idle ↦ subst CanStop (sym (settle_write_idle written_whole s idle)) v
    | inr (p, rest, queue) ↦
        subst CanStop (sym (settle_write_lands s p rest queue v.clean)) (record {
          next = v.next;
          running = v.running;
          clean = v.clean;
          none_rejected = v.none_rejected;
          bytes_limit = v.bytes_limit;
          entries_limit = v.entries_limit;
          room = v.room;
        })
  ]

  act-CanStop : (a : Action) (s : EventLog) → Lands a → CanStop s → CanStop (act line_bytes a s)
  unfolding act
  act-CanStop (append_record now payload) s brief v = append-CanStop now payload s brief v
  act-CanStop (write_settles outcome) s landed v = rw landed (settle_write-CanStop s v)
  act-CanStop rejection_runs s landed v =
      subst CanStop (sym (run_rejection_idle s v.none_rejected)) v

  act_all-CanStop :
      (actions : List Action) (s : EventLog)
      → All Lands actions
      → CanStop s
      → CanStop (act_all line_bytes actions s)
  unfolding act_all
  act_all-CanStop [] s landed v = v
  act_all-CanStop (a ∷ actions) s landed v =
      act_all-CanStop actions (act line_bytes a s) landed.1 (act-CanStop a s landed.0 v)

  -- On whatever file a log was opened, and whatever was appended since, as long as no write has failed
  -- every append of a valid payload without the reserved label is acknowledged, stored or not, with the
  -- `seq` of the last record of the buffer, if the stop marker of an empty log fits into the reserve.
  pub append_acknowledged :
      {V : Type 0} (reader : LineReader V) (file : LogFile) (options : EventLogOptions)
      (s : EventLog) (actions : List Action) (now : Text) (payload : Payload)
      → open_log reader file options ≡ ok s
      → All Lands actions
      → IsBrief now
      → is_stop_label payload ≡ false
      → is_valid_payload payload ≡ true
      → Acknowledges (append line_bytes now payload (act_all line_bytes actions s))
  append_acknowledged reader file options s actions now payload passed landed brief free valid =
      let v = act_all-CanStop actions s landed (open_log-CanStop reader file options s passed) in
      append-Acknowledges line_bytes now payload (act_all line_bytes actions s) v free valid
        (brief-FirstMarkerFits now (act_all line_bytes actions s) brief v)
