-- ===== src/EventLog/Acknowledged.antt =====
-- What `append` of src/host/eventLog.ts acknowledges, on a log that keeps room to say that it stops.
use agent_tty.Prelude.{
  ℕ, ◌+◌, ◌-◌, ◌≤◌, ◌<◌, ◌≡◌, refl, sym, ap, subst, true, false, not, ◌&&◌, none, some, [], length,
  ok, Text, arith, Bool-cases, Option-cases, ◌⊎◌, inl, inr,
}
use agent_tty.EventLog.Record.{EventRecord, Payload, is_exit, is_valid_payload}
use agent_tty.EventLog.Codec.{EventLogLimit, is_stop_label}
use agent_tty.EventLog.Store.{EventLog, Prepared, enqueue, push, event_log_tail_reserve_bytes, ◌>>◌}
use agent_tty.EventLog.Append.{
  acknowledge_unstored, find_stop_reason, prepare_record, prepare_stop, record_stop, store_or_stop,
  queue_append, append, stop_flag,
}
use agent_tty.EventLog.Stop.{
  append_stopped, enqueue_lem, record_stop_lem, acknowledge_unstored_lem, event_seq,
}
use agent_tty.EventLog.Settle.{List-cases}
use native.Mathlib.Decide.{dec_lt}
use agent_tty.EventLog.Stoppable.{
  CanStop, Acknowledges, push-CanStop, stop_flag-CanStop, marked-CanStop, stopped_earlier,
}

module _ (line_bytes : EventRecord → ℕ) (now : Text) where
  -- An ordinary record is stored, or stops the log, or finds it stopped.
  append_tries :
      (payload : Payload) (s : EventLog)
      → s.is_closed ≡ false
      → is_stop_label payload ≡ false
      → is_valid_payload payload ≡ true
      → s.stopped && not (is_exit payload) ≡ false
      → let p = prepare_record line_bytes now payload s in
        append line_bytes now payload s
        ≡ store_or_stop line_bytes now p (find_stop_reason payload p.size s) s
  unfolding append queue_append
  append_tries payload s o l va tries = simp (l, o, va, tries)

  acknowledged :
      (s : EventLog) → CanStop s → 0 < length s.event_buffer → Acknowledges (acknowledge_unstored s)
  acknowledged s v earlier =
      subst Acknowledges
        (sym (acknowledge_unstored_lem line_bytes now s (s.next_seq - 1) (omega (arith, v.next))))
        (s.next_seq - 1, refl, omega (arith, v.next), v)

  stored :
      (payload : Payload) (s : EventLog)
      → CanStop s
      → let p = prepare_record line_bytes now payload s in
        find_stop_reason payload p.size s ≡ none → Acknowledges (enqueue p s)
  unfolding find_stop_reason
  stored payload s v fits =
      let p = prepare_record line_bytes now payload s in
      let seq = event_seq line_bytes now payload s in
      subst Acknowledges
        (sym
          (enqueue_lem line_bytes now p s seq v.next (ground (arith, fits)) (ground (arith, fits))))
        (p.event.seq, refl, omega (arith, seq), push-CanStop p s v)

  -- On an empty log the stop marker fits into the reserve.
  abbrev pub FirstMarkerFits : EventLog → Type 0
  FirstMarkerFits s =
      s.event_buffer ≡ []
      → (reason : EventLogLimit)
      → (prepare_stop line_bytes now reason (stop_flag s)).size ≤ event_log_tail_reserve_bytes

  record_stop_full :
      (reason : EventLogLimit) (s : EventLog)
      → (s.max_bytes < s.file_bytes + (prepare_stop line_bytes now reason (stop_flag s)).size)
        ⊎ (s.max_entries < length s.event_buffer + 1)
      → record_stop line_bytes now reason s ≡ (stop_flag s, ok tt)
  unfolding record_stop
  record_stop_full reason s (inl over) = ground arith
  record_stop_full reason s (inr over) = ground arith

  -- The log stops with its marker, which the next `seq` tells.
  stops_marked :
      (reason : EventLogLimit) (s : EventLog)
      → CanStop s
      → length s.event_buffer < s.max_entries
      → s.file_bytes + (prepare_stop line_bytes now reason (stop_flag s)).size ≤ s.max_bytes
      → Acknowledges ((record_stop line_bytes now reason >> acknowledge_unstored) s)
  stops_marked reason s v room fits =
      let stop = prepare_stop line_bytes now reason (stop_flag s) in
      rw
        (
          record_stop_lem line_bytes now reason s v.next room fits,
          acknowledge_unstored_lem line_bytes now (push stop (stop_flag s)) s.next_seq refl,
        )
        (s.next_seq, refl, refl, marked-CanStop stop s v)

  -- It stops without its marker, for which an earlier record has left no room.
  stops_unmarked :
      (reason : EventLogLimit) (s : EventLog)
      → CanStop s
      → 0 < length s.event_buffer
      → (s.max_bytes < s.file_bytes + (prepare_stop line_bytes now reason (stop_flag s)).size)
        ⊎ (s.max_entries < length s.event_buffer + 1)
      → Acknowledges ((record_stop line_bytes now reason >> acknowledge_unstored) s)
  stops_unmarked reason s v earlier full =
      rw (record_stop_full reason s full)
        (acknowledged (stop_flag s) (stop_flag-CanStop s v earlier) earlier)

  stops_first :
      (reason : EventLogLimit) (s : EventLog)
      → s.event_buffer ≡ []
      → CanStop s
      → (prepare_stop line_bytes now reason (stop_flag s)).size ≤ event_log_tail_reserve_bytes
      → Acknowledges ((record_stop line_bytes now reason >> acknowledge_unstored) s)
  stops_first reason s e v small = elim v.room [
    | inl earlier ↦ absurd (omega (arith, earlier, ap (λ xs. length xs) e))
    | inr (_, bytes, entries) ↦
        stops_marked reason s v (omega (arith, ap (λ xs. length xs) e)) (omega arith)
  ]

  stops :
      (reason : EventLogLimit) (s : EventLog)
      → CanStop s
      → FirstMarkerFits s
      → Acknowledges ((record_stop line_bytes now reason >> acknowledge_unstored) s)
  stops reason s v small =
      let stop = prepare_stop line_bytes now reason (stop_flag s) in
      elim (List-cases s.event_buffer) [
        | inl e ↦ stops_first reason s e v (small e reason)
        | inr (r, rest, e) ↦
            let earlier : 0 < length s.event_buffer = rw e (omega arith) in
            elim (dec_lt s.max_bytes (s.file_bytes + stop.size)) [
              | yes over ↦ stops_unmarked reason s v earlier (inl over)
              | no fits ↦ elim (dec_lt s.max_entries (length s.event_buffer + 1)) [
                | yes over ↦ stops_unmarked reason s v earlier (inr over)
                | no room ↦ stops_marked reason s v (omega arith) (omega arith)
              ]
            ]
      ]

  store_or_stop_stopped :
      (p : Prepared) (reason : EventLogLimit) (s : EventLog)
      → s.stopped ≡ true
      → store_or_stop line_bytes now p (some reason) s ≡ acknowledge_unstored s
  unfolding store_or_stop
  store_or_stop_stopped p reason s st = simp st

  store_or_stop_running :
      (p : Prepared) (reason : EventLogLimit) (s : EventLog)
      → s.stopped ≡ false
      → store_or_stop line_bytes now p (some reason) s
        ≡ (record_stop line_bytes now reason >> acknowledge_unstored) s
  unfolding store_or_stop
  store_or_stop_running p reason s running = simp running

  tried :
      (payload : Payload) (s : EventLog)
      → CanStop s
      → FirstMarkerFits s
      → let p = prepare_record line_bytes now payload s in
        Acknowledges (store_or_stop line_bytes now p (find_stop_reason payload p.size s) s)
  unfolding store_or_stop
  tried payload s v small =
      let p = prepare_record line_bytes now payload s in
      elim (Option-cases (find_stop_reason payload p.size s)) [
        | inl fits ↦ rw fits (stored payload s v fits)
        | inr (reason, over) ↦ rw over (elim (Bool-cases s.stopped) [
          | inl st ↦
              subst Acknowledges (sym (store_or_stop_stopped p reason s st))
                (acknowledged s v (stopped_earlier s v st))
          | inr running ↦
              subst Acknowledges (sym (store_or_stop_running p reason s running))
                (stops reason s v small)
        ])
      ]

  pub append-Acknowledges :
      (payload : Payload) (s : EventLog)
      → CanStop s
      → is_stop_label payload ≡ false
      → is_valid_payload payload ≡ true
      → FirstMarkerFits s
      → Acknowledges (append line_bytes now payload s)
  append-Acknowledges payload s v l va small =
      let p = prepare_record line_bytes now payload s in
      elim (Bool-cases (s.stopped && not (is_exit payload))) [
        | inl dropped ↦
            let st : s.stopped ≡ true = ground arith in
            let ordinary : is_exit payload ≡ false = ground arith in
            let earlier = stopped_earlier s v st in
            subst Acknowledges
              (sym (
                append_stopped line_bytes now payload s v.running st ordinary l va
                  (omega (arith, v.next, earlier))))
              (s.next_seq - 1, refl, omega (arith, v.next, earlier), v)
        | inr tries ↦
            subst Acknowledges (sym (append_tries payload s v.running l va tries))
              (tried payload s v small)
      ]
