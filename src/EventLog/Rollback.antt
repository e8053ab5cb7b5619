-- ===== src/EventLog/Rollback.antt =====
-- `enqueue` and `rollbackBufferedEventsFrom` of src/host/eventLog.ts under the invariant.
use agent_tty.EventLog.Invariant.{
  Contiguous, Queue, IsConsistent, Contiguous-take, Contiguous-get_elem?, IsPrefix-take,
  push-IsConsistent,
}
use native.Mathlib.Decide.{dec_lt}
use agent_tty.Prelude.{
  ℕ, ◌+◌, ◌≤◌, ◌<◌, ◌≡◌, sym, ap, subst, true, length, length-take, take, arith, ok, ◌⊎◌, inl, inr,
}
use agent_tty.EventLog.Store.{EventLog, Prepared, push, enqueue, rollback_buffered_events_from}

-- `enqueue` throws and changes nothing, or its checks hold and it adds the record.
pub enqueue_cases :
    (p : Prepared) (s : EventLog)
    → ((enqueue p s).0 ≡ s)
      ⊎ (((enqueue p s).0 ≡ push p s)
          × (p.event.seq ≡ length s.event_buffer)
          × (length s.event_buffer < s.max_entries)
          × (s.file_bytes + p.size ≤ s.max_bytes))
unfolding enqueue
enqueue_cases p s = ground arith

pub enqueue-IsConsistent :
    (p : Prepared) (s : EventLog) → IsConsistent s → IsConsistent (enqueue p s).0
enqueue-IsConsistent p s v = elim (enqueue_cases p s) [
  | inl same ↦ subst IsConsistent (sym same) v
  | inr (pushed, e, room, fits) ↦
      subst IsConsistent (sym pushed) (push-IsConsistent p s v e room fits)
]

abbrev pub cut : ℕ → EventLog → EventLog
cut seq s = record s { event_buffer = take seq s.event_buffer; next_seq = seq }

-- On a contiguous buffer a rollback never throws: it cuts the buffer, or finds nothing to cut.
rollback_cases :
    (seq : ℕ) (s : EventLog)
    → Contiguous 0 s.event_buffer
    → ((rollback_buffered_events_from seq s ≡ (s, ok tt)) × (length s.event_buffer ≤ seq))
      ⊎ ((rollback_buffered_events_from seq s ≡ (cut seq s, ok tt)) × (seq < length s.event_buffer))
unfolding rollback_buffered_events_from
rollback_cases seq s c = elim (dec_lt seq (length s.event_buffer)) [
  | yes lt ↦
      let (r, at, e) = Contiguous-get_elem? 0 seq s.event_buffer c lt in
      inr (ground (arith, at, e), lt)
  | no ge ↦ inl (ground arith, omega arith)
]

cut-IsConsistent :
    (seq : ℕ) (s : EventLog)
    → IsConsistent s
    → s.poisoned ≡ true
    → length s.file ≤ seq
    → seq < length s.event_buffer
    → IsConsistent (cut seq s)
cut-IsConsistent seq s v dirty late lt = record {
  contiguous = Contiguous-take seq 0 s.event_buffer v.contiguous;
  next = omega (arith, length-take seq s.event_buffer);
  queue = rw dirty (
      let q : Queue true s = subst (λ b. Queue b s) dirty v.queue in
      (IsPrefix-take seq s.file s.event_buffer q.0 late, q.1, q.2));
  accounted = v.accounted;
  bytes_fit = v.bytes_fit;
  entries_fit = omega (arith, v.entries_fit, length-take seq s.event_buffer);
}

pub rollback-IsConsistent :
    (seq : ℕ) (s : EventLog)
    → IsConsistent s
    → s.poisoned ≡ true
    → length s.file ≤ seq
    → IsConsistent (rollback_buffered_events_from seq s).0
rollback-IsConsistent seq s v dirty late = elim (rollback_cases seq s v.contiguous) [
  | inl (e, ge) ↦ subst IsConsistent (sym (ap (λ x. x.0) e)) v
  | inr (e, lt) ↦
      subst IsConsistent (sym (ap (λ x. x.0) e)) (cut-IsConsistent seq s v dirty late lt)
]
