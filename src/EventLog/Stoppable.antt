-- ===== src/EventLog/Stoppable.antt =====
-- When a log of src/host/eventLog.ts can say that it stops, whatever it is given next.
use agent_tty.Prelude.{
  ℕ, ◌+◌, ◌≤◌, ◌<◌, ◌≡◌, true, false, [], ◌∷◌, length, length-append, ok, arith, ◌⊎◌, inl, inr,
  Result,
}
use agent_tty.EventLog.Codec.{max_event_log_size}
use agent_tty.EventLog.Store.{
  EventLog, Prepared, Failure, max_event_buffer_entries, push, event_log_tail_reserve_bytes,
  event_log_tail_reserve_entries,
}
use agent_tty.EventLog.Append.{stop_flag}

-- An open log that holds a record, or has its reserve free for the first one.
pub record CanStop (s : EventLog) : Type 0 where
  pub next : s.next_seq ≡ length s.event_buffer
  pub running : s.is_closed ≡ false
  pub clean : s.poisoned ≡ false
  pub none_rejected : s.rejected ≡ []
  pub bytes_limit : s.max_bytes ≤ max_event_log_size
  pub entries_limit : s.max_entries ≤ max_event_buffer_entries
  pub room :
      (0 < length s.event_buffer)
      ⊎ ((s.stopped ≡ false)
          × (s.file_bytes + event_log_tail_reserve_bytes ≤ s.max_bytes)
          × (event_log_tail_reserve_entries < s.max_entries))

-- An append gives the `seq` of the last record of the buffer that it leaves.
abbrev pub Acknowledges : EventLog × Result Failure ℕ → Type 0
Acknowledges (s, outcome) = (seq : ℕ) × (outcome ≡ ok seq) × (seq + 1 ≡ s.next_seq) × CanStop s

pub push-CanStop : (p : Prepared) (s : EventLog) → CanStop s → CanStop (push p s)
push-CanStop p s v = record {
  next = omega (arith, v.next, length-append s.event_buffer (p.event ∷ []));
  running = v.running;
  clean = v.clean;
  none_rejected = v.none_rejected;
  bytes_limit = v.bytes_limit;
  entries_limit = v.entries_limit;
  room = inl (omega (arith, length-append s.event_buffer (p.event ∷ [])));
}

pub stop_flag-CanStop :
    (s : EventLog) → CanStop s → 0 < length s.event_buffer → CanStop (stop_flag s)
stop_flag-CanStop s v earlier = record {
  next = v.next;
  running = v.running;
  clean = v.clean;
  none_rejected = v.none_rejected;
  bytes_limit = v.bytes_limit;
  entries_limit = v.entries_limit;
  room = inl earlier;
}

-- The log that stops, now holding its marker.
pub marked-CanStop : (p : Prepared) (s : EventLog) → CanStop s → CanStop (push p (stop_flag s))
marked-CanStop p s v = record {
  next = omega (arith, v.next, length-append s.event_buffer (p.event ∷ []));
  running = v.running;
  clean = v.clean;
  none_rejected = v.none_rejected;
  bytes_limit = v.bytes_limit;
  entries_limit = v.entries_limit;
  room = inl (omega (arith, length-append s.event_buffer (p.event ∷ [])));
}

pub stopped_earlier : (s : EventLog) → CanStop s → s.stopped ≡ true → 0 < length s.event_buffer
stopped_earlier s v st = elim v.room [
  | inl earlier ↦ earlier
  | inr (running, _, _) ↦ absurd (cc (running, st))
]
