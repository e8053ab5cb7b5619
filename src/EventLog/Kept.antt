-- ===== src/EventLog/Kept.antt =====
-- The steps of the writer of src/host/eventLog.ts that store nothing: a write settles, and a rejected
-- one is rolled back.
use agent_tty.Prelude.{
  ℕ, ◌+◌, ◌≤◌, ◌≡◌, refl, ap, ◌∙◌, Bool, true, List, [], ◌∷◌, ◌++◌, length, length-take, arith, inl,
  inr, Bool-cases, Option, subst, sym,
}
use agent_tty.EventLog.Record.{EventRecord}
use agent_tty.EventLog.Store.{
  EventLog, Prepared, WriteOutcome, written_whole, written_part, torn_line, torn_bytes,
  settle_first, rollback_buffered_events_from, settle_head, settle_write, reject_head,
  run_rejection,
}

-- A step that stores nothing new.
pub record StoresNothing (s s' : EventLog) : Type 0 where
  pub flag : s'.stopped ≡ s.stopped
  pub used : s'.file_bytes ≡ s.file_bytes
  pub bytes_limit : s'.max_bytes ≡ s.max_bytes
  pub entries_limit : s'.max_entries ≡ s.max_entries
  pub shorter : length s'.event_buffer ≤ length s.event_buffer

rollback_buffered_events_from-StoresNothing :
    (seq : ℕ) (s : EventLog) → StoresNothing s (rollback_buffered_events_from seq s).0
unfolding rollback_buffered_events_from
rollback_buffered_events_from-StoresNothing seq s = record {
  flag = ground arith;
  used = ground arith;
  bytes_limit = ground arith;
  entries_limit = ground arith;
  shorter = ground (arith, length-take seq s.event_buffer);
}

-- Nothing but the queue changes, or a rollback follows it.
record OnlyQueue (s s' : EventLog) : Type 0 where
  flag : s'.stopped ≡ s.stopped
  used : s'.file_bytes ≡ s.file_bytes
  bytes_limit : s'.max_bytes ≡ s.max_bytes
  entries_limit : s'.max_entries ≡ s.max_entries
  buffer : s'.event_buffer ≡ s.event_buffer

OnlyQueue-StoresNothing : (s s' : EventLog) → OnlyQueue s s' → StoresNothing s s'
OnlyQueue-StoresNothing s s' q = record {
  flag = q.flag;
  used = q.used;
  bytes_limit = q.bytes_limit;
  entries_limit = q.entries_limit;
  shorter = omega (arith, ap length q.buffer);
}

rollback-StoresNothing :
    (seq : ℕ) (s s' : EventLog)
    → OnlyQueue s s'
    → StoresNothing s (rollback_buffered_events_from seq s').0
rollback-StoresNothing seq s s' q =
    let k = rollback_buffered_events_from-StoresNothing seq s' in
    record {
      flag = k.flag ∙ q.flag;
      used = k.used ∙ q.used;
      bytes_limit = k.bytes_limit ∙ q.bytes_limit;
      entries_limit = k.entries_limit ∙ q.entries_limit;
      shorter = omega (arith, k.shorter, ap length q.buffer);
    }

queue_only :
    (s : EventLog) (poisoned : Bool) (pending : List Prepared) (rejected : List ℕ)
    (file : List EventRecord) (torn : Option Prepared) (file_size : ℕ)
    → OnlyQueue s (record s {
      pending = pending;
      rejected = rejected;
      poisoned = poisoned;
      file = file;
      torn = torn;
      file_size = file_size;
    })
queue_only s poisoned pending rejected file torn file_size = record {
  flag = refl;
  used = refl;
  bytes_limit = refl;
  entries_limit = refl;
  buffer = refl;
}

settle_first-StoresNothing :
    (outcome : WriteOutcome) (p : Prepared) (ps : List Prepared) (s : EventLog)
    → StoresNothing s (settle_first outcome p ps s)
settle_first-StoresNothing written_whole p ps s =
    OnlyQueue-StoresNothing s _
      (queue_only s s.poisoned ps s.rejected (s.file ++ p.event ∷ []) s.torn (s.file_size + p.size))
settle_first-StoresNothing (written_part part) p ps s = rollback-StoresNothing p.event.seq s _ (
    queue_only s true ps (s.rejected ++ p.event.seq ∷ []) s.file (torn_line part p)
      (s.file_size + torn_bytes part p))

settle_head-StoresNothing :
    (outcome : WriteOutcome) (ps : List Prepared) (s : EventLog)
    → StoresNothing s (settle_head outcome ps s)
settle_head-StoresNothing outcome [] s =
    OnlyQueue-StoresNothing s s
      (queue_only s s.poisoned s.pending s.rejected s.file s.torn s.file_size)
settle_head-StoresNothing outcome (p ∷ ps) s = elim (Bool-cases s.poisoned) [
  | inl e ↦ simp e (
      OnlyQueue-StoresNothing s _
        (queue_only s true ps (s.rejected ++ p.event.seq ∷ []) s.file s.torn s.file_size))
  | inr e ↦ subst (StoresNothing s) (sym (simp e)) (settle_first-StoresNothing outcome p ps s)
]

pub settle_write-StoresNothing :
    (outcome : WriteOutcome) (s : EventLog) → StoresNothing s (settle_write outcome s)
unfolding settle_write
settle_write-StoresNothing outcome s = settle_head-StoresNothing outcome s.pending s

reject_head-StoresNothing : (seqs : List ℕ) (s : EventLog) → StoresNothing s (reject_head seqs s)
reject_head-StoresNothing [] s =
    OnlyQueue-StoresNothing s s
      (queue_only s s.poisoned s.pending s.rejected s.file s.torn s.file_size)
reject_head-StoresNothing (seq ∷ seqs) s =
    rollback-StoresNothing seq s (record s { rejected = seqs })
      (queue_only s s.poisoned s.pending seqs s.file s.torn s.file_size)

pub run_rejection-StoresNothing : (s : EventLog) → StoresNothing s (run_rejection s)
unfolding run_rejection
run_rejection-StoresNothing s = reject_head-StoresNothing s.rejected s
