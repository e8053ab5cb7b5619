-- ===== src/EventLog/Durable.antt =====
-- The writer of src/host/eventLog.ts under every interleaving of appends, settling writes and
-- rollbacks.
use agent_tty.EventLog.Invariant.{Queue, IsConsistent}
use agent_tty.EventLog.Rollback.{enqueue-IsConsistent}
use agent_tty.EventLog.Settle.{settle_write-IsConsistent, run_rejection-IsConsistent}
use agent_tty.Prelude.{
  ℕ, ◌≡◌, sym, subst, Bool, true, false, List, [], ◌∷◌, arith, some, none, Option, Text, ◌⊎◌, inl,
  inr, Bool-cases,
}
use agent_tty.EventLog.Record.{EventRecord, Payload}
use agent_tty.EventLog.Codec.{EventLogLimit, is_stop_label}
use agent_tty.EventLog.Store.{EventLog, Prepared, enqueue}
use agent_tty.EventLog.Append.{
  stop_flag, prepare_record, prepare_stop, record_stop, acknowledge_unstored, queue_append, append,
  store_or_stop, find_stop_reason, Action, append_record, write_settles, rejection_runs, act,
  act_all,
}

Queue-stop_flag : (b : Bool) (s : EventLog) → Queue b s → Queue b (stop_flag s)
Queue-stop_flag false s q = q
Queue-stop_flag true s q = q

stop_flag-IsConsistent : (s : EventLog) → IsConsistent s → IsConsistent (stop_flag s)
stop_flag-IsConsistent s v = record {
  contiguous = v.contiguous;
  next = v.next;
  queue = Queue-stop_flag s.poisoned s v.queue;
  accounted = v.accounted;
  bytes_fit = v.bytes_fit;
  entries_fit = v.entries_fit;
}

pub acknowledge_unstored_lem : (s : EventLog) → (acknowledge_unstored s).0 ≡ s
unfolding acknowledge_unstored
acknowledge_unstored_lem s = ground arith

module _ (line_bytes : EventRecord → ℕ) (now : Text) where
  pub record_stop_cases :
      (reason : EventLogLimit) (s : EventLog)
      → ((record_stop line_bytes now reason s).0 ≡ stop_flag s)
        ⊎ ((record_stop line_bytes now reason s).0
            ≡ (enqueue (prepare_stop line_bytes now reason (stop_flag s)) (stop_flag s)).0)
  unfolding record_stop
  record_stop_cases reason s = ground arith

  record_stop-IsConsistent :
      (reason : EventLogLimit) (s : EventLog)
      → IsConsistent s
      → IsConsistent (record_stop line_bytes now reason s).0
  record_stop-IsConsistent reason s v =
      let w = stop_flag-IsConsistent s v in
      elim (record_stop_cases reason s) [
        | inl e ↦ subst IsConsistent (sym e) w
        | inr e ↦ subst IsConsistent (sym e) (enqueue-IsConsistent _ (stop_flag s) w)
      ]

  pub store_or_stop_cases :
      (p : Prepared) (reason : EventLogLimit) (s : EventLog)
      → ((store_or_stop line_bytes now p (some reason) s).0 ≡ s)
        ⊎ ((store_or_stop line_bytes now p (some reason) s).0
            ≡ (record_stop line_bytes now reason s).0)
  unfolding store_or_stop
  store_or_stop_cases p reason s = ground (
    arith,
    acknowledge_unstored_lem s,
    acknowledge_unstored_lem (record_stop line_bytes now reason s).0,
  )

  store_or_stop-IsConsistent :
      (p : Prepared) (o : Option EventLogLimit) (s : EventLog)
      → IsConsistent s
      → IsConsistent (store_or_stop line_bytes now p o s).0
  store_or_stop-IsConsistent p none s v = unfold store_or_stop in enqueue-IsConsistent p s v
  store_or_stop-IsConsistent p (some reason) s v = elim (store_or_stop_cases p reason s) [
    | inl e ↦ subst IsConsistent (sym e) v
    | inr e ↦ subst IsConsistent (sym e) (record_stop-IsConsistent reason s v)
  ]

  pub queue_append_cases :
      (payload : Payload) (s : EventLog)
      → let p = prepare_record line_bytes now payload s in
        ((queue_append line_bytes now payload s).0 ≡ s)
        ⊎ ((queue_append line_bytes now payload s).0
            ≡ (store_or_stop line_bytes now p (find_stop_reason payload p.size s) s).0)
  unfolding queue_append
  queue_append_cases payload s = ground (arith, acknowledge_unstored_lem s)

  pub append-IsConsistent :
      (payload : Payload) (s : EventLog)
      → IsConsistent s
      → IsConsistent (append line_bytes now payload s).0
  unfolding append
  append-IsConsistent payload s v = elim (Bool-cases (is_stop_label payload)) [
    | inl reserved ↦ rw reserved v
    | inr free ↦ rw free (elim (queue_append_cases payload s) [
      | inl e ↦ subst IsConsistent (sym e) v
      | inr e ↦ subst IsConsistent (sym e) (store_or_stop-IsConsistent _ _ s v)
    ])
  ]

module _ (line_bytes : EventRecord → ℕ) where
  act-IsConsistent :
      (a : Action) (s : EventLog) → IsConsistent s → IsConsistent (act line_bytes a s)
  unfolding act
  act-IsConsistent (append_record now payload) s v = append-IsConsistent line_bytes now payload s v
  act-IsConsistent (write_settles outcome) s v = settle_write-IsConsistent outcome s v
  act-IsConsistent rejection_runs s v = run_rejection-IsConsistent s v

  -- In any order of appends, landing and failing writes and rejection handlers, a consistent log
  -- stays consistent: `seq` is each record's position in the buffer, the whole lines of the file on
  -- disk hold a prefix of the buffer (all of it but the waiting writes, while no write has failed),
  -- and the buffer and the file stay inside the limits.
  pub act_all-IsConsistent :
      (actions : List Action) (s : EventLog)
      → IsConsistent s
      → IsConsistent (act_all line_bytes actions s)
  unfolding act_all
  act_all-IsConsistent [] s v = v
  act_all-IsConsistent (a ∷ actions) s v =
      act_all-IsConsistent actions (act line_bytes a s) (act-IsConsistent a s v)
