-- ===== src/EventLog/Stored.antt =====
-- What the writer of src/host/eventLog.ts stores: valid payloads, in lines of known sizes.
use agent_tty.Prelude.{
  ℕ, zero, suc, ◌+◌, ◌≤◌, ◌<◌, ◌≡◌, refl, sym, subst, true, Option, some, none, List, [], ◌∷◌, ◌++◌,
  All, All-append, take, arith, ◌⊎◌, inl, inr, Text,
}
use agent_tty.EventLog.Record.{EventRecord, Payload, marker, is_valid_payload}
use agent_tty.EventLog.Codec.{EventLogLimit, event_log_stop_label, max_event_log_size}
use agent_tty.EventLog.Store.{
  EventLog, Prepared, enqueue, max_event_buffer_entries, event_log_tail_reserve_bytes,
  event_log_tail_reserve_entries,
}
use agent_tty.EventLog.Append.{
  stop_flag, prepare_record, prepare_stop, limit_of, record_stop, queue_append, append,
  store_or_stop, find_stop_reason,
}
use agent_tty.EventLog.Rollback.{enqueue_cases}
use agent_tty.EventLog.Durable.{record_stop_cases, store_or_stop_cases, acknowledge_unstored_lem}

pub All-take {ℓ κ} :
    {A : Type ℓ} (P : A → Type κ) (n : ℕ) (xs : List A) → All P xs → All P (take n xs)
All-take P zero xs all = tt
All-take P (suc n) [] all = tt
All-take P (suc n) (x ∷ xs) all = (all.0, All-take P n xs all.1)

-- `IsRecordable` tells the times and the payloads that JSON and zod give back as they were: an ISO
-- timestamp, code units of 16 bits, numbers that JavaScript holds exactly.
module _ (line_bytes : EventRecord → ℕ) (IsRecordable : Text → Payload → Type 0) where
  -- What is recorded: `EventRecordSchema` takes it.
  abbrev pub IsValid : EventRecord → Type 0
  IsValid r = IsRecordable r.ts r.payload × (is_valid_payload r.payload ≡ true)

  abbrev pub lines_size : List EventRecord → ℕ
  lines_size [] = 0
  lines_size (r ∷ records) = line_bytes r + lines_size records

  abbrev pub torn_size : Option Prepared → ℕ
  torn_size none = 0
  torn_size (some p) = p.size

  -- A line that a failed write left is cut before its newline.
  abbrev pub IsCut : Option Prepared → Type 0
  IsCut none = Unit
  IsCut (some p) = (0 < p.size) × (p.size < line_bytes p.event)

  abbrev pub Sized : Prepared → Type 0
  Sized p = p.size ≡ line_bytes p.event

  -- The buffer's records are such that they read back, the file is its lines, and the limits are such as the
  -- constructor takes.
  pub record IsStored (s : EventLog) : Type 0 where
    pub valid : All IsValid s.event_buffer
    pub lines : s.file_size ≡ lines_size s.file + torn_size s.torn
    pub torn : IsCut s.torn
    pub untorn : (s.poisoned ≡ true) ⊎ (s.torn ≡ none)
    pub waiting : All Sized s.pending
    pub reserve : event_log_tail_reserve_bytes < s.max_bytes
    pub size_limit : s.max_bytes ≤ max_event_log_size
    pub reserve_entries : event_log_tail_reserve_entries < s.max_entries
    pub entry_limit : s.max_entries ≤ max_event_buffer_entries

  pub lines_size-snoc :
      (records : List EventRecord) (r : EventRecord)
      → lines_size (records ++ r ∷ []) ≡ lines_size records + line_bytes r
  lines_size-snoc [] r = omega arith
  lines_size-snoc (x ∷ records) r = omega (arith, lines_size-snoc records r)

  stop_flag-IsStored : (s : EventLog) → IsStored s → IsStored (stop_flag s)
  stop_flag-IsStored s v = record {
    valid = v.valid;
    lines = v.lines;
    torn = v.torn;
    untorn = v.untorn;
    waiting = v.waiting;
    reserve = v.reserve;
    size_limit = v.size_limit;
    reserve_entries = v.reserve_entries;
    entry_limit = v.entry_limit;
  }

  pub enqueue-IsStored :
      (p : Prepared) (s : EventLog)
      → IsStored s
      → IsValid p.event
      → Sized p
      → IsStored (enqueue p s).0
  enqueue-IsStored p s v ok_payload sized = elim (enqueue_cases p s) [
    | inl same ↦ subst IsStored (sym same) v
    | inr (pushed, _, _, _) ↦ subst IsStored (sym pushed) (record {
      valid = All-append IsValid s.event_buffer (p.event ∷ []) v.valid (ok_payload, tt);
      lines = v.lines;
      torn = v.torn;
      untorn = v.untorn;
      waiting = All-append Sized s.pending (p ∷ []) v.waiting (sized, tt);
      reserve = v.reserve;
      size_limit = v.size_limit;
      reserve_entries = v.reserve_entries;
      entry_limit = v.entry_limit;
    })
  ]

  module _ (now : Text)
      (marks : (reason : EventLogLimit) (limit : ℕ)
        → IsRecordable now (marker (event_log_stop_label reason limit))) where
    record_stop-IsStored :
        (reason : EventLogLimit) (s : EventLog)
        → IsStored s
        → IsStored (record_stop line_bytes now reason s).0
    unfolding prepare_record is_valid_payload
    record_stop-IsStored reason s v =
        let w = stop_flag-IsStored s v in
        elim (record_stop_cases line_bytes now reason s) [
          | inl e ↦ subst IsStored (sym e) w
          | inr e ↦ subst IsStored (sym e) (
              enqueue-IsStored (prepare_stop line_bytes now reason (stop_flag s)) (stop_flag s) w
                (marks reason (limit_of reason (stop_flag s)), refl) refl)
        ]

    store_or_stop-IsStored :
        (p : Prepared) (o : Option EventLogLimit) (s : EventLog)
        → IsStored s
        → IsValid p.event
        → Sized p
        → IsStored (store_or_stop line_bytes now p o s).0
    store_or_stop-IsStored p none s v ok_payload sized =
        unfold store_or_stop in enqueue-IsStored p s v ok_payload sized
    store_or_stop-IsStored p (some reason) s v ok_payload sized =
        elim (store_or_stop_cases line_bytes now p reason s) [
          | inl e ↦ subst IsStored (sym e) v
          | inr e ↦ subst IsStored (sym e) (record_stop-IsStored reason s v)
        ]

    valid_append_cases :
        (payload : Payload) (s : EventLog)
        → let p = prepare_record line_bytes now payload s in
          ((append line_bytes now payload s).0 ≡ s)
          ⊎ ((is_valid_payload payload ≡ true)
              × ((append line_bytes now payload s).0
                  ≡ (store_or_stop line_bytes now p (find_stop_reason payload p.size s) s).0))
    unfolding append queue_append
    valid_append_cases payload s = ground (arith, acknowledge_unstored_lem s)

    pub append-IsStored :
        (payload : Payload) (s : EventLog)
        → IsRecordable now payload
        → IsStored s
        → IsStored (append line_bytes now payload s).0
    unfolding prepare_record
    append-IsStored payload s plain v = elim (valid_append_cases payload s) [
      | inl e ↦ subst IsStored (sym e) v
      | inr (ok_payload, e) ↦ subst IsStored (sym e) (
          store_or_stop-IsStored (prepare_record line_bytes now payload s) _ s v (plain, ok_payload)
            refl)
    ]
