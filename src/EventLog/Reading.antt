-- ===== src/EventLog/Reading.antt =====
-- What the readers of src/storage/eventLogCodec.ts and `getEventsSince` of src/host/eventLog.ts
-- accept and return.
use agent_tty.Prelude.{
  ℕ, zero, suc, ◌+◌, ◌≤◌, ◌<◌, ◌≡◌, ◌↔◌, refl, sym, subst, ◌∙◌, true, false, Option, none, some,
  List, [], ◌∷◌, map, length, length-map, drop, ltb, leb, if◌then◌else◌, ok, arith, Bool-cases, inl,
  inr,
}
use agent_tty.EventLog.Record.{EventRecord, is_valid_payload}
use agent_tty.EventLog.Codec.{
  assert_seq_follows, assert_contiguous_sequence, validate_event_records, find_event_log_stop,
  is_event_log_stop_marker, stop_of_marker, Scan, start, read_line, scan_lines, scan_event_log,
  assert_contiguous_from, check_records,
}
use agent_tty.EventLog.Store.{EventLog, get_events_since}
use agent_tty.EventLog.Invariant.{Contiguous}

assert_contiguous_from_iff :
    (k : ℕ) (records : List EventRecord)
    → (assert_contiguous_from (some k) records ≡ ok tt) ↔ Contiguous (suc k) records
unfolding assert_contiguous_from
assert_contiguous_from_iff k [] = (λ h. tt, λ h. refl)
assert_contiguous_from_iff k (r ∷ records) = (
  λ h.
      let e : r.seq ≡ suc k = ground arith in
      let rest : assert_contiguous_from (some r.seq) records ≡ ok tt = ground arith in
      (
        e,
        subst (λ n. Contiguous (suc n) records) e
            ((assert_contiguous_from_iff r.seq records).0 rest),
      ),
  λ h.
      let rest =
        (assert_contiguous_from_iff r.seq records).1
          (subst (λ n. Contiguous (suc n) records) (sym h.0) h.1) in
      ground (arith, rest),
)

-- The sequence check passes exactly the logs in which each record's `seq` is its position.
pub assert_contiguous_sequence_iff :
    (records : List EventRecord)
    → (assert_contiguous_sequence records ≡ ok tt) ↔ Contiguous 0 records
unfolding assert_contiguous_sequence
assert_contiguous_sequence_iff [] = (λ h. tt, λ h. refl)
assert_contiguous_sequence_iff (r ∷ records) = (
  λ h.
      let e : r.seq ≡ 0 = ground arith in
      let rest : assert_contiguous_from (some r.seq) records ≡ ok tt = ground arith in
      (
        e,
        subst (λ n. Contiguous (suc n) records) e
            ((assert_contiguous_from_iff r.seq records).0 rest),
      ),
  λ h.
      let rest =
        (assert_contiguous_from_iff r.seq records).1
          (subst (λ n. Contiguous (suc n) records) (sym h.0) h.1) in
      ground (arith, rest),
)

-- The records behind the position `after`, told by their `seq`.
abbrev pub newer : ℕ → List EventRecord → List EventRecord
newer after [] = []
newer after (r ∷ records) =
    let rest = newer after records in if ltb after r.seq then r ∷ rest else rest

newer_all :
    (after k : ℕ) (records : List EventRecord)
    → Contiguous k records
    → after < k
    → newer after records ≡ records
newer_all after k [] c lt = refl
newer_all after k (r ∷ records) c lt = ground (arith, newer_all after (suc k) records)

newer-drop :
    (n after k : ℕ) (records : List EventRecord)
    → Contiguous k records
    → k + n ≡ suc after
    → newer after records ≡ drop n records
newer-drop zero after k [] c e = refl
newer-drop (suc n) after k [] c e = refl
newer-drop zero after k (r ∷ records) c e = newer_all after k (r ∷ records) c (omega arith)
newer-drop (suc n) after k (r ∷ records) c e = ground (arith, newer-drop n after (suc k) records)

none_newer :
    (after k : ℕ) (records : List EventRecord)
    → Contiguous k records
    → k + length records ≤ after
    → newer after records ≡ []
none_newer after k [] c le = refl
none_newer after k (r ∷ records) c le = ground (arith, none_newer after (suc k) records)

-- `getEventsSince(after)` of a contiguous buffer gives exactly the events whose `seq` is greater.
pub get_events_since_lem :
    (after : ℕ) (s : EventLog)
    → Contiguous 0 s.event_buffer
    → get_events_since (some after) s ≡ newer after s.event_buffer
unfolding get_events_since
get_events_since_lem after s c = elim (Bool-cases (leb (length s.event_buffer) after)) [
  | inl past ↦ rw past (sym (none_newer after 0 s.event_buffer c (ground arith)))
  | inr within ↦ rw within (sym (newer-drop (after + 1) after 0 s.event_buffer c (omega arith)))
]

read_line_done :
    (s : Scan) (line : Option EventRecord)
    → s.searching ≡ false
    → ((read_line s line).stop ≡ s.stop) × ((read_line s line).searching ≡ false)
unfolding read_line
read_line_done s line h = ground arith

-- A finished search only counts.
scan_lines_done :
    (s : Scan) (lines : List (Option EventRecord))
    → s.searching ≡ false
    → (scan_lines s lines).stop ≡ s.stop
unfolding scan_lines
scan_lines_done s [] h = refl
scan_lines_done s (line ∷ lines) h =
    let (same, still) = read_line_done s line h in
    scan_lines_done (read_line s line) lines still ∙ same

module _ (s : Scan) (r : EventRecord) (on : s.searching ≡ true)
    (valid : is_valid_payload r.payload ≡ true)
    (follows : assert_seq_follows s.previous_seq r.seq ≡ ok tt) where
  read_line_marker :
      is_event_log_stop_marker r ≡ true
      → ((read_line s (some r)).stop ≡ some (stop_of_marker r))
        × ((read_line s (some r)).searching ≡ false)
  unfolding read_line
  read_line_marker is_marker = ground arith

  read_line_record :
      is_event_log_stop_marker r ≡ false
      → ((read_line s (some r)).stop ≡ s.stop)
        × ((read_line s (some r)).searching ≡ true)
        × ((read_line s (some r)).previous_seq ≡ some r.seq)
  unfolding read_line
  read_line_record plain = ground arith

entry_count-read_line :
    (s : Scan) (line : Option EventRecord) → (read_line s line).entry_count ≡ s.entry_count + 1
unfolding read_line
entry_count-read_line s line = ground arith

entry_count-scan_lines :
    (s : Scan) (lines : List (Option EventRecord))
    → (scan_lines s lines).entry_count ≡ s.entry_count + length lines
unfolding scan_lines
entry_count-scan_lines s [] = omega arith
entry_count-scan_lines s (line ∷ lines) =
    omega (arith, entry_count-scan_lines (read_line s line) lines, entry_count-read_line s line)

next_follows : (k : ℕ) → assert_seq_follows (some k) (suc k) ≡ ok tt
unfolding assert_seq_follows
next_follows k = ground arith

stop-scan_lines :
    (k : ℕ) (s : Scan) (records : List EventRecord)
    → s.searching ≡ true
    → s.stop ≡ none
    → assert_seq_follows s.previous_seq k ≡ ok tt
    → Contiguous k records
    → check_records records ≡ ok tt
    → (scan_lines s (map some records)).stop ≡ find_event_log_stop records
unfolding find_event_log_stop scan_lines check_records
stop-scan_lines k s [] on open_end follows c v = open_end
stop-scan_lines k s (r ∷ records) on open_end follows c v =
    let valid : is_valid_payload r.payload ≡ true = ground arith in
    let rest_valid : check_records records ≡ ok tt = ground arith in
    let here = subst (λ n. assert_seq_follows s.previous_seq n ≡ ok tt) (sym c.0) follows in
    elim (Bool-cases (is_event_log_stop_marker r)) [
      | inl is_marker ↦
          let (found, done) = read_line_marker s r on valid here is_marker in
          rw is_marker (scan_lines_done (read_line s (some r)) (map some records) done ∙ found)
      | inr plain ↦
          let (same, still, previous) = read_line_record s r on valid here plain in
          rw plain (
            stop-scan_lines (suc k) (read_line s (some r)) records still (same ∙ open_end)
              (rw (previous, c.0) (next_follows k)) c.1 rest_valid)
    ]

validate_event_records_parts :
    (records : List EventRecord)
    → validate_event_records records ≡ ok records
    → (check_records records ≡ ok tt) × (assert_contiguous_sequence records ≡ ok tt)
unfolding validate_event_records
validate_event_records_parts records h = ground arith

first_follows : assert_seq_follows none 0 ≡ ok tt
unfolding assert_seq_follows
first_follows = refl

-- On a log that `validateEventRecords` accepts, the scan of its lines counts every record and finds
-- the stop that `findEventLogStop` finds in the records.
pub scan_event_log_lem :
    (records : List EventRecord)
    → validate_event_records records ≡ ok records
    → ((scan_event_log (map some records)).entry_count ≡ length records)
      × ((scan_event_log (map some records)).stop ≡ find_event_log_stop records)
unfolding scan_event_log
scan_event_log_lem records accepted =
    let (valid, follows) = validate_event_records_parts records accepted in
    (
      omega (arith, entry_count-scan_lines start (map some records), length-map records some),
      stop-scan_lines 0 start records refl refl first_follows
          ((assert_contiguous_sequence_iff records).0 follows) valid,
    )
