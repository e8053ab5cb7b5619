-- ===== src/EventLog/Settle.antt =====
-- The settling of a write in src/host/eventLog.ts, and the last handler of a rejected one.
use agent_tty.EventLog.Invariant.{
  Contiguous, IsPrefix, event_of, total_size, Queue, IsConsistent, Contiguous-append_right,
  IsPrefix-append, Contiguous-late,
}
use agent_tty.EventLog.Rollback.{rollback-IsConsistent}
use agent_tty.Prelude.{
  ℕ, suc, ◌+◌, ◌≤◌, ◌≡◌, refl, sym, ap, subst, ◌∙◌, Bool, true, false, List, [], ◌∷◌, ◌++◌, map,
  length, All, All-append, arith, append_assoc, ◌⊎◌, inl, inr, Bool-cases,
}
use agent_tty.EventLog.Store.{
  EventLog, Prepared, WriteOutcome, written_whole, written_part, torn_line, torn_bytes,
  rollback_buffered_events_from, settle_write, run_rejection,
}

-- The three ways in which the oldest write settles.
abbrev pub skip_write : Prepared → List Prepared → EventLog → EventLog
skip_write p rest s = record s { pending = rest; rejected = s.rejected ++ p.event.seq ∷ [] }

abbrev pub land_write : Prepared → List Prepared → EventLog → EventLog
land_write p rest s = record s {
  pending = rest;
  file = s.file ++ p.event ∷ [];
  file_size = s.file_size + p.size;
}

abbrev pub fail_write : ℕ → Prepared → List Prepared → EventLog → EventLog
fail_write part p rest s = record s {
  pending = rest;
  rejected = s.rejected ++ p.event.seq ∷ [];
  poisoned = true;
  torn = torn_line part p;
  file_size = s.file_size + torn_bytes part p;
}

torn_bytes_fits : (part : ℕ) (p : Prepared) → torn_bytes part p ≤ p.size
torn_bytes_fits part p = ground arith

module _ (p : Prepared) (rest : List Prepared) (s : EventLog) (v : IsConsistent s)
    (waiting : s.pending ≡ p ∷ rest) where
  skip_write-IsConsistent : s.poisoned ≡ true → IsConsistent (skip_write p rest s)
  skip_write-IsConsistent dirty =
      let q : Queue true s = subst (λ b. Queue b s) dirty v.queue in
      let late = subst (All (λ p. length s.file ≤ p.event.seq)) waiting q.1 in
      record {
        contiguous = v.contiguous;
        next = v.next;
        queue = rw dirty (q.0, late.1, All-append _ s.rejected (p.event.seq ∷ []) q.2 (late.0, tt));
        accounted = omega (arith, v.accounted, ap total_size waiting);
        bytes_fit = v.bytes_fit;
        entries_fit = v.entries_fit;
      }

  -- While no write has failed the buffer is the file, the oldest write, and the rest.
  queued : s.poisoned ≡ false → s.event_buffer ≡ s.file ++ p.event ∷ map event_of rest
  queued clean = let q : Queue false s = subst (λ b. Queue b s) clean v.queue in rw q.0 (rw waiting)

  queued-Contiguous : s.poisoned ≡ false → Contiguous (length s.file) (p.event ∷ map event_of rest)
  queued-Contiguous clean =
      Contiguous-append_right 0 (length s.file) s.file (p.event ∷ map event_of rest)
        (subst (Contiguous 0) (queued clean) v.contiguous) (omega arith)

  land_write-IsConsistent : s.poisoned ≡ false → IsConsistent (land_write p rest s)
  land_write-IsConsistent clean =
      let q : Queue false s = subst (λ b. Queue b s) clean v.queue in
      record {
        contiguous = v.contiguous;
        next = v.next;
        queue =
            rw clean
              (queued clean ∙ sym (append_assoc s.file (p.event ∷ []) (map event_of rest)), q.1);
        accounted = omega (arith, v.accounted, ap total_size waiting);
        bytes_fit = v.bytes_fit;
        entries_fit = v.entries_fit;
      }

  fail_write-IsConsistent :
      (part : ℕ) → s.poisoned ≡ false → IsConsistent (fail_write part p rest s)
  fail_write-IsConsistent part clean =
      let q : Queue false s = subst (λ b. Queue b s) clean v.queue in
      let c = queued-Contiguous clean in
      record {
        contiguous = v.contiguous;
        next = v.next;
        queue = (
          subst (IsPrefix s.file) (sym (queued clean))
              (IsPrefix-append s.file (p.event ∷ map event_of rest)),
          Contiguous-late (length s.file) (suc (length s.file)) rest c.1 (omega arith),
          subst (λ ks. All (λ k. length s.file ≤ k) (ks ++ p.event.seq ∷ [])) (sym q.1)
              (omega arith, tt),
        );
        accounted = omega (arith, v.accounted, ap total_size waiting, torn_bytes_fits part p);
        bytes_fit = v.bytes_fit;
        entries_fit = v.entries_fit;
      }

  failed_seq : s.poisoned ≡ false → length s.file ≤ p.event.seq
  failed_seq clean = omega (arith, queued-Contiguous clean)

pub settle_write_cases :
    (outcome : WriteOutcome) (s : EventLog) (p : Prepared) (rest : List Prepared)
    → s.pending ≡ p ∷ rest
    → ((s.poisoned ≡ true) × (settle_write outcome s ≡ skip_write p rest s))
      ⊎ ((s.poisoned ≡ false) × (settle_write outcome s ≡ land_write p rest s))
      ⊎ ((part : ℕ) × (s.poisoned ≡ false)
          × (settle_write outcome s
              ≡ (rollback_buffered_events_from p.event.seq (fail_write part p rest s)).0))
unfolding settle_write
settle_write_cases written_whole s p rest waiting = elim (Bool-cases s.poisoned) [
  | inl dirty ↦ inl (dirty, rw waiting (simp dirty))
  | inr clean ↦ inr (inl (clean, rw waiting (simp clean)))
]
settle_write_cases (written_part part) s p rest waiting = elim (Bool-cases s.poisoned) [
  | inl dirty ↦ inl (dirty, rw waiting (simp dirty))
  | inr clean ↦ inr (inr (part, clean, rw waiting (simp clean)))
]

pub settle_write_idle :
    (outcome : WriteOutcome) (s : EventLog) → s.pending ≡ [] → settle_write outcome s ≡ s
unfolding settle_write
settle_write_idle outcome s idle = rw idle refl

pub settle_write_lands :
    (s : EventLog) (p : Prepared) (rest : List Prepared)
    → s.pending ≡ p ∷ rest
    → s.poisoned ≡ false
    → settle_write written_whole s ≡ land_write p rest s
unfolding settle_write
settle_write_lands s p rest queue clean = ground arith

pub List-cases {ℓ} :
    {A : Type ℓ} (xs : List A) → (xs ≡ []) ⊎ ((x : A) × (rest : List A) × (xs ≡ x ∷ rest))
List-cases [] = inl refl
List-cases (x ∷ xs) = inr (x, xs, refl)

pub settle_write-IsConsistent :
    (outcome : WriteOutcome) (s : EventLog) → IsConsistent s → IsConsistent (settle_write outcome s)
settle_write-IsConsistent outcome s v = elim (List-cases s.pending) [
  | inl idle ↦ subst IsConsistent (sym (settle_write_idle outcome s idle)) v
  | inr (p, rest, waiting) ↦ elim (settle_write_cases outcome s p rest waiting) [
    | inl (dirty, e) ↦ subst IsConsistent (sym e) (skip_write-IsConsistent p rest s v waiting dirty)
    | inr (inl (clean, e)) ↦
        subst IsConsistent (sym e) (land_write-IsConsistent p rest s v waiting clean)
    | inr (inr (part, clean, e)) ↦ subst IsConsistent (sym e) (
        rollback-IsConsistent p.event.seq (fail_write part p rest s)
          (fail_write-IsConsistent p rest s v waiting part clean) refl
          (failed_seq p rest s v waiting clean))
  ]
]

pub run_rejection_cases :
    (s : EventLog) (k : ℕ) (rest : List ℕ)
    → s.rejected ≡ k ∷ rest
    → run_rejection s ≡ (rollback_buffered_events_from k (record s { rejected = rest })).0
unfolding run_rejection
run_rejection_cases s k rest e = ground arith

pub run_rejection_idle : (s : EventLog) → s.rejected ≡ [] → run_rejection s ≡ s
unfolding run_rejection
run_rejection_idle s idle = ground arith

-- A rejected write means that the queue is poisoned.
rejected_poisoned :
    (b : Bool) (s : EventLog) (k : ℕ) (rest : List ℕ) → Queue b s → s.rejected ≡ k ∷ rest → b ≡ true
rejected_poisoned true s k rest q e = refl
rejected_poisoned false s k rest q e = cc (q.1)

pub run_rejection-IsConsistent : (s : EventLog) → IsConsistent s → IsConsistent (run_rejection s)
run_rejection-IsConsistent s v = elim (List-cases s.rejected) [
  | inl idle ↦ subst IsConsistent (sym (run_rejection_idle s idle)) v
  | inr (k, rest, e) ↦
      let dirty = rejected_poisoned s.poisoned s k rest v.queue e in
      let q : Queue true s = subst (λ b. Queue b s) dirty v.queue in
      let late = subst (All (λ k. length s.file ≤ k)) e q.2 in
      let v' : IsConsistent (record s { rejected = rest }) = record {
        contiguous = v.contiguous;
        next = v.next;
        queue = rw dirty (q.0, q.1, late.1);
        accounted = v.accounted;
        bytes_fit = v.bytes_fit;
        entries_fit = v.entries_fit;
      } in
      subst IsConsistent (sym (run_rejection_cases s k rest e))
        (rollback-IsConsistent k (record s { rejected = rest }) v' dirty late.0)
]
