-- ===== src/EventLog/Invariant.antt =====
-- The invariant of the writer of src/host/eventLog.ts: what the buffer, the queue of writes and the
-- file on disk hold.
use agent_tty.Prelude.{
  ℕ, zero, suc, ◌+◌, ◌≤◌, ◌<◌, ◌≡◌, refl, sym, ap, subst, ◌∙◌, Bool, true, false, List, [], ◌∷◌,
  ◌++◌, map, length, length-append, All, All-append, take, get_elem?, arith, some, append_assoc,
}
use agent_tty.EventLog.Record.{EventRecord}
use agent_tty.EventLog.Store.{EventLog, Prepared, push}

-- Each record's `seq` is its position, counted from `k`.
abbrev pub Contiguous : ℕ → List EventRecord → Type 0
Contiguous k [] = Unit
Contiguous k (r ∷ records) = (r.seq ≡ k) × Contiguous (suc k) records

abbrev pub IsPrefix : List EventRecord → List EventRecord → Type 0
IsPrefix [] ys = Unit
IsPrefix (x ∷ xs) [] = ⊥
IsPrefix (x ∷ xs) (y ∷ ys) = (x ≡ y) × IsPrefix xs ys

abbrev pub event_of : Prepared → EventRecord
event_of p = p.event

abbrev pub total_size : List Prepared → ℕ
total_size [] = 0
total_size (p ∷ ps) = p.size + total_size ps

-- While no write has failed the buffer is the file and the queue. After a failure the file is a
-- prefix of the buffer still, and what waits or was rejected lies past the end of the file.
abbrev pub Queue : Bool → EventLog → Type 0
Queue false s = (s.event_buffer ≡ s.file ++ map event_of s.pending) × (s.rejected ≡ [])
Queue true s =
    IsPrefix s.file s.event_buffer
    × All (λ p. length s.file ≤ p.event.seq) s.pending
    × All (λ k. length s.file ≤ k) s.rejected

pub record IsConsistent (s : EventLog) : Type 0 where
  pub contiguous : Contiguous 0 s.event_buffer
  pub next : s.next_seq ≡ length s.event_buffer
  pub queue : Queue s.poisoned s
  pub accounted : s.file_size + total_size s.pending ≤ s.file_bytes
  pub bytes_fit : s.file_bytes ≤ s.max_bytes
  pub entries_fit : length s.event_buffer ≤ s.max_entries

Contiguous-snoc :
    (k : ℕ) (xs : List EventRecord) (r : EventRecord)
    → Contiguous k xs
    → r.seq ≡ k + length xs
    → Contiguous k (xs ++ r ∷ [])
Contiguous-snoc k [] r h e = (omega arith, tt)
Contiguous-snoc k (x ∷ xs) r h e = (h.0, Contiguous-snoc (suc k) xs r h.1 (omega arith))

pub Contiguous-take : (n k : ℕ) (xs : List EventRecord) → Contiguous k xs → Contiguous k (take n xs)
Contiguous-take zero k xs h = tt
Contiguous-take (suc n) k [] h = tt
Contiguous-take (suc n) k (x ∷ xs) h = (h.0, Contiguous-take n (suc k) xs h.1)

pub Contiguous-append_right :
    (k n : ℕ) (xs ys : List EventRecord)
    → Contiguous k (xs ++ ys)
    → k + length xs ≡ n
    → Contiguous n ys
Contiguous-append_right k n [] ys h e = subst (λ m. Contiguous m ys) (omega arith) h
Contiguous-append_right k n (x ∷ xs) ys h e =
    Contiguous-append_right (suc k) n xs ys h.1 (omega arith)

pub Contiguous-get_elem? :
    (k i : ℕ) (xs : List EventRecord)
    → Contiguous k xs
    → i < length xs
    → (r : EventRecord) × (get_elem? xs i ≡ some r) × (r.seq ≡ k + i)
Contiguous-get_elem? k i [] h lt = absurd (omega arith)
Contiguous-get_elem? k zero (x ∷ xs) h lt = (x, refl, omega arith)
Contiguous-get_elem? k (suc i) (x ∷ xs) h lt =
    let (r, at, e) = Contiguous-get_elem? (suc k) i xs h.1 (omega arith) in (r, at, omega arith)

pub IsPrefix-append : (xs ys : List EventRecord) → IsPrefix xs (xs ++ ys)
IsPrefix-append [] ys = tt
IsPrefix-append (x ∷ xs) ys = (refl, IsPrefix-append xs ys)

IsPrefix-snoc :
    (xs ys : List EventRecord) (r : EventRecord) → IsPrefix xs ys → IsPrefix xs (ys ++ r ∷ [])
IsPrefix-snoc [] ys r h = tt
IsPrefix-snoc (x ∷ xs) [] r h = absurd h
IsPrefix-snoc (x ∷ xs) (y ∷ ys) r h = (h.0, IsPrefix-snoc xs ys r h.1)

pub IsPrefix-take :
    (n : ℕ) (xs ys : List EventRecord) → IsPrefix xs ys → length xs ≤ n → IsPrefix xs (take n ys)
IsPrefix-take n [] ys h le = tt
IsPrefix-take n (x ∷ xs) [] h le = absurd h
IsPrefix-take zero (x ∷ xs) (y ∷ ys) h le = absurd (omega arith)
IsPrefix-take (suc n) (x ∷ xs) (y ∷ ys) h le = (h.0, IsPrefix-take n xs ys h.1 (omega arith))

IsPrefix-length : (xs ys : List EventRecord) → IsPrefix xs ys → length xs ≤ length ys
IsPrefix-length [] ys h = omega arith
IsPrefix-length (x ∷ xs) [] h = absurd h
IsPrefix-length (x ∷ xs) (y ∷ ys) h = omega (arith, IsPrefix-length xs ys h.1)

total_size-snoc :
    (ps : List Prepared) (p : Prepared) → total_size (ps ++ p ∷ []) ≡ total_size ps + p.size
total_size-snoc [] p = omega arith
total_size-snoc (q ∷ ps) p = omega (arith, total_size-snoc ps p)

map-snoc :
    (ps : List Prepared) (p : Prepared)
    → map event_of (ps ++ p ∷ []) ≡ map event_of ps ++ p.event ∷ []
map-snoc [] p = refl
map-snoc (q ∷ ps) p = rw (map-snoc ps p)

pub Contiguous-late :
    (n k : ℕ) (ps : List Prepared)
    → Contiguous k (map event_of ps)
    → n ≤ k
    → All (λ p. n ≤ p.event.seq) ps
Contiguous-late n k [] c le = tt
Contiguous-late n k (p ∷ ps) c le = (omega arith, Contiguous-late n (suc k) ps c.1 (omega arith))

push-Queue :
    (b : Bool) (p : Prepared) (s : EventLog)
    → Queue b s
    → length s.file ≤ p.event.seq
    → Queue b (push p s)
push-Queue false p s q le = (
  ap (λ xs. xs ++ p.event ∷ []) q.0
      ∙ append_assoc s.file (map event_of s.pending) (p.event ∷ [])
      ∙ ap (λ xs. s.file ++ xs) (sym (map-snoc s.pending p)),
  q.1,
)
push-Queue true p s q le = (
  IsPrefix-snoc s.file s.event_buffer p.event q.0,
  All-append _ s.pending (p ∷ []) q.1 (le, tt),
  q.2,
)

file_length : (b : Bool) (s : EventLog) → Queue b s → length s.file ≤ length s.event_buffer
file_length false s q =
    omega (arith, ap (λ xs. length xs) q.0, length-append s.file (map event_of s.pending))
file_length true s q = IsPrefix-length s.file s.event_buffer q.0

pub push-IsConsistent :
    (p : Prepared) (s : EventLog)
    → IsConsistent s
    → p.event.seq ≡ length s.event_buffer
    → length s.event_buffer < s.max_entries
    → s.file_bytes + p.size ≤ s.max_bytes
    → IsConsistent (push p s)
push-IsConsistent p s v e room fits = record {
  contiguous = Contiguous-snoc 0 s.event_buffer p.event v.contiguous (omega arith);
  next = omega (arith, v.next, length-append s.event_buffer (p.event ∷ []));
  queue = push-Queue s.poisoned p s v.queue (omega (arith, file_length s.poisoned s v.queue));
  accounted = omega (arith, v.accounted, total_size-snoc s.pending p);
  bytes_fit = fits;
  entries_fit = omega (arith, length-append s.event_buffer (p.event ∷ []));
}
