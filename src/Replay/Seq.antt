-- ===== src/Replay/Seq.antt =====
-- Positions in an event log, and `countEventsThrough` of src/renderer/replaySlices.ts.
use native.Mathlib.Decide.{dec_lt}
use agent_tty.Prelude.{
  Failure, assertion, out_of_fuel, ◌∙◌, ℕ, zero, suc, ◌+◌, ◌-◌, ◌/◌, ◌%◌, ◌≤◌, ◌<◌, ◌≡◌, refl, Bool,
  true, false, Option, none, some, List, [], ◌∷◌, length, get_elem?, Bool-cases, inl, inr, ap, leb,
  ltb, if◌then◌else◌, Result, ok, err, arith,
}
use agent_tty.EventLog.Record.{EventRecord}

-- A `seq` of at least -1: `none` is -1, the position before the first event.
abbrev pub ReplaySeq : Type 0
ReplaySeq = Option ℕ

-- `seq <= position`
abbrev pub at_most : ℕ → ReplaySeq → Bool
at_most seq none = false
at_most seq (some position) = leb seq position

-- One round of the loop's body: the new `low` and `high`.
abbrev narrow : ReplaySeq → ℕ → ℕ → ℕ → EventRecord → ℕ × ℕ
narrow seq low high middle event =
    if at_most event.seq seq then (middle + 1, high) else (low, middle)

-- `(low + high) >>> 1`: the sum is taken as an unsigned 32-bit integer.
abbrev half : ℕ → ℕ → ℕ
half low high = (low + high) % 4294967296 / 2

-- The `while` loop, on fuel.
unfoldable pub count_loop : ℕ → List EventRecord → ReplaySeq → ℕ → ℕ → Result Failure ℕ
count_loop zero events seq low high = err out_of_fuel
count_loop (suc fuel) events seq low high = elim (ltb low high) [
  | false ↦ ok low
  | true ↦ elim (get_elem? events (half low high)) [
    | none ↦ err (assertion "replay event must exist")
    | some event ↦
        let (low', high') = narrow seq low high (half low high) event in
        count_loop fuel events seq low' high'
  ]
]

-- `countEventsThrough`; the loop halves a range of `length events`.
unfoldable pub count_events_through : List EventRecord → ReplaySeq → Result Failure ℕ
unfolding count_loop
count_events_through events seq = count_loop (length events + 1) events seq 0 (length events)

-- The events are in order: each `seq` is at least `k`, and they strictly increase.
abbrev pub Ascending : ℕ → List EventRecord → Type 0
Ascending k [] = Unit
Ascending k (r ∷ records) = (k ≤ r.seq) × Ascending (suc r.seq) records

-- How many events lie at or before the position.
unfoldable pub count_at_most : ReplaySeq → List EventRecord → ℕ
count_at_most seq [] = 0
count_at_most seq (r ∷ records) =
    let rest = count_at_most seq records in if at_most r.seq seq then suc rest else rest

pub count_at_most-le :
    (seq : ReplaySeq) (records : List EventRecord) → count_at_most seq records ≤ length records
unfolding count_at_most
count_at_most-le seq [] = omega arith
count_at_most-le seq (r ∷ records) = ground (arith, count_at_most-le seq records)

pub at_most_mono :
    (seq : ReplaySeq) (a b : ℕ) → a ≤ b → at_most a seq ≡ false → at_most b seq ≡ false
at_most_mono none a b le h = refl
at_most_mono (some position) a b le h = ground arith

pub count_at_most_zero :
    (seq : ReplaySeq) (k : ℕ) (records : List EventRecord)
    → Ascending k records
    → at_most k seq ≡ false
    → count_at_most seq records ≡ 0
unfolding count_at_most
count_at_most_zero seq k [] a h = refl
count_at_most_zero seq k (r ∷ records) a h =
    let past = at_most_mono seq k r.seq a.0 h in
    let further = at_most_mono seq r.seq (suc r.seq) (omega arith) past in
    rw past (count_at_most_zero seq (suc r.seq) records a.1 further)

pub get_elem?-Ascending :
    (k i : ℕ) (records : List EventRecord) (r : EventRecord)
    → Ascending k records
    → get_elem? records i ≡ some r
    → k ≤ r.seq
get_elem?-Ascending k i [] r a e = cc
get_elem?-Ascending k zero (x ∷ records) r a e = ground arith
get_elem?-Ascending k (suc i) (x ∷ records) r a e =
    omega (arith, get_elem?-Ascending (suc x.seq) i records r a.1 e)

-- In a sorted log the events at or before the position are the first ones.
pub count_at_most-get_elem? :
    (seq : ReplaySeq) (k i : ℕ) (records : List EventRecord) (r : EventRecord)
    → Ascending k records
    → get_elem? records i ≡ some r
    → at_most r.seq seq ≡ ltb i (count_at_most seq records)
unfolding count_at_most
count_at_most-get_elem? seq k i [] r a e = cc
count_at_most-get_elem? seq k zero (x ∷ records) r a e = elim (Bool-cases (at_most x.seq seq)) [
  | inl within ↦ ground arith
  | inr past ↦
      let none_left =
        count_at_most_zero seq (suc x.seq) records a.1
          (at_most_mono seq x.seq (suc x.seq) (omega arith) past) in
      ground arith
]
count_at_most-get_elem? seq k (suc i) (x ∷ records) r a e =
    let rest = count_at_most-get_elem? seq (suc x.seq) i records r a.1 e in
    elim (Bool-cases (at_most x.seq seq)) [
      | inl within ↦ ground arith
      | inr past ↦
          let none_left =
            count_at_most_zero seq (suc x.seq) records a.1
              (at_most_mono seq x.seq (suc x.seq) (omega arith) past) in
          ground arith
    ]

pub get_elem?-some {ℓ} :
    {A : Type ℓ} (i : ℕ) (xs : List A) → i < length xs → (x : A) × (get_elem? xs i ≡ some x)
get_elem?-some i [] h = absurd (omega arith)
get_elem?-some zero (x ∷ xs) h = (x, refl)
get_elem?-some (suc i) (x ∷ xs) h = get_elem?-some i xs (omega arith)

-- The three ways in which a round goes.
module _ (fuel : ℕ) (events : List EventRecord) (seq : ReplaySeq) (low high : ℕ) where
  count_loop_done : ¬ (low < high) → count_loop (suc fuel) events seq low high ≡ ok low
  unfolding count_loop
  count_loop_done ge = ground arith

  count_loop_before :
      (event : EventRecord)
      → low < high
      → get_elem? events (half low high) ≡ some event
      → at_most event.seq seq ≡ true
      → count_loop (suc fuel) events seq low high
        ≡ count_loop fuel events seq (half low high + 1) high
  unfolding count_loop
  count_loop_before event lt at before = ground arith

  count_loop_behind :
      (event : EventRecord)
      → low < high
      → get_elem? events (half low high) ≡ some event
      → at_most event.seq seq ≡ false
      → count_loop (suc fuel) events seq low high ≡ count_loop fuel events seq low (half low high)
  unfolding count_loop
  count_loop_behind event lt at behind = ground arith

-- The loop keeps the count between `low` and `high`.
count_loop_lem :
    (fuel : ℕ) (events : List EventRecord) (seq : ReplaySeq) (k low high : ℕ)
    → Ascending k events
    → length events ≤ 2147483648
    → high ≤ length events
    → low ≤ count_at_most seq events
    → count_at_most seq events ≤ high
    → high - low < fuel
    → count_loop fuel events seq low high ≡ ok (count_at_most seq events)
count_loop_lem zero events seq k low high a small within lo hi enough = absurd (omega arith)
count_loop_lem (suc fuel) events seq k low high a small within lo hi enough =
    elim (dec_lt low high) [
      | yes lt ↦
          let (event, at) = get_elem?-some (half low high) events (omega arith) in
          let side = count_at_most-get_elem? seq k (half low high) events event a at in
          elim (Bool-cases (at_most event.seq seq)) [
            | inl before ↦
                count_loop_before fuel events seq low high event lt at before
                ∙ count_loop_lem fuel events seq k (half low high + 1) high a small within
                    (ground arith) hi (omega arith)
            | inr behind ↦
                count_loop_behind fuel events seq low high event lt at behind
                ∙ count_loop_lem fuel events seq k low (half low high) a small (omega arith) lo
                    (ground arith) (omega arith)
          ]
      | no ge ↦ count_loop_done fuel events seq low high ge ∙ ap ok (omega arith)
    ]

-- On a log sorted by `seq`, of at most 2 ^ 31 events, the binary search ends within its fuel, reads
-- inside the log, and returns the number of events at or before the position.
pub count_events_through_lem :
    (events : List EventRecord) (seq : ReplaySeq) (k : ℕ)
    → Ascending k events
    → length events ≤ 2147483648
    → count_events_through events seq ≡ ok (count_at_most seq events)
unfolding count_events_through
count_events_through_lem events seq k a small =
    count_loop_lem (length events + 1) events seq k 0 (length events) a small (omega arith)
      (omega arith) (count_at_most-le seq events) (omega arith)
