-- ===== src/Replay/SliceBounds.antt =====
-- What a slice of src/renderer/replaySlices.ts holds, and how its size may change.
use native.Mathlib.Decide.{dec_lt}
use agent_tty.Prelude.{
  subst, min, ℕ, zero, suc, ◌+◌, ◌-◌, ◌*◌, ◌≤◌, ◌<◌, ◌≡◌, ◌⊎◌, inl, inr, refl, sym, ap, ◌∙◌, true,
  false, some, List, [], ◌∷◌, ◌++◌, length, take, drop, get_elem?, min, ok, arith, Bool-cases, max,
}
use agent_tty.EventLog.Record.{EventRecord}
use agent_tty.Replay.Seq.{get_elem?-some}
use agent_tty.Replay.Slices.{
  max_slice_scale, smallest_next, scaled_size, Cost, no_cost, consume, is_over, slice_loop,
  slice_end, Millis, next_slice_size,
}

-- The cost of a list of events, from what was counted before.
unfoldable pub cost_from : Cost → List EventRecord → Cost
cost_from c [] = c
cost_from c (r ∷ records) = cost_from (consume c r) records

-- `n` events from the position `start`
abbrev pub window : ℕ → ℕ → List EventRecord → List EventRecord
window start n events = take n (drop start events)

cost_from-snoc :
    (c : Cost) (records : List EventRecord) (r : EventRecord)
    → cost_from c (records ++ r ∷ []) ≡ consume (cost_from c records) r
unfolding cost_from
cost_from-snoc c [] r = refl
cost_from-snoc c (x ∷ records) r = cost_from-snoc (consume c x) records r

take-suc :
    (n : ℕ) (records : List EventRecord) (r : EventRecord)
    → get_elem? records n ≡ some r
    → take (suc n) records ≡ take n records ++ r ∷ []
take-suc n [] r e = cc
take-suc zero (x ∷ records) r e = ground arith
take-suc (suc n) (x ∷ records) r e = ap (λ l. x ∷ l) (take-suc n records r e)

get_elem?-suc :
    (x : EventRecord) (records : List EventRecord) (m i : ℕ)
    → m ≡ suc i
    → get_elem? (x ∷ records) m ≡ get_elem? records i
get_elem?-suc x records m i e = ap (get_elem? (x ∷ records)) e

get_elem?-drop :
    (n i : ℕ) (records : List EventRecord)
    → get_elem? (drop n records) i ≡ get_elem? records (n + i)
get_elem?-drop zero i records = ap (get_elem? records) (omega arith)
get_elem?-drop (suc n) i [] = refl
get_elem?-drop (suc n) i (x ∷ records) =
    get_elem?-drop n i records ∙ sym (get_elem?-suc x records (suc n + i) (n + i) (omega arith))

-- The events of a slice of `n` events from `start` fit, and one more would not, or may not be taken.
pub record IsSlice (events : List EventRecord) (start limit n : ℕ) : Type 0 where
  pub nonempty : 0 < n
  pub within : start + n ≤ limit
  pub fits : (n ≡ 1) ⊎ (is_over (cost_from no_cost (window start n events)) ≡ false)
  pub maximal :
      (start + n ≡ limit) ⊎ (is_over (cost_from no_cost (window start (suc n) events)) ≡ true)

one_or_fits :
    (i : ℕ) (events : List EventRecord) (start : ℕ)
    → 0 < i
    → (i ≤ 1) ⊎ (is_over (cost_from no_cost (window start i events)) ≡ false)
    → (i ≡ 1) ⊎ (is_over (cost_from no_cost (window start i events)) ≡ false)
one_or_fits i events start pos (inl le) = inl (omega arith)
one_or_fits i events start pos (inr ok_cost) = inr ok_cost

module _ (rounds : ℕ) (events : List EventRecord) (start index : ℕ) (c : Cost) (r : EventRecord)
    (at : get_elem? events index ≡ some r) where
  slice_loop_break :
      start < index
      → is_over (consume c r) ≡ true
      → slice_loop (suc rounds) events start index c ≡ ok index
  unfolding slice_loop
  slice_loop_break lt over = ground (arith, at)

  slice_loop_next :
      (index ≡ start) ⊎ (is_over (consume c r) ≡ false)
      → slice_loop (suc rounds) events start index c
        ≡ slice_loop rounds events start (index + 1) (consume c r)
  unfolding slice_loop
  slice_loop_next stay = ground (arith, at)

-- The cost of one event more.
cost_from-suc :
    (events : List EventRecord) (start i : ℕ) (r : EventRecord)
    → get_elem? events (start + i) ≡ some r
    → consume (cost_from no_cost (window start i events)) r
      ≡ cost_from no_cost (window start (suc i) events)
cost_from-suc events start i r at = sym (
    ap (cost_from no_cost) (take-suc i (drop start events) r (get_elem?-drop start i events ∙ at))
    ∙ cost_from-snoc no_cost (window start i events) r)

-- A round that goes on, before the rounds that are left.
one_more :
    (rounds : ℕ) (events : List EventRecord) (start i limit : ℕ) (r : EventRecord)
    → get_elem? events (start + i) ≡ some r
    → (start + i ≡ start)
      ⊎ (is_over (consume (cost_from no_cost (window start i events)) r) ≡ false)
    → ((n : ℕ) × (slice_loop rounds events start
            (start + suc i)
            (cost_from no_cost (window start (suc i) events))
          ≡ ok (start + n))
        × IsSlice events start limit n)
    → (n : ℕ) × (slice_loop
          (suc rounds)
          events
          start
          (start + i)
          (cost_from no_cost (window start i events))
        ≡ ok (start + n))
      × IsSlice events start limit n
one_more rounds events start i limit r at stay (n, run, slice) =
    let c = cost_from no_cost (window start i events) in
    (
      n,
      slice_loop_next rounds events start (start + i) c r at stay
          ∙ ap (λ k. slice_loop rounds events start k (consume c r)) (omega arith)
          ∙ ap (slice_loop rounds events start (start + suc i)) (cost_from-suc events start i r at)
          ∙ run,
      slice,
    )

slice_loop_lem :
    (rounds : ℕ) (events : List EventRecord) (start i limit : ℕ)
    → start + i + rounds ≡ limit
    → limit ≤ length events
    → 0 < i + rounds
    → (i ≤ 1) ⊎ (is_over (cost_from no_cost (window start i events)) ≡ false)
    → (n : ℕ) × (slice_loop rounds events start
          (start + i)
          (cost_from no_cost (window start i events))
        ≡ ok (start + n))
      × IsSlice events start limit n
slice_loop_lem zero events start i limit e le some_left fits = (
  i,
  unfold slice_loop in refl,
  record {
    nonempty = omega arith;
    within = omega arith;
    fits = one_or_fits i events start (omega arith) fits;
    maximal = inl (omega arith);
  },
)
slice_loop_lem (suc rounds) events start i limit e le some_left fits =
    let (r, at) = get_elem?-some (start + i) events (omega arith) in
    let c = cost_from no_cost (window start i events) in
    let more = cost_from-suc events start i r at in
    let again =
      λ (stay : (start + i ≡ start) ⊎ (is_over (consume c r) ≡ false))
          (kept : (suc i ≤ 1)
            ⊎ (is_over (cost_from no_cost (window start (suc i) events)) ≡ false)).
        one_more rounds events start i limit r at stay
          (slice_loop_lem rounds events start (suc i) limit (omega arith) le (omega arith) kept) in
    elim (Bool-cases (is_over (consume c r))) [
      | inl over ↦ elim (dec_lt 0 i) [
        | yes pos ↦ (
          i,
          slice_loop_break rounds events start (start + i) c r at (omega arith) over,
          record {
            nonempty = pos;
            within = omega arith;
            fits = one_or_fits i events start pos fits;
            maximal = inr (subst (λ k. is_over k ≡ true) more over);
          },
        )
        | no first ↦ again (inl (omega arith)) (inl (omega arith))
      ]
      | inr under ↦ again (inr under) (inr (subst (λ k. is_over k ≡ false) more under))
    ]

pub slice_end_runs :
    (events : List EventRecord) (start end max_events : ℕ)
    → 0 < max_events
    → slice_end events start end max_events
      ≡ slice_loop (min end (start + max_events) - start) events start start no_cost
unfolding slice_end
slice_end_runs events start end max_events pos = ground arith

-- A slice from `start` ends behind `start`, and at the limit or before it. It is of one event, or its
-- output and its flushes are within their limits; and it ends at the limit, or one event more would
-- pass them.
pub slice_end_lem :
    (events : List EventRecord) (start end max_events : ℕ)
    → start < end
    → end ≤ length events
    → 0 < max_events
    → (n : ℕ) × (slice_end events start end max_events ≡ ok (start + n))
      × IsSlice events start (min end (start + max_events)) n
unfolding cost_from
slice_end_lem events start end max_events lt le pos =
    let limit = min end (start + max_events) in
    let (n, run, slice) =
      slice_loop_lem (limit - start) events start 0 limit (omega arith) (omega arith) (omega arith)
        (inl (omega arith)) in
    (
      n,
      slice_end_runs events start end max_events pos
          ∙ ap (λ k. slice_loop (limit - start) events start k no_cost) (omega arith)
          ∙ run,
      slice,
    )

-- A slice may grow or shrink by a factor of four at most, and the size stays positive.
pub next_slice_size_bounds :
    (size : ℕ) (elapsed : Millis)
    → 0 < size
    → (n : ℕ) × (next_slice_size size elapsed ≡ ok n) × (0 < n) × (n ≤ size * 4) × (size ≤ n * 4)
unfolding next_slice_size
next_slice_size_bounds size elapsed pos = (
  min (size * max_slice_scale) (max (smallest_next size) (scaled_size size elapsed)),
  ground arith,
  ground arith,
  ground arith,
  ground arith,
)
