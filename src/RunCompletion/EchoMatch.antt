-- ===== src/RunCompletion/EchoMatch.antt =====
-- The searches of src/host/runCompletionSentinel.ts over the active echoes.
use agent_tty.Prelude.{
  ℕ, ◌≤◌, ◌<◌, ◌≡◌, refl, subst, ◌++◌, ◌∙◌, Bool, true, false, ◌&&◌, Option, none, some, List, [],
  ◌∷◌, Text, length, max, ltb, ◌==◌, ok, arith, ◌⊎◌, inl, inr, Bool-cases, Option-cases, All,
}
use agent_tty.RunCompletion.Sentinel.{is_non_empty}
use agent_tty.RunCompletion.Echo.{EchoPrefixScanResult, scan_echo_prefix}
use agent_tty.RunCompletion.EchoScan.{scan_echo_prefix_lem}
use agent_tty.RunCompletion.Sanitizer.{
  TolerantEchoCandidate, or_zero, Best, weigh, tolerant_loop, TolerantEchoPrefixMatch,
  is_any_candidate, conclude, partial_loop,
}

abbrev pub NonEmptyEchoes : List (Text × Text) → Type 0
NonEmptyEchoes pairs = All (λ p. is_non_empty p.1 ≡ true) pairs

abbrev pub Positive : Option ℕ → Type 0
Positive none = Unit
Positive (some n) = 0 < n

pub record IsBest (best : Best) : Type 0 where
  pub held : best.echo_index ≤ best.consumed_length
  pub candidates : 0 < best.echo_index → is_any_candidate best.candidates ≡ true
  pub done : Positive best.completed

is_any_candidate-snoc :
    (candidates : List TolerantEchoCandidate) (x : TolerantEchoCandidate)
    → is_any_candidate (candidates ++ x ∷ []) ≡ true
is_any_candidate-snoc [] x = refl
is_any_candidate-snoc (y ∷ candidates) x = refl

weigh-IsBest :
    (marker echo : Text) (scan : EchoPrefixScanResult) (best : Best)
    → scan.echo_index ≤ scan.consumed_length
    → IsBest best
    → IsBest (weigh marker echo scan best)
unfolding weigh
weigh-IsBest marker echo scan best held v =
    let found : TolerantEchoCandidate = record {
      marker = marker;
      echo = echo;
      index = scan.echo_index;
    } in
    record {
      held = ground (arith, held, v.held);
      candidates = ground (arith, v.candidates, is_any_candidate-snoc best.candidates found);
      done = ground (arith, v.done);
    }

module _ (marker echo : Text) (pairs : List (Text × Text)) (remaining : Text)
    (scan : EchoPrefixScanResult) (runs : scan_echo_prefix remaining echo ≡ ok scan) where
  tolerant_step_full :
      (best : Best)
      → scan.complete ≡ true
      → scan.echo_index ≡ length echo
      → tolerant_loop ((marker, echo) ∷ pairs) remaining best
        ≡ tolerant_loop pairs remaining
            (record best { completed = some (max (or_zero best.completed) scan.consumed_length) })
  unfolding tolerant_loop
  tolerant_step_full best complete full = ground (arith, runs, complete, full)

  tolerant_step_part :
      (best : Best)
      → scan.complete ≡ false
      → tolerant_loop ((marker, echo) ∷ pairs) remaining best
        ≡ tolerant_loop pairs remaining (weigh marker echo scan best)
  unfolding tolerant_loop
  tolerant_step_part best part = ground (arith, runs, part)

  partial_step_found :
      (scan.pending && ltb 0 scan.echo_index) ≡ true
      → partial_loop ((marker, echo) ∷ pairs) remaining ≡ ok true
  unfolding partial_loop
  partial_step_found found = ground (arith, runs, found)

  partial_step_other :
      (scan.pending && ltb 0 scan.echo_index) ≡ false
      → partial_loop ((marker, echo) ∷ pairs) remaining ≡ partial_loop pairs remaining
  unfolding partial_loop
  partial_step_other other = ground (arith, runs, other)

pub non_empty_length : (echo : Text) → is_non_empty echo ≡ true → 0 < length echo
non_empty_length [] h = absurd (cc h)
non_empty_length (c ∷ echo) h = omega arith

pub tolerant_loop-IsBest :
    (pairs : List (Text × Text)) (remaining : Text) (best : Best)
    → NonEmptyEchoes pairs
    → IsBest best
    → (best' : Best) × (tolerant_loop pairs remaining best ≡ ok best') × IsBest best'
tolerant_loop-IsBest [] remaining best some_left v = (best, unfold tolerant_loop in refl, v)
tolerant_loop-IsBest ((marker, echo) ∷ pairs) remaining best some_left v =
    let scan = scan_echo_prefix_lem remaining echo some_left.0 in
    elim (Bool-cases scan.result.complete) [
      | inl complete ↦
          let done = max (or_zero best.completed) scan.result.consumed_length in
          let full = scan.full complete in
          let counted : IsBest (record best { completed = some done }) = record {
            held = v.held;
            candidates = v.candidates;
            done = omega (arith, scan.consumed, full, non_empty_length echo some_left.0);
          } in
          let (best', runs, v') =
            tolerant_loop-IsBest pairs remaining (record best { completed = some done }) some_left.1
              counted in
          (
            best',
            tolerant_step_full marker echo pairs remaining scan.result scan.runs best complete
                  (omega (arith, full))
                ∙ runs,
            v',
          )
      | inr part ↦
          let (best', runs, v') =
            tolerant_loop-IsBest pairs remaining (weigh marker echo scan.result best) some_left.1
              (weigh-IsBest marker echo scan.result best (omega (arith, scan.consumed)) v) in
          (
            best',
            tolerant_step_part marker echo pairs remaining scan.result scan.runs best part ∙ runs,
            v',
          )
    ]

pub conclude_cases :
    (best : Best)
    → IsBest best
    → (conclude best ≡ ok none)
      ⊎ ((m : TolerantEchoPrefixMatch) × (conclude best ≡ ok (some m)) × (0 < m.consumed_length))
unfolding conclude
conclude_cases best v = elim (Option-cases best.completed) [
  | inr (size, found) ↦
      let pos : 0 < size = subst Positive found v.done in
      inr (
        record { candidates = []; completed = true; consumed_length = size },
        rw (conclude, found) refl,
        pos,
      )
  | inl missing ↦ elim (Bool-cases (best.echo_index == 0)) [
    | inl nothing ↦ inl (rw (conclude, missing, nothing) refl)
    | inr some_held ↦
        let pos : 0 < best.echo_index = ground (arith, some_held) in
        inr (
          record {
            candidates = best.candidates;
            completed = false;
            consumed_length = best.consumed_length;
          },
          rw (conclude, missing, some_held, v.candidates pos) refl,
          omega (arith, v.held),
        )
  ]
]

pub partial_loop_lem :
    (pairs : List (Text × Text)) (remaining : Text)
    → NonEmptyEchoes pairs
    → (held : Bool) × (partial_loop pairs remaining ≡ ok held)
partial_loop_lem [] remaining some_left = (false, unfold partial_loop in refl)
partial_loop_lem ((marker, echo) ∷ pairs) remaining some_left =
    let scan = scan_echo_prefix_lem remaining echo some_left.0 in
    let (held, runs) = partial_loop_lem pairs remaining some_left.1 in
    elim (Bool-cases (scan.result.pending && ltb 0 scan.result.echo_index)) [
      | inl found ↦
          (true, partial_step_found marker echo pairs remaining scan.result scan.runs found)
      | inr other ↦
          (held, partial_step_other marker echo pairs remaining scan.result scan.runs other ∙ runs)
    ]
