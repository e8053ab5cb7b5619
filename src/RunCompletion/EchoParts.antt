-- ===== src/RunCompletion/EchoParts.antt =====
-- The searches and the tolerant state of `RunCompletionPostambleEchoSanitizer` of
-- src/host/runCompletionSentinel.ts, with echoes that can be told apart.
use agent_tty.Prelude.{
  ℕ, zero, suc, ◌<◌, ◌≡◌, refl, ap, ◌∙◌, true, false, Option, none, some, List, [], ◌∷◌, Text, drop,
  ◌==◌, ok, ◌>>=◌, arith, ◌⊎◌, inl, inr, Bool-cases,
}
use agent_tty.RunCompletion.Sentinel.{esc_code}
use agent_tty.RunCompletion.Echo.{carriage_return_code}
use agent_tty.RunCompletion.Sanitizer.{
  TolerantEchoCandidate, TolerantEchoStripState, DropControl, escape, csi, ActivePostambleEcho,
  Sanitizer, has_active_echoes, visited, longest_echo, max_active_echo_length,
  assert_echo_tail_bound, set_echo_tail, TolerantEchoPrefixMatch, no_best, conclude,
  find_tolerant_echo_prefix_match, has_partial_echo_match,
}
use agent_tty.RunCompletion.Strip.{
  consume_tolerant_echo_byte, consume_by, consume_output, settle_candidates, advanced,
  some_completed,
}
use agent_tty.RunCompletion.EchoMatch.{
  NonEmptyEchoes, tolerant_loop-IsBest, conclude_cases, partial_loop_lem,
}
use agent_tty.RunCompletion.EchoWhole.{ApartEchoes}

-- A text is a part of another, in order.
pub data IsPartOf : Text → Text → Type 0 where
  empty : IsPartOf [] []
  kept : {c : ℕ} {xs ys : Text} → IsPartOf xs ys → IsPartOf (c ∷ xs) (c ∷ ys)
  dropped : {c : ℕ} {xs ys : Text} → IsPartOf xs ys → IsPartOf xs (c ∷ ys)

pub whole_part : (xs : Text) → IsPartOf xs xs
whole_part [] = empty
whole_part (c ∷ xs) = kept (whole_part xs)

pub IsPartOf-drop : (n : ℕ) (xs ys : Text) → IsPartOf xs (drop n ys) → IsPartOf xs ys
IsPartOf-drop zero xs ys h = h
IsPartOf-drop (suc n) xs [] h = h
IsPartOf-drop (suc n) xs (c ∷ ys) h = dropped (IsPartOf-drop n xs ys h)

-- Echoes that the sanitizer can tell apart: a run's echoes are not empty, and none begins another.
pub record IsEchoes (active : List ActivePostambleEcho) : Type 0 where
  pub non_empty : NonEmptyEchoes (visited active)
  pub apart : ApartEchoes (visited active)
  pub listed : has_active_echoes active ≡ true → 0 < longest_echo (visited active) 0

pub find_tolerant_cases :
    (remaining : Text) (s : Sanitizer)
    → IsEchoes s.active_echoes
    → (find_tolerant_echo_prefix_match remaining s ≡ ok none)
      ⊎ ((m : TolerantEchoPrefixMatch) × (find_tolerant_echo_prefix_match remaining s ≡ ok (some m))
          × (0 < m.consumed_length))
unfolding find_tolerant_echo_prefix_match
find_tolerant_cases remaining s v =
    let (best, runs, held) =
      tolerant_loop-IsBest (visited s.active_echoes) remaining no_best v.non_empty
        (record { held = omega arith; candidates = λ h. absurd (omega arith); done = tt }) in
    elim (conclude_cases best held) [
      | inl e ↦ inl (ap (◌>>= conclude) runs ∙ e)
      | inr (m, e, pos) ↦ inr (m, ap (◌>>= conclude) runs ∙ e, pos)
    ]

pub bound_of_empty :
    (s : Sanitizer)
    → IsEchoes s.active_echoes
    → s.pending_tail ≡ []
    → assert_echo_tail_bound s ≡ ok tt
unfolding assert_echo_tail_bound max_active_echo_length
bound_of_empty s v empty_tail = elim (Bool-cases (has_active_echoes s.active_echoes)) [
  | inl some_active ↦ let pos = v.listed some_active in ground (arith, some_active, empty_tail, pos)
  | inr idle ↦ ground (arith, idle, empty_tail)
]

-- What `#hasPartialEchoMatch` holds back fits under the bound of the tail.
pub partial_cases :
    (c : ℕ) (text : Text) (s : Sanitizer)
    → IsEchoes s.active_echoes
    → has_active_echoes s.active_echoes ≡ true
    → (has_partial_echo_match (c ∷ text) s ≡ ok false)
      ⊎ ((has_partial_echo_match (c ∷ text) s ≡ ok true)
          × (set_echo_tail (c ∷ text) s ≡ ok (record s { pending_tail = c ∷ text })))
unfolding has_partial_echo_match set_echo_tail max_active_echo_length assert_echo_tail_bound
partial_cases c text s v some_active =
    let pos = v.listed some_active in
    let (held, runs) = partial_loop_lem (visited s.active_echoes) (c ∷ text) v.non_empty in
    elim (Bool-cases held) [
      | inl is_held ↦ ground (arith, pos, some_active, runs, is_held)
      | inr not_held ↦ ground (arith, pos, some_active, runs, not_held)
    ]

-- A character taken by the tolerant state is put out or dropped.
settle_cases :
    (c : ℕ) (state : TolerantEchoStripState) (candidates : List TolerantEchoCandidate)
    → ((settle_candidates c state candidates).1 ≡ [])
      ⊎ ((settle_candidates c state candidates).1 ≡ c ∷ [])
settle_cases c state [] = inr refl
settle_cases c state (x ∷ candidates) = elim (Bool-cases (some_completed (x ∷ candidates))) [
  | inl done ↦ inl (rw done refl)
  | inr goes_on ↦ inl (rw goes_on refl)
]

output_cases :
    (c : ℕ) (state : TolerantEchoStripState)
    → ((consume_output c state).1 ≡ []) ⊎ ((consume_output c state).1 ≡ c ∷ [])
output_cases c state = elim (Bool-cases (c == carriage_return_code)) [
  | inl return ↦ inl (rw return refl)
  | inr other ↦ elim (Bool-cases (c == esc_code)) [
    | inl escape_code ↦ inl (rw (other, escape_code) refl)
    | inr plain ↦ rw (other, plain) (settle_cases c state (advanced c state.candidates))
  ]
]

by_cases :
    (control : Option DropControl) (c : ℕ) (state : TolerantEchoStripState)
    → ((consume_by control c state).1 ≡ []) ⊎ ((consume_by control c state).1 ≡ c ∷ [])
by_cases (some escape) c state = inl refl
by_cases (some csi) c state = inl refl
by_cases none c state = output_cases c state

pub consume_cases :
    (c : ℕ) (state : TolerantEchoStripState)
    → ((consume_tolerant_echo_byte c state).1 ≡ [])
      ⊎ ((consume_tolerant_echo_byte c state).1 ≡ c ∷ [])
unfolding consume_tolerant_echo_byte
consume_cases c state = by_cases state.drop_control c state
