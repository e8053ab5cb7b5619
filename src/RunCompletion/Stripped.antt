-- ===== src/RunCompletion/Stripped.antt =====
-- The output of `RunCompletionPostambleEchoSanitizer` of src/host/runCompletionSentinel.ts against its
-- input.
use agent_tty.Prelude.{
  ℕ, zero, suc, ◌<◌, ◌≡◌, refl, sym, ap, subst, ◌∙◌, Bool, true, false, Option, none, some, List,
  [], ◌∷◌, ◌++◌, append-nil, Text, length, length-drop, drop, ◌==◌, if◌then◌else◌, ok, arith, ◌⊎◌,
  inl, inr, Bool-cases,
}
use agent_tty.RunCompletion.Sanitizer.{
  TolerantEchoStripState, ActivePostambleEcho, Sanitizer, has_active_echoes, visited,
  assert_echo_tail_bound, set_echo_tail, complete_loop, TolerantEchoPrefixMatch,
  find_tolerant_echo_prefix_match, has_partial_echo_match,
}
use agent_tty.RunCompletion.EchoParts.{
  IsPartOf, empty, kept, dropped, whole_part, IsPartOf-drop, IsEchoes, find_tolerant_cases,
  bound_of_empty, partial_cases, consume_cases,
}
use agent_tty.RunCompletion.EchoSteps.{
  holding, step_tolerant, step_idle, step_plain, step_echo, step_match, step_other, step_held,
}
use agent_tty.RunCompletion.Strip.{consume_tolerant_echo_byte, strip_loop, behind_match}
use agent_tty.RunCompletion.EchoMatch.{non_empty_length}
use agent_tty.RunCompletion.EchoWhole.{FoundEcho, complete_loop_lem}
use agent_tty.RunCompletion.EchoCarry.{Stripped, carry, carry_silent, ended}

behind_match-holding :
    (m : TolerantEchoPrefixMatch) (active : List ActivePostambleEcho)
    → (state : Option TolerantEchoStripState) × (behind_match m (holding active none [])
        ≡ holding active state [])
behind_match-holding m active = elim (Bool-cases m.completed) [
  | inl done ↦ (none, rw done refl)
  | inr goes_on ↦
      (some (record { candidates = m.candidates; drop_control = none }), rw goes_on refl)
]

pub step_end :
    (fuel : ℕ) (is_final : Bool) (s : Sanitizer) (out : Text)
    → assert_echo_tail_bound s ≡ ok tt
    → strip_loop (suc fuel) is_final [] s out ≡ ok (s, out)
unfolding strip_loop
step_end fuel is_final s out bound = rw (strip_loop, bound) refl

held_cases :
    (is_final : Bool) (c : ℕ) (text : Text) (s : Sanitizer)
    → IsEchoes s.active_echoes
    → has_active_echoes s.active_echoes ≡ true
    → ((if is_final then ok false else has_partial_echo_match (c ∷ text) s) ≡ ok false)
      ⊎ (((if is_final then ok false else has_partial_echo_match (c ∷ text) s) ≡ ok true)
          × (set_echo_tail (c ∷ text) s ≡ ok (record s { pending_tail = c ∷ text }))
          × (is_final ≡ false))
held_cases true c text s v some_active = inl refl
held_cases false c text s v some_active = elim (partial_cases c text s v some_active) [
  | inl other ↦ inl other
  | inr (held, sets) ↦ inr (held, sets, refl)
]

-- A round at the first character of an echo, given what the rounds behind it do.
module _ (fuel : ℕ) (is_final : Bool) (c : ℕ) (text : Text) (active : List ActivePostambleEcho)
    (out : Text) (v : IsEchoes active) (some_active : has_active_echoes active ≡ true)
    (enough : length (c ∷ text) < suc fuel)
    (rounds : (remaining : Text) (state : Option TolerantEchoStripState) (so_far : Text)
      → length remaining < fuel
      → Stripped
          (strip_loop fuel is_final remaining (holding active state []) so_far)
          active
          is_final
          remaining
          so_far)
    (start : (c == b'p') ≡ true) where
  round_unmatched :
      complete_loop (visited active) (c ∷ text) none ≡ ok none
      → find_tolerant_echo_prefix_match (c ∷ text) (holding active none []) ≡ ok none
      → Stripped
          (strip_loop (suc fuel) is_final (c ∷ text) (holding active none []) out)
          active
          is_final
          (c ∷ text)
          out
  round_unmatched matched tolerant =
      elim (held_cases is_final c text (holding active none []) v some_active) [
        | inl other ↦
            carry active is_final _ _ (c ∷ text) text out (c ∷ [])
              (step_other fuel is_final c text active out some_active start matched tolerant other)
              (rounds text none (out ++ c ∷ []) (omega arith)) λ xs part. kept part
        | inr (held, sets, more) ↦ record {
          state = none;
          tail = c ∷ text;
          text = [];
          runs =
              step_held fuel is_final c text active out some_active start matched tolerant held sets
              ∙ ap (λ x. ok (holding active none (c ∷ text), x)) (sym (append-nil out));
          part = whole_part (c ∷ text);
          ends = λ final. absurd (cc (final, more));
          free = λ idle. absurd (cc (idle, some_active));
        }
      ]

  round_unmatched_whole :
      complete_loop (visited active) (c ∷ text) none ≡ ok none
      → Stripped
          (strip_loop (suc fuel) is_final (c ∷ text) (holding active none []) out)
          active
          is_final
          (c ∷ text)
          out
  round_unmatched_whole matched = elim (find_tolerant_cases (c ∷ text) (holding active none []) v) [
    | inl tolerant ↦ round_unmatched matched tolerant
    | inr (m, tolerant, pos) ↦
        let (state, becomes) = behind_match-holding m active in
        let rest = drop m.consumed_length (c ∷ text) in
        carry_silent active is_final _ _ (c ∷ text) rest out
          (step_match fuel is_final c text active out some_active start matched m tolerant
            ∙ ap (λ s. strip_loop fuel is_final rest s out) becomes)
          (rounds rest state out (omega (arith, length-drop m.consumed_length (c ∷ text))))
          λ xs part. IsPartOf-drop m.consumed_length xs (c ∷ text) part
  ]

  round_at_start :
      Stripped
        (strip_loop (suc fuel) is_final (c ∷ text) (holding active none []) out)
        active
        is_final
        (c ∷ text)
        out
  round_at_start =
      let (found, runs, held) =
        complete_loop_lem (visited active) (c ∷ text) none v.non_empty v.apart tt in
      by_found found runs held
    where
      by_found :
          (found : Option Text)
          → complete_loop (visited active) (c ∷ text) none ≡ ok found
          → FoundEcho [] (c ∷ text) found
          → Stripped
              (strip_loop (suc fuel) is_final (c ∷ text) (holding active none []) out)
              active
              is_final
              (c ∷ text)
              out
      by_found none runs held = round_unmatched_whole runs
      by_found (some echo) runs held =
          let rest = drop (length echo) (c ∷ text) in
          carry_silent active is_final _ _ (c ∷ text) rest out
            (step_echo fuel is_final c text active out some_active echo start runs)
            (rounds rest none out
              (omega (arith, length-drop (length echo) (c ∷ text), non_empty_length echo held.1)))
            λ xs part. IsPartOf-drop (length echo) xs (c ∷ text) part

pub strip_loop_lem :
    (fuel : ℕ) (is_final : Bool) (remaining : Text) (active : List ActivePostambleEcho)
    (state : Option TolerantEchoStripState) (out : Text)
    → IsEchoes active
    → length remaining < fuel
    → Stripped
        (strip_loop fuel is_final remaining (holding active state []) out)
        active
        is_final
        remaining
        out
strip_loop_lem zero is_final remaining active state out v enough = absurd (omega arith)
strip_loop_lem (suc fuel) is_final [] active state out v enough =
    let s = holding active state [] in
    ended active is_final _ state [] out []
      (step_end fuel is_final s out (bound_of_empty s v refl)
        ∙ ap (λ x. ok (s, x)) (sym (append-nil out)))
      empty
strip_loop_lem (suc fuel) is_final (c ∷ text) active (some state) out v enough =
    let output = (consume_tolerant_echo_byte c state).1 in
    let rest =
      strip_loop_lem fuel is_final text active (consume_tolerant_echo_byte c state).0
        (out ++ output) v (omega arith) in
    carry active is_final _ _ (c ∷ text) text out output
      (step_tolerant fuel is_final c text active out state) rest
      λ xs part. elim (consume_cases c state) [
        | inl dropped_one ↦
            subst (λ o. IsPartOf (o ++ xs) (c ∷ text)) (sym dropped_one) (dropped part)
        | inr kept_one ↦ subst (λ o. IsPartOf (o ++ xs) (c ∷ text)) (sym kept_one) (kept part)
      ]
strip_loop_lem (suc fuel) is_final (c ∷ text) active none out v enough =
    let s = holding active none [] in
    let pass = strip_loop_lem fuel is_final text active none (out ++ c ∷ []) v (omega arith) in
    elim (Bool-cases (has_active_echoes active)) [
      | inr idle ↦
          ended active is_final _ none (c ∷ text) out (c ∷ text)
            (step_idle fuel is_final c text active out idle (bound_of_empty s v refl))
            (whole_part (c ∷ text))
      | inl some_active ↦ elim (Bool-cases (c == b'p')) [
        | inr other ↦
            carry active is_final _ _ (c ∷ text) text out (c ∷ [])
              (step_plain fuel is_final c text active out some_active other) pass
              λ xs part. kept part
        | inl start ↦
            round_at_start fuel is_final c text active out v some_active enough
              (λ remaining state so_far less.
                strip_loop_lem fuel is_final remaining active state so_far v less)
              start
      ]
    ]
