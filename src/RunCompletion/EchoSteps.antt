-- ===== src/RunCompletion/EchoSteps.antt =====
-- The rounds of `#stripBuffer` of src/host/runCompletionSentinel.ts.
use agent_tty.Prelude.{
  ℕ, suc, ◌≡◌, refl, Bool, true, false, Option, none, some, List, [], ◌∷◌, ◌++◌, Text, length, drop,
  ◌==◌, if◌then◌else◌, ok,
}
use agent_tty.RunCompletion.Sanitizer.{
  TolerantEchoStripState, ActivePostambleEcho, Sanitizer, has_active_echoes, visited,
  assert_echo_tail_bound, set_echo_tail, complete_loop, TolerantEchoPrefixMatch,
  find_tolerant_echo_prefix_match, has_partial_echo_match,
}
use agent_tty.RunCompletion.Strip.{consume_tolerant_echo_byte, strip_loop, behind_match}

abbrev pub holding : List ActivePostambleEcho → Option TolerantEchoStripState → Text → Sanitizer
holding active state tail = record {
  active_echoes = active;
  tolerant_strip_state = state;
  pending_tail = tail;
}

-- The steps of the loop.
module _ (fuel : ℕ) (is_final : Bool) (c : ℕ) (text : Text) (active : List ActivePostambleEcho)
    (out : Text) where
  pub step_tolerant :
      (state : TolerantEchoStripState)
      → strip_loop (suc fuel) is_final (c ∷ text) (holding active (some state) []) out
        ≡ strip_loop fuel is_final text
            (holding active (consume_tolerant_echo_byte c state).0 [])
            (out ++ (consume_tolerant_echo_byte c state).1)
  unfolding strip_loop
  step_tolerant state = refl

  pub step_idle :
      has_active_echoes active ≡ false
      → assert_echo_tail_bound (holding active none []) ≡ ok tt
      → strip_loop (suc fuel) is_final (c ∷ text) (holding active none []) out
        ≡ ok (holding active none [], out ++ c ∷ text)
  unfolding strip_loop
  step_idle idle bound = rw (strip_loop, idle, bound) refl

  module _ (some_active : has_active_echoes active ≡ true) where
    pub step_plain :
        (c == b'p') ≡ false
        → strip_loop (suc fuel) is_final (c ∷ text) (holding active none []) out
          ≡ strip_loop fuel is_final text (holding active none []) (out ++ c ∷ [])
    unfolding strip_loop
    step_plain other = rw (strip_loop, some_active, other) refl

    pub step_echo :
        (echo : Text)
        → (c == b'p') ≡ true
        → complete_loop (visited active) (c ∷ text) none ≡ ok (some echo)
        → strip_loop (suc fuel) is_final (c ∷ text) (holding active none []) out
          ≡ strip_loop fuel is_final (drop (length echo) (c ∷ text)) (holding active none []) out
    unfolding strip_loop
    step_echo echo start matched = rw (strip_loop, some_active, start, matched) refl

    module _ (start : (c == b'p') ≡ true)
        (matched : complete_loop (visited active) (c ∷ text) none ≡ ok none) where
      pub step_match :
          (m : TolerantEchoPrefixMatch)
          → find_tolerant_echo_prefix_match (c ∷ text) (holding active none []) ≡ ok (some m)
          → strip_loop (suc fuel) is_final (c ∷ text) (holding active none []) out
            ≡ strip_loop fuel is_final
                (drop m.consumed_length (c ∷ text))
                (behind_match m (holding active none []))
                out
      unfolding strip_loop
      step_match m tolerant = rw (strip_loop, some_active, start, matched, tolerant) refl

      module _
          (tolerant : find_tolerant_echo_prefix_match (c ∷ text) (holding active none [])
            ≡ ok none) where
        pub step_other :
            (if is_final
                then ok false
                else has_partial_echo_match (c ∷ text) (holding active none []))
              ≡ ok false
            → strip_loop (suc fuel) is_final (c ∷ text) (holding active none []) out
              ≡ strip_loop fuel is_final text (holding active none []) (out ++ c ∷ [])
        unfolding strip_loop
        step_other other = rw (strip_loop, some_active, start, matched, tolerant, other) refl

        pub step_held :
            (if is_final
                then ok false
                else has_partial_echo_match (c ∷ text) (holding active none []))
              ≡ ok true
            → set_echo_tail (c ∷ text) (holding active none [])
              ≡ ok (holding active none (c ∷ text))
            → strip_loop (suc fuel) is_final (c ∷ text) (holding active none []) out
              ≡ ok (holding active none (c ∷ text), out)
        unfolding strip_loop
        step_held held sets =
            rw (strip_loop, some_active, start, matched, tolerant, held, sets) refl
