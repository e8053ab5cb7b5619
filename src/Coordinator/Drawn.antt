-- ===== src/Coordinator/Drawn.antt =====
-- The `while` loop of src/host/runCompletionCoordinator.ts that draws the sentinel of a new run.
use agent_tty.Prelude.{
  ℕ, ◌≡◌, refl, ap, true, false, List, [], ◌∷◌, ◌++◌, All, Text, length, ◌==◌, ok, Bool-cases, inl,
  inr, arith,
}
use agent_tty.RunCompletion.Sentinel.{
  is_signal_token, build_run_complete_signal_sentinel, assert_non_empty_string,
}
use agent_tty.RunCompletion.Registered.{signal_token_length}
use agent_tty.Coordinator.PostambleBuilt.{signal_sentinel}
use agent_tty.Coordinator.State.{
  Coordinator, is_active_sentinel, has_active_sentinel, generate_run_complete_signal_sentinel,
  draw_sentinel,
}

generates :
    (token : Text)
    → is_signal_token token ≡ true
    → generate_run_complete_signal_sentinel token ≡ ok (signal_sentinel token)
unfolding build_run_complete_signal_sentinel
generates token valid = rw (eq_six (length token) (signal_token_length token valid), valid) refl
  where
    eq_six : (n : ℕ) → n ≡ 6 → (n == 6) ≡ true
    eq_six n e = ground (arith, e)

-- Where the tokens that are drawn are six base64url characters each, the loop ends at the latest with
-- the first one whose sentinel no active run has: it gives a sentinel, and no active run has it.
pub draw_sentinel_lem :
    (taken : List Text) (token : Text) (rest : List Text) (c : Coordinator)
    → All (λ t. is_signal_token t ≡ true) taken
    → is_signal_token token ≡ true
    → is_active_sentinel (signal_sentinel token) c.active_run_completions ≡ false
    → (sentinel : Text) × (draw_sentinel (taken ++ token ∷ rest) c ≡ ok sentinel)
      × (has_active_sentinel sentinel c ≡ ok false)
unfolding draw_sentinel has_active_sentinel assert_non_empty_string
draw_sentinel_lem [] token rest c valid is_token free =
    (signal_sentinel token, rw (generates token is_token, free) refl, ap ok free)
draw_sentinel_lem (t ∷ taken) token rest c (is_t, valid) is_token free =
    elim (Bool-cases (is_active_sentinel (signal_sentinel t) c.active_run_completions)) [
      | inr free_already ↦
          (signal_sentinel t, rw (generates t is_t, free_already) refl, ap ok free_already)
      | inl used ↦
          let (sentinel, draws, unused) =
            draw_sentinel_lem taken token rest c valid is_token free in
          (sentinel, rw (generates t is_t, used) draws, unused)
    ]
