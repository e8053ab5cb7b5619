-- ===== src/Replay/Whole.antt =====
-- `replayTo` of src/renderer/libghosttyVt/backend.ts on a part of the log, and on the whole log behind
-- it.
use agent_tty.Prelude.{
  Result-cases, ℕ, ◌≡◌, refl, true, none, some, Bool-cases, Option-cases, inl, inr, ltb, ok, Text,
  text_eq, arith,
}
use agent_tty.Replay.Seq.{ReplaySeq}
use agent_tty.Replay.Backend.{
  ReplayInput, Backend, seq_le, replay_loop, take_initial_size, or_target, replay_to,
}

module _ {T : Type 0} (feed : Text → T → T) (resize_to : ℕ → ℕ → T → T) where
  pub sized_facts :
      (cols rows : ℕ) (b sized : Backend T)
      → take_initial_size feed resize_to cols rows b ≡ ok sized
      → (sized.session_id ≡ b.session_id) × (sized.initial_size ≡ some (cols, rows))
  unfolding take_initial_size
  sized_facts cols rows b sized h = elim (Option-cases b.initial_size) [
    | inl e ↦ (ground (arith, h, e), ground (arith, h, e))
    | inr (size, e) ↦ (ground (arith, h, e), ground (arith, h, e))
  ]

  pub take_initial_size_again :
      (cols rows : ℕ) (b : Backend T)
      → b.initial_size ≡ some (cols, rows)
      → take_initial_size feed resize_to cols rows b ≡ ok b
  unfolding take_initial_size
  take_initial_size_again cols rows b e = ground (arith, e)

  -- What a replay that succeeds has passed.
  pub record Replayed (input : ReplayInput) (b b' : Backend T) (last : ReplaySeq) : Type 0 where
    pub session : text_eq input.session_id b.session_id ≡ true
    pub cols : ltb 0 input.initial_cols ≡ true
    pub rows : ltb 0 input.initial_rows ≡ true
    pub forward : seq_le b.last_applied_seq input.target_seq ≡ true
    pub sized : Backend T
    pub sizes : take_initial_size feed resize_to input.initial_cols input.initial_rows b ≡ ok sized
    pub terminal : T
    pub highest : ReplaySeq
    pub loops :
        replay_loop feed resize_to input.target_seq b.last_applied_seq none input.events
          sized.terminal b.last_applied_seq
        ≡ ok (terminal, highest)
    pub ends : last ≡ or_target feed resize_to highest input.target_seq
    pub leaves : b' ≡ (record sized {
      terminal = terminal;
      last_applied_seq = last;
      latest_replay_input = some input;
    })

  pub replay_to_runs :
      (input : ReplayInput) (b b' : Backend T) (last : ReplaySeq)
      → Replayed input b b' last
      → replay_to feed resize_to input b ≡ ok (b', last)
  unfolding replay_to
  replay_to_runs input b b' last r =
      rw (r.session, r.cols, r.rows, r.forward, r.sizes, r.loops, r.leaves, r.ends) refl

  module _ (input : ReplayInput) (b b' : Backend T) (last : ReplaySeq)
      (h : replay_to feed resize_to input b ≡ ok (b', last)) where
    passed_session : text_eq input.session_id b.session_id ≡ true
    unfolding replay_to
    passed_session = elim (Bool-cases (text_eq input.session_id b.session_id)) [
      | inl e ↦ e
      | inr e ↦ absurd (ground (arith, h, e))
    ]

    passed_cols : ltb 0 input.initial_cols ≡ true
    unfolding replay_to
    passed_cols = elim (Bool-cases (ltb 0 input.initial_cols)) [
      | inl e ↦ e
      | inr e ↦ absurd (ground (arith, h, e))
    ]

    passed_rows : ltb 0 input.initial_rows ≡ true
    unfolding replay_to
    passed_rows = elim (Bool-cases (ltb 0 input.initial_rows)) [
      | inl e ↦ e
      | inr e ↦ absurd (ground (arith, h, e))
    ]

    passed_forward : seq_le b.last_applied_seq input.target_seq ≡ true
    unfolding replay_to
    passed_forward = elim (Bool-cases (seq_le b.last_applied_seq input.target_seq)) [
      | inl e ↦ e
      | inr e ↦ absurd (ground (arith, h, e))
    ]

    passed_sizes :
        (sized : Backend T) × (take_initial_size feed resize_to input.initial_cols
            input.initial_rows b
          ≡ ok sized)
    unfolding replay_to
    passed_sizes =
        elim (Result-cases
          (take_initial_size feed resize_to input.initial_cols input.initial_rows b)) [
            | inl found ↦ found
            | inr (e, failed) ↦ absurd (ground (arith, h, failed))
          ]

    passed_loop :
        (sized : Backend T)
        → take_initial_size feed resize_to input.initial_cols input.initial_rows b ≡ ok sized
        → Replayed input b b' last
    unfolding replay_to
    passed_loop sized sizes =
        elim (Result-cases (
          replay_loop feed resize_to input.target_seq b.last_applied_seq none input.events
            sized.terminal b.last_applied_seq)) [
              | inr (e, failed) ↦ absurd (ground (arith, h, sizes, failed))
              | inl ((t, highest), loops) ↦ record {
                session = passed_session;
                cols = passed_cols;
                rows = passed_rows;
                forward = passed_forward;
                sized = sized;
                sizes = sizes;
                terminal = t;
                highest = highest;
                loops = loops;
                ends = ground (arith, h, sizes, loops);
                leaves = ground (arith, h, sizes, loops);
              }
            ]

    pub replay_to_passed : Replayed input b b' last
    replay_to_passed = let (sized, sizes) = passed_sizes in passed_loop sized sizes
