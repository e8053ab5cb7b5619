-- ===== src/Coordinator/Tests.antt =====
-- Runs of `RunCompletionCoordinator` of src/host/runCompletionCoordinator.ts with an appender that
-- counts its calls, and the theorems on it at those runs.
use agent_tty.Prelude.{
  false, includes, ℕ, suc, ◌≡◌, refl, true, List, [], ◌∷◌, ◌++◌, Text, codes, text_eq, starts_with,
  ok, arith, length, Bool-cases, inl, inr,
}
use agent_tty.RunCompletion.Sentinel.{
  is_run_marker, is_signal_token, build_run_complete_signal_sentinel, assert_run_marker,
  assert_non_empty_string, esc_code, run_complete_sentinel_suffix,
}
use agent_tty.RunCompletion.Scanner.{run_complete, register, feed, new_scanner}
use agent_tty.RunCompletion.Sanitizer.{visited, longest_echo, new_sanitizer}
use agent_tty.RunCompletion.Strip.{register_echo, deregister_echo}
use agent_tty.Coordinator.Postamble.{build_run_complete_postamble, postamble_echo, escaped_bytes}
use agent_tty.Coordinator.State.{
  Coordinator, completed, new_coordinator, register_waited_run, reset_for_exit, settle_waiter,
  is_waiting, delete_waiter, subscribe_run_completion, get_completion, delete_completion,
  draw_sentinel, has_active_sentinel, is_active_sentinel, resolve_run_completion_waiter,
}
use agent_tty.Coordinator.Tasks.{
  EventAppender, Task, outcome, start_completion, append_sanitized, append_text, append_piece,
  append_completion, finish_completion, run_task, ingest_pty_data, piece_tasks,
}
use agent_tty.Coordinator.Machine.{Host, Step, registers, ingests, runs, Reach, here, next}
use agent_tty.Coordinator.Counting.{outcomes_of, waits_of, occurrences}
use agent_tty.Coordinator.Registering.{IsSettledOnce}
use agent_tty.Coordinator.Waiting.{Reach-IsSettledOnce, exit_settles}
use agent_tty.Coordinator.Drawn.{draw_sentinel_lem}
use agent_tty.Coordinator.PostambleBuilt.{signal_sentinel, build_run_complete_postamble_lem}

abbrev run_marker : Text
run_marker = codes "__AT_MARKER_0123456789abcdef0123456789abcdef__"

abbrev token : Text
token = codes "Abc_-9"

abbrev run_sentinel : Text
run_sentinel = esc_code ∷ codes "_atAbc_-9" ++ run_complete_sentinel_suffix

abbrev ascii_bytes : Text → List ℕ
ascii_bytes text = text

-- Each record gets the number of the calls before it.
abbrev counting : EventAppender (Unit {0}) ℕ
counting = record {
  append_output = λ text w. (ok tt, suc w);
  append_run_complete = λ marker input_run_seq w. (ok w, suc w);
}

abbrev echo : Text
echo = codes "printf '\\033\\137\\141\\164\\101\\142\\143\\137\\055\\071\\033\\134'"

abbrev registered : Coordinator
registered = record new_coordinator {
  sentinel_scanner = record {
    active_sentinels = (record { marker = run_marker; sentinel = run_sentinel }) ∷ [];
    pending_tail = [];
  };
  postamble_echo_sanitizer = record new_sanitizer {
    active_echoes =
        (record {
          marker = run_marker;
          echoes = (echo ++ b'\r' ∷ b'\n' ∷ []) ∷ (echo ++ b'\n' ∷ []) ∷ [];
        })
        ∷ [];
  };
  active_run_completions =
      (record { marker = run_marker; input_run_seq = 4; sentinel = run_sentinel }) ∷ [];
  run_completion_waiters = run_marker ∷ [];
}

registers_run :
    register_waited_run ascii_bytes (token ∷ []) run_marker 4 new_coordinator
    ≡ ok (registered, record { postamble = echo ++ b'\n' ∷ []; sentinel = run_sentinel })
unfolding register_waited_run draw_sentinel has_active_sentinel build_run_complete_signal_sentinel
    is_signal_token register assert_run_marker is_run_marker assert_non_empty_string starts_with
    text_eq build_run_complete_postamble escaped_bytes includes register_echo longest_echo visited
    subscribe_run_completion is_waiting get_completion is_active_sentinel
registers_run = refl

is_marker : is_run_marker run_marker ≡ true
unfolding is_run_marker starts_with text_eq
is_marker = refl

is_built : build_run_complete_signal_sentinel token ≡ ok run_sentinel
unfolding build_run_complete_signal_sentinel is_signal_token text_eq
is_built = refl

build_run_complete_postamble_lem_example :
    (build_run_complete_postamble ascii_bytes run_marker run_sentinel
      ≡ ok (postamble_echo ascii_bytes run_sentinel ++ b'\n' ∷ []))
    × (postamble_echo ascii_bytes run_sentinel
        ≡ codes "printf '" ++ (escaped_bytes run_sentinel ++ b'\'' ∷ []))
    × (length (postamble_echo ascii_bytes run_sentinel) ≡ 57)
build_run_complete_postamble_lem_example =
    build_run_complete_postamble_lem ascii_bytes run_marker token run_sentinel (λ text ascii. refl)
      is_marker is_built

abbrev host : Coordinator → List Task → ℕ → Host ℕ
host c tasks w = record { coordinator = c; tasks = tasks; world = w }

abbrev detected : Coordinator
detected = record registered { sentinel_scanner = new_scanner }

abbrev sanitized : Coordinator
sanitized = record detected { postamble_echo_sanitizer = new_sanitizer }

abbrev finished : Coordinator
finished = record new_coordinator { settled = (run_marker, completed 0) ∷ [] }

detects :
    ingest_pty_data run_sentinel registered
    ≡ ok (detected, append_piece (run_complete run_marker) ∷ [])
unfolding ingest_pty_data piece_tasks feed starts_with text_eq
detects = refl

starts :
    run_task counting (append_piece (run_complete run_marker)) detected 0
    ≡ outcome (ok (append_completion run_marker 4 ∷ [])) sanitized 0
unfolding run_task start_completion get_completion append_sanitized append_text deregister_echo
    text_eq assert_run_marker is_run_marker starts_with visited
starts = refl

finishes :
    run_task counting (finish_completion run_marker 0) sanitized 1 ≡ outcome (ok []) finished 1
unfolding run_task get_completion delete_completion text_eq resolve_run_completion_waiter
    settle_waiter is_waiting delete_waiter assert_run_marker is_run_marker starts_with
finishes = refl

new-Step : Step counting ascii_bytes (host new_coordinator [] 0) (host registered [] 0)
new-Step = registers (token ∷ []) run_marker 4 registers_run tt

-- A run is registered, and its sentinel read, appended and reported.
completes : Reach counting ascii_bytes (host registered [] 0) (host finished [] 1)
unfolding run_task start_completion get_completion append_sanitized append_text deregister_echo
    text_eq assert_run_marker is_run_marker starts_with visited delete_completion
    resolve_run_completion_waiter settle_waiter is_waiting delete_waiter
completes =
    next
      (next
        (next (next here (ingests run_sentinel refl detects))
          (runs (append_piece (run_complete run_marker)) [] refl refl))
        (runs (append_completion run_marker 4) [] refl refl))
      (runs (finish_completion run_marker 0) [] refl refl)

registered-IsSettledOnce : IsSettledOnce registered
unfolding waits_of occurrences outcomes_of
registered-IsSettledOnce marker = elim (Bool-cases (text_eq run_marker marker)) [
  | inl same ↦ ground (arith, same)
  | inr differ ↦ ground (arith, differ)
]

new-IsSettledOnce : IsSettledOnce new_coordinator
unfolding waits_of occurrences outcomes_of
new-IsSettledOnce marker = omega arith

Reach-IsSettledOnce_example : IsSettledOnce registered
Reach-IsSettledOnce_example =
    Reach-IsSettledOnce counting ascii_bytes new-IsSettledOnce (next here new-Step)

waits_now : is_waiting run_marker registered.run_completion_waiters ≡ true
unfolding is_waiting text_eq
waits_now = refl

exit_settles_example :
    (outcomes_of run_marker (reset_for_exit finished).settled ≡ 1)
    × ((reset_for_exit finished).run_completion_waiters ≡ [])
exit_settles_example =
    exit_settles counting ascii_bytes run_marker registered-IsSettledOnce completes waits_now

-- The first token is taken by the run that is active.
abbrev other_token : Text
other_token = codes "xyz012"

is_token : is_signal_token token ≡ true
unfolding is_signal_token text_eq
is_token = refl

is_other_token : is_signal_token other_token ≡ true
unfolding is_signal_token text_eq
is_other_token = refl

other_is_free :
    is_active_sentinel (signal_sentinel other_token) registered.active_run_completions ≡ false
unfolding is_active_sentinel text_eq
other_is_free = refl

draw_sentinel_lem_example :
    (sentinel : Text) × (draw_sentinel ((token ∷ []) ++ other_token ∷ []) registered ≡ ok sentinel)
    × (has_active_sentinel sentinel registered ≡ ok false)
draw_sentinel_lem_example =
    draw_sentinel_lem (token ∷ []) other_token [] registered (is_token, tt) is_other_token
      other_is_free
