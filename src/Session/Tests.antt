-- ===== src/Session/Tests.antt =====
-- Runs of src/host/sessionState.ts, and the theorems on sessions at concrete records.
use agent_tty.Prelude.{◌≡◌, refl, none, some, List, [], ◌∷◌, String, arith, accepted, ◌>>=◌}
use agent_tty.Session.Number.{pos, negsuc, integer, non_integer}
use agent_tty.Session.Status.{running, destroying, destroyed}
use agent_tty.Session.State.{
  SessionRecord, Call, set_dimensions_call, record_exit_call, request_destroy_call,
  record_destroyed_call, perform, perform_all, request_destroy, record_destroyed, set_dimensions,
}
use agent_tty.Session.Lifecycle.{
  ◌⟶◌, perform-⟶, IsValid, perform_all-IsValid, OnlyWindsDown, perform_all-OnlyWindsDown,
  destroyed_absorbs, destroy_completes,
}

abbrev shell : SessionRecord
shell = record {
  session_id = "s1";
  command = "bash" ∷ [];
  status = running;
  updated_at = "t0";
  cols = integer (pos 80);
  rows = integer (pos 24);
  child_pid = none;
  exit_code = none;
  exit_signal = none;
  failure_reason = none;
  failure_origin = none;
}

abbrev gone : SessionRecord
gone = record shell { status = destroyed }

-- A resize, an exit with code 1, and the destruction of the session.
abbrev life : List (String × Call)
life =
    ("t1", set_dimensions_call (integer (pos 100)) (integer (pos 30)))
    ∷ ("t2", set_dimensions_call (integer (negsuc 0)) (integer (pos 30)))
    ∷ ("t3", record_exit_call (some (integer (pos 1))) none)
    ∷ ("t4", request_destroy_call)
    ∷ ("t5", record_destroyed_call none)
    ∷ []

life_ends : (perform_all life shell).status ≡ destroyed
unfolding perform_all perform
life_ends = refl

-- The refused resize of `life` leaves the size that the first one set.
life_size : (perform_all life shell).cols ≡ integer (pos 100)
unfolding perform_all perform
life_size = refl

fraction_refused : accepted (set_dimensions "t1" non_integer (integer (pos 24)) shell) ≡ none
unfolding set_dimensions
fraction_refused = refl

shell-IsValid : IsValid shell
shell-IsValid = ground arith

perform-⟶_example : running ⟶ destroying
unfolding perform
perform-⟶_example =
    perform-⟶ "t1" request_destroy_call shell
      (record shell { status = destroying; updated_at = "t1" }) refl

perform_all-IsValid_example : IsValid (perform_all life shell)
perform_all-IsValid_example = perform_all-IsValid life shell shell-IsValid

perform_all-OnlyWindsDown_example : OnlyWindsDown running (perform_all life shell).status
perform_all-OnlyWindsDown_example = perform_all-OnlyWindsDown life shell

destroyed_absorbs_example : perform_all life gone ≡ gone
destroyed_absorbs_example = destroyed_absorbs life gone refl

destroy_completes_example :
    accepted (request_destroy "t1" shell >>= record_destroyed "t2" none)
    ≡ some (record shell { status = destroyed; updated_at = "t2" })
destroy_completes_example = destroy_completes "t1" "t2" shell
