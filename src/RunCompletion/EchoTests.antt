-- ===== src/RunCompletion/EchoTests.antt =====
-- Runs of `RunCompletionPostambleEchoSanitizer` of src/host/runCompletionSentinel.ts, and the theorems
-- on it at a sanitizer with one active run.
use agent_tty.Prelude.{
  ◌≡◌, refl, Option, none, List, [], ◌∷◌, ◌++◌, Text, codes, text_eq, starts_with, ok, arith, ◌>>=◌,
  inl,
}
use agent_tty.RunCompletion.Sentinel.{assert_run_marker, is_run_marker, assert_non_empty_string}
use agent_tty.RunCompletion.Echo.{scan_echo_prefix, find_skippable_echo_control}
use agent_tty.RunCompletion.Sanitizer.{
  ActivePostambleEcho, TolerantEchoStripState, new_sanitizer, visited, longest_echo, complete_loop,
  find_tolerant_echo_prefix_match, has_partial_echo_match, set_echo_tail,
}
use agent_tty.RunCompletion.Strip.{register_echo, feed_echo, consume_tolerant_echo_byte}
use agent_tty.RunCompletion.EchoParts.{IsPartOf, IsEchoes}
use agent_tty.RunCompletion.EchoSteps.{holding}
use agent_tty.RunCompletion.Sanitized.{sanitize_stream, sanitize_stream-IsPartOf}
use agent_tty.RunCompletion.EchoRemoved.{feed_echo-echo}

abbrev run_marker : Text
run_marker = codes "__AT_MARKER_0123456789abcdef0123456789abcdef__"

abbrev postamble : Text
postamble = codes "printf '\\033\\137at'"

abbrev crlf : Text
crlf = b'\r' ∷ b'\n' ∷ []

abbrev active : List ActivePostambleEcho
active =
    (record { marker = run_marker; echoes = (postamble ++ crlf) ∷ (postamble ++ b'\n' ∷ []) ∷ [] })
    ∷ []

registers :
    register_echo run_marker (postamble ++ b'\n' ∷ []) new_sanitizer ≡ ok (holding active none [])
unfolding register_echo assert_run_marker is_run_marker assert_non_empty_string starts_with text_eq
    longest_echo visited
registers = refl

-- A repainted echo, with the output of the command between its characters.
repaints :
    (feed_echo
        (codes "$ printf '\\033" ++ b'\r' ∷ codes "\\137aXt'Y" ++ crlf)
        (holding active none [])
      >>= λ z. ok z.1)
    ≡ ok (codes "$ XY")
unfolding feed_echo visited complete_loop find_tolerant_echo_prefix_match has_partial_echo_match
    set_echo_tail scan_echo_prefix find_skippable_echo_control consume_tolerant_echo_byte
    starts_with assert_non_empty_string longest_echo
repaints = refl

active-IsEchoes : IsEchoes active
unfolding visited longest_echo text_eq starts_with
active-IsEchoes = record {
  non_empty = (refl, (refl, tt));
  apart = ((refl, tt), (tt, tt));
  listed = λ some_active. omega arith;
}

sanitize_stream-IsPartOf_example :
    (state' : Option TolerantEchoStripState) × (text : Text) × (sanitize_stream
        (codes "$ pri" ∷ codes "ntf 'hi" ∷ [])
        (holding active none [])
      ≡ ok (holding active state' [], text))
    × IsPartOf text (codes "$ printf 'hi")
sanitize_stream-IsPartOf_example =
    sanitize_stream-IsPartOf (codes "$ pri" ∷ codes "ntf 'hi" ∷ []) active none active-IsEchoes

feed_echo-echo_example :
    feed_echo (codes "$ " ++ postamble ++ crlf) (holding active none [])
    ≡ ok (holding active none [], codes "$ ")
unfolding visited
feed_echo-echo_example =
    feed_echo-echo active (codes "$ ") (codes "rintf '\\033\\137at'" ++ crlf) active-IsEchoes refl
      (inl refl) (refl, (refl, tt))
