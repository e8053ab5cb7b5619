-- ===== src/Coordinator/Postamble.antt =====
-- src/host/runCompletionCoordinator.ts: the postamble that makes a shell print a run's sentinel.
-- `utf8` stands for `Buffer.from(value, 'utf8')`.
use agent_tty.Prelude.{
  includes, ℕ, ◌+◌, ◌/◌, ◌%◌, not, List, [], ◌∷◌, ◌++◌, Text, codes, starts_with, take, drop,
  length, leb, ◌==◌, Result, ok, ◌>>◌, invariant, Failure, assertion,
}
use agent_tty.RunCompletion.Sentinel.{is_run_marker, is_non_empty}

abbrev pub run_completion_postamble_echo_prefix : Text
run_completion_postamble_echo_prefix = codes "printf '\\033\\137"

abbrev pub max_run_completion_postamble_echo_length : ℕ
max_run_completion_postamble_echo_length = 64

-- `byte.toString(8).padStart(3, '0')`, for a byte
abbrev pub octal_digits : ℕ → Text
octal_digits byte = (b'0' + byte / 64) ∷ (b'0' + byte / 8 % 8) ∷ (b'0' + byte % 8) ∷ []

unfoldable pub escaped_bytes : List ℕ → Text
escaped_bytes [] = []
escaped_bytes (byte ∷ bytes) = b'\\' ∷ (octal_digits byte ++ escaped_bytes bytes)

-- `RUN_MARKER_PATTERN.exec(marker)[1]`, where the pattern matches
abbrev pub marker_payload : Text → Text
marker_payload marker = take 32 (drop (length (codes "__AT_MARKER_")) marker)

module _ (utf8 : Text → List ℕ) where
  -- `shellOctalEscapedBytes`
  unfoldable pub shell_octal_escaped_bytes : Text → Text
  unfolding escaped_bytes
  shell_octal_escaped_bytes value = escaped_bytes (utf8 value)

  -- the text that the checks of `buildRunCompletePostamble` are about
  unfoldable pub postamble_echo : Text → Text
  unfolding shell_octal_escaped_bytes
  postamble_echo sentinel = codes "printf '" ++ (shell_octal_escaped_bytes sentinel ++ b'\'' ∷ [])

  -- `buildRunCompletePostamble`
  unfoldable pub build_run_complete_postamble : Text → Text → Result Failure Text
  unfolding postamble_echo includes is_run_marker
  build_run_complete_postamble marker sentinel = do
    invariant (is_run_marker marker) (assertion "run marker must match expected format")
    invariant (is_non_empty sentinel) (assertion "sentinel must be non-empty")
    invariant (length (marker_payload marker) == 32)
        (assertion "run marker payload must be 32 lowercase hex characters")
    let postamble = postamble_echo sentinel
    invariant (leb (length postamble) max_run_completion_postamble_echo_length)
        (assertion "run-completion postamble echo must stay short enough")
    invariant (starts_with run_completion_postamble_echo_prefix postamble)
        (assertion "run-completion postamble echo prefix must stay in sync with sanitizer")
    invariant (not (includes (codes "agent-tty:run-complete:") postamble))
        (assertion "run-completion postamble must not echo the complete sentinel label")
    invariant (not (includes (codes "__AT_MARKER_") postamble))
        (assertion "run-completion postamble must not echo the complete marker prefix")
    invariant (not (includes (marker_payload marker) postamble))
        (assertion "run-completion postamble must not echo the complete marker payload")
    ok (postamble ++ b'\n' ∷ [])
