-- ===== src/RunCompletion/Sentinel.antt =====
-- src/host/runCompletionSentinel.ts: run markers, and the sentinels that are built for them.
use agent_tty.Prelude.{
  ℕ, zero, suc, Bool, true, false, ◌&&◌, ◌||◌, Option, none, some, [], ◌∷◌, ◌++◌, Text, codes,
  text_eq, starts_with, drop, length, leb, ◌==◌, Result, ok, ◌>>◌, invariant, Failure, assertion,
}

abbrev pub esc_code : ℕ
esc_code = 0x1b

abbrev pub run_complete_sentinel_prefix : Text
run_complete_sentinel_prefix = esc_code ∷ codes "_agent-tty:run-complete:"

abbrev pub run_complete_sentinel_suffix : Text
run_complete_sentinel_suffix = esc_code ∷ b'\\' ∷ []

abbrev pub run_complete_short_sentinel_prefix : Text
run_complete_short_sentinel_prefix = esc_code ∷ codes "_at"

-- `[0-9a-f]`
abbrev pub is_hex_digit : ℕ → Bool
is_hex_digit c = leb b'0' c && leb c b'9' || leb b'a' c && leb c b'f'

-- `[A-Za-z0-9_-]`
abbrev pub is_token_char : ℕ → Bool
is_token_char c =
    leb b'A' c && leb c b'Z'
    || leb b'a' c && leb c b'z'
    || leb b'0' c && leb c b'9'
    || c == b'_'
    || c == b'-'

-- What is left behind `n` characters that pass the test.
unfoldable pub skip_chars : (ℕ → Bool) → ℕ → Text → Option Text
skip_chars test zero text = some text
skip_chars test (suc n) [] = none
skip_chars test (suc n) (c ∷ text) = elim (test c) [ true ↦ skip_chars test n text | false ↦ none ]

abbrev pub leaves : Option Text → Text → Bool
leaves none end = false
leaves (some rest) end = text_eq rest end

-- `RUN_MARKER_PATTERN.test(marker)`
unfoldable pub is_run_marker : Text → Bool
unfolding skip_chars
is_run_marker marker =
    starts_with (codes "__AT_MARKER_") marker
    && leaves (skip_chars is_hex_digit 32 (drop (length (codes "__AT_MARKER_")) marker))
        (codes "__")

-- `RUN_COMPLETE_SHORT_SENTINEL_TOKEN_PATTERN.test(token)`
unfoldable pub is_signal_token : Text → Bool
unfolding skip_chars
is_signal_token token = leaves (skip_chars is_token_char 6 token) []

-- `assertRunMarker`
unfoldable pub assert_run_marker : Text → Result Failure (Unit {0})
assert_run_marker marker =
    invariant (is_run_marker marker) (assertion "run marker must match expected format")

abbrev pub is_non_empty : Text → Bool
is_non_empty [] = false
is_non_empty (c ∷ text) = true

-- `assertNonEmptyString`
unfoldable pub assert_non_empty_string : Text → Result Failure (Unit {0})
assert_non_empty_string value = invariant (is_non_empty value) (assertion "must be non-empty")

-- `buildRunCompleteSignalSentinel`
unfoldable pub build_run_complete_signal_sentinel : Text → Result Failure Text
build_run_complete_signal_sentinel token = do
  invariant (is_signal_token token)
      (assertion "run-completion signal token must be six base64url characters")
  ok (run_complete_short_sentinel_prefix ++ (token ++ run_complete_sentinel_suffix))

-- `buildRunCompleteSentinel`
unfoldable pub build_run_complete_sentinel : Text → Result Failure Text
build_run_complete_sentinel marker = do
  assert_run_marker marker
  ok (run_complete_sentinel_prefix ++ (marker ++ run_complete_sentinel_suffix))
