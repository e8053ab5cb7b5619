-- ===== src/Coordinator/PostambleBuilt.antt =====
-- src/host/runCompletionCoordinator.ts: the checks of `buildRunCompletePostamble` on a sentinel that
-- the host generates.
use agent_tty.Prelude.{
  includes, ℕ, zero, suc, ◌+◌, ◌*◌, ◌≤◌, ◌<◌, ◌≡◌, refl, sym, ap, subst, ◌∙◌, Bool, true, false,
  some, List, [], ◌∷◌, ◌++◌, Text, codes, text_eq→eq, starts_with, length, length-append, leb, ◌==◌,
  All, All-append, ok, arith, Bool-cases, Option-cases, inl, inr,
}
use agent_tty.RunCompletion.Sentinel.{
  is_run_marker, is_non_empty, is_token_char, is_signal_token, skip_chars,
  build_run_complete_signal_sentinel, run_complete_short_sentinel_prefix,
  run_complete_sentinel_suffix,
}
use agent_tty.RunCompletion.Registered.{signal_token_length}
use agent_tty.Coordinator.Postamble.{
  escaped_bytes, marker_payload, shell_octal_escaped_bytes, postamble_echo,
  build_run_complete_postamble, run_completion_postamble_echo_prefix,
  max_run_completion_postamble_echo_length,
}
use agent_tty.Coordinator.Escapes.{
  IsAscii, Sparse, escaped-Sparse, escaped-differs, includes-Sparse, includes_missing,
  length-escaped_bytes, payload_lem,
}

token_char_ascii : (c : ℕ) → is_token_char c ≡ true → c < 128
token_char_ascii c h = ground (arith, h)

IsAscii-of_test :
    (test : ℕ → Bool) (text : Text)
    → ((c : ℕ) → test c ≡ true → c < 128)
    → All (λ c. test c ≡ true) text
    → IsAscii text
IsAscii-of_test test [] ascii h = tt
IsAscii-of_test test (c ∷ text) ascii h = (ascii c h.0, IsAscii-of_test test text ascii h.1)

-- A text that `skip_chars` reads to its end.
skip_chars_whole :
    (test : ℕ → Bool) (n : ℕ) (text : Text)
    → skip_chars test n text ≡ some []
    → All (λ c. test c ≡ true) text
unfolding skip_chars
skip_chars_whole test zero [] h = tt
skip_chars_whole test zero (c ∷ text) h = cc
skip_chars_whole test (suc n) [] h = tt
skip_chars_whole test (suc n) (c ∷ text) h = elim (Bool-cases (test c)) [
  | inr fails ↦ absurd (ground (arith, h, fails))
  | inl passes ↦ (passes, skip_chars_whole test n text (ground (arith, h, passes)))
]

token-IsAscii : (token : Text) → is_signal_token token ≡ true → IsAscii token
unfolding is_signal_token
token-IsAscii token h = elim (Option-cases (skip_chars is_token_char 6 token)) [
  | inl e ↦ absurd (ground (arith, h, e))
  | inr (rest, e) ↦
      let gone = text_eq→eq rest [] (ground (arith, h, e)) in
      IsAscii-of_test is_token_char token token_char_ascii
        (skip_chars_whole is_token_char 6 token (e ∙ ap some gone))
]

-- `printf '` in front of what has neither of two characters, and few hex digits in a row.
printf-Sparse : (text : Text) → Sparse 3 text → Sparse 3 (codes "printf '" ++ text)
printf-Sparse text sparse = inr (
  refl,
  inr (
    refl,
    inr (refl, inr (refl, inr (refl, inl (refl, omega arith, inr (refl, inr (refl, sparse)))))),
  ),
)

-- The sentinel of a token, in bytes.
abbrev pub signal_sentinel : Text → Text
signal_sentinel token =
    run_complete_short_sentinel_prefix ++ (token ++ run_complete_sentinel_suffix)

signal_sentinel-IsAscii :
    (token : Text) → is_signal_token token ≡ true → IsAscii (signal_sentinel token)
signal_sentinel-IsAscii token h =
    All-append _ run_complete_short_sentinel_prefix _
      (omega arith, (omega arith, (omega arith, (omega arith, tt))))
      (All-append _ token run_complete_sentinel_suffix (token-IsAscii token h)
        (omega arith, (omega arith, tt)))

abbrev ascii_echo : Text → Text
ascii_echo bytes = codes "printf '" ++ (escaped_bytes bytes ++ b'\'' ∷ [])

differs_echo :
    (h : ℕ) (bytes : Text)
    → All (λ c. (h == c) ≡ false) (codes "printf '")
    → 56 ≤ h
    → (h == b'\\') ≡ false
    → IsAscii bytes
    → All (λ c. (h == c) ≡ false) (ascii_echo bytes)
differs_echo h bytes front large other ascii = All-append _ (codes "printf '") _ front (
    All-append _ (escaped_bytes bytes) _ (escaped-differs h bytes large other ascii)
      (ground (arith, large), tt))

length-ascii_echo : (bytes : Text) → length (ascii_echo bytes) ≡ 9 + 4 * length bytes
length-ascii_echo bytes = omega (
  arith,
  length-append (codes "printf '") (escaped_bytes bytes ++ b'\'' ∷ []),
  length-append (escaped_bytes bytes) (b'\'' ∷ []),
  length-escaped_bytes bytes,
)

length-signal_sentinel :
    (token : Text) → is_signal_token token ≡ true → length (signal_sentinel token) ≡ 12
length-signal_sentinel token h =
    omega (arith, length-append token run_complete_sentinel_suffix, signal_token_length token h)

begins_with_prefix :
    (token : Text)
    → starts_with run_completion_postamble_echo_prefix (ascii_echo (signal_sentinel token)) ≡ true
unfolding starts_with escaped_bytes
begins_with_prefix token = refl

no_payload :
    (marker bytes : Text)
    → is_run_marker marker ≡ true
    → IsAscii bytes
    → includes (marker_payload marker) (ascii_echo bytes) ≡ false
no_payload marker bytes h ascii =
    let (hex, size) = payload_lem marker h in
    includes-Sparse 3 (marker_payload marker) (ascii_echo bytes) (omega arith) (omega (arith, size))
      hex (printf-Sparse (escaped_bytes bytes ++ b'\'' ∷ []) (escaped-Sparse 3 bytes ascii))

signal_sentinel_lem :
    (token sentinel : Text)
    → build_run_complete_signal_sentinel token ≡ ok sentinel
    → (is_signal_token token ≡ true) × (sentinel ≡ signal_sentinel token)
unfolding build_run_complete_signal_sentinel
signal_sentinel_lem token sentinel h = elim (Bool-cases (is_signal_token token)) [
  | inr no_token ↦ absurd (ground (arith, h, no_token))
  | inl is_token ↦ (is_token, ground (arith, h, is_token))
]

no_label :
    (bytes : Text)
    → IsAscii bytes
    → includes (codes "agent-tty:run-complete:") (ascii_echo bytes) ≡ false
no_label bytes ascii =
    includes_missing b'a' (codes "gent-tty:run-complete:") (ascii_echo bytes)
      (differs_echo b'a' bytes front (omega arith) refl ascii)
  where
    front : All (λ c. (b'a' == c) ≡ false) (codes "printf '")
    front = (refl, (refl, (refl, (refl, (refl, (refl, (refl, (refl, tt))))))))

no_marker :
    (bytes : Text) → IsAscii bytes → includes (codes "__AT_MARKER_") (ascii_echo bytes) ≡ false
no_marker bytes ascii =
    includes_missing b'_' (codes "_AT_MARKER_") (ascii_echo bytes)
      (differs_echo b'_' bytes front (omega arith) refl ascii)
  where
    front : All (λ c. (b'_' == c) ≡ false) (codes "printf '")
    front = (refl, (refl, (refl, (refl, (refl, (refl, (refl, (refl, tt))))))))

within_size : (n m : ℕ) → n ≤ m → leb n m ≡ true
within_size n m e = ground (arith, e)

-- What the checks of a postamble's text ask.
record PassesChecks (marker echo : Text) : Type 0 where
  short : leb (length echo) max_run_completion_postamble_echo_length ≡ true
  begins : starts_with run_completion_postamble_echo_prefix echo ≡ true
  label : includes (codes "agent-tty:run-complete:") echo ≡ false
  prefix : includes (codes "__AT_MARKER_") echo ≡ false
  payload : includes (marker_payload marker) echo ≡ false

postamble_checked :
    (utf8 : Text → List ℕ) (marker sentinel : Text)
    → is_run_marker marker ≡ true
    → is_non_empty sentinel ≡ true
    → length (marker_payload marker) ≡ 32
    → PassesChecks marker (postamble_echo utf8 sentinel)
    → build_run_complete_postamble utf8 marker sentinel
      ≡ ok (postamble_echo utf8 sentinel ++ b'\n' ∷ [])
unfolding build_run_complete_postamble
postamble_checked utf8 marker sentinel is_marker some_sentinel size p =
    rw (is_marker, some_sentinel, size, p.short, p.begins, p.label, p.prefix, p.payload) refl

echo_of_bytes :
    (utf8 : Text → List ℕ) (bytes : Text)
    → utf8 bytes ≡ bytes
    → postamble_echo utf8 bytes ≡ ascii_echo bytes
unfolding postamble_echo shell_octal_escaped_bytes
echo_of_bytes utf8 bytes same = ap ascii_echo same

-- Where `utf8` leaves ASCII text as it is: with a run marker and the sentinel of a token,
-- `buildRunCompletePostamble` fails none of its checks, and gives the `printf` of the sentinel, each
-- byte as an octal escape, in 57 characters and a line end.
pub build_run_complete_postamble_lem :
    (utf8 : Text → List ℕ) (marker token sentinel : Text)
    → ((text : Text) → IsAscii text → utf8 text ≡ text)
    → is_run_marker marker ≡ true
    → build_run_complete_signal_sentinel token ≡ ok sentinel
    → (build_run_complete_postamble utf8 marker sentinel
        ≡ ok (postamble_echo utf8 sentinel ++ b'\n' ∷ []))
      × (postamble_echo utf8 sentinel ≡ codes "printf '" ++ (escaped_bytes sentinel ++ b'\'' ∷ []))
      × (length (postamble_echo utf8 sentinel) ≡ 57)
build_run_complete_postamble_lem utf8 marker token sentinel ascii_same is_marker built =
    let (is_token, e) = signal_sentinel_lem token sentinel built in
    let bytes = signal_sentinel token in
    let ascii = signal_sentinel-IsAscii token is_token in
    let echo : postamble_echo utf8 sentinel ≡ ascii_echo bytes =
      ap (postamble_echo utf8) e ∙ echo_of_bytes utf8 bytes (ascii_same bytes ascii) in
    let size : length (ascii_echo bytes) ≡ 57 =
      omega (arith, length-ascii_echo bytes, length-signal_sentinel token is_token) in
    let payload = payload_lem marker is_marker in
    let checks : PassesChecks marker (ascii_echo bytes) = record {
      short = within_size _ 64 (omega (arith, size));
      begins = begins_with_prefix token;
      label = no_label bytes ascii;
      prefix = no_marker bytes ascii;
      payload = no_payload marker bytes is_marker ascii;
    } in
    (
      postamble_checked utf8 marker sentinel is_marker (ap is_non_empty e) payload.1
          (subst (PassesChecks marker) (sym echo) checks),
      echo ∙ ap ascii_echo (sym e),
      ap length echo ∙ size,
    )
