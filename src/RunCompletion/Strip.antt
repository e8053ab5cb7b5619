-- ===== src/RunCompletion/Strip.antt =====
-- src/host/runCompletionSentinel.ts: the methods of `RunCompletionPostambleEchoSanitizer`, and its loop
-- over a buffer.
use agent_tty.Prelude.{
  ℕ, zero, suc, ◌+◌, Bool, true, false, not, ◌&&◌, Option, none, some, is_none, List, [], ◌∷◌, ◌++◌,
  Text, text_eq, starts_with, drop, length, ◌==◌, if◌then◌else◌, Result, ok, err, ◌>>=◌, ◌>>◌,
  invariant, Failure, assertion, out_of_fuel,
}
use agent_tty.RunCompletion.Sentinel.{esc_code, assert_run_marker}
use agent_tty.RunCompletion.Echo.{carriage_return_code, is_csi_final_byte}
use agent_tty.RunCompletion.Sanitizer.{
  TolerantEchoCandidate, DropControl, escape, csi, TolerantEchoStripState, ActivePostambleEcho,
  Sanitizer, postamble_echo_variants, has_active_echoes, visited, assert_echo_tail_bound,
  set_echo_tail, complete_loop, TolerantEchoPrefixMatch, find_tolerant_echo_prefix_match,
  has_partial_echo_match,
}

-- `#activeEchoes.set(marker, { echoes })`: an entry of the marker keeps its place.
unfoldable pub set_echoes : Text → List Text → List ActivePostambleEcho → List ActivePostambleEcho
set_echoes marker echoes [] = (record { marker = marker; echoes = echoes }) ∷ []
set_echoes marker echoes (a ∷ active) =
    let rest = set_echoes marker echoes active in
    if text_eq a.marker marker
    then (record { marker = marker; echoes = echoes }) ∷ active
    else a ∷ rest

-- `register`
unfoldable pub register_echo : Text → Text → Sanitizer → Result Failure Sanitizer
unfolding set_echoes postamble_echo_variants assert_echo_tail_bound
register_echo marker postamble s = do
  assert_run_marker marker
  echoes ← postamble_echo_variants postamble
  let s' : Sanitizer = record s { active_echoes = set_echoes marker echoes s.active_echoes }
  assert_echo_tail_bound s'
  ok s'

-- The candidates that go on with the character, one further.
unfoldable pub advanced : ℕ → List TolerantEchoCandidate → List TolerantEchoCandidate
advanced c [] = []
advanced c (x ∷ candidates) =
    let rest = advanced c candidates in
    if starts_with (c ∷ []) (drop x.index x.echo)
    then record x { index = x.index + 1 } ∷ rest
    else rest

unfoldable pub some_completed : List TolerantEchoCandidate → Bool
some_completed [] = false
some_completed (x ∷ candidates) =
    let rest = some_completed candidates in if x.index == length x.echo then true else rest

abbrev with_control : Option DropControl → TolerantEchoStripState → Option TolerantEchoStripState
with_control control state = some (record state { drop_control = control })

-- The end of `#consumeTolerantEchoByte`, on the candidates that go on.
abbrev pub settle_candidates :
    ℕ → TolerantEchoStripState → List TolerantEchoCandidate → Option TolerantEchoStripState × Text
settle_candidates c state [] = (some state, c ∷ [])
settle_candidates c state (x ∷ rest) =
    if some_completed (x ∷ rest)
    then (none, [])
    else (some (record { candidates = x ∷ rest; drop_control = none }), [])

abbrev pub consume_output : ℕ → TolerantEchoStripState → Option TolerantEchoStripState × Text
consume_output c state =
    if c == carriage_return_code
    then (some state, [])
    else if c == esc_code
    then (with_control (some escape) state, [])
    else settle_candidates c state (advanced c state.candidates)

abbrev pub consume_by :
    Option DropControl → ℕ → TolerantEchoStripState → Option TolerantEchoStripState × Text
consume_by (some escape) c state = (with_control (if c == b'[' then some csi else none) state, [])
consume_by (some csi) c state =
    (if is_csi_final_byte c then with_control none state else some state, [])
consume_by none c state = consume_output c state

-- `#consumeTolerantEchoByte`: the state after the character, and the output for it.
unfoldable pub consume_tolerant_echo_byte :
    ℕ → TolerantEchoStripState → Option TolerantEchoStripState × Text
unfolding some_completed advanced
consume_tolerant_echo_byte c state = consume_by state.drop_control c state

-- The state behind a tolerant match.
abbrev pub behind_match : TolerantEchoPrefixMatch → Sanitizer → Sanitizer
behind_match m s = if m.completed then s else record s {
  tolerant_strip_state = some (record { candidates = m.candidates; drop_control = none });
}

-- `#stripBuffer`'s loop, on fuel: `out` is the output, with `buffer.slice(outputStart, index)`.
unfoldable pub strip_loop : ℕ → Bool → Text → Sanitizer → Text → Result Failure (Sanitizer × Text)
unfolding consume_tolerant_echo_byte
strip_loop zero is_final remaining s out = err out_of_fuel
strip_loop (suc fuel) is_final [] s out = assert_echo_tail_bound s >> ok (s, out)
strip_loop (suc fuel) is_final (c ∷ text) s out = elim s.tolerant_strip_state [
  | some state ↦
      let (state', output) = consume_tolerant_echo_byte c state in
      strip_loop fuel is_final text (record s { tolerant_strip_state = state' }) (out ++ output)
  | none ↦ elim (has_active_echoes s.active_echoes) [
    | false ↦ assert_echo_tail_bound s >> ok (s, out ++ c ∷ text)
    | true ↦ elim (c == b'p') [
      | false ↦ strip_loop fuel is_final text s (out ++ c ∷ [])
      | true ↦ do
        matched ← complete_loop (visited s.active_echoes) (c ∷ text) none
        elim matched [
          | some echo ↦ strip_loop fuel is_final (drop (length echo) (c ∷ text)) s out
          | none ↦ do
            tolerant ← find_tolerant_echo_prefix_match (c ∷ text) s
            elim tolerant [
              | some m ↦
                  strip_loop fuel is_final (drop m.consumed_length (c ∷ text)) (behind_match m s)
                    out
              | none ↦ do
                partial ← (if is_final then ok false else has_partial_echo_match (c ∷ text) s)
                elim partial [
                  | true ↦ set_echo_tail (c ∷ text) s >>= λ s'. ok (s', out)
                  | false ↦ strip_loop fuel is_final text s (out ++ c ∷ [])
                ]
            ]
        ]
    ]
  ]
]

abbrev pub is_idle : Sanitizer → Bool
is_idle s = not (has_active_echoes s.active_echoes) && is_none s.tolerant_strip_state

-- `#stripBuffer`; each round of the loop takes a character.
unfoldable pub strip_buffer : Text → Bool → Sanitizer → Result Failure (Sanitizer × Text)
unfolding strip_loop
strip_buffer [] is_final s = ok (s, [])
strip_buffer (c ∷ text) is_final s =
    if is_idle s
    then (invariant (length s.pending_tail == 0)
          (assertion "postamble echo pending tail must stay empty without active echoes")
        >> ok (s, c ∷ text))
    else strip_loop (length (c ∷ text) + 1) is_final (c ∷ text) s []

-- `feed`
unfoldable pub feed_echo : Text → Sanitizer → Result Failure (Sanitizer × Text)
unfolding strip_buffer
feed_echo [] s = ok (s, [])
feed_echo (c ∷ chunk) s =
    if is_idle s
    then (invariant (length s.pending_tail == 0)
          (assertion "postamble echo pending tail must be empty when no echoes are active")
        >> ok (s, c ∷ chunk))
    else strip_buffer (s.pending_tail ++ c ∷ chunk) false (record s { pending_tail = [] })

-- `flush`
unfoldable pub flush_echo : Sanitizer → Result Failure (Sanitizer × Text)
unfolding strip_buffer
flush_echo s =
    if length s.pending_tail == 0
    then ok (s, [])
    else strip_buffer s.pending_tail true (record s { pending_tail = [] })

-- `#activeEchoes.delete(marker)`, and the candidates of the other markers
unfoldable pub delete_echoes : Text → List ActivePostambleEcho → List ActivePostambleEcho
delete_echoes marker [] = []
delete_echoes marker (a ∷ active) =
    let rest = delete_echoes marker active in if text_eq a.marker marker then active else a ∷ rest

unfoldable pub of_others : Text → List TolerantEchoCandidate → List TolerantEchoCandidate
of_others marker [] = []
of_others marker (x ∷ candidates) =
    let rest = of_others marker candidates in if text_eq x.marker marker then rest else x ∷ rest

abbrev keep_state :
    TolerantEchoStripState → List TolerantEchoCandidate → Option TolerantEchoStripState
keep_state state [] = none
keep_state state (x ∷ candidates) = some (record state { candidates = x ∷ candidates })

abbrev without_marker : Text → Option TolerantEchoStripState → Option TolerantEchoStripState
without_marker marker none = none
without_marker marker (some state) = keep_state state (of_others marker state.candidates)

-- `deregister`
unfoldable pub deregister_echo : Text → Sanitizer → Result Failure (Sanitizer × Text)
unfolding delete_echoes of_others strip_buffer
deregister_echo marker s = do
  assert_run_marker marker
  let s' : Sanitizer = record s {
    active_echoes = delete_echoes marker s.active_echoes;
    tolerant_strip_state = without_marker marker s.tolerant_strip_state;
  }
  if length s.pending_tail == 0
      then ok (s', [])
      else strip_buffer s.pending_tail false (record s' { pending_tail = [] })
