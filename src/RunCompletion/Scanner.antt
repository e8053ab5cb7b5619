-- ===== src/RunCompletion/Scanner.antt =====
-- src/host/runCompletionSentinel.ts: `RunCompletionSentinelScanner`. The map of active sentinels is
-- the list of its entries in insertion order. A throw ends the scan, and the state that it leaves is
-- not followed.
use agent_tty.Prelude.{
  ℕ, zero, suc, ◌+◌, Bool, true, false, not, ◌&&◌, Option, none, some, List, [], ◌∷◌, ◌++◌, Text,
  text_eq, starts_with, drop, length, ltb, max, ◌==◌, if◌then◌else◌, is_none, Result, ok, err,
  ◌>>=◌, ◌>>◌, invariant, Failure, assertion, out_of_fuel,
}
use agent_tty.RunCompletion.Sentinel.{
  esc_code, assert_run_marker, assert_non_empty_string, is_non_empty, build_run_complete_sentinel,
}

pub data SentinelPiece : Type 0 where
  output : Text → SentinelPiece
  run_complete : (marker : Text) → SentinelPiece

pub record ActiveSentinel : Type 0 where
  pub marker : Text
  pub sentinel : Text

pub record Scanner : Type 0 where
  pub active_sentinels : List ActiveSentinel
  pub pending_tail : Text

abbrev pub new_scanner : Scanner
new_scanner = record { active_sentinels = []; pending_tail = [] }

-- `has(marker)`
unfoldable pub has_marker : Text → List ActiveSentinel → Bool
has_marker marker [] = false
has_marker marker (m ∷ active) =
    let rest = has_marker marker active in if text_eq m.marker marker then true else rest

-- `delete(marker)`
unfoldable pub remove_marker : Text → List ActiveSentinel → List ActiveSentinel
remove_marker marker [] = []
remove_marker marker (m ∷ active) =
    let rest = remove_marker marker active in if text_eq m.marker marker then active else m ∷ rest

-- `activeSentinels.size > 0`
abbrev pub is_any : List ActiveSentinel → Bool
is_any [] = false
is_any (m ∷ active) = true

-- `hasActiveMarkers`
unfoldable pub has_active_markers : Scanner → Bool
has_active_markers s = is_any s.active_sentinels

unfoldable pub longest : List ActiveSentinel → ℕ → ℕ
longest [] so_far = so_far
longest (m ∷ active) so_far = longest active (max so_far (length m.sentinel))

-- `#maxActiveSentinelLength`
unfoldable pub max_active_sentinel_length : Scanner → Result Failure ℕ
unfolding longest
max_active_sentinel_length s =
    let max_length = longest s.active_sentinels 0 in
    invariant (ltb 0 max_length)
      (assertion "max active sentinel length requires active run-completion markers")
    >> ok max_length

-- `#assertPendingTailBound`
unfoldable pub assert_pending_tail_bound : Scanner → Result Failure (Unit {0})
unfolding max_active_sentinel_length has_active_markers
assert_pending_tail_bound s =
    if not (has_active_markers s)
    then invariant (length s.pending_tail == 0)
        (assertion "pending tail must be empty without active run-completion markers")
    else (max_active_sentinel_length s >>= λ max_length.
        invariant (ltb (length s.pending_tail) max_length)
          (assertion "pending tail must be shorter than the longest active sentinel"))

-- `register`, given its sentinel
unfoldable pub register : Text → Text → Scanner → Result Failure Scanner
unfolding has_marker assert_pending_tail_bound
register marker sentinel s = do
  assert_run_marker marker
  assert_non_empty_string sentinel
  let active = s.active_sentinels ++ (record { marker = marker; sentinel = sentinel }) ∷ []
  let s' : Scanner = record s { active_sentinels = active }
  if has_marker marker s.active_sentinels then ok s else (assert_pending_tail_bound s' >> ok s')

-- `register` with its default sentinel
unfoldable pub register_marker : Text → Scanner → Result Failure Scanner
unfolding register
register_marker marker s =
    build_run_complete_sentinel marker >>= λ sentinel. register marker sentinel s

-- `#setPendingTail`
unfoldable pub set_pending_tail : Text → Scanner → Result Failure Scanner
unfolding assert_pending_tail_bound
set_pending_tail tail s = do
  invariant (is_non_empty tail) (assertion "pending tail must not be empty")
  invariant (has_active_markers s) (assertion "pending tail requires active run-completion markers")
  let s' : Scanner = record s { pending_tail = tail }
  assert_pending_tail_bound s'
  ok s'

-- The loop of `#findCompleteSentinelMatch`; `text` is the buffer from the index on.
unfoldable pub find_loop :
    List ActiveSentinel → Text → Option ActiveSentinel → Result Failure (Option ActiveSentinel)
find_loop [] text matched = ok matched
find_loop (m ∷ active) text matched = elim (starts_with m.sentinel text) [
  | false ↦ find_loop active text matched
  | true ↦
      invariant (is_none matched)
        (assertion "fixed-length run sentinels must match at most one active marker")
      >> find_loop active text (some m)
]

-- `#findCompleteSentinelMatch`
unfoldable pub find_complete_sentinel_match :
    Text → Scanner → Result Failure (Option ActiveSentinel)
unfolding find_loop
find_complete_sentinel_match text s = find_loop s.active_sentinels text none

-- `#hasPartialSentinelMatch`
unfoldable pub has_partial_sentinel_match : Text → List ActiveSentinel → Bool
has_partial_sentinel_match remaining [] = false
has_partial_sentinel_match remaining (m ∷ active) =
    let rest = has_partial_sentinel_match remaining active in
    if ltb (length remaining) (length m.sentinel) && starts_with remaining m.sentinel
    then true
    else rest

-- `pushOutputPiece`
unfoldable pub push_output_piece : List SentinelPiece → Text → List SentinelPiece
push_output_piece pieces [] = pieces
push_output_piece pieces (c ∷ text) = pieces ++ output (c ∷ text) ∷ []

-- What follows the loop of `#scanBuffer`.
unfoldable pub end_scan :
    List SentinelPiece → Text → Scanner → Result Failure (Scanner × List SentinelPiece)
unfolding assert_pending_tail_bound push_output_piece
end_scan pieces out s = assert_pending_tail_bound s >> ok (s, push_output_piece pieces out)

-- The loop of `#scanBuffer`, on fuel: `out` is `buffer.slice(outputStart, index)`, and `remaining` is
-- `buffer.slice(index)`.
unfoldable pub scan_loop :
    ℕ
    → Bool
    → List SentinelPiece
    → Text
    → Text
    → Scanner
    → Result Failure (Scanner × List SentinelPiece)
unfolding end_scan find_complete_sentinel_match has_partial_sentinel_match set_pending_tail
    push_output_piece remove_marker has_marker has_active_markers
scan_loop zero is_final pieces out remaining s = err out_of_fuel
scan_loop (suc fuel) is_final pieces out [] s = end_scan pieces out s
scan_loop (suc fuel) is_final pieces out (c ∷ text) s = elim (has_active_markers s) [
  | false ↦ end_scan (push_output_piece pieces (out ++ c ∷ text)) [] s
  | true ↦ elim (c == esc_code) [
    | false ↦ scan_loop fuel is_final pieces (out ++ c ∷ []) text s
    | true ↦ do
      matched ← find_complete_sentinel_match (c ∷ text) s
      elim matched [
        | some m ↦ do
          invariant (has_marker m.marker s.active_sentinels)
              (assertion "matched run-completion marker must be active")
          scan_loop fuel is_final (push_output_piece pieces out ++ run_complete m.marker ∷ []) []
              (drop (length m.sentinel) (c ∷ text))
              (record s { active_sentinels = remove_marker m.marker s.active_sentinels })
        | none ↦ elim (not is_final && has_partial_sentinel_match (c ∷ text) s.active_sentinels) [
          | true ↦ set_pending_tail (c ∷ text) s >>= λ s'. ok (s', push_output_piece pieces out)
          | false ↦ scan_loop fuel is_final pieces (out ++ c ∷ []) text s
        ]
      ]
  ]
]

-- `#scanBuffer`; each round of the loop takes a character.
unfoldable pub scan_buffer : Text → Bool → Scanner → Result Failure (Scanner × List SentinelPiece)
unfolding scan_loop
scan_buffer [] is_final s = ok (s, [])
scan_buffer (c ∷ text) is_final s =
    if not (has_active_markers s)
    then (invariant (length s.pending_tail == 0)
          (assertion "pending tail must stay empty when no run-completion markers are active")
        >> ok (s, output (c ∷ text) ∷ []))
    else scan_loop (length (c ∷ text) + 1) is_final [] [] (c ∷ text) s

-- `feed`
unfoldable pub feed : Text → Scanner → Result Failure (Scanner × List SentinelPiece)
unfolding scan_buffer
feed [] s = ok (s, [])
feed (c ∷ chunk) s =
    if not (has_active_markers s)
    then (invariant (length s.pending_tail == 0)
          (assertion "pending tail must be empty when no run-completion markers are active")
        >> ok (s, output (c ∷ chunk) ∷ []))
    else scan_buffer (s.pending_tail ++ c ∷ chunk) false (record s { pending_tail = [] })

-- `flush`
unfoldable pub flush : Scanner → Result Failure (Scanner × List SentinelPiece)
unfolding scan_buffer
flush s =
    if length s.pending_tail == 0
    then ok (s, [])
    else scan_buffer s.pending_tail true (record s { pending_tail = [] })
