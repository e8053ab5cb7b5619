-- ===== src/RunCompletion/Sanitizer.antt =====
-- src/host/runCompletionSentinel.ts: `RunCompletionPostambleEchoSanitizer`. The map of active echoes
-- is the list of its entries in insertion order. The output is one text, where the source cuts it into
-- slices of the buffer first. A throw ends the call, and the state that it leaves is not followed.
use agent_tty.Prelude.{
  ℕ, ◌-◌, Bool, true, false, not, ◌&&◌, ◌||◌, Option, none, some, List, [], ◌∷◌, ◌++◌, Text,
  text_eq, starts_with, take, get_elem?, length, max, leb, ltb, ◌==◌, if◌then◌else◌, Result, ok,
  ◌>>=◌, ◌>>◌, invariant, Failure, assertion,
}
use agent_tty.RunCompletion.Sentinel.{assert_non_empty_string, is_non_empty}
use agent_tty.RunCompletion.Echo.{
  min_tolerant_echo_prefix_length, EchoPrefixScanResult, scan_echo_prefix,
}

pub record TolerantEchoCandidate : Type 0 where
  pub marker : Text
  pub echo : Text
  pub index : ℕ

pub data DropControl : Type 0 where
  escape csi : DropControl

pub record TolerantEchoStripState : Type 0 where
  pub candidates : List TolerantEchoCandidate
  pub drop_control : Option DropControl

pub record ActivePostambleEcho : Type 0 where
  pub marker : Text
  pub echoes : List Text

pub record Sanitizer : Type 0 where
  pub active_echoes : List ActivePostambleEcho
  pub tolerant_strip_state : Option TolerantEchoStripState
  pub pending_tail : Text

abbrev pub new_sanitizer : Sanitizer
new_sanitizer = record { active_echoes = []; tolerant_strip_state = none; pending_tail = [] }

abbrev ends_in_newline : Option ℕ → Bool
ends_in_newline none = false
ends_in_newline (some c) = c == b'\n'

-- `postambleEchoVariants`
unfoldable pub postamble_echo_variants : Text → Result Failure (List Text)
postamble_echo_variants postamble = do
  assert_non_empty_string postamble
  invariant (ends_in_newline (get_elem? postamble (length postamble - 1)))
      (assertion "run-completion postamble must end with newline")
  let crlf_echo = take (length postamble - 1) postamble ++ b'\r' ∷ b'\n' ∷ []
  ok (if text_eq crlf_echo postamble then postamble ∷ [] else crlf_echo ∷ postamble ∷ [])

-- `hasActiveEchoes`
abbrev pub has_active_echoes : List ActivePostambleEcho → Bool
has_active_echoes [] = false
has_active_echoes (a ∷ active) = true

-- What the nested loops over the active echoes visit, in order.
abbrev pub of_marker : Text → List Text → List (Text × Text) → List (Text × Text)
of_marker marker [] rest = rest
of_marker marker (echo ∷ echoes) rest = (marker, echo) ∷ of_marker marker echoes rest

unfoldable pub visited : List ActivePostambleEcho → List (Text × Text)
visited [] = []
visited (a ∷ active) = of_marker a.marker a.echoes (visited active)

unfoldable pub longest_echo : List (Text × Text) → ℕ → ℕ
longest_echo [] so_far = so_far
longest_echo ((marker, echo) ∷ pairs) so_far = longest_echo pairs (max so_far (length echo))

-- `#maxActiveEchoLength`
unfoldable pub max_active_echo_length : Sanitizer → Result Failure ℕ
max_active_echo_length s =
    let max_length = longest_echo (visited s.active_echoes) 0 in
    invariant (ltb 0 max_length) (assertion "max active echo length requires active echoes")
    >> ok max_length

-- `#assertPendingTailBound`
unfoldable pub assert_echo_tail_bound : Sanitizer → Result Failure (Unit {0})
unfolding max_active_echo_length
assert_echo_tail_bound s =
    if not (has_active_echoes s.active_echoes)
    then invariant (length s.pending_tail == 0)
        (assertion "postamble echo pending tail must be empty without active echoes")
    else (max_active_echo_length s >>= λ max_length.
        invariant (ltb (length s.pending_tail) max_length)
          (assertion "postamble echo pending tail must be shorter than the longest active echo"))

-- `#setPendingTail`
unfoldable pub set_echo_tail : Text → Sanitizer → Result Failure Sanitizer
unfolding assert_echo_tail_bound
set_echo_tail tail s = do
  invariant (is_non_empty tail) (assertion "postamble echo pending tail must not be empty")
  invariant (has_active_echoes s.active_echoes)
      (assertion "postamble echo pending tail requires active echoes")
  let s' : Sanitizer = record s { pending_tail = tail }
  assert_echo_tail_bound s'
  ok s'

-- The loops of `#findCompleteEchoMatch`; `text` is the buffer from the index on.
abbrev pub none_or : Option Text → Text → Bool
none_or none echo = true
none_or (some found) echo = text_eq found echo

unfoldable pub complete_loop :
    List (Text × Text) → Text → Option Text → Result Failure (Option Text)
complete_loop [] text matched = ok matched
complete_loop ((marker, echo) ∷ pairs) text matched = elim (starts_with echo text) [
  | false ↦ complete_loop pairs text matched
  | true ↦
      invariant (none_or matched echo) (assertion "postamble echo matches must be unambiguous")
      >> complete_loop pairs text (some echo)
]

-- The variables of `#findTolerantEchoPrefixMatch`.
pub record Best : Type 0 where
  pub completed : Option ℕ
  pub echo_index : ℕ
  pub consumed_length : ℕ
  pub candidates : List TolerantEchoCandidate

abbrev pub no_best : Best
no_best = record { completed = none; echo_index = 0; consumed_length = 0; candidates = [] }

abbrev pub or_zero : Option ℕ → ℕ
or_zero none = 0
or_zero (some n) = n

-- The part of the loop's body behind `scan.complete`.
abbrev pub is_better : EchoPrefixScanResult → Best → Bool
is_better scan best =
    ltb best.echo_index scan.echo_index
    || scan.echo_index == best.echo_index && ltb best.consumed_length scan.consumed_length

abbrev reset_to : EchoPrefixScanResult → Best → Best
reset_to scan best =
    if is_better scan best
    then record best {
      echo_index = scan.echo_index;
      consumed_length = scan.consumed_length;
      candidates = [];
    }
    else best

abbrev add_candidate : Text → Text → EchoPrefixScanResult → Best → Best
add_candidate marker echo scan best =
    if scan.echo_index == best.echo_index && scan.consumed_length == best.consumed_length
    then record best {
      candidates =
          best.candidates
          ++ (record { marker = marker; echo = echo; index = scan.echo_index }) ∷ [];
    }
    else best

unfoldable pub weigh : Text → Text → EchoPrefixScanResult → Best → Best
weigh marker echo scan best =
    if ltb scan.echo_index min_tolerant_echo_prefix_length
    then best
    else add_candidate marker echo scan (reset_to scan best)

unfoldable pub tolerant_loop : List (Text × Text) → Text → Best → Result Failure Best
unfolding weigh
tolerant_loop [] remaining best = ok best
tolerant_loop ((marker, echo) ∷ pairs) remaining best = scan_echo_prefix remaining echo >>= λ scan.
    elim scan.complete [
      | true ↦
          invariant (scan.echo_index == length echo)
            (assertion "complete postamble echo scan must consume the full echo")
          >> tolerant_loop pairs remaining
              (record best { completed = some (max (or_zero best.completed) scan.consumed_length) })
      | false ↦ tolerant_loop pairs remaining (weigh marker echo scan best)
    ]

pub record TolerantEchoPrefixMatch : Type 0 where
  pub candidates : List TolerantEchoCandidate
  pub completed : Bool
  pub consumed_length : ℕ

abbrev pub is_any_candidate : List TolerantEchoCandidate → Bool
is_any_candidate [] = false
is_any_candidate (c ∷ candidates) = true

-- The end of `#findTolerantEchoPrefixMatch`.
unfoldable pub conclude : Best → Result Failure (Option TolerantEchoPrefixMatch)
conclude best = elim best.completed [
  | some size ↦ ok (some (record { candidates = []; completed = true; consumed_length = size }))
  | none ↦
      if best.echo_index == 0
      then ok none
      else (invariant (is_any_candidate best.candidates)
            (assertion "tolerant postamble echo prefix match must have candidates")
          >> ok (
              some (record {
                candidates = best.candidates;
                completed = false;
                consumed_length = best.consumed_length;
              })))
]

-- `#findTolerantEchoPrefixMatch`
unfoldable pub find_tolerant_echo_prefix_match :
    Text → Sanitizer → Result Failure (Option TolerantEchoPrefixMatch)
unfolding tolerant_loop conclude
find_tolerant_echo_prefix_match remaining s =
    tolerant_loop (visited s.active_echoes) remaining no_best >>= conclude

-- The loops of `#hasPartialEchoMatch`
unfoldable pub partial_loop : List (Text × Text) → Text → Result Failure Bool
partial_loop [] remaining = ok false
partial_loop ((marker, echo) ∷ pairs) remaining = scan_echo_prefix remaining echo >>= λ scan.
    elim (scan.pending && ltb 0 scan.echo_index) [
      | true ↦ ok true
      | false ↦ partial_loop pairs remaining
    ]

-- `#hasPartialEchoMatch`
unfoldable pub has_partial_echo_match : Text → Sanitizer → Result Failure Bool
unfolding partial_loop max_active_echo_length
has_partial_echo_match remaining s = max_active_echo_length s >>= λ max_length.
    if leb max_length (length remaining)
    then ok false
    else partial_loop (visited s.active_echoes) remaining
