-- ===== src/RunCompletion/Tests.antt =====
-- Runs of `RunCompletionSentinelScanner` of src/host/runCompletionSentinel.ts, and the theorems on it at
-- a scanner with one active run.
use agent_tty.Prelude.{
  concat, ◌≡◌, refl, true, false, List, [], ◌∷◌, ◌++◌, Text, codes, text_eq, starts_with, ok, arith,
  ◌>>=◌, inl,
}
use agent_tty.RunCompletion.Sentinel.{
  is_run_marker, is_signal_token, build_run_complete_signal_sentinel, assert_run_marker,
  assert_non_empty_string, esc_code, run_complete_sentinel_suffix,
}
use agent_tty.RunCompletion.Scanner.{
  Scanner, new_scanner, SentinelPiece, output, run_complete, register, feed, flush, has_marker,
  remove_marker,
}
use agent_tty.RunCompletion.Matching.{has_sentinel}
use agent_tty.RunCompletion.Reader.{completed, items_of}
use agent_tty.RunCompletion.Chunks.{IsScanner}
use agent_tty.RunCompletion.Stream.{feed_all, feed_all_lem}
use agent_tty.RunCompletion.Lossless.{scan_stream, scan_stream_lossless, restore, sentinel_of}
use agent_tty.RunCompletion.Registered.{signal_sentinel_length, register-IsScanner}
use agent_tty.RunCompletion.Detected.{feed-sentinel}

abbrev run_marker : Text
run_marker = codes "__AT_MARKER_0123456789abcdef0123456789abcdef__"

abbrev run_sentinel : Text
run_sentinel = esc_code ∷ codes "_atAbc_-9" ++ run_complete_sentinel_suffix

abbrev waiting : Scanner
waiting = record {
  active_sentinels = (record { marker = run_marker; sentinel = run_sentinel }) ∷ [];
  pending_tail = [];
}

abbrev chunks : List Text
chunks =
    codes "ls" ∷ (esc_code ∷ codes "_atAb") ∷ (codes "c_-9" ++ run_complete_sentinel_suffix) ∷ []

registers :
    (build_run_complete_signal_sentinel (codes "Abc_-9") >>= λ sentinel.
    register run_marker sentinel new_scanner)
    ≡ ok waiting
unfolding build_run_complete_signal_sentinel is_signal_token register assert_run_marker
    is_run_marker assert_non_empty_string starts_with text_eq
registers = refl

finds_split_sentinel :
    feed_all chunks waiting ≡ ok (new_scanner, output (codes "ls") ∷ run_complete run_marker ∷ [])
unfolding feed_all feed starts_with text_eq
finds_split_sentinel = refl

keeps_other_escapes :
    scan_stream ((esc_code ∷ codes "[1m") ∷ (esc_code ∷ codes "_a") ∷ []) waiting
    ≡ ok (waiting, output (esc_code ∷ codes "[1m") ∷ output (esc_code ∷ codes "_a") ∷ [])
unfolding scan_stream feed_all feed flush starts_with text_eq
keeps_other_escapes = refl

waiting-IsScanner : IsScanner signal_sentinel_length waiting
unfolding has_marker has_sentinel starts_with
waiting-IsScanner = record { fixed = (refl, refl, refl, refl, tt); tail = inl refl }

new-IsScanner : IsScanner signal_sentinel_length new_scanner
new-IsScanner = record { fixed = tt; tail = inl refl }

feed_all_lem_example :
    (s' : Scanner) × (pieces : List SentinelPiece) × (whole : List SentinelPiece) × (feed_all chunks
        waiting
      ≡ ok (s', pieces))
    × (feed (concat chunks) waiting ≡ ok (s', whole))
    × (items_of pieces ≡ items_of whole)
    × IsScanner signal_sentinel_length s'
feed_all_lem_example = feed_all_lem signal_sentinel_length chunks waiting waiting-IsScanner

scan_stream_lossless_example :
    (s' : Scanner) × (pieces : List SentinelPiece) × (scan_stream chunks waiting ≡ ok (s', pieces))
    × (s'.pending_tail ≡ [])
    × (restore waiting.active_sentinels (items_of pieces) ≡ waiting.pending_tail ++ concat chunks)
scan_stream_lossless_example =
    scan_stream_lossless signal_sentinel_length chunks waiting waiting-IsScanner

is_marker : is_run_marker run_marker ≡ true
unfolding is_run_marker starts_with text_eq
is_marker = refl

is_built : build_run_complete_signal_sentinel (codes "Abc_-9") ≡ ok run_sentinel
unfolding build_run_complete_signal_sentinel is_signal_token text_eq
is_built = refl

nothing_registered : has_marker run_marker [] ≡ false
unfolding has_marker
nothing_registered = refl

no_sentinel : has_sentinel run_sentinel [] ≡ false
unfolding has_sentinel
no_sentinel = refl

is_registered : has_marker run_marker waiting.active_sentinels ≡ true
unfolding has_marker text_eq
is_registered = refl

register-IsScanner_example :
    (s' : Scanner) × (register run_marker run_sentinel new_scanner ≡ ok s')
    × IsScanner signal_sentinel_length s'
    × (has_marker run_marker s'.active_sentinels ≡ true)
    × (s'.pending_tail ≡ new_scanner.pending_tail)
register-IsScanner_example =
    register-IsScanner run_marker (codes "Abc_-9") run_sentinel new_scanner new-IsScanner is_marker
      is_built nothing_registered no_sentinel

feed-sentinel_example :
    (s' : Scanner) × (pieces : List SentinelPiece) × (rest : List SentinelPiece) × (feed
        (sentinel_of run_marker waiting.active_sentinels ++ codes "$ ")
        waiting
      ≡ ok (s', pieces))
    × (feed
          (codes "$ ")
          (record waiting { active_sentinels = remove_marker run_marker waiting.active_sentinels })
        ≡ ok (s', rest))
    × (items_of pieces ≡ completed run_marker ∷ items_of rest)
feed-sentinel_example =
    feed-sentinel signal_sentinel_length run_marker (codes "$ ") waiting waiting-IsScanner
      (omega arith) refl is_registered
