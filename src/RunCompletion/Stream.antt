-- ===== src/RunCompletion/Stream.antt =====
-- `RunCompletionSentinelScanner` of src/host/runCompletionSentinel.ts as a stream: chunks are fed in
-- turn, and the end of the stream flushes the tail.
use agent_tty.Prelude.{
  concat, ℕ, ◌+◌, ◌≡◌, refl, ap, ap₂, sym, subst, ◌∙◌, Bool, true, false, List, [], ◌∷◌, ◌++◌,
  append_assoc, append-nil, Text, length, arith, inl, inr, ok, Result, Failure, ◌>>=◌,
}
use agent_tty.RunCompletion.Scanner.{
  Scanner, ActiveSentinel, has_partial_sentinel_match, SentinelPiece, output, scan_buffer, feed,
  flush,
}
use agent_tty.RunCompletion.Matching.{AllFixed}
use agent_tty.RunCompletion.Reader.{chars, items_of, read, read-append, read-AllFixed}
use agent_tty.RunCompletion.Scanning.{IsTail, scanner, read_none, items_of-append}
use agent_tty.RunCompletion.ScanLoop.{ScansTo}
use agent_tty.RunCompletion.Chunks.{scan_loop_lem, IsScanner, read-IsTail, read_tail}

scan_buffer_lem :
    (n : ℕ) (is_final : Bool) (text : Text) (active : List ActiveSentinel)
    → AllFixed n active
    → ScansTo (scan_buffer text is_final (scanner active [])) [] (read is_final 0 active text)
unfolding scan_buffer items_of chars
scan_buffer_lem n is_final [] active fixed =
    unfold read in record { pieces = []; runs = refl; says = refl }
scan_buffer_lem n is_final (c ∷ text) [] fixed =
    subst (ScansTo (scan_buffer (c ∷ text) is_final (scanner [] [])) [])
      (sym (read_none is_final (c ∷ text)))
      (record {
        pieces = output (c ∷ text) ∷ [];
        runs = refl;
        says = append-nil (chars (c ∷ text));
      })
scan_buffer_lem n is_final (c ∷ text) (x ∷ others) fixed =
    scan_loop_lem n (length (c ∷ text) + 1) is_final [] [] (c ∷ text) (x ∷ others) fixed
      (omega arith)

no_tail : (tail : Text) → IsTail tail [] → tail ≡ []
unfolding has_partial_sentinel_match
no_tail tail (inl e) = e
no_tail tail (inr h) = cc

-- A chunk is read behind the tail.
pub feed_lem :
    (n : ℕ) (chunk : Text) (s : Scanner)
    → IsScanner n s
    → ScansTo (feed chunk s) [] (read false 0 s.active_sentinels (s.pending_tail ++ chunk))
feed_lem n chunk s v = feed_parts chunk s.active_sentinels s.pending_tail v.fixed v.tail
  where
    feed_parts :
        (chunk : Text) (active : List ActiveSentinel) (tail : Text)
        → AllFixed n active
        → IsTail tail active
        → ScansTo (feed chunk (scanner active tail)) [] (read false 0 active (tail ++ chunk))
    feed_parts [] active tail fixed held =
        subst (ScansTo (feed [] (scanner active tail)) [])
          (sym (ap (read false 0 active) (append-nil tail) ∙ read_tail n active tail fixed held))
          (record { pieces = []; runs = unfold feed in refl; says = unfold items_of in refl })
    feed_parts (c ∷ chunk) [] tail fixed held =
        let gone = no_tail tail held in
        subst (ScansTo (feed (c ∷ chunk) (scanner [] tail)) [])
          (sym (ap (λ t. read false 0 [] (t ++ c ∷ chunk)) gone ∙ read_none false (c ∷ chunk)))
          (record {
            pieces = output (c ∷ chunk) ∷ [];
            runs = unfold feed in rw gone refl;
            says = unfold items_of in append-nil (chars (c ∷ chunk));
          })
    feed_parts (c ∷ chunk) (x ∷ others) tail fixed held =
        unfold feed in scan_buffer_lem n false (tail ++ c ∷ chunk) (x ∷ others) fixed

flush_runs :
    (active : List ActiveSentinel) (c : ℕ) (tail : Text)
    → flush (scanner active (c ∷ tail)) ≡ scan_buffer (c ∷ tail) true (scanner active [])
unfolding flush
flush_runs active c tail = ground arith

pub flush_lem :
    (n : ℕ) (s : Scanner)
    → IsScanner n s
    → ScansTo (flush s) [] (read true 0 s.active_sentinels s.pending_tail)
flush_lem n s v = flush_parts s.active_sentinels s.pending_tail v.fixed
  where
    flush_parts :
        (active : List ActiveSentinel) (tail : Text)
        → AllFixed n active
        → ScansTo (flush (scanner active tail)) [] (read true 0 active tail)
    flush_parts active [] fixed =
        unfold flush read items_of in record { pieces = []; runs = refl; says = refl }
    flush_parts active (c ∷ tail) fixed =
        let scanned = scan_buffer_lem n true (c ∷ tail) active fixed in
        record {
          pieces = scanned.pieces;
          runs = flush_runs active c tail ∙ scanned.runs;
          says = scanned.says;
        }

-- The scanner of a reading.
pub read-IsScanner :
    (n : ℕ) (active : List ActiveSentinel) (text : Text)
    → AllFixed n active
    → IsScanner n (scanner (read false 0 active text).active (read false 0 active text).tail)
read-IsScanner n active text fixed = record {
  fixed = read-AllFixed n false 0 active text fixed;
  tail = read-IsTail 0 active text;
}

-- The chunks of the terminal's output, fed in turn.
unfoldable pub feed_all : List Text → Scanner → Result Failure (Scanner × List SentinelPiece)
feed_all [] s = ok (s, [])
feed_all (chunk ∷ chunks) s = do
  (s', pieces) ← feed chunk s
  (s'', rest) ← feed_all chunks s'
  ok (s'', pieces ++ rest)

feed_all_step :
    (chunk : Text) (chunks : List Text) (s s' s'' : Scanner) (pieces rest : List SentinelPiece)
    → feed chunk s ≡ ok (s', pieces)
    → feed_all chunks s' ≡ ok (s'', rest)
    → feed_all (chunk ∷ chunks) s ≡ ok (s'', pieces ++ rest)
unfolding feed_all
feed_all_step chunk chunks s s' s'' pieces rest first more = rw first (rw more refl)

-- Chunks are read as the text that they make up.
pub feed_all_reads :
    (n : ℕ) (chunks : List Text) (s : Scanner)
    → IsScanner n s
    → ScansTo
        (feed_all chunks s)
        []
        (read false 0 s.active_sentinels (s.pending_tail ++ concat chunks))
unfolding concat
feed_all_reads n [] s v =
    subst (ScansTo (feed_all [] s) [])
      (sym (
        ap (read false 0 s.active_sentinels) (append-nil s.pending_tail)
        ∙ read_tail n s.active_sentinels s.pending_tail v.fixed v.tail))
      (record { pieces = []; runs = unfold feed_all in refl; says = unfold items_of in refl })
feed_all_reads n (chunk ∷ chunks) s v =
    let here = read false 0 s.active_sentinels (s.pending_tail ++ chunk) in
    let first = feed_lem n chunk s v in
    let next = read-IsScanner n s.active_sentinels (s.pending_tail ++ chunk) v.fixed in
    let rest = feed_all_reads n chunks (scanner here.active here.tail) next in
    subst (ScansTo (feed_all (chunk ∷ chunks) s) [])
      (sym (
        ap (read false 0 s.active_sentinels)
          (sym (append_assoc s.pending_tail chunk (concat chunks)))
        ∙ read-append n 0 s.active_sentinels (s.pending_tail ++ chunk) (concat chunks) v.fixed
            (omega arith)))
      (record {
        pieces = first.pieces ++ rest.pieces;
        runs = feed_all_step chunk chunks s _ _ first.pieces rest.pieces first.runs rest.runs;
        says = items_of-append first.pieces rest.pieces ∙ ap₂ ◌++◌ first.says rest.says;
      })

-- However the output is cut into chunks, the scanner accepts it, ends in the state in which it ends
-- when it is fed the output at once, and tells the same characters and completions in the same order.
pub feed_all_lem :
    (n : ℕ) (chunks : List Text) (s : Scanner)
    → IsScanner n s
    → (s' : Scanner) × (pieces : List SentinelPiece) × (whole : List SentinelPiece) × (feed_all
          chunks s
        ≡ ok (s', pieces))
      × (feed (concat chunks) s ≡ ok (s', whole))
      × (items_of pieces ≡ items_of whole)
      × IsScanner n s'
feed_all_lem n chunks s v =
    let parts = feed_all_reads n chunks s v in
    let whole = feed_lem n (concat chunks) s v in
    (
      _,
      parts.pieces,
      whole.pieces,
      parts.runs,
      whole.runs,
      parts.says ∙ sym whole.says,
      read-IsScanner n s.active_sentinels (s.pending_tail ++ concat chunks) v.fixed,
    )
