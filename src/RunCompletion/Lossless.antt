-- ===== src/RunCompletion/Lossless.antt =====
-- What the scanner of src/host/runCompletionSentinel.ts takes out of the output.
use agent_tty.Prelude.{
  concat, ℕ, zero, suc, ◌-◌, ◌≤◌, ◌≡◌, refl, ap, ap₂, sym, ◌∙◌, Bool, true, false, not, ◌&&◌, some,
  List, [], ◌∷◌, ◌++◌, append_assoc, append-nil, Text, text_eq, text_eq→eq, text_eq_refl,
  starts_with, starts_with-drop, drop, length, arith, Bool-cases, Option-cases, inl, inr, ok,
  Result, Failure, ◌>>=◌, if◌then◌else◌,
}
use agent_tty.RunCompletion.Scanner.{
  Scanner, ActiveSentinel, remove_marker, has_partial_sentinel_match, SentinelPiece, flush,
}
use agent_tty.RunCompletion.Matching.{
  AllFixed, find_match, find_match-IsMatch, remove_marker-AllFixed,
}
use agent_tty.RunCompletion.Reader.{
  Item, char, completed, items_of, Reading, read, read_match, read_part, read_char, read_next,
}
use agent_tty.RunCompletion.Scanning.{scanner, items_of-append, starts-nonempty}
use agent_tty.RunCompletion.Sentinel.{esc_code}
use agent_tty.RunCompletion.ScanLoop.{drop-suc}
use agent_tty.RunCompletion.Chunks.{IsScanner}
use agent_tty.RunCompletion.Stream.{flush_lem, feed_all, feed_all_reads, read-IsScanner}

-- The sentinel that is registered for a marker.
unfoldable pub sentinel_of : Text → List ActiveSentinel → Text
sentinel_of marker [] = []
sentinel_of marker (m ∷ active) =
    let rest = sentinel_of marker active in if text_eq m.marker marker then m.sentinel else rest

-- The output with each completion written out again as its sentinel.
unfoldable pub restore : List ActiveSentinel → List Item → Text
restore active [] = []
restore active (char c ∷ items) = c ∷ restore active items
restore active (completed marker ∷ items) =
    sentinel_of marker active ++ restore (remove_marker marker active) items

sentinel_of-match :
    (n : ℕ) (active : List ActiveSentinel) (text : Text) (m : ActiveSentinel)
    → AllFixed n active
    → find_match text active ≡ some m
    → sentinel_of m.marker active ≡ m.sentinel
unfolding sentinel_of find_match
sentinel_of-match n [] text m fixed e = cc
sentinel_of-match n (x ∷ active) text m fixed e = elim (Bool-cases (starts_with x.sentinel text)) [
  | inl here ↦ ground (arith, e, here, text_eq_refl x.marker)
  | inr further ↦
      let rest : find_match text active ≡ some m = ground (arith, e, further) in
      let known = (find_match-IsMatch n active text m fixed.4 rest).known in
      ground (
        arith,
        sentinel_of-match n active text m fixed.4 rest,
        text_eq→eq x.marker m.marker,
        known,
        fixed.3,
      )
]

restore_match :
    (active : List ActiveSentinel) (m : ActiveSentinel) (items : List Item) (tail rest : Text)
    → sentinel_of m.marker active ≡ m.sentinel
    → restore (remove_marker m.marker active) items ++ tail ≡ rest
    → restore active (completed m.marker ∷ items) ++ tail ≡ m.sentinel ++ rest
unfolding restore
restore_match active m items tail rest e h =
    append_assoc (sentinel_of m.marker active) (restore (remove_marker m.marker active) items) tail
    ∙ ap₂ ◌++◌ e h

-- What was read, restored, and the tail make up the text.
pub restore-read :
    (n : ℕ) (is_final : Bool) (k : ℕ) (active : List ActiveSentinel) (text : Text)
    → AllFixed n active
    → k ≤ length text
    → restore active (read is_final k active text).items ++ (read is_final k active text).tail
      ≡ drop k text
unfolding restore
restore-read n is_final zero active [] fixed h = unfold read in refl
restore-read n is_final (suc k) active [] fixed h = absurd (omega arith)
restore-read n is_final (suc k) active (c ∷ text) fixed h =
    ap (λ (r : Reading). restore active r.items ++ r.tail) (read_next is_final k active c text)
    ∙ restore-read n is_final k active text fixed (omega arith)
restore-read n is_final zero active (c ∷ text) fixed h =
    elim (Option-cases (find_match (c ∷ text) active)) [
      | inr (m, e) ↦
          let match = find_match-IsMatch n active (c ∷ text) m fixed e in
          let left = remove_marker m.marker active in
          ap (λ (r : Reading). restore active r.items ++ r.tail)
            (read_match is_final active c text m e)
          ∙ restore_match active m (read is_final (length m.sentinel - 1) left text).items _ _
              (sentinel_of-match n active (c ∷ text) m fixed e)
              (restore-read n is_final (length m.sentinel - 1) left text
                (remove_marker-AllFixed n m.marker active fixed)
                (omega (arith, match.size, match.fits)))
          ∙ ap (m.sentinel ++◌) (
              sym (
                drop-suc (length m.sentinel) c text
                  (starts-nonempty esc_code m.sentinel match.begins)))
          ∙ starts_with-drop m.sentinel (c ∷ text) match.starts
      | inl e ↦ elim (Bool-cases (not is_final && has_partial_sentinel_match (c ∷ text) active)) [
        | inl part ↦
            ap (λ (r : Reading). restore active r.items ++ r.tail)
              (read_part is_final active c text e part)
        | inr free ↦
            ap (λ (r : Reading). restore active r.items ++ r.tail)
              (read_char is_final active c text e free)
            ∙ ap (c ∷◌) (restore-read n is_final 0 active text fixed (omega arith))
      ]
    ]

-- The sentinels that are still active behind the items.
unfoldable pub left_after : List ActiveSentinel → List Item → List ActiveSentinel
left_after active [] = active
left_after active (char c ∷ items) = left_after active items
left_after active (completed marker ∷ items) = left_after (remove_marker marker active) items

restore-append :
    (active : List ActiveSentinel) (xs ys : List Item)
    → restore active (xs ++ ys) ≡ restore active xs ++ restore (left_after active xs) ys
unfolding restore left_after
restore-append active [] ys = refl
restore-append active (char c ∷ xs) ys = ap (c ∷◌) (restore-append active xs ys)
restore-append active (completed marker ∷ xs) ys =
    ap (sentinel_of marker active ++◌) (restore-append (remove_marker marker active) xs ys)
    ∙ sym (append_assoc (sentinel_of marker active) _ _)

left_after-read :
    (is_final : Bool) (k : ℕ) (active : List ActiveSentinel) (text : Text)
    → left_after active (read is_final k active text).items ≡ (read is_final k active text).active
left_after-read is_final k active [] = unfold left_after read in refl
left_after-read is_final (suc k) active (c ∷ text) =
    rw (read_next is_final k active c text) (left_after-read is_final k active text)
left_after-read is_final zero active (c ∷ text) =
    elim (Option-cases (find_match (c ∷ text) active)) [
      | inr (m, e) ↦
          rw (read_match is_final active c text m e, left_after-completed)
            (left_after-read is_final (length m.sentinel - 1) (remove_marker m.marker active) text)
      | inl e ↦ elim (Bool-cases (not is_final && has_partial_sentinel_match (c ∷ text) active)) [
        | inl part ↦ rw (read_part is_final active c text e part) (unfold left_after in refl)
        | inr free ↦
            rw (read_char is_final active c text e free, left_after-char)
              (left_after-read is_final 0 active text)
      ]
    ]
  where
    left_after-completed :
        (active : List ActiveSentinel) (marker : Text) (items : List Item)
        → left_after active (completed marker ∷ items)
          ≡ left_after (remove_marker marker active) items
    left_after-completed active marker items = unfold left_after in refl

    left_after-char :
        (active : List ActiveSentinel) (c : ℕ) (items : List Item)
        → left_after active (char c ∷ items) ≡ left_after active items
    left_after-char active c items = unfold left_after in refl

-- The last reading leaves no tail.
read_last :
    (k : ℕ) (active : List ActiveSentinel) (text : Text) → (read true k active text).tail ≡ []
read_last k active [] = unfold read in refl
read_last (suc k) active (c ∷ text) =
    ap (λ (r : Reading). r.tail) (read_next true k active c text) ∙ read_last k active text
read_last zero active (c ∷ text) = elim (Option-cases (find_match (c ∷ text) active)) [
  | inr (m, e) ↦
      ap (λ (r : Reading). r.tail) (read_match true active c text m e)
      ∙ read_last (length m.sentinel - 1) (remove_marker m.marker active) text
  | inl e ↦
      ap (λ (r : Reading). r.tail) (read_char true active c text e refl) ∙ read_last 0 active text
]

-- The whole output, chunk by chunk, and the flush at its end.
unfoldable pub scan_stream : List Text → Scanner → Result Failure (Scanner × List SentinelPiece)
scan_stream chunks s = do
  (s', pieces) ← feed_all chunks s
  (s'', rest) ← flush s'
  ok (s'', pieces ++ rest)

scan_stream_step :
    (chunks : List Text) (s s' s'' : Scanner) (pieces rest : List SentinelPiece)
    → feed_all chunks s ≡ ok (s', pieces)
    → flush s' ≡ ok (s'', rest)
    → scan_stream chunks s ≡ ok (s'', pieces ++ rest)
unfolding scan_stream
scan_stream_step chunks s s' s'' pieces rest first last = rw first (rw last refl)

-- From the first chunk to the flush the scanner accepts the output and holds nothing back at the end.
-- With each completion written out again as the sentinel that was registered for its marker, its pieces
-- are the output, character for character: only sentinels are taken out.
pub scan_stream_lossless :
    (n : ℕ) (chunks : List Text) (s : Scanner)
    → IsScanner n s
    → (s' : Scanner) × (pieces : List SentinelPiece) × (scan_stream chunks s ≡ ok (s', pieces))
      × (s'.pending_tail ≡ [])
      × (restore s.active_sentinels (items_of pieces) ≡ s.pending_tail ++ concat chunks)
scan_stream_lossless n chunks s v =
    let text = s.pending_tail ++ concat chunks in
    let r = read false 0 s.active_sentinels text in
    let v' = read-IsScanner n s.active_sentinels text v.fixed in
    let fed = feed_all_reads n chunks s v in
    let flushed = flush_lem n (scanner r.active r.tail) v' in
    let last = read true 0 r.active r.tail in
    let ended = read_last 0 r.active r.tail in
    let tail_restored =
      sym (append-nil (restore r.active last.items))
      ∙ ap (restore r.active last.items ++◌) (sym ended)
      ∙ restore-read n true 0 r.active r.tail v'.fixed (omega arith) in
    (
      scanner last.active last.tail,
      fed.pieces ++ flushed.pieces,
      scan_stream_step chunks s _ _ fed.pieces flushed.pieces fed.runs flushed.runs,
      ended,
      ap (restore s.active_sentinels)
            (items_of-append fed.pieces flushed.pieces ∙ ap₂ ◌++◌ fed.says flushed.says)
          ∙ restore-append s.active_sentinels r.items last.items
          ∙ ap (λ a. restore s.active_sentinels r.items ++ restore a last.items)
              (left_after-read false 0 s.active_sentinels text)
          ∙ ap (restore s.active_sentinels r.items ++◌) tail_restored
          ∙ restore-read n false 0 s.active_sentinels text v.fixed (omega arith),
    )
