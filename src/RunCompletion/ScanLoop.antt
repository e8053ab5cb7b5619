-- ===== src/RunCompletion/ScanLoop.antt =====
-- `#scanBuffer`, `feed` and `flush` of src/host/runCompletionSentinel.ts against the reader.
use agent_tty.Prelude.{
  ℕ, zero, suc, ◌-◌, ◌<◌, ◌≡◌, refl, ap, ap₂, sym, subst, ◌∙◌, Bool, true, false, not, ◌&&◌, none,
  some, List, [], ◌∷◌, ◌++◌, append_assoc, append-nil, Text, drop, length, arith, inl, ok, Result,
  Failure,
}
use agent_tty.RunCompletion.Sentinel.{esc_code}
use agent_tty.RunCompletion.Scanner.{
  Scanner, ActiveSentinel, remove_marker, has_partial_sentinel_match, SentinelPiece, run_complete,
  push_output_piece, scan_loop,
}
use agent_tty.RunCompletion.Matching.{AllFixed, find_match, IsMatch}
use agent_tty.RunCompletion.Reader.{
  Item, char, completed, chars, items_of, Reading, item_first, read, read_match, read_part,
  read_char, read_skip,
}
use agent_tty.RunCompletion.Scanning.{
  chars-append, items_of-append, items_of-push, scanner, bound_ok, Scanned, read_none,
  scan_inactive, starts-nonempty,
}

-- The result says what was read, behind what was said before.
abbrev pub ScansTo : Result Failure (Scanner × List SentinelPiece) → List Item → Reading → Type 0
ScansTo result before r = Scanned result (before ++ r.items) r.active r.tail

chars-one : (c : ℕ) → chars (c ∷ []) ≡ char c ∷ []
unfolding chars
chars-one c = refl

chars-nil : chars [] ≡ []
unfolding chars
chars-nil = refl

shift_char :
    (before : List Item) (out : Text) (c : ℕ) (items : List Item)
    → (before ++ chars (out ++ c ∷ [])) ++ items ≡ (before ++ chars out) ++ char c ∷ items
shift_char before out c items =
    ap (λ l. (before ++ l) ++ items) (chars-append out (c ∷ []) ∙ ap (chars out ++◌) (chars-one c))
    ∙ ap (◌++ items) (sym (append_assoc before (chars out) (char c ∷ [])))
    ∙ append_assoc (before ++ chars out) (char c ∷ []) items

items_of-one : (marker : Text) → items_of (run_complete marker ∷ []) ≡ completed marker ∷ []
unfolding items_of
items_of-one marker = refl

shift_match :
    (pieces : List SentinelPiece) (out marker : Text) (items : List Item)
    → (items_of (push_output_piece pieces out ++ run_complete marker ∷ []) ++ chars []) ++ items
      ≡ (items_of pieces ++ chars out) ++ completed marker ∷ items
shift_match pieces out marker items =
    let pushed = push_output_piece pieces out in
    ap (λ l. (items_of (pushed ++ run_complete marker ∷ []) ++ l) ++ items) chars-nil
    ∙ ap (◌++ items) (
        append-nil (items_of (pushed ++ run_complete marker ∷ []))
        ∙ items_of-append pushed (run_complete marker ∷ [])
        ∙ ap₂ ◌++◌ (items_of-push pieces out) (items_of-one marker))
    ∙ append_assoc (items_of pieces ++ chars out) (completed marker ∷ []) items

-- The loop at the end of the buffer.
pub scan_end :
    (n fuel : ℕ) (is_final : Bool) (pieces : List SentinelPiece) (out : Text)
    (active : List ActiveSentinel)
    → AllFixed n active
    → ScansTo
        (scan_loop (suc fuel) is_final pieces out [] (scanner active []))
        (items_of pieces ++ chars out)
        (read is_final 0 active [])
unfolding scan_loop read
scan_end n fuel is_final pieces out active fixed = record {
  pieces = push_output_piece pieces out;
  runs = rw (bound_ok n active [] fixed (inl refl)) refl;
  says = items_of-push pieces out ∙ sym (append-nil (items_of pieces ++ chars out));
}

-- The loop with no sentinel left.
pub scan_rest :
    (fuel : ℕ) (is_final : Bool) (pieces : List SentinelPiece) (out : Text) (c : ℕ) (text : Text)
    → ScansTo
        (scan_loop (suc fuel) is_final pieces out (c ∷ text) (scanner [] []))
        (items_of pieces ++ chars out)
        (read is_final 0 [] (c ∷ text))
scan_rest fuel is_final pieces out c text =
    subst
      (ScansTo (scan_loop (suc fuel) is_final pieces out (c ∷ text) (scanner [] []))
        (items_of pieces ++ chars out))
      (sym (read_none is_final (c ∷ text)))
      (record {
        pieces = push_output_piece pieces (out ++ c ∷ text);
        runs = scan_inactive fuel is_final pieces out c text;
        says =
            items_of-push pieces (out ++ c ∷ text)
            ∙ ap (items_of pieces ++◌) (chars-append out (c ∷ text))
            ∙ sym (append_assoc (items_of pieces) (chars out) (chars (c ∷ text)));
      })

pub drop-suc : (k : ℕ) (c : ℕ) (text : Text) → 0 < k → drop k (c ∷ text) ≡ drop (k - 1) text
drop-suc zero c text pos = absurd (omega arith)
drop-suc (suc k) c text pos = let same : k ≡ suc k - 1 = omega arith in ap (λ j. drop j text) same

module _ (fuel : ℕ) (is_final : Bool) (pieces : List SentinelPiece) (out : Text) (c : ℕ)
    (text : Text) (active : List ActiveSentinel) where
  -- A round that takes a character of output.
  pub take_char :
      scan_loop (suc fuel) is_final pieces out (c ∷ text) (scanner active [])
        ≡ scan_loop fuel is_final pieces (out ++ c ∷ []) text (scanner active [])
      → find_match (c ∷ text) active ≡ none
      → (not is_final && has_partial_sentinel_match (c ∷ text) active) ≡ false
      → ScansTo
          (scan_loop fuel is_final pieces (out ++ c ∷ []) text (scanner active []))
          (items_of pieces ++ chars (out ++ c ∷ []))
          (read is_final 0 active text)
      → ScansTo
          (scan_loop (suc fuel) is_final pieces out (c ∷ text) (scanner active []))
          (items_of pieces ++ chars out)
          (read is_final 0 active (c ∷ text))
  take_char round unmatched free rest =
      subst
        (ScansTo (scan_loop (suc fuel) is_final pieces out (c ∷ text) (scanner active []))
          (items_of pieces ++ chars out))
        (sym (read_char is_final active c text unmatched free))
        (record {
          pieces = rest.pieces;
          runs = round ∙ rest.runs;
          says = rest.says ∙ shift_char (items_of pieces) out c (read is_final 0 active text).items;
        })

  -- A round that takes a sentinel.
  pub take_match :
      (m : ActiveSentinel) (n : ℕ)
      → IsMatch n (c ∷ text) active m
      → find_match (c ∷ text) active ≡ some m
      → scan_loop (suc fuel) is_final pieces out (c ∷ text) (scanner active [])
        ≡ scan_loop fuel is_final
            (push_output_piece pieces out ++ run_complete m.marker ∷ [])
            []
            (drop (length m.sentinel) (c ∷ text))
            (scanner (remove_marker m.marker active) [])
      → ScansTo
          (scan_loop fuel is_final
            (push_output_piece pieces out ++ run_complete m.marker ∷ [])
            []
            (drop (length m.sentinel) (c ∷ text))
            (scanner (remove_marker m.marker active) []))
          (items_of (push_output_piece pieces out ++ run_complete m.marker ∷ []) ++ chars [])
          (read is_final 0 (remove_marker m.marker active) (drop (length m.sentinel) (c ∷ text)))
      → ScansTo
          (scan_loop (suc fuel) is_final pieces out (c ∷ text) (scanner active []))
          (items_of pieces ++ chars out)
          (read is_final 0 active (c ∷ text))
  take_match m n match found round rest =
      let left = remove_marker m.marker active in
      let pos = starts-nonempty esc_code m.sentinel match.begins in
      let same =
        read_match is_final active c text m found
        ∙ ap (item_first (completed m.marker)) (
            read_skip is_final (length m.sentinel - 1) left text
              (omega (arith, match.size, match.fits))
            ∙ ap (read is_final 0 left) (sym (drop-suc (length m.sentinel) c text pos))) in
      subst
        (ScansTo (scan_loop (suc fuel) is_final pieces out (c ∷ text) (scanner active []))
          (items_of pieces ++ chars out))
        (sym same)
        (record {
          pieces = rest.pieces;
          runs = round ∙ rest.runs;
          says = rest.says ∙ shift_match pieces out m.marker _;
        })

  -- A round that leaves a part of a sentinel as the tail.
  pub take_part :
      scan_loop (suc fuel) is_final pieces out (c ∷ text) (scanner active [])
        ≡ ok (scanner active (c ∷ text), push_output_piece pieces out)
      → find_match (c ∷ text) active ≡ none
      → (not is_final && has_partial_sentinel_match (c ∷ text) active) ≡ true
      → ScansTo
          (scan_loop (suc fuel) is_final pieces out (c ∷ text) (scanner active []))
          (items_of pieces ++ chars out)
          (read is_final 0 active (c ∷ text))
  take_part round unmatched part =
      subst
        (ScansTo (scan_loop (suc fuel) is_final pieces out (c ∷ text) (scanner active []))
          (items_of pieces ++ chars out))
        (sym (read_part is_final active c text unmatched part))
        (record {
          pieces = push_output_piece pieces out;
          runs = round;
          says = items_of-push pieces out ∙ sym (append-nil (items_of pieces ++ chars out));
        })
