-- ===== src/RunCompletion/Scanning.antt =====
-- The loop of `#scanBuffer` of src/host/runCompletionSentinel.ts against the reader.
use agent_tty.Prelude.{
  ℕ, suc, ◌≤◌, ◌<◌, ◌≡◌, refl, ap, sym, ◌∙◌, Bool, true, false, not, ◌&&◌, none, some, List, [],
  ◌∷◌, ◌++◌, append_assoc, append-nil, Text, starts_with, drop, length, arith, ◌⊎◌, inl, inr, ok,
  Result, Failure, max, ◌==◌,
}
use agent_tty.RunCompletion.Sentinel.{esc_code}
use agent_tty.RunCompletion.Scanner.{
  Scanner, ActiveSentinel, has_marker, remove_marker, has_partial_sentinel_match, SentinelPiece,
  output, run_complete, longest, assert_pending_tail_bound, is_any, find_loop, push_output_piece,
  scan_loop,
}
use agent_tty.RunCompletion.Matching.{AllFixed, find_match, has_sentinel, starts_with_same}
use agent_tty.RunCompletion.Reader.{Item, char, completed, chars, items_of, Reading, read}

pub chars-append : (a b : Text) → chars (a ++ b) ≡ chars a ++ chars b
unfolding chars
chars-append [] b = refl
chars-append (c ∷ a) b = ap (char c ∷◌) (chars-append a b)

pub items_of-append : (a b : List SentinelPiece) → items_of (a ++ b) ≡ items_of a ++ items_of b
unfolding items_of
items_of-append [] b = refl
items_of-append (output text ∷ a) b =
    ap (chars text ++◌) (items_of-append a b)
    ∙ sym (append_assoc (chars text) (items_of a) (items_of b))
items_of-append (run_complete marker ∷ a) b = ap (completed marker ∷◌) (items_of-append a b)

pub items_of-push :
    (pieces : List SentinelPiece) (text : Text)
    → items_of (push_output_piece pieces text) ≡ items_of pieces ++ chars text
unfolding push_output_piece items_of chars
items_of-push pieces [] = sym (append-nil (items_of pieces))
items_of-push pieces (c ∷ text) =
    items_of-append pieces (output (c ∷ text) ∷ [])
    ∙ ap (items_of pieces ++◌) (append-nil (chars (c ∷ text)))

-- A tail that the scanner may hold.
abbrev pub IsTail : Text → List ActiveSentinel → Type 0
IsTail tail active = (tail ≡ []) ⊎ (has_partial_sentinel_match tail active ≡ true)

longest-ge : (active : List ActiveSentinel) (k : ℕ) → k ≤ longest active k
unfolding longest
longest-ge [] k = omega arith
longest-ge (m ∷ active) k = omega (arith, longest-ge active (max k (length m.sentinel)))

longest-partial :
    (tail : Text) (active : List ActiveSentinel) (k : ℕ)
    → has_partial_sentinel_match tail active ≡ true
    → length tail < longest active k
unfolding longest has_partial_sentinel_match
longest-partial tail [] k h = cc
longest-partial tail (m ∷ active) k h = ground (
  arith,
  longest-partial tail active (max k (length m.sentinel)),
  longest-ge active (max k (length m.sentinel)),
)

abbrev pub scanner : List ActiveSentinel → Text → Scanner
scanner active tail = record { active_sentinels = active; pending_tail = tail }

pub starts-nonempty : (c : ℕ) (s : Text) → starts_with (c ∷ []) s ≡ true → 0 < length s
unfolding starts_with
starts-nonempty c [] h = cc
starts-nonempty c (x ∷ s) h = omega arith

longest_pos :
    (n : ℕ) (m : ActiveSentinel) (active : List ActiveSentinel)
    → AllFixed n (m ∷ active)
    → 0 < longest (m ∷ active) 0
unfolding longest
longest_pos n m active fixed = omega (
  arith,
  longest-ge active (max 0 (length m.sentinel)),
  starts-nonempty esc_code m.sentinel fixed.1,
)

-- The bound on the tail holds.
pub bound_ok :
    (n : ℕ) (active : List ActiveSentinel) (tail : Text)
    → AllFixed n active
    → IsTail tail active
    → assert_pending_tail_bound (scanner active tail) ≡ ok tt
unfolding assert_pending_tail_bound has_partial_sentinel_match
bound_ok n [] tail fixed (inl e) = rw e refl
bound_ok n [] tail fixed (inr h) = cc
bound_ok n (m ∷ active) tail fixed (inl e) = rw e (ground (arith, longest_pos n m active fixed))
bound_ok n (m ∷ active) tail fixed (inr h) =
    ground (arith, longest_pos n m active fixed, longest-partial tail (m ∷ active) 0 h)

-- Of sentinels that differ at most one is at the start of a text.
find_loop_found :
    (n : ℕ) (active : List ActiveSentinel) (text : Text) (m : ActiveSentinel)
    → AllFixed n active
    → has_sentinel m.sentinel active ≡ false
    → length m.sentinel ≡ n
    → starts_with m.sentinel text ≡ true
    → find_loop active text (some m) ≡ ok (some m)
unfolding find_loop has_sentinel
find_loop_found n [] text m fixed fresh size here = refl
find_loop_found n (x ∷ active) text m fixed fresh size here = ground (
  arith,
  starts_with_same x.sentinel m.sentinel text (omega (arith, fixed.0)),
  find_loop_found n active text m fixed.4,
)

pub find_loop_lem :
    (n : ℕ) (active : List ActiveSentinel) (text : Text)
    → AllFixed n active
    → find_loop active text none ≡ ok (find_match text active)
unfolding find_loop find_match
find_loop_lem n [] text fixed = refl
find_loop_lem n (m ∷ active) text fixed = ground (
  arith,
  find_loop_found n active text m fixed.4 fixed.2 fixed.0,
  find_loop_lem n active text fixed.4,
)

not_esc_starts :
    (s : Text) (c : ℕ) (text : Text)
    → starts_with (esc_code ∷ []) s ≡ true
    → (c == esc_code) ≡ false
    → (starts_with s (c ∷ text) ≡ false) × (starts_with (c ∷ text) s ≡ false)
unfolding starts_with
not_esc_starts [] c text begins other = cc
not_esc_starts (x ∷ s) c text begins other = (ground arith, ground arith)

-- No sentinel begins with another character than ESC.
pub not_esc_match :
    (n : ℕ) (active : List ActiveSentinel) (c : ℕ) (text : Text)
    → AllFixed n active
    → (c == esc_code) ≡ false
    → (find_match (c ∷ text) active ≡ none) × (has_partial_sentinel_match (c ∷ text) active ≡ false)
unfolding find_match has_partial_sentinel_match
not_esc_match n [] c text fixed other = (refl, refl)
not_esc_match n (m ∷ active) c text fixed other =
    let rest = not_esc_match n active c text fixed.4 other in
    let here = not_esc_starts m.sentinel c text fixed.1 other in
    (ground (arith, rest.0, here.0), ground (arith, rest.1, here.1))

-- What a scan gives: the scanner that it leaves, and pieces that say the given items.
pub record Scanned (result : Result Failure (Scanner × List SentinelPiece)) (items : List Item)
    (active : List ActiveSentinel) (tail : Text) : Type 0 where
  pub pieces : List SentinelPiece
  pub runs : result ≡ ok (scanner active tail, pieces)
  pub says : items_of pieces ≡ items

pub read_none :
    (is_final : Bool) (text : Text)
    → read is_final 0 [] text ≡ (record { items = chars text; active = []; tail = [] })
unfolding read chars find_match has_partial_sentinel_match
read_none is_final [] = refl
read_none false (c ∷ text) =
    ap (λ (r : Reading). record r { items = char c ∷ r.items }) (read_none false text)
read_none true (c ∷ text) =
    ap (λ (r : Reading). record r { items = char c ∷ r.items }) (read_none true text)

pub scan_inactive :
    (fuel : ℕ) (is_final : Bool) (pieces : List SentinelPiece) (out : Text) (c : ℕ) (text : Text)
    → scan_loop (suc fuel) is_final pieces out (c ∷ text) (scanner [] [])
      ≡ ok (scanner [] [], push_output_piece pieces (out ++ c ∷ text))
unfolding scan_loop
scan_inactive fuel is_final pieces out c text = refl

-- One round of the loop while a sentinel is active.
module _ (fuel : ℕ) (is_final : Bool) (pieces : List SentinelPiece) (out : Text) (c : ℕ)
    (text : Text) (active : List ActiveSentinel) where
  pub scan_plain :
      is_any active ≡ true
      → (c == esc_code) ≡ false
      → scan_loop (suc fuel) is_final pieces out (c ∷ text) (scanner active [])
        ≡ scan_loop fuel is_final pieces (out ++ c ∷ []) text (scanner active [])
  unfolding scan_loop
  scan_plain e other = rw (e, other, scan_loop) refl

  pub scan_match :
      (m : ActiveSentinel)
      → is_any active ≡ true
      → (c == esc_code) ≡ true
      → find_loop active (c ∷ text) none ≡ ok (some m)
      → has_marker m.marker active ≡ true
      → scan_loop (suc fuel) is_final pieces out (c ∷ text) (scanner active [])
        ≡ scan_loop fuel is_final
            (push_output_piece pieces out ++ run_complete m.marker ∷ [])
            []
            (drop (length m.sentinel) (c ∷ text))
            (scanner (remove_marker m.marker active) [])
  unfolding scan_loop
  scan_match m e esc found known = rw (e, esc, scan_loop, found, known) refl

  pub scan_part :
      is_any active ≡ true
      → (c == esc_code) ≡ true
      → find_loop active (c ∷ text) none ≡ ok none
      → (not is_final && has_partial_sentinel_match (c ∷ text) active) ≡ true
      → assert_pending_tail_bound (scanner active (c ∷ text)) ≡ ok tt
      → scan_loop (suc fuel) is_final pieces out (c ∷ text) (scanner active [])
        ≡ ok (scanner active (c ∷ text), push_output_piece pieces out)
  unfolding scan_loop
  scan_part e esc found part bound = rw (e, esc, scan_loop, found) (ground (arith, part, bound))

  pub scan_char :
      is_any active ≡ true
      → (c == esc_code) ≡ true
      → find_loop active (c ∷ text) none ≡ ok none
      → (not is_final && has_partial_sentinel_match (c ∷ text) active) ≡ false
      → scan_loop (suc fuel) is_final pieces out (c ∷ text) (scanner active [])
        ≡ scan_loop fuel is_final pieces (out ++ c ∷ []) text (scanner active [])
  unfolding scan_loop
  scan_char e esc found free = rw (e, esc, scan_loop, found) (ground (arith, free))
