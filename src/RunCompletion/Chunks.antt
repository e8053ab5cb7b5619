-- ===== src/RunCompletion/Chunks.antt =====
-- `feed` and `flush` of src/host/runCompletionSentinel.ts on output that comes in chunks.
use agent_tty.Prelude.{
  ℕ, zero, suc, ◌-◌, ◌<◌, ◌≡◌, refl, ap, ◌∙◌, Bool, true, false, not, ◌&&◌, none, List, [], ◌∷◌,
  ◌++◌, Text, starts_with, drop, length, length-drop, arith, Bool-cases, Option-cases, inl, inr, ok,
  ◌==◌,
}
use agent_tty.RunCompletion.Sentinel.{esc_code}
use agent_tty.RunCompletion.Scanner.{
  Scanner, ActiveSentinel, remove_marker, has_partial_sentinel_match, SentinelPiece, run_complete,
  push_output_piece, scan_loop,
}
use agent_tty.RunCompletion.Matching.{
  AllFixed, find_match, IsMatch, find_match-IsMatch, remove_marker-AllFixed,
}
use agent_tty.RunCompletion.Reader.{
  chars, items_of, read, read_match, read_part, read_char, read_next,
}
use agent_tty.RunCompletion.Scanning.{
  IsTail, scanner, bound_ok, find_loop_lem, not_esc_match, scan_plain, scan_match, scan_part,
  scan_char, starts-nonempty,
}
use agent_tty.RunCompletion.ScanLoop.{
  ScansTo, scan_end, scan_rest, take_char, take_match, take_part,
}

-- A match begins with ESC.
match_esc :
    (n c : ℕ) (text : Text) (active : List ActiveSentinel) (m : ActiveSentinel)
    → IsMatch n (c ∷ text) active m
    → (c == esc_code) ≡ true
unfolding starts_with
match_esc n c text active m match = begins_same m.sentinel match.begins match.starts
  where
    begins_same :
        (s : Text)
        → starts_with (esc_code ∷ []) s ≡ true
        → starts_with s (c ∷ text) ≡ true
        → (c == esc_code) ≡ true
    begins_same [] b e = cc
    begins_same (x ∷ s) b e = ground arith

pub scan_loop_lem :
    (n fuel : ℕ) (is_final : Bool) (pieces : List SentinelPiece) (out rem : Text)
    (active : List ActiveSentinel)
    → AllFixed n active
    → length rem < fuel
    → ScansTo
        (scan_loop fuel is_final pieces out rem (scanner active []))
        (items_of pieces ++ chars out)
        (read is_final 0 active rem)
scan_loop_lem n zero is_final pieces out rem active fixed enough = absurd (omega arith)
scan_loop_lem n (suc fuel) is_final pieces out [] active fixed enough =
    scan_end n fuel is_final pieces out active fixed
scan_loop_lem n (suc fuel) is_final pieces out (c ∷ text) [] fixed enough =
    scan_rest fuel is_final pieces out c text
scan_loop_lem n (suc fuel) is_final pieces out (c ∷ text) (x ∷ others) fixed enough =
    let active = x ∷ others in
    let taken =
      scan_loop_lem n fuel is_final pieces (out ++ c ∷ []) text active fixed (omega arith) in
    elim (Bool-cases (c == esc_code)) [
      | inr other ↦
          let (unmatched, free) = not_esc_match n active c text fixed other in
          take_char fuel is_final pieces out c text active
            (scan_plain fuel is_final pieces out c text active refl other) unmatched
            (ground (arith, free)) taken
      | inl esc ↦ elim (Option-cases (find_match (c ∷ text) active)) [
        | inr (m, found) ↦
            let match = find_match-IsMatch n active (c ∷ text) m fixed found in
            take_match fuel is_final pieces out c text active m n match found
              (scan_match fuel is_final pieces out c text active m refl esc
                (find_loop_lem n active (c ∷ text) fixed ∙ ap ok found) match.known)
              (scan_loop_lem n fuel is_final
                (push_output_piece pieces out ++ run_complete m.marker ∷ []) []
                (drop (length m.sentinel) (c ∷ text)) (remove_marker m.marker active)
                (remove_marker-AllFixed n m.marker active fixed)
                (omega (
                  arith,
                  length-drop (length m.sentinel) (c ∷ text),
                  starts-nonempty esc_code m.sentinel match.begins,
                )))
        | inl unmatched ↦
            let found = find_loop_lem n active (c ∷ text) fixed ∙ ap ok unmatched in
            elim (Bool-cases (not is_final && has_partial_sentinel_match (c ∷ text) active)) [
              | inl part ↦
                  take_part fuel is_final pieces out c text active
                    (scan_part fuel is_final pieces out c text active refl esc found part
                      (bound_ok n active (c ∷ text) fixed (inr (ground (arith, part)))))
                    unmatched part
              | inr free ↦
                  take_char fuel is_final pieces out c text active
                    (scan_char fuel is_final pieces out c text active refl esc found free) unmatched
                    free taken
            ]
      ]
    ]

-- A scanner whose sentinels are of length n, and that holds a part of one at most.
pub record IsScanner (n : ℕ) (s : Scanner) : Type 0 where
  pub fixed : AllFixed n s.active_sentinels
  pub tail : IsTail s.pending_tail s.active_sentinels

-- What may be left as the tail.
pub read-IsTail :
    (k : ℕ) (active : List ActiveSentinel) (text : Text)
    → IsTail (read false k active text).tail (read false k active text).active
read-IsTail k active [] = unfold read in inl refl
read-IsTail (suc k) active (c ∷ text) =
    rw (read_next false k active c text) (read-IsTail k active text)
read-IsTail zero active (c ∷ text) = elim (Option-cases (find_match (c ∷ text) active)) [
  | inr (m, e) ↦
      rw (read_match false active c text m e)
        (read-IsTail (length m.sentinel - 1) (remove_marker m.marker active) text)
  | inl e ↦ elim (Bool-cases (has_partial_sentinel_match (c ∷ text) active)) [
    | inl part ↦ rw (read_part false active c text e part) (inr part)
    | inr free ↦ rw (read_char false active c text e free) (read-IsTail 0 active text)
  ]
]

-- A text that is too short to match.
pub short_match :
    (n : ℕ) (active : List ActiveSentinel) (text : Text)
    → AllFixed n active
    → length text < n
    → find_match text active ≡ none
short_match n active text fixed short = elim (Option-cases (find_match text active)) [
  | inl e ↦ e
  | inr (m, e) ↦ absurd (omega (arith, (find_match-IsMatch n active text m fixed e).fits))
]

pub partial_short :
    (n : ℕ) (active : List ActiveSentinel) (text : Text)
    → AllFixed n active
    → has_partial_sentinel_match text active ≡ true
    → length text < n
unfolding has_partial_sentinel_match
partial_short n [] text fixed h = cc
partial_short n (m ∷ active) text fixed h =
    ground (arith, partial_short n active text fixed.4, fixed.0)

-- A tail is read as itself.
pub read_tail :
    (n : ℕ) (active : List ActiveSentinel) (tail : Text)
    → AllFixed n active
    → IsTail tail active
    → read false 0 active tail ≡ (record { items = []; active = active; tail = tail })
read_tail n active [] fixed h = unfold read in refl
read_tail n active (c ∷ tail) fixed (inl e) = cc
read_tail n active (c ∷ tail) fixed (inr part) =
    read_part false active c tail
      (short_match n active (c ∷ tail) fixed (partial_short n active (c ∷ tail) fixed part)) part
