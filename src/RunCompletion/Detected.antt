-- ===== src/RunCompletion/Detected.antt =====
-- src/host/runCompletionSentinel.ts: the sentinel of a registered run in the output.
use agent_tty.Prelude.{
  ℕ, ◌-◌, ◌<◌, ◌≡◌, refl, ap, sym, subst, ◌∙◌, true, false, some, List, [], ◌∷◌, ◌++◌, Text,
  text_eq, text_eq→eq, text_eq_refl, starts_with, starts_with-append, drop-length-append, length,
  length-append, arith, Bool-cases, inl, inr, ok,
}
use agent_tty.RunCompletion.Scanner.{
  Scanner, ActiveSentinel, remove_marker, has_marker, SentinelPiece, feed,
}
use agent_tty.RunCompletion.Matching.{
  AllFixed, find_match, remove_marker-AllFixed, has_sentinel, starts_with_same,
}
use agent_tty.RunCompletion.Reader.{completed, items_of, Reading, read, read_match, read_skip}
use agent_tty.RunCompletion.Scanning.{scanner}
use agent_tty.RunCompletion.ScanLoop.{ScansTo}
use agent_tty.RunCompletion.Chunks.{IsScanner}
use agent_tty.RunCompletion.Stream.{feed_lem}
use agent_tty.RunCompletion.Lossless.{sentinel_of}

-- A registered marker stands first, or behind.
module _ (marker : Text) (m : ActiveSentinel) (active : List ActiveSentinel) where
  sentinel_of_this : text_eq m.marker marker ≡ true → sentinel_of marker (m ∷ active) ≡ m.sentinel
  unfolding sentinel_of
  sentinel_of_this this = rw this refl

  sentinel_of_other :
      text_eq m.marker marker ≡ false → sentinel_of marker (m ∷ active) ≡ sentinel_of marker active
  unfolding sentinel_of
  sentinel_of_other other = rw other refl

  known_behind :
      text_eq m.marker marker ≡ false
      → has_marker marker (m ∷ active) ≡ true
      → has_marker marker active ≡ true
  unfolding has_marker
  known_behind other h = ground (arith, h, other)

has_sentinel-behind :
    (sentinel : Text) (m : ActiveSentinel) (active : List ActiveSentinel)
    → has_sentinel sentinel active ≡ true
    → has_sentinel sentinel (m ∷ active) ≡ true
unfolding has_sentinel
has_sentinel-behind sentinel m active h = ground (arith, h)

has_sentinel-first :
    (m : ActiveSentinel) (active : List ActiveSentinel)
    → has_sentinel m.sentinel (m ∷ active) ≡ true
unfolding has_sentinel
has_sentinel-first m active = rw (text_eq_refl m.sentinel) refl

has_sentinel-sentinel_of :
    (marker : Text) (active : List ActiveSentinel)
    → has_marker marker active ≡ true
    → has_sentinel (sentinel_of marker active) active ≡ true
has_sentinel-sentinel_of marker [] h = unfold has_marker in cc
has_sentinel-sentinel_of marker (m ∷ active) h = elim (Bool-cases (text_eq m.marker marker)) [
  | inl this ↦
      subst (λ t. has_sentinel t (m ∷ active) ≡ true) (sym (sentinel_of_this marker m active this))
        (has_sentinel-first m active)
  | inr other ↦
      subst (λ t. has_sentinel t (m ∷ active) ≡ true)
        (sym (sentinel_of_other marker m active other))
        (has_sentinel-behind _ m active
          (has_sentinel-sentinel_of marker active (known_behind marker m active other h)))
]

length-sentinel_of :
    (n : ℕ) (marker : Text) (active : List ActiveSentinel)
    → AllFixed n active
    → has_marker marker active ≡ true
    → length (sentinel_of marker active) ≡ n
length-sentinel_of n marker [] fixed h = unfold has_marker in cc
length-sentinel_of n marker (m ∷ active) fixed h = elim (Bool-cases (text_eq m.marker marker)) [
  | inl this ↦ ap length (sentinel_of_this marker m active this) ∙ fixed.0
  | inr other ↦
      ap length (sentinel_of_other marker m active other)
      ∙ length-sentinel_of n marker active fixed.4 (known_behind marker m active other h)
]

-- The sentinel of another run is no match.
other_sentinel :
    (n : ℕ) (marker more : Text) (m : ActiveSentinel) (active : List ActiveSentinel)
    → AllFixed n (m ∷ active)
    → has_marker marker active ≡ true
    → starts_with m.sentinel (sentinel_of marker active ++ more) ≡ false
other_sentinel n marker more m active fixed known =
    let text = sentinel_of marker active ++ more in
    elim (Bool-cases (starts_with m.sentinel text)) [
      | inr e ↦ e
      | inl e ↦
          let same = text_eq→eq m.sentinel (sentinel_of marker active) (
            starts_with_same m.sentinel (sentinel_of marker active) text
              (omega (arith, fixed.0, length-sentinel_of n marker active fixed.4 known)) e
              (starts_with-append (sentinel_of marker active) more)) in
          absurd (
            ground (
              arith,
              fixed.2,
              ap (λ t. has_sentinel t active) same ∙ has_sentinel-sentinel_of marker active known,
            ))
    ]

find_match_first :
    (text : Text) (m : ActiveSentinel) (active : List ActiveSentinel)
    → starts_with m.sentinel text ≡ true
    → find_match text (m ∷ active) ≡ some m
unfolding find_match
find_match_first text m active e = rw e refl

find_match_behind :
    (text : Text) (m : ActiveSentinel) (active : List ActiveSentinel)
    → starts_with m.sentinel text ≡ false
    → find_match text (m ∷ active) ≡ find_match text active
unfolding find_match
find_match_behind text m active e = rw e refl

abbrev entry : Text → Text → ActiveSentinel
entry marker sentinel = record { marker = marker; sentinel = sentinel }

-- The match that a registered sentinel makes.
find_registered :
    (n : ℕ) (marker more : Text) (active : List ActiveSentinel)
    → AllFixed n active
    → has_marker marker active ≡ true
    → find_match (sentinel_of marker active ++ more) active
      ≡ some (entry marker (sentinel_of marker active))
find_registered n marker more [] fixed h = unfold has_marker in cc
find_registered n marker more (m ∷ active) fixed h = elim (Bool-cases (text_eq m.marker marker)) [
  | inl this ↦
      subst (λ t. find_match (t ++ more) (m ∷ active) ≡ some (entry marker t))
        (sym (sentinel_of_this marker m active this))
        (find_match_first _ m active (starts_with-append m.sentinel more)
          ∙ ap (λ t. some (entry t m.sentinel)) (text_eq→eq m.marker marker this))
  | inr other ↦
      let known = known_behind marker m active other h in
      subst (λ t. find_match (t ++ more) (m ∷ active) ≡ some (entry marker t))
        (sym (sentinel_of_other marker m active other))
        (find_match_behind _ m active (other_sentinel n marker more m active fixed known)
          ∙ find_registered n marker more active fixed.4 known)
]

read_registered :
    (n : ℕ) (marker sentinel more : Text) (active : List ActiveSentinel)
    → length sentinel ≡ n
    → 0 < n
    → find_match (sentinel ++ more) active ≡ some (entry marker sentinel)
    → let r = read false 0 (remove_marker marker active) more in
      read false 0 active (sentinel ++ more) ≡ (record r { items = completed marker ∷ r.items })
read_registered n marker [] more active size pos found = absurd (omega arith)
read_registered n marker (c ∷ sentinel) more active size pos found =
    let left = remove_marker marker active in
    let same : length sentinel ≡ length (c ∷ sentinel) - 1 = omega arith in
    read_match false active c (sentinel ++ more) (entry marker (c ∷ sentinel)) found
    ∙ ap (λ (r : Reading). let r' : Reading = record r { items = completed marker ∷ r.items } in r')
        (ap (λ k. read false k left (sentinel ++ more)) (sym same)
          ∙ read_skip false (length sentinel) left (sentinel ++ more)
              (omega (arith, length-append sentinel more))
          ∙ ap (read false 0 left) (drop-length-append sentinel more))

-- The sentinel of an active run, in the output of a scanner that holds no tail, is taken out and told
-- as the completion of that run; what follows it is scanned as if it came alone to the scanner
-- without that run.
pub feed-sentinel :
    (n : ℕ) (marker more : Text) (s : Scanner)
    → IsScanner n s
    → 0 < n
    → s.pending_tail ≡ []
    → has_marker marker s.active_sentinels ≡ true
    → (s' : Scanner) × (pieces : List SentinelPiece) × (rest : List SentinelPiece) × (feed
          (sentinel_of marker s.active_sentinels ++ more)
          s
        ≡ ok (s', pieces))
      × (feed more (record s { active_sentinels = remove_marker marker s.active_sentinels })
          ≡ ok (s', rest))
      × (items_of pieces ≡ completed marker ∷ items_of rest)
feed-sentinel n marker more s v pos empty known =
    let active = s.active_sentinels in
    let left = remove_marker marker active in
    let sentinel = sentinel_of marker active in
    let r = read false 0 left more in
    let alone : Scanner = record s { active_sentinels = left } in
    let is_alone : IsScanner n alone = record {
      fixed = remove_marker-AllFixed n marker active v.fixed;
      tail = inl empty;
    } in
    let whole =
      subst (ScansTo (feed (sentinel ++ more) s) [])
        (ap (λ t. read false 0 active (t ++ (sentinel ++ more))) empty
          ∙ read_registered n marker sentinel more active
              (length-sentinel_of n marker active v.fixed known) pos
              (find_registered n marker more active v.fixed known))
        (feed_lem n (sentinel ++ more) s v) in
    let behind =
      subst (ScansTo (feed more alone) []) (ap (λ t. read false 0 left (t ++ more)) empty)
        (feed_lem n more alone is_alone) in
    (
      scanner r.active r.tail,
      whole.pieces,
      behind.pieces,
      whole.runs,
      behind.runs,
      whole.says ∙ ap (completed marker ∷◌) (sym behind.says),
    )
