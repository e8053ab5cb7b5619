-- ===== src/RunCompletion/Registered.antt =====
-- `register` of src/host/runCompletionSentinel.ts, with the sentinels that a host builds.
use agent_tty.Prelude.{
  ℕ, zero, suc, ◌+◌, ◌≡◌, refl, ap, sym, ◌∙◌, Bool, true, false, some, List, [], ◌∷◌, ◌++◌, Text,
  text_eq, text_eq→eq, text_eq_refl, starts_with, length, length-append, arith, Bool-cases,
  Option-cases, inl, inr, ok,
}
use agent_tty.RunCompletion.Sentinel.{
  esc_code, is_run_marker, is_token_char, skip_chars, is_signal_token,
  build_run_complete_signal_sentinel, run_complete_short_sentinel_prefix,
  run_complete_sentinel_suffix, assert_run_marker, assert_non_empty_string,
}
use agent_tty.RunCompletion.Scanner.{
  Scanner, ActiveSentinel, has_marker, has_partial_sentinel_match, register,
  assert_pending_tail_bound,
}
use agent_tty.RunCompletion.Matching.{AllFixed, has_sentinel}
use agent_tty.RunCompletion.Scanning.{IsTail, scanner, bound_ok}
use agent_tty.RunCompletion.Chunks.{IsScanner}

-- `ESC _at`, six characters, `ESC \`
abbrev pub signal_sentinel_length : ℕ
signal_sentinel_length = 12

pub length-skip_chars :
    (test : ℕ → Bool) (n : ℕ) (text rest : Text)
    → skip_chars test n text ≡ some rest
    → length text ≡ n + length rest
unfolding skip_chars
length-skip_chars test zero text rest h = ground (arith, h)
length-skip_chars test (suc n) [] rest h = cc
length-skip_chars test (suc n) (c ∷ text) rest h = elim (Bool-cases (test c)) [
  | inl yes' ↦ omega (arith, length-skip_chars test n text rest (ground (arith, h, yes')))
  | inr no' ↦ absurd (ground (arith, h, no'))
]

pub signal_token_length : (token : Text) → is_signal_token token ≡ true → length token ≡ 6
unfolding is_signal_token
signal_token_length token h = elim (Option-cases (skip_chars is_token_char 6 token)) [
  | inl e ↦ absurd (ground (arith, h, e))
  | inr (rest, e) ↦
      let gone = text_eq→eq rest [] (ground (arith, h, e)) in
      omega (arith, length-skip_chars is_token_char 6 token rest e, ap length gone)
]

-- What `buildRunCompleteSignalSentinel` builds.
pub signal_sentinel_shape :
    (token sentinel : Text)
    → build_run_complete_signal_sentinel token ≡ ok sentinel
    → (length sentinel ≡ signal_sentinel_length) × (starts_with (esc_code ∷ []) sentinel ≡ true)
unfolding build_run_complete_signal_sentinel starts_with
signal_sentinel_shape token sentinel h = elim (Bool-cases (is_signal_token token)) [
  | inr no_token ↦ absurd (ground (arith, h, no_token))
  | inl is_token ↦
      let built : run_complete_short_sentinel_prefix ++ (token ++ run_complete_sentinel_suffix)
          ≡ sentinel =
        ground (arith, h, is_token) in
      (
        ap length (sym built)
            ∙ omega (
              arith,
              length-append token run_complete_sentinel_suffix,
              signal_token_length token is_token,
            ),
        ap (starts_with (esc_code ∷ [])) (sym built),
      )
]

has_sentinel-snoc :
    (sentinel : Text) (active : List ActiveSentinel) (m : ActiveSentinel)
    → has_sentinel sentinel active ≡ false
    → text_eq m.sentinel sentinel ≡ false
    → has_sentinel sentinel (active ++ m ∷ []) ≡ false
unfolding has_sentinel
has_sentinel-snoc sentinel [] m h new = rw new refl
has_sentinel-snoc sentinel (x ∷ active) m h new =
    ground (arith, has_sentinel-snoc sentinel active m)

has_marker-snoc :
    (marker : Text) (active : List ActiveSentinel) (m : ActiveSentinel)
    → has_marker marker active ≡ false
    → text_eq m.marker marker ≡ false
    → has_marker marker (active ++ m ∷ []) ≡ false
unfolding has_marker
has_marker-snoc marker [] m h new = rw new refl
has_marker-snoc marker (x ∷ active) m h new = ground (arith, has_marker-snoc marker active m)

pub has_marker-new :
    (active : List ActiveSentinel) (m : ActiveSentinel)
    → has_marker m.marker (active ++ m ∷ []) ≡ true
unfolding has_marker
has_marker-new [] m = rw (text_eq_refl m.marker) refl
has_marker-new (x ∷ active) m = ground (arith, has_marker-new active m)

text_eq_flip : (a b : Text) → text_eq a b ≡ false → text_eq b a ≡ false
text_eq_flip a b h = elim (Bool-cases (text_eq b a)) [
  | inr differ ↦ differ
  | inl same ↦
      let e = text_eq→eq b a same in
      absurd (ground (arith, h, ap (λ t. text_eq t b) (sym e) ∙ text_eq_refl b))
]

AllFixed-snoc :
    (n : ℕ) (active : List ActiveSentinel) (m : ActiveSentinel)
    → AllFixed n active
    → length m.sentinel ≡ n
    → starts_with (esc_code ∷ []) m.sentinel ≡ true
    → has_sentinel m.sentinel active ≡ false
    → has_marker m.marker active ≡ false
    → AllFixed n (active ++ m ∷ [])
unfolding has_sentinel has_marker
AllFixed-snoc n [] m fixed size begins fresh new = (size, begins, refl, refl, tt)
AllFixed-snoc n (x ∷ active) m fixed size begins fresh new =
    let other_sentinel : text_eq x.sentinel m.sentinel ≡ false = ground (arith, fresh) in
    let other_marker : text_eq x.marker m.marker ≡ false = ground (arith, new) in
    (
      fixed.0,
      fixed.1,
      has_sentinel-snoc x.sentinel active m fixed.2 (text_eq_flip _ _ other_sentinel),
      has_marker-snoc x.marker active m fixed.3 (text_eq_flip _ _ other_marker),
      AllFixed-snoc n active m fixed.4 size begins (ground (arith, fresh)) (ground (arith, new)),
    )

has_partial-snoc :
    (tail : Text) (active : List ActiveSentinel) (m : ActiveSentinel)
    → has_partial_sentinel_match tail active ≡ true
    → has_partial_sentinel_match tail (active ++ m ∷ []) ≡ true
unfolding has_partial_sentinel_match
has_partial-snoc tail [] m h = cc
has_partial-snoc tail (x ∷ active) m h = ground (arith, has_partial-snoc tail active m)

IsTail-snoc :
    (tail : Text) (active : List ActiveSentinel) (m : ActiveSentinel)
    → IsTail tail active
    → IsTail tail (active ++ m ∷ [])
IsTail-snoc tail active m (inl e) = inl e
IsTail-snoc tail active m (inr h) = inr (has_partial-snoc tail active m h)

register_runs :
    (marker sentinel : Text) (s : Scanner)
    → is_run_marker marker ≡ true
    → assert_non_empty_string sentinel ≡ ok tt
    → has_marker marker s.active_sentinels ≡ false
    → (let s' : Scanner = record s {
      active_sentinels =
          s.active_sentinels ++ (record { marker = marker; sentinel = sentinel }) ∷ [];
    } in
        assert_pending_tail_bound s' ≡ ok tt → register marker sentinel s ≡ ok s')
unfolding register assert_run_marker
register_runs marker sentinel s is_marker non_empty new bound =
    rw (is_marker, non_empty, new, bound) refl

non_empty_ok :
    (n : ℕ) (sentinel : Text) → length sentinel ≡ suc n → assert_non_empty_string sentinel ≡ ok tt
unfolding assert_non_empty_string
non_empty_ok n [] size = absurd (omega arith)
non_empty_ok n (c ∷ sentinel) size = refl

-- A new run marker is registered with a sentinel that `buildRunCompleteSignalSentinel` builds and no
-- active run has: the scanner accepts it, and stays a scanner whose sentinels are of that length.
pub register-IsScanner :
    (marker token sentinel : Text) (s : Scanner)
    → IsScanner signal_sentinel_length s
    → is_run_marker marker ≡ true
    → build_run_complete_signal_sentinel token ≡ ok sentinel
    → has_marker marker s.active_sentinels ≡ false
    → has_sentinel sentinel s.active_sentinels ≡ false
    → (s' : Scanner) × (register marker sentinel s ≡ ok s')
      × IsScanner signal_sentinel_length s'
      × (has_marker marker s'.active_sentinels ≡ true)
      × (s'.pending_tail ≡ s.pending_tail)
register-IsScanner marker token sentinel s v is_marker built new fresh =
    let m : ActiveSentinel = record { marker = marker; sentinel = sentinel } in
    let (size, begins) = signal_sentinel_shape token sentinel built in
    let fixed =
      AllFixed-snoc signal_sentinel_length s.active_sentinels m v.fixed size begins fresh new in
    let held = IsTail-snoc s.pending_tail s.active_sentinels m v.tail in
    (
      scanner (s.active_sentinels ++ m ∷ []) s.pending_tail,
      register_runs marker sentinel s is_marker (non_empty_ok 11 sentinel size) new (
          bound_ok signal_sentinel_length (s.active_sentinels ++ m ∷ []) s.pending_tail fixed held),
      record { fixed = fixed; tail = held },
      has_marker-new s.active_sentinels m,
      refl,
    )
