-- ===== src/RunCompletion/Matching.antt =====
-- How the sentinels of src/host/runCompletionSentinel.ts meet the start of a text, and the text behind
-- more output.
use native.Mathlib.Decide.{dec_lt}
use agent_tty.Prelude.{
  ℕ, ◌≤◌, ◌<◌, ◌≡◌, refl, ap, Bool, true, false, ◌&&◌, Option, none, some, List, [], ◌∷◌, ◌++◌,
  Text, text_eq, text_eq_refl, starts_with, length, length-append, ◌==◌, if◌then◌else◌, arith,
  Bool-cases, ◌⊎◌, inl, inr,
}
use agent_tty.RunCompletion.Sentinel.{esc_code}
use agent_tty.RunCompletion.Scanner.{
  ActiveSentinel, has_marker, remove_marker, has_partial_sentinel_match,
}

starts_with-longer : (s t d : Text) → length s ≤ length t → starts_with s (t ++ d) ≡ starts_with s t
unfolding starts_with
starts_with-longer [] t d h = refl
starts_with-longer (c ∷ s) [] d h = absurd (omega arith)
starts_with-longer (c ∷ s) (x ∷ t) d h = ap (c == x &&◌) (starts_with-longer s t d (omega arith))

starts_with-shorter : (s t : Text) → length t < length s → starts_with s t ≡ false
unfolding starts_with
starts_with-shorter [] t h = absurd (omega arith)
starts_with-shorter (c ∷ s) [] h = refl
starts_with-shorter (c ∷ s) (x ∷ t) h = ground (arith, starts_with-shorter s t (omega arith))

-- A text that more output completes to a match is a part of it.
starts_with_flip :
    (s t d : Text) → length t < length s → starts_with s (t ++ d) ≡ true → starts_with t s ≡ true
unfolding starts_with
starts_with_flip s [] d h e = refl
starts_with_flip [] (x ∷ t) d h e = absurd (omega arith)
starts_with_flip (c ∷ s) (x ∷ t) d h e = ground (arith, starts_with_flip s t d (omega arith))

starts_with_left : (t d s : Text) → starts_with (t ++ d) s ≡ true → starts_with t s ≡ true
unfolding starts_with
starts_with_left [] d s e = refl
starts_with_left (x ∷ t) d [] e = cc
starts_with_left (x ∷ t) d (c ∷ s) e = ground (arith, starts_with_left t d s)

starts_with_drop_length : (s t : Text) → starts_with s t ≡ true → length s ≤ length t
unfolding starts_with
starts_with_drop_length [] t e = omega arith
starts_with_drop_length (c ∷ s) [] e = cc
starts_with_drop_length (c ∷ s) (x ∷ t) e = ground (arith, starts_with_drop_length s t)

-- Two texts of one length that a text starts with are the same.
pub starts_with_same :
    (s r t : Text)
    → length s ≡ length r
    → starts_with s t ≡ true
    → starts_with r t ≡ true
    → text_eq s r ≡ true
unfolding starts_with text_eq
starts_with_same [] [] t h e e' = refl
starts_with_same [] (d ∷ r) t h e e' = absurd (omega arith)
starts_with_same (c ∷ s) [] t h e e' = absurd (omega arith)
starts_with_same (c ∷ s) (d ∷ r) [] h e e' = cc
starts_with_same (c ∷ s) (d ∷ r) (x ∷ t) h e e' =
    ground (arith, starts_with_same s r t (omega arith))

-- `has` by the sentinel
unfoldable pub has_sentinel : Text → List ActiveSentinel → Bool
has_sentinel sentinel [] = false
has_sentinel sentinel (m ∷ active) =
    let rest = has_sentinel sentinel active in if text_eq m.sentinel sentinel then true else rest

-- The active sentinels begin with ESC, are all of one length, and differ; so do their markers.
abbrev pub AllFixed : ℕ → List ActiveSentinel → Type 0
AllFixed n [] = Unit
AllFixed n (m ∷ active) =
    (length m.sentinel ≡ n)
    × (starts_with (esc_code ∷ []) m.sentinel ≡ true)
    × (has_sentinel m.sentinel active ≡ false)
    × (has_marker m.marker active ≡ false)
    × AllFixed n active

-- The first active sentinel that the text starts with.
unfoldable pub find_match : Text → List ActiveSentinel → Option ActiveSentinel
find_match text [] = none
find_match text (m ∷ active) =
    let rest = find_match text active in if starts_with m.sentinel text then some m else rest

-- Where the text is as long as a sentinel, or no part of one, more output changes no match.
pub find_match-append :
    (n : ℕ) (active : List ActiveSentinel) (t d : Text)
    → AllFixed n active
    → (n ≤ length t) ⊎ (has_partial_sentinel_match t active ≡ false)
    → find_match (t ++ d) active ≡ find_match t active
unfolding find_match has_partial_sentinel_match
find_match-append n [] t d fixed h = refl
find_match-append n (m ∷ active) t d fixed (inl long) = ground (
  arith,
  starts_with-longer m.sentinel t d (omega arith),
  find_match-append n active t d fixed.4 (inl long),
)
find_match-append n (m ∷ active) t d fixed (inr free) =
    let rest = find_match-append n active t d fixed.4 (inr (ground (arith, free))) in
    elim (dec_lt (length t) (length m.sentinel)) [
      | yes short ↦ ground (
        arith,
        rest,
        starts_with-shorter m.sentinel t short,
        starts_with_flip m.sentinel t d short,
        free,
      )
      | no long ↦ ground (arith, rest, starts_with-longer m.sentinel t d (omega arith))
    ]

pub has_partial-append :
    (active : List ActiveSentinel) (t d : Text)
    → has_partial_sentinel_match t active ≡ false
    → has_partial_sentinel_match (t ++ d) active ≡ false
unfolding has_partial_sentinel_match
has_partial-append [] t d h = refl
has_partial-append (m ∷ active) t d h =
    ground
      (arith, has_partial-append active t d, starts_with_left t d m.sentinel, length-append t d)

-- A match is as long as every sentinel, is active, and lies at the start of the text.
pub record IsMatch (n : ℕ) (text : Text) (active : List ActiveSentinel) (m : ActiveSentinel)
    : Type 0 where
  pub size : length m.sentinel ≡ n
  pub starts : starts_with m.sentinel text ≡ true
  pub begins : starts_with (esc_code ∷ []) m.sentinel ≡ true
  pub fits : n ≤ length text
  pub known : has_marker m.marker active ≡ true

pub find_match-IsMatch :
    (n : ℕ) (active : List ActiveSentinel) (text : Text) (m : ActiveSentinel)
    → AllFixed n active
    → find_match text active ≡ some m
    → IsMatch n text active m
unfolding find_match has_marker
find_match-IsMatch n [] text m fixed h = cc
find_match-IsMatch n (x ∷ active) text m fixed h = elim (Bool-cases (starts_with x.sentinel text)) [
  | inl here ↦
      ground (arith, here, starts_with_drop_length x.sentinel text here, text_eq_refl x.marker)
  | inr further ↦
      let rest = find_match-IsMatch n active text m fixed.4 (ground arith) in
      record {
        size = rest.size;
        starts = rest.starts;
        begins = rest.begins;
        fits = rest.fits;
        known = ground (arith, rest.known);
      }
]

has_sentinel-remove :
    (marker sentinel : Text) (active : List ActiveSentinel)
    → has_sentinel sentinel active ≡ false
    → has_sentinel sentinel (remove_marker marker active) ≡ false
unfolding has_sentinel remove_marker
has_sentinel-remove marker sentinel [] h = refl
has_sentinel-remove marker sentinel (m ∷ active) h =
    ground (arith, has_sentinel-remove marker sentinel active)

has_marker-remove :
    (marker other : Text) (active : List ActiveSentinel)
    → has_marker other active ≡ false
    → has_marker other (remove_marker marker active) ≡ false
unfolding has_marker remove_marker
has_marker-remove marker other [] h = refl
has_marker-remove marker other (m ∷ active) h =
    ground (arith, has_marker-remove marker other active)

pub remove_marker-AllFixed :
    (n : ℕ) (marker : Text) (active : List ActiveSentinel)
    → AllFixed n active
    → AllFixed n (remove_marker marker active)
unfolding remove_marker
remove_marker-AllFixed n marker [] fixed = tt
remove_marker-AllFixed n marker (m ∷ active) fixed = elim (Bool-cases (text_eq m.marker marker)) [
  | inl this ↦ rw this fixed.4
  | inr other ↦ rw other (
    fixed.0,
    fixed.1,
    has_sentinel-remove marker m.sentinel active fixed.2,
    has_marker-remove marker m.marker active fixed.3,
    remove_marker-AllFixed n marker active fixed.4,
  )
]
