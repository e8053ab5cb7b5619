-- ===== src/Coordinator/Escapes.antt =====
-- src/host/runCompletionCoordinator.ts: the octal escapes of a postamble, and what texts they can hold.
use agent_tty.Prelude.{
  includes, ℕ, zero, suc, ◌+◌, ◌-◌, ◌*◌, ◌/◌, ◌%◌, ◌≤◌, ◌<◌, ◌≡◌, refl, ap, Bool, true, false, some,
  List, [], ◌∷◌, ◌++◌, Text, codes, starts_with, take, drop, length, ◌==◌, All, arith, Bool-cases,
  Option-cases, ◌⊎◌, inl, inr,
}
use agent_tty.RunCompletion.Sentinel.{is_run_marker, is_hex_digit, skip_chars}
use agent_tty.Coordinator.Postamble.{escaped_bytes, marker_payload}

abbrev pub IsAscii : Text → Type 0
IsAscii text = All (λ c. c < 128) text

-- Characters that pass a test, read by `skip_chars`.
skip_chars-All :
    (test : ℕ → Bool) (n : ℕ) (text rest : Text)
    → skip_chars test n text ≡ some rest
    → All (λ c. test c ≡ true) (take n text) × (length (take n text) ≡ n)
unfolding skip_chars
skip_chars-All test zero text rest h = (tt, refl)
skip_chars-All test (suc n) [] rest h = cc
skip_chars-All test (suc n) (c ∷ text) rest h = elim (Bool-cases (test c)) [
  | inr fails ↦ absurd (ground (arith, h, fails))
  | inl passes ↦
      let (all, size) = skip_chars-All test n text rest (ground (arith, h, passes)) in
      ((passes, all), omega (arith, size))
]

pub payload_lem :
    (marker : Text)
    → is_run_marker marker ≡ true
    → All (λ c. is_hex_digit c ≡ true) (marker_payload marker)
      × (length (marker_payload marker) ≡ 32)
unfolding is_run_marker
payload_lem marker h =
    let body = drop (length (codes "__AT_MARKER_")) marker in
    elim (Option-cases (skip_chars is_hex_digit 32 body)) [
      | inl e ↦ absurd (ground (arith, h, e))
      | inr (rest, e) ↦ skip_chars-All is_hex_digit 32 body rest e
    ]

-- A text in which no more than three hex digits follow each other, `room` of them at its start.
abbrev pub Sparse : ℕ → Text → Type 0
Sparse room [] = Unit
Sparse room (c ∷ text) =
    ((is_hex_digit c ≡ true) × (0 < room) × Sparse (room - 1) text)
    ⊎ ((is_hex_digit c ≡ false) × Sparse 3 text)

starts_with-Sparse :
    (room : ℕ) (part text : Text)
    → All (λ c. is_hex_digit c ≡ true) part
    → Sparse room text
    → starts_with part text ≡ true
    → length part ≤ room
unfolding starts_with
starts_with-Sparse room [] text hex sparse h = omega arith
starts_with-Sparse room (x ∷ part) [] hex sparse h = cc
starts_with-Sparse room (x ∷ part) (c ∷ text) hex (inl (_, some_room, sparse)) h =
    omega
      (arith, starts_with-Sparse (room - 1) part text hex.1 sparse (ground (arith, h)), some_room)
starts_with-Sparse room (x ∷ part) (c ∷ text) hex (inr (no_hex, sparse)) h =
    let same : x ≡ c = ground (arith, h) in absurd (cc (ap is_hex_digit same, hex.0, no_hex))

pub includes-Sparse :
    (room : ℕ) (part text : Text)
    → room ≤ 3
    → 3 < length part
    → All (λ c. is_hex_digit c ≡ true) part
    → Sparse room text
    → includes part text ≡ false
unfolding includes
includes-Sparse room part [] small long hex sparse = elim (Bool-cases (starts_with part [])) [
  | inr other ↦ other
  | inl here ↦ absurd (omega (arith, starts_with-Sparse 0 part [] hex tt here))
]
includes-Sparse room part (c ∷ text) small long hex sparse =
    elim (Bool-cases (starts_with part (c ∷ text))) [
      | inl here ↦ absurd (omega (arith, starts_with-Sparse room part (c ∷ text) hex sparse here))
      | inr other ↦ rw other (elim sparse [
        | inl (_, some_room, rest) ↦
            includes-Sparse (room - 1) part text (omega arith) long hex rest
        | inr (_, rest) ↦ includes-Sparse 3 part text (omega arith) long hex rest
      ])
    ]

-- A text that does not have the first character of a part.
pub includes_missing :
    (h : ℕ) (part text : Text) → All (λ c. (h == c) ≡ false) text → includes (h ∷ part) text ≡ false
unfolding includes starts_with
includes_missing h part [] missing = refl
includes_missing h part (c ∷ text) missing = rw missing.0 (includes_missing h part text missing.1)

octal_is_hex : (q : ℕ) → q < 8 → is_hex_digit (b'0' + q) ≡ true
octal_is_hex q small = ground arith

octal_digit_small : (byte : ℕ) → byte < 128 → (byte / 64 < 8) × (byte / 8 % 8 < 8) × (byte % 8 < 8)
octal_digit_small byte small = (omega arith, omega arith, omega arith)

-- Each byte is a backslash and three octal digits, so no fourth hex digit follows three.
pub escaped-Sparse :
    (room : ℕ) (bytes : List ℕ)
    → All (λ byte. byte < 128) bytes
    → Sparse room (escaped_bytes bytes ++ b'\'' ∷ [])
unfolding escaped_bytes
escaped-Sparse room [] ascii = inr (refl, tt)
escaped-Sparse room (byte ∷ bytes) (small, ascii) =
    let (high, middle, low) = octal_digit_small byte small in
    inr (
      refl,
      inl (
        octal_is_hex _ high,
        omega arith,
        inl (
          octal_is_hex _ middle,
          omega arith,
          inl (octal_is_hex _ low, omega arith, escaped-Sparse 0 bytes ascii),
        ),
      ),
    )

-- No character of an escape is another one than a backslash or an octal digit.
pub escaped-differs :
    (h : ℕ) (bytes : List ℕ)
    → 56 ≤ h
    → (h == b'\\') ≡ false
    → All (λ byte. byte < 128) bytes
    → All (λ c. (h == c) ≡ false) (escaped_bytes bytes)
unfolding escaped_bytes
escaped-differs h [] large other ascii = tt
escaped-differs h (byte ∷ bytes) large other (small, ascii) =
    let (high, middle, low) = octal_digit_small byte small in
    (
      other,
      (
        digit_differs high,
        (digit_differs middle, (digit_differs low, escaped-differs h bytes large other ascii)),
      ),
    )
  where
    digit_differs : {q : ℕ} → q < 8 → (h == b'0' + q) ≡ false
    digit_differs small = ground (arith, large)

pub length-escaped_bytes : (bytes : List ℕ) → length (escaped_bytes bytes) ≡ 4 * length bytes
unfolding escaped_bytes
length-escaped_bytes [] = refl
length-escaped_bytes (byte ∷ bytes) = omega (arith, length-escaped_bytes bytes)
