-- ===== src/Prelude/CodeUnits.antt =====
-- JavaScript text: a string is the list of its UTF-16 code units.
use Prim.Native.Char.{code}
use Prim.Native.Nat.{ℕ, zero, suc, ◌+◌, ◌/◌, ◌%◌}
use Prim.Native.String.{String}
use mathlib.Core.Path.{◌≡◌, refl}
use mathlib.Core.Bool.{Bool, true, false, ◌&&◌, ◌||◌}
use mathlib.Core.List.{List, [], ◌∷◌, ◌++◌}
use native.Mathlib.Omega.{arith}
use mathlib.Core.Logic.{inl, inr}
use agent_tty.Prelude.Tests.{Bool-cases, ◌==◌, leb, ltb, if◌then◌else◌}
use agent_tty.Prelude.Lists.{drop, length}

abbrev pub Text : Type 0
Text = List ℕ

-- A literal of the source, all of them ASCII.
abbrev pub codes : String → Text
codes String.[] = []
codes (String.◌∷◌ c s) = code c ∷ codes s

-- `chunks.join('')`
unfoldable pub concat : List Text → Text
concat [] = []
concat (chunk ∷ chunks) = chunk ++ concat chunks

-- `text.startsWith(prefix)`
unfoldable pub starts_with : Text → Text → Bool
starts_with [] text = true
starts_with (c ∷ pre) [] = false
starts_with (c ∷ pre) (d ∷ text) = c == d && starts_with pre text

-- `text.includes(part)`
unfoldable pub includes : Text → Text → Bool
unfolding starts_with
includes part [] = starts_with part []
includes part (c ∷ text) = starts_with part (c ∷ text) || includes part text

pub starts_with-append : (pre rest : Text) → starts_with pre (pre ++ rest) ≡ true
unfolding starts_with
starts_with-append [] rest = refl
starts_with-append (c ∷ pre) rest = ground (arith, starts_with-append pre rest)

pub starts_with-drop :
    (pre text : Text) → starts_with pre text ≡ true → pre ++ drop (length pre) text ≡ text
unfolding starts_with
starts_with-drop [] text h = refl
starts_with-drop (c ∷ pre) [] h = ground arith
starts_with-drop (c ∷ pre) (d ∷ text) h = ground (arith, starts_with-drop pre text)

pub drop-length-append : (pre rest : Text) → drop (length pre) (pre ++ rest) ≡ rest
drop-length-append [] rest = refl
drop-length-append (c ∷ pre) rest = drop-length-append pre rest

-- `a === b`
unfoldable pub text_eq : Text → Text → Bool
text_eq [] [] = true
text_eq [] (d ∷ b) = false
text_eq (c ∷ a) [] = false
text_eq (c ∷ a) (d ∷ b) = c == d && text_eq a b

pub text_eq→eq : (a b : Text) → text_eq a b ≡ true → a ≡ b
unfolding text_eq
text_eq→eq [] [] h = refl
text_eq→eq [] (d ∷ b) h = cc
text_eq→eq (c ∷ a) [] h = cc
text_eq→eq (c ∷ a) (d ∷ b) h = ground (arith, text_eq→eq a b)

pub text_eq_refl : (a : Text) → text_eq a a ≡ true
unfolding text_eq
text_eq_refl [] = refl
text_eq_refl (c ∷ a) = ground (arith, text_eq_refl a)

-- `Buffer.byteLength(text)`: the bytes of the text in UTF-8. A surrogate pair takes four; a lone
-- surrogate becomes U+FFFD, of three.
abbrev is_high_surrogate : ℕ → Bool
is_high_surrogate c = leb 0xd800 c && leb c 0xdbff

abbrev is_low_surrogate : ℕ → Bool
is_low_surrogate c = leb 0xdc00 c && leb c 0xdfff

abbrev unit_bytes : ℕ → ℕ
unit_bytes c = if ltb c 0x80 then 1 else if ltb c 0x800 then 2 else 3

unfoldable pub byte_length : Text → ℕ
byte_length [] = 0
byte_length (c ∷ []) = unit_bytes c
byte_length (c ∷ d ∷ text) =
    let pair = 4 + byte_length text in
    let single = unit_bytes c + byte_length (d ∷ text) in
    if is_high_surrogate c && is_low_surrogate d then pair else single

abbrev pub is_digit : ℕ → Bool
is_digit c = leb 48 c && leb c 57

-- The decimal digits of `n`, before `tail`; `fuel` bounds the number of digits.
decimal_from : ℕ → ℕ → Text → Text
decimal_from zero n tail = tail
decimal_from (suc fuel) n tail =
    let more = decimal_from fuel (n / 10) ((48 + n % 10) ∷ tail) in
    if ltb n 10 then (48 + n % 10) ∷ tail else more

-- `String(n)`
unfoldable pub decimal : ℕ → Text
unfolding decimal_from
decimal n = decimal_from (suc n) n []

-- The first character that is no digit, and what follows it: `\d*`.
unfoldable pub skip_digits : Text → Text
skip_digits [] = []
skip_digits (c ∷ text) = let rest = skip_digits text in if is_digit c then rest else c ∷ text

skip_digits-decimal_from :
    (fuel n : ℕ) (tail rest : Text)
    → skip_digits (tail ++ rest) ≡ rest
    → skip_digits (decimal_from fuel n tail ++ rest) ≡ rest
unfolding skip_digits decimal_from
skip_digits-decimal_from zero n tail rest h = h
skip_digits-decimal_from (suc fuel) n tail rest h =
    ground (arith, skip_digits-decimal_from fuel (n / 10) ((48 + n % 10) ∷ tail) rest)

-- Reading past the digits of a number ends where the number does.
pub skip_digits-decimal :
    (n : ℕ) (rest : Text) → skip_digits rest ≡ rest → skip_digits (decimal n ++ rest) ≡ rest
unfolding decimal
skip_digits-decimal n rest h = skip_digits-decimal_from (suc n) n [] rest h

abbrev pub StartsWithDigit : Text → Type 0
StartsWithDigit [] = ⊥
StartsWithDigit (c ∷ text) = is_digit c ≡ true

digit_is_digit : (n : ℕ) → is_digit (48 + n % 10) ≡ true
digit_is_digit n = ground arith

decimal_from-StartsWithDigit :
    (fuel n : ℕ) (tail : Text) → StartsWithDigit tail → StartsWithDigit (decimal_from fuel n tail)
unfolding decimal_from
decimal_from-StartsWithDigit zero n tail h = h
decimal_from-StartsWithDigit (suc fuel) n tail h = elim (Bool-cases (ltb n 10)) [
  | inl last ↦ rw last (digit_is_digit n)
  | inr more ↦ rw more (decimal_from-StartsWithDigit fuel (n / 10) _ (digit_is_digit n))
]

-- A number is written with one digit at least.
pub decimal-StartsWithDigit : (n : ℕ) → StartsWithDigit (decimal n)
unfolding decimal
decimal-StartsWithDigit n = elim (Bool-cases (ltb n 10)) [
  | inl last ↦ rw last (digit_is_digit n)
  | inr more ↦ rw more (decimal_from-StartsWithDigit n (n / 10) _ (digit_is_digit n))
]
