-- ===== src/Session/Number.antt =====
-- JavaScript numbers, as the session state tests them: `Number.isInteger(n) && n > 0`.
use agent_tty.Prelude.{ℕ, Bool, true, false, ltb}

-- `negsuc n` is -(n + 1).
pub data ℤ : Type 0 where
  pos : ℕ → ℤ
  negsuc : ℕ → ℤ

-- A number that is no integer (a fraction, NaN, an infinity) is told apart no further: every test
-- of the code asks `Number.isInteger` first.
pub data Number : Type 0 where
  integer : ℤ → Number
  non_integer : Number

abbrev pub is_integer : Number → Bool
is_integer (integer n) = true
is_integer non_integer = false

abbrev is_positive_int : ℤ → Bool
is_positive_int (pos n) = ltb 0 n
is_positive_int (negsuc n) = false

-- `Number.isInteger(n) && n > 0`
abbrev pub is_positive_integer : Number → Bool
is_positive_integer (integer n) = is_positive_int n
is_positive_integer non_integer = false
